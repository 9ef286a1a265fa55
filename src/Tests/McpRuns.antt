-- ===== src/Tests/McpRuns.antt =====
-- mcp/: a registered transport, a tool that panics, and a transport that listens.
use goga.Prelude.{
  ℕ, ◌≡◌, ◌≤◌, ◌<◌, refl, String, true, false, none, some, List, [], ◌∷◌, ◌==◌, if◌then◌else◌,
}
use goga.Prelude.Dict.{lookup, insert}
use goga.Errors.{ok, err, raw}
use goga.Context.{Context, background, with_timeout}
use goga.Options.{apply}
use goga.Registry
use goga.Registry.{Registry, Raw, decode_settings}
use goga.Mcp.Settings.{
  Result, Settings, defaults, with_tool_timeout, tool, resource, prompt, foreign,
}
use goga.Mcp.Details.{ToolSettings, ResourceSettings, with_tool_call_timeout}
use goga.Mcp.Server.{Server, Port, new, register_transport, resolve}
use goga.Mcp.Server.Resolving.{registered_transport}
use goga.Mcp.Handlers.{
  Outcome, returned, panics, Json, handle_tool, handle_resource, handle_prompt,
  decode_prompt_arguments, tool_settings,
}
use goga.Mcp.Handlers.Contained.{Contained, calls, handlers-Contained}
use goga.Mcp.Bounds.{ToolCall, call_timeout, Call, tool_timeout, tools_bounded}
use goga.Mcp.Transports.{
  pos, HttpSettings, HttpTransport, SseSettings, SseTransport, new_http, new_sse,
}
use goga.Mcp.Transports.Serving.{Serves, transports_serve}

abbrev ts : ToolSettings
ts = record { title = ""; annotations = none; timeout = 20 }

abbrev rs : ResourceSettings
rs = record { title = ""; description = ""; mime_type = "text/plain" }

abbrev json : Json ℕ ℕ
json = record {
  probe = λ s. none;
  marshal_text = λ s. ok s;
  marshal = λ m. ok "{}";
  unmarshal = λ s. ok 3;
  zero_value = 0;
}

abbrev adds : Context → ℕ → Outcome ℕ
adds ctx n = panics n

abbrev reads : Context → String → Outcome (String × String)
reads ctx uri = returned (err (raw (foreign 4)))

abbrev renders : Context → ℕ → Outcome ℕ
renders ctx n = returned (ok n)

handlers-Contained_example :
    Contained {A = ℕ} tool "sum"
      (with_timeout 20 background)
      (panics 6)
      (handle_tool "sum" ts adds background none 6)
    × Contained resource "sum" background
        (reads background "file:///a")
        (handle_resource "sum" rs reads background "file:///a")
    × Contained prompt "sum" background
        (renders background 0)
        (handle_prompt ℕ ℕ json "sum" renders background [])
unfolding decode_prompt_arguments
handlers-Contained_example =
    handlers-Contained "sum" ts rs json background adds none 6 reads "file:///a" renders [] 0 refl

-- A server whose context values are numbers, and one of its tools
abbrev given : List (Call ℕ ℕ)
given = tool_timeout 50 ∷ []

abbrev tool_given : List ToolCall
tool_given = call_timeout 20 ∷ []

abbrev server : Server ℕ ℕ ℕ
server =
    let s : Settings ℕ ℕ = record (defaults ℕ ℕ) { tool_timeout = 50 } in
    record { settings = s; middleware = none }

tools_bounded_example :
    (0 < 20)
    × ((c : Context) × (l : ℕ) × (calls (handle_tool "sum" ts adds background none 4).0 ≡ c ∷ [])
        × (c.left ≡ some l)
        × (l ≤ 20))
unfolding new tool_settings apply with_tool_call_timeout with_tool_timeout
tools_bounded_example =
    tools_bounded ℕ ℕ ℕ given server tool_given ts "sum" adds background none 4 refl refl

abbrev from_config : HttpSettings
from_config = record {
  endpoint = "";
  write_timeout = pos 0;
  stateless = true;
  json_response = false;
}

abbrev http : HttpTransport
http = record {
  endpoint = ":9";
  write_timeout = 1800000000000;
  stateless = true;
  json_response = false;
}

abbrev sse_config : SseSettings
sse_config = record { endpoint = ":7"; write_timeout = pos 4; disable_localhost_protection = false }

abbrev sse : SseTransport
sse = record { endpoint = ":7"; write_timeout = 4; disable_localhost_protection = false }

abbrev on_nine : Settings ℕ ℕ
on_nine = record (defaults ℕ ℕ) { endpoint = ":9" }

transports_serve_example :
    (http.endpoint
      ≡ (if from_config.endpoint == "" then on_nine.endpoint else from_config.endpoint))
    × Serves ℕ (λ h. h) 3 ":9" 1800000000000
    × (sse.endpoint ≡ (if sse_config.endpoint == "" then on_nine.endpoint else sse_config.endpoint))
    × Serves ℕ (λ h. h) 3 ":7" 4
unfolding new_http new_sse
transports_serve_example =
    transports_serve ℕ (λ h. h) ℕ ℕ on_nine 3 from_config http sse_config sse refl refl

-- The constructor of a transport: its settings are a number, and the transport is that number.
abbrev dial : Context → Settings ℕ ℕ → ℕ → Result ℕ
dial ctx ms adapter = ok adapter

abbrev port : Port ℕ ℕ ℕ
port = record {
  port = 1;
  of_factory = λ f. 0;
  as_factory = λ value ctx ms. ok 4;
  zero_value = λ t. 0;
}

abbrev empty : Registry ℕ
empty = record { decode = λ raw_settings t. ok 4; entries = [] }

abbrev filled : Registry ℕ
filled = record empty {
  entries = ("sse", record { port = 1; settings = 2; ctor = λ adapter. ok 0 }) ∷ [];
}

abbrev asks : Settings ℕ ℕ
asks = record (defaults ℕ ℕ) {
  transport = "sse";
  reg = some filled;
  raw_settings = ("port", 4) ∷ [];
}

registered_transport_example : resolve ℕ ℕ ℕ port 9 background asks ≡ dial background asks 4
unfolding register_transport Registry.register insert lookup decode_settings
registered_transport_example =
    registered_transport ℕ ℕ ℕ port 9 empty filled 2 dial background asks 4 refl refl refl refl
