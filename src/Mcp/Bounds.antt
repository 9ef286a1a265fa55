-- ===== src/Mcp/Bounds.antt =====
-- What the options of a server and of a tool can build: every tool call has a deadline.
use goga.Prelude.{
  ◌≡◌, ◌≤◌, ◌<◌, inl, inr, ℕ, String, Option, none, some, List, [], ◌∷◌, map, arith, ltb,
  Bool-cases, Option-cases,
}
use goga.Prelude.Dict.{Dict}
use goga.Errors.{ok}
use goga.Context.{Context, with_timeout}
use goga.Options.{apply}
use goga.Registry.{Registry}
use goga.Mcp.Settings.{
  Authenticator, Settings, McpOption, defaults, with_name, with_version, with_instructions,
  with_tool_timeout, with_endpoint, with_authenticator, with_telemetry, with_transport,
  with_transport_registry, with_transport_settings,
}
use goga.Mcp.Details.{
  ToolSettings, ToolOption, with_tool_title, with_tool_annotations, with_tool_call_timeout,
}
use goga.Mcp.Server.{Server, new}
use goga.Mcp.Handlers.{Outcome, handle_tool, tool_settings}
use goga.Mcp.Handlers.Contained.{calls, tool_calls}

-- A call of one of the option functions of a tool, with its arguments
pub data ToolCall : Type 0 where
  title : String → ToolCall
  annotations : Option ℕ → ToolCall
  call_timeout : ℕ → ToolCall

abbrev pub tool_option_of : ToolCall → ToolOption
tool_option_of (title t) = with_tool_title t
tool_option_of (annotations a) = with_tool_annotations a
tool_option_of (call_timeout d) = with_tool_call_timeout d

tool_option-positive :
    (c : ToolCall) (s : ToolSettings) → 0 < s.timeout → 0 < (tool_option_of c s).0.timeout
unfolding with_tool_title with_tool_annotations with_tool_call_timeout
tool_option-positive (title t) s h = ground arith
tool_option-positive (annotations none) s h = h
tool_option-positive (annotations (some a)) s h = h
tool_option-positive (call_timeout d) s h = ground arith

tool_options-positive :
    (cs : List ToolCall) (s : ToolSettings)
    → 0 < s.timeout
    → 0 < (apply s (map tool_option_of cs)).0.timeout
unfolding apply
tool_options-positive [] s h = h
tool_options-positive (c ∷ cs) s h =
    let next = tool_option-positive c s h in
    elim (Option-cases (tool_option_of c s).1) [
      | inl good ↦ let rest = tool_options-positive cs (tool_option_of c s).0 next in ground arith
      | inr (e, bad) ↦ ground arith
    ]

with_timeout-left :
    (d : ℕ) (ctx : Context) → (l : ℕ) × ((with_timeout d ctx).left ≡ some l) × (l ≤ d)
unfolding with_timeout
with_timeout-left d ctx = elim (Option-cases ctx.left) [
  | inl free ↦ (d, ground arith, ground arith)
  | inr (l, given) ↦ elim (Bool-cases (ltb l d)) [
    | inl sooner ↦ (l, ground arith, ground arith)
    | inr later ↦ (d, ground arith, ground arith)
  ]
]

module _ (Any Request : Type 0) where
  -- A call of one of the option functions of New, with its arguments
  pub data Call : Type 0 where
    name version instructions endpoint transport : String → Call
    tool_timeout : ℕ → Call
    authenticator : Option (Authenticator Request) → Call
    telemetry : Option String → Call
    transport_registry : Option (Registry Any) → Call
    transport_settings : Dict Any → Call

  abbrev pub option_of : Call → McpOption Any Request
  option_of (name n) = with_name Any Request n
  option_of (version v) = with_version Any Request v
  option_of (instructions t) = with_instructions Any Request t
  option_of (endpoint a) = with_endpoint Any Request a
  option_of (transport t) = with_transport Any Request t
  option_of (tool_timeout d) = with_tool_timeout Any Request d
  option_of (authenticator a) = with_authenticator Any Request a
  option_of (telemetry i) = with_telemetry Any Request i
  option_of (transport_registry r) = with_transport_registry Any Request r
  option_of (transport_settings given) = with_transport_settings Any Request given

  option-positive :
      (c : Call) (s : Settings Any Request)
      → 0 < s.tool_timeout
      → 0 < (option_of c s).0.tool_timeout
  unfolding with_name with_version with_instructions with_endpoint with_transport with_tool_timeout
      with_authenticator with_telemetry with_transport_registry with_transport_settings
  option-positive (name n) s h = ground arith
  option-positive (version v) s h = ground arith
  option-positive (instructions t) s h = h
  option-positive (endpoint a) s h = ground arith
  option-positive (transport t) s h = ground arith
  option-positive (tool_timeout d) s h = ground arith
  option-positive (authenticator none) s h = h
  option-positive (authenticator (some a)) s h = h
  option-positive (telemetry none) s h = h
  option-positive (telemetry (some i)) s h = h
  option-positive (transport_registry none) s h = h
  option-positive (transport_registry (some r)) s h = h
  option-positive (transport_settings given) s h = h

  options-positive :
      (cs : List Call) (s : Settings Any Request)
      → 0 < s.tool_timeout
      → 0 < (apply s (map option_of cs)).0.tool_timeout
  unfolding apply
  options-positive [] s h = h
  options-positive (c ∷ cs) s h =
      let next = option-positive c s h in
      elim (Option-cases (option_of c s).1) [
        | inl good ↦ let rest = options-positive cs (option_of c s).0 next in ground arith
        | inr (e, bad) ↦ ground arith
      ]

  module _ (Transport : Type 0) where
    new-positive :
        (cs : List Call) (s : Server Any Request Transport)
        → new Any Request Transport (map option_of cs) ≡ ok s
        → 0 < s.settings.tool_timeout
    unfolding new
    new-positive cs s made =
        let all = options-positive cs (defaults Any Request) (ground arith) in
        elim (Option-cases (apply (defaults Any Request) (map option_of cs)).1) [
          | inl good ↦ ground arith
          | inr (e, bad) ↦ ground arith
        ]

    -- Every tool of a server that New built has a deadline, whatever options both were given and
    -- whatever context a request comes with: its function is called once, in a context that has some
    -- time left, at most the tool's time-out, which is positive.
    pub tools_bounded :
        {In Out : Type 0} (cs : List Call) (s : Server Any Request Transport) (tcs : List ToolCall)
        (ts : ToolSettings) (label : String) (fn : Context → In → Outcome Out) (ctx : Context)
        (session : Option String) (arguments : In)
        → new Any Request Transport (map option_of cs) ≡ ok s
        → tool_settings s.settings.tool_timeout (map tool_option_of tcs) ≡ some ts
        → (0 < ts.timeout)
          × ((c : Context) × (l : ℕ) × (calls (handle_tool label ts fn ctx session arguments).0
                ≡ c ∷ [])
              × (c.left ≡ some l)
              × (l ≤ ts.timeout))
    unfolding tool_settings
    tools_bounded cs s tcs ts label fn ctx session arguments made added =
        let start : ToolSettings = record {
          title = "";
          annotations = none;
          timeout = s.settings.tool_timeout;
        } in
        let all = tool_options-positive tcs start (new-positive cs s made) in
        let positive : 0 < ts.timeout =
          elim (Option-cases (apply start (map tool_option_of tcs)).1) [
            | inl good ↦ ground arith
            | inr (e, bad) ↦ ground arith
          ] in
        let (l, left, bound) = with_timeout-left ts.timeout ctx in
        (
          positive,
          (
            with_timeout ts.timeout ctx,
            l,
            tool_calls label ts fn ctx session arguments,
            left,
            bound,
          ),
        )
