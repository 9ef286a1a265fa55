-- ===== src/Mcp/Handlers.antt =====
-- mcp/tool.go, mcp/prompt.go and mcp/resource.go: what is registered for a tool, a prompt or a
-- resource, and what a request to it does. A panic of the project's function is a value; Context is
-- the time that is left, and the trace context is passed on beside it.
pub mod Contained
pub mod Textual
use goga.Prelude.{
  ℕ, String, Bool, true, false, Option, none, some, List, [], ◌∷◌, ◌++◌, ◌==◌, ◌||◌, if◌then◌else◌,
}
use goga.Prelude.Dict.{Dict}
use goga.Errors
use goga.Errors.{ok, err, raw, wrap, within, ◌>>=◌}
use goga.Context.{Context, with_timeout}
use goga.Options.{apply}
use goga.Semconv.{KeyValue, mcp_tool_name, mcp_session_id, mcp_prompt_name, mcp_resource_uri}
use goga.Mcp.Settings
use goga.Mcp.Settings.{Failure, Error, Result, Kind, tool, resource, prompt, panicked}
use goga.Mcp.Details.{
  ToolSettings, ToolOption, PromptSettings, PromptArgument, PromptOption, ResourceSettings,
  ResourceOption,
}
use goga.Mcp.Handlers.Textual.{is_textual, trim_space, has_prefix}

-- How a project's function ends
pub data Outcome (A : Type 0) : Type 0 where
  returned : Result A → Outcome A
  panics : ℕ → Outcome A

pub data Act : Type 0 where
  opened : String → List KeyValue → Act
  called : Context → Act
  logged : Kind → String → ℕ → Act
  -- The closer of the span, and the cancellation of the time-out
  closed : Option Error → Act
  released : Act

abbrev pub Handled : Type 0 → Type 0
Handled A = List Act × Result A

-- The deferred function: a panic becomes an error that is logged, and the span ends with the error.
unfoldable pub contain :
    {A B : Type 0} → Kind → String → Outcome A → (Result A → Result B) → Handled B
contain kind name (returned r) finish =
    let result = finish r in (closed (elim result [ ok b ↦ none | err e ↦ some e ]) ∷ [], result)
contain kind name (panics v) finish =
    let e : Error = raw (panicked kind name v) in (logged kind name v ∷ closed (some e) ∷ [], err e)

-- AddTool's options over the server's time-out; where they fail it panics, which is `none` here.
unfoldable pub tool_settings : ℕ → List ToolOption → Option ToolSettings
unfolding apply
tool_settings timeout opts =
    let (ts, failure) = apply (record { title = ""; annotations = none; timeout = timeout }) opts in
    elim failure [ none ↦ some ts | some e ↦ none ]

unfoldable pub prompt_settings : List PromptArgument → List PromptOption → Option PromptSettings
unfolding apply
prompt_settings arguments opts =
    let (ps, failure) = apply (record { title = ""; arguments = arguments }) opts in
    elim failure [ none ↦ some ps | some e ↦ none ]

unfoldable pub resource_settings : List ResourceOption → Option ResourceSettings
unfolding apply
resource_settings opts =
    let (rs, failure) = apply (record { title = ""; description = ""; mime_type = "" }) opts in
    elim failure [ none ↦ some rs | some e ↦ none ]

-- `ToolError`, around an error of the tool
abbrev pub tool_error : {A : Type 0} → String → Result A → Result A
tool_error name (ok a) = ok a
tool_error name (err e) = err (wrap name e)

-- `sessionID`, where a request may have no session
unfoldable pub session_id : Option String → String
session_id none = ""
session_id (some id) = id

-- The handler that AddTool registers; the session is none where the request has none.
unfoldable pub handle_tool :
    {In Out : Type 0}
    → String
    → ToolSettings
    → (Context → In → Outcome Out)
    → Context
    → Option String
    → In
    → Handled Out
unfolding contain with_timeout mcp_tool_name mcp_session_id session_id
handle_tool name ts fn ctx session arguments =
    let bounded = with_timeout ts.timeout ctx in
    let (acts, result) = contain tool name (fn bounded arguments) (tool_error name) in
    (
      opened "tool" (mcp_tool_name name ∷ mcp_session_id (session_id session) ∷ [])
            ∷ called bounded
            ∷ acts
          ++ released ∷ [],
      result,
    )

pub record Contents : Type 0 where
  pub uri : String
  pub mime_type : String
  pub is_text : Bool
  pub data_bytes : String

-- The contents of a resource, from its bytes and its own MIME type
unfoldable pub contents : String → ResourceSettings → String × String → Contents
unfolding is_textual
contents uri rs (bytes, own) =
    let mime = if own == "" then rs.mime_type else own in
    record { uri = uri; mime_type = mime; is_text = is_textual mime; data_bytes = bytes }

-- The handler that AddResource registers
unfoldable pub handle_resource :
    String
    → ResourceSettings
    → (Context → String → Outcome (String × String))
    → Context
    → String
    → Handled Contents
unfolding contain contents mcp_resource_uri
handle_resource uri rs fn ctx requested =
    let (acts, result) =
      contain resource uri (fn ctx requested) (λ r.
        within "goga/mcp: reading resource" r >>= (λ read. ok (contents requested rs read))) in
    (opened "resource" (mcp_resource_uri uri ∷ []) ∷ called ctx ∷ acts, result)

module _ (In Messages : Type 0) where
  -- encoding/json, and the zero value of the arguments
  pub record Json : Type 0 where
    -- Whether a text is JSON, and then whether it is a string
    pub probe : String → Option Bool
    pub marshal_text : String → Result String
    pub marshal : Dict String → Result String
    pub unmarshal : String → Result In
    pub zero_value : In

  -- `rawJSONValue`
  unfoldable pub raw_json_value : Json → String → Option String
  unfolding trim_space has_prefix
  raw_json_value json value =
      let trimmed = trim_space value in
      if trimmed == "" || has_prefix "\"" trimmed then none else elim (json.probe trimmed) [
        | none ↦ none
        | some is_string ↦ if is_string then none else some trimmed
      ]

  -- The loop of decodePromptArguments
  unfoldable pub json_object : Json → Dict String → Result (Dict String)
  unfolding raw_json_value
  json_object json [] = ok []
  json_object json ((key, value) ∷ args) =
      let rest = json_object json args in
      elim (raw_json_value json value) [
        | some unquoted ↦ (do object ← rest; ok ((key, unquoted) ∷ object))
        | none ↦ (do
          encoded ← within "encoding argument" (json.marshal_text value)
          object ← rest
          ok ((key, encoded) ∷ object))
      ]

  -- `decodePromptArguments`
  unfoldable pub decode_prompt_arguments : Json → Dict String → Result In
  unfolding json_object
  decode_prompt_arguments json [] = ok json.zero_value
  decode_prompt_arguments json (arg ∷ args) = do
    object ← json_object json (arg ∷ args)
    encoded ← within "encoding arguments" (json.marshal object)
    within "decoding arguments" (json.unmarshal encoded)

  -- The handler that AddPrompt registers
  unfoldable pub handle_prompt :
      Json → String → (Context → In → Outcome Messages) → Context → Dict String → Handled Messages
  unfolding contain decode_prompt_arguments mcp_prompt_name
  handle_prompt json name fn ctx args =
      let start = opened "prompt" (mcp_prompt_name name ∷ []) in
      elim (decode_prompt_arguments json args) [
        | err e ↦ (
          start ∷ closed (some (wrap "goga/mcp: prompt" e)) ∷ [],
          err (wrap "goga/mcp: prompt" e),
        )
        | ok decoded ↦
            let (acts, result) =
              contain prompt name (fn ctx decoded) (within "goga/mcp: rendering prompt") in
            (start ∷ called ctx ∷ acts, result)
      ]
