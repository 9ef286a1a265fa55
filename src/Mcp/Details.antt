-- ===== src/Mcp/Details.antt =====
-- The options of one tool, prompt, resource or client: mcp/tool.go, prompt.go, resource.go and
-- client.go. Annotations and a client's transport are the SDK's and stand as numbers.
use goga.Prelude.{ℕ, String, Bool, Option, none, some, List, [], ◌∷◌, ltb, ◌==◌, if◌then◌else◌}
use goga.Errors.{raw}
use goga.Options.{Setter}
use goga.Mcp.Settings.{
  Failure, tool, resource, prompt, empty_title, nil_annotations, bad_call_timeout,
  no_prompt_arguments, empty_description, empty_mime_type, nil_client_transport, empty_client_name,
  empty_client_version, bad_client_timeout, nil_telemetry,
}

pub record ToolSettings : Type 0 where
  pub title : String
  pub annotations : Option ℕ
  pub timeout : ℕ

abbrev pub ToolOption : Type 0
ToolOption = Setter Failure ToolSettings

unfoldable pub with_tool_title : String → ToolOption
with_tool_title title s =
    if title == "" then (s, some (raw (empty_title tool))) else (record s { title = title }, none)

unfoldable pub with_tool_annotations : Option ℕ → ToolOption
with_tool_annotations none s = (s, some (raw nil_annotations))
with_tool_annotations (some a) s = (record s { annotations = some a }, none)

unfoldable pub with_tool_call_timeout : ℕ → ToolOption
with_tool_call_timeout d s =
    if ltb 0 d then (record s { timeout = d }, none) else (s, some (raw bad_call_timeout))

pub record PromptArgument : Type 0 where
  pub name : String
  pub required : Bool

pub record PromptSettings : Type 0 where
  pub title : String
  pub arguments : List PromptArgument

abbrev pub PromptOption : Type 0
PromptOption = Setter Failure PromptSettings

unfoldable pub with_prompt_title : String → PromptOption
with_prompt_title title s =
    if title == "" then (s, some (raw (empty_title prompt))) else (record s { title = title }, none)

unfoldable pub with_prompt_arguments : List PromptArgument → PromptOption
with_prompt_arguments [] s = (s, some (raw no_prompt_arguments))
with_prompt_arguments (a ∷ args) s = (record s { arguments = a ∷ args }, none)

pub record ResourceSettings : Type 0 where
  pub title : String
  pub description : String
  pub mime_type : String

abbrev pub ResourceOption : Type 0
ResourceOption = Setter Failure ResourceSettings

unfoldable pub with_resource_title : String → ResourceOption
with_resource_title title s =
    if title == ""
    then (s, some (raw (empty_title resource)))
    else (record s { title = title }, none)

unfoldable pub with_resource_description : String → ResourceOption
with_resource_description text s =
    if text == ""
    then (s, some (raw empty_description))
    else (record s { description = text }, none)

unfoldable pub with_resource_mime_type : String → ResourceOption
with_resource_mime_type mime s =
    if mime == "" then (s, some (raw empty_mime_type)) else (record s { mime_type = mime }, none)

pub record ClientSettings : Type 0 where
  pub name : String
  pub version : String
  pub transport : Option ℕ
  pub call_timeout : ℕ
  pub instr : String

-- `clientDefaults`, with the constants of the server's defaults
abbrev pub client_defaults : ClientSettings
client_defaults = record {
  name = "goga";
  version = "0.0.0";
  transport = none;
  call_timeout = 30000000000;
  instr = "mcp";
}

abbrev pub ClientOption : Type 0
ClientOption = Setter Failure ClientSettings

unfoldable pub with_client_name : String → ClientOption
with_client_name name s =
    if name == "" then (s, some (raw empty_client_name)) else (record s { name = name }, none)

unfoldable pub with_client_version : String → ClientOption
with_client_version v s =
    if v == "" then (s, some (raw empty_client_version)) else (record s { version = v }, none)

unfoldable pub with_client_transport : Option ℕ → ClientOption
with_client_transport none s = (s, some (raw nil_client_transport))
with_client_transport (some t) s = (record s { transport = some t }, none)

unfoldable pub with_client_call_timeout : ℕ → ClientOption
with_client_call_timeout d s =
    if ltb 0 d then (record s { call_timeout = d }, none) else (s, some (raw bad_client_timeout))

unfoldable pub with_client_telemetry : Option String → ClientOption
with_client_telemetry none s = (s, some (raw nil_telemetry))
with_client_telemetry (some i) s = (record s { instr = i }, none)
