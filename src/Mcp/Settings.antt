-- ===== src/Mcp/Settings.antt =====
-- mcp/options.go and the errors of the package. Durations are nanoseconds; one that is not positive is
-- read as 0. An instrumentation handle stands as the name of its module.
use goga.Prelude.{ℕ, String, Option, none, some, List, [], ltb, ◌==◌, if◌then◌else◌}
use goga.Prelude.Dict.{Dict}
use goga.Errors
use goga.Errors.{raw}
use goga.Context.{Context}
use goga.Options.{Setter}
use goga.Registry
use goga.Registry.{Registry}
use goga.Serve.Settings as ServeSettings

-- What a handler is registered as
pub data Kind : Type 0 where
  tool resource prompt : Kind

pub data Failure : Type 0 where
  empty_name empty_version empty_endpoint empty_transport : Failure
  nil_authenticator nil_telemetry nil_registry nil_annotations : Failure
  bad_tool_timeout bad_call_timeout : Failure
  empty_title : Kind → Failure
  no_prompt_arguments empty_description empty_mime_type : Failure
  nil_client_transport empty_client_name empty_client_version bad_client_timeout : Failure
  nil_constructor : String → Failure
  -- UnknownTransportError: the name, the registered names and the registry's error, if there is one
  unknown_transport : String → List String → Option Registry.Error → Failure
  -- PanicError: what panicked, its name, and the value that it panicked with
  panicked : Kind → String → ℕ → Failure
  -- A transport without an endpoint, and one with a negative write time-out
  no_endpoint negative_write_timeout : Failure
  from_registry : Registry.Failure → Failure
  from_serve : ServeSettings.Failure → Failure
  foreign : ℕ → Failure

abbrev pub Error : Type 0
Error = Errors.Error Failure

abbrev pub Result : Type 0 → Type 0
Result A = Errors.Result Failure A

-- `Authenticator`: the context that the call goes on with, or an error
abbrev pub Authenticator : Type 0 → Type 0
Authenticator Request = Context → String → Request → Result Context

module _ (Any Request : Type 0) where
  pub record Settings : Type 0 where
    pub name : String
    pub version : String
    pub instructions : String
    pub tool_timeout : ℕ
    pub transport : String
    pub reg : Option (Registry Any)
    pub raw_settings : Dict Any
    pub endpoint : String
    pub auth : Option (Authenticator Request)
    pub instr : String

  abbrev pub module_name : String
  module_name = "mcp"

  abbrev pub default_name : String
  default_name = "goga"

  abbrev pub default_version : String
  default_version = "0.0.0"

  -- 30 s
  abbrev pub default_tool_timeout : ℕ
  default_tool_timeout = 30000000000

  abbrev pub default_transport : String
  default_transport = "stdio"

  abbrev pub defaults : Settings
  defaults = record {
    name = default_name;
    version = default_version;
    instructions = "";
    tool_timeout = default_tool_timeout;
    transport = default_transport;
    reg = none;
    raw_settings = [];
    endpoint = "";
    auth = none;
    instr = module_name;
  }

  abbrev pub McpOption : Type 0
  McpOption = Setter Failure Settings

  unfoldable pub with_name : String → McpOption
  with_name name s =
      if name == "" then (s, some (raw empty_name)) else (record s { name = name }, none)

  unfoldable pub with_version : String → McpOption
  with_version v s =
      if v == "" then (s, some (raw empty_version)) else (record s { version = v }, none)

  unfoldable pub with_instructions : String → McpOption
  with_instructions text s = (record s { instructions = text }, none)

  unfoldable pub with_tool_timeout : ℕ → McpOption
  with_tool_timeout d s =
      if ltb 0 d then (record s { tool_timeout = d }, none) else (s, some (raw bad_tool_timeout))

  unfoldable pub with_endpoint : String → McpOption
  with_endpoint addr s =
      if addr == "" then (s, some (raw empty_endpoint)) else (record s { endpoint = addr }, none)

  unfoldable pub with_authenticator : Option (Authenticator Request) → McpOption
  with_authenticator none s = (s, some (raw nil_authenticator))
  with_authenticator (some a) s = (record s { auth = some a }, none)

  unfoldable pub with_telemetry : Option String → McpOption
  with_telemetry none s = (s, some (raw nil_telemetry))
  with_telemetry (some i) s = (record s { instr = i }, none)

  unfoldable pub with_transport : String → McpOption
  with_transport name s =
      if name == "" then (s, some (raw empty_transport)) else (record s { transport = name }, none)

  unfoldable pub with_transport_registry : Option (Registry Any) → McpOption
  with_transport_registry none s = (s, some (raw nil_registry))
  with_transport_registry (some r) s = (record s { reg = some r }, none)

  unfoldable pub with_transport_settings : Dict Any → McpOption
  with_transport_settings given s = (record s { raw_settings = given }, none)
