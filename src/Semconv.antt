-- ===== src/Semconv.antt =====
-- semconv/semconv.go: the keys of goga's attributes and the functions that make an attribute. The three
-- keys that come from OpenTelemetry's own registry have the texts that it documents.
use goga.Prelude.{ℕ, String, List, Option, none, some}

-- attribute.Value, for the kinds that the package makes
pub data Value : Type 0 where
  text : String → Value
  texts : List String → Value
  int64 : ℕ → Value

-- attribute.KeyValue
pub record KeyValue : Type 0 where
  pub key : String
  pub value : Value

abbrev pub service_name_key : String
service_name_key = "service.name"

abbrev pub service_version_key : String
service_version_key = "service.version"

abbrev pub error_type_key : String
error_type_key = "error.type"

abbrev pub module_key : String
module_key = "goga.module"

abbrev pub operation_key : String
operation_key = "goga.operation"

abbrev pub config_sources_key : String
config_sources_key = "goga.config.sources"

abbrev pub migration_version_key : String
migration_version_key = "goga.migration.version"

abbrev pub migration_name_key : String
migration_name_key = "goga.migration.name"

abbrev pub mcp_tool_name_key : String
mcp_tool_name_key = "goga.mcp.tool.name"

abbrev pub mcp_session_id_key : String
mcp_session_id_key = "goga.mcp.session.id"

abbrev pub mcp_resource_uri_key : String
mcp_resource_uri_key = "goga.mcp.resource.uri"

abbrev pub mcp_prompt_name_key : String
mcp_prompt_name_key = "goga.mcp.prompt.name"

abbrev pub mcp_transport_key : String
mcp_transport_key = "goga.mcp.transport"

abbrev pub of_text : String → String → KeyValue
of_text key s = record { key = key; value = text s }

unfoldable pub service_name : String → KeyValue
service_name name = of_text service_name_key name

unfoldable pub service_version : String → KeyValue
service_version version = of_text service_version_key version

unfoldable pub module_of : String → KeyValue
module_of name = of_text module_key name

unfoldable pub operation : String → KeyValue
operation op = of_text operation_key op

unfoldable pub config_sources : List String → KeyValue
config_sources sources = record { key = config_sources_key; value = texts sources }

unfoldable pub migration_version : ℕ → KeyValue
migration_version version = record { key = migration_version_key; value = int64 version }

unfoldable pub migration_name : String → KeyValue
migration_name name = of_text migration_name_key name

unfoldable pub mcp_tool_name : String → KeyValue
mcp_tool_name name = of_text mcp_tool_name_key name

unfoldable pub mcp_session_id : String → KeyValue
mcp_session_id id = of_text mcp_session_id_key id

unfoldable pub mcp_resource_uri : String → KeyValue
mcp_resource_uri uri = of_text mcp_resource_uri_key uri

unfoldable pub mcp_prompt_name : String → KeyValue
mcp_prompt_name name = of_text mcp_prompt_name_key name

unfoldable pub mcp_transport : String → KeyValue
mcp_transport name = of_text mcp_transport_key name

-- ErrorType, for an error given by the text that the verb %T prints of it, or nil
unfoldable pub error_type : Option String → KeyValue
error_type none = of_text error_type_key "_OTHER"
error_type (some go_type) = of_text error_type_key go_type
