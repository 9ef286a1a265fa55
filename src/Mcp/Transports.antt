-- ===== src/Mcp/Transports.antt =====
-- mcp/httptransport and mcp/ssetransport: the two transports that listen, on serve/. The SDK's
-- handlers are parameters; a duration that a configuration gives may be negative.
pub mod Serving
use Prim.Native.String
use goga.Prelude.{
  ℕ, zero, suc, String, Bool, Option, none, some, List, [], ◌∷◌, ◌==◌, if◌then◌else◌,
}
use goga.Errors.{ok, err, raw, wrap, map_error, ◌>>=◌}
use goga.Serve.Settings as ServeSettings
use goga.Serve.Server as ServeServer
use goga.Mcp.Settings.{Error, Result, Settings, no_endpoint, negative_write_timeout, from_serve}

pub data ℤ : Type 0 where
  pos negsuc : ℕ → ℤ

-- `defaultWriteTimeout` of both packages, 30 minutes
abbrev pub default_write_timeout : ℕ
default_write_timeout = 1800000000000

-- Whether the write time-out is used, replaced or refused
unfoldable pub write_timeout_of : ℤ → Result ℕ
write_timeout_of (pos zero) = ok default_write_timeout
write_timeout_of (pos (suc n)) = ok (suc n)
write_timeout_of (negsuc n) = err (raw negative_write_timeout)

-- The endpoint of the transport's settings, or else of the module's
unfoldable pub endpoint_of : String → String → Result String
endpoint_of own module_endpoint =
    let endpoint = if own == "" then module_endpoint else own in
    if endpoint == "" then err (raw no_endpoint) else ok endpoint

pub record HttpSettings : Type 0 where
  pub endpoint : String
  pub write_timeout : ℤ
  pub stateless : Bool
  pub json_response : Bool

pub record HttpTransport : Type 0 where
  pub endpoint : String
  pub write_timeout : ℕ
  pub stateless : Bool
  pub json_response : Bool

pub record SseSettings : Type 0 where
  pub endpoint : String
  pub write_timeout : ℤ
  pub disable_localhost_protection : Bool

pub record SseTransport : Type 0 where
  pub endpoint : String
  pub write_timeout : ℕ
  pub disable_localhost_protection : Bool

-- The names that they are registered under
abbrev pub http_name : String
http_name = "http"

abbrev pub sse_name : String
sse_name = "sse"

module _ (Any Request : Type 0) where
  -- `newTransport` of httptransport
  unfoldable pub new_http : Settings Any Request → HttpSettings → Result HttpTransport
  unfolding endpoint_of write_timeout_of
  new_http ms given = do
    endpoint ← endpoint_of given.endpoint ms.endpoint
    timeout ← write_timeout_of given.write_timeout
    ok (record {
      endpoint = endpoint;
      write_timeout = timeout;
      stateless = given.stateless;
      json_response = given.json_response;
    })

  -- `newTransport` of ssetransport
  unfoldable pub new_sse : Settings Any Request → SseSettings → Result SseTransport
  unfolding endpoint_of write_timeout_of
  new_sse ms given = do
    endpoint ← endpoint_of given.endpoint ms.endpoint
    timeout ← write_timeout_of given.write_timeout
    ok (record {
      endpoint = endpoint;
      write_timeout = timeout;
      disable_localhost_protection = given.disable_localhost_protection;
    })

module _ (Handler : Type 0) (instrument : Handler → Handler) where
  -- The call of serve.New that both make
  unfoldable pub build_server :
      Handler → String → ℕ → ServeSettings.Result (ServeServer.Server Handler)
  unfolding ServeServer.new ServeSettings.with_addr ServeSettings.with_write_timeout
  build_server h endpoint timeout = ServeServer.new Handler instrument (some h) (
      ServeSettings.with_addr Handler endpoint
      ∷ ServeSettings.with_write_timeout Handler timeout
      ∷ [])

  -- `Serve` of both, given the prefix of a package's errors and what the server's Run returns
  unfoldable pub serve :
      String
      → (ServeServer.Server Handler → Option ServeSettings.Error)
      → Handler
      → String
      → ℕ
      → Option Error
  unfolding build_server map_error
  serve prefix run h endpoint timeout = elim (build_server h endpoint timeout) [
    | err e ↦ some (wrap (String.◌++◌ prefix ": building the server") (map_error from_serve e))
    | ok s ↦ elim (run s) [
      | none ↦ none
      | some e ↦ some (wrap (String.◌++◌ prefix ": serving") (map_error from_serve e))
    ]
  ]
