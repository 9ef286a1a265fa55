-- ===== src/Mcp/Server.antt =====
-- mcp/mcp.go and mcp/transport.go: the server, its authenticator, and its transport by name. The
-- port that the registry stores is a transport factory; `Port` is its place among dynamic values.
pub mod Resolving
use goga.Prelude.{
  String, Bool, true, false, ◌&&◌, not, Option, none, some, List, [], ◌∷◌, ◌==◌, if◌then◌else◌,
}
use goga.Errors
use goga.Errors.{ok, err, raw, wrap, join, map_error, ◌>>=◌}
use goga.Context.{Context}
use goga.Options.{apply}
use goga.Semconv.{KeyValue, mcp_transport}
use goga.Registry
use goga.Registry.{Registry, GoType}
use goga.Mcp.Settings
use goga.Mcp.Settings.{
  Failure, Error, Result, Authenticator, Settings, McpOption, defaults, default_transport,
  nil_registry, nil_constructor, unknown_transport, from_registry,
}

-- errors.As for *registry.UnknownNameError, with its name and the registered names
unfoldable pub as_unknown : Registry.Error → Option (String × List String)
as_unknown (raw (Registry.unknown_name name port registered)) = some (name, registered)
as_unknown (raw other) = none
as_unknown (wrap message e) = as_unknown e
as_unknown (join a b) =
    let later = as_unknown b in elim (as_unknown a) [ some found ↦ some found | none ↦ later ]

-- A span of the module's handle: its operation, its attributes, and the error that it ended with
pub record Span : Type 0 where
  pub instr : String
  pub op : String
  pub attrs : List KeyValue
  pub outcome : Option Error

-- The error that a deferred `end(err)` sees
abbrev pub failure_of : {A : Type 0} → Result A → Option Error
failure_of (ok a) = none
failure_of (err e) = some e

-- `stdioTransport.Serve`, given what the SDK's Run returns and whether that is the context's error
unfoldable pub stdio_serve : Option Error → (Error → Bool) → Option Error
stdio_serve none is_context_error = none
stdio_serve (some e) is_context_error =
    if is_context_error e then none else some (wrap "goga/mcp: serving over stdio" e)

module _ (Any Request Transport : Type 0) where
  -- `Server`, with the options of the SDK server and the one middleware that New may add
  pub record Server : Type 0 where
    pub settings : Settings Any Request
    pub middleware : Option (Authenticator Request)

  -- `New`
  unfoldable pub new : List (McpOption Any Request) → Result Server
  unfolding apply
  new opts =
      let (s, failure) = apply (defaults Any Request) opts in
      elim failure [ some e ↦ err e | none ↦ ok (record { settings = s; middleware = s.auth }) ]

  -- An incoming request: `authMiddleware` before the SDK's handler, where New added it
  unfoldable pub receive :
      {Response : Type 0}
      → Server
      → (Context → String → Request → Result Response)
      → Context
      → String
      → Request
      → Result Response
  receive s next ctx method req = elim s.middleware [
    | none ↦ next ctx method req
    | some authenticate ↦ do ctx' ← authenticate ctx method req; next ctx' method req
  ]

  -- `transportFactory`
  abbrev pub Factory : Type 0
  Factory = Context → Settings Any Request → Result Transport

  -- The factory as a dynamic value of its own type, and the constructor's errors in the registry
  pub record Port : Type 0 where
    pub port : GoType
    pub of_factory : Factory → Any
    pub as_factory : Any → Factory
    pub zero_value : GoType → Any

  module _ (p : Port) (stdio : Transport) where
    -- `RegisterTransport`, for settings of the given type
    unfoldable pub register_transport :
        Option (Registry Any)
        → String
        → GoType
        → Option (Context → Settings Any Request → Any → Result Transport)
        → Option (Registry Any) × Option Error
    unfolding map_error
    register_transport none name settings ctor = (none, some (raw nil_registry))
    register_transport (some r) name settings none = (some r, some (raw (nil_constructor name)))
    register_transport (some r) name settings (some ctor) =
        let (r', failure) =
          Registry.register Any r name p.port settings
            (some (λ adapter. ok (p.of_factory (λ ctx ms. ctor ctx ms adapter)))) in
        (some r', elim failure [ none ↦ none | some e ↦ some (map_error from_registry e) ])

    -- The error of the lookup, in the words of this module
    unfoldable pub unresolved : Settings Any Request → Registry.Error → Result Transport
    unfolding as_unknown map_error
    unresolved s e = elim (as_unknown e) [
      | none ↦ err (map_error from_registry e)
      | some (name, registered) ↦
          if s.transport == default_transport Any Request
          then ok stdio
          else err (raw (unknown_transport name registered (some e)))
    ]

    -- `resolveTransport` inside its span
    unfoldable pub resolve : Context → Settings Any Request → Result Transport
    unfolding unresolved
    resolve ctx s = elim s.reg [
      | none ↦
          if s.transport == default_transport Any Request
          then ok stdio
          else err (raw (unknown_transport s.transport [] none))
      | some r ↦ elim (Registry.open_port Any p.zero_value r p.port s.transport s.raw_settings).1 [
        | ok factory ↦ p.as_factory factory ctx s
        | err e ↦ unresolved s e
      ]
    ]

    -- `resolveTransport`
    unfoldable pub resolve_transport : Context → Settings Any Request → List Span × Result Transport
    unfolding resolve mcp_transport
    resolve_transport ctx s =
        let result = resolve ctx s in
        (
          record {
            instr = s.instr;
            op = "resolve";
            attrs = mcp_transport s.transport ∷ [];
            outcome = failure_of result;
          }
              ∷ [],
          result,
        )

    -- `Run`, given what a transport's Serve returns
    unfoldable pub run :
        (Transport → Context → Server → Option Error) → Server → Context → List Span × Option Error
    unfolding resolve_transport
    run serve s ctx =
        let (spans, result) = resolve_transport ctx s.settings in
        elim result [ err e ↦ (spans, some e) | ok transport ↦ (spans, serve transport ctx s) ]
