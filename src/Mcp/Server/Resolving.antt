-- ===== src/Mcp/Server/Resolving.antt =====
-- Which transport a server resolves.
use goga.Prelude.{
  ◌≡◌, refl, sym, ap, ◌∙◌, subst, inl, inr, String, Option, none, some, List, [], ◌==◌, eq_refl,
  arith, Option-cases, Bool-cases, if◌then◌else◌,
}
use goga.Prelude.Dict.{lookup}
use goga.Errors
use goga.Errors.{ok, err, raw, Result-cases}
use goga.Context.{Context}
use goga.Registry
use goga.Registry.{Registry, GoType, Entry, Constructor, decode_settings}
use goga.Registry.Names.{register-stored}
use goga.Registry.Opening.{open_port-ok_iff}
use goga.Mcp.Settings.{Result, Settings, default_transport, unknown_transport}
use goga.Mcp.Server.{Port, Factory, register_transport, resolve, unresolved, as_unknown}

module _ (Any Request Transport : Type 0) (p : Port Any Request Transport) (stdio : Transport) where
  -- The registry's entry for a transport
  abbrev pub stored_ctor :
      (Context → Settings Any Request → Any → Result Transport) → Constructor Any
  stored_ctor ctor adapter = Errors.ok (p.of_factory (λ ctx ms. ctor ctx ms adapter))

  register_transport-register :
      (r r' : Registry Any) (name : String) (settings : GoType)
      (ctor : Context → Settings Any Request → Any → Result Transport)
      → register_transport Any Request Transport p stdio (some r) name settings (some ctor)
        ≡ (some r', none)
      → Registry.register Any r name p.port settings (some (stored_ctor ctor)) ≡ (r', none)
  unfolding register_transport
  register_transport-register r r' name settings ctor h =
      elim (Option-cases
        (Registry.register Any r name p.port settings (some (stored_ctor ctor))).1) [
          | inr (e, bad) ↦ ground arith
          | inl good ↦
              let first : (Registry.register Any r name p.port settings (some (stored_ctor ctor))).0
                  ≡ r' =
                ground arith in
              λ i. (first i, good i)
        ]

  opened :
      (ctx : Context) (s : Settings Any Request) (r : Registry Any) (factory : Any)
      → s.reg ≡ some r
      → (Registry.open_port Any p.zero_value r p.port s.transport s.raw_settings).1 ≡ ok factory
      → resolve Any Request Transport p stdio ctx s ≡ p.as_factory factory ctx s
  unfolding resolve
  opened ctx s r factory there good = ground arith

  -- A transport that was registered under the name that the server asks for is the one it serves on:
  -- once the raw settings decode, resolving gives what the registered constructor makes of the
  -- context, the module's settings and the decoded ones, its error included. The registry hands back
  -- the factory that was stored in it.
  pub registered_transport :
      (r r' : Registry Any) (settings : GoType)
      (ctor : Context → Settings Any Request → Any → Result Transport) (ctx : Context)
      (s : Settings Any Request) (adapter : Any)
      → p.as_factory (p.of_factory (λ ctx ms. ctor ctx ms adapter))
        ≡ (λ ctx ms. ctor ctx ms adapter)
      → register_transport Any Request Transport p stdio (some r) s.transport settings (some ctor)
        ≡ (some r', none)
      → s.reg ≡ some r'
      → (decode_settings Any p.zero_value r'.decode s.raw_settings settings).1 ≡ ok adapter
      → resolve Any Request Transport p stdio ctx s ≡ ctor ctx s adapter
  registered_transport r r' settings ctor ctx s adapter kept done there decoded =
      let inner = register_transport-register r r' s.transport settings ctor done in
      let (c, given, decode_kept, stored) =
        register-stored Any r r' s.transport p.port settings (some (stored_ctor ctor)) inner in
      let e : Entry Any = record { port = p.port; settings = settings; ctor = c } in
      let found : lookup s.transport r'.entries ≡ some e =
        ground (arith, stored s.transport, eq_refl s.transport) in
      let same : stored_ctor ctor ≡ c = ground arith in
      let factory = p.of_factory (λ ctx ms. ctor ctx ms adapter) in
      let built : c adapter ≡ ok factory = ap (λ (k : Constructor Any). k adapter) (sym same) in
      let opens =
        (open_port-ok_iff Any p.zero_value r' p.port s.transport s.raw_settings factory).1
          (e, adapter, found, refl, decoded, built) in
      opened ctx s r' factory there opens ∙ ap (λ (f : Factory Any Request Transport). f ctx s) kept

  -- No adapter is registered under the name in the registry that the server was given, if any.
  abbrev pub Unwired : Option (Registry Any) → String → Type 0
  Unwired none name = Unit
  Unwired (some r) name = lookup name r.entries ≡ none

  abbrev pub listed : Option (Registry Any) → List String
  listed none = []
  listed (some r) = Registry.names Any r

  -- With no adapter registered under the name that it asks for, with a registry or without, a server
  -- resolves the stdio transport if that is its name, and else an error with the name and all the
  -- names that are registered.
  pub resolve-Unwired :
      (ctx : Context) (s : Settings Any Request)
      → Unwired s.reg s.transport
      → (cause : Option Registry.Error) × (resolve Any Request Transport p stdio ctx s ≡ (
          if s.transport == default_transport Any Request
          then ok stdio
          else err (raw (unknown_transport s.transport (listed s.reg) cause))))
  unfolding resolve unresolved as_unknown Registry.open_port
  resolve-Unwired ctx s h = elim (Option-cases s.reg) [
    | inl nil ↦ (
      none,
      elim (Bool-cases (s.transport == default_transport Any Request)) [
        | inl stdio_named ↦ ground arith
        | inr other ↦ ground arith
      ],
    )
    | inr (r, given) ↦
        let absent : lookup s.transport r.entries ≡ none =
          subst (λ (o : Option (Registry Any)). Unwired o s.transport) given h in
        (
          some (raw (Registry.unknown_name s.transport p.port (Registry.names Any r))),
          elim (Bool-cases (s.transport == default_transport Any Request)) [
            | inl stdio_named ↦ ground arith
            | inr other ↦ ground arith
          ],
        )
  ]
