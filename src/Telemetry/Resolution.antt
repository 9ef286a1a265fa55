-- ===== src/Telemetry/Resolution.antt =====
-- How an exporter's name is resolved.
use goga.Prelude.{
  ◌≡◌, ◌≢◌, ◌↔◌, ◌⊎◌, refl, ap, ◌∙◌, inl, inr, String, true, false, Option, none, some, List, arith,
  Listed, Option-cases, Bool-cases, ◌==◌, eq_iff,
}
use goga.Errors.{ok, err, raw, Result-cases, bind-ok}
use goga.Context.{Context}
use goga.Registry
use goga.Registry.{Registry}
use goga.Registry.Names.{names-registered}
use goga.Telemetry.Settings.{Signal, traces, metrics, logs, Result, unknown_exporter}
use goga.Telemetry.Supported.{Listed-contains, ne_of, Supported, unknown-Supported}
use goga.Telemetry.Names.{registered_names-Listed}
use goga.Telemetry.Exporters.{
  Sdk, registry_key, contains, registered_names, standard_exporters, exporter_otlp,
  exporter_console, exporter_none, unknown, open_from_registry, resolve_exporter,
  resolve_metric_reader, resolve, otlp, otlp_reader, otlp_protocol,
}

module _ (Any : Type 0) where
  module _ (sdk : Sdk Any) where
    open_from_registry-none :
        (exporters : Option (Registry Any)) (signal : Signal) (name : String)
        → ¬ Listed name (registered_names Any exporters signal)
        → open_from_registry Any sdk exporters signal name ≡ none
    unfolding open_from_registry
    open_from_registry-none none signal name new = refl
    open_from_registry-none (some r) signal name new =
        elim (Bool-cases (contains (Registry.names Any r) (registry_key signal name))) [
          | inr absent ↦ ground arith
          | inl there ↦
              let m = (Listed-contains (Registry.names Any r) (registry_key signal name)).0 there in
              let found = (names-registered Any r (registry_key signal name)).1.0 m in
              absurd (new ((registered_names-Listed Any r signal name).1 found))
        ]

    -- The standard names are passed over.
    not_standard :
        (exporters : Option (Registry Any)) (signal : Signal) (name : String) (ctx : Context)
        → (name == "") ≡ false
        → (name == exporter_otlp) ≡ false
        → (name == exporter_console) ≡ false
        → (name == exporter_none) ≡ false
        → open_from_registry Any sdk exporters signal name ≡ none
        → resolve Any sdk signal name ctx exporters ≡ err (unknown Any exporters signal name)
    unfolding resolve_exporter resolve_metric_reader
    not_standard exporters traces name ctx a b c d absent = ground arith
    not_standard exporters metrics name ctx a b c d absent = ground arith
    not_standard exporters logs name ctx a b c d absent = ground arith

    -- A name that is neither registered for the signal nor a standard one is an error, for each of
    -- the three signals, and the error carries the signal, the name and, ascending, exactly the names
    -- that are registered for the signal or standard.
    pub unknown_resolution :
        (exporters : Option (Registry Any)) (signal : Signal) (name : String) (ctx : Context)
        → name ≢ ""
        → ¬ Listed name (registered_names Any exporters signal)
        → ¬ Listed name standard_exporters
        → (supported : List String) × Supported Any exporters signal supported
          × (resolve Any sdk signal name ctx exporters
              ≡ err (raw (unknown_exporter signal name supported)))
    unknown_resolution exporters signal name ctx named new other =
        let (supported, carried, good) = unknown-Supported Any exporters signal name in
        (
          supported,
          good,
          not_standard exporters signal name ctx (ne_of name "" named)
                (ne_of name exporter_otlp (λ e. other (inl e)))
                (ne_of name exporter_console (λ e. other (inr (inl e))))
                (ne_of name exporter_none (λ e. other (inr (inr (inl e)))))
                (open_from_registry-none exporters signal name new)
              ∙ ap err carried,
        )

    open_from_registry-some :
        (exporters : Option (Registry Any)) (signal : Signal) (name : String)
        → Listed name (registered_names Any exporters signal)
        → open_from_registry Any sdk exporters signal name ≢ none
    unfolding open_from_registry registered_names
    open_from_registry-some none signal name m h = elim m [ ]
    open_from_registry-some (some r) signal name m h =
        let found = (registered_names-Listed Any r signal name).0 m in
        let key_listed = (names-registered Any r (registry_key signal name)).1.1 found in
        let there =
          (Listed-contains (Registry.names Any r) (registry_key signal name)).1 key_listed in
        ground arith

    exporter_made :
        (exporters : Option (Registry Any)) (signal : Signal) (name : String) (ctx : Context)
        → (name == "") ≡ false
        → (name == exporter_none) ≡ false
        → open_from_registry Any sdk exporters signal name ≡ none
        → resolve_exporter Any sdk signal name ctx exporters ≢ ok none
    unfolding resolve_exporter
    exporter_made exporters signal name ctx a b absent h =
        elim (Bool-cases (name == exporter_otlp)) [
          | inl is_otlp ↦ elim (Result-cases (otlp Any sdk signal ctx)) [
            | inl (exp, good) ↦ ground arith
            | inr (e, bad) ↦ ground arith
          ]
          | inr not_otlp ↦ elim (Bool-cases (name == exporter_console)) [
            | inl is_console ↦ elim (Result-cases (sdk.stdout signal)) [
              | inl (exp, good) ↦ ground arith
              | inr (e, bad) ↦ ground arith
            ]
            | inr not_console ↦ ground arith
          ]
        ]

    otlp_reader-made : (ctx : Context) → otlp_reader Any sdk ctx ≢ ok none
    otlp_reader-made ctx h =
        let (proto, chosen, rest) = bind-ok (otlp_protocol sdk.getenv metrics) _ h in
        let (exp, made, last) = bind-ok _ (λ exp. ok (some (sdk.periodic_reader exp))) rest in cc

    reader_made :
        (exporters : Option (Registry Any)) (name : String) (ctx : Context)
        → (name == "") ≡ false
        → (name == exporter_none) ≡ false
        → open_from_registry Any sdk exporters metrics name ≡ none
        → resolve_metric_reader Any sdk name ctx exporters ≢ ok none
    unfolding resolve_metric_reader
    reader_made exporters name ctx a b absent h = elim (Bool-cases (name == exporter_otlp)) [
      | inl is_otlp ↦ otlp_reader-made ctx (ground arith)
      | inr not_otlp ↦ elim (Bool-cases (name == exporter_console)) [
        | inl is_console ↦ elim (Result-cases (sdk.stdout metrics)) [
          | inl (exp, good) ↦ ground arith
          | inr (e, bad) ↦ ground arith
        ]
        | inr not_console ↦ ground arith
      ]
    ]

    -- The standard names other than "none" make an exporter or fail.
    some_made :
        (exporters : Option (Registry Any)) (signal : Signal) (name : String) (ctx : Context)
        → (name == "") ≡ false
        → (name == exporter_none) ≡ false
        → open_from_registry Any sdk exporters signal name ≡ none
        → resolve Any sdk signal name ctx exporters ≢ ok none
    some_made exporters traces name ctx a b absent h =
        exporter_made exporters traces name ctx a b absent h
    some_made exporters metrics name ctx a b absent h = reader_made exporters name ctx a b absent h
    some_made exporters logs name ctx a b absent h =
        exporter_made exporters logs name ctx a b absent h

    -- The registry claims the name, and its constructor made a nil exporter.
    abbrev pub MadeNil : Option (Registry Any) → Signal → String → Type 0
    MadeNil exporters signal name =
        (exp : Any) × (open_from_registry Any sdk exporters signal name ≡ some (ok exp))
        × (sdk.is_nil exp ≡ true)

    -- A name that the registry claims is off where that is nil, and never for metrics.
    claimed :
        (exporters : Option (Registry Any)) (signal : Signal) (name : String) (ctx : Context)
        (result : Result Any)
        → (name == "") ≡ false
        → open_from_registry Any sdk exporters signal name ≡ some result
        → resolve Any sdk signal name ctx exporters ≡ ok none
        → (signal ≢ metrics) × MadeNil exporters signal name
    unfolding resolve_exporter resolve_metric_reader
    claimed exporters traces name ctx (ok exp) a opened h = elim (Bool-cases (sdk.is_nil exp)) [
      | inl nil ↦ ((λ e. cc), (exp, opened, nil))
      | inr there ↦ ground arith
    ]
    claimed exporters traces name ctx (err e) a opened h = ground arith
    claimed exporters metrics name ctx (ok exp) a opened h = ground arith
    claimed exporters metrics name ctx (err e) a opened h = ground arith
    claimed exporters logs name ctx (ok exp) a opened h = elim (Bool-cases (sdk.is_nil exp)) [
      | inl nil ↦ ((λ e. cc), (exp, opened, nil))
      | inr there ↦ ground arith
    ]
    claimed exporters logs name ctx (err e) a opened h = ground arith

    nil-off :
        (exporters : Option (Registry Any)) (signal : Signal) (name : String) (ctx : Context)
        → (name == "") ≡ false
        → signal ≢ metrics
        → MadeNil exporters signal name
        → resolve Any sdk signal name ctx exporters ≡ ok none
    unfolding resolve_exporter
    nil-off exporters traces name ctx a pushed (exp, opened, nil) = ground arith
    nil-off exporters metrics name ctx a pushed made = absurd (pushed refl)
    nil-off exporters logs name ctx a pushed (exp, opened, nil) = ground arith

    off :
        (exporters : Option (Registry Any)) (signal : Signal) (name : String) (ctx : Context)
        → (name == "") ≡ false
        → name ≡ exporter_none
        → open_from_registry Any sdk exporters signal name ≡ none
        → resolve Any sdk signal name ctx exporters ≡ ok none
    unfolding resolve_exporter resolve_metric_reader
    off exporters traces name ctx a is_none absent =
        let b : (name == exporter_otlp) ≡ false = rw is_none refl in
        let c : (name == exporter_console) ≡ false = rw is_none refl in
        let d : (name == exporter_none) ≡ true = rw is_none refl in ground arith
    off exporters metrics name ctx a is_none absent =
        let b : (name == exporter_otlp) ≡ false = rw is_none refl in
        let c : (name == exporter_console) ≡ false = rw is_none refl in
        let d : (name == exporter_none) ≡ true = rw is_none refl in ground arith
    off exporters logs name ctx a is_none absent =
        let b : (name == exporter_otlp) ≡ false = rw is_none refl in
        let c : (name == exporter_console) ≡ false = rw is_none refl in
        let d : (name == exporter_none) ≡ true = rw is_none refl in ground arith

    -- What a name that the registry does not claim resolves to, where that is no exporter
    none_left :
        (exporters : Option (Registry Any)) (signal : Signal) (name : String) (ctx : Context)
        → (name == "") ≡ false
        → open_from_registry Any sdk exporters signal name ≡ none
        → resolve Any sdk signal name ctx exporters ≡ ok none
        → name ≡ exporter_none
    none_left exporters signal name ctx not_empty absent h =
        elim (Bool-cases (name == exporter_none)) [
          | inl is_none ↦ (eq_iff name exporter_none).0 is_none
          | inr not_none ↦ absurd (some_made exporters signal name ctx not_empty not_none absent h)
        ]

    -- No exporter, without an error, is what a name that the caller gives resolves to exactly in two
    -- cases: it is "none" and no exporter is registered for the signal under it; or, for traces and
    -- logs, an exporter is registered under it whose constructor makes a nil one.
    pub off_iff :
        (exporters : Option (Registry Any)) (signal : Signal) (name : String) (ctx : Context)
        → name ≢ ""
        → (resolve Any sdk signal name ctx exporters ≡ ok none) ↔ (
            ((name ≡ exporter_none) × ¬ Listed name (registered_names Any exporters signal))
            ⊎ ((signal ≢ metrics) × MadeNil exporters signal name))
    off_iff exporters signal name ctx named =
        let not_empty = ne_of name "" named in
        (
          λ h. elim (Option-cases (open_from_registry Any sdk exporters signal name)) [
            | inr (result, opened) ↦
                inr (claimed exporters signal name ctx result not_empty opened h)
            | inl absent ↦ inl (
              none_left exporters signal name ctx not_empty absent h,
              λ m. open_from_registry-some exporters signal name m absent,
            )
          ],
          λ either. elim either [
            | inl (is_none, new) ↦
                off exporters signal name ctx not_empty is_none
                  (open_from_registry-none exporters signal name new)
            | inr (pushed, made) ↦ nil-off exporters signal name ctx not_empty pushed made
          ],
        )
