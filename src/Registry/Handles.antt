-- ===== src/Registry/Handles.antt =====
-- Typed handles: Provide, then Adapter.Open.
use goga.Prelude.{
  ℕ, ◌≡◌, refl, ap, String, Option-cases, none, some, List, [], arith, ◌∙◌, eq_refl, inl, inr,
}
use goga.Prelude.Dict.{lookup, lookup-insert}
use goga.Errors.{Result-cases}
use goga.Options.{apply}
use goga.Registry.Opening.{eqb_of_eq}
use goga.Registry.{
  GoType, Raw, Constructor, Entry, Registry, Adapter, decode_settings, entry_open, open_port,
  register, provide, adapter_open, open_registered, open_with,
}
use goga.Registry.Names.{Registration, register_all, or_else, first_under, first_registration_wins}

module _ (Any : Type 0) (zero_value : GoType → Any) where
  -- A handle as Provide returns it for the registry at an address
  abbrev pub handle : String → ℕ → GoType → GoType → Adapter Any zero_value
  handle name address port settings = record {
    name = name;
    reg = some address;
    port = port;
    settings = settings;
  }

  provided :
      (address : ℕ) (r : Registry Any) (name : String) (port settings : GoType)
      (ctor : Constructor Any)
      → (provide Any zero_value address r name port settings (some ctor)).2 ≡ none
      → ((provide Any zero_value address r name port settings (some ctor)).1
          ≡ handle name address port settings)
        × (lookup name (provide Any zero_value address r name port settings (some ctor)).0.entries
            ≡ some (record { port = port; settings = settings; ctor = ctor }))
  unfolding provide register
  provided address r name port settings ctor done = elim (Option-cases (lookup name r.entries)) [
    | inr (prev, taken) ↦ ground arith
    | inl free ↦ ground (
      arith,
      lookup-insert name name (record { port = port; settings = settings; ctor = ctor }) r.entries,
      eq_refl name,
    )
  ]

  -- The entry that a handle expects
  abbrev pub expected : Adapter Any zero_value → Constructor Any → Entry Any
  expected a ctor = record { port = a.port; settings = a.settings; ctor = ctor }

  agree :
      (r : Registry Any) (a : Adapter Any zero_value) (ctor : Constructor Any) (settings : Raw Any)
      → lookup a.name r.entries ≡ some (expected a ctor)
      → open_registered Any zero_value r a settings []
        ≡ open_port Any zero_value r a.port a.name settings
  unfolding open_registered open_with open_port entry_open apply
  agree r a ctor settings found =
      let ports = eqb_of_eq a.port a.port refl in
      let kinds = eqb_of_eq a.settings a.settings refl in
      elim (Result-cases (decode_settings Any zero_value r.decode settings a.settings).1) [
        | inr (f, bad) ↦ ground arith
        | inl (s, good) ↦ elim (Result-cases (ctor s)) [
          | inr (f, failed) ↦ ground arith
          | inl (p, built) ↦ ground arith
        ]
      ]

  -- The handle that a successful Provide returns, opened without options, does what Open does for its
  -- port and name, in its registry as any later calls of Register leave it: the same calls and the
  -- same result, errors included.
  pub handle_opens :
      (heap : ℕ → Registry Any) (address : ℕ) (r : Registry Any) (name : String)
      (port settings : GoType) (ctor : Constructor Any) (later : List (Registration Any))
      (raw_settings : Raw Any)
      → (provide Any zero_value address r name port settings (some ctor)).2 ≡ none
      → heap address
        ≡ register_all Any (provide Any zero_value address r name port settings (some ctor)).0 later
      → adapter_open Any zero_value heap
          (provide Any zero_value address r name port settings (some ctor)).1
          raw_settings
          []
        ≡ open_port Any zero_value (heap address) port name raw_settings
  unfolding adapter_open
  handle_opens heap address r name port settings ctor later raw_settings done now =
      let (is_handle, entry) = provided address r name port settings ctor done in
      let r' = (provide Any zero_value address r name port settings (some ctor)).0 in
      let a = handle name address port settings in
      let stored =
        ap (λ (q : Registry Any). lookup name q.entries) now
        ∙ (first_registration_wins Any r' later name
            ∙ ap (λ o. or_else Any o (first_under Any name later)) entry) in
      ap (λ h. adapter_open Any zero_value heap h raw_settings []) is_handle
      ∙ agree (heap address) a ctor raw_settings stored
