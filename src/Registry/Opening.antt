-- ===== src/Registry/Opening.antt =====
-- Open: when it succeeds, and what it calls.
use goga.Prelude.{
  ℕ, ◌≡◌, ◌↔◌, ◌⊎◌, inl, inr, ◌≢◌, true, false, Bool-cases, String, Option-cases, some, List, [],
  ◌∷◌, Listed, Listed-append_cases, subst, ◌++◌, arith, eqb,
}
use goga.Prelude.Dict.{lookup}
use goga.Errors.{ok, Result-cases}
use goga.Registry.{
  GoType, Call, decoder_called, constructor_called, Raw, Entry, Registry, decode_settings,
  entry_open, open_port,
}

pub eqb_of_eq : (a b : ℕ) → a ≡ b → eqb a b ≡ true
eqb_of_eq a b h = ground arith

eq_of_eqb : (a b : ℕ) → eqb a b ≡ true → a ≡ b
eq_of_eqb a b h = ground arith

ne_of_eqb : (a b : ℕ) → eqb a b ≡ false → a ≢ b
ne_of_eqb a b h = ground arith

only : (c d : Call) (calls : List Call) → calls ≡ d ∷ [] → Listed c calls → c ≡ d
only c d calls single m = elim (subst (Listed c) single m) [ inl same ↦ same | inr n ↦ elim n [ ] ]

module _ (Any : Type 0) (zero_value : GoType → Any) (r : Registry Any) (port : GoType)
    (name : String) (settings : Raw Any) where
  -- The entry that Open uses, the settings that it decodes and what the constructor makes of them
  abbrev pub Opens : Any → Type 0
  Opens p =
      (e : Entry Any) × (s : Any) × (lookup name r.entries ≡ some e)
      × (e.port ≡ port)
      × ((decode_settings Any zero_value r.decode settings e.settings).1 ≡ ok s)
      × (e.ctor s ≡ ok p)

  entry_open-ok :
      (e : Entry Any) (p : Any)
      → e.port ≡ port
      → (entry_open Any zero_value e r.decode settings port).1 ≡ ok p
      → (s : Any) × ((decode_settings Any zero_value r.decode settings e.settings).1 ≡ ok s)
        × (e.ctor s ≡ ok p)
  unfolding entry_open
  entry_open-ok e p same h =
      elim (Result-cases (decode_settings Any zero_value r.decode settings e.settings).1) [
        | inr (f, bad) ↦ ground arith
        | inl (s, good) ↦ (s, good, ground arith)
      ]

  entry_open_ok :
      (e : Entry Any) (s p : Any)
      → e.port ≡ port
      → (decode_settings Any zero_value r.decode settings e.settings).1 ≡ ok s
      → e.ctor s ≡ ok p
      → (entry_open Any zero_value e r.decode settings port).1 ≡ ok p
  unfolding entry_open
  entry_open_ok e s p same decoded built = ground arith

  open_port-Opens : (p : Any) → (open_port Any zero_value r port name settings).1 ≡ ok p → Opens p
  unfolding open_port
  open_port-Opens p h = elim (Option-cases (lookup name r.entries)) [
    | inl absent ↦ ground arith
    | inr (e, found) ↦ elim (Bool-cases (eqb e.port port)) [
      | inr other ↦ ground arith
      | inl same ↦
          let (s, decoded, built) = entry_open-ok e p (eq_of_eqb e.port port same) (ground arith) in
          (e, s, found, eq_of_eqb e.port port same, decoded, built)
    ]
  ]

  Opens-open_port : (p : Any) → Opens p → (open_port Any zero_value r port name settings).1 ≡ ok p
  unfolding open_port
  Opens-open_port p (e, s, found, same, decoded, built) =
      let inner = entry_open_ok e s p same decoded built in ground arith

  -- Open succeeds exactly when the name is registered, for this port, its settings decode and its
  -- constructor succeeds; the result is the constructor's.
  pub open_port-ok_iff :
      (p : Any) → ((open_port Any zero_value r port name settings).1 ≡ ok p) ↔ Opens p
  open_port-ok_iff p = (open_port-Opens p, Opens-open_port p)

  -- The calls of the closure, one after the other
  calls_made :
      (e : Entry Any) (given : Raw Any)
      → ((entry_open Any zero_value e r.decode given port).0
          ≡ (decode_settings Any zero_value r.decode given e.settings).0)
        ⊎ ((entry_open Any zero_value e r.decode given port).0
            ≡ (decode_settings Any zero_value r.decode given e.settings).0
              ++ constructor_called e.port ∷ [])
  unfolding entry_open
  calls_made e given =
      elim (Result-cases (decode_settings Any zero_value r.decode given e.settings).1) [
        | inr (f, bad) ↦ inl (ground arith)
        | inl (s, good) ↦ elim (Result-cases (e.ctor s)) [
          | inr (f, failed) ↦ inr (ground arith)
          | inl (p, built) ↦ elim (Bool-cases (eqb port e.port)) [
            | inl same ↦ inr (ground arith)
            | inr other ↦ inr (ground arith)
          ]
        ]
      ]

  decoder_calls :
      (e : Entry Any) (c : Call) (given : Raw Any)
      → Listed c (decode_settings Any zero_value r.decode given e.settings).0
      → (c ≡ decoder_called e.settings) × (given ≢ [])
  unfolding decode_settings
  decoder_calls e c [] m = elim m [ ]
  decoder_calls e c (first ∷ rest) m = (
    only c (decoder_called e.settings) _
        (elim (Result-cases (r.decode (first ∷ rest) e.settings)) [
          | inr (f, bad) ↦ ground arith
          | inl (s, good) ↦ ground arith
        ])
        m,
    λ h. ground arith,
  )

  entry_open-calls :
      (e : Entry Any) (c : Call)
      → Listed c (entry_open Any zero_value e r.decode settings port).0
      → ((c ≡ decoder_called e.settings) × (settings ≢ [])) ⊎ (c ≡ constructor_called e.port)
  entry_open-calls e c m = elim (calls_made e settings) [
    | inl none_built ↦ inl (decoder_calls e c settings (subst (Listed c) none_built m))
    | inr built ↦
        elim (Listed-append_cases c (decode_settings Any zero_value r.decode settings e.settings).0
          (constructor_called e.port ∷ []) (subst (Listed c) built m)) [
            | inl decoder ↦ inl (decoder_calls e c settings decoder)
            | inr (inl same) ↦ inr same
            | inr (inr m') ↦ elim m' [ ]
          ]
  ]

  -- Open calls only the registered adapter's constructor and the decoder for its settings, and
  -- neither unless the adapter is registered for this port; it does not call the decoder without
  -- raw settings.
  pub open_port-calls :
      (c : Call)
      → Listed c (open_port Any zero_value r port name settings).0
      → (e : Entry Any) × (lookup name r.entries ≡ some e)
        × (e.port ≡ port)
        × (((c ≡ decoder_called e.settings) × (settings ≢ [])) ⊎ (c ≡ constructor_called e.port))
  unfolding open_port
  open_port-calls c m = elim (Option-cases (lookup name r.entries)) [
    | inl absent ↦ ground arith
    | inr (e, found) ↦ elim (Bool-cases (eqb e.port port)) [
      | inr other ↦ ground arith
      | inl same ↦ (
        e,
        found,
        eq_of_eqb e.port port same,
        entry_open-calls e c (subst (Listed c) (ground arith) m),
      )
    ]
  ]
