-- ===== src/Registry/Names.antt =====
-- Registration: what is found under a name, and what Names lists.
use goga.Prelude.{
  ◌≡◌, refl, ◌↔◌, inl, inr, ap, ◌≢◌, Bool-cases, String, Option, Option-cases, none, some, List, [],
  ◌∷◌, Listed, arith, ◌==◌, eq_iff, if◌then◌else◌, ◌∙◌,
}
use goga.Prelude.Dict.{Dict, lookup, keys, insert, lookup-insert}
use goga.Sorting.{Listed-sort_strings, IsSorted, sort_strings-IsSorted}
use goga.Registry.{GoType, Entry, Registry, Constructor, register, names}

module _ {V : Type 0} where
  Listed-keys : (key : String) (m : Dict V) → Listed key (keys m) ↔ (lookup key m ≢ none)
  unfolding keys lookup
  Listed-keys key [] = (λ m. elim m [ ], λ h. absurd (h refl))
  Listed-keys key ((k, v) ∷ m) = elim (Bool-cases (k == key)) [
    | inl same ↦ (λ l e. ground arith, λ h. inl (ground (arith, eq_iff k key)))
    | inr other ↦ (
      λ l e. elim l [
        | inl same ↦ ground (arith, eq_iff k key)
        | inr n ↦ (Listed-keys key m).0 n (ground arith)
      ],
      λ h. inr ((Listed-keys key m).1 (λ e. h (ground arith))),
    )
  ]

module _ (Any : Type 0) where
  -- One call of Register, with its arguments
  pub record Registration : Type 0 where
    pub name : String
    pub port : GoType
    pub settings : GoType
    pub ctor : Option (Constructor Any)

  unfoldable pub register_all : Registry Any → List Registration → Registry Any
  register_all r [] = r
  register_all r (x ∷ xs) = register_all (register Any r x.name x.port x.settings x.ctor).0 xs

  abbrev pub entry_of : Registration → Constructor Any → Entry Any
  entry_of x ctor = record { port = x.port; settings = x.settings; ctor = ctor }

  -- The entry of the first registration under a name that has a constructor
  unfoldable pub first_under : String → List Registration → Option (Entry Any)
  first_under j [] = none
  first_under j (x ∷ xs) =
      let later = first_under j xs in
      elim x.ctor [
        | none ↦ later
        | some ctor ↦ if x.name == j then some (entry_of x ctor) else later
      ]

  abbrev pub or_else : Option (Entry Any) → Option (Entry Any) → Option (Entry Any)
  or_else none later = later
  or_else (some e) later = some e

  pub lookup-register :
      (r : Registry Any) (x : Registration) (j : String)
      → lookup j (register Any r x.name x.port x.settings x.ctor).0.entries
        ≡ or_else (lookup j r.entries) (first_under j (x ∷ []))
  unfolding register first_under
  lookup-register r x j = elim (Option-cases x.ctor) [
    | inl nil ↦ ground arith
    | inr (c, given) ↦ elim (Option-cases (lookup x.name r.entries)) [
      | inl free ↦ ground (arith, lookup-insert x.name j (entry_of x c) r.entries, eq_iff x.name j)
      | inr (prev, taken) ↦
          ground (arith, lookup-insert x.name j (entry_of x c) r.entries, eq_iff x.name j)
    ]
  ]

  -- What a successful Register stores
  pub register-stored :
      (r r' : Registry Any) (key : String) (port settings : GoType)
      (ctor : Option (Constructor Any))
      → register Any r key port settings ctor ≡ (r', none)
      → (c : Constructor Any) × (ctor ≡ some c)
        × (r'.decode ≡ r.decode)
        × ((other : String)
            → lookup other r'.entries ≡ (
                if key == other
                then some (record { port = port; settings = settings; ctor = c })
                else lookup other r.entries))
  unfolding register
  register-stored r r' key port settings none h = cc
  register-stored r r' key port settings (some c) h = elim (Option-cases (lookup key r.entries)) [
    | inr (prev, taken) ↦ ground arith
    | inl free ↦
        let e : Entry Any = record { port = port; settings = settings; ctor = c } in
        let stored : r'.entries ≡ insert key e r.entries = ground arith in
        (c, refl, ground arith, λ other. rw stored (lookup-insert key other e r.entries))
  ]

  or_else_assoc :
      (a : Option (Entry Any)) (x : Registration) (xs : List Registration) (j : String)
      → or_else (or_else a (first_under j (x ∷ []))) (first_under j xs)
        ≡ or_else a (first_under j (x ∷ xs))
  unfolding first_under
  or_else_assoc a x xs j = ground arith

  -- After any calls of Register, a name has the entry that it had before, or else that of the first
  -- call that registers it with a constructor: no later call replaces it.
  pub first_registration_wins :
      (r : Registry Any) (xs : List Registration) (j : String)
      → lookup j (register_all r xs).entries ≡ or_else (lookup j r.entries) (first_under j xs)
  unfolding register_all
  first_registration_wins r [] j = unfold first_under in ground arith
  first_registration_wins r (x ∷ xs) j =
      first_registration_wins (register Any r x.name x.port x.settings x.ctor).0 xs j
      ∙ (ap (λ a. or_else a (first_under j xs)) (lookup-register r x j)
          ∙ or_else_assoc (lookup j r.entries) x xs j)

  -- Names lists the registered names, ascending.
  pub names-registered :
      (r : Registry Any) (name : String)
      → IsSorted (names Any r) × (Listed name (names Any r) ↔ (lookup name r.entries ≢ none))
  unfolding names
  names-registered r name =
      let (to, from) = Listed-sort_strings name (keys r.entries) in
      let (there, back) = Listed-keys name r.entries in
      (sort_strings-IsSorted (keys r.entries), (λ m. there (to m), λ h. from (back h)))
