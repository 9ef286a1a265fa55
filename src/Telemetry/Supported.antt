-- ===== src/Telemetry/Supported.antt =====
-- The names that an error about an unknown exporter reports.
use goga.Prelude.{
  ◌≡◌, ◌≢◌, ◌↔◌, ◌⊎◌, refl, inl, inr, String, true, false, Option, List, [], ◌∷◌, ◌++◌, arith,
  Listed, Listed-append_cases, Listed-append_left, Listed-append_right, Bool-cases, if◌then◌else◌,
  ◌==◌, eq_iff, All,
}
use goga.Errors.{raw}
use goga.Sorting.{sort_strings, Listed-sort_strings, IsSorted, sort_strings-IsSorted}
use goga.Prelude.Texts.{text_leb}
use goga.Registry.{Registry}
use goga.Telemetry.Settings.{Signal, unknown_exporter}
use goga.Telemetry.Exporters.{contains, compact, registered_names, standard_exporters, unknown}

pub Listed-contains : (ts : List String) (s : String) → (contains ts s ≡ true) ↔ Listed s ts
unfolding contains
Listed-contains [] s = (λ h. cc, λ m. elim m [ ])
Listed-contains (t ∷ ts) s = ground (arith, eq_iff t s, Listed-contains ts s)

pub ne_of : (a b : String) → a ≢ b → (a == b) ≡ false
ne_of a b h = elim (Bool-cases (a == b)) [
  | inl same ↦ absurd (h ((eq_iff a b).0 same))
  | inr no_match ↦ no_match
]

All-compact : (P : String → Type 0) (ss : List String) → All P ss → All P (compact ss)
unfolding compact
All-compact P [] h = tt
All-compact P (s ∷ []) h = h
All-compact P (s ∷ t ∷ ss) (p, h) = elim (Bool-cases (s == t)) [
  | inl same ↦ rw (same, if◌then◌else◌) (All-compact P (t ∷ ss) h)
  | inr other ↦ rw (other, if◌then◌else◌) (p, All-compact P (t ∷ ss) h)
]

compact-IsSorted : (ss : List String) → IsSorted ss → IsSorted (compact ss)
unfolding compact
compact-IsSorted [] h = tt
compact-IsSorted (s ∷ []) h = h
compact-IsSorted (s ∷ t ∷ ss) (first, h) = elim (Bool-cases (s == t)) [
  | inl same ↦ rw (same, if◌then◌else◌) (compact-IsSorted (t ∷ ss) h)
  | inr other ↦
      rw (other, if◌then◌else◌)
        (All-compact (λ u. text_leb s u ≡ true) (t ∷ ss) first, compact-IsSorted (t ∷ ss) h)
]

Listed-compact : (x : String) (ss : List String) → Listed x (compact ss) ↔ Listed x ss
unfolding compact
Listed-compact x [] = (λ m. m, λ m. m)
Listed-compact x (s ∷ []) = (λ m. m, λ m. m)
Listed-compact x (s ∷ t ∷ ss) = ground (arith, eq_iff s t, Listed-compact x (t ∷ ss))

module _ (Any : Type 0) where
  -- The names that an error reports
  abbrev pub Supported : Option (Registry Any) → Signal → List String → Type 0
  Supported exporters signal supported =
      IsSorted supported
      × ((x : String)
          → Listed x supported
            ↔ (Listed x (registered_names Any exporters signal) ⊎ Listed x standard_exporters))

  pub unknown-Supported :
      (exporters : Option (Registry Any)) (signal : Signal) (name : String)
      → (supported : List String) × (unknown Any exporters signal name
          ≡ raw (unknown_exporter signal name supported))
        × Supported exporters signal supported
  unfolding unknown
  unknown-Supported exporters signal name =
      let known = registered_names Any exporters signal ++ standard_exporters in
      (
        compact (sort_strings known),
        refl,
        (
          compact-IsSorted (sort_strings known) (sort_strings-IsSorted known),
          λ x.
              let (out, in_again) = Listed-compact x (sort_strings known) in
              let (there, back) = Listed-sort_strings x known in
              (
                λ m.
                    Listed-append_cases x (registered_names Any exporters signal) standard_exporters
                      (there (out m)),
                λ o. in_again (
                    back (elim o [
                      | inl m ↦
                          Listed-append_left x (registered_names Any exporters signal)
                            standard_exporters m
                      | inr m ↦
                          Listed-append_right x (registered_names Any exporters signal)
                            standard_exporters m
                    ])),
              ),
        ),
      )
