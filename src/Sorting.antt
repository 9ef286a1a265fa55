-- ===== src/Sorting.antt =====
-- sort.Strings and slices.Sort on strings: the sorted list with the same elements. The library's own
-- algorithm is not modelled; any that sorts strings gives this list.
use goga.Prelude.{
  ◌≡◌, ◌↔◌, inl, inr, Bool-cases, true, String, List, [], ◌∷◌, All, Listed, arith, if◌then◌else◌,
}
use goga.Prelude.Texts.{text_leb, text_leb_total, text_leb_trans}

unfoldable pub place : String → List String → List String
place s [] = s ∷ []
place s (t ∷ ts) = if text_leb s t then s ∷ t ∷ ts else t ∷ place s ts

unfoldable pub sort_strings : List String → List String
unfolding place text_leb
sort_strings [] = []
sort_strings (s ∷ ss) = place s (sort_strings ss)

Listed-place : (s x : String) (ts : List String) → Listed x (place s ts) ↔ Listed x (s ∷ ts)
unfolding place
Listed-place s x [] = (λ m. m, λ m. m)
Listed-place s x (t ∷ ts) = ground (arith, Listed-place s x ts)

pub Listed-sort_strings : (x : String) (ss : List String) → Listed x (sort_strings ss) ↔ Listed x ss
unfolding sort_strings
Listed-sort_strings x [] = (λ m. m, λ m. m)
Listed-sort_strings x (s ∷ ss) =
    ground (arith, Listed-place s x (sort_strings ss), Listed-sort_strings x ss)

-- Ascending: each element is at most all that follow it.
abbrev pub IsSorted : List String → Type 0
IsSorted [] = Unit
IsSorted (s ∷ ss) = All (λ t. text_leb s t ≡ true) ss × IsSorted ss

All-place :
    (P : String → Type 0) (s : String) (ts : List String) → P s → All P ts → All P (place s ts)
unfolding place
All-place P s [] p h = (p, tt)
All-place P s (t ∷ ts) p (q, h) = elim (Bool-cases (text_leb s t)) [
  | inl below ↦ rw (below, if◌then◌else◌) (p, (q, h))
  | inr above ↦ rw (above, if◌then◌else◌) (q, All-place P s ts p h)
]

All-leb :
    (s t : String) (ts : List String)
    → text_leb s t ≡ true
    → All (λ u. text_leb t u ≡ true) ts
    → All (λ u. text_leb s u ≡ true) ts
All-leb s t [] h k = tt
All-leb s t (u ∷ ts) h (p, k) = (text_leb_trans s t u h p, All-leb s t ts h k)

place-IsSorted : (s : String) (ts : List String) → IsSorted ts → IsSorted (place s ts)
unfolding place
place-IsSorted s [] h = (tt, tt)
place-IsSorted s (t ∷ ts) (first, h) = elim (Bool-cases (text_leb s t)) [
  | inl below ↦ rw (below, if◌then◌else◌) ((below, All-leb s t ts below first), (first, h))
  | inr above ↦
      rw (above, if◌then◌else◌)
        (
          All-place (λ u. text_leb t u ≡ true) s ts (text_leb_total s t above) first,
          place-IsSorted s ts h,
        )
]

pub sort_strings-IsSorted : (ss : List String) → IsSorted (sort_strings ss)
unfolding sort_strings
sort_strings-IsSorted [] = tt
sort_strings-IsSorted (s ∷ ss) = place-IsSorted s (sort_strings ss) (sort_strings-IsSorted ss)
