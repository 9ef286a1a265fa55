-- ===== src/Config/Guard/Accepts.antt =====
-- `add` on a whole source, and on one source after the other.
use goga.Prelude.{
  ◌≡◌, refl, String, List, [], ◌∷◌, map, ◌↔◌, inl, inr, Listed, Listed-map, Listed-map_inv,
  Listed-append_cases, Listed-append_left, Listed-append_right,
}
use goga.Errors.{ok, err, Result-cases, bind-ok, ◌>>=◌}
use goga.Config.Failure.{Result}
use goga.Sorting.{sort_strings, Listed-sort_strings}
use goga.Config.Guard.{KeyGuard, new_key_guard, add}
use goga.Config.Guard.Laws.{Trail, Tracks, new-Tracks}
use goga.Config.Guard.Verdict.{
  IsClashFree, Verdict, Covers, Verdict-same, from_source, add_keys-Verdict,
}

Covers-from_source :
    (source : String) (big small : List String) (trail : Trail)
    → ((k : String) → Listed k small → Listed k big)
    → Covers (from_source source big trail) (from_source source small trail)
Covers-from_source source big small trail more x m =
    elim (Listed-append_cases x (map (λ k. (source, k)) small) trail m) [
      | inl l ↦
          let (k, e, n) = Listed-map_inv (λ (k : String). (source, k)) x small l in
          rw e (
            Listed-append_left (source, k) (map (λ j. (source, j)) big) trail
              (Listed-map (λ (j : String). (source, j)) k big (more k n)))
      | inr r ↦ Listed-append_right x (map (λ k. (source, k)) big) trail r
    ]

-- On a guard that tracks a trail without clashes, `add` either accepts, and then the new guard tracks
-- the trail with the source's keys, which has no clash either; or it refuses, and its error names a
-- key and one below it that both stand in that trail, each with a source that set it.
pub add-Verdict :
    (g : KeyGuard) (trail : Trail) (source : String) (flat : List String)
    → Tracks g trail
    → IsClashFree trail
    → Verdict (from_source source flat trail) (add g source flat)
unfolding add
add-Verdict g trail source flat tracks free =
    Verdict-same (from_source source flat trail) (from_source source (sort_strings flat) trail)
      (add g source flat)
      (Covers-from_source source flat (sort_strings flat) trail
        (λ k. (Listed-sort_strings k flat).0))
      (Covers-from_source source (sort_strings flat) flat trail
        (λ k. (Listed-sort_strings k flat).1))
      (add_keys-Verdict g trail source (sort_strings flat) tracks free)

-- `add` for one source after the other
unfoldable pub add_all : KeyGuard → List (String × List String) → Result KeyGuard
unfolding add
add_all g [] = ok g
add_all g ((source, flat) ∷ rest) = do next ← add g source flat; add_all next rest

-- The keys of those sources, in front of what earlier sources set
abbrev pub shown : List (String × List String) → Trail → Trail
shown [] trail = trail
shown ((source, flat) ∷ rest) trail = shown rest (from_source source flat trail)

Covers-shown :
    (rest : List (String × List String)) (trail : Trail) → Covers (shown rest trail) trail
Covers-shown [] trail x m = m
Covers-shown ((source, flat) ∷ rest) trail x m =
    Covers-shown rest (from_source source flat trail) x
      (Listed-append_right x (map (λ k. (source, k)) flat) trail m)

Accepts : KeyGuard → List (String × List String) → Type 0
Accepts g rest = (g' : KeyGuard) × (add_all g rest ≡ ok g')

accepted-free :
    (g : KeyGuard) (trail : Trail) (rest : List (String × List String))
    → Tracks g trail
    → IsClashFree trail
    → Accepts g rest
    → IsClashFree (shown rest trail)
unfolding add_all Accepts
accepted-free g trail [] tracks free accepts = free
accepted-free g trail ((source, flat) ∷ rest) tracks free (g', e) =
    let verdict = add-Verdict g trail source flat tracks free in
    let (next, one, others) = bind-ok (add g source flat) (λ n. add_all n rest) e in
    let (tracks', free') : Verdict (from_source source flat trail) (ok next) = rw one at verdict in
    accepted-free next (from_source source flat trail) rest tracks' free' (g', others)

free-accepted :
    (g : KeyGuard) (trail : Trail) (rest : List (String × List String))
    → Tracks g trail
    → IsClashFree trail
    → IsClashFree (shown rest trail)
    → Accepts g rest
unfolding add_all Accepts
free-accepted g trail [] tracks free whole = (g, refl)
free-accepted g trail ((source, flat) ∷ rest) tracks free whole =
    let verdict = add-Verdict g trail source flat tracks free in
    elim (Result-cases (add g source flat)) [
      | inl (next, one) ↦
          let (tracks', free') : Verdict (from_source source flat trail) (ok next) =
            rw one at verdict in
          rw one (free-accepted next (from_source source flat trail) rest tracks' free' whole)
      | inr (f, e) ↦
          let (s, ss, n, ns, same, clash) : Verdict (from_source source flat trail) (err f) =
            rw e at verdict in
          let more = Covers-shown rest (from_source source flat trail) in
          absurd (
            whole ss s ns n (more (ss, s) clash.scalar_set) (more (ns, n) clash.nested_set)
              clash.below)
    ]

-- A new guard that is given sources one after the other accepts them all exactly when no key of all
-- of them together, of one source or of two, is a parent of another: when none goes on after another
-- with a delimiter and a rest.
pub guard_accepts_iff :
    (sources : List (String × List String))
    → ((g : KeyGuard) × (add_all new_key_guard sources ≡ ok g)) ↔ IsClashFree (shown sources [])
unfolding Accepts
guard_accepts_iff sources =
    let start : IsClashFree [] = λ s k t l m. elim m [ ] in
    (
      accepted-free new_key_guard [] sources new-Tracks start,
      free-accepted new_key_guard [] sources new-Tracks start,
    )
