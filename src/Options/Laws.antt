-- ===== src/Options/Laws.antt =====
-- What goga.Apply promises the packages that take options.
use goga.Prelude.{
  ◌≡◌, refl, List, [], ◌∷◌, ◌++◌, Option, none, some, arith, Listed, Option-cases, inl, inr,
}
use goga.Errors.{Error, wrap}
use goga.Options.{Setter, apply, apply_message}

module _ {E S : Type 0} where
  -- Go on with `ys` where `xs` ended, unless it failed.
  abbrev pub and_then : S × Option (Error E) → List (Setter E S) → S × Option (Error E)
  and_then (s, none) ys = apply s ys
  and_then (s, some e) ys = (s, some e)

  -- Apply on two lists of options in a row goes on with the second where the first ended, and stops
  -- with the first list's settings and error if that one failed.
  pub apply-append :
      (defaults : S) (xs ys : List (Setter E S))
      → apply defaults (xs ++ ys) ≡ and_then (apply defaults xs) ys
  unfolding apply
  apply-append defaults [] ys = refl
  apply-append defaults (opt ∷ xs) ys = ground (arith, apply-append (opt defaults).0 xs ys)

  -- When Apply fails, one of the listed options failed: it left the settings that Apply returns, and
  -- Apply wraps its error.
  pub apply_failure :
      (defaults s : S) (xs : List (Setter E S)) (e : Error E)
      → apply defaults xs ≡ (s, some e)
      → (opt : Setter E S) × (before : S) × (cause : Error E) × Listed opt xs
        × (opt before ≡ (s, some cause))
        × (e ≡ wrap apply_message cause)
  unfolding apply
  apply_failure defaults s [] e h = cc
  apply_failure defaults s (opt ∷ xs) e h = elim (Option-cases (opt defaults).1) [
    | inl good ↦
        let (o, before, cause, m, p, q) = apply_failure (opt defaults).0 s xs e (ground arith) in
        (o, before, cause, inr m, p, q)
    | inr (cause, bad) ↦ (opt, defaults, cause, inl refl, ground arith, ground arith)
  ]
