-- ===== src/Serve/Probes.antt =====
-- What a probe answers, and the order of the middleware.
use Prim.Native.Char.{Char}
use Prim.Native.String
use text.Mathlib.TextLemmas.{append_assoc, append-nil, nil-append, cons-append, nil≢cons}
use goga.Prelude.{
  ℕ, zero, suc, ◌≡◌, refl, sym, ap, ◌∙◌, ◌↔◌, ◌⊎◌, inl, inr, String, Bool, Bool-cases, true, false,
  ◌==◌, eq_iff, ◌&&◌, Option-cases, none, some, List, [], ◌∷◌, length, All, arith, if◌then◌else◌,
}
use goga.Context.{Context}
use goga.Serve.Settings.{Check}
use goga.Serve.Ops.{line, probe_checks, probe, at, wrap_down, apply_middleware}

-- The line of one check
abbrev pub line_of : Context → Check → String
line_of ctx c = line c.name (elim (c.fn ctx) [ none ↦ "ok" | some text ↦ text ])

abbrev pub lines_of : Context → List Check → String
lines_of ctx [] = ""
lines_of ctx (c ∷ cs) = String.◌++◌ (line_of ctx c) (lines_of ctx cs)

abbrev passes : Context → List Check → Bool
passes ctx [] = true
passes ctx (c ∷ cs) = elim (c.fn ctx) [ none ↦ passes ctx cs | some text ↦ false ]

and_true : (a : Bool) → (a && true) ≡ a
and_true true = refl
and_true false = refl

and_false : (a : Bool) → (a && false) ≡ false
and_false true = refl
and_false false = refl

probe_checks_lem :
    (ctx : Context) (cs : List Check) (b : String) (all_ok : Bool)
    → probe_checks ctx cs (b, all_ok) ≡ (String.◌++◌ b (lines_of ctx cs), all_ok && passes ctx cs)
unfolding probe_checks
probe_checks_lem ctx [] b all_ok = λ i. (sym (append-nil b) i, sym (and_true all_ok) i)
probe_checks_lem ctx (c ∷ cs) b all_ok = elim (Option-cases (c.fn ctx)) [
  | inl fine ↦ rw fine (
      probe_checks_lem ctx cs (String.◌++◌ b (line c.name "ok")) all_ok
      ∙ ap (λ t. (t, all_ok && passes ctx cs))
          (append_assoc b (line c.name "ok") (lines_of ctx cs)))
  | inr (text, bad) ↦ rw bad (
      probe_checks_lem ctx cs (String.◌++◌ b (line c.name text)) false ∙ λ i.
      (append_assoc b (line c.name text) (lines_of ctx cs) i, sym (and_false all_ok) i))
]

passes-All :
    (ctx : Context) (cs : List Check) → passes ctx cs ≡ true → All (λ c. c.fn ctx ≡ none) cs
passes-All ctx [] h = tt
passes-All ctx (c ∷ cs) h = elim (Option-cases (c.fn ctx)) [
  | inl fine ↦ (fine, passes-All ctx cs (ground arith))
  | inr (text, bad) ↦ ground arith
]

All-passes :
    (ctx : Context) (cs : List Check) → All (λ c. c.fn ctx ≡ none) cs → passes ctx cs ≡ true
All-passes ctx [] h = refl
All-passes ctx (c ∷ cs) (fine, h) = let rest = All-passes ctx cs h in ground arith

abbrev IsCons : String → Type 0
IsCons s = (c : Char) × (t : String) × (s ≡ String.◌∷◌ c t)

append-IsCons : (s t : String) → IsCons s → IsCons (String.◌++◌ s t)
append-IsCons s t (c, u, e) = (c, String.◌++◌ u t, ap (λ x. String.◌++◌ x t) e ∙ cons-append c u t)

line-IsCons : (name text : String) → IsCons (line name text)
line-IsCons String.[] text =
    let (c, u, e) = append-IsCons ": " (String.◌++◌ text "\n") (":", " ", refl) in
    (c, u, nil-append (String.◌++◌ ": " (String.◌++◌ text "\n")) ∙ e)
line-IsCons (String.◌∷◌ c name) text =
    append-IsCons (String.◌∷◌ c name) (String.◌++◌ ": " (String.◌++◌ text "\n")) (c, name, refl)

nonempty : (s : String) → IsCons s → (s == "") ≡ false
nonempty s (c, t, e) = elim (Bool-cases (s == "")) [
  | inr other ↦ other
  | inl empty ↦ absurd (nil≢cons (sym ((eq_iff s "").0 empty) ∙ e))
]

lines_of-nonempty :
    (ctx : Context) (c : Check) (cs : List Check) → (lines_of ctx (c ∷ cs) == "") ≡ false
lines_of-nonempty ctx c cs =
    nonempty (lines_of ctx (c ∷ cs))
      (append-IsCons (line_of ctx c) (lines_of ctx cs) (line-IsCons c.name _))

probe-report :
    (checks : List Check) (ctx : Context)
    → probe checks ctx ≡ (
        if passes ctx checks
        then record {
          status = 200;
          body = if lines_of ctx checks == "" then "ok\n" else lines_of ctx checks;
        }
        else record { status = 503; body = lines_of ctx checks })
unfolding probe
probe-report checks ctx =
    rw (probe_checks_lem ctx checks "" true, nil-append (lines_of ctx checks)) refl

-- The body that the probes document: a line for each check, or "ok" without any.
abbrev pub body_of : Context → List Check → String
body_of ctx [] = "ok\n"
body_of ctx (c ∷ cs) = lines_of ctx (c ∷ cs)

probe-body : (checks : List Check) (ctx : Context) → (probe checks ctx).body ≡ body_of ctx checks
probe-body [] ctx = unfold probe probe_checks in refl
probe-body (c ∷ cs) ctx =
    let report = probe-report (c ∷ cs) ctx in
    let some_line = lines_of-nonempty ctx c cs in
    elim (Bool-cases (passes ctx (c ∷ cs))) [ inl good ↦ ground arith | inr bad ↦ ground arith ]

-- A probe runs every check and answers 200 exactly when all of them pass, 503 otherwise; its body
-- has a line for each check in order, with "ok" or its error, and is "ok" when there is none.
pub probe_answers :
    (checks : List Check) (ctx : Context)
    → (((probe checks ctx).status ≡ 200) ↔ All (λ c. c.fn ctx ≡ none) checks)
      × (((probe checks ctx).status ≡ 200) ⊎ ((probe checks ctx).status ≡ 503))
      × ((probe checks ctx).body ≡ body_of ctx checks)
probe_answers checks ctx = elim (Bool-cases (passes ctx checks)) [
  | inl good ↦
      let report = probe-report checks ctx in
      (
        (λ h. passes-All ctx checks good, λ h. ground arith),
        inl (ground arith),
        probe-body checks ctx,
      )
  | inr bad ↦
      let report = probe-report checks ctx in
      (
        (λ h. ground arith, λ h. cc (All-passes ctx checks h)),
        inr (ground arith),
        probe-body checks ctx,
      )
]

module _ {Handler : Type 0} where
  -- The first of the list outermost
  abbrev pub nest : Handler → List (Handler → Handler) → Handler
  nest h [] = h
  nest h (m ∷ ms) = m (nest h ms)

  wrap_down-cons :
      (m : Handler → Handler) (ms : List (Handler → Handler)) (i : ℕ) (h : Handler)
      → wrap_down (m ∷ ms) (suc i) h ≡ m (wrap_down ms i h)
  unfolding wrap_down at
  wrap_down-cons m ms zero h = refl
  wrap_down-cons m ms (suc i) h = wrap_down-cons m ms i (elim (at ms i) [ none ↦ h | some n ↦ n h ])

  -- The loop of applyMiddleware, from the last to the first, nests the handlers with the first of
  -- the list outermost and the application innermost.
  pub apply_middleware-nest :
      (h : Handler) (mw : List (Handler → Handler)) → apply_middleware h mw ≡ nest h mw
  unfolding apply_middleware
  apply_middleware-nest h [] = refl
  apply_middleware-nest h (m ∷ ms) =
      wrap_down-cons m ms (length ms) h ∙ ap m (apply_middleware-nest h ms)
