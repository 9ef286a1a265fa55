-- ===== src/Serve/Ops.antt =====
-- serve/ops.go: the probes, the choice between the operational mux and the application, and the
-- chain of middleware.
use Prim.Native.String
use goga.Prelude.{
  ℕ, zero, suc, String, Bool, true, false, ◌==◌, Option, none, some, List, [], ◌∷◌, length,
  if◌then◌else◌,
}
use goga.Context.{Context}
use goga.Serve.Settings.{Check}

-- A response of a probe, less its two fixed headers
pub record Response : Type 0 where
  pub status : ℕ
  pub body : String

abbrev pub line : String → String → String
line name text = String.◌++◌ name (String.◌++◌ ": " (String.◌++◌ text "\n"))

-- The loop of `probe`, on its builder and its flag
unfoldable pub probe_checks : Context → List Check → String × Bool → String × Bool
probe_checks ctx [] state = state
probe_checks ctx (c ∷ cs) (b, all_ok) = probe_checks ctx cs (elim (c.fn ctx) [
  | some text ↦ (String.◌++◌ b (line c.name text), false)
  | none ↦ (String.◌++◌ b (line c.name "ok"), all_ok)
])

unfoldable pub probe : List Check → Context → Response
unfolding probe_checks
probe checks ctx =
    let (b, all_ok) = probe_checks ctx checks ("", true) in
    if all_ok
    then record { status = 200; body = if b == "" then "ok\n" else b }
    else record { status = 503; body = b }

-- What the operational mux has at a pattern: promhttp's handler, or a probe.
pub data Page : Type 0 where
  metrics : Page
  probe_of : List Check → Page

abbrev pub OpsMux : Type 0
OpsMux = List (String × Page)

unfoldable pub new_ops_mux : List Check → List Check → OpsMux
new_ops_mux health readiness =
    ("/metrics", metrics)
    ∷ ("/livez", probe_of health)
    ∷ ("/healthz", probe_of health)
    ∷ ("/readyz", probe_of readiness)
    ∷ []

-- The pattern that the mux has for a path that its cleaning leaves alone: one without a wildcard
-- matches itself.
unfoldable pub matched : OpsMux → String → Option Page
matched [] path = none
matched ((pattern, page) ∷ mux) path = if pattern == path then some page else matched mux path

-- `mw[i]`
unfoldable pub at {ℓ} : {A : Type ℓ} → List A → ℕ → Option A
at [] i = none
at (x ∷ xs) zero = some x
at (x ∷ xs) (suc i) = at xs i

module _ {Handler : Type 0} where
  -- The loop of applyMiddleware, with the rounds that are left; `i` is one less than that.
  unfoldable pub wrap_down : List (Handler → Handler) → ℕ → Handler → Handler
  unfolding at
  wrap_down mw zero h = h
  wrap_down mw (suc i) h = wrap_down mw i (elim (at mw i) [ none ↦ h | some m ↦ m h ])

  unfoldable pub apply_middleware : Handler → List (Handler → Handler) → Handler
  unfolding wrap_down
  apply_middleware h mw = wrap_down mw (length mw) h
