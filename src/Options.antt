-- ===== src/Options.antt =====
-- goga.go: functional options and the fold that applies them.
pub mod Laws
use goga.Prelude.{String, List, [], ◌∷◌, Option, none, some}
use goga.Errors.{Error, wrap}

-- `type Option[S any] func(*S) error`: what it leaves in `*S`, and its error or nil.
abbrev pub Setter : Type 0 → Type 0 → Type 0
Setter E S = S → S × Option (Error E)

abbrev pub apply_message : String
apply_message = "goga: applying option"

module _ {E S : Type 0} where
  -- The loop of Apply. The settings come back beside an error too.
  unfoldable pub apply : S → List (Setter E S) → S × Option (Error E)
  apply defaults [] = (defaults, none)
  apply defaults (opt ∷ opts) =
      let (s, e) = opt defaults in
      elim e [ none ↦ apply s opts | some cause ↦ (s, some (wrap apply_message cause)) ]
