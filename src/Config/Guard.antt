-- ===== src/Config/Guard.antt =====
-- The key guard of config/config.go.
pub mod Laws
pub mod Verdict
pub mod Accepts
use goga.Prelude.{String, List, [], ◌∷◌, Option, none, some}
use goga.Sorting.{sort_strings}
use goga.Prelude.Dict.{Dict, lookup, insert}
use goga.Errors.{ok, err, raw, ◌>>=◌}
use goga.Config.Keys.{parent_paths}
use goga.Config.Failure.{Failure, colliding_keys, Result}

pub record Branch : Type 0 where
  pub leaf : String
  pub source : String

-- `keyGuard`
pub record KeyGuard : Type 0 where
  pub leaves : Dict String
  pub branches : Dict Branch

abbrev pub new_key_guard : KeyGuard
new_key_guard = record { leaves = []; branches = [] }

-- The first parent that another source set to a value, with that source.
unfoldable pub owned_parent : Dict String → List String → Option (String × String)
owned_parent leaves [] = none
owned_parent leaves (parent ∷ parents) = elim (lookup parent leaves) [
  | some owner ↦ some (parent, owner)
  | none ↦ owned_parent leaves parents
]

-- The second loop over the parents: a parent that is known keeps its example.
unfoldable pub add_branches : Branch → List String → Dict Branch → Dict Branch
add_branches b [] branches = branches
add_branches b (parent ∷ parents) branches =
    add_branches b parents
      (elim (lookup parent branches) [ some known ↦ branches | none ↦ insert parent b branches ])

unfoldable pub record_key : KeyGuard → String → String → KeyGuard
record_key g source key = record {
  leaves = insert key source g.leaves;
  branches = add_branches (record { leaf = key; source = source }) (parent_paths key) g.branches;
}

-- One round of the loop of `add`.
unfoldable pub add_key : KeyGuard → String → String → Result KeyGuard
unfolding owned_parent add_branches record_key
add_key g source key = elim (owned_parent g.leaves (parent_paths key)) [
  | some (parent, owner) ↦ err (raw (colliding_keys parent owner key source))
  | none ↦ elim (lookup key g.branches) [
    | some b ↦ err (raw (colliding_keys key source b.leaf b.source))
    | none ↦ ok (record_key g source key)
  ]
]

unfoldable pub add_keys : KeyGuard → String → List String → Result KeyGuard
unfolding add_key
add_keys g source [] = ok g
add_keys g source (key ∷ keys) = do next ← add_key g source key; add_keys next source keys

-- `add`, over the keys of the flattened map in the order of its range.
unfoldable pub add : KeyGuard → String → List String → Result KeyGuard
unfolding add_keys sort_strings
add g source flat = add_keys g source (sort_strings flat)
