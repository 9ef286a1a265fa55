-- ===== src/Config/Guard/Laws.antt =====
-- The key guard keeps track of the keys that it has seen: what it accepts has no key that is the
-- parent of another, and what it refuses has one.
use goga.Prelude.{
  ◌≡◌, String, List, [], ◌∷◌, none, some, Option-cases, eq_iff, arith, Listed, inl, inr, ◌⊎◌,
}
use goga.Prelude.Dict.{Dict, lookup, insert, lookup-insert}
use goga.Config.Keys.{parent_paths}
use goga.Config.Guard.{Branch, KeyGuard, new_key_guard, owned_parent, add_branches}

-- Which source set which key, newest first.
abbrev pub Trail : Type 0
Trail = List (String × String)

pub record Tracks (g : KeyGuard) (trail : Trail) : Type 0 where
  pub leaf_set : (k s : String) → lookup k g.leaves ≡ some s → Listed (s, k) trail
  pub leaf_known :
      (s k : String) → Listed (s, k) trail → (t : String) × (lookup k g.leaves ≡ some t)
  pub branch_set :
      (p : String) (b : Branch)
      → lookup p g.branches ≡ some b
      → Listed (b.source, b.leaf) trail × Listed p (parent_paths b.leaf)
  pub branch_known :
      (s k p : String)
      → Listed (s, k) trail
      → Listed p (parent_paths k)
      → (b : Branch) × (lookup p g.branches ≡ some b)

pub new-Tracks : Tracks new_key_guard []
unfolding lookup
new-Tracks = record {
  leaf_set = λ k s h. cc;
  leaf_known = λ s k m. elim m [ ];
  branch_set = λ p b h. cc;
  branch_known = λ s k p m. elim m [ ];
}

pub owned_parent-some :
    (leaves : Dict String) (parents : List String) (p owner : String)
    → owned_parent leaves parents ≡ some (p, owner)
    → Listed p parents × (lookup p leaves ≡ some owner)
unfolding owned_parent
owned_parent-some leaves [] p owner h = cc
owned_parent-some leaves (q ∷ qs) p owner h = elim (Option-cases (lookup q leaves)) [
  | inl free ↦ let (m, e) = owned_parent-some leaves qs p owner (ground arith) in (inr m, e)
  | inr (t, e) ↦ (inl (ground arith), ground arith)
]

pub owned_parent-none :
    (leaves : Dict String) (parents : List String) (p : String)
    → owned_parent leaves parents ≡ none
    → Listed p parents
    → lookup p leaves ≡ none
unfolding owned_parent
owned_parent-none leaves [] p h m = elim m [ ]
owned_parent-none leaves (q ∷ qs) p h (inl e) = ground arith
owned_parent-none leaves (q ∷ qs) p h (inr m) = owned_parent-none leaves qs p (ground arith) m

abbrev with_example : Branch → String → Dict Branch → Dict Branch
with_example b parent branches = elim (lookup parent branches) [
  | some known ↦ branches
  | none ↦ insert parent b branches
]

-- An example that is known is kept.
with_example-keeps :
    (b c : Branch) (parent p : String) (branches : Dict Branch)
    → lookup p branches ≡ some c
    → lookup p (with_example b parent branches) ≡ some c
with_example-keeps b c parent p branches h =
    ground (arith, lookup-insert parent p b branches, eq_iff parent p)

with_example_self :
    (b : Branch) (p : String) (branches : Dict Branch)
    → (c : Branch) × (lookup p (with_example b p branches) ≡ some c)
with_example_self b p branches = elim (Option-cases (lookup p branches)) [
  | inl e ↦ (b, ground (arith, lookup-insert p p b branches, eq_iff p p))
  | inr (c, e) ↦ (c, ground arith)
]

with_example-only :
    (b c : Branch) (parent p : String) (branches : Dict Branch)
    → lookup p (with_example b parent branches) ≡ some c
    → (lookup p branches ≡ some c) ⊎ ((parent ≡ p) × (c ≡ b))
with_example-only b c parent p branches h =
    ground (arith, lookup-insert parent p b branches, eq_iff parent p)

pub add_branches-keeps :
    (b c : Branch) (parents : List String) (p : String) (branches : Dict Branch)
    → lookup p branches ≡ some c
    → lookup p (add_branches b parents branches) ≡ some c
unfolding add_branches
add_branches-keeps b c [] p branches h = h
add_branches-keeps b c (q ∷ qs) p branches h =
    add_branches-keeps b c qs p (with_example b q branches) (with_example-keeps b c q p branches h)

pub add_branches-known :
    (b : Branch) (parents : List String) (p : String) (branches : Dict Branch)
    → Listed p parents
    → (c : Branch) × (lookup p (add_branches b parents branches) ≡ some c)
unfolding add_branches
add_branches-known b [] p branches m = elim m [ ]
add_branches-known b (q ∷ qs) p branches (inl e) =
    let (c, h) = with_example_self b p branches in
    (c, add_branches-keeps b c qs p (with_example b q branches) (rw (← e) h))
add_branches-known b (q ∷ qs) p branches (inr m) =
    add_branches-known b qs p (with_example b q branches) m

pub add_branches-only :
    (b c : Branch) (parents : List String) (p : String) (branches : Dict Branch)
    → lookup p (add_branches b parents branches) ≡ some c
    → (lookup p branches ≡ some c) ⊎ (Listed p parents × (c ≡ b))
unfolding add_branches
add_branches-only b c [] p branches h = inl h
add_branches-only b c (q ∷ qs) p branches h =
    elim (add_branches-only b c qs p (with_example b q branches) h) [
      | inl before ↦ elim (with_example-only b c q p branches before) [
        | inl old ↦ inl old
        | inr (e, f) ↦ inr (inl (ground arith), f)
      ]
      | inr (m, f) ↦ inr (inr m, f)
    ]
