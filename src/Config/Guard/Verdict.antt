-- ===== src/Config/Guard/Verdict.antt =====
-- The verdict of the key guard on one more source, against an independent description of a clash.
use goga.Prelude.{
  ◌≡◌, refl, ap, String, List, [], ◌∷◌, ◌++◌, map, none, some, Option-cases, Bool-cases, ◌==◌,
  eq_iff, arith, Listed, inl, inr, Listed-append_cases, Listed-append_left, Listed-append_right,
}
use goga.Prelude.Dict.{lookup, lookup-insert}
use goga.Errors.{ok, err, raw, ◌>>=◌}
use goga.Config.Keys.{parent_paths}
use goga.Config.Keys.Laws.{IsParent, parent_paths_iff, not-own_parent}
use goga.Config.Failure.{colliding_keys, Result, Error}
use goga.Config.Guard.{Branch, KeyGuard, owned_parent, record_key, add_key, add_keys}
use goga.Config.Guard.Laws.{
  Trail, Tracks, owned_parent-some, owned_parent-none, add_branches-keeps, add_branches-known,
  add_branches-only,
}

-- One key of the trail is a parent of another: that goes on after it with a delimiter.
pub record Clash (trail : Trail) (scalar scalar_source nested nested_source : String) : Type 0 where
  pub scalar_set : Listed (scalar_source, scalar) trail
  pub nested_set : Listed (nested_source, nested) trail
  pub below : IsParent scalar nested

abbrev pub IsClashFree : Trail → Type 0
IsClashFree trail = (s k t l : String) → Listed (s, k) trail → Listed (t, l) trail → ¬ IsParent k l

-- What the guard may answer when the trail is what it has been shown.
abbrev pub Verdict : Trail → Result KeyGuard → Type 0
Verdict trail (ok g) = Tracks g trail × IsClashFree trail
Verdict trail (err e) =
    (scalar : String) × (scalar_source : String) × (nested : String) × (nested_source : String) × (e
      ≡ raw (colliding_keys scalar scalar_source nested nested_source))
    × Clash trail scalar scalar_source nested nested_source

module _ (g : KeyGuard) (trail : Trail) (source key : String) (h : Tracks g trail) where
  record_key-leaf_known :
      (s k : String)
      → Listed (s, k) ((source, key) ∷ trail)
      → (t : String) × (lookup k (record_key g source key).leaves ≡ some t)
  unfolding record_key
  record_key-leaf_known s k (inl e) =
      (source, ground (arith, lookup-insert key k source g.leaves, eq_iff key k))
  record_key-leaf_known s k (inr m) =
      let (t, known) = h.leaf_known s k m in
      elim (Bool-cases (key == k)) [
        | inl same ↦ (source, ground (arith, lookup-insert key k source g.leaves))
        | inr other ↦ (t, ground (arith, lookup-insert key k source g.leaves))
      ]

  record_key-branch_known :
      (s k p : String)
      → Listed (s, k) ((source, key) ∷ trail)
      → Listed p (parent_paths k)
      → (b : Branch) × (lookup p (record_key g source key).branches ≡ some b)
  unfolding record_key
  record_key-branch_known s k p (inl e) below =
      add_branches-known _ (parent_paths key) p g.branches
        (let same : k ≡ key = ap (λ (x : String × String). x.1) e in rw same at below)
  record_key-branch_known s k p (inr m) below =
      let (b, known) = h.branch_known s k p m below in
      (b, add_branches-keeps _ b (parent_paths key) p g.branches known)

  record_key-leaf_set :
      (k s : String)
      → lookup k (record_key g source key).leaves ≡ some s
      → Listed (s, k) ((source, key) ∷ trail)
  unfolding record_key
  record_key-leaf_set k s e = elim (Bool-cases (key == k)) [
    | inl same ↦ inl (ground (arith, lookup-insert key k source g.leaves, eq_iff key k))
    | inr other ↦ inr (h.leaf_set k s (ground (arith, lookup-insert key k source g.leaves)))
  ]

  record_key-branch_set :
      (p : String) (b : Branch)
      → lookup p (record_key g source key).branches ≡ some b
      → Listed (b.source, b.leaf) ((source, key) ∷ trail) × Listed p (parent_paths b.leaf)
  unfolding record_key
  record_key-branch_set p b e = elim (add_branches-only _ b (parent_paths key) p g.branches e) [
    | inl old ↦ let (m, below) = h.branch_set p b old in (inr m, below)
    | inr (m, f) ↦ rw f (inl refl, m)
  ]

  record_key-Tracks : Tracks (record_key g source key) ((source, key) ∷ trail)
  record_key-Tracks = record {
    leaf_set = record_key-leaf_set;
    leaf_known = record_key-leaf_known;
    branch_set = record_key-branch_set;
    branch_known = record_key-branch_known;
  }

  -- The key that neither test stopped clashes with nothing.
  record_key-IsClashFree :
      owned_parent g.leaves (parent_paths key) ≡ none
      → lookup key g.branches ≡ none
      → IsClashFree trail
      → IsClashFree ((source, key) ∷ trail)
  record_key-IsClashFree no_owner no_branch free s k t l (inl e) (inl f) below =
      not-own_parent key (
        rw (ap (λ (x : String × String). x.1) e, ap (λ (x : String × String). x.1) f) at
          ((parent_paths_iff k l).1 below))
  record_key-IsClashFree no_owner no_branch free s k t l (inl e) (inr n) below =
      let (b, known) =
        h.branch_known t l key n
          (rw (ap (λ (x : String × String). x.1) e) at ((parent_paths_iff k l).1 below)) in
      cc
  record_key-IsClashFree no_owner no_branch free s k t l (inr m) (inl f) below =
      let (o, known) = h.leaf_known s k m in
      cc (
        owned_parent-none g.leaves (parent_paths key) k no_owner
          (rw (ap (λ (x : String × String). x.1) f) at ((parent_paths_iff k l).1 below)))
  record_key-IsClashFree no_owner no_branch free s k t l (inr m) (inr n) below =
      free s k t l m n below

  add_key-Verdict : IsClashFree trail → Verdict ((source, key) ∷ trail) (add_key g source key)
  unfolding add_key
  add_key-Verdict free = elim (Option-cases (owned_parent g.leaves (parent_paths key))) [
    | inr ((parent, owner), e) ↦
        let (below, set) = owned_parent-some g.leaves (parent_paths key) parent owner e in
        rw (e, Verdict)
          (
            parent,
            owner,
            key,
            source,
            refl,
            record {
              scalar_set = inr (h.leaf_set parent owner set);
              nested_set = inl refl;
              below = (parent_paths_iff parent key).0 below;
            },
          )
    | inl no_owner ↦
        rw (no_owner, Verdict)
          (elim (Option-cases (lookup key g.branches)) [
            | inr (b, e) ↦
                let (set, below) = h.branch_set key b e in
                rw (e, Verdict)
                  (
                    key,
                    source,
                    b.leaf,
                    b.source,
                    refl,
                    record {
                      scalar_set = inl refl;
                      nested_set = inr set;
                      below = (parent_paths_iff key b.leaf).0 below;
                    },
                  )
            | inl no_branch ↦
                rw (no_branch, Verdict)
                  (record_key-Tracks, record_key-IsClashFree no_owner no_branch free)
          ])
  ]

abbrev pub Covers : Trail → Trail → Type 0
Covers big small = (x : String × String) → Listed x small → Listed x big

-- A refusal stays one when the trail grows.
pub refusal_grows :
    (big small : Trail) (e : Error) → Covers big small → Verdict small (err e) → Verdict big (err e)
refusal_grows big small e more (scalar, ss, nested, ns, same, clash) = (
  scalar,
  ss,
  nested,
  ns,
  same,
  record {
    scalar_set = more (ss, scalar) clash.scalar_set;
    nested_set = more (ns, nested) clash.nested_set;
    below = clash.below;
  },
)

-- The verdict depends only on what the trail holds.
pub Verdict-same :
    (t u : Trail) (r : Result KeyGuard) → Covers t u → Covers u t → Verdict u r → Verdict t r
Verdict-same t u (err e) to from v = refusal_grows t u e to v
Verdict-same t u (ok g) to from (tracks, free) = (
  record {
    leaf_set = λ k s e. to (s, k) (tracks.leaf_set k s e);
    leaf_known = λ s k m. tracks.leaf_known s k (from (s, k) m);
    branch_set =
        λ p b e. let (m, below) = tracks.branch_set p b e in (to (b.source, b.leaf) m, below);
    branch_known = λ s k p m below. tracks.branch_known s k p (from (s, k) m) below;
  },
  λ s k t' l m n below. free s k t' l (from (s, k) m) (from (t', l) n) below,
)

-- The keys of one source, in front of what earlier sources set.
abbrev pub from_source : String → List String → Trail → Trail
from_source source keys trail = map (λ key. (source, key)) keys ++ trail

Covers-swap :
    (source key : String) (keys : List String) (trail : Trail)
    → Covers
        (from_source source (key ∷ keys) trail)
        (from_source source keys ((source, key) ∷ trail))
Covers-swap source key keys trail x m =
    elim (Listed-append_cases x (map (λ k. (source, k)) keys) ((source, key) ∷ trail) m) [
      | inl l ↦ inr (Listed-append_left x (map (λ k. (source, k)) keys) trail l)
      | inr (inl e) ↦ inl e
      | inr (inr r) ↦ inr (Listed-append_right x (map (λ k. (source, k)) keys) trail r)
    ]

Covers-unswap :
    (source key : String) (keys : List String) (trail : Trail)
    → Covers
        (from_source source keys ((source, key) ∷ trail))
        (from_source source (key ∷ keys) trail)
Covers-unswap source key keys trail x (inl e) =
    Listed-append_right x (map (λ k. (source, k)) keys) ((source, key) ∷ trail) (inl e)
Covers-unswap source key keys trail x (inr m) =
    elim (Listed-append_cases x (map (λ k. (source, k)) keys) trail m) [
      | inl l ↦ Listed-append_left x (map (λ k. (source, k)) keys) ((source, key) ∷ trail) l
      | inr r ↦ Listed-append_right x (map (λ k. (source, k)) keys) ((source, key) ∷ trail) (inr r)
    ]

pub add_keys-Verdict :
    (g : KeyGuard) (trail : Trail) (source : String) (keys : List String)
    → Tracks g trail
    → IsClashFree trail
    → Verdict (from_source source keys trail) (add_keys g source keys)
unfolding add_keys
add_keys-Verdict g trail source [] tracks free = (tracks, free)
add_keys-Verdict g trail source (key ∷ keys) tracks free =
    next (add_key g source key) (add_key-Verdict g trail source key tracks free)
      (λ g'. add_keys-Verdict g' ((source, key) ∷ trail) source keys)
  where
    big : Trail
    big = from_source source (key ∷ keys) trail

    small : Trail
    small = (source, key) ∷ trail

    next :
        (r : Result KeyGuard)
        → Verdict small r
        → ((g' : KeyGuard)
            → Tracks g' small
            → IsClashFree small
            → Verdict (from_source source keys small) (add_keys g' source keys))
        → Verdict big (r >>= λ g'. add_keys g' source keys)
    next (ok g') (tracks', free') rest =
        Verdict-same big (from_source source keys small) (add_keys g' source keys)
          (Covers-swap source key keys trail) (Covers-unswap source key keys trail)
          (rest g' tracks' free')
    next (err e) v rest =
        refusal_grows big small e
          (λ x m. elim m [
            | inl same ↦ inl same
            | inr old ↦ inr (Listed-append_right x (map (λ k. (source, k)) keys) trail old)
          ])
          v
