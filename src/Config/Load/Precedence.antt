-- ===== src/Config/Load/Precedence.antt =====
-- Which source a key's value comes from: the last one that sets it. Parameterised by what koanf
-- documents of a merge.
use goga.Prelude.{
  ◌≡◌, ◌∙◌, ◌⊎◌, subst, String, Option, none, some, List, [], ◌∷◌, ◌++◌, All, Listed, arith, map,
  Listed-append_left, Listed-append_right, Listed-map, inl, inr,
}
use goga.Errors.{ok, Result-cases}
use goga.Config.Library.{Library}
use goga.Config.Keys.Laws.{IsParent}
use goga.Config.Guard.{add}
use goga.Config.Guard.Laws.{Trail, Tracks, new-Tracks}
use goga.Config.Guard.Verdict.{IsClashFree, Covers, from_source, Verdict}
use goga.Config.Guard.Accepts.{add-Verdict}
use goga.Config.Settings.{Source}
use goga.Config.Load.{Merge, merge_map, merge_source, merge_sources, start_merge}

-- No key of `keys` is above or below `key`.
abbrev pub Apart : String → List String → Type 0
Apart key keys = (j : String) → Listed j keys → (¬ IsParent key j) × (¬ IsParent j key)

-- k.Get and the value of a flattened map, and how k.Load changes the former: a key of the new map
-- takes its value; a key that the new map neither sets nor nests over or under keeps its own.
pub record MergeLaws (lib : Library) : Type 1 where
  pub Datum : Type 0
  pub value_at : lib.Handle → String → Option Datum
  pub entry : lib.Map → String → Option Datum
  pub entry_listed :
      (mp : lib.Map) (key : String) (v : Datum)
      → entry mp key ≡ some v
      → Listed key (lib.flatten mp)
  pub merge_new :
      (k k' : lib.Handle) (mp : lib.Map) (key : String) (v : Datum)
      → lib.merge k mp ≡ ok k'
      → entry mp key ≡ some v
      → value_at k' key ≡ some v
  pub merge_old :
      (k k' : lib.Handle) (mp : lib.Map) (key : String)
      → lib.merge k mp ≡ ok k'
      → entry mp key ≡ none
      → Apart key (lib.flatten mp)
      → value_at k' key ≡ value_at k key

module _ (lib : Library) where
  open lib use {Map, Handle, flatten, merge}

  -- A round that succeeds with a map: the guard and koanf both took it.
  merge_map-ok :
      (m m' : Merge lib) (name : String) (mp : Map)
      → merge_map lib m name mp ≡ ok m'
      → (add m.guard name (flatten mp) ≡ ok m'.guard) × (merge m.k mp ≡ ok m'.k)
  unfolding merge_map
  merge_map-ok m m' name mp h = ground arith

  -- A round that succeeds: the source had no map, or its map was merged.
  merge_source-ok :
      (m m' : Merge lib) (src : Source lib)
      → merge_source lib m src ≡ ok m'
      → ((src.read m.k ≡ ok none) × (m ≡ m'))
        ⊎ ((mp : Map) × (src.read m.k ≡ ok (some mp)) × (merge_map lib m src.name mp ≡ ok m'))
  unfolding merge_source
  merge_source-ok m m' src h = ground arith

  -- What a round that succeeds leaves of the guard: it tracks a larger trail, still free of clashes.
  pub record Sound (m : Merge lib) (trail : Trail) : Type 0 where
    pub tracks : Tracks m.guard trail
    pub free : IsClashFree trail

  merge_map-Sound :
      (m m' : Merge lib) (trail : Trail) (name : String) (mp : Map)
      → Sound m trail
      → merge_map lib m name mp ≡ ok m'
      → Sound m' (from_source name (flatten mp) trail)
  merge_map-Sound m m' trail name mp sound h =
      let (added, merged) = merge_map-ok m m' name mp h in
      let (tracks, free) : Verdict (from_source name (flatten mp) trail) (ok m'.guard) =
        rw added at (add-Verdict m.guard trail name (flatten mp) sound.tracks sound.free) in
      record { tracks = tracks; free = free }

  merge_source-Sound :
      (m m' : Merge lib) (trail : Trail) (src : Source lib)
      → Sound m trail
      → merge_source lib m src ≡ ok m'
      → (larger : Trail) × Covers larger trail × Sound m' larger
  merge_source-Sound m m' trail src sound h = elim (merge_source-ok m m' src h) [
    | inl (skipped, same) ↦ (trail, λ x l. l, subst (λ n. Sound n trail) same sound)
    | inr (mp, read, merged) ↦ (
      from_source src.name (flatten mp) trail,
      λ x l. Listed-append_right x (map (λ k. (src.name, k)) (flatten mp)) trail l,
      merge_map-Sound m m' trail src.name mp sound merged,
    )
  ]

  merge_sources-cons :
      (m m' : Merge lib) (src : Source lib) (rest : List (Source lib))
      → merge_sources lib m (src ∷ rest) ≡ ok m'
      → (n : Merge lib) × (merge_source lib m src ≡ ok n) × (merge_sources lib n rest ≡ ok m')
  unfolding merge_sources
  merge_sources-cons m m' src rest h = elim (Result-cases (merge_source lib m src)) [
    | inl (n, e) ↦ (n, e, rw e at h)
    | inr (f, e) ↦ cc
  ]

  merge_sources-Sound :
      (m m' : Merge lib) (trail : Trail) (srcs : List (Source lib))
      → Sound m trail
      → merge_sources lib m srcs ≡ ok m'
      → (larger : Trail) × Covers larger trail × Sound m' larger
  unfolding merge_sources
  merge_sources-Sound m m' trail [] sound h =
      (trail, λ x l. l, subst (λ n. Sound n trail) (ground arith) sound)
  merge_sources-Sound m m' trail (src ∷ rest) sound h =
      let (n, one, others) = merge_sources-cons m m' src rest h in
      let (t, more, next) = merge_source-Sound m n trail src sound one in
      let (u, most, last) = merge_sources-Sound n m' t rest next others in
      (u, λ x l. most x (more x l), last)

  -- What is left to merge after the first sources.
  merge_sources-rest :
      (m m1 m' : Merge lib) (before rest : List (Source lib))
      → merge_sources lib m before ≡ ok m1
      → merge_sources lib m (before ++ rest) ≡ ok m'
      → merge_sources lib m1 rest ≡ ok m'
  unfolding merge_sources
  merge_sources-rest m m1 m' [] rest first whole =
      subst (λ n. merge_sources lib n rest ≡ ok m') (ground arith) whole
  merge_sources-rest m m1 m' (src ∷ before) rest first whole =
      let (n, one, others) = merge_sources-cons m m1 src before first in
      merge_sources-rest n m1 m' before rest others (ground arith)

  merged_of_read :
      (m m' : Merge lib) (src : Source lib) (mp : Map)
      → src.read m.k ≡ ok (some mp)
      → merge_source lib m src ≡ ok m'
      → merge_map lib m src.name mp ≡ ok m'
  unfolding merge_source
  merged_of_read m m' src mp read h = ground arith

  start-Sound : Sound (start_merge lib) []
  start-Sound = record { tracks = new-Tracks; free = λ s k t l m. elim m [ ] }

  module _ (laws : MergeLaws lib) where
    open laws use {Datum, value_at, entry, entry_listed, merge_new, merge_old}

    -- The source does not set `key` where it has the value `v`: it never does, or it is a flag that
    -- the command line does not give, whose default is read only for a key that is not there.
    abbrev pub Silent : String → Datum → Source lib → Type 0
    Silent key v src =
        (k : Handle) (mp : Map)
        → value_at k key ≡ some v
        → src.read k ≡ ok (some mp)
        → entry mp key ≡ none

    -- `key` has the value `v`, and the guard knows the key.
    record Holds (m : Merge lib) (key : String) (v : Datum) : Type 0 where
      trail : Trail
      sound : Sound m trail
      source : String
      known : Listed (source, key) trail
      valued : value_at m.k key ≡ some v

    merge_source-Holds :
        (m m' : Merge lib) (key : String) (v : Datum) (src : Source lib)
        → Holds m key v
        → Silent key v src
        → merge_source lib m src ≡ ok m'
        → Holds m' key v
    merge_source-Holds m m' key v src holds silent h = elim (merge_source-ok m m' src h) [
      | inl (skipped, same) ↦ subst (λ n. Holds n key v) same holds
      | inr (mp, read, merged) ↦
          let trail = from_source src.name (flatten mp) holds.trail in
          let sound : Sound m' trail =
            merge_map-Sound m m' holds.trail src.name mp holds.sound merged in
          let known : Listed (holds.source, key) trail =
            Listed-append_right (holds.source, key) (map (λ k. (src.name, k)) (flatten mp))
              holds.trail holds.known in
          let apart : Apart key (flatten mp) = λ j l.
            let theirs : Listed (src.name, j) trail =
              Listed-append_left (src.name, j) (map (λ k. (src.name, k)) (flatten mp)) holds.trail
                (Listed-map (λ (k : String). (src.name, k)) j (flatten mp) l) in
            (
              sound.free holds.source key src.name j known theirs,
              sound.free src.name j holds.source key theirs known,
            ) in
          record {
            trail = trail;
            sound = sound;
            source = holds.source;
            known = known;
            valued =
                merge_old m.k m'.k mp key (merge_map-ok m m' src.name mp merged).1
                  (silent m.k mp holds.valued read) apart
                ∙ holds.valued;
          }
    ]

    merge_sources-Holds :
        (m m' : Merge lib) (key : String) (v : Datum) (srcs : List (Source lib))
        → Holds m key v
        → All (Silent key v) srcs
        → merge_sources lib m srcs ≡ ok m'
        → Holds m' key v
    unfolding merge_sources
    merge_sources-Holds m m' key v [] holds silent h =
        subst (λ n. Holds n key v) (ground arith) holds
    merge_sources-Holds m m' key v (src ∷ rest) holds (quiet, silent) h =
        let (n, one, others) = merge_sources-cons m m' src rest h in
        merge_sources-Holds n m' key v rest (merge_source-Holds m n key v src holds quiet one)
          silent others

    merge_map-Holds :
        (m m' : Merge lib) (trail : Trail) (name key : String) (v : Datum) (mp : Map)
        → Sound m trail
        → entry mp key ≡ some v
        → merge_map lib m name mp ≡ ok m'
        → Holds m' key v
    merge_map-Holds m m' trail name key v mp sound set h = record {
      trail = from_source name (flatten mp) trail;
      sound = merge_map-Sound m m' trail name mp sound h;
      source = name;
      known =
          Listed-append_left (name, key) (map (λ k. (name, k)) (flatten mp)) trail
            (Listed-map (λ (k : String). (name, k)) key (flatten mp) (entry_listed mp key v set));
      valued = merge_new m.k m'.k mp key v (merge_map-ok m m' name mp h).1 set;
    }

    -- By the laws of koanf's merge: when the merge of all sources succeeds, a key has the value that
    -- the last source to set it gives it, whatever the sources before. Those after it need be silent
    -- only where the key has that value already, so that a flag left at its default, which sets the
    -- key on a configuration without it, does not override a file or the environment.
    pub last_source_wins :
        (before after : List (Source lib)) (src : Source lib) (m1 m : Merge lib) (mp : Map)
        (key : String) (v : Datum)
        → merge_sources lib (start_merge lib) before ≡ ok m1
        → src.read m1.k ≡ ok (some mp)
        → entry mp key ≡ some v
        → All (Silent key v) after
        → merge_sources lib (start_merge lib) (before ++ src ∷ after) ≡ ok m
        → value_at m.k key ≡ some v
    last_source_wins before after src m1 m mp key v first read set silent whole =
        let (t, more, sound) =
          merge_sources-Sound (start_merge lib) m1 [] before start-Sound first in
        let (n, one, others) =
          merge_sources-cons m1 m src after
            (merge_sources-rest (start_merge lib) m1 m before (src ∷ after) first whole) in
        let first_holds =
          merge_map-Holds m1 n t src.name key v mp sound set
            (merged_of_read m1 n src mp read one) in
        (merge_sources-Holds n m key v after first_holds silent others).valued
