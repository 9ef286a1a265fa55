-- ===== src/Database/PgxOpen.antt =====
-- database/pgxdb: the options and the opening of a pool. An int that is not positive is read as 0; the
-- int32 fields keep the wrap-around of the conversion, as residues. What pgxpool and otelpgx answer is
-- `Library`.
use goga.Prelude.{
  ℕ, ◌%◌, String, Bool, true, ◌&&◌, Option, none, some, List, [], ◌∷◌, ◌++◌, ltb, leb,
  if◌then◌else◌,
}
use goga.Errors
use goga.Errors.{ok, err, raw, wrap}
use goga.Options.{Setter, apply}

pub data Failure : Type 0 where
  bad_max_conns bad_min_conns nil_telemetry : Failure
  foreign : ℕ → Failure

abbrev pub Error : Type 0
Error = Errors.Error Failure

abbrev pub Result : Type 0 → Type 0
Result A = Errors.Result Failure A

-- math.MaxInt32
abbrev pub max_int32 : ℕ
max_int32 = 2147483647

-- The conversion int32(n), as a residue of 2 ^ 32
abbrev pub to_int32 : ℕ → ℕ
to_int32 n = n % 4294967296

-- `w > 0` on a residue, which is negative above max_int32
abbrev pub is_positive : ℕ → Bool
is_positive w = ltb 0 w && leb w max_int32

pub record Settings : Type 0 where
  pub max_conns : ℕ
  pub min_conns : ℕ
  pub instr : String

abbrev pub defaults : Settings
defaults = record { max_conns = 0; min_conns = 0; instr = "database/pgxdb" }

abbrev pub PoolOption : Type 0
PoolOption = Setter Failure Settings

unfoldable pub with_max_conns : ℕ → PoolOption
with_max_conns n s =
    if ltb 0 n && leb n max_int32
    then (record s { max_conns = to_int32 n }, none)
    else (s, some (raw bad_max_conns))

unfoldable pub with_min_conns : ℕ → PoolOption
with_min_conns n s =
    if ltb 0 n && leb n max_int32
    then (record s { min_conns = to_int32 n }, none)
    else (s, some (raw bad_min_conns))

unfoldable pub with_telemetry : Option String → PoolOption
with_telemetry none s = (s, some (raw nil_telemetry))
with_telemetry (some i) s = (record s { instr = i }, none)

-- `pgxpool.Config`, as far as it is set
pub record Config : Type 0 where
  pub max_conns : ℕ
  pub min_conns : ℕ
  pub traced : Bool

-- `applyTo`
unfoldable pub apply_to : Settings → Config → Config
apply_to s cfg = record cfg {
  max_conns = if is_positive s.max_conns then s.max_conns else cfg.max_conns;
  min_conns = if is_positive s.min_conns then s.min_conns else cfg.min_conns;
}

pub data Act : Type 0 where
  opened : String → Act
  ended : Option Error → Act
  -- pgxpool.NewWithConfig made a pool; its Close
  created : ℕ → Config → Act
  closed : ℕ → Act

pub record Library : Type 0 where
  pub parse_config : String → Result Config
  pub new_pool : Config → Result ℕ
  pub record_stats : ℕ → Option Error

module _ (lib : Library) where
  -- The pool, from its configuration on
  unfoldable pub make : Config → List Act × Result ℕ
  make cfg = elim (lib.new_pool cfg) [
    | err e ↦ ([], err (wrap "goga/database/pgxdb: open" e))
    | ok pool ↦ elim (lib.record_stats pool) [
      | none ↦ (created pool cfg ∷ [], ok pool)
      | some e ↦ (
        created pool cfg ∷ closed pool ∷ [],
        err (wrap "goga/database/pgxdb: open: recording pool statistics" e),
      )
    ]
  ]

  abbrev pub failure_of : Result ℕ → Option Error
  failure_of (ok pool) = none
  failure_of (err e) = some e

  -- `open`; its cleanup is the pool's Close.
  unfoldable pub open_dsn : String → List PoolOption → List Act × Result ℕ
  unfolding apply apply_to make
  open_dsn dsn opts =
      let (set, failure) = apply defaults opts in
      elim failure [
        | some e ↦ ([], err (wrap "goga/database/pgxdb: open" e))
        | none ↦ elim (lib.parse_config dsn) [
          | err e ↦
              let f = wrap "goga/database/pgxdb: open: parsing dsn" e in
              (opened set.instr ∷ ended (some f) ∷ [], err f)
          | ok cfg ↦
              let (acts, result) = make (record (apply_to set cfg) { traced = true }) in
              (opened set.instr ∷ acts ++ ended (failure_of result) ∷ [], result)
        ]
      ]
