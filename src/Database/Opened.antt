-- ===== src/Database/Opened.antt =====
-- What opening a pool or a handle leaves, and the bounds that a pool gets.
use goga.Prelude.{
  ◌≡◌, ◌≤◌, refl, sym, ap, ◌∙◌, subst, inl, inr, ℕ, String, Bool, true, false, ◌&&◌, Option, none,
  some, List, [], ◌∷◌, ◌++◌, map, arith, ltb, leb, if◌then◌else◌, Option-cases,
}
use goga.Errors.{ok, err, wrap, Result-cases}
use goga.Options.{apply}
use goga.Database.PgxOpen.{
  Settings, PoolOption, Config, Library, Act, opened, ended, created, closed, Error, Result,
  max_int32, to_int32, is_positive, with_max_conns, with_min_conns, with_telemetry, defaults,
  apply_to, make, failure_of, open_dsn,
}

-- Which of the two bounds
pub data Bound : Type 0 where
  most least : Bound

-- A call of one of the option functions, with its arguments
pub data Call : Type 0 where
  conns : Bound → ℕ → Call
  telemetry : Option String → Call

abbrev pub option_of : Call → PoolOption
option_of (conns most n) = with_max_conns n
option_of (conns least n) = with_min_conns n
option_of (telemetry i) = with_telemetry i

abbrev pub bound_of : Bound → Settings → ℕ
bound_of most s = s.max_conns
bound_of least s = s.min_conns

abbrev pub config_bound : Bound → Config → ℕ
config_bound most cfg = cfg.max_conns
config_bound least cfg = cfg.min_conns

abbrev pub same_bound : Bound → Bound → Bool
same_bound most most = true
same_bound least least = true
same_bound _ _ = false

-- The last number that a call gives for a bound, or else another
unfoldable pub last_given : Bound → List Call → ℕ → ℕ
last_given b [] n = n
last_given b (conns c m ∷ cs) n = last_given b cs (if same_bound c b then m else n)
last_given b (telemetry i ∷ cs) n = last_given b cs n

within_int32 : (n : ℕ) → (ltb 0 n && leb n max_int32) ≡ true → to_int32 n ≡ n
within_int32 n h = ground arith

-- A bound is what the conversion keeps: no number above max_int32.
abbrev pub InRange : Settings → Type 0
InRange s = (s.max_conns ≤ max_int32) × (s.min_conns ≤ max_int32)

one_call :
    (b : Bound) (c : Call) (s s' : Settings)
    → option_of c s ≡ (s', none)
    → InRange s
    → (bound_of b s' ≡ last_given b (c ∷ []) (bound_of b s)) × InRange s'
unfolding last_given with_max_conns with_min_conns with_telemetry
one_call b (telemetry none) s s' h good = cc
one_call most (telemetry (some i)) s s' h good = (ground arith, ground arith)
one_call least (telemetry (some i)) s s' h good = (ground arith, ground arith)
one_call most (conns most n) s s' h good = ground (arith, within_int32 n)
one_call least (conns most n) s s' h good = ground (arith, within_int32 n)
one_call most (conns least n) s s' h good = ground (arith, within_int32 n)
one_call least (conns least n) s s' h good = ground (arith, within_int32 n)

last_given-step :
    (b : Bound) (c : Call) (cs : List Call) (n : ℕ)
    → last_given b cs (last_given b (c ∷ []) n) ≡ last_given b (c ∷ cs) n
unfolding last_given
last_given-step b (conns which m) cs n = refl
last_given-step b (telemetry i) cs n = refl

all_calls :
    (b : Bound) (cs : List Call) (s s' : Settings)
    → apply s (map option_of cs) ≡ (s', none)
    → InRange s
    → (bound_of b s' ≡ last_given b cs (bound_of b s)) × InRange s'
unfolding apply
all_calls b [] s s' h good =
    let same : s ≡ s' = ground arith in
    (unfold last_given in ap (bound_of b) (sym same), subst InRange same good)
all_calls b (c ∷ cs) s s' h good = elim (Option-cases (option_of c s).1) [
  | inr (e, bad) ↦ ground arith
  | inl accepted ↦
      let next = (option_of c s).0 in
      let (here, still) = one_call b c s next (λ i. (next, accepted i)) good in
      let rest : apply next (map option_of cs) ≡ (s', none) = ground arith in
      let (there, last) = all_calls b cs next s' rest still in
      (there ∙ (ap (last_given b cs) here ∙ last_given-step b c cs (bound_of b s)), last)
]

-- The pools that were made, with their configurations, and those that were closed
unfoldable pub pools : List Act → List (ℕ × Config)
pools [] = []
pools (created pool c ∷ acts) = (pool, c) ∷ pools acts
pools (_ ∷ acts) = pools acts

unfoldable pub closes : List Act → List ℕ
closes [] = []
closes (closed pool ∷ acts) = pool ∷ closes acts
closes (_ ∷ acts) = closes acts

-- A number that was given, or else the one of the connection string
abbrev pub given_or : ℕ → ℕ → ℕ
given_or n other = if ltb 0 n then n else other

-- A pool that is returned is open, traced and has the bounds given; on an error every pool is closed.
abbrev pub Settled : List Call → Config → List Act × Result ℕ → Type 0
Settled cs cfg (acts, ok pool) =
    (c : Config) × (pools acts ≡ (pool, c) ∷ [])
    × (closes acts ≡ [])
    × (c.traced ≡ true)
    × (c.max_conns ≡ given_or (last_given most cs 0) cfg.max_conns)
    × (c.min_conns ≡ given_or (last_given least cs 0) cfg.min_conns)
Settled cs cfg (acts, err e) = closes acts ≡ map (λ (p : ℕ × Config). p.0) (pools acts)

kept_bound : (w n d : ℕ) → w ≡ n → w ≤ max_int32 → (if is_positive w then w else d) ≡ given_or n d
kept_bound w n d same fits = ground arith

configured :
    (cs : List Call) (s : Settings) (cfg : Config)
    → apply defaults (map option_of cs) ≡ (s, none)
    → ((apply_to s cfg).max_conns ≡ given_or (last_given most cs 0) cfg.max_conns)
      × ((apply_to s cfg).min_conns ≡ given_or (last_given least cs 0) cfg.min_conns)
unfolding apply_to
configured cs s cfg accepted =
    let (max_is, (max_fits, min_fits)) =
      all_calls most cs defaults s accepted (ground arith, ground arith) in
    let (min_is, fits) = all_calls least cs defaults s accepted (ground arith, ground arith) in
    (
      kept_bound s.max_conns (last_given most cs 0) cfg.max_conns max_is max_fits,
      kept_bound s.min_conns (last_given least cs 0) cfg.min_conns min_is min_fits,
    )

module _ (lib : Library) where
  -- What opening does once the options are accepted and the connection string is parsed
  opened_path :
      (dsn : String) (opts : List PoolOption) (s : Settings) (cfg : Config)
      → apply defaults opts ≡ (s, none)
      → lib.parse_config dsn ≡ ok cfg
      → (i : String) × (f : Option Error) × (open_dsn lib dsn opts ≡ (
        opened i ∷ (make lib (record (apply_to s cfg) { traced = true })).0 ++ ended f ∷ [],
        (make lib (record (apply_to s cfg) { traced = true })).1,
      ))
  unfolding open_dsn
  opened_path dsn opts s cfg accepted parsed = (
    s.instr,
    failure_of lib (make lib (record (apply_to s cfg) { traced = true })).1,
    ground arith,
  )

  made-Settled :
      (cs : List Call) (cfg c : Config) (i : String) (f : Option Error)
      → c.traced ≡ true
      → c.max_conns ≡ given_or (last_given most cs 0) cfg.max_conns
      → c.min_conns ≡ given_or (last_given least cs 0) cfg.min_conns
      → Settled cs cfg (opened i ∷ (make lib c).0 ++ ended f ∷ [], (make lib c).1)
  made-Settled cs cfg c i f traced most_is least_is = elim (Result-cases (lib.new_pool c)) [
    | inr (e, bad) ↦
        let path : make lib c ≡ ([], err (wrap "goga/database/pgxdb: open" e)) =
          unfold make in ground arith in
        rw path (unfold closes in unfold pools in refl)
    | inl (pool, made) ↦ elim (Option-cases (lib.record_stats pool)) [
      | inl recorded ↦
          let path : make lib c ≡ (created pool c ∷ [], ok pool) = unfold make in ground arith in
          rw path (unfold closes in unfold pools in (c, refl, refl, traced, most_is, least_is))
      | inr (e, failed) ↦
          let path : make lib c ≡ (
            created pool c ∷ closed pool ∷ [],
            err (wrap "goga/database/pgxdb: open: recording pool statistics" e),
          ) =
            unfold make in ground arith in
          rw path (unfold closes in unfold pools in refl)
    ]
  ]

  -- Where the connection string parses, a pool that pgxdb opens is traced and left open, and its two
  -- bounds are the last numbers that the options gave, unchanged by the conversion to int32, or those
  -- of the connection string where none was given. Where opening fails, the pool, if one was made, is
  -- closed.
  pub pool-Settled :
      (dsn : String) (cs : List Call) (cfg : Config)
      → lib.parse_config dsn ≡ ok cfg
      → Settled cs cfg (open_dsn lib dsn (map option_of cs))
  pool-Settled dsn cs cfg parsed = elim (Option-cases (apply defaults (map option_of cs)).1) [
    | inr (e, bad) ↦
        let refused : open_dsn lib dsn (map option_of cs)
            ≡ ([], err (wrap "goga/database/pgxdb: open" e)) =
          unfold open_dsn in ground arith in
        subst (Settled cs cfg) (sym refused) (unfold closes in unfold pools in refl)
    | inl good ↦
        let s = (apply defaults (map option_of cs)).0 in
        let (i, f, path) = opened_path dsn (map option_of cs) s cfg (λ k. (s, good k)) parsed in
        let (most_is, least_is) = configured cs s cfg (λ k. (s, good k)) in
        subst (Settled cs cfg) (sym path) (
          made-Settled cs cfg (record (apply_to s cfg) { traced = true }) i f refl most_is least_is)
  ]
