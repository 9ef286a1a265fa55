-- ===== src/Database/TxLaws.antt =====
-- What a caller of the two Tx helpers relies on, whatever the body does.
use goga.Prelude.{
  ℕ, ◌≡◌, refl, ap, subst, ◌∙◌, ◌↔◌, inl, inr, Bool, true, false, Option, Option-cases, none, some,
  List, arith, ltb, if◌then◌else◌,
}
use goga.Errors
use goga.Errors.{Result, Result-cases, ok, err, raw, wrap, is}
use goga.Options.{apply}
use goga.Context.{Context, with_timeout}
use goga.Database.Failure.{Failure, Error, Ending, returned, panicked}
use goga.Database.SqlTx
use goga.Database.SqlTx.{SqlApi, TxOption, TxSettings}

-- database/sql marks a transaction done by Commit and by Rollback, whatever the server answers.
pub record SqlLaws (api : SqlApi) : Type 1 where
  pub IsDone : api.State → Type 0
  pub commit_done : (s : api.State) → IsDone (api.commit s).0
  pub rollback_done : (s : api.State) → IsDone (api.rollback s).0

module _ (api : SqlApi) where
  open api use {State}

  rollback-state : (s : State) → (SqlTx.rollback api s).0 ≡ (api.rollback s).0
  unfolding SqlTx.rollback
  rollback-state s = ground arith

  -- The context that the body, and every statement in it, runs under.
  abbrev pub bounded : Context → TxSettings → Context
  bounded ctx set = if ltb 0 set.timeout then with_timeout set.timeout ctx else ctx

  -- Past its checks, Tx is the begin and what follows it.
  tx-run :
      (ctx : Context) (fn : SqlTx.Body api) (opts : List TxOption) (set : TxSettings)
      → apply SqlTx.tx_defaults opts ≡ (set, none)
      → SqlTx.tx api ctx true (some fn) opts ≡ SqlTx.run_tx api ctx fn set
  unfolding SqlTx.tx
  tx-run ctx fn opts set h = ground arith

  run_tx-settle :
      (ctx : Context) (fn : SqlTx.Body api) (set : TxSettings) (s s' : State) (ending : Ending)
      → api.begin_tx (bounded ctx set) set.iso set.read_only ≡ ok s
      → fn (bounded ctx set) s ≡ (s', ending)
      → SqlTx.run_tx api ctx fn set ≡ SqlTx.settle api s' ending
  unfolding SqlTx.run_tx
  run_tx-settle ctx fn set s s' ending began ran = ground arith

  module _ (ctx : Context) (fn : SqlTx.Body api) (opts : List TxOption) (set : TxSettings)
      (s s' : State) (accepted : apply SqlTx.tx_defaults opts ≡ (set, none))
      (began : api.begin_tx (bounded ctx set) set.iso set.read_only ≡ ok s) where
    tx-settle :
        (ending : Ending)
        → fn (bounded ctx set) s ≡ (s', ending)
        → SqlTx.tx api ctx true (some fn) opts ≡ SqlTx.settle api s' ending
    tx-settle ending ran =
        tx-run ctx fn opts set accepted ∙ run_tx-settle ctx fn set s s' ending began ran

    settle_body_error :
        (e : Error) (test : Failure → Bool)
        → is test e ≡ true
        → (f : Error) × ((SqlTx.settle api s' (returned (some e))).ending ≡ returned (some f))
          × (is test f ≡ true)
    unfolding SqlTx.settle is
    settle_body_error e test found = elim (Option-cases (SqlTx.rollback api s').1) [
      | inl fine ↦ (e, ground arith, found)
      | inr (r, bad) ↦ (Errors.join e r, ground arith, ground arith)
    ]

    settle_panic :
        (p : ℕ)
        → ((SqlTx.settle api s' (panicked p)).ending ≡ panicked p)
          × ((SqlTx.settle api s' (panicked p)).tx ≡ some (api.rollback s').0)
          × (f : Error) × ((SqlTx.settle api s' (panicked p)).span ≡ some (some f))
    unfolding SqlTx.settle
    settle_panic p = (refl, ap some (rollback-state s'), _, refl)

    -- With the options accepted and a transaction begun: an error of the body is still found by
    -- errors.Is in what Tx returns, whether or not the rollback fails too.
    pub tx_body_error :
        (e : Error) (test : Failure → Bool)
        → fn (bounded ctx set) s ≡ (s', returned (some e))
        → is test e ≡ true
        → (f : Error) × ((SqlTx.tx api ctx true (some fn) opts).ending ≡ returned (some f))
          × (is test f ≡ true)
    tx_body_error e test ran found =
        rw (tx-settle (returned (some e)) ran) (settle_body_error e test found)

    -- With the options accepted and a transaction begun: a panic of the body goes on with its value,
    -- after the rollback, and the span is closed with an error.
    pub tx_panic :
        (p : ℕ)
        → fn (bounded ctx set) s ≡ (s', panicked p)
        → ((SqlTx.tx api ctx true (some fn) opts).ending ≡ panicked p)
          × ((SqlTx.tx api ctx true (some fn) opts).tx ≡ some (api.rollback s').0)
          × (f : Error) × ((SqlTx.tx api ctx true (some fn) opts).span ≡ some (some f))
    tx_panic p ran = rw (tx-settle (panicked p) ran) (settle_panic p)

  module _ (laws : SqlLaws api) where
    open laws use {IsDone, commit_done, rollback_done}

    settle-IsDone :
        (s : State) (ending : Ending)
        → (t : State) × ((SqlTx.settle api s ending).tx ≡ some t) × IsDone t
    unfolding SqlTx.settle
    settle-IsDone s (panicked p) =
        ((SqlTx.rollback api s).0, refl, rw (rollback-state s) (rollback_done s))
    settle-IsDone s (returned (some e)) =
        ((SqlTx.rollback api s).0, refl, rw (rollback-state s) (rollback_done s))
    settle-IsDone s (returned none) = ((api.commit s).0, ground arith, commit_done s)

    run_tx-IsDone :
        (ctx : Context) (fn : SqlTx.Body api) (set : TxSettings) (t : State)
        → (SqlTx.run_tx api ctx fn set).tx ≡ some t
        → IsDone t
    unfolding SqlTx.run_tx
    run_tx-IsDone ctx fn set t h =
        elim (Result-cases (api.begin_tx (bounded ctx set) set.iso set.read_only)) [
          | inr (e, refused) ↦ ground arith
          | inl (s, began) ↦
              let (s', ending) = fn (bounded ctx set) s in
              let (u, settled, done) = settle-IsDone s' ending in
              let same : u ≡ t = ground arith in subst IsDone same done
        ]

    -- As database/sql marks a transaction done by Commit and by Rollback: whatever the options and
    -- however the body ends, a transaction that Tx began is done when Tx ends.
    pub tx-IsDone :
        (ctx : Context) (has_db : Bool) (fn : Option (SqlTx.Body api)) (opts : List TxOption)
        (t : State)
        → (SqlTx.tx api ctx has_db fn opts).tx ≡ some t
        → IsDone t
    unfolding SqlTx.tx
    tx-IsDone ctx has_db none opts t h = cc
    tx-IsDone ctx false (some fn) opts t h = cc
    tx-IsDone ctx true (some fn) opts t h = elim (Option-cases (apply SqlTx.tx_defaults opts).1) [
      | inl good ↦ run_tx-IsDone ctx fn (apply SqlTx.tx_defaults opts).0 t (ground arith)
      | inr (e, bad) ↦ ground arith
    ]

  abbrev pub Success : Context → Bool → SqlTx.Body api → List TxOption → Type 0
  Success ctx has_db fn opts =
      (has_db ≡ true)
      × (set : TxSettings) × (s : State) × (s' : State) × (t : State) × (apply SqlTx.tx_defaults
            opts
          ≡ (set, none))
      × (api.begin_tx (bounded ctx set) set.iso set.read_only ≡ ok s)
      × (fn (bounded ctx set) s ≡ (s', returned none))
      × (api.commit s' ≡ (t, none))

  settle-nil :
      (s : State) (ending : Ending)
      → (SqlTx.settle api s ending).ending ≡ returned none
      → (ending ≡ returned none) × (api.commit s ≡ ((api.commit s).0, none))
  unfolding SqlTx.settle
  settle-nil s (panicked p) h = cc
  settle-nil s (returned (some e)) h = cc
  settle-nil s (returned none) h = ground arith

  run_tx-nil :
      (ctx : Context) (fn : SqlTx.Body api) (set : TxSettings)
      → (SqlTx.run_tx api ctx fn set).ending ≡ returned none
      → (s : State) × (s' : State) × (t : State) × (api.begin_tx
            (bounded ctx set)
            set.iso
            set.read_only
          ≡ ok s)
        × (fn (bounded ctx set) s ≡ (s', returned none))
        × (api.commit s' ≡ (t, none))
  unfolding SqlTx.run_tx
  run_tx-nil ctx fn set h =
      elim (Result-cases (api.begin_tx (bounded ctx set) set.iso set.read_only)) [
        | inr (e, refused) ↦ ground arith
        | inl (s, began) ↦
            let s' = (fn (bounded ctx set) s).0 in
            let (nil, committed) = settle-nil s' (fn (bounded ctx set) s).1 (ground arith) in
            (s, s', (api.commit s').0, began, λ i. (s', nil i), committed)
      ]

  tx-nil :
      (ctx : Context) (has_db : Bool) (fn : SqlTx.Body api) (opts : List TxOption)
      → (SqlTx.tx api ctx has_db (some fn) opts).ending ≡ returned none
      → Success ctx has_db fn opts
  unfolding SqlTx.tx
  tx-nil ctx false fn opts h = cc
  tx-nil ctx true fn opts h = elim (Option-cases (apply SqlTx.tx_defaults opts).1) [
    | inr (e, bad) ↦ ground arith
    | inl good ↦
        let set = (apply SqlTx.tx_defaults opts).0 in
        let (s, s', t, began, ran, committed) = run_tx-nil ctx fn set (ground arith) in
        (refl, set, s, s', t, λ i. (set, good i), began, ran, committed)
  ]

  settle_commit :
      (s t : State)
      → api.commit s ≡ (t, none)
      → (SqlTx.settle api s (returned none)).ending ≡ returned none
  unfolding SqlTx.settle
  settle_commit s t h = ground arith

  -- Tx returns nil exactly when the handle is there, the options are accepted, the transaction
  -- begins, the body returns nil and the commit succeeds.
  pub tx-nil_iff :
      (ctx : Context) (has_db : Bool) (fn : SqlTx.Body api) (opts : List TxOption)
      → ((SqlTx.tx api ctx has_db (some fn) opts).ending ≡ returned none)
        ↔ Success ctx has_db fn opts
  tx-nil_iff ctx has_db fn opts = (
    tx-nil ctx has_db fn opts,
    λ (there, set, s, s', t, accepted, began, ran, committed).
        rw (there, tx-settle ctx fn opts set s s' accepted began (returned none) ran)
          (settle_commit s' t committed),
  )
