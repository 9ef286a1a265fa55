-- ===== src/Database/Handles.antt =====
-- The handle that database/ opens, and its cleanup.
use goga.Prelude.{
  ◌≡◌, ◌≢◌, refl, ap, Option, inl, inr, ℕ, String, none, some, List, [], ◌∷◌, ◌++◌, arith,
  Option-cases, subst, sym, ◌∙◌,
}
use goga.Errors.{ok, err, wrap, Result-cases}
use goga.Options.{apply}
use goga.Database.SqlOpen.{
  Settings, OpenOption, defaults, Handle, Act, opened, ended, handled, closed, unregistered,
  Library, Result, Error, connect, open_db, cleanup, open_with_cleanup,
}

unfoldable pub closes : List Act → List Handle
closes [] = []
closes (closed db ∷ acts) = db ∷ closes acts
closes (_ ∷ acts) = closes acts

unfoldable pub unregisters : List Act → List ℕ
unregisters [] = []
unregisters (unregistered r ∷ acts) = r ∷ unregisters acts
unregisters (_ ∷ acts) = unregisters acts

-- The registrations that an answer stands for
abbrev pub registered : Result ℕ → List ℕ
registered (ok r) = r ∷ []
registered (err e) = []

abbrev pub handle_of : Result (Handle × List Act) → Result Handle
handle_of (ok (db, release)) = ok db
handle_of (err e) = err e

-- A handle that is returned is not closed, and its cleanup closes it once and unregisters its
-- statistics once if they were registered. An error comes before there is a handle: the options are
-- refused, or there is no connector.
abbrev pub Released :
    Library → String → List OpenOption → List Act × Result (Handle × List Act) → Type 0
Released lib dsn opts (acts, ok (db, release)) =
    (closes acts ≡ [])
    × (closes release ≡ db ∷ [])
    × (unregisters release ≡ registered (lib.register_stats db))
Released lib dsn opts (acts, err e) =
    (closes acts ≡ [])
    × (unregisters acts ≡ [])
    × ((set : Settings) (connector : ℕ)
        → apply defaults opts ≡ (set, none)
        → connect lib set dsn ≢ ok connector)

shown : Unit {0}
unfolding closes unregisters cleanup
shown = tt

cleanup-none :
    (lib : Library) (db : Handle)
    → (closes (cleanup lib (db, none)) ≡ db ∷ []) × (unregisters (cleanup lib (db, none)) ≡ [])
unfolding shown
cleanup-none lib db = elim (Option-cases (lib.close db)) [
  | inl fine ↦ (ground arith, ground arith)
  | inr (e, bad) ↦ (ground arith, ground arith)
]

cleanup-some :
    (lib : Library) (db : Handle) (r : ℕ)
    → (closes (cleanup lib (db, some r)) ≡ db ∷ [])
      × (unregisters (cleanup lib (db, some r)) ≡ r ∷ [])
unfolding shown
cleanup-some lib db r = elim (Option-cases (lib.close db)) [
  | inl fine ↦ elim (Option-cases (lib.unregister r)) [
    | inl good ↦ (ground arith, ground arith)
    | inr (f, worse) ↦ (ground arith, ground arith)
  ]
  | inr (e, bad) ↦ elim (Option-cases (lib.unregister r)) [
    | inl good ↦ (ground arith, ground arith)
    | inr (f, worse) ↦ (ground arith, ground arith)
  ]
]

-- The handle over a connector
abbrev pub handle_over : Settings → ℕ → Handle
handle_over set connector = record {
  connector = connector;
  max_open_conns = set.max_open_conns;
  max_idle_conns = set.max_idle_conns;
  conn_max_lifetime = set.conn_max_lifetime;
}

-- The stages of opening: the options, the connection, the handle
open_cases :
    (lib : Library) (dsn : String) (opts : List OpenOption)
    → (P : List Act × Result (Handle × List Act) → Type 0)
    → ((e : Error) (acts : List Act)
        → closes acts ≡ []
        → unregisters acts ≡ []
        → ((set : Settings) (connector : ℕ)
            → apply defaults opts ≡ (set, none)
            → connect lib set dsn ≢ ok connector)
        → P (acts, err e))
    → ((set : Settings) (connector : ℕ) (i : String)
        → P (
          opened i ∷ (open_db lib set connector).0 ++ ended none ∷ [],
          ok ((open_db lib set connector).1.0, cleanup lib (open_db lib set connector).1),
        ))
    → P (open_with_cleanup lib dsn opts)
open_cases lib dsn opts P failed made = elim (Option-cases (apply defaults opts).1) [
  | inr (e, bad) ↦
      let path : open_with_cleanup lib dsn opts ≡ ([], err (wrap "goga/database: open" e)) =
        unfold open_with_cleanup in ground arith in
      subst P (sym path) (
        failed _ [] (unfold closes in refl) (unfold unregisters in refl)
          (λ set connector accepted connected. cc))
  | inl good ↦
      let set = (apply defaults opts).0 in
      elim (Result-cases (connect lib set dsn)) [
        | inr (e, bad) ↦
            let path : open_with_cleanup lib dsn opts
                ≡ (opened set.instr ∷ ended (some e) ∷ [], err e) =
              unfold open_with_cleanup in ground arith in
            subst P (sym path) (
              failed e (opened set.instr ∷ ended (some e) ∷ []) (unfold closes in refl)
                (unfold unregisters in refl)
                (λ set' connector accepted connected.
                  let same : set ≡ set' = ap (λ (x : Settings × Option Error). x.0) accepted in
                  cc (ap (λ t. connect lib t dsn) same)))
        | inl (connector, connected) ↦
            let path : open_with_cleanup lib dsn opts ≡ (
              opened set.instr ∷ (open_db lib set connector).0 ++ ended none ∷ [],
              ok ((open_db lib set connector).1.0, cleanup lib (open_db lib set connector).1),
            ) =
              unfold open_with_cleanup in ground arith in
            subst P (sym path) (made set connector set.instr)
      ]
]

made-Released :
    (lib : Library) (dsn : String) (opts : List OpenOption) (set : Settings) (connector : ℕ)
    (i : String)
    → Released lib dsn opts (
      opened i ∷ (open_db lib set connector).0 ++ ended none ∷ [],
      ok ((open_db lib set connector).1.0, cleanup lib (open_db lib set connector).1),
    )
made-Released lib dsn opts set connector i =
    let db = handle_over set connector in
    elim (Result-cases (lib.register_stats db)) [
      | inl (r, stored) ↦
          let path : open_db lib set connector ≡ ([], (db, some r)) =
            unfold open_db in ground arith in
          let (once, off) = cleanup-some lib db r in
          rw (path, stored) (unfold closes in refl, once, off)
      | inr (e, failed) ↦
          let path : open_db lib set connector ≡ (
            handled (wrap "goga/database: open: registering pool statistics" e) ∷ [],
            (db, none),
          ) =
            unfold open_db in ground arith in
          let (once, off) = cleanup-none lib db in
          rw (path, failed) (unfold closes in refl, once, off)
    ]

-- The handle of the stages, without the statistics
abbrev expected : Library → String → List OpenOption → Result Handle
expected lib dsn opts =
    let set = (apply defaults opts).0 in
    elim (apply defaults opts).1 [
      | some e ↦ err (wrap "goga/database: open" e)
      | none ↦ elim (connect lib set dsn) [
        | err e ↦ err e
        | ok connector ↦ ok (handle_over set connector)
      ]
    ]

open_db-handle :
    (lib : Library) (set : Settings) (connector : ℕ)
    → (open_db lib set connector).1.0 ≡ handle_over set connector
unfolding open_db
open_db-handle lib set connector =
    elim (Result-cases (lib.register_stats (handle_over set connector))) [
      | inl (r, stored) ↦ ground arith
      | inr (e, failed) ↦ ground arith
    ]

handle_is :
    (lib : Library) (dsn : String) (opts : List OpenOption)
    → handle_of (open_with_cleanup lib dsn opts).1 ≡ expected lib dsn opts
unfolding open_with_cleanup
handle_is lib dsn opts = elim (Option-cases (apply defaults opts).1) [
  | inr (e, bad) ↦ ground arith
  | inl good ↦
      let set = (apply defaults opts).0 in
      elim (Result-cases (connect lib set dsn)) [
        | inr (e, bad) ↦ ground arith
        | inl (connector, connected) ↦ ground (arith, open_db-handle lib set connector)
      ]
]

-- With other answers of the statistics, opening gives the same handle or the same error.
stats_do_not_decide :
    (lib : Library) (stats : Handle → Result ℕ) (dsn : String) (opts : List OpenOption)
    → handle_of (open_with_cleanup (record lib { register_stats = stats }) dsn opts).1
      ≡ handle_of (open_with_cleanup lib dsn opts).1
stats_do_not_decide lib stats dsn opts =
    let same : expected (record lib { register_stats = stats }) dsn opts ≡ expected lib dsn opts =
      unfold connect in refl in
    handle_is (record lib { register_stats = stats }) dsn opts
    ∙ (same ∙ sym (handle_is lib dsn opts))

-- A handle that the wire provider returns is open, and a call of its cleanup closes it once, whatever
-- the steps of the cleanup answer, and unregisters its statistics once where they were registered. An
-- error is one of the options or of the connection, so that no handle is left open; and with other
-- answers of the statistics, which may then fail, the same handle or the same error is returned.
pub handle-Released :
    (lib : Library) (dsn : String) (opts : List OpenOption)
    → Released lib dsn opts (open_with_cleanup lib dsn opts)
      × ((stats : Handle → Result ℕ)
          → handle_of (open_with_cleanup (record lib { register_stats = stats }) dsn opts).1
            ≡ handle_of (open_with_cleanup lib dsn opts).1)
handle-Released lib dsn opts = (
  open_cases lib dsn opts (Released lib dsn opts) (λ e acts c u early. (c, u, early))
      (λ set connector i. made-Released lib dsn opts set connector i),
  λ stats. stats_do_not_decide lib stats dsn opts,
)
