-- ===== src/Serve/Running.antt =====
-- How a run of a server that New built ends.
use goga.Prelude.{
  ◌≡◌, ◌↔◌, ◌⊎◌, refl, inl, inr, Bool-cases, true, Option, none, some, List, [], All, Listed, arith,
  if◌then◌else◌,
}
use goga.Errors.{ok, is}
use goga.Context.{Context}
use goga.Serve.Settings.{Error, ServeOption}
use goga.Serve.Server.{
  Server, Listener, listeners, Answers, ended, new, Runs, listener_ended, cancelled,
  is_server_closed,
}
use goga.Serve.Listening.{draining, drain-called, drain-nil_iff}
use goga.Serve.Construction.{new-Served}

-- Nothing, or http.ErrServerClosed
abbrev pub EndsWell : Option Error → Type 0
EndsWell none = Unit
EndsWell (some e) = is is_server_closed e ≡ true

module _ (Handler : Type 0) (net : Answers Handler) where
  ended-none_iff : (r : Option Error) → (ended Handler net r ≡ none) ↔ EndsWell r
  unfolding ended
  ended-none_iff none = (λ h. tt, λ h. refl)
  ended-none_iff (some e) = elim (Bool-cases (is is_server_closed e)) [
    | inl closed ↦ (λ h. closed, λ h. ground arith)
    | inr failed ↦ (λ h. ground arith, λ h. ground arith)
  ]

  -- What the listener answers, over TLS where it asks for that
  abbrev pub answer_of : Listener Handler → Option Error
  answer_of l = if l.tls then net.listen_and_serve_tls l else net.listen_and_serve l

  -- A run of a server that New built ends in one of two ways. Its context ended: then Shutdown was
  -- called on every listener, in order, and Run returns nil exactly when all of them answered nil. Or
  -- a listener ended first: then Shutdown was called on none, also when there is another, and Run
  -- returns nil exactly when that listener answered nil or http.ErrServerClosed.
  pub run_returns :
      (instrument : Handler → Handler) (h : Handler) (opts : List (ServeOption Handler))
      (s : Server Handler) (ctx : Context) (called : List (Listener Handler))
      (result : Option Error)
      → new Handler instrument (some h) opts ≡ ok s
      → Runs Handler net s ctx called result
      → ((called ≡ listeners Handler s)
          × ((result ≡ none)
              ↔ All
                  (λ l. net.shutdown (draining Handler net s.shutdown_grace ctx) l ≡ none)
                  (listeners Handler s)))
        ⊎ ((called ≡ [])
            × (l : Listener Handler) × Listed l (listeners Handler s)
            × ((result ≡ none) ↔ EndsWell (answer_of l)))
  run_returns instrument h opts s ctx _ _ made (listener_ended l m) = inr (
    refl,
    l,
    m,
    rw (new-Served Handler instrument net h opts s made l m) (ended-none_iff (answer_of l)),
  )
  run_returns instrument h opts s ctx _ _ made cancelled = inl (
    drain-called Handler net s.shutdown_grace ctx (listeners Handler s),
    drain-nil_iff Handler net s.shutdown_grace ctx (listeners Handler s),
  )
