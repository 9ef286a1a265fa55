-- ===== src/Serve/Listening.antt =====
-- The drain of a server's listeners.
use goga.Prelude.{
  ℕ, ◌≡◌, ◌↔◌, refl, inl, inr, Bool, Bool-cases, true, false, Option-cases, none, some, List,
  List-cases, [], ◌∷◌, All, Listed, arith,
}
use goga.Errors.{wrap, is}
use goga.Context.{Context, with_timeout, without_cancel}
use goga.Serve.Settings.{Failure, Error}
use goga.Serve.Server.{Listener, Answers, shut_down, join_all, drain}

module _ (Handler : Type 0) where
  module _ (net : Answers Handler) where
    shut_down-all :
        (ctx : Context) (ls : List (Listener Handler)) → (shut_down Handler net ctx ls).0 ≡ ls
    unfolding shut_down
    shut_down-all ctx [] = refl
    shut_down-all ctx (l ∷ ls) = ground (arith, shut_down-all ctx ls)

    -- An error that some test finds in one of a list is found in their join.
    join_all-is :
        (test : Failure → Bool) (e f : Error) (es : List Error)
        → Listed f (e ∷ es)
        → is test f ≡ true
        → is test (join_all Handler net e es) ≡ true
    unfolding join_all is
    join_all-is test e f [] (inl same) h = rw same at h
    join_all-is test e f [] (inr n) h = elim n [ ]
    join_all-is test e f (g ∷ es) (inl same) h =
        let found : is test e ≡ true = (rw same at h) in ground arith
    join_all-is test e f (g ∷ es) (inr n) h =
        let later = join_all-is test g f es n h in
        elim (Bool-cases (is test e)) [ inl here ↦ ground arith | inr away ↦ ground arith ]

    shut_down-error :
        (ctx : Context) (ls : List (Listener Handler)) (l : Listener Handler) (e : Error)
        → Listed l ls
        → net.shutdown ctx l ≡ some e
        → Listed e (shut_down Handler net ctx ls).1
    unfolding shut_down
    shut_down-error ctx [] l e m h = elim m [ ]
    shut_down-error ctx (k ∷ ls) l e (inl same) h =
        let failing : net.shutdown ctx k ≡ some e = (rw same at h) in
        let errs : (shut_down Handler net ctx (k ∷ ls)).1 ≡ e ∷ (shut_down Handler net ctx ls).1 =
          ground arith in
        rw errs (inl refl)
    shut_down-error ctx (k ∷ ls) l e (inr m) h =
        let rest = shut_down-error ctx ls l e m h in
        elim (Option-cases (net.shutdown ctx k)) [
          | inl fine ↦
              let errs : (shut_down Handler net ctx (k ∷ ls)).1 ≡ (shut_down Handler net ctx ls).1 =
                ground arith in
              rw errs rest
          | inr (f, bad) ↦
              let errs : (shut_down Handler net ctx (k ∷ ls)).1
                  ≡ f ∷ (shut_down Handler net ctx ls).1 =
                ground arith in
              rw errs (inr rest)
        ]

    shut_down-none :
        (ctx : Context) (ls : List (Listener Handler))
        → (shut_down Handler net ctx ls).1 ≡ []
        → All (λ l. net.shutdown ctx l ≡ none) ls
    unfolding shut_down
    shut_down-none ctx [] h = tt
    shut_down-none ctx (k ∷ ls) h = elim (Option-cases (net.shutdown ctx k)) [
      | inl fine ↦ (fine, shut_down-none ctx ls (ground arith))
      | inr (f, bad) ↦ ground arith
    ]

    -- The context that drain gives to Shutdown
    abbrev pub draining : ℕ → Context → Context
    draining grace ctx = with_timeout grace (without_cancel ctx)

    drain-nil :
        (grace : ℕ) (ctx : Context) (ls : List (Listener Handler))
        → (drain Handler net grace ctx ls).1 ≡ none
        → All (λ l. net.shutdown (draining grace ctx) l ≡ none) ls
    unfolding drain
    drain-nil grace ctx ls h = elim (List-cases (shut_down Handler net (draining grace ctx) ls).1) [
      | inl empty ↦ shut_down-none (draining grace ctx) ls empty
      | inr (e, es, some_error) ↦ ground arith
    ]

    shut_down-quiet :
        (ctx : Context) (ls : List (Listener Handler))
        → All (λ l. net.shutdown ctx l ≡ none) ls
        → (shut_down Handler net ctx ls).1 ≡ []
    unfolding shut_down
    shut_down-quiet ctx [] all = refl
    shut_down-quiet ctx (k ∷ ls) (fine, all) = ground (arith, shut_down-quiet ctx ls all)

    -- The drain returns nil exactly when every listener does.
    pub drain-nil_iff :
        (grace : ℕ) (ctx : Context) (ls : List (Listener Handler))
        → ((drain Handler net grace ctx ls).1 ≡ none)
          ↔ All (λ l. net.shutdown (draining grace ctx) l ≡ none) ls
    unfolding drain
    drain-nil_iff grace ctx ls = (
      drain-nil grace ctx ls,
      λ all. let quiet = shut_down-quiet (draining grace ctx) ls all in ground arith,
    )

    drain-found :
        (grace : ℕ) (ctx : Context) (ls : List (Listener Handler)) (l : Listener Handler)
        (e : Error) (test : Failure → Bool)
        → Listed l ls
        → net.shutdown (draining grace ctx) l ≡ some e
        → is test e ≡ true
        → (f : Error) × ((drain Handler net grace ctx ls).1 ≡ some f) × (is test f ≡ true)
    unfolding drain is
    drain-found grace ctx ls l e test m failing found =
        let there = shut_down-error (draining grace ctx) ls l e m failing in
        elim (List-cases (shut_down Handler net (draining grace ctx) ls).1) [
          | inl empty ↦ elim ((rw empty at there)) [ ]
          | inr (g, es, some_error) ↦
              let joined = join_all-is test g e es (rw some_error at there) found in
              (wrap "goga/serve: shutdown" (join_all Handler net g es), ground arith, joined)
        ]

    pub drain-called :
        (grace : ℕ) (ctx : Context) (ls : List (Listener Handler))
        → (drain Handler net grace ctx ls).0 ≡ ls
    unfolding drain
    drain-called grace ctx ls =
        let all = shut_down-all (draining grace ctx) ls in
        elim (List-cases (shut_down Handler net (draining grace ctx) ls).1) [
          | inl empty ↦ ground arith
          | inr (e, es, some_error) ↦ ground arith
        ]

    -- The drain calls Shutdown on every listener, in order, whatever the others answer; if it returns
    -- nil then all of them answered nil, and an error that errors.Is finds in one's answer is found in
    -- what it returns. Each has the shutdown grace, even when the caller's context is cancelled.
    pub drain_reaches-All :
        (grace : ℕ) (ctx : Context) (ls : List (Listener Handler))
        → ((drain Handler net grace ctx ls).0 ≡ ls)
          × ((drain Handler net grace ctx ls).1 ≡ none
              → All (λ l. net.shutdown (draining grace ctx) l ≡ none) ls)
          × ((l : Listener Handler) (e : Error) (test : Failure → Bool)
              → Listed l ls
              → net.shutdown (draining grace ctx) l ≡ some e
              → is test e ≡ true
              → (f : Error) × ((drain Handler net grace ctx ls).1 ≡ some f) × (is test f ≡ true))
          × (draining grace ctx ≡ record { cancelled = false; left = some grace })
    unfolding with_timeout without_cancel
    drain_reaches-All grace ctx ls =
        (drain-called grace ctx ls, drain-nil grace ctx ls, drain-found grace ctx ls, refl)
