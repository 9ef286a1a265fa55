-- ===== src/Serve/Construction.antt =====
-- What New puts on its listeners.
use goga.Prelude.{
  subst, ◌≡◌, refl, sym, ap, ◌∙◌, ◌≢◌, inl, inr, String, Bool-cases, true, false, not, ◌==◌, eq_iff,
  Option-cases, none, some, List, [], ◌∷◌, Once, Listed, arith, if◌then◌else◌, map,
}
use goga.Errors.{ok, bind-ok}
use goga.Options.{apply}
use goga.Serve.Settings.{Driver, std_listener, Settings, ServeOption, defaults, driver_options}
use goga.Serve.Ops.{Page, matched, apply_middleware, new_ops_mux}
use goga.Serve.Server.{
  app_only, ops_only, root_handler, Server, Root, Answer, page, application, serve_http, serves_tls,
  unless_redirected, separate_ops, choose_driver, check_tls, build, new_server, new, Listener,
  listeners, Answers, serve,
}

module _ (Handler : Type 0) where
  check_tls-ok :
      (set : Settings Handler) (d d' : Driver)
      → check_tls Handler set d ≡ ok d'
      → (d' ≡ d) × (not (set.cert_file == "") ≡ true → serves_tls d' ≡ true)
  unfolding check_tls
  check_tls-ok set d d' h = ground arith

  module _ (instrument : Handler → Handler) where
    new-build :
        (h : Handler) (opts : List (ServeOption Handler)) (s : Server Handler)
        → new Handler instrument (some h) opts ≡ ok s
        → (set : Settings Handler) × (d : Driver) × (apply (defaults Handler) opts ≡ (set, none))
          × (choose_driver Handler set ≡ ok d)
          × (not (set.cert_file == "") ≡ true → serves_tls d ≡ true)
          × (s ≡ build Handler instrument h set d)
    unfolding new new_server
    new-build h opts s made = elim (Option-cases (apply (defaults Handler) opts).1) [
      | inr (e, bad) ↦ ground arith
      | inl good ↦
          let set = (apply (defaults Handler) opts).0 in
          let built : new_server Handler instrument h set ≡ ok s = ground arith in
          let (d, chosen, rest) = bind-ok (choose_driver Handler set) _ built in
          let (d', checked, last) = bind-ok (check_tls Handler set d) _ rest in
          let (same, tls) = check_tls-ok set d d' checked in
          (set, d', λ i. (set, good i), chosen ∙ ap ok (sym same), tls, ground arith)
    ]

    -- What the application port is handed
    abbrev port_root : Handler → Settings Handler → Root Handler
    port_root h set =
        let traced = instrument (apply_middleware h set.middleware) in
        if separate_ops Handler set
        then app_only traced
        else root_handler traced (new_ops_mux set.health set.readiness)

    abbrev first_listener : Handler → Settings Handler → Driver → Listener Handler
    first_listener h set d = record {
      drv = d;
      addr = set.addr;
      h = port_root h set;
      tls = not (set.cert_file == "");
    }

    abbrev ops_listener : Settings Handler → Listener Handler
    ops_listener set = record {
      drv = std_listener (driver_options Handler set);
      addr = set.ops_addr;
      h = ops_only (new_ops_mux set.health set.readiness);
      tls = false;
    }

    listeners-separate :
        (h : Handler) (set : Settings Handler) (d : Driver)
        → separate_ops Handler set ≡ true
        → listeners Handler (build Handler instrument h set d)
          ≡ first_listener h set d ∷ ops_listener set ∷ []
    unfolding listeners build
    listeners-separate h set d apart = ground arith

    listeners-shared :
        (h : Handler) (set : Settings Handler) (d : Driver)
        → separate_ops Handler set ≡ false
        → listeners Handler (build Handler instrument h set d) ≡ first_listener h set d ∷ []
    unfolding listeners build
    listeners-shared h set d shared = ground arith

    serve_supported :
        (net : Answers Handler) (l : Listener Handler)
        → (l.tls ≡ true → serves_tls l.drv ≡ true)
        → serve Handler net l
          ≡ (if l.tls then net.listen_and_serve_tls l else net.listen_and_serve l)
    unfolding serve
    serve_supported net l supported = elim (Bool-cases l.tls) [
      | inl tls ↦ let able = supported tls in ground arith
      | inr plain ↦ ground arith
    ]

    -- Each listener is served the way it asks for: serve's refusal is not reached.
    abbrev pub Served : Answers Handler → Server Handler → Type 0
    Served net s =
        (l : Listener Handler)
        → Listed l (listeners Handler s)
        → serve Handler net l
          ≡ (if l.tls then net.listen_and_serve_tls l else net.listen_and_serve l)

    build-Served :
        (net : Answers Handler) (h : Handler) (set : Settings Handler) (d : Driver)
        → (not (set.cert_file == "") ≡ true → serves_tls d ≡ true)
        → Served net (build Handler instrument h set d)
    build-Served net h set d tls l m = elim (Bool-cases (separate_ops Handler set)) [
      | inl apart ↦
          let two : Listed l (first_listener h set d ∷ ops_listener set ∷ []) =
            subst (Listed l) (listeners-separate h set d apart) m in
          elim two [
            | inl e ↦ rw e (serve_supported net (first_listener h set d) tls)
            | inr (inl e) ↦ rw e (serve_supported net (ops_listener set) (λ t. cc))
            | inr (inr n) ↦ elim n [ ]
          ]
      | inr shared ↦
          let one : Listed l (first_listener h set d ∷ []) =
            subst (Listed l) (listeners-shared h set d shared) m in
          elim one [
            | inl e ↦ rw e (serve_supported net (first_listener h set d) tls)
            | inr n ↦ elim n [ ]
          ]
    ]

    apart_addrs :
        (set : Settings Handler) → separate_ops Handler set ≡ true → set.addr ≢ set.ops_addr
    apart_addrs set apart e = elim (Bool-cases (set.ops_addr == set.addr)) [
      | inl same ↦ ground arith
      | inr differ ↦ cc ((eq_iff set.ops_addr set.addr).1 (sym e))
    ]

    build-Once :
        (h : Handler) (set : Settings Handler) (d : Driver)
        → Once (
            map
              (λ (l : Listener Handler). l.addr)
              (listeners Handler (build Handler instrument h set d)))
    build-Once h set d = elim (Bool-cases (separate_ops Handler set)) [
      | inl apart ↦ rw (listeners-separate h set d apart) (
        (λ m. elim m [ inl e ↦ apart_addrs set apart e | inr n ↦ elim n [ ] ]),
        ((λ m. elim m [ ]), tt),
      )
      | inr shared ↦ rw (listeners-shared h set d shared) ((λ m. elim m [ ]), tt)
    ]

    module _ (clean : String → String) where
      -- Some listener, at an address that `At` allows, answers the path so.
      abbrev pub Answered : Server Handler → (String → Type 0) → String → Answer Handler → Type 0
      Answered s At path answer =
          (l : Listener Handler) × Listed l (listeners Handler s)
          × At l.addr
          × (serve_http Handler clean l.h path ≡ answer)

      -- The page at the cleaned path, or the redirect there
      abbrev pub page_at : String → Page → Answer Handler
      page_at path p = unless_redirected Handler clean path (page p)

      build-Answered_page :
          (h : Handler) (set : Settings Handler) (d : Driver) (path : String) (p : Page)
          → matched (new_ops_mux set.health set.readiness) (clean path) ≡ some p
          → Answered (build Handler instrument h set d) (λ a. Unit) path (page_at path p)
      unfolding serve_http
      build-Answered_page h set d path p found = elim (Bool-cases (separate_ops Handler set)) [
        | inl apart ↦ (
          ops_listener set,
          rw (listeners-separate h set d apart) (inr (inl refl)),
          tt,
          ground arith,
        )
        | inr shared ↦ (
          first_listener h set d,
          rw (listeners-shared h set d shared) (inl refl),
          tt,
          ground arith,
        )
      ]

      build-Answered_application :
          (h : Handler) (set : Settings Handler) (d : Driver) (path : String)
          → matched (new_ops_mux set.health set.readiness) (clean path) ≡ none
          → Answered
              (build Handler instrument h set d)
              (λ a. a ≡ set.addr)
              path
              (application (instrument (apply_middleware h set.middleware)))
      unfolding serve_http
      build-Answered_application h set d path absent =
          elim (Bool-cases (separate_ops Handler set)) [
            | inl apart ↦ (
              first_listener h set d,
              rw (listeners-separate h set d apart) (inl refl),
              refl,
              ground arith,
            )
            | inr shared ↦ (
              first_listener h set d,
              rw (listeners-shared h set d shared) (inl refl),
              refl,
              ground arith,
            )
          ]

      -- When New succeeds, its options were accepted, and by their settings: no two listeners have one
      -- address; each is served over TLS or not as it asks, so that serve's refusal is not reached; a
      -- path that cleans to one of the operational mux of the two lists of checks is answered by its
      -- page, or the redirect to it, on some listener; and any other path is answered on the
      -- application's address by the handler inside the middleware inside the instrumentation.
      pub new_listens :
          (net : Answers Handler) (h : Handler) (opts : List (ServeOption Handler))
          (s : Server Handler)
          → new Handler instrument (some h) opts ≡ ok s
          → (set : Settings Handler) × (apply (defaults Handler) opts ≡ (set, none))
            × Once (map (λ (l : Listener Handler). l.addr) (listeners Handler s))
            × Served net s
            × ((path : String) (p : Page)
                → matched (new_ops_mux set.health set.readiness) (clean path) ≡ some p
                → Answered s (λ a. Unit) path (page_at path p))
            × ((path : String)
                → matched (new_ops_mux set.health set.readiness) (clean path) ≡ none
                → Answered s
                    (λ a. a ≡ set.addr)
                    path
                    (application (instrument (apply_middleware h set.middleware))))
      new_listens net h opts s made =
          let (set, d, accepted, chosen, tls, same) = new-build h opts s made in
          (
            set,
            accepted,
            rw same (build-Once h set d),
            rw same (build-Served net h set d tls),
            rw same (build-Answered_page h set d),
            rw same (build-Answered_application h set d),
          )

    -- Each listener of a server that New built is served the way it asks for.
    pub new-Served :
        (net : Answers Handler) (h : Handler) (opts : List (ServeOption Handler))
        (s : Server Handler)
        → new Handler instrument (some h) opts ≡ ok s
        → Served net s
    new-Served net h opts s made =
        let (set, d, accepted, chosen, tls, same) = new-build h opts s made in
        rw same (build-Served net h set d tls)
