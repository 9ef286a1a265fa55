-- ===== src/Serve/Server.antt =====
-- serve/serve.go: New, the listeners, Run and the drain. A listener is given by what its calls
-- answer; spans and As are left out.
use goga.Prelude.{
  ℕ, String, Bool, true, false, not, ◌==◌, ◌&&◌, Option, none, some, List, [], ◌∷◌, Listed,
  if◌then◌else◌,
}
use goga.Errors
use goga.Errors.{ok, err, raw, wrap, is, ◌>>=◌}
use goga.Options.{apply}
use goga.Context.{Context, with_timeout, without_cancel}
use goga.Serve.Settings.{
  Failure, Error, Result, Driver, std_listener, callers, Settings, ServeOption, defaults,
  driver_options, nil_handler, ops_addr_with_custom_driver, unsupported_tls, server_closed,
}
use goga.Serve.Ops.{OpsMux, Page, matched, new_ops_mux, apply_middleware}

-- `_, ok := drv.(driver.TLSServer)`
unfoldable pub serves_tls : Driver → Bool
serves_tls (std_listener o) = true
serves_tls (callers go_type tls) = tls

-- The Go type of a listener; 0 stands for the in-tree one.
abbrev pub go_type : Driver → ℕ
go_type (std_listener o) = 0
go_type (callers t tls) = t

unfoldable pub is_server_closed : Failure → Bool
is_server_closed server_closed = true
is_server_closed _ = false

module _ (Handler : Type 0) where
  -- What a listener is handed: the application, the operational mux, or `rootHandler` over both
  pub data Root : Type 0 where
    app_only : Handler → Root
    ops_only : OpsMux → Root
    root_handler : Handler → OpsMux → Root

  pub record Server : Type 0 where
    pub app : Handler
    pub ops : OpsMux
    pub root : Root
    pub d : Driver
    pub addr : String
    pub ops_drv : Option Driver
    pub ops_addr : String
    pub cert_file : String
    pub key_file : String
    pub shutdown_grace : ℕ

  -- Who answers a request: an operational page, the mux's redirect or 404, or the application
  pub data Answer : Type 0 where
    page : Page → Answer
    redirect : String → Answer
    not_found : Answer
    application : Handler → Answer

  -- net/http's cleaning of a path, by which ServeMux looks a pattern up; a path that it changes is
  -- redirected, and reported with the pattern of the cleaned path, if there is one. CONNECT, whose paths
  -- it leaves alone, is left out.
  module _ (clean : String → String) where
    -- What the mux answers itself, where it has `given` to say of the cleaned path
    abbrev pub unless_redirected : String → Answer → Answer
    unless_redirected path given = if clean path == path then given else redirect (clean path)

    -- `rootHandler.ServeHTTP`, and the two other handlers
    unfoldable pub serve_http : Root → String → Answer
    unfolding matched
    serve_http (app_only app) path = application app
    serve_http (ops_only ops) path =
        unless_redirected path
          (elim (matched ops (clean path)) [ some p ↦ page p | none ↦ not_found ])
    serve_http (root_handler app ops) path = elim (matched ops (clean path)) [
      | some p ↦ unless_redirected path (page p)
      | none ↦ application app
    ]

  abbrev pub separate_ops : Settings Handler → Bool
  separate_ops set = not (set.ops_addr == "") && not (set.ops_addr == set.addr)

  -- The choice of the listener
  unfoldable pub choose_driver : Settings Handler → Result Driver
  unfolding driver_options
  choose_driver set = elim set.drv [
    | none ↦ ok (std_listener (driver_options Handler set))
    | some d ↦ if separate_ops set then err (raw ops_addr_with_custom_driver) else ok d
  ]

  unfoldable pub check_tls : Settings Handler → Driver → Result Driver
  unfolding serves_tls
  check_tls set d =
      if not (set.cert_file == "") && not (serves_tls d)
      then err (wrap "goga/serve: new" (raw (unsupported_tls (go_type d))))
      else ok d

  -- otelhttp.NewHandler with the name formatter
  module _ (instrument : Handler → Handler) where
    -- The value that New returns
    unfoldable pub build : Handler → Settings Handler → Driver → Server
    unfolding apply_middleware new_ops_mux driver_options
    build h set d =
        let traced = instrument (apply_middleware h set.middleware) in
        let ops = new_ops_mux set.health set.readiness in
        let separate = separate_ops set in
        record {
          app = traced;
          ops = ops;
          root = if separate then app_only traced else root_handler traced ops;
          d = d;
          addr = set.addr;
          ops_drv = if separate then some (std_listener (driver_options Handler set)) else none;
          ops_addr = if separate then set.ops_addr else "";
          cert_file = set.cert_file;
          key_file = set.key_file;
          shutdown_grace = set.shutdown_grace;
        }

    -- New, after the options
    unfoldable pub new_server : Handler → Settings Handler → Result Server
    unfolding choose_driver check_tls build
    new_server h set = do chosen ← choose_driver set; d ← check_tls set chosen; ok (build h set d)

    unfoldable pub new : Option Handler → List (ServeOption Handler) → Result Server
    unfolding new_server
    new none opts = err (raw nil_handler)
    new (some h) opts =
        let (set, failure) = apply (defaults Handler) opts in
        elim failure [ some e ↦ err (wrap "goga/serve: new" e) | none ↦ new_server h set ]

  pub record Listener : Type 0 where
    pub drv : Driver
    pub addr : String
    pub h : Root
    pub tls : Bool

  unfoldable pub listeners : Server → List Listener
  listeners s =
      record { drv = s.d; addr = s.addr; h = s.root; tls = not (s.cert_file == "") }
      ∷ elim s.ops_drv [
        | none ↦ []
        | some d ↦ record { drv = d; addr = s.ops_addr; h = ops_only s.ops; tls = false } ∷ []
      ]

  -- ListenAndServe, ListenAndServeTLS and Shutdown of a listener, by what they answer
  pub record Answers : Type 0 where
    pub listen_and_serve : Listener → Option Error
    pub listen_and_serve_tls : Listener → Option Error
    pub shutdown : Context → Listener → Option Error

  module _ (net : Answers) where
    -- `Server.serve`
    unfoldable pub serve : Listener → Option Error
    unfolding serves_tls
    serve l =
        if l.tls
        then (if serves_tls l.drv
            then net.listen_and_serve_tls l
            else some (wrap "goga/serve" (raw (unsupported_tls (go_type l.drv)))))
        else net.listen_and_serve l

    -- The loop of `drain`: the listeners that Shutdown was called on, and the errors.
    unfoldable pub shut_down : Context → List Listener → List Listener × List Error
    shut_down ctx [] = ([], [])
    shut_down ctx (l ∷ ls) =
        let (called, errs) = shut_down ctx ls in
        elim (net.shutdown ctx l) [ none ↦ (l ∷ called, errs) | some e ↦ (l ∷ called, e ∷ errs) ]

    -- errors.Join of a list that is not empty
    unfoldable pub join_all : Error → List Error → Error
    join_all e [] = e
    join_all e (f ∷ fs) = Errors.join e (join_all f fs)

    unfoldable pub drain : ℕ → Context → List Listener → List Listener × Option Error
    unfolding shut_down join_all
    drain grace ctx ls =
        let (called, errs) = shut_down (with_timeout grace (without_cancel ctx)) ls in
        elim errs [
          | [] ↦ (called, none)
          | e ∷ es ↦ (called, some (wrap "goga/serve: shutdown" (join_all e es)))
        ]

    -- What Run makes of the first listener that ends
    unfoldable pub ended : Option Error → Option Error
    unfolding is
    ended none = none
    ended (some e) = if is is_server_closed e then none else some (wrap "goga/serve: run" e)

    -- A run to its end: a listener ends first, or the context is cancelled first. The listeners that
    -- Shutdown was called on, and what Run returns.
    pub data Runs (s : Server) (ctx : Context) : List Listener → Option Error → Type 0 where
      listener_ended : (l : Listener) → Listed l (listeners s) → Runs s ctx [] (ended (serve l))
      cancelled :
          Runs s ctx
            (drain s.shutdown_grace ctx (listeners s)).0
            (drain s.shutdown_grace ctx (listeners s)).1
