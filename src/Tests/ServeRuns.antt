-- ===== src/Tests/ServeRuns.antt =====
-- serve/ with strings as handlers: the operational endpoints on a port of their own.
use Prim.Native.String
use goga.Prelude.{
  ◌≡◌, refl, ◌↔◌, ◌⊎◌, inl, String, Bool, true, false, ◌==◌, none, some, List, [], ◌∷◌, All, Once,
  Listed, map, if◌then◌else◌,
}
use goga.Errors.{ok, raw, is}
use goga.Options.{apply}
use goga.Context.{Context}
use goga.Serve.Settings
use goga.Serve.Settings.{Failure, Error, Check, foreign, defaults}
use goga.Serve.Ops
use goga.Serve.Ops.{Page, probe, apply_middleware, matched, wrap_down, at, new_ops_mux}
use goga.Serve.Server
use goga.Serve.Server.{
  Server, Listener, Answers, Runs, listener_ended, listeners, drain, ended, serve, new, redirect,
  serve_http, application, build,
}
use goga.Serve.Options
use goga.Serve.Options.{IsValid, option_of, options_keep-IsValid}
use goga.Serve.Probes.{probe_answers}
use goga.Serve.Listening.{draining, drain_reaches-All}
use goga.Serve.Running.{EndsWell, answer_of, run_returns}
use goga.Serve.Construction.{Answered, Served, page_at, new_listens}

abbrev caller : Context
caller = record { cancelled = true; left = none }

abbrev checks : List Check
checks =
    record { name = "db"; fn = λ ctx. none }
    ∷ record { name = "cache"; fn = λ ctx. some "timeout" }
    ∷ []

probe_answers_example :
    (((probe checks caller).status ≡ 200) ↔ All (λ c. c.fn caller ≡ none) checks)
    × (((probe checks caller).status ≡ 200) ⊎ ((probe checks caller).status ≡ 503))
    × ((probe checks caller).body ≡ "db: ok\ncache: timeout\n")
probe_answers_example = probe_answers checks caller

abbrev tagged : String → String → String
tagged tag h = String.◌++◌ tag h

abbrev calls : List (Options.Call String)
calls =
    Options.addr ":80"
    ∷ Options.ops_addr ":9090"
    ∷ Options.tls "cert.pem" "key.pem"
    ∷ Options.middleware (some (tagged "log ") ∷ [])
    ∷ []

options_keep-IsValid_example :
    IsValid String (apply (defaults String) (map (option_of String) calls)).0
options_keep-IsValid_example = options_keep-IsValid String calls

abbrev net : Answers String
net = record {
  listen_and_serve = λ l. none;
  listen_and_serve_tls = λ l. some (raw (foreign 98));
  shutdown = λ ctx l. if l.addr == ":80" then some (raw (foreign 4)) else none;
}

abbrev timeouts : Settings.DriverOptions
timeouts = record {
  read_header_timeout = 5000000000;
  read_timeout = 30000000000;
  write_timeout = 30000000000;
}

abbrev two_ports : Server String
two_ports = record {
  app = "otel log app";
  ops =
      ("/metrics", Ops.metrics)
      ∷ ("/livez", Ops.probe_of [])
      ∷ ("/healthz", Ops.probe_of [])
      ∷ ("/readyz", Ops.probe_of [])
      ∷ [];
  root = Server.app_only "otel log app";
  d = Settings.std_listener timeouts;
  addr = ":80";
  ops_drv = some (Settings.std_listener timeouts);
  ops_addr = ":9090";
  cert_file = "cert.pem";
  key_file = "key.pem";
  shutdown_grace = 15000000000;
}

made : new String (tagged "otel ") (some "app") (map (option_of String) calls) ≡ ok two_ports
unfolding new Server.new_server Server.choose_driver Server.check_tls build apply Settings.with_addr
    Settings.with_ops_addr Settings.with_tls Settings.with_middleware Settings.first_nil
    Settings.present Settings.driver_options apply_middleware wrap_down at new_ops_mux
    Server.serves_tls
made = refl

-- path.Clean of the one path that is not clean
abbrev clean : String → String
clean path = if path == "//livez" then "/livez" else path

new_listens_example :
    (set : Settings.Settings String) × (apply (defaults String) (map (option_of String) calls)
      ≡ (set, none))
    × Once (map (λ (l : Listener String). l.addr) (listeners String two_ports))
    × Served String (tagged "otel ") net two_ports
    × ((path : String) (p : Page)
        → matched (new_ops_mux set.health set.readiness) (clean path) ≡ some p
        → Answered String
            (tagged "otel ")
            clean
            two_ports
            (λ a. Unit)
            path
            (page_at String (tagged "otel ") clean path p))
    × ((path : String)
        → matched (new_ops_mux set.health set.readiness) (clean path) ≡ none
        → Answered String
            (tagged "otel ")
            clean
            two_ports
            (λ a. a ≡ set.addr)
            path
            (application (tagged "otel " (apply_middleware "app" set.middleware))))
new_listens_example =
    new_listens String (tagged "otel ") clean net "app" (map (option_of String) calls) two_ports
      made

redirected : serve_http String clean (Server.ops_only two_ports.ops) "//livez" ≡ redirect "/livez"
unfolding serve_http
redirected = refl

drain_reaches-All_example :
    ((drain String net 15 caller (listeners String two_ports)).0 ≡ listeners String two_ports)
    × ((drain String net 15 caller (listeners String two_ports)).1 ≡ none
        → All
            (λ l. net.shutdown (draining String net 15 caller) l ≡ none)
            (listeners String two_ports))
    × ((l : Listener String) (e : Error) (test : Failure → Bool)
        → Listed l (listeners String two_ports)
        → net.shutdown (draining String net 15 caller) l ≡ some e
        → is test e ≡ true
        → (f : Error) × ((drain String net 15 caller (listeners String two_ports)).1 ≡ some f)
          × (is test f ≡ true))
    × (draining String net 15 caller ≡ record { cancelled = false; left = some 15 })
drain_reaches-All_example = drain_reaches-All String net 15 caller (listeners String two_ports)

-- Its port cannot be bound, and the operational listener goes on.
abbrev app_port : Listener String
app_port = record {
  drv = Settings.std_listener timeouts;
  addr = ":80";
  h = Server.app_only "otel log app";
  tls = true;
}

app_port_run : Runs String net two_ports caller [] (ended String net (serve String net app_port))
unfolding listeners
app_port_run = listener_ended app_port (inl refl)

run_returns_example :
    ((◌≡◌ {A = List (Listener String)} [] (listeners String two_ports))
      × ((ended String net (serve String net app_port) ≡ none)
          ↔ All
              (λ l. net.shutdown (draining String net two_ports.shutdown_grace caller) l ≡ none)
              (listeners String two_ports)))
    ⊎ ((◌≡◌ {A = List (Listener String)} [] [])
        × (l : Listener String) × Listed l (listeners String two_ports)
        × ((ended String net (serve String net app_port) ≡ none)
            ↔ EndsWell (answer_of String net l)))
run_returns_example =
    run_returns String net (tagged "otel ") "app" (map (option_of String) calls) two_ports caller []
      (ended String net (serve String net app_port)) made app_port_run
