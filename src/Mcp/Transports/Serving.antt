-- ===== src/Mcp/Transports/Serving.antt =====
-- A transport that listens, and the server of serve/ that it runs.
use goga.Prelude.{
  ◌≡◌, inl, inr, refl, sym, subst, ◌∙◌, ℕ, zero, suc, String, true, false, none, some, List, [],
  ◌∷◌, ◌==◌, arith, ltb, if◌then◌else◌, Bool-cases,
}
use goga.Errors.{ok, bind-ok}
use goga.Options.{apply, Setter}
use goga.Serve.Settings as ServeSettings
use goga.Serve.Settings.{std_listener}
use goga.Serve.Server as ServeServer
use goga.Serve.Server.{Server, new_server}
use goga.Mcp.Settings.{Settings}
use goga.Mcp.Transports.{
  pos, negsuc, ℤ, endpoint_of, write_timeout_of, HttpSettings, HttpTransport, SseSettings,
  SseTransport, new_http, new_sse, build_server,
}

endpoint_of-ok :
    (own module_endpoint e : String)
    → endpoint_of own module_endpoint ≡ ok e
    → ((e == "") ≡ false) × (e ≡ (if own == "" then module_endpoint else own))
unfolding endpoint_of
endpoint_of-ok own module_endpoint e h = elim (Bool-cases (own == "")) [
  | inl empty ↦ elim (Bool-cases (module_endpoint == "")) [
    | inl none_given ↦ ground arith
    | inr given ↦ (ground arith, ground arith)
  ]
  | inr given ↦ (ground arith, ground arith)
]

write_timeout_of-ok : (z : ℤ) (d : ℕ) → write_timeout_of z ≡ ok d → ltb 0 d ≡ true
unfolding write_timeout_of
write_timeout_of-ok (pos zero) d h = ground arith
write_timeout_of-ok (pos (suc n)) d h = ground arith
write_timeout_of-ok (negsuc n) d h = cc

apply_two :
    {E S : Type 0} (f g : Setter E S) (s t u : S)
    → f s ≡ (t, none)
    → g t ≡ (u, none)
    → apply s (f ∷ g ∷ []) ≡ (u, none)
unfolding apply
apply_two f g s t u h k = ground arith

module _ (Handler : Type 0) (instrument : Handler → Handler) where
  -- A server of serve/ that listens on the endpoint alone, with the write time-out
  abbrev pub Serves : Handler → String → ℕ → Type 0
  Serves h endpoint timeout =
      (s : Server Handler) × (build_server Handler instrument h endpoint timeout ≡ ok s)
      × (s.addr ≡ endpoint)
      × (s.ops_addr ≡ "")
      × (s.d
          ≡ std_listener (record {
            read_header_timeout = 5000000000;
            read_timeout = 30000000000;
            write_timeout = timeout;
          }))

  accepted_new :
      (h : Handler) (opts : List (ServeSettings.ServeOption Handler))
      (set : ServeSettings.Settings Handler)
      → apply (ServeSettings.defaults Handler) opts ≡ (set, none)
      → ServeServer.new Handler instrument (some h) opts ≡ new_server Handler instrument h set
  unfolding ServeServer.new
  accepted_new h opts set accepted = ground arith

  build_server-Serves :
      (h : Handler) (endpoint : String) (timeout : ℕ)
      → (endpoint == "") ≡ false
      → ltb 0 timeout ≡ true
      → Serves h endpoint timeout
  unfolding build_server new_server ServeServer.build ServeServer.choose_driver
      ServeServer.check_tls
  build_server-Serves h endpoint timeout named positive =
      let first = record (ServeSettings.defaults Handler) { addr = endpoint } in
      let set = record first { write_timeout = timeout } in
      let one : ServeSettings.with_addr Handler endpoint (ServeSettings.defaults Handler)
          ≡ (first, none) =
        unfold ServeSettings.with_addr in rw (named, if◌then◌else◌) refl in
      let two : ServeSettings.with_write_timeout Handler timeout first ≡ (set, none) =
        unfold ServeSettings.with_write_timeout in
        unfold ServeSettings.positive_duration in rw (positive, if◌then◌else◌) refl in
      let both = apply_two _ _ _ _ _ one two in
      (
        ServeServer.build Handler instrument h set
            (std_listener (ServeSettings.driver_options Handler set)),
        accepted_new h _ set both,
        refl,
        refl,
        refl,
      )

  resolved :
      (h : Handler) (own module_endpoint : String) (z : ℤ) (e : String) (d : ℕ) (endpoint : String)
      (timeout : ℕ)
      → endpoint_of own module_endpoint ≡ ok e
      → write_timeout_of z ≡ ok d
      → endpoint ≡ e
      → timeout ≡ d
      → (endpoint ≡ (if own == "" then module_endpoint else own)) × Serves h endpoint timeout
  resolved h own module_endpoint z e d endpoint timeout found timed at within_time =
      let (named, chosen) = endpoint_of-ok own module_endpoint e found in
      let serves = build_server-Serves h e d named (write_timeout_of-ok z d timed) in
      (
        at ∙ chosen,
        subst (λ u. Serves h u timeout) (sym at)
            (subst (λ n. Serves h e n) (sym within_time) serves),
      )

  module _ (Any Request : Type 0) where
    -- A transport that httptransport or ssetransport builds can always be served: its call of
    -- serve.New succeeds, and gives a server on the transport's endpoint alone, which is the one of its
    -- own settings or, where that is empty, the module's, with the transport's write time-out and the
    -- defaults of serve/ for the others.
    pub transports_serve :
        (ms : Settings Any Request) (h : Handler) (http_given : HttpSettings) (http : HttpTransport)
        (sse_given : SseSettings) (sse : SseTransport)
        → new_http Any Request ms http_given ≡ ok http
        → new_sse Any Request ms sse_given ≡ ok sse
        → (http.endpoint ≡ (if http_given.endpoint == "" then ms.endpoint else http_given.endpoint))
          × Serves h http.endpoint http.write_timeout
          × (sse.endpoint ≡ (if sse_given.endpoint == "" then ms.endpoint else sse_given.endpoint))
          × Serves h sse.endpoint sse.write_timeout
    unfolding new_http new_sse
    transports_serve ms h http_given http sse_given sse made also =
        let (e, found, rest) = bind-ok (endpoint_of http_given.endpoint ms.endpoint) _ made in
        let (d, timed, last) = bind-ok (write_timeout_of http_given.write_timeout) _ rest in
        let (at, serves) =
          resolved h http_given.endpoint ms.endpoint http_given.write_timeout e d http.endpoint
            http.write_timeout found timed (ground arith) (ground arith) in
        let (e', found', rest') = bind-ok (endpoint_of sse_given.endpoint ms.endpoint) _ also in
        let (d', timed', last') = bind-ok (write_timeout_of sse_given.write_timeout) _ rest' in
        let (at', serves') =
          resolved h sse_given.endpoint ms.endpoint sse_given.write_timeout e' d' sse.endpoint
            sse.write_timeout found' timed' (ground arith) (ground arith) in
        (at, serves, at', serves')
