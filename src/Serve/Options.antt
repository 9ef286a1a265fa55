-- ===== src/Serve/Options.antt =====
-- The settings that the options of serve/ can build.
use goga.Prelude.{
  ℕ, ◌<◌, ◌≡◌, sym, String, Bool-cases, false, ◌==◌, eq_iff, Option, Option-cases, none, some, inl,
  inr, List, [], ◌∷◌, map, map-append, Once, append-Once, Listed, arith, subst,
}
use goga.Options.{apply}
use goga.Serve.Settings.{
  Check, CheckFunc, Driver, Middleware, Settings, ServeOption, defaults, with_addr, with_ops_addr,
  positive_duration, with_read_header_timeout, with_read_timeout, with_write_timeout,
  with_shutdown_grace, with_tls, has_name, add_check, with_health_check, with_readiness_check,
  with_middleware, with_driver,
}

abbrev pub names : List Check → List String
names checks = map (λ (c : Check). c.name) checks

module _ (Handler : Type 0) where
  -- A call of one of the option functions, with its arguments.
  pub data Call : Type 0 where
    addr ops_addr : String → Call
    read_header_timeout read_timeout write_timeout shutdown_grace : ℕ → Call
    tls : String → String → Call
    health_check readiness_check : String → Option CheckFunc → Call
    middleware : List (Option (Middleware Handler)) → Call
    driver : Option Driver → Call

  abbrev pub option_of : Call → ServeOption Handler
  option_of (addr a) = with_addr Handler a
  option_of (ops_addr a) = with_ops_addr Handler a
  option_of (read_header_timeout d) = with_read_header_timeout Handler d
  option_of (read_timeout d) = with_read_timeout Handler d
  option_of (write_timeout d) = with_write_timeout Handler d
  option_of (shutdown_grace d) = with_shutdown_grace Handler d
  option_of (tls cert key) = with_tls Handler cert key
  option_of (health_check name fn) = with_health_check Handler name fn
  option_of (readiness_check name fn) = with_readiness_check Handler name fn
  option_of (middleware mw) = with_middleware Handler mw
  option_of (driver d) = with_driver Handler d

  -- There is an address; every duration is positive; a certificate has a key; and no two checks of one
  -- probe share a name.
  abbrev pub IsValid : Settings Handler → Type 0
  IsValid s =
      (s.addr == "" ≡ false)
      × (0 < s.read_header_timeout)
      × (0 < s.read_timeout)
      × (0 < s.write_timeout)
      × (0 < s.shutdown_grace)
      × (s.cert_file == "" ≡ s.key_file == "")
      × Once (names s.health)
      × Once (names s.readiness)

  has_name-Listed :
      (name : String) (checks : List Check)
      → has_name Handler name checks ≡ false
      → ¬ Listed name (names checks)
  unfolding has_name
  has_name-Listed name [] h m = elim m [ ]
  has_name-Listed name (c ∷ cs) h (inl e) = cc ((eq_iff c.name name).1 (sym e))
  has_name-Listed name (c ∷ cs) h (inr m) = has_name-Listed name cs (ground arith) m

  add_check-Once :
      (kind name : String) (fn : Option CheckFunc) (checks : List Check)
      → Once (names checks)
      → Once (names (add_check Handler kind name fn checks).0)
  unfolding add_check
  add_check-Once kind name none checks once = elim (Bool-cases (name == "")) [
    | inl empty ↦ rw empty once
    | inr named ↦ rw named once
  ]
  add_check-Once kind name (some f) checks once = elim (Bool-cases (name == "")) [
    | inl empty ↦ rw empty once
    | inr named ↦ elim (Bool-cases (has_name Handler name checks)) [
      | inl taken ↦ rw (named, taken) once
      | inr free ↦
          rw (named, free)
            (rw (map-append (λ (c : Check). c.name) checks (record { name = name; fn = f } ∷ []))
              (append-Once name (names checks) once (has_name-Listed name checks free)))
    ]
  ]

  option-IsValid : (c : Call) (s : Settings Handler) → IsValid s → IsValid (option_of c s).0
  unfolding with_addr with_ops_addr positive_duration with_read_header_timeout with_read_timeout
      with_write_timeout with_shutdown_grace with_tls with_health_check with_readiness_check
      with_middleware with_driver
  option-IsValid (addr a) s h = ground arith
  option-IsValid (ops_addr a) s h = ground arith
  option-IsValid (read_header_timeout d) s h = ground arith
  option-IsValid (read_timeout d) s h = ground arith
  option-IsValid (write_timeout d) s h = ground arith
  option-IsValid (shutdown_grace d) s h = ground arith
  option-IsValid (tls cert key) s h = ground arith
  option-IsValid (health_check name fn) s h =
      let once = add_check-Once "health check" name fn s.health h.6 in ground arith
  option-IsValid (readiness_check name fn) s h =
      let once = add_check-Once "readiness check" name fn s.readiness h.7 in ground arith
  option-IsValid (middleware mw) s h = ground arith
  option-IsValid (driver d) s h = ground arith

  apply-IsValid :
      (s : Settings Handler) (cs : List Call) → IsValid s → IsValid (apply s (map option_of cs)).0
  unfolding apply
  apply-IsValid s [] h = h
  apply-IsValid s (c ∷ cs) h =
      let next = option-IsValid c s h in
      elim (Option-cases (option_of c s).1) [
        | inl good ↦
            let went_on : (apply s (map option_of (c ∷ cs))).0
                ≡ (apply (option_of c s).0 (map option_of cs)).0 =
              ground arith in
            subst IsValid (sym went_on) (apply-IsValid (option_of c s).0 cs next)
        | inr (e, bad) ↦
            let stopped : (apply s (map option_of (c ∷ cs))).0 ≡ (option_of c s).0 = ground arith in
            subst IsValid (sym stopped) next
      ]

  -- Whatever options New is given, the settings that Apply leaves have an address, positive
  -- durations, a certificate only with a key, and no two checks of one probe with the same name, also
  -- when an option fails.
  pub options_keep-IsValid :
      (cs : List Call) → IsValid (apply (defaults Handler) (map option_of cs)).0
  options_keep-IsValid cs = apply-IsValid (defaults Handler) cs (ground arith)
