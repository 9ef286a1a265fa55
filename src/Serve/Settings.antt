-- ===== src/Serve/Settings.antt =====
-- serve/options.go: the settings and the options. Durations are nanoseconds; one that is not positive
-- is read as 0.
use goga.Prelude.{
  ℕ, ◌+◌, String, Bool, false, ◌||◌, ◌==◌, Option, none, some, List, [], ◌∷◌, ◌++◌, ltb,
  if◌then◌else◌,
}
use goga.Errors
use goga.Errors.{raw}
use goga.Options.{Setter}
use goga.Context.{Context}

pub data Failure : Type 0 where
  nil_handler empty_addr nil_driver ops_addr_with_custom_driver incomplete_tls : Failure
  -- The Go type of the listener
  unsupported_tls : ℕ → Failure
  not_positive : String → Failure
  -- The kind of a check, and its name
  empty_check_name : String → Failure
  nil_check duplicate_check : String → String → Failure
  nil_middleware : ℕ → Failure
  -- http.ErrServerClosed
  server_closed : Failure
  foreign : ℕ → Failure

abbrev pub Error : Type 0
Error = Errors.Error Failure

abbrev pub Result : Type 0 → Type 0
Result A = Errors.Result Failure A

-- A check's function answers nil or the text of its error.
abbrev pub CheckFunc : Type 0
CheckFunc = Context → Option String

pub record Check : Type 0 where
  pub name : String
  pub fn : CheckFunc

-- `driver.Options`
pub record DriverOptions : Type 0 where
  pub read_header_timeout : ℕ
  pub read_timeout : ℕ
  pub write_timeout : ℕ

-- A driver.Server: the in-tree listener, which is a driver.TLSServer, or the caller's, given by its
-- Go type and by whether it is a driver.TLSServer.
pub data Driver : Type 0 where
  std_listener : DriverOptions → Driver
  callers : ℕ → Bool → Driver

module _ (Handler : Type 0) where
  abbrev pub Middleware : Type 0
  Middleware = Handler → Handler

  pub record Settings : Type 0 where
    pub addr : String
    pub ops_addr : String
    pub read_header_timeout : ℕ
    pub read_timeout : ℕ
    pub write_timeout : ℕ
    pub shutdown_grace : ℕ
    pub cert_file : String
    pub key_file : String
    pub health : List Check
    pub readiness : List Check
    pub middleware : List Middleware
    pub drv : Option Driver

  abbrev pub defaults : Settings
  defaults = record {
    addr = ":8080";
    ops_addr = "";
    read_header_timeout = 5000000000;
    read_timeout = 30000000000;
    write_timeout = 30000000000;
    shutdown_grace = 15000000000;
    cert_file = "";
    key_file = "";
    health = [];
    readiness = [];
    middleware = [];
    drv = none;
  }

  unfoldable pub driver_options : Settings → DriverOptions
  driver_options s = record {
    read_header_timeout = s.read_header_timeout;
    read_timeout = s.read_timeout;
    write_timeout = s.write_timeout;
  }

  abbrev pub ServeOption : Type 0
  ServeOption = Setter Failure Settings

  unfoldable pub with_addr : String → ServeOption
  with_addr addr s =
      if addr == "" then (s, some (raw empty_addr)) else (record s { addr = addr }, none)

  unfoldable pub with_ops_addr : String → ServeOption
  with_ops_addr addr s =
      if addr == "" then (s, some (raw empty_addr)) else (record s { ops_addr = addr }, none)

  -- `positiveDuration`, for a field by its setter
  unfoldable pub positive_duration : String → ℕ → (Settings → Settings) → ServeOption
  positive_duration name d set s =
      if ltb 0 d then (set s, none) else (s, some (raw (not_positive name)))

  unfoldable pub with_read_header_timeout : ℕ → ServeOption
  unfolding positive_duration
  with_read_header_timeout d =
      positive_duration "read header timeout" d (λ s. record s { read_header_timeout = d })

  unfoldable pub with_read_timeout : ℕ → ServeOption
  unfolding positive_duration
  with_read_timeout d = positive_duration "read timeout" d (λ s. record s { read_timeout = d })

  unfoldable pub with_write_timeout : ℕ → ServeOption
  unfolding positive_duration
  with_write_timeout d = positive_duration "write timeout" d (λ s. record s { write_timeout = d })

  unfoldable pub with_shutdown_grace : ℕ → ServeOption
  unfolding positive_duration
  with_shutdown_grace d =
      positive_duration "shutdown grace" d (λ s. record s { shutdown_grace = d })

  unfoldable pub with_tls : String → String → ServeOption
  with_tls cert key s =
      if cert == "" || key == ""
      then (s, some (raw incomplete_tls))
      else (record s { cert_file = cert; key_file = key }, none)

  -- The loop of addCheck
  unfoldable pub has_name : String → List Check → Bool
  has_name name [] = false
  has_name name (c ∷ cs) = c.name == name || has_name name cs

  -- `addCheck` on the list of its field
  unfoldable pub add_check :
      String → String → Option CheckFunc → List Check → List Check × Option Error
  unfolding has_name
  add_check kind name fn checks =
      if name == "" then (checks, some (raw (empty_check_name kind))) else elim fn [
        | none ↦ (checks, some (raw (nil_check kind name)))
        | some f ↦
            if has_name name checks
            then (checks, some (raw (duplicate_check kind name)))
            else (checks ++ record { name = name; fn = f } ∷ [], none)
      ]

  unfoldable pub with_health_check : String → Option CheckFunc → ServeOption
  unfolding add_check
  with_health_check name fn s =
      let (checks, failure) = add_check "health check" name fn s.health in
      (record s { health = checks }, failure)

  unfoldable pub with_readiness_check : String → Option CheckFunc → ServeOption
  unfolding add_check
  with_readiness_check name fn s =
      let (checks, failure) = add_check "readiness check" name fn s.readiness in
      (record s { readiness = checks }, failure)

  -- The loop of WithMiddleware: the index of the first nil.
  unfoldable pub first_nil : ℕ → List (Option Middleware) → Option ℕ
  first_nil i [] = none
  first_nil i (none ∷ ms) = some i
  first_nil i (some m ∷ ms) = first_nil (i + 1) ms

  -- The middleware of a list without nil
  unfoldable pub present : List (Option Middleware) → List Middleware
  present [] = []
  present (none ∷ ms) = present ms
  present (some m ∷ ms) = m ∷ present ms

  unfoldable pub with_middleware : List (Option Middleware) → ServeOption
  unfolding first_nil present
  with_middleware mw s = elim (first_nil 0 mw) [
    | some i ↦ (s, some (raw (nil_middleware i)))
    | none ↦ (record s { middleware = s.middleware ++ present mw }, none)
  ]

  unfoldable pub with_driver : Option Driver → ServeOption
  with_driver none s = (s, some (raw nil_driver))
  with_driver (some d) s = (record s { drv = some d }, none)
