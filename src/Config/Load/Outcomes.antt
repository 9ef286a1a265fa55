-- ===== src/Config/Load/Outcomes.antt =====
-- What Load and a reload report.
use goga.Prelude.{
  ◌≡◌, refl, ◌⊎◌, ◌↔◌, ap, sym, List-cases, if◌then◌else◌, inl, inr, Bool-cases, Option-cases, true,
  false, String, Option, none, some, List, [], ◌∷◌, All, Listed, arith,
}
use goga.Errors.{ok, err, raw, Result-cases, bind-ok}
use goga.Options.{apply}
use goga.Config.Library.{Library, Files}
use goga.Config.Failure.{Error, missing_keys}
use goga.Config.Settings
use goga.Config.Settings.{Settings, Source, ConfigOption, missing}
use goga.Config.Load.{
  Config, Event, build, check_and_decode, decode, reload, finish_reload, load, load_settings,
  watch_if_asked,
}

module _ (lib : Library) where
  open lib use {Handle, Bytes, Value, exists}

  missing-nil :
      (k : Handle) (keys : List String)
      → missing lib k keys ≡ []
      → All (λ key. exists k key ≡ true) keys
  unfolding missing
  missing-nil k [] h = tt
  missing-nil k (key ∷ keys) h = elim (Bool-cases (exists k key)) [
    | inl there ↦ (there, missing-nil k keys (ground arith))
    | inr absent ↦ ground arith
  ]

  -- The missing keys are the declared ones that no source set, whatever their order.
  missing_iff :
      (k : Handle) (keys : List String) (key : String)
      → Listed key (missing lib k keys) ↔ (Listed key keys × (exists k key ≡ false))
  unfolding missing
  missing_iff k [] key = (λ m. elim m [ ], λ (m, absent). m)
  missing_iff k (j ∷ keys) key = elim (Bool-cases (exists k j)) [
    | inl there ↦
        rw (there, if◌then◌else◌)
          (
            λ m. let (n, absent) = (missing_iff k keys key).0 m in (inr n, absent),
            λ (m, absent). elim m [
              | inl e ↦ cc (ap (exists k) e)
              | inr n ↦ (missing_iff k keys key).1 (n, absent)
            ],
          )
    | inr away ↦
        rw (away, if◌then◌else◌)
          (
            λ m. elim m [
              | inl e ↦ (inl e, rw e away)
              | inr n ↦ let (l, absent) = (missing_iff k keys key).0 n in (inr l, absent)
            ],
            λ (m, absent). elim m [
              | inl e ↦ inl e
              | inr n ↦ inr ((missing_iff k keys key).1 (n, absent))
            ],
          )
  ]

  -- The check passes exactly when each required key is set; then the result is the decoder's.
  check_and_decode-ok :
      (k : Handle) (s : Settings lib) (v : Value)
      → check_and_decode lib k s ≡ ok v
      → All (λ key. exists k key ≡ true) s.required_keys × (decode lib k s ≡ ok v)
  unfolding check_and_decode Settings.missing_keys
  check_and_decode-ok k s v h = elim (List-cases (missing lib k s.required_keys)) [
    | inl empty ↦ (missing-nil k s.required_keys empty, ground arith)
    | inr (key, keys, e) ↦ cc
  ]

  -- When `check_and_decode` reports missing keys, they are exactly the required keys that are not set.
  pub check_and_decode-missing :
      (k : Handle) (s : Settings lib) (absent : List String)
      → check_and_decode lib k s ≡ err (raw (missing_keys absent))
      → (key : String) → Listed key absent ↔ (Listed key s.required_keys × (exists k key ≡ false))
  unfolding check_and_decode Settings.missing_keys
  check_and_decode-missing k s absent h key = elim (List-cases (missing lib k s.required_keys)) [
    | inl empty ↦ ground arith
    | inr (j, keys, e) ↦
        let same : missing lib k s.required_keys ≡ absent = ground arith in
        rw same at (missing_iff k s.required_keys key)
  ]

  -- Exactly one of Value and Err is set.
  abbrev pub IsExclusive : Event lib → Type 0
  IsExclusive e =
      ((v : Value) × (e.value ≡ some v) × (e.err ≡ none))
      ⊎ ((f : Error) × (e.value ≡ none) × (e.err ≡ some f))

  finish_reload-IsExclusive :
      (path : String) (s : Settings lib) (k : Handle) → IsExclusive (finish_reload lib path s k)
  unfolding finish_reload
  finish_reload-IsExclusive path s k = elim (Result-cases (check_and_decode lib k s)) [
    | inl (v, e) ↦ rw (e, finish_reload) (inl (v, refl, refl))
    | inr (f, e) ↦ rw (e, finish_reload) (inr (f, refl, refl))
  ]

  -- The event of a reload has exactly one of Value and Err, whatever the watcher, the files, the
  -- merge and the decoder answer.
  pub reload-IsExclusive :
      (files : Files Bytes) (s : Settings lib) (path : String) (watch_err : Option Error)
      → IsExclusive (reload lib files s path watch_err)
  unfolding reload
  reload-IsExclusive files s path (some f) = inr (_, refl, refl)
  reload-IsExclusive files s path none = elim (Result-cases (build lib files s)) [
    | inl ((k, used), e) ↦ rw (e, reload) (finish_reload-IsExclusive path s k)
    | inr (f, e) ↦ rw (e, reload) (inr (f, refl, refl))
  ]

  module _ (new_watcher : List String → Option Error) where
    -- The three steps of a load that succeeds.
    load_settings-ok :
        (files : Files Bytes) (s : Settings lib) (c : Config lib)
        → load_settings lib new_watcher files s ≡ ok c
        → (used : List String) × (build lib files s ≡ ok (c.k, used))
          × (check_and_decode lib c.k s ≡ ok c.value)
          × (watch_if_asked lib new_watcher s ≡ ok c.watched)
          × (c.set ≡ s)
    unfolding load_settings
    load_settings-ok files s c h =
        let ((k, used), built, after_build) = bind-ok (build lib files s) _ h in
        let (v, decoded, after_decode) = bind-ok (check_and_decode lib k s) _ after_build in
        let (w, watched, done) = bind-ok (watch_if_asked lib new_watcher s) _ after_decode in
        (used, ground arith, ground arith, ground arith, ground arith)

    applied :
        (files : Files Bytes) (opts : List (ConfigOption lib)) (c : Config lib)
        → load lib new_watcher files opts ≡ ok c
        → ((apply (Settings.no_settings lib) opts).1 ≡ none)
          × (load_settings lib new_watcher files (apply (Settings.no_settings lib) opts).0 ≡ ok c)
    unfolding load
    applied files opts c h = elim (Option-cases (apply (Settings.no_settings lib) opts).1) [
      | inl good ↦ (good, ground arith)
      | inr (e, bad) ↦ ground arith
    ]

    -- A configuration that Load returns has every required key, and its value is what the decoder
    -- made of its handle.
    pub load_complete :
        (files : Files Bytes) (opts : List (ConfigOption lib)) (c : Config lib)
        → load lib new_watcher files opts ≡ ok c
        → All (λ key. exists c.k key ≡ true) c.set.required_keys
          × (decode lib c.k c.set ≡ ok c.value)
          × (apply (Settings.no_settings lib) opts ≡ (c.set, none))
    unfolding load
    load_complete files opts c h =
        let (failure_free, h') = applied files opts c h in
        let (used, built, decoded, watched, same) =
          load_settings-ok files (apply (Settings.no_settings lib) opts).0 c h' in
        let (present, v) =
          check_and_decode-ok c.k (apply (Settings.no_settings lib) opts).0 c.value decoded in
        (rw same present, rw same v, λ i. (sym same i, failure_free i))

    -- A reload with the settings of a load delivers what that load returned.
    pub reload-load :
        (files : Files Bytes) (s : Settings lib) (path : String) (c : Config lib)
        → load_settings lib new_watcher files s ≡ ok c
        → reload lib files s path none
          ≡ record { path = path; k = some c.k; value = some c.value; err = none }
    unfolding reload
    reload-load files s path c h =
        let (used, built, decoded, watched, same) = load_settings-ok files s c h in
        rw (built, reload) (rw (decoded, finish_reload))
