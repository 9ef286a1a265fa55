-- ===== src/Config/Load/Order.antt =====
-- The order of the options does not matter across kinds: Load sees each kind's own calls, in order.
use Prim.Native.String
use goga.Prelude.{
  ◌≡◌, sym, ap, ◌∙◌, String, Bool, Option, none, some, List, [], ◌∷◌, ◌++◌, map, append_assoc,
  append-nil, arith, Option-cases, inl, inr,
}
use goga.Options.{apply}
use goga.Strings.{to_lower, trim_right, ext}
use goga.Config.Library.{Library, Files}
use goga.Config.Failure.{Error}
use goga.Config.Settings
use goga.Config.Settings.{
  Settings, ConfigOption, FileSource, EnvSource, env_separator, with_defaults, with_file_if,
  with_env, with_flags, with_required_keys, with_decode_hook, with_watch,
}
use goga.Config.Load.{load, load_settings}

module _ (lib : Library) where
  open lib use {Map, FlagSet, Hook, Callback, Bytes}

  -- A call of one of the option functions, with its arguments.
  pub data Call : Type 0 where
    defaults : Map → Call
    file : String → Bool → Call
    env : String → Call
    flags : Option FlagSet → Call
    required_keys : List String → Call
    decode_hook : Option Hook → Call
    watch : Option Callback → Call

  abbrev pub option_of : Call → ConfigOption lib
  option_of (defaults m) = with_defaults lib m
  option_of (file path required) = with_file_if lib path required
  option_of (env prefix) = with_env lib prefix
  option_of (flags fs) = with_flags lib fs
  option_of (required_keys keys) = with_required_keys lib keys
  option_of (decode_hook h) = with_decode_hook lib h
  option_of (watch fn) = with_watch lib fn

  -- What one call adds to the settings when it succeeds, field by field.
  abbrev adds_defaults : Call → List Map
  adds_defaults (defaults m) = m ∷ []
  adds_defaults _ = []

  abbrev adds_files : Call → List FileSource
  adds_files (file path required) =
      record { path = path; ext = to_lower (ext path); required = required } ∷ []
  adds_files _ = []

  abbrev adds_envs : Call → List EnvSource
  adds_envs (env prefix) =
      record { prefix = String.◌++◌ (trim_right "_" prefix) env_separator } ∷ []
  adds_envs _ = []

  abbrev adds_flags : Call → List FlagSet
  adds_flags (flags (some fs)) = fs ∷ []
  adds_flags _ = []

  abbrev adds_keys : Call → List String
  adds_keys (required_keys keys) = keys
  adds_keys _ = []

  abbrev adds_hooks : Call → List Hook
  adds_hooks (decode_hook (some h)) = h ∷ []
  adds_hooks _ = []

  abbrev later_watch : Option Callback → Call → Option Callback
  later_watch before (watch (some fn)) = some fn
  later_watch before _ = before

  abbrev pub gather : {A : Type 0} → (Call → List A) → List Call → List A
  gather f [] = []
  gather f (c ∷ cs) = f c ++ gather f cs

  abbrev pub last_watch : Option Callback → List Call → Option Callback
  last_watch before [] = before
  last_watch before (c ∷ cs) = last_watch (later_watch before c) cs

  abbrev extend : Settings lib → Call → Settings lib
  extend s c = record {
    defaults = s.defaults ++ adds_defaults c;
    files = s.files ++ adds_files c;
    envs = s.envs ++ adds_envs c;
    flag_sets = s.flag_sets ++ adds_flags c;
    required_keys = s.required_keys ++ adds_keys c;
    hooks = s.hooks ++ adds_hooks c;
    watch = later_watch s.watch c;
  }

  abbrev collect : Settings lib → List Call → Settings lib
  collect s cs = record {
    defaults = s.defaults ++ gather adds_defaults cs;
    files = s.files ++ gather adds_files cs;
    envs = s.envs ++ gather adds_envs cs;
    flag_sets = s.flag_sets ++ gather adds_flags cs;
    required_keys = s.required_keys ++ gather adds_keys cs;
    hooks = s.hooks ++ gather adds_hooks cs;
    watch = last_watch s.watch cs;
  }

  with_file_if-ok :
      (s : Settings lib) (path : String) (required : Bool)
      → (with_file_if lib path required s).1 ≡ none
      → (with_file_if lib path required s).0 ≡ record s {
        files =
            s.files ++ record { path = path; ext = to_lower (ext path); required = required } ∷ [];
      }
  unfolding with_file_if
  with_file_if-ok s path required h = ground arith

  with_env-ok :
      (s : Settings lib) (prefix : String)
      → (with_env lib prefix s).1 ≡ none
      → (with_env lib prefix s).0 ≡ record s {
        envs = s.envs ++ record { prefix = String.◌++◌ (trim_right "_" prefix) env_separator } ∷ [];
      }
  unfolding with_env
  with_env-ok s prefix h = ground arith

  with_required_keys-ok :
      (s : Settings lib) (keys : List String)
      → (with_required_keys lib keys s).1 ≡ none
      → (with_required_keys lib keys s).0 ≡ record s { required_keys = s.required_keys ++ keys }
  unfolding with_required_keys
  with_required_keys-ok s keys h = ground arith

  option_of-extend :
      (s : Settings lib) (c : Call) → (option_of c s).1 ≡ none → (option_of c s).0 ≡ extend s c
  unfolding with_defaults with_flags with_decode_hook with_watch
  option_of-extend s (defaults m) h = simp append-nil
  option_of-extend s (file path required) h = with_file_if-ok s path required h ∙ simp append-nil
  option_of-extend s (env prefix) h = with_env-ok s prefix h ∙ simp append-nil
  option_of-extend s (flags none) h = cc
  option_of-extend s (flags (some fs)) h = simp append-nil
  option_of-extend s (required_keys keys) h = with_required_keys-ok s keys h ∙ simp append-nil
  option_of-extend s (decode_hook none) h = cc
  option_of-extend s (decode_hook (some x)) h = simp append-nil
  option_of-extend s (watch none) h = cc
  option_of-extend s (watch (some fn)) h = simp append-nil

  collect-extend :
      (s : Settings lib) (c : Call) (cs : List Call) → collect (extend s c) cs ≡ collect s (c ∷ cs)
  collect-extend s c cs = simp append_assoc

  -- Options that all succeed leave the settings collected call by call.
  apply-collect :
      (s t : Settings lib) (cs : List Call)
      → apply s (map option_of cs) ≡ (t, none)
      → t ≡ collect s cs
  unfolding apply
  apply-collect s t [] h = let same : t ≡ s = ground arith in same ∙ simp append-nil
  apply-collect s t (c ∷ cs) h = elim (Option-cases (option_of c s).1) [
    | inr (e, bad) ↦ ground arith
    | inl good ↦
        let rest : apply (option_of c s).0 (map option_of cs) ≡ (t, none) = ground arith in
        apply-collect (option_of c s).0 t cs rest
        ∙ (ap (λ u. collect u cs) (option_of-extend s c good) ∙ collect-extend s c cs)
  ]

  -- Two programs that make the same calls of each kind, in the same order within the kind.
  pub record SameCalls (xs ys : List Call) : Type 0 where
    pub same_defaults : gather adds_defaults xs ≡ gather adds_defaults ys
    pub same_files : gather adds_files xs ≡ gather adds_files ys
    pub same_envs : gather adds_envs xs ≡ gather adds_envs ys
    pub same_flags : gather adds_flags xs ≡ gather adds_flags ys
    pub same_keys : gather adds_keys xs ≡ gather adds_keys ys
    pub same_hooks : gather adds_hooks xs ≡ gather adds_hooks ys
    pub same_watch : last_watch none xs ≡ last_watch none ys

  collect_same :
      (xs ys : List Call)
      → SameCalls xs ys
      → collect (Settings.no_settings lib) xs ≡ collect (Settings.no_settings lib) ys
  collect_same xs ys same = λ i. record {
    defaults = same.same_defaults i;
    files = same.same_files i;
    envs = same.same_envs i;
    flag_sets = same.same_flags i;
    required_keys = same.same_keys i;
    hooks = same.same_hooks i;
    watch = same.same_watch i;
  }

  load_applied :
      (new_watcher : List String → Option Error) (world : Files Bytes) (s : Settings lib)
      (opts : List (ConfigOption lib))
      → apply (Settings.no_settings lib) opts ≡ (s, none)
      → load lib new_watcher world opts ≡ load_settings lib new_watcher world s
  unfolding load
  load_applied new_watcher world s opts h = ground arith

  -- Options of different kinds can be passed in any order: if both programs' options are accepted
  -- and each kind's calls agree, Load returns the same result or error.
  pub load_regroup :
      (new_watcher : List String → Option Error) (world : Files Bytes) (xs ys : List Call)
      (s t : Settings lib)
      → SameCalls xs ys
      → apply (Settings.no_settings lib) (map option_of xs) ≡ (s, none)
      → apply (Settings.no_settings lib) (map option_of ys) ≡ (t, none)
      → load lib new_watcher world (map option_of xs)
        ≡ load lib new_watcher world (map option_of ys)
  load_regroup new_watcher world xs ys s t same hx hy =
      let agree : s ≡ t =
        apply-collect (Settings.no_settings lib) s xs hx
        ∙ (collect_same xs ys same ∙ sym (apply-collect (Settings.no_settings lib) t ys hy)) in
      load_applied new_watcher world s (map option_of xs) hx
      ∙ (ap (load_settings lib new_watcher world) agree
          ∙ sym (load_applied new_watcher world t (map option_of ys) hy))
