-- ===== src/Tests/ConfigRuns.antt =====
-- config/ over a library whose maps are flat lists of keys with numbers.
use goga.Prelude.{
  ℕ, ◌≡◌, refl, sym, inl, inr, String, Bool, Bool-cases, true, false, Option, none, some, List, [],
  ◌∷◌, ◌++◌, All, Listed, arith, map, if◌then◌else◌, ◌==◌, eq_iff, length,
}
use goga.Prelude.Dict.{Dict, lookup, insert, keys}
use goga.Prelude.Texts.{text_leb}
use goga.Sorting.{sort_strings, place}
use goga.Errors.{ok, err, raw}
use goga.Options.{apply}
use goga.Strings.{
  to_lower, replace_pair, trim_right, cut_prefix, ext, ext_from, trim_step, translate, lower_char,
}
use goga.Config.Keys.{parent_paths, prefixes, split, join, take}
use goga.Config.Failure
use goga.Config.Failure.{missing_keys, foreign}
use goga.Config.Library.{Library, Files, content, not_exist}
use goga.Config.Guard.{add, add_keys, add_key, owned_parent, add_branches, record_key}
use goga.Config.Settings
use goga.Config.Settings.{
  Source, ConfigOption, Settings, defaults_source, env_source, file_source, flags_source,
  sources_in_house_order,
}
use goga.Config.Load
use goga.Config.Load.{
  Config, Event, Merge, build, check_and_decode, decode, load, load_settings, reload, merge_sources,
  start_merge,
}
use goga.Config.Load.Precedence.{MergeLaws, Silent, last_source_wins}
use goga.Config.Load.Outcomes.{IsExclusive, reload-IsExclusive, load_complete, reload-load}
use goga.Config.Load.Order
use goga.Config.Load.Order.{SameCalls, option_of, load_regroup}

abbrev has : Option ℕ → Bool
has none = false
has (some n) = true

-- Flags that the command line does not give: the defaults of those that are not there.
abbrev absent : Dict ℕ → Dict ℕ → Dict ℕ
absent [] k = []
absent ((key, n) ∷ fs) k =
    let rest = absent fs k in if has (lookup key k) then rest else (key, n) ∷ rest

-- The environment has one variable, and the decoder gives the number of hooks and the handle.
abbrev flat_maps : Library
flat_maps = record {
  Map = Dict ℕ;
  Handle = Dict ℕ;
  FlagSet = Dict ℕ;
  Hook = ℕ;
  Bytes = Dict ℕ;
  Value = ℕ × Dict ℕ;
  Callback = ℕ;
  unflatten = λ m. ok (some m);
  unmarshal = λ e bytes. ok (some bytes);
  read_env = λ prefix transform. ok (
      some (elim (transform "APP__DB__PORT" "7").1 [
        | none ↦ []
        | some v ↦ ((transform "APP__DB__PORT" "7").0, 7) ∷ []
      ]));
  read_flags = λ fs k name. ok (some (absent fs k));
  flatten = keys;
  new_handle = [];
  merge = λ k m. ok (m ++ k);
  exists = λ k key. has (lookup key k);
  duration_hook = 100;
  slice_hook = 101;
  unmarshal_with = λ k hooks. ok (length hooks, k);
}

lookup_append-some :
    (key : String) (v : ℕ) (m k : Dict ℕ) → lookup key m ≡ some v → lookup key (m ++ k) ≡ some v
unfolding lookup
lookup_append-some key v [] k h = cc
lookup_append-some key v ((j, w) ∷ m) k h = ground (arith, lookup_append-some key v m k)

lookup_append-none :
    (key : String) (m k : Dict ℕ) → lookup key m ≡ none → lookup key (m ++ k) ≡ lookup key k
unfolding lookup
lookup_append-none key [] k h = refl
lookup_append-none key ((j, w) ∷ m) k h = ground (arith, lookup_append-none key m k)

lookup-Listed : (key : String) (v : ℕ) (m : Dict ℕ) → lookup key m ≡ some v → Listed key (keys m)
unfolding lookup keys
lookup-Listed key v [] h = cc
lookup-Listed key v ((j, w) ∷ m) h = elim (Bool-cases (j == key)) [
  | inl same ↦ inl (ground (arith, eq_iff j key))
  | inr other ↦ inr (lookup-Listed key v m (ground arith))
]

ok_inv : {a b : Dict ℕ} → ◌≡◌ {A = Failure.Result (Dict ℕ)} (ok a) (ok b) → a ≡ b
ok_inv h = ground arith

abbrev flat_laws : MergeLaws flat_maps
flat_laws = record {
  Datum = ℕ;
  value_at = λ k key. lookup key k;
  entry = λ m key. lookup key m;
  entry_listed = λ m key v h. lookup-Listed key v m h;
  merge_new =
      λ k k' m key v merged set. rw (sym (ok_inv merged)) (lookup_append-some key v m k set);
  merge_old =
      λ k k' m key merged unset apart. rw (sym (ok_inv merged)) (lookup_append-none key m k unset);
}

abbrev files : Files (Dict ℕ)
files path = if path == "app.yaml" then content (("db.port", 5) ∷ ("name", 2) ∷ []) else not_exist

abbrev app_file : Settings.FileSource
app_file = record { path = "app.yaml"; ext = ".yaml"; required = true }

abbrev local_file : Settings.FileSource
local_file = record { path = "local.yaml"; ext = ".yaml"; required = false }

abbrev defaults_first : List (Source flat_maps)
defaults_first = defaults_source flat_maps (("db.port", 1) ∷ ("db.host", 3) ∷ []) ∷ []

-- WithRequiredFile, WithDefaults and the others, in two orders
abbrev calls_one : List (Order.Call flat_maps)
calls_one =
    Order.defaults (("db.port", 1) ∷ ("db.host", 3) ∷ [])
    ∷ Order.file "app.yaml" true
    ∷ Order.env "APP_"
    ∷ Order.required_keys ("db.port" ∷ "name" ∷ [])
    ∷ Order.file "local.yaml" false
    ∷ []

abbrev calls_two : List (Order.Call flat_maps)
calls_two =
    Order.env "APP_"
    ∷ Order.file "app.yaml" true
    ∷ Order.file "local.yaml" false
    ∷ Order.required_keys ("db.port" ∷ "name" ∷ [])
    ∷ Order.defaults (("db.port", 1) ∷ ("db.host", 3) ∷ [])
    ∷ []

abbrev no_watcher : List String → Option Failure.Error
no_watcher paths = some (raw (foreign 9))

loading : Unit {0}
unfolding add add_keys add_key owned_parent add_branches record_key sort_strings place text_leb
    parent_paths prefixes split join take lookup insert keys merge_sources Load.merge_source
    Load.merge_read Load.merge_map defaults_source file_source env_source flags_source
    Settings.read_file sources_in_house_order Settings.with_defaults Settings.with_file_if
    Settings.with_env Settings.with_required_keys Settings.first_empty Settings.transform
    Settings.missing Settings.missing_keys Settings.decode_hooks to_lower ext ext_from trim_right
    trim_step cut_prefix replace_pair translate lower_char apply build decode check_and_decode load
    load_settings Load.watch_if_asked Load.start_watching reload Load.finish_reload
loading = tt

abbrev all_maps : Dict ℕ
all_maps = ("db.port", 7) ∷ ("db.port", 5) ∷ ("name", 2) ∷ ("db.port", 1) ∷ ("db.host", 3) ∷ []

abbrev asked : Settings flat_maps
asked = record {
  defaults = (("db.port", 1) ∷ ("db.host", 3) ∷ []) ∷ [];
  files = app_file ∷ local_file ∷ [];
  envs = record { prefix = "APP__" } ∷ [];
  flag_sets = [];
  required_keys = "db.port" ∷ "name" ∷ [];
  hooks = [];
  watch = none;
}

abbrev loaded : Config flat_maps
loaded = record { value = (2, all_maps); k = all_maps; set = asked; watched = none }

load_run : load flat_maps no_watcher files (map (option_of flat_maps) calls_one) ≡ ok loaded
unfolding loading
load_run = refl

abbrev after_defaults : Merge flat_maps
after_defaults = record {
  k = ("db.port", 1) ∷ ("db.host", 3) ∷ [];
  guard = record {
    leaves = ("db.host", "defaults") ∷ ("db.port", "defaults") ∷ [];
    branches = ("db", record { leaf = "db.host"; source = "defaults" }) ∷ [];
  };
  merged = "defaults" ∷ [];
}

abbrev after_file : Merge flat_maps
after_file = record {
  k = ("db.port", 5) ∷ ("name", 2) ∷ ("db.port", 1) ∷ ("db.host", 3) ∷ [];
  guard = record {
    leaves =
        ("db.host", "defaults") ∷ ("db.port", "file:app.yaml") ∷ ("name", "file:app.yaml") ∷ [];
    branches = ("db", record { leaf = "db.host"; source = "defaults" }) ∷ [];
  };
  merged = "defaults" ∷ "file:app.yaml" ∷ [];
}

-- An optional file that is not there, and a flag that the command line does not give
abbrev quiet_last : List (Source flat_maps)
quiet_last =
    file_source flat_maps files local_file ∷ flags_source flat_maps (("db.port", 9) ∷ []) ∷ []

abbrev after_flags : Merge flat_maps
after_flags = record after_file { merged = "defaults" ∷ "file:app.yaml" ∷ "flags" ∷ [] }

absent-none :
    (key : String) (v : ℕ) (fs k : Dict ℕ) → lookup key k ≡ some v → lookup key (absent fs k) ≡ none
unfolding lookup
absent-none key v [] k h = refl
absent-none key v ((j, n) ∷ fs) k h = ground (arith, absent-none key v fs k h, eq_iff j key)

quiet-Silent : All (Silent flat_maps flat_laws "db.port" 5) quiet_last
unfolding loading
quiet-Silent = (
  (λ k mp v h. ground arith),
  (
    (λ k mp v h.
        let same : mp ≡ absent (("db.port", 9) ∷ []) k = ground arith in
        rw same (absent-none "db.port" 5 (("db.port", 9) ∷ []) k v)),
    tt,
  ),
)

last_source_wins_example : lookup "db.port" after_flags.k ≡ some 5
unfolding loading
last_source_wins_example =
    last_source_wins flat_maps flat_laws defaults_first quiet_last
      (file_source flat_maps files app_file) after_defaults after_flags
      (("db.port", 5) ∷ ("name", 2) ∷ []) "db.port" 5 refl refl refl quiet-Silent refl

load_regroup_example :
    load flat_maps no_watcher files (map (option_of flat_maps) calls_one)
    ≡ load flat_maps no_watcher files (map (option_of flat_maps) calls_two)
unfolding loading
load_regroup_example =
    load_regroup flat_maps no_watcher files calls_one calls_two asked asked
      (record {
        same_defaults = refl;
        same_files = refl;
        same_envs = refl;
        same_flags = refl;
        same_keys = refl;
        same_hooks = refl;
        same_watch = refl;
      })
      refl refl

load_complete_example :
    All (λ key. flat_maps.exists all_maps key ≡ true) ("db.port" ∷ "name" ∷ [])
    × (decode flat_maps all_maps asked ≡ ok (2, all_maps))
    × (apply (Settings.no_settings flat_maps) (map (option_of flat_maps) calls_one) ≡ (asked, none))
load_complete_example =
    load_complete flat_maps no_watcher files (map (option_of flat_maps) calls_one) loaded load_run

settings_run : load_settings flat_maps no_watcher files asked ≡ ok loaded
unfolding loading
settings_run = refl

reload-load_example :
    reload flat_maps files asked "app.yaml" none
    ≡ record { path = "app.yaml"; k = some all_maps; value = some (2, all_maps); err = none }
reload-load_example = reload-load flat_maps no_watcher files asked "app.yaml" loaded settings_run

reload-IsExclusive_example :
    IsExclusive flat_maps (reload flat_maps (λ path. not_exist) asked "app.yaml" none)
reload-IsExclusive_example = reload-IsExclusive flat_maps (λ path. not_exist) asked "app.yaml" none

missing_run :
    check_and_decode flat_maps (("name", 2) ∷ []) asked ≡ err (raw (missing_keys ("db.port" ∷ [])))
unfolding loading
missing_run = refl
