-- ===== src/Config/Settings.antt =====
-- config/options.go: the settings, the options that fill them and the order of the sources.
use Prim.Native.String
use goga.Prelude.{
  ℕ, suc, ◌+◌, String, Bool, true, false, Option, none, some, List, [], ◌∷◌, ◌++◌, map, ◌==◌, ◌||◌,
  if◌then◌else◌,
}
use goga.Errors.{ok, err, raw}
use goga.Options.{Setter}
use goga.Strings.{to_lower, replace_char, replace_pair, trim_right, cut_prefix, ext}
use goga.Config.Failure.{
  Failure, Result, unsupported_format, empty_env_prefix, nil_flag_set, nil_watch, nil_decode_hook,
  empty_path, empty_required_key, foreign,
}
use goga.Config.Library.{Library, Files, content, not_exist, unreadable}

-- The keys of `parsers`, sorted.
abbrev pub supported_extensions : List String
supported_extensions = ".json" ∷ ".toml" ∷ ".yaml" ∷ ".yml" ∷ []

-- `_, ok := parsers[ext]`
abbrev pub has_parser : String → Bool
has_parser e = e == ".yaml" || e == ".yml" || e == ".json" || e == ".toml"

abbrev pub env_separator : String
env_separator = "__"

pub data SourceKind : Type 0 where
  kind_defaults kind_file kind_env kind_flags : SourceKind

pub record FileSource : Type 0 where
  pub path : String
  pub ext : String
  pub required : Bool

-- `environ` overrides os.Environ in the package's own tests only, and is left out.
pub record EnvSource : Type 0 where
  pub prefix : String

-- `envSource.transform`
unfoldable pub transform : EnvSource → String → String → String × Option String
unfolding cut_prefix to_lower replace_pair
transform e key value = elim (cut_prefix e.prefix key) [
  | none ↦ ("", none)
  | some rest ↦
      if rest == "" then ("", none) else (to_lower (replace_pair "_" "." rest), some value)
]

-- The key of `flagKey`, for a flag's name.
unfoldable pub flag_key : String → String
unfolding replace_char
flag_key name = replace_char "-" "_" name

module _ (lib : Library) where
  open lib use {
    Map, Handle, FlagSet, Hook, Bytes, Callback, unflatten, unmarshal, read_env, read_flags, exists,
    duration_hook, slice_hook,
  }

  pub record Settings : Type 0 where
    pub defaults : List Map
    pub files : List FileSource
    pub envs : List EnvSource
    pub flag_sets : List FlagSet
    pub required_keys : List String
    pub hooks : List Hook
    pub watch : Option Callback

  -- `source`
  pub record Source : Type 0 where
    pub kind : SourceKind
    pub name : String
    pub read : Handle → Result (Option Map)

  unfoldable pub defaults_source : Map → Source
  defaults_source m = record { kind = kind_defaults; name = "defaults"; read = λ k. unflatten m }

  -- `fileSource.read`; an optional file that is not there is no map.
  unfoldable pub read_file : Files Bytes → FileSource → Result (Option Map)
  read_file files f = elim (files f.path) [
    | content bytes ↦ unmarshal f.ext bytes
    | not_exist ↦ if f.required then err (raw (foreign 0)) else ok none
    | unreadable code ↦ err (raw (foreign (suc code)))
  ]

  unfoldable pub file_source : Files Bytes → FileSource → Source
  unfolding read_file
  file_source files f = record {
    kind = kind_file;
    name = String.◌++◌ "file:" f.path;
    read = λ k. read_file files f;
  }

  unfoldable pub env_source : EnvSource → Source
  env_source e = record {
    kind = kind_env;
    name = String.◌++◌ "env:" e.prefix;
    read = λ k. read_env e.prefix (transform e);
  }

  unfoldable pub flags_source : FlagSet → Source
  flags_source fs = record {
    kind = kind_flags;
    name = "flags";
    read = λ k. read_flags fs k flag_key;
  }

  unfoldable pub sources_in_house_order : Files Bytes → Settings → List Source
  unfolding defaults_source file_source env_source flags_source
  sources_in_house_order files s =
      map defaults_source s.defaults
      ++ (map (file_source files) s.files
          ++ (map env_source s.envs ++ map flags_source s.flag_sets))

  unfoldable pub missing : Handle → List String → List String
  missing k [] = []
  missing k (key ∷ keys) = let rest = missing k keys in if exists k key then rest else key ∷ rest

  -- `missingKeys`
  unfoldable pub missing_keys : Settings → Handle → List String
  unfolding missing
  missing_keys s k = missing k s.required_keys

  unfoldable pub decode_hooks : Settings → List Hook
  decode_hooks s = s.hooks ++ duration_hook ∷ slice_hook ∷ []

  -- `defaults`
  abbrev pub no_settings : Settings
  no_settings = record {
    defaults = [];
    files = [];
    envs = [];
    flag_sets = [];
    required_keys = [];
    hooks = [];
    watch = none;
  }

  abbrev pub ConfigOption : Type 0
  ConfigOption = Setter Failure Settings

  unfoldable pub with_defaults : Map → ConfigOption
  with_defaults m s = (record s { defaults = s.defaults ++ m ∷ [] }, none)

  -- `withFile`
  unfoldable pub with_file_if : String → Bool → ConfigOption
  unfolding ext to_lower
  with_file_if path required s =
      let e = to_lower (ext path) in
      if path == ""
      then (s, some (raw empty_path))
      else if has_parser e
      then (
        record s { files = s.files ++ record { path = path; ext = e; required = required } ∷ [] },
        none,
      )
      else (s, some (raw (unsupported_format path (ext path) supported_extensions)))

  unfoldable pub with_file : String → ConfigOption
  unfolding with_file_if
  with_file path = with_file_if path false

  unfoldable pub with_required_file : String → ConfigOption
  unfolding with_file_if
  with_required_file path = with_file_if path true

  unfoldable pub with_env : String → ConfigOption
  unfolding trim_right
  with_env prefix s =
      let trimmed = trim_right "_" prefix in
      if trimmed == "" then (s, some (raw empty_env_prefix)) else (
        record s { envs = s.envs ++ record { prefix = String.◌++◌ trimmed env_separator } ∷ [] },
        none,
      )

  unfoldable pub with_flags : Option FlagSet → ConfigOption
  with_flags none s = (s, some (raw nil_flag_set))
  with_flags (some fs) s = (record s { flag_sets = s.flag_sets ++ fs ∷ [] }, none)

  -- The loop of WithRequiredKeys: the index of the first empty key.
  unfoldable pub first_empty : ℕ → List String → Option ℕ
  first_empty i [] = none
  first_empty i (key ∷ keys) =
      let later = first_empty (i + 1) keys in if key == "" then some i else later

  unfoldable pub with_required_keys : List String → ConfigOption
  unfolding first_empty
  with_required_keys keys s = elim (first_empty 0 keys) [
    | some i ↦ (s, some (raw (empty_required_key i)))
    | none ↦ (record s { required_keys = s.required_keys ++ keys }, none)
  ]

  unfoldable pub with_decode_hook : Option Hook → ConfigOption
  with_decode_hook none s = (s, some (raw nil_decode_hook))
  with_decode_hook (some h) s = (record s { hooks = s.hooks ++ h ∷ [] }, none)

  unfoldable pub with_watch : Option Callback → ConfigOption
  with_watch none s = (s, some (raw nil_watch))
  with_watch (some fn) s = (record s { watch = some fn }, none)
