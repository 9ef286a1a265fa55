-- ===== src/Config/Library.antt =====
-- What config/ calls outside the repository: koanf with its providers and parsers, pflag and
-- mapstructure; and the files that os.ReadFile finds.
use goga.Prelude.{ℕ, String, List, Option, Bool}
use goga.Config.Failure.{Result}

pub record Library : Type 1 where
  -- `map[string]any`, `*koanf.Koanf`, `*pflag.FlagSet`, a decode hook, a file's bytes, the decoded
  -- struct, the callback of WithWatch
  pub Map : Type 0
  pub Handle : Type 0
  pub FlagSet : Type 0
  pub Hook : Type 0
  pub Bytes : Type 0
  pub Value : Type 0
  pub Callback : Type 0
  -- The maps that the providers and the parsers read; `none` is a nil map.
  -- confmap.Provider(m, delim).Read()
  pub unflatten : Map → Result (Option Map)
  -- parsers[ext]().Unmarshal
  pub unmarshal : String → Bytes → Result (Option Map)
  -- env.Provider with a prefix and a transform, read
  pub read_env : String → (String → String → String × Option String) → Result (Option Map)
  -- posflag.ProviderWithFlag, whose callback names the key of a flag, read
  pub read_flags : FlagSet → Handle → (String → String) → Result (Option Map)
  -- the keys of maps.Flatten
  pub flatten : Map → List String
  -- koanf.New(delim), k.Load(confmap.Provider(mp, "")), k.Exists
  pub new_handle : Handle
  pub merge : Handle → Map → Result Handle
  pub exists : Handle → String → Bool
  -- StringToTimeDurationHookFunc and StringToSliceHookFunc(","), UnmarshalWithConf
  pub duration_hook : Hook
  pub slice_hook : Hook
  pub unmarshal_with : Handle → List Hook → Result Value

-- What os.ReadFile answers for a path: the content, fs.ErrNotExist, or another error.
pub data FileContent {ℓ} (B : Type ℓ) : Type ℓ where
  content : B → FileContent B
  not_exist : FileContent B
  unreadable : ℕ → FileContent B

abbrev pub Files : Type 0 → Type 0
Files B = String → FileContent B
