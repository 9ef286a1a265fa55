-- ===== src/Config/Failure.antt =====
-- config/errors.go: what Load and the options can report.
use goga.Prelude.{ℕ, String, List, Bool, true, false}
use goga.Errors

pub data Failure : Type 0 where
  missing_keys : List String → Failure
  -- The scalar key and its source, the nested key and its source.
  colliding_keys : String → String → String → String → Failure
  unsupported_format : String → String → List String → Failure
  empty_env_prefix nil_flag_set nil_watch nil_decode_hook empty_path : Failure
  empty_required_key : ℕ → Failure
  -- An error of a parser, a provider or the decoder.
  foreign : ℕ → Failure

abbrev pub Result : Type 0 → Type 0
Result A = Errors.Result Failure A

abbrev pub Error : Type 0
Error = Errors.Error Failure

-- The three Is methods: which failures match the package's sentinels.
unfoldable pub is_missing_keys : Failure → Bool
is_missing_keys (missing_keys keys) = true
is_missing_keys _ = false

unfoldable pub is_colliding_keys : Failure → Bool
is_colliding_keys (colliding_keys scalar scalar_source nested nested_source) = true
is_colliding_keys _ = false

unfoldable pub is_unsupported_format : Failure → Bool
is_unsupported_format (unsupported_format path ext supported) = true
is_unsupported_format _ = false
