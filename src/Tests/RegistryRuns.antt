-- ===== src/Tests/RegistryRuns.antt =====
-- registry/ and goga.go: a registry of two adapters for one port.
use goga.Prelude.{ℕ, suc, ◌≡◌, refl, ◌↔◌, none, some, List, [], ◌∷◌, ◌+◌}
use goga.Prelude.Dict.{lookup, insert}
use goga.Errors.{ok, err, raw}
use goga.Options.{Setter}
use goga.Registry.{
  Failure, foreign, Raw, Constructor, Entry, Registry, register, provide, open_port, entry_open,
  decode_settings, adapter_open,
}
use goga.Registry.Names.{Registration, register_all, first_under, or_else, first_registration_wins}
use goga.Registry.Opening.{Opens, open_port-ok_iff}
use goga.Registry.Handles.{handle_opens}

abbrev double : Constructor ℕ
double n = ok (n + n)

abbrev refuse : Constructor ℕ
refuse n = err (raw (foreign n))

-- The decoder counts the raw settings.
abbrev count : ℕ → Raw ℕ → ℕ
count n [] = n
count n (x ∷ xs) = count (suc n) xs

abbrev zero_of : ℕ → ℕ
zero_of t = 0

abbrev empty : Registry ℕ
empty = record { decode = λ raw_settings t. ok (count 0 raw_settings); entries = [] }

abbrev calls : List (Registration ℕ)
calls =
    record { name = "s3"; port = 1; settings = 7; ctor = some double }
    ∷ record { name = "file"; port = 1; settings = 8; ctor = some refuse }
    ∷ record { name = "s3"; port = 2; settings = 7; ctor = some refuse }
    ∷ []

abbrev full : Registry ℕ
unfolding register_all register
full = register_all ℕ empty calls

abbrev settings : Raw ℕ
settings = ("bucket", 3) ∷ ("region", 4) ∷ []

abbrev s3 : Entry ℕ
s3 = record { port = 1; settings = 7; ctor = double }

first_registration_wins_example :
    lookup "s3" (register_all ℕ empty calls).entries
    ≡ or_else ℕ (lookup "s3" empty.entries) (first_under ℕ "s3" calls)
first_registration_wins_example = first_registration_wins ℕ empty calls "s3"

open_port-ok_iff_example :
    ((open_port ℕ zero_of full 1 "s3" settings).1 ≡ ok 4) ↔ Opens ℕ zero_of full 1 "s3" settings 4
open_port-ok_iff_example = open_port-ok_iff ℕ zero_of full 1 "s3" settings 4

open_port_run : (open_port ℕ zero_of full 1 "s3" settings).1 ≡ ok 4
unfolding register_all register open_port entry_open decode_settings lookup insert
open_port_run = refl

handle_opens_example :
    adapter_open ℕ zero_of
      (λ a. full)
      (provide ℕ zero_of 5 empty "s3" 1 7 (some double)).1
      settings
      []
    ≡ open_port ℕ zero_of full 1 "s3" settings
unfolding register_all provide register lookup insert
handle_opens_example =
    handle_opens ℕ zero_of (λ a. full) 5 empty "s3" 1 7 double
      (record { name = "file"; port = 1; settings = 8; ctor = some refuse }
        ∷ record { name = "s3"; port = 2; settings = 7; ctor = some refuse }
        ∷ [])
      settings refl refl

-- An option that sets the value, and one that fails after changing it.
abbrev set_to : ℕ → Setter Failure ℕ
set_to n s = (n, none)

abbrev fails : ℕ → Setter Failure ℕ
fails n s = (s + n, some (raw (foreign n)))
