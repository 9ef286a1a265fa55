-- ===== src/Config/Keys.antt =====
-- Key paths (config/config.go): segments joined by the delimiter, and the parents of a path.
pub mod Laws
use Prim.Native.Char.{Char, code}
use Prim.Native.String
use goga.Prelude.{ℕ, zero, suc, ◌+◌, ◌-◌, String, List, [], ◌∷◌, length, ltb, eqb, if◌then◌else◌}

-- `delim`, the constant of config/options.go.
abbrev pub delim : Char
delim = "."

-- `delim + s`
abbrev pub after_delim : String → String
after_delim s = String.◌∷◌ delim s

abbrev push_head : Char → List String → List String
push_head c [] = String.◌∷◌ c "" ∷ []
push_head c (part ∷ parts) = String.◌∷◌ c part ∷ parts

-- strings.Split(key, delim)
unfoldable pub split : String → List String
split String.[] = "" ∷ []
split (String.◌∷◌ c s) =
    let parts = split s in if eqb (code c) (code delim) then "" ∷ parts else push_head c parts

-- strings.Join(parts, delim)
unfoldable pub join : List String → String
join [] = ""
join (part ∷ []) = part
join (part ∷ next ∷ parts) = String.◌++◌ part (after_delim (join (next ∷ parts)))

-- `parts[:i]`
unfoldable pub take : ℕ → List String → List String
take zero parts = []
take (suc i) [] = []
take (suc i) (part ∷ parts) = part ∷ take i parts

-- The loop of parentPaths from `i`, with the rounds that are left.
unfoldable pub prefixes : List String → ℕ → ℕ → List String
prefixes parts i zero = []
prefixes parts i (suc rounds) = join (take i parts) ∷ prefixes parts (i + 1) rounds

unfoldable pub parent_paths : String → List String
unfolding prefixes split join take
parent_paths key =
    let parts = split key in
    if ltb (length parts) 2 then [] else prefixes parts 1 (length parts - 1)
