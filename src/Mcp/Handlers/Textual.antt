-- ===== src/Mcp/Handlers/Textual.antt =====
-- mcp/resource.go, isTextual: whether a resource travels as text, by its MIME type. White space is
-- ASCII's.
use Prim.Native.Char.{Char, code}
use goga.Prelude.{String, Bool, true, false, ◌||◌, ◌==◌, none, some, ◌&&◌, leb, eqb, if◌then◌else◌}
use goga.Strings.{to_lower, cut_prefix}

-- The characters that strings.TrimSpace removes: tab to carriage return, and the space
abbrev pub is_space : Char → Bool
is_space c = eqb (code c) 32 || leb 9 (code c) && leb (code c) 13

unfoldable pub trim_left : String → String
trim_left String.[] = ""
trim_left (String.◌∷◌ c s) = let rest = trim_left s in if is_space c then rest else String.◌∷◌ c s

unfoldable pub keep_space : Char → String → String
keep_space c String.[] = if is_space c then "" else String.◌∷◌ c ""
keep_space c (String.◌∷◌ d s) = String.◌∷◌ c (String.◌∷◌ d s)

unfoldable pub trim_end : String → String
unfolding keep_space
trim_end String.[] = ""
trim_end (String.◌∷◌ c s) = keep_space c (trim_end s)

-- strings.TrimSpace
unfoldable pub trim_space : String → String
unfolding trim_left trim_end
trim_space s = trim_end (trim_left s)

-- The first result of strings.Cut(s, ";")
unfoldable pub before_semicolon : String → String
before_semicolon String.[] = ""
before_semicolon (String.◌∷◌ c s) =
    if eqb (code c) b';' then "" else String.◌∷◌ c (before_semicolon s)

-- strings.HasPrefix and strings.HasSuffix
unfoldable pub has_prefix : String → String → Bool
unfolding cut_prefix
has_prefix p s = elim (cut_prefix p s) [ none ↦ false | some rest ↦ true ]

unfoldable pub has_suffix : String → String → Bool
has_suffix suffix String.[] = suffix == ""
has_suffix suffix (String.◌∷◌ c s) = suffix == String.◌∷◌ c s || has_suffix suffix s

-- `isTextual`
unfoldable pub is_textual : String → Bool
unfolding trim_space before_semicolon to_lower has_prefix has_suffix
is_textual mime =
    let base = trim_space (to_lower (before_semicolon mime)) in
    has_prefix "text/" base
    || (base == "application/json" || base == "application/xml" || base == "application/yaml")
    || (has_suffix "+json" base || has_suffix "+xml" base || has_suffix "+yaml" base)
