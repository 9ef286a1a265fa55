-- ===== src/Strings.antt =====
-- What the repository uses of Go's packages strings and path/filepath, on code points. ToLower is
-- modelled on ASCII letters, which is all that a file extension, a variable name or a route holds;
-- other letters are left as they are.
use Prim.Native.Char.{Char, code}
use goga.Prelude.{String, ◌&&◌, Option, none, some, eqb, if◌then◌else◌}

-- The character that stands in `lowers` where `c` stands in `uppers`.
unfoldable pub translate : String → String → Char → Char
translate String.[] lowers c = c
translate (String.◌∷◌ u uppers) String.[] c = c
translate (String.◌∷◌ u uppers) (String.◌∷◌ l lowers) c =
    if eqb (code c) (code u) then l else translate uppers lowers c

unfoldable pub lower_char : Char → Char
unfolding translate
lower_char = translate "ABCDEFGHIJKLMNOPQRSTUVWXYZ" "abcdefghijklmnopqrstuvwxyz"

-- strings.ToLower
unfoldable pub to_lower : String → String
unfolding lower_char
to_lower String.[] = ""
to_lower (String.◌∷◌ c s) = String.◌∷◌ (lower_char c) (to_lower s)

-- strings.ReplaceAll(s, from, to) for one-character texts.
unfoldable pub replace_char : Char → Char → String → String
replace_char from to String.[] = ""
replace_char from to (String.◌∷◌ c s) =
    String.◌∷◌ (if eqb (code c) (code from) then to else c) (replace_char from to s)

-- strings.ReplaceAll(s, from + from, to), from the left.
unfoldable pub replace_pair : Char → Char → String → String
replace_pair from to String.[] = ""
replace_pair from to (String.◌∷◌ c String.[]) = String.◌∷◌ c ""
replace_pair from to (String.◌∷◌ c (String.◌∷◌ d s)) =
    let replaced = replace_pair from to s in
    let kept = replace_pair from to (String.◌∷◌ d s) in
    if eqb (code c) (code from) && eqb (code d) (code from)
    then String.◌∷◌ to replaced
    else String.◌∷◌ c kept

unfoldable pub trim_step : Char → Char → String → String
trim_step cut c String.[] = if eqb (code c) (code cut) then "" else String.◌∷◌ c ""
trim_step cut c (String.◌∷◌ d s) = String.◌∷◌ c (String.◌∷◌ d s)

-- strings.TrimRight(s, cut) for a cutset of one character.
unfoldable pub trim_right : Char → String → String
unfolding trim_step
trim_right cut String.[] = ""
trim_right cut (String.◌∷◌ c s) = trim_step cut c (trim_right cut s)

-- strings.CutPrefix
unfoldable pub cut_prefix : String → String → Option String
cut_prefix String.[] s = some s
cut_prefix (String.◌∷◌ c p) String.[] = none
cut_prefix (String.◌∷◌ c p) (String.◌∷◌ d s) =
    if eqb (code c) (code d) then cut_prefix p s else none

-- filepath.Ext, with the text from the last dot of the element that is being read.
unfoldable pub ext_from : String → String → String
ext_from suffix String.[] = suffix
ext_from suffix (String.◌∷◌ c s) =
    ext_from
      (if eqb (code c) b'/' then "" else if eqb (code c) b'.' then String.◌∷◌ c s else suffix) s

unfoldable pub ext : String → String
unfolding ext_from
ext path = ext_from "" path
