-- ===== src/Base/Text.antt =====
-- Python's text methods that the program uses. `lower` knows the letters of ASCII and Latin-1, the
-- alphabet of the program's messages; it leaves every other character as it is.
use Prim.Native.Nat.{ℕ, zero, suc, ◌+◌, ◌-◌, ◌*◌}
use Prim.Native.Char.{Char, code}
use Prim.Native.String.{String, [], ◌∷◌, ◌++◌, len, find}
use mathlib.Core.Path.{◌≡◌, refl}
use mathlib.Core.Bool.{Bool, true, false, not, ◌&&◌, ◌||◌}
use mathlib.Core.Option
use mathlib.Core.Option.{Option, none, some}
use mathlib.Core.List.{List}
use text.Mathlib.Text.{◌==◌ as str_eq}
use new_backup_center.Base.Tests.{ltb, leb, ◌==◌, if◌then◌else◌}
use new_backup_center.Base.Lists.{any}
use new_backup_center.Base.Int.{ℤ, pos, negsuc}

-- the character at the place in `upper` has its partner at that place in `small`
translate : String → String → Char → Char
translate [] small c = c
translate (u ∷ upper) [] c = c
translate (u ∷ upper) (l ∷ small) c = if code u == code c then l else translate upper small c

lower_char : Char → Char
unfolding translate
lower_char =
    translate "ABCDEFGHIJKLMNOPQRSTUVWXYZÀÁÂÃÄÅÆÇÈÉÊËÌÍÎÏÐÑÒÓÔÕÖØÙÚÛÜÝÞ"
      "abcdefghijklmnopqrstuvwxyzàáâãäåæçèéêëìíîïðñòóôõöøùúûüýþ"

unfoldable pub lower : String → String
unfolding lower_char
lower [] = []
lower (c ∷ s) = lower_char c ∷ lower s

-- `str.isspace` of one character
unfoldable pub is_space : Char → Bool
is_space c =
    let n = code c in
    (leb 9 n && leb n 13)
    || (leb 28 n && leb n 32)
    || (n == 0x85)
    || (n == 0xa0)
    || (n == 0x1680)
    || (leb 0x2000 n && leb n 0x200a)
    || (n == 0x2028)
    || (n == 0x2029)
    || (n == 0x202f)
    || (n == 0x205f)
    || (n == 0x3000)

unfoldable pub lstrip : String → String
unfolding is_space
lstrip [] = []
lstrip (c ∷ s) = let rest = lstrip s in if is_space c then rest else c ∷ s

unfoldable pub rstrip : String → String
unfolding is_space
rstrip [] = []
rstrip (c ∷ s) = let rest = rstrip s in if is_space c && str_eq rest "" then "" else c ∷ rest

unfoldable pub strip : String → String
unfolding lstrip rstrip
strip s = lstrip (rstrip s)

-- `marker in s`
unfoldable pub contains : String → String → Bool
contains s marker = leb (find s marker) (len s)

-- `any(marker in s for marker in markers)`
unfoldable pub contains_any : String → List String → Bool
unfolding contains any
contains_any s markers = any (contains s) markers

-- `s in {...}`
unfoldable pub is_in : String → List String → Bool
unfolding any
is_in s values = any (str_eq s) values

-- `str(value or "")`
abbrev pub str_or_empty : Option String → String
str_or_empty none = ""
str_or_empty (some s) = s

-- `str(value or "").strip().lower()`
unfoldable pub normalize : Option String → String
unfolding strip lower
normalize s = lower (strip (str_or_empty s))

normalize_runs : normalize (some "  Jump_HOST Ção ") ≡ "jump_host ção"
unfolding normalize
normalize_runs = refl

-- `s.split()`; `word` is the word that is being read.
words_from : String → String → List String
unfolding is_space
words_from word [] = if str_eq word "" then List.[] else List.◌∷◌ word List.[]
words_from word (c ∷ s) =
    let rest = words_from (if is_space c then "" else word ++ (c ∷ [])) s in
    if is_space c && not (str_eq word "") then List.◌∷◌ word rest else rest

unfoldable pub words : String → List String
unfolding words_from
words s = words_from "" s

-- `sep.join(parts)`
unfoldable pub join : String → List String → String
join sep List.[] = ""
join sep (List.◌∷◌ s List.[]) = s
join sep (List.◌∷◌ s (List.◌∷◌ t parts)) = s ++ sep ++ join sep (List.◌∷◌ t parts)

-- `s.split(sep)` for a separator of one character; `part` is the part that is being read.
split_from : Char → String → String → List String
split_from sep part [] = List.◌∷◌ part List.[]
split_from sep part (c ∷ s) =
    let rest = split_from sep (if code c == code sep then "" else part ++ (c ∷ [])) s in
    if code c == code sep then List.◌∷◌ part rest else rest

unfoldable pub split : Char → String → List String
unfolding split_from
split sep s = split_from sep "" s

-- `s.split(sep, 1)` where `sep` is in `s`
unfoldable pub split_once : Char → String → Option (String × String)
split_once sep [] = none
split_once sep (c ∷ s) =
    let rest = split_once sep s in
    if code c == code sep
    then some ("", s)
    else elim rest [ none ↦ none | some (before, after) ↦ some (c ∷ before, after) ]

digit_of : Char → Option ℕ
digit_of c = if leb b'0' (code c) && leb (code c) b'9' then some (code c - b'0') else none

digits_from : ℕ → String → Option ℕ
unfolding digit_of
digits_from n [] = some n
digits_from n (c ∷ s) = elim (digit_of c) [ none ↦ none | some d ↦ digits_from (n * 10 + d) s ]

-- A run of at least one decimal digit.
unfoldable pub parse_ℕ : String → Option ℕ
unfolding digits_from
parse_ℕ s = if str_eq s "" then none else digits_from 0 s

negated : Option ℕ → Option ℤ
negated none = none
negated (some zero) = some (pos 0)
negated (some (suc n)) = some (negsuc n)

signed : String → Option ℤ
unfolding negated parse_ℕ
signed [] = none
signed (c ∷ s) =
    if code c == b'-'
    then negated (parse_ℕ s)
    else Option.map pos (parse_ℕ (if code c == b'+' then s else c ∷ s))

-- `int(s)`, `none` where it raises. The underscores and the digits of other scripts that Python
-- accepts too are not modelled.
unfoldable pub parse_int : String → Option ℤ
unfolding signed strip
parse_int s = signed (strip s)

-- `s < t`, by the code points
unfoldable pub text_ltb : String → String → Bool
text_ltb [] [] = false
text_ltb [] (d ∷ t) = true
text_ltb (c ∷ s) [] = false
text_ltb (c ∷ s) (d ∷ t) =
    let rest = text_ltb s t in ltb (code c) (code d) || ((code c == code d) && rest)

text_runs :
    (join " " (words "  SW  CORE-1 ") ≡ "SW CORE-1")
    × (split "," "a,,b" ≡ List.◌∷◌ "a" (List.◌∷◌ "" (List.◌∷◌ "b" List.[])))
    × (parse_int " -12 " ≡ some (negsuc 11))
    × (parse_int "1x" ≡ none)
unfolding join words split parse_int
text_runs = (refl, refl, refl, refl)
