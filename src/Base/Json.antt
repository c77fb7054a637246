-- ===== src/Base/Json.antt =====
-- The values of a JSON column, and what `str`, `or` and `int` make of them.
use Prim.Native.Nat.{ℕ, zero, suc, ◌+◌, ◌/◌, ◌%◌}
use Prim.Native.String.{String, ◌++◌, slice}
use mathlib.Core.Path.{◌≡◌, refl}
use mathlib.Core.Bool.{Bool, true, false}
use mathlib.Core.Option.{Option, none, some}
use mathlib.Core.List.{[], ◌∷◌}
use text.Mathlib.Text.{◌==◌ as str_eq}
use new_backup_center.Base.Tests.{ltb, if◌then◌else◌}
use new_backup_center.Base.Int.{ℤ, pos, negsuc}
use new_backup_center.Base.Text.{lower, strip, is_in}

digit : ℕ → String
digit d = slice "0123456789" d (d + 1)

decimal_fuel : ℕ → ℕ → String
unfolding digit
decimal_fuel zero n = ""
decimal_fuel (suc fuel) n =
    let front = decimal_fuel fuel (n / 10) in if ltb n 10 then digit n else front ++ digit (n % 10)

-- `str(n)`; a number has at most as many digits as its value plus one.
unfoldable pub decimal : ℕ → String
unfolding decimal_fuel
decimal n = decimal_fuel (n + 1) n

unfoldable pub decimal_ℤ : ℤ → String
unfolding decimal
decimal_ℤ (pos n) = decimal n
decimal_ℤ (negsuc n) = "-" ++ decimal (n + 1)

-- `structure` is a list or an object that is not empty, with the text that `str` gives it.
pub data Value : Type 0 where
  null empty : Value
  bool : Bool → Value
  int : ℤ → Value
  txt : String → Value
  structure : String → Value

unfoldable pub is_truthy : Value → Bool
is_truthy null = false
is_truthy empty = false
is_truthy (bool b) = b
is_truthy (int (pos n)) = ltb 0 n
is_truthy (int (negsuc n)) = true
is_truthy (txt s) = if str_eq s "" then false else true
is_truthy (structure s) = true

-- `str(value)`
unfoldable pub str : Value → String
unfolding decimal_ℤ
str null = "None"
str empty = "[]"
str (bool true) = "True"
str (bool false) = "False"
str (int i) = decimal_ℤ i
str (txt s) = s
str (structure s) = s

-- `str(value or "")`, with `None` for a key that is missing
unfoldable pub text_of : Option Value → String
unfolding is_truthy str
text_of none = ""
text_of (some v) = if is_truthy v then str v else ""

-- `a or b`
unfoldable pub or_value : Option Value → Option Value → Option Value
unfolding is_truthy
or_value none b = b
or_value (some v) b = if is_truthy v then some v else b

-- `str(value or "").strip().lower() in {"1", "true", "on", "yes", "sim"}`
unfoldable pub truthy : Option Value → Bool
unfolding text_of strip lower is_in
truthy v = is_in (lower (strip (text_of v))) ("1" ∷ "true" ∷ "on" ∷ "yes" ∷ "sim" ∷ [])

decimal_runs : decimal 10450 ≡ "10450"
unfolding decimal
decimal_runs = refl

truthy_runs : truthy (some (int (pos 1))) ≡ true
unfolding truthy
truthy_runs = refl
