-- ===== src/Schedules/Clock.antt =====
-- app/services/schedule_utils.py: the time of day of a schedule, and when it comes next. Instants are in
-- microseconds, and so are the clocks of a zone, both without leap seconds.
pub mod Text
pub mod Next
use new_backup_center.Base.{
  ℕ, ◌+◌, ◌*◌, ◌/◌, Bool, true, false, ◌&&◌, Option, none, some, String, List, [], ◌∷◌, ℤ, pos,
  negsuc, strip, split, parse_int, decimal, str_or_empty, ltb, leb, if◌then◌else◌,
}
use Prim.Native.String.{◌++◌}

abbrev pub minute : ℕ
minute = 60_000_000

abbrev pub day_length : ℕ
day_length = 86_400_000_000

-- A zone of `zoneinfo`: the clock at an instant with its fold, and the instant of a clock with its fold.
pub record Zone : Type 0 where
  pub local_of : ℕ → ℕ × Bool
  pub utc_of : ℕ × Bool → ℕ

-- `0 <= i <= last`
unfoldable pub up_to : (last : ℕ) → Option ℤ → Option ℕ
up_to last none = none
up_to last (some (pos n)) = if leb n last then some n else none
up_to last (some (negsuc n)) = none

unfoldable pub pair_of : Option ℕ → Option ℕ → Option (ℕ × ℕ)
pair_of (some hh) (some mm) = some (hh, mm)
pair_of (some hh) none = none
pair_of none mm = none

unfoldable pub clock_of_parts : List String → Option (ℕ × ℕ)
unfolding up_to pair_of parse_int
clock_of_parts (hh ∷ mm ∷ []) = pair_of (up_to 23 (parse_int hh)) (up_to 59 (parse_int mm))
clock_of_parts _ = none

-- `map(int, text.split(":"))`, with `none` where it raises or is no time of the day
unfoldable pub clock_of : String → Option (ℕ × ℕ)
unfolding split clock_of_parts
clock_of text = clock_of_parts (split ":" text)

-- `f"{n:02d}"`
unfoldable pub two_digits : ℕ → String
unfolding decimal
two_digits n = if ltb n 10 then "0" ++ decimal n else decimal n

unfoldable pub clock_text : ℕ × ℕ → String
unfolding two_digits
clock_text (hh, mm) = two_digits hh ++ ":" ++ two_digits mm

unfoldable pub sanitized : (default : String) → Option (ℕ × ℕ) → String
unfolding clock_text
sanitized default none = default
sanitized default (some clock) = clock_text clock

unfoldable pub sanitize_daily_time : (time_str : Option String) → String
unfolding sanitized clock_of strip
sanitize_daily_time time_str = sanitized "02:00" (clock_of (strip (str_or_empty time_str)))

-- `replace(hour=hh, minute=mm, second=0, microsecond=0)` keeps the fold, adding a day forgets it.
unfoldable pub next_clock : (reference_local : ℕ × Bool) → ℕ × ℕ → ℕ × Bool
next_clock (now, fold) (hh, mm) =
    let candidate = now / day_length * day_length + (hh * 60 + mm) * minute in
    if leb candidate now then (candidate + day_length, false) else (candidate, fold)

unfoldable pub next_run : Zone → (reference_utc : ℕ) → Option (ℕ × ℕ) → Option ℕ
unfolding next_clock
next_run zone reference_utc none = none
next_run zone reference_utc (some clock) =
    some (zone.utc_of (next_clock (zone.local_of reference_utc) clock))

-- `none` where it raises
unfoldable pub compute_next_daily_run_at : Zone → String → (reference_utc : ℕ) → Option ℕ
unfolding next_run clock_of sanitize_daily_time
compute_next_daily_run_at zone time_str reference_utc =
    next_run zone reference_utc (clock_of (sanitize_daily_time (some time_str)))
