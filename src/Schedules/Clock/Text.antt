-- ===== src/Schedules/Clock/Text.antt =====
-- The time of day that is written is the one that is read.
use new_backup_center.Base.{
  ℕ, zero, suc, ◌≤◌, ◌<◌, ◌≡◌, refl, ap, sym, ◌∙◌, inl, inr, Bool-cases, subst, Bool, true, false,
  ◌&&◌, ◌==◌, Option, none, some, String, List, [], ◌∷◌, ℤ, pos, negsuc, str_eq, eq_iff, strip,
  str_or_empty, split, parse_int, arith,
}
use new_backup_center.Schedules.Clock.{
  up_to, pair_of, clock_of_parts, clock_of, clock_text, sanitized, sanitize_daily_time,
}

unfoldable below : ℕ → (ℕ → Bool) → Bool
below zero test = true
below (suc n) test = test n && below n test

below-at : (n : ℕ) (test : ℕ → Bool) → below n test ≡ true → (k : ℕ) → k < n → test k ≡ true
unfolding below
below-at zero test h k lt = ground (arith, lt)
below-at (suc n) test h k lt = elim (Bool-cases (k == n)) [
  | inl e ↦
      let same : k ≡ n = ground (arith, e) in
      subst (λ i. test i ≡ true) (sym same) (ground (arith, h))
  | inr ne ↦ below-at n test (ground (arith, h)) k (ground (arith, ne, lt))
]

unfoldable is_clock : ℕ → ℕ → Option (ℕ × ℕ) → Bool
is_clock hh mm none = false
is_clock hh mm (some (h, m)) = (h == hh) && (m == mm)

is_clock-some : (hh mm : ℕ) (o : Option (ℕ × ℕ)) → is_clock hh mm o ≡ true → o ≡ some (hh, mm)
unfolding is_clock
is_clock-some hh mm none h = ground (arith, h)
is_clock-some hh mm (some (a, b)) h = ground (arith, h)

unfoldable is_read : ℕ → ℕ → Bool
unfolding is_clock
is_read hh mm =
    let text = clock_text (hh, mm) in is_clock hh mm (clock_of text) && str_eq (strip text) text

all_read : below 24 (λ hh. below 60 (is_read hh)) ≡ true
unfolding below is_read clock_of clock_text strip
all_read = refl

-- hours and minutes of a day
abbrev pub IsTimeOfDay : ℕ × ℕ → Type 0
IsTimeOfDay c = (c.0 < 24) × (c.1 < 60)

read : (c : ℕ × ℕ) → IsTimeOfDay c → is_read c.0 c.1 ≡ true
read (hh, mm) h =
    below-at 60 (is_read hh) (below-at 24 (λ i. below 60 (is_read i)) all_read hh h.0) mm h.1

-- A time of day that is written as text is read as the same time.
pub clock_of-text : (c : ℕ × ℕ) → IsTimeOfDay c → clock_of (clock_text c) ≡ some c
unfolding is_read
clock_of-text (hh, mm) h =
    is_clock-some hh mm (clock_of (clock_text (hh, mm))) (ground (arith, read (hh, mm) h))

strip-text : (c : ℕ × ℕ) → IsTimeOfDay c → strip (clock_text c) ≡ clock_text c
unfolding is_read
strip-text (hh, mm) h =
    let text = clock_text (hh, mm) in ground (arith, read (hh, mm) h, eq_iff (strip text) text)

abbrev IsOptionalTime : Option (ℕ × ℕ) → Type 0
IsOptionalTime none = Unit
IsOptionalTime (some c) = IsTimeOfDay c

up_to-le : (last : ℕ) (o : Option ℤ) (n : ℕ) → up_to last o ≡ some n → n ≤ last
unfolding up_to
up_to-le last none n h = ground (arith, h)
up_to-le last (some (pos k)) n h = ground (arith, h)
up_to-le last (some (negsuc k)) n h = ground (arith, h)

pair_of-clock :
    (o p : Option ℕ)
    → ((n : ℕ) → o ≡ some n → n ≤ 23)
    → ((n : ℕ) → p ≡ some n → n ≤ 59)
    → IsOptionalTime (pair_of o p)
unfolding pair_of
pair_of-clock none p h g = tt
pair_of-clock (some a) none h g = tt
pair_of-clock (some a) (some b) h g = (omega (arith, h a refl), omega (arith, g b refl))

parts-clock : (parts : List String) → IsOptionalTime (clock_of_parts parts)
unfolding clock_of_parts
parts-clock [] = tt
parts-clock (hh ∷ []) = tt
parts-clock (hh ∷ mm ∷ []) =
    pair_of-clock (up_to 23 (parse_int hh)) (up_to 59 (parse_int mm)) (up_to-le 23 (parse_int hh))
      (up_to-le 59 (parse_int mm))
parts-clock (hh ∷ mm ∷ more ∷ parts) = tt

sanitized-clock :
    (o : Option (ℕ × ℕ))
    → IsOptionalTime o
    → (c : ℕ × ℕ) × IsTimeOfDay c × (sanitized "02:00" o ≡ clock_text c)
unfolding sanitized clock_text
sanitized-clock none h = ((2, 0), (omega arith, omega arith), refl)
sanitized-clock (some c) h = (c, h, refl)

-- Whatever the text is, its time of day is one of the day's.
pub sanitize-clock :
    (text : Option String) → (c : ℕ × ℕ) × IsTimeOfDay c × (sanitize_daily_time text ≡ clock_text c)
unfolding sanitize_daily_time clock_of
sanitize-clock text =
    let raw = strip (str_or_empty text) in
    sanitized-clock (clock_of raw) (parts-clock (split ":" raw))

sanitized-text :
    (c : ℕ × ℕ) → IsTimeOfDay c → sanitize_daily_time (some (clock_text c)) ≡ clock_text c
unfolding sanitize_daily_time sanitized
sanitized-text c h = rw (strip-text c h, clock_of-text c h) refl

-- A text that has been sanitized is not changed by doing it again.
pub sanitize_idem :
    (text : Option String)
    → sanitize_daily_time (some (sanitize_daily_time text)) ≡ sanitize_daily_time text
sanitize_idem text =
    let (c, h, e) = sanitize-clock text in
    ap (λ t. sanitize_daily_time (some t)) e ∙ sanitized-text c h ∙ sym e

-- A time of day that is sanitized and written is read as it is meant.
pub clock_of-sanitized :
    (text : Option String)
    → (c : ℕ × ℕ) × IsTimeOfDay c × (clock_of (sanitize_daily_time text) ≡ some c)
clock_of-sanitized text =
    let (c, h, e) = sanitize-clock text in (c, h, ap clock_of e ∙ clock_of-text c h)
