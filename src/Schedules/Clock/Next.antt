-- ===== src/Schedules/Clock/Next.antt =====
-- When a daily schedule comes next.
use new_backup_center.Base.{
  suc, ℕ, ◌+◌, ◌-◌, ◌*◌, ◌/◌, ◌%◌, ◌≤◌, ◌<◌, ◌≡◌, refl, ap, sym, subst, ◌∙◌, inl, inr, Bool-cases,
  Bool, false, some, String, leb, arith,
}
use new_backup_center.Schedules.Clock.{
  minute, day_length, Zone, clock_of, sanitize_daily_time, next_clock, next_run,
  compute_next_daily_run_at,
}
use new_backup_center.Schedules.Clock.Text.{IsTimeOfDay, clock_of-sanitized}

-- A zone whose clocks are the same time behind all year.
abbrev pub IsFixed : (offset : ℕ) → Zone → Type 0
IsFixed offset zone =
    ((t : ℕ) → offset ≤ t → zone.local_of t ≡ (t - offset, false))
    × ((clock : ℕ × Bool) → zone.utc_of clock ≡ clock.0 + offset)

-- hours and minutes that a clock shows
abbrev pub shown : ℕ → ℕ × ℕ
shown clock = (clock % day_length / (60 * minute), clock / minute % 60)

abbrev IsNext : ℕ → ℕ × ℕ → ℕ → Type 0
IsNext now c next =
    (now < next) × (next ≤ now + day_length) × (next % minute ≡ 0) × (shown next ≡ c)

shown-at :
    (q hh mm : ℕ)
    → hh < 24
    → mm < 60
    → ((q * day_length + (hh * 60 + mm) * minute) % minute ≡ 0)
      × (shown (q * day_length + (hh * 60 + mm) * minute) ≡ (hh, mm))
shown-at q hh mm h g =
    let of_day : (q * day_length + (hh * 60 + mm) * minute) % day_length ≡ (hh * 60 + mm) * minute =
      omega (arith, h, g) in
    let hour : (q * day_length + (hh * 60 + mm) * minute) % day_length / (60 * minute) ≡ hh =
      omega (arith, of_day, h, g) in
    let in_hour : (q * day_length + (hh * 60 + mm) * minute) / minute % 60 ≡ mm =
      omega (arith, h, g) in
    (omega arith, λ i. (hour i, in_hour i))

next_clock-IsNext :
    (now : ℕ) (fold : Bool) (c : ℕ × ℕ) → IsTimeOfDay c → IsNext now c (next_clock (now, fold) c).0
unfolding next_clock
next_clock-IsNext now fold (hh, mm) h =
    let q = now / day_length in
    let candidate = q * day_length + (hh * 60 + mm) * minute in
    let at = shown-at q hh mm h.0 h.1 in
    let later = shown-at (suc q) hh mm h.0 h.1 in
    let moved : suc q * day_length + (hh * 60 + mm) * minute ≡ candidate + day_length =
      omega arith in
    elim (Bool-cases (leb candidate now)) [
      | inl e ↦ rw e (
        ground (arith, e),
        ground (arith, e),
        subst (λ t. t % minute ≡ 0) moved later.0,
        subst (λ t. shown t ≡ (hh, mm)) moved later.1,
      )
      | inr e ↦ rw e (ground (arith, e), ground (arith, e), at.0, at.1)
    ]

-- In a zone whose clocks are the same time behind all year, the next run of a daily schedule is computed
-- whatever its text is, and it is after the reference, by a day at most, on a full minute, when the clocks
-- show the sanitized time of day.
pub next_run_exact :
    (zone : Zone) (offset : ℕ) (time_str : String) (reference_utc : ℕ)
    → IsFixed offset zone
    → offset ≤ reference_utc
    → (next : ℕ) × (compute_next_daily_run_at zone time_str reference_utc ≡ some next)
      × (reference_utc < next)
      × (next ≤ reference_utc + day_length)
      × ((next - offset) % minute ≡ 0)
      × (clock_of (sanitize_daily_time (some time_str)) ≡ some (shown (next - offset)))
unfolding compute_next_daily_run_at next_run
next_run_exact zone offset time_str reference_utc fixed behind =
    let (c, h, e) = clock_of-sanitized (some time_str) in
    let now = reference_utc - offset in
    let clock = next_clock (now, false) c in
    let (after, within, full, shows) = next_clock-IsNext now false c h in
    let back : clock.0 + offset - offset ≡ clock.0 = omega arith in
    (
      clock.0 + offset,
      rw (e, fixed.0 reference_utc behind, fixed.1 clock) refl,
      omega (arith, after, behind),
      omega (arith, within, behind),
      subst (λ t. t % minute ≡ 0) (sym back) full,
      e ∙ ap some (sym shows) ∙ ap (λ t. some (shown t)) (sym back),
    )
