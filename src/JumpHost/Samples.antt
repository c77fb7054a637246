-- ===== src/JumpHost/Samples.antt =====
-- A jump host under load, and the theorems on jump hosts at it.
use new_backup_center.Diagnostics.Failure.Retry.{
  message_indicates_jump_host_saturation, message_indicates_severe_jump_host_saturation,
}
use new_backup_center.Base.{
  inl, ℤ, pos, ℕ, ◌+◌, ◌-◌, ◌*◌, ◌/◌, ◌≤◌, ◌≡◌, ◌≢◌, refl, sym, ◌∙◌, max, true, false, Option, none,
  some, String, List, [], ◌∷◌, arith, eq_iff, ap, ltb, split_once, parse_int, normalize,
  contains_any, select, first,
}
use new_backup_center.Base.Dict.{put}
use new_backup_center.Settings.{
  Env, circuit_breaker_min_samples, circuit_breaker_threshold_percent, jump_host_adaptive_enabled,
  jump_host_adaptive_fail_streak, jump_host_adaptive_severe_fail_streak,
  jump_host_adaptive_severe_drop_to_one, circuit_breaker_window_seconds,
  circuit_breaker_open_seconds,
}
use new_backup_center.JumpHost.Slots.{
  Host, LockInfo, Window, FloatOps, adapt_jump_host_slots, parse_jump_host_slot_overrides,
  is_cooling, resolve_effective_jump_host_slots,
}
use new_backup_center.JumpHost.Slots.Bounds.{success_grows, slots_of, allowed}
use new_backup_center.JumpHost.Locks.{
  System, Holder, idle, acquire_first, leave, Reaches, after, tick, attempt, try_acquire, is_free,
}
use new_backup_center.JumpHost.Locks.Exclusion.{acquire_first_exact, slot_exclusive}
use new_backup_center.JumpHost.Breaker.{
  BreakerKeys, BreakerStep, check, conclude, reset, check_keys, breaker_step, breaker_steps,
  Breaker, Entry, outcome, is_recent, is_success, is_failure,
}
use new_backup_center.JumpHost.Breaker.Opening.{is_before, stays_open}

abbrev overriding : Env
overriding name = some " bastion:22 = 40, bad, default=x, other=2 "

overrides_run : parse_jump_host_slot_overrides overriding ≡ ("bastion:22", 16) ∷ ("other", 2) ∷ []
unfolding parse_jump_host_slot_overrides split_once parse_int put
overrides_run = refl

abbrev unset : Env
unset name = none

abbrev lock : LockInfo
lock = record { label = some "bastion:22"; base_slots = some (pos 3); max_slots = none }

abbrev busy : Host
busy = record {
  slots = some (some (pos 3));
  fail_streak = some (3, 1000);
  success_streak = some (19, 1000);
  cooldown = none;
}

abbrev banner : Option String
banner = some "Error reading SSH protocol banner"

success_grows_example :
    (slots_of unset [] 100 lock busy
      ≤ slots_of unset [] 100 lock (adapt_jump_host_slots unset 100 [] lock true none busy))
    × (slots_of unset [] 100 lock (adapt_jump_host_slots unset 100 [] lock true none busy)
        ≤ slots_of unset [] 100 lock busy + 1)
    × (slots_of unset [] 100 lock (adapt_jump_host_slots unset 100 [] lock true none busy)
        ≤ max (slots_of unset [] 100 lock busy) (allowed unset [] 100 lock))
success_grows_example = success_grows unset [] 100 lock none busy

severe_runs :
    (adapt_jump_host_slots unset 100 [] lock false banner busy).slots ≡ some (some (pos 1))
unfolding adapt_jump_host_slots jump_host_adaptive_enabled is_cooling
    message_indicates_jump_host_saturation normalize contains_any resolve_effective_jump_host_slots
    jump_host_adaptive_fail_streak message_indicates_severe_jump_host_saturation
    jump_host_adaptive_severe_fail_streak jump_host_adaptive_severe_drop_to_one
severe_runs = refl

abbrev number : Option (Option ℤ) → ℕ
number (some (some (pos n))) = n
number _ = 0

changed : (adapt_jump_host_slots unset 100 [] lock false banner busy).slots ≢ busy.slots
changed h = let p : ◌≡◌ {A = ℕ} 1 3 = ap number (sym severe_runs ∙ h) in omega (arith, p)

-- Durations in whole seconds.
abbrev seconds : FloatOps ℕ
seconds = record { is_positive = λ a. ltb 0 a; slots_needed = λ n a w. pos ((n * a + (w - 1)) / w) }

abbrev load : Window ℕ
load = record { device_count = 30; average = 60; samples = pos 9 }

abbrev share : ℕ → ℕ → ℕ
share failed total = failed * 100 / max 1 total

abbrev closed : List Entry → Breaker
closed entries = record { open_until = none; outcomes = entries }

abbrev failing : List Entry
failing =
    outcome false 50_000
    ∷ outcome false 390_000
    ∷ outcome false 390_001
    ∷ outcome false 390_002
    ∷ outcome false 390_003
    ∷ outcome false 390_004
    ∷ outcome false 390_005
    ∷ outcome false 390_006
    ∷ outcome false 390_007
    ∷ outcome true 390_008
    ∷ outcome true 390_009
    ∷ []

abbrev label : String
label = "bastion:22"

named : label ≢ ""
named = ground (arith, eq_iff label "")

share-zero : (total : ℕ) → share 0 total ≡ 0
share-zero total = omega arith

abbrev all_keys : BreakerKeys
all_keys = record { breakers = (label, closed failing) ∷ []; adaptive = label ∷ [] }

abbrev steps : List BreakerStep
steps = check "other" 401 401_000 ∷ conclude label 402_000 true ∷ check label 403 403_000 ∷ []

stays_open_example :
    let opened = check_keys share unset label 400 400_000 all_keys in
    let worked = breaker_steps share unset steps opened.1 in
    ((check_keys share unset label 410 410_000 worked).0 ≡ (true, 50))
    × ((check_keys share unset label 410 410_000 (breaker_step share unset (reset 410) worked)).0.0
        ≡ false)
unfolding check_keys select is_recent circuit_breaker_window_seconds is_success is_failure
    circuit_breaker_min_samples circuit_breaker_threshold_percent is_before
    circuit_breaker_open_seconds
stays_open_example =
    stays_open share unset label named 400 400_000 all_keys steps 410 410_000 refl
      (refl, (refl, (refl, tt))) (omega arith)

-- Two workers, of which the first one is slow: its lock of 60 seconds has expired when the second one comes.
abbrev first_in : System
first_in = (acquire_first 60 "w1" (0 ∷ 1 ∷ []) (idle 100)).1

abbrev second_in : System
second_in = (acquire_first 60 "w2" (0 ∷ 1 ∷ []) (record first_in { now = 100 + 70 })).1

abbrev w1 : Holder
w1 = record { token = "w1"; slot = 0; expiry = 160 }

abbrev w2 : Holder
w2 = record { token = "w2"; slot = 0; expiry = 230 }

-- The slow worker leaves, and the slot stays with the second one.
leave_runs : (leave 60 w1 second_in).table 0 ≡ some ("w2", 230)
unfolding leave acquire_first is_free idle try_acquire
leave_runs = refl

acquire_first_exact_example :
    ((acquire_first 60 "w1" (0 ∷ 1 ∷ []) (idle 100)).0 ≡ some 0) × Reaches 60 (idle 100) first_in
unfolding idle first is_free
acquire_first_exact_example = acquire_first_exact 60 "w1" (0 ∷ 1 ∷ []) (idle 100) tt

abbrev later : System
later = record first_in { now = 100 + 70 }

reached : Reaches 60 (idle 100) second_in
unfolding idle acquire_first is_free try_acquire
reached =
    after (idle 100) later second_in
      (after (idle 100) first_in later (acquire_first_exact 60 "w1" (0 ∷ 1 ∷ []) (idle 100) tt).1
        (tick first_in 70))
      (attempt later "w2" 0 (refl, tt))

slot_exclusive_example : w2.token ≡ w2.token
unfolding acquire_first is_free idle try_acquire
slot_exclusive_example =
    slot_exclusive 60 100 second_in w2 w2 reached (inl refl) (inl refl) (omega arith) (omega arith)
      refl
