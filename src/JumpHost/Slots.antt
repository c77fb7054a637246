-- ===== src/JumpHost/Slots.antt =====
-- app/tasks/backups.py: the number of slots of a jump host, which grows with successes and shrinks with
-- failures. What Redis holds for one label is a record; Redis fails in none of its calls.
pub mod Bounds
pub mod Cooldown
use new_backup_center.Base.{
  ℤ, pos, negsuc, pos_part, max_zero, ℕ, zero, suc, ◌+◌, ◌-◌, min, max, Bool, true, false, not,
  ◌&&◌, ◌||◌, Option, none, some, String, List, [], ◌∷◌, str_eq, str_or_empty, strip, split,
  parse_int, split_once, ltb, leb, or_else, is_some, if◌then◌else◌,
}
use new_backup_center.Base.Dict.{Dict, get, put}
use new_backup_center.Settings.{
  Env, jump_host_adaptive_enabled, jump_host_adaptive_fail_streak,
  jump_host_adaptive_success_streak, jump_host_adaptive_max_boost,
  jump_host_adaptive_severe_fail_streak, jump_host_adaptive_severe_drop_to_one,
  jump_host_adaptive_cooldown_seconds, jump_host_adaptive_streak_ttl_seconds,
  jump_host_adaptive_severe_cooldown_seconds, jump_host_window_adaptive_enabled,
  jump_host_window_min_samples, jump_host_window_min_slots, jump_host_window_seconds,
}
use new_backup_center.Diagnostics.Failure.Retry.{
  message_indicates_jump_host_saturation, message_indicates_severe_jump_host_saturation,
}

-- `max(1, min(16, slots))`
unfoldable pub clamp : ℤ → ℕ
clamp slots = max 1 (min 16 (pos_part slots))

-- `int(value or 1)`
abbrev pub or_one : Option ℤ → ℤ
or_one none = pos 1
or_one (some (pos zero)) = pos 1
or_one (some i) = i

-- A counter of Redis: its value, and the second at which it expires.
abbrev pub Counter : Type 0
Counter = Option (ℕ × ℕ)

-- What Redis holds for one jump host. `slots` is its field of the hash of adaptive slots, which is
-- `some none` for a text that is no number; the cooldown is kept as its expiry.
pub record Host : Type 0 where
  pub slots : Option (Option ℤ)
  pub fail_streak : Counter
  pub success_streak : Counter
  pub cooldown : Option ℕ

-- `client.get(cooldown_key)`
unfoldable pub is_cooling : ℕ → Host → Bool
is_cooling now host = elim host.cooldown [ none ↦ false | some expiry ↦ ltb now expiry ]

-- The value of a counter that has not expired, or 0.
abbrev pub live : ℕ → Counter → ℕ
live now none = 0
live now (some (value, expiry)) = if ltb now expiry then value else 0

-- The numbers that a batch's window is computed from: the devices of the batch behind the jump host,
-- the average duration of a session in the floats of Python, and how many sessions it stands for.
pub record Window {ℓ} (Float : Type ℓ) : Type ℓ where
  pub device_count : ℕ
  pub average : Float
  pub samples : ℤ

-- The arithmetic of floats: `is_positive a` is `a > 0`, and `slots_needed n a w` is
-- `int(math.ceil((float(n) * a) / float(w)))`.
pub record FloatOps {ℓ} (Float : Type ℓ) : Type ℓ where
  pub is_positive : Float → Bool
  pub slots_needed : ℕ → Float → ℕ → ℤ

module _ {ℓ} {Float : Type ℓ} (ops : FloatOps Float) (env : Env) where
  -- `none` is the call without a batch, or where Redis cannot be read.
  unfoldable pub resolve_window_target_jump_host_slots :
      (jump_label : String) (current_slots : ℤ) → Option (Window Float) → ℕ
  unfolding clamp
  resolve_window_target_jump_host_slots jump_label current_slots none =
      clamp (or_one (some current_slots))
  resolve_window_target_jump_host_slots jump_label current_slots (some w) =
      let current = clamp (or_one (some current_slots)) in
      let target =
        clamp (ops.slots_needed w.device_count w.average (jump_host_window_seconds env)) in
      let min_slots = max 1 (min current (jump_host_window_min_slots env)) in
      if not (jump_host_window_adaptive_enabled env) || str_eq jump_label "" || leb current 1
      then current
      else if leb w.device_count 0
      then current
      else if not (ops.is_positive w.average)
          || ltb (pos_part w.samples) (jump_host_window_min_samples env)
      then current
      else max min_slots (min current target)

-- What the overrides and the caller say, before Redis is read.
unfoldable pub configured_slots : Dict ℕ → (jump_label : String) (base_slots : Option ℤ) → ℕ
unfolding get
configured_slots overrides jump_label base_slots = elim (get jump_label overrides) [
  | some slots ↦ slots
  | none ↦ elim (get "default" overrides) [
    | some slots ↦ slots
    | none ↦ max 1 (pos_part (or_one base_slots))
  ]
]

-- `_resolve_effective_jump_host_slots` up to the window of a batch; `none` is a Redis that is not there.
unfoldable pub resolve_effective_jump_host_slots :
    Env → Dict ℕ → Option Host → (jump_label : String) (base_slots : Option ℤ) → ℕ
unfolding clamp configured_slots
resolve_effective_jump_host_slots env overrides client jump_label base_slots =
    let configured = clamp (pos (configured_slots overrides jump_label base_slots)) in
    elim client [
      | none ↦ configured
      | some host ↦
          if jump_host_adaptive_enabled env
          then elim host.slots [ some (some dynamic) ↦ clamp dynamic | _ ↦ configured ]
          else configured
    ]

-- One part of the list of overrides; one that is no `key=number` is skipped.
override_entry : String → Option (String × ℕ)
unfolding strip clamp
override_entry chunk = elim (split_once "=" (strip chunk)) [
  | none ↦ none
  | some (key, value) ↦ elim (parse_int (strip value)) [
    | none ↦ none
    | some slots ↦ some (strip key, clamp slots)
  ]
]

override_entries : List String → Dict ℕ → Dict ℕ
unfolding override_entry
override_entries [] parsed = parsed
override_entries (chunk ∷ chunks) parsed =
    override_entries chunks
      (elim (override_entry chunk) [ none ↦ parsed | some (key, slots) ↦ put key slots parsed ])

unfoldable pub parse_jump_host_slot_overrides : Env → Dict ℕ
unfolding override_entries strip split
parse_jump_host_slot_overrides env =
    let raw = strip (str_or_empty (env "JUMP_HOST_SLOTS_OVERRIDES")) in
    if str_eq raw "" then [] else override_entries (split "," raw) []

-- What `_adapt_jump_host_slots` reads of a lock.
pub record LockInfo : Type 0 where
  pub label : Option String
  pub base_slots : Option ℤ
  pub max_slots : Option ℤ

-- `max(1, int(base_slots or max_slots or 1))`
unfoldable pub base_of : LockInfo → ℕ
base_of lock = max 1 (
    pos_part (elim lock.base_slots [
      | none ↦ or_one lock.max_slots
      | some (pos zero) ↦ or_one lock.max_slots
      | some slots ↦ slots
    ]))

module _ (env : Env) (now : ℕ) where
  -- `client.incr(key)` and `client.expire(key, ttl)`
  abbrev pub increased : Counter → ℕ × ℕ
  increased counter = (live now counter + 1, now + jump_host_adaptive_streak_ttl_seconds env)

  -- After a success: one slot more once the streak is long enough and the limit allows it.
  unfoldable pub after_success : (allowed_max_slots current_slots : ℕ) → Host → Host
  after_success allowed_max_slots current_slots host =
      let streak = increased host.success_streak in
      if leb (jump_host_adaptive_success_streak env) streak.0 && ltb current_slots allowed_max_slots
      then record host {
        slots = some (some (pos (min allowed_max_slots (current_slots + 1))));
        fail_streak = none;
        success_streak = none;
        cooldown = some (now + jump_host_adaptive_cooldown_seconds env);
      }
      else record host { success_streak = some streak; fail_streak = none }

  -- `severe_saturation and severe_threshold_reached`
  unfoldable pub severe_reached : (severe : Bool) → Host → Bool
  severe_reached severe host =
      severe && leb (jump_host_adaptive_severe_fail_streak env) (increased host.fail_streak).0

  -- One slot less; after a severe streak two less, or one slot is left.
  unfoldable pub lowered : (severe_reached : Bool) (current_slots : ℕ) → ℕ
  lowered severe_reached current_slots =
      if severe_reached
      then (if jump_host_adaptive_severe_drop_to_one env then 1 else max 1 (current_slots - 2))
      else max 1 (current_slots - 1)

  -- After a failure that tells of saturation.
  unfoldable pub after_saturation : (severe : Bool) (current_slots : ℕ) → Host → Host
  after_saturation severe current_slots host =
      let streak = increased host.fail_streak in
      let severely = severe_reached severe host in
      let reached = leb (jump_host_adaptive_fail_streak env) streak.0 in
      if ltb 1 current_slots && (reached || severely)
      then record host {
        slots = some (some (pos (lowered severely current_slots)));
        fail_streak = none;
        success_streak = none;
        cooldown = some (
            now
            + (if severely
                then jump_host_adaptive_severe_cooldown_seconds env
                else jump_host_adaptive_cooldown_seconds env));
      }
      else record host { fail_streak = some streak; success_streak = none }

  -- The state of the lock's label after one outcome.
  unfoldable pub adapt_jump_host_slots :
      Dict ℕ → LockInfo → (success : Bool) (message : Option String) → Host → Host
  unfolding after_success after_saturation lowered severe_reached base_of clamp
  adapt_jump_host_slots overrides lock success message host =
      let jump_label = strip (str_or_empty lock.label) in
      let base_slots = base_of lock in
      let allowed_max_slots = clamp (pos (base_slots + jump_host_adaptive_max_boost env)) in
      let current_slots =
        resolve_effective_jump_host_slots env overrides (some host) jump_label
          (some (pos base_slots)) in
      if not (jump_host_adaptive_enabled env) || str_eq jump_label "" || is_cooling now host
      then host
      else if success
      then after_success allowed_max_slots current_slots host
      else if message_indicates_jump_host_saturation message
      then after_saturation (message_indicates_severe_jump_host_saturation message) current_slots
          host
      else host
