-- ===== src/JumpHost/Locks.antt =====
-- app/tasks/backups.py: the slots of a jump host as locks in Redis, which the workers take, hold for a
-- session and give back. A lock of redis-py is a key with the token of its owner and a time to live.
pub mod Exclusion
use Prim.Native.String.{◌++◌}
use new_backup_center.Base.{
  ℤ, pos, ℕ, zero, suc, ◌+◌, ◌<◌, ◌≡◌, Bool, true, false, not, ◌&&◌, ◌||◌, Option, none, some,
  String, List, [], ◌∷◌, All, select, str_eq, str_or_empty, strip, normalize, decimal_ℤ, ltb, ◌==◌,
  if◌then◌else◌,
}
use new_backup_center.Settings.{Env, jump_host_max_slots}
use new_backup_center.Connection.{Device, Group, uses_jump_host}
use new_backup_center.Queue.Countdown.{port_or_ssh}

pub record HostLock : Type 0 where
  pub base_key : String
  pub label : String
  pub group_name : String
  pub base_slots : ℕ
  pub max_slots : ℕ

lock_of_group : Env → Device → Group → Option HostLock
unfolding strip normalize decimal_ℤ jump_host_max_slots
lock_of_group env device group =
    let jump_host = strip (str_or_empty group.jump_host) in
    let jump_port = decimal_ℤ (port_or_ssh group.jump_port) in
    let target_host = normalize (some device.ip_address) in
    let jump_host_normalized = normalize (some jump_host) in
    if not (uses_jump_host (some group) (some device)) || str_eq jump_host ""
    then none
    else if not (str_eq target_host "") && str_eq target_host jump_host_normalized
    then none
    else some (record {
      base_key = "backup_center:jump_host_lock:" ++ jump_host_normalized ++ ":" ++ jump_port;
      label = jump_host ++ ":" ++ jump_port;
      group_name = strip (if str_eq group.name "" then "Sem grupo" else group.name);
      base_slots = jump_host_max_slots env;
      max_slots = jump_host_max_slots env;
    })

-- `none` where the device is missing, has no group, is not behind a jump host, or is the jump host.
unfoldable pub resolve_jump_host_lock : Env → Option Device → Option HostLock
unfolding lock_of_group
resolve_jump_host_lock env none = none
resolve_jump_host_lock env (some device) = elim device.group [
  | none ↦ none
  | some group ↦ lock_of_group env device group
]

-- The keys of one jump host: for a slot its owner's token and its expiry.
abbrev pub Table : Type 0
Table = ℕ → Option (String × ℕ)

unfoldable pub is_free : (now : ℕ) → Option (String × ℕ) → Bool
is_free now none = true
is_free now (some (owner, expiry)) = not (ltb now expiry)

unfoldable pub is_owned : (now : ℕ) (token : String) → Option (String × ℕ) → Bool
is_owned now token none = false
is_owned now token (some (owner, expiry)) = ltb now expiry && str_eq owner token

unfoldable pub write : ℕ → Option (String × ℕ) → Table → Table
write slot value table i = if i == slot then value else table i

-- A worker inside the body of `with`, with the slot that it took and when its lock expires.
pub record Holder : Type 0 where
  pub token : String
  pub slot : ℕ
  pub expiry : ℕ

pub record System : Type 0 where
  pub now : ℕ
  pub table : Table
  pub holders : List Holder

-- `ttl` is JUMP_HOST_LOCK_TIMEOUT_SECONDS.
module _ (ttl : ℕ) where
  -- `slot_lock.acquire(blocking=False)`: it changes nothing where the slot is taken.
  unfoldable pub try_acquire : (token : String) (slot : ℕ) → System → System
  unfolding is_free write
  try_acquire token slot s =
      if is_free s.now (s.table slot)
      then record s {
        table = write slot (some (token, s.now + ttl)) s.table;
        holders = record { token = token; slot = slot; expiry = s.now + ttl } ∷ s.holders;
      }
      else s

  -- `if acquired_lock.owned(): acquired_lock.release()`, at the end of the body.
  unfoldable pub leave : Holder → System → System
  unfolding is_owned write
  leave h s = record s {
    table = if is_owned s.now h.token (s.table h.slot) then write h.slot none s.table else s.table;
    holders = select (λ k. not (str_eq k.token h.token)) s.holders;
  }

  -- One pass over the slots, up to the first one that is free; the number is the slot that was taken.
  unfoldable pub acquire_first : (token : String) (slots : List ℕ) → System → Option ℕ × System
  acquire_first token [] s = (none, s)
  acquire_first token (slot ∷ slots) s =
      let rest = acquire_first token slots (try_acquire token slot s) in
      if is_free s.now (s.table slot) then (some slot, try_acquire token slot s) else rest

  -- What may happen next: time passes, a worker with a token of its own tries a slot, or one leaves.
  pub data Step : System → System → Type 0 where
    tick : (s : System) (seconds : ℕ) → Step s (record s { now = s.now + seconds })
    attempt :
        (s : System) (token : String) (slot : ℕ)
        → All (λ h. str_eq h.token token ≡ false) s.holders
        → Step s (try_acquire token slot s)
    finish : (s : System) (h : Holder) → Step s (leave h s)

  pub data Reaches : System → System → Type 0 where
    here : (s : System) → Reaches s s
    after : (s t u : System) → Reaches s t → Step t u → Reaches s u

unfoldable pub idle : (now : ℕ) → System
idle now = record { now = now; table = λ slot. none; holders = [] }
