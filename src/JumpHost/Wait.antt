-- ===== src/JumpHost/Wait.antt =====
-- app/tasks/backups.py: `_jump_host_lock_context`, in which a worker waits for a slot of a jump host. What
-- happens around it, turn by turn, is a function. Times are in microseconds.
pub mod Ends
pub mod Reasons
mod Samples
use new_backup_center.Base.{
  ℕ, zero, suc, ◌+◌, ◌*◌, max, Bool, true, false, ◌||◌, Option, none, some, String, List, [], ◌∷◌,
  leb, str_eq, if◌then◌else◌,
}
use new_backup_center.Settings.{
  Env, jump_host_lock_wait_seconds, jump_host_lock_wait_seconds_large_bulk,
  large_bulk_transient_retry_threshold,
}

-- `slot_lock.acquire(blocking=False)`
pub data Attempt : Type 0 where
  taken granted failing : Attempt

-- One turn of the loop: whether the batch is to stop at its start, what each slot answers, whether the batch
-- is to stop before or after the sleep of a second, and how much longer than that the turn takes.
pub record Turn : Type 0 where
  pub stop_now : Bool
  pub answers : ℕ → Attempt
  pub stop_asleep : Bool
  pub delay : ℕ

pub data End : Type 0 where
  acquired : (slot : ℕ) → End
  timed_out cancelled redis_unavailable not_needed : End

-- The lines that the task's log gets.
pub data Notice : Type 0 where
  waiting : Notice
  freed : (slot : ℕ) → Notice
  unavailable : Notice

abbrev pub sleep_micros : ℕ
sleep_micros = 1_000_000

unfoldable pub is_granted : Attempt → Bool
is_granted granted = true
is_granted taken = false
is_granted failing = false

-- `for slot_idx, slot_lock in enumerate(slot_locks, start=1)`, from `slot` on
unfoldable pub try_slots : (answers : ℕ → Attempt) (count slot : ℕ) → Option ℕ
unfolding is_granted
try_slots answers zero slot = none
try_slots answers (suc count) slot =
    let rest = try_slots answers count (slot + 1) in
    if is_granted (answers slot) then some slot else rest

unfoldable pub with_waiting : (waiting_logged : Bool) → List Notice → List Notice
with_waiting waiting_logged notices = if waiting_logged then notices else waiting ∷ notices

-- the rest of a turn, by what the slots answered; `rest` is what the next turns come to
unfoldable pub after_try :
    (turn : Turn) (waiting_logged : Bool) (notices : List Notice)
    (rest : Option (End × List Notice))
    → Option ℕ
    → Option (End × List Notice)
unfolding with_waiting
after_try turn waiting_logged notices rest (some slot) =
    some (acquired slot, if waiting_logged then freed slot ∷ notices else notices)
after_try turn waiting_logged notices rest none =
    if turn.stop_asleep then some (cancelled, with_waiting waiting_logged notices) else rest

module _ (max_slots wait_micros : ℕ) (turns : ℕ → Turn) where
  -- `while True`, from turn `k` on, `elapsed` after the start; `none` where the fuel is out
  unfoldable pub wait_loop :
      (fuel k elapsed : ℕ) (waiting_logged : Bool) (notices : List Notice)
      → Option (End × List Notice)
  unfolding with_waiting
  wait_loop zero k elapsed waiting_logged notices = none
  wait_loop (suc fuel) k elapsed waiting_logged notices =
      let turn = turns k in
      let rest =
        wait_loop fuel (suc k) (elapsed + sleep_micros + turn.delay) true
          (with_waiting waiting_logged notices) in
      if turn.stop_now
      then some (cancelled, notices)
      else if leb wait_micros elapsed
      then some (timed_out, notices)
      else after_try turn waiting_logged notices rest (try_slots turn.answers max_slots 1)

-- `_is_large_bulk_operation` and `_effective_jump_host_wait_seconds`, for a batch of that many devices
unfoldable pub effective_jump_host_wait_seconds : Env → (bulk_devices : ℕ) → ℕ
effective_jump_host_wait_seconds env bulk_devices =
    if leb (large_bulk_transient_retry_threshold env) bulk_devices
    then max 60 (jump_host_lock_wait_seconds_large_bulk env)
    else jump_host_lock_wait_seconds env

-- The whole context up to its `yield`: `needed` says that the device has a lock, `redis` that there is a
-- client. The fuel is one turn for each second to wait, and one more.
unfoldable pub jump_host_lock_context :
    (needed redis : Bool) (max_slots wait_seconds : ℕ) (turns : ℕ → Turn)
    → Option (End × List Notice)
jump_host_lock_context false redis max_slots wait_seconds turns = some (not_needed, [])
jump_host_lock_context true false max_slots wait_seconds turns =
    some (redis_unavailable, unavailable ∷ [])
jump_host_lock_context true true max_slots wait_seconds turns =
    wait_loop max_slots (wait_seconds * sleep_micros) turns (suc wait_seconds) 0 0 false []
