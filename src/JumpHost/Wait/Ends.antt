-- ===== src/JumpHost/Wait/Ends.antt =====
-- The wait for a slot ends.
use new_backup_center.Base.{
  ℕ, zero, suc, ◌+◌, ◌*◌, ◌≤◌, ◌≡◌, refl, Bool, true, false, Option, none, some, is_some, List, [],
  arith,
}
use new_backup_center.JumpHost.Wait.{
  Turn, End, Notice, sleep_micros, try_slots, with_waiting, after_try, wait_loop,
  jump_host_lock_context,
}

after_try-some :
    (turn : Turn) (logged : Bool) (notices : List Notice) (rest : Option (End × List Notice))
    (slot : Option ℕ)
    → is_some rest ≡ true
    → is_some (after_try turn logged notices rest slot) ≡ true
unfolding after_try
after_try-some turn logged notices rest (some slot) h = refl
after_try-some turn logged notices rest none h = ground (arith, h)

module _ (max_slots wait_micros : ℕ) (turns : ℕ → Turn) where
  loop-ends :
      (fuel k elapsed : ℕ) (logged : Bool) (notices : List Notice)
      → wait_micros ≤ elapsed + fuel * sleep_micros
      → is_some (wait_loop max_slots wait_micros turns (suc fuel) k elapsed logged notices) ≡ true
  unfolding wait_loop
  loop-ends zero k elapsed logged notices h = ground (arith, h)
  loop-ends (suc fuel) k elapsed logged notices h =
      let later = elapsed + sleep_micros + (turns k).delay in
      let rest =
        loop-ends fuel (suc k) later true (with_waiting logged notices) (omega (arith, h)) in
      let next =
        wait_loop max_slots wait_micros turns (suc fuel) (suc k) later true
          (with_waiting logged notices) in
      ground (
        arith,
        after_try-some (turns k) logged notices next (try_slots (turns k).answers max_slots 1) rest,
      )

-- Whatever the slots answer and however long a turn takes, the wait ends, with one turn for each second that
-- it may last and one more: the worker has a slot, is told that the time is over, or is cancelled.
pub wait_ends :
    (needed redis : Bool) (max_slots wait_seconds : ℕ) (turns : ℕ → Turn)
    → is_some (jump_host_lock_context needed redis max_slots wait_seconds turns) ≡ true
unfolding jump_host_lock_context
wait_ends false redis max_slots wait_seconds turns = refl
wait_ends true false max_slots wait_seconds turns = refl
wait_ends true true max_slots wait_seconds turns =
    loop-ends max_slots (wait_seconds * sleep_micros) turns wait_seconds 0 0 false [] (omega arith)
