-- ===== src/JumpHost/Wait/Samples.antt =====
-- A worker that gets a slot in its second turn, and the theorems on the wait at it.
use new_backup_center.JumpHost.Wait.{
  try_slots, after_try, wait_loop, granted, taken, Turn, acquired, waiting, freed, sleep_micros,
  jump_host_lock_context,
}
use new_backup_center.Base.{
  ℕ, ◌*◌, ◌≡◌, refl, true, false, some, is_some, ◌==◌, [], ◌∷◌, if◌then◌else◌,
}
use new_backup_center.JumpHost.Wait.Ends.{wait_ends}
use new_backup_center.JumpHost.Wait.Reasons.{IsExplained, wait-IsExplained}

-- the second slot is free from the second turn on
abbrev second_turn : ℕ → Turn
second_turn k = record {
  stop_now = false;
  answers = λ slot. if k == 0 then taken else if slot == 2 then granted else taken;
  stop_asleep = false;
  delay = 0;
}

waits_a_turn :
    jump_host_lock_context true true 2 5 second_turn ≡ some (acquired 2, freed 2 ∷ waiting ∷ [])
unfolding jump_host_lock_context wait_loop after_try try_slots
waits_a_turn = refl

wait_ends_example : is_some (jump_host_lock_context true true 2 5 second_turn) ≡ true
wait_ends_example = wait_ends true true 2 5 second_turn

wait-IsExplained_example : IsExplained 2 (5 * sleep_micros) second_turn (acquired 2)
wait-IsExplained_example =
    wait-IsExplained 2 5 second_turn (acquired 2) (freed 2 ∷ waiting ∷ []) waits_a_turn
