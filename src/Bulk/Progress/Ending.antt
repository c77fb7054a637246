-- ===== src/Bulk/Progress/Ending.antt =====
-- The page tells that a batch has ended once each of its tasks has.
use new_backup_center.Base.{
  ℕ, ◌+◌, ◌≤◌, ◌≡◌, refl, inl, inr, Bool-cases, Bool, true, false, String, List, [], ◌∷◌, All, any,
  length, is_in, str_eq, arith,
}
use new_backup_center.Base.Dict.{Dict}
use new_backup_center.Bulk.{present}
use new_backup_center.Bulk.Progress.Task.{
  Floats, Child, Running, Ask, state_of, with_success, with_failure,
}
use new_backup_center.Bulk.Progress.{
  Before, ask_of, at_start, with_child, walk_children, kept, progress_of, refresh_bulk_task_meta,
}

other_end :
    (state : String)
    → str_eq state "SUCCESS" ≡ false
    → is_in state ("SUCCESS" ∷ "FAILURE" ∷ "REVOKED" ∷ []) ≡ true
    → is_in state ("FAILURE" ∷ "REVOKED" ∷ []) ≡ true
unfolding is_in any
other_end state e ended = ground (arith, e, ended)

-- Celery, or the meta, says that the task has ended.
unfoldable pub has_ended {ℓ} : {F : Type ℓ} → Child F → Bool
unfolding is_in state_of
has_ended child = is_in (state_of child) ("SUCCESS" ∷ "FAILURE" ∷ "REVOKED" ∷ [])

module _ {ℓ} {F : Type ℓ} (ops : Floats F) where
  ended-done :
      (ask : Ask) (counts : Dict ℕ) (child : Child F) (t : Running F)
      → has_ended child ≡ true
      → (with_child ops ask counts child t).done_tasks ≡ t.done_tasks + 1
  unfolding with_child with_success with_failure has_ended
  ended-done ask counts child t ended = elim (Bool-cases (str_eq (state_of child) "SUCCESS")) [
    | inl e ↦ rw e refl
    | inr e ↦ rw (e, other_end (state_of child) e ended) refl
  ]

  walk-done :
      (ask : Ask) (counts : Dict ℕ) (children : List (Child F)) (t : Running F)
      → All (λ child. has_ended child ≡ true) children
      → (walk_children ops ask counts children t).done_tasks ≡ t.done_tasks + length children
  unfolding walk_children
  walk-done ask counts [] t ended = omega arith
  walk-done ask counts (child ∷ children) t ended = omega (
    arith,
    walk-done ask counts children (with_child ops ask counts child t) ended.1,
    ended-done ask counts child t ended.0,
  )

  -- A batch whose tasks are all there, and have all ended, is shown as completed.
  pub ended_shown :
      (children : List (Child F)) (before : Before)
      → All (λ child. has_ended child ≡ true) children
      → before.total_tasks ≤ length children
      → (refresh_bulk_task_meta ops children before).completed ≡ true
  unfolding refresh_bulk_task_meta progress_of kept at_start
  ended_shown children before ended listed =
      let done =
        walk-done (ask_of before) before.child_task_device_count children
          (at_start ops (present before.finished_task_ids)) ended in
      ground (arith, done, listed)
