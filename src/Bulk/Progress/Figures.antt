-- ===== src/Bulk/Progress/Figures.antt =====
-- The progress of a batch adds up.
use new_backup_center.Base.{
  ℕ, ◌+◌, ◌≤◌, max, ◌≡◌, refl, ◌||◌, Option, none, some, String, List, [], ◌∷◌, length, is_in,
  str_eq, or_else, or_option, leb, ◌==◌, if◌then◌else◌, if_rule, arith,
}
use new_backup_center.Base.Dict.{Dict, get}
use new_backup_center.Bulk.{present}
use new_backup_center.Bulk.Progress.Task.{
  Floats, Child, Running, Ask, Audit, ready, no_ping, login_fail, audit_in, with_audit, state_of,
  with_success, with_failure,
}
use new_backup_center.Bulk.Progress.Pending.{
  with_started, with_given_up, with_waiting_task, with_pending,
}
use new_backup_center.Bulk.Progress.{
  Before, ask_of, at_start, with_child, walk_children, kept, total_devices_of, percent_of,
  progress_of, refresh_bulk_task_meta,
}

module _ {ℓ} {F : Type ℓ} (ops : Floats F) where
  -- The tasks that are done went well or failed.
  abbrev IsSplit : Running F → Type 0
  IsSplit t = t.done_tasks ≡ t.success_tasks + t.failed_tasks

  -- One task more, which is done, runs or waits.
  abbrev HasOneMore : Running F → Running F → Type 0
  HasOneMore t u =
      (IsSplit t → IsSplit u)
      × (u.done_tasks + u.running_tasks + u.queued_tasks
          ≡ t.done_tasks + t.running_tasks + t.queued_tasks + 1)

  -- An audit counts where it belongs, and nothing else.
  audit-same :
      (audit : Option Audit) (t : Running F)
      → ((with_audit audit t).running_tasks ≡ t.running_tasks)
        × ((with_audit audit t).queued_tasks ≡ t.queued_tasks)
  unfolding with_audit
  audit-same none t = (refl, refl)
  audit-same (some ready) t = (refl, refl)
  audit-same (some no_ping) t = (refl, refl)
  audit-same (some login_fail) t = (refl, refl)

  success-HasOneMore :
      (device_total : ℕ) (child : Child F) (t : Running F)
      → HasOneMore t (with_success device_total child t)
  unfolding with_success
  success-HasOneMore device_total child t =
      let result = or_option child.async_result child.cached_result in
      ground (arith, audit-same (audit_in result) t)

  failure-HasOneMore :
      (ask : Ask) (device_total : ℕ) (child : Child F) (t : Running F)
      → HasOneMore t (with_failure ask device_total child t)
  unfolding with_failure
  failure-HasOneMore ask device_total child t = ground arith

  pending-HasOneMore :
      (ask : Ask) (state : String) (device_total : ℕ) (child : Child F) (t : Running F)
      → HasOneMore t (with_pending ops ask state device_total child t)
  unfolding with_pending with_started with_given_up with_waiting_task
  pending-HasOneMore ask state device_total child t = ground arith

  child-HasOneMore :
      (ask : Ask) (counts : Dict ℕ) (child : Child F) (t : Running F)
      → HasOneMore t (with_child ops ask counts child t)
  unfolding with_child
  child-HasOneMore ask counts child t =
      let state = state_of child in
      let device_total = or_else (get child.id counts) 1 in
      if_rule (HasOneMore t) (str_eq state "SUCCESS") (with_success device_total child t)
        (if is_in state ("FAILURE" ∷ "REVOKED" ∷ [])
          then with_failure ask device_total child t
          else with_pending ops ask state (max 1 device_total) child t)
        (success-HasOneMore device_total child t)
        (if_rule (HasOneMore t) (is_in state ("FAILURE" ∷ "REVOKED" ∷ []))
          (with_failure ask device_total child t)
          (with_pending ops ask state (max 1 device_total) child t)
          (failure-HasOneMore ask device_total child t)
          (pending-HasOneMore ask state (max 1 device_total) child t))

  walk-counts :
      (ask : Ask) (counts : Dict ℕ) (children : List (Child F)) (t : Running F)
      → IsSplit t
      → IsSplit (walk_children ops ask counts children t)
        × ((walk_children ops ask counts children t).done_tasks
              + (walk_children ops ask counts children t).running_tasks
              + (walk_children ops ask counts children t).queued_tasks
            ≡ t.done_tasks + t.running_tasks + t.queued_tasks + length children)
  unfolding walk_children
  walk-counts ask counts [] t split = (split, omega arith)
  walk-counts ask counts (child ∷ children) t split =
      let more = child-HasOneMore ask counts child t in
      let rest =
        walk-counts ask counts children (with_child ops ask counts child t) (more.0 split) in
      (rest.0, omega (arith, rest.1, more.1))

  -- Each task of a batch counts once: it has ended, runs, or waits, and those that have ended went well or
  -- failed.
  pub each_task_once :
      (ask : Ask) (counts : Dict ℕ) (children : List (Child F)) (finished : List String)
      → let t = walk_children ops ask counts children (at_start ops finished) in
        (t.done_tasks ≡ t.success_tasks + t.failed_tasks)
        × (t.done_tasks + t.running_tasks + t.queued_tasks ≡ length children)
  unfolding at_start
  each_task_once ask counts children finished =
      let counted = walk-counts ask counts children (at_start ops finished) refl in
      (counted.0, omega (arith, counted.1))

  percent_of-le_100 :
      (total_tasks total_devices : ℕ) (t : Running F)
      → percent_of ops total_tasks total_devices t ≤ 100
  unfolding percent_of
  percent_of-le_100 total_tasks total_devices t = omega arith

  progress_of-le_100 :
      (before : Before) (total : ℕ) (t : Running F)
      → (progress_of ops before total t).progress ≤ 100
  unfolding progress_of
  progress_of-le_100 before total t =
      let percent = percent_of ops total (total_devices_of ops before t) t in
      let bound = percent_of-le_100 total (total_devices_of ops before t) t in
      if_rule (λ n. n ≤ 100) (total == 0) 100
        (if (total == 0) || before.completed || leb total t.done_tasks
          then percent
          else max 5 percent)
        (omega arith)
        (if_rule (λ n. n ≤ 100) ((total == 0) || before.completed || leb total t.done_tasks) percent
          (max 5 percent) bound (omega (arith, bound)))

  -- The figures of the page add up: no more tasks went well or failed than are done, no more devices
  -- either, no more devices are done than there are, and the percentage is one.
  pub figures_bounded :
      (children : List (Child F)) (before : Before)
      → let p = refresh_bulk_task_meta ops children before in
        (p.success_tasks + p.failed_tasks ≤ p.done_tasks)
        × (p.success_devices + p.failed_devices ≤ p.done_devices)
        × (p.done_devices ≤ p.total_devices)
        × (p.progress ≤ 100)
  unfolding refresh_bulk_task_meta progress_of kept total_devices_of percent_of
  figures_bounded children before = (
    omega arith,
    omega arith,
    omega arith,
    progress_of-le_100 before
        (max (if before.total_tasks == 0 then length children else before.total_tasks)
          before.total_tasks)
        (kept ops before (
          walk_children ops (ask_of before) before.child_task_device_count children
            (at_start ops (present before.finished_task_ids)))),
  )
