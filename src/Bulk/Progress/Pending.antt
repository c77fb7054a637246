-- ===== src/Bulk/Progress/Pending.antt =====
-- app/web/tenant/backups.py: what a task that has not ended adds to the progress of its batch.
use new_backup_center.Base.{
  ℕ, ◌+◌, ◌-◌, min, max, Bool, true, false, ◌&&◌, ◌||◌, String, [], ◌∷◌, is_in, str_eq, ltb, ◌==◌,
  if◌then◌else◌,
}
use new_backup_center.Bulk.Followup.{add_id}
use new_backup_center.Bulk.Progress.Task.{Floats, Child, Running, Ask, count_known}

-- whether the batch stops and gives up this task: one of those that it names, or any where it names none
unfoldable pub is_given_up : Ask → (id state : String) → Bool
unfolding is_in
is_given_up ask id state =
    ask.cancel_requested
    && (is_in id ask.force_cancelled_ids
        || (elim ask.force_cancelled_ids [ [] ↦ true | _ ∷ _ ↦ false ]))
    && is_in state ("PENDING" ∷ "RECEIVED" ∷ "RETRY" ∷ "STARTED" ∷ [])

module _ {ℓ} {F : Type ℓ} (ops : Floats F) where
  -- how much of the device that a task is at is done
  unfoldable pub partial_of : (device_total : ℕ) → Child F → F
  partial_of device_total child =
      let zero_float = ops.of_ℕ 0 in
      let fraction =
        ops.larger zero_float (ops.smaller ops.nearly_one child.current_device_fraction) in
      let left = ops.sub (ops.of_ℕ device_total) (ops.of_ℕ child.done_devices) in
      let by_progress =
        ops.sub (ops.mul (ops.div (ops.of_ℕ child.progress) (ops.of_ℕ 100)) (ops.of_ℕ device_total))
          (ops.of_ℕ child.done_devices) in
      if ltb 0 child.done_devices || ops.is_positive fraction
      then ops.smaller (ops.larger zero_float (ops.sub left ops.hundredth)) fraction
      else if ltb 0 child.progress
      then ops.smaller (ops.sub (ops.of_ℕ device_total) ops.hundredth)
          (ops.larger zero_float by_progress)
      else zero_float

  -- a task with several devices that has started counts with those that it has done
  unfoldable pub with_started : (device_total : ℕ) → Child F → Running F → Running F
  unfolding partial_of
  with_started device_total child t = record t {
    done_devices = t.done_devices + min device_total child.done_devices;
    success_devices = t.success_devices + child.success_devices;
    failed_devices = t.failed_devices + child.failed_devices;
    estimated = ops.add t.estimated (ops.larger (ops.of_ℕ 0) (partial_of device_total child));
  }

unfoldable pub has_started : (state : String) (device_total : ℕ) → Bool
unfolding is_in
has_started state device_total = is_in state ("STARTED" ∷ "RETRY" ∷ []) && ltb 1 device_total

module _ {ℓ} {F : Type ℓ} where
  unfoldable pub with_given_up : Ask → (device_total : ℕ) → Child F → Running F → Running F
  unfolding add_id count_known
  with_given_up ask device_total child t =
      let remaining = device_total - child.done_devices in
      record t {
        failed_tasks = t.failed_tasks + 1;
        done_tasks = t.done_tasks + 1;
        finished_task_ids = add_id child.id t.finished_task_ids;
        done_devices = t.done_devices + remaining;
        failed_devices = t.failed_devices + remaining;
        failure_category_counts = count_known "unknown" remaining t.failure_category_counts;
        ping_ok_login_fail_devices =
            if ask.is_audit
            then t.ping_ok_login_fail_devices + remaining
            else t.ping_ok_login_fail_devices;
      }

  unfoldable pub with_waiting_task :
      (state : String) (device_total : ℕ) → Child F → Running F → Running F
  with_waiting_task state device_total child t =
      let remaining = device_total - child.done_devices in
      if str_eq state "STARTED"
      then record t {
        running_tasks = t.running_tasks + 1;
        running_pending_devices = t.running_pending_devices + max 1 remaining;
      }
      else record t {
        queued_tasks = t.queued_tasks + 1;
        queued_pending_devices =
            t.queued_pending_devices + max 1 (if remaining == 0 then device_total else remaining);
      }

  -- a task in any other state; `device_total` is 1 at least
  unfoldable pub with_pending :
      Floats F → Ask → (state : String) (device_total : ℕ) → Child F → Running F → Running F
  with_pending ops ask state device_total child t =
      let known =
        if has_started state device_total then with_started ops device_total child t else t in
      if is_given_up ask child.id state
      then with_given_up ask device_total child known
      else with_waiting_task state device_total child known
