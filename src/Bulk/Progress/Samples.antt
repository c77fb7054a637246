-- ===== src/Bulk/Progress/Samples.antt =====
-- The page of a batch with one task that ended and one that waits, and the theorems on the page at it.
use new_backup_center.Bulk.Progress.{
  percent_of, total_devices_of, kept, progress_of, with_child, Before, at_start, walk_children,
  refresh_bulk_task_meta,
}
use new_backup_center.Bulk.Progress.Task.{
  report_of_one, has_figures, audit_of, with_success, Floats, TaskResult, Child, Ask, report_of,
  filled,
}
use new_backup_center.Bulk.Progress.Pending.{
  has_started, with_waiting_task, is_given_up, with_pending,
}
use new_backup_center.Base.{
  ℕ, ◌+◌, ◌-◌, ◌*◌, ◌/◌, ◌≤◌, ◌≡◌, min, max, refl, true, false, none, some, [], ◌∷◌, ltb, pos,
  arith, length,
}
use new_backup_center.Bulk.{Payload, empty_payload}
use new_backup_center.Bulk.Snapshot.{reported, with_missing}
use new_backup_center.Bulk.Progress.Figures.{each_task_once, figures_bounded}
use new_backup_center.Bulk.Progress.Ending.{has_ended, ended_shown}
use new_backup_center.Bulk.Progress.Disagreement.{failed_task_disagrees}

-- whole numbers in place of floats
abbrev whole : Floats ℕ
whole = record {
  of_ℕ = λ n. n;
  hundredth = 0;
  nearly_one = 0;
  add = ◌+◌;
  sub = ◌-◌;
  mul = ◌*◌;
  div = ◌/◌;
  smaller = min;
  larger = max;
  is_positive = ltb 0;
  truncate = λ n. n;
}

abbrev failed_result : TaskResult
failed_result = record {
  check_type = "";
  classification = "";
  ping_ok = false;
  login_ok = false;
  details = [];
  total = none;
  success = some 0;
  failed = none;
  error = "";
  message = "timed out";
  failure_category = "";
}

abbrev ended_task : Child ℕ
ended_task = record {
  id = "t1";
  state = "SUCCESS";
  async_result = some failed_result;
  completed = true;
  status = some "failed";
  cached_result = none;
  progress = 100;
  done_devices = 0;
  success_devices = 0;
  failed_devices = 0;
  current_device_fraction = 0;
}

abbrev waiting_task : Child ℕ
waiting_task = record ended_task {
  id = "t2";
  state = "PENDING";
  completed = false;
  async_result = none;
}

abbrev page : Before
page = record {
  completed = false;
  cancel_requested = false;
  operation_kind = "";
  force_cancelled_child_ids = [];
  child_task_device_count = ("t1", 3) ∷ [];
  total_tasks = 2;
  total_devices = 4;
  done_tasks = 0;
  success_tasks = 0;
  failed_tasks = 0;
  done_devices = 0;
  success_devices = 0;
  failed_devices = 0;
  no_ping_devices = 0;
  ping_ok_login_fail_devices = 0;
  ping_login_ok_devices = 0;
  failure_category_counts = [];
  finished_task_ids = [];
}

abbrev single : Ask
single = record { is_audit = false; cancel_requested = false; force_cancelled_ids = [] }

each_task_once_example : (1 ≡ 0 + 1) × (1 + 0 + 1 ≡ length (ended_task ∷ waiting_task ∷ []))
unfolding walk_children with_child with_pending is_given_up with_waiting_task has_started
    with_success at_start filled report_of audit_of has_figures report_of_one
each_task_once_example =
    each_task_once whole single page.child_task_device_count (ended_task ∷ waiting_task ∷ []) []

figures_bounded_example : (0 + 1 ≤ 1) × (2 + 1 ≤ 3) × (3 ≤ 4) × (5 ≤ 100)
unfolding refresh_bulk_task_meta progress_of kept total_devices_of walk_children with_child
    with_pending is_given_up with_waiting_task has_started with_success filled at_start report_of
    audit_of has_figures report_of_one percent_of
figures_bounded_example = figures_bounded whole (ended_task ∷ waiting_task ∷ []) page

ended_shown_example :
    (refresh_bulk_task_meta whole (ended_task ∷ ended_task ∷ []) page).completed ≡ true
unfolding has_ended
ended_shown_example =
    ended_shown whole (ended_task ∷ ended_task ∷ []) page (refl, (refl, tt)) (omega arith)

abbrev failed_payload : Payload
failed_payload = record empty_payload { success = some (pos 0) }

failed_task_disagrees_example :
    ((filled (report_of 3 (some failed_result))).failed ≡ 1)
    × ((filled (report_of 3 (some failed_result))).success ≡ 3 - 1)
    × ((with_missing 3 (reported 3 failed_payload)).failed ≡ 3)
    × ((with_missing 3 (reported 3 failed_payload)).success ≡ 0)
unfolding audit_of empty_payload
failed_task_disagrees_example =
    failed_task_disagrees 3 failed_result failed_payload (omega arith) refl refl refl refl refl
