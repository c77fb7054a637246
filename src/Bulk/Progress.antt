-- ===== src/Bulk/Progress.antt =====
-- app/web/tenant/backups.py: `_refresh_bulk_task_meta`, the progress of a batch while it runs, made anew from
-- its tasks each time that its page asks. The figures that tasks report are natural numbers.
pub mod Task
pub mod Pending
pub mod Figures
pub mod Polls
pub mod Ending
pub mod Disagreement
mod Samples
use new_backup_center.Base.{
  ℕ, ◌+◌, ◌-◌, ◌*◌, min, max, Bool, true, false, not, ◌&&◌, ◌||◌, Option, none, some, String, List,
  [], ◌∷◌, length, sort_by, text_ltb, normalize, is_in, str_eq, ltb, leb, ◌==◌, or_else,
  if◌then◌else◌,
}
use new_backup_center.Base.Dict.{Dict, get, put, has_key}
use new_backup_center.Bulk.{present, or_text}
use new_backup_center.Bulk.Followup.{add_id}
use new_backup_center.Bulk.Progress.Task.{
  Floats, Child, Running, Ask, state_of, count_known, with_success, with_failure,
}
use new_backup_center.Bulk.Progress.Pending.{with_pending}

-- What the meta of the batch held before.
pub record Before : Type 0 where
  pub completed : Bool
  pub cancel_requested : Bool
  pub operation_kind : String
  pub force_cancelled_child_ids : List String
  pub child_task_device_count : Dict ℕ
  pub total_tasks : ℕ
  pub total_devices : ℕ
  pub done_tasks : ℕ
  pub success_tasks : ℕ
  pub failed_tasks : ℕ
  pub done_devices : ℕ
  pub success_devices : ℕ
  pub failed_devices : ℕ
  pub no_ping_devices : ℕ
  pub ping_ok_login_fail_devices : ℕ
  pub ping_login_ok_devices : ℕ
  pub failure_category_counts : Dict ℕ
  pub finished_task_ids : List String

-- What the page gets, without its message and the marks of the follow-up, which it takes over.
pub record Progress : Type 0 where
  pub operation_kind : String
  pub cancel_requested : Bool
  pub status : String
  pub progress : ℕ
  pub completed : Bool
  pub total_tasks : ℕ
  pub done_tasks : ℕ
  pub success_tasks : ℕ
  pub failed_tasks : ℕ
  pub total_devices : ℕ
  pub done_devices : ℕ
  pub success_devices : ℕ
  pub failed_devices : ℕ
  pub running_tasks : ℕ
  pub queued_tasks : ℕ
  pub pending_devices : ℕ
  pub running_pending_devices : ℕ
  pub queued_pending_devices : ℕ
  pub no_ping_devices : ℕ
  pub ping_ok_login_fail_devices : ℕ
  pub ping_login_ok_devices : ℕ
  pub failure_category_counts : Dict ℕ
  pub finished_task_ids : List String

abbrev pub no_failures : Dict ℕ
no_failures =
    ("auth", 0)
    ∷ ("timeout", 0)
    ∷ ("port_refused", 0)
    ∷ ("vpn", 0)
    ∷ ("no_ping", 0)
    ∷ ("connection", 0)
    ∷ ("script", 0)
    ∷ ("unknown", 0)
    ∷ []

unfoldable pub kind_of : Before → String
unfolding or_text normalize
kind_of before = normalize (some (or_text before.operation_kind "backup_bulk"))

unfoldable pub ask_of : Before → Ask
unfolding kind_of present
ask_of before = record {
  is_audit = str_eq (kind_of before) "connection_audit";
  cancel_requested = before.cancel_requested;
  force_cancelled_ids = present before.force_cancelled_child_ids;
}

-- `max` of the new and the old count of each category that was counted before
unfoldable pub keep_counts : (before counts : Dict ℕ) → Dict ℕ
unfolding get put
keep_counts [] counts = counts
keep_counts ((category, n) ∷ before) counts =
    keep_counts before (put category (max (or_else (get category counts) 0) n) counts)

module _ {ℓ} {F : Type ℓ} (ops : Floats F) where
  unfoldable pub at_start : (finished : List String) → Running F
  at_start finished = record {
    success_tasks = 0;
    failed_tasks = 0;
    done_tasks = 0;
    running_tasks = 0;
    queued_tasks = 0;
    running_pending_devices = 0;
    queued_pending_devices = 0;
    done_devices = 0;
    estimated = ops.of_ℕ 0;
    success_devices = 0;
    failed_devices = 0;
    no_ping_devices = 0;
    ping_ok_login_fail_devices = 0;
    ping_login_ok_devices = 0;
    failure_category_counts = no_failures;
    finished_task_ids = finished;
  }

  -- one turn of the loop
  unfoldable pub with_child : Ask → Dict ℕ → Child F → Running F → Running F
  unfolding get is_in state_of
  with_child ask counts child t =
      let state = state_of child in
      let device_total = or_else (get child.id counts) 1 in
      if str_eq state "SUCCESS"
      then with_success device_total child t
      else if is_in state ("FAILURE" ∷ "REVOKED" ∷ [])
      then with_failure ask device_total child t
      else with_pending ops ask state (max 1 device_total) child t

  unfoldable pub walk_children : Ask → Dict ℕ → List (Child F) → Running F → Running F
  walk_children ask counts [] t = t
  walk_children ask counts (child ∷ children) t =
      walk_children ask counts children (with_child ask counts child t)

  -- Counts never go back, so that a batch does not lose what Celery has forgotten.
  unfoldable pub kept : Before → Running F → Running F
  unfolding keep_counts
  kept before t =
      let success_tasks = max t.success_tasks before.success_tasks in
      let failed_tasks = max t.failed_tasks before.failed_tasks in
      let success_devices = max t.success_devices before.success_devices in
      let failed_devices = max t.failed_devices before.failed_devices in
      record t {
        success_tasks = success_tasks;
        failed_tasks = failed_tasks;
        done_tasks = max (max t.done_tasks before.done_tasks) (success_tasks + failed_tasks);
        success_devices = success_devices;
        failed_devices = failed_devices;
        done_devices =
            max (max t.done_devices before.done_devices) (success_devices + failed_devices);
        no_ping_devices = max t.no_ping_devices before.no_ping_devices;
        ping_ok_login_fail_devices =
            max t.ping_ok_login_fail_devices before.ping_ok_login_fail_devices;
        ping_login_ok_devices = max t.ping_login_ok_devices before.ping_login_ok_devices;
        failure_category_counts =
            keep_counts before.failure_category_counts t.failure_category_counts;
      }

  unfoldable pub total_devices_of : Before → Running F → ℕ
  total_devices_of before t =
      let given =
        if before.total_devices == 0
        then t.done_devices + t.running_tasks + t.queued_tasks
        else before.total_devices in
      max (max given before.total_devices) t.done_devices

  unfoldable pub percent_of : (total_tasks total_devices : ℕ) → Running F → ℕ
  percent_of total_tasks total_devices t =
      let base =
        if ltb 0 total_devices
        then ops.add (ops.of_ℕ t.done_devices) t.estimated
        else ops.of_ℕ t.done_tasks in
      let total = if ltb 0 total_devices then total_devices else total_tasks in
      min 100 (ops.truncate (ops.mul (ops.div base (ops.of_ℕ (max 1 total))) (ops.of_ℕ 100)))

-- the status of a batch that has tasks
unfoldable pub status_when : (is_audit cancelled completed : Bool) (failed_devices : ℕ) → String
status_when is_audit cancelled true failed_devices =
    if cancelled
    then "stopped"
    else if is_audit
    then "success"
    else if ltb 0 failed_devices
    then "failed"
    else "success"
status_when is_audit cancelled false failed_devices = if cancelled then "stopping" else "running"

module _ {ℓ} {F : Type ℓ} (ops : Floats F) where
  unfoldable pub progress_of : Before → (total_tasks : ℕ) → Running F → Progress
  unfolding ask_of sort_by text_ltb
  progress_of before total_tasks t =
      let total_devices = total_devices_of ops before t in
      let no_tasks = total_tasks == 0 in
      let completed = no_tasks || before.completed || leb total_tasks t.done_tasks in
      let percent = percent_of ops total_tasks total_devices t in
      record {
        operation_kind = kind_of before;
        cancel_requested = before.cancel_requested;
        status =
            if no_tasks
            then (if before.cancel_requested then "stopped" else "success")
            else status_when (ask_of before).is_audit before.cancel_requested completed
                t.failed_devices;
        progress = if no_tasks then 100 else if completed then percent else max 5 percent;
        completed = completed;
        total_tasks = total_tasks;
        done_tasks = t.done_tasks;
        success_tasks = t.success_tasks;
        failed_tasks = t.failed_tasks;
        total_devices = total_devices;
        done_devices = t.done_devices;
        success_devices = t.success_devices;
        failed_devices = t.failed_devices;
        running_tasks = t.running_tasks;
        queued_tasks = total_tasks - t.done_tasks - t.running_tasks;
        pending_devices =
            max (total_devices - t.done_devices)
              (t.running_pending_devices + t.queued_pending_devices);
        running_pending_devices = t.running_pending_devices;
        queued_pending_devices = t.queued_pending_devices;
        no_ping_devices = t.no_ping_devices;
        ping_ok_login_fail_devices = t.ping_ok_login_fail_devices;
        ping_login_ok_devices = t.ping_login_ok_devices;
        failure_category_counts = t.failure_category_counts;
        finished_task_ids = sort_by text_ltb t.finished_task_ids;
      }

  -- `children` are the tasks of the batch, as they stand.
  unfoldable pub refresh_bulk_task_meta : List (Child F) → Before → Progress
  unfolding present
  refresh_bulk_task_meta children before =
      let listed = if before.total_tasks == 0 then length children else before.total_tasks in
      progress_of before (max listed before.total_tasks) (
        kept ops before (
          walk_children ops (ask_of before) before.child_task_device_count children
            (at_start ops (present before.finished_task_ids))))

  -- `update_task_meta(task_id, **refreshed)`, of what the next refresh reads
  unfoldable pub refreshed_meta : Progress → Before → Before
  refreshed_meta p before = record before {
    completed = p.completed;
    cancel_requested = p.cancel_requested;
    operation_kind = p.operation_kind;
    total_tasks = p.total_tasks;
    total_devices = p.total_devices;
    done_tasks = p.done_tasks;
    success_tasks = p.success_tasks;
    failed_tasks = p.failed_tasks;
    done_devices = p.done_devices;
    success_devices = p.success_devices;
    failed_devices = p.failed_devices;
    no_ping_devices = p.no_ping_devices;
    ping_ok_login_fail_devices = p.ping_ok_login_fail_devices;
    ping_login_ok_devices = p.ping_login_ok_devices;
    failure_category_counts = p.failure_category_counts;
    finished_task_ids = p.finished_task_ids;
  }

  -- The page asks again and again; each time the tasks stand as they then do.
  unfoldable pub poll_all : List (List (Child F)) → Before → Before
  unfolding refreshed_meta
  poll_all [] before = before
  poll_all (children ∷ polls) before =
      poll_all polls (refreshed_meta (refresh_bulk_task_meta children before) before)
