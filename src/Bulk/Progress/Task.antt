-- ===== src/Bulk/Progress/Task.antt =====
-- app/web/tenant/backups.py: what one task of a batch adds to the progress of the batch.
use new_backup_center.Base.{
  ℕ, ◌+◌, ◌-◌, max, Bool, true, false, not, ◌&&◌, ◌||◌, Option, none, some, is_some, String, List,
  [], ◌∷◌, normalize, is_in, str_eq, ltb, ◌==◌, or_else, or_option, if◌then◌else◌,
}
use new_backup_center.Base.Dict.{Dict, get, put, has_key}
use new_backup_center.Bulk.{Detail}
use new_backup_center.Bulk.Snapshot.{category_or}
use new_backup_center.Bulk.Followup.{add_id}

-- Python's floats, which only the estimate for tasks under way and the percentage use.
pub record Floats {ℓ} (F : Type ℓ) : Type ℓ where
  pub of_ℕ : ℕ → F
  pub hundredth : F
  pub nearly_one : F
  pub add : F → F → F
  pub sub : F → F → F
  pub mul : F → F → F
  pub div : F → F → F
  pub smaller : F → F → F
  pub larger : F → F → F
  pub is_positive : F → Bool
  pub truncate : F → ℕ

-- The result of a task, a dict; a Boolean under `success` is 0 or 1.
pub record TaskResult : Type 0 where
  pub check_type : String
  pub classification : String
  pub ping_ok : Bool
  pub login_ok : Bool
  pub details : List (Option Detail)
  pub total : Option ℕ
  pub success : Option ℕ
  pub failed : Option ℕ
  pub error : String
  pub message : String
  pub failure_category : String

-- One task: what Celery says of it, its state in capitals, and what its meta says. `done_devices` is
-- `processed_devices` where the meta has no other.
pub record Child {ℓ} (F : Type ℓ) : Type ℓ where
  pub id : String
  pub state : String
  pub async_result : Option TaskResult
  pub completed : Bool
  pub status : Option String
  pub cached_result : Option TaskResult
  pub progress : ℕ
  pub done_devices : ℕ
  pub success_devices : ℕ
  pub failed_devices : ℕ
  pub current_device_fraction : F

pub record Running {ℓ} (F : Type ℓ) : Type ℓ where
  pub success_tasks : ℕ
  pub failed_tasks : ℕ
  pub done_tasks : ℕ
  pub running_tasks : ℕ
  pub queued_tasks : ℕ
  pub running_pending_devices : ℕ
  pub queued_pending_devices : ℕ
  pub done_devices : ℕ
  pub estimated : F
  pub success_devices : ℕ
  pub failed_devices : ℕ
  pub no_ping_devices : ℕ
  pub ping_ok_login_fail_devices : ℕ
  pub ping_login_ok_devices : ℕ
  pub failure_category_counts : Dict ℕ
  pub finished_task_ids : List String

-- What the page needs of the batch for its tasks.
pub record Ask : Type 0 where
  pub is_audit : Bool
  pub cancel_requested : Bool
  pub force_cancelled_ids : List String

-- Celery forgets results: a state that fell back to PENDING is read from the meta.
unfoldable pub state_of {ℓ} : {F : Type ℓ} → Child F → String
unfolding is_in normalize
state_of child =
    let status = normalize child.status in
    if is_in child.state ("PENDING" ∷ "RECEIVED" ∷ []) && child.completed
    then (if is_in status ("success" ∷ "completed" ∷ [])
        then "SUCCESS"
        else if is_in status ("failed" ∷ "failure" ∷ "error" ∷ "stopped" ∷ "revoked" ∷ [])
        then "FAILURE"
        else child.state)
    else child.state

pub data Audit : Type 0 where
  ready no_ping login_fail : Audit

-- `none` for a result that is no audit of a connection
unfoldable pub audit_of : TaskResult → Option Audit
unfolding normalize
audit_of r =
    let classification = normalize (some r.classification) in
    if not (str_eq (normalize (some r.check_type)) "connection_audit")
    then none
    else if str_eq classification "ready" || (r.ping_ok && r.login_ok)
    then some ready
    else if str_eq classification "no_ping" || not r.ping_ok
    then some no_ping
    else some login_fail

-- The devices of a task that went well and that failed, of how many, and whether it counts as done well.
pub record Report : Type 0 where
  pub device_total : ℕ
  pub success : ℕ
  pub failed : ℕ
  pub task_success : Bool

unfoldable pub report_of_audit : ℕ → Audit → Report
report_of_audit n ready = record { device_total = n; success = 1; failed = 0; task_success = true }
report_of_audit n no_ping = record {
  device_total = n;
  success = 0;
  failed = 1;
  task_success = false;
}
report_of_audit n login_fail = record {
  device_total = n;
  success = 0;
  failed = 1;
  task_success = false;
}

unfoldable pub has_figures : TaskResult → Bool
has_figures r = is_some r.total && is_some r.success && is_some r.failed

unfoldable pub report_of_figures : ℕ → TaskResult → Report
report_of_figures n r =
    let total = or_else r.total 0 in
    let failed = or_else r.failed 0 in
    record {
      device_total = if total == 0 then n else total;
      success = or_else r.success 0;
      failed = failed;
      task_success = failed == 0;
    }

-- a result without an audit and without all its figures
unfoldable pub report_of_one : ℕ → TaskResult → Report
report_of_one n r = elim r.success [
  | some success ↦
      if ltb 0 success
      then record { device_total = n; success = 1; failed = 0; task_success = true }
      else record { device_total = n; success = 0; failed = 1; task_success = false }
  | none ↦
      if not (str_eq r.error "")
      then record { device_total = n; success = 0; failed = max 1 n; task_success = false }
      else record { device_total = n; success = max 1 n; failed = 0; task_success = true }
]

unfoldable pub report_of : ℕ → Option TaskResult → Report
report_of n none = record { device_total = n; success = max 1 n; failed = 0; task_success = true }
report_of n (some r) = elim (audit_of r) [
  | some audit ↦ report_of_audit n audit
  | none ↦ if has_figures r then report_of_figures n r else report_of_one n r
]

-- Devices of which the result says nothing count as done well.
unfoldable pub filled : Report → Report
filled r =
    let counted = r.success + r.failed in
    if counted == 0
    then record r { success = max 1 r.device_total; failed = 0 }
    else if ltb counted r.device_total
    then record r { success = r.success + (r.device_total - counted) }
    else r

-- `failure_category_counts[cat] += n`, with "unknown" for a category that is not there
unfoldable pub count_known : String → ℕ → Dict ℕ → Dict ℕ
unfolding has_key get put
count_known category n counts =
    let known = if has_key category counts then category else "unknown" in
    put known (or_else (get known counts) 0 + n) counts

unfoldable pub count_known_details : List (Option Detail) → Dict ℕ → Dict ℕ
unfolding category_or
count_known_details [] counts = counts
count_known_details (none ∷ items) counts = count_known_details items counts
count_known_details (some item ∷ items) counts = count_known_details items (
    if item.success
    then counts
    else count_known (category_or item.failure_category item.message) 1 counts)

unfoldable pub count_result : Option TaskResult → Dict ℕ → Dict ℕ
unfolding category_or
count_result none counts = counts
count_result (some r) counts =
    let failed_one = count_known (category_or r.failure_category r.message) 1 counts in
    if is_some (audit_of r)
    then counts
    else if has_figures r
    then count_known_details r.details counts
    else elim r.success [
      | none ↦ counts
      | some success ↦ if ltb 0 success then counts else failed_one
    ]

unfoldable pub audit_in : Option TaskResult → Option Audit
audit_in none = none
audit_in (some r) = audit_of r

module _ {ℓ} {F : Type ℓ} where
  unfoldable pub with_audit : Option Audit → Running F → Running F
  with_audit none t = t
  with_audit (some ready) t = record t { ping_login_ok_devices = t.ping_login_ok_devices + 1 }
  with_audit (some no_ping) t = record t { no_ping_devices = t.no_ping_devices + 1 }
  with_audit (some login_fail) t = record t {
    ping_ok_login_fail_devices = t.ping_ok_login_fail_devices + 1;
  }

  -- a task in the state SUCCESS
  unfoldable pub with_success : (device_total : ℕ) → Child F → Running F → Running F
  unfolding with_audit audit_in add_id
  with_success device_total child t =
      let result = or_option child.async_result child.cached_result in
      let r = filled (report_of device_total result) in
      let audited = with_audit (audit_in result) t in
      record audited {
        done_tasks = t.done_tasks + 1;
        finished_task_ids = add_id child.id t.finished_task_ids;
        success_tasks = if r.task_success then t.success_tasks + 1 else t.success_tasks;
        failed_tasks = if r.task_success then t.failed_tasks else t.failed_tasks + 1;
        done_devices = t.done_devices + (r.success + r.failed);
        success_devices = t.success_devices + r.success;
        failed_devices = t.failed_devices + r.failed;
        failure_category_counts = count_result result t.failure_category_counts;
      }

  -- a task in the state FAILURE or REVOKED
  unfoldable pub with_failure : Ask → (device_total : ℕ) → Child F → Running F → Running F
  unfolding add_id count_known
  with_failure ask device_total child t =
      let remaining = max 1 device_total - child.done_devices in
      record t {
        failed_tasks = t.failed_tasks + 1;
        done_tasks = t.done_tasks + 1;
        finished_task_ids = add_id child.id t.finished_task_ids;
        done_devices = t.done_devices + (child.done_devices + remaining);
        success_devices = t.success_devices + child.success_devices;
        failed_devices = t.failed_devices + (child.failed_devices + remaining);
        failure_category_counts = count_known "unknown" (max 1 remaining) t.failure_category_counts;
        ping_ok_login_fail_devices =
            if ask.is_audit
            then t.ping_ok_login_fail_devices + (child.failed_devices + remaining)
            else t.ping_ok_login_fail_devices;
      }
