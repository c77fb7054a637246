-- ===== src/Bulk/Snapshot.antt =====
-- app/tasks/backups.py: the final figures of a batch, which are there once each of its tasks has ended.
pub mod Loop
pub mod Figures
use Prim.Native.String.{◌++◌}
use new_backup_center.Base.Dict.{Dict, get, put}
use new_backup_center.Base.{
  ℤ, pos, negsuc, max_zero, int_or_zero, ℕ, ◌+◌, ◌-◌, max, Bool, true, false, not, ◌&&◌, ◌||◌,
  Option, none, some, String, List, [], ◌∷◌, length, is_some, or_else, normalize, str_eq, decimal,
  ltb, ◌==◌, if◌then◌else◌,
}
use new_backup_center.Diagnostics.Failure.{classify_failure}
use new_backup_center.Bulk.{
  Detail, Payload, TaskMeta, Backend, BulkMeta, safe_get_task_meta, bulk_child_task_is_terminal,
  bulk_child_result, present, or_text,
}

-- How many of a task's devices went well and how many failed, and whether the task counts as done well.
pub record Share : Type 0 where
  pub success : ℕ
  pub failed : ℕ
  pub task_success : Bool

-- `max(1, int(v))`
unfoldable pub at_least_one : ℤ → ℕ
at_least_one n = max 1 (max_zero n)

unfoldable pub is_set : ℤ → Bool
is_set (pos n) = ltb 0 n
is_set (negsuc n) = true

-- `child_task_device_count.get(child_id, 1)`, its numbers read by `max(1, int(v))`
unfoldable pub device_total_of : Dict ℤ → String → ℕ
unfolding at_least_one
device_total_of counts id = elim (get id counts) [ none ↦ 1 | some n ↦ at_least_one n ]

of_details : Payload → Share
of_details r =
    let has_figures = is_some r.total || is_some r.success || is_some r.failed in
    let success = if has_figures then max_zero (int_or_zero r.success) else 0 in
    let failed = if has_figures then max_zero (int_or_zero r.failed) else 0 in
    record { success = success; failed = failed; task_success = failed == 0 }

-- the figures that the result of a task gives, `device_total` being how many devices it had
unfoldable pub reported : (device_total : ℕ) → Payload → Share
unfolding of_details is_set
reported device_total r = elim r.details [
  | some items ↦ of_details r
  | none ↦ elim r.success [
    | some success ↦
        if is_set success
        then record { success = 1; failed = 0; task_success = true }
        else record { success = 0; failed = 1; task_success = false }
    | none ↦
        if not (str_eq r.error "")
        then record { success = 0; failed = device_total; task_success = false }
        else record { success = device_total; failed = 0; task_success = true }
  ]
]

-- Devices of which the result says nothing count the way the task does.
unfoldable pub with_missing : (device_total : ℕ) → Share → Share
with_missing device_total s =
    let counted = s.success + s.failed in
    let missing = device_total - counted in
    if counted == 0
    then record s {
      success = if s.task_success then device_total else 0;
      failed = if s.task_success then 0 else device_total;
    }
    else if ltb counted device_total
    then record s {
      success = if s.task_success then s.success + missing else s.success;
      failed = if s.task_success then s.failed else s.failed + missing;
    }
    else s

-- `counter[category] += n`
unfoldable pub count_in : String → ℕ → Dict ℕ → Dict ℕ
unfolding get put
count_in category n counter = put category (or_else (get category counter) 0 + n) counter

unfoldable pub category_or : (given message : String) → String
unfolding normalize or_text
category_or given message =
    or_text (normalize (some (or_text given (classify_failure (some message))))) "unknown"

count_details : List (Option Detail) → Dict ℕ → Dict ℕ
unfolding count_in category_or
count_details [] counter = counter
count_details (none ∷ items) counter = count_details items counter
count_details (some item ∷ items) counter = count_details items (
    if item.success
    then counter
    else count_in (category_or item.failure_category item.message) 1 counter)

count_failures : (device_total : ℕ) → Payload → Dict ℕ → Dict ℕ
unfolding count_details count_in category_or is_set
count_failures device_total r counter = elim r.details [
  | some items ↦ count_details items counter
  | none ↦ elim r.success [
    | some success ↦
        if is_set success
        then counter
        else count_in (category_or r.failure_category r.message) 1 counter
    | none ↦
        if not (str_eq r.error "")
        then count_in (category_or "" r.error) (max 1 device_total) counter
        else counter
  ]
]

pub record Tally : Type 0 where
  pub done_tasks : ℕ
  pub success_tasks : ℕ
  pub failed_tasks : ℕ
  pub done_devices : ℕ
  pub success_devices : ℕ
  pub failed_devices : ℕ
  pub failure_category_counts : Dict ℕ

-- one turn of the loop, for a task that has ended
unfoldable pub with_task : (device_total : ℕ) → Payload → Tally → Tally
unfolding count_failures
with_task device_total r t =
    let s = with_missing device_total (reported device_total r) in
    record {
      done_tasks = t.done_tasks + 1;
      success_tasks = if s.task_success then t.success_tasks + 1 else t.success_tasks;
      failed_tasks = if s.task_success then t.failed_tasks else t.failed_tasks + 1;
      done_devices = t.done_devices + (s.success + s.failed);
      success_devices = t.success_devices + s.success;
      failed_devices = t.failed_devices + s.failed;
      failure_category_counts = count_failures device_total r t.failure_category_counts;
    }

-- The batch before its first task: devices that were skipped count as failed connections.
unfoldable pub before_tasks : (skipped : ℕ) → Tally
unfolding count_in
before_tasks skipped = record {
  done_tasks = 0;
  success_tasks = 0;
  failed_tasks = 0;
  done_devices = skipped;
  success_devices = 0;
  failed_devices = skipped;
  failure_category_counts = if ltb 0 skipped then count_in "connection" skipped [] else [];
}

module _ (b : Backend) where
  unfoldable pub is_terminal : String → Bool
  is_terminal id = bulk_child_task_is_terminal b id (safe_get_task_meta b id)

  unfoldable pub result_of : String → Payload
  result_of id = bulk_child_result b id (safe_get_task_meta b id)

  -- `none` where a task has not ended
  unfoldable pub tally_tasks : (counts : Dict ℤ) → List String → Tally → Option Tally
  tally_tasks counts [] t = some t
  tally_tasks counts (id ∷ ids) t =
      let rest = tally_tasks counts ids (with_task (device_total_of counts id) (result_of id) t) in
      if is_terminal id then rest else none

unfoldable pub sum_devices : (counts : Dict ℤ) → List String → ℕ
sum_devices counts [] = 0
sum_devices counts (id ∷ ids) = device_total_of counts id + sum_devices counts ids

pub record Snapshot : Type 0 where
  pub status : String
  pub progress : ℕ
  pub completed : Bool
  pub message : String
  pub total_tasks : ℕ
  pub tally : Tally
  pub running_tasks : ℕ
  pub queued_tasks : ℕ
  pub total_devices : ℕ
  pub finished_task_ids : List String

unfoldable pub status_of : (cancel_requested : Bool) → Tally → String
status_of cancel_requested t =
    if cancel_requested then "stopped" else if ltb 0 t.failed_devices then "failed" else "success"

message_of : (cancel_requested : Bool) → Tally → String
unfolding decimal
message_of cancel_requested t =
    (if cancel_requested then "Interrompido. Sucesso: " else "Finalizado. Sucesso: ")
    ++ decimal t.success_devices
    ++ " | Falhas: "
    ++ decimal t.failed_devices

unfoldable pub snapshot_of : BulkMeta → (total_tasks : ℕ) → List String → Tally → Snapshot
unfolding message_of
snapshot_of meta total_tasks ids t = record {
  status = status_of meta.cancel_requested t;
  progress = 100;
  completed = true;
  message = message_of meta.cancel_requested t;
  total_tasks = total_tasks;
  tally = t;
  running_tasks = 0;
  queued_tasks = 0;
  total_devices =
      max (max (max_zero meta.total_devices) t.done_devices)
        (sum_devices meta.child_task_device_count ids);
  finished_task_ids = ids;
}

unfoldable pub total_tasks_of : BulkMeta → ℕ
total_tasks_of meta = max (max_zero meta.total_tasks) (length (present meta.child_task_ids))

-- The snapshot without the time of its making; `none` where the batch has not ended.
unfoldable pub build_bulk_terminal_snapshot : Backend → BulkMeta → Option Snapshot
unfolding snapshot_of
build_bulk_terminal_snapshot b meta =
    let ids = present meta.child_task_ids in
    let total = total_tasks_of meta in
    let tallied =
      tally_tasks b meta.child_task_device_count ids
        (before_tasks (max_zero meta.skipped_jump_unreachable)) in
    if total == 0 || ltb (length ids) total
    then none
    else elim tallied [ none ↦ none | some t ↦ some (snapshot_of meta total ids t) ]
