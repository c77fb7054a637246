-- ===== src/Bulk/Samples.antt =====
-- A batch of two tasks, one that went well and one with a transient failure, and the theorems on batches
-- at it.
use new_backup_center.Settings.{
  transient_retry_denylist_device_names, transient_retry_denylist_device_ids, normalize_retry_token,
  env_csv_normalized_set, Env,
}
use new_backup_center.Bulk.Finish.{may_follow_up, answering, Visit, untouched, run}
use new_backup_center.Bulk.Followup.Retried.{sum_counts, candidates_allowed}
use new_backup_center.Base.{
  ◌⊎◌, ◌&&◌, all, All, arith, words, text_ltb, split, join, sort_by, insert_by, strip, rstrip,
  lstrip, lower, is_space, contains_any, contains, select, any, normalize, is_in, ◌≤◌, pos, ◌≡◌,
  refl, true, false, none, some, [], ◌∷◌,
}
use new_backup_center.Diagnostics.Failure.Retry.{
  is_transient_retry_denied_for_device, is_nmcli_backend_unavailable_message,
  should_retry_transient_failure,
}
use new_backup_center.Bulk.Followup.{
  with_candidate, add_skipped, add_id, add_devices, add_details, bulk_append_transient_candidate,
  add_whole_task, has_failed, add_task, add_tasks, collected,
  collect_bulk_transient_followup_candidates,
}
use new_backup_center.Diagnostics.Failure.{
  is_transient_failure, category_of, tells_circuit_breaker, classify_failure,
}
use new_backup_center.Bulk.{
  or_text, bulk_child_result, bulk_child_task_is_terminal, TaskMeta, Backend, BulkMeta,
  empty_payload, empty_meta, present, safe_get_task_meta,
}
use new_backup_center.Bulk.Snapshot.{
  is_set, count_in, result_of, is_terminal, Snapshot, Tally, build_bulk_terminal_snapshot,
}
use new_backup_center.Base.Dict.{put, get}
use new_backup_center.Bulk.Finish.Once.{follow_ups, followed_up_once}
use new_backup_center.Bulk.Finish.Kept.{decisions, IsWritten}
use new_backup_center.Bulk.Finish.Noticed.{end_noticed}

abbrev unset : Env
unset name = none

abbrev done_well : TaskMeta
done_well = record empty_meta {
  status = some "success";
  result = some (record empty_payload { success = some (pos 1) });
}

abbrev timed_out : TaskMeta
timed_out = record empty_meta {
  completed = true;
  device_id = "d2";
  result = some (record empty_payload { success = some (pos 0); message = "Connection timed out" });
}

abbrev ended : Backend
ended = record {
  metas = ("t1", done_well) ∷ ("t2", timed_out) ∷ [];
  async_state = λ id. none;
  async_result = λ id. none;
}

abbrev batch : BulkMeta
batch = record {
  is_bulk = true;
  completed = false;
  cancel_requested = false;
  transient_followup_decided = false;
  operation_kind = "backup_bulk";
  tenant_id = "tenant";
  child_task_ids = "t1" ∷ "" ∷ "t2" ∷ [];
  total_tasks = pos 2;
  child_task_device_count = ("t1", pos 3) ∷ [];
  skipped_jump_unreachable = pos 0;
  skipped_jump_device_ids = [];
  total_devices = pos 0;
}

-- three devices of the first task, one of the second
abbrev figures : Tally
figures = record {
  done_tasks = 2;
  success_tasks = 1;
  failed_tasks = 1;
  done_devices = 4;
  success_devices = 3;
  failed_devices = 1;
  failure_category_counts = ("timeout", 1) ∷ [];
}

abbrev final : Snapshot
final = record {
  status = "failed";
  progress = 100;
  completed = true;
  message = "Finalizado. Sucesso: 3 | Falhas: 1";
  total_tasks = 2;
  tally = figures;
  running_tasks = 0;
  queued_tasks = 0;
  total_devices = 4;
  finished_task_ids = "t1" ∷ "t2" ∷ [];
}

retried_runs : (collect_bulk_transient_followup_candidates unset ended batch).ids ≡ "d2" ∷ []
unfolding collect_bulk_transient_followup_candidates collected add_tasks present add_task
    bulk_child_result safe_get_task_meta get has_failed add_whole_task
    bulk_append_transient_candidate classify_failure tells_circuit_breaker contains contains_any
    should_retry_transient_failure is_transient_failure is_in put any insert_by select sort_by
    is_space join lower lstrip normalize rstrip split strip text_ltb words add_details add_devices
    add_id add_skipped with_candidate count_in is_set result_of empty_meta empty_payload or_text
    is_nmcli_backend_unavailable_message is_transient_retry_denied_for_device category_of
    env_csv_normalized_set normalize_retry_token transient_retry_denylist_device_ids
    transient_retry_denylist_device_names
retried_runs = refl

candidates_allowed_example :
    All (λ id. is_transient_retry_denied_for_device unset none (some id) ≡ false) ("d2" ∷ [])
    × (1 ≤ 1)
unfolding collect_bulk_transient_followup_candidates sum_counts collected add_tasks present add_task
    bulk_child_result safe_get_task_meta get has_failed add_whole_task
    bulk_append_transient_candidate classify_failure tells_circuit_breaker contains contains_any
    should_retry_transient_failure is_transient_failure put any insert_by select sort_by is_in
    is_space join lower lstrip normalize rstrip split strip text_ltb words add_details add_devices
    add_id add_skipped with_candidate count_in is_set result_of empty_meta empty_payload or_text
    is_nmcli_backend_unavailable_message is_transient_retry_denied_for_device category_of
    env_csv_normalized_set normalize_retry_token transient_retry_denylist_device_ids
    transient_retry_denylist_device_names
candidates_allowed_example = candidates_allowed unset ended batch

abbrev last_task : Visit
last_task = record {
  meta = some batch;
  reread = some batch;
  backend = ended;
  now = 1000;
  redis = answering;
}

followed_up_once_example : follow_ups (run unset (last_task ∷ last_task ∷ []) untouched).events ≤ 1
followed_up_once_example =
    followed_up_once unset 1000 (last_task ∷ last_task ∷ [])
      ((refl, omega arith, omega arith), ((refl, omega arith, omega arith), tt))

end_noticed_example :
    let events = (run unset (last_task ∷ last_task ∷ last_task ∷ []) untouched).events in
    (snapshot : Snapshot) × (build_bulk_terminal_snapshot ended batch ≡ some snapshot)
    × ((decisions events ≡ 1) ⊎ ((may_follow_up unset batch && may_follow_up unset batch) ≡ false))
    × (IsWritten snapshot events ⊎ (false ≡ true))
unfolding present all is_terminal bulk_child_task_is_terminal safe_get_task_meta get is_in normalize
end_noticed_example =
    end_noticed unset 1000 (last_task ∷ []) last_task (last_task ∷ []) batch batch
      ((refl, omega arith, omega arith), tt) (refl, omega arith, omega arith)
      ((refl, omega arith, omega arith), tt) (refl, refl, refl, (omega arith, omega arith, refl))
