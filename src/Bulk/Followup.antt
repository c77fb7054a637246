-- ===== src/Bulk/Followup.antt =====
-- app/tasks/backups.py: the end of a batch, which tries its transient failures once more in a batch of
-- their own.
pub mod Retried
use new_backup_center.Base.{
  ℕ, ◌+◌, Bool, true, false, not, ◌&&◌, ◌||◌, Option, none, some, String, List, [], ◌∷◌, ◌++◌,
  is_some, or_else, strip, normalize, is_in, str_eq, str_or_empty, pos, ltb, text_ltb, sort_by,
  if◌then◌else◌,
}
use new_backup_center.Base.Dict.{Dict, get}
use new_backup_center.Settings.{Env}
use new_backup_center.Diagnostics.Failure.{classify_failure}
use new_backup_center.Diagnostics.Failure.Retry.{should_retry_transient_failure}
use new_backup_center.Bulk.{
  Detail, Payload, TaskMeta, Backend, BulkMeta, safe_get_task_meta, bulk_child_result, present,
  or_text,
}
use new_backup_center.Bulk.Snapshot.{is_set, count_in, result_of}

-- The set of devices, without an order, and how many failures of each category they come from.
pub record Candidates : Type 0 where
  pub ids : List String
  pub categories : Dict ℕ

-- `candidate_ids.add(device_id)`
unfoldable pub add_id : String → List String → List String
unfolding is_in
add_id id ids = if is_in id ids then ids else id ∷ ids

unfoldable pub with_candidate : (device_id category : String) → Candidates → Candidates
unfolding add_id count_in
with_candidate device_id category c = record {
  ids = add_id device_id c.ids;
  categories = count_in category 1 c.categories;
}

-- `"success" in result or result.get("error")`, without `bool(result.get("success"))`
unfoldable pub has_failed : Payload → Bool
unfolding is_set
has_failed r = elim r.success [
  | some success ↦ not (is_set success)
  | none ↦ not (str_eq r.error "")
]

module _ (env : Env) where
  unfoldable pub bulk_append_transient_candidate :
      (device_id device_name category message : Option String) → Candidates → Candidates
  unfolding normalize strip
  bulk_append_transient_candidate device_id device_name category message c =
      let normalized_category = normalize category in
      let normalized_device_id = strip (str_or_empty device_id) in
      if str_eq normalized_device_id "" || str_eq normalized_category ""
      then c
      else if should_retry_transient_failure env (some normalized_category) message device_name
          (some normalized_device_id)
      then with_candidate normalized_device_id normalized_category c
      else c

  unfoldable pub add_skipped : List String → Candidates → Candidates
  add_skipped [] c = c
  add_skipped (id ∷ ids) c = add_skipped ids (
      bulk_append_transient_candidate (some id) none (some "connection")
        (some "Jump Host indisponivel no preflight do lote.") c)

  unfoldable pub add_details : List (Option Detail) → Candidates → Candidates
  unfolding or_text strip normalize
  add_details [] c = c
  add_details (none ∷ items) c = add_details items c
  add_details (some item ∷ items) c =
      let category = or_text item.failure_category (classify_failure (some item.message)) in
      add_details items (
        if item.success
        then c
        else bulk_append_transient_candidate (some (strip item.device_id))
            (some (strip item.device_name)) (some (normalize (some category))) (some item.message)
            c)

  unfoldable pub add_devices :
      (device_name category message : Option String) → List String → Candidates → Candidates
  add_devices name category message [] c = c
  add_devices name category message (id ∷ ids) c =
      add_devices name category message ids
        (bulk_append_transient_candidate (some id) name category message c)

  -- the task without a list of details: its one device, or else all that its meta names
  unfoldable pub add_whole_task : TaskMeta → Payload → Candidates → Candidates
  unfolding or_text strip normalize present
  add_whole_task meta r c =
      let said = or_text (or_text (or_text r.message r.error) meta.message) meta.error in
      let given = or_text r.failure_category (classify_failure (some said)) in
      let category = some (normalize (some given)) in
      let message = some (or_text r.message r.error) in
      let name = some (strip meta.device_name) in
      let id = strip meta.device_id in
      if str_eq id ""
      then add_devices name category message (present meta.device_ids) c
      else bulk_append_transient_candidate (some id) name category message c

  unfoldable pub add_task : TaskMeta → Payload → Candidates → Candidates
  add_task meta r c = elim r.details [
    | some items ↦ add_details items c
    | none ↦ if has_failed r then add_whole_task meta r c else c
  ]

  unfoldable pub add_tasks : Backend → List String → Candidates → Candidates
  unfolding result_of
  add_tasks b [] c = c
  add_tasks b (id ∷ ids) c = add_tasks b ids (add_task (safe_get_task_meta b id) (result_of b id) c)

  unfoldable pub collected : Backend → BulkMeta → Candidates
  collected b meta =
      add_tasks b (present meta.child_task_ids)
        (add_skipped meta.skipped_jump_device_ids (record { ids = []; categories = [] }))

  -- `_collect_bulk_transient_followup_candidates`: the devices in order
  unfoldable pub collect_bulk_transient_followup_candidates : Backend → BulkMeta → Candidates
  unfolding text_ltb sort_by
  collect_bulk_transient_followup_candidates b meta =
      let c = collected b meta in record c { ids = sort_by text_ltb c.ids }
