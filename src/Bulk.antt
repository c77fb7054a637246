-- ===== src/Bulk.antt =====
-- app/tasks/backups.py: a batch of backups, whose tasks keep their state in Redis (the task meta) and in
-- Celery's result backend.
pub mod Snapshot
pub mod Followup
pub mod Finish
pub mod Progress
mod Samples
use new_backup_center.Base.Dict.{Dict, get}
use new_backup_center.Base.{
  ℤ, pos, ℕ, Bool, true, false, not, ◌||◌, Option, none, some, String, List, [], ◌∷◌, normalize,
  is_in, str_eq, select, if◌then◌else◌,
}

-- One device's entry in `details` of a task's result; an empty text is one that is missing.
pub record Detail : Type 0 where
  pub success : Bool
  pub failure_category : String
  pub message : String
  pub device_id : String
  pub device_name : String

-- A task's result, a dict: `details` is there where it is a list, in which an entry that is no dict
-- is `none`. A Boolean under `success` is 0 or 1, as `int` reads it.
pub record Payload : Type 0 where
  pub details : Option (List (Option Detail))
  pub total : Option ℤ
  pub success : Option ℤ
  pub failed : Option ℤ
  pub error : String
  pub message : String
  pub failure_category : String

-- What a batch reads of the meta of one of its tasks.
pub record TaskMeta : Type 0 where
  pub completed : Bool
  pub status : Option String
  pub result : Option Payload
  pub device_ids : List String
  pub device_id : String
  pub device_name : String
  pub message : String
  pub error : String

-- The metas in Redis and what Celery answers for a task: its state in capitals, where asking does not fail,
-- and its result, where that is a dict.
pub record Backend : Type 0 where
  pub metas : Dict TaskMeta
  pub async_state : String → Option String
  pub async_result : String → Option Payload

-- The meta of the batch, with `or 0` and `or []` already read.
pub record BulkMeta : Type 0 where
  pub is_bulk : Bool
  pub completed : Bool
  pub cancel_requested : Bool
  pub transient_followup_decided : Bool
  pub operation_kind : String
  pub tenant_id : String
  pub child_task_ids : List String
  pub total_tasks : ℤ
  pub child_task_device_count : Dict ℤ
  pub skipped_jump_unreachable : ℤ
  pub skipped_jump_device_ids : List String
  pub total_devices : ℤ

-- `{}`
unfoldable pub empty_payload : Payload
empty_payload = record {
  details = none;
  total = none;
  success = none;
  failed = none;
  error = "";
  message = "";
  failure_category = "";
}

-- `{}`
unfoldable pub empty_meta : TaskMeta
empty_meta = record {
  completed = false;
  status = none;
  result = none;
  device_ids = [];
  device_id = "";
  device_name = "";
  message = "";
  error = "";
}

unfoldable pub safe_get_task_meta : Backend → String → TaskMeta
unfolding empty_meta
safe_get_task_meta b id = elim (get id b.metas) [ none ↦ empty_meta | some meta ↦ meta ]

unfoldable pub followup_terminal_status : TaskMeta → String
followup_terminal_status meta = normalize meta.status

is_finished_state : Option String → Bool
is_finished_state none = false
is_finished_state (some state) = is_in state ("SUCCESS" ∷ "FAILURE" ∷ "REVOKED" ∷ [])

unfoldable pub bulk_child_task_is_terminal : Backend → String → TaskMeta → Bool
unfolding followup_terminal_status is_finished_state
bulk_child_task_is_terminal b id meta =
    meta.completed
    || is_in (followup_terminal_status meta)
        ("success" ∷ "failed" ∷ "failure" ∷ "error" ∷ "stopped" ∷ "revoked" ∷ "completed" ∷ [])
    || is_finished_state (b.async_state id)

unfoldable pub bulk_child_result : Backend → String → TaskMeta → Payload
unfolding empty_payload
bulk_child_result b id meta = elim meta.result [
  | some result ↦ result
  | none ↦ elim (b.async_result id) [ none ↦ empty_payload | some result ↦ result ]
]

-- `[str(tid) for tid in ids if tid]`
unfoldable pub present : List String → List String
unfolding select
present ids = select (λ id. not (str_eq id "")) ids

-- `a or b`, of texts
unfoldable pub or_text : String → String → String
or_text a b = if str_eq a "" then b else a
