-- ===== src/Tasks/Samples.antt =====
-- A tenant with one batch, and the theorems on the state of tasks at it.
use new_backup_center.Tasks.Active.Exact.{
  is_fresh, is_running_batch, names_running_batch, holds_running, active_exact,
}
use new_backup_center.Tasks.Active.{operation_kind_of, latest_activity, has_active_bulk_operation}
use new_backup_center.Tasks.Store.{
  keep_lock, Meta, Store, Process, has, text_at, lock_of, is_of_other, get_task_meta,
  write_task_meta, update_task_meta, acquire_tenant_bulk_lock,
}
use new_backup_center.Base.{
  ◌≡◌, refl, true, false, none, some, [], ◌∷◌, bool, txt, arith, any, reverse,
}
use new_backup_center.Base.Dict.{get}
use new_backup_center.Tasks.Store.RoundTrip.{update_read_back}
use new_backup_center.Tasks.Store.Lock.{running_batch_refuses, ended_batch_frees}

abbrev process : Process
process = record {
  single_lock = true;
  ttl_seconds = 86_400;
  lock_ttl_seconds = 1800;
  now_iso = "2026-01-01T00:00:00Z";
}

abbrev start : Store
start = record { now = 5; metas = []; locks = [] }

abbrev batch_meta : Meta
batch_meta = ("tenant_id", txt "t") ∷ ("is_bulk", bool true) ∷ ("completed", bool false) ∷ []

abbrev ended_meta : Meta
ended_meta = ("tenant_id", txt "t") ∷ ("is_bulk", bool true) ∷ ("completed", bool true) ∷ []

abbrev with_batch : Store
with_batch = write_task_meta process "a" batch_meta start

update_read_back_example :
    get "completed" (
      get_task_meta "a" (update_task_meta process "a" (("completed", bool true) ∷ []) with_batch).1)
    ≡ some (bool true)
unfolding get reverse
update_read_back_example =
    update_read_back process "a" "completed" (("completed", bool true) ∷ []) with_batch refl
      (omega arith)

running_batch_refuses_example :
    acquire_tenant_bulk_lock process "t" "b"
      (record (write_task_meta process "a" batch_meta start) { now = 10 })
    ≡ ((false, some "a"), record (write_task_meta process "a" batch_meta start) { now = 10 })
unfolding has text_at
running_batch_refuses_example =
    running_batch_refuses process "t" "a" "b" batch_meta start 10 refl refl refl refl
      (refl, refl, refl, refl) (omega arith)

ended_batch_frees_example :
    ((acquire_tenant_bulk_lock process "t" "b"
        (write_task_meta process "a" ended_meta with_batch)).0
      ≡ (true, none))
    × (lock_of "t"
          (acquire_tenant_bulk_lock process "t" "b"
            (write_task_meta process "a" ended_meta with_batch)).1
        ≡ some "b")
unfolding has text_at is_of_other lock_of write_task_meta keep_lock
ended_batch_frees_example =
    ended_batch_frees process "t" "a" "b" ended_meta with_batch refl refl refl
      (refl, refl, refl, refl) refl (omega arith)

active_exact_example :
    ((has_active_bulk_operation (λ text. some 3) 1800 ("gone" ∷ "t" ∷ []) with_batch).0 ≡ true)
    × (holds_running
          (λ text. some 3)
          1800
          (has_active_bulk_operation (λ text. some 3) 1800 ("gone" ∷ "t" ∷ []) with_batch).1
          "t"
        ≡ true)
unfolding any holds_running names_running_batch lock_of write_task_meta keep_lock
    has_active_bulk_operation is_running_batch get_task_meta operation_kind_of is_fresh
    latest_activity
active_exact_example = active_exact (λ text. some 3) 1800 ("gone" ∷ "t" ∷ []) with_batch "t"
