-- ===== src/Tasks/Active.antt =====
-- app/tasks/backups.py: `_has_active_bulk_operation`, which the scheduler asks before it starts a batch, and
-- the stops that a running task asks for. `fromisoformat` gives a text's time in microseconds, with "Z" read
-- as "+00:00" and the zone dropped.
pub mod Exact
use new_backup_center.Base.{
  ℕ, ◌-◌, ◌*◌, max, Bool, true, false, not, ◌&&◌, ◌||◌, Option, none, some, String, List, [], ◌∷◌,
  Value, txt, str, strip, normalize, text_of, is_in, str_eq, ltb, if◌then◌else◌,
}
use new_backup_center.Base.Dict.{Dict, get}
use new_backup_center.Tasks.Store.{
  Meta, Kept, Store, second, lock_of, has, get_task_meta, delete_lock,
}

-- `str(meta.get("operation_kind") or "backup_bulk").strip().lower()`
unfoldable pub operation_kind_of : Meta → String
unfolding get text_of normalize
operation_kind_of meta =
    let kind = text_of (get "operation_kind" meta) in
    normalize (some (if str_eq kind "" then "backup_bulk" else kind))

unfoldable pub later_of : Option ℕ → Option ℕ → Option ℕ
later_of none b = b
later_of (some a) none = some a
later_of (some a) (some b) = some (max a b)

-- What a lock says: it is left over, it belongs to another kind of work, or a batch runs.
pub data Verdict : Type 0 where
  left_over unrelated running : Verdict

-- what the loop goes on with after a lock
unfoldable pub select_by {ℓ} : {A : Type ℓ} → Verdict → (found kept deleted : A) → A
select_by left_over found kept deleted = deleted
select_by unrelated found kept deleted = kept
select_by running found kept deleted = found

module _ (fromisoformat : String → Option ℕ) (stale_seconds : ℕ) where
  activity_at : Meta → String → Option ℕ
  unfolding strip text_of get
  activity_at meta key =
      let value = strip (text_of (get key meta)) in
      if str_eq value "" then none else fromisoformat value

  unfoldable pub latest_activity : Meta → Option ℕ
  unfolding activity_at later_of
  latest_activity meta =
      later_of (activity_at meta "last_child_activity_at")
        (later_of (activity_at meta "updated_at") (activity_at meta "created_at"))

  unfoldable pub is_stale : (now : ℕ) → Option ℕ → Bool
  is_stale now none = false
  is_stale now (some at) = ltb (stale_seconds * second) (now - at)

  unfoldable pub verdict_of_meta : (now : ℕ) → Meta → Verdict
  unfolding has operation_kind_of is_in
  verdict_of_meta now meta =
      if not (has "is_bulk" meta) || has "completed" meta
      then left_over
      else if not (is_in (operation_kind_of meta) ("backup_bulk" ∷ "backup_reprocess" ∷ []))
      then unrelated
      else if is_stale now (latest_activity meta)
      then left_over
      else running

  -- `client.get(key)` of the lock, and then the meta; a task that has no meta has no batch that runs.
  unfoldable pub verdict_of_lock : Store → Option String → Verdict
  verdict_of_lock s none = left_over
  verdict_of_lock s (some task) =
      if str_eq task "" then left_over else verdict_of_meta s.now (get_task_meta task s)

  -- the loop over the tenants of the keys `backup_center:tenant_active_bulk:*`
  unfoldable pub scan_locks : (tenants : List String) → Store → Bool × Store
  unfolding delete_lock lock_of
  scan_locks [] s = (false, s)
  scan_locks (tenant ∷ tenants) s =
      let kept = scan_locks tenants s in
      let deleted = scan_locks tenants (delete_lock tenant s) in
      select_by (verdict_of_lock s (lock_of tenant s)) (true, s) kept deleted

  -- `keys` is what `scan_iter` gives, in its order; it may give a key twice.
  unfoldable pub has_active_bulk_operation : (keys : List String) → Store → Bool × Store
  has_active_bulk_operation keys s = scan_locks keys s

-- `str(flag or "").strip() == "1"`
unfoldable pub is_global_backup_stop_enabled : (flag : Option String) → Bool
unfolding strip
is_global_backup_stop_enabled none = false
is_global_backup_stop_enabled (some flag) = str_eq (strip flag) "1"

unfoldable pub is_bulk_cancelled : (bulk_task : String) → Store → Bool
unfolding has
is_bulk_cancelled bulk_task s = has "cancel_requested" (get_task_meta bulk_task s)

unfoldable pub should_stop_now : (flag : Option String) (bulk_task : String) → Store → Bool
should_stop_now flag bulk_task s =
    is_global_backup_stop_enabled flag || is_bulk_cancelled bulk_task s
