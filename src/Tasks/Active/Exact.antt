-- ===== src/Tasks/Active/Exact.antt =====
-- Which locks stop the scheduler.
use new_backup_center.Base.{
  ℕ, ◌+◌, ◌*◌, ◌≡◌, refl, ap, sym, ◌∙◌, subst, inl, inr, Bool-cases, Bool, true, false, not, ◌&&◌,
  ◌||◌, Option, none, some, String, List, [], ◌∷◌, any, is_in, str_eq, eq_iff, leb, arith,
}
use new_backup_center.Base.Dict.{get, remove, get-remove}
use new_backup_center.Tasks.Store.{
  Meta, Store, second, unexpired, has, lock_of, get_task_meta, delete_lock,
}
use new_backup_center.Tasks.Active.{
  Verdict, left_over, unrelated, running, operation_kind_of, latest_activity, is_stale, select_by,
  verdict_of_meta, verdict_of_lock, scan_locks, has_active_bulk_operation,
}

module _ (fromisoformat : String → Option ℕ) (stale_seconds : ℕ) where
  -- The latest activity is no longer ago than the seconds after which a batch is stale, or is not known.
  unfoldable pub is_fresh : (now : ℕ) → Option ℕ → Bool
  is_fresh now none = true
  is_fresh now (some at) = leb now (at + stale_seconds * second)

  -- The meta is that of a batch of backups that is not completed and not stale.
  unfoldable pub is_running_batch : (now : ℕ) → Meta → Bool
  is_running_batch now meta =
      has "is_bulk" meta
      && not (has "completed" meta)
      && (str_eq (operation_kind_of meta) "backup_bulk"
          || str_eq (operation_kind_of meta) "backup_reprocess")
      && is_fresh now (latest_activity fromisoformat stale_seconds meta)

  unfoldable pub names_running_batch : Store → Option String → Bool
  names_running_batch s none = false
  names_running_batch s (some task) =
      not (str_eq task "") && is_running_batch s.now (get_task_meta task s)

  unfoldable is_running : Verdict → Bool
  is_running left_over = false
  is_running unrelated = false
  is_running running = true

  is_stale-fresh :
      (now : ℕ) (latest : Option ℕ)
      → is_stale fromisoformat stale_seconds now latest ≡ not (is_fresh now latest)
  unfolding is_stale is_fresh
  is_stale-fresh now none = refl
  is_stale-fresh now (some at) = ground arith

  verdict-running :
      (now : ℕ) (meta : Meta)
      → is_running (verdict_of_meta fromisoformat stale_seconds now meta)
        ≡ is_running_batch now meta
  unfolding verdict_of_meta is_running_batch is_running is_in any
  verdict-running now meta =
      ground (arith, is_stale-fresh now (latest_activity fromisoformat stale_seconds meta))

  lock-running :
      (s : Store) (lock : Option String)
      → is_running (verdict_of_lock fromisoformat stale_seconds s lock) ≡ names_running_batch s lock
  unfolding verdict_of_lock names_running_batch is_running
  lock-running s none = refl
  lock-running s (some task) = ground (arith, verdict-running s.now (get_task_meta task s))

  -- The tenant's lock has not expired, and its task is a batch that runs.
  unfoldable pub holds_running : Store → (tenant : String) → Bool
  holds_running s tenant = names_running_batch s (lock_of tenant s)

  delete-holds :
      (tenant other : String) (s : Store)
      → holds_running s tenant ≡ false
      → holds_running (delete_lock tenant s) other ≡ holds_running s other
  unfolding holds_running delete_lock lock_of names_running_batch unexpired get_task_meta
  delete-holds tenant other s idle = elim (Bool-cases (str_eq tenant other)) [
    | inl e ↦
        let same : tenant ≡ other = (eq_iff tenant other).0 e in
        let after : get other (remove tenant s.locks) ≡ none =
          get-remove tenant other s.locks ∙ rw e refl in
        rw after (sym (subst (λ k. holds_running s k ≡ false) same idle))
    | inr e ↦
        let after : get other (remove tenant s.locks) ≡ get other s.locks =
          get-remove tenant other s.locks ∙ rw e refl in
        rw after refl
  ]

  any-same :
      (p q : String → Bool) (keys : List String)
      → ((k : String) → p k ≡ q k)
      → any p keys ≡ any q keys
  unfolding any
  any-same p q [] h = refl
  any-same p q (k ∷ keys) h = rw (h k, any-same p q keys h) refl

  selected :
      (v : Verdict) (s : Store) (kept deleted : Bool × Store) (rest : Bool)
      → kept.0 ≡ rest
      → (is_running v ≡ false → deleted.0 ≡ rest)
      → (select_by v (true, s) kept deleted).0 ≡ (is_running v || rest)
  unfolding select_by is_running
  selected left_over s kept deleted rest hk hd = hd refl
  selected unrelated s kept deleted rest hk hd = hk
  selected running s kept deleted rest hk hd = refl

  selected_store :
      (v : Verdict) (s : Store) (kept deleted : Bool × Store) (other : String)
      → holds_running kept.1 other ≡ holds_running s other
      → (is_running v ≡ false → holds_running deleted.1 other ≡ holds_running s other)
      → holds_running (select_by v (true, s) kept deleted).1 other ≡ holds_running s other
  unfolding select_by is_running
  selected_store left_over s kept deleted other hk hd = hd refl
  selected_store unrelated s kept deleted other hk hd = hk
  selected_store running s kept deleted other hk hd = refl

  verdict-holds :
      (tenant : String) (s : Store)
      → is_running (verdict_of_lock fromisoformat stale_seconds s (lock_of tenant s))
        ≡ holds_running s tenant
  unfolding holds_running
  verdict-holds tenant s = lock-running s (lock_of tenant s)

  scan_exact :
      (keys : List String) (s : Store)
      → (scan_locks fromisoformat stale_seconds keys s).0 ≡ any (holds_running s) keys
  unfolding scan_locks any
  scan_exact [] s = refl
  scan_exact (tenant ∷ keys) s =
      let v = verdict_of_lock fromisoformat stale_seconds s (lock_of tenant s) in
      let after = delete_lock tenant s in
      selected v s (scan_locks fromisoformat stale_seconds keys s)
        (scan_locks fromisoformat stale_seconds keys after) (any (holds_running s) keys)
        (scan_exact keys s)
        (λ idle.
          scan_exact keys after
          ∙ any-same (holds_running after) (holds_running s) keys
              (λ k. delete-holds tenant k s (sym (verdict-holds tenant s) ∙ idle)))
      ∙ ap (λ b. b || any (holds_running s) keys) (verdict-holds tenant s)

  scan_keeps :
      (keys : List String) (s : Store) (other : String)
      → holds_running (scan_locks fromisoformat stale_seconds keys s).1 other
        ≡ holds_running s other
  unfolding scan_locks
  scan_keeps [] s other = refl
  scan_keeps (tenant ∷ keys) s other =
      let v = verdict_of_lock fromisoformat stale_seconds s (lock_of tenant s) in
      let after = delete_lock tenant s in
      selected_store v s (scan_locks fromisoformat stale_seconds keys s)
        (scan_locks fromisoformat stale_seconds keys after) other (scan_keeps keys s other)
        (λ idle.
          scan_keeps keys after other
          ∙ delete-holds tenant other s (sym (verdict-holds tenant s) ∙ idle))

  -- The scheduler waits exactly where the lock of one of the keys has not expired and its task is a batch of
  -- backups that is not completed and not stale, though each lock is read after the locks before it may have
  -- been deleted; and what the scan deletes is of no such batch.
  pub active_exact :
      (keys : List String) (s : Store) (tenant : String)
      → ((has_active_bulk_operation fromisoformat stale_seconds keys s).0
          ≡ any (holds_running s) keys)
        × (holds_running (has_active_bulk_operation fromisoformat stale_seconds keys s).1 tenant
            ≡ holds_running s tenant)
  unfolding has_active_bulk_operation
  active_exact keys s tenant = (scan_exact keys s, scan_keeps keys s tenant)
