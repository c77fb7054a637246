-- ===== src/Tasks/Store/Lock.antt =====
-- One batch of a tenant at a time.
use new_backup_center.Base.{
  ℕ, ◌+◌, ◌*◌, ◌≤◌, ◌<◌, ◌≡◌, refl, sym, ap, ◌∙◌, subst, inl, inr, Bool-cases, Bool, true, false,
  none, some, String, [], ◌∷◌, str_eq, eq_iff, ltb, arith,
}
use new_backup_center.Base.Dict.{get, put, get-put, get-remove}
use new_backup_center.Tasks.Store.{
  Meta, Store, second, Process, unexpired, has, text_at, lock_of, get_task_meta, set_lock,
  delete_lock, is_of_other, release_tenant_bulk_lock, keep_lock, write_task_meta, set_if_free,
  still_runs, acquire_from, acquire_tenant_bulk_lock,
}

-- A batch whose meta says that it runs for the tenant, or that it has ended.
abbrev pub IsBatchOf : (tenant : String) (completed : Bool) → Meta → Type 0
IsBatchOf tenant completed payload =
    (has "is_bulk" payload ≡ true)
    × (has "tenant_id" payload ≡ true)
    × (text_at "tenant_id" payload ≡ tenant)
    × (has "completed" payload ≡ completed)

lock-set :
    (p : Process) (tenant task : String) (s : Store) (later : ℕ)
    → later < s.now + p.lock_ttl_seconds * second
    → lock_of tenant (record (set_lock p tenant task s) { now = later }) ≡ some task
unfolding lock_of set_lock unexpired
lock-set p tenant task s later lasts = ground (
  arith,
  lasts,
  get-put tenant tenant (task, s.now + p.lock_ttl_seconds * second) s.locks,
  eq_iff tenant tenant,
)

lock-deleted : (tenant : String) (s : Store) → lock_of tenant (delete_lock tenant s) ≡ none
unfolding lock_of delete_lock unexpired
lock-deleted tenant s = ground (arith, get-remove tenant tenant s.locks, eq_iff tenant tenant)

module _ (p : Process) (tenant a b : String) (s : Store) where
  written-running :
      (payload : Meta)
      → p.single_lock ≡ true
      → IsBatchOf tenant false payload
      → keep_lock p a payload s ≡ set_lock p tenant a s
  unfolding keep_lock
  written-running payload single (bulk, of_tenant, tenant_is, runs) =
      rw (single, bulk, of_tenant, runs) (ap (λ t. set_lock p t a s) tenant_is)

  written-ended :
      (payload : Meta)
      → p.single_lock ≡ true
      → IsBatchOf tenant true payload
      → keep_lock p a payload s ≡ release_tenant_bulk_lock tenant a s
  unfolding keep_lock
  written-ended payload single (bulk, of_tenant, tenant_is, ends) =
      rw (single, bulk, of_tenant, ends) (ap (λ t. release_tenant_bulk_lock t a s) tenant_is)

  released-free :
      str_eq tenant "" ≡ false
      → is_of_other a (lock_of tenant s) ≡ false
      → lock_of tenant (release_tenant_bulk_lock tenant a s) ≡ none
  unfolding release_tenant_bulk_lock
  released-free named own = rw (named, own) (lock-deleted tenant s)

  set-free :
      lock_of tenant s ≡ none → set_if_free p tenant b s ≡ ((true, none), set_lock p tenant b s)
  unfolding set_if_free
  set-free free = rw (free, set_if_free) refl

  acquire-free :
      p.single_lock ≡ true
      → str_eq tenant "" ≡ false
      → str_eq b "" ≡ false
      → lock_of tenant s ≡ none
      → acquire_tenant_bulk_lock p tenant b s ≡ ((true, none), set_lock p tenant b s)
  unfolding acquire_tenant_bulk_lock acquire_from
  acquire-free single tenant_named b_named free =
      simp (single, tenant_named, b_named, free) (set-free free)

  acquire-refused :
      p.single_lock ≡ true
      → str_eq tenant "" ≡ false
      → str_eq b "" ≡ false
      → str_eq a "" ≡ false
      → lock_of tenant s ≡ some a
      → still_runs (get_task_meta a s) ≡ true
      → acquire_tenant_bulk_lock p tenant b s ≡ ((false, some a), s)
  unfolding acquire_tenant_bulk_lock acquire_from
  acquire-refused single tenant_named b_named a_named held runs =
      rw (single, tenant_named, b_named, held, a_named, runs) refl

running-still :
    (payload : Meta)
    → has "is_bulk" payload ≡ true
    → has "completed" payload ≡ false
    → still_runs payload ≡ true
unfolding still_runs
running-still [] bulk runs = refl
running-still (field ∷ payload) bulk runs = rw (bulk, runs) refl

-- The meta of a batch that runs, as it is or once it has expired.
still_runs-later :
    (p : Process) (a tenant : String) (payload : Meta) (s : Store) (later : ℕ)
    → str_eq a "" ≡ false
    → IsBatchOf tenant false payload
    → still_runs (
        get_task_meta a
          (record (set_lock p tenant a
            (record s { metas = put a (payload, s.now + p.ttl_seconds * second) s.metas })) {
              now = later;
            }))
      ≡ true
unfolding get_task_meta set_lock unexpired still_runs
still_runs-later p a tenant payload s later named (bulk, of_tenant, tenant_is, runs) =
    let found : get a (put a (payload, s.now + p.ttl_seconds * second) s.metas)
        ≡ some (payload, s.now + p.ttl_seconds * second) =
      get-put a a (payload, s.now + p.ttl_seconds * second) s.metas ∙ rw (eq_iff a a).1 refl in
    elim (Bool-cases (ltb later (s.now + p.ttl_seconds * second))) [
      | inl e ↦ rw (named, found, e) (running-still payload bulk runs)
      | inr e ↦ rw (named, found, e) refl
    ]

-- A batch wrote that it runs for a tenant: until its lock expires, another batch of the tenant that asks for
-- the lock is refused, is told which batch runs, and changes nothing, where the lock is in use.
pub running_batch_refuses :
    (p : Process) (tenant a b : String) (payload : Meta) (s : Store) (later : ℕ)
    → p.single_lock ≡ true
    → str_eq tenant "" ≡ false
    → str_eq a "" ≡ false
    → str_eq b "" ≡ false
    → IsBatchOf tenant false payload
    → later < s.now + p.lock_ttl_seconds * second
    → acquire_tenant_bulk_lock p tenant b (record (write_task_meta p a payload s) { now = later })
      ≡ ((false, some a), record (write_task_meta p a payload s) { now = later })
unfolding write_task_meta
running_batch_refuses p tenant a b payload s later single tenant_named a_named b_named batch lasts =
    let kept = record s { metas = put a (payload, s.now + p.ttl_seconds * second) s.metas } in
    subst
      (λ (t : Store).
        acquire_tenant_bulk_lock p tenant b (record t { now = later })
        ≡ ((false, some a), record t { now = later }))
      (sym (written-running p tenant a b kept payload single batch))
      (acquire-refused p tenant a b (record (set_lock p tenant a kept) { now = later }) single
        tenant_named b_named a_named (lock-set p tenant a kept later lasts)
        (still_runs-later p a tenant payload s later a_named batch))

-- A batch writes that it has ended while the lock of its tenant is its own, or nobody's: then the next batch
-- of the tenant gets the lock, and holds it.
pub ended_batch_frees :
    (p : Process) (tenant a b : String) (payload : Meta) (s : Store)
    → p.single_lock ≡ true
    → str_eq tenant "" ≡ false
    → str_eq b "" ≡ false
    → IsBatchOf tenant true payload
    → is_of_other a (lock_of tenant s) ≡ false
    → 1 ≤ p.lock_ttl_seconds
    → ((acquire_tenant_bulk_lock p tenant b (write_task_meta p a payload s)).0 ≡ (true, none))
      × (lock_of tenant (acquire_tenant_bulk_lock p tenant b (write_task_meta p a payload s)).1
          ≡ some b)
unfolding write_task_meta lock_of set_lock
ended_batch_frees p tenant a b payload s single tenant_named b_named batch own lasts =
    let kept = record s { metas = put a (payload, s.now + p.ttl_seconds * second) s.metas } in
    let released = release_tenant_bulk_lock tenant a kept in
    let got =
      acquire-free p tenant a b released single tenant_named b_named
        (released-free p tenant a b kept tenant_named own) in
    subst
      (λ (t : Store).
        ((acquire_tenant_bulk_lock p tenant b t).0 ≡ (true, none))
        × (lock_of tenant (acquire_tenant_bulk_lock p tenant b t).1 ≡ some b))
      (sym (written-ended p tenant a b kept payload single batch))
      (
        ap (λ r. r.0) got,
        ap (λ r. lock_of tenant r.1) got
            ∙ lock-set p tenant b released released.now (omega (arith, lasts)),
      )
