-- ===== src/Tasks/Store/RoundTrip.antt =====
-- What is written into the meta of a task is read again.
use new_backup_center.Base.{
  ◌+◌, ◌*◌, ◌≤◌, ◌≡◌, refl, ap, ◌∙◌, false, some, String, [], ◌∷◌, txt, str_eq, eq_iff, or_option,
  if◌then◌else◌, if_rule, reverse, ◌++◌, ◌&&◌, ◌||◌, arith,
}
use new_backup_center.Base.Dict.{get, put, get-put}
use new_backup_center.Tasks.Store.{
  Meta, Store, second, Process, unexpired, has, text_at, lock_of, get_task_meta, set_lock,
  delete_lock, is_of_other, release_tenant_bulk_lock, keep_lock, write_task_meta, merge,
  updated_meta, update_task_meta,
}

-- The metas and the clock are those of the other store.
abbrev HasMetasOf : Store → Store → Type 0
HasMetasOf s t = (t.metas ≡ s.metas) × (t.now ≡ s.now)

release-HasMetasOf :
    (tenant task : String) (s : Store) → HasMetasOf s (release_tenant_bulk_lock tenant task s)
unfolding release_tenant_bulk_lock delete_lock
release-HasMetasOf tenant task s =
    if_rule (HasMetasOf s) (str_eq tenant "" || is_of_other task (lock_of tenant s)) s
      (delete_lock tenant s) (refl, refl) (refl, refl)

-- The lock that follows a write leaves the metas and the clock.
pub keep_lock-HasMetasOf :
    (p : Process) (task : String) (payload : Meta) (s : Store)
    → HasMetasOf s (keep_lock p task payload s)
unfolding keep_lock set_lock
keep_lock-HasMetasOf p task payload s =
    let tenant = text_at "tenant_id" payload in
    let released = release_tenant_bulk_lock tenant task s in
    let taken = set_lock p tenant task s in
    if_rule (HasMetasOf s) (p.single_lock && has "is_bulk" payload && has "tenant_id" payload)
      (if has "completed" payload then released else taken) s
      (if_rule (HasMetasOf s) (has "completed" payload) released taken
        (release-HasMetasOf tenant task s) (refl, refl))
      (refl, refl)

read-same :
    (task : String) (s t : Store) → HasMetasOf s t → get_task_meta task t ≡ get_task_meta task s
unfolding get_task_meta
read-same task s t (metas, now) = rw (metas, now) refl

-- A meta that is written is what is read of that task, and what is read of another task is as it was.
pub meta_written :
    (p : Process) (task other : String) (payload : Meta) (s : Store)
    → str_eq task "" ≡ false
    → 1 ≤ p.ttl_seconds
    → get_task_meta other (write_task_meta p task payload s)
      ≡ (if str_eq task other then payload else get_task_meta other s)
unfolding get_task_meta write_task_meta unexpired
meta_written p task other payload s named lasts =
    let kept = record s { metas = put task (payload, s.now + p.ttl_seconds * second) s.metas } in
    let at_once : get_task_meta other kept
        ≡ (if str_eq task other then payload else get_task_meta other s) =
      ground (
        arith,
        named,
        eq_iff task other,
        eq_iff task "",
        eq_iff other "",
        get-put task other (payload, s.now + p.ttl_seconds * second) s.metas,
        lasts,
      ) in
    read-same other kept (keep_lock p task payload kept) (keep_lock-HasMetasOf p task payload kept)
    ∙ at_once

get-append :
    (key : String) (xs ys : Meta) → get key (xs ++ ys) ≡ or_option (get key xs) (get key ys)
unfolding get
get-append key [] ys = refl
get-append key ((j, v) ∷ xs) ys = ground (arith, get-append key xs ys)

get-merge :
    (key : String) (fields current : Meta)
    → get key (merge fields current) ≡ or_option (get key (reverse fields)) (get key current)
unfolding merge reverse get
get-merge key [] current = refl
get-merge key ((j, v) ∷ fields) current =
    get-merge key fields (put j v current)
    ∙ ground (
      arith,
      get-put j key v current,
      get-append key (reverse fields) ((j, v) ∷ []),
      eq_iff j key,
    )

-- After an update of the meta of a task, each key has what the update gives it last, or else what it had;
-- only the id of the task and the time are the update's own.
pub update_read_back :
    (p : Process) (task key : String) (fields : Meta) (s : Store)
    → str_eq task "" ≡ false
    → 1 ≤ p.ttl_seconds
    → get key (get_task_meta task (update_task_meta p task fields s).1) ≡ (
        if str_eq "updated_at" key
        then some (txt p.now_iso)
        else if str_eq "task_id" key
        then some (txt task)
        else or_option (get key (reverse fields)) (get key (get_task_meta task s)))
unfolding update_task_meta updated_meta
update_read_back p task key fields s named lasts =
    let current = get_task_meta task s in
    let stored = updated_meta p task fields current in
    let read : get_task_meta task (write_task_meta p task stored s) ≡ stored =
      meta_written p task task stored s named lasts ∙ rw (eq_iff task task).1 refl in
    rw named (
      ap (get key) read
      ∙ rw
          (
            get-put "updated_at" key (txt p.now_iso)
                (put "task_id" (txt task) (merge fields current)),
            get-put "task_id" key (txt task) (merge fields current),
            get-merge key fields current,
          )
          refl)
