-- ===== src/Tasks/Store.antt =====
-- app/services/realtime_backup_logs.py: the meta of a task, and the lock that a tenant's batch holds.
-- Redis fails in none of its calls. Times are in microseconds.
pub mod RoundTrip
pub mod Lock
use new_backup_center.Base.{
  ℕ, ◌+◌, ◌*◌, max, Bool, true, false, not, ◌&&◌, ◌||◌, Option, none, some, String, List, [], ◌∷◌,
  Value, null, bool, int, txt, ℤ, pos, negsuc, max_zero, is_truthy, str, strip, lower, is_in,
  parse_int, str_eq, or_else, ltb, if◌then◌else◌,
}
use new_backup_center.Base.Dict.{Dict, get, put, remove}
use new_backup_center.Settings.{Env}

-- A meta is the dict whose JSON its key holds.
abbrev pub Meta : Type 0
Meta = Dict Value

-- A key with a time to unexpired: its value and when it expires.
abbrev pub Kept {ℓ} : Type ℓ → Type ℓ
Kept A = A × ℕ

-- The keys `backup_center:task_meta:*` and `backup_center:tenant_active_bulk:*`.
pub record Store : Type 0 where
  pub now : ℕ
  pub metas : Dict (Kept Meta)
  pub locks : Dict (Kept String)

abbrev pub second : ℕ
second = 1_000_000

days_or_90 : ℤ → ℕ
days_or_90 (pos n) = if ltb 0 n then n else 90
days_or_90 (negsuc n) = 0

-- REALTIME_LOG_RETENTION_DAYS in seconds, 1 day at least
unfoldable pub retention_seconds : (days : ℤ) → ℕ
unfolding days_or_90
retention_seconds days = max (days_or_90 days) 1 * 24 * 60 * 60

-- `none` where `int` fails, which stops the program at its start
unfoldable pub bulk_active_lock_ttl_seconds : Env → Option ℕ
unfolding parse_int
bulk_active_lock_ttl_seconds env =
    let given = or_else (env "BULK_ACTIVE_LOCK_TTL_SECONDS") "1800" in
    elim (parse_int (if str_eq given "" then "1800" else given)) [
      | none ↦ none
      | some n ↦ some (max (max_zero n) 300)
    ]

unfoldable pub tenant_bulk_single_lock_enabled : Env → Bool
unfolding strip lower is_in
tenant_bulk_single_lock_enabled env =
    is_in (lower (strip (or_else (env "BULK_TENANT_SINGLE_ACTIVE_LOCK_ENABLED") "0")))
      ("1" ∷ "true" ∷ "on" ∷ "yes" ∷ "sim" ∷ [])

-- What the process has: whether the lock is in use, the two times to unexpired in seconds, and the text of the
-- time at which it writes.
pub record Process : Type 0 where
  pub single_lock : Bool
  pub ttl_seconds : ℕ
  pub lock_ttl_seconds : ℕ
  pub now_iso : String

unfoldable pub unexpired {ℓ} : {A : Type ℓ} → (now : ℕ) → Option (Kept A) → Option A
unexpired now none = none
unexpired now (some (value, expiry)) = if ltb now expiry then some value else none

-- `payload.get(key)` as a condition
unfoldable pub has : String → Meta → Bool
unfolding get is_truthy
has key meta = elim (get key meta) [ none ↦ false | some value ↦ is_truthy value ]

unfoldable pub text_at : String → Meta → String
unfolding get str
text_at key meta = elim (get key meta) [ none ↦ "None" | some value ↦ str value ]

unfoldable pub lock_of : String → Store → Option String
unfolding unexpired get
lock_of tenant s = unexpired s.now (get tenant s.locks)

unfoldable pub get_task_meta : String → Store → Meta
unfolding unexpired get
get_task_meta task s =
    if str_eq task "" then [] else or_else (unexpired s.now (get task s.metas)) []

-- `client.setex(key, ttl, task_id)`
unfoldable pub set_lock : Process → (tenant task : String) → Store → Store
unfolding put
set_lock p tenant task s = record s {
  locks = put tenant (task, s.now + p.lock_ttl_seconds * second) s.locks;
}

unfoldable pub delete_lock : String → Store → Store
unfolding remove
delete_lock tenant s = record s { locks = remove tenant s.locks }

-- whether the lock is another task's; an empty text is none
unfoldable pub is_of_other : (task : String) → Option String → Bool
is_of_other task none = false
is_of_other task (some current) =
    not (str_eq task "") && not (str_eq current "") && not (str_eq current task)

unfoldable pub release_tenant_bulk_lock : (tenant task : String) → Store → Store
unfolding delete_lock is_of_other
release_tenant_bulk_lock tenant task s =
    if str_eq tenant "" || is_of_other task (lock_of tenant s) then s else delete_lock tenant s

-- the lock, once the meta is written
unfoldable pub keep_lock : Process → (task : String) → Meta → Store → Store
unfolding has text_at set_lock
keep_lock p task payload s =
    if p.single_lock && has "is_bulk" payload && has "tenant_id" payload
    then (if has "completed" payload
        then release_tenant_bulk_lock (text_at "tenant_id" payload) task s
        else set_lock p (text_at "tenant_id" payload) task s)
    else s

unfoldable pub write_task_meta : Process → (task : String) → Meta → Store → Store
unfolding put
write_task_meta p task payload s =
    keep_lock p task payload
      (record s { metas = put task (payload, s.now + p.ttl_seconds * second) s.metas })

-- `current.update(fields)`
unfoldable pub merge : (fields current : Meta) → Meta
unfolding put
merge [] current = current
merge ((key, value) ∷ fields) current = merge fields (put key value current)

unfoldable pub updated_meta : Process → (task : String) (fields current : Meta) → Meta
unfolding put merge
updated_meta p task fields current =
    put "updated_at" (txt p.now_iso) (put "task_id" (txt task) (merge fields current))

unfoldable pub update_task_meta : Process → (task : String) (fields : Meta) → Store → Meta × Store
update_task_meta p task fields s =
    let current = updated_meta p task fields (get_task_meta task s) in
    if str_eq task "" then ([], s) else (current, write_task_meta p task current s)

unfoldable pub text_or_null : String → Value
text_or_null t = if str_eq t "" then null else txt t

unfoldable pub register_task :
    Process → (task tenant device_id device_name group_id : String) → Store → Store
unfolding text_or_null
register_task p task tenant device_id device_name group_id s =
    if str_eq task ""
    then s
    else write_task_meta p task
        (("task_id", txt task)
          ∷ ("tenant_id", txt tenant)
          ∷ ("device_id", text_or_null device_id)
          ∷ ("device_name", txt (if str_eq device_name "" then "Dispositivo" else device_name))
          ∷ ("group_id", text_or_null group_id)
          ∷ ("status", txt "queued")
          ∷ ("progress", int (pos 0))
          ∷ ("message", txt "Task enfileirada, aguardando worker...")
          ∷ ("created_at", txt p.now_iso)
          ∷ ("updated_at", txt p.now_iso)
          ∷ ("completed", bool false)
          ∷ [])
        s

-- `client.set(key, task_id, nx=True, ex=ttl)` and the answer that follows from it
unfoldable pub set_if_free :
    Process → (tenant task : String) → Store → (Bool × Option String) × Store
unfolding set_lock
set_if_free p tenant task s = elim (lock_of tenant s) [
  | none ↦ ((true, none), set_lock p tenant task s)
  | some existing ↦ ((false, if str_eq existing "" then none else some existing), s)
]

-- A task whose meta is gone counts as one that runs.
unfoldable pub still_runs : Meta → Bool
unfolding has
still_runs [] = true
still_runs (field ∷ meta) =
    let whole = field ∷ meta in has "is_bulk" whole && not (has "completed" whole)

unfoldable pub acquire_from :
    Process → (tenant task : String) → Option String → Store → (Bool × Option String) × Store
unfolding set_if_free delete_lock
acquire_from p tenant task none s = set_if_free p tenant task s
acquire_from p tenant task (some existing) s =
    if str_eq existing ""
    then set_if_free p tenant task s
    else if still_runs (get_task_meta existing s)
    then ((false, some existing), s)
    else set_if_free p tenant task (delete_lock tenant s)

-- The answer says whether the task has the lock, or which task holds it.
unfoldable pub acquire_tenant_bulk_lock :
    Process → (tenant task : String) → Store → (Bool × Option String) × Store
acquire_tenant_bulk_lock p tenant task s =
    if not p.single_lock || str_eq tenant "" || str_eq task ""
    then ((true, none), s)
    else acquire_from p tenant task (lock_of tenant s) s
