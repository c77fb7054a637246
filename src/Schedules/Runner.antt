-- ===== src/Schedules/Runner.antt =====
-- app/tasks/backups.py: `run_scheduled_backups`, which gives every device a schedule, starts the tenants that
-- are due, and sets when their schedules come next. `none` is an exception, for which nothing is committed.
pub mod Turns
pub mod Tenants
pub mod Idle
use new_backup_center.Base.{
  ℕ, ◌+◌, Bool, true, false, not, ◌&&◌, Option, none, some, is_some, String, List, [], ◌∷◌, ◌++◌,
  map, select, any, length, str_eq, leb, sort_by, text_ltb, if◌then◌else◌, or_else,
}
use new_backup_center.Bulk.Followup.{add_id}
use new_backup_center.Schedules.Clock.{Zone, sanitize_daily_time, compute_next_daily_run_at}
use new_backup_center.Schedules.Tables.{
  Owned, Schedule, ScheduleDatabase, is_active_device, is_selected, has_time, belongs_to,
  tenant_daily_time,
}
use new_backup_center.Schedules.Queue.{Queued, queue_tenant, eligible_devices}

abbrev pub one_second : ℕ
one_second = 1_000_000

unfoldable pub bind {ℓ κ} : {A : Type ℓ} {B : Type κ} → Option A → (A → Option B) → Option B
bind none f = none
bind (some a) f = f a

unfoldable pub new_schedule : Owned → (time : String) → (next_run_at : ℕ) → Schedule
new_schedule o time next_run_at = record {
  owned = o;
  is_active = true;
  frequency = "daily";
  time = some time;
  day_of_week = none;
  day_of_month = none;
  last_run_at = none;
  next_run_at = some next_run_at;
}

unfoldable pub is_scheduled : List Schedule → Owned → Bool
unfolding any
is_scheduled rows o = any (λ s. str_eq s.owned.device.id o.device.id) rows

module _ (zone : Zone) (now : ℕ) where
  -- the schedules for the devices that have none
  unfoldable pub initial_schedules : (rows : List Schedule) → List Owned → Option (List Schedule)
  unfolding bind is_scheduled
  initial_schedules rows [] = some []
  initial_schedules rows (o ∷ owned) =
      let time = tenant_daily_time rows o.tenant_id in
      let rest = initial_schedules rows owned in
      if is_scheduled rows o
      then rest
      else bind (compute_next_daily_run_at zone time now)
          (λ next. bind rest (λ more. some (new_schedule o time next ∷ more)))

  -- The first assignments of the loop; `rows` are those of the query as the loop has left them so far.
  unfoldable pub made_daily : (rows : List Schedule) → Schedule → Schedule
  unfolding has_time
  made_daily rows s = record s {
    frequency = "daily";
    day_of_week = none;
    day_of_month = none;
    time = some (
        if has_time s.time
        then sanitize_daily_time s.time
        else tenant_daily_time rows s.owned.tenant_id);
  }

  -- the schedule after its turn, whether its next run was missing, and whether it is due
  unfoldable pub prepared_by : Schedule → (next_run_at : Option ℕ) → Option (Schedule × Bool × Bool)
  unfolding bind
  prepared_by s none =
      bind (compute_next_daily_run_at zone (or_else s.time "02:00") now)
        (λ next. some (record s { next_run_at = some next }, true, false))
  prepared_by s (some next) = some (s, false, leb next now)

  unfoldable pub with_turn :
      Schedule × Bool × Bool → List Schedule × ℕ × List String → List Schedule × ℕ × List String
  unfolding add_id
  with_turn (s, missing, due) (rows, initialized, due_tenant_ids) = (
    s ∷ rows,
    if missing then initialized + 1 else initialized,
    if due then add_id s.owned.tenant_id due_tenant_ids else due_tenant_ids,
  )

  -- `for schedule in schedule_rows`, where `before` are the rows that had their turn
  unfoldable pub prepare : (before rest : List Schedule) → Option (List Schedule × ℕ × List String)
  unfolding bind prepared_by with_turn made_daily
  prepare before [] = some ([], 0, [])
  prepare before (s ∷ rest) =
      bind (prepared_by (made_daily (before ++ s ∷ rest) s) s.next_run_at)
        (λ turn. bind (prepare (before ++ turn.0 ∷ []) rest) (λ more. some (with_turn turn more)))

  unfoldable pub planned : (time : String) → (next_run : ℕ) → Schedule → Schedule
  planned time next_run s = record s {
    frequency = "daily";
    time = some time;
    day_of_week = none;
    day_of_month = none;
    last_run_at = some now;
    next_run_at = some next_run;
  }

  unfoldable pub planned_all :
      (tenant_id time : String) → (next_run : ℕ) → List Schedule → List Schedule
  unfolding planned belongs_to
  planned_all tenant_id time next_run [] = []
  planned_all tenant_id time next_run (s ∷ rows) =
      (if belongs_to tenant_id s.owned then planned time next_run s else s)
      ∷ planned_all tenant_id time next_run rows

  -- `for tenant_id in sorted(due_tenant_ids)`
  unfoldable pub run_tenants :
      (stagger_seconds : ℕ)
      → ScheduleDatabase
      → (tenant_ids : List String) → List Schedule
      → Option (List Queued × ℕ × List Schedule)
  unfolding bind planned_all
  run_tenants stagger_seconds db [] rows = some ([], 0, rows)
  run_tenants stagger_seconds db (tenant_id ∷ tenant_ids) rows =
      let time = tenant_daily_time rows tenant_id in
      bind (compute_next_daily_run_at zone time (now + one_second)) (λ next_run.
        bind (run_tenants stagger_seconds db tenant_ids (planned_all tenant_id time next_run rows))
          (λ rest. some (
            queue_tenant stagger_seconds db tenant_id ++ rest.0,
            length (eligible_devices db tenant_id) + rest.1,
            rest.2,
          )))

  -- the rows that the query gives, after the new schedules are added, and their number
  unfoldable pub with_initial : ScheduleDatabase → Option (ScheduleDatabase × ℕ)
  unfolding bind select is_selected is_active_device initial_schedules
  with_initial db =
      let rows = select is_selected db.schedules in
      bind (initial_schedules rows (select is_active_device db.devices))
        (λ more. some (record db { schedules = db.schedules ++ more }, length more))

-- the figures of the answer
pub record Figures : Type 0 where
  pub schedules_checked : ℕ
  pub tenant_batches_queued : ℕ
  pub devices_queued : ℕ
  pub initialized_next_run : ℕ

pub data RunOutcome : Type 0 where
  blocked_by_force_stop blocked_by_running_bulk : RunOutcome
  ran : Figures → List Queued → RunOutcome

unfoldable pub figures_of :
    (initialized due : ℕ) → List Queued × ℕ × List Schedule → (initialized_here : ℕ) → Figures
figures_of initialized due (queued, devices, rows) initialized_here = record {
  schedules_checked = length rows;
  tenant_batches_queued = due;
  devices_queued = devices;
  initialized_next_run = initialized + initialized_here;
}

-- The rows that the query did not give stay as they are; the order of a table is that of no query.
unfoldable pub finished_run :
    ScheduleDatabase × ℕ
    → List Schedule × ℕ × List String
    → List Queued × ℕ × List Schedule
    → RunOutcome × ScheduleDatabase
unfolding select is_selected figures_of
finished_run (db, initialized) (rows, initialized_here, due) done = (
  ran (figures_of initialized (length due) done initialized_here) done.0,
  record db { schedules = select (λ s. not (is_selected s)) db.schedules ++ done.2 },
)

module _ (zone : Zone) (now stagger_seconds : ℕ) where
  unfoldable pub run_due :
      ScheduleDatabase × ℕ
      → List Schedule × ℕ × List String
      → Option (RunOutcome × ScheduleDatabase)
  unfolding bind run_tenants sort_by finished_run
  run_due first prepared =
      bind (run_tenants zone now stagger_seconds first.0 (sort_by text_ltb prepared.2) prepared.0)
        (λ done. some (finished_run first prepared done))

  unfoldable pub run_rows : ScheduleDatabase × ℕ → Option (RunOutcome × ScheduleDatabase)
  unfolding bind prepare select is_selected run_due
  run_rows first =
      bind (prepare zone now [] (select is_selected first.0.schedules))
        (λ prepared. run_due first prepared)

  unfoldable pub run_tables : ScheduleDatabase → Option (RunOutcome × ScheduleDatabase)
  unfolding bind with_initial run_rows
  run_tables db = bind (with_initial zone now db) (λ first. run_rows first)

-- `stop` and `bulk` are what `_is_global_backup_stop_enabled` and `_has_active_bulk_operation` answer.
unfoldable pub run_scheduled_backups :
    Zone
    → (now stagger_seconds : ℕ) → (stop bulk : Bool) → ScheduleDatabase
    → Option (RunOutcome × ScheduleDatabase)
unfolding run_tables
run_scheduled_backups zone now stagger_seconds true bulk db = some (blocked_by_force_stop, db)
run_scheduled_backups zone now stagger_seconds false true db = some (blocked_by_running_bulk, db)
run_scheduled_backups zone now stagger_seconds false false db =
    run_tables zone now stagger_seconds db
