-- ===== src/Schedules/Samples.antt =====
-- A tenant with two devices in the zone of Recife, and the theorems on schedules at it.
use new_backup_center.Schedules.Queue.{
  goes_directly, eligible_devices, queue_tenant, Queued, direct,
}
use new_backup_center.Schedules.Tables.{
  resolve_mass_backup_excluded_type_ids, tenant_daily_time, Owned, Schedule, ScheduleDatabase,
  is_selected,
}
use new_backup_center.Schedules.Runner.{new_schedule, RunOutcome, ran, run_scheduled_backups}
use new_backup_center.Base.Dict.{put}
use new_backup_center.Base.{
  ℕ, ◌+◌, ◌-◌, ◌*◌, ◌%◌, ◌≤◌, ◌<◌, ◌≡◌, refl, true, false, not, ◌||◌, Option, none, some, String,
  List, [], ◌∷◌, All, arith,
}
use new_backup_center.Connection.{absent}
use new_backup_center.Schedules.Clock.{
  minute, day_length, Zone, clock_of, clock_text, sanitize_daily_time, compute_next_daily_run_at,
}
use new_backup_center.Schedules.Clock.Text.{clock_of-text}
use new_backup_center.Schedules.Clock.Next.{IsFixed, shown, next_run_exact}
use new_backup_center.Schedules.Runner.Turns.{awaits}
use new_backup_center.Schedules.Runner.Tenants.{schedules_wait}
use new_backup_center.Schedules.Runner.Idle.{queues_nothing, runs_once}

abbrev three_hours : ℕ
three_hours = 180 * minute

abbrev recife : Zone
recife = record {
  local_of = λ t. (t - three_hours, false);
  utc_of = λ clock. clock.0 + three_hours;
}

abbrev recife-IsFixed : IsFixed three_hours recife
recife-IsFixed = (λ t h. refl, λ clock. refl)

abbrev now : ℕ
now = 7 * day_length + 300 * minute

abbrev owned : String → Owned
owned id = record {
  device = record {
    id = id;
    name = id;
    ip_address = "10.0.0.1";
    is_active = true;
    device_type_id = some "ros";
    group_id = none;
    group = none;
    subgroup = none;
    extra_parameters = absent;
  };
  tenant_id = "bakery";
  backup_scheduled = true;
}

abbrev due : Schedule
due = record {
  owned = owned "a";
  is_active = true;
  frequency = "weekly";
  time = some "2:00";
  day_of_week = some 3;
  day_of_month = none;
  last_run_at = none;
  next_run_at = some (7 * day_length);
}

abbrev database : ScheduleDatabase
database = record {
  schedules = due ∷ [];
  devices = owned "a" ∷ owned "b" ∷ [];
  types = record { id = "graf"; name = some "Grafana"; script_name = none } ∷ [];
}

clock_of-text_example : clock_of (clock_text (2, 5)) ≡ some (2, 5)
clock_of-text_example = clock_of-text (2, 5) (omega arith, omega arith)

next_run_exact_example :
    (next : ℕ) × (compute_next_daily_run_at recife " 2:0" now ≡ some next)
    × (now < next)
    × (next ≤ now + day_length)
    × ((next - three_hours) % minute ≡ 0)
    × (clock_of (sanitize_daily_time (some " 2:0")) ≡ some (shown (next - three_hours)))
next_run_exact_example = next_run_exact recife three_hours " 2:0" now recife-IsFixed (omega arith)

schedules_wait_example :
    (result : RunOutcome × ScheduleDatabase) × (run_scheduled_backups recife now 5 false false
        database
      ≡ some result)
    × All (λ s. (not (is_selected s) || awaits now s) ≡ true) result.1.schedules
schedules_wait_example =
    schedules_wait recife three_hours now 5 database recife-IsFixed (omega arith)

runs_once_example :
    (result : RunOutcome × ScheduleDatabase) × (again : RunOutcome × ScheduleDatabase)
    × (run_scheduled_backups recife now 5 false false database ≡ some result)
    × (run_scheduled_backups recife now 5 false false result.1 ≡ some again)
    × (queues_nothing again.0 ≡ true)
runs_once_example = runs_once recife three_hours now 5 database recife-IsFixed (omega arith)

-- what a run puts into the queues
abbrev queued : Option (RunOutcome × ScheduleDatabase) → List Queued
queued (some (ran figures tasks, db)) = tasks
queued _ = []

run_starts :
    queued (run_scheduled_backups recife now 5 false false database)
    ≡ direct "a" 0 ∷ direct "b" 2 ∷ []
unfolding run_scheduled_backups compute_next_daily_run_at tenant_daily_time put new_schedule
    queue_tenant eligible_devices resolve_mass_backup_excluded_type_ids goes_directly
run_starts = refl
