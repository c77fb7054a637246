-- ===== src/Schedules/Tables.antt =====
-- The rows that `run_scheduled_backups` of app/tasks/backups.py reads, and the daily time of a tenant.
use new_backup_center.Base.{
  ℕ, ◌+◌, Bool, true, false, not, ◌&&◌, Option, none, some, String, List, [], ◌∷◌, map, select,
  or_else, strip, lower, contains_any, str_eq, str_or_empty, ltb, if◌then◌else◌,
}
use new_backup_center.Base.Dict.{Dict, get, put}
use new_backup_center.Connection.{Device, Group}
use new_backup_center.Schedules.Clock.{sanitize_daily_time}
use Prim.Native.String.{◌++◌}

-- A device with the columns that a schedule asks for.
pub record Owned : Type 0 where
  pub device : Device
  pub tenant_id : String
  pub backup_scheduled : Bool

pub record Schedule : Type 0 where
  pub owned : Owned
  pub is_active : Bool
  pub frequency : String
  pub time : Option String
  pub day_of_week : Option ℕ
  pub day_of_month : Option ℕ
  pub last_run_at : Option ℕ
  pub next_run_at : Option ℕ

pub record DeviceType : Type 0 where
  pub id : String
  pub name : Option String
  pub script_name : Option String

pub record ScheduleDatabase : Type 0 where
  pub schedules : List Schedule
  pub devices : List Owned
  pub types : List DeviceType

unfoldable pub group_is_active : Option String → Option Group → Bool
group_is_active none group = true
group_is_active (some id) none = false
group_is_active (some id) (some group) = group.is_active

-- `active_device_filters`
unfoldable pub is_active_device : Owned → Bool
unfolding group_is_active
is_active_device o =
    o.device.is_active && o.backup_scheduled && group_is_active o.device.group_id o.device.group

-- what the query of the schedules selects
unfoldable pub is_selected : Schedule → Bool
unfolding is_active_device
is_selected s = s.is_active && is_active_device s.owned

unfoldable pub is_mass_backup_excluded_type : (name script_name : Option String) → Bool
unfolding lower strip contains_any
is_mass_backup_excluded_type name script_name =
    let content = lower (strip (str_or_empty name ++ " " ++ str_or_empty script_name)) in
    contains_any content ("grafana" ∷ "zabbix" ∷ [])

unfoldable pub resolve_mass_backup_excluded_type_ids : List DeviceType → List String
unfolding select is_mass_backup_excluded_type
resolve_mass_backup_excluded_type_ids types =
    map (λ t. t.id) (select (λ t. is_mass_backup_excluded_type t.name t.script_name) types)

unfoldable pub counted : List String → Dict ℕ → Dict ℕ
counted [] counts = counts
counted (time ∷ times) counts = counted times (put time (or_else (get time counts) 0 + 1) counts)

unfoldable pub most_of : String × ℕ → Dict ℕ → String
most_of best [] = best.0
most_of best (entry ∷ counts) = most_of (if ltb best.1 entry.1 then entry else best) counts

-- `Counter(times).most_common(1)[0][0]`, the first of those with the highest count, or "02:00" for no times
unfoldable pub most_common : Dict ℕ → String
unfolding most_of
most_common [] = "02:00"
most_common (entry ∷ counts) = most_of entry counts

unfoldable pub has_time : Option String → Bool
has_time none = false
has_time (some time) = not (str_eq time "")

unfoldable pub belongs_to : (tenant_id : String) → Owned → Bool
belongs_to tenant_id o = str_eq o.tenant_id tenant_id

unfoldable pub tenant_daily_time : (rows : List Schedule) → (tenant_id : String) → String
unfolding most_common counted select has_time belongs_to sanitize_daily_time
tenant_daily_time rows tenant_id =
    let mine = select (λ s. belongs_to tenant_id s.owned && has_time s.time) rows in
    most_common (counted (map (λ s. sanitize_daily_time s.time) mine) [])
