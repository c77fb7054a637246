-- ===== src/Plans/Tables.antt =====
-- The rows that the services count: app/models/device.py, user.py, backup.py and
-- tenant_usage_metric.py, as far as limits go.
use new_backup_center.Base.{
  ℕ, ◌+◌, Bool, true, false, ◌&&◌, Option, none, some, String, List, [], ◌∷◌, str_eq, length,
  select, any,
}

pub record DeviceRow : Type 0 where
  pub id : String
  pub tenant_id : String
  pub is_active : Option Bool

pub record UserRow : Type 0 where
  pub tenant_id : String
  pub is_active : Option Bool

pub record BackupRow : Type 0 where
  pub device_id : String
  pub file_size_bytes : Option ℕ

pub record Metric : Type 0 where
  pub tenant_id : String
  pub metric_key : String
  pub period_key : String
  pub value_bytes : ℕ
  pub events_count : ℕ

pub record Db : Type 0 where
  pub devices : List DeviceRow
  pub users : List UserRow
  pub backups : List BackupRow
  pub metrics : List Metric

-- `is_active IS NOT FALSE` holds of NULL, `is_active IS TRUE` does not.
abbrev pub is_not_false : Option Bool → Bool
is_not_false none = true
is_not_false (some b) = b

abbrev pub is_true : Option Bool → Bool
is_true none = false
is_true (some b) = b

unfoldable pub get_device_count : Db → String → ℕ
get_device_count db tenant_id =
    length (select (λ d. str_eq d.tenant_id tenant_id && is_not_false d.is_active) db.devices)

unfoldable pub get_active_user_count : Db → String → ℕ
get_active_user_count db tenant_id =
    length (select (λ u. str_eq u.tenant_id tenant_id && is_true u.is_active) db.users)

sum_sizes : List BackupRow → ℕ
sum_sizes [] = 0
sum_sizes (b ∷ backups) = elim b.file_size_bytes [ none ↦ 0 | some n ↦ n ] + sum_sizes backups

-- The join of the backups with the devices of the tenant; a device's id is its primary key.
unfoldable pub get_storage_used_bytes : Db → String → ℕ
unfolding sum_sizes
get_storage_used_bytes db tenant_id = sum_sizes (
    select
      (λ b.
        any (λ (d : DeviceRow). str_eq b.device_id d.id && str_eq d.tenant_id tenant_id) db.devices)
      db.backups)
