-- ===== src/Plans/Limits/Counts.antt =====
-- The checks of plan_limits_service.py before a device, a user or a backup is added.
use new_backup_center.Base.{
  ℕ, ◌+◌, ◌≤◌, ◌<◌, ◌≡◌, ◌⊎◌, ◌↔◌, true, false, some, String, ◌∷◌, pos, select, arith,
}
use new_backup_center.Models.{Plan, Tenant}
use new_backup_center.Plans.Tables.{
  Db, DeviceRow, UserRow, get_device_count, get_storage_used_bytes,
}
use new_backup_center.Plans.Limits.{
  as_int, check_can_add_device, check_storage_before_backup, storage_limit_bytes,
}

-- The row that `create_device` adds to the table.
abbrev pub with_device : DeviceRow → Db → Db
with_device d db = record db { devices = d ∷ db.devices }

abbrev pub with_user : UserRow → Db → Db
with_user u db = record db { users = u ∷ db.users }

get_device_count-add :
    (db : Db) (d : DeviceRow) (t : String)
    → get_device_count (with_device d db) t ≤ get_device_count db t + 1
unfolding get_device_count select
get_device_count-add db d t = ground arith

module _ (db : Db) (tenant : Tenant) (plan : Plan) where
  -- Where the check allows one more device and the plan has a limit, the plan's limit still holds
  -- after one device, whichever, is added.
  add_device-le_limit :
      (d : DeviceRow)
      → tenant.access_unlimited ≡ false
      → tenant.plan ≡ some plan
      → 0 < as_int plan.max_devices 0
      → (check_can_add_device db tenant).allowed ≡ true
      → get_device_count (with_device d db) tenant.id ≤ as_int plan.max_devices 0
  unfolding check_can_add_device
  add_device-le_limit d metered with_plan limited ok =
      ground (arith, get_device_count-add db d tenant.id)

  -- A backup of a metered tenant is allowed exactly when it is empty, the plan sets no limit, or it
  -- still fits into what the plan stores.
  storage_exact :
      (size : ℕ)
      → tenant.access_unlimited ≡ false
      → tenant.plan ≡ some plan
      → (check_storage_before_backup db tenant (pos size)).allowed ≡ true
        ↔ (size ≡ 0)
          ⊎ (storage_limit_bytes (some plan) ≡ 0)
          ⊎ (get_storage_used_bytes db tenant.id + size ≤ storage_limit_bytes (some plan))
  unfolding check_storage_before_backup
  storage_exact size metered with_plan = ground arith
