-- ===== src/Plans/Limits/Samples.antt =====
-- A small database, and the theorems on plans at it.
use new_backup_center.Base.{
  ℕ, ◌+◌, ◌≤◌, ◌≡◌, ◌↔◌, ◌⊎◌, refl, true, none, some, String, [], ◌∷◌, pos, arith, if◌then◌else◌,
}
use new_backup_center.Models.{Plan, Tenant}
use new_backup_center.Billing.Policy.Samples.{basic, due_on}
use new_backup_center.Plans.Tables.{Db, DeviceRow, UserRow}
use new_backup_center.Plans.Limits.{
  consume_download_bytes, get_download_used_bytes_current_month, monthly_download_limit_bytes,
  find_or_add, add_to_first,
}
use new_backup_center.Plans.Limits.Downloads.{consume_exact}

abbrev switch : DeviceRow
switch = record { id = "d1"; tenant_id = "t1"; is_active = none }

abbrev operator : UserRow
operator = record { tenant_id = "t1"; is_active = some true }

abbrev db : Db
db = record {
  devices = switch ∷ [];
  users = operator ∷ [];
  backups = record { device_id = "d1"; file_size_bytes = some 4096 } ∷ [];
  metrics = [];
}

abbrev tenant : Tenant
tenant = due_on 1001

abbrev month : String
month = "2026-01"

-- A download is counted in its month, and one that is too large is not.
downloads_run :
    let one = (consume_download_bytes db tenant (pos 5000) month).1 in
    let two = (consume_download_bytes one tenant (pos 21_474_836_480) month).1 in
    get_download_used_bytes_current_month two "t1" month ≡ 5000
unfolding consume_download_bytes get_download_used_bytes_current_month monthly_download_limit_bytes
    find_or_add add_to_first
downloads_run = refl

abbrev after : ℕ → Db
after size = (consume_download_bytes db tenant (pos size) month).1

consume_exact_example :
    ((consume_download_bytes db tenant (pos 5000) month).0.allowed ≡ true
      ↔ (monthly_download_limit_bytes (some basic) ≡ 0)
        ⊎ (get_download_used_bytes_current_month db "t1" month + 5000
            ≤ monthly_download_limit_bytes (some basic)))
    × (get_download_used_bytes_current_month (after 5000) "t1" month ≡ (
        if (consume_download_bytes db tenant (pos 5000) month).0.allowed
        then get_download_used_bytes_current_month db "t1" month + 5000
        else get_download_used_bytes_current_month db "t1" month))
consume_exact_example = consume_exact db tenant basic 5000 month refl refl (omega arith)

abbrev open_plan : Plan
open_plan = record basic { max_devices = some (pos 0) }
