-- ===== src/Retention/Samples.antt =====
-- A tenant with one old backup and one new one, and the theorem on purges at it.
use new_backup_center.Base.{
  ℕ, ◌+◌, ◌*◌, ◌≤◌, ◌≡◌, refl, Bool, true, false, not, none, some, String, List, [], ◌∷◌, select,
  length, pos,
}
use new_backup_center.Connection.{absent}
use new_backup_center.Retention.{
  micros_of_day, StoredBackup, Retainer, purge_expired_backups, purge_failed_backups_periodic,
}
use new_backup_center.Retention.Exact.{is_due, purge_exact}

abbrev backup : String → ℕ → StoredBackup
backup id created_at = record {
  id = id;
  tenant_id = "bakery";
  device = record {
    id = "router";
    name = "router";
    ip_address = "10.0.0.1";
    is_active = true;
    device_type_id = none;
    group_id = none;
    group = none;
    subgroup = none;
    extra_parameters = absent;
  };
  created_at = created_at;
  status = "failed";
  file_path = some id;
}

abbrev bakery : Retainer
bakery = record { id = "bakery"; is_active = true; backup_retention_days = some (pos 30) }

abbrev backups : List StoredBackup
backups = backup "old" 0 ∷ backup "new" (40 * micros_of_day) ∷ []

abbrev files : List String
files = "old" ∷ "new" ∷ "/app/storage/backups/old" ∷ []

abbrev never : String → Bool
never path = false

abbrev now : ℕ
now = 41 * micros_of_day

purge_exact_example :
    let after = purge_expired_backups never now (bakery ∷ []) backups files in
    (after.backups ≡ select (λ b. not (is_due now (bakery ∷ []) b)) backups)
    × (after.deleted + length after.backups ≡ length backups)
    × (after.files_removed ≤ after.deleted)
purge_exact_example = purge_exact never now (bakery ∷ []) backups files

purges_run :
    ((purge_expired_backups never now (bakery ∷ []) backups files).files
      ≡ "new" ∷ "/app/storage/backups/old" ∷ [])
    × ((purge_failed_backups_periodic never now backups files).files ≡ "old" ∷ "new" ∷ [])
unfolding purge_expired_backups purge_failed_backups_periodic
purges_run = (refl, refl)
