-- ===== src/Retention.antt =====
-- app/tasks/backups.py: `purge_expired_backups` and `purge_failed_backups_periodic`, which delete old backups
-- with their files. The database and the clock do not fail; a file that is there may refuse to go.
pub mod Exact
mod Samples
use new_backup_center.Base.{
  ℕ, zero, suc, ◌+◌, ◌*◌, Bool, true, false, not, ◌&&◌, ◌||◌, Option, none, some, String, List, [],
  ◌∷◌, select, is_in, strip, str_or_empty, str_eq, ltb, ℤ, pos, negsuc, if◌then◌else◌,
}
use new_backup_center.Connection.{Device, Group}
use Prim.Native.String.{◌++◌, slice}

abbrev pub micros_of_day : ℕ
micros_of_day = 86_400_000_000

abbrev pub default_retention_days : ℤ
default_retention_days = pos 90

abbrev pub failed_retention_days : ℤ
failed_retention_days = pos 3

pub record StoredBackup : Type 0 where
  pub id : String
  pub tenant_id : String
  pub device : Device
  pub created_at : ℕ
  pub status : String
  pub file_path : Option String

-- `backup_retention_days` is that of the plan, where there is one.
pub record Retainer : Type 0 where
  pub id : String
  pub is_active : Bool
  pub backup_retention_days : Option ℤ

unfoldable pub retention_days_of : Option ℤ → ℤ
retention_days_of none = default_retention_days
retention_days_of (some (pos zero)) = default_retention_days
retention_days_of (some days) = days

unfoldable pub is_kept_group : Option String → Option Group → Bool
is_kept_group none group = true
is_kept_group (some id) none = false
is_kept_group (some id) (some group) = group.is_active

-- `created_at < now - timedelta(days)`
unfoldable pub is_older : (now : ℕ) → (days : ℤ) → (created_at : ℕ) → Bool
is_older now (pos days) created_at = ltb (created_at + days * micros_of_day) now
is_older now (negsuc n) created_at = ltb created_at (now + (n + 1) * micros_of_day)

unfoldable pub is_past_retention : (now : ℕ) → Retainer → StoredBackup → Bool
unfolding is_older is_kept_group retention_days_of
is_past_retention now tenant b =
    str_eq b.tenant_id tenant.id
    && is_older now (retention_days_of tenant.backup_retention_days) b.created_at
    && b.device.is_active
    && is_kept_group b.device.group_id b.device.group

unfoldable pub is_failed_and_old : (now : ℕ) → StoredBackup → Bool
unfolding is_older
is_failed_and_old now b =
    str_eq b.status "failed" && is_older now failed_retention_days b.created_at

-- The backups, the files on the disk, and the counters of the answer.
pub record Storage : Type 0 where
  pub backups : List StoredBackup
  pub files : List String
  pub deleted : ℕ
  pub files_removed : ℕ

-- `os.path.join(storage_base, file_path)`, which is the path itself where it is absolute
unfoldable pub absolute_path : String → String
absolute_path path = if str_eq (slice path 0 1) "/" then path else "/app/storage/backups/" ++ path

unfoldable pub expired_path : StoredBackup → String
expired_path b = str_or_empty b.file_path

unfoldable pub failed_path : StoredBackup → String
unfolding absolute_path strip
failed_path b =
    let path = strip (str_or_empty b.file_path) in if str_eq path "" then "" else absolute_path path

unfoldable pub counted_of : List StoredBackup → ℕ
counted_of [] = 0
counted_of (b ∷ backups) = counted_of backups + 1

module _ (refuses : String → Bool) where
  -- the file of a backup, and the count of those that are gone
  unfoldable pub remove_file : (path : String) → List String × ℕ → List String × ℕ
  unfolding select is_in
  remove_file path (files, removed) =
      if not (str_eq path "") && is_in path files && not (refuses path)
      then (select (λ other. not (str_eq other path)) files, removed + 1)
      else (files, removed)

  -- the loop over the backups that the query gave
  unfoldable pub remove_files :
      (path_of : StoredBackup → String) → List StoredBackup → List String × ℕ → List String × ℕ
  unfolding remove_file
  remove_files path_of [] disk = disk
  remove_files path_of (b ∷ backups) disk =
      remove_files path_of backups (remove_file (path_of b) disk)

  unfoldable pub delete_those :
      (StoredBackup → Bool) → (path_of : StoredBackup → String) → Storage → Storage
  unfolding select remove_files counted_of
  delete_those test path_of s =
      let those = select test s.backups in
      let disk = remove_files path_of those (s.files, s.files_removed) in
      record {
        backups = select (λ b. not (test b)) s.backups;
        files = disk.0;
        deleted = s.deleted + counted_of those;
        files_removed = disk.1;
      }

  unfoldable pub purge_tenants : (now : ℕ) → List Retainer → Storage → Storage
  unfolding delete_those is_past_retention expired_path
  purge_tenants now [] s = s
  purge_tenants now (tenant ∷ tenants) s =
      purge_tenants now tenants (delete_those (is_past_retention now tenant) expired_path s)

  unfoldable pub purge_expired_backups :
      (now : ℕ) → List Retainer → (backups : List StoredBackup) → (files : List String) → Storage
  unfolding purge_tenants select
  purge_expired_backups now tenants backups files =
      purge_tenants now (select (λ t. t.is_active) tenants)
        (record { backups = backups; files = files; deleted = 0; files_removed = 0 })

  unfoldable pub purge_failed_backups_periodic :
      (now : ℕ) → (backups : List StoredBackup) → (files : List String) → Storage
  unfolding delete_those is_failed_and_old failed_path
  purge_failed_backups_periodic now backups files =
      delete_those (is_failed_and_old now) failed_path
        (record { backups = backups; files = files; deleted = 0; files_removed = 0 })
