-- ===== src/Retention/Exact.antt =====
-- Which backups go, and that they are counted.
use new_backup_center.Base.{
  ℕ, zero, suc, ◌+◌, ◌*◌, ◌≤◌, ◌≡◌, refl, ap, ◌∙◌, Bool, true, false, not, ◌&&◌, ◌||◌, Option, none,
  some, String, List, [], ◌∷◌, ℤ, pos, negsuc, select, any, length, is_in, str_eq, eq_iff, leb,
  ◌==◌, if◌then◌else◌, if_rule, arith,
}
use new_backup_center.Connection.{Device, Group}
use new_backup_center.Retention.{
  StoredBackup, Retainer, Storage, retention_days_of, is_older, is_kept_group, is_past_retention,
  expired_path, remove_file, remove_files, counted_of, delete_those, purge_tenants,
  purge_expired_backups,
}

select-twice :
    (p q : StoredBackup → Bool) (xs : List StoredBackup)
    → select (λ b. not (q b)) (select (λ b. not (p b)) xs) ≡ select (λ b. not (p b || q b)) xs
unfolding select
select-twice p q [] = refl
select-twice p q (b ∷ xs) = ground (arith, select-twice p q xs)

select-all : (xs : List StoredBackup) → xs ≡ select (λ b. true) xs
unfolding select
select-all [] = refl
select-all (b ∷ xs) = ap (λ rest. b ∷ rest) (select-all xs)

module _ (refuses : String → Bool) where
  counted-split :
      (p : StoredBackup → Bool) (xs : List StoredBackup)
      → counted_of (select p xs) + length (select (λ b. not (p b)) xs) ≡ length xs
  unfolding select counted_of
  counted-split p [] = refl
  counted-split p (b ∷ xs) = ground (arith, counted-split p xs)

  remove_file-le :
      (path : String) (disk : List String × ℕ) → (remove_file refuses path disk).1 ≤ disk.1 + 1
  unfolding remove_file
  remove_file-le path (files, removed) =
      if_rule (λ (d : List String × ℕ). d.1 ≤ removed + 1)
        (not (str_eq path "") && is_in path files && not (refuses path))
        (select (λ other. not (str_eq other path)) files, removed + 1) (files, removed)
        (omega arith) (omega arith)

  remove_files-le :
      (path_of : StoredBackup → String) (xs : List StoredBackup) (disk : List String × ℕ)
      → (remove_files refuses path_of xs disk).1 ≤ disk.1 + counted_of xs
  unfolding remove_files counted_of
  remove_files-le path_of [] disk = omega arith
  remove_files-le path_of (b ∷ xs) disk =
      let next = remove_file refuses (path_of b) disk in
      omega (arith, remove_files-le path_of xs next, remove_file-le (path_of b) disk)

  -- Nothing is lost from the count, and no more files are gone than backups.
  abbrev IsCounted : Storage → Storage → Type 0
  IsCounted s t =
      (t.deleted + length t.backups ≡ s.deleted + length s.backups)
      × (t.files_removed + s.deleted ≤ s.files_removed + t.deleted)

  delete-IsCounted :
      (test : StoredBackup → Bool) (path_of : StoredBackup → String) (s : Storage)
      → IsCounted s (delete_those refuses test path_of s)
  unfolding delete_those
  delete-IsCounted test path_of s = (
    omega (arith, counted-split test s.backups),
    omega (arith, remove_files-le path_of (select test s.backups) (s.files, s.files_removed)),
  )

  tenants-IsCounted :
      (now : ℕ) (tenants : List Retainer) (s : Storage)
      → IsCounted s (purge_tenants refuses now tenants s)
  unfolding purge_tenants
  tenants-IsCounted now [] s = (refl, omega arith)
  tenants-IsCounted now (tenant ∷ tenants) s =
      let first = delete-IsCounted (is_past_retention now tenant) expired_path s in
      let rest =
        tenants-IsCounted now tenants
          (delete_those refuses (is_past_retention now tenant) expired_path s) in
      (omega (arith, first.0, rest.0), omega (arith, first.1, rest.1))

  tenants-backups :
      (now : ℕ) (tenants : List Retainer) (s : Storage)
      → (purge_tenants refuses now tenants s).backups
        ≡ select (λ b. not (any (λ t. is_past_retention now t b) tenants)) s.backups
  unfolding purge_tenants delete_those any
  tenants-backups now [] s = select-all s.backups
  tenants-backups now (tenant ∷ tenants) s =
      tenants-backups now tenants
        (delete_those refuses (is_past_retention now tenant) expired_path s)
      ∙ select-twice (is_past_retention now tenant)
          (λ b. any (λ t. is_past_retention now t b) tenants) s.backups

-- The time for which a tenant keeps its backups: the days of its plan, and 90 without a plan or without days.
unfoldable pub is_kept_for : (now : ℕ) → Option ℤ → (created_at : ℕ) → Bool
is_kept_for now none created_at = leb now (created_at + 7_776_000_000_000)
is_kept_for now (some (pos days)) created_at =
    if days == 0
    then leb now (created_at + 7_776_000_000_000)
    else leb now (created_at + days * 86_400_000_000)
is_kept_for now (some (negsuc n)) created_at = leb (now + (n + 1) * 86_400_000_000) created_at

unfoldable pub group_takes_part : Option String → Option Group → Bool
group_takes_part none group = true
group_takes_part (some id) none = false
group_takes_part (some id) (some group) = group.is_active

-- The device of a backup takes part: it is active, and so is its group, where it has one.
unfoldable pub takes_part : Device → Bool
takes_part d = d.is_active && group_takes_part d.group_id d.group

-- A backup is due: its device takes part, and an active tenant, which it belongs to, no longer keeps it.
unfoldable pub is_due : (now : ℕ) → List Retainer → StoredBackup → Bool
unfolding any
is_due now tenants b =
    takes_part b.device
    && any
        (λ t.
          t.is_active
          && str_eq t.id b.tenant_id
          && not (is_kept_for now t.backup_retention_days b.created_at))
        tenants

older-kept :
    (now : ℕ) (days : Option ℤ) (created_at : ℕ)
    → is_older now (retention_days_of days) created_at ≡ not (is_kept_for now days created_at)
unfolding is_older retention_days_of is_kept_for
older-kept now none created_at = ground arith
older-kept now (some (pos zero)) created_at = ground arith
older-kept now (some (pos (suc n))) created_at = ground arith
older-kept now (some (negsuc n)) created_at = ground arith

group-takes_part :
    (id : Option String) (group : Option Group) → is_kept_group id group ≡ group_takes_part id group
unfolding is_kept_group group_takes_part
group-takes_part none group = refl
group-takes_part (some id) none = refl
group-takes_part (some id) (some group) = refl

due-active :
    (now : ℕ) (tenants : List Retainer) (b : StoredBackup)
    → any (λ t. is_past_retention now t b) (select (λ t. t.is_active) tenants)
      ≡ is_due now tenants b
unfolding is_due any select is_past_retention takes_part
due-active now [] b = ground arith
due-active now (t ∷ tenants) b = ground (
  arith,
  due-active now tenants b,
  older-kept now t.backup_retention_days b.created_at,
  group-takes_part b.device.group_id b.device.group,
  eq_iff t.id b.tenant_id,
  eq_iff b.tenant_id t.id,
)

select-same :
    (p q : StoredBackup → Bool) (xs : List StoredBackup)
    → ((b : StoredBackup) → p b ≡ q b)
    → select (λ b. not (p b)) xs ≡ select (λ b. not (q b)) xs
unfolding select
select-same p q [] h = refl
select-same p q (b ∷ xs) h = rw (h b, select-same p q xs h) refl

-- After a purge the backups are those that were there and are not due, in their order: a backup is due when
-- its device is active, and its group too, where it has one, and when it is older than the days of the plan of
-- its tenant, which is active, or than 90 days where those are none. The answer counts every other backup, and
-- no more files than backups.
pub purge_exact :
    (refuses : String → Bool) (now : ℕ) (tenants : List Retainer) (backups : List StoredBackup)
    (files : List String)
    → let after = purge_expired_backups refuses now tenants backups files in
      (after.backups ≡ select (λ b. not (is_due now tenants b)) backups)
      × (after.deleted + length after.backups ≡ length backups)
      × (after.files_removed ≤ after.deleted)
unfolding purge_expired_backups
purge_exact refuses now tenants backups files =
    let s : Storage = record { backups = backups; files = files; deleted = 0; files_removed = 0 } in
    let active = select (λ t. t.is_active) tenants in
    let counted = tenants-IsCounted refuses now active s in
    (
      tenants-backups refuses now active s
          ∙ select-same (λ b. any (λ t. is_past_retention now t b) active) (is_due now tenants)
              backups (due-active now tenants),
      omega (arith, counted.0),
      omega (arith, counted.1),
    )
