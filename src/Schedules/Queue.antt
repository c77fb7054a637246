-- ===== src/Schedules/Queue.antt =====
-- app/tasks/backups.py: what `run_scheduled_backups` puts into the queues for a tenant that is due.
use new_backup_center.Base.{
  ℕ, ◌+◌, ◌*◌, Bool, false, not, Option, none, some, is_some, String, List, [], ◌∷◌, ◌++◌, map,
  select, is_in, or_else, pos, sort_by, text_ltb, ◌&&◌,
}
use new_backup_center.Base.Dict.{Dict, get, put}
use new_backup_center.Connection.{uses_vpn_tunnel, uses_jump_host}
use new_backup_center.Queue.Interleave.{interleave_by_bastion}
use new_backup_center.Queue.Countdown.{bastion_key_for_device}
use new_backup_center.Bulk.Followup.{add_id}
use new_backup_center.Schedules.Tables.{
  Owned, ScheduleDatabase, is_active_device, belongs_to, resolve_mass_backup_excluded_type_ids,
}

-- The tasks: `run_backup_task` with its countdown, into the default queue and that of the jump hosts, and
-- `run_vpn_group_backups_task`.
pub data Queued : Type 0 where
  direct : (device_id : String) (countdown : ℕ) → Queued
  jump : (device_id : String) (countdown : ℕ) → Queued
  vpn : (group_id tenant_id : String) (device_ids : List String) → Queued

unfoldable pub is_excluded : (excluded : List String) → Option String → Bool
unfolding is_in
is_excluded excluded none = false
is_excluded excluded (some id) = is_in id excluded

unfoldable pub eligible_devices : ScheduleDatabase → (tenant_id : String) → List Owned
unfolding select is_excluded is_active_device belongs_to
eligible_devices db tenant_id =
    let excluded = resolve_mass_backup_excluded_type_ids db.types in
    select (λ o. not (is_excluded excluded o.device.device_type_id))
      (select (λ o. belongs_to tenant_id o && is_active_device o) db.devices)

unfoldable pub goes_by_vpn : Owned → Bool
goes_by_vpn o = is_some o.device.group && uses_vpn_tunnel o.device.group (some o.device)

unfoldable pub goes_by_jump_host : Owned → Bool
unfolding goes_by_vpn
goes_by_jump_host o =
    not (goes_by_vpn o) && is_some o.device.group && uses_jump_host o.device.group (some o.device)

unfoldable pub goes_directly : Owned → Bool
unfolding goes_by_vpn goes_by_jump_host
goes_directly o = not (goes_by_vpn o) && not (goes_by_jump_host o)

-- `for idx, device_id in enumerate(due_direct_devices)`, from `idx` on
unfoldable pub queue_direct : (idx : ℕ) → List Owned → List Queued
queue_direct idx [] = []
queue_direct idx (o ∷ owned) = direct o.device.id (idx * 2) ∷ queue_direct (idx + 1) owned

unfoldable pub queue_jump : (stagger_seconds : ℕ) → List Owned → List Queued
unfolding interleave_by_bastion
queue_jump stagger_seconds owned =
    map (λ e. jump e.0.device.id e.1)
      (interleave_by_bastion (λ o. bastion_key_for_device o.device) (pos stagger_seconds) owned)

-- `due_vpn_by_group`, with the ids of each group as a set
unfoldable pub by_group : List Owned → Dict (List String) → Dict (List String)
unfolding add_id
by_group [] groups = groups
by_group (o ∷ owned) groups =
    let group_id = or_else o.device.group_id "None" in
    by_group owned (put group_id (add_id o.device.id (or_else (get group_id groups) [])) groups)

unfoldable pub queue_vpn : (tenant_id : String) → List Owned → List Queued
unfolding by_group sort_by
queue_vpn tenant_id owned = map (λ e. vpn e.0 tenant_id (sort_by text_ltb e.1)) (by_group owned [])

unfoldable pub queue_tenant :
    (stagger_seconds : ℕ) → ScheduleDatabase → (tenant_id : String) → List Queued
unfolding queue_direct queue_jump queue_vpn select
queue_tenant stagger_seconds db tenant_id =
    let owned = eligible_devices db tenant_id in
    queue_direct 0 (select goes_directly owned)
    ++ queue_jump stagger_seconds (select goes_by_jump_host owned)
    ++ queue_vpn tenant_id (select goes_by_vpn owned)
