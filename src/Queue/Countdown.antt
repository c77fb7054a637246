-- ===== src/Queue/Countdown.antt =====
-- app/tasks/backups.py: the bastion, the throttle, the countdown and the queue of a device, and the
-- groups of a batch's phases.
pub mod Order
use new_backup_center.Base.{
  ℤ, pos, negsuc, ℕ, zero, suc, ◌+◌, ◌*◌, ◌/◌, Bool, true, false, not, ◌&&◌, ◌||◌, Option, none,
  some, String, List, [], ◌∷◌, str_eq, length, or_else, is_some, str_or_empty, normalize, strip,
  decimal_ℤ, ltb, if◌then◌else◌, any,
}
use new_backup_center.Base.Dict.{Dict, get, put}
use new_backup_center.Connection.{
  Device, Group, uses_jump_host, uses_vpn_tunnel, device_connection_override,
}
use Prim.Native.String.{◌++◌}

abbrev auto_reprocess_jump_countdown_step_seconds : ℕ
auto_reprocess_jump_countdown_step_seconds = 8

abbrev auto_reprocess_direct_global_batch_size : ℕ
auto_reprocess_direct_global_batch_size = 25

-- `int(port or 22)`
abbrev pub port_or_ssh : Option ℤ → ℤ
port_or_ssh none = pos 22
port_or_ssh (some (pos zero)) = pos 22
port_or_ssh (some port) = port

-- The key of a group's jump host, where the device goes through one.
jump_key : Group → Option String
unfolding normalize
jump_key group =
    if not (str_eq (str_or_empty group.jump_host) "")
    then some
        ("jump:" ++ normalize group.jump_host ++ ":" ++ decimal_ℤ (port_or_ssh group.jump_port))
    else none

throttle : Option String → String × ℕ
throttle (some key) = (key, auto_reprocess_jump_countdown_step_seconds)
throttle none = ("direct:global", 0)

unfoldable pub auto_resolve_enqueue_throttle : Device → String × ℕ
unfolding jump_key throttle
auto_resolve_enqueue_throttle device = throttle (elim device.group [
  | none ↦ none
  | some group ↦ if uses_jump_host (some group) (some device) then jump_key group else none
])

unfoldable pub auto_next_countdown_for_device : Device → Dict ℕ → ℕ × Dict ℕ
unfolding auto_resolve_enqueue_throttle
auto_next_countdown_for_device device throttle_counters =
    let (key, step_seconds) = auto_resolve_enqueue_throttle device in
    let slot = or_else (get key throttle_counters) 0 in
    (
      if ltb 0 step_seconds
          then slot * step_seconds
          else slot / auto_reprocess_direct_global_batch_size,
      put key (slot + 1) throttle_counters,
    )

-- The loop that puts the devices without a group into the queue, in their order.
unfoldable pub auto_countdowns : List Device → Dict ℕ → List (Device × ℕ)
unfolding auto_next_countdown_for_device
auto_countdowns [] counters = []
auto_countdowns (device ∷ devices) counters =
    let (countdown, counters') = auto_next_countdown_for_device device counters in
    (device, countdown) ∷ auto_countdowns devices counters'

unfoldable pub auto_backup_queue_for_device : Device → String
auto_backup_queue_for_device device =
    if is_some device.group && uses_vpn_tunnel device.group (some device)
    then "vpn_queue"
    else "celery"

unfoldable pub bastion_key_for_group_fields :
    (jump_host : Option String) (jump_port : Option ℤ) → String
unfolding normalize decimal_ℤ
bastion_key_for_group_fields jump_host jump_port =
    let host = normalize jump_host in
    if str_eq host "" then "sem-bastion" else host ++ ":" ++ decimal_ℤ (port_or_ssh jump_port)

unfoldable pub bastion_key_for_device : Device → String
unfolding bastion_key_for_group_fields
bastion_key_for_device device = elim device.group [
  | none ↦ "sem-bastion"
  | some group ↦ bastion_key_for_group_fields group.jump_host group.jump_port
]

abbrev same_type : Option String → Option String → Bool
same_type none none = true
same_type (some a) (some b) = str_eq a b
same_type _ _ = false

-- `_auto_split_mass_backup_devices`: those that are let in, and those of an excluded type.
unfoldable pub auto_split_mass_backup_devices :
    List Device → (excluded_type_ids : List (Option String)) → List Device × List Device
auto_split_mass_backup_devices [] excluded_type_ids = ([], [])
auto_split_mass_backup_devices (device ∷ devices) excluded_type_ids =
    let (allowed, excluded) = auto_split_mass_backup_devices devices excluded_type_ids in
    if any (same_type device.device_type_id) excluded_type_ids
    then (allowed, device ∷ excluded)
    else (device ∷ allowed, excluded)

-- The phases of the automatic batch.
pub data Phase : Type 0 where
  vpn jump direct without_group : Phase

-- The loop's four ways for a device.
unfoldable pub phase_of : Device → Phase
phase_of device = elim device.group [
  | none ↦ without_group
  | some group ↦
      if uses_vpn_tunnel (some group) (some device)
      then vpn
      else if uses_jump_host (some group) (some device)
      then jump
      else direct
]
