-- ===== src/Connection/Modes.antt =====
-- What connection_mode.py can answer, and which of its sources decides.
use new_backup_center.Base.{
  ◌≡◌, ◌≢◌, ◌⊎◌, inr, refl, true, false, ◌&&◌, Option, none, some, String, is_in, arith, eq_iff,
  Value, if_rule,
}
use new_backup_center.Base.Dict.{Dict}
use new_backup_center.Connection.{
  Subgroup, Extra, absent, object, not_object, Device, Group, connection_value,
  normalize_connection_type, subgroup_type, extra_type, override_of, group_type,
  device_connection_override, effective_connection_type, uses_jump_host, uses_vpn_tunnel,
}

abbrev pub IsMode : String → Type 0
IsMode s = (s ≡ "jump_host") ⊎ (s ≡ "vpn") ⊎ (s ≡ "direct")

abbrev IsAnswer : String → Type 0
IsAnswer s = IsMode s ⊎ (s ≡ "")

connection_value-IsAnswer : (raw : String) → IsAnswer (connection_value raw)
unfolding connection_value is_in
connection_value-IsAnswer raw = ground (arith, eq_iff raw "vpn", eq_iff raw "direct")

subgroup_type-IsAnswer : (s : Option Subgroup) → IsAnswer (subgroup_type s)
unfolding subgroup_type normalize_connection_type
subgroup_type-IsAnswer none = ground arith
subgroup_type-IsAnswer (some s) =
    if_rule IsAnswer s.is_active _ _ (connection_value-IsAnswer _) (inr refl)

extra_type-IsAnswer : (extra : Dict Value) → IsAnswer (extra_type extra)
unfolding extra_type
extra_type-IsAnswer extra =
    if_rule IsAnswer _ _ _ (inr refl)
      (if_rule IsAnswer _ _ _ (connection_value-IsAnswer _) (inr refl))

override_of-IsAnswer : (c : String) (extra : Extra) → IsAnswer c → IsAnswer (override_of c extra)
unfolding override_of
override_of-IsAnswer c absent h = h
override_of-IsAnswer c (object extra) h = if_rule IsAnswer _ _ _ (extra_type-IsAnswer extra) h
override_of-IsAnswer c not_object h = h

override-IsAnswer : (device : Option Device) → IsAnswer (device_connection_override device)
unfolding device_connection_override
override-IsAnswer none = inr refl
override-IsAnswer (some device) =
    override_of-IsAnswer _ device.extra_parameters (subgroup_type-IsAnswer device.subgroup)

normalize-IsAnswer : (value : Option String) → IsAnswer (normalize_connection_type value)
unfolding normalize_connection_type
normalize-IsAnswer value = connection_value-IsAnswer _

group_type-IsMode : (group : Group) → IsMode (group_type (some group))
unfolding group_type
group_type-IsMode group = ground (
  arith,
  normalize-IsAnswer group.connection_type,
  eq_iff (normalize_connection_type group.connection_type) "",
)

-- A device in a group is reached in one of the three ways, whatever its subgroup, its JSON column
-- and the old columns of its group hold.
effective-IsMode :
    (group : Group) (device : Option Device)
    → IsMode (effective_connection_type (some group) device)
unfolding effective_connection_type
effective-IsMode group device = ground (
  arith,
  override-IsAnswer device,
  group_type-IsMode group,
  eq_iff (device_connection_override device) "",
)

-- No device goes through a jump host and a VPN at once.
jump_vpn_exclusive :
    (group : Option Group) (device : Option Device)
    → (uses_jump_host group device && uses_vpn_tunnel group device) ≡ false
unfolding uses_jump_host uses_vpn_tunnel
jump_vpn_exclusive group device = ground (
  arith,
  eq_iff (effective_connection_type group device) "jump_host",
  eq_iff (effective_connection_type group device) "vpn",
  eq_iff "jump_host" "vpn",
)

override_of-known : (c : String) (extra : Extra) → c ≢ "" → override_of c extra ≡ c
unfolding override_of
override_of-known c absent h = refl
override_of-known c (object extra) h = ground (arith, eq_iff c "")
override_of-known c not_object h = refl

subgroup_type-active :
    (s : Subgroup)
    → s.is_active ≡ true
    → subgroup_type (some s) ≡ normalize_connection_type s.connection_type
unfolding subgroup_type
subgroup_type-active s h = rw h

-- An active subgroup with a known type decides, whatever the group and the JSON column say.
subgroup_decides :
    (group : Option Group) (device : Device) (s : Subgroup)
    → device.subgroup ≡ some s
    → s.is_active ≡ true
    → normalize_connection_type s.connection_type ≢ ""
    → effective_connection_type group (some device) ≡ normalize_connection_type s.connection_type
unfolding effective_connection_type device_connection_override
subgroup_decides group device s is_s active known =
    let c = normalize_connection_type s.connection_type in
    rw (is_s, subgroup_type-active s active, override_of-known c device.extra_parameters known)
      (ground (arith, eq_iff c ""))
