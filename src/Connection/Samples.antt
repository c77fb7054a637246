-- ===== src/Connection/Samples.antt =====
-- Small devices and groups, and the theorems on connections at them.
use new_backup_center.Base.Dict.{get, has_key}
use new_backup_center.Base.{
  ◌≡◌, ◌≢◌, refl, true, false, none, some, [], ◌∷◌, arith, eq_iff, txt, is_in, text_of, or_value,
  truthy,
}
use new_backup_center.Connection.{
  Subgroup, object, Device, Group, normalize_connection_type, device_connection_override,
  effective_connection_type, extra_type, group_type,
}
use new_backup_center.Connection.Copies.{auto_agrees, auto_device_subgroup_connection_type}

abbrev pub old_group : Group
old_group = record {
  id = "g1";
  name = "Meganet";
  is_active = true;
  connection_type = none;
  uses_vpn = true;
  uses_jump_host = false;
  jump_host = some "Bastion.example";
  jump_port = none;
}

abbrev pub branch : Subgroup
branch = record { is_active = true; connection_type = some " Jump " }

abbrev pub router : Device
router = record {
  id = "d1";
  name = "core";
  ip_address = "10.0.0.1";
  is_active = true;
  device_type_id = some "ros";
  group_id = some "g1";
  group = some old_group;
  subgroup = some branch;
  extra_parameters = object (("connection_subgroup_type", txt "direct") ∷ []);
}

-- The subgroup wins over the JSON column, and that over the group.
precedence_runs :
    (effective_connection_type (some old_group) (some router) ≡ "jump_host")
    × (effective_connection_type (some old_group) (some (record router { subgroup = none }))
        ≡ "direct")
    × (effective_connection_type (some old_group) none ≡ "vpn")
unfolding effective_connection_type device_connection_override normalize_connection_type is_in
    extra_type text_of or_value get truthy has_key group_type
precedence_runs = (refl, refl, refl)

branch_normal : normalize_connection_type (some " Jump ") ≡ "jump_host"
unfolding normalize_connection_type is_in
branch_normal = refl

branch_known : normalize_connection_type (some " Jump ") ≢ ""
branch_known = rw branch_normal (ground (arith, eq_iff "jump_host" ""))

auto_agrees_example :
    auto_device_subgroup_connection_type router ≡ some (device_connection_override (some router))
auto_agrees_example = auto_agrees router (λ h. cc)
