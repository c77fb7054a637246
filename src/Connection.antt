-- ===== src/Connection.antt =====
-- app/services/connection_mode.py: how a device is reached, and the copies of the same rules in
-- app/tasks/backups.py that the scheduler uses.
pub mod Modes
pub mod Copies
pub mod Samples
use new_backup_center.Base.{
  ℕ, Bool, true, false, ◌&&◌, ◌||◌, Option, none, some, String, List, [], ◌∷◌, ℤ, pos, str_eq,
  normalize, is_in, or_value, text_of, truthy, Value, if◌then◌else◌, lower, strip,
}
use new_backup_center.Base.Dict.{Dict, get, has_key}

-- device_subgroup.py, as far as the connection goes
pub record Subgroup : Type 0 where
  pub is_active : Bool
  pub connection_type : Option String

-- device_group.py
pub record Group : Type 0 where
  pub id : String
  pub name : String
  pub is_active : Bool
  pub connection_type : Option String
  pub uses_vpn : Bool
  pub uses_jump_host : Bool
  pub jump_host : Option String
  pub jump_port : Option ℤ

-- The JSON column `extra_parameters`: NULL or empty, an object, or something else.
pub data Extra : Type 0 where
  absent : Extra
  object : Dict Value → Extra
  not_object : Extra

-- device.py
pub record Device : Type 0 where
  pub id : String
  pub name : String
  pub ip_address : String
  pub is_active : Bool
  pub device_type_id : Option String
  pub group_id : Option String
  pub group : Option Group
  pub subgroup : Option Subgroup
  pub extra_parameters : Extra

-- `_normalize_connection_type_value` from the lower-cased text on
unfoldable pub connection_value : String → String
connection_value raw =
    if is_in raw ("jump" ∷ "jump_host" ∷ [])
    then "jump_host"
    else if is_in raw ("vpn" ∷ "direct" ∷ [])
    then raw
    else ""

unfoldable pub normalize_connection_type : Option String → String
unfolding connection_value normalize
normalize_connection_type value = connection_value (normalize value)

unfoldable pub normalized_connection_type : Option Group → String
unfolding normalize_connection_type
normalized_connection_type none = ""
normalized_connection_type (some group) = normalize_connection_type group.connection_type

-- The type that an active subgroup gives, or "".
unfoldable pub subgroup_type : Option Subgroup → String
subgroup_type none = ""
subgroup_type (some s) = if s.is_active then normalize_connection_type s.connection_type else ""

-- The override that the JSON object gives.
unfoldable pub extra_type : Dict Value → String
extra_type extra =
    let override = connection_value (
      lower (
        strip (
          text_of (
            or_value (get "connection_subgroup_type" extra)
              (get "subgroup_connection_type" extra))))) in
    let enabled = truthy (
      if has_key "connection_subgroup_enabled" extra
      then get "connection_subgroup_enabled" extra
      else get "subgroup_connection_enabled" extra) in
    if str_eq override ""
    then ""
    else if enabled
        || has_key "connection_subgroup_type" extra
        || has_key "subgroup_connection_type" extra
    then override
    else ""

unfoldable pub override_of : String → Extra → String
override_of from_subgroup (object extra) =
    if str_eq from_subgroup "" then extra_type extra else from_subgroup
override_of from_subgroup _ = from_subgroup

unfoldable pub device_connection_override : Option Device → String
unfolding override_of subgroup_type
device_connection_override none = ""
device_connection_override (some device) =
    override_of (subgroup_type device.subgroup) device.extra_parameters

-- What a group says where no device overrides it.
unfoldable pub group_type : Option Group → String
group_type none = ""
group_type (some group) =
    let conn_type = normalize_connection_type group.connection_type in
    if str_eq conn_type ""
    then (if group.uses_jump_host then "jump_host" else if group.uses_vpn then "vpn" else "direct")
    else conn_type

unfoldable pub effective_connection_type : Option Group → Option Device → String
effective_connection_type group device =
    let override = device_connection_override device in
    if str_eq override "" then group_type group else override

unfoldable pub uses_jump_host : Option Group → Option Device → Bool
uses_jump_host group device = str_eq (effective_connection_type group device) "jump_host"

unfoldable pub uses_vpn_tunnel : Option Group → Option Device → Bool
uses_vpn_tunnel group device = str_eq (effective_connection_type group device) "vpn"
