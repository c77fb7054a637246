-- ===== src/Connection/Copies.antt =====
-- app/tasks/backups.py: the scheduler's own copies of the rules of connection_mode.py, and their
-- agreement with them.
use new_backup_center.Base.{
  ◌≡◌, ◌≢◌, refl, ◌||◌, Option, none, some, String, [], ◌∷◌, str_eq, normalize, is_in, or_value,
  text_of, truthy, Value, if◌then◌else◌, lower, strip, arith, eq_iff,
}
use new_backup_center.Base.Dict.{Dict, get, has_key}
use new_backup_center.Connection.{
  Subgroup, Extra, absent, object, not_object, Device, connection_value, normalize_connection_type,
  subgroup_type, extra_type, override_of, device_connection_override,
}

-- `_normalize_auto_connection_type` from the lower-cased text on
auto_value : String → String
auto_value raw =
    if is_in raw ("jump" ∷ "jump_host" ∷ [])
    then "jump_host"
    else if is_in raw ("direct" ∷ "vpn" ∷ [])
    then raw
    else ""

normalize_auto_connection_type : Option String → String
unfolding auto_value
normalize_auto_connection_type raw_value = auto_value (normalize raw_value)

auto_subgroup_type : Option Subgroup → String
auto_subgroup_type none = ""
auto_subgroup_type (some s) =
    if s.is_active then normalize_auto_connection_type s.connection_type else ""

auto_extra_type : Dict Value → String
auto_extra_type extra =
    let conn = auto_value (
      lower (
        strip (
          text_of (
            or_value (get "connection_subgroup_type" extra)
              (get "subgroup_connection_type" extra))))) in
    let enabled = truthy (
      if has_key "connection_subgroup_enabled" extra
      then get "connection_subgroup_enabled" extra
      else get "subgroup_connection_enabled" extra) in
    if str_eq conn ""
    then ""
    else if enabled
        || has_key "connection_subgroup_type" extra
        || has_key "subgroup_connection_type" extra
    then conn
    else ""

-- `dict(extra_parameters or {})`; `none` is the exception that it raises for other values.
as_dict : Extra → Option (Dict Value)
as_dict absent = some []
as_dict (object extra) = some extra
as_dict not_object = none

-- The object is looked at only where the subgroup gives nothing.
auto_of : String → Extra → Option String
unfolding as_dict
auto_of conn extra =
    if str_eq conn ""
    then elim (as_dict extra) [ none ↦ none | some d ↦ some (auto_extra_type d) ]
    else some conn

pub auto_device_subgroup_connection_type : Device → Option String
unfolding auto_of auto_subgroup_type
auto_device_subgroup_connection_type device =
    auto_of (auto_subgroup_type device.subgroup) device.extra_parameters

auto_value_agrees : (raw : String) → auto_value raw ≡ connection_value raw
unfolding auto_value connection_value is_in
auto_value_agrees raw = ground arith

subgroup_type_agrees : (s : Option Subgroup) → auto_subgroup_type s ≡ subgroup_type s
unfolding auto_subgroup_type subgroup_type normalize_auto_connection_type normalize_connection_type
subgroup_type_agrees none = refl
subgroup_type_agrees (some s) = rw (auto_value_agrees (normalize s.connection_type))

extra_type_agrees : (extra : Dict Value) → auto_extra_type extra ≡ extra_type extra
unfolding auto_extra_type extra_type
extra_type_agrees extra = simp auto_value_agrees

extra_type-nil : extra_type [] ≡ ""
unfolding extra_type connection_value is_in get has_key text_of or_value lower strip
extra_type-nil = refl

auto_of_agrees :
    (conn : String) (extra : Extra)
    → extra ≢ not_object
    → auto_of conn extra ≡ some (override_of conn extra)
unfolding auto_of override_of
auto_of_agrees conn absent h = ground (arith, eq_iff conn "", extra_type_agrees [], extra_type-nil)
auto_of_agrees conn (object extra) h = ground (arith, extra_type_agrees extra)
auto_of_agrees conn not_object h = absurd (h refl)

-- Where the column holds an object or nothing, the scheduler's copy answers, and it answers what
-- connection_mode.py answers.
pub auto_agrees :
    (device : Device)
    → device.extra_parameters ≢ not_object
    → auto_device_subgroup_connection_type device ≡ some (device_connection_override (some device))
unfolding auto_device_subgroup_connection_type device_connection_override
auto_agrees device h =
    rw (subgroup_type_agrees device.subgroup)
      (auto_of_agrees (subgroup_type device.subgroup) device.extra_parameters h)
