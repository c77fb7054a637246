-- ===== src/Queue/Samples.antt =====
-- A small batch, and the theorems on queues at it.
use new_backup_center.Base.{
  pos, ◌≡◌, refl, true, false, Option, none, some, String, List, [], ◌∷◌, select, str_eq,
}
use new_backup_center.Base.Dict.{get, put}
use new_backup_center.Connection.{Device, Group, absent}
use new_backup_center.Queue.Interleave.{interleave_by_bastion, append_to}
use new_backup_center.Queue.Interleave.Rounds.{spaced}
use new_backup_center.Queue.Interleave.Exact.{interleave_exact}
use new_backup_center.Queue.Countdown.{bastion_key_for_device}

abbrev bastion : String → String
bastion name = name

abbrev names : List String
names = "a" ∷ "a" ∷ "b" ∷ "a" ∷ []

interleave_runs :
    interleave_by_bastion bastion (pos 5) names ≡ ("a", 0) ∷ ("b", 0) ∷ ("a", 5) ∷ ("a", 10) ∷ []
unfolding interleave_by_bastion append_to get put
interleave_runs = refl

interleave_exact_example :
    select (λ e. str_eq (bastion e.0) "a") (interleave_by_bastion bastion (pos 5) names)
    ≡ spaced 5 0 (select (λ x. str_eq (bastion x) "a") names)
interleave_exact_example = interleave_exact bastion (pos 5) names "a"

abbrev jumping : Group
jumping = record {
  id = "g1";
  name = "Meganet";
  is_active = true;
  connection_type = some "jump_host";
  uses_vpn = false;
  uses_jump_host = false;
  jump_host = some "Bastion.example";
  jump_port = none;
}

abbrev device : String → Option Group → Device
device id group = record {
  id = id;
  name = id;
  ip_address = "10.0.0.1";
  is_active = true;
  device_type_id = some "ros";
  group_id = none;
  group = group;
  subgroup = none;
  extra_parameters = absent;
}

abbrev batch : List Device
batch = device "a" (some jumping) ∷ device "b" none ∷ device "c" (some jumping) ∷ []

bastion_runs : bastion_key_for_device (device "a" (some jumping)) ≡ "bastion.example:22"
unfolding bastion_key_for_device
bastion_runs = refl
