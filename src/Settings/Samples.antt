-- ===== src/Settings/Samples.antt =====
-- An environment, and a setting that is read from it.
use new_backup_center.Base.{◌≡◌, refl, some}
use new_backup_center.Settings.{Env, jump_host_max_slots}

abbrev loud : Env
loud name = some " +400 "

jump_host_max_slots_runs : jump_host_max_slots loud ≡ 16
unfolding jump_host_max_slots
jump_host_max_slots_runs = refl
