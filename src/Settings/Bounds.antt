-- ===== src/Settings/Bounds.antt =====
-- The settings lie in the ranges that app/tasks/backups.py gives them, whatever the environment holds.
use new_backup_center.Base.{ℕ, ◌≤◌, some, String, arith}
use new_backup_center.Settings.{Env, env_int}

-- A setting with a range is in it, also where the variable is unset or holds no number.
pub env_int_bounds :
    (env : Env) (name : String) (default minimum maximum : ℕ)
    → minimum ≤ maximum
    → (minimum ≤ env_int env name default minimum (some maximum))
      × (env_int env name default minimum (some maximum) ≤ maximum)
unfolding env_int
env_int_bounds env name default minimum maximum h = ground arith
