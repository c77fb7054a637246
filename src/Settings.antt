-- ===== src/Settings.antt =====
-- app/tasks/backups.py: the settings that the backup tasks read from the environment.
pub mod Bounds
pub mod Samples
use new_backup_center.Base.{
  ℕ, ◌+◌, ◌*◌, max, Bool, true, false, Option, none, some, String, List, [], ◌∷◌, ℤ, pos, pos_part,
  parse_int, ltb, ltb_ℤ, str_eq, str_or_empty, or_else, normalize, is_in, words, join, split, strip,
  lower, if◌then◌else◌,
}

-- `os.getenv`
abbrev pub Env : Type 0
Env = String → Option String

parsed_or : Option ℤ → ℕ → ℤ
parsed_or none default = pos default
parsed_or (some i) default = i

at_most : Option ℕ → ℕ → ℕ
at_most none value = value
at_most (some maximum) value = if ltb maximum value then maximum else value

-- The text of `default` parses back to `default`, so an unset variable gives it.
unfoldable pub env_int : Env → String → (default minimum : ℕ) → (maximum : Option ℕ) → ℕ
unfolding parsed_or at_most parse_int
env_int env name default minimum maximum =
    let value = parsed_or (elim (env name) [ none ↦ none | some raw ↦ parse_int raw ]) default in
    at_most maximum (if ltb_ℤ value (pos minimum) then minimum else pos_part value)

unfoldable pub env_bool : Env → String → (default : String) → Bool
unfolding strip lower is_in
env_bool env name default =
    is_in (lower (strip (or_else (env name) default))) ("1" ∷ "true" ∷ "on" ∷ "yes" ∷ "sim" ∷ [])

unfoldable pub normalize_retry_token : Option String → String
unfolding normalize words join
normalize_retry_token value = join " " (words (normalize value))

tokens : List String → List String
unfolding normalize_retry_token
tokens [] = []
tokens (chunk ∷ chunks) =
    let token = normalize_retry_token (some chunk) in
    let rest = tokens chunks in if str_eq token "" then rest else token ∷ rest

unfoldable pub env_csv_normalized_set : Env → String → (default : String) → List String
unfolding tokens split
env_csv_normalized_set env name default = tokens (split "," (or_else (env name) default))

module _ (env : Env) where
  unfoldable pub jump_host_lock_timeout_seconds : ℕ
  unfolding env_int
  jump_host_lock_timeout_seconds = env_int env "JUMP_HOST_SLOT_TTL_SECONDS" 660 60 none

  unfoldable pub jump_host_lock_wait_seconds : ℕ
  unfolding env_int
  jump_host_lock_wait_seconds = env_int env "JUMP_HOST_SLOT_WAIT_SECONDS" 600 15 (some 1800)

  unfoldable pub jump_host_lock_wait_seconds_large_bulk : ℕ
  unfolding env_int
  jump_host_lock_wait_seconds_large_bulk =
      env_int env "JUMP_HOST_SLOT_WAIT_SECONDS_LARGE_BULK" 900 60 (some 3600)

  unfoldable pub jump_host_max_slots : ℕ
  unfolding env_int
  jump_host_max_slots = env_int env "JUMP_HOST_MAX_SLOTS" 3 1 (some 16)

  unfoldable pub backup_task_soft_time_limit_seconds : ℕ
  unfolding env_int
  backup_task_soft_time_limit_seconds =
      env_int env "BACKUP_TASK_SOFT_TIME_LIMIT_SECONDS" 480 120 (some 3600)

  unfoldable pub backup_task_time_limit_seconds : ℕ
  unfolding env_int
  backup_task_time_limit_seconds =
      env_int env "BACKUP_TASK_TIME_LIMIT_SECONDS"
        (max (backup_task_soft_time_limit_seconds + 60) 540) 180 (some 3900)

  unfoldable pub large_bulk_transient_retry_threshold : ℕ
  unfolding env_int
  large_bulk_transient_retry_threshold = env_int env "BULK_TRANSIENT_RETRY_THRESHOLD" 300 50 none

  unfoldable pub jump_host_adaptive_enabled : Bool
  unfolding strip is_in
  jump_host_adaptive_enabled =
      is_in (strip (or_else (env "JUMP_HOST_ADAPTIVE_ENABLED") "1"))
        ("1" ∷ "true" ∷ "on" ∷ "yes" ∷ [])

  unfoldable pub jump_host_adaptive_fail_streak : ℕ
  unfolding env_int
  jump_host_adaptive_fail_streak = env_int env "JUMP_HOST_ADAPTIVE_FAIL_STREAK" 4 2 (some 20)

  unfoldable pub jump_host_adaptive_success_streak : ℕ
  unfolding env_int
  jump_host_adaptive_success_streak =
      env_int env "JUMP_HOST_ADAPTIVE_SUCCESS_STREAK" 20 5 (some 200)

  unfoldable pub jump_host_adaptive_max_boost : ℕ
  unfolding env_int
  jump_host_adaptive_max_boost = env_int env "JUMP_HOST_ADAPTIVE_MAX_BOOST" 2 0 (some 8)

  unfoldable pub jump_host_adaptive_severe_fail_streak : ℕ
  unfolding env_int
  jump_host_adaptive_severe_fail_streak =
      env_int env "JUMP_HOST_ADAPTIVE_SEVERE_FAIL_STREAK" 2 1 (some 10)

  unfoldable pub jump_host_adaptive_severe_drop_to_one : Bool
  unfolding strip lower is_in
  jump_host_adaptive_severe_drop_to_one =
      is_in (lower (strip (or_else (env "JUMP_HOST_ADAPTIVE_SEVERE_DROP_TO_ONE") "1")))
        ("1" ∷ "true" ∷ "on" ∷ "yes" ∷ [])

  unfoldable pub bulk_active_stale_seconds : ℕ
  unfolding env_int
  bulk_active_stale_seconds = env_int env "BULK_ACTIVE_STALE_SECONDS" 1800 300 (some 172_800)

  unfoldable pub circuit_breaker_window_seconds : ℕ
  unfolding env_int
  circuit_breaker_window_seconds = env_int env "CB_WINDOW_SECONDS" 300 60 (some 900)

  unfoldable pub circuit_breaker_threshold_percent : ℕ
  unfolding env_int
  circuit_breaker_threshold_percent = env_int env "CB_THRESHOLD_PERCENT" 70 30 (some 95)

  unfoldable pub circuit_breaker_min_samples : ℕ
  unfolding env_int
  circuit_breaker_min_samples = env_int env "CB_MIN_SAMPLES" 10 3 (some 50)

  unfoldable pub circuit_breaker_open_seconds : ℕ
  unfolding env_int
  circuit_breaker_open_seconds = env_int env "CB_OPEN_SECONDS" 60 10 (some 300)

  unfoldable pub transient_retry_denylist_device_names : List String
  unfolding env_csv_normalized_set
  transient_retry_denylist_device_names =
      env_csv_normalized_set env "BACKUP_TRANSIENT_RETRY_DENYLIST_NAMES"
        "FLASHNET - SW CORE-CABO_S.A."

  unfoldable pub transient_retry_denylist_device_ids : List String
  unfolding env_csv_normalized_set
  transient_retry_denylist_device_ids =
      env_csv_normalized_set env "BACKUP_TRANSIENT_RETRY_DENYLIST_IDS" ""

  unfoldable pub bulk_transient_followup_enabled : Bool
  unfolding env_bool
  bulk_transient_followup_enabled = env_bool env "BULK_TRANSIENT_FOLLOWUP_ENABLED" "1"

  unfoldable pub bulk_transient_followup_delay_seconds : ℕ
  unfolding env_int
  bulk_transient_followup_delay_seconds =
      env_int env "BULK_TRANSIENT_FOLLOWUP_DELAY_SECONDS" 600 60 (some 21_600)

  unfoldable pub bulk_transient_followup_busy_retry_seconds : ℕ
  unfolding env_int
  bulk_transient_followup_busy_retry_seconds =
      env_int env "BULK_TRANSIENT_FOLLOWUP_BUSY_RETRY_SECONDS" 300 30 (some 1800)

  unfoldable pub bulk_transient_followup_max_retries : ℕ
  unfolding env_int
  bulk_transient_followup_max_retries =
      env_int env "BULK_TRANSIENT_FOLLOWUP_MAX_RETRIES" 12 0 (some 96)

  unfoldable pub jump_bulk_bastion_stagger_seconds : ℕ
  unfolding env_int
  jump_bulk_bastion_stagger_seconds = env_int env "JUMP_BULK_BASTION_STAGGER_SECONDS" 5 0 (some 60)

  unfoldable pub jump_host_adaptive_cooldown_seconds : ℕ
  unfolding env_int
  jump_host_adaptive_cooldown_seconds =
      env_int env "JUMP_HOST_ADAPTIVE_COOLDOWN_SECONDS" 300 30 (some 3600)

  unfoldable pub jump_host_adaptive_streak_ttl_seconds : ℕ
  unfolding env_int
  jump_host_adaptive_streak_ttl_seconds =
      env_int env "JUMP_HOST_ADAPTIVE_STREAK_TTL_SECONDS" 900 60 (some 7200)

  unfoldable pub jump_host_adaptive_severe_cooldown_seconds : ℕ
  unfolding env_int
  jump_host_adaptive_severe_cooldown_seconds =
      env_int env "JUMP_HOST_ADAPTIVE_SEVERE_COOLDOWN_SECONDS" 900 30 (some 7200)

  unfoldable pub jump_host_window_min_samples : ℕ
  unfolding env_int
  jump_host_window_min_samples = env_int env "JUMP_HOST_WINDOW_MIN_SAMPLES" 3 1 (some 100)

  unfoldable pub jump_host_window_min_slots : ℕ
  unfolding env_int
  jump_host_window_min_slots = env_int env "JUMP_HOST_WINDOW_MIN_SLOTS" 2 1 (some 16)

  unfoldable pub jump_host_window_seconds : ℕ
  unfolding env_int
  jump_host_window_seconds = env_int env "JUMP_HOST_WINDOW_SECONDS" 1800 300 (some 86_400)

  unfoldable pub jump_host_window_adaptive_enabled : Bool
  unfolding env_bool
  jump_host_window_adaptive_enabled = env_bool env "JUMP_HOST_WINDOW_ADAPTIVE_ENABLED" "1"
