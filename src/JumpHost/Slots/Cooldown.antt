-- ===== src/JumpHost/Slots/Cooldown.antt =====
-- After a change of its slots a jump host is left alone for a while.
use new_backup_center.Base.{
  pos, ℕ, ◌+◌, ◌≤◌, ◌<◌, ◌≡◌, ◌≢◌, Bool, true, Option, some, String, ◌⊎◌, inl, inr, arith, strip,
  str_or_empty,
}
use new_backup_center.Base.Dict.{Dict}
use new_backup_center.Settings.{
  Env, jump_host_adaptive_max_boost, jump_host_adaptive_cooldown_seconds,
  jump_host_adaptive_severe_cooldown_seconds,
}
use new_backup_center.Settings.Bounds.{env_int_bounds}
use new_backup_center.JumpHost.Slots.{
  Host, LockInfo, is_cooling, adapt_jump_host_slots, after_success, after_saturation, clamp,
  base_of, resolve_effective_jump_host_slots,
}
use new_backup_center.Diagnostics.Failure.Retry.{message_indicates_severe_jump_host_saturation}

cooldown_seconds-bounds : (env : Env) → 30 ≤ jump_host_adaptive_cooldown_seconds env
unfolding jump_host_adaptive_cooldown_seconds
cooldown_seconds-bounds env =
    (env_int_bounds env "JUMP_HOST_ADAPTIVE_COOLDOWN_SECONDS" 300 30 3600 (omega arith)).0

severe_cooldown_seconds-bounds : (env : Env) → 30 ≤ jump_host_adaptive_severe_cooldown_seconds env
unfolding jump_host_adaptive_severe_cooldown_seconds
severe_cooldown_seconds-bounds env =
    (env_int_bounds env "JUMP_HOST_ADAPTIVE_SEVERE_COOLDOWN_SECONDS" 900 30 7200 (omega arith)).0

module _ (env : Env) (now later : ℕ) (soon : later < now + 30) where
  after_success-cooling :
      (allowed current : ℕ) (host : Host)
      → ((after_success env now allowed current host).slots ≡ host.slots)
        ⊎ (is_cooling later (after_success env now allowed current host) ≡ true)
  unfolding after_success is_cooling
  after_success-cooling allowed current host = ground (arith, cooldown_seconds-bounds env, soon)

  after_saturation-cooling :
      (severe : Bool) (current : ℕ) (host : Host)
      → ((after_saturation env now severe current host).slots ≡ host.slots)
        ⊎ (is_cooling later (after_saturation env now severe current host) ≡ true)
  unfolding after_saturation is_cooling
  after_saturation-cooling severe current host =
      ground (arith, cooldown_seconds-bounds env, severe_cooldown_seconds-bounds env, soon)

  cooling-unchanged :
      (overrides : Dict ℕ) (lock : LockInfo) (success : Bool) (message : Option String)
      (host : Host)
      → is_cooling later host ≡ true
      → adapt_jump_host_slots env later overrides lock success message host ≡ host
  unfolding adapt_jump_host_slots
  cooling-unchanged overrides lock success message host h = ground arith

  cooling-cases :
      (overrides : Dict ℕ) (lock : LockInfo) (success : Bool) (message : Option String)
      (host : Host)
      → ((adapt_jump_host_slots env now overrides lock success message host).slots ≡ host.slots)
        ⊎ (is_cooling later (adapt_jump_host_slots env now overrides lock success message host)
            ≡ true)
  unfolding adapt_jump_host_slots
  cooling-cases overrides lock success message host =
      let current =
        resolve_effective_jump_host_slots env overrides (some host)
          (strip (str_or_empty lock.label)) (some (pos (base_of lock))) in
      ground (
        arith,
        after_success-cooling (clamp (pos (base_of lock + jump_host_adaptive_max_boost env)))
            current host,
        after_saturation-cooling (message_indicates_severe_jump_host_saturation message) current
            host,
      )

  -- Once an outcome has changed the slots of a jump host, no outcome that comes less than 30 seconds later
  -- changes anything about it, whatever the settings are.
  change_then_rest :
      (overrides : Dict ℕ) (lock : LockInfo) (success again : Bool) (message second : Option String)
      (host : Host)
      → (adapt_jump_host_slots env now overrides lock success message host).slots ≢ host.slots
      → adapt_jump_host_slots env later overrides lock again second
          (adapt_jump_host_slots env now overrides lock success message host)
        ≡ adapt_jump_host_slots env now overrides lock success message host
  change_then_rest overrides lock success again message second host changed =
      elim (cooling-cases overrides lock success message host) [
        | inl same ↦ absurd (changed same)
        | inr cooling ↦
            cooling-unchanged overrides lock again second
              (adapt_jump_host_slots env now overrides lock success message host) cooling
      ]
