-- ===== src/JumpHost/Slots/Bounds.antt =====
-- How far one outcome moves the slots of a jump host, and that they stay between 1 and 16.
use new_backup_center.Base.{
  ℤ, pos, ℕ, zero, suc, ◌+◌, ◌≤◌, ◌<◌, ◌≡◌, refl, min, max, Bool, true, false, Option, none, some,
  String, arith, ◌⊎◌, inl, inr, strip, str_or_empty,
}
use new_backup_center.Base.Dict.{Dict}
use new_backup_center.Settings.{
  Env, jump_host_adaptive_max_boost, jump_host_adaptive_enabled, jump_host_window_min_slots,
}
use new_backup_center.JumpHost.Slots.{
  Host, LockInfo, Window, FloatOps, clamp, base_of, resolve_effective_jump_host_slots,
  adapt_jump_host_slots, resolve_window_target_jump_host_slots, after_success, after_saturation,
  or_one, lowered, severe_reached,
}
use new_backup_center.Settings.Bounds.{env_int_bounds}
use new_backup_center.Diagnostics.Failure.Retry.{message_indicates_severe_jump_host_saturation}

clamp-bounds : (i : ℤ) → (1 ≤ clamp i) × (clamp i ≤ 16)
unfolding clamp
clamp-bounds i = omega arith

clamp-id : (n : ℕ) → 1 ≤ n → n ≤ 16 → clamp (pos n) ≡ n
unfolding clamp
clamp-id n low high = omega arith

effective-bounds :
    (env : Env) (overrides : Dict ℕ) (client : Option Host) (label : String) (base : Option ℤ)
    → (1 ≤ resolve_effective_jump_host_slots env overrides client label base)
      × (resolve_effective_jump_host_slots env overrides client label base ≤ 16)
unfolding resolve_effective_jump_host_slots clamp
effective-bounds env overrides client label base = ground arith

effective-written :
    (env : Env) (overrides : Dict ℕ) (host : Host) (label : String) (base : Option ℤ) (n : ℕ)
    → jump_host_adaptive_enabled env ≡ true
    → host.slots ≡ some (some (pos n))
    → 1 ≤ n
    → n ≤ 16
    → resolve_effective_jump_host_slots env overrides (some host) label base ≡ n
unfolding resolve_effective_jump_host_slots
effective-written env overrides host label base n enabled written low high =
    rw (enabled, written) (clamp-id n low high)

effective-kept :
    (env : Env) (overrides : Dict ℕ) (host old : Host) (label : String) (base : Option ℤ)
    → host.slots ≡ old.slots
    → resolve_effective_jump_host_slots env overrides (some host) label base
      ≡ resolve_effective_jump_host_slots env overrides (some old) label base
unfolding resolve_effective_jump_host_slots
effective-kept env overrides host old label base same = rw same refl

after_success-cases :
    (env : Env) (now allowed current : ℕ) (host : Host)
    → ((after_success env now allowed current host).slots ≡ host.slots)
      ⊎ ((current ≤ allowed)
          × ((after_success env now allowed current host).slots
              ≡ some (some (pos (min allowed (current + 1))))))
unfolding after_success
after_success-cases env now allowed current host = ground arith

lowered-bounds :
    (env : Env) (now : ℕ) (severely : Bool) (current : ℕ)
    → 1 < current
    → (1 ≤ lowered env now severely current) × (lowered env now severely current + 1 ≤ current)
unfolding lowered
lowered-bounds env now severely current h = ground arith

after_saturation-cases :
    (env : Env) (now : ℕ) (severe : Bool) (current : ℕ) (host : Host)
    → ((after_saturation env now severe current host).slots ≡ host.slots)
      ⊎ ((1 < current)
          × ((after_saturation env now severe current host).slots
              ≡ some (some (pos (lowered env now (severe_reached env now severe host) current)))))
unfolding after_saturation
after_saturation-cases env now severe current host = ground arith

module _ (env : Env) (overrides : Dict ℕ) (now : ℕ) (lock : LockInfo) where
  -- the slots that the label of the lock has, with its base
  abbrev pub slots_of : Host → ℕ
  slots_of host =
      resolve_effective_jump_host_slots env overrides (some host) (strip (str_or_empty lock.label))
        (some (pos (base_of lock)))

  abbrev pub allowed : ℕ
  allowed = clamp (pos (base_of lock + jump_host_adaptive_max_boost env))

  slots_of-kept : (host old : Host) → host.slots ≡ old.slots → slots_of host ≡ slots_of old
  slots_of-kept host old same =
      effective-kept env overrides host old (strip (str_or_empty lock.label))
        (some (pos (base_of lock))) same

  slots_of-bounds : (host : Host) → (1 ≤ slots_of host) × (slots_of host ≤ 16)
  slots_of-bounds host =
      effective-bounds env overrides (some host) (strip (str_or_empty lock.label))
        (some (pos (base_of lock)))

  slots_of-written :
      (host : Host) (n : ℕ)
      → jump_host_adaptive_enabled env ≡ true
      → host.slots ≡ some (some (pos n))
      → (1 ≤ n) × (n ≤ 16)
      → slots_of host ≡ n
  slots_of-written host n enabled written bounds =
      effective-written env overrides host (strip (str_or_empty lock.label))
        (some (pos (base_of lock))) n enabled written bounds.0 bounds.1

  -- the slots that a failure leaves where it lowers them
  abbrev fewer : Option String → Host → ℕ
  fewer message host =
      lowered env now
        (severe_reached env now (message_indicates_severe_jump_host_saturation message) host)
        (slots_of host)

  failure-cases :
      (message : Option String) (host : Host)
      → ((adapt_jump_host_slots env now overrides lock false message host).slots ≡ host.slots)
        ⊎ ((jump_host_adaptive_enabled env ≡ true)
            × (1 < slots_of host)
            × ((adapt_jump_host_slots env now overrides lock false message host).slots
                ≡ some (some (pos (fewer message host)))))
  unfolding adapt_jump_host_slots
  failure-cases message host = ground (
    arith,
    after_saturation-cases env now (message_indicates_severe_jump_host_saturation message)
        (slots_of host) host,
  )

  success-cases :
      (message : Option String) (host : Host)
      → ((adapt_jump_host_slots env now overrides lock true message host).slots ≡ host.slots)
        ⊎ ((jump_host_adaptive_enabled env ≡ true)
            × (slots_of host ≤ allowed)
            × ((adapt_jump_host_slots env now overrides lock true message host).slots
                ≡ some (some (pos (min allowed (slots_of host + 1))))))
  unfolding adapt_jump_host_slots
  success-cases message host =
      ground (arith, after_success-cases env now allowed (slots_of host) host)

  more-bounds :
      (host : Host) → (1 ≤ min allowed (slots_of host + 1)) × (min allowed (slots_of host + 1) ≤ 16)
  more-bounds host =
      omega (arith, clamp-bounds (pos (base_of lock + jump_host_adaptive_max_boost env)))

  fewer-bounds :
      (message : Option String) (host : Host)
      → 1 < slots_of host
      → (1 ≤ fewer message host) × (fewer message host ≤ 16) × (fewer message host ≤ slots_of host)
  fewer-bounds message host some_left = omega (
    arith,
    slots_of-bounds host,
    lowered-bounds env now
        (severe_reached env now (message_indicates_severe_jump_host_saturation message) host)
        (slots_of host) some_left,
  )

  -- A success never takes a slot away and adds at most one, and never beyond the base and its boost,
  -- unless the label had more slots before.
  pub success_grows :
      (message : Option String) (host : Host)
      → (slots_of host ≤ slots_of (adapt_jump_host_slots env now overrides lock true message host))
        × (slots_of (adapt_jump_host_slots env now overrides lock true message host)
            ≤ slots_of host + 1)
        × (slots_of (adapt_jump_host_slots env now overrides lock true message host)
            ≤ max (slots_of host) allowed)
  success_grows message host = elim (success-cases message host) [
    | inl kept ↦ ground (
      arith,
      slots_of-kept (adapt_jump_host_slots env now overrides lock true message host) host kept,
    )
    | inr changed ↦ ground (
      arith,
      clamp-bounds (pos (base_of lock + jump_host_adaptive_max_boost env)),
      slots_of-bounds host,
      slots_of-written (adapt_jump_host_slots env now overrides lock true message host)
          (min allowed (slots_of host + 1)) changed.0 changed.2 (more-bounds host),
    )
  ]

  -- A failure never adds a slot and leaves at least one.
  failure_shrinks :
      (message : Option String) (host : Host)
      → (1 ≤ slots_of (adapt_jump_host_slots env now overrides lock false message host))
        × (slots_of (adapt_jump_host_slots env now overrides lock false message host)
            ≤ slots_of host)
  failure_shrinks message host = elim (failure-cases message host) [
    | inl kept ↦ ground (
      arith,
      slots_of-bounds host,
      slots_of-kept (adapt_jump_host_slots env now overrides lock false message host) host kept,
    )
    | inr changed ↦
        let fine = fewer-bounds message host changed.1 in
        ground (
          arith,
          fine,
          slots_of-written (adapt_jump_host_slots env now overrides lock false message host)
              (fewer message host) changed.0 changed.2 (fine.0, fine.1),
        )
  ]

clamp-one : (n : ℕ) → 1 ≤ n → n ≤ 16 → clamp (or_one (some (pos n))) ≡ n
unfolding clamp
clamp-one zero low high = omega (arith, low)
clamp-one (suc n) low high = omega arith

jump_host_window_min_slots-bounds : (env : Env) → 1 ≤ jump_host_window_min_slots env
unfolding jump_host_window_min_slots
jump_host_window_min_slots-bounds env =
    (env_int_bounds env "JUMP_HOST_WINDOW_MIN_SLOTS" 2 1 16 (omega arith)).0

module _ {ℓ} {Float : Type ℓ} (ops : FloatOps Float) (env : Env) where
  -- The window of a batch only takes slots away, and leaves the least number that the settings ask for,
  -- or what there was where that is less.
  window_bounds :
      (label : String) (slots : ℕ) (w : Option (Window Float))
      → 1 ≤ slots
      → slots ≤ 16
      → (resolve_window_target_jump_host_slots ops env label (pos slots) w ≤ slots)
        × (min slots (jump_host_window_min_slots env)
            ≤ resolve_window_target_jump_host_slots ops env label (pos slots) w)
  unfolding resolve_window_target_jump_host_slots
  window_bounds label slots none low high = omega (arith, clamp-one slots low high)
  window_bounds label slots (some w) low high =
      ground (arith, clamp-one slots low high, jump_host_window_min_slots-bounds env)
