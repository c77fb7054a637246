-- ===== src/JumpHost/Breaker/Opening.antt =====
-- When the circuit breaker opens, that it then stays open for its time, and that it looks at nothing old.
use new_backup_center.Base.{
  ℕ, ◌+◌, ◌-◌, ◌≤◌, ◌<◌, ◌≡◌, ◌≢◌, refl, ap, sym, subst, ◌∙◌, inl, inr, Bool-cases, Bool, true,
  false, none, some, String, List, [], ◌∷◌, All, length, select, str_eq, eq_iff, ltb, ltb→lt, arith,
  ◌↔◌,
}
use new_backup_center.Base.Dict.{get, get-put}
use new_backup_center.Settings.{Env, circuit_breaker_threshold_percent, circuit_breaker_min_samples}
use new_backup_center.Settings.Bounds.{env_int_bounds}
use new_backup_center.JumpHost.Breaker.{
  Breaker, Entry, is_recent, is_failure, is_success, judge_outcomes, record_jump_host_outcome,
  check_jump_host_circuit_breaker, BreakerKeys, no_breaker, breaker_of, with_breaker,
  reset_circuit_breakers_for_new_batch, BreakerStep, check, conclude, reset, check_keys,
  breaker_step, breaker_steps,
}

abbrev pub recent : Env → ℕ → Breaker → List Entry
recent env now_ms breaker = select (is_recent env now_ms) breaker.outcomes

abbrev pub failures : List Entry → ℕ
failures entries = length (select is_failure entries)

abbrev pub samples : List Entry → ℕ
samples entries = length (select is_success entries) + length (select is_failure entries)

threshold-bounds : (env : Env) → 30 ≤ circuit_breaker_threshold_percent env
unfolding circuit_breaker_threshold_percent
threshold-bounds env = (env_int_bounds env "CB_THRESHOLD_PERCENT" 70 30 95 (omega arith)).0

samples-bounds : (env : Env) → 3 ≤ circuit_breaker_min_samples env
unfolding circuit_breaker_min_samples
samples-bounds env = (env_int_bounds env "CB_MIN_SAMPLES" 10 3 50 (omega arith)).0

-- The step comes before a time, and does not reset the breakers.
unfoldable pub is_before : (expiry : ℕ) → BreakerStep → Bool
is_before expiry (check jump_label now now_ms) = ltb now expiry
is_before expiry (conclude jump_label now_ms success) = true
is_before expiry (reset now) = false

module _ (percent : ℕ → ℕ → ℕ) (env : Env) (label : String) (named : label ≢ "") where
  -- A closed breaker opens exactly when the recent outcomes are at least as many as the settings ask for
  -- and the share of the failures among them reaches the threshold.
  opens_exactly :
      (now now_ms : ℕ) (breaker : Breaker)
      → breaker.open_until ≡ none
      → ((check_jump_host_circuit_breaker percent env now now_ms label breaker).0.0 ≡ true) ↔ (
          (circuit_breaker_min_samples env ≤ samples (recent env now_ms breaker))
          × (circuit_breaker_threshold_percent env
              ≤ percent
                  (failures (recent env now_ms breaker))
                  (samples (recent env now_ms breaker))))
  unfolding check_jump_host_circuit_breaker judge_outcomes
  opens_exactly now now_ms breaker closed = ground (arith, eq_iff label "")

  open_until-after :
      (now now_ms : ℕ) (breaker : Breaker)
      → (check_jump_host_circuit_breaker percent env now now_ms label breaker).0.0 ≡ true
      → (check_jump_host_circuit_breaker percent env now now_ms label breaker).1.open_until
        ≡ some (now + (check_jump_host_circuit_breaker percent env now now_ms label breaker).0.1)
  unfolding check_jump_host_circuit_breaker judge_outcomes
  open_until-after now now_ms breaker h = ground (arith, eq_iff label "")

  open-answer :
      (now now_ms expiry : ℕ) (breaker : Breaker)
      → breaker.open_until ≡ some expiry
      → now < expiry
      → (check_jump_host_circuit_breaker percent env now now_ms label breaker).0
        ≡ (true, expiry - now)
  unfolding check_jump_host_circuit_breaker
  open-answer now now_ms expiry breaker h before = ground (arith, eq_iff label "")

  open-keeps :
      (now now_ms expiry : ℕ) (breaker : Breaker)
      → breaker.open_until ≡ some expiry
      → now < expiry
      → (check_jump_host_circuit_breaker percent env now now_ms label breaker).1 ≡ breaker
  unfolding check_jump_host_circuit_breaker
  open-keeps now now_ms expiry breaker h before = ground (arith, eq_iff label "")

  -- The label's breaker is open until a time.
  abbrev IsOpenUntil : ℕ → BreakerKeys → Type 0
  IsOpenUntil expiry keys = (breaker_of label keys).open_until ≡ some expiry

  with_breaker-IsOpenUntil :
      (other : String) (expiry : ℕ) (breaker : Breaker) (keys : BreakerKeys)
      → IsOpenUntil expiry keys
      → (other ≡ label → breaker.open_until ≡ some expiry)
      → IsOpenUntil expiry (with_breaker other breaker keys)
  unfolding breaker_of with_breaker
  with_breaker-IsOpenUntil other expiry breaker keys h same =
      elim (Bool-cases (str_eq other label)) [
        | inl e ↦
            rw (get-put other label breaker keys.breakers, e) (same ((eq_iff other label).0 e))
        | inr e ↦ rw (get-put other label breaker keys.breakers, e) h
      ]

  check-IsOpenUntil :
      (other : String) (now now_ms expiry : ℕ) (keys : BreakerKeys)
      → IsOpenUntil expiry keys
      → now < expiry
      → IsOpenUntil expiry (check_keys percent env other now now_ms keys).1
  unfolding check_keys
  check-IsOpenUntil other now now_ms expiry keys h before =
      let checked =
        check_jump_host_circuit_breaker percent env now now_ms other (breaker_of other keys) in
      with_breaker-IsOpenUntil other expiry checked.1 keys h (λ same.
        subst
          (λ l.
            (check_jump_host_circuit_breaker percent env now now_ms l
              (breaker_of l keys)).1.open_until
            ≡ some expiry)
          (sym same)
          (ap (λ b. b.open_until) (open-keeps now now_ms expiry (breaker_of label keys) h before)
            ∙ h))

  step-IsOpenUntil :
      (expiry : ℕ) (step : BreakerStep) (keys : BreakerKeys)
      → IsOpenUntil expiry keys
      → is_before expiry step ≡ true
      → IsOpenUntil expiry (breaker_step percent env step keys)
  unfolding breaker_step is_before record_jump_host_outcome
  step-IsOpenUntil expiry (check other now now_ms) keys h before =
      check-IsOpenUntil other now now_ms expiry keys h (ltb→lt now expiry before)
  step-IsOpenUntil expiry (conclude other now_ms success) keys h before =
      with_breaker-IsOpenUntil other expiry
        (record_jump_host_outcome now_ms success (breaker_of other keys)) keys h
        (λ same. subst (λ l. (breaker_of l keys).open_until ≡ some expiry) (sym same) h)
  step-IsOpenUntil expiry (reset now) keys h before = ground (arith, before)

  steps-IsOpenUntil :
      (expiry : ℕ) (steps : List BreakerStep) (keys : BreakerKeys)
      → IsOpenUntil expiry keys
      → All (λ step. is_before expiry step ≡ true) steps
      → IsOpenUntil expiry (breaker_steps percent env steps keys)
  unfolding breaker_steps
  steps-IsOpenUntil expiry [] keys h before = h
  steps-IsOpenUntil expiry (step ∷ steps) keys h before =
      steps-IsOpenUntil expiry steps (breaker_step percent env step keys)
        (step-IsOpenUntil expiry step keys h before.0) before.1

  opened-IsOpenUntil :
      (now now_ms : ℕ) (keys : BreakerKeys)
      → (check_keys percent env label now now_ms keys).0.0 ≡ true
      → IsOpenUntil
          (now + (check_keys percent env label now now_ms keys).0.1)
          (check_keys percent env label now now_ms keys).1
  unfolding check_keys breaker_of with_breaker
  opened-IsOpenUntil now now_ms keys opened =
      let checked =
        check_jump_host_circuit_breaker percent env now now_ms label (breaker_of label keys) in
      rw (get-put label label checked.1 keys.breakers, (eq_iff label label).1 refl)
        (open_until-after now now_ms (breaker_of label keys) opened)

  reset-closes :
      (at now now_ms : ℕ) (keys : BreakerKeys)
      → (check_keys percent env label now now_ms (breaker_step percent env (reset at) keys)).0.0
        ≡ false
  unfolding breaker_step reset_circuit_breakers_for_new_batch check_keys breaker_of no_breaker get
      check_jump_host_circuit_breaker judge_outcomes select
  reset-closes at now now_ms keys = ground (arith, eq_iff label "", samples-bounds env)

  -- An answer that the breaker of a label is open holds for the seconds that it names. Whatever workers check
  -- before those seconds are over and whatever their sessions come to, on this label or others, without a
  -- reset: a check before the seconds are over says that it is open, and names the seconds that are left. Where
  -- a new batch then resets the breakers, the next check says that it is closed.
  pub stays_open :
      (now now_ms : ℕ) (keys : BreakerKeys) (steps : List BreakerStep) (later later_ms : ℕ)
      → (check_keys percent env label now now_ms keys).0.0 ≡ true
      → All
          (λ step. is_before (now + (check_keys percent env label now now_ms keys).0.1) step ≡ true)
          steps
      → later < now + (check_keys percent env label now now_ms keys).0.1
      → let opened = check_keys percent env label now now_ms keys in
        let worked = breaker_steps percent env steps opened.1 in
        ((check_keys percent env label later later_ms worked).0 ≡ (true, now + opened.0.1 - later))
        × ((check_keys percent env label later later_ms
              (breaker_step percent env (reset later) worked)).0.0
            ≡ false)
  unfolding check_keys
  stays_open now now_ms keys steps later later_ms opened before early =
      let first = check_keys percent env label now now_ms keys in
      let worked = breaker_steps percent env steps first.1 in
      (
        open-answer later later_ms (now + first.0.1) (breaker_of label worked)
            (steps-IsOpenUntil (now + first.0.1) steps first.1
              (opened-IsOpenUntil now now_ms keys opened) before)
            early,
        reset-closes later later later_ms worked,
      )

  -- Without a failure among its recent outcomes a closed breaker does not open, where no failures are
  -- 0 percent.
  stays_closed :
      (now now_ms : ℕ) (breaker : Breaker)
      → ((total : ℕ) → percent 0 total ≡ 0)
      → breaker.open_until ≡ none
      → failures (recent env now_ms breaker) ≡ 0
      → (check_jump_host_circuit_breaker percent env now now_ms label breaker).0.0 ≡ false
  unfolding check_jump_host_circuit_breaker judge_outcomes
  stays_closed now now_ms breaker zero_percent closed clean = ground (
    arith,
    eq_iff label "",
    threshold-bounds env,
    zero_percent (samples (recent env now_ms breaker)),
  )
