-- ===== src/JumpHost/Breaker.antt =====
-- app/tasks/backups.py: the circuit breaker of a jump host, which is opened by the share of failures
-- among the recent outcomes. What Redis holds for one label is a record; Redis fails in none of its calls.
pub mod Opening
use new_backup_center.Base.{
  ℤ, pos, ℕ, suc, ◌+◌, ◌-◌, ◌*◌, Bool, true, false, not, Option, none, some, String, List, [], ◌∷◌,
  ◌++◌, length, map, or_else, select, str_eq, ltb, leb, ◌==◌, if◌then◌else◌,
}
use new_backup_center.Base.Dict.{Dict, get, put}
use new_backup_center.Settings.{
  Env, circuit_breaker_window_seconds, circuit_breaker_threshold_percent,
  circuit_breaker_min_samples, circuit_breaker_open_seconds,
}

-- An entry of the window, `outcome:milliseconds`, or a text that cannot be read so.
pub data Entry : Type 0 where
  outcome : (success : Bool) (ms : ℕ) → Entry
  unreadable : Entry

-- `open_until` is the expiry, in seconds of Redis' clock, of the key that keeps the breaker open. The list of
-- outcomes expires too; an expired list is an empty one.
pub record Breaker : Type 0 where
  pub open_until : Option ℕ
  pub outcomes : List Entry

-- The outcome of a session is put at the end of the window.
unfoldable pub record_jump_host_outcome : (now_ms : ℕ) (success : Bool) → Breaker → Breaker
record_jump_host_outcome now_ms success breaker = record breaker {
  outcomes = breaker.outcomes ++ (outcome success now_ms ∷ []);
}

-- `ts >= now_ms - window * 1000`, over the integers
unfoldable pub is_recent : Env → (now_ms : ℕ) → Entry → Bool
is_recent env now_ms (outcome success ms) =
    leb now_ms (ms + circuit_breaker_window_seconds env * 1000)
is_recent env now_ms unreadable = false

unfoldable pub is_success : Entry → Bool
is_success (outcome success ms) = success
is_success unreadable = false

unfoldable pub is_failure : Entry → Bool
is_failure (outcome success ms) = not success
is_failure unreadable = false

-- The answer of the check without its words: whether the breaker is open, and after how many seconds
-- to try again.
abbrev pub Answer : Type 0
Answer = Bool × ℕ

-- `percent failures total` is `int((failures / total) * 100)` in the floats of Python.
module _ (percent : ℕ → ℕ → ℕ) (env : Env) (now now_ms : ℕ) where
  -- From the outcomes on, which are cut down to the recent ones.
  unfoldable pub judge_outcomes : Breaker → Answer × Breaker
  judge_outcomes breaker =
      let valid_entries = select (is_recent env now_ms) breaker.outcomes in
      let failures = length (select is_failure valid_entries) in
      let total = length (select is_success valid_entries) + failures in
      let kept : Breaker = record breaker { outcomes = valid_entries } in
      if ltb total (circuit_breaker_min_samples env)
      then ((false, 0), kept)
      else if leb (circuit_breaker_threshold_percent env) (percent failures total)
      then (
        (true, circuit_breaker_open_seconds env),
        record kept { open_until = some (now + circuit_breaker_open_seconds env) },
      )
      else ((false, 0), kept)

  unfoldable pub check_jump_host_circuit_breaker :
      (jump_label : String) → Breaker → Answer × Breaker
  unfolding judge_outcomes
  check_jump_host_circuit_breaker jump_label breaker =
      if str_eq jump_label "" then ((false, 0), breaker) else elim breaker.open_until [
        | none ↦ judge_outcomes breaker
        | some expiry ↦
            if ltb now expiry then ((true, expiry - now), breaker) else judge_outcomes breaker
      ]

-- The keys of all jump hosts: the breakers by their labels, and the labels of which an adaptive state is kept.
pub record BreakerKeys : Type 0 where
  pub breakers : Dict Breaker
  pub adaptive : List String

unfoldable pub no_breaker : Breaker
no_breaker = record { open_until = none; outcomes = [] }

unfoldable pub breaker_of : (jump_label : String) → BreakerKeys → Breaker
unfolding get no_breaker
breaker_of jump_label keys = or_else (get jump_label keys.breakers) no_breaker

unfoldable pub with_breaker : (jump_label : String) → Breaker → BreakerKeys → BreakerKeys
unfolding put
with_breaker jump_label breaker keys = record keys {
  breakers = put jump_label breaker keys.breakers;
}

-- `open_cleared`, `outcomes_cleared` and `adaptive_cleared`
pub record Cleared : Type 0 where
  pub open_cleared : ℕ
  pub outcomes_cleared : ℕ
  pub adaptive_cleared : ℕ

unfoldable pub is_open_at : (now : ℕ) → Option ℕ → Bool
is_open_at now none = false
is_open_at now (some expiry) = ltb now expiry

unfoldable pub has_outcomes : List Entry → Bool
has_outcomes [] = false
has_outcomes (_ ∷ _) = true

-- The scans of the three patterns, each with the deletion of what it found.
unfoldable pub reset_circuit_breakers_for_new_batch :
    (now : ℕ) → BreakerKeys → Cleared × BreakerKeys
unfolding select is_open_at has_outcomes
reset_circuit_breakers_for_new_batch now keys = (
  record {
    open_cleared = length (select (λ b. is_open_at now b.1.open_until) keys.breakers);
    outcomes_cleared = length (select (λ b. has_outcomes b.1.outcomes) keys.breakers);
    adaptive_cleared = length keys.adaptive;
  },
  record { breakers = []; adaptive = [] },
)

-- What workers do to the keys: a check for a label, an outcome of a label, and the reset for a new batch.
pub data BreakerStep : Type 0 where
  check : (jump_label : String) (now now_ms : ℕ) → BreakerStep
  conclude : (jump_label : String) (now_ms : ℕ) (success : Bool) → BreakerStep
  reset : (now : ℕ) → BreakerStep

module _ (percent : ℕ → ℕ → ℕ) (env : Env) where
  unfoldable pub check_keys :
      (jump_label : String) (now now_ms : ℕ) → BreakerKeys → Answer × BreakerKeys
  unfolding breaker_of with_breaker check_jump_host_circuit_breaker
  check_keys jump_label now now_ms keys =
      let checked =
        check_jump_host_circuit_breaker percent env now now_ms jump_label
          (breaker_of jump_label keys) in
      (checked.0, with_breaker jump_label checked.1 keys)

  unfoldable pub breaker_step : BreakerStep → BreakerKeys → BreakerKeys
  unfolding check_keys record_jump_host_outcome reset_circuit_breakers_for_new_batch
  breaker_step (check jump_label now now_ms) keys = (check_keys jump_label now now_ms keys).1
  breaker_step (conclude jump_label now_ms success) keys =
      with_breaker jump_label (record_jump_host_outcome now_ms success (breaker_of jump_label keys))
        keys
  breaker_step (reset now) keys = (reset_circuit_breakers_for_new_batch now keys).1

  unfoldable pub breaker_steps : List BreakerStep → BreakerKeys → BreakerKeys
  breaker_steps [] keys = keys
  breaker_steps (step ∷ steps) keys = breaker_steps steps (breaker_step step keys)
