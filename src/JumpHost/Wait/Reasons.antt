-- ===== src/JumpHost/Wait/Reasons.antt =====
-- Why the wait for a slot ends.
use new_backup_center.Base.{
  ℕ, zero, suc, ◌+◌, ◌*◌, ◌≤◌, ◌<◌, ◌≡◌, refl, subst, Bool-cases, ◌⊎◌, inl, inr, Bool, true, false,
  Option, none, some, List, [], leb, leb→le, arith,
}
use new_backup_center.JumpHost.Wait.{
  Attempt, Turn, End, acquired, timed_out, cancelled, redis_unavailable, not_needed, Notice,
  sleep_micros, is_granted, try_slots, with_waiting, after_try, wait_loop, jump_host_lock_context,
}

-- The slot is one of `count` from `from` on, and was granted.
abbrev IsTried : (answers : ℕ → Attempt) (from count : ℕ) → Option ℕ → Type 0
IsTried answers from count none = Unit
IsTried answers from count (some slot) =
    (is_granted (answers slot) ≡ true) × (from ≤ slot) × (slot < from + count)

IsTried-next :
    (answers : ℕ → Attempt) (from count : ℕ) (found : Option ℕ)
    → IsTried answers (from + 1) count found
    → IsTried answers from (suc count) found
IsTried-next answers from count none h = tt
IsTried-next answers from count (some slot) (granted_it, low, high) =
    (granted_it, omega (arith, low), omega (arith, high))

try_slots-IsTried :
    (answers : ℕ → Attempt) (count from : ℕ)
    → IsTried answers from count (try_slots answers count from)
unfolding try_slots
try_slots-IsTried answers zero from = tt
try_slots-IsTried answers (suc count) from =
    let rest = try_slots answers count (from + 1) in
    let later = IsTried-next answers from count rest (try_slots-IsTried answers count (from + 1)) in
    elim (Bool-cases (is_granted (answers from))) [
      | inl e ↦ rw e (e, omega arith, omega arith)
      | inr e ↦ rw e later
    ]

module _ (max_slots wait_micros : ℕ) (turns : ℕ → Turn) where
  -- how long the wait has lasted when turn k starts
  unfoldable pub elapsed_at : ℕ → ℕ
  elapsed_at zero = 0
  elapsed_at (suc k) = elapsed_at k + sleep_micros + (turns k).delay

  -- The turns before k found no slot and no stop.
  abbrev pub WentOn : ℕ → Type 0
  WentOn zero = Unit
  WentOn (suc k) =
      WentOn k
      × (try_slots (turns k).answers max_slots 1 ≡ none)
      × ((turns k).stop_now ≡ false)
      × ((turns k).stop_asleep ≡ false)

  -- What each outcome of the wait says of the turns: k is the one at which it ended.
  abbrev pub IsExplained : End → Type 0
  IsExplained (acquired slot) =
      (k : ℕ) × WentOn k
      × (elapsed_at k < wait_micros)
      × (is_granted ((turns k).answers slot) ≡ true)
      × (1 ≤ slot)
      × (slot ≤ max_slots)
  IsExplained timed_out = (k : ℕ) × WentOn k × (wait_micros ≤ elapsed_at k)
  IsExplained cancelled =
      (k : ℕ) × WentOn k × (((turns k).stop_now ≡ true) ⊎ ((turns k).stop_asleep ≡ true))
  IsExplained redis_unavailable = Unit
  IsExplained not_needed = Unit

  abbrev IsReason : Option (End × List Notice) → Type 0
  IsReason none = Unit
  IsReason (some (outcome, notices)) = IsExplained outcome

  after_try-IsReason :
      (k : ℕ) (logged : Bool) (notices : List Notice) (rest : Option (End × List Notice))
      (found : Option ℕ)
      → WentOn k
      → elapsed_at k < wait_micros
      → IsTried (turns k).answers 1 max_slots found
      → (found ≡ none → (turns k).stop_asleep ≡ false → IsReason rest)
      → IsReason (after_try (turns k) logged notices rest found)
  unfolding after_try
  after_try-IsReason k logged notices rest (some slot) went early (granted_it, low, high) reason =
      (k, went, early, granted_it, low, omega (arith, high))
  after_try-IsReason k logged notices rest none went early found reason =
      elim (Bool-cases (turns k).stop_asleep) [
        | inl e ↦ rw e (k, went, inr e)
        | inr e ↦ rw e (reason refl e)
      ]

  loop-IsReason :
      (fuel k : ℕ) (logged : Bool) (notices : List Notice)
      → WentOn k
      → IsReason (wait_loop max_slots wait_micros turns fuel k (elapsed_at k) logged notices)
  unfolding wait_loop elapsed_at after_try
  loop-IsReason zero k logged notices went = tt
  loop-IsReason (suc fuel) k logged notices went =
      let said = with_waiting logged notices in
      let rest =
        wait_loop max_slots wait_micros turns fuel (suc k) (elapsed_at (suc k)) true said in
      elim (Bool-cases (turns k).stop_now) [
        | inl e ↦ rw e (k, went, inl e)
        | inr e ↦ elim (Bool-cases (leb wait_micros (elapsed_at k))) [
          | inl over ↦ rw (e, over) (k, went, leb→le wait_micros (elapsed_at k) over)
          | inr early ↦
              rw (e, early)
                (after_try-IsReason k logged notices rest (try_slots (turns k).answers max_slots 1)
                  went (ground (arith, early)) (try_slots-IsTried (turns k).answers max_slots 1)
                  (λ nothing awake. loop-IsReason fuel (suc k) true said (went, nothing, e, awake)))
        ]
      ]

reason-IsExplained :
    (max_slots wait_micros : ℕ) (turns : ℕ → Turn) (r : Option (End × List Notice)) (outcome : End)
    (notices : List Notice)
    → IsReason max_slots wait_micros turns r
    → r ≡ some (outcome, notices)
    → IsExplained max_slots wait_micros turns outcome
reason-IsExplained max_slots wait_micros turns r outcome notices reason e =
    subst (IsReason max_slots wait_micros turns) e reason

-- Why a wait ended, at the first turn that found a slot or a stop, or for which the time was over: a worker
-- that has a slot was granted one of the slots that there are, in time; one that is told that the time is
-- over has waited for the whole of it; and one that is cancelled was to stop.
pub wait-IsExplained :
    (max_slots wait_seconds : ℕ) (turns : ℕ → Turn) (outcome : End) (notices : List Notice)
    → jump_host_lock_context true true max_slots wait_seconds turns ≡ some (outcome, notices)
    → IsExplained max_slots (wait_seconds * sleep_micros) turns outcome
unfolding jump_host_lock_context elapsed_at
wait-IsExplained max_slots wait_seconds turns outcome notices h =
    reason-IsExplained max_slots (wait_seconds * sleep_micros) turns
      (jump_host_lock_context true true max_slots wait_seconds turns) outcome notices
      (loop-IsReason max_slots (wait_seconds * sleep_micros) turns (suc wait_seconds) 0 false [] tt)
      h
