-- ===== src/Bulk/Finish/Once.antt =====
-- A batch is followed up at most once, whatever calls decide on it.
use new_backup_center.Base.{
  ℕ, ◌+◌, ◌≤◌, ◌<◌, ◌≡◌, refl, Option, none, some, List, [], ◌∷◌, All, lt→ltb, strip, arith,
}
use new_backup_center.Settings.{Env}
use new_backup_center.Bulk.{BulkMeta}
use new_backup_center.Bulk.Followup.{collect_bulk_transient_followup_candidates}
use new_backup_center.Bulk.Finish.Rules.{visit_rule, run_rule}
use new_backup_center.Bulk.Finish.{
  answering, Visit, Event, finished, not_needed, scheduled, Control, untouched, emit, decision_ttl,
  is_decided, outcome_of, follow_up, decide, maybe_finalize_bulk_and_schedule_followup, run,
}

-- how many follow-ups were scheduled
unfoldable pub follow_ups : List Event → ℕ
follow_ups [] = 0
follow_ups (finished _ ∷ events) = follow_ups events
follow_ups (not_needed _ ∷ events) = follow_ups events
follow_ups (scheduled _ _ _ _ ∷ events) = follow_ups events + 1

-- Since `start`: the key is not there and nothing is scheduled, or the key stays for 30 days.
IsOnce : (start : ℕ) → Option ℕ → ℕ → Type 0
IsOnce start none n = n ≡ 0
IsOnce start (some expiry) n = (start + decision_ttl ≤ expiry) × (n ≤ 1)

abbrev IsOnceAt : (start : ℕ) → Control → Type 0
IsOnceAt start s = IsOnce start s.decision (follow_ups s.events)

-- A call in the 30 days from `start` on, to which Redis answers.
abbrev pub IsWithin : (start : ℕ) → Visit → Type 0
IsWithin start call =
    (call.redis ≡ answering) × (start ≤ call.now) × (call.now < start + decision_ttl)

event-adds : (e : Event) (events : List Event) → follow_ups (e ∷ events) ≤ follow_ups events + 1
unfolding follow_ups
event-adds (finished _) events = omega arith
event-adds (not_needed _) events = omega arith
event-adds (scheduled _ _ _ _) events = omega arith

module _ (env : Env) (start : ℕ) where
  -- With a key that stays, nothing is added; without one, the key is set and one event at most added.
  decide-IsOnce :
      (call : Visit) (meta : BulkMeta) (decision : Option ℕ) (events : List Event)
      → IsWithin start call
      → IsOnce start decision (follow_ups events)
      → IsOnceAt start (decide env call meta (record { decision = decision; events = events }))
  unfolding decide is_decided IsOnce follow_up emit
  decide-IsOnce call meta none events (answers, after, before) h = rw answers (
    omega (arith, after),
    omega (
      arith,
      h,
      event-adds
          (outcome_of env (strip meta.tenant_id)
            (collect_bulk_transient_followup_candidates env call.backend meta))
          events,
    ),
  )
  decide-IsOnce call meta (some expiry) events (answers, after, before) h =
      rw (answers, lt→ltb call.now expiry (omega (arith, before, h.0))) h

  visit-IsOnce :
      (call : Visit) (s : Control)
      → IsWithin start call
      → IsOnceAt start s
      → IsOnceAt start (maybe_finalize_bulk_and_schedule_followup env call s)
  unfolding maybe_finalize_bulk_and_schedule_followup emit follow_ups
  visit-IsOnce call s within h =
      visit_rule env (IsOnceAt start) call
        (λ meta s h. decide-IsOnce call meta s.decision s.events within h) (λ snapshot s h. h)
        call.meta s h

IsOnce-le : (start : ℕ) (decision : Option ℕ) (n : ℕ) → IsOnce start decision n → n ≤ 1
unfolding IsOnce
IsOnce-le start none n h = omega (arith, h)
IsOnce-le start (some expiry) n h = h.1

-- Whatever the calls for one batch read, and in whatever order they decide: while Redis answers, those of
-- the first 30 days schedule one follow-up of it at most.
pub followed_up_once :
    (env : Env) (start : ℕ) (calls : List Visit)
    → All (IsWithin start) calls
    → follow_ups (run env calls untouched).events ≤ 1
unfolding untouched follow_ups IsOnce
followed_up_once env start calls within =
    let s = run env calls untouched in
    IsOnce-le start s.decision (follow_ups s.events) (
      run_rule env (IsWithin start) (IsOnceAt start) (visit-IsOnce env start) calls untouched within
        refl)
