-- ===== src/Bulk/Finish/Kept.antt =====
-- What is decided and written for a batch, and that calls keep it.
use new_backup_center.Base.{
  ℕ, ◌+◌, ◌≤◌, ◌≡◌, refl, ◌⊎◌, inl, inr, Bool-cases, true, Option, none, some, String, List, [],
  ◌∷◌, lt→ltb, ltb, strip, if_rule, arith, is_some,
}
use new_backup_center.Settings.{Env}
use new_backup_center.Bulk.{BulkMeta}
use new_backup_center.Bulk.Snapshot.{Snapshot}
use new_backup_center.Bulk.Followup.{Candidates, collect_bulk_transient_followup_candidates}
use new_backup_center.Bulk.Finish.Once.{IsWithin}
use new_backup_center.Bulk.Finish.Rules.{visit_rule}
use new_backup_center.Bulk.Finish.{
  answering, Visit, Event, finished, not_needed, scheduled, Control, emit, decision_ttl, is_decided,
  outcome_of, follow_up, decide, maybe_finalize_bulk_and_schedule_followup,
}

-- how often a follow-up was decided on, whether one was scheduled or none was needed
unfoldable pub decisions : List Event → ℕ
decisions [] = 0
decisions (finished _ ∷ events) = decisions events
decisions (not_needed _ ∷ events) = decisions events + 1
decisions (scheduled _ _ _ _ ∷ events) = decisions events + 1

-- The figures are among those that were written.
unfoldable pub IsWritten : Snapshot → List Event → Type 0
IsWritten snapshot [] = ⊥
IsWritten snapshot (e ∷ events) = (finished snapshot ≡ e) ⊎ IsWritten snapshot events

-- As in IsOnce, with a decision once the key is there.
unfoldable pub IsTaken : (start : ℕ) → Option ℕ → ℕ → Type 0
IsTaken start none n = n ≡ 0
IsTaken start (some expiry) n = (start + decision_ttl ≤ expiry) × (n ≡ 1)

abbrev pub IsTakenAt : (start : ℕ) → Control → Type 0
IsTakenAt start s = IsTaken start s.decision (decisions s.events)

outcome-decides :
    (env : Env) (tenant_id : String) (c : Candidates) (events : List Event)
    → decisions (outcome_of env tenant_id c ∷ events) ≡ decisions events + 1
unfolding outcome_of decisions
outcome-decides env tenant_id c events = ground arith

module _ (env : Env) where
  decide-IsTaken :
      (start : ℕ) (call : Visit) (meta : BulkMeta) (decision : Option ℕ) (events : List Event)
      → IsWithin start call
      → IsTaken start decision (decisions events)
      → IsTakenAt start (decide env call meta (record { decision = decision; events = events }))
  unfolding decide is_decided IsTaken follow_up emit
  decide-IsTaken start call meta none events (answers, after, before) h = rw answers (
    omega (arith, after),
    omega (
      arith,
      h,
      outcome-decides env (strip meta.tenant_id)
          (collect_bulk_transient_followup_candidates env call.backend meta) events,
    ),
  )
  decide-IsTaken start call meta (some expiry) events (answers, after, before) h =
      rw (answers, lt→ltb call.now expiry (omega (arith, before, h.0))) h

  pub visit-IsTaken :
      (start : ℕ) (call : Visit) (s : Control)
      → IsWithin start call
      → IsTakenAt start s
      → IsTakenAt start (maybe_finalize_bulk_and_schedule_followup env call s)
  unfolding maybe_finalize_bulk_and_schedule_followup emit decisions
  visit-IsTaken start call s within h =
      visit_rule env (IsTakenAt start) call
        (λ meta s h. decide-IsTaken start call meta s.decision s.events within h)
        (λ snapshot s h. h) call.meta s h

  -- Where Redis answers, a decision leaves its key.
  pub decide-key :
      (call : Visit) (meta : BulkMeta) (decision : Option ℕ) (events : List Event)
      → call.redis ≡ answering
      → is_some (decide env call meta (record { decision = decision; events = events })).decision
        ≡ true
  unfolding decide is_decided follow_up emit
  decide-key call meta none events answers = rw answers refl
  decide-key call meta (some expiry) events answers = elim (Bool-cases (ltb call.now expiry)) [
    | inl e ↦ rw (answers, e) refl
    | inr e ↦ rw (answers, e) refl
  ]

  pub visit-key :
      (start : ℕ) (call : Visit) (s : Control)
      → IsWithin start call
      → is_some s.decision ≡ true
      → is_some (maybe_finalize_bulk_and_schedule_followup env call s).decision ≡ true
  unfolding maybe_finalize_bulk_and_schedule_followup emit
  visit-key start call s within h =
      visit_rule env (λ s. is_some s.decision ≡ true) call
        (λ meta s h. decide-key call meta s.decision s.events within.0) (λ snapshot s h. h)
        call.meta s h

  pub decide-IsWritten :
      (snapshot : Snapshot) (call : Visit) (meta : BulkMeta) (s : Control)
      → call.redis ≡ answering
      → IsWritten snapshot s.events
      → IsWritten snapshot (decide env call meta s).events
  unfolding decide follow_up emit IsWritten
  decide-IsWritten snapshot call meta s answers h = rw answers (
      if_rule (λ (c : Control). IsWritten snapshot c.events) (is_decided call.now s.decision) s
        (follow_up env call.backend meta (record s { decision = some (call.now + decision_ttl) })) h
        (inr h))

  pub visit-IsWritten :
      (snapshot : Snapshot) (start : ℕ) (call : Visit) (s : Control)
      → IsWithin start call
      → IsWritten snapshot s.events
      → IsWritten snapshot (maybe_finalize_bulk_and_schedule_followup env call s).events
  unfolding maybe_finalize_bulk_and_schedule_followup emit IsWritten
  visit-IsWritten snapshot start call s within h =
      visit_rule env (λ s. IsWritten snapshot s.events) call
        (λ meta s h. decide-IsWritten snapshot call meta s within.0 h) (λ other s h. inr h)
        call.meta s h
