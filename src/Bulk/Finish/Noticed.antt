-- ===== src/Bulk/Finish/Noticed.antt =====
-- The end of a batch is noticed.
use new_backup_center.Base.{
  ℕ, ◌≤◌, ◌&&◌, if◌then◌else◌, ◌<◌, ◌≡◌, refl, ap, sym, subst, ◌∙◌, ◌⊎◌, inl, inr, Bool-cases,
  Option-cases, true, false, Option, none, some, List, ◌∷◌, ◌++◌, All, if_rule, arith, is_some,
  length, max_zero, all,
}
use new_backup_center.Settings.{Env}
use new_backup_center.Bulk.{Backend, BulkMeta, present}
use new_backup_center.Bulk.Snapshot.{Snapshot, is_terminal, build_bulk_terminal_snapshot}
use new_backup_center.Bulk.Snapshot.Figures.{snapshot_ready}
use new_backup_center.Bulk.Finish.Once.{IsWithin}
use new_backup_center.Bulk.Finish.Kept.{
  decisions, IsWritten, IsTaken, IsTakenAt, visit-IsTaken, decide-key, visit-key, decide-IsWritten,
  visit-IsWritten,
}
use new_backup_center.Bulk.Finish.Rules.{run_rule, run-append}
use new_backup_center.Bulk.Finish.{
  answering, Visit, finished, Control, untouched, emit, updated, decide, may_follow_up,
  after_snapshot, write_snapshot, finish_ready, finish_meta,
  maybe_finalize_bulk_and_schedule_followup, run,
}

taken-once :
    (start : ℕ) (decision : Option ℕ) (n : ℕ)
    → IsTaken start decision n
    → is_some decision ≡ true
    → n ≡ 1
unfolding IsTaken
taken-once start none n h e = ground (arith, e)
taken-once start (some expiry) n h e = h.1

-- The meta of a batch that lists all of its tasks, one at least, each of which has ended.
abbrev pub HasEnded : Backend → BulkMeta → Type 0
HasEnded b meta =
    (0 < length (present meta.child_task_ids))
    × (max_zero meta.total_tasks ≤ length (present meta.child_task_ids))
    × (all (is_terminal b) (present meta.child_task_ids) ≡ true)

-- The call reads the meta of a batch, and again after it wrote the figures; each of the tasks has ended.
abbrev pub SeesEnd : (meta again : BulkMeta) → Visit → Type 0
SeesEnd meta again call =
    (call.meta ≡ some meta)
    × (call.reread ≡ some again)
    × (meta.is_bulk ≡ true)
    × HasEnded call.backend meta

ended-snapshot :
    (b : Backend) (meta : BulkMeta)
    → HasEnded b meta
    → (snapshot : Snapshot) × (build_bulk_terminal_snapshot b meta ≡ some snapshot)
ended-snapshot b meta (some_task, listed, ended) =
    elim (Option-cases (build_bulk_terminal_snapshot b meta)) [
      | inl e ↦ ground (arith, ap is_some e, snapshot_ready b meta, some_task, listed, ended)
      | inr found ↦ found
    ]

module _ (env : Env) (meta again : BulkMeta) (call : Visit) (sees : SeesEnd meta again call)
    (snapshot : Snapshot) (built : build_bulk_terminal_snapshot call.backend meta ≡ some snapshot)
    (s : Control) where
  visit-ready : maybe_finalize_bulk_and_schedule_followup env call s ≡ (
      if meta.completed
      then after_snapshot env call (updated snapshot meta) s
      else write_snapshot env call snapshot (some again) s)
  unfolding maybe_finalize_bulk_and_schedule_followup finish_meta finish_ready
  visit-ready =
      let (read, reread, bulk, ended) = sees in
      let ready = build_bulk_terminal_snapshot call.backend meta in
      ap (λ m. finish_meta env call m s) read
      ∙ ap (λ b. if b then finish_ready env call meta ready s else s) bulk
      ∙ ap (λ o. finish_ready env call meta o s) built
      ∙ ap
          (λ r.
            if meta.completed
            then after_snapshot env call (updated snapshot meta) s
            else write_snapshot env call snapshot r s)
          reread

  may-decide :
      (known : BulkMeta) (c : Control)
      → may_follow_up env known ≡ true
      → after_snapshot env call known c ≡ decide env call known c
  unfolding after_snapshot
  may-decide known c may = ap (λ b. if b then decide env call known c else c) may

  end-key :
      call.redis ≡ answering
      → may_follow_up env meta ≡ true
      → may_follow_up env again ≡ true
      → is_some (maybe_finalize_bulk_and_schedule_followup env call s).decision ≡ true
  unfolding write_snapshot may_follow_up
  end-key answers may may_again =
      let key = λ (c : Control). is_some c.decision ≡ true in
      let wrote = emit (finished snapshot) s in
      subst key (sym visit-ready) (
        if_rule key meta.completed (after_snapshot env call (updated snapshot meta) s)
          (write_snapshot env call snapshot (some again) s)
          (subst key (sym (may-decide (updated snapshot meta) s may))
            (decide-key env call (updated snapshot meta) s.decision s.events answers))
          (subst key (sym (may-decide (updated snapshot again) wrote may_again))
            (decide-key env call (updated snapshot again) wrote.decision wrote.events answers)))

  end-IsWritten :
      call.redis ≡ answering
      → meta.completed ≡ false
      → IsWritten snapshot (maybe_finalize_bulk_and_schedule_followup env call s).events
  unfolding write_snapshot after_snapshot emit IsWritten
  end-IsWritten answers open_ =
      let has = λ (c : Control). IsWritten snapshot c.events in
      let wrote = emit (finished snapshot) s in
      let wrote_it : has wrote = inl refl in
      subst has
        (sym (
          visit-ready
          ∙ ap
              (λ b.
                if b
                then after_snapshot env call (updated snapshot meta) s
                else write_snapshot env call snapshot (some again) s)
              open_))
        (if_rule has (may_follow_up env again) (decide env call (updated snapshot again) wrote)
          wrote (decide-IsWritten env snapshot call (updated snapshot again) wrote answers wrote_it)
          wrote_it)

-- Some call of the first 30 days reads the meta of a batch, before and after it writes, and each task of the
-- batch has ended. Then there are final figures, and whatever the calls before it and after it read, while
-- Redis answers: exactly one decision on a follow-up is made, unless one of the two metas rules out a
-- follow-up, and these figures are written, unless the batch was completed already.
pub end_noticed :
    (env : Env) (start : ℕ) (first : List Visit) (call : Visit) (rest : List Visit)
    (meta again : BulkMeta)
    → All (IsWithin start) first
    → IsWithin start call
    → All (IsWithin start) rest
    → SeesEnd meta again call
    → let events = (run env (first ++ call ∷ rest) untouched).events in
      (snapshot : Snapshot) × (build_bulk_terminal_snapshot call.backend meta ≡ some snapshot)
      × ((decisions events ≡ 1) ⊎ ((may_follow_up env meta && may_follow_up env again) ≡ false))
      × (IsWritten snapshot events ⊎ (meta.completed ≡ true))
unfolding untouched decisions IsTaken run
end_noticed env start first call rest meta again before within after sees =
    let (snapshot, built) = ended-snapshot call.backend meta sees.3 in
    let s = run env first untouched in
    let noticed = maybe_finalize_bulk_and_schedule_followup env call s in
    let last = run env rest noticed in
    let whole : run env (first ++ call ∷ rest) untouched ≡ last =
      run-append env first (call ∷ rest) untouched in
    let taken : IsTakenAt start last =
      run_rule env (IsWithin start) (IsTakenAt start) (visit-IsTaken env start) rest noticed after (
        visit-IsTaken env start call s within (
          run_rule env (IsWithin start) (IsTakenAt start) (visit-IsTaken env start) first untouched
            before refl)) in
    (
      snapshot,
      built,
      elim (Bool-cases (may_follow_up env meta && may_follow_up env again)) [
        | inl may ↦ inl (
            ap (λ (c : Control). decisions c.events) whole
            ∙ taken-once start last.decision (decisions last.events) taken (
                run_rule env (IsWithin start) (λ (c : Control). is_some c.decision ≡ true)
                  (visit-key env start) rest noticed after
                  (end-key env meta again call sees snapshot built s within.0 (ground (arith, may))
                    (ground (arith, may)))))
        | inr barred ↦ inr barred
      ],
      elim (Bool-cases meta.completed) [
        | inl e ↦ inr e
        | inr e ↦ inl (
            subst (λ (c : Control). IsWritten snapshot c.events) (sym whole)
              (run_rule env (IsWithin start) (λ (c : Control). IsWritten snapshot c.events)
                (visit-IsWritten env snapshot start) rest noticed after
                (end-IsWritten env meta again call sees snapshot built s within.0 e)))
      ],
    )
