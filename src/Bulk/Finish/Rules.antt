-- ===== src/Bulk/Finish/Rules.antt =====
-- What a call for a batch keeps: it emits figures that it writes, and decides.
use new_backup_center.Base.{Option, none, some, List, [], ◌∷◌, ◌++◌, All, ◌≡◌, refl, if_rule}
use new_backup_center.Settings.{Env}
use new_backup_center.Bulk.{BulkMeta}
use new_backup_center.Bulk.Snapshot.{Snapshot, build_bulk_terminal_snapshot}
use new_backup_center.Bulk.Finish.{
  Visit, finished, Control, emit, updated, decide, may_follow_up, after_snapshot, write_snapshot,
  finish_ready, finish_meta, maybe_finalize_bulk_and_schedule_followup, run,
}

module _ (env : Env) (P : Control → Type 0) where
  module _ (call : Visit)
      (decides : (meta : BulkMeta) (s : Control) → P s → P (decide env call meta s))
      (writes : (snapshot : Snapshot) (s : Control) → P s → P (emit (finished snapshot) s)) where
    after_rule : (known : BulkMeta) (s : Control) → P s → P (after_snapshot env call known s)
    unfolding after_snapshot
    after_rule known s h =
        if_rule P (may_follow_up env known) (decide env call known s) s (decides known s h) h

    write_rule :
        (snapshot : Snapshot) (reread : Option BulkMeta) (s : Control)
        → P s
        → P (write_snapshot env call snapshot reread s)
    unfolding write_snapshot
    write_rule snapshot none s h = writes snapshot s h
    write_rule snapshot (some again) s h =
        after_rule (updated snapshot again) (emit (finished snapshot) s) (writes snapshot s h)

    ready_rule :
        (meta : BulkMeta) (ready : Option Snapshot) (s : Control)
        → P s
        → P (finish_ready env call meta ready s)
    unfolding finish_ready
    ready_rule meta none s h = h
    ready_rule meta (some snapshot) s h =
        if_rule P meta.completed (after_snapshot env call (updated snapshot meta) s)
          (write_snapshot env call snapshot call.reread s) (after_rule (updated snapshot meta) s h)
          (write_rule snapshot call.reread s h)

    pub visit_rule : (meta : Option BulkMeta) (s : Control) → P s → P (finish_meta env call meta s)
    unfolding finish_meta
    visit_rule none s h = h
    visit_rule (some meta) s h =
        let ready = build_bulk_terminal_snapshot call.backend meta in
        if_rule P meta.is_bulk (finish_ready env call meta ready s) s (ready_rule meta ready s h) h

module _ (env : Env) (Q : Visit → Type 0) (P : Control → Type 0)
    (keeps : (call : Visit) (s : Control)
      → Q call
      → P s
      → P (maybe_finalize_bulk_and_schedule_followup env call s)) where
  pub run_rule : (calls : List Visit) (s : Control) → All Q calls → P s → P (run env calls s)
  unfolding run
  run_rule [] s q h = h
  run_rule (call ∷ calls) s q h =
      run_rule calls (maybe_finalize_bulk_and_schedule_followup env call s) q.1 (keeps call s q.0 h)

pub run-append :
    (env : Env) (first rest : List Visit) (s : Control)
    → run env (first ++ rest) s ≡ run env rest (run env first s)
unfolding run
run-append env [] rest s = refl
run-append env (call ∷ first) rest s =
    run-append env first rest (maybe_finalize_bulk_and_schedule_followup env call s)
