-- ===== src/Bulk/Finish.antt =====
-- app/tasks/backups.py: `_maybe_finalize_bulk_and_schedule_followup`, which each task of a batch calls when
-- it ends, so that two workers may be in it at one time.
mod Rules
pub mod Kept
pub mod Once
pub mod Noticed
use new_backup_center.Base.{
  ℕ, ◌+◌, ◌≤◌, Bool, true, false, not, ◌&&◌, ◌||◌, Option, none, some, String, List, [], ◌∷◌, pos,
  strip, normalize, str_eq, ltb, if◌then◌else◌,
}
use new_backup_center.Base.Dict.{Dict}
use new_backup_center.Settings.{
  Env, bulk_transient_followup_enabled, bulk_transient_followup_delay_seconds,
}
use new_backup_center.Bulk.{Backend, BulkMeta}
use new_backup_center.Bulk.Snapshot.{Snapshot, build_bulk_terminal_snapshot}
use new_backup_center.Bulk.Followup.{Candidates, collect_bulk_transient_followup_candidates}

-- The client of Redis: there is none, `set` fails, or it answers.
pub data Redis : Type 0 where
  absent failing answering : Redis

-- What a call reads while it runs: the meta of the batch at its start and, after it wrote the snapshot, once
-- more (`none` is `{}`, a meta that is missing or that cannot be read), the tasks, and the time in seconds.
pub record Visit : Type 0 where
  pub meta : Option BulkMeta
  pub reread : Option BulkMeta
  pub backend : Backend
  pub now : ℕ
  pub redis : Redis

-- What the calls do to the world.
pub data Event : Type 0 where
  finished : Snapshot → Event
  not_needed : (categories : Dict ℕ) → Event
  scheduled :
      (tenant_id : String) (candidate_ids : List String) (categories : Dict ℕ) (countdown : ℕ)
      → Event

-- The decision key of the batch, by when it expires, and the events, the newest first.
pub record Control : Type 0 where
  pub decision : Option ℕ
  pub events : List Event

unfoldable pub untouched : Control
untouched = record { decision = none; events = [] }

unfoldable pub emit : Event → Control → Control
emit event s = record s { events = event ∷ s.events }

-- 30 days
abbrev pub decision_ttl : ℕ
decision_ttl = 2_592_000

unfoldable pub is_decided : (now : ℕ) → Option ℕ → Bool
is_decided now none = false
is_decided now (some expiry) = ltb now expiry

-- `bulk_meta.update(snapshot)`, of what is read of it later
unfoldable pub updated : Snapshot → BulkMeta → BulkMeta
updated snapshot meta = record meta {
  completed = snapshot.completed;
  total_tasks = pos snapshot.total_tasks;
  total_devices = pos snapshot.total_devices;
}

module _ (env : Env) where
  -- what the follow-up of a batch with these candidates is
  unfoldable pub outcome_of : (tenant_id : String) → Candidates → Event
  outcome_of tenant_id c = elim c.ids [
    | [] ↦ not_needed c.categories
    | _ ∷ _ ↦
        if str_eq tenant_id ""
        then not_needed c.categories
        else scheduled tenant_id c.ids c.categories (bulk_transient_followup_delay_seconds env)
  ]

  -- the follow-up itself, once it is decided
  unfoldable pub follow_up : Backend → BulkMeta → Control → Control
  unfolding emit strip
  follow_up b meta s =
      emit
        (outcome_of (strip meta.tenant_id) (collect_bulk_transient_followup_candidates env b meta))
        s

  -- the decision, which the key in Redis takes for all calls, or else the mark in the meta
  unfoldable pub decide : Visit → BulkMeta → Control → Control
  unfolding is_decided
  decide call meta s = elim call.redis [
    | answering ↦
        if is_decided call.now s.decision
        then s
        else follow_up call.backend meta (record s { decision = some (call.now + decision_ttl) })
    | _ ↦ if meta.transient_followup_decided then s else follow_up call.backend meta s
  ]

  unfoldable pub may_follow_up : BulkMeta → Bool
  unfolding normalize
  may_follow_up meta =
      str_eq (normalize (some meta.operation_kind)) "backup_bulk"
      && bulk_transient_followup_enabled env
      && not meta.cancel_requested

  -- the guards before the decision, for the meta as it stands once the snapshot is written
  unfoldable pub after_snapshot : Visit → BulkMeta → Control → Control
  unfolding may_follow_up
  after_snapshot call known s = if may_follow_up known then decide call known s else s

  -- the snapshot is written, and the meta read again
  unfoldable pub write_snapshot : Visit → Snapshot → Option BulkMeta → Control → Control
  unfolding updated emit
  write_snapshot call snapshot none s = emit (finished snapshot) s
  write_snapshot call snapshot (some again) s =
      after_snapshot call (updated snapshot again) (emit (finished snapshot) s)

  unfoldable pub finish_ready : Visit → BulkMeta → Option Snapshot → Control → Control
  finish_ready call meta none s = s
  finish_ready call meta (some snapshot) s =
      if meta.completed
      then after_snapshot call (updated snapshot meta) s
      else write_snapshot call snapshot call.reread s

  unfoldable pub finish_meta : Visit → Option BulkMeta → Control → Control
  finish_meta call none s = s
  finish_meta call (some meta) s =
      let ready = build_bulk_terminal_snapshot call.backend meta in
      if meta.is_bulk then finish_ready call meta ready s else s

  unfoldable pub maybe_finalize_bulk_and_schedule_followup : Visit → Control → Control
  maybe_finalize_bulk_and_schedule_followup call s = finish_meta call call.meta s

  -- The calls for one batch, in the order in which they decide.
  unfoldable pub run : List Visit → Control → Control
  run [] s = s
  run (call ∷ calls) s = run calls (maybe_finalize_bulk_and_schedule_followup call s)
