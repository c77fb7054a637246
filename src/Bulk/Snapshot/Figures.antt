-- ===== src/Bulk/Snapshot/Figures.antt =====
-- The final figures of a batch add up, and its status is what they say.
use new_backup_center.Base.{
  max_zero, ◌+◌, ◌≤◌, max, ◌≡◌, sym, leb, ap, subst, inl, inr, Option-cases, ◌&&◌, some, length,
  is_some, all, ltb, arith,
}
use new_backup_center.Bulk.{Backend, BulkMeta, present}
use new_backup_center.Bulk.Snapshot.{
  Snapshot, before_tasks, is_terminal, tally_tasks, sum_devices, snapshot_of, total_tasks_of,
  build_bulk_terminal_snapshot,
}
use new_backup_center.Bulk.Snapshot.Loop.{
  tally-IsBalanced, tally-counts, tally-ready, before-IsBalanced,
}

-- A batch that has ended has a tally of all its tasks, from which its figures are made.
pub snapshot-tally :
    (b : Backend) (meta : BulkMeta) (s : Snapshot)
    → build_bulk_terminal_snapshot b meta ≡ some s
    → (tally_tasks b meta.child_task_device_count
          (present meta.child_task_ids)
          (before_tasks (max_zero meta.skipped_jump_unreachable))
        ≡ some s.tally)
      × (snapshot_of meta (total_tasks_of meta) (present meta.child_task_ids) s.tally ≡ s)
unfolding build_bulk_terminal_snapshot snapshot_of
snapshot-tally b meta s h =
    let ids = present meta.child_task_ids in
    let tallied =
      tally_tasks b meta.child_task_device_count ids
        (before_tasks (max_zero meta.skipped_jump_unreachable)) in
    elim (Option-cases tallied) [
      | inl e ↦ ground (arith, h, e)
      | inr (t, e) ↦
          let same : snapshot_of meta (total_tasks_of meta) ids t ≡ s = ground (arith, h, e) in
          let same_tally : t ≡ s.tally = ap Snapshot.tally same in
          subst (λ v. (tallied ≡ some v) × (snapshot_of meta (total_tasks_of meta) ids v ≡ s))
            same_tally (e, same)
    ]

-- When a batch has ended: its tasks that are done are those that it lists, each done well or failed, and
-- the same holds of its devices.
snapshot_balanced :
    (b : Backend) (meta : BulkMeta) (s : Snapshot)
    → build_bulk_terminal_snapshot b meta ≡ some s
    → (s.tally.done_tasks ≡ length s.finished_task_ids)
      × (s.tally.success_tasks + s.tally.failed_tasks ≡ s.tally.done_tasks)
      × (s.tally.success_devices + s.tally.failed_devices ≡ s.tally.done_devices)
unfolding before_tasks present snapshot_of
snapshot_balanced b meta s h =
    let (tallied, made) = snapshot-tally b meta s h in
    let skipped = max_zero meta.skipped_jump_unreachable in
    let counts = meta.child_task_device_count in
    let ids = present meta.child_task_ids in
    let (tasks, devices) =
      tally-IsBalanced b counts ids (before_tasks skipped) s.tally
        (before-IsBalanced b counts skipped) tallied in
    let (done, covered) = tally-counts b counts ids (before_tasks skipped) s.tally tallied in
    (omega (arith, done, ap (λ v. length v.finished_task_ids) made), sym tasks, sym devices)

-- When a batch has ended: at least as many of its devices are done as were skipped and belong to its tasks,
-- so its total is the larger one of those that are done and of the total that its meta gave.
snapshot_covers :
    (b : Backend) (meta : BulkMeta) (s : Snapshot)
    → build_bulk_terminal_snapshot b meta ≡ some s
    → (max_zero meta.skipped_jump_unreachable
          + sum_devices meta.child_task_device_count s.finished_task_ids
        ≤ s.tally.done_devices)
      × (s.total_devices ≡ max (max_zero meta.total_devices) s.tally.done_devices)
unfolding snapshot_of before_tasks
snapshot_covers b meta s h =
    let (tallied, made) = snapshot-tally b meta s h in
    let skipped = max_zero meta.skipped_jump_unreachable in
    let counts = meta.child_task_device_count in
    let ids = present meta.child_task_ids in
    let (done, covered) = tally-counts b counts ids (before_tasks skipped) s.tally tallied in
    let total : max (max (max_zero meta.total_devices) s.tally.done_devices)
          (sum_devices counts ids)
        ≡ s.total_devices =
      ap Snapshot.total_devices made in
    (
      subst (λ l. skipped + sum_devices counts l ≤ s.tally.done_devices)
          (ap Snapshot.finished_task_ids made) covered,
      omega (arith, total, covered),
    )

-- A batch has ended exactly when it has a task, lists all of them, and each of those has ended.
pub snapshot_ready :
    (b : Backend) (meta : BulkMeta)
    → is_some (build_bulk_terminal_snapshot b meta) ≡ (
        ltb 0 (length (present meta.child_task_ids))
        && leb (max_zero meta.total_tasks) (length (present meta.child_task_ids))
        && all (is_terminal b) (present meta.child_task_ids))
unfolding build_bulk_terminal_snapshot total_tasks_of
snapshot_ready b meta =
    let ids = present meta.child_task_ids in
    let tallied =
      tally-ready b meta.child_task_device_count ids
        (before_tasks (max_zero meta.skipped_jump_unreachable)) in
    elim (Option-cases (
      tally_tasks b meta.child_task_device_count ids
        (before_tasks (max_zero meta.skipped_jump_unreachable)))) [
          | inl e ↦ ground (arith, e, tallied)
          | inr (t, e) ↦ ground (arith, e, tallied)
        ]
