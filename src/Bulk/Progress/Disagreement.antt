-- ===== src/Bulk/Progress/Disagreement.antt =====
-- The page and the final figures of a batch judge a task that failed as a whole differently.
use new_backup_center.Base.{ℕ, ◌-◌, ◌≤◌, ◌≡◌, none, some, arith, pos}
use new_backup_center.Bulk.{Payload}
use new_backup_center.Bulk.Snapshot.{is_set, reported, with_missing}
use new_backup_center.Bulk.Progress.Task.{
  TaskResult, has_figures, audit_of, report_of, report_of_one, filled,
}

-- A task of n devices, two at least, whose result says no more than that it failed, with no audit, no total
-- and no list of its devices: the page counts one
-- device that failed and takes the others for done well, and the final figures count all of them as failed.
pub failed_task_disagrees :
    (n : ℕ) (page : TaskResult) (final : Payload)
    → 2 ≤ n
    → audit_of page ≡ none
    → page.total ≡ none
    → page.success ≡ some 0
    → final.details ≡ none
    → final.success ≡ some (pos 0)
    → ((filled (report_of n (some page))).failed ≡ 1)
      × ((filled (report_of n (some page))).success ≡ n - 1)
      × ((with_missing n (reported n final)).failed ≡ n)
      × ((with_missing n (reported n final)).success ≡ 0)
unfolding filled report_of has_figures report_of_one with_missing reported is_set
failed_task_disagrees n page final several no_audit no_total page_failed no_details failed = (
  ground (arith, several, no_audit, no_total, page_failed),
  ground (arith, several, no_audit, no_total, page_failed),
  ground (arith, several, no_details, failed),
  ground (arith, several, no_details, failed),
)
