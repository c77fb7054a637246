-- ===== src/Bulk/Progress/Polls.antt =====
-- app/web/tenant/backups.py: the page that asks again and again (`bulk_task_status`), and writes each
-- progress into the meta of the batch. It never goes back.
use new_backup_center.Base.{ℕ, ◌≤◌, ◌≡◌, ◌&&◌, String, or_else}
use new_backup_center.Base.Dict.{Dict, get}
use new_backup_center.Bulk.Progress.{Before}

-- how often a category of failures was counted
abbrev pub count_of : String → Dict ℕ → ℕ
count_of category counts = or_else (get category counts) 0

-- No figure is less than before.
abbrev pub AreNotLess : String → Before → Before → Type 0
AreNotLess category a b =
    (a.total_tasks ≤ b.total_tasks)
    × (a.total_devices ≤ b.total_devices)
    × (a.done_tasks ≤ b.done_tasks)
    × (a.success_tasks ≤ b.success_tasks)
    × (a.failed_tasks ≤ b.failed_tasks)
    × (a.done_devices ≤ b.done_devices)
    × (a.success_devices ≤ b.success_devices)
    × (a.failed_devices ≤ b.failed_devices)
    × (a.no_ping_devices ≤ b.no_ping_devices)
    × (a.ping_ok_login_fail_devices ≤ b.ping_ok_login_fail_devices)
    × (a.ping_login_ok_devices ≤ b.ping_login_ok_devices)
    × (count_of category a.failure_category_counts ≤ count_of category b.failure_category_counts)

-- And a batch that was completed is.
abbrev pub IsNotLess : String → Before → Before → Type 0
IsNotLess category a b = AreNotLess category a b × ((a.completed && b.completed) ≡ a.completed)
