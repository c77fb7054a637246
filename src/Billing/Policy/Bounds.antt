-- ===== src/Billing/Policy/Bounds.antt =====
-- When billing_policy_service.py blocks a tenant, and what it counts on the way.
use new_backup_center.Base.{
  ℕ, ◌+◌, ◌*◌, ◌≡◌, false, ◌&&◌, Option, none, some, ltb, leb, arith, ◌==◌,
}
use new_backup_center.Models.{Clock, Tenant, Datetime}
use new_backup_center.Billing.Policy.{
  day, evaluate_at, evaluate_due, evaluate_tenant, resolve_due_at, resolve_now, plan_grace_days,
  build_runtime_alert, Alert,
}

evaluate_due-blocks :
    (due grace now : ℕ)
    → (evaluate_due (some due) grace now).should_block
      ≡ (ltb due now && leb (due + grace * day) now)
unfolding evaluate_due
evaluate_due-blocks due grace now = ground arith

-- A tenant with a due date is blocked exactly when that date is past and the days of grace, counted
-- from it to the microsecond, are over.
should_block_exact :
    (clock : Clock) (now due : ℕ) (tenant : Tenant)
    → resolve_due_at clock tenant ≡ some due
    → (evaluate_at clock now tenant).should_block
      ≡ (ltb due now && leb (due + plan_grace_days tenant.plan * day) now)
unfolding evaluate_at
should_block_exact clock now due tenant h =
    rw h (evaluate_due-blocks due (plan_grace_days tenant.plan) now)

evaluate_due-days :
    (due : Option ℕ) (grace now : ℕ)
    → (evaluate_due due grace now).should_block ≡ false
    → (evaluate_due due grace now).overdue_days + (evaluate_due due grace now).days_until_block
      ≡ grace
unfolding evaluate_due
evaluate_due-days none grace now h = ground arith
evaluate_due-days (some due) grace now h = ground arith

evaluate_tenant-days :
    (clock : Clock) (now : Option Datetime) (tenant : Tenant)
    → (evaluate_tenant clock now tenant).should_block ≡ false
    → (evaluate_tenant clock now tenant).overdue_days
        + (evaluate_tenant clock now tenant).days_until_block
      ≡ plan_grace_days tenant.plan
unfolding evaluate_tenant
evaluate_tenant-days clock now tenant =
    evaluate_due-days (resolve_due_at clock tenant) (plan_grace_days tenant.plan)
      (resolve_now clock now)

-- The days that an alert says are gone and the days that it says are left add up to the plan's days
-- of grace, and it speaks of the last day exactly when none is left.
alert_days :
    (clock : Clock) (now : Option Datetime) (tenant : Tenant) (a : Alert)
    → build_runtime_alert clock now tenant ≡ some a
    → (a.overdue_days + a.days_until_block ≡ plan_grace_days tenant.plan)
      × (a.last_day ≡ (a.days_until_block == 0))
unfolding build_runtime_alert
alert_days clock now tenant a h = ground (arith, evaluate_tenant-days clock now tenant)
