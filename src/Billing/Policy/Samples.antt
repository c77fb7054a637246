-- ===== src/Billing/Policy/Samples.antt =====
-- Small tenants, what the billing policy says of them, and its theorems at these inputs.
use new_backup_center.Base.{
  ℕ, ◌+◌, ◌*◌, ◌≡◌, refl, true, false, none, some, List, [], ◌∷◌, All, length, select, pos, is_in,
  normalize,
}
use new_backup_center.Models.{naive, Clock, Plan, Tenant}
use new_backup_center.Billing.Policy.{
  day, Counts, Alert, evaluate_at, evaluate_due, resolve_due_at, plan_grace_days, enforce_rows,
  enforce_access_policy, is_subject,
}
use new_backup_center.Billing.Policy.Enforcement.{
  IsEnforced, enforce_rows-Enforced, enforce_rows_idem,
}

abbrev pub clock : Clock
clock = record { utcnow = 1000 * day; local = λ t. t }

abbrev pub basic : Plan
basic = record {
  id = "p1";
  name = "Basic";
  price_monthly = pos 9900;
  price_yearly = none;
  trial_days = some (pos 14);
  billing_period_days = some (pos 30);
  payment_grace_days = some (pos 3);
  max_devices = some (pos 10);
  max_users = some (pos 2);
  storage_quota_gb = some (pos 10);
  download_quota_gb_month = some (pos 20);
  is_active = true;
}

abbrev pub due_on : ℕ → Tenant
due_on n = record {
  id = "t1";
  slug = "acme";
  is_active = true;
  trial_ends_at = none;
  subscription_status = some "active";
  current_period_end = some (naive (n * day));
  billing_blocked_at = none;
  deleted_at = none;
  plan_id = some "p1";
  access_unlimited = false;
  plan = some basic;
}

abbrev no_counts : Counts
no_counts = record { processed = 0; marked_past_due = 0; blocked = 0; reactivated = 0 }

abbrev rows : List Tenant
rows = due_on 990 ∷ due_on 999 ∷ due_on 1001 ∷ record (due_on 990) { access_unlimited = true } ∷ []

-- One tenant is blocked, one is marked past due, one is paid up, and one is exempt.
job_runs :
    (enforce_access_policy clock none rows).1
    ≡ record { processed = 3; marked_past_due = 1; blocked = 1; reactivated = 0 }
unfolding enforce_access_policy evaluate_at evaluate_due resolve_due_at plan_grace_days is_subject
    is_in normalize
job_runs = refl

abbrev alert : Alert
alert = record {
  last_day = false;
  overdue_days = 2;
  days_until_block = 1;
  due_at = some (999 * day);
}

enforce_rows-Enforced_example :
    All
      (λ t. is_subject t ≡ true → IsEnforced clock (1000 * day) t)
      (enforce_rows clock (1000 * day) rows no_counts).0
enforce_rows-Enforced_example = enforce_rows-Enforced clock (1000 * day) rows no_counts

enforce_rows_idem_example :
    enforce_rows clock (1000 * day) (enforce_rows clock (1000 * day) rows no_counts).0 no_counts ≡ (
      (enforce_rows clock (1000 * day) rows no_counts).0,
      record no_counts { processed = 0 + length (select is_subject rows) },
    )
enforce_rows_idem_example = enforce_rows_idem clock (1000 * day) rows no_counts no_counts
