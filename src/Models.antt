-- ===== src/Models.antt =====
-- The rows of app/models that several parts share: plan.py, tenant.py and their instants.
-- An instant is a number of microseconds since the year 1. A datetime of Python is naive, or aware;
-- an aware one is kept as its instant in UTC.
use new_backup_center.Base.{ℕ, Bool, Option, String, ℤ}

pub data Datetime : Type 0 where
  naive : ℕ → Datetime
  aware : ℕ → Datetime

-- The clock of the process: `datetime.utcnow()`, and the system's zone, which takes an instant in
-- UTC to the wall clock's reading.
pub record Clock : Type 0 where
  pub utcnow : ℕ
  pub local : ℕ → ℕ

-- Integer columns may be NULL, and may hold a negative number.
pub record Plan : Type 0 where
  pub id : String
  pub name : String
  pub price_monthly : ℤ
  pub price_yearly : Option ℤ
  pub trial_days : Option ℤ
  pub billing_period_days : Option ℤ
  pub payment_grace_days : Option ℤ
  pub max_devices : Option ℤ
  pub max_users : Option ℤ
  pub storage_quota_gb : Option ℤ
  pub download_quota_gb_month : Option ℤ
  pub is_active : Bool

-- `plan` is the row that the relationship loads through `plan_id`.
pub record Tenant : Type 0 where
  pub id : String
  pub slug : String
  pub is_active : Bool
  pub trial_ends_at : Option Datetime
  pub subscription_status : Option String
  pub current_period_end : Option Datetime
  pub billing_blocked_at : Option ℕ
  pub deleted_at : Option ℕ
  pub plan_id : Option String
  pub access_unlimited : Bool
  pub plan : Option Plan
