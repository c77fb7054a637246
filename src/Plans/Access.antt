-- ===== src/Plans/Access.antt =====
-- app/services/tenant_access_service.py: what a tenant may do, and how it enters a plan.
use new_backup_center.Base.{
  ℕ, ◌+◌, ◌*◌, Bool, false, ◌||◌, Option, none, some, String, ℤ, pos, pos_part, int_or_zero,
  is_some, ltb, ltb_ℤ, if◌then◌else◌,
}
use new_backup_center.Models.{naive, Clock, Plan, Tenant}
use new_backup_center.Billing.Policy.{day}

pub data PlanName : Type 0 where
  named : String → PlanName
  unlimited without_plan : PlanName

unfoldable pub get_plan_display_name : Tenant → PlanName
get_plan_display_name tenant = elim tenant.plan [
  | some plan ↦ named plan.name
  | none ↦ if tenant.access_unlimited then unlimited else without_plan
]

unfoldable pub is_deleted : Tenant → Bool
is_deleted tenant = is_some tenant.deleted_at

unfoldable pub can_operate_without_plan : Tenant → Bool
can_operate_without_plan tenant = is_some tenant.plan_id || tenant.access_unlimited

-- The `ValueError`s of `validate_plan_selection`, without their words.
pub data Refusal : Type 0 where
  no_plan too_many_devices too_many_users too_much_storage : Refusal

abbrev pub bytes_per_gb : ℕ
bytes_per_gb = 1024 * 1024 * 1024

-- an optional count against a limit
exceeds : Option ℕ → ℤ → Bool
exceeds none limit = false
exceeds (some n) limit = ltb_ℤ limit (pos n)

storage_exceeds : Option ℕ → ℤ → Bool
storage_exceeds none gb = false
storage_exceeds (some used) gb =
    if ltb_ℤ (pos 0) gb then ltb (pos_part gb * bytes_per_gb) used else false

-- `none` is the return without an exception.
unfoldable pub validate_plan_selection :
    Option Plan → (device_count : ℕ) → (user_count storage_used_bytes : Option ℕ) → Option Refusal
unfolding exceeds storage_exceeds
validate_plan_selection none devices users storage = some no_plan
validate_plan_selection (some plan) devices users storage =
    if ltb_ℤ (int_or_zero plan.max_devices) (pos devices)
    then some too_many_devices
    else if exceeds users (int_or_zero plan.max_users)
    then some too_many_users
    else if storage_exceeds storage (int_or_zero plan.storage_quota_gb)
    then some too_much_storage
    else none

unfoldable pub seed_trial_plan_fields : Clock → Tenant → Option Plan → Tenant
seed_trial_plan_fields clock tenant none = tenant
seed_trial_plan_fields clock tenant (some plan) = record tenant {
  plan_id = some plan.id;
  subscription_status = some "trial";
  trial_ends_at =
      let trial_days = int_or_zero plan.trial_days in
      if ltb_ℤ (pos 0) trial_days
      then some (naive (clock.utcnow + pos_part trial_days * day))
      else none;
}

unfoldable pub seed_pending_payment_plan_fields : Tenant → Option Plan → Tenant
seed_pending_payment_plan_fields tenant none = tenant
seed_pending_payment_plan_fields tenant (some plan) = record tenant {
  plan_id = some plan.id;
  subscription_status = some "pending_payment";
  trial_ends_at = none;
  current_period_end = none;
  billing_blocked_at = none;
  is_active = false;
}
