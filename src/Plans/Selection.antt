-- ===== src/Plans/Selection.antt =====
-- app/web/billing/controller.py, get_plan_capacity_map: which plans the billing page offers, against
-- validate_plan_selection, which the checkout asks.
use new_backup_center.Base.{
  ℕ, ◌<◌, ◌≡◌, ◌↔◌, Bool, true, not, ◌&&◌, Option, none, some, String, List, map, ℤ, pos, pos_part,
  int_or_zero, ltb, ltb_ℤ, arith, str_eq, length, select,
}
use new_backup_center.Models.{Plan}
use new_backup_center.Plans.Tables.{Db, get_active_user_count, get_storage_used_bytes}
use new_backup_center.Plans.Access.{too_many_devices, validate_plan_selection}
use new_backup_center.Plans.Limits.{storage_limit_bytes}

-- The words of `reason` are left out: it is a text for each test that fails.
pub record Capacity : Type 0 where
  pub plan_id : String
  pub eligible : Bool
  pub device_count : ℕ
  pub max_devices : ℤ
  pub user_count : ℕ
  pub max_users : ℤ
  pub storage_used_bytes : ℕ
  pub storage_limit_bytes : ℕ

-- `limit > 0 and count > limit`
over : ℤ → ℕ → Bool
over limit count = ltb_ℤ (pos 0) limit && ltb_ℤ limit (pos count)

unfoldable pub plan_capacity : (device_count user_count storage_used_bytes : ℕ) → Plan → Capacity
unfolding over
plan_capacity devices users used plan =
    let limit = storage_limit_bytes (some plan) in
    record {
      plan_id = plan.id;
      eligible =
          not (over (int_or_zero plan.max_devices) devices)
          && not (over (int_or_zero plan.max_users) users)
          && not (ltb 0 limit && ltb limit used);
      device_count = devices;
      max_devices = int_or_zero plan.max_devices;
      user_count = users;
      max_users = int_or_zero plan.max_users;
      storage_used_bytes = used;
      storage_limit_bytes = limit;
    }

-- The page counts every device of the tenant, the inactive ones too.
unfoldable pub get_tenant_device_count : Db → String → ℕ
get_tenant_device_count db tenant_id =
    length (select (λ d. str_eq d.tenant_id tenant_id) db.devices)

unfoldable pub get_plan_capacity_map : Db → String → List Plan → List Capacity
unfolding get_tenant_device_count plan_capacity
get_plan_capacity_map db tenant_id plans =
    map
      (plan_capacity (get_tenant_device_count db tenant_id) (get_active_user_count db tenant_id)
        (get_storage_used_bytes db tenant_id))
      plans

abbrev pub IsPositive : Option ℤ → Type 0
IsPositive i = 0 < pos_part (int_or_zero i)

-- Where the plan's limits on devices and users are positive and its quota is set, the page offers
-- the plan for given counts exactly when the checkout accepts it for them.
capacity_agrees :
    (plan : Plan) (quota : ℤ) (devices users used : ℕ)
    → IsPositive plan.max_devices
    → IsPositive plan.max_users
    → plan.storage_quota_gb ≡ some quota
    → (plan_capacity devices users used plan).eligible ≡ true
      ↔ validate_plan_selection (some plan) devices (some users) (some used) ≡ none
unfolding plan_capacity validate_plan_selection storage_limit_bytes
capacity_agrees plan quota devices users used some_devices some_users has_quota = ground arith

-- A plan whose limit on devices is 0 or NULL sets no limit on the page, and at the checkout it
-- refuses every tenant that has a device.
zero_limit_disagrees :
    (plan : Plan) (devices users used : ℕ)
    → int_or_zero plan.max_devices ≡ pos 0
    → 0 < devices
    → ((plan_capacity devices users used plan).eligible
        ≡ (plan_capacity 0 users used plan).eligible)
      × (validate_plan_selection (some plan) devices (some users) (some used)
          ≡ some too_many_devices)
unfolding plan_capacity validate_plan_selection
zero_limit_disagrees plan devices users used zero_limit some_devices = ground arith
