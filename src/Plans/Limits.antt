-- ===== src/Plans/Limits.antt =====
-- app/services/plan_limits_service.py: limits on devices, users, storage and downloads.
pub mod Downloads
pub mod Counts
pub mod Samples
use new_backup_center.Base.{
  ℕ, ◌+◌, ◌*◌, Bool, true, false, not, ◌&&◌, Option, none, some, String, List, [], ◌∷◌, ◌++◌, ℤ,
  pos, pos_part, is_some, str_eq, ltb, leb, first, if◌then◌else◌,
}
use new_backup_center.Models.{Plan, Tenant}
use new_backup_center.Plans.Tables.{
  Db, Metric, get_device_count, get_active_user_count, get_storage_used_bytes,
}
use new_backup_center.Plans.Access.{bytes_per_gb}

-- The reasons, without their words.
pub data Reason : Type 0 where
  fine without_plan limit_reached : Reason

-- `used` and `limit` are counts or bytes, as the check goes.
pub record LimitCheckResult : Type 0 where
  pub allowed : Bool
  pub reason : Reason
  pub used : ℕ
  pub limit : ℕ

unfoldable pub is_unlimited_tenant : Option Tenant → Bool
is_unlimited_tenant none = false
is_unlimited_tenant (some tenant) = tenant.access_unlimited

unfoldable pub has_plan_access : Option Tenant → Bool
has_plan_access none = false
has_plan_access (some tenant) = if tenant.access_unlimited then true else is_some tenant.plan_id

-- `_as_int(value, default, minimum=0)` of a column that holds an integer or NULL
unfoldable pub as_int : Option ℤ → ℕ → ℕ
as_int none default = default
as_int (some i) default = pos_part i

unfoldable pub storage_limit_bytes : Option Plan → ℕ
unfolding as_int
storage_limit_bytes none = 0
storage_limit_bytes (some plan) = as_int plan.storage_quota_gb 10 * bytes_per_gb

unfoldable pub monthly_download_limit_bytes : Option Plan → ℕ
unfolding as_int
monthly_download_limit_bytes none = 0
monthly_download_limit_bytes (some plan) = as_int plan.download_quota_gb_month 20 * bytes_per_gb

abbrev pub passed : ℕ → ℕ → LimitCheckResult
passed used limit = record { allowed = true; reason = fine; used = used; limit = limit }

abbrev pub refused : Reason → ℕ → ℕ → LimitCheckResult
refused reason used limit = record { allowed = false; reason = reason; used = used; limit = limit }

-- `limit > 0 and used >= limit`
check_count : ℕ → ℕ → LimitCheckResult
check_count used limit =
    if ltb 0 limit && leb limit used then refused limit_reached used limit else passed used limit

unfoldable pub check_can_add_device : Db → Tenant → LimitCheckResult
unfolding check_count as_int
check_can_add_device db tenant = if tenant.access_unlimited then passed 0 0 else elim tenant.plan [
  | none ↦ refused without_plan 0 0
  | some plan ↦ check_count (get_device_count db tenant.id) (as_int plan.max_devices 0)
]

unfoldable pub check_can_add_user : Db → Tenant → LimitCheckResult
unfolding check_count as_int
check_can_add_user db tenant = if tenant.access_unlimited then passed 0 0 else elim tenant.plan [
  | none ↦ refused without_plan 0 0
  | some plan ↦ check_count (get_active_user_count db tenant.id) (as_int plan.max_users 0)
]

-- `limit > 0 and (used + incoming) > limit`
unfoldable pub check_storage_before_backup : Db → Tenant → ℤ → LimitCheckResult
check_storage_before_backup db tenant backup_size_bytes =
    let incoming = pos_part backup_size_bytes in
    let used = get_storage_used_bytes db tenant.id in
    let limit = storage_limit_bytes tenant.plan in
    if leb incoming 0
    then passed 0 0
    else if tenant.access_unlimited
    then passed 0 0
    else if not (is_some tenant.plan)
    then refused without_plan 0 0
    else if ltb 0 limit && ltb limit (used + incoming)
    then refused limit_reached used limit
    else passed used limit

abbrev pub metric_download_bytes : String
metric_download_bytes = "download_bytes"

pub is_metric : String → String → Metric → Bool
is_metric tenant_id period_key m =
    str_eq m.tenant_id tenant_id
    && str_eq m.metric_key metric_download_bytes
    && str_eq m.period_key period_key

abbrev fresh_metric : String → String → Metric
fresh_metric tenant_id period_key = record {
  tenant_id = tenant_id;
  metric_key = metric_download_bytes;
  period_key = period_key;
  value_bytes = 0;
  events_count = 0;
}

-- The query's first row, or a new row with zeros behind the others.
find_or_add : String → String → List Metric → Metric × List Metric
find_or_add tenant_id period_key metrics = elim (first (is_metric tenant_id period_key) metrics) [
  | some m ↦ (m, metrics)
  | none ↦ let fresh : Metric = fresh_metric tenant_id period_key in (fresh, metrics ++ fresh ∷ [])
]

-- The assignment to the row that the query found.
add_to_first : String → String → ℕ → List Metric → List Metric
add_to_first tenant_id period_key size [] = []
add_to_first tenant_id period_key size (m ∷ metrics) =
    let rest = add_to_first tenant_id period_key size metrics in
    if is_metric tenant_id period_key m
    then record m { value_bytes = m.value_bytes + size; events_count = m.events_count + 1 }
      ∷ metrics
    else m ∷ rest

-- The key of the month is `now.strftime("%Y-%m")`.
pub consume_download_bytes : Db → Tenant → ℤ → (period_key : String) → LimitCheckResult × Db
consume_download_bytes db tenant download_size_bytes period_key =
    let size = pos_part download_size_bytes in
    let (metric, metrics) = find_or_add tenant.id period_key db.metrics in
    let limit = monthly_download_limit_bytes tenant.plan in
    let used = metric.value_bytes in
    if leb size 0
    then (passed 0 0, db)
    else if tenant.access_unlimited
    then (passed 0 0, db)
    else if not (is_some tenant.plan)
    then (refused without_plan 0 0, db)
    else if ltb 0 limit && ltb limit (used + size)
    then (refused limit_reached used limit, record db { metrics = metrics })
    else (
      passed (used + size) limit,
      record db { metrics = add_to_first tenant.id period_key size metrics },
    )

unfoldable pub get_download_used_bytes_current_month : Db → String → String → ℕ
unfolding first is_metric
get_download_used_bytes_current_month db tenant_id period_key =
    elim (first (is_metric tenant_id period_key) db.metrics) [ none ↦ 0 | some m ↦ m.value_bytes ]
