-- ===== src/Plans/Limits/Downloads.antt =====
-- The monthly download quota of plan_limits_service.py.
use text.Mathlib.TextPositions.{eq_refl}
use new_backup_center.Base.{
  ℕ, ◌+◌, ◌≤◌, ◌<◌, ◌≡◌, ◌≢◌, ◌⊎◌, ◌↔◌, refl, true, false, Option, none, some, String, List, [],
  ◌∷◌, ℤ, pos, pos_part, eq_iff, first, first-append, if◌then◌else◌, arith, is_some,
}
use new_backup_center.Models.{Plan, Tenant}
use new_backup_center.Plans.Tables.{Db, Metric}
use new_backup_center.Plans.Limits.{
  LimitCheckResult, is_metric, find_or_add, fresh_metric, add_to_first, consume_download_bytes,
  get_download_used_bytes_current_month, monthly_download_limit_bytes,
}

value_of : Option Metric → ℕ
value_of none = 0
value_of (some m) = m.value_bytes

-- What a query for a tenant's month finds, as a number of bytes.
used_in : String → String → List Metric → ℕ
unfolding value_of
used_in t p metrics = value_of (first (is_metric t p) metrics)

used_in-current :
    (db : Db) (t p : String) → get_download_used_bytes_current_month db t p ≡ used_in t p db.metrics
unfolding get_download_used_bytes_current_month used_in
used_in-current db t p = ground arith

is_metric-fresh : (t p : String) → is_metric t p (fresh_metric t p) ≡ true
unfolding is_metric
is_metric-fresh t p = simp eq_refl

module _ (t p : String) where
  -- Only the tenant's own query for the month sees the row that is looked up or added.
  used_in-find_or_add :
      (u q : String) (metrics : List Metric)
      → used_in u q (find_or_add t p metrics).1 ≡ used_in u q metrics
  unfolding used_in find_or_add first
  used_in-find_or_add u q metrics =
      ground (arith, first-append (is_metric u q) metrics (fresh_metric t p ∷ []))

  find_or_add-used :
      (metrics : List Metric) → (find_or_add t p metrics).0.value_bytes ≡ used_in t p metrics
  unfolding used_in find_or_add
  find_or_add-used metrics = ground arith

  find_or_add-finds :
      (metrics : List Metric) → is_some (first (is_metric t p) (find_or_add t p metrics).1) ≡ true
  unfolding find_or_add first
  find_or_add-finds metrics =
      ground
        (arith, first-append (is_metric t p) metrics (fresh_metric t p ∷ []), is_metric-fresh t p)

  used_in-add_to_first :
      (size : ℕ) (metrics : List Metric)
      → is_some (first (is_metric t p) metrics) ≡ true
      → used_in t p (add_to_first t p size metrics) ≡ used_in t p metrics + size
  unfolding used_in add_to_first first is_metric
  used_in-add_to_first size [] h = cc
  used_in-add_to_first size (m ∷ metrics) h = ground (arith, used_in-add_to_first size metrics)

  used_in-add_to_first_ne :
      (u q : String) (size : ℕ) (metrics : List Metric)
      → (t ≢ u) ⊎ (p ≢ q)
      → used_in u q (add_to_first t p size metrics) ≡ used_in u q metrics
  unfolding used_in add_to_first first is_metric
  used_in-add_to_first_ne u q size [] h = refl
  used_in-add_to_first_ne u q size (m ∷ metrics) h = ground (
    arith,
    used_in-add_to_first_ne u q size metrics h,
    eq_iff m.tenant_id t,
    eq_iff m.tenant_id u,
    eq_iff m.period_key p,
    eq_iff m.period_key q,
  )

module _ (db : Db) (tenant : Tenant) (plan : Plan) (size : ℕ) (p : String) where
  abbrev used_before : ℕ
  used_before = get_download_used_bytes_current_month db tenant.id p

  abbrev consumed : LimitCheckResult × Db
  consumed = consume_download_bytes db tenant (pos size) p

  -- A download of a metered tenant is allowed exactly when the plan has no limit or the month's
  -- total stays within it; then the total grows by the download, and else it stays.
  pub consume_exact :
      tenant.access_unlimited ≡ false
      → tenant.plan ≡ some plan
      → 0 < size
      → (consumed.0.allowed ≡ true
          ↔ (monthly_download_limit_bytes (some plan) ≡ 0)
            ⊎ (used_before + size ≤ monthly_download_limit_bytes (some plan)))
        × (get_download_used_bytes_current_month consumed.1 tenant.id p
            ≡ (if consumed.0.allowed then used_before + size else used_before))
  unfolding consume_download_bytes
  consume_exact metered with_plan some_bytes = ground (
    arith,
    used_in-current db tenant.id p,
    used_in-current consumed.1 tenant.id p,
    used_in-find_or_add tenant.id p tenant.id p db.metrics,
    find_or_add-used tenant.id p db.metrics,
    used_in-add_to_first tenant.id p size (find_or_add tenant.id p db.metrics).1
        (find_or_add-finds tenant.id p db.metrics),
  )

-- Whatever a tenant downloads, allowed or not, the totals of the other tenants and of its own other
-- months stay as they are.
consume_isolated :
    (db : Db) (tenant : Tenant) (size : ℤ) (p u q : String)
    → (tenant.id ≢ u) ⊎ (p ≢ q)
    → get_download_used_bytes_current_month (consume_download_bytes db tenant size p).1 u q
      ≡ get_download_used_bytes_current_month db u q
unfolding consume_download_bytes
consume_isolated db tenant size p u q other = ground (
  arith,
  used_in-current db u q,
  used_in-current (consume_download_bytes db tenant size p).1 u q,
  used_in-find_or_add tenant.id p u q db.metrics,
  used_in-add_to_first_ne tenant.id p u q (pos_part size) (find_or_add tenant.id p db.metrics).1
      other,
)

-- A total that is within a positive limit stays within it, whatever size is asked for.
consume-le_limit :
    (db : Db) (tenant : Tenant) (plan : Plan) (size : ℕ) (p : String)
    → tenant.access_unlimited ≡ false
    → tenant.plan ≡ some plan
    → 0 < size
    → 0 < monthly_download_limit_bytes (some plan)
    → get_download_used_bytes_current_month db tenant.id p
      ≤ monthly_download_limit_bytes (some plan)
    → get_download_used_bytes_current_month
        (consume_download_bytes db tenant (pos size) p).1
        tenant.id
        p
      ≤ monthly_download_limit_bytes (some plan)
consume-le_limit db tenant plan size p metered with_plan some_bytes limited within =
    ground (arith, consume_exact db tenant plan size p metered with_plan some_bytes)
