-- ===== src/Billing/Policy.antt =====
-- app/services/billing_policy_service.py: due dates, grace days, and the enforcement job.
pub mod Bounds
pub mod Enforcement
pub mod Samples
use new_backup_center.Base.{
  ℕ, ◌+◌, ◌-◌, ◌*◌, ◌/◌, max, Bool, true, false, not, ◌&&◌, ◌||◌, Option, none, some, String, List,
  [], ◌∷◌, ℤ, pos, negsuc, int_or_zero, str_eq, str_or_empty, normalize, is_in, is_some, ltb, leb,
  if◌then◌else◌,
}
use new_backup_center.Models.{Datetime, naive, aware, Clock, Plan, Tenant}

-- The 86400 seconds of a day, in microseconds.
abbrev pub day : ℕ
day = 86_400_000_000

pub record Evaluation : Type 0 where
  pub overdue : Bool
  pub should_block : Bool
  pub overdue_days : ℕ
  pub grace_days : ℕ
  pub days_until_block : ℕ
  pub due_at : Option ℕ

period_of : ℤ → ℕ
period_of (pos n) = if ltb 0 n then n else 30
period_of (negsuc n) = 30

unfoldable pub plan_period_days : Option Plan → ℕ
unfolding period_of
plan_period_days none = 30
plan_period_days (some plan) = period_of (int_or_zero plan.billing_period_days)

grace_of : ℤ → ℕ
grace_of (pos n) = n
grace_of (negsuc n) = 3

unfoldable pub plan_grace_days : Option Plan → ℕ
unfolding grace_of
plan_grace_days none = 0
plan_grace_days (some plan) = grace_of (int_or_zero plan.payment_grace_days)

-- `dt.astimezone()` without an argument goes to the zone of the system.
unfoldable pub coerce_naive_utc : Clock → Option Datetime → Option ℕ
coerce_naive_utc clock none = none
coerce_naive_utc clock (some (naive t)) = some t
coerce_naive_utc clock (some (aware t)) = some (clock.local t)

first_due : Option ℕ → Option ℕ → Option ℕ
first_due (some t) _ = some t
first_due none trial = trial

unfoldable pub resolve_due_at : Clock → Tenant → Option ℕ
unfolding coerce_naive_utc first_due
resolve_due_at clock tenant =
    first_due (coerce_naive_utc clock tenant.current_period_end)
      (coerce_naive_utc clock tenant.trial_ends_at)

not_overdue : Option ℕ → ℕ → Evaluation
not_overdue due grace = record {
  overdue = false;
  should_block = false;
  overdue_days = 0;
  grace_days = grace;
  days_until_block = grace;
  due_at = due;
}

unfoldable pub evaluate_due : Option ℕ → ℕ → ℕ → Evaluation
unfolding not_overdue
evaluate_due none grace now = not_overdue none grace
evaluate_due (some due) grace now =
    let overdue_days = max ((now - due) / day + 1) 1 in
    if leb now due then not_overdue (some due) grace else record {
      overdue = true;
      should_block = ltb grace overdue_days;
      overdue_days = overdue_days;
      grace_days = grace;
      days_until_block = grace - overdue_days;
      due_at = some due;
    }

-- `cls._coerce_naive_utc(now) or datetime.utcnow()`
unfoldable pub resolve_now : Clock → Option Datetime → ℕ
unfolding coerce_naive_utc
resolve_now clock now = elim (coerce_naive_utc clock now) [ some t ↦ t | none ↦ clock.utcnow ]

-- `evaluate_tenant` from the resolved instant on
unfoldable pub evaluate_at : Clock → ℕ → Tenant → Evaluation
evaluate_at clock now tenant =
    evaluate_due (resolve_due_at clock tenant) (plan_grace_days tenant.plan) now

unfoldable pub evaluate_tenant : Clock → Option Datetime → Tenant → Evaluation
unfolding evaluate_at evaluate_due resolve_due_at plan_grace_days resolve_now
evaluate_tenant clock now tenant = evaluate_at clock (resolve_now clock now) tenant

-- The message's words are left out; `last_day` tells its two forms apart.
pub record Alert : Type 0 where
  pub last_day : Bool
  pub overdue_days : ℕ
  pub days_until_block : ℕ
  pub due_at : Option ℕ

alert_for : Evaluation → Option Alert
alert_for e =
    if not e.overdue || e.should_block
    then none
    else some (record {
      last_day = leb e.days_until_block 0;
      overdue_days = e.overdue_days;
      days_until_block = e.days_until_block;
      due_at = e.due_at;
    })

unfoldable pub build_runtime_alert : Clock → Option Datetime → Tenant → Option Alert
unfolding alert_for
build_runtime_alert clock now tenant =
    if tenant.access_unlimited then none else alert_for (evaluate_tenant clock now tenant)

-- The four counters of the job's result.
pub record Counts : Type 0 where
  pub processed : ℕ
  pub marked_past_due : ℕ
  pub blocked : ℕ
  pub reactivated : ℕ

-- The filter of the query.
unfoldable pub is_subject : Tenant → Bool
is_subject tenant = not tenant.access_unlimited && not (is_some tenant.deleted_at)

-- A status that the job may turn into "past_due".
abbrev open_statuses : List String
open_statuses = "active" ∷ "trial" ∷ "past_due" ∷ []

block_tenant : ℕ → Tenant → Counts → Tenant × Counts
block_tenant now t c = (
  record t {
    is_active = false;
    subscription_status = some "canceled";
    billing_blocked_at = elim t.billing_blocked_at [ some at ↦ some at | none ↦ some now ];
  },
  record c { blocked = if t.is_active then c.blocked + 1 else c.blocked },
)

abbrev may_mark : Tenant → Bool
may_mark t =
    is_in (normalize t.subscription_status) open_statuses
    && not (str_eq (str_or_empty t.subscription_status) "past_due")

mark_past_due : Tenant → Counts → Tenant × Counts
mark_past_due t c =
    if may_mark t
    then (
      record t { subscription_status = some "past_due" },
      record c { marked_past_due = c.marked_past_due + 1 },
    )
    else (t, c)

release_tenant : Tenant → Counts → Tenant × Counts
release_tenant t c =
    if is_some t.billing_blocked_at && t.is_active
    then (record t { billing_blocked_at = none }, record c { reactivated = c.reactivated + 1 })
    else (t, c)

-- The body of the loop, after `processed += 1`.
pub enforce_tenant : Clock → ℕ → Tenant → Counts → Tenant × Counts
enforce_tenant clock now t c =
    let e = evaluate_at clock now t in
    if e.should_block
    then block_tenant now t c
    else if e.overdue
    then mark_past_due t c
    else release_tenant t c

-- The loop over the table; a row that the query leaves out stays as it is.
pub enforce_rows : Clock → ℕ → List Tenant → Counts → List Tenant × Counts
enforce_rows clock now [] c = ([], c)
enforce_rows clock now (t ∷ rows) c =
    let (t', c') =
      if is_subject t
      then enforce_tenant clock now t (record c { processed = c.processed + 1 })
      else (t, c) in
    let (rows', c'') = enforce_rows clock now rows c' in (t' ∷ rows', c'')

pub enforce_access_policy : Clock → Option Datetime → List Tenant → List Tenant × Counts
unfolding enforce_rows enforce_tenant block_tenant mark_past_due release_tenant resolve_now
enforce_access_policy clock now rows =
    enforce_rows clock (resolve_now clock now) rows
      (record { processed = 0; marked_past_due = 0; blocked = 0; reactivated = 0 })
