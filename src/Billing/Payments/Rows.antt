-- ===== src/Billing/Payments/Rows.antt =====
-- What a notification does to the rows of subscriptions and tenants.
use new_backup_center.Base.{
  ℕ, ◌≡◌, ◌≢◌, refl, inl, inr, Bool-cases, Bool, true, Option, none, some, String, List, [], ◌∷◌,
  map, select, All, str_eq, eq_iff, arith,
}
use new_backup_center.Models.{Tenant, Plan, Datetime}
use new_backup_center.Billing.Payments.{
  Subscription, is_open, is_open_of, cancel_if_open, cancel_existing_subscriptions, activated,
  write_tenant,
}

pub none_open :
    (now : ℕ) (t : String) (subs : List Subscription)
    → select (is_open_of t) (cancel_existing_subscriptions now t subs) ≡ []
unfolding cancel_existing_subscriptions cancel_if_open is_open_of is_open select
none_open now t [] = refl
none_open now t (sub ∷ subs) = ground (arith, none_open now t subs)

pub others_open :
    (now : ℕ) (t other : String) (subs : List Subscription)
    → t ≢ other
    → select (is_open_of other) (cancel_existing_subscriptions now t subs)
      ≡ select (is_open_of other) subs
unfolding cancel_existing_subscriptions cancel_if_open is_open_of select
others_open now t other [] h = refl
others_open now t other (sub ∷ subs) h =
    ground
      (arith, h, others_open now t other subs h, eq_iff sub.tenant_id t, eq_iff sub.tenant_id other)

-- what lets a tenant in
abbrev pub Admission : Type 0
Admission = String × Bool × Option Datetime × Option String × Option ℕ

abbrev pub admission_of : Tenant → Admission
admission_of t = (t.id, t.is_active, t.current_period_end, t.plan_id, t.billing_blocked_at)

pub past_due-admission :
    (id : String) (tenants : List Tenant)
    → map admission_of
        (write_tenant id (λ t. record t { subscription_status = some "past_due" }) tenants)
      ≡ map admission_of tenants
unfolding write_tenant
past_due-admission id [] = refl
past_due-admission id (t ∷ tenants) = ground (arith, past_due-admission id tenants)

abbrev pub is_row_of : String → Tenant → Bool
is_row_of id t = str_eq t.id id

-- a change of a tenant that keeps its id
abbrev pub KeepsId : (Tenant → Tenant) → Type 0
KeepsId change = (t : Tenant) → (change t).id ≡ t.id

pub others-write :
    (id other : String) (change : Tenant → Tenant) (tenants : List Tenant)
    → id ≢ other
    → KeepsId change
    → select (is_row_of other) (write_tenant id change tenants) ≡ select (is_row_of other) tenants
unfolding write_tenant select
others-write id other change [] h keeps = refl
others-write id other change (t ∷ tenants) h keeps = ground (
  arith,
  h,
  keeps t,
  others-write id other change tenants h keeps,
  eq_iff t.id id,
  eq_iff t.id other,
  eq_iff (change t).id other,
)

-- The tenant is let in.
abbrev pub IsIn : Tenant → Type 0
IsIn t =
    (t.is_active ≡ true) × (t.billing_blocked_at ≡ none) × (t.subscription_status ≡ some "active")

pub write-IsIn :
    (id : String) (plan : Plan) (end : ℕ) (tenants : List Tenant)
    → All IsIn (select (is_row_of id) (write_tenant id (activated plan end) tenants))
unfolding write_tenant activated select
write-IsIn id plan end [] = tt
write-IsIn id plan end (t ∷ tenants) = elim (Bool-cases (str_eq t.id id)) [
  | inl same ↦ rw (same, same) ((refl, refl, refl), write-IsIn id plan end tenants)
  | inr other ↦ rw (other, other) (write-IsIn id plan end tenants)
]
