-- ===== src/Billing/Payments.antt =====
-- app/web/billing/controller.py: what a notification of the payment provider does to invoices,
-- subscriptions and tenants.
pub mod Access
pub mod Cases
pub mod Rows
pub mod Samples
use Prim.Native.String.{◌++◌}
use new_backup_center.Base.{
  ℤ, pos, pos_part, ℕ, ◌+◌, Bool, true, false, not, ◌&&◌, ◌||◌, Option, none, some, String, List,
  [], ◌∷◌, map, first, or_option, str_eq, normalize, str_or_empty, strip, split, split_once, is_in,
  ltb, ltb_ℤ, if◌then◌else◌,
}
use new_backup_center.Base.Dict.{Dict, get, put}
use new_backup_center.Models.{Datetime, naive, Plan, Tenant}
use new_backup_center.Billing.Policy.{plan_period_days}

pub data InvoiceStatus : Type 0 where
  draft pending paid failed cancelled : InvoiceStatus

pub record Invoice : Type 0 where
  pub id : String
  pub tenant_id : String
  pub status : InvoiceStatus
  pub period_start : ℕ
  pub period_end : ℕ
  pub paid_at : Option ℕ
  pub payment_method : Option String
  pub payment_gateway_id : Option String

pub data SubscriptionStatus : Type 0 where
  active past_due canceled trial : SubscriptionStatus

pub record Subscription : Type 0 where
  pub tenant_id : String
  pub plan_id : String
  pub status : SubscriptionStatus
  pub current_period_start : ℕ
  pub current_period_end : ℕ
  pub cancel_at_period_end : Bool
  pub canceled_at : Option ℕ

pub record Db : Type 0 where
  pub invoices : List Invoice
  pub tenants : List Tenant
  pub plans : List Plan
  pub subscriptions : List Subscription

-- What the provider says of a payment; `payment_type` is its type or else its method.
pub record Payment : Type 0 where
  pub status : Option String
  pub external_reference : Option String
  pub payment_type : Option String

-- The dictionaries that are returned, without their texts.
pub data Outcome : Type 0 where
  invoice_not_found tenant_not_found : Outcome
  handled : (invoice_id tenant_id : String) → InvoiceStatus → Outcome

unfoldable pub plan_amount_cents : Plan → (billing_cycle : Option String) → Option ℤ
unfolding normalize
plan_amount_cents plan billing_cycle =
    if str_eq (normalize billing_cycle) "yearly"
    then elim plan.price_yearly [
      | none ↦ none
      | some price ↦ if ltb_ℤ (pos 0) price then some price else none
    ]
    else some plan.price_monthly

unfoldable pub period_delta_days : Plan → (billing_cycle : Option String) → ℕ
unfolding plan_period_days normalize
period_delta_days plan billing_cycle =
    let custom_period = plan_period_days (some plan) in
    if ltb 0 custom_period
    then custom_period
    else if str_eq (normalize billing_cycle) "yearly"
    then 365
    else 30

unfoldable pub new_external_reference : (tenant_id plan_id invoice_id : String) → String
new_external_reference tenant_id plan_id invoice_id =
    "tenant:" ++ tenant_id ++ "|plan:" ++ plan_id ++ "|invoice:" ++ invoice_id

parts_of : List String → Dict String → Dict String
unfolding strip
parts_of [] parts = parts
parts_of (item ∷ items) parts = parts_of items (elim (split_once ":" item) [
  | none ↦ parts
  | some (key, value) ↦ put (strip key) (strip value) parts
])

unfoldable pub parse_external_reference : Option String → Dict String
unfolding parts_of strip split
parse_external_reference reference =
    let raw = strip (str_or_empty reference) in
    if str_eq raw "" then [] else parts_of (split "|" raw) []

unfoldable pub invoice_status_from_payment_status : Option String → InvoiceStatus
unfolding normalize is_in
invoice_status_from_payment_status payment_status =
    let status = normalize payment_status in
    if str_eq status "approved"
    then paid
    else if is_in status ("pending" ∷ "in_process" ∷ "in_mediation" ∷ "authorized" ∷ [])
    then pending
    else if is_in status ("cancelled" ∷ "cancelled_by_user" ∷ "refunded" ∷ "charged_back" ∷ [])
    then cancelled
    else failed

unfoldable pub is_open : SubscriptionStatus → Bool
is_open active = true
is_open past_due = true
is_open canceled = false
is_open trial = true

-- A subscription of the tenant that the query finds.
unfoldable pub is_open_of : String → Subscription → Bool
unfolding is_open
is_open_of tenant_id sub = str_eq sub.tenant_id tenant_id && is_open sub.status

unfoldable pub cancel_if_open : (now : ℕ) → String → Subscription → Subscription
unfolding is_open_of
cancel_if_open now tenant_id sub =
    if is_open_of tenant_id sub
    then record sub { status = canceled; canceled_at = some now; cancel_at_period_end = false }
    else sub

unfoldable pub cancel_existing_subscriptions :
    (now : ℕ) → String → List Subscription → List Subscription
unfolding cancel_if_open
cancel_existing_subscriptions now tenant_id subs = map (cancel_if_open now tenant_id) subs

-- The rows of a tenant that a handler has changed are written by its id.
unfoldable pub write_tenant : String → (Tenant → Tenant) → List Tenant → List Tenant
write_tenant id change tenants = map (λ t. if str_eq t.id id then change t else t) tenants

unfoldable pub write_invoice : String → (Invoice → Invoice) → List Invoice → List Invoice
write_invoice id change invoices = map (λ i. if str_eq i.id id then change i else i) invoices

unfoldable pub activated : Plan → (period_end : ℕ) → Tenant → Tenant
activated plan period_end tenant = record tenant {
  plan_id = some plan.id;
  plan = some plan;
  subscription_status = some "active";
  current_period_end = some (naive period_end);
  is_active = true;
  billing_blocked_at = none;
}

unfoldable pub activate_subscription :
    (now : ℕ) → Tenant → Plan → (period_start period_end : ℕ) → Db → Db
unfolding cancel_existing_subscriptions write_tenant activated
activate_subscription now tenant plan period_start period_end db = record db {
  subscriptions =
      record {
        tenant_id = tenant.id;
        plan_id = plan.id;
        status = active;
        current_period_start = period_start;
        current_period_end = period_end;
        cancel_at_period_end = false;
        canceled_at = none;
      }
      ∷ cancel_existing_subscriptions now tenant.id db.subscriptions;
  tenants = write_tenant tenant.id (activated plan period_end) db.tenants;
}

-- `order_by(Plan.price_monthly.asc()).first()` among the active plans
unfoldable pub cheapest : List Plan → Option Plan
cheapest [] = none
cheapest (plan ∷ plans) =
    let rest = cheapest plans in
    if not plan.is_active then rest else elim rest [
      | none ↦ some plan
      | some other ↦ if ltb_ℤ other.price_monthly plan.price_monthly then some other else some plan
    ]

-- `refs.get(key) or refs.get(alternative)`, an empty text counting as nothing
unfoldable pub reference_to : (key alternative : String) → Dict String → Option String
unfolding get
reference_to key alternative refs = elim (get key refs) [
  | none ↦ get alternative refs
  | some value ↦ if str_eq value "" then get alternative refs else some value
]

-- `uuid.UUID(text)`, with `none` where it raises
module _ (parse_uuid : String → Option String) where
  unfoldable pub row_of : {A : Type 0} → (A → String) → Option String → List A → Option A
  row_of id reference rows = elim reference [
    | none ↦ none
    | some text ↦ elim (parse_uuid text) [
      | none ↦ none
      | some uuid ↦ first (λ row. str_eq (id row) uuid) rows
    ]
  ]

  -- The plan of the reference, or else the tenant's, or else the cheapest one.
  unfoldable pub plan_for : Option String → Tenant → Db → Option Plan
  unfolding row_of cheapest
  plan_for plan_id tenant db = or_option (row_of (λ p. p.id) plan_id db.plans) (
      or_option
        (elim tenant.plan_id [ none ↦ none | some id ↦ first (λ p. str_eq p.id id) db.plans ])
        (cheapest db.plans))

  unfoldable pub noted :
      (now : ℕ) (payment_id : String) → Payment → InvoiceStatus → Invoice → Invoice
  noted now payment_id payment status invoice = record invoice {
    status = status;
    payment_gateway_id = some payment_id;
    payment_method = some (
        "mercado_pago:"
        ++ (if str_eq (str_or_empty payment.payment_type) ""
            then "unknown"
            else str_or_empty payment.payment_type));
    paid_at = elim status [ paid ↦ some now | _ ↦ invoice.paid_at ];
  }

  -- From the tenant of the invoice on; `none` is the error that rolls everything back.
  unfoldable pub settle :
      (now : ℕ) → Option String → Invoice → InvoiceStatus → Tenant → Db → Option Db
  unfolding plan_for activate_subscription write_tenant
  settle now plan_id invoice paid tenant db = elim (plan_for plan_id tenant db) [
    | none ↦ none
    | some plan ↦
        some (activate_subscription now tenant plan invoice.period_start invoice.period_end db)
  ]
  settle now plan_id invoice pending tenant db = some db
  settle now plan_id invoice draft tenant db = some db
  settle now plan_id invoice failed tenant db = some (record db {
    tenants =
        write_tenant tenant.id (λ t. record t { subscription_status = some "past_due" }) db.tenants;
  })
  settle now plan_id invoice cancelled tenant db = some (record db {
    tenants =
        write_tenant tenant.id (λ t. record t { subscription_status = some "past_due" }) db.tenants;
  })

  -- `process_mercadopago_payment` from the provider's answer on. `none` is the exception, after which the
  -- tables are as they were.
  unfoldable pub process_mercadopago_payment :
      (now : ℕ) (payment_id : String) → Payment → Db → Option (Outcome × Db)
  unfolding row_of settle noted write_invoice
  process_mercadopago_payment now payment_id payment db =
      let refs = parse_external_reference payment.external_reference in
      let status = invoice_status_from_payment_status payment.status in
      elim (row_of (λ i. i.id) (reference_to "invoice" "invoice_id" refs) db.invoices) [
        | none ↦ some (invoice_not_found, db)
        | some invoice ↦
            let db' : Db = record db {
              invoices = write_invoice invoice.id (noted now payment_id payment status) db.invoices;
            } in
            elim (first (λ t. str_eq t.id invoice.tenant_id) db.tenants) [
              | none ↦ some (tenant_not_found, db')
              | some tenant ↦
                  elim (settle now (reference_to "plan" "plan_id" refs) invoice status tenant db') [
                    | none ↦ none
                    | some db'' ↦ some (handled invoice.id tenant.id status, db'')
                  ]
            ]
      ]
