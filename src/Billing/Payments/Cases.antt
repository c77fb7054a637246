-- ===== src/Billing/Payments/Cases.antt =====
-- The ways that a notification can go, and what settling an invoice does in each.
use new_backup_center.Base.{
  ℕ, ◌≡◌, ◌≢◌, refl, sym, ap, subst, or_else, ◌∙◌, ◌⊎◌, inl, inr, Option-cases, Option, some,
  String, map, first, select, length, All, str_eq, eq_iff, arith,
}
use new_backup_center.Models.{Tenant, Plan}
use new_backup_center.Billing.Payments.{
  Invoice, InvoiceStatus, draft, pending, paid, failed, cancelled, Db, Payment, Outcome, handled,
  invoice_not_found, tenant_not_found, is_open, is_open_of, activated, activate_subscription,
  write_invoice, settle, process_mercadopago_payment, invoice_status_from_payment_status, plan_for,
  row_of, noted, reference_to, parse_external_reference,
}
use new_backup_center.Billing.Payments.Rows.{
  none_open, others_open, past_due-admission, others-write, write-IsIn, admission_of, is_row_of,
  IsIn,
}

module _ (parse_uuid : String → Option String) (now : ℕ) where
  pub settle-unpaid :
      (plan_id : Option String) (invoice : Invoice) (status : InvoiceStatus) (tenant : Tenant)
      (db db' : Db)
      → status ≢ paid
      → settle parse_uuid now plan_id invoice status tenant db ≡ some db'
      → (map admission_of db'.tenants ≡ map admission_of db.tenants)
        × (db'.subscriptions ≡ db.subscriptions)
  unfolding settle
  settle-unpaid plan_id invoice status tenant db db' unpaid h =
      ground (arith, unpaid, past_due-admission tenant.id db.tenants)

  pub activate-one :
      (tenant : Tenant) (plan : Plan) (start end : ℕ) (db : Db)
      → length (
          select
            (is_open_of tenant.id)
            (activate_subscription now tenant plan start end db).subscriptions)
        ≡ 1
  unfolding activate_subscription select is_open_of is_open
  activate-one tenant plan start end db =
      rw ((eq_iff tenant.id tenant.id).1 refl, none_open now tenant.id db.subscriptions) refl

  pub settle-IsIn :
      (plan_id : Option String) (invoice : Invoice) (tenant : Tenant) (db db' : Db)
      → settle parse_uuid now plan_id invoice paid tenant db ≡ some db'
      → All IsIn (select (is_row_of tenant.id) db'.tenants)
  unfolding settle activate_subscription
  settle-IsIn plan_id invoice tenant db db' h =
      elim (Option-cases (plan_for parse_uuid plan_id tenant db)) [
        | inl p ↦ ground (arith, h, p)
        | inr (plan, p) ↦
            subst (λ tenants. All IsIn (select (is_row_of tenant.id) tenants))
              (ground (arith, h, p)) (write-IsIn tenant.id plan invoice.period_end db.tenants)
      ]

  pub settle-paid :
      (plan_id : Option String) (invoice : Invoice) (tenant : Tenant) (db db' : Db)
      → settle parse_uuid now plan_id invoice paid tenant db ≡ some db'
      → length (select (is_open_of tenant.id) db'.subscriptions) ≡ 1
  unfolding settle
  settle-paid plan_id invoice tenant db db' h =
      elim (Option-cases (plan_for parse_uuid plan_id tenant db)) [
        | inl p ↦ ground (arith, h, p)
        | inr (plan, p) ↦
            ground
              (arith, h, p, activate-one tenant plan invoice.period_start invoice.period_end db)
      ]

  -- the invoice that a payment speaks of
  unfoldable pub invoice_of : Payment → Db → Option Invoice
  invoice_of payment db =
      row_of parse_uuid (λ i. i.id)
        (reference_to "invoice" "invoice_id" (parse_external_reference payment.external_reference))
        db.invoices

  unfoldable pub noted_db : String → Payment → Invoice → Db → Db
  noted_db payment_id payment invoice db = record db {
    invoices =
        write_invoice invoice.id
          (noted parse_uuid now payment_id payment
            (invoice_status_from_payment_status payment.status))
          db.invoices;
  }

  unfoldable pub settled : String → Payment → Invoice → Tenant → Db → Option Db
  unfolding noted_db
  settled payment_id payment invoice tenant db =
      settle parse_uuid now
        (reference_to "plan" "plan_id" (parse_external_reference payment.external_reference))
        invoice (invoice_status_from_payment_status payment.status) tenant
        (noted_db payment_id payment invoice db)

  pub same_db :
      (payment_id : String) (payment : Payment) (db db' : Db) (outcome : Outcome)
      → process_mercadopago_payment parse_uuid now payment_id payment db ≡ some (outcome, db')
      → (invoice : Invoice) (tenant : Tenant) (after : Db) → invoice_of payment db ≡ some invoice
      → first (λ t. str_eq t.id invoice.tenant_id) db.tenants ≡ some tenant
      → settled payment_id payment invoice tenant db ≡ some after
      → (outcome ≡ handled invoice.id tenant.id (invoice_status_from_payment_status payment.status))
        × (after ≡ db')
  unfolding process_mercadopago_payment invoice_of settled noted_db
  same_db payment_id payment db db' outcome h invoice tenant after p q r =
      let answer : process_mercadopago_payment parse_uuid now payment_id payment db
          ≡ some (
            handled invoice.id tenant.id (invoice_status_from_payment_status payment.status),
            after,
          ) =
        ground (arith, p, q, r) in
      let k : some (outcome, db')
          ≡ some (
            handled invoice.id tenant.id (invoice_status_from_payment_status payment.status),
            after,
          ) =
        sym h ∙ answer in
      (
        ap (λ (o : Option (Outcome × Db)). (or_else o (outcome, db')).0) k,
        sym (ap (λ (o : Option (Outcome × Db)). (or_else o (outcome, db')).1) k),
      )

  pub process-cases :
      (payment_id : String) (payment : Payment) (db db' : Db) (outcome : Outcome)
      → process_mercadopago_payment parse_uuid now payment_id payment db ≡ some (outcome, db')
      → ((db'.tenants ≡ db.tenants)
          × (db'.subscriptions ≡ db.subscriptions)
          × ((outcome ≡ invoice_not_found) ⊎ (outcome ≡ tenant_not_found)))
        ⊎ ((invoice : Invoice) × (tenant : Tenant) × (settled payment_id payment invoice tenant db
              ≡ some db')
            × (outcome
                ≡ handled invoice.id tenant.id (invoice_status_from_payment_status payment.status)))
  unfolding process_mercadopago_payment invoice_of settled noted_db
  process-cases payment_id payment db db' outcome h = elim (Option-cases (invoice_of payment db)) [
    | inl p ↦ inl (ground (arith, h, p))
    | inr (invoice, p) ↦
        elim (Option-cases (first (λ t. str_eq t.id invoice.tenant_id) db.tenants)) [
          | inl q ↦ inl (ground (arith, h, p, q))
          | inr (tenant, q) ↦ elim (Option-cases (settled payment_id payment invoice tenant db)) [
            | inl r ↦ inl (ground (arith, h, p, q, r))
            | inr (after, r) ↦ inr (
              invoice,
              tenant,
              (r
                  ∙ ap some
                      (same_db payment_id payment db db' outcome h invoice tenant after p q r).1),
              (same_db payment_id payment db db' outcome h invoice tenant after p q r).0,
            )
          ]
        ]
  ]

  pub activate-others :
      (tenant : Tenant) (other : String) (plan : Plan) (start end : ℕ) (db : Db)
      → tenant.id ≢ other
      → (select (is_row_of other) (activate_subscription now tenant plan start end db).tenants
          ≡ select (is_row_of other) db.tenants)
        × (select
              (is_open_of other)
              (activate_subscription now tenant plan start end db).subscriptions
            ≡ select (is_open_of other) db.subscriptions)
  unfolding activate_subscription select is_open_of activated
  activate-others tenant other plan start end db h = (
    others-write tenant.id other (activated plan end) db.tenants h (λ t. refl),
    ground (arith, h, eq_iff tenant.id other, others_open now tenant.id other db.subscriptions h),
  )

  pub settle-others :
      (plan_id : Option String) (invoice : Invoice) (status : InvoiceStatus) (tenant : Tenant)
      (other : String) (db db' : Db)
      → tenant.id ≢ other
      → settle parse_uuid now plan_id invoice status tenant db ≡ some db'
      → (select (is_row_of other) db'.tenants ≡ select (is_row_of other) db.tenants)
        × (select (is_open_of other) db'.subscriptions ≡ select (is_open_of other) db.subscriptions)
  unfolding settle
  settle-others plan_id invoice draft tenant other db db' h s = ground (arith, s)
  settle-others plan_id invoice pending tenant other db db' h s = ground (arith, s)
  settle-others plan_id invoice failed tenant other db db' h s = ground (
    arith,
    s,
    others-write tenant.id other (λ t. record t { subscription_status = some "past_due" })
        db.tenants h (λ t. refl),
  )
  settle-others plan_id invoice cancelled tenant other db db' h s = ground (
    arith,
    s,
    others-write tenant.id other (λ t. record t { subscription_status = some "past_due" })
        db.tenants h (λ t. refl),
  )
  settle-others plan_id invoice paid tenant other db db' h s =
      elim (Option-cases (plan_for parse_uuid plan_id tenant db)) [
        | inl p ↦ ground (arith, s, p)
        | inr (plan, p) ↦ ground (
          arith,
          s,
          p,
          activate-others tenant other plan invoice.period_start invoice.period_end db h,
        )
      ]
