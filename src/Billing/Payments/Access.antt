-- ===== src/Billing/Payments/Access.antt =====
-- Who has access after a notification, and which subscriptions are open.
use new_backup_center.Base.{
  ℕ, ◌≡◌, ◌≢◌, ap, subst, inl, inr, Option, some, String, map, select, length, All, arith,
}
use new_backup_center.Billing.Payments.{
  InvoiceStatus, paid, Db, Payment, Outcome, handled, is_open_of, settle,
  process_mercadopago_payment, invoice_status_from_payment_status, reference_to,
  parse_external_reference,
}
use new_backup_center.Billing.Payments.Rows.{admission_of, is_row_of, IsIn}
use new_backup_center.Billing.Payments.Cases.{
  noted_db, settled, process-cases, settle-unpaid, settle-paid, settle-IsIn, settle-others,
}

module _ (parse_uuid : String → Option String) (now : ℕ) where
  -- A notification that does not say "approved" lets nobody in and nobody out: every tenant keeps its flag,
  -- its plan, its period and its stamp, and no subscription changes.
  pub unpaid_keeps_access :
      (payment_id : String) (payment : Payment) (db db' : Db) (outcome : Outcome)
      → invoice_status_from_payment_status payment.status ≢ paid
      → process_mercadopago_payment parse_uuid now payment_id payment db ≡ some (outcome, db')
      → (map admission_of db'.tenants ≡ map admission_of db.tenants)
        × (db'.subscriptions ≡ db.subscriptions)
  unfolding settled noted_db
  unpaid_keeps_access payment_id payment db db' outcome unpaid h =
      elim (process-cases parse_uuid now payment_id payment db db' outcome h) [
        | inl same ↦ (ap (map admission_of) same.0, same.1)
        | inr (invoice, tenant, after, said) ↦
            settle-unpaid parse_uuid now
              (reference_to "plan" "plan_id" (parse_external_reference payment.external_reference))
              invoice (invoice_status_from_payment_status payment.status) tenant
              (noted_db parse_uuid now payment_id payment invoice db) db' unpaid after
      ]

  -- A notification that says "approved" and is handled lets its tenant in: its row is active, without the
  -- stamp of a block, and its subscription's status is "active".
  pub paid_access :
      (payment_id : String) (payment : Payment) (db db' : Db) (invoice_id tenant_id : String)
      → process_mercadopago_payment parse_uuid now payment_id payment db
        ≡ some (handled invoice_id tenant_id paid, db')
      → All IsIn (select (is_row_of tenant_id) db'.tenants)
  unfolding settled noted_db
  paid_access payment_id payment db db' invoice_id tenant_id h =
      elim (process-cases parse_uuid now payment_id payment db db'
        (handled invoice_id tenant_id paid) h) [
          | inl (_, _, unhandled) ↦ ground (arith, unhandled)
          | inr (invoice, tenant, after, said) ↦
              let status : invoice_status_from_payment_status payment.status ≡ paid =
                ground (arith, said) in
              let same : tenant.id ≡ tenant_id = ground (arith, said) in
              subst (λ id. All IsIn (select (is_row_of id) db'.tenants)) same
                (settle-IsIn parse_uuid now
                  (reference_to "plan" "plan_id"
                    (parse_external_reference payment.external_reference))
                  invoice tenant (noted_db parse_uuid now payment_id payment invoice db) db'
                  (subst
                    (λ s.
                      settle parse_uuid now
                        (reference_to "plan" "plan_id"
                          (parse_external_reference payment.external_reference))
                        invoice s tenant (noted_db parse_uuid now payment_id payment invoice db)
                      ≡ some db')
                    status after))
        ]

  -- A notification that says "approved" and is handled leaves its tenant with exactly one open subscription,
  -- however many were open before and however often the same notification comes.
  pub paid_one_subscription :
      (payment_id : String) (payment : Payment) (db db' : Db) (invoice_id tenant_id : String)
      → process_mercadopago_payment parse_uuid now payment_id payment db
        ≡ some (handled invoice_id tenant_id paid, db')
      → length (select (is_open_of tenant_id) db'.subscriptions) ≡ 1
  unfolding settled noted_db
  paid_one_subscription payment_id payment db db' invoice_id tenant_id h =
      elim (process-cases parse_uuid now payment_id payment db db'
        (handled invoice_id tenant_id paid) h) [
          | inl (_, _, unhandled) ↦ ground (arith, unhandled)
          | inr (invoice, tenant, after, said) ↦
              let status : invoice_status_from_payment_status payment.status ≡ paid =
                ground (arith, said) in
              let same : tenant.id ≡ tenant_id = ground (arith, said) in
              subst (λ id. length (select (is_open_of id) db'.subscriptions) ≡ 1) same
                (settle-paid parse_uuid now
                  (reference_to "plan" "plan_id"
                    (parse_external_reference payment.external_reference))
                  invoice tenant (noted_db parse_uuid now payment_id payment invoice db) db'
                  (subst
                    (λ s.
                      settle parse_uuid now
                        (reference_to "plan" "plan_id"
                          (parse_external_reference payment.external_reference))
                        invoice s tenant (noted_db parse_uuid now payment_id payment invoice db)
                      ≡ some db')
                    status after))
        ]

  -- A notification that is handled touches no tenant but the one that its answer names: the row of another
  -- tenant stays as it is, and so do its open subscriptions.
  pub others_untouched :
      (payment_id : String) (payment : Payment) (db db' : Db) (invoice_id tenant_id other : String)
      (status : InvoiceStatus)
      → process_mercadopago_payment parse_uuid now payment_id payment db
        ≡ some (handled invoice_id tenant_id status, db')
      → tenant_id ≢ other
      → (select (is_row_of other) db'.tenants ≡ select (is_row_of other) db.tenants)
        × (select (is_open_of other) db'.subscriptions ≡ select (is_open_of other) db.subscriptions)
  unfolding settled noted_db
  others_untouched payment_id payment db db' invoice_id tenant_id other status h different =
      elim (process-cases parse_uuid now payment_id payment db db'
        (handled invoice_id tenant_id status) h) [
          | inl (_, _, unhandled) ↦ ground (arith, unhandled)
          | inr (invoice, tenant, after, said) ↦
              settle-others parse_uuid now
                (reference_to "plan" "plan_id"
                  (parse_external_reference payment.external_reference))
                invoice (invoice_status_from_payment_status payment.status) tenant other
                (noted_db parse_uuid now payment_id payment invoice db) db'
                (ground (arith, said, different)) after
        ]
