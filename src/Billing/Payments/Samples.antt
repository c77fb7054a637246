-- ===== src/Billing/Payments/Samples.antt =====
-- An unpaid invoice of a blocked tenant, and the theorems on notifications at it.
use new_backup_center.Base.Dict.{put}
use new_backup_center.Base.{
  ◌≡◌, ◌≢◌, refl, true, false, Option, none, some, or_else, String, [], ◌∷◌, map, select, length,
  All, eq_iff, arith, split_once, first,
}
use new_backup_center.Models.{Tenant}
use new_backup_center.Billing.Policy.Samples.{basic, due_on}
use new_backup_center.Billing.Payments.{
  Invoice, InvoiceStatus, pending, paid, failed, Subscription, past_due, trial, Db, Payment,
  handled, invoice_not_found, is_open_of, process_mercadopago_payment,
  invoice_status_from_payment_status, new_external_reference, parse_external_reference,
  reference_to,
}
use new_backup_center.Billing.Payments.Rows.{admission_of, is_row_of, IsIn}
use new_backup_center.Billing.Payments.Access.{
  unpaid_keeps_access, paid_access, paid_one_subscription, others_untouched,
}

abbrev identifier : String → Option String
identifier text = some text

abbrev invoice : Invoice
invoice = record {
  id = "i1";
  tenant_id = "t1";
  status = pending;
  period_start = 100;
  period_end = 200;
  paid_at = none;
  payment_method = none;
  payment_gateway_id = none;
}

abbrev old : Subscription
old = record {
  tenant_id = "t1";
  plan_id = "p1";
  status = past_due;
  current_period_start = 0;
  current_period_end = 100;
  cancel_at_period_end = true;
  canceled_at = none;
}

abbrev blocked : Tenant
blocked = record (due_on 0) {
  is_active = false;
  billing_blocked_at = some 90;
  subscription_status = some "canceled";
}

abbrev before : Db
before = record {
  invoices = invoice ∷ [];
  tenants = blocked ∷ record (due_on 5) { id = "t2" } ∷ [];
  plans = basic ∷ [];
  subscriptions = old ∷ record old { status = trial } ∷ record old { tenant_id = "t2" } ∷ [];
}

abbrev says : String → Payment
says status = record {
  status = some status;
  external_reference = some (new_external_reference "t1" "p1" "i1");
  payment_type = some "pix";
}

reference_runs :
    parse_external_reference (some (new_external_reference "t1" "p1" "i1"))
    ≡ ("tenant", "t1") ∷ ("plan", "p1") ∷ ("invoice", "i1") ∷ []
unfolding parse_external_reference new_external_reference split_once put
reference_runs = refl

-- the tables after a notification
abbrev after : String → Db
after status =
    (or_else (process_mercadopago_payment identifier 150 "77" (says status) before)
      (invoice_not_found, before)).1

refused_is_failed : ◌≢◌ {A = InvoiceStatus} failed paid
refused_is_failed = ground arith

unpaid_keeps_access_example :
    (map admission_of (after "rejected").tenants ≡ map admission_of before.tenants)
    × ((after "rejected").subscriptions ≡ before.subscriptions)
unfolding invoice_status_from_payment_status process_mercadopago_payment reference_to
    parse_external_reference new_external_reference split_once put first
unpaid_keeps_access_example =
    unpaid_keeps_access identifier 150 "77" (says "rejected") before (after "rejected")
      (handled "i1" "t1" failed) refused_is_failed refl

paid_access_example : All IsIn (select (is_row_of "t1") (after "approved").tenants)
unfolding process_mercadopago_payment reference_to parse_external_reference new_external_reference
    split_once put first invoice_status_from_payment_status
paid_access_example =
    paid_access identifier 150 "77" (says "approved") before (after "approved") "i1" "t1" refl

paid_one_subscription_example :
    length (select (is_open_of "t1") (after "approved").subscriptions) ≡ 1
unfolding process_mercadopago_payment reference_to parse_external_reference new_external_reference
    split_once put first invoice_status_from_payment_status
paid_one_subscription_example =
    paid_one_subscription identifier 150 "77" (says "approved") before (after "approved") "i1" "t1"
      refl

tenants_differ : ◌≢◌ {A = String} "t1" "t2"
tenants_differ = ground (arith, eq_iff "t1" "t2")

others_untouched_example :
    (select (is_row_of "t2") (after "approved").tenants ≡ select (is_row_of "t2") before.tenants)
    × (select (is_open_of "t2") (after "approved").subscriptions
        ≡ select (is_open_of "t2") before.subscriptions)
unfolding process_mercadopago_payment reference_to parse_external_reference new_external_reference
    split_once put first invoice_status_from_payment_status
others_untouched_example =
    others_untouched identifier 150 "77" (says "approved") before (after "approved") "i1" "t1" "t2"
      paid refl tenants_differ
