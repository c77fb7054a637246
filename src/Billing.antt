-- ===== src/Billing.antt =====
-- app/services/billing_policy_service.py and app/web/billing/controller.py: what a tenant owes, and
-- what the program does about it.
pub mod Payments
pub mod Policy
