-- ===== src/Plans.antt =====
-- app/services/tenant_access_service.py and app/services/plan_limits_service.py: what a plan allows.
pub mod Tables
pub mod Access
pub mod Limits
pub mod Selection
