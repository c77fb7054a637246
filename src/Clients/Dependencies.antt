-- ===== src/Clients/Dependencies.antt =====
-- app/web/superadmin/tenants.py: `_delete_client_dependencies`, which takes out of the tables what belongs to
-- a client, and makes the rest of them forget it.
use new_backup_center.Base.{
  Bool, false, not, Option, none, some, String, List, [], ◌∷◌, map, select, is_in, if◌then◌else◌,
}

-- A row of any of the tables, with its columns that refer to a tenant, a user or a device.
pub record Row : Type 0 where
  pub id : String
  pub tenant_id : Option String
  pub user_id : Option String
  pub device_id : Option String

-- The user of a backup is the one who triggered it. The rows of `device_subgroups` and `tenant_usage_metrics`
-- carry a tenant too, and the purge leaves them.
pub record Tables : Type 0 where
  pub users : List Row
  pub devices : List Row
  pub activity_logs : List Row
  pub backups : List Row
  pub notifications : List Row
  pub api_tokens : List Row
  pub payment_methods : List Row
  pub subscriptions : List Row
  pub reports : List Row
  pub schedules : List Row
  pub device_groups : List Row
  pub device_subgroups : List Row
  pub invoices : List Row
  pub tenant_usage_metrics : List Row

unfoldable pub is_one_of : Option String → List String → Bool
unfolding is_in
is_one_of none ids = false
is_one_of (some id) ids = is_in id ids

unfoldable pub is_of : (tenant_id : String) → Row → Bool
unfolding is_one_of
is_of tenant_id row = is_one_of row.tenant_id (tenant_id ∷ [])

unfoldable pub is_by : (user_ids : List String) → Row → Bool
unfolding is_one_of
is_by user_ids row = is_one_of row.user_id user_ids

unfoldable pub is_on : (device_ids : List String) → Row → Bool
unfolding is_one_of
is_on device_ids row = is_one_of row.device_id device_ids

-- `.filter(test).delete()`
unfoldable pub without : (Row → Bool) → List Row → List Row
unfolding select
without test rows = select (λ row. not (test row)) rows

unfoldable pub forget_user : (user_ids : List String) → List Row → List Row
unfolding is_by
forget_user user_ids [] = []
forget_user user_ids (row ∷ rows) =
    (if is_by user_ids row then record row { user_id = none } else row) ∷ forget_user user_ids rows

unfoldable pub forget_tenant : (tenant_id : String) → List Row → List Row
unfolding is_of
forget_tenant tenant_id [] = []
forget_tenant tenant_id (row ∷ rows) =
    (if is_of tenant_id row then record row { tenant_id = none } else row)
    ∷ forget_tenant tenant_id rows

unfoldable pub ids_of : (tenant_id : String) → List Row → List String
unfolding select is_of
ids_of tenant_id rows = map (λ row. row.id) (select (is_of tenant_id) rows)

unfoldable pub delete_client_dependencies : (tenant_id : String) → Tables → Tables
unfolding without is_of is_by is_on is_in
delete_client_dependencies tenant_id db =
    let user_ids = ids_of tenant_id db.users in
    let device_ids = ids_of tenant_id db.devices in
    record {
      users = without (is_of tenant_id) db.users;
      devices = without (λ row. is_in row.id device_ids) db.devices;
      activity_logs = forget_tenant tenant_id (forget_user user_ids db.activity_logs);
      backups = without (is_on device_ids) (forget_user user_ids db.backups);
      notifications = without (is_by user_ids) db.notifications;
      api_tokens = without (is_of tenant_id) (without (is_by user_ids) db.api_tokens);
      payment_methods = without (is_of tenant_id) db.payment_methods;
      subscriptions = without (is_of tenant_id) db.subscriptions;
      reports = without (is_of tenant_id) db.reports;
      schedules = without (is_on device_ids) db.schedules;
      device_groups = without (is_of tenant_id) db.device_groups;
      invoices = without (is_of tenant_id) db.invoices;
      device_subgroups = db.device_subgroups;
      tenant_usage_metrics = db.tenant_usage_metrics;
    }
