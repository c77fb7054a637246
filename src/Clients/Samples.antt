-- ===== src/Clients/Samples.antt =====
-- Two clients, one of them protected, and the theorems on clients at them.
use new_backup_center.Clients.RoundTrip.{may_be_active, restore_undoes_delete}
use new_backup_center.Base.{first, ◌≡◌, refl, true, false, Option, none, some, String, [], ◌∷◌, All}
use new_backup_center.Clients.{
  is_trashed, has_protection, delete_tenant, perform, committed, find_client, perform_on,
  is_super_admin, Client, Database, Request, toggle, to_trash, restore, purge, done, is_protected,
  handle, handle_all,
}
use new_backup_center.Clients.Dependencies.{Row, Tables}
use new_backup_center.Clients.Trash.{IsSound, trash-IsSound}
use new_backup_center.Clients.Refusal.{is_done, may, may_on, effect_on, action_exact}

abbrev bakery : Client
bakery = record {
  id = "bakery";
  slug = "bakery";
  protected_system_tenant = false;
  is_active = true;
  subscription_status = some "active";
  billing_blocked_at = none;
  deleted_at = none;
  deleted_by = none;
  delete_reason = none;
  deleted_was_active = false;
}

abbrev house : Client
house = record bakery { id = "house"; slug = "ajust-consulting" }

abbrev router : Row
router = record { id = "router"; tenant_id = some "bakery"; user_id = none; device_id = none }

abbrev baker : Row
baker = record { id = "baker"; tenant_id = some "bakery"; user_id = none; device_id = none }

abbrev nightly : Row
nightly = record {
  id = "nightly";
  tenant_id = none;
  user_id = some "baker";
  device_id = some "router";
}

abbrev tables : Tables
tables = record {
  users = baker ∷ [];
  devices = router ∷ [];
  activity_logs = nightly ∷ [];
  backups = nightly ∷ [];
  notifications = [];
  api_tokens = [];
  payment_methods = [];
  subscriptions = [];
  reports = [];
  schedules = nightly ∷ [];
  device_groups = [];
  invoices = [];
  device_subgroups = baker ∷ [];
  tenant_usage_metrics = baker ∷ [];
}

abbrev database : Database
database = record { clients = house ∷ bakery ∷ []; tables = tables }

abbrev request : Request
request = record {
  user_role = some "super_admin";
  user_id = "root";
  tenant_id = "bakery";
  delete_reason = " moved ";
  now = 7;
  commits = true;
}

abbrev every_text : String → Option String
every_text text = some text

protected_kept :
    (handle every_text to_trash (record request { tenant_id = "house" }) database).0 ≡ is_protected
unfolding handle is_super_admin perform_on find_client committed perform delete_tenant
    has_protection
protected_kept = refl

trash-IsSound_example :
    All IsSound
      (handle_all every_text
        ((to_trash, request) ∷ (toggle, request) ∷ (purge, request) ∷ [])
        database).clients
unfolding is_trashed
trash-IsSound_example =
    trash-IsSound every_text ((to_trash, request) ∷ (toggle, request) ∷ (purge, request) ∷ [])
      database (refl, (refl, tt))

action_exact_example :
    (is_done (handle every_text to_trash request database).0 ≡ true)
    × ((handle every_text to_trash request database).1
        ≡ effect_on every_text to_trash request (some bakery) database)
unfolding is_super_admin find_client may_on may effect_on
action_exact_example = action_exact every_text to_trash request database

restore_undoes_delete_example :
    handle every_text restore request (handle every_text to_trash request database).1
    ≡ (done, database)
unfolding is_super_admin first has_protection may_be_active
restore_undoes_delete_example =
    restore_undoes_delete every_text request request "bakery" bakery database (refl, refl, refl)
      (refl, refl, refl) refl refl (refl, refl, refl, refl) refl
