-- ===== src/Clients.antt =====
-- app/web/superadmin/tenants.py: a client of the platform, which an administrator switches on and off, puts
-- into the trash, takes out of it, or purges from there with all that depends on it. Ids are the keys of
-- their tables.
pub mod Dependencies
pub mod Rows
pub mod Trash
pub mod Refusal
pub mod RoundTrip
mod Covered
pub mod Purge
mod Samples
use new_backup_center.Base.{
  ℕ, Bool, true, false, not, ◌&&◌, ◌||◌, Option, none, some, is_some, String, List, [], ◌∷◌, map,
  select, first, strip, normalize, is_in, str_eq, if◌then◌else◌,
}
use new_backup_center.Clients.Dependencies.{Tables, delete_client_dependencies}

-- What these actions read and write of a row of `tenants`.
pub record Client : Type 0 where
  pub id : String
  pub slug : String
  pub protected_system_tenant : Bool
  pub is_active : Bool
  pub subscription_status : Option String
  pub billing_blocked_at : Option ℕ
  pub deleted_at : Option ℕ
  pub deleted_by : Option String
  pub delete_reason : Option String
  pub deleted_was_active : Bool

pub record Database : Type 0 where
  pub clients : List Client
  pub tables : Tables

-- `commits` is false where the database fails, as where a constraint refuses a deletion, and the request is rolled
-- back.
pub record Request : Type 0 where
  pub user_role : Option String
  pub user_id : String
  pub tenant_id : String
  pub delete_reason : String
  pub now : ℕ
  pub commits : Bool

pub data Action : Type 0 where
  toggle to_trash restore purge : Action

pub data Reply : Type 0 where
  not_allowed invalid missing in_trash is_protected not_in_trash failed done : Reply

unfoldable pub is_trashed : Client → Bool
is_trashed c = is_some c.deleted_at

unfoldable pub has_protection : Client → Bool
unfolding is_in
has_protection c = c.protected_system_tenant || is_in c.slug ("ajust-consulting" ∷ [])

-- The row that `.first()` gave is changed.
unfoldable pub change : (id : String) → (Client → Client) → List Client → List Client
change id f [] = []
change id f (c ∷ clients) =
    let rest = change id f clients in if str_eq c.id id then f c ∷ clients else c ∷ rest

unfoldable pub with_changed : Client → (Client → Client) → Database → Database
with_changed c f db = record db { clients = change c.id f db.clients }

unfoldable pub toggled : Client → Client
toggled c = record c { is_active = not c.is_active }

unfoldable pub toggle_tenant_active : Client → Database → Reply × Database
toggle_tenant_active c db =
    if is_trashed c then (in_trash, db) else (done, with_changed c toggled db)

-- `uuid.UUID(text)`, with `none` where it raises
module _ (parse_uuid : String → Option String) where
  unfoldable pub trashed : Request → Client → Client
  unfolding strip
  trashed request c =
      let reason = strip request.delete_reason in
      record c {
        deleted_was_active = c.is_active;
        is_active = false;
        deleted_at = some request.now;
        deleted_by = parse_uuid request.user_id;
        delete_reason = if str_eq reason "" then none else some reason;
      }

  unfoldable pub delete_tenant : Request → Client → Database → Reply × Database
  delete_tenant request c db =
      if has_protection c
      then (is_protected, db)
      else if is_trashed c
      then (in_trash, db)
      else (done, with_changed c (trashed request) db)

unfoldable pub can_reactivate : Client → Bool
unfolding normalize is_in
can_reactivate c =
    c.deleted_was_active
    && not (is_some c.billing_blocked_at)
    && not (is_in (normalize c.subscription_status) ("pending_payment" ∷ "canceled" ∷ []))

unfoldable pub restored : Client → Client
restored c = record c {
  is_active = can_reactivate c;
  deleted_at = none;
  deleted_by = none;
  delete_reason = none;
  deleted_was_active = false;
}

unfoldable pub restore_tenant : Client → Database → Reply × Database
restore_tenant c db =
    if is_trashed c then (done, with_changed c restored db) else (not_in_trash, db)

unfoldable pub purged : Client → Database → Database
unfolding select
purged c db = record {
  clients = select (λ other. not (str_eq other.id c.id)) db.clients;
  tables = delete_client_dependencies c.id db.tables;
}

unfoldable pub purge_tenant : Client → Database → Reply × Database
purge_tenant c db =
    if has_protection c
    then (is_protected, db)
    else if is_trashed c
    then (done, purged c db)
    else (not_in_trash, db)

unfoldable pub is_super_admin : Option String → Bool
is_super_admin none = false
is_super_admin (some role) = str_eq role "super_admin"

-- A handler that is done commits, and rolls back where the database fails; one that refuses returns as it is.
unfoldable pub committed : Request → Database → Reply × Database → Reply × Database
committed request db (done, after) = if request.commits then (done, after) else (failed, db)
committed request db (answer, after) = (answer, after)

module _ (parse_uuid : String → Option String) where
  unfoldable pub perform : Action → Request → Client → Database → Reply × Database
  perform toggle request c db = toggle_tenant_active c db
  perform to_trash request c db = delete_tenant parse_uuid request c db
  perform restore request c db = restore_tenant c db
  perform purge request c db = purge_tenant c db

  unfoldable pub perform_on : Action → Request → Option Client → Database → Reply × Database
  perform_on action request none db = (missing, db)
  perform_on action request (some c) db = committed request db (perform action request c db)

  unfoldable pub find_client : Option String → Database → Option Client
  unfolding first
  find_client none db = none
  find_client (some id) db = first (λ c. str_eq c.id id) db.clients

  -- `check_superadmin`, then the route
  unfoldable pub handle : Action → Request → Database → Reply × Database
  handle action request db =
      let id = parse_uuid request.tenant_id in
      let answered = perform_on action request (find_client id db) db in
      if not (is_super_admin request.user_role)
      then (not_allowed, db)
      else if is_some id
      then answered
      else (invalid, db)

  unfoldable pub handle_all : List (Action × Request) → Database → Database
  handle_all [] db = db
  handle_all ((action, request) ∷ requests) db = handle_all requests (handle action request db).1
