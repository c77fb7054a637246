-- ===== src/Clients/RoundTrip.antt =====
-- A client that is put into the trash and taken out again is as it was.
use new_backup_center.Base.{
  ◌≡◌, refl, sym, ap, subst, Bool, true, false, not, ◌&&◌, ◌||◌, Option, none, some, is_some,
  String, [], ◌∷◌, first, is_in, normalize, str_eq, arith,
}
use new_backup_center.Clients.{
  Client, Database, Request, Action, to_trash, restore, Reply, done, is_trashed, has_protection,
  with_changed, trashed, delete_tenant, can_reactivate, restored, restore_tenant, is_super_admin,
  committed, perform, perform_on, find_client, handle,
}
use new_backup_center.Clients.Rows.{first-is, first-change, change-back}

-- A client that is not in the trash, and has none of its marks.
abbrev pub IsClean : Client → Type 0
IsClean c =
    (c.deleted_at ≡ none)
    × (c.deleted_by ≡ none)
    × (c.delete_reason ≡ none)
    × (c.deleted_was_active ≡ false)

-- A client that is active is neither blocked for its bills nor without a subscription.
unfoldable pub may_be_active : Client → Bool
unfolding normalize is_in
may_be_active c =
    not c.is_active
    || (not (is_some c.billing_blocked_at)
        && not (is_in (normalize c.subscription_status) ("pending_payment" ∷ "canceled" ∷ [])))

restored-trashed :
    (parse_uuid : String → Option String) (request : Request) (c : Client)
    → IsClean c
    → may_be_active c ≡ true
    → restored (trashed parse_uuid request c) ≡ c
unfolding restored trashed can_reactivate may_be_active
restored-trashed parse_uuid request c (at, by, reason, was) may =
    let active : can_reactivate (trashed parse_uuid request c) ≡ c.is_active =
      ground (arith, may) in
    rw (active, at, by, reason, was) refl

-- A request of a super administrator for the client `id`, which the database commits.
abbrev pub IsAllowed : (String → Option String) → String → Request → Type 0
IsAllowed parse_uuid id request =
    (is_super_admin request.user_role ≡ true)
    × (parse_uuid request.tenant_id ≡ some id)
    × (request.commits ≡ true)

handle-found :
    (parse_uuid : String → Option String) (action : Action) (request : Request) (id : String)
    (c : Client) (db after : Database)
    → IsAllowed parse_uuid id request
    → first (λ k. str_eq k.id id) db.clients ≡ some c
    → perform parse_uuid action request c db ≡ (done, after)
    → handle parse_uuid action request db ≡ (done, after)
unfolding handle find_client perform_on committed
handle-found parse_uuid action request id c db after (admin, parsed, commits) found performed =
    rw (admin, parsed, found, performed, commits) refl

delete-found :
    (parse_uuid : String → Option String) (request : Request) (c : Client) (db : Database)
    → has_protection c ≡ false
    → c.deleted_at ≡ none
    → perform parse_uuid to_trash request c db
      ≡ (done, with_changed c (trashed parse_uuid request) db)
unfolding perform delete_tenant is_trashed
delete-found parse_uuid request c db free there = rw (free, there) refl

restore-found :
    (parse_uuid : String → Option String) (deletion restoration : Request) (c : Client)
    (db : Database)
    → first (λ k. str_eq k.id c.id) db.clients ≡ some c
    → IsClean c
    → may_be_active c ≡ true
    → perform parse_uuid restore restoration
        (trashed parse_uuid deletion c)
        (with_changed c (trashed parse_uuid deletion) db)
      ≡ (done, db)
unfolding perform restore_tenant is_trashed trashed with_changed
restore-found parse_uuid deletion restoration c db found clean may =
    ap (λ rows. (done, record db { clients = rows }))
      (change-back c.id (trashed parse_uuid deletion) restored db.clients c found refl
        (restored-trashed parse_uuid deletion c clean may))

-- A client that is put into the trash and taken out again: every row is as it was, where the client was not
-- in the trash before, is not protected, and is not active against its bills.
pub restore_undoes_delete :
    (parse_uuid : String → Option String) (deletion restoration : Request) (id : String)
    (c : Client) (db : Database)
    → IsAllowed parse_uuid id deletion
    → IsAllowed parse_uuid id restoration
    → first (λ k. str_eq k.id id) db.clients ≡ some c
    → has_protection c ≡ false
    → IsClean c
    → may_be_active c ≡ true
    → handle parse_uuid restore restoration (handle parse_uuid to_trash deletion db).1 ≡ (done, db)
unfolding with_changed trashed
restore_undoes_delete parse_uuid deletion restoration id c db deletes restores found free clean
      may =
    let named : c.id ≡ id = first-is id db.clients c found in
    let gone = trashed parse_uuid deletion c in
    let after = with_changed c (trashed parse_uuid deletion) db in
    let there : handle parse_uuid to_trash deletion db ≡ (done, after) =
      handle-found parse_uuid to_trash deletion id c db after deletes found
        (delete-found parse_uuid deletion c db free clean.0) in
    let here : first (λ k. str_eq k.id c.id) db.clients ≡ some c =
      subst (λ i. first (λ k. str_eq k.id i) db.clients ≡ some c) (sym named) found in
    let found_gone : first (λ k. str_eq k.id id) after.clients ≡ some gone =
      subst (λ i. first (λ k. str_eq k.id i) after.clients ≡ some gone) named
        (first-change c.id (trashed parse_uuid deletion) db.clients c here refl) in
    subst (λ (r : Reply × Database). handle parse_uuid restore restoration r.1 ≡ (done, db))
      (sym there)
      (handle-found parse_uuid restore restoration id gone after db restores found_gone
        (restore-found parse_uuid deletion restoration c db here clean may))
