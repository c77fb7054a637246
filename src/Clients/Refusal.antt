-- ===== src/Clients/Refusal.antt =====
-- When an action is done, what it then does, and that it otherwise changes nothing.
use new_backup_center.Base.{
  ◌≡◌, refl, inl, inr, Bool-cases, Bool, true, false, not, ◌&&◌, ◌||◌, Option, none, some, is_some,
  String, is_in, any, str_eq, if◌then◌else◌, arith,
}
use new_backup_center.Clients.{
  Client, Database, Request, Action, toggle, to_trash, restore, purge, Reply, not_allowed, invalid,
  missing, in_trash, is_protected, not_in_trash, failed, done, is_trashed, has_protection,
  with_changed, toggled, toggle_tenant_active, trashed, delete_tenant, restored, restore_tenant,
  purged, purge_tenant, is_super_admin, committed, perform, perform_on, find_client, handle,
}

unfoldable pub is_done : Reply → Bool
is_done done = true
is_done not_allowed = false
is_done invalid = false
is_done missing = false
is_done in_trash = false
is_done is_protected = false
is_done not_in_trash = false
is_done failed = false

-- An action may be done to a client: it is switched on and off and put into the trash outside the trash, it is
-- restored and purged in it, and a protected one neither goes into the trash nor is purged.
unfoldable pub may : Action → Client → Bool
may toggle c = not (is_some c.deleted_at)
may to_trash c =
    not (is_some c.deleted_at)
    && not c.protected_system_tenant
    && not (str_eq c.slug "ajust-consulting")
may restore c = is_some c.deleted_at
may purge c =
    is_some c.deleted_at && not c.protected_system_tenant && not (str_eq c.slug "ajust-consulting")

unfoldable pub may_on : Action → Option Client → Bool
may_on action none = false
may_on action (some c) = may action c

module _ (parse_uuid : String → Option String) where
  -- what an action does to a client where it is done
  unfoldable pub effect : Action → Request → Client → Database → Database
  effect toggle request c db = with_changed c toggled db
  effect to_trash request c db = with_changed c (trashed parse_uuid request) db
  effect restore request c db = with_changed c restored db
  effect purge request c db = purged c db

  unfoldable pub effect_on : Action → Request → Option Client → Database → Database
  effect_on action request none db = db
  effect_on action request (some c) db = effect action request c db

-- The reply is "done" exactly where the action may be done, and what is left follows from it.
abbrev IsExact : (may : Bool) (before after : Database) → Reply × Database → Type 0
IsExact may before after r = (is_done r.0 ≡ may) × (r.1 ≡ (if may then after else before))

protection :
    (c : Client)
    → has_protection c ≡ (c.protected_system_tenant || str_eq c.slug "ajust-consulting")
unfolding has_protection is_in any
protection c = ground arith

perform-IsExact :
    (parse_uuid : String → Option String) (action : Action) (request : Request) (c : Client)
    (db : Database)
    → IsExact
        (may action c)
        db
        (effect parse_uuid action request c db)
        (perform parse_uuid action request c db)
unfolding perform may effect is_done is_trashed toggle_tenant_active delete_tenant restore_tenant
    purge_tenant
perform-IsExact parse_uuid toggle request c db = elim (Bool-cases (is_some c.deleted_at)) [
  | inl e ↦ rw e (refl, refl)
  | inr e ↦ rw e (refl, refl)
]
perform-IsExact parse_uuid to_trash request c db = ground (arith, protection c)
perform-IsExact parse_uuid restore request c db = elim (Bool-cases (is_some c.deleted_at)) [
  | inl e ↦ rw e (refl, refl)
  | inr e ↦ rw e (refl, refl)
]
perform-IsExact parse_uuid purge request c db = ground (arith, protection c)

done-IsExact :
    (commits m : Bool) (before after effected : Database)
    → true ≡ m
    → after ≡ (if m then effected else before)
    → IsExact (m && commits) before effected (if commits then (done, after) else (failed, before))
unfolding is_done
done-IsExact true true before after effected h g = (refl, g)
done-IsExact false true before after effected h g = (refl, refl)
done-IsExact commits false before after effected h g = ground (arith, h)

refused-IsExact :
    (commits m : Bool) (before after effected : Database)
    → false ≡ m
    → after ≡ (if m then effected else before)
    → (false ≡ (m && commits)) × (after ≡ (if m && commits then effected else before))
refused-IsExact commits true before after effected h g = ground (arith, h)
refused-IsExact commits false before after effected h g = (refl, g)

committed-IsExact :
    (request : Request) (m : Bool) (before effected : Database) (r : Reply × Database)
    → IsExact m before effected r
    → IsExact (m && request.commits) before effected (committed request before r)
unfolding committed is_done
committed-IsExact request m before effected (done, after) h =
    done-IsExact request.commits m before after effected h.0 h.1
committed-IsExact request m before effected (not_allowed, after) h =
    refused-IsExact request.commits m before after effected h.0 h.1
committed-IsExact request m before effected (invalid, after) h =
    refused-IsExact request.commits m before after effected h.0 h.1
committed-IsExact request m before effected (missing, after) h =
    refused-IsExact request.commits m before after effected h.0 h.1
committed-IsExact request m before effected (in_trash, after) h =
    refused-IsExact request.commits m before after effected h.0 h.1
committed-IsExact request m before effected (is_protected, after) h =
    refused-IsExact request.commits m before after effected h.0 h.1
committed-IsExact request m before effected (not_in_trash, after) h =
    refused-IsExact request.commits m before after effected h.0 h.1
committed-IsExact request m before effected (failed, after) h =
    refused-IsExact request.commits m before after effected h.0 h.1

on-IsExact :
    (parse_uuid : String → Option String) (action : Action) (request : Request)
    (found : Option Client) (db : Database)
    → IsExact
        (may_on action found && request.commits)
        db
        (effect_on parse_uuid action request found db)
        (perform_on parse_uuid action request found db)
unfolding perform_on may_on effect_on is_done
on-IsExact parse_uuid action request none db = (refl, refl)
on-IsExact parse_uuid action request (some c) db =
    committed-IsExact request (may action c) db (effect parse_uuid action request c db)
      (perform parse_uuid action request c db) (perform-IsExact parse_uuid action request c db)

parsed-IsExact :
    (parse_uuid : String → Option String) (action : Action) (request : Request) (id : Option String)
    (db : Database)
    → let client = find_client parse_uuid id db in
      IsExact
        (may_on action client && request.commits)
        db
        (effect_on parse_uuid action request client db)
        (if is_some id then perform_on parse_uuid action request client db else (invalid, db))
unfolding find_client may_on effect_on is_done
parsed-IsExact parse_uuid action request none db = (refl, refl)
parsed-IsExact parse_uuid action request (some id) db =
    on-IsExact parse_uuid action request (find_client parse_uuid (some id) db) db

-- An action is answered by "done" exactly where a super administrator asks for it, its id is that of a client to
-- which it may be done, and the database commits: a client in the trash is neither switched nor put there
-- again, one that is not is neither restored nor purged, and a protected one is neither put there nor purged.
-- What is left is then the effect of the action, and otherwise the database as it was.
pub action_exact :
    (parse_uuid : String → Option String) (action : Action) (request : Request) (db : Database)
    → let client = find_client parse_uuid (parse_uuid request.tenant_id) db in
      let may_be_done =
        is_super_admin request.user_role && may_on action client && request.commits in
      (is_done (handle parse_uuid action request db).0 ≡ may_be_done)
      × ((handle parse_uuid action request db).1
          ≡ (if may_be_done then effect_on parse_uuid action request client db else db))
unfolding handle is_done
action_exact parse_uuid action request db = elim (Bool-cases (is_super_admin request.user_role)) [
  | inl e ↦ rw e (parsed-IsExact parse_uuid action request (parse_uuid request.tenant_id) db)
  | inr e ↦ rw e (refl, refl)
]
