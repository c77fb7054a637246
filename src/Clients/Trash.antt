-- ===== src/Clients/Trash.antt =====
-- The trash: who can be in it, what an action that is refused leaves, and the way there and back.
use new_backup_center.Base.{
  ◌≡◌, refl, sym, subst, inl, inr, Bool-cases, false, not, ◌&&◌, ◌||◌, Option, none, some, is_some,
  String, List, [], ◌∷◌, All, first, str_eq, if◌then◌else◌, if_rule, arith,
}
use new_backup_center.Clients.{
  Client, Database, Request, Action, toggle, to_trash, restore, purge, Reply, not_allowed, invalid,
  missing, in_trash, is_protected, not_in_trash, failed, done, is_trashed, has_protection,
  with_changed, toggled, toggle_tenant_active, trashed, delete_tenant, restored, restore_tenant,
  purged, purge_tenant, is_super_admin, committed, perform, perform_on, find_client, handle,
  handle_all,
}
use new_backup_center.Clients.Rows.{first-is, change-All, select-All}

-- A client in the trash is not active and not protected.
abbrev pub IsSound : Client → Type 0
IsSound c = (is_trashed c && (c.is_active || has_protection c)) ≡ false

toggled-IsSound : (c : Client) → is_trashed c ≡ false → IsSound (toggled c)
unfolding toggled is_trashed
toggled-IsSound c e = ground (arith, e)

trashed-IsSound :
    (parse_uuid : String → Option String) (request : Request) (c : Client)
    → has_protection c ≡ false
    → IsSound (trashed parse_uuid request c)
unfolding trashed is_trashed has_protection
trashed-IsSound parse_uuid request c free = free

restored-IsSound : (c : Client) → IsSound (restored c)
unfolding restored is_trashed
restored-IsSound c = refl

module _ (parse_uuid : String → Option String) (request : Request) (c : Client)
    (db : Database) where
  -- The client is the row that was found, and every row is sound.
  abbrev IsFound : Type 0
  IsFound = All IsSound db.clients × (first (λ k. str_eq k.id c.id) db.clients ≡ some c)

  changed-IsSound :
      (f : Client → Client) → IsFound → IsSound (f c) → All IsSound (with_changed c f db).clients
  unfolding with_changed
  changed-IsSound f found h = change-All IsSound c.id f db.clients c found.0 found.1 h

  toggle-IsSound : IsFound → All IsSound (toggle_tenant_active c db).1.clients
  unfolding toggle_tenant_active toggled
  toggle-IsSound found = elim (Bool-cases (is_trashed c)) [
    | inl e ↦ rw e found.0
    | inr e ↦ rw e (changed-IsSound toggled found (toggled-IsSound c e))
  ]

  delete-IsSound : IsFound → All IsSound (delete_tenant parse_uuid request c db).1.clients
  unfolding delete_tenant
  delete-IsSound found = elim (Bool-cases (has_protection c)) [
    | inl e ↦ rw e found.0
    | inr free ↦ elim (Bool-cases (is_trashed c)) [
      | inl e ↦ rw (free, e) found.0
      | inr e ↦
          rw (free, e)
            (changed-IsSound (trashed parse_uuid request) found
              (trashed-IsSound parse_uuid request c free))
    ]
  ]

  restore-IsSound : IsFound → All IsSound (restore_tenant c db).1.clients
  unfolding restore_tenant
  restore-IsSound found = elim (Bool-cases (is_trashed c)) [
    | inl e ↦ rw e (changed-IsSound restored found (restored-IsSound c))
    | inr e ↦ rw e found.0
  ]

  purge-IsSound : IsFound → All IsSound (purge_tenant c db).1.clients
  unfolding purge_tenant purged
  purge-IsSound found = elim (Bool-cases (has_protection c)) [
    | inl e ↦ rw e found.0
    | inr free ↦ elim (Bool-cases (is_trashed c)) [
      | inl e ↦
          rw (free, e) (select-All IsSound (λ other. not (str_eq other.id c.id)) db.clients found.0)
      | inr e ↦ rw (free, e) found.0
    ]
  ]

  perform-IsSound :
      (action : Action) → IsFound → All IsSound (perform parse_uuid action request c db).1.clients
  unfolding perform
  perform-IsSound toggle found = toggle-IsSound found
  perform-IsSound to_trash found = delete-IsSound found
  perform-IsSound restore found = restore-IsSound found
  perform-IsSound purge found = purge-IsSound found

committed-IsSound :
    (request : Request) (db : Database) (r : Reply × Database)
    → All IsSound db.clients
    → All IsSound r.1.clients
    → All IsSound (committed request db r).1.clients
unfolding committed
committed-IsSound request db (done, after) h g = ground (arith, h, g)
committed-IsSound request db (not_allowed, after) h g = g
committed-IsSound request db (invalid, after) h g = g
committed-IsSound request db (missing, after) h g = g
committed-IsSound request db (in_trash, after) h g = g
committed-IsSound request db (is_protected, after) h g = g
committed-IsSound request db (not_in_trash, after) h g = g
committed-IsSound request db (failed, after) h g = g

module _ (parse_uuid : String → Option String) where
  on-IsSound :
      (action : Action) (request : Request) (found : Option Client) (db : Database)
      → All IsSound db.clients
      → ((c : Client) → found ≡ some c → first (λ k. str_eq k.id c.id) db.clients ≡ some c)
      → All IsSound (perform_on parse_uuid action request found db).1.clients
  unfolding perform_on
  on-IsSound action request none db sound here = sound
  on-IsSound action request (some c) db sound here =
      committed-IsSound request db (perform parse_uuid action request c db) sound
        (perform-IsSound parse_uuid request c db action (sound, here c refl))

  find-first :
      (id : Option String) (db : Database) (c : Client)
      → find_client parse_uuid id db ≡ some c
      → first (λ k. str_eq k.id c.id) db.clients ≡ some c
  unfolding find_client
  find-first none db c e = ground (arith, e)
  find-first (some id) db c e =
      subst (λ i. first (λ k. str_eq k.id i) db.clients ≡ some c) (sym (first-is id db.clients c e))
        e

  handle-IsSound :
      (action : Action) (request : Request) (db : Database)
      → All IsSound db.clients
      → All IsSound (handle parse_uuid action request db).1.clients
  unfolding handle
  handle-IsSound action request db sound =
      let id = parse_uuid request.tenant_id in
      let answered = perform_on parse_uuid action request (find_client parse_uuid id db) db in
      let rest =
        if_rule (λ (r : Reply × Database). All IsSound r.1.clients) (is_some id) answered
          (invalid, db)
          (on-IsSound action request (find_client parse_uuid id db) db sound (find-first id db))
          sound in
      if_rule (λ (r : Reply × Database). All IsSound r.1.clients)
        (not (is_super_admin request.user_role)) (not_allowed, db)
        (if is_some id then answered else (invalid, db)) sound rest

  -- Whatever the administrators do, one after the other: a client in the trash is never active, and a
  -- protected one is never in it, if this holds at the start.
  pub trash-IsSound :
      (requests : List (Action × Request)) (db : Database)
      → All IsSound db.clients
      → All IsSound (handle_all parse_uuid requests db).clients
  unfolding handle_all
  trash-IsSound [] db sound = sound
  trash-IsSound ((action, request) ∷ requests) db sound =
      trash-IsSound requests (handle parse_uuid action request db).1
        (handle-IsSound action request db sound)
