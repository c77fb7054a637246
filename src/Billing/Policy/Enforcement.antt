-- ===== src/Billing/Policy/Enforcement.antt =====
-- What the enforcement job of billing_policy_service.py makes of the table of tenants.
use new_backup_center.Base.{
  ℕ, ◌+◌, ◌≡◌, refl, ap, Bool, true, false, ◌&&◌, none, some, List, [], ◌∷◌, arith, map, length,
  select, is_some, All, if◌then◌else◌, Bool-cases, inl, inr, normalize, is_in,
}
use new_backup_center.Models.{Clock, Tenant}
use new_backup_center.Billing.Policy.{
  Counts, evaluate_at, enforce_tenant, enforce_rows, is_subject, resolve_due_at, block_tenant,
  mark_past_due, may_mark, release_tenant,
}

module _ (clock : Clock) (now : ℕ) where
  -- What the job must leave behind in a row that it looks at.
  pub record IsEnforced (t : Tenant) : Type 0 where
    pub blocked : (evaluate_at clock now t).should_block ≡ true → t.is_active ≡ false
    pub canceled :
        (evaluate_at clock now t).should_block ≡ true → t.subscription_status ≡ some "canceled"
    pub stamped :
        (evaluate_at clock now t).should_block ≡ true → is_some t.billing_blocked_at ≡ true
    pub released :
        (evaluate_at clock now t).overdue ≡ false → t.is_active ≡ true → t.billing_blocked_at ≡ none

  -- The row that the job leaves, without the counters.
  abbrev enforced : Tenant → Tenant
  enforced t =
      if is_subject t
      then (enforce_tenant clock now t
          (record { processed = 0; marked_past_due = 0; blocked = 0; reactivated = 0 })).0
      else t

  -- No field that the evaluation reads is written.
  evaluate-enforce :
      (t : Tenant) (c : Counts)
      → evaluate_at clock now (enforce_tenant clock now t c).0 ≡ evaluate_at clock now t
  unfolding enforce_tenant block_tenant mark_past_due release_tenant evaluate_at resolve_due_at
  evaluate-enforce t c = ground arith

  enforce-IsEnforced : (t : Tenant) (c : Counts) → IsEnforced (enforce_tenant clock now t c).0
  unfolding enforce_tenant block_tenant mark_past_due release_tenant
  enforce-IsEnforced t c = record {
    blocked = ground (arith, evaluate-enforce t c);
    canceled = ground (arith, evaluate-enforce t c);
    stamped = ground (arith, evaluate-enforce t c);
    released = ground (arith, evaluate-enforce t c);
  }

  -- The row does not depend on the counters.
  enforce_counts_free :
      (t : Tenant) (c d : Counts)
      → (enforce_tenant clock now t c).0 ≡ (enforce_tenant clock now t d).0
  unfolding enforce_tenant block_tenant mark_past_due release_tenant
  enforce_counts_free t c d = ground arith

  enforce_rows-map :
      (rows : List Tenant) (c : Counts) → (enforce_rows clock now rows c).0 ≡ map enforced rows
  unfolding enforce_rows
  enforce_rows-map [] c = refl
  enforce_rows-map (t ∷ rows) c = elim (Bool-cases (is_subject t)) [
    | inl subject ↦
        let c' = record c { processed = c.processed + 1 } in
        rw (subject, enforce_rows-map rows (enforce_tenant clock now t c').1)
          (ap (λ r. r ∷ map enforced rows) (enforce_counts_free t c' _))
    | inr exempt ↦ rw (exempt, enforce_rows-map rows c)
  ]

  abbrev Enforced : Tenant → Type 0
  Enforced t = is_subject t ≡ true → IsEnforced t

  enforced-Enforced : (t : Tenant) → Enforced (enforced t)
  enforced-Enforced t = elim (Bool-cases (is_subject t)) [
    | inl subject ↦ rw subject (λ _. enforce-IsEnforced t _)
    | inr exempt ↦ rw exempt (λ h. cc)
  ]

  map-Enforced : (rows : List Tenant) → All Enforced (map enforced rows)
  map-Enforced [] = tt
  map-Enforced (t ∷ rows) = (enforced-Enforced t, map-Enforced rows)

  -- After the job every tenant that it looks at obeys the policy: one that is to be blocked is
  -- inactive, canceled and stamped, and an active one that is not overdue has no stamp.
  pub enforce_rows-Enforced :
      (rows : List Tenant) (c : Counts) → All Enforced (enforce_rows clock now rows c).0
  enforce_rows-Enforced rows c = rw (enforce_rows-map rows c) (map-Enforced rows)

  still_subject :
      (t : Tenant) (c : Counts)
      → is_subject t ≡ true
      → is_subject (enforce_tenant clock now t c).0 ≡ true
  unfolding enforce_tenant block_tenant mark_past_due release_tenant is_subject
  still_subject t c h = ground arith

  block_twice :
      (t : Tenant) (c d : Counts)
      → block_tenant now (block_tenant now t c).0 d ≡ ((block_tenant now t c).0, d)
  unfolding block_tenant
  block_twice t c d = ground arith

  mark_twice :
      (t : Tenant) (c d : Counts)
      → mark_past_due (mark_past_due t c).0 d ≡ ((mark_past_due t c).0, d)
  unfolding mark_past_due normalize is_in
  mark_twice t c d = elim (Bool-cases (may_mark t)) [ inl h ↦ simp h | inr h ↦ simp h ]

  release_twice :
      (t : Tenant) (c d : Counts)
      → release_tenant (release_tenant t c).0 d ≡ ((release_tenant t c).0, d)
  unfolding release_tenant
  release_twice t c d = ground arith

  -- A second look at a row changes neither the row nor the counters.
  enforce_twice :
      (t : Tenant) (c d : Counts)
      → enforce_tenant clock now (enforce_tenant clock now t c).0 d
        ≡ ((enforce_tenant clock now t c).0, d)
  unfolding enforce_tenant
  enforce_twice t c d =
      ground (arith, evaluate-enforce t c, block_twice t c d, mark_twice t c d, release_twice t c d)

  abbrev subjects : List Tenant → ℕ
  subjects rows = length (select is_subject rows)

  -- Running the job again at the same instant leaves the table as the first run left it, and only
  -- counts the rows that it looked at: nothing is marked, blocked or reactivated twice.
  pub enforce_rows_idem :
      (rows : List Tenant) (c d : Counts)
      → enforce_rows clock now (enforce_rows clock now rows c).0 d
        ≡ ((enforce_rows clock now rows c).0, record d { processed = d.processed + subjects rows })
  unfolding enforce_rows select
  enforce_rows_idem [] c d = ground arith
  enforce_rows_idem (t ∷ rows) c d = elim (Bool-cases (is_subject t)) [
    | inl subject ↦
        let c1 = record c { processed = c.processed + 1 } in
        let d1 = record d { processed = d.processed + 1 } in
        rw (subject, still_subject t c1 subject, enforce_twice t c1 d1)
          (ground (arith, enforce_rows_idem rows (enforce_tenant clock now t c1).1 d1))
    | inr exempt ↦ rw exempt (rw exempt (ground (arith, enforce_rows_idem rows c d)))
  ]

  abbrev pub loses_access : Tenant → Bool
  loses_access t = is_subject t && t.is_active && (evaluate_at clock now t).should_block

  enforce-blocked :
      (t : Tenant) (c : Counts)
      → (enforce_tenant clock now t c).1.blocked ≡ (
          if t.is_active && (evaluate_at clock now t).should_block
          then c.blocked + 1
          else c.blocked)
  unfolding enforce_tenant block_tenant mark_past_due release_tenant
  enforce-blocked t c = ground arith

  -- The job counts as blocked exactly the tenants with limited access, not deleted, that were active
  -- and whose grace is over.
  enforce_rows-blocked :
      (rows : List Tenant) (c : Counts)
      → (enforce_rows clock now rows c).1.blocked ≡ c.blocked + length (select loses_access rows)
  unfolding enforce_rows select
  enforce_rows-blocked [] c = omega arith
  enforce_rows-blocked (t ∷ rows) c =
      let c1 = record c { processed = c.processed + 1 } in
      ground (
        arith,
        enforce-blocked t c1,
        enforce_rows-blocked rows c,
        enforce_rows-blocked rows (enforce_tenant clock now t c1).1,
      )
