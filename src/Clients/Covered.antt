-- ===== src/Clients/Covered.antt =====
-- The ids that `_delete_client_dependencies` reads first cover every row of the client.
use new_backup_center.Base.{
  ◌≡◌, refl, sym, subst, inl, inr, Bool-cases, true, false, String, List, [], ◌∷◌, any, All, select,
  is_in, eq_iff, arith,
}
use new_backup_center.Clients.Dependencies.{Row, is_of, without, ids_of}

-- Every row of the client is among those with the ids.
pub Covers : (tenant_id : String) → List String → List Row → Type 0
Covers tenant_id ids = All (λ row. is_of tenant_id row ≡ true → is_in row.id ids ≡ true)

Covers-more :
    (tenant_id id : String) (ids : List String) (rows : List Row)
    → Covers tenant_id ids rows
    → Covers tenant_id (id ∷ ids) rows
unfolding Covers is_in any
Covers-more tenant_id id ids [] h = tt
Covers-more tenant_id id ids (row ∷ rows) h =
    (λ of_it. ground (arith, h.0 of_it), Covers-more tenant_id id ids rows h.1)

ids_of-hit :
    (tenant_id : String) (row : Row) (rows : List Row)
    → is_of tenant_id row ≡ true
    → ids_of tenant_id (row ∷ rows) ≡ row.id ∷ ids_of tenant_id rows
unfolding ids_of select
ids_of-hit tenant_id row rows e = rw e refl

ids_of-miss :
    (tenant_id : String) (row : Row) (rows : List Row)
    → is_of tenant_id row ≡ false
    → ids_of tenant_id (row ∷ rows) ≡ ids_of tenant_id rows
unfolding ids_of select
ids_of-miss tenant_id row rows e = rw e refl

is_in-head : (id : String) (ids : List String) → is_in id (id ∷ ids) ≡ true
unfolding is_in any
is_in-head id ids = ground (arith, eq_iff id id)

pub ids_of-Covers :
    (tenant_id : String) (rows : List Row) → Covers tenant_id (ids_of tenant_id rows) rows
unfolding Covers
ids_of-Covers tenant_id [] = tt
ids_of-Covers tenant_id (row ∷ rows) = elim (Bool-cases (is_of tenant_id row)) [
  | inl e ↦
      subst (λ ids. Covers tenant_id ids (row ∷ rows)) (sym (ids_of-hit tenant_id row rows e))
        (
          λ of_it. is_in-head row.id (ids_of tenant_id rows),
          Covers-more tenant_id row.id (ids_of tenant_id rows) rows (ids_of-Covers tenant_id rows),
        )
  | inr e ↦
      subst (λ ids. Covers tenant_id ids (row ∷ rows)) (sym (ids_of-miss tenant_id row rows e))
        (λ of_it. ground (arith, e, of_it), ids_of-Covers tenant_id rows)
]

pub without-covered :
    (tenant_id : String) (ids : List String) (rows : List Row)
    → Covers tenant_id ids rows
    → any (is_of tenant_id) (without (λ row. is_in row.id ids) rows) ≡ false
unfolding Covers any without select
without-covered tenant_id ids [] h = refl
without-covered tenant_id ids (row ∷ rows) h =
    let rest = without-covered tenant_id ids rows h.1 in
    elim (Bool-cases (is_in row.id ids)) [
      | inl e ↦ rw e rest
      | inr e ↦ elim (Bool-cases (is_of tenant_id row)) [
        | inl of_it ↦ ground (arith, h.0 of_it, e)
        | inr not_of ↦ rw (e, not_of) rest
      ]
    ]
