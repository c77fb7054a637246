-- ===== src/Logs/Store/Pruning.antt =====
-- The two ways of pruning the global log agree, and clearing a tenant takes out that tenant alone.
use new_backup_center.Base.{
  ℕ, ◌≤◌, ◌≡◌, ◌≢◌, refl, inl, inr, Bool-cases, false, not, some, String, List, [], ◌∷◌,
  length-select, select, str_eq, eq_iff, leb, leb→le, arith, str_or_empty,
}
use new_backup_center.Logs.Store.{
  Raw, entry, broken, stamp_of, is_kept, prune_global_logs_by_age, prune_global_logs, is_of_tenant,
  clear_tenant_global_logs,
}

-- The entries have times that never go back.
abbrev pub IsTimed : (low : ℕ) → List Raw → Type 0
IsTimed low [] = Unit
IsTimed low (broken ∷ raws) = ⊥
IsTimed low (entry item ∷ raws) = (at : ℕ) × (item.stamp ≡ some at) × (low ≤ at) × IsTimed at raws

all_kept :
    (cutoff low : ℕ) (raws : List Raw)
    → cutoff ≤ low
    → IsTimed low raws
    → select (is_kept cutoff) raws ≡ raws
unfolding select is_kept stamp_of
all_kept cutoff low [] h t = refl
all_kept cutoff low (broken ∷ raws) h t = absurd t
all_kept cutoff low (entry item ∷ raws) h t =
    ground (arith, t.1, t.2, h, all_kept cutoff t.0 raws (omega (arith, h, t.2)) t.3)

-- On a log whose entries all have times that never go back, the pruning from the front and the pruning of
-- the whole log leave the same entries and count the same number.
prunes_agree :
    (cutoff low : ℕ) (raws : List Raw)
    → IsTimed low raws
    → prune_global_logs_by_age cutoff raws ≡ prune_global_logs cutoff false raws
unfolding prune_global_logs_by_age prune_global_logs select is_kept stamp_of
prunes_agree cutoff low [] t = refl
prunes_agree cutoff low (broken ∷ raws) t = absurd t
prunes_agree cutoff low (entry item ∷ raws) t = elim (Bool-cases (leb cutoff t.0)) [
  | inl late ↦ ground (arith, t.1, late, all_kept cutoff t.0 raws (leb→le cutoff t.0 late) t.3)
  | inr early ↦
      ground
        (arith, t.1, early, prunes_agree cutoff t.0 raws t.3, length-select (is_kept cutoff) raws)
]

cleared :
    (tenant : String) (raws : List Raw)
    → select (is_of_tenant tenant) (select (λ raw. not (is_of_tenant tenant raw)) raws) ≡ []
unfolding select
cleared tenant [] = refl
cleared tenant (raw ∷ raws) = ground (arith, cleared tenant raws)

cleared-other :
    (tenant other : String) (raws : List Raw)
    → tenant ≢ other
    → select (is_of_tenant other) (select (λ raw. not (is_of_tenant tenant raw)) raws)
      ≡ select (is_of_tenant other) raws
unfolding select is_of_tenant
cleared-other tenant other [] h = refl
cleared-other tenant other (broken ∷ raws) h = cleared-other tenant other raws h
cleared-other tenant other (entry item ∷ raws) h = ground (
  arith,
  h,
  cleared-other tenant other raws h,
  eq_iff (str_or_empty item.tenant_id) tenant,
  eq_iff (str_or_empty item.tenant_id) other,
)

-- Clearing a tenant takes every entry of it out of the log, and none of another tenant.
clear_exact :
    (tenant other : String) (raws : List Raw)
    → tenant ≢ ""
    → (select (is_of_tenant tenant) (clear_tenant_global_logs tenant raws).0 ≡ [])
      × (tenant ≢ other
          → select (is_of_tenant other) (clear_tenant_global_logs tenant raws).0
            ≡ select (is_of_tenant other) raws)
unfolding clear_tenant_global_logs
clear_exact tenant other raws named =
    let h : str_eq tenant "" ≡ false = ground (arith, eq_iff tenant "") in
    rw h (cleared tenant raws, cleared-other tenant other raws)
