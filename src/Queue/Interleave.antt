-- ===== src/Queue/Interleave.antt =====
-- app/tasks/backups.py, _interleave_by_bastion: a batch in round-robin over the bastions, each with its
-- own growing countdown.
pub mod Exact
pub mod Rounds
use new_backup_center.Base.{
  ℤ, max_zero, ℕ, zero, suc, ◌+◌, ◌-◌, ◌*◌, Bool, true, false, String, List, [], ◌∷◌, ◌++◌, str_eq,
  length, or_else, ltb, if◌then◌else◌,
}
use new_backup_center.Base.Dict.{Dict, get, put}

module _ {ℓ} {A : Type ℓ} where
  -- `buckets.setdefault(key, []).append(item)`
  unfoldable pub append_to : String → A → Dict (List A) → Dict (List A)
  append_to key item [] = (key, item ∷ []) ∷ []
  append_to key item ((j, items) ∷ buckets) =
      let rest = append_to key item buckets in
      if str_eq j key then (j, items ++ (item ∷ [])) ∷ buckets else (j, items) ∷ rest

  unfoldable pub fill : (A → String) → List A → Dict (List A) → Dict (List A)
  fill bastion_of [] buckets = buckets
  fill bastion_of (item ∷ items) buckets =
      fill bastion_of items (append_to (bastion_of item) item buckets)

  -- `sum(len(v) for v in buckets.values())`
  unfoldable pub total : Dict (List A) → ℕ
  total [] = 0
  total ((key, items) ∷ buckets) = length items + total buckets

  -- The inner loop: it takes the first item of each bucket that has one. The last part of the result is
  -- what it appends to `ordered`.
  unfoldable pub round : (step : ℕ) → Dict (List A) → Dict ℕ → Dict (List A) × Dict ℕ × List (A × ℕ)
  round step [] counters = ([], counters, [])
  round step ((key, []) ∷ buckets) counters =
      let (buckets', counters', out) = round step buckets counters in
      ((key, []) ∷ buckets', counters', out)
  round step ((key, item ∷ items) ∷ buckets) counters =
      let n = or_else (get key counters) 0 in
      let (buckets', counters', out) = round step buckets (put key (n + 1) counters) in
      ((key, items) ∷ buckets', counters', (item, n * step) ∷ out)

  -- The outer loop: each round takes at least one item, so as many rounds as there are items suffice.
  unfoldable pub rounds : (fuel step remaining : ℕ) → Dict (List A) → Dict ℕ → List (A × ℕ)
  unfolding round
  rounds zero step remaining buckets counters = []
  rounds (suc fuel) step remaining buckets counters =
      let (buckets', counters', out) = round step buckets counters in
      let rest = rounds fuel step (remaining - length out) buckets' counters' in
      if ltb 0 remaining then out ++ rest else []

  unfoldable pub interleave_by_bastion :
      (A → String) → (stagger_seconds : ℤ) → List A → List (A × ℕ)
  unfolding fill rounds total
  interleave_by_bastion bastion_of stagger_seconds items =
      let buckets = fill bastion_of items [] in
      rounds (total buckets) (max_zero stagger_seconds) (total buckets) buckets []
