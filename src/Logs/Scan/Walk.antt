-- ===== src/Logs/Scan/Walk.antt =====
-- Reading a log chunk by chunk from its end is reading it whole from its end.
use mathlib.Core.List.{append-nil, append_assoc}
use new_backup_center.Base.{
  ℕ, zero, suc, ◌-◌, ◌≤◌, ◌≡◌, refl, sym, ap, inl, inr, Bool-cases, Bool, true, false, Option,
  String, List, [], ◌∷◌, ◌++◌, length, take, drop, reverse, ltb, leb, if◌then◌else◌, arith,
}
use new_backup_center.Logs.Store.{Item, Raw, entry, broken}
use new_backup_center.Logs.Scan.{Found, is_wanted, walk, goes_on, chunks, with_item}

pub sub_zero : (n : ℕ) → (n - 0) ≡ n
sub_zero n = omega arith

pub positive : (n : ℕ) → ltb 0 (suc n) ≡ true
positive n = ground arith

module _ {ℓ} {A : Type ℓ} where
  pub reverse-append : (xs ys : List A) → reverse (xs ++ ys) ≡ reverse ys ++ reverse xs
  unfolding reverse
  reverse-append [] ys = sym (append-nil (reverse ys))
  reverse-append (x ∷ xs) ys =
      rw (reverse-append xs ys) (append_assoc (reverse ys) (reverse xs) (x ∷ []))

  pub take-empty : (n : ℕ) → take {A = A} n [] ≡ []
  unfolding take
  take-empty zero = refl
  take-empty (suc n) = refl

  pub take-split :
      (a b : ℕ) (xs : List A) → a ≤ b → take b xs ≡ take a xs ++ take (b - a) (drop a xs)
  unfolding take drop
  take-split zero b xs h = rw (sub_zero b) refl
  take-split (suc a) zero xs h = absurd (omega (arith, h))
  take-split (suc a) (suc b) [] h = sym (take-empty (suc b - suc a))
  take-split (suc a) (suc b) (x ∷ xs) h =
      let p : (suc b - suc a) ≡ (b - a) = omega arith in
      rw p (ap (x ∷◌) (take-split a b xs (omega (arith, h))))

  pub take-all : (xs : List A) → take (length xs) xs ≡ xs
  unfolding take
  take-all [] = refl
  take-all (x ∷ xs) = ap (x ∷◌) (take-all xs)

module _ (seq_field : Item → ℕ) (after_seq limit : ℕ) (tenant_id : Option String) where
  unfoldable pub goes : Found → Bool
  goes found = goes_on seq_field after_seq limit tenant_id found

  unfoldable pub step : List Raw → Found → Found
  step raws found = walk seq_field after_seq limit tenant_id raws found

  pub goes-reached : (found : Found) → goes (record found { reached_boundary = true }) ≡ false
  unfolding goes goes_on
  goes-reached found = ground arith

  pub goes-full :
      (found : Found) → leb limit (length found.entries_reversed) ≡ true → goes found ≡ false
  unfolding goes goes_on
  goes-full found h = ground arith

  pub goes-more :
      (found : Found)
      → leb limit (length found.entries_reversed) ≡ false
      → found.reached_boundary ≡ false
      → goes found ≡ true
  unfolding goes goes_on
  goes-more found h k = ground arith

  pub goes-unreached : (found : Found) → goes found ≡ true → found.reached_boundary ≡ false
  unfolding goes goes_on
  goes-unreached found h = ground arith

  -- A walk over two parts goes into the second one only where the first one has not come to an end.
  pub walk-append :
      (xs ys : List Raw) (found : Found)
      → goes found ≡ true
      → step (xs ++ ys) found
        ≡ (if goes (step xs found) then step ys (step xs found) else step xs found)
  unfolding step walk
  walk-append [] ys found h = rw h refl
  walk-append (broken ∷ xs) ys found h = walk-append xs ys found h
  walk-append (entry item ∷ xs) ys found h =
      let after = with_item seq_field after_seq limit tenant_id item found in
      elim (Bool-cases (leb (seq_field item) after_seq)) [
        | inl known ↦ rw (known, goes-reached found) refl
        | inr fresh ↦ elim (Bool-cases (is_wanted tenant_id item)) [
          | inr other ↦ rw (fresh, other) (walk-append xs ys found h)
          | inl wanted ↦ elim (Bool-cases (leb limit (length after.entries_reversed))) [
            | inl full ↦ rw (fresh, wanted, full, goes-full after full) refl
            | inr more ↦
                rw (fresh, wanted, more)
                  (walk-append xs ys after (goes-more after more (goes-unreached found h)))
          ]
        ]
      ]

  pub chunks-stopped :
      (fuel chunk stop : ℕ) (raws : List Raw) (found : Found)
      → goes found ≡ false
      → chunks seq_field after_seq limit tenant_id fuel chunk stop raws found ≡ found
  unfolding chunks goes
  chunks-stopped zero chunk stop raws found h = refl
  chunks-stopped (suc fuel) chunk stop raws found h = elim (Bool-cases (ltb 0 stop)) [
    | inl some_left ↦ rw (some_left, h) refl
    | inr done ↦ rw done refl
  ]

  pub split-last :
      (start stop : ℕ) (raws : List Raw)
      → start ≤ stop
      → reverse (take stop raws)
        ≡ reverse (take (stop - start) (drop start raws)) ++ reverse (take start raws)
  split-last start stop raws h =
      rw (take-split start stop raws h)
        (reverse-append (take start raws) (take (stop - start) (drop start raws)))

  pub walk-none : (raws : List Raw) (found : Found) → found ≡ step (reverse (take zero raws)) found
  unfolding step walk take reverse
  walk-none raws found = refl

  -- Chunk by chunk from the end is the same as the whole from the end.
  pub chunks-walk :
      (fuel chunk stop : ℕ) (raws : List Raw) (found : Found)
      → 1 ≤ chunk
      → stop ≤ fuel
      → goes found ≡ true
      → chunks seq_field after_seq limit tenant_id fuel chunk stop raws found
        ≡ step (reverse (take stop raws)) found
  unfolding chunks goes step
  chunks-walk zero chunk zero raws found some_chunk enough h = walk-none raws found
  chunks-walk zero chunk (suc stop) raws found some_chunk enough h = absurd (omega (arith, enough))
  chunks-walk (suc fuel) chunk zero raws found some_chunk enough h = walk-none raws found
  chunks-walk (suc fuel) chunk (suc stop) raws found some_chunk enough h =
      let start = suc stop - chunk in
      let part = reverse (take (suc stop - start) (drop start raws)) in
      let found' = step part found in
      rw
        (
          positive stop,
          h,
          split-last start (suc stop) raws (omega arith),
          walk-append part (reverse (take start raws)) found h,
        )
        (elim (Bool-cases (goes found')) [
          | inl on ↦ rw on (
              chunks-walk fuel chunk start raws found' some_chunk
                (omega (arith, enough, some_chunk)) on)
          | inr stopped ↦ rw stopped (chunks-stopped fuel chunk start raws found' stopped)
        ])
