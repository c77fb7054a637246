-- ===== src/Queue/Interleave/Rounds.antt =====
-- What one round takes from each bucket, and what a bucket holds.
use new_backup_center.Base.{
  ℕ, suc, ◌+◌, ◌*◌, ◌≤◌, ◌<◌, ◌≡◌, refl, sym, inl, inr, Bool-cases, All-append, Bool, none, some,
  String, List, [], ◌∷◌, ◌++◌, str_eq, eq_iff, length, length-append, or_else, select, All,
  if◌then◌else◌, arith,
}
use new_backup_center.Base.Dict.{Dict, get, put, get-put}
use new_backup_center.Queue.Interleave.{append_to, total, round}

abbrev pub count : String → Dict ℕ → ℕ
count k c = or_else (get k c) 0

module _ {ℓ} {A : Type ℓ} where
  abbrev pub tail : List A → List A
  tail [] = []
  tail (x ∷ xs) = xs

  -- the bucket of a key
  abbrev pub queue : String → Dict (List A) → List A
  queue k b = or_else (get k b) []

  -- The items of one bastion with their countdowns, the n-th one first.
  abbrev pub spaced : (step n : ℕ) → List A → List (A × ℕ)
  spaced step n [] = []
  spaced step n (x ∷ xs) = (x, n * step) ∷ spaced step (suc n) xs

  abbrev pub head_of : (step n : ℕ) → List A → List (A × ℕ)
  head_of step n [] = []
  head_of step n (x ∷ xs) = (x, n * step) ∷ []

  abbrev pub taken : List A → ℕ
  taken [] = 0
  taken (x ∷ xs) = 1

  pub spaced_none : (step n : ℕ) (q : List A) → length q ≤ 0 → [] ≡ spaced step n q
  spaced_none step n [] h = refl
  spaced_none step n (x ∷ q) h = absurd (omega (arith, h))

  pub spaced_step :
      (step n : ℕ) (q : List A)
      → head_of step n q ++ spaced step (n + taken q) (tail q) ≡ spaced step n q
  spaced_step step n [] = refl
  spaced_step step n (x ∷ q) = ground arith

  -- No key stands twice.
  abbrev pub IsDistinct : Dict (List A) → Type ℓ
  IsDistinct [] = Unit
  IsDistinct ((j, v) ∷ b) = (get j b ≡ none) × IsDistinct b

  pub round-queue :
      (k : String) (step : ℕ) (b : Dict (List A)) (c : Dict ℕ)
      → get k (round step b c).0 ≡ elim (get k b) [ none ↦ none | some q ↦ some (tail q) ]
  unfolding round get
  round-queue k step [] c = refl
  round-queue k step ((j, []) ∷ b) c = ground (arith, round-queue k step b c)
  round-queue k step ((j, x ∷ xs) ∷ b) c =
      ground (arith, round-queue k step b (put j (count j c + 1) c))

  pub round-count :
      (k : String) (step : ℕ) (b : Dict (List A)) (c : Dict ℕ)
      → IsDistinct b
      → count k (round step b c).1 ≡ count k c + taken (queue k b)
  unfolding round get
  round-count k step [] c d = omega arith
  round-count k step ((j, []) ∷ b) c d = ground (arith, round-count k step b c d.1, eq_iff j k)
  round-count k step ((j, x ∷ xs) ∷ b) c d = ground (
    arith,
    round-count k step b (put j (count j c + 1) c) d.1,
    get-put j k (count j c + 1) c,
    eq_iff j k,
  )

  pub round-total :
      (step : ℕ) (b : Dict (List A)) (c : Dict ℕ)
      → total (round step b c).0 + length (round step b c).2 ≡ total b
  unfolding round total
  round-total step [] c = omega arith
  round-total step ((j, []) ∷ b) c = ground (arith, round-total step b c)
  round-total step ((j, x ∷ xs) ∷ b) c =
      ground (arith, round-total step b (put j (count j c + 1) c))

  pub round-takes :
      (step : ℕ) (b : Dict (List A)) (c : Dict ℕ) → 0 < total b → 0 < length (round step b c).2
  unfolding round total
  round-takes step [] c h = omega arith
  round-takes step ((j, []) ∷ b) c h = ground (arith, round-takes step b c)
  round-takes step ((j, x ∷ xs) ∷ b) c h = omega arith

  pub total-queue : (k : String) (b : Dict (List A)) → length (queue k b) ≤ total b
  unfolding get total
  total-queue k [] = omega arith
  total-queue k ((j, v) ∷ b) = ground (arith, total-queue k b)

  pub round-IsDistinct :
      (step : ℕ) (b : Dict (List A)) (c : Dict ℕ) → IsDistinct b → IsDistinct (round step b c).0
  unfolding round
  round-IsDistinct step [] c d = d
  round-IsDistinct step ((j, []) ∷ b) c d =
      (rw (round-queue j step b c, d.0) refl, round-IsDistinct step b c d.1)
  round-IsDistinct step ((j, x ∷ xs) ∷ b) c d =
      let c' = put j (count j c + 1) c in
      (rw (round-queue j step b c', d.0) refl, round-IsDistinct step b c' d.1)

  pub append-queue :
      (k j : String) (x : A) (b : Dict (List A))
      → get j (append_to k x b) ≡ (if str_eq k j then some (queue k b ++ (x ∷ [])) else get j b)
  unfolding append_to get
  append-queue k j x [] = ground arith
  append-queue k j x ((i, v) ∷ b) =
      ground (arith, eq_iff k j, eq_iff i k, eq_iff i j, append-queue k j x b)

  pub append-IsDistinct :
      (k : String) (x : A) (b : Dict (List A)) → IsDistinct b → IsDistinct (append_to k x b)
  unfolding append_to get
  append-IsDistinct k x [] d = (refl, tt)
  append-IsDistinct k x ((j, v) ∷ b) d = elim (Bool-cases (str_eq j k)) [
    | inl same ↦ rw same d
    | inr other ↦ rw other (
      ground (arith, append-queue k j x b, d.0, eq_iff j k, eq_iff k j),
      append-IsDistinct k x b d.1,
    )
  ]

  pub append-total :
      (k : String) (x : A) (b : Dict (List A)) → total (append_to k x b) ≡ total b + 1
  unfolding append_to total
  append-total k x [] = omega arith
  append-total k x ((j, v) ∷ b) = ground (arith, append-total k x b, length-append v (x ∷ []))

  module _ (bastion_of : A → String) where
    abbrev pub goes_to : String → A → Bool
    goes_to k x = str_eq (bastion_of x) k

    -- Every item stands in the bucket of its bastion.
    abbrev pub IsSorted : Dict (List A) → Type ℓ
    IsSorted [] = Unit
    IsSorted ((j, v) ∷ b) = All (λ x. bastion_of x ≡ j) v × IsSorted b

    pub round-IsSorted :
        (step : ℕ) (b : Dict (List A)) (c : Dict ℕ) → IsSorted b → IsSorted (round step b c).0
    unfolding round
    round-IsSorted step [] c s = s
    round-IsSorted step ((j, []) ∷ b) c s = (s.0, round-IsSorted step b c s.1)
    round-IsSorted step ((j, x ∷ xs) ∷ b) c s =
        (s.0.1, round-IsSorted step b (put j (count j c + 1) c) s.1)

    pub append-IsSorted :
        (x : A) (b : Dict (List A)) → IsSorted b → IsSorted (append_to (bastion_of x) x b)
    unfolding append_to
    append-IsSorted x [] s = ((refl, tt), tt)
    append-IsSorted x ((j, v) ∷ b) s = elim (Bool-cases (str_eq j (bastion_of x))) [
      | inl same ↦ rw same (
        All-append (λ y. bastion_of y ≡ j) v (x ∷ []) s.0
            (sym ((eq_iff j (bastion_of x)).0 same), tt),
        s.1,
      )
      | inr other ↦ rw other (s.0, append-IsSorted x b s.1)
    ]

    pub round-select :
        (k : String) (step : ℕ) (b : Dict (List A)) (c : Dict ℕ)
        → IsDistinct b
        → IsSorted b
        → select (λ e. goes_to k e.0) (round step b c).2 ≡ head_of step (count k c) (queue k b)
    unfolding round get select
    round-select k step [] c d s = refl
    round-select k step ((j, []) ∷ b) c d s =
        ground (arith, round-select k step b c d.1 s.1, eq_iff j k)
    round-select k step ((j, x ∷ xs) ∷ b) c d s = ground (
      arith,
      round-select k step b (put j (count j c + 1) c) d.1 s.1,
      get-put j k (count j c + 1) c,
      eq_iff j k,
      eq_iff (bastion_of x) k,
      s.0.0,
    )
