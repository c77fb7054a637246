-- ===== src/Queue/Interleave/Exact.antt =====
-- What _interleave_by_bastion makes of a batch: for every bastion exactly its items, in their order.
use mathlib.Core.List.{append-nil, append_assoc}
use new_backup_center.Base.{
  ℕ, zero, suc, ◌-◌, ◌≤◌, ◌≡◌, sym, inl, inr, Bool-cases, ltb→lt, String, List, [], ◌∷◌, ◌++◌, ℤ,
  max_zero, str_eq, eq_iff, length, select-append, select, ltb, arith,
}
use new_backup_center.Base.Dict.{Dict, get}
use new_backup_center.Queue.Interleave.{
  append_to, fill, total, round, rounds, interleave_by_bastion,
}
use new_backup_center.Queue.Interleave.Rounds.{
  IsDistinct, IsSorted, append-IsDistinct, append-IsSorted, append-queue, count, goes_to, queue,
  round-IsDistinct, round-IsSorted, round-count, round-queue, round-select, round-takes,
  round-total, spaced, spaced_none, spaced_step, total-queue,
}

module _ {ℓ} {A : Type ℓ} where
  module _ (bastion_of : A → String) where
    -- the items of a bastion among those of a batch
    abbrev of_bastion : String → List A → List A
    of_bastion k items = select (goes_to bastion_of k) items

    fill-queue :
        (k : String) (items : List A) (b : Dict (List A))
        → queue k (fill bastion_of items b) ≡ queue k b ++ of_bastion k items
    unfolding fill select
    fill-queue k [] b = sym (append-nil (queue k b))
    fill-queue k (x ∷ items) b = ground (
      arith,
      fill-queue k items (append_to (bastion_of x) x b),
      append-queue (bastion_of x) k x b,
      append_assoc (queue k b) (x ∷ []) (of_bastion k items),
      eq_iff (bastion_of x) k,
    )

    fill-IsDistinct :
        (items : List A) (b : Dict (List A)) → IsDistinct b → IsDistinct (fill bastion_of items b)
    unfolding fill
    fill-IsDistinct [] b d = d
    fill-IsDistinct (x ∷ items) b d =
        fill-IsDistinct items (append_to (bastion_of x) x b)
          (append-IsDistinct (bastion_of x) x b d)

    fill-IsSorted :
        (items : List A) (b : Dict (List A))
        → IsSorted bastion_of b
        → IsSorted bastion_of (fill bastion_of items b)
    unfolding fill
    fill-IsSorted [] b s = s
    fill-IsSorted (x ∷ items) b s =
        fill-IsSorted items (append_to (bastion_of x) x b) (append-IsSorted bastion_of x b s)

    none_left :
        (k : String) (step n : ℕ) (b : Dict (List A)) → total b ≡ 0 → [] ≡ spaced step n (queue k b)
    none_left k step n b h = spaced_none step n (queue k b) (omega (arith, h, total-queue k b))

    rounds-select :
        (k : String) (fuel step : ℕ) (b : Dict (List A)) (c : Dict ℕ)
        → total b ≤ fuel
        → IsDistinct b
        → IsSorted bastion_of b
        → select (λ e. goes_to bastion_of k e.0) (rounds fuel step (total b) b c)
          ≡ spaced step (count k c) (queue k b)
    unfolding rounds select
    rounds-select k zero step b c enough d s =
        none_left k step (count k c) b (omega (arith, enough))
    rounds-select k (suc fuel) step b c enough d s = elim (Bool-cases (ltb 0 (total b))) [
      | inl some_left ↦
          let b' = (round step b c).0 in
          let c' = (round step b c).1 in
          let out = (round step b c).2 in
          let left : (total b - length out) ≡ total b' = omega (arith, round-total step b c) in
          rw
            (
              some_left,
              left,
              select-append (λ e. goes_to bastion_of k e.0) out (rounds fuel step (total b') b' c'),
              round-select bastion_of k step b c d s,
              rounds-select k fuel step b' c'
                  (omega (
                    arith,
                    enough,
                    ltb→lt 0 (total b) some_left,
                    round-takes step b c,
                    round-total step b c,
                  ))
                  (round-IsDistinct step b c d) (round-IsSorted bastion_of step b c s),
            )
            (ground (
              arith,
              spaced_step step (count k c) (queue k b),
              round-queue k step b c,
              round-count k step b c d,
            ))
      | inr done ↦ rw done (none_left k step (count k c) b (ground (arith, done)))
    ]

    -- For every bastion the batch has exactly its items, in the order in which they were given; the n-th
    -- of them, counted from 0, waits n times the stagger, and a negative stagger counts as none.
    pub interleave_exact :
        (stagger : ℤ) (items : List A) (k : String)
        → select (λ e. str_eq (bastion_of e.0) k) (interleave_by_bastion bastion_of stagger items)
          ≡ spaced (max_zero stagger) 0 (select (λ x. str_eq (bastion_of x) k) items)
    unfolding interleave_by_bastion get
    interleave_exact stagger items k =
        let b = fill bastion_of items [] in
        rw (
          rounds-select k (total b) (max_zero stagger) b [] (omega arith)
              (fill-IsDistinct items [] tt) (fill-IsSorted items [] tt),
          fill-queue k items [],
        )
