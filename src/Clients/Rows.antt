-- ===== src/Clients/Rows.antt =====
-- The row of a client that a query finds and an action changes.
use new_backup_center.Base.{
  ◌≡◌, refl, sym, ap, subst, ◌∙◌, inl, inr, Bool-cases, Bool, true, false, some, String, List, [],
  ◌∷◌, All, select, first, str_eq, eq_iff, if_rule, arith,
}
use new_backup_center.Clients.{Client, change}

pub first-head :
    (test : Client → Bool) (k c : Client) (clients : List Client)
    → test k ≡ true
    → first test (k ∷ clients) ≡ some c
    → k ≡ c
unfolding first
first-head test k c clients here e = ground (arith, here, e)

pub first-tail :
    (test : Client → Bool) (k c : Client) (clients : List Client)
    → test k ≡ false
    → first test (k ∷ clients) ≡ some c
    → first test clients ≡ some c
unfolding first
first-tail test k c clients further e = ground (arith, further, e)

module _ (P : Client → Type 0) where
  first-All :
      (test : Client → Bool) (clients : List Client) (c : Client)
      → All P clients
      → first test clients ≡ some c
      → P c
  unfolding first
  first-All test [] c sound e = ground (arith, e)
  first-All test (k ∷ clients) c sound e = elim (Bool-cases (test k)) [
    | inl here ↦ subst P (first-head test k c clients here e) sound.0
    | inr further ↦ first-All test clients c sound.1 (first-tail test k c clients further e)
  ]

  pub change-All :
      (id : String) (f : Client → Client) (clients : List Client) (c : Client)
      → All P clients
      → first (λ k. str_eq k.id id) clients ≡ some c
      → P (f c)
      → All P (change id f clients)
  unfolding change
  change-All id f [] c sound e h = tt
  change-All id f (k ∷ clients) c sound e h = elim (Bool-cases (str_eq k.id id)) [
    | inl here ↦ rw here (
      subst (λ x. P (f x)) (sym (first-head (λ i. str_eq i.id id) k c clients here e)) h,
      sound.1,
    )
    | inr further ↦ rw further (
      sound.0,
      change-All id f clients c sound.1 (first-tail (λ i. str_eq i.id id) k c clients further e) h,
    )
  ]

  pub select-All :
      (test : Client → Bool) (clients : List Client) → All P clients → All P (select test clients)
  unfolding select
  select-All test [] sound = tt
  select-All test (k ∷ clients) sound =
      if_rule (All P) (test k) (k ∷ select test clients) (select test clients)
        (sound.0, select-All test clients sound.1) (select-All test clients sound.1)

pub first-is :
    (id : String) (clients : List Client) (c : Client)
    → first (λ k. str_eq k.id id) clients ≡ some c
    → c.id ≡ id
unfolding first
first-is id [] c e = ground (arith, e)
first-is id (k ∷ clients) c e = elim (Bool-cases (str_eq k.id id)) [
  | inl here ↦
      sym (ap Client.id (first-head (λ i. str_eq i.id id) k c clients here e))
      ∙ (eq_iff k.id id).0 here
  | inr further ↦ first-is id clients c (first-tail (λ i. str_eq i.id id) k c clients further e)
]

-- Where a row is changed, the query finds the changed one, as long as it keeps its id.
pub first-change :
    (id : String) (f : Client → Client) (clients : List Client) (c : Client)
    → first (λ k. str_eq k.id id) clients ≡ some c
    → (f c).id ≡ c.id
    → first (λ k. str_eq k.id id) (change id f clients) ≡ some (f c)
unfolding first change
first-change id f [] c e same = ground (arith, e)
first-change id f (k ∷ clients) c e same = elim (Bool-cases (str_eq k.id id)) [
  | inl here ↦
      let is_c : k ≡ c = first-head (λ i. str_eq i.id id) k c clients here e in
      let kept : str_eq (f k).id id ≡ true =
        subst (λ x. str_eq (f x).id id ≡ true) (sym is_c)
          (subst (λ i. str_eq i id ≡ true) (sym same)
            (subst (λ (x : Client). str_eq x.id id ≡ true) is_c here)) in
      rw (here, kept) (ap (λ x. some (f x)) is_c)
  | inr further ↦
      rw (further, further)
        (first-change id f clients c (first-tail (λ i. str_eq i.id id) k c clients further e) same)
]

-- A change that is taken back leaves the rows as they were.
pub change-back :
    (id : String) (f g : Client → Client) (clients : List Client) (c : Client)
    → first (λ k. str_eq k.id id) clients ≡ some c
    → (f c).id ≡ c.id
    → g (f c) ≡ c
    → change id g (change id f clients) ≡ clients
unfolding change
change-back id f g [] c e same back = refl
change-back id f g (k ∷ clients) c e same back = elim (Bool-cases (str_eq k.id id)) [
  | inl here ↦
      let is_c : k ≡ c = first-head (λ i. str_eq i.id id) k c clients here e in
      let kept : str_eq (f k).id id ≡ true =
        subst (λ x. str_eq (f x).id id ≡ true) (sym is_c)
          (subst (λ i. str_eq i id ≡ true) (sym same)
            (subst (λ (x : Client). str_eq x.id id ≡ true) is_c here)) in
      rw (here, kept) (ap (λ x. x ∷ clients) (subst (λ x. g (f x) ≡ x) (sym is_c) back))
  | inr further ↦
      rw (further, further)
        (ap (λ rest. k ∷ rest)
          (change-back id f g clients c (first-tail (λ i. str_eq i.id id) k c clients further e)
            same back))
]
