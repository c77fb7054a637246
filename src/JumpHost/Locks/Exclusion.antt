-- ===== src/JumpHost/Locks/Exclusion.antt =====
-- Two workers never hold one slot while their locks last.
use new_backup_center.Base.{
  ℕ, ◌+◌, ◌<◌, ◌≡◌, refl, sym, ap, ◌∙◌, ◌⊎◌, inl, inr, Bool-cases, true, false, not, Option, none,
  some, or_else, String, List, [], ◌∷◌, All, select, str_eq, ==_iff, subst, first, ◌==◌,
  if◌then◌else◌, arith,
}
use new_backup_center.JumpHost.Locks.{
  Table, Holder, System, is_free, is_owned, write, try_acquire, leave, acquire_first, Step, tick,
  attempt, finish, Reaches, here, after, idle,
}

-- While the lock of a holder lasts, the key of its slot says so.
abbrev IsHeld : ℕ → Table → Holder → Type 0
IsHeld now table h = now < h.expiry → table h.slot ≡ some (h.token, h.expiry)

abbrev IsSound : System → Type 0
IsSound s = All (IsHeld s.now s.table) s.holders

tick-IsHeld :
    (now seconds : ℕ) (table : Table) (holders : List Holder)
    → All (IsHeld now table) holders
    → All (IsHeld (now + seconds) table) holders
tick-IsHeld now seconds table [] sound = tt
tick-IsHeld now seconds table (h ∷ holders) sound =
    (λ lasts. sound.0 (omega (arith, lasts)), tick-IsHeld now seconds table holders sound.1)

written :
    (table : Table) (slot : ℕ) (value : String × ℕ)
    → write slot (some value) table slot ≡ some value
unfolding write
written table slot value = rw ((==_iff slot slot).1 refl) refl

module _ (now : ℕ) (table : Table) where
  -- A slot that is free is held by nobody, so writing it harms nobody.
  free-IsHeld :
      (slot : ℕ) (value : Option (String × ℕ)) (h : Holder)
      → is_free now (table slot) ≡ true
      → IsHeld now table h
      → IsHeld now (write slot value table) h
  unfolding write is_free
  free-IsHeld slot value h free held = λ lasts. elim (Bool-cases (h.slot == slot)) [
    | inl same ↦
        let i : h.slot ≡ slot = (==_iff h.slot slot).0 same in
        let e : table slot ≡ some (h.token, h.expiry) =
          subst (λ j. table j ≡ some (h.token, h.expiry)) i (held lasts) in
        ground (arith, e, free, lasts)
    | inr different ↦ rw different (held lasts)
  ]

  -- A slot that its owner gives back is held by nobody else.
  owned-IsHeld :
      (slot : ℕ) (token : String) (k : Holder)
      → is_owned now token (table slot) ≡ true
      → str_eq k.token token ≡ false
      → IsHeld now table k
      → IsHeld now (write slot none table) k
  unfolding write is_owned
  owned-IsHeld slot token k owned other held = λ lasts. elim (Bool-cases (k.slot == slot)) [
    | inl same ↦
        let i : k.slot ≡ slot = (==_iff k.slot slot).0 same in
        let e : table slot ≡ some (k.token, k.expiry) =
          subst (λ j. table j ≡ some (k.token, k.expiry)) i (held lasts) in
        ground (arith, e, owned, other)
    | inr different ↦ rw different (held lasts)
  ]

  All-free-IsHeld :
      (slot : ℕ) (value : Option (String × ℕ)) (holders : List Holder)
      → is_free now (table slot) ≡ true
      → All (IsHeld now table) holders
      → All (IsHeld now (write slot value table)) holders
  All-free-IsHeld slot value [] free sound = tt
  All-free-IsHeld slot value (h ∷ holders) free sound =
      (free-IsHeld slot value h free sound.0, All-free-IsHeld slot value holders free sound.1)

  released : Holder → Table
  released h = if is_owned now h.token (table h.slot) then write h.slot none table else table

  released-IsHeld :
      (h k : Holder)
      → str_eq k.token h.token ≡ false
      → IsHeld now table k
      → IsHeld now (released h) k
  unfolding released
  released-IsHeld h k other held = elim (Bool-cases (is_owned now h.token (table h.slot))) [
    | inl owned ↦ rw owned (owned-IsHeld h.slot h.token k owned other held)
    | inr not_owned ↦ rw not_owned held
  ]

  others-IsHeld :
      (h : Holder) (holders : List Holder)
      → All (IsHeld now table) holders
      → All (IsHeld now (released h)) (select (λ k. not (str_eq k.token h.token)) holders)
  unfolding select
  others-IsHeld h [] sound = tt
  others-IsHeld h (k ∷ holders) sound = elim (Bool-cases (str_eq k.token h.token)) [
    | inl same ↦ rw same (others-IsHeld h holders sound.1)
    | inr other ↦ rw other (released-IsHeld h k other sound.0, others-IsHeld h holders sound.1)
  ]

-- The holder is one of the list.
abbrev pub IsAmong : Holder → List Holder → Type 0
IsAmong h [] = ⊥
IsAmong h (k ∷ holders) = (h ≡ k) ⊎ IsAmong h holders

lookup :
    (P : Holder → Type 0) (h : Holder) (holders : List Holder)
    → IsAmong h holders
    → All P holders
    → P h
lookup P h [] h_in sound = absurd h_in
lookup P h (k ∷ holders) (inl e) sound = subst P (sym e) sound.0
lookup P h (k ∷ holders) (inr rest) sound = lookup P h holders rest sound.1

module _ (ttl : ℕ) where
  try_acquire-IsSound :
      (token : String) (slot : ℕ) (s : System) → IsSound s → IsSound (try_acquire ttl token slot s)
  unfolding try_acquire
  try_acquire-IsSound token slot s sound = elim (Bool-cases (is_free s.now (s.table slot))) [
    | inl free ↦ rw free (
      λ lasts. written s.table slot (token, s.now + ttl),
      All-free-IsHeld s.now s.table slot (some (token, s.now + ttl)) s.holders free sound,
    )
    | inr taken ↦ rw taken sound
  ]

  Step-IsSound : (s t : System) → Step ttl s t → IsSound s → IsSound t
  unfolding leave released
  Step-IsSound s _ (tick _ seconds) sound = tick-IsHeld s.now seconds s.table s.holders sound
  Step-IsSound s _ (attempt _ token slot fresh) sound = try_acquire-IsSound token slot s sound
  Step-IsSound s _ (finish _ h) sound = others-IsHeld s.now s.table h s.holders sound

  Reaches-IsSound : (s t : System) → Reaches ttl s t → IsSound s → IsSound t
  Reaches-IsSound s _ (here _) sound = sound
  Reaches-IsSound s _ (after _ t u before step) sound =
      Step-IsSound t u step (Reaches-IsSound s t before sound)

  idle-IsSound : (start : ℕ) → IsSound (idle start)
  unfolding idle
  idle-IsSound start = tt

  try-taken :
      (token : String) (slot : ℕ) (s : System)
      → is_free s.now (s.table slot) ≡ false
      → try_acquire ttl token slot s ≡ s
  unfolding try_acquire
  try-taken token slot s taken = rw taken refl

  -- However the workers interleave after a start at which no slot is taken: two that are inside with locks
  -- that last, and that took the same slot, have the same token.
  pub slot_exclusive :
      (start : ℕ) (s : System) (h k : Holder)
      → Reaches ttl (idle start) s
      → IsAmong h s.holders
      → IsAmong k s.holders
      → s.now < h.expiry
      → s.now < k.expiry
      → h.slot ≡ k.slot
      → h.token ≡ k.token
  slot_exclusive start s h k reached h_in k_in h_lasts k_lasts same =
      let sound = Reaches-IsSound (idle start) s reached (idle-IsSound start) in
      let h_held : s.table h.slot ≡ some (h.token, h.expiry) =
        lookup (IsHeld s.now s.table) h s.holders h_in sound h_lasts in
      let k_held : s.table k.slot ≡ some (k.token, k.expiry) =
        lookup (IsHeld s.now s.table) k s.holders k_in sound k_lasts in
      let agree : some (h.token, h.expiry) ≡ some (k.token, k.expiry) =
        sym h_held ∙ (ap s.table same ∙ k_held) in
      ap (λ (o : Option (String × ℕ)). (or_else o (h.token, h.expiry)).0) agree

  -- A pass over the slots of a worker with a token of its own takes the first one that is free, and comes
  -- about by tries of single slots.
  pub acquire_first_exact :
      (token : String) (slots : List ℕ) (s : System)
      → All (λ h. str_eq h.token token ≡ false) s.holders
      → ((acquire_first ttl token slots s).0 ≡ first (λ i. is_free s.now (s.table i)) slots)
        × Reaches ttl s (acquire_first ttl token slots s).1
  unfolding acquire_first first
  acquire_first_exact token [] s fresh = (refl, here s)
  acquire_first_exact token (slot ∷ slots) s fresh =
      elim (Bool-cases (is_free s.now (s.table slot))) [
        | inl free ↦
            rw free
              (refl, after s s (try_acquire ttl token slot s) (here s) (attempt s token slot fresh))
        | inr taken ↦
            rw (taken, try-taken token slot s taken) (acquire_first_exact token slots s fresh)
      ]
