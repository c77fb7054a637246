-- ===== src/Schedules/Runner/Turns.antt =====
-- Every schedule that had its turn waits for a time to come.
use new_backup_center.Base.{
  ℕ, ◌≤◌, ◌<◌, ◌≡◌, refl, ap, ◌∙◌, inl, inr, Bool-cases, Bool, true, false, ◌||◌, Option, none,
  some, String, List, [], ◌∷◌, ◌++◌, any, All, is_in, leb, ltb, if_rule, or_else, eq_iff, arith,
}
use new_backup_center.Bulk.Followup.{add_id}
use new_backup_center.Schedules.Clock.{Zone, compute_next_daily_run_at}
use new_backup_center.Schedules.Clock.Next.{IsFixed, next_run_exact}
use new_backup_center.Schedules.Tables.{Owned, Schedule, tenant_daily_time}
use new_backup_center.Schedules.Runner.{
  bind, new_schedule, is_scheduled, initial_schedules, made_daily, prepared_by, with_turn, prepare,
}

-- An option that is some, with a property of what it gives.
abbrev pub Gives : {A : Type 0} → Option A → (A → Type 0) → Type 0
Gives {A = A} o P = (a : A) × (o ≡ some a) × P a

pub bind-Gives :
    {A B : Type 0} (P : A → Type 0) (Q : B → Type 0) (o : Option A) (f : A → Option B)
    → Gives o P
    → ((a : A) → P a → Gives (f a) Q)
    → Gives (bind o f) Q
unfolding bind
bind-Gives P Q o f (a, e, p) h = let (b, e', q) = h a p in (b, ap (λ o. bind o f) e ∙ e', q)

unfoldable pub later : (now : ℕ) → Option ℕ → Bool
later now none = false
later now (some t) = ltb now t

-- The next run of a schedule is after an instant.
unfoldable pub awaits : (now : ℕ) → Schedule → Bool
unfolding later
awaits now s = later now s.next_run_at

abbrev pub AwaitAll : (now : ℕ) → List Schedule → Type 0
AwaitAll now = All (λ s. awaits now s ≡ true)

-- A schedule is of a tenant that is due, or waits.
unfoldable pub is_settled : (now : ℕ) → (due : List String) → Schedule → Bool
unfolding is_in
is_settled now due s = is_in s.owned.tenant_id due || awaits now s

abbrev pub AreSettled : (now : ℕ) → List String → List Schedule → Type 0
AreSettled now due = All (λ s. is_settled now due s ≡ true)

module _ (zone : Zone) (offset : ℕ) (fixed : IsFixed offset zone) where
  pub compute-Gives :
      (time : String) (now reference : ℕ)
      → offset ≤ now
      → now ≤ reference
      → Gives (compute_next_daily_run_at zone time reference) (λ next. now < next)
  compute-Gives time now reference behind le =
      let (next, e, after, _, _, _) =
        next_run_exact zone offset time reference fixed (omega (arith, behind, le)) in
      (next, e, omega (arith, after, le))

  module _ (now : ℕ) (behind : offset ≤ now) where
    pub initial-Gives :
        (rows : List Schedule) (owned : List Owned)
        → Gives (initial_schedules zone now rows owned) (AwaitAll now)
    unfolding initial_schedules new_schedule awaits later
    initial-Gives rows [] = ([], refl, tt)
    initial-Gives rows (o ∷ owned) =
        let time = tenant_daily_time rows o.tenant_id in
        let rest = initial_schedules zone now rows owned in
        if_rule (λ o. Gives o (AwaitAll now)) (is_scheduled rows o) rest
          (bind (compute_next_daily_run_at zone time now)
            (λ next. bind rest (λ more. some (new_schedule o time next ∷ more))))
          (initial-Gives rows owned)
          (bind-Gives (λ next. now < next) (AwaitAll now) (compute_next_daily_run_at zone time now)
            (λ next. bind rest (λ more. some (new_schedule o time next ∷ more)))
            (compute-Gives time now now behind (omega arith))
            (λ next after.
              bind-Gives (AwaitAll now) (AwaitAll now) rest
                (λ more. some (new_schedule o time next ∷ more)) (initial-Gives rows owned)
                (λ more h. (new_schedule o time next ∷ more, refl, (ground (arith, after), h)))))

    -- After its turn a schedule is due, or waits for a time to come.
    abbrev IsTurned : Schedule × Bool × Bool → Type 0
    IsTurned t = (t.2 || awaits now t.0) ≡ true

    prepared-Gives :
        (s : Schedule) (next : Option ℕ)
        → s.next_run_at ≡ next
        → Gives (prepared_by zone now s next) IsTurned
    unfolding prepared_by awaits later
    prepared-Gives s none e =
        bind-Gives (λ next. now < next) IsTurned
          (compute_next_daily_run_at zone (or_else s.time "02:00") now)
          (λ next. some (record s { next_run_at = some next }, true, false))
          (compute-Gives (or_else s.time "02:00") now now behind (omega arith))
          (λ next after.
            ((record s { next_run_at = some next }, true, false), refl, ground (arith, after)))
    prepared-Gives s (some next) e = ((s, false, leb next now), refl, rw e (ground arith))

    more-IsSettled :
        (id : String) (due : List String) (s : Schedule)
        → is_settled now due s ≡ true
        → is_settled now (add_id id due) s ≡ true
    unfolding is_settled add_id is_in any
    more-IsSettled id due s h =
        if_rule (λ due. (is_in s.owned.tenant_id due || awaits now s) ≡ true) (is_in id due) due
          (id ∷ due) h (ground (arith, h))

    more-AreSettled :
        (id : String) (due : List String) (rows : List Schedule)
        → AreSettled now due rows
        → AreSettled now (add_id id due) rows
    more-AreSettled id due [] h = tt
    more-AreSettled id due (s ∷ rows) h =
        (more-IsSettled id due s h.0, more-AreSettled id due rows h.1)

    add_id-has : (id : String) (due : List String) → is_in id (add_id id due) ≡ true
    unfolding add_id is_in any
    add_id-has id due = elim (Bool-cases (is_in id due)) [
      | inl e ↦ rw e e
      | inr e ↦ rw e (ground (arith, eq_iff id id))
    ]

    with_turn-AreSettled :
        (turn : Schedule × Bool × Bool) (more : List Schedule × ℕ × List String)
        → IsTurned turn
        → AreSettled now more.2 more.0
        → let all = with_turn zone now turn more in AreSettled now all.2 all.0
    unfolding with_turn is_settled
    with_turn-AreSettled (s, missing, true) (rows, n, due) h g = (
      ground (arith, add_id-has s.owned.tenant_id due),
      more-AreSettled s.owned.tenant_id due rows g,
    )
    with_turn-AreSettled (s, missing, false) (rows, n, due) h g = (ground (arith, h), g)

    pub prepare-Gives :
        (before rest : List Schedule)
        → Gives (prepare zone now before rest) (λ p. AreSettled now p.2 p.0)
    unfolding prepare made_daily
    prepare-Gives before [] = (([], 0, []), refl, tt)
    prepare-Gives before (s ∷ rest) =
        let made = made_daily zone now (before ++ s ∷ rest) s in
        bind-Gives IsTurned (λ p. AreSettled now p.2 p.0) (prepared_by zone now made s.next_run_at)
          (λ turn.
            bind (prepare zone now (before ++ turn.0 ∷ []) rest)
              (λ more. some (with_turn zone now turn more)))
          (prepared-Gives made s.next_run_at refl)
          (λ turn turned.
            bind-Gives (λ (p : List Schedule × ℕ × List String). AreSettled now p.2 p.0)
              (λ (p : List Schedule × ℕ × List String). AreSettled now p.2 p.0)
              (prepare zone now (before ++ turn.0 ∷ []) rest)
              (λ more. some (with_turn zone now turn more))
              (prepare-Gives (before ++ turn.0 ∷ []) rest)
              (λ more h.
                (with_turn zone now turn more, refl, with_turn-AreSettled turn more turned h)))
