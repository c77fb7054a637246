-- ===== src/Schedules/Runner/Idle.antt =====
-- A run for which nothing is due puts nothing into the queues.
use new_backup_center.Base.{
  ℕ, ◌≤◌, ◌<◌, ◌≡◌, refl, sym, subst, inl, inr, Bool-cases, Bool, true, false, not, ◌||◌, Option,
  none, some, String, List, [], ◌∷◌, ◌++◌, All, All-append, select, leb, length, sort_by, or_else,
  arith,
}
use new_backup_center.Schedules.Clock.{Zone, compute_next_daily_run_at}
use new_backup_center.Schedules.Clock.Next.{IsFixed}
use new_backup_center.Schedules.Tables.{Schedule, ScheduleDatabase, is_active_device, is_selected}
use new_backup_center.Schedules.Runner.{
  bind, initial_schedules, made_daily, prepared_by, with_turn, prepare, run_tenants, with_initial,
  RunOutcome, blocked_by_force_stop, blocked_by_running_bulk, ran, finished_run, run_due, run_rows,
  run_tables, run_scheduled_backups,
}
use new_backup_center.Schedules.Runner.Turns.{
  Gives, bind-Gives, later, awaits, compute-Gives, AwaitAll, initial-Gives,
}
use new_backup_center.Schedules.Runner.Tenants.{schedules_wait}

unfoldable pub queues_nothing : RunOutcome → Bool
queues_nothing (ran figures []) = true
queues_nothing (ran figures (_ ∷ _)) = false
queues_nothing blocked_by_force_stop = false
queues_nothing blocked_by_running_bulk = false

module _ (zone : Zone) (offset : ℕ) (fixed : IsFixed offset zone) (now : ℕ)
    (behind : offset ≤ now) where
  -- Every row that the scheduler looks at waits.
  abbrev AreWaiting : List Schedule → Type 0
  AreWaiting = All (λ s. (not (is_selected s) || awaits now s) ≡ true)

  selected-wait : (rows : List Schedule) → AreWaiting rows → AwaitAll now (select is_selected rows)
  unfolding select
  selected-wait [] h = tt
  selected-wait (s ∷ rows) h = elim (Bool-cases (is_selected s)) [
    | inl e ↦ rw e (ground (arith, e, h.0), selected-wait rows h.1)
    | inr e ↦ rw e (selected-wait rows h.1)
  ]

  new-wait : (rows : List Schedule) → AwaitAll now rows → AreWaiting rows
  new-wait [] h = tt
  new-wait (s ∷ rows) h = (ground (arith, h.0), new-wait rows h.1)

  initial-waits :
      (db : ScheduleDatabase)
      → AreWaiting db.schedules
      → Gives (with_initial zone now db) (λ first. AreWaiting first.0.schedules)
  unfolding with_initial
  initial-waits db h =
      let rows = select is_selected db.schedules in
      bind-Gives (AwaitAll now) (λ (first : ScheduleDatabase × ℕ). AreWaiting first.0.schedules)
        (initial_schedules zone now rows (select is_active_device db.devices))
        (λ more. some (record db { schedules = db.schedules ++ more }, length more))
        (initial-Gives zone offset fixed now behind rows (select is_active_device db.devices))
        (λ more g. (
          (record db { schedules = db.schedules ++ more }, length more),
          refl,
          All-append (λ s. (not (is_selected s) || awaits now s) ≡ true) db.schedules more h
              (new-wait more g),
        ))

  prepared-idle :
      (s : Schedule) (next : Option ℕ)
      → s.next_run_at ≡ next
      → awaits now s ≡ true
      → Gives (prepared_by zone now s next) (λ turn. turn.2 ≡ false)
  unfolding prepared_by awaits later
  prepared-idle s none e h =
      bind-Gives (λ next. now < next) (λ (turn : Schedule × Bool × Bool). turn.2 ≡ false)
        (compute_next_daily_run_at zone (or_else s.time "02:00") now)
        (λ next. some (record s { next_run_at = some next }, true, false))
        (compute-Gives zone offset fixed (or_else s.time "02:00") now now behind (omega arith))
        (λ next after. ((record s { next_run_at = some next }, true, false), refl, refl))
  prepared-idle s (some next) e h =
      let ahead : later now (some next) ≡ true = subst (λ o. later now o ≡ true) e h in
      ((s, false, leb next now), refl, ground (arith, ahead))

  with_turn-idle :
      (turn : Schedule × Bool × Bool) (more : List Schedule × ℕ × List String)
      → turn.2 ≡ false
      → more.2 ≡ []
      → (with_turn zone now turn more).2 ≡ []
  unfolding with_turn
  with_turn-idle (s, missing, due) (rows, n, ids) h g = rw h g

  prepare-idle :
      (before rest : List Schedule)
      → AwaitAll now rest
      → Gives (prepare zone now before rest) (λ p. p.2 ≡ [])
  unfolding prepare made_daily awaits
  prepare-idle before [] h = (([], 0, []), refl, refl)
  prepare-idle before (s ∷ rest) h =
      let made = made_daily zone now (before ++ s ∷ rest) s in
      bind-Gives (λ (t : Schedule × Bool × Bool). t.2 ≡ false)
        (λ (p : List Schedule × ℕ × List String). p.2 ≡ [])
        (prepared_by zone now made s.next_run_at)
        (λ turn.
          bind (prepare zone now (before ++ turn.0 ∷ []) rest)
            (λ more. some (with_turn zone now turn more)))
        (prepared-idle made s.next_run_at refl h.0)
        (λ turn turned.
          bind-Gives (λ (p : List Schedule × ℕ × List String). p.2 ≡ [])
            (λ (p : List Schedule × ℕ × List String). p.2 ≡ [])
            (prepare zone now (before ++ turn.0 ∷ []) rest)
            (λ more. some (with_turn zone now turn more))
            (prepare-idle (before ++ turn.0 ∷ []) rest h.1)
            (λ more g. (with_turn zone now turn more, refl, with_turn-idle turn more turned g)))

  due-idle :
      (stagger : ℕ) (first : ScheduleDatabase × ℕ) (rows : List Schedule) (n : ℕ)
      (due : List String)
      → due ≡ []
      → Gives (run_due zone now stagger first (rows, n, due)) (λ r. queues_nothing r.0 ≡ true)
  unfolding run_due run_tenants sort_by finished_run queues_nothing bind
  due-idle stagger first rows n due e =
      subst
        (λ due.
          Gives (run_due zone now stagger first (rows, n, due)) (λ r. queues_nothing r.0 ≡ true))
        (sym e) (finished_run first (rows, n, []) ([], 0, rows), refl, refl)

  rows-idle :
      (stagger : ℕ) (first : ScheduleDatabase × ℕ)
      → AreWaiting first.0.schedules
      → Gives (run_rows zone now stagger first) (λ r. queues_nothing r.0 ≡ true)
  unfolding run_rows
  rows-idle stagger first h =
      bind-Gives (λ (p : List Schedule × ℕ × List String). p.2 ≡ [])
        (λ (r : RunOutcome × ScheduleDatabase). queues_nothing r.0 ≡ true)
        (prepare zone now [] (select is_selected first.0.schedules))
        (λ prepared. run_due zone now stagger first prepared)
        (prepare-idle [] (select is_selected first.0.schedules) (selected-wait first.0.schedules h))
        (λ prepared e. due-idle stagger first prepared.0 prepared.1 prepared.2 e)

  run-idle :
      (stagger : ℕ) (db : ScheduleDatabase)
      → AreWaiting db.schedules
      → Gives
          (run_scheduled_backups zone now stagger false false db)
          (λ r. queues_nothing r.0 ≡ true)
  unfolding run_scheduled_backups run_tables
  run-idle stagger db h =
      bind-Gives (λ (first : ScheduleDatabase × ℕ). AreWaiting first.0.schedules)
        (λ (r : RunOutcome × ScheduleDatabase). queues_nothing r.0 ≡ true)
        (with_initial zone now db) (λ first. run_rows zone now stagger first) (initial-waits db h)
        (λ first g. rows-idle stagger first g)

-- In a zone whose clocks are the same time behind all year, no tenant is started twice for one time: a second
-- run at the same instant, on the tables that the first one leaves, puts nothing into the queues.
pub runs_once :
    (zone : Zone) (offset now stagger_seconds : ℕ) (db : ScheduleDatabase)
    → IsFixed offset zone
    → offset ≤ now
    → (result : RunOutcome × ScheduleDatabase) × (again : RunOutcome × ScheduleDatabase)
      × (run_scheduled_backups zone now stagger_seconds false false db ≡ some result)
      × (run_scheduled_backups zone now stagger_seconds false false result.1 ≡ some again)
      × (queues_nothing again.0 ≡ true)
runs_once zone offset now stagger_seconds db fixed behind =
    let (result, e, waits) = schedules_wait zone offset now stagger_seconds db fixed behind in
    let (again, e', idle) = run-idle zone offset fixed now behind stagger_seconds result.1 waits in
    (result, again, e, e', idle)
