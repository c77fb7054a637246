-- ===== src/Schedules/Runner/Tenants.antt =====
-- The tenants that are due, one after the other, and the whole run.
use new_backup_center.Base.{
  ℕ, ◌+◌, ◌≤◌, ◌<◌, ◌≡◌, refl, ap, ◌∙◌, inl, inr, Bool-cases, Bool, true, false, not, ◌||◌, some,
  String, List, [], ◌∷◌, ◌++◌, any, All, All-append, select, is_in, str_eq, length, insert_by,
  sort_by, text_ltb, if◌then◌else◌, arith,
}
use new_backup_center.Schedules.Clock.{Zone, compute_next_daily_run_at}
use new_backup_center.Schedules.Clock.Next.{IsFixed}
use new_backup_center.Schedules.Tables.{
  Schedule, ScheduleDatabase, is_active_device, is_selected, belongs_to, tenant_daily_time,
}
use new_backup_center.Schedules.Queue.{Queued, queue_tenant, eligible_devices}
use new_backup_center.Schedules.Runner.{
  one_second, bind, initial_schedules, prepare, planned, planned_all, run_tenants, with_initial,
  RunOutcome, finished_run, run_due, run_rows, run_tables, run_scheduled_backups,
}
use new_backup_center.Schedules.Runner.Turns.{
  Gives, bind-Gives, awaits, compute-Gives, AwaitAll, initial-Gives, is_settled, AreSettled,
  prepare-Gives,
}

any-insert :
    (test : String → Bool) (x : String) (xs : List String)
    → any test (insert_by text_ltb x xs) ≡ (test x || any test xs)
unfolding any insert_by
any-insert test x [] = refl
any-insert test x (y ∷ ys) = ground (arith, any-insert test x ys)

any-sort : (test : String → Bool) (xs : List String) → any test (sort_by text_ltb xs) ≡ any test xs
unfolding any sort_by
any-sort test [] = refl
any-sort test (x ∷ xs) =
    any-insert test x (sort_by text_ltb xs) ∙ ap (λ b. test x || b) (any-sort test xs)

module _ (zone : Zone) (now : ℕ) where
  sorted-AreSettled :
      (due : List String) (rows : List Schedule)
      → AreSettled now due rows
      → AreSettled now (sort_by text_ltb due) rows
  unfolding is_settled is_in
  sorted-AreSettled due [] h = tt
  sorted-AreSettled due (s ∷ rows) h =
      (ground (arith, h.0, any-sort (str_eq s.owned.tenant_id) due), sorted-AreSettled due rows h.1)

  planned-AreSettled :
      (id time : String) (next : ℕ) (due : List String) (rows : List Schedule)
      → now < next
      → AreSettled now (id ∷ due) rows
      → AreSettled now due (planned_all zone now id time next rows)
  unfolding planned_all planned is_settled is_in any belongs_to awaits
  planned-AreSettled id time next due [] after h = tt
  planned-AreSettled id time next due (s ∷ rows) after h =
      let head : is_settled now due
            (if belongs_to id s.owned then planned zone now time next s else s)
          ≡ true =
        elim (Bool-cases (belongs_to id s.owned)) [
          | inl e ↦ rw e (ground (arith, after))
          | inr e ↦ rw e (ground (arith, e, h.0))
        ] in
      (head, planned-AreSettled id time next due rows after h.1)

  none_due : (rows : List Schedule) → AreSettled now [] rows → AwaitAll now rows
  unfolding is_settled is_in any
  none_due [] h = tt
  none_due (s ∷ rows) h = (h.0, none_due rows h.1)

module _ (zone : Zone) (offset : ℕ) (fixed : IsFixed offset zone) (now : ℕ)
    (behind : offset ≤ now) where
  tenants-Gives :
      (stagger : ℕ) (db : ScheduleDatabase) (ids : List String) (rows : List Schedule)
      → AreSettled now ids rows
      → Gives (run_tenants zone now stagger db ids rows) (λ done. AwaitAll now done.2)
  unfolding run_tenants
  tenants-Gives stagger db [] rows h = (([], 0, rows), refl, none_due zone now rows h)
  tenants-Gives stagger db (id ∷ ids) rows h =
      let time = tenant_daily_time rows id in
      bind-Gives (λ next. now < next)
        (λ (done : List Queued × ℕ × List Schedule). AwaitAll now done.2)
        (compute_next_daily_run_at zone time (now + one_second))
        (λ next.
          bind (run_tenants zone now stagger db ids (planned_all zone now id time next rows))
            (λ rest. some (
              queue_tenant stagger db id ++ rest.0,
              length (eligible_devices db id) + rest.1,
              rest.2,
            )))
        (compute-Gives zone offset fixed time now (now + one_second) behind (omega arith))
        (λ next after.
          bind-Gives (λ (done : List Queued × ℕ × List Schedule). AwaitAll now done.2)
            (λ (done : List Queued × ℕ × List Schedule). AwaitAll now done.2)
            (run_tenants zone now stagger db ids (planned_all zone now id time next rows))
            (λ rest. some (
              queue_tenant stagger db id ++ rest.0,
              length (eligible_devices db id) + rest.1,
              rest.2,
            ))
            (tenants-Gives stagger db ids (planned_all zone now id time next rows)
              (planned-AreSettled zone now id time next ids rows after h))
            (λ rest waits. (
              (
                queue_tenant stagger db id ++ rest.0,
                length (eligible_devices db id) + rest.1,
                rest.2,
              ),
              refl,
              waits,
            )))

  -- Among the rows that the scheduler looks at, every one waits.
  abbrev pub WaitsForAll : RunOutcome × ScheduleDatabase → Type 0
  WaitsForAll r = All (λ s. (not (is_selected s) || awaits now s) ≡ true) r.1.schedules

  others-wait :
      (rows : List Schedule)
      → All
          (λ s. (not (is_selected s) || awaits now s) ≡ true)
          (select (λ s. not (is_selected s)) rows)
  unfolding select
  others-wait [] = tt
  others-wait (s ∷ rows) = elim (Bool-cases (is_selected s)) [
    | inl e ↦ rw e (others-wait rows)
    | inr e ↦ rw e (ground (arith, e), others-wait rows)
  ]

  waiting-wait :
      (rows : List Schedule)
      → AwaitAll now rows
      → All (λ s. (not (is_selected s) || awaits now s) ≡ true) rows
  waiting-wait [] h = tt
  waiting-wait (s ∷ rows) h = (ground (arith, h.0), waiting-wait rows h.1)

  finished_run-waits :
      (first : ScheduleDatabase × ℕ) (prepared : List Schedule × ℕ × List String)
      (done : List Queued × ℕ × List Schedule)
      → AwaitAll now done.2
      → WaitsForAll (finished_run first prepared done)
  unfolding finished_run
  finished_run-waits first prepared done h =
      All-append (λ s. (not (is_selected s) || awaits now s) ≡ true)
        (select (λ s. not (is_selected s)) first.0.schedules) done.2 (others-wait first.0.schedules)
        (waiting-wait done.2 h)

  due-Gives :
      (stagger : ℕ) (first : ScheduleDatabase × ℕ) (prepared : List Schedule × ℕ × List String)
      → AreSettled now prepared.2 prepared.0
      → Gives (run_due zone now stagger first prepared) WaitsForAll
  unfolding run_due
  due-Gives stagger first prepared h =
      let ids = sort_by text_ltb prepared.2 in
      bind-Gives (λ (done : List Queued × ℕ × List Schedule). AwaitAll now done.2) WaitsForAll
        (run_tenants zone now stagger first.0 ids prepared.0)
        (λ done. some (finished_run first prepared done))
        (tenants-Gives stagger first.0 ids prepared.0
          (sorted-AreSettled zone now prepared.2 prepared.0 h))
        (λ done waits.
          (finished_run first prepared done, refl, finished_run-waits first prepared done waits))

  rows-Gives :
      (stagger : ℕ) (first : ScheduleDatabase × ℕ)
      → Gives (run_rows zone now stagger first) WaitsForAll
  unfolding run_rows
  rows-Gives stagger first =
      bind-Gives (λ (p : List Schedule × ℕ × List String). AreSettled now p.2 p.0) WaitsForAll
        (prepare zone now [] (select is_selected first.0.schedules))
        (λ prepared. run_due zone now stagger first prepared)
        (prepare-Gives zone offset fixed now behind [] (select is_selected first.0.schedules))
        (λ prepared h. due-Gives stagger first prepared h)

  pub initial_tables-Gives :
      (db : ScheduleDatabase) → Gives (with_initial zone now db) (λ first. Unit)
  unfolding with_initial
  initial_tables-Gives db =
      let rows = select is_selected db.schedules in
      bind-Gives (AwaitAll now) (λ (first : ScheduleDatabase × ℕ). Unit)
        (initial_schedules zone now rows (select is_active_device db.devices))
        (λ more. some (record db { schedules = db.schedules ++ more }, length more))
        (initial-Gives zone offset fixed now behind rows (select is_active_device db.devices))
        (λ more h. ((record db { schedules = db.schedules ++ more }, length more), refl, tt))

  tables-Gives :
      (stagger : ℕ) (db : ScheduleDatabase) → Gives (run_tables zone now stagger db) WaitsForAll
  unfolding run_tables
  tables-Gives stagger db =
      bind-Gives (λ (first : ScheduleDatabase × ℕ). Unit) WaitsForAll (with_initial zone now db)
        (λ first. run_rows zone now stagger first) (initial_tables-Gives db)
        (λ first h. rows-Gives stagger first)

-- In a zone whose clocks are the same time behind all year, a run that nothing stops comes to its end, and
-- leaves no schedule due: every active schedule of a device that takes part has a next run, which is after
-- the run.
pub schedules_wait :
    (zone : Zone) (offset now stagger_seconds : ℕ) (db : ScheduleDatabase)
    → IsFixed offset zone
    → offset ≤ now
    → (result : RunOutcome × ScheduleDatabase) × (run_scheduled_backups zone now stagger_seconds
          false false db
        ≡ some result)
      × All (λ s. (not (is_selected s) || awaits now s) ≡ true) result.1.schedules
unfolding run_scheduled_backups
schedules_wait zone offset now stagger_seconds db fixed behind =
    tables-Gives zone offset fixed now behind stagger_seconds db
