-- ===== src/Bulk/Snapshot/Loop.antt =====
-- What the loop over the tasks of a batch keeps of its figures.
use new_backup_center.Base.{
  ℤ, ℕ, ◌+◌, ◌≤◌, ◌≡◌, refl, ap, subst, or_else, true, false, some, String, List, [], ◌∷◌, length,
  is_some, all, arith,
}
use new_backup_center.Base.Dict.{Dict}
use new_backup_center.Bulk.{Payload, Backend}
use new_backup_center.Bulk.Snapshot.{
  Share, Tally, at_least_one, device_total_of, reported, with_missing, with_task, before_tasks,
  is_terminal, result_of, tally_tasks, sum_devices,
}

device_total_of-positive : (counts : Dict ℤ) (id : String) → 1 ≤ device_total_of counts id
unfolding device_total_of at_least_one
device_total_of-positive counts id = ground arith

-- A share in which a task done well has no failed device, and one that failed has one.
abbrev IsClear : Share → Type 0
IsClear s = (s.task_success ≡ true → s.failed ≡ 0) × (s.task_success ≡ false → 1 ≤ s.failed)

reported-IsClear : (n : ℕ) (r : Payload) → 1 ≤ n → IsClear (reported n r)
unfolding reported
reported-IsClear n r h = ground (arith, h)

with_missing-IsClear : (n : ℕ) (s : Share) → 1 ≤ n → IsClear s → IsClear (with_missing n s)
unfolding with_missing
with_missing-IsClear n s h clear = ground (arith, h, clear)

with_missing-covers :
    (n : ℕ) (s : Share) → n ≤ (with_missing n s).success + (with_missing n s).failed
unfolding with_missing
with_missing-covers n s = ground arith

module _ (b : Backend) (counts : Dict ℤ) where
  -- one turn of the loop, for the task `id`
  step : String → Tally → Tally
  step id t = with_task (device_total_of counts id) (result_of b id) t

  tally-head :
      (id : String) (ids : List String) (t u : Tally)
      → tally_tasks b counts (id ∷ ids) t ≡ some u
      → tally_tasks b counts ids (step id t) ≡ some u
  unfolding tally_tasks step
  tally-head id ids t u h = ground (arith, h)

  tally-end : (t u : Tally) → tally_tasks b counts [] t ≡ some u → t ≡ u
  unfolding tally_tasks
  tally-end t u e = ap (λ o. or_else o t) e

  -- The tasks and the devices that are done are those that went well and those that failed.
  abbrev pub IsBalanced : Tally → Type 0
  IsBalanced t =
      (t.done_tasks ≡ t.success_tasks + t.failed_tasks)
      × (t.done_devices ≡ t.success_devices + t.failed_devices)

  step-IsBalanced : (id : String) (t : Tally) → IsBalanced t → IsBalanced (step id t)
  unfolding step with_task
  step-IsBalanced id t h = ground (arith, h)

  pub tally-IsBalanced :
      (ids : List String) (t u : Tally)
      → IsBalanced t
      → tally_tasks b counts ids t ≡ some u
      → IsBalanced u
  unfolding tally_tasks
  tally-IsBalanced [] t u h e = subst IsBalanced (tally-end t u e) h
  tally-IsBalanced (id ∷ ids) t u h e =
      tally-IsBalanced ids (step id t) u (step-IsBalanced id t h) (tally-head id ids t u e)

  step-counts :
      (id : String) (t : Tally)
      → ((step id t).done_tasks ≡ t.done_tasks + 1)
        × (t.done_devices + device_total_of counts id ≤ (step id t).done_devices)
  unfolding step with_task
  step-counts id t =
      let n = device_total_of counts id in
      (refl, omega (arith, with_missing-covers n (reported n (result_of b id))))

  -- Every task counts once, with all its devices.
  pub tally-counts :
      (ids : List String) (t u : Tally)
      → tally_tasks b counts ids t ≡ some u
      → (u.done_tasks ≡ t.done_tasks + length ids)
        × (t.done_devices + sum_devices counts ids ≤ u.done_devices)
  unfolding tally_tasks sum_devices
  tally-counts [] t u e =
      subst (λ v. (v.done_tasks ≡ t.done_tasks + 0) × (t.done_devices + 0 ≤ v.done_devices))
        (tally-end t u e) (omega arith, omega arith)
  tally-counts (id ∷ ids) t u e =
      let rest = tally-counts ids (step id t) u (tally-head id ids t u e) in
      ground (arith, rest, step-counts id t)

  -- No device has failed where none was skipped and no task failed, and one has otherwise.
  abbrev pub IsTold : (skipped : ℕ) → Tally → Type 0
  IsTold skipped t =
      (skipped + t.failed_tasks ≤ t.failed_devices)
      × (t.failed_tasks ≡ 0 → t.failed_devices ≡ skipped)

  step-IsTold :
      (skipped : ℕ) (id : String) (t : Tally) → IsTold skipped t → IsTold skipped (step id t)
  unfolding step with_task
  step-IsTold skipped id t h =
      let n = device_total_of counts id in
      let some_device = device_total_of-positive counts id in
      let clear =
        with_missing-IsClear n (reported n (result_of b id)) some_device
          (reported-IsClear n (result_of b id) some_device) in
      ground (arith, h, clear)

  pub tally-IsTold :
      (skipped : ℕ) (ids : List String) (t u : Tally)
      → IsTold skipped t
      → tally_tasks b counts ids t ≡ some u
      → IsTold skipped u
  tally-IsTold skipped [] t u h e = subst (IsTold skipped) (tally-end t u e) h
  tally-IsTold skipped (id ∷ ids) t u h e =
      tally-IsTold skipped ids (step id t) u (step-IsTold skipped id t h) (tally-head id ids t u e)

pub before-IsBalanced :
    (b : Backend) (counts : Dict ℤ) (skipped : ℕ) → IsBalanced b counts (before_tasks skipped)
unfolding before_tasks
before-IsBalanced b counts skipped = (refl, omega arith)

pub before-IsTold :
    (b : Backend) (counts : Dict ℤ) (skipped : ℕ) → IsTold b counts skipped (before_tasks skipped)
unfolding before_tasks
before-IsTold b counts skipped = (omega arith, λ h. refl)

pub tally-ready :
    (b : Backend) (counts : Dict ℤ) (ids : List String) (t : Tally)
    → is_some (tally_tasks b counts ids t) ≡ all (is_terminal b) ids
unfolding tally_tasks all
tally-ready b counts [] t = refl
tally-ready b counts (id ∷ ids) t =
    ground
      (arith, tally-ready b counts ids (with_task (device_total_of counts id) (result_of b id) t))
