-- ===== src/Bulk/Followup/Retried.antt =====
-- Which devices a batch tries once more.
use new_backup_center.Base.{
  ◌≡◌, refl, eq_iff, Bool-cases, inl, inr, true, false, ◌||◌, Option, none, some, String, List, [],
  ◌∷◌, All, strip, str_or_empty, str_eq, is_in, normalize, text_ltb, All-sort, length-sort, if_rule,
  if◌then◌else◌, arith, ℕ, ◌≤◌, ◌+◌, length,
}
use new_backup_center.Base.Dict.{Dict}
use new_backup_center.Settings.{Env, normalize_retry_token}
use new_backup_center.Diagnostics.Failure.Retry.{
  should_retry_transient_failure, is_transient_retry_denied_for_device,
}
use new_backup_center.Bulk.{Detail, Payload, TaskMeta, Backend, BulkMeta, safe_get_task_meta}
use new_backup_center.Bulk.Snapshot.{count_in, result_of}
use new_backup_center.Bulk.Followup.{
  Candidates, add_id, with_candidate, bulk_append_transient_candidate, add_skipped, add_details,
  add_devices, add_whole_task, has_failed, add_task, add_tasks, collected,
  collect_bulk_transient_followup_candidates,
}

-- What one candidate keeps, the loops over all of them keep.
module _ (env : Env) (P : Candidates → Type 0)
    (keeps : (id name category message : Option String) (c : Candidates)
      → P c
      → P (bulk_append_transient_candidate env id name category message c)) where
  skipped-keeps : (ids : List String) (c : Candidates) → P c → P (add_skipped env ids c)
  unfolding add_skipped
  skipped-keeps [] c h = h
  skipped-keeps (id ∷ ids) c h = skipped-keeps ids _ (keeps (some id) none _ _ c h)

  details-keeps :
      (items : List (Option Detail)) (c : Candidates) → P c → P (add_details env items c)
  unfolding add_details
  details-keeps [] c h = h
  details-keeps (none ∷ items) c h = details-keeps items c h
  details-keeps (some item ∷ items) c h =
      details-keeps items _ (if_rule P item.success c _ h (keeps _ _ _ _ c h))

  devices-keeps :
      (name category message : Option String) (ids : List String) (c : Candidates)
      → P c
      → P (add_devices env name category message ids c)
  unfolding add_devices
  devices-keeps name category message [] c h = h
  devices-keeps name category message (id ∷ ids) c h =
      devices-keeps name category message ids _ (keeps (some id) name category message c h)

  whole-keeps :
      (meta : TaskMeta) (r : Payload) (c : Candidates) → P c → P (add_whole_task env meta r c)
  unfolding add_whole_task
  whole-keeps meta r c h =
      if_rule P (str_eq (strip meta.device_id) "") _ _ (devices-keeps _ _ _ _ c h)
        (keeps _ _ _ _ c h)

  task-keeps : (meta : TaskMeta) (r : Payload) (c : Candidates) → P c → P (add_task env meta r c)
  unfolding add_task
  task-keeps meta r c h =
      elim r.details
        as (λ d. P (elim d [
          | some items ↦ add_details env items c
          | none ↦ if has_failed r then add_whole_task env meta r c else c
        ])) [
          | some items ↦ details-keeps items c h
          | none ↦ if_rule P (has_failed r) _ c (whole-keeps meta r c h) h
        ]

  tasks-keeps : (b : Backend) (ids : List String) (c : Candidates) → P c → P (add_tasks env b ids c)
  unfolding add_tasks
  tasks-keeps b [] c h = h
  tasks-keeps b (id ∷ ids) c h =
      tasks-keeps b ids _ (task-keeps (safe_get_task_meta b id) (result_of b id) c h)

  pub collected-keeps :
      (b : Backend) (meta : BulkMeta)
      → P (record { ids = []; categories = [] })
      → P (collected env b meta)
  unfolding collected
  collected-keeps b meta h = tasks-keeps b _ _ (skipped-keeps meta.skipped_jump_device_ids _ h)

token-none : str_eq (normalize_retry_token none) "" ≡ true
unfolding normalize_retry_token
token-none = refl

retried-not_denied :
    (env : Env) (category message name id : Option String)
    → should_retry_transient_failure env category message name id ≡ true
    → is_transient_retry_denied_for_device env none id ≡ false
unfolding should_retry_transient_failure is_transient_retry_denied_for_device
retried-not_denied env category message name id h = ground (arith, h, token-none)

unfoldable pub sum_counts : Dict ℕ → ℕ
sum_counts [] = 0
sum_counts ((category, n) ∷ counter) = n + sum_counts counter

sum_counts-count_in :
    (category : String) (n : ℕ) (counter : Dict ℕ)
    → sum_counts (count_in category n counter) ≡ sum_counts counter + n
unfolding sum_counts count_in
sum_counts-count_in category n [] = omega arith
sum_counts-count_in category n ((other, m) ∷ counter) =
    ground (arith, eq_iff other category, sum_counts-count_in category n counter)

-- A device that is on the denylist is not a candidate, whatever its name, and each candidate is counted
-- under a category.
abbrev IsFair : Env → Candidates → Type 0
IsFair env c =
    All (λ id. is_transient_retry_denied_for_device env none (some id) ≡ false) c.ids
    × (length c.ids ≤ sum_counts c.categories)

add_id-All :
    (P : String → Type 0) (id : String) (ids : List String)
    → P id
    → All P ids
    → All P (add_id id ids)
unfolding add_id
add_id-All P id ids h rest = if_rule (All P) (is_in id ids) ids (id ∷ ids) rest (h, rest)

length-add_id : (id : String) (ids : List String) → length (add_id id ids) ≤ length ids + 1
unfolding add_id
length-add_id id ids = ground arith

with_candidate-IsFair :
    (env : Env) (id category : String) (c : Candidates)
    → is_transient_retry_denied_for_device env none (some id) ≡ false
    → IsFair env c
    → IsFair env (with_candidate id category c)
unfolding with_candidate
with_candidate-IsFair env id category c allowed h = (
  add_id-All (λ i. is_transient_retry_denied_for_device env none (some i) ≡ false) id c.ids allowed
      h.0,
  omega (arith, h.1, length-add_id id c.ids, sum_counts-count_in category 1 c.categories),
)

append-IsFair :
    (env : Env) (id name category message : Option String) (c : Candidates)
    → IsFair env c
    → IsFair env (bulk_append_transient_candidate env id name category message c)
unfolding bulk_append_transient_candidate
append-IsFair env id name category message c h =
    let given = strip (str_or_empty id) in
    let kind = normalize category in
    let retried = should_retry_transient_failure env (some kind) message name (some given) in
    let added : IsFair env (if retried then with_candidate given kind c else c) =
      elim (Bool-cases retried) [
        | inl e ↦ rw e (
            with_candidate-IsFair env given kind c
              (retried-not_denied env (some kind) message name (some given) e) h)
        | inr e ↦ rw e h
      ] in
    if_rule (IsFair env) (str_eq given "" || str_eq kind "") c
      (if retried then with_candidate given kind c else c) h added

-- The devices that a batch tries once more: none is on the denylist of devices, under whatever name it
-- failed, and there are at most as many as failures that the report of their categories counts.
pub candidates_allowed :
    (env : Env) (b : Backend) (meta : BulkMeta)
    → All
        (λ id. is_transient_retry_denied_for_device env none (some id) ≡ false)
        (collect_bulk_transient_followup_candidates env b meta).ids
      × (length (collect_bulk_transient_followup_candidates env b meta).ids
          ≤ sum_counts (collect_bulk_transient_followup_candidates env b meta).categories)
unfolding collect_bulk_transient_followup_candidates
candidates_allowed env b meta =
    let fair = collected-keeps env (IsFair env) (append-IsFair env) b meta (tt, omega arith) in
    (
      All-sort (λ id. is_transient_retry_denied_for_device env none (some id) ≡ false) text_ltb
          (collected env b meta).ids fair.0,
      omega (arith, fair.1, length-sort text_ltb (collected env b meta).ids),
    )
