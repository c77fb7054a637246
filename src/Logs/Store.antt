-- ===== src/Logs/Store.antt =====
-- services/realtime_backup_logs.py: the logs in Redis, appended to and pruned. Redis fails in none of its
-- calls, and no key expires between them.
pub mod Order
pub mod Pruning
use new_backup_center.Base.{
  ℕ, zero, suc, ◌+◌, ◌-◌, Bool, true, false, not, ◌&&◌, Option, none, some, String, List, [], ◌∷◌,
  ◌++◌, length, select, str_eq, str_or_empty, strip, lower, is_in, ltb, leb, or_else, drop,
  if◌then◌else◌,
}
use new_backup_center.Base.Dict.{Dict, get, put}

-- A log entry. `stamp` is what `_parse_iso_timestamp` makes of its time, in microseconds.
pub record Item : Type 0 where
  pub task_id : String
  pub seq : ℕ
  pub global_seq : ℕ
  pub tenant_id : Option String
  pub device_name : String
  pub message : String
  pub level : String
  pub stamp : Option ℕ

-- A text of a log: an entry, or something that is no JSON.
pub data Raw : Type 0 where
  entry : Item → Raw
  broken : Raw

-- The logs and counters of Redis; `tenants` has the tenant of each task that has metadata.
pub record Logs : Type 0 where
  pub task_logs : Dict (List Raw)
  pub task_seqs : Dict ℕ
  pub global_logs : List Raw
  pub global_seq : ℕ
  pub tenants : Dict String

-- `ltrim(key, -n, -1)`: the last n entries stay.
unfoldable pub ltrim : ℕ → List Raw → List Raw
ltrim n raws = drop (length raws - n) raws

-- the time of an entry, `none` where it has none or is no JSON
unfoldable pub stamp_of : Raw → Option ℕ
stamp_of (entry item) = item.stamp
stamp_of broken = none

unfoldable pub is_kept : (cutoff : ℕ) → Raw → Bool
unfolding stamp_of
is_kept cutoff raw = elim (stamp_of raw) [ none ↦ false | some at ↦ leb cutoff at ]

-- `_prune_global_logs_by_age`: from the front, up to the first entry that is kept. The number says how
-- many are removed.
unfoldable pub prune_global_logs_by_age : (cutoff : ℕ) → List Raw → List Raw × ℕ
unfolding is_kept
prune_global_logs_by_age cutoff [] = ([], 0)
prune_global_logs_by_age cutoff (raw ∷ raws) =
    let (kept, removed) = prune_global_logs_by_age cutoff raws in
    if is_kept cutoff raw then (raw ∷ raws, 0) else (kept, removed + 1)

-- `prune_global_logs`: every entry that is too old, or has no time. A dry run only counts.
unfoldable pub prune_global_logs : (cutoff : ℕ) (dry_run : Bool) → List Raw → List Raw × ℕ
unfolding is_kept select
prune_global_logs cutoff dry_run raws =
    let keep = select (is_kept cutoff) raws in
    (if dry_run then raws else keep, length raws - length keep)

unfoldable pub is_of_tenant : String → Raw → Bool
is_of_tenant tenant_id (entry item) = str_eq (str_or_empty item.tenant_id) tenant_id
is_of_tenant tenant_id broken = false

-- `clear_tenant_global_logs`; what is no JSON stays.
unfoldable pub clear_tenant_global_logs : (tenant_id : String) → List Raw → List Raw × ℕ
unfolding is_of_tenant select
clear_tenant_global_logs tenant_id raws =
    let kept = select (λ raw. not (is_of_tenant tenant_id raw)) raws in
    if str_eq tenant_id "" then (raws, 0) else (kept, length raws - length kept)

-- `(level or "info").lower().strip()`, or "info" for a level that is not known
unfoldable pub level_of : Option String → String
unfolding strip lower is_in
level_of level =
    let text =
      strip (lower (if str_eq (str_or_empty level) "" then "info" else str_or_empty level)) in
    if is_in text ("info" ∷ "success" ∷ "warning" ∷ "error" ∷ []) then text else "info"

-- What an append is called with. `prune` is the cutoff where the pruning by age is due.
pub record Call : Type 0 where
  pub task_id : String
  pub device_name : String
  pub message : String
  pub level : Option String
  pub now : ℕ
  pub prune : Option ℕ

unfoldable pub pruned : Option ℕ → List Raw → List Raw
unfolding prune_global_logs_by_age
pruned none raws = raws
pruned (some cutoff) raws = (prune_global_logs_by_age cutoff raws).0

-- `sanitize` is app/utils/log_sanitizer.py; the two bounds are the settings of the two logs.
module _ (sanitize : String → String) (task_log_max_entries global_log_max_entries : ℕ) where
  unfoldable pub entry_of : Call → (tenant_id : Option String) (seq global_seq : ℕ) → Item
  unfolding level_of
  entry_of call tenant_id seq global_seq = record {
    task_id = call.task_id;
    seq = seq;
    global_seq = global_seq;
    tenant_id = tenant_id;
    device_name = if str_eq call.device_name "" then "Sistema" else call.device_name;
    message = sanitize call.message;
    level = level_of call.level;
    stamp = some call.now;
  }

  unfoldable pub append_task_log : Call → Logs → Logs
  unfolding get put entry_of pruned ltrim
  append_task_log call logs =
      let seq = or_else (get call.task_id logs.task_seqs) 0 + 1 in
      let item = entry_of call (get call.task_id logs.tenants) seq (logs.global_seq + 1) in
      let task_log = or_else (get call.task_id logs.task_logs) [] in
      if str_eq call.task_id "" then logs else record logs {
        task_logs =
            put call.task_id (ltrim task_log_max_entries (task_log ++ (entry item ∷ [])))
              logs.task_logs;
        task_seqs = put call.task_id seq logs.task_seqs;
        global_logs =
            ltrim global_log_max_entries
              (pruned call.prune (logs.global_logs ++ (entry item ∷ [])));
        global_seq = logs.global_seq + 1;
      }
