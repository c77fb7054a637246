-- ===== src/Logs/Store/Order.antt =====
-- The logs stay bounded and numbered in their order.
use new_backup_center.Base.{
  ℕ, zero, suc, ◌+◌, ◌-◌, ◌≤◌, ◌<◌, ◌≡◌, refl, inl, inr, Bool-cases, Option, none, some, String,
  List, [], ◌∷◌, ◌++◌, length, drop, or_else, str_eq, arith,
}
use new_backup_center.Base.Dict.{get, get-put}
use new_backup_center.Logs.Store.{
  Item, Raw, entry, broken, Logs, Call, ltrim, is_kept, prune_global_logs_by_age, pruned, entry_of,
  append_task_log,
}

length-drop : (n : ℕ) (raws : List Raw) → length (drop n raws) ≡ length raws - n
unfolding drop
length-drop zero raws = omega arith
length-drop (suc n) [] = omega arith
length-drop (suc n) (raw ∷ raws) = omega (arith, length-drop n raws)

length-ltrim : (n : ℕ) (raws : List Raw) → length (ltrim n raws) ≤ n
unfolding ltrim
length-ltrim n raws = omega (arith, length-drop (length raws - n) raws)

module _ (field : Item → ℕ) where
  -- The entries are numbered upwards, above `low` and up to `high`.
  abbrev pub IsNumbered : (low high : ℕ) → List Raw → Type 0
  IsNumbered low high [] = low ≤ high
  IsNumbered low high (broken ∷ raws) = IsNumbered low high raws
  IsNumbered low high (entry item ∷ raws) = (low < field item) × IsNumbered (field item) high raws

  IsNumbered-low :
      (low low' high : ℕ) (raws : List Raw)
      → low' ≤ low
      → IsNumbered low high raws
      → IsNumbered low' high raws
  IsNumbered-low low low' high [] h n = omega (arith, h, n)
  IsNumbered-low low low' high (broken ∷ raws) h n = IsNumbered-low low low' high raws h n
  IsNumbered-low low low' high (entry item ∷ raws) h n = (omega (arith, h, n.0), n.1)

  append-IsNumbered :
      (low high : ℕ) (raws : List Raw) (item : Item)
      → IsNumbered low high raws
      → field item ≡ high + 1
      → IsNumbered low (high + 1) (raws ++ (entry item ∷ []))
  append-IsNumbered low high [] item n next = (omega (arith, n, next), omega (arith, next))
  append-IsNumbered low high (broken ∷ raws) item n next =
      append-IsNumbered low high raws item n next
  append-IsNumbered low high (entry first ∷ raws) item n next =
      (n.0, append-IsNumbered (field first) high raws item n.1 next)

  drop-IsNumbered :
      (k low high : ℕ) (raws : List Raw)
      → IsNumbered low high raws
      → IsNumbered low high (drop k raws)
  unfolding drop
  drop-IsNumbered zero low high raws n = n
  drop-IsNumbered (suc k) low high [] n = n
  drop-IsNumbered (suc k) low high (broken ∷ raws) n = drop-IsNumbered k low high raws n
  drop-IsNumbered (suc k) low high (entry item ∷ raws) n =
      drop-IsNumbered k low high raws
        (IsNumbered-low (field item) low high raws (omega (arith, n.0)) n.1)

  ltrim-IsNumbered :
      (k low high : ℕ) (raws : List Raw)
      → IsNumbered low high raws
      → IsNumbered low high (ltrim k raws)
  unfolding ltrim
  ltrim-IsNumbered k low high raws n = drop-IsNumbered (length raws - k) low high raws n

  prune-IsNumbered :
      (cutoff low high : ℕ) (raws : List Raw)
      → IsNumbered low high raws
      → IsNumbered low high (prune_global_logs_by_age cutoff raws).0
  unfolding prune_global_logs_by_age
  prune-IsNumbered cutoff low high [] n = n
  prune-IsNumbered cutoff low high (broken ∷ raws) n = prune-IsNumbered cutoff low high raws n
  prune-IsNumbered cutoff low high (entry item ∷ raws) n =
      elim (Bool-cases (is_kept cutoff (entry item))) [
        | inl kept ↦ rw kept n
        | inr old ↦ rw old (
            prune-IsNumbered cutoff low high raws
              (IsNumbered-low (field item) low high raws (omega (arith, n.0)) n.1))
      ]

pruned-IsNumbered :
    (field : Item → ℕ) (cutoff : Option ℕ) (low high : ℕ) (raws : List Raw)
    → IsNumbered field low high raws
    → IsNumbered field low high (pruned cutoff raws)
unfolding pruned
pruned-IsNumbered field none low high raws n = n
pruned-IsNumbered field (some cutoff) low high raws n =
    prune-IsNumbered field cutoff low high raws n

module _ (sanitize : String → String) (task_max global_max : ℕ) where
  -- The counters say the highest number of their logs, and the logs keep their bounds.
  abbrev pub IsWell : Logs → Type 0
  IsWell logs =
      ((task : String)
        → IsNumbered (λ i. i.seq) 0 (or_else (get task logs.task_seqs) 0)
            (or_else (get task logs.task_logs) [])
          × (length (or_else (get task logs.task_logs) []) ≤ task_max))
      × IsNumbered (λ i. i.global_seq) 0 logs.global_seq logs.global_logs
      × (length logs.global_logs ≤ global_max)

  -- the log and the number of one task
  abbrev log_of : String → Logs → List Raw
  log_of task logs = or_else (get task logs.task_logs) []

  abbrev seq_of : String → Logs → ℕ
  seq_of task logs = or_else (get task logs.task_seqs) 0

  abbrev IsTaskWell : Logs → String → Type 0
  IsTaskWell logs task =
      IsNumbered (λ i. i.seq) 0 (seq_of task logs) (log_of task logs)
      × (length (log_of task logs) ≤ task_max)

  appended : Call → Logs → Logs
  appended = append_task_log sanitize task_max global_max

  task-IsWell :
      (call : Call) (logs : Logs) (task : String)
      → IsTaskWell logs call.task_id
      → IsTaskWell logs task
      → IsTaskWell (appended call logs) task
  unfolding appended append_task_log entry_of
  task-IsWell call logs task own other = elim (Bool-cases (str_eq call.task_id "")) [
    | inl unnamed ↦ rw unnamed other
    | inr named ↦
        let seq = seq_of call.task_id logs + 1 in
        let item =
          entry_of sanitize task_max global_max call (get call.task_id logs.tenants) seq
            (logs.global_seq + 1) in
        let raws = log_of call.task_id logs ++ (entry item ∷ []) in
        rw
          (
            named,
            get-put call.task_id task seq logs.task_seqs,
            get-put call.task_id task (ltrim task_max raws) logs.task_logs,
          )
          (elim (Bool-cases (str_eq call.task_id task)) [
            | inl same ↦ rw same (
              ltrim-IsNumbered (λ i. i.seq) task_max 0 seq raws
                  (append-IsNumbered (λ i. i.seq) 0 (seq_of call.task_id logs)
                    (log_of call.task_id logs) item own.0 refl),
              length-ltrim task_max raws,
            )
            | inr different ↦ rw different other
          ])
  ]

  -- Appending keeps every log of a task, and the global one, numbered upwards by its counter and within
  -- its bound, whichever task is appended to and whether or not old entries are pruned.
  pub append-IsWell :
      (call : Call) (logs : Logs)
      → IsWell logs
      → IsWell (append_task_log sanitize task_max global_max call logs)
  unfolding append_task_log entry_of appended
  append-IsWell call logs well = elim (Bool-cases (str_eq call.task_id "")) [
    | inl unnamed ↦ rw unnamed well
    | inr named ↦
        let item =
          entry_of sanitize task_max global_max call (get call.task_id logs.tenants)
            (seq_of call.task_id logs + 1) (logs.global_seq + 1) in
        let raws = logs.global_logs ++ (entry item ∷ []) in
        (
          λ task. task-IsWell call logs task (well.0 call.task_id) (well.0 task),
          rw named (
              ltrim-IsNumbered (λ i. i.global_seq) global_max 0 (logs.global_seq + 1)
                (pruned call.prune raws)
                (pruned-IsNumbered (λ i. i.global_seq) call.prune 0 (logs.global_seq + 1) raws
                  (append-IsNumbered (λ i. i.global_seq) 0 logs.global_seq logs.global_logs item
                    well.1 refl))),
          rw named (length-ltrim global_max (pruned call.prune raws)),
        )
  ]
