-- ===== src/Logs/Samples.antt =====
-- Small logs, and the theorems on logs at them.
use new_backup_center.Base.Dict.{get}
use new_backup_center.Base.{
  ℕ, ◌+◌, ◌≡◌, refl, inr, some, String, List, [], ◌∷◌, take, reverse, arith, drop,
}
use new_backup_center.Logs.Store.{Item, Raw, entry, broken, Logs, Call, append_task_log}
use new_backup_center.Logs.Store.Order.{IsWell, append-IsWell}
use new_backup_center.Logs.Scan.{scan_recent_entries}
use new_backup_center.Logs.Scan.Exact.{scan_exact, visible, top}

abbrev item : ℕ → String → Item
item n tenant = record {
  task_id = "t1";
  seq = n;
  global_seq = n;
  tenant_id = some tenant;
  device_name = "core";
  message = "ok";
  level = "info";
  stamp = some (1000 + n);
}

abbrev raws : List Raw
raws =
    entry (item 1 "a") ∷ broken ∷ entry (item 2 "b") ∷ entry (item 3 "a") ∷ entry (item 4 "a") ∷ []

abbrev number : Item → ℕ
number i = i.global_seq

scan_runs : scan_recent_entries number 1 1 (some "a") 4 raws ≡ (item 4 "a" ∷ [], 4)
unfolding scan_recent_entries reverse take drop
scan_runs = refl

scan_exact_example : scan_recent_entries number 1 2 (some "a") 4 raws ≡ (
  reverse (take 2 (visible number 1 2 (some "a") (reverse raws))),
  top number 1 2 (some "a") 1 (take 2 (visible number 1 2 (some "a") (reverse raws))),
)
scan_exact_example = scan_exact number 1 2 (some "a") 4 raws (inr (omega arith))

abbrev timed : List Raw
timed = entry (item 1 "a") ∷ entry (item 2 "b") ∷ []

abbrev nothing : Logs
nothing = record {
  task_logs = [];
  task_seqs = [];
  global_logs = [];
  global_seq = 0;
  tenants = ("t1", "a") ∷ [];
}

abbrev call : Call
call = record {
  task_id = "t1";
  device_name = "";
  message = "hello";
  level = some "Loud";
  now = 1005;
  prune = some 1000;
}

nothing-IsWell : IsWell (λ m. m) 2000 50_000 nothing
unfolding get
nothing-IsWell = (λ task. (omega arith, omega arith), omega arith, omega arith)

append-IsWell_example :
    IsWell (λ m. m) 2000 50_000 (append_task_log (λ m. m) 2000 50_000 call nothing)
append-IsWell_example = append-IsWell (λ m. m) 2000 50_000 call nothing nothing-IsWell
