-- ===== src/Diagnostics/Failure/Samples.antt =====
-- Messages of the backup tasks, and the theorems on failures at them.
use new_backup_center.Base.{◌≡◌, refl, Option, none, some, String, contains, contains_any}
use new_backup_center.Settings.{Env}
use new_backup_center.Diagnostics.Failure.{classify_failure, failure_label, tells_circuit_breaker}

abbrev unset : Env
unset name = none

abbrev slow : Option String
slow = some "Connection Timed Out"

abbrev banner : Option String
banner = some "Error reading SSH protocol banner"

label_runs : failure_label (some (classify_failure slow)) ≡ "Timeout"
unfolding failure_label classify_failure tells_circuit_breaker contains contains_any
label_runs = refl

abbrev denying : Env
denying name = some " Core  01 , core 02"
