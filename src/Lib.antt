-- ===== src/Lib.antt =====
-- A model of new-backup-center, a service that backs up the configurations of network devices for many
-- tenants, bills them, and limits what their plans allow.
--
-- The program's parts, and the files that model them:
--
-- - Models: the rows that several parts share (app/models/plan.py, app/models/tenant.py).
-- - Billing.Policy: app/services/billing_policy_service.py. `evaluate_tenant` tells whether a tenant is
--   overdue and is to be blocked, `build_runtime_alert` is what the pages show, `enforce_access_policy`
--   is the job that app/tasks/billing.py runs. Its table of tenants is a list of rows; the counters
--   of its result are a record.
-- - Billing.Payments: the payment notifications of app/web/billing/controller.py. `process_mercadopago_payment`
--   takes the provider's answer and the tables, and gives what it answers with the tables after it, or
--   `none` for an exception, which rolls everything back. `uuid.UUID` is a parameter.
-- - Connection: app/services/connection_mode.py, how a device is reached. Connection.Copies is the second
--   copy of these rules in app/tasks/backups.py.
-- - Plans: the limits of a plan. Plans.Tables has the counts of app/services/tenant_access_service.py over
--   the tables, Plans.Access the rest of that file, Plans.Limits the checks of
--   app/services/plan_limits_service.py and its counter of downloads, Plans.Selection the capacity
--   page of app/web/billing/controller.py.
-- - Settings: the settings that app/tasks/backups.py reads from the environment, which is a function from
--   names to texts.
-- - Diagnostics.Failure: app/services/backup_diagnostics.py, the category of a failure's message;
--   Diagnostics.Failure.Retry has the rules of app/tasks/backups.py on trying again.
-- - Queue: how app/tasks/backups.py puts a batch into the queues. Queue.Interleave is `_interleave_by_bastion`,
--   Queue.Countdown the throttles, countdowns, queues and phases of single devices.
-- - JumpHost: JumpHost.Slots is how many sessions go through a jump host at once, JumpHost.Breaker its circuit
--   breaker and its reset for a new batch, JumpHost.Locks the locks of its slots as a step relation on the keys of Redis and the
--   workers that hold them, all of app/tasks/backups.py. What Redis holds for one jump host is a
--   record; a key with a time to live carries its expiry.
-- - Logs: app/services/realtime_backup_logs.py. Logs.Store appends to the logs, prunes and clears them,
--   Logs.Scan reads the newest entries in chunks.
-- - Tokens: app/services/api_token_service.py and the check of app/api/v1/external/auth.py. The hash of
--   passlib is a parameter.
-- - Bulk: the end of a batch in app/tasks/backups.py. Bulk.Snapshot is `_build_bulk_terminal_snapshot`, the final
--   figures; Bulk.Followup collects the devices to try once more
--   (`_collect_bulk_transient_followup_candidates`); Bulk.Finish is
--   `_maybe_finalize_bulk_and_schedule_followup`, with the keys of Redis that keep it to one follow-up.
--   Bulk.Progress is `_refresh_bulk_task_meta` of app/web/tenant/backups.py, which counts the same tasks
--   for the page while the batch runs, and what `bulk_task_status` writes back of them.
-- - Tasks: the metas of tasks. Tasks.Store has those of app/services/realtime_backup_logs.py and the lock that
--   keeps a tenant to one batch; Tasks.Active is `_has_active_bulk_operation` of app/tasks/backups.py,
--   by which the scheduler asks for a batch that still runs.
-- - JumpHost.Wait: `_jump_host_lock_context` of app/tasks/backups.py, which waits for a slot of JumpHost.Locks
--   turn by turn. What the slots answer and how long a turn takes is a function of the turn.
-- - Clients: app/web/superadmin/tenants.py. An administrator switches a client on and off, puts it into the
--   trash, restores it, or purges it; Clients.Dependencies is `_delete_client_dependencies` over the
--   tables.
-- - Schedules: Schedules.Clock is app/services/schedule_utils.py, Schedules.Tables and Schedules.Runner the task
--   `run_scheduled_backups` of app/tasks/backups.py, which asks Tasks.Active whether a batch runs, and
--   Schedules.Queue what it puts into the queues by Queue.Interleave, with
--   app/services/mass_backup_scope.py. `none` is an exception, which commits nothing.
-- - Retention: `purge_expired_backups` and `purge_failed_backups_periodic` of app/tasks/backups.py. The disk is a
--   list of paths, and a function says which files refuse to go.
-- - Base: the helpers of Python that the parts share: texts (`strip`, `lower`, `in`, `split`), integers,
--   dictionaries and the values of a JSON column.
--
-- A file of an operation has its model; its children prove theorems about it, and `Samples` runs
-- them at concrete rows.
--
-- Bounds. Python's integers are unbounded, and so are the model's. Instants are numbers of microseconds
-- since the year 1, so that `timedelta.days` is a division. `lower` knows ASCII and Latin-1, the
-- alphabet of the program's messages. The loops of the model are structural,
-- or have fuel that suffices: `decimal` has the number plus one, more than it has digits; `rounds` of the
-- interleaving has the number of items, and each round takes one at least; `chunks` of the scan has the
-- length of the log, and each chunk has an entry at least; the wait for a jump host has one turn for each
-- second that it may last and one more, since a turn sleeps for a second at least.
--
-- Parameters. Python's arithmetic of floats is a parameter where a decision rests on it: FloatOps of
-- JumpHost.Slots and the share of failures of JumpHost.Breaker. app/utils/log_sanitizer.py is a
-- function of texts. Floats of Bulk.Progress.Task are those of the percentage and of the share of a task under
-- way; `fromisoformat` of Tasks.Active and `uuid.UUID` of Billing.Payments and Clients are functions from
-- texts to an option, `none` where Python raises. The zone of Schedules.Clock is a pair of functions between the instants and the
-- clocks; IsFixed says that its clocks are the same time behind all year, as those of America/Recife are, the
-- zone of app/core/config.py.
--
-- Not modelled: the sessions with devices (SSH, Telnet, VPN), the vendors' scripts, the templates and
-- request handlers beyond those named above, the DDL helpers, the log lines, and the words of messages shown to
-- users. In Tasks, Redis fails in none of its calls. In Clients, a failure of the database shows when the request
-- commits, a constraint that refuses a deletion too.
pub mod Base
pub mod Billing
pub mod Bulk
pub mod Clients
pub mod Connection
pub mod Diagnostics
pub mod JumpHost
pub mod Logs
pub mod Models
pub mod Plans
pub mod Queue
pub mod Retention
pub mod Schedules
pub mod Settings
pub mod Tasks
pub mod Tokens
