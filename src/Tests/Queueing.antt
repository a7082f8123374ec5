-- ===== src/Tests/Queueing.antt =====
-- Runs of the asynchronous executor.
use zabbix_ddl_monitor.Base.{◌+◌, true, false, List, [], ◌∷◌, ◌≡◌}
use zabbix_ddl_monitor.Task.Async.{AsyncExecutor, new_async_executor, start}
use zabbix_ddl_monitor.Task.Async.Accounts.{
  Act, submits, submits_with_timeout, works, begins_stop, ends_stop, run, held, accepted_in,
  held-run,
}

abbrev executor : AsyncExecutor
unfolding new_async_executor start
executor = start (new_async_executor 1)

abbrev acts : List Act
acts =
    submits true true 7
    ∷ works true
    ∷ submits_with_timeout true false true 8
    ∷ begins_stop
    ∷ works false
    ∷ ends_stop
    ∷ []

held-run_example : held 8 (run acts executor) ≡ held 8 executor + accepted_in 8 acts executor
held-run_example = held-run 8 acts executor

-- The executor after Stop.
abbrev stopped : AsyncExecutor
stopped = record executor { running = 0; chan_closed = true; stop_closed = true; cancelled = true }
