-- ===== src/Manager/Scheduler/Pings.antt =====
-- manager/router_scheduler.go: executeTasksAsync and executeIndividualPing, over the asynchronous
-- executor of task/async_executor.go. The answers of the context and of the connection pool are
-- arguments. Here a ping runs from its slot to Submit without another one in between; Flight has its
-- parts, and those of a worker, as steps that come in any order.
pub mod Flight
pub mod Slots
use zabbix_ddl_monitor.Base.{
  ℕ, zero, suc, ◌+◌, ◌-◌, Bool, true, false, not, ◌&&◌, ◌||◌, String, List, [], ◌∷◌, length, ltb,
  if◌then◌else◌,
}
use zabbix_ddl_monitor.Syncer.Line.{Router, Line}
use zabbix_ddl_monitor.Manager.Queue.{IntervalTaskQueue, get_tasks_snapshot}
use zabbix_ddl_monitor.Task.Registry.{
  Registry, Discovery, found, type_not_found, no_match, discover,
}
use zabbix_ddl_monitor.Task.Async.{
  AsyncExecutor, SubmitResult, accepted, no_connection, context_done, queue_full, submit_timeout,
  panics, submit, worker, begin_stop, end_stop,
}

-- `held` counts the slots of connSemaphore that are taken, `borrowed` the connections that the pings
-- have and have not given back.
pub record Pinger : Type 0 where
  pub executor : AsyncExecutor
  pub held : ℕ
  pub borrowed : ℕ
  pub crashed : Bool

-- config.MaxConnections, as NewRouterScheduler sets it.
abbrev pub max_connections : ℕ
max_connections = 2

-- What one ping meets: which case its first select takes when both are ready, whether the router's
-- context is done at that select and then at the check, whether the pool gives a connection, and
-- which case Submit's select takes.
pub record Chance : Type 0 where
  pub slot_first : Bool
  pub done_at_slot : Bool
  pub done_at_check : Bool
  pub has_connection : Bool
  pub send_first : Bool

pub data PingResult : Type 0 where
  submitted waits not_started cancelled connect_failed rejected crashes : PingResult

abbrev pub take_slot : Pinger → Pinger
take_slot p = record p { held = suc p.held }

abbrev pub give_slot : Pinger → Pinger
give_slot p = record p { held = p.held - 1 }

abbrev pub borrow : Pinger → Pinger
borrow p = record p { borrowed = suc p.borrowed }

abbrev pub give_back : Pinger → Pinger
give_back p = record p { borrowed = p.borrowed - 1 }

-- After Submit: a panic in the queue's worker is recovered by nobody and ends the process; any other
-- error gives the connection and the slot back.
abbrev pub after_submit : AsyncExecutor → SubmitResult → Pinger → Pinger × PingResult
after_submit e accepted p = (record p { executor = e }, submitted)
after_submit e panics p = (record p { executor = e; crashed = true }, crashes)
after_submit e _ p = (give_slot (give_back (record p { executor = e })), rejected)

abbrev pub submit_ping : Bool → ℕ → Pinger → Pinger × PingResult
submit_ping first r p =
    let answer = submit first true r p.executor in after_submit answer.0 answer.1 p

-- executeIndividualPing from the slot on.
abbrev pub with_slot : Chance → ℕ → Pinger → Pinger × PingResult
with_slot c r p =
    if c.done_at_check
    then (give_slot p, cancelled)
    else if not c.has_connection
    then (give_slot p, connect_failed)
    else submit_ping c.send_first r (borrow p)

-- executeIndividualPing for the request `r`.
unfoldable pub execute_individual_ping : Chance → ℕ → Pinger → Pinger × PingResult
execute_individual_ping c r p =
    if ltb p.held max_connections && (c.slot_first || not c.done_at_slot)
    then with_slot c r (take_slot p)
    else if c.done_at_slot
    then (p, not_started)
    else (p, waits)

-- The callback's Release and its receive from the semaphore.
abbrev pub call_back : Pinger → Pinger
call_back p = record p { held = p.held - 1; borrowed = p.borrowed - 1 }

-- The loop over the lines: it stands still at a ping that waits, and ends with the process.
abbrev pub go_on : PingResult → Bool
go_on waits = false
go_on crashes = false
go_on _ = true

unfoldable pub ping_lines : (ℕ → Chance) → ℕ → List Line → Pinger → Pinger × List PingResult
ping_lines chances r [] p = (p, [])
ping_lines chances r (l ∷ ls) p =
    let one = execute_individual_ping (chances r) r p in
    let more = ping_lines chances (suc r) ls one.0 in
    if go_on one.1 then (more.0, one.1 ∷ more.1) else (one.0, one.1 ∷ [])

abbrev pub with_task :
    {T : Type 0} → Discovery T → (ℕ → Chance) → ℕ → List Line → Pinger → Pinger × List PingResult
with_task (found t) chances r ls p = ping_lines chances r ls p
with_task type_not_found chances r ls p = (p, [])
with_task no_match chances r ls p = (p, [])

-- executeTasksAsync. `preloaded` says that the capability is there; without it one is asked of a
-- connection, which `has_connection` says there is, and which is given back at once.
unfoldable pub execute_tasks_async :
    {T : Type 0}
    → Registry T
    → Router
    → Bool
    → Bool
    → (ℕ → Chance)
    → ℕ
    → IntervalTaskQueue
    → Pinger
    → Pinger × List PingResult
execute_tasks_async registry router preloaded has_connection chances r q p =
    if not preloaded && not has_connection
    then (p, [])
    else with_task (discover "ping" router.platform router.protocol "commands" registry) chances r
        (get_tasks_snapshot q) p
