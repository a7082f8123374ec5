-- ===== src/Lib.antt =====
-- A model of the monitor of dedicated lines and the theorems about it.
--
-- The program reads from Zabbix which lines (IP addresses behind routers) to watch, keeps for each
-- router a scheduler with one queue of lines for each interval and a pool of connections to the
-- router, pings the lines over pooled connections, and hands the results in batches to handlers.
--
-- * Syncer is syncer/types.go and syncer/syncer.go: lines and their hash (Line), detectChanges
--   (Changes), sync (Sync), Subscribe, Close, Stop and notifyAll (Subscribers), and fetchLines with
--   the templates of a host (Templates, for buildTemplateChain) and the macros that are in force on
--   it (Macros, for mergeMacros and the rest). The answers of Zabbix are arguments.
-- * Manager is manager/interval_queue.go (Queue), manager/router_scheduler.go (Scheduler, with
--   Scheduler/Queues for the map from intervals to queues, and Scheduler/Pings for the pings over the
--   slots, the pool and the asynchronous executor) and manager/manager.go: processLineEvent, which
--   takes the events of Syncer to the handlers of the routers' schedulers (Lines), the buffer of
--   handleLineChanges in front of it (Events), fullSync (FullSync), and Stop with the reports
--   (Stopping).
-- * Connection is the parts of connection/ that decide: the state machine of state_manager.go (State),
--   the pooled connection of pooled_connection.go with all methods that change its state (Conn,
--   with Conn/Steps for their interleavings), rebuild_manager.go (Rebuild, Events), the kinds of the
--   health check's errors (Health/Classify), the retrier,
--   the circuit breaker and the executor that composes them of resilience.go (Retry, Breaker,
--   Resilient), and the pool of pool_enhanced.go (Pool):
--   getting a connection for a task (Pool/Get), MonitoredDriver and health checks (Pool/Driver),
--   cleanup (Pool/Cleanup), performCoreRebuild (Pool/Rebuilding), RebuildConnectionByProto
--   (Pool/Batch), WarmUp (Pool/Warmup), Close and ShutdownGraceful (Pool/Closing), and what goroutines
--   do to one pool in any order (Pool/Steps). The pool's configuration, its validation and its
--   builder in config_enhanced.go are Config; the load balancers of pool_enhanced.go are Balancer.
-- * Task is task/aggregator.go (Aggregator), task/registry.go (Registry), task/async_executor.go
--   (Async), task/ping.go (Ping: parameters and commands; Ping/Meta for the registration;
--   Ping/Output and Ping/Output/H3c for the parsers of the vendors' output; Ping/Results for their
--   Data), the executor of task/executor.go that runs a ping (Executor), and HandleResult of
--   task/zabbixSenderHandler.go (Zabbix, with Zabbix/Pipeline from the output to the metric).
-- * Base has what these share: lists, maps, machine integers, Boolean tests, and texts as lists of
--   character codes with what is used of Go's strings and strconv (Text). Tests has runs.
--
-- A method that holds its lock, or is one atomic instruction, is a function from state to state. So
-- are the first half of a rebuild and the marking of a connection, which take several locks in turn.
-- What several goroutines do is a list of such steps in any order: Conn.Steps.Op,
-- Pool.Steps.PoolOp, Syncer's Subscribers.Safety.Call, Aggregator.Conservation.Op,
-- Async.Accounts.Act, Pool.Batch.Totals.Turn, Scheduler.Workers.Event, Scheduler.Pings.Flight.Step and
-- Manager's Events.Step. A choice that Go makes
-- at random (a select with several ready cases) is an argument. Counters are bit patterns with
-- their wrap-around; durations and times are naturals. Go's float64, the hash FNV-1a, JSON
-- encoding, errors.Is, sort.Slice, the strconv of configuration values and an operation that is
-- retried are arguments. The text of a device is ASCII; a percentage is read as an exact decimal and
-- rounded as float64 does where this decides the whole number. An id
-- of a connection names one object, so a pool is a map of objects with the list of its members.
-- The loops of the retrier and of getConnectionFromPool are recursions on the attempts that are
-- left, and a context is the number of looks at it that still find it alive. Only the recursion of
-- buildTemplateChain runs on fuel: the number of templates is enough, since each level of it
-- processes a new one. The waiting loop of fullSync is a recursion on its 150 checks.
--
-- Not modelled: the network drivers, the timers of the pool's background tasks, its events and
-- functions over all protocols, metrics, the reading of configuration files, the
-- Zabbix client and the sender's connections, which are input, output or glue; logging.
pub mod Base
pub mod Connection
pub mod Syncer
pub mod Manager
pub mod Task
pub mod Tests
