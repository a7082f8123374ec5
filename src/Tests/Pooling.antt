-- ===== src/Tests/Pooling.antt =====
-- Runs of the connection pool.
use zabbix_ddl_monitor.Base.{
  ℕ, ◌+◌, ◌*◌, ◌-◌, ◌%◌, ◌<◌, ◌≤◌, true, false, String, Option, none, some, List, [], ◌∷◌, ◌≡◌, ◌↔◌,
  ◌⊎◌, refl, arith, eq_iff,
}
use zabbix_ddl_monitor.Base.Int32
use zabbix_ddl_monitor.Base.Int64
use zabbix_ddl_monitor.Base.Map.{lookup}
use zabbix_ddl_monitor.Connection.Conn.{Conn, try_acquire_for_task}
use zabbix_ddl_monitor.Connection.Conn.Steps as ConnSteps
use zabbix_ddl_monitor.Connection.Health.{HealthConfig, unhealthy}
use zabbix_ddl_monitor.Connection.State.{acquired, closed, executing}
use zabbix_ddl_monitor.Connection.Pool.{
  has_name, DriverPool, DriverPoolStats, without_name, size, new_connection,
}
use zabbix_ddl_monitor.Connection.Pool.Get.{Attempts, get_once}
use zabbix_ddl_monitor.Connection.Pool.Get.Results.{IsSound, get_once-IsSound}
use zabbix_ddl_monitor.Connection.Pool.Get.Supply.{IsFree, is_found, room_for, get_once_serves}
use zabbix_ddl_monitor.Connection.Pool.Cleanup.{CleanupConfig, should_cleanup}
use zabbix_ddl_monitor.Connection.Pool.Cleanup.Deadline.{limit, should_cleanup_iff}
use zabbix_ddl_monitor.Connection.Pool.Rebuilding.{perform_core_rebuild, rebuilt}
use zabbix_ddl_monitor.Connection.Pool.Rebuilding.Outcomes.{rebuild_swaps}
use zabbix_ddl_monitor.Connection.Pool.Warmup.{WarmupStatus, not_started}
use zabbix_ddl_monitor.Connection.Pool.Batch.{begin_batch, success_count, failed_count}
use zabbix_ddl_monitor.Connection.Pool.Batch.Totals
use zabbix_ddl_monitor.Connection.Pool.Batch.Totals.{
  Turn, dispatches, works, batch_totals, count_marked, IsFewer,
}
use zabbix_ddl_monitor.Connection.Balancer.{select_least_used}
use zabbix_ddl_monitor.Connection.Balancer.Choice.{IsLeast, NoneBelow, select_least_used-IsLeast}
use zabbix_ddl_monitor.Connection.Pool.Closing.{shutdown_graceful}
use zabbix_ddl_monitor.Connection.Pool.Closing.Ended.{IsEnded, shutdown_graceful_closes}
use zabbix_ddl_monitor.Connection.Pool.Steps.{
  PoolOp, acquires, adds, activates, releases, calls, cleans, begins_rebuild, ends_rebuild, warms,
  Settings, run,
}
use zabbix_ddl_monitor.Connection.Pool.Steps.Capacity.{unchecked, size-run-le}
use zabbix_ddl_monitor.Connection.Pool.Steps.Drift.{uses, uses_drift}

abbrev no_stats : DriverPoolStats
no_stats = record {
  active_connections = 0;
  idle_connections = 1;
  created_connections = 1;
  destroyed_connections = 0;
  reuse_count = 0;
}

abbrev conn_a : Conn
unfolding new_connection
conn_a = new_connection "a" "ssh" 100

abbrev one_member : DriverPool
one_member = record { objects = ("a", conn_a) ∷ []; members = "a" ∷ []; stats = no_stats }

abbrev cleanup_config : CleanupConfig
cleanup_config = record {
  stuck_timeout_closing = 0;
  stuck_timeout_connecting = 0;
  stuck_timeout_acquired = 0;
  stuck_timeout_executing = 0;
  stuck_timeout_checking = 0;
  stuck_timeout_rebuild_idle = 0;
  idle_timeout = 600 * 1000000000;
}

abbrev health_config : HealthConfig
health_config = record {
  unhealthy_failure_threshold = 3;
  degraded_failure_threshold = 1;
  health_check_trigger_rebuild = true;
  rebuild_on_degraded = false;
}

abbrev pool_settings : Settings
pool_settings = record { max_connections = 2; cleanup = cleanup_config; health = health_config }

-- Two tasks add connections, a third finds the pool full, one is used, rebuilt and cleaned up.
abbrev pool_ops : List PoolOp
pool_ops =
    adds "b" "ssh" 200
    ∷ adds "c" "ssh" 210
    ∷ acquires "a" 300
    ∷ activates
    ∷ calls "a" ConnSteps.Op.acquire_use
    ∷ calls "a" ConnSteps.Op.release_use
    ∷ releases "a" 400 true
    ∷ begins_rebuild "a"
    ∷ ends_rebuild "a" (some "d") "ssh" 500
    ∷ warms "e" "ssh" 600
    ∷ cleans "d" 700
    ∷ []

size-run-le_example : size (run pool_settings pool_ops one_member) ≤ 2 + 0 + unchecked pool_ops
size-run-le_example = size-run-le pool_settings pool_ops 0 one_member (omega arith)

select_least_used-IsLeast_example :
    ((select_least_used (conn_a ∷ []) ≡ none) × NoneBelow 9223372036854775807 (conn_a ∷ []))
    ⊎ ((d : Conn) × (select_least_used (conn_a ∷ []) ≡ some d) × IsLeast (conn_a ∷ []) d)
select_least_used-IsLeast_example = select_least_used-IsLeast (conn_a ∷ [])

IsFree-a : IsFree conn_a
unfolding new_connection
IsFree-a = record { is_idle = refl; fit = ground arith; settled = refl; unused = refl }

uses_drift_example :
    let q = run pool_settings (uses "a" ((200, 300) ∷ (400, 500) ∷ [])) one_member in
    ((d : Conn) × (lookup "a" q.objects ≡ some d) × IsFree d)
    × (q.stats.active_connections ≡ (0 + 2) % Int64.word)
    × ((q.stats.idle_connections + 2) % Int64.word ≡ 1)
unfolding lookup
uses_drift_example =
    uses_drift pool_settings "a" ((200, 300) ∷ (400, 500) ∷ []) conn_a one_member refl refl IsFree-a
      (omega arith) (omega arith)

rebuild_swaps_example :
    let (q, r) = perform_core_rebuild "a" (some "b") "ssh" 900 one_member in
    (r ≡ rebuilt "b")
    × (size q ≡ size one_member)
    × (q.stats.idle_connections ≡ 1)
    × (q.members ≡ "b" ∷ without_name "a" one_member.members)
    × (lookup "a" q.objects ≡ some (record conn_a { state = closed; marked_for_rebuild = 0 }))
    × (lookup "b" q.objects
        ≡ some (record (new_connection "b" "ssh" 900) { last_rebuilt_at = some 900 }))
unfolding lookup new_connection
rebuild_swaps_example =
    rebuild_swaps "a" "b" "ssh" 900 conn_a one_member refl (refl, refl, refl) refl (refl, tt) refl
      (ground (arith, eq_iff "b" "a")) (omega arith)

should_cleanup_iff_example : (should_cleanup cleanup_config 601000000000 conn_a ≡ true) ↔ (
    (Int32.ltb32 0 conn_a.using_count ≡ false)
    × ((conn_a.health_status ≡ unhealthy)
        ⊎ (conn_a.state ≡ closed)
        ⊎ (limit cleanup_config conn_a.state conn_a.rebuilding < 601000000000 - conn_a.last_used)))
should_cleanup_iff_example = should_cleanup_iff cleanup_config 601000000000 conn_a

abbrev acquired_a : Conn
unfolding new_connection
acquired_a = record conn_a { state = acquired }

abbrev fresh_status : WarmupStatus
fresh_status = record { target = 0; success = 0; failed_count = 0; status = not_started }

abbrev warm_tries : List (List (Option String))
warm_tries = (none ∷ some "w" ∷ []) ∷ (none ∷ none ∷ none ∷ []) ∷ []

-- The factory makes "b" at the first attempt.
abbrev attempts : Attempts
attempts = record {
  protocol = "ssh";
  max_connections = 2;
  clock = λ n. 1000 + n;
  factory = λ n. some "b";
}

abbrev no_member : DriverPool
no_member = record { objects = []; members = []; stats = no_stats }

get_once-IsSound_example : let r = get_once attempts false 9 one_member in IsSound r.0 r.1
get_once-IsSound_example = get_once-IsSound attempts false 9 one_member

get_once_serves_example : is_found (get_once attempts false 6 no_member).1 ≡ true
get_once_serves_example =
    get_once_serves attempts 6 no_member (omega arith) (room_for "b" refl (omega arith) refl)

-- A pool whose member is marked for a rebuild.
abbrev marked_pool : DriverPool
marked_pool = record one_member { objects = ("a", record conn_a { marked_for_rebuild = 1 }) ∷ [] }

abbrev turns : List Turn
turns = dispatches true ∷ works (some "f") "ssh" 900 ∷ dispatches true ∷ works none "ssh" 901 ∷ []

abbrev two : ℕ
two = 2

batch_totals_example :
    let b = Totals.run turns (begin_batch two marked_pool) in
    let marked = count_marked marked_pool.members marked_pool in
    (0 < two → two < Int64.half_word → IsFewer (begin_batch two marked_pool).running two marked)
    × ((two ≡ 0) ⊎ ((Int64.half_word ≤ two) × (two < Int64.word))
        → IsFewer (begin_batch two marked_pool).running 3 marked)
    × (success_count b + failed_count b ≤ marked)
    × (b.running ≡ 0 → b.cancelled ≡ false → success_count b + failed_count b ≡ marked)
batch_totals_example = batch_totals two marked_pool turns

-- A pool whose only member executes a task's operation.
abbrev busy_pool : DriverPool
busy_pool = record one_member { objects = ("a", record conn_a { state = executing }) ∷ [] }

shutdown_graceful_closes_example :
    let q = shutdown_graceful (λ n. busy_pool) 4 1000 in
    (q.members ≡ [])
    × ((id : String) (c : Conn) (later : ℕ)
        → has_name id busy_pool.members ≡ true
        → lookup id busy_pool.objects ≡ some c
        → (d : Conn) × (lookup id q.objects ≡ some d)
          × IsEnded d
          × ((try_acquire_for_task later d).1 ≡ false))
unfolding lookup
shutdown_graceful_closes_example = shutdown_graceful_closes (λ n. busy_pool) 3 1000 (refl, tt)
