-- ===== src/Connection/Pool/Batch.antt =====
-- connection/pool_enhanced.go: RebuildConnectionByProto, from the marked connections to the counts of
-- its result. The workers, the loop that hands out the work and the context take turns in any order;
-- a rebuild is one step. The pool is that of the protocol. The pauses between batches are left out.
pub mod Totals
use zabbix_ddl_monitor.Base.{
  ℕ, zero, suc, ◌+◌, ◌-◌, Bool, true, false, not, ◌&&◌, String, Option, none, some, List, [], ◌∷◌,
  ◌++◌, length, ltb, ◌==◌, ◌||◌, if◌then◌else◌,
}
use zabbix_ddl_monitor.Base.Int64.{leb64}
use zabbix_ddl_monitor.Base.Map.{lookup}
use zabbix_ddl_monitor.Connection.Conn
use zabbix_ddl_monitor.Connection.Conn.{Conn}
use zabbix_ddl_monitor.Connection.Pool.{DriverPool, has_name}
use zabbix_ddl_monitor.Connection.Pool.Rebuilding.{RebuildResult, rebuilt, perform_core_rebuild}

-- getConnectionsForRebuild
abbrev pub is_marked : Option Conn → Bool
is_marked none = false
is_marked (some c) = Conn.is_marked_for_rebuild c

unfoldable pub marked_among : List String → DriverPool → List String
marked_among [] p = []
marked_among (id ∷ ids) p =
    let rest = marked_among ids p in if is_marked (lookup id p.objects) then id ∷ rest else rest

unfoldable pub get_connections_for_rebuild : DriverPool → List String
unfolding marked_among
get_connections_for_rebuild p = marked_among p.members p

-- RebuildConnectionByID with rebuildConnection: whether it succeeds.
abbrev pub is_rebuilt : RebuildResult → Bool
is_rebuilt (rebuilt id) = true
is_rebuilt r = false

unfoldable pub rebuild_connection_by_id :
    String → Option String → String → ℕ → DriverPool → DriverPool × Bool
unfolding perform_core_rebuild
rebuild_connection_by_id id made protocol now p =
    if has_name id p.members
    then (let (q, r) = perform_core_rebuild id made protocol now p in (q, is_rebuilt r))
    else (p, false)

-- The local variables of RebuildConnectionByProto; `waiting` are the connections that the loop has
-- not handed out.
pub record Batch : Type 0 where
  pub pool : DriverPool
  pub total : ℕ
  pub waiting : List String
  pub task_chan : List String
  pub chan_closed : Bool
  pub running : ℕ
  pub cancelled : Bool
  pub results : List (String × Bool)

abbrev pub min : ℕ → ℕ → ℕ
min a b = if ltb b a then b else a

-- Up to the start of the workers, for a concurrency that is an int.
unfoldable pub begin_batch : ℕ → DriverPool → Batch
unfolding get_connections_for_rebuild
begin_batch concurrency p = record {
  pool = p;
  total = length (get_connections_for_rebuild p);
  waiting = get_connections_for_rebuild p;
  task_chan = [];
  chan_closed = false;
  running =
      min (if leb64 concurrency 0 then 3 else concurrency) (length (get_connections_for_rebuild p));
  cancelled = false;
  results = [];
}

-- One turn of the loop that hands out the work; when both cases of its select are ready, `sends` says
-- which one is taken. The channel has room for all.
abbrev pub hand_out : Bool → List String → Batch → Batch
hand_out sends [] b = record b { chan_closed = true }
hand_out sends (id ∷ ids) b =
    if sends || not b.cancelled
    then record b { waiting = ids; task_chan = b.task_chan ++ (id ∷ []) }
    else record b { chan_closed = true }

unfoldable pub dispatch : Bool → Batch → Batch
dispatch sends b = if b.chan_closed then b else hand_out sends b.waiting b

-- One turn of a worker: it leaves when the channel is drained, and after one failure when the context
-- is done.
abbrev pub rebuild_one : Option String → String → ℕ → String → List String → Batch → Batch
rebuild_one made protocol now id ids b =
    let (q, success) = rebuild_connection_by_id id made protocol now b.pool in
    record b { pool = q; task_chan = ids; results = (id, success) ∷ b.results }

abbrev pub take : Option String → String → ℕ → List String → Batch → Batch
take made protocol now [] b = if b.chan_closed then record b { running = b.running - 1 } else b
take made protocol now (id ∷ ids) b =
    if b.cancelled
    then record b { task_chan = ids; running = b.running - 1; results = (id, false) ∷ b.results }
    else rebuild_one made protocol now id ids b

unfoldable pub work : Option String → String → ℕ → Batch → Batch
unfolding rebuild_connection_by_id
work made protocol now b = if b.running == 0 then b else take made protocol now b.task_chan b

abbrev pub count_results : Bool → List (String × Bool) → ℕ
count_results success [] = 0
count_results success ((id, s) ∷ rs) =
    let rest = count_results success rs in
    if success && s then suc rest else if not success && not s then suc rest else rest

-- The counts of the result, when every worker has returned.
unfoldable pub success_count : Batch → ℕ
success_count b = count_results true b.results

unfoldable pub failed_count : Batch → ℕ
failed_count b = count_results false b.results
