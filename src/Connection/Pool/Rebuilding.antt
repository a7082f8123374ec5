-- ===== src/Connection/Pool/Rebuilding.antt =====
-- connection/pool_enhanced.go: performCoreRebuild, from the old connection to its replacement. The
-- lock is not held while the new connection is made, so the two halves are functions of their own.
-- The first half takes several locks in turn, and is one step here.
pub mod Outcomes
use zabbix_ddl_monitor.Base.{
  ℕ, Bool, true, false, not, ◌&&◌, String, Option, none, some, if◌then◌else◌,
}
use zabbix_ddl_monitor.Base.Int32
use zabbix_ddl_monitor.Base.Int64
use zabbix_ddl_monitor.Base.Map.{lookup, insert}
use zabbix_ddl_monitor.Connection.Conn
use zabbix_ddl_monitor.Connection.Conn.{Conn}
use zabbix_ddl_monitor.Connection.State.{closing, closed, ◌=ₛ◌}
use zabbix_ddl_monitor.Connection.Pool.{
  DriverPool, with_name, without_name, new_connection, with_object,
}

pub data RebuildResult : Type 0 where
  rebuilt : String → RebuildResult
  not_suitable cannot_begin bad_state create_failed : RebuildResult

-- canStartRebuild
unfoldable pub can_start_rebuild : Conn → Bool
unfolding Conn.is_idle
can_start_rebuild c = Conn.is_idle c && not (Int32.ltb32 0 c.using_count)

-- Phase 3: the old connection leaves the pool and is closed.
abbrev pub detach : String → Conn → DriverPool → DriverPool
detach id c p = record p {
  objects = insert id (Conn.complete_close c).0 p.objects;
  members = without_name id p.members;
  stats = record p.stats { idle_connections = Int64.dec p.stats.idle_connections };
}

-- Phases 2 and 3, after beginClose. On a state that cannot be closed the deferred completeRebuild
-- finds no error, since the code returns another one, and clears the mark.
abbrev pub after_begin_close : String → DriverPool → Conn × Bool → DriverPool × Option RebuildResult
after_begin_close id p (c, begun) =
    if begun
    then (detach id c p, none)
    else if c.state =ₛ closed
    then (detach id c p, none)
    else if c.state =ₛ closing
    then (detach id c p, none)
    else (record p { objects = insert id (Conn.complete_rebuild true c) p.objects }, some bad_state)

abbrev pub after_begin : String → DriverPool → Conn × Bool → DriverPool × Option RebuildResult
after_begin id p (c, begun) =
    if begun then after_begin_close id p (Conn.begin_close c) else (p, some cannot_begin)

abbrev pub begin_object : String → DriverPool → Option Conn → DriverPool × Option RebuildResult
begin_object id p none = (p, some not_suitable)
begin_object id p (some c) =
    if can_start_rebuild c then after_begin id p (Conn.begin_rebuild c) else (p, some not_suitable)

-- Phases 1 to 3: `none` means that the rebuild goes on.
unfoldable pub begin_core_rebuild : String → DriverPool → DriverPool × Option RebuildResult
unfolding can_start_rebuild
begin_core_rebuild id p = begin_object id p (lookup id p.objects)

-- Phases 4 to 6: the replacement is added without a look at the size of the pool, and the deferred
-- completeRebuild ends the rebuild of the old connection.
abbrev pub attach : String → String → ℕ → DriverPool → DriverPool
attach made protocol now p = record p {
  objects = insert made (Conn.set_last_rebuilt_at now (new_connection made protocol now)) p.objects;
  members = with_name made p.members;
  stats = record p.stats {
    created_connections = Int64.inc p.stats.created_connections;
    idle_connections = Int64.inc p.stats.idle_connections;
  };
}

unfoldable pub end_core_rebuild :
    String → Option String → String → ℕ → DriverPool → DriverPool × RebuildResult
unfolding with_object new_connection
end_core_rebuild id none protocol now p =
    (with_object id (Conn.complete_rebuild false) p, create_failed)
end_core_rebuild id (some made) protocol now p =
    (with_object id (Conn.complete_rebuild true) (attach made protocol now p), rebuilt made)

abbrev pub go_on :
    String
    → Option String
    → String
    → ℕ
    → DriverPool × Option RebuildResult
    → DriverPool × RebuildResult
go_on id made protocol now (p, some r) = (p, r)
go_on id made protocol now (p, none) = end_core_rebuild id made protocol now p

-- performCoreRebuild, with nothing else in between.
unfoldable pub perform_core_rebuild :
    String → Option String → String → ℕ → DriverPool → DriverPool × RebuildResult
unfolding begin_core_rebuild end_core_rebuild
perform_core_rebuild id made protocol now p = go_on id made protocol now (begin_core_rebuild id p)
