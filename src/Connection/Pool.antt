-- ===== src/Connection/Pool.antt =====
-- connection/pool_enhanced.go: the driver pool of one protocol. `objects` has every connection that
-- was made, by its id, also those that have left the pool and that a task may still hold; `members`
-- are the keys of `pool.connections`, in the order of a `range` loop. An id, made of the host, the
-- protocol and the nanosecond, names one object. Closing a network connection is left out.
pub mod Get
pub mod Driver
pub mod Cleanup
pub mod Rebuilding
pub mod Batch
pub mod Warmup
pub mod Closing
pub mod Steps
use zabbix_ddl_monitor.Base.{
  ℕ, ◌+◌, Bool, true, false, String, Option, none, some, List, [], ◌∷◌, leb, length, str_eq,
  if◌then◌else◌,
}
use zabbix_ddl_monitor.Base.Int64
use zabbix_ddl_monitor.Base.Map.{Map, lookup, insert}
use zabbix_ddl_monitor.Connection.Conn
use zabbix_ddl_monitor.Connection.Conn.{Conn, no_reason}
use zabbix_ddl_monitor.Connection.State.{idle}
use zabbix_ddl_monitor.Connection.Health.{unknown}

-- The counters of DriverPoolStats that the pool's operations change; each is an int64.
pub record DriverPoolStats : Type 0 where
  pub active_connections : ℕ
  pub idle_connections : ℕ
  pub created_connections : ℕ
  pub destroyed_connections : ℕ
  pub reuse_count : ℕ

pub record DriverPool : Type 0 where
  pub objects : Map Conn
  pub members : List String
  pub stats : DriverPoolStats

abbrev pub has_name : String → List String → Bool
has_name id [] = false
has_name id (n ∷ ns) = if str_eq n id then true else has_name id ns

abbrev pub without_name : String → List String → List String
without_name id [] = []
without_name id (n ∷ ns) = let rest = without_name id ns in if str_eq n id then rest else n ∷ rest

-- A new key of the map; a key that is there keeps its place.
abbrev pub with_name : String → List String → List String
with_name id ns = if has_name id ns then ns else id ∷ ns

abbrev pub size : DriverPool → ℕ
size p = length p.members

-- len(pool.connections) >= p.maxConnections, for a maximum that is not negative.
abbrev pub is_full : ℕ → DriverPool → Bool
is_full max p = leb max (size p)

abbrev pub activated : DriverPoolStats → DriverPoolStats
activated s = record s {
  active_connections = Int64.inc s.active_connections;
  idle_connections = Int64.dec s.idle_connections;
}

-- The connection that createConnection makes, at the time `now`.
unfoldable pub new_connection : String → String → ℕ → Conn
new_connection id protocol now = record {
  id = id;
  protocol = protocol;
  created_at = now;
  last_used = now;
  usage_count = 0;
  state = idle;
  rebuilding = false;
  last_rebuilt_at = none;
  marked_for_rebuild = 0;
  rebuild_reason = no_reason;
  health_status = unknown;
  last_health_check = none;
  consecutive_failures = 0;
  total_requests = 0;
  total_errors = 0;
  using_count = 0;
}

-- A method of the object with this id, if there is one.
abbrev pub update_object : (Conn → Conn) → String → Option Conn → Map Conn → Map Conn
update_object f id none m = m
update_object f id (some c) m = insert id (f c) m

unfoldable pub with_object : String → (Conn → Conn) → DriverPool → DriverPool
with_object id f p = record p { objects = update_object f id (lookup id p.objects) p.objects }

-- Release: it does not ask whether the connection is still in the pool, and counts a request.
unfoldable pub release : String → ℕ → Bool → DriverPool → DriverPool
unfolding with_object
release id now success p =
    let q = with_object id (λ c. Conn.count_request success (Conn.release now c)) p in
    record q {
      stats = record q.stats {
        active_connections = Int64.dec q.stats.active_connections;
        idle_connections = Int64.inc q.stats.idle_connections;
      };
    }

-- activateConnection
unfoldable pub activate : DriverPool → DriverPool
activate p = record p {
  stats = record (activated p.stats) { reuse_count = Int64.inc p.stats.reuse_count };
}
