-- ===== src/Connection/Pool/Closing.antt =====
-- connection/pool_enhanced.go: Close, and the wait of ShutdownGraceful, for one protocol. The closing
-- of a network connection, whose count of uses safeClose raises and lowers again, is left out.
pub mod Ended
use zabbix_ddl_monitor.Base.{
  ℕ, zero, suc, ◌+◌, ◌%◌, Bool, true, false, String, Option, none, some, List, [], ◌∷◌, length,
  ◌==◌, if◌then◌else◌,
}
use zabbix_ddl_monitor.Base.Int64.{word}
use zabbix_ddl_monitor.Base.Map.{lookup}
use zabbix_ddl_monitor.Connection.Conn
use zabbix_ddl_monitor.Connection.Conn.{Conn}
use zabbix_ddl_monitor.Connection.State.{acquired, ◌=ₛ◌}
use zabbix_ddl_monitor.Connection.Health.{unhealthy}
use zabbix_ddl_monitor.Connection.Pool.{DriverPool, with_object}

-- The first result of getState.
abbrev pub in_use : Conn → Bool
in_use c = c.state =ₛ acquired

abbrev pub is_active : Option Conn → Bool
is_active none = false
is_active (some c) = in_use c

unfoldable pub active_among : List String → DriverPool → ℕ
active_among [] p = 0
active_among (id ∷ ids) p =
    let rest = active_among ids p in if is_active (lookup id p.objects) then suc rest else rest

unfoldable pub get_active_connection_count : DriverPool → ℕ
unfolding active_among
get_active_connection_count p = active_among p.members p

-- What Close does to each connection.
unfoldable pub close_object : ℕ → Conn → Conn
close_object now c = Conn.set_health unhealthy (if in_use c then Conn.release now c else c)

unfoldable pub close_members : ℕ → List String → DriverPool → DriverPool
unfolding with_object close_object
close_members now [] p = p
close_members now (id ∷ ids) p = close_members now ids (with_object id (close_object now) p)

-- Close
unfoldable pub close : ℕ → DriverPool → DriverPool
unfolding close_members
close now p =
    let q = close_members now p.members p in
    record q {
      members = [];
      stats = record q.stats {
        destroyed_connections = (q.stats.destroyed_connections + length p.members) % word;
      };
    }

-- ShutdownGraceful waits as long as a look at the pool finds an active connection, up to a number of
-- looks; `look` gives what the pool is at each. The result is the look after which it closes.
unfoldable pub wait_for_idle : (ℕ → DriverPool) → ℕ → ℕ → ℕ
unfolding get_active_connection_count
wait_for_idle look zero n = n
wait_for_idle look (suc left) n =
    let later = wait_for_idle look left (suc n) in
    if get_active_connection_count (look n) == 0 then n else later

unfoldable pub shutdown_graceful : (ℕ → DriverPool) → ℕ → ℕ → DriverPool
unfolding wait_for_idle close
shutdown_graceful look looks now = close now (look (wait_for_idle look looks 0))
