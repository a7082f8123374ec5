-- ===== src/Connection/Balancer.antt =====
-- connection/pool_enhanced.go: the load balancers, which choose one of the connections that they are
-- given. Each look at a connection is one step of its own in the code; here the connections stand
-- still during a choice.
pub mod Choice
use zabbix_ddl_monitor.Base.{
  ℕ, zero, suc, ◌+◌, ◌%◌, ◌^◌, Bool, true, false, not, ◌&&◌, Option, none, some, List, [], ◌∷◌,
  length, ltb, ◌==◌, if◌then◌else◌,
}
use zabbix_ddl_monitor.Base.Int64
use zabbix_ddl_monitor.Connection.State.{acquired, closed, closing, ◌=ₛ◌}
use zabbix_ddl_monitor.Connection.Health.{healthy, ◌=ₕ◌}
use zabbix_ddl_monitor.Connection.Conn.{Conn}

-- What getState says, and the test of both balancers on it.
unfoldable pub is_candidate : Conn → Bool
is_candidate c =
    not (c.state =ₛ acquired)
    && (not (c.state =ₛ closed) && not (c.state =ₛ closing))
    && (c.health_status =ₕ healthy)

-- The filter of the round-robin balancer.
unfoldable pub candidates : List Conn → List Conn
candidates [] = []
candidates (c ∷ cs) = let rest = candidates cs in if is_candidate c then c ∷ rest else rest

abbrev pub at : ℕ → List Conn → Option Conn
at n [] = none
at zero (c ∷ cs) = some c
at (suc n) (c ∷ cs) = at n cs

abbrev pick_next : List Conn → ℕ → ℕ × Option Conn
pick_next [] counter = (counter, none)
pick_next (c ∷ cs) counter =
    let next = (counter + 1) % 2 ^ 64 in (next, at (next % length (c ∷ cs)) (c ∷ cs))

-- SelectConnection of the round-robin balancer, with its counter, a uint64.
unfoldable pub select_round_robin : List Conn → ℕ → ℕ × Option Conn
select_round_robin cs counter = pick_next (candidates cs) counter

-- The loop of the balancer by the least use: the best so far, and its use.
unfoldable pub least_from : List Conn → ℕ → Option Conn → Option Conn
least_from [] least chosen = chosen
least_from (c ∷ cs) least chosen =
    let better = least_from cs c.usage_count (some c) in
    let same = least_from cs least chosen in
    if is_candidate c && Int64.ltb64 c.usage_count least then better else same

-- SelectConnection of this balancer; it begins with the greatest int64.
unfoldable pub select_least_used : List Conn → Option Conn
select_least_used cs = least_from cs 9223372036854775807 none

-- UpdateConnectionMetrics, as far as the counts go; the average response time is left out.
unfoldable pub update_connection_metrics : Bool → Conn → Conn
update_connection_metrics success c = record c {
  total_requests = Int64.inc c.total_requests;
  total_errors = if success then c.total_errors else Int64.inc c.total_errors;
}
