-- ===== src/Connection/Pool/Steps/Members.antt =====
-- The members of a pool of connection/pool_enhanced.go are distinct, and each is a connection.
use zabbix_ddl_monitor.Base.{
  ℕ, true, false, String, none, some, List, [], ◌∷◌, str_eq, Bool-cases, inl, inr, if_both,
}
use zabbix_ddl_monitor.Base.Map.{lookup}
use zabbix_ddl_monitor.Connection.Conn.{Conn}
use zabbix_ddl_monitor.Connection.Conn
use zabbix_ddl_monitor.Connection.Conn.Steps as ConnSteps
use zabbix_ddl_monitor.Connection.Pool
use zabbix_ddl_monitor.Connection.Pool.{
  DriverPool, size, has_name, with_name, without_name, with_object, update_object, new_connection,
}
use zabbix_ddl_monitor.Connection.Pool.Cleanup.{cleanup_member, remove_object}
use zabbix_ddl_monitor.Connection.Pool.Rebuilding.{begin_core_rebuild, end_core_rebuild, attach}
use zabbix_ddl_monitor.Connection.Pool.Rebuilding.Outcomes.{NoRepeat, has_name-without_name}
use zabbix_ddl_monitor.Connection.Pool.Warmup.{add_warm}
use zabbix_ddl_monitor.Connection.Pool.Steps.{
  PoolOp, acquires, adds, activates, releases, calls, cleans, begins_rebuild, ends_rebuild, warms,
  Settings, step, run,
}
use zabbix_ddl_monitor.Connection.Pool.Steps.Capacity.{
  Change, same, left, joined, forced, extra, members-step,
}
use zabbix_ddl_monitor.Connection.Pool.Steps.Covering.{
  Covers, Covers-with_object, IsCovered, acquire_member-IsCovered, add_new-IsCovered,
  cleaned-IsCovered, begun-IsCovered, joins,
}

pub record IsWellFormed (p : DriverPool) : Type 0 where
  pub distinct : NoRepeat p.members
  pub covered : Covers p.objects p.members

NoRepeat-without_name :
    (id : String) (ns : List String) → NoRepeat ns → NoRepeat (without_name id ns)
NoRepeat-without_name id [] h = tt
NoRepeat-without_name id (n ∷ ns) (h, t) =
    if_both NoRepeat (str_eq n id) (without_name id ns) (n ∷ without_name id ns)
      (NoRepeat-without_name id ns t)
      (has_name-without_name n id ns h, NoRepeat-without_name id ns t)

NoRepeat-with_name : (id : String) (ns : List String) → NoRepeat ns → NoRepeat (with_name id ns)
NoRepeat-with_name id ns h = elim (Bool-cases (has_name id ns)) [
  | inl e ↦ rw e h
  | inr e ↦ rw e (e, h)
]

NoRepeat-Change :
    (max allowed : ℕ) {ns ms : List String} → Change max allowed ns ms → NoRepeat ns → NoRepeat ms
NoRepeat-Change max allowed (same e) h = rw e h
NoRepeat-Change max allowed {ns} (left id e) h = rw e (NoRepeat-without_name id ns h)
NoRepeat-Change max allowed {ns} (joined id l e) h = rw e (NoRepeat-with_name id ns h)
NoRepeat-Change max allowed {ns} (forced id l e) h = rw e (NoRepeat-with_name id ns h)

step-IsCovered :
    (cfg : Settings) (op : PoolOp) (p : DriverPool) → IsCovered p → IsCovered (step cfg op p)
unfolding step Pool.activate Pool.release cleanup_member begin_core_rebuild end_core_rebuild
    add_warm
step-IsCovered cfg (acquires id now) p h = acquire_member-IsCovered now id p h
step-IsCovered cfg (adds id protocol now) p h =
    add_new-IsCovered cfg.max_connections id protocol now p h
step-IsCovered cfg activates p h = h
step-IsCovered cfg (releases id now success) p h =
    Covers-with_object id (λ c. Conn.count_request success (Conn.release now c)) p h
step-IsCovered cfg (calls id op) p h =
    Covers-with_object id (λ c. ConnSteps.step cfg.health c op) p h
step-IsCovered cfg (cleans id now) p h =
    if_both IsCovered (has_name id p.members)
      (remove_object cfg.cleanup now id p (lookup id p.objects)) p
      (cleaned-IsCovered cfg.cleanup now id p (lookup id p.objects) h) h
step-IsCovered cfg (begins_rebuild id) p h = begun-IsCovered id p (lookup id p.objects) h
step-IsCovered cfg (ends_rebuild id none protocol now) p h =
    Covers-with_object id (Conn.complete_rebuild false) p h
step-IsCovered cfg (ends_rebuild id (some made) protocol now) p h =
    Covers-with_object id (Conn.complete_rebuild true) (attach made protocol now p) (
      joins made (Conn.set_last_rebuilt_at now (new_connection made protocol now)) p.objects
        p.members h)
step-IsCovered cfg (warms id protocol now) p h =
    joins id (new_connection id protocol now) p.objects p.members h

-- Whatever steps the goroutines take, in whatever order, the pool lists no connection twice and each
-- listed id has its connection.
pub run-IsWellFormed :
    (cfg : Settings) (ops : List PoolOp) (p : DriverPool)
    → IsWellFormed p
    → IsWellFormed (run cfg ops p)
unfolding run
run-IsWellFormed cfg [] p v = v
run-IsWellFormed cfg (op ∷ ops) p v = run-IsWellFormed cfg ops (step cfg op p) (record {
  distinct = NoRepeat-Change cfg.max_connections (extra op) (members-step cfg op p) v.distinct;
  covered = step-IsCovered cfg op p v.covered;
})
