-- ===== src/Connection/Pool/Steps/Drift.antt =====
-- The counters of active and idle connections in connection/pool_enhanced.go over uses of a pool.
use zabbix_ddl_monitor.Base.{
  ℕ, ◌+◌, ◌%◌, ◌<◌, true, String, some, List, [], ◌∷◌, eq_refl, length, ◌≡◌, arith,
}
use zabbix_ddl_monitor.Base.Int64
use zabbix_ddl_monitor.Base.Int64.{word}
use zabbix_ddl_monitor.Base.Map.{lookup, insert, lookup-insert}
use zabbix_ddl_monitor.Connection.Conn
use zabbix_ddl_monitor.Connection.Conn.{Conn}
use zabbix_ddl_monitor.Connection.State.{idle, acquired, can_transition}
use zabbix_ddl_monitor.Connection.Pool
use zabbix_ddl_monitor.Connection.Pool.{DriverPool, has_name, with_object, update_object}
use zabbix_ddl_monitor.Connection.Pool.Get.{acquire_member}
use zabbix_ddl_monitor.Connection.Pool.Get.Supply.{IsFree}
use zabbix_ddl_monitor.Connection.Pool.Steps.{
  PoolOp, acquires, activates, releases, Settings, step, run,
}

-- One member is got, which acquires and activates it, and released, at each pair of times.
abbrev pub uses : String → List (ℕ × ℕ) → List PoolOp
uses id [] = []
uses id ((got, given) ∷ ts) = acquires id got ∷ activates ∷ releases id given true ∷ uses id ts

-- The connection while a task has it, and after the task has given it back.
abbrev held : ℕ → Conn → Conn
held got c = record c { state = acquired; last_used = got; usage_count = Int64.inc c.usage_count }

abbrev back : ℕ → Conn → Conn
back given c =
    Conn.count_request true
      (record c { state = idle; last_used = given; usage_count = Int64.inc c.usage_count })

acquire_free :
    (got : ℕ) (c : Conn) → IsFree c → Conn.try_acquire_for_task got c ≡ (held got c, true)
unfolding Conn.try_acquire_for_task can_transition
acquire_free got c f = ground arith

release_held :
    (got given : ℕ) (c : Conn)
    → Conn.count_request true (Conn.release given (held got c)) ≡ back given c
unfolding Conn.release can_transition
release_held got given c = ground arith

back-IsFree : (given : ℕ) (c : Conn) → IsFree c → IsFree (back given c)
unfolding Conn.count_request
back-IsFree given c f = ground arith

-- What one use leaves of the pool.
pub record Used (id : String) (c : Conn) (p q : DriverPool) : Type 0 where
  pub there : has_name id q.members ≡ true
  pub found : lookup id q.objects ≡ some c
  pub active : q.stats.active_connections ≡ (p.stats.active_connections + 1) % word
  pub idle_count :
      q.stats.idle_connections ≡ (p.stats.idle_connections + 18446744073709551615) % word

acquire_step :
    (id : String) (got : ℕ) (c : Conn) (p : DriverPool)
    → has_name id p.members ≡ true
    → lookup id p.objects ≡ some c
    → IsFree c
    → (acquire_member got id p).0
      ≡ record p { objects = insert id (held got c) p.objects; stats = Pool.activated p.stats }
unfolding acquire_member
acquire_step id got c p m e f = ground (arith, acquire_free got c f)

one_use :
    (cfg : Settings) (id : String) (got given : ℕ) (c : Conn) (p : DriverPool)
    → has_name id p.members ≡ true
    → lookup id p.objects ≡ some c
    → IsFree c
    → Used id
        (back given c)
        p
        (step cfg (releases id given true) (step cfg activates (step cfg (acquires id got) p)))
unfolding step Pool.activate Pool.release with_object
one_use cfg id got given c p m e f = rw (acquire_step id got c p m e f) (record {
  there = m;
  found = ground (
    arith,
    eq_refl id,
    lookup-insert id id (held got c) p.objects,
    lookup-insert id id (Conn.count_request true (Conn.release given (held got c)))
        (insert id (held got c) p.objects),
    release_held got given c,
  );
  active = omega arith;
  idle_count = omega arith;
})

-- Getting a free connection from the pool and releasing it, n times over, leaves it free, yet the
-- counter of active connections has grown by n and that of idle ones has fallen by n, modulo 2^64:
-- each use is counted twice when it begins and once when it ends.
pub uses_drift :
    (cfg : Settings) (id : String) (ts : List (ℕ × ℕ)) (c : Conn) (p : DriverPool)
    → has_name id p.members ≡ true
    → lookup id p.objects ≡ some c
    → IsFree c
    → p.stats.active_connections < word
    → p.stats.idle_connections < word
    → let q = run cfg (uses id ts) p in
      ((d : Conn) × (lookup id q.objects ≡ some d) × IsFree d)
      × (q.stats.active_connections ≡ (p.stats.active_connections + length ts) % word)
      × ((q.stats.idle_connections + length ts) % word ≡ p.stats.idle_connections)
unfolding run
uses_drift cfg id [] c p m e f a i = ((c, e, f), omega arith, omega arith)
uses_drift cfg id ((got, given) ∷ ts) c p m e f a i =
    let u = one_use cfg id got given c p m e f in
    let (d, n, k) =
      uses_drift cfg id ts (back given c)
        (step cfg (releases id given true) (step cfg activates (step cfg (acquires id got) p)))
        u.there u.found (back-IsFree given c f) (omega (arith, u.active))
        (omega (arith, u.idle_count)) in
    (d, omega (arith, u.active), omega (arith, u.idle_count))
