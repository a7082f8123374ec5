-- ===== src/Connection/Pool/Steps/Capacity.antt =====
-- How many connections a pool of connection/pool_enhanced.go can hold.
use zabbix_ddl_monitor.Base.{
  ℕ, suc, ◌+◌, ◌≤◌, ◌<◌, Bool, true, false, String, Option, none, some, List, [], ◌∷◌, leb, length,
  ◌≡◌, refl, arith, Bool-cases, ◌⊎◌, inl, inr, if◌then◌else◌,
}
use zabbix_ddl_monitor.Connection.Conn.{Conn}
use zabbix_ddl_monitor.Connection.Conn
use zabbix_ddl_monitor.Base.Map.{lookup}
use zabbix_ddl_monitor.Connection.Pool
use zabbix_ddl_monitor.Connection.Pool.{
  DriverPool, size, has_name, with_name, without_name, with_object, new_connection,
}
use zabbix_ddl_monitor.Connection.Pool.Get.{
  acquire_object, acquire_member, taken, add_new, with_new,
}
use zabbix_ddl_monitor.Connection.Pool.Cleanup.{
  CleanupConfig, cleanup_member, remove_object, should_cleanup,
}
use zabbix_ddl_monitor.Connection.Pool.Rebuilding.{
  begin_object, begin_core_rebuild, end_core_rebuild,
}
use zabbix_ddl_monitor.Connection.Pool.Warmup.{add_warm}
use zabbix_ddl_monitor.Connection.Pool.Steps.{
  PoolOp, acquires, adds, activates, releases, calls, cleans, begins_rebuild, ends_rebuild, warms,
  Settings, step, run,
}

length-without_name-le : (id : String) (ns : List String) → length (without_name id ns) ≤ length ns
length-without_name-le id [] = omega arith
length-without_name-le id (n ∷ ns) = ground (arith, length-without_name-le id ns)

members-taken :
    (id : String) (p : DriverPool) (r : Conn × Bool) → (taken id p r).0.members ≡ p.members
members-taken id p (c, true) = refl
members-taken id p (c, false) = refl

members-acquire_object :
    (now : ℕ) (id : String) (p : DriverPool) (o : Option Conn)
    → (acquire_object now id p o).0.members ≡ p.members
members-acquire_object now id p none = refl
members-acquire_object now id p (some c) = members-taken id p (Conn.try_acquire_for_task now c)

pub members-acquire_member :
    (now : ℕ) (id : String) (p : DriverPool) → (acquire_member now id p).0.members ≡ p.members
unfolding acquire_member
members-acquire_member now id p =
    ground (arith, members-acquire_object now id p (lookup id p.objects))

-- The members after an addition that is checked against the maximum.
pub members-add_new :
    (max : ℕ) (id protocol : String) (now : ℕ) (p : DriverPool)
    → (add_new max id protocol now p).0.members
      ≡ (if leb max (size p) then p.members else with_name id p.members)
unfolding add_new
members-add_new max id protocol now p =
    ground (arith, members-acquire_member now id (with_new id protocol now p))

pub members-begin :
    (id : String) (p : DriverPool) (o : Option Conn)
    → ((begin_object id p o).0.members ≡ p.members)
      ⊎ ((begin_object id p o).0.members ≡ without_name id p.members)
members-begin id p none = inl refl
members-begin id p (some c) = ground arith

-- The additions that do not look at the maximum: warm-ups, and replacements of rebuilt connections.
abbrev pub extra : PoolOp → ℕ
extra (warms id protocol now) = 1
extra (ends_rebuild id (some made) protocol now) = 1
extra op = 0

abbrev pub unchecked : List PoolOp → ℕ
unchecked [] = 0
unchecked (op ∷ ops) = extra op + unchecked ops

-- What a step makes of the members: nothing, one fewer, one more below the maximum, or one more
-- without a look at the maximum.
pub data Change (max allowed : ℕ) (ns ms : List String) : Type 0 where
  same : ms ≡ ns → Change max allowed ns ms
  left : (id : String) → ms ≡ without_name id ns → Change max allowed ns ms
  joined : (id : String) → length ns < max → ms ≡ with_name id ns → Change max allowed ns ms
  forced : (id : String) → allowed ≡ 1 → ms ≡ with_name id ns → Change max allowed ns ms

added :
    (max allowed : ℕ) (id : String) (ns ms : List String)
    → ms ≡ (if leb max (length ns) then ns else with_name id ns)
    → Change max allowed ns ms
added max allowed id ns ms h = elim (Bool-cases (leb max (length ns))) [
  | inl e ↦ same (ground arith)
  | inr e ↦ joined id (ground arith) (ground arith)
]

cleaned :
    (cfg : CleanupConfig) (now : ℕ) (id : String) (p : DriverPool) (o : Option Conn)
    (max allowed : ℕ)
    → Change max allowed p.members (remove_object cfg now id p o).members
cleaned cfg now id p none max allowed = same refl
cleaned cfg now id p (some c) max allowed = elim (Bool-cases (should_cleanup cfg now c)) [
  | inl e ↦ left id (ground arith)
  | inr e ↦ same (ground arith)
]

pub members-step :
    (cfg : Settings) (op : PoolOp) (p : DriverPool)
    → Change cfg.max_connections (extra op) p.members (step cfg op p).members
unfolding step Pool.activate Pool.release cleanup_member begin_core_rebuild end_core_rebuild
    add_warm with_object
members-step cfg (acquires id now) p = same (members-acquire_member now id p)
members-step cfg (adds id protocol now) p =
    added cfg.max_connections 0 id p.members _
      (members-add_new cfg.max_connections id protocol now p)
members-step cfg activates p = same refl
members-step cfg (releases id now success) p = same refl
members-step cfg (calls id op) p = same refl
members-step cfg (cleans id now) p = elim (Bool-cases (has_name id p.members)) [
  | inl e ↦ rw e (cleaned cfg.cleanup now id p (lookup id p.objects) cfg.max_connections 0)
  | inr e ↦ same (ground arith)
]
members-step cfg (begins_rebuild id) p = elim (members-begin id p (lookup id p.objects)) [
  | inl e ↦ same e
  | inr e ↦ left id e
]
members-step cfg (ends_rebuild id none protocol now) p = same refl
members-step cfg (ends_rebuild id (some made) protocol now) p = forced made refl refl
members-step cfg (warms id protocol now) p = forced id refl refl

length-with_name-le : (id : String) (ns : List String) → length (with_name id ns) ≤ suc (length ns)
length-with_name-le id ns = ground arith

length-Change :
    (max allowed n : ℕ) {ns ms : List String}
    → Change max allowed ns ms
    → length ns ≤ max + n
    → length ms ≤ max + n + allowed
length-Change max allowed n (same e) h = rw e (omega arith)
length-Change max allowed n {ns} (left id e) h = rw e (omega (arith, length-without_name-le id ns))
length-Change max allowed n {ns} (joined id l e) h = rw e (omega (arith, length-with_name-le id ns))
length-Change max allowed n {ns} (forced id l e) h = rw e (omega (arith, length-with_name-le id ns))

-- However tasks, the cleanup and rebuilds come between one another, a pool that holds at most the
-- maximum holds at most the maximum and one for each replacement and each warm connection, which
-- are added without a look at it; without these it never holds more than the maximum.
pub size-run-le :
    (cfg : Settings) (ops : List PoolOp) (n : ℕ) (p : DriverPool)
    → size p ≤ cfg.max_connections + n
    → size (run cfg ops p) ≤ cfg.max_connections + n + unchecked ops
unfolding run
size-run-le cfg [] n p h = omega arith
size-run-le cfg (op ∷ ops) n p h = omega (
  arith,
  size-run-le cfg ops (n + extra op) (step cfg op p)
      (omega (arith, length-Change cfg.max_connections (extra op) n (members-step cfg op p) h)),
)
