-- ===== src/Connection/Pool/Get.antt =====
-- connection/pool_enhanced.go: how a task gets a connection. `left` is the number of looks at the
-- context that still find it alive, so 0 means that it is done. The connection that the factory
-- makes, or its failure, is an argument for each attempt. A task runs here without interference. In
-- the code others may come between its parts, which Pool.Steps has: a cleanup that has decided on a
-- connection may still delete it after a task has acquired it.
pub mod Results
pub mod Supply
use zabbix_ddl_monitor.Base.{
  ℕ, zero, suc, Bool, true, false, String, Option, none, some, List, [], ◌∷◌, ◌==◌, if◌then◌else◌,
}
use zabbix_ddl_monitor.Base.Int64
use zabbix_ddl_monitor.Base.Map.{lookup, insert}
use zabbix_ddl_monitor.Connection.Conn
use zabbix_ddl_monitor.Connection.Conn.{Conn}
use zabbix_ddl_monitor.Connection.Pool.{
  DriverPool, has_name, with_name, is_full, activated, new_connection, activate,
}

pub data GetError : Type 0 where
  cancelled create_failed acquire_failed exhausted shutting_down : GetError

-- A connection, an error, or neither (nil, nil).
pub data Got : Type 0 where
  found : String → Got
  failed : GetError → Got
  nothing : Got

-- tryAcquireForTask on a member, and the two counters.
abbrev pub taken : String → DriverPool → Conn × Bool → DriverPool × Bool
taken id p (c, true) =
    (record p { objects = insert id c p.objects; stats = activated p.stats }, true)
taken id p (c, false) = (p, false)

abbrev pub acquire_object : ℕ → String → DriverPool → Option Conn → DriverPool × Bool
acquire_object now id p none = (p, false)
acquire_object now id p (some c) = taken id p (Conn.try_acquire_for_task now c)

unfoldable pub acquire_member : ℕ → String → DriverPool → DriverPool × Bool
acquire_member now id p =
    if has_name id p.members then acquire_object now id p (lookup id p.objects) else (p, false)

-- tryGetAvailableConnection: the loop over the ids that were read at the start.
unfoldable pub try_ids : ℕ → List String → ℕ → DriverPool → DriverPool × Got × ℕ
unfolding acquire_member
try_ids now [] left p = (p, nothing, left)
try_ids now (id ∷ ids) zero p = (p, failed cancelled, 0)
try_ids now (id ∷ ids) (suc left) p =
    let rest = try_ids now ids left p in
    let (q, got) = acquire_member now id p in if got then (q, found id, left) else rest

unfoldable pub try_get_available : ℕ → ℕ → DriverPool → DriverPool × Got × ℕ
unfolding try_ids
try_get_available now left p = try_ids now p.members left p

-- The end of tryCreateNewConnection, under the pool's lock: the second check of the size.
abbrev pub acquire_new : ℕ → String → DriverPool → DriverPool × Got
acquire_new now id p =
    let (q, got) = acquire_member now id p in
    if got then (q, found id) else (q, failed acquire_failed)

abbrev pub with_new : String → String → ℕ → DriverPool → DriverPool
with_new id protocol now p = record p {
  objects = insert id (new_connection id protocol now) p.objects;
  members = id ∷ p.members;
  stats = record p.stats {
    created_connections = Int64.inc p.stats.created_connections;
    idle_connections = Int64.inc p.stats.idle_connections;
  };
}

unfoldable pub add_new : ℕ → String → String → ℕ → DriverPool → DriverPool × Got
unfolding acquire_member new_connection
add_new max id protocol now p =
    if is_full max p
    then (p, nothing)
    else if has_name id p.members
    then (p, nothing)
    else acquire_new now id (with_new id protocol now p)

-- tryCreateNewConnection: createConnection looks at the context before it calls the factory.
abbrev pub create : ℕ → Option String → String → ℕ → ℕ → DriverPool → DriverPool × Got × ℕ
create max made protocol now zero p = (p, failed cancelled, 0)
create max none protocol now (suc left) p = (p, failed create_failed, left)
create max (some id) protocol now (suc left) p =
    let (q, got) = add_new max id protocol now p in (q, got, left)

unfoldable pub try_create_new :
    ℕ → Option String → String → ℕ → ℕ → DriverPool → DriverPool × Got × ℕ
unfolding add_new
try_create_new max made protocol now left p =
    if is_full max p then (p, nothing, left) else create max made protocol now left p

-- The environment of getConnectionFromPool: the time and the factory's answer at each attempt.
pub record Attempts : Type 0 where
  pub protocol : String
  pub max_connections : ℕ
  pub clock : ℕ → ℕ
  pub factory : ℕ → Option String

module _ (env : Attempts) where
  open env use {protocol, max_connections, clock, factory}

  abbrev pub or_create : ℕ → DriverPool × Got × ℕ → DriverPool × Got × ℕ
  or_create n (p, nothing, left) =
      try_create_new max_connections (factory n) protocol (clock n) left p
  or_create n (p, found id, left) = (p, found id, left)
  or_create n (p, failed e, left) = (p, failed e, left)

  -- One attempt, after the look at the context that begins it.
  unfoldable pub attempt : ℕ → ℕ → DriverPool → DriverPool × Got × ℕ
  unfolding try_get_available try_create_new
  attempt n left p = or_create n (try_get_available (clock n) left p)

  -- The wait between two attempts looks at the context too.
  abbrev pub pause : (ℕ → DriverPool → DriverPool × Got) → Bool → ℕ → DriverPool → DriverPool × Got
  pause next is_last zero p = (p, if is_last then failed exhausted else failed cancelled)
  pause next is_last (suc left) p = if is_last then (p, failed exhausted) else next left p

  abbrev pub go_on :
      (ℕ → DriverPool → DriverPool × Got) → Bool → DriverPool × Got × ℕ → DriverPool × Got
  go_on next is_last (p, nothing, left) = pause next is_last left p
  go_on next is_last (p, found id, left) = (p, found id)
  go_on next is_last (p, failed e, left) = (p, failed e)

  abbrev pub begin : (ℕ → DriverPool → DriverPool × Got) → ℕ → DriverPool → DriverPool × Got
  begin next zero p = (p, failed cancelled)
  begin next (suc left) p = next left p

  -- The loop, with the number of attempts that are left and the number of this attempt.
  unfoldable pub get_loop : ℕ → ℕ → ℕ → DriverPool → DriverPool × Got
  unfolding attempt
  get_loop zero n left p = (p, failed exhausted)
  get_loop (suc rounds) n left p =
      begin (λ l q. go_on (get_loop rounds (suc n)) (rounds == 0) (attempt n l q)) left p

  -- getConnectionFromPool
  unfoldable pub get_connection_from_pool : ℕ → DriverPool → DriverPool × Got
  unfolding get_loop
  get_connection_from_pool left p = begin (get_loop 3 0) left p

  -- GetWithContext with the first attempt of the retrier, which there always is: the check of the
  -- shutdown flag, its own look at the context, the retrier's look before the operation, and
  -- activateConnection on a success.
  abbrev pub activate_if : DriverPool × Got → DriverPool × Got
  activate_if (p, found id) = (activate p, found id)
  activate_if (p, failed e) = (p, failed e)
  activate_if (p, nothing) = (p, nothing)

  unfoldable pub get_once : Bool → ℕ → DriverPool → DriverPool × Got
  unfolding get_connection_from_pool activate
  get_once is_shutting_down left p =
      if is_shutting_down
      then (p, failed shutting_down)
      else activate_if (begin (begin get_connection_from_pool) left p)
