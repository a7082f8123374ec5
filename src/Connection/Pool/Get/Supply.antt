-- ===== src/Connection/Pool/Get/Supply.antt =====
-- When getConnectionFromPool in connection/pool_enhanced.go has a connection for a task.
use zabbix_ddl_monitor.Base.{
  ℕ, zero, suc, ◌+◌, ◌≤◌, ◌<◌, Bool, true, false, String, Option, some, List, [], ◌∷◌, length, ◌==◌,
  leb, str_eq, eq_refl, eq_iff, ◌≡◌, ◌≢◌, ◌⊎◌, refl, arith, inl, inr, Bool-cases, if◌then◌else◌,
}
use zabbix_ddl_monitor.Base.Int32
use zabbix_ddl_monitor.Base.Map.{lookup, lookup-insert}
use zabbix_ddl_monitor.Connection.Conn
use zabbix_ddl_monitor.Connection.Conn.{Conn, transition_state}
use zabbix_ddl_monitor.Connection.State.{idle, can_transition}
use zabbix_ddl_monitor.Connection.Health.{unhealthy}
use zabbix_ddl_monitor.Connection.Pool.{DriverPool, has_name, size, new_connection}
use zabbix_ddl_monitor.Connection.Pool.Get.{
  Got, found, failed, nothing, acquire_member, try_ids, try_get_available, acquire_new, with_new,
  add_new, try_create_new, Attempts, or_create, attempt, go_on, get_loop, get_connection_from_pool,
  get_once, activate_if,
}

abbrev pub is_found : Got → Bool
is_found (found id) = true
is_found (failed e) = false
is_found nothing = false

-- A connection that a task can acquire: idle, not unhealthy, not being rebuilt and not in use.
pub record IsFree (c : Conn) : Type 0 where
  pub is_idle : c.state ≡ idle
  pub fit : c.health_status ≢ unhealthy
  pub settled : c.rebuilding ≡ false
  pub unused : Int32.ltb32 0 c.using_count ≡ false

-- A free member, or room for the new connection that the factory makes.
pub data CanServe (max : ℕ) (made : Option String) (p : DriverPool) : Type 0 where
  free_member :
      (id : String) (c : Conn)
      → has_name id p.members ≡ true
      → lookup id p.objects ≡ some c
      → IsFree c
      → CanServe max made p
  room_for :
      (id : String)
      → made ≡ some id
      → size p < max
      → has_name id p.members ≡ false
      → CanServe max made p

-- tryAcquireForTask on this member would succeed.
abbrev is_free : ℕ → String → DriverPool → Bool
is_free now id p = (acquire_member now id p).1

free_acquired : (now : ℕ) (c : Conn) → IsFree c → (Conn.try_acquire_for_task now c).1 ≡ true
unfolding Conn.try_acquire_for_task can_transition
free_acquired now c f = ground arith

free_is_free :
    (now : ℕ) (id : String) (c : Conn) (p : DriverPool)
    → has_name id p.members ≡ true
    → lookup id p.objects ≡ some c
    → IsFree c
    → is_free now id p ≡ true
unfolding acquire_member
free_is_free now id c p m e f = ground (arith, free_acquired now c f)

-- The loop over the members went past all of them.
record Passed (ids : List String) (left : ℕ) (p : DriverPool) (r : DriverPool × Got × ℕ)
    : Type 0 where
  same_pool : r.0 ≡ p
  none_found : r.1 ≡ nothing
  looks : length ids + r.2 ≡ left

try_ids_ends :
    (now : ℕ) (ids : List String) (left : ℕ) (p : DriverPool)
    → length ids ≤ left
    → (is_found (try_ids now ids left p).1 ≡ true) ⊎ Passed ids left p (try_ids now ids left p)
unfolding try_ids
try_ids_ends now [] left p l =
    inr (record { same_pool = refl; none_found = refl; looks = omega arith })
try_ids_ends now (id ∷ ids) zero p l = absurd (omega arith)
try_ids_ends now (id ∷ ids) (suc left) p l = elim (Bool-cases (acquire_member now id p).1) [
  | inl e ↦ rw e (inl refl)
  | inr e ↦ rw e (elim (try_ids_ends now ids left p (omega arith)) [
    | inl f ↦ inl f
    | inr q ↦ inr (record {
      same_pool = q.same_pool;
      none_found = q.none_found;
      looks = omega (arith, q.looks);
    })
  ])
]

try_ids_finds :
    (now : ℕ) (ids : List String) (left : ℕ) (id : String) (p : DriverPool)
    → length ids ≤ left
    → has_name id ids ≡ true
    → is_free now id p ≡ true
    → is_found (try_ids now ids left p).1 ≡ true
unfolding try_ids
try_ids_finds now [] left id p l m f = absurd (ground arith)
try_ids_finds now (n ∷ ids) zero id p l m f = absurd (omega arith)
try_ids_finds now (n ∷ ids) (suc left) id p l m f = elim (Bool-cases (acquire_member now n p).1) [
  | inl e ↦ rw e refl
  | inr e ↦ rw e (elim (Bool-cases (str_eq n id)) [
    | inl s ↦ absurd (taken_twice now n id p s f e)
    | inr s ↦ try_ids_finds now ids left id p (omega arith) (ground arith) f
  ])
]
  where
    taken_twice :
        (now : ℕ) (n id : String) (p : DriverPool)
        → str_eq n id ≡ true
        → is_free now id p ≡ true
        → (acquire_member now n p).1 ≡ false
        → ⊥
    taken_twice now n id p s f e = cc ((eq_iff n id).0 s, f, e)

new_is_free :
    (id protocol : String) (now : ℕ) (p : DriverPool)
    → is_free now id (with_new id protocol now p) ≡ true
unfolding acquire_member new_connection Conn.try_acquire_for_task transition_state can_transition
new_is_free id protocol now p =
    ground (arith, eq_refl id, lookup-insert id id (new_connection id protocol now) p.objects)

acquire_new_found :
    (now : ℕ) (id : String) (p : DriverPool)
    → is_free now id p ≡ true
    → is_found (acquire_new now id p).1 ≡ true
acquire_new_found now id p h = rw h refl

second_found :
    (b : Bool) (q r : DriverPool × Got)
    → b ≡ false
    → is_found r.1 ≡ true
    → is_found (if b then q else r).1 ≡ true
second_found b q r e h = rw e h

try_create_new_found :
    (max : ℕ) (id protocol : String) (now left : ℕ) (p : DriverPool)
    → size p < max
    → has_name id p.members ≡ false
    → is_found (try_create_new max (some id) protocol now (suc left) p).1 ≡ true
unfolding try_create_new add_new
try_create_new_found max id protocol now left p l n = rw has_room (
    second_found (has_name id p.members) (p, nothing)
      (acquire_new now id (with_new id protocol now p)) n
      (acquire_new_found now id (with_new id protocol now p) (new_is_free id protocol now p)))
  where
    has_room : leb max (size p) ≡ false
    has_room = ground arith

module _ (env : Attempts) where
  or_create_found :
      (n : ℕ) (r : DriverPool × Got × ℕ)
      → is_found r.1 ≡ true
      → is_found (or_create env n r).1 ≡ true
  or_create_found n (p, nothing, left) h = absurd (ground arith)
  or_create_found n (p, found id, left) h = refl
  or_create_found n (p, failed e, left) h = absurd (ground arith)

  or_create_made :
      (n left : ℕ) (id : String) (p : DriverPool) (r : DriverPool × Got × ℕ)
      → length p.members < left
      → size p < env.max_connections
      → has_name id p.members ≡ false
      → env.factory n ≡ some id
      → Passed p.members left p r
      → is_found (or_create env n r).1 ≡ true
  or_create_made n left id p (q, found x, zero) l room new e h = refl
  or_create_made n left id p (q, failed x, k) l room new e h = absurd (ground (arith, h.none_found))
  or_create_made n left id p (q, nothing, zero) l room new e h = absurd (omega (arith, h.looks))
  or_create_made n left id p (q, found x, suc k) l room new e h = refl
  or_create_made n left id p (q, nothing, suc k) l room new e h =
      rw (h.same_pool, e)
        (try_create_new_found env.max_connections id env.protocol (env.clock n) k p room new)

  attempt_found :
      (n left : ℕ) (p : DriverPool)
      → length p.members < left
      → CanServe env.max_connections (env.factory n) p
      → is_found (attempt env n left p).1 ≡ true
  unfolding attempt try_get_available
  attempt_found n left p l (free_member id c m e f) =
      or_create_found n (try_ids (env.clock n) p.members left p) (
        try_ids_finds (env.clock n) p.members left id p (omega arith) m
          (free_is_free (env.clock n) id c p m e f))
  attempt_found n left p l (room_for id e room new) =
      elim (try_ids_ends (env.clock n) p.members left p (omega arith)) [
        | inl f ↦ or_create_found n (try_ids (env.clock n) p.members left p) f
        | inr q ↦ or_create_made n left id p (try_ids (env.clock n) p.members left p) l room new e q
      ]

  go_on_found :
      (next : ℕ → DriverPool → DriverPool × Got) (is_last : Bool) (r : DriverPool × Got × ℕ)
      → is_found r.1 ≡ true
      → is_found (go_on env next is_last r).1 ≡ true
  go_on_found next is_last (p, nothing, left) h = absurd (ground arith)
  go_on_found next is_last (p, found id, left) h = refl
  go_on_found next is_last (p, failed e, left) h = absurd (ground arith)

  activate_if_found :
      (r : DriverPool × Got) → is_found r.1 ≡ true → is_found (activate_if env r).1 ≡ true
  activate_if_found (p, nothing) h = absurd (ground arith)
  activate_if_found (p, found id) h = refl
  activate_if_found (p, failed e) h = absurd (ground arith)

  -- When nothing else touches the pool during the call, the context stays alive for one look for each
  -- member and five more, and the pool is not shutting down, GetWithContext gives a connection
  -- whenever a member is free or the pool has room for a new connection that the factory makes.
  pub get_once_serves :
      (left : ℕ) (p : DriverPool)
      → length p.members + 5 ≤ left
      → CanServe env.max_connections (env.factory 0) p
      → is_found (get_once env false left p).1 ≡ true
  unfolding get_once get_connection_from_pool get_loop
  get_once_serves zero p l c = absurd (omega arith)
  get_once_serves (suc zero) p l c = absurd (omega arith)
  get_once_serves (suc (suc zero)) p l c = absurd (omega arith)
  get_once_serves (suc (suc (suc zero))) p l c = absurd (omega arith)
  get_once_serves (suc (suc (suc (suc left)))) p l c =
      activate_if_found (go_on env (get_loop env 2 1) (2 == 0) (attempt env 0 left p)) (
        go_on_found (get_loop env 2 1) (2 == 0) (attempt env 0 left p)
          (attempt_found 0 left p (omega arith) c))
