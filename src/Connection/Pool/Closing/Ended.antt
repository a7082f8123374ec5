-- ===== src/Connection/Pool/Closing/Ended.antt =====
-- What Close and ShutdownGraceful in connection/pool_enhanced.go leave of a pool.
use zabbix_ddl_monitor.Base.{
  ℕ, suc, true, false, String, Option, none, some, List, [], ◌∷◌, str_eq, eq_iff, ◌≡◌, ◌≢◌, refl,
  ap, ◌∙◌, arith, inl, inr, Bool-cases, if◌then◌else◌, if_both,
}
use zabbix_ddl_monitor.Base.Map.{Map, lookup, lookup-insert}
use zabbix_ddl_monitor.Connection.Conn
use zabbix_ddl_monitor.Connection.Conn.{Conn}
use zabbix_ddl_monitor.Connection.State.{acquired, can_transition}
use zabbix_ddl_monitor.Connection.Health.{unhealthy}
use zabbix_ddl_monitor.Connection.Pool.{DriverPool, has_name, with_object, update_object}
use zabbix_ddl_monitor.Connection.Pool.Closing.{
  is_active, active_among, get_active_connection_count, close_object, close_members, close,
  wait_for_idle, shutdown_graceful,
}

-- No task can have this connection any more.
pub record IsEnded (c : Conn) : Type 0 where
  pub unfit : c.health_status ≡ unhealthy
  pub given_back : c.state ≢ acquired

close_object-IsEnded : (now : ℕ) (c : Conn) → IsEnded (close_object now c)
unfolding close_object Conn.set_health Conn.release can_transition
close_object-IsEnded now c = record { unfit = refl; given_back = ground arith }

-- This id has a connection, which is ended.
abbrev pub HasEnded : String → DriverPool → Type 0
HasEnded id p = (c : Conn) × (lookup id p.objects ≡ some c) × IsEnded c

abbrev Exists : String → DriverPool → Type 0
Exists id p = (c : Conn) × (lookup id p.objects ≡ some c)

same_key : (k id : String) (m : Map Conn) → k ≡ id → lookup k m ≡ lookup id m
same_key k id m e = ap (λ i. lookup i m) e

lookup-update_object :
    (f : Conn → Conn) (k id : String) (o : Option Conn) (m : Map Conn) (c : Conn)
    → lookup k m ≡ o
    → lookup id m ≡ some c
    → lookup id (update_object f k o m) ≡ some (if str_eq k id then f c else c)
lookup-update_object f k id none m c e h = elim (Bool-cases (str_eq k id)) [
  | inl q ↦ absurd (ground (arith, same_key k id m ((eq_iff k id).0 q)))
  | inr q ↦ rw q h
]
lookup-update_object f k id (some d) m c e h = elim (Bool-cases (str_eq k id)) [
  | inl q ↦ rw q (ground (arith, lookup-insert k id (f d) m, same_key k id m ((eq_iff k id).0 q)))
  | inr q ↦ rw q (ground (arith, lookup-insert k id (f d) m))
]

lookup-with_object :
    (f : Conn → Conn) (k id : String) (p : DriverPool) (c : Conn)
    → lookup id p.objects ≡ some c
    → lookup id (with_object k f p).objects ≡ some (if str_eq k id then f c else c)
unfolding with_object
lookup-with_object f k id p c h =
    lookup-update_object f k id (lookup k p.objects) p.objects c refl h

closed_once :
    (now : ℕ) (k id : String) (p : DriverPool) (c : Conn)
    → lookup id p.objects ≡ some c
    → str_eq k id ≡ true
    → HasEnded id (with_object k (close_object now) p)
closed_once now k id p c h q = (
  close_object now c,
  (lookup-with_object (close_object now) k id p c h ∙ rw q refl),
  close_object-IsEnded now c,
)

kept_or_closed :
    (now : ℕ) (k id : String) (p : DriverPool) (c : Conn)
    → lookup id p.objects ≡ some c
    → Exists id (with_object k (close_object now) p)
kept_or_closed now k id p c h = (
  if str_eq k id then close_object now c else c,
  lookup-with_object (close_object now) k id p c h,
)

stays_ended :
    (now : ℕ) (ids : List String) (id : String) (p : DriverPool)
    → HasEnded id p
    → HasEnded id (close_members now ids p)
unfolding close_members
stays_ended now [] id p e = e
stays_ended now (k ∷ ids) id p (c, h, e) =
    stays_ended now ids id (with_object k (close_object now) p) (
      if str_eq k id then close_object now c else c,
      lookup-with_object (close_object now) k id p c h,
      if_both IsEnded (str_eq k id) (close_object now c) c (close_object-IsEnded now c) e,
    )

all_end :
    (now : ℕ) (ids : List String) (id : String) (p : DriverPool) (c : Conn)
    → has_name id ids ≡ true
    → lookup id p.objects ≡ some c
    → HasEnded id (close_members now ids p)
unfolding close_members
all_end now [] id p c m h = absurd (ground arith)
all_end now (k ∷ ids) id p c m h = elim (Bool-cases (str_eq k id)) [
  | inl q ↦
      stays_ended now ids id (with_object k (close_object now) p) (closed_once now k id p c h q)
  | inr q ↦
      let (d, g) = kept_or_closed now k id p c h in
      all_end now ids id (with_object k (close_object now) p) d (ground arith) g
]

-- Close leaves no member, and every connection that was one is unhealthy and has no task, so that no
-- task can acquire it.
pub close_ends :
    (now later : ℕ) (p : DriverPool) (id : String) (c : Conn)
    → has_name id p.members ≡ true
    → lookup id p.objects ≡ some c
    → ((close now p).members ≡ [])
      × ((d : Conn) × (lookup id (close now p).objects ≡ some d)
          × IsEnded d
          × ((Conn.try_acquire_for_task later d).1 ≡ false))
unfolding close Conn.try_acquire_for_task
close_ends now later p id c m h =
    let (d, g, e) = all_end now p.members id p c m h in (refl, (d, g, e, ground (arith, e.unfit)))

-- No connection of the pool is acquired; it may well be executing.
abbrev pub NoneAcquired : List String → DriverPool → Type 0
NoneAcquired [] p = Unit {0}
NoneAcquired (id ∷ ids) p = (is_active (lookup id p.objects) ≡ false) × NoneAcquired ids p

none_active : (ids : List String) (p : DriverPool) → NoneAcquired ids p → active_among ids p ≡ 0
unfolding active_among
none_active [] p n = refl
none_active (id ∷ ids) p (e, n) = rw e (none_active ids p n)

waits_for_none :
    (look : ℕ → DriverPool) (looks : ℕ)
    → NoneAcquired (look 0).members (look 0)
    → wait_for_idle look (suc looks) 0 ≡ 0
unfolding wait_for_idle get_active_connection_count
waits_for_none look looks n = rw (none_active (look 0).members (look 0) n) refl

-- ShutdownGraceful closes the pool at its first look when no connection is acquired, even while tasks
-- execute on connections; then no member is left, and each connection that was one is unhealthy and
-- can be acquired by no task.
pub shutdown_graceful_closes :
    (look : ℕ → DriverPool) (looks now : ℕ)
    → NoneAcquired (look 0).members (look 0)
    → let q = shutdown_graceful look (suc looks) now in
      (q.members ≡ [])
      × ((id : String) (c : Conn) (later : ℕ)
          → has_name id (look 0).members ≡ true
          → lookup id (look 0).objects ≡ some c
          → (d : Conn) × (lookup id q.objects ≡ some d)
            × IsEnded d
            × ((Conn.try_acquire_for_task later d).1 ≡ false))
unfolding shutdown_graceful
shutdown_graceful_closes look looks now n =
    rw (waits_for_none look looks n)
      (unfold close in refl, λ id c later m h. (close_ends now later (look 0) id c m h).1)
