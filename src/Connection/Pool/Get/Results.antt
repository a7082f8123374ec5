-- ===== src/Connection/Pool/Get/Results.antt =====
-- What getConnectionFromPool in connection/pool_enhanced.go hands to a task, and when it does.
use zabbix_ddl_monitor.Base.{
  ℕ, zero, suc, Bool, true, false, String, Option, none, some, List, [], ◌∷◌, ◌==◌, leb, eq_refl,
  ◌≡◌, refl, arith, inl, inr, Bool-cases, if_both,
}
use zabbix_ddl_monitor.Base.Map.{lookup, lookup-insert}
use zabbix_ddl_monitor.Connection.Conn
use zabbix_ddl_monitor.Connection.Conn.{Conn}
use zabbix_ddl_monitor.Connection.State.{acquired, can_transition}
use zabbix_ddl_monitor.Connection.Pool
use zabbix_ddl_monitor.Connection.Pool.{DriverPool, has_name, is_full, size, new_connection}
use zabbix_ddl_monitor.Connection.Pool.Get.{
  Got, found, failed, nothing, taken, acquire_object, acquire_member, try_ids, try_get_available,
  acquire_new, with_new, add_new, create, try_create_new, Attempts, or_create, attempt, pause,
  go_on, begin, get_loop, get_connection_from_pool, get_once, activate_if,
}

-- The pool has this member, and it is acquired.
pub record HasAcquired (id : String) (p : DriverPool) : Type 0 where
  pub member : has_name id p.members ≡ true
  pub object : Conn
  pub found_at : lookup id p.objects ≡ some object
  pub is_acquired : object.state ≡ acquired

-- A result with a connection is such a member.
abbrev pub IsSound : DriverPool → Got → Type 0
IsSound p (found id) = HasAcquired id p
IsSound p (failed e) = Unit {0}
IsSound p nothing = Unit {0}

acquired_when_got :
    (now : ℕ) (c : Conn)
    → (Conn.try_acquire_for_task now c).1 ≡ true
    → (Conn.try_acquire_for_task now c).0.state ≡ acquired
unfolding Conn.try_acquire_for_task can_transition
acquired_when_got now c h = ground arith

taken-HasAcquired :
    (id : String) (p : DriverPool) (r : Conn × Bool)
    → has_name id p.members ≡ true
    → (r.1 ≡ true → r.0.state ≡ acquired)
    → (taken id p r).1 ≡ true
    → HasAcquired id (taken id p r).0
taken-HasAcquired id p (c, true) m s h = record {
  member = m;
  object = c;
  found_at = ground (arith, eq_refl id, lookup-insert id id c p.objects);
  is_acquired = s refl;
}
taken-HasAcquired id p (c, false) m s h = absurd (ground arith)

acquire_object-HasAcquired :
    (now : ℕ) (id : String) (p : DriverPool) (o : Option Conn)
    → has_name id p.members ≡ true
    → (acquire_object now id p o).1 ≡ true
    → HasAcquired id (acquire_object now id p o).0
acquire_object-HasAcquired now id p none m h = absurd (ground arith)
acquire_object-HasAcquired now id p (some c) m h =
    taken-HasAcquired id p (Conn.try_acquire_for_task now c) m (acquired_when_got now c) h

acquire_member-HasAcquired :
    (now : ℕ) (id : String) (p : DriverPool)
    → (acquire_member now id p).1 ≡ true
    → HasAcquired id (acquire_member now id p).0
unfolding acquire_member
acquire_member-HasAcquired now id p h = elim (Bool-cases (has_name id p.members)) [
  | inl m ↦ rw m (acquire_object-HasAcquired now id p (lookup id p.objects) m (ground arith))
  | inr m ↦ absurd (ground arith)
]

try_ids-IsSound :
    (now : ℕ) (ids : List String) (left : ℕ) (p : DriverPool)
    → let r = try_ids now ids left p in IsSound r.0 r.1
unfolding try_ids
try_ids-IsSound now [] left p = tt
try_ids-IsSound now (id ∷ ids) zero p = tt
try_ids-IsSound now (id ∷ ids) (suc left) p = elim (Bool-cases (acquire_member now id p).1) [
  | inl e ↦ rw e (acquire_member-HasAcquired now id p e)
  | inr e ↦ rw e (try_ids-IsSound now ids left p)
]

acquire_new-IsSound :
    (now : ℕ) (id : String) (p : DriverPool)
    → IsSound (acquire_new now id p).0 (acquire_new now id p).1
acquire_new-IsSound now id p = elim (Bool-cases (acquire_member now id p).1) [
  | inl e ↦ rw e (acquire_member-HasAcquired now id p e)
  | inr e ↦ rw e tt
]

-- What a call that creates a connection gives back.
abbrev IsSoundAt : DriverPool × Got × ℕ → Type 0
IsSoundAt (p, got, left) = IsSound p got

add_new-IsSound :
    (max : ℕ) (id protocol : String) (now : ℕ) (p : DriverPool)
    → IsSound (add_new max id protocol now p).0 (add_new max id protocol now p).1
unfolding add_new
add_new-IsSound max id protocol now p =
    if_both (λ (r : DriverPool × Got). IsSound r.0 r.1) (leb max (size p)) (p, nothing) _ tt
      (if_both (λ (r : DriverPool × Got). IsSound r.0 r.1) (has_name id p.members) (p, nothing) _ tt
        (acquire_new-IsSound now id (with_new id protocol now p)))

create-IsSound :
    (max : ℕ) (made : Option String) (protocol : String) (now left : ℕ) (p : DriverPool)
    → IsSoundAt (create max made protocol now left p)
create-IsSound max made protocol now zero p = tt
create-IsSound max none protocol now (suc left) p = tt
create-IsSound max (some id) protocol now (suc left) p = add_new-IsSound max id protocol now p

try_create_new-IsSound :
    (max : ℕ) (made : Option String) (protocol : String) (now left : ℕ) (p : DriverPool)
    → IsSoundAt (try_create_new max made protocol now left p)
unfolding try_create_new
try_create_new-IsSound max made protocol now left p =
    if_both IsSoundAt (leb max (size p)) (p, nothing, left) (create max made protocol now left p) tt
      (create-IsSound max made protocol now left p)

module _ (env : Attempts) where
  or_create-IsSound :
      (n : ℕ) (r : DriverPool × Got × ℕ) → IsSoundAt r → IsSoundAt (or_create env n r)
  or_create-IsSound n (p, nothing, left) h =
      try_create_new-IsSound env.max_connections (env.factory n) env.protocol (env.clock n) left p
  or_create-IsSound n (p, found id, left) h = h
  or_create-IsSound n (p, failed e, left) h = tt

  attempt-IsSound : (n left : ℕ) (p : DriverPool) → IsSoundAt (attempt env n left p)
  unfolding attempt try_get_available
  attempt-IsSound n left p =
      or_create-IsSound n (try_get_available (env.clock n) left p)
        (try_ids-IsSound (env.clock n) p.members left p)

  -- A continuation whose results are sound.
  abbrev Keeps : (ℕ → DriverPool → DriverPool × Got) → Type 0
  Keeps next = (left : ℕ) (p : DriverPool) → IsSound (next left p).0 (next left p).1

  pause-IsSound :
      (next : ℕ → DriverPool → DriverPool × Got) (is_last : Bool) (left : ℕ) (p : DriverPool)
      → Keeps next
      → IsSound (pause env next is_last left p).0 (pause env next is_last left p).1
  pause-IsSound next true zero p k = tt
  pause-IsSound next false zero p k = tt
  pause-IsSound next true (suc left) p k = tt
  pause-IsSound next false (suc left) p k = k left p

  go_on-IsSound :
      (next : ℕ → DriverPool → DriverPool × Got) (is_last : Bool) (r : DriverPool × Got × ℕ)
      → Keeps next
      → IsSoundAt r
      → IsSound (go_on env next is_last r).0 (go_on env next is_last r).1
  go_on-IsSound next is_last (p, nothing, left) k h = pause-IsSound next is_last left p k
  go_on-IsSound next is_last (p, found id, left) k h = h
  go_on-IsSound next is_last (p, failed e, left) k h = tt

  get_loop-IsSound : (rounds n : ℕ) → Keeps (get_loop env rounds n)
  unfolding get_loop
  get_loop-IsSound zero n left p = tt
  get_loop-IsSound (suc rounds) n zero p = tt
  get_loop-IsSound (suc rounds) n (suc left) p =
      go_on-IsSound (get_loop env rounds (suc n)) (rounds == 0) (attempt env n left p)
        (get_loop-IsSound rounds (suc n)) (attempt-IsSound n left p)

  activate_if-IsSound :
      (r : DriverPool × Got) → IsSound r.0 r.1 → IsSound (activate_if env r).0 (activate_if env r).1
  unfolding Pool.activate
  activate_if-IsSound (p, found id) h = record {
    member = h.member;
    object = h.object;
    found_at = h.found_at;
    is_acquired = h.is_acquired;
  }
  activate_if-IsSound (p, failed e) h = tt
  activate_if-IsSound (p, nothing) h = tt

  begin-IsSound :
      (next : ℕ → DriverPool → DriverPool × Got) (left : ℕ) (p : DriverPool)
      → Keeps next
      → IsSound (begin env next left p).0 (begin env next left p).1
  begin-IsSound next zero p k = tt
  begin-IsSound next (suc left) p k = k left p

  -- When nothing else touches the pool between the start of GetWithContext and its end, a connection
  -- that it hands to a task is then a member of the pool in the acquired state, whether it was there
  -- before or was made for the task.
  pub get_once-IsSound :
      (is_shutting_down : Bool) (left : ℕ) (p : DriverPool)
      → let r = get_once env is_shutting_down left p in IsSound r.0 r.1
  unfolding get_once get_connection_from_pool
  get_once-IsSound true left p = tt
  get_once-IsSound false left p =
      activate_if-IsSound (begin env (begin env (get_connection_from_pool env)) left p) (
        begin-IsSound (begin env (get_connection_from_pool env)) left p (λ k q.
          begin-IsSound (get_connection_from_pool env) k q
            (λ m t. begin-IsSound (get_loop env 3 0) m t (get_loop-IsSound 3 0))))
