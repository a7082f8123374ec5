-- ===== src/Connection/Pool/Steps/Covering.antt =====
-- The operations of a pool of connection/pool_enhanced.go leave each member its connection.
use zabbix_ddl_monitor.Base.{
  ℕ, Bool, true, false, String, Option, none, some, List, [], ◌∷◌, str_eq, eq_refl, leb, ◌≡◌, arith,
  if_both,
}
use zabbix_ddl_monitor.Base.Map.{Map, lookup, insert, lookup-insert}
use zabbix_ddl_monitor.Connection.Conn.{Conn}
use zabbix_ddl_monitor.Connection.State.{closing, closed, ◌=ₛ◌}
use zabbix_ddl_monitor.Connection.Conn
use zabbix_ddl_monitor.Connection.Pool.{
  DriverPool, size, has_name, with_name, without_name, with_object, update_object, new_connection,
}
use zabbix_ddl_monitor.Connection.Pool.Get.{
  acquire_object, acquire_member, taken, add_new, acquire_new, with_new, Got, found, failed,
  nothing, acquire_failed,
}
use zabbix_ddl_monitor.Connection.Pool.Cleanup.{CleanupConfig, remove_object, should_cleanup}
use zabbix_ddl_monitor.Connection.Pool.Rebuilding.{
  RebuildResult, not_suitable, can_start_rebuild, detach, after_begin, after_begin_close,
  begin_object,
}

abbrev pub holds : String → Map Conn → Bool
holds id m = elim (lookup id m) [ none ↦ false | some c ↦ true ]

-- Every member has its connection.
abbrev pub Covers : Map Conn → List String → Type 0
Covers m [] = Unit {0}
Covers m (n ∷ ns) = (holds n m ≡ true) × Covers m ns

-- The connections of one map are all in the other.
abbrev pub Extends : Map Conn → Map Conn → Type 0
Extends m n = (id : String) → holds id m ≡ true → holds id n ≡ true

pub Extends-insert : (k : String) (c : Conn) (m : Map Conn) → Extends m (insert k c m)
Extends-insert k c m id h = ground (arith, lookup-insert k id c m)

pub holds-insert : (k : String) (c : Conn) (m : Map Conn) → holds k (insert k c m) ≡ true
holds-insert k c m = ground (arith, eq_refl k, lookup-insert k k c m)

pub Covers-Extends : (m n : Map Conn) (ns : List String) → Extends m n → Covers m ns → Covers n ns
Covers-Extends m n [] e h = tt
Covers-Extends m n (k ∷ ns) e (h, t) = (e k h, Covers-Extends m n ns e t)

pub Covers-without_name :
    (m : Map Conn) (id : String) (ns : List String) → Covers m ns → Covers m (without_name id ns)
Covers-without_name m id [] h = tt
Covers-without_name m id (n ∷ ns) (h, t) =
    if_both (Covers m) (str_eq n id) (without_name id ns) (n ∷ without_name id ns)
      (Covers-without_name m id ns t) (h, Covers-without_name m id ns t)

pub Covers-with_name :
    (m : Map Conn) (id : String) (ns : List String)
    → holds id m ≡ true
    → Covers m ns
    → Covers m (with_name id ns)
Covers-with_name m id ns k h = if_both (Covers m) (has_name id ns) ns (id ∷ ns) h (k, h)

pub Extends-update_object :
    (f : Conn → Conn) (id : String) (o : Option Conn) (m : Map Conn)
    → Extends m (update_object f id o m)
Extends-update_object f id none m = λ j h. h
Extends-update_object f id (some c) m = Extends-insert id (f c) m

pub Covers-with_object :
    (id : String) (f : Conn → Conn) (p : DriverPool)
    → Covers p.objects p.members
    → Covers (with_object id f p).objects (with_object id f p).members
unfolding with_object
Covers-with_object id f p h =
    Covers-Extends p.objects (update_object f id (lookup id p.objects) p.objects) p.members
      (Extends-update_object f id (lookup id p.objects) p.objects) h

pub Covers-taken :
    (id : String) (p : DriverPool) (r : Conn × Bool)
    → Covers p.objects p.members
    → Covers (taken id p r).0.objects (taken id p r).0.members
Covers-taken id p (c, true) h =
    Covers-Extends p.objects (insert id c p.objects) p.members (Extends-insert id c p.objects) h
Covers-taken id p (c, false) h = h

pub Covers-acquire_object :
    (now : ℕ) (id : String) (p : DriverPool) (o : Option Conn)
    → Covers p.objects p.members
    → Covers (acquire_object now id p o).0.objects (acquire_object now id p o).0.members
Covers-acquire_object now id p none h = h
Covers-acquire_object now id p (some c) h = Covers-taken id p (Conn.try_acquire_for_task now c) h

abbrev pub IsCovered : DriverPool → Type 0
IsCovered p = Covers p.objects p.members

pub acquire_member-IsCovered :
    (now : ℕ) (id : String) (p : DriverPool) → IsCovered p → IsCovered (acquire_member now id p).0
unfolding acquire_member
acquire_member-IsCovered now id p h =
    if_both (λ r. IsCovered r.0) (has_name id p.members)
      (acquire_object now id p (lookup id p.objects)) (p, false)
      (Covers-acquire_object now id p (lookup id p.objects) h) h

pub acquire_new-IsCovered :
    (now : ℕ) (id : String) (p : DriverPool) → IsCovered p → IsCovered (acquire_new now id p).0
acquire_new-IsCovered now id p h =
    if_both (λ (r : DriverPool × Got). IsCovered r.0) (acquire_member now id p).1
      ((acquire_member now id p).0, found id) ((acquire_member now id p).0, failed acquire_failed)
      (acquire_member-IsCovered now id p h) (acquire_member-IsCovered now id p h)

pub covered_insert :
    (id : String) (c : Conn) (m : Map Conn) (ns : List String)
    → Covers m ns
    → Covers (insert id c m) ns
covered_insert id c m ns h = Covers-Extends m (insert id c m) ns (Extends-insert id c m) h

pub add_new-IsCovered :
    (max : ℕ) (id protocol : String) (now : ℕ) (p : DriverPool)
    → IsCovered p
    → IsCovered (add_new max id protocol now p).0
unfolding add_new
add_new-IsCovered max id protocol now p h =
    if_both (λ (r : DriverPool × Got). IsCovered r.0) (leb max (size p)) (p, nothing) _ h
      (if_both (λ (r : DriverPool × Got). IsCovered r.0) (has_name id p.members) (p, nothing) _ h
        (acquire_new-IsCovered now id (with_new id protocol now p) (
          holds-insert id (new_connection id protocol now) p.objects,
          covered_insert id (new_connection id protocol now) p.objects p.members h,
        )))

pub cleaned-IsCovered :
    (cfg : CleanupConfig) (now : ℕ) (id : String) (p : DriverPool) (o : Option Conn)
    → IsCovered p
    → IsCovered (remove_object cfg now id p o)
cleaned-IsCovered cfg now id p none h = h
cleaned-IsCovered cfg now id p (some c) h =
    if_both IsCovered (should_cleanup cfg now c) _ p (Covers-without_name p.objects id p.members h)
      h

pub detach-IsCovered :
    (id : String) (c : Conn) (p : DriverPool) → IsCovered p → IsCovered (detach id c p)
detach-IsCovered id c p h =
    Covers-without_name (insert id (Conn.complete_close c).0 p.objects) id p.members
      (covered_insert id (Conn.complete_close c).0 p.objects p.members h)

pub after_begin_close-IsCovered :
    (id : String) (p : DriverPool) (r : Conn × Bool)
    → IsCovered p
    → IsCovered (after_begin_close id p r).0
after_begin_close-IsCovered id p (c, true) h = detach-IsCovered id c p h
after_begin_close-IsCovered id p (c, false) h =
    if_both (λ (r : DriverPool × Option RebuildResult). IsCovered r.0) (c.state =ₛ closed)
      (detach id c p, none) _ (detach-IsCovered id c p h)
      (if_both (λ (r : DriverPool × Option RebuildResult). IsCovered r.0) (c.state =ₛ closing)
        (detach id c p, none) _ (detach-IsCovered id c p h)
        (covered_insert id (Conn.complete_rebuild true c) p.objects p.members h))

pub after_begin-IsCovered :
    (id : String) (p : DriverPool) (r : Conn × Bool)
    → IsCovered p
    → IsCovered (after_begin id p r).0
after_begin-IsCovered id p (c, true) h = after_begin_close-IsCovered id p (Conn.begin_close c) h
after_begin-IsCovered id p (c, false) h = h

pub begun-IsCovered :
    (id : String) (p : DriverPool) (o : Option Conn)
    → IsCovered p
    → IsCovered (begin_object id p o).0
begun-IsCovered id p none h = h
begun-IsCovered id p (some c) h =
    if_both (λ (r : DriverPool × Option RebuildResult). IsCovered r.0) (can_start_rebuild c)
      (after_begin id p (Conn.begin_rebuild c)) (p, some not_suitable)
      (after_begin-IsCovered id p (Conn.begin_rebuild c) h) h

pub joins :
    (id : String) (c : Conn) (m : Map Conn) (ns : List String)
    → Covers m ns
    → Covers (insert id c m) (with_name id ns)
joins id c m ns h =
    Covers-with_name (insert id c m) id ns (holds-insert id c m) (covered_insert id c m ns h)
