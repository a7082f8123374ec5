-- ===== src/Connection/Pool/Rebuilding/Outcomes.antt =====
-- How performCoreRebuild in connection/pool_enhanced.go can end.
use zabbix_ddl_monitor.Base.{
  ℕ, suc, ◌<◌, true, false, String, Option, none, some, List, [], ◌∷◌, length, ◌≡◌, ◌≢◌, ◌⊎◌, refl,
  arith, eq_iff, eq_refl,
}
use zabbix_ddl_monitor.Base.Int32
use zabbix_ddl_monitor.Base.Int64
use zabbix_ddl_monitor.Base.Map.{lookup, insert, lookup-insert}
use zabbix_ddl_monitor.Connection.Conn
use zabbix_ddl_monitor.Connection.Conn.{Conn}
use zabbix_ddl_monitor.Connection.State.{idle, closed, can_transition}
use zabbix_ddl_monitor.Connection.Pool.{
  DriverPool, has_name, with_name, without_name, new_connection, with_object, size,
}
use zabbix_ddl_monitor.Connection.Pool.Rebuilding.{
  rebuilt, not_suitable, cannot_begin, create_failed, can_start_rebuild, begin_object,
  begin_core_rebuild, end_core_rebuild, perform_core_rebuild,
}

abbrev pub NoRepeat : List String → Type 0
NoRepeat [] = Unit {0}
NoRepeat (n ∷ ns) = (has_name n ns ≡ false) × NoRepeat ns

-- A connection that a rebuild can start on.
abbrev pub IsSuitable : Conn → Type 0
IsSuitable c = (c.state ≡ idle) × (Int32.ltb32 0 c.using_count ≡ false) × (c.rebuilding ≡ false)

-- The old connection while its replacement is made.
abbrev pub closed_off : Conn → Conn
closed_off c = record c { state = closed; rebuilding = true }

begin_suitable :
    (id : String) (c : Conn) (p : DriverPool)
    → IsSuitable c
    → begin_object id p (some c) ≡ (
      record p {
        objects = insert id (closed_off c) p.objects;
        members = without_name id p.members;
        stats = record p.stats { idle_connections = Int64.dec p.stats.idle_connections };
      },
      none,
    )
unfolding can_start_rebuild Conn.is_idle Conn.begin_rebuild Conn.begin_close Conn.complete_close
    can_transition
begin_suitable id c p h = ground arith

begin_unsuitable :
    (id : String) (c : Conn) (p : DriverPool)
    → (c.state ≢ idle) ⊎ (Int32.ltb32 0 c.using_count ≡ true) ⊎ (c.rebuilding ≡ true)
    → (begin_object id p (some c) ≡ (p, some not_suitable))
      ⊎ (begin_object id p (some c) ≡ (p, some cannot_begin))
unfolding can_start_rebuild Conn.is_idle Conn.begin_rebuild
begin_unsuitable id c p h = ground arith

-- A rebuild of a connection that is not idle, is in use or is being rebuilt already leaves the pool
-- as it was.
pub rebuild_refused :
    (id protocol : String) (made : Option String) (now : ℕ) (c : Conn) (p : DriverPool)
    → lookup id p.objects ≡ some c
    → (c.state ≢ idle) ⊎ (Int32.ltb32 0 c.using_count ≡ true) ⊎ (c.rebuilding ≡ true)
    → (perform_core_rebuild id made protocol now p).0 ≡ p
unfolding perform_core_rebuild begin_core_rebuild
rebuild_refused id protocol made now c p e h = ground (arith, begin_unsuitable id c p h)

without_name-absent :
    (id : String) (ns : List String) → has_name id ns ≡ false → without_name id ns ≡ ns
without_name-absent id [] h = refl
without_name-absent id (m ∷ ns) h = ground (arith, without_name-absent id ns)

pub has_name-without_name :
    (n id : String) (ns : List String)
    → has_name n ns ≡ false
    → has_name n (without_name id ns) ≡ false
has_name-without_name n id [] h = refl
has_name-without_name n id (m ∷ ns) h = ground (arith, has_name-without_name n id ns)

length-without_name :
    (id : String) (ns : List String)
    → has_name id ns ≡ true
    → NoRepeat ns
    → suc (length (without_name id ns)) ≡ length ns
length-without_name id [] h n = ground arith
length-without_name id (m ∷ ns) h n =
    ground (arith, eq_iff m id, length-without_name id ns, without_name-absent id ns)

-- A rebuild of a suitable connection closes it and takes it out of the pool. If no replacement can be
-- made this is all, and the connection is no longer marked as being rebuilt.
pub rebuild_fails :
    (id protocol : String) (now : ℕ) (c : Conn) (p : DriverPool)
    → lookup id p.objects ≡ some c
    → IsSuitable c
    → let (q, r) = perform_core_rebuild id none protocol now p in
      (r ≡ create_failed)
      × (q.members ≡ without_name id p.members)
      × (lookup id q.objects ≡ some (record c { state = closed }))
unfolding perform_core_rebuild begin_core_rebuild end_core_rebuild with_object Conn.complete_rebuild
rebuild_fails id protocol now c p e h = ground (
  arith,
  begin_suitable id c p h,
  eq_refl id,
  lookup-insert id id (closed_off c) p.objects,
  lookup-insert id id (Conn.complete_rebuild false (closed_off c))
      (insert id (closed_off c) p.objects),
)

module _ (id new protocol : String) (now : ℕ) (c : Conn) (p : DriverPool) where
  abbrev replacement : Conn
  replacement = record (new_connection new protocol now) { last_rebuilt_at = some now }

  -- The pool after a rebuild with a replacement.
  abbrev swapped : DriverPool
  swapped = record p {
    objects =
        insert id (record c { state = closed; marked_for_rebuild = 0 })
          (insert new replacement (insert id (closed_off c) p.objects));
    members = with_name new (without_name id p.members);
    stats = record p.stats {
      created_connections = Int64.inc p.stats.created_connections;
      idle_connections = Int64.inc (Int64.dec p.stats.idle_connections);
    };
  }

  perform_swap :
      lookup id p.objects ≡ some c
      → IsSuitable c
      → new ≢ id
      → c.rebuilding ≡ false
      → perform_core_rebuild id (some new) protocol now p ≡ (swapped, rebuilt new)
  unfolding perform_core_rebuild begin_core_rebuild end_core_rebuild with_object
      Conn.complete_rebuild Conn.set_last_rebuilt_at
  perform_swap e h ne r = ground (
    arith,
    begin_suitable id c p h,
    eq_iff new id,
    eq_refl id,
    lookup-insert id id (closed_off c) p.objects,
    lookup-insert new id replacement (insert id (closed_off c) p.objects),
  )

-- A rebuild of a suitable connection with a replacement, under an id that is new, swaps the two: the
-- pool keeps its size and its count of idle connections, the old connection is closed and out of the
-- pool with its mark cleared, and the new one is in the pool, idle and stamped as rebuilt.
pub rebuild_swaps :
    (id new protocol : String) (now : ℕ) (c : Conn) (p : DriverPool)
    → lookup id p.objects ≡ some c
    → IsSuitable c
    → has_name id p.members ≡ true
    → NoRepeat p.members
    → has_name new p.members ≡ false
    → new ≢ id
    → p.stats.idle_connections < Int64.word
    → let (q, r) = perform_core_rebuild id (some new) protocol now p in
      (r ≡ rebuilt new)
      × (size q ≡ size p)
      × (q.stats.idle_connections ≡ p.stats.idle_connections)
      × (q.members ≡ new ∷ without_name id p.members)
      × (lookup id q.objects ≡ some (record c { state = closed; marked_for_rebuild = 0 }))
      × (lookup new q.objects
          ≡ some (record (new_connection new protocol now) { last_rebuilt_at = some now }))
rebuild_swaps id new protocol now c p e h m d f ne s =
    rw (perform_swap id new protocol now c p e h ne h.2) (
      refl,
      ground
          (arith, has_name-without_name new id p.members f, length-without_name id p.members m d),
      omega arith,
      ground (arith, has_name-without_name new id p.members f),
      ground (
        arith,
        eq_refl id,
        lookup-insert id id (record c { state = closed; marked_for_rebuild = 0 })
            (insert new (replacement id new protocol now c p) (insert id (closed_off c) p.objects)),
      ),
      ground (
        arith,
        eq_iff id new,
        eq_refl new,
        lookup-insert id new (record c { state = closed; marked_for_rebuild = 0 })
            (insert new (replacement id new protocol now c p) (insert id (closed_off c) p.objects)),
        lookup-insert new new (replacement id new protocol now c p)
            (insert id (closed_off c) p.objects),
      ),
    )
