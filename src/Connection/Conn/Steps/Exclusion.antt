-- ===== src/Connection/Conn/Steps/Exclusion.antt =====
-- Mutual exclusion between the users of a connection, under every interleaving of its methods
-- (connection/pooled_connection.go).
use zabbix_ddl_monitor.Base.{ℕ, Bool, true, false, not, ◌&&◌, List, [], ◌∷◌, ◌≡◌, arith}
use zabbix_ddl_monitor.Connection.State.{idle, ◌=ₛ◌, can_transition}
use zabbix_ddl_monitor.Connection.Health.{HealthConfig}
use zabbix_ddl_monitor.Connection.Conn
use zabbix_ddl_monitor.Connection.Conn.{Conn, RebuildReason}
use zabbix_ddl_monitor.Connection.Conn.Steps.{Op, step, run}

-- None of the operations is of the kind that `p` picks.
abbrev pub none_of : (Op → Bool) → List Op → Bool
none_of p [] = true
none_of p (op ∷ ops) = not (p op) && none_of p ops

-- A property of connections that every operation outside `p` keeps holds after any such operations.
run_keeps {ℓ} :
    (P : Conn → Type ℓ) (p : Op → Bool) (cfg : HealthConfig)
    → ((c : Conn) (op : Op) → p op ≡ false → P c → P (step cfg c op))
    → (c : Conn) (ops : List Op) → none_of p ops ≡ true
    → P c
    → P (run cfg c ops)
unfolding run
run_keeps P p cfg keep c [] h v = v
run_keeps P p cfg keep c (op ∷ ops) h v =
    run_keeps P p cfg keep (step cfg c op) ops (ground arith) (keep c op (ground arith) v)

-- The operations that give a connection back to the pool as idle.
abbrev pub gives_back : Op → Bool
gives_back (Op.release now) = true
gives_back (Op.complete_health_check success) = success
gives_back (Op.transition s) = s =ₛ idle
gives_back _ = false

away-step :
    (cfg : HealthConfig) (c : Conn) (op : Op)
    → gives_back op ≡ false
    → (c.state =ₛ idle) ≡ false
    → ((step cfg c op).state =ₛ idle) ≡ false
unfolding step can_transition
away-step cfg c (Op.release now) g h = cc
away-step cfg c (Op.try_acquire now) g h = ground arith
away-step cfg c (Op.transition t) g h = ground arith
away-step cfg c (Op.record_health_check now s) g h = ground arith
away-step cfg c op g h = ground arith

acquired_away :
    (now : ℕ) (c : Conn)
    → (Conn.try_acquire_for_task now c).1 ≡ true
    → ((Conn.try_acquire_for_task now c).0.state =ₛ idle) ≡ false
unfolding Conn.try_acquire_for_task
acquired_away now c h = ground arith

away_refused :
    (now : ℕ) (c : Conn) → (c.state =ₛ idle) ≡ false → (Conn.try_acquire_for_task now c).1 ≡ false
unfolding Conn.try_acquire_for_task
away_refused now c h = ground arith

-- A connection that one task has acquired is not acquired by another, whatever methods run in
-- between, as long as none of them gives it back: `release`, a passed health check by
-- `completeHealthCheck`, or a transition to idle.
pub acquire_exclusive :
    (cfg : HealthConfig) (c : Conn) (ops : List Op) (now later : ℕ)
    → (Conn.try_acquire_for_task now c).1 ≡ true
    → none_of gives_back ops ≡ true
    → (Conn.try_acquire_for_task later (run cfg (Conn.try_acquire_for_task now c).0 ops)).1 ≡ false
acquire_exclusive cfg c ops now later got h = away_refused later _ (
    run_keeps (λ d. (d.state =ₛ idle) ≡ false) gives_back cfg (away-step cfg) _ ops h
      (acquired_away now c got))

abbrev pub ends_rebuild : Op → Bool
ends_rebuild (Op.complete_rebuild success) = true
ends_rebuild _ = false

rebuilding-step :
    (cfg : HealthConfig) (c : Conn) (op : Op)
    → ends_rebuild op ≡ false
    → c.rebuilding ≡ true
    → (step cfg c op).rebuilding ≡ true
unfolding step
rebuilding-step cfg c (Op.complete_rebuild success) g h = cc
rebuilding-step cfg c op g h = ground arith

rebuilding_starts :
    (c : Conn) → (Conn.begin_rebuild c).1 ≡ true → (Conn.begin_rebuild c).0.rebuilding ≡ true
unfolding Conn.begin_rebuild
rebuilding_starts c h = ground arith

rebuilding_refused :
    (now : ℕ) (c : Conn)
    → c.rebuilding ≡ true
    → ((Conn.begin_rebuild c).1 ≡ false) × ((Conn.try_acquire_for_task now c).1 ≡ false)
unfolding Conn.begin_rebuild Conn.try_acquire_for_task
rebuilding_refused now c h = ground arith

-- While one rebuild of a connection is under way no other starts and no task acquires the
-- connection, whatever methods run in between, until `completeRebuild` is called.
pub rebuild_exclusive :
    (cfg : HealthConfig) (c : Conn) (ops : List Op) (now : ℕ)
    → (Conn.begin_rebuild c).1 ≡ true
    → none_of ends_rebuild ops ≡ true
    → let d = run cfg (Conn.begin_rebuild c).0 ops in
      ((Conn.begin_rebuild d).1 ≡ false) × ((Conn.try_acquire_for_task now d).1 ≡ false)
rebuild_exclusive cfg c ops now got h = rebuilding_refused now _ (
    run_keeps (λ d. d.rebuilding ≡ true) ends_rebuild cfg (rebuilding-step cfg) _ ops h
      (rebuilding_starts c got))

-- The operations that take the mark away.
abbrev pub clears_mark : Op → Bool
clears_mark Op.clear_mark = true
clears_mark (Op.complete_rebuild success) = success
clears_mark _ = false

abbrev IsMarked : RebuildReason → Conn → Type 0
IsMarked r c = (c.marked_for_rebuild ≡ 1) × (c.rebuild_reason ≡ r)

IsMarked-step :
    (r : RebuildReason) (cfg : HealthConfig) (c : Conn) (op : Op)
    → clears_mark op ≡ false
    → IsMarked r c
    → IsMarked r (step cfg c op)
unfolding step
IsMarked-step r cfg c (Op.record_health_check now s) g h = ground arith
IsMarked-step r cfg c op g h = ground arith

IsMarked-starts :
    (r : RebuildReason) (c : Conn)
    → (Conn.mark_for_rebuild_with_reason r c).1 ≡ true
    → IsMarked r (Conn.mark_for_rebuild_with_reason r c).0
unfolding Conn.mark_for_rebuild_with_reason
IsMarked-starts r c h = ground arith

marked_refused :
    (r other : RebuildReason) (c : Conn)
    → IsMarked r c
    → Conn.mark_for_rebuild_with_reason other c ≡ (c, false)
unfolding Conn.mark_for_rebuild_with_reason
marked_refused r other c h = ground arith

-- The first decision to rebuild stands: until the mark is cleared no other marking succeeds and the
-- recorded reason stays the first one, whatever methods run in between.
pub first_mark_wins :
    (cfg : HealthConfig) (c : Conn) (ops : List Op) (r other : RebuildReason)
    → (Conn.mark_for_rebuild_with_reason r c).1 ≡ true
    → none_of clears_mark ops ≡ true
    → let d = run cfg (Conn.mark_for_rebuild_with_reason r c).0 ops in
      (Conn.mark_for_rebuild_with_reason other d ≡ (d, false)) × (d.rebuild_reason ≡ r)
first_mark_wins cfg c ops r other got h =
    let m : IsMarked r (run cfg (Conn.mark_for_rebuild_with_reason r c).0 ops) =
      run_keeps (IsMarked r) clears_mark cfg (IsMarked-step r cfg) _ ops h
        (IsMarked-starts r c got) in
    (marked_refused r other _ m, m.1)
