-- ===== src/Connection/Rebuild/Decision.antt =====
-- When connection/rebuild_manager.go marks a connection, against a plain description of what each
-- strategy asks for.
use zabbix_ddl_monitor.Base.{
  ℕ, Bool, true, false, ◌≡◌, refl, inl, inr, arith, ◌==◌, ◌&&◌, ◌||◌, not, if◌then◌else◌,
  Bool-cases,
}
use zabbix_ddl_monitor.Base.Int64
use zabbix_ddl_monitor.Connection.State.{idle, ◌=ₛ◌}
use zabbix_ddl_monitor.Connection.Conn.{Conn, RebuildReason, is_marked_for_rebuild}
use zabbix_ddl_monitor.Connection.Float.{Float64}
use zabbix_ddl_monitor.Connection.Events.{Sink}
use zabbix_ddl_monitor.Connection.Rebuild.{
  Strategy, usage, age, error, all, any, strategy_of, RebuildConfig, Verdict, Outcome, refuse,
  send_rebuild_marked_event, try_mark, check_rebuild_interval, usage_exceeded, age_is_exceeded,
  rate_exceeded, error_condition, evaluate_by_strategy_and_mark, evaluate_and_mark, should_rebuild,
}

-- What an evaluation may do: mark the connection, keep the rest of it, and send the event and the
-- metrics with the reason; or change nothing.
pub data Marks (c : Conn) (s : Sink) (v : Verdict) : Type 0 where
  marks :
      (r : RebuildReason)
      → v.did_mark ≡ true
      → v.conn ≡ record c { marked_for_rebuild = 1; rebuild_reason = r }
      → v.sink ≡ send_rebuild_marked_event c r s
      → Marks c s v
  passes : v.did_mark ≡ false → v.conn ≡ c → v.sink ≡ s → Marks c s v

try_mark-Marks : (c : Conn) (s : Sink) (r : RebuildReason) → Marks c s (try_mark c s r)
unfolding try_mark
try_mark-Marks c s r = elim (Bool-cases (c.marked_for_rebuild == 0)) [
  | inl e ↦ marks r (ground arith) (ground arith) (ground arith)
  | inr e ↦ passes (ground arith) (ground arith) (ground arith)
]

did_mark-try_mark :
    (c : Conn) (s : Sink) (r : RebuildReason)
    → (try_mark c s r).did_mark ≡ (c.marked_for_rebuild == 0)
unfolding try_mark
did_mark-try_mark c s r = ground arith

did_mark-if :
    (b : Bool) (v w : Verdict)
    → (if b then v else w).did_mark ≡ (if b then v.did_mark else w.did_mark)
did_mark-if true v w = refl
did_mark-if false v w = refl

refuse-Marks : (c : Conn) (s : Sink) (o : Outcome) → Marks c s (refuse c s o)
refuse-Marks c s o = passes refl refl refl

Marks-if :
    {c : Conn} {s : Sink} (b : Bool) {v w : Verdict}
    → Marks c s v
    → Marks c s w
    → Marks c s (if b then v else w)
Marks-if true m n = m
Marks-if false m n = n

Marks-marked :
    {c : Conn} {s : Sink} {v : Verdict}
    → Marks c s v
    → v.did_mark ≡ true
    → v.conn.marked_for_rebuild ≡ 1
Marks-marked (marks r d e f) h = ground arith
Marks-marked (passes d e f) h = cc

module _ (fl : Float64) (cfg : RebuildConfig (fl.Float)) where
  -- Enough requests were seen, and too many of them failed.
  abbrev pub error_due : Conn → Bool
  error_due c =
      not (Int64.ltb64 c.total_requests cfg.rebuild_min_requests_for_error_rate)
      && Int64.ltb64 0 c.total_requests
      && rate_exceeded fl cfg c

  -- What a strategy asks for.
  abbrev pub asks : Strategy → Conn → ℕ → Bool
  asks usage c now = usage_exceeded fl cfg c
  asks age c now = age_is_exceeded fl cfg c now
  asks error c now = error_due c
  asks all c now = usage_exceeded fl cfg c && age_is_exceeded fl cfg c now && error_due c
  asks any c now = usage_exceeded fl cfg c || age_is_exceeded fl cfg c now || error_due c

  -- What every strategy needs: an idle connection, not marked and not being rebuilt, with the
  -- minimum interval behind it, and the feature switched on.
  abbrev pub allowed : Conn → ℕ → Bool
  allowed c now =
      c.marked_for_rebuild == 0
      && cfg.smart_rebuild_enabled
      && check_rebuild_interval cfg.rebuild_min_interval c now
      && c.state =ₛ idle
      && not c.rebuilding

  strategy-asks :
      (st : Strategy) (c : Conn) (now : ℕ) (s : Sink)
      → (evaluate_by_strategy_and_mark fl cfg st c now s).did_mark
        ≡ (c.marked_for_rebuild == 0 && asks st c now)
  unfolding evaluate_by_strategy_and_mark error_condition
  strategy-asks usage c now s = simp (did_mark-if, did_mark-try_mark) (ground arith)
  strategy-asks age c now s = simp (did_mark-if, did_mark-try_mark) (ground arith)
  strategy-asks error c now s = simp (did_mark-if, did_mark-try_mark) (ground arith)
  strategy-asks all c now s = simp (did_mark-if, did_mark-try_mark) (ground arith)
  strategy-asks any c now s = simp (did_mark-if, did_mark-try_mark) (ground arith)

  strategy-Marks :
      (st : Strategy) (c : Conn) (now : ℕ) (s : Sink)
      → Marks c s (evaluate_by_strategy_and_mark fl cfg st c now s)
  unfolding evaluate_by_strategy_and_mark
  strategy-Marks usage c now s = search (refuse-Marks, try_mark-Marks, Marks-if)
  strategy-Marks age c now s = search (refuse-Marks, try_mark-Marks, Marks-if)
  strategy-Marks error c now s = search (refuse-Marks, try_mark-Marks, Marks-if)
  strategy-Marks all c now s = search (refuse-Marks, try_mark-Marks, Marks-if)
  strategy-Marks any c now s = search (refuse-Marks, try_mark-Marks, Marks-if)

  -- An evaluation marks the connection exactly when rebuilding is allowed and the configured strategy
  -- asks for it.
  pub did_mark-evaluate_and_mark :
      (c : Conn) (now : ℕ) (s : Sink)
      → (evaluate_and_mark fl cfg c now s).did_mark
        ≡ (allowed c now && asks (strategy_of cfg.rebuild_strategy) c now)
  unfolding evaluate_and_mark
  did_mark-evaluate_and_mark c now s =
      ground (arith, strategy-asks (strategy_of cfg.rebuild_strategy) c now s)

  -- An evaluation that marks sets the mark and its reason, leaves the rest of the connection, and
  -- sends one event and two metrics with this reason; one that does not mark changes neither the
  -- connection nor the sink.
  pub evaluate_and_mark-Marks :
      (c : Conn) (now : ℕ) (s : Sink) → Marks c s (evaluate_and_mark fl cfg c now s)
  unfolding evaluate_and_mark
  evaluate_and_mark-Marks c now s = search (refuse-Marks, strategy-Marks, Marks-if)

  marked_again :
      (c : Conn) (later : ℕ) (t : Sink)
      → c.marked_for_rebuild ≡ 1
      → let w = should_rebuild fl cfg c later t in (w.did_mark ≡ true) × (w.conn ≡ c) × (w.sink ≡ t)
  unfolding should_rebuild is_marked_for_rebuild
  marked_again c later t e = rw e (refl, refl, refl)

  should_rebuild_marks :
      (c : Conn) (now : ℕ) (s : Sink)
      → (should_rebuild fl cfg c now s).did_mark ≡ true
      → (should_rebuild fl cfg c now s).conn.marked_for_rebuild ≡ 1
  unfolding should_rebuild is_marked_for_rebuild
  should_rebuild_marks c now s h = elim (Bool-cases (c.marked_for_rebuild == 1)) [
    | inl e ↦ rw e (ground arith)
    | inr e ↦ rw e (Marks-marked (evaluate_and_mark-Marks c now s) (rw e at h))
  ]

  -- A connection found due stays due: asked again, at any later time, `ShouldRebuild` says yes
  -- again, and neither marks again nor sends another event.
  pub should_rebuild_stable :
      (c : Conn) (now later : ℕ) (s t : Sink)
      → (should_rebuild fl cfg c now s).did_mark ≡ true
      → let v = should_rebuild fl cfg c now s in
        let w = should_rebuild fl cfg v.conn later t in
        (w.did_mark ≡ true) × (w.conn ≡ v.conn) × (w.sink ≡ t)
  should_rebuild_stable c now later s t h = marked_again _ later t (should_rebuild_marks c now s h)
