-- ===== src/Connection/State/Reach.antt =====
-- What the transition table of connection/state_manager.go allows in any number of steps.
use zabbix_ddl_monitor.Base.{Bool, true, ◌≡◌, refl, ◌↔◌, arith, ◌||◌}
use zabbix_ddl_monitor.Connection.State.{
  ConnectionState, idle, connecting, acquired, executing, checking, closing, closed, ◌=ₛ◌,
  can_transition, is_operational_state,
}

-- A run of the machine, transition by transition.
pub data Reach (s : ConnectionState) : ConnectionState → Type 0 where
  here : Reach s s
  next : {t u : ConnectionState} → Reach s t → can_transition t u ≡ true → Reach s u

-- An independent description of what a run can reach: from an operational state everything, from
-- `closing` itself and `closed`, from `closed` only itself.
abbrev pub reachable : ConnectionState → ConnectionState → Bool
reachable closed t = t =ₛ closed
reachable closing t = t =ₛ closing || t =ₛ closed
reachable _ t = true

reachable_refl : (s : ConnectionState) → reachable s s ≡ true
reachable_refl idle = refl
reachable_refl _ = refl

reachable_step :
    (s t u : ConnectionState)
    → reachable s t ≡ true
    → can_transition t u ≡ true
    → reachable s u ≡ true
unfolding can_transition
reachable_step s t u h st = ground arith

Reach-reachable : {s t : ConnectionState} → Reach s t → reachable s t ≡ true
Reach-reachable {s} here = reachable_refl s
Reach-reachable {s} (next {t} {u} r st) = reachable_step s t u (Reach-reachable r) st

Reach-trans : {s t u : ConnectionState} → Reach s t → Reach t u → Reach s u
Reach-trans r here = r
Reach-trans r (next q st) = next (Reach-trans r q) st

from_idle : (t : ConnectionState) → Reach idle t
unfolding can_transition
from_idle idle = here
from_idle executing = next {t = acquired} (next {t = idle} here refl) refl
from_idle connecting = next {t = idle} here refl
from_idle acquired = next {t = idle} here refl
from_idle checking = next {t = idle} here refl
from_idle closing = next {t = idle} here refl
from_idle closed = next {t = idle} here refl

to_idle : (s : ConnectionState) → is_operational_state s ≡ true → Reach s idle
unfolding can_transition is_operational_state
to_idle idle h = here
to_idle acquired h = next {t = acquired} here refl
to_idle checking h = next {t = checking} here refl
to_idle connecting h = next {t = acquired} (next {t = connecting} here refl) refl
to_idle executing h = next {t = acquired} (next {t = executing} here refl) refl
to_idle closing h = cc
to_idle closed h = cc

from_closing : (t : ConnectionState) → reachable closing t ≡ true → Reach closing t
unfolding can_transition
from_closing closing h = here
from_closing closed h = next {t = closing} here refl
from_closing idle h = cc
from_closing connecting h = cc
from_closing acquired h = cc
from_closing executing h = cc
from_closing checking h = cc

from_closed : (t : ConnectionState) → reachable closed t ≡ true → Reach closed t
from_closed closed h = here
from_closed idle h = cc
from_closed connecting h = cc
from_closed acquired h = cc
from_closed executing h = cc
from_closed checking h = cc
from_closed closing h = cc

reachable-Reach : (s t : ConnectionState) → reachable s t ≡ true → Reach s t
unfolding is_operational_state
reachable-Reach closing t h = from_closing t h
reachable-Reach closed t h = from_closed t h
reachable-Reach s t h = Reach-trans (to_idle s refl) (from_idle t)

-- A connection can get from state `s` to state `t` by transitions that `CanTransition` allows
-- exactly when `s` is operational, or `s` and `t` are both among `closing` and `closed` in this
-- order: closing cannot be undone, and no operational state is a dead end.
pub Reach-iff : (s t : ConnectionState) → Reach s t ↔ (reachable s t ≡ true)
Reach-iff s t = (Reach-reachable, reachable-Reach s t)
