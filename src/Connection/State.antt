-- ===== src/Connection/State.antt =====
-- connection/state_manager.go: the states of a pooled connection and the table of transitions.
-- A Go `ConnectionState` is an int; the model has the seven named values only.
pub mod Reach
use zabbix_ddl_monitor.Base.{ℕ, Bool, true, false, List, [], ◌∷◌, ◌==◌, ◌||◌, if◌then◌else◌}

pub data ConnectionState : Type 0 where
  idle connecting acquired executing checking closing closed : ConnectionState

-- The value of the constant (`iota`).
abbrev pub state_code : ConnectionState → ℕ
state_code idle = 0
state_code connecting = 1
state_code acquired = 2
state_code executing = 3
state_code checking = 4
state_code closing = 5
state_code closed = 6

infix 50 ◌=ₛ◌
abbrev pub ◌=ₛ◌ : ConnectionState → ConnectionState → Bool
s =ₛ t = state_code s == state_code t

-- CanTransition: one clause for each `case` of the switch.
unfoldable pub can_transition : ConnectionState → ConnectionState → Bool
can_transition idle t =
    t =ₛ connecting || t =ₛ acquired || t =ₛ checking || t =ₛ closing || t =ₛ closed
can_transition connecting t = t =ₛ acquired || t =ₛ closing || t =ₛ closed
can_transition acquired t =
    t =ₛ executing || t =ₛ idle || t =ₛ checking || t =ₛ closing || t =ₛ closed
can_transition executing t = t =ₛ acquired || t =ₛ closing || t =ₛ closed
can_transition checking t = t =ₛ idle || t =ₛ acquired || t =ₛ closing || t =ₛ closed
can_transition closing t = t =ₛ closed
can_transition closed t = false

abbrev all_states : List ConnectionState
all_states = idle ∷ connecting ∷ acquired ∷ executing ∷ checking ∷ closing ∷ closed ∷ []

-- The loop of GetValidTransitions over the candidate targets.
unfoldable collect_valid : ConnectionState → List ConnectionState → List ConnectionState
collect_valid s [] = []
collect_valid s (t ∷ ts) =
    let rest = collect_valid s ts in if can_transition s t then t ∷ rest else rest

unfoldable pub get_valid_transitions : ConnectionState → List ConnectionState
unfolding collect_valid can_transition
get_valid_transitions s = collect_valid s all_states

unfoldable pub is_terminal_state : ConnectionState → Bool
is_terminal_state s = s =ₛ closed

unfoldable pub is_operational_state : ConnectionState → Bool
is_operational_state s =
    s =ₛ idle || s =ₛ connecting || s =ₛ acquired || s =ₛ executing || s =ₛ checking

unfoldable pub is_transitional_state : ConnectionState → Bool
is_transitional_state s = s =ₛ closing
