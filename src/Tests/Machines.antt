-- ===== src/Tests/Machines.antt =====
-- The state machine of libnbuss/FiniteStateMachine.h at a concrete table.
use nonblocking_unix_socket.Base.{◌⊎◌, ℕ, suc, ◌≡◌, [], ◌∷◌, ◌==◌}
use nonblocking_unix_socket.StateMachine.{
  Row, StateMachine, Ran, finished, threw, incoming_event, set_state,
}
use nonblocking_unix_socket.StateMachine.Table.{AllApart, IsFirst, incoming_event-IsFirst}

-- An action counts, and goes to the state that it names.
abbrev goes_to : ℕ → StateMachine ℕ ℕ ℕ → ℕ → Ran ℕ ℕ ℕ ℕ
goes_to new_state m count = finished (set_state m new_state) (suc count)

-- Event 7 takes state 0 to 1 and event 8 takes state 1 to 2.
abbrev leaves_zero : Row ℕ ℕ ℕ
leaves_zero = record { state = 0; event = 7; action = 1 }

abbrev leaves_one : Row ℕ ℕ ℕ
leaves_one = record { state = 1; event = 8; action = 2 }

abbrev machine : StateMachine ℕ ℕ ℕ
machine = record { state = 0; rows = leaves_zero ∷ leaves_one ∷ [] }

incoming_event-IsFirst_example :
    (AllApart ◌==◌ ◌==◌ goes_to machine.rows 0 7
      × (incoming_event ◌==◌ ◌==◌ goes_to machine 0 7 ≡ threw machine 0))
    ⊎ ((row : Row ℕ ℕ ℕ) × IsFirst ◌==◌ ◌==◌ goes_to machine.rows 0 7 row
        × (incoming_event ◌==◌ ◌==◌ goes_to machine 0 7 ≡ goes_to row.action machine 0))
incoming_event-IsFirst_example = incoming_event-IsFirst ◌==◌ ◌==◌ goes_to machine 0 7
