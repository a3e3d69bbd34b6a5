-- ===== src/StateMachine.antt =====
-- libnbuss/FiniteStateMachine.h: a table of rows of a state, an event and an action. Types of states
-- and events come with their `==`. An action is a `std::function` that may do anything: `A` is the
-- type of actions, and what one of them does to the machine, its table included, and to the rest
-- of the program, which `W` stands for, is the parameter `run`.
pub mod Table
use nonblocking_unix_socket.Base.{Bool, ◌&&◌, List, [], ◌∷◌, Option, none, some, if◌then◌else◌}

-- `TFSMTuple`
pub record Row (S E A : Type 0) : Type 0 where
  pub state : S
  pub event : E
  pub action : A

pub record StateMachine (S E A : Type 0) : Type 0 where
  pub state : S
  pub rows : List (Row S E A)

-- How a call ends: it returns, or an exception leaves it.
pub data Ran (S E A W : Type 0) : Type 0 where
  finished threw : StateMachine S E A → W → Ran S E A W

module _ {S E A : Type 0} where
  -- The constructor.
  unfoldable pub make_machine : S → StateMachine S E A
  make_machine initial_state = record { state = initial_state; rows = [] }

  unfoldable pub set_data : StateMachine S E A → List (Row S E A) → StateMachine S E A
  set_data m table = record m { rows = table }

  unfoldable pub set_state : StateMachine S E A → S → StateMachine S E A
  set_state m new_state = record m { state = new_state }

  -- `noop`, as an action that is run.
  unfoldable pub noop : {W : Type 0} → StateMachine S E A → W → Ran S E A W
  noop m w = finished m w

module _ {S E A : Type 0} (same_state : S → S → Bool) (same_event : E → E → Bool) where
  abbrev pub is_match : Row S E A → S → E → Bool
  is_match row state ev = same_state state row.state && same_event row.event ev

  -- The loop of `incomingEvent`: the action of the first row that matches.
  unfoldable pub first_match : List (Row S E A) → S → E → Option A
  first_match [] state ev = none
  first_match (row ∷ rows) state ev =
      let rest = first_match rows state ev in
      if is_match row state ev then some (row.action) else rest

module _ {S E A W : Type 0} (same_state : S → S → Bool) (same_event : E → E → Bool)
    (run : A → StateMachine S E A → W → Ran S E A W) where
  -- The action is run, and where there is none the call throws.
  unfoldable pub fire : StateMachine S E A → W → Option A → Ran S E A W
  fire m w none = threw m w
  fire m w (some action) = run action m w

  unfoldable pub incoming_event : StateMachine S E A → W → E → Ran S E A W
  unfolding first_match fire
  incoming_event m w ev = fire m w (first_match same_state same_event m.rows m.state ev)
