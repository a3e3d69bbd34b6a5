-- ===== src/SocketData.antt =====
-- libnbuss/SocketData.h and SocketData.cpp: the data that ThreadedServer2 keeps for a descriptor,
-- a queue of buffers waiting to be written and a lock made of a counter and a condition variable.
-- A `WriteItem` is a list of bytes: its pointer moves forward with `drop`. The head of the list
-- `write_queue` is the back of the deque.
pub mod Queue
pub mod Lock
use nonblocking_unix_socket.Base.{
  ℕ, Bool, List, [], ◌∷◌, ◌++◌, Option, none, some, ℤ, pos, ◌+ℤ◌, ◌-ℤ◌, ltb_ℤ, if◌then◌else◌,
}

abbrev pub WriteItem : Type 0
WriteItem = List ℕ

pub record SocketData : Type 0 where
  pub uses : ℤ
  pub write_queue : List WriteItem

-- The constructor.
abbrev pub new_socket_data : SocketData
new_socket_data = record { uses = pos 0; write_queue = [] }

-- `cleanup`, with `_cleanup`. Its argument only says whether `usesMutex` is taken.
unfoldable pub cleanup : SocketData → SocketData
cleanup sd = record sd { uses = pos 0; write_queue = [] }

-- `lock`, at the moment when `usesMutex` is held. `none`: the caller waits on `usesCv`.
unfoldable pub lock : SocketData → Option SocketData
lock sd = if ltb_ℤ (pos 0) sd.uses then none else some (record sd { uses = sd.uses +ℤ pos 1 })

unfoldable pub release : SocketData → SocketData
release sd = record sd { uses = sd.uses -ℤ pos 1 }

-- `std::deque::push_front`
unfoldable pub push_front : WriteItem → List WriteItem → List WriteItem
push_front item q = q ++ item ∷ []

-- `std::deque::push_back`
abbrev pub push_back : WriteItem → List WriteItem → List WriteItem
push_back item q = item ∷ q
