-- ===== src/Server.antt =====
-- libnbuss/IGenericServer.h and IGenericServer.cpp: the fields of the server, the record of which
-- descriptors have seen input or output, and the life of a descriptor. A method takes the server
-- and the state of the system and returns both.
pub mod Io
pub mod Fds
pub mod Life
pub mod Listen
pub mod Keeps
pub mod Tracking
pub mod Dispatch
pub mod Shutdown
pub mod Accounts
pub mod Fixed
pub mod Restart
pub mod Write
pub mod Read
pub mod Elements
pub mod Trace
use nonblocking_unix_socket.Base.{
  ℕ, Bool, true, false, Option, none, some, leb, List, [], ◌∷◌, ℤ, pos, minus_one, ◌==ℤ◌, ltb_ℤ,
  if◌then◌else◌,
}

-- `enum job_type_t`
pub data JobType : Type 0 where
  available_for_read close_socket available_for_write new_socket : JobType
  available_for_read_and_write socket_is_closed : JobType

-- `IGenericServer::ListenEvent`, without the pointer to the server.
pub record ListenEvent : Type 0 where
  pub fd : ℤ
  pub job : JobType
  pub events : ℕ

-- The fields of `IGenericServer`. `incoming_conn_fd` is a `std::set`, an ascending list here;
-- `is_socket_io` is a `std::map` whose `operator[]` makes missing entries false, a function here.
pub record Server : Type 0 where
  pub listen_sock : ℤ
  pub epollfd : ℤ
  pub incoming_conn_fd : List ℤ
  pub stop_server : Bool
  pub is_listening : Bool
  pub pipe_read_fd : ℤ
  pub pipe_write_fd : ℤ
  pub backlog : ℕ
  pub active_connections : ℤ
  pub is_socket_io : ℤ → Bool
  pub use_smart_close : Bool

-- A server, the system that it runs on, and what the callback works on.
pub record State (W A : Type 0) : Type 0 where
  pub srv : Server
  pub world : W
  pub app : A

-- `std::function<void(ListenEvent &&)>`
abbrev pub Callback : Type 0 → Type 0 → Type 0
Callback W A = State W A → ListenEvent → State W A

-- The constructor, with the ends of the pipe that it opens. `none`: it throws.
unfoldable pub make_server : ℕ → Bool → ℤ → ℤ → Option Server
make_server backlog smart read_end write_end =
    if leb backlog 0
    then none
    else some (record {
      listen_sock = minus_one;
      epollfd = minus_one;
      incoming_conn_fd = [];
      stop_server = false;
      is_listening = false;
      pipe_read_fd = read_end;
      pipe_write_fd = write_end;
      backlog = backlog;
      active_connections = pos 0;
      is_socket_io = λ fd. false;
      use_smart_close = smart;
    })

-- `std::set<int>::insert`
unfoldable pub set_insert : ℤ → List ℤ → List ℤ
set_insert a [] = a ∷ []
set_insert a (b ∷ bs) =
    if a ==ℤ b then b ∷ bs else if ltb_ℤ a b then a ∷ b ∷ bs else b ∷ set_insert a bs

-- `std::set<int>::extract`
unfoldable pub set_extract : ℤ → List ℤ → List ℤ
set_extract a [] = []
set_extract a (b ∷ bs) = if a ==ℤ b then bs else b ∷ set_extract a bs

abbrev pub map_set : (ℤ → Bool) → ℤ → Bool → ℤ → Bool
map_set m fd b other = if fd ==ℤ other then b else m other

unfoldable pub set_io : Server → ℤ → Server
set_io s fd =
    if s.use_smart_close then record s { is_socket_io = map_set s.is_socket_io fd true } else s

unfoldable pub unset_io : Server → ℤ → Server
unset_io s fd =
    if s.use_smart_close then record s { is_socket_io = map_set s.is_socket_io fd false } else s

unfoldable pub is_io : Server → ℤ → Bool
is_io s fd = if s.use_smart_close then s.is_socket_io fd else true
