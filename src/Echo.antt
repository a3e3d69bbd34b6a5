-- ===== src/Echo.antt =====
-- main/main.cpp: `my_listener`, a callback that closes a connection when it is told to, and writes
-- back what it reads. `fuel` bounds the rounds of `read` by the state of the system.
pub mod Stream
pub mod Record
pub mod Linked
pub mod Session
pub mod Accounts
pub mod Fixed
use nonblocking_unix_socket.Base.{
  ℕ, Bool, false, ◌==◌, length, List, [], ◌∷◌, Option, none, some, ℤ, pos,
}
use nonblocking_unix_socket.Kernel.{Kernel}
use nonblocking_unix_socket.Server.{
  Server, State, Callback, ListenEvent, JobType, available_for_read, close_socket,
  available_for_write, new_socket, available_for_read_and_write, socket_is_closed,
}
use nonblocking_unix_socket.Client as Client
use nonblocking_unix_socket.Client.{Client}
use nonblocking_unix_socket.Server.Io as Io
use nonblocking_unix_socket.Server.Life as Life

-- The default of `buffer_size` in `IGenericServer::read`.
abbrev pub buffer_size : ℕ
buffer_size = 4096

module _ {W A : Type 0} (k : Kernel W) where
  -- `srv->write<char>(listen_event.fd, item)` for each buffer; the value returned is dropped.
  unfoldable pub echo_all : State W A → ℤ → List (List ℕ) → State W A
  echo_all s fd [] = s
  echo_all s fd (item ∷ items) =
      let r = Io.write k s.srv s.world fd item in
      echo_all (record s { srv = r.srv; world = r.world }) fd items

  -- What follows `srv->read`. `none`: its fuel ran out.
  unfoldable pub echo : State W A → ℤ → Option (Io.ReadResult W) → State W A
  unfolding echo_all
  echo s fd none = s
  echo s fd (some r) = echo_all (record s { srv = r.srv; world = r.world }) fd r.buffers

  -- The `switch`, which has two cases.
  unfoldable pub answer : (W → ℕ) → State W A → ℤ → JobType → State W A
  unfolding echo
  answer fuel s fd close_socket =
      let (srv', w') = Life.close k s.srv s.world fd in record s { srv = srv'; world = w' }
  answer fuel s fd available_for_read =
      echo s fd (Io.read k (fuel s.world) s.srv s.world fd buffer_size)
  answer fuel s fd available_for_write = s
  answer fuel s fd new_socket = s
  answer fuel s fd available_for_read_and_write = s
  answer fuel s fd socket_is_closed = s

  unfoldable pub my_listener : (W → ℕ) → Callback W A
  unfolding answer
  my_listener fuel s ev = answer fuel s ev.fd ev.job

-- What the client's part of `main` leaves. `passed` is the test of `assert(response.size() == 12)`.
pub record Exchange (W : Type 0) : Type 0 where
  pub client : Client
  pub world : W
  pub response : List ℕ
  pub error : Option Client.Error
  pub passed : Bool

-- "test message"
abbrev pub test_message : List ℕ
test_message =
    b't' ∷ b'e' ∷ b's' ∷ b't' ∷ b' ' ∷ b'm' ∷ b'e' ∷ b's' ∷ b's' ∷ b'a' ∷ b'g' ∷ b'e' ∷ []

module _ {W : Type 0} (k : Kernel W) where
  -- What follows `tc.read`. An exception of `read` leaves the client open.
  unfoldable pub check_response : Client → Client.ReadResult W → Option Client.Error → Exchange W
  check_response tc b none =
      let (tc', w') = Client.close k tc b.world in
      record {
        client = tc';
        world = w';
        response = b.buffer;
        error = none;
        passed = length b.buffer == 12;
      }
  check_response tc b (some e) = record {
    client = tc;
    world = b.world;
    response = [];
    error = some e;
    passed = false;
  }

  -- From `tc.read(1024)` to `tc.close()`.
  unfoldable pub respond : Client → W → Exchange W
  unfolding check_response
  respond tc w = let b = Client.read k tc w (pos 1024) in check_response tc b b.error

  -- The same with `tc.write<char>(v)` before it, for a message of bytes. `others` is what the server's
  -- thread does before `read` returns.
  unfoldable pub exchange : (W → W) → Client → W → List ℕ → Exchange W
  unfolding respond
  exchange others tc w message = let a = Client.write k tc w message in respond tc (others a.world)
