-- ===== src/ThreadedServer.antt =====
-- libnbuss/ThreadedServer.h and ThreadedServer.cpp: a server with a thread that listens. The class
-- refers to the server that it runs, `inner` here, and is itself an IGenericServer, `base` here,
-- which has a pipe of its own; of the other fields of `base` it reads `is_listening` only.
pub mod Restart
use nonblocking_unix_socket.Base.{Bool, true, false, List, Option, none, some, if◌then◌else◌}
use nonblocking_unix_socket.Kernel.{Kernel}
use nonblocking_unix_socket.Descriptor.{make_pipe}
use nonblocking_unix_socket.Server.{Server, State, Callback, make_server}
use nonblocking_unix_socket.Server.Life as Life
use nonblocking_unix_socket.Server.Listen as Listen

-- `joinable`: whether `workerThread` stands for a thread that has not been joined.
pub record ThreadedServer (W A : Type 0) : Type 0 where
  pub base : Server
  pub worker_is_running : Bool
  pub joinable : Bool
  pub callback_function : Option (Callback W A)
  pub inner : State W A

-- How a call ends: it returns, it throws, it ends the process through `std::terminate`, or it
-- waits for another thread.
pub data Call (W A : Type 0) : Type 0 where
  finished : ThreadedServer W A → Call W A
  threw : ThreadedServer W A → Call W A
  aborted : Call W A
  blocked : ThreadedServer W A → Call W A

module _ {W A : Type 0} (k : Kernel W) where
  -- The constructor, behind that of the base. `none`: that one throws.
  unfoldable pub built_on : State W A → Option Server → Option (ThreadedServer W A)
  built_on inner none = none
  built_on inner (some base) = some (record {
    base = base;
    worker_is_running = false;
    joinable = false;
    callback_function = none;
    inner = inner;
  })

  -- The constructor: that of the base, with the default arguments 10 and true, makes a pipe.
  unfoldable pub make_threaded : State W A → Option (ThreadedServer W A)
  unfolding built_on
  make_threaded inner =
      let (w, pipe) = make_pipe k inner.world in
      built_on (record inner { world = w }) (make_server 10 true pipe.read_fd pipe.write_fd)

  -- The destructor: that of the thread ends the process if the thread has not been joined, and
  -- that of the base closes its pipe.
  unfoldable pub destroy : ThreadedServer W A → Option (State W A)
  destroy s =
      if s.joinable
      then none
      else some (record (s.inner) { world = Life.destroy k s.base s.inner.world })

module _ {W A : Type 0} where
  -- `server.wait_for_server_ready()`
  unfoldable pub wait_ready : ThreadedServer W A → Call W A
  wait_ready s = elim (Life.wait_for_server_ready s.inner.srv) [
    | none ↦ blocked s
    | some srv ↦ finished s
  ]

  -- `others` is what the other threads, the new one among them, do before the wait ends. A
  -- `std::thread` that is assigned to while it is joinable calls `std::terminate`.
  unfoldable pub start : (State W A → State W A) → ThreadedServer W A → Callback W A → Call W A
  unfolding wait_ready
  start others s callback =
      let t = record s {
        callback_function = some callback;
        joinable = true;
        inner = others s.inner;
      } in
      if s.base.is_listening then threw s else if s.joinable then aborted else wait_ready t

module _ {W A : Type 0} (k : Kernel W) where
  -- What becomes of the thread: an exception that leaves it calls `std::terminate`.
  unfoldable pub thread_end : ThreadedServer W A → Listen.Outcome W A → Call W A
  thread_end s (Listen.running t) = blocked (record s { inner = t })
  thread_end s (Listen.returned t) = finished (record s { inner = t })
  thread_end s (Listen.threw t e) = aborted

  -- An empty `std::function` throws when it is called; `start` has set it.
  unfoldable pub listen_worker :
      List (State W A → State W A) → ThreadedServer W A → Callback W A → Call W A
  unfolding thread_end
  listen_worker rounds s callback = thread_end s (Listen.listen k callback rounds s.inner)

  -- `join` throws for a thread that is not joinable.
  unfoldable pub joined : ThreadedServer W A → Option (State W A) → Call W A
  joined s none = blocked s
  joined s (some t) =
      if s.joinable
      then finished (record s { joinable = false; inner = t })
      else threw (record s { inner = t })

  unfoldable pub stop : (State W A → State W A) → ThreadedServer W A → Call W A
  unfolding joined
  stop others s = joined s (Life.terminate k others s.inner)
