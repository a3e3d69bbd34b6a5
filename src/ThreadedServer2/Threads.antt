-- ===== src/ThreadedServer2/Threads.antt =====
-- start and stop of libnbuss/ThreadedServer2.cpp, which make and join the two threads.
use nonblocking_unix_socket.Base.{Bool, true, false, [], Option, none, some, if◌then◌else◌, ◌||◌}
use nonblocking_unix_socket.Kernel.{Kernel}
use nonblocking_unix_socket.Server.{Server}
use nonblocking_unix_socket.Server.Life as Server
use nonblocking_unix_socket.ThreadedServer2.{Async, Round, ended, waiting, worked}

-- How `start` and `stop` end: they return, throw, wait for another thread, or end the process
-- through `std::terminate`.
pub data Call (W B : Type 0) : Type 0 where
  finished threw blocked : Async W B → Call W B
  aborted : Call W B

module _ {W B : Type 0} where
  -- `start` up to the threads. `stopServer` is not reset. `none`: it throws.
  unfoldable pub prepare_start : Async W B → Option (Async W B)
  prepare_start s =
      if s.app.running
      then none
      else some (record s { app = record (s.app) { ready_to_write_set = [] } })

  unfoldable pub set_running : Bool → Async W B → Async W B
  set_running b s = record s { app = record (s.app) { running = b } }

  -- Which of the two members stand for a thread.
  unfoldable pub set_threads : Bool → Bool → Async W B → Async W B
  set_threads listener writer s = record s {
    app = record (s.app) { listener_joinable = listener; writer_joinable = writer };
  }

  -- The end of `start`: it waits until the server listens.
  unfoldable pub await_ready : Async W B → Option Server → Call W B
  unfolding set_running
  await_ready s none = blocked s
  await_ready s (some srv) = finished (set_running true s)

  -- The threads are made. A `std::thread` that is assigned to while it is joinable calls
  -- `std::terminate`, which is no exception that `catch` sees.
  unfoldable pub launch : (Async W B → Async W B) → Async W B → Option (Async W B) → Call W B
  unfolding await_ready set_threads
  launch others s none = threw s
  launch others s (some t) =
      let u = others (set_threads true true t) in
      if t.app.writer_joinable || t.app.listener_joinable
      then aborted
      else await_ready u (Server.wait_for_server_ready u.srv)

  -- `others` is what the other threads, the two new ones among them, do before the wait ends.
  unfoldable pub start : (Async W B → Async W B) → Async W B → Call W B
  unfolding prepare_start launch
  start others s = launch others s (prepare_start s)

  -- The beginning of `stop`.
  unfoldable pub ask_stop : Async W B → Async W B
  ask_stop s = record s { app = record (s.app) { stop_server = true } }

  -- `writerWorkerThread.join()` on a thread, and the end of `stop`. `none`: the thread goes on.
  unfoldable pub writer_joined : Async W B → Option (Async W B) → Call W B
  unfolding set_running set_threads
  writer_joined s none = blocked s
  writer_joined s (some t) = finished (set_running false (set_threads false false t))

  -- `join` throws for a thread that is not joinable. `writer` is what the writing thread does
  -- while it is awaited.
  unfoldable pub join_writer : (Async W B → Option (Async W B)) → Async W B → Call W B
  unfolding writer_joined
  join_writer writer s = if s.app.writer_joinable then writer_joined s (writer s) else threw s

  unfoldable pub join_threads :
      (Async W B → Option (Async W B)) → Async W B → Option (Async W B) → Call W B
  unfolding join_writer set_threads
  join_threads writer s none = blocked s
  join_threads writer s (some t) =
      let joined = join_writer writer (set_threads false t.app.writer_joinable t) in
      if t.app.listener_joinable then joined else threw t

-- What the writing thread has come to when it has ended.
unfoldable pub end_of : {W B : Type 0} → Round W B → Option (Async W B)
end_of (ended s) = some s
end_of (waiting s) = none
end_of (worked s) = none

module _ {W B : Type 0} (k : Kernel W) where
  -- `others` is what the other threads do while `terminate` waits, and `writer` what the writing
  -- thread does while it is awaited.
  unfoldable pub stop :
      (Async W B → Async W B) → (Async W B → Option (Async W B)) → Async W B → Call W B
  unfolding ask_stop join_threads
  stop others writer s = join_threads writer (ask_stop s) (Server.terminate k others (ask_stop s))
