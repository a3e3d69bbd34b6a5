-- ===== src/ThreadedServer2/Restart.antt =====
-- ThreadedServer2::stop, and a ThreadedServer2::start after it (libnbuss/ThreadedServer2.cpp).
use nonblocking_unix_socket.Base.{
  Bool, ◌≡◌, refl, ap, ◌∙◌, Option, true, false, List, [], ◌∷◌, some, ℤ, pos, minus_one, ltb_ℤ,
}
use nonblocking_unix_socket.Kernel.{Kernel, WakeLaws}
use nonblocking_unix_socket.Server.{Callback}
use nonblocking_unix_socket.Server.Listen.{threw, not_open}
use nonblocking_unix_socket.Server.Restart.{
  ClosesWell, Place, listener, listen_not_open, terminate-IsStopped,
}
use nonblocking_unix_socket.ThreadedServer2.{
  ThreadedServer2, Async, ended, internal_callback, listen_worker, write_queue_worker,
}
use nonblocking_unix_socket.ThreadedServer2.Threads.{
  finished, prepare_start, set_running, set_threads, ask_stop, writer_joined, join_writer,
  join_threads, end_of, stop,
}

module _ {W B : Type 0} (k : Kernel W) (wait : ℤ → Async W B → Async W B)
    (callback : Callback W (ThreadedServer2 B)) where
  -- The state in which `start` makes its threads.
  abbrev pub cleared : Async W B → Async W B
  cleared s = record s { app = record (s.app) { ready_to_write_set = [] } }

  -- A server that `start` accepts, and both of whose threads end at their first step: the second
  -- with an exception.
  pub record StaysDown (rounds : List (Async W B → Async W B)) (s : Async W B) : Type 0 where
    pub halted : s.app.running ≡ false
    pub accepted : prepare_start s ≡ some (cleared s)
    pub writer : write_queue_worker k wait (cleared s) ≡ ended (cleared s)
    pub listening : listen_worker k wait callback rounds (cleared s) ≡ threw (cleared s) not_open

  down :
      (rounds : List (Async W B → Async W B)) (s : Async W B)
      → s.app.stop_server ≡ true
      → s.srv.listen_sock ≡ minus_one
      → StaysDown rounds (set_running false s)
  unfolding set_running prepare_start listen_worker write_queue_worker
  down rounds s h closed = record {
    halted = refl;
    accepted = refl;
    writer = rw h refl;
    listening = listen_not_open k (internal_callback k wait callback) rounds _ closed;
  }

  -- The writing thread ends at its next test of `stopServer`.
  abbrev pub writer : Async W B → Option (Async W B)
  writer t = end_of (write_queue_worker k wait t)

  joined-StaysDown :
      (rounds : List (Async W B → Async W B)) (s t : Async W B)
      → t.app.stop_server ≡ true
      → t.app.listener_joinable ≡ true
      → t.app.writer_joinable ≡ true
      → t.srv.listen_sock ≡ minus_one
      → (join_threads writer s (some t) ≡ finished (set_running false (set_threads false false t)))
        × StaysDown rounds (set_running false (set_threads false false t))
  unfolding join_threads join_writer writer_joined set_running set_threads write_queue_worker end_of
  joined-StaysDown rounds s t told one two closed =
      (rw (one, two, told) refl, down rounds (set_threads false false t) told closed)

  -- stop returns where both threads have been started and not joined, the server listens on a
  -- valid socket, close(2) succeeds, the listening thread is at the head of its loop or in an
  -- epoll_wait that returns only when it has a reason to, epoll watches the pipe, the byte that
  -- terminate writes to it is taken, and the writing thread comes to its next test of stopServer.
  -- No connection is left, the server counts as not running and start accepts it again, but then
  -- the writing thread ends at its first step and listen throws in the listening thread.
  pub stop-StaysDown :
      (wakes : W → ℤ → Bool) (Watches : W → ℤ → ℤ → ℤ → Type 0)
      → WakeLaws k wakes Watches
      → (place : Place) (o : Async W B → Async W B) (rounds rounds' : List (Async W B → Async W B))
        (s : Async W B)
      → ClosesWell k
      → s.app.listener_joinable ≡ true
      → s.app.writer_joinable ≡ true
      → s.srv.is_listening ≡ true
      → ltb_ℤ s.srv.listen_sock (pos 0) ≡ false
      → Watches s.world s.srv.epollfd s.srv.pipe_read_fd s.srv.pipe_write_fd
      → (k.sys_write s.world s.srv.pipe_write_fd (b'.' ∷ [])).c ≡ pos 1
      → (t : Async W B) × (stop k
            (listener k (internal_callback k wait callback) wakes place (o ∷ rounds))
            writer
            s
          ≡ finished t)
        × (t.srv.incoming_conn_fd ≡ [])
        × StaysDown rounds' t
  unfolding stop ask_stop
  stop-StaysDown wakes Watches laws place o rounds rounds' s well one two on valid watched written =
      let (t, e, app, stopped) =
        terminate-IsStopped k (internal_callback k wait callback) wakes Watches laws place o rounds
          (ask_stop s) well on valid watched written in
      let (left, down_for_good) =
        joined-StaysDown rounds' (ask_stop s) t (ap (λ a. a.stop_server) app)
          (ap (λ a. a.listener_joinable) app ∙ one) (ap (λ a. a.writer_joinable) app ∙ two)
          stopped.closed in
      (
        set_running false (set_threads false false t),
        ap (join_threads writer (ask_stop s)) e ∙ left,
        unfold set_running set_threads in stopped.empty,
        down_for_good,
      )
