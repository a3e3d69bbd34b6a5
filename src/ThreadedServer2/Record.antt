-- ===== src/ThreadedServer2/Record.antt =====
-- The internal callback of ThreadedServer2 as the callback of the server that it runs: the server's
-- record of its connections (libnbuss/ThreadedServer2.cpp, libnbuss/IGenericServer.cpp).
use nonblocking_unix_socket.Base.{
  ◌≡◌, ◌⊎◌, inl, inr, refl, Bool, true, Bool-cases, List, none, ℤ, pos, ltb_ℤ,
}
use nonblocking_unix_socket.Kernel.{Kernel, FdLaws, EpollEvent}
use nonblocking_unix_socket.Server.{
  Callback, ListenEvent, JobType, available_for_read, close_socket, available_for_write, new_socket,
  available_for_read_and_write, socket_is_closed,
}
use nonblocking_unix_socket.Server.Fds.{has_fd}
use nonblocking_unix_socket.Server.Listen.{handle_events}
use nonblocking_unix_socket.Server.Tracking.{IsTracked, KeepsTracking}
use nonblocking_unix_socket.Server.Tracking.Batch.{
  AllKnown, AreDistinct, KeepsOthers, MindsItsOwn, KeepsOthers-refl, KeepsOthers-trans,
  handle_events-IsTracked,
}
use nonblocking_unix_socket.ThreadedServer2.{
  ThreadedServer2, Async, put_socket_data, mark_ready, lock_data, cleanup_data, handle_job,
  internal_callback,
}

module _ {W B : Type 0} (k : Kernel W) (is_open : W → ℤ → Bool) (laws : FdLaws k is_open) where
  abbrev IsRight : Async W B → Type 0
  IsRight s = IsTracked is_open s.srv s.world

  -- What the threads do that work while one waits for the data of a descriptor: they keep the record
  -- right and close no other connection.
  pub record WaitLaws (wait : ℤ → Async W B → Async W B) : Type 0 where
    pub wait_keeps :
        (fd : ℤ) (s : Async W B)
        → IsTracked is_open s.srv s.world
        → IsTracked is_open (wait fd s).srv (wait fd s).world
    pub wait_minds : (fd : ℤ) (s : Async W B) → KeepsOthers s.srv fd (wait fd s).srv

  module _ (wait : ℤ → Async W B → Async W B) (waits : WaitLaws wait) where
    cleanup-IsTracked : (s : Async W B) (fd : ℤ) → IsRight s → IsRight (cleanup_data k wait s fd)
    unfolding cleanup_data lock_data put_socket_data
    cleanup-IsTracked s fd t =
        elim (Bool-cases (ltb_ℤ (pos 0) (s.app.internal_socket_data fd).uses)) [
          | inl e ↦ rw e (waits.wait_keeps fd s t)
          | inr e ↦ rw e t
        ]

    cleanup-KeepsOthers :
        (s : Async W B) (fd : ℤ) → KeepsOthers s.srv fd (cleanup_data k wait s fd).srv
    unfolding cleanup_data lock_data put_socket_data
    cleanup-KeepsOthers s fd =
        elim (Bool-cases (ltb_ℤ (pos 0) (s.app.internal_socket_data fd).uses)) [
          | inl e ↦ rw e (waits.wait_minds fd s)
          | inr e ↦ rw e (KeepsOthers-refl s.srv fd)
        ]

    module _ (callback : Callback W (ThreadedServer2 B))
        (minds : MindsItsOwn k is_open laws callback)
        (keeps : KeepsTracking k is_open laws callback) where
      job-IsTracked :
          (s : Async W B) (ev : ListenEvent) (job : JobType)
          → ev.job ≡ job
          → (ev.job ≡ socket_is_closed) ⊎ (has_fd ev.fd s.srv.incoming_conn_fd ≡ true)
          → IsRight s
          → IsRight (handle_job k wait callback s ev job)
      unfolding handle_job mark_ready
      job-IsTracked s ev available_for_read_and_write e (inl closed) t = cc (e, closed)
      job-IsTracked s ev available_for_read_and_write e (inr m) t = keeps _ _ (inr m) t
      job-IsTracked s ev new_socket e can t = keeps s ev can t
      job-IsTracked s ev close_socket e can t = keeps s ev can t
      job-IsTracked s ev available_for_write e can t = t
      job-IsTracked s ev available_for_read e can t = keeps s ev can t
      job-IsTracked s ev socket_is_closed e can t = keeps _ ev (inl e) (cleanup-IsTracked s ev.fd t)

      job-KeepsOthers :
          (s : Async W B) (ev : ListenEvent) (job : JobType)
          → KeepsOthers s.srv ev.fd (handle_job k wait callback s ev job).srv
      unfolding handle_job mark_ready
      job-KeepsOthers s ev available_for_read_and_write = minds _ _
      job-KeepsOthers s ev new_socket = minds s ev
      job-KeepsOthers s ev close_socket = minds s ev
      job-KeepsOthers s ev available_for_write = KeepsOthers-refl s.srv ev.fd
      job-KeepsOthers s ev available_for_read = minds s ev
      job-KeepsOthers s ev socket_is_closed =
          KeepsOthers-trans ev.fd (cleanup-KeepsOthers s ev.fd) (minds _ ev)

      -- A ThreadedServer2 whose server handles all events of one call, each of a descriptor that
      -- the server knows and none of the same descriptor twice, has a right record of its
      -- connections afterwards, unless an exception was thrown: where the user's callback and the
      -- threads that work while a lock is awaited keep the record right and close no connection
      -- but that of their descriptor.
      pub async_server-IsTracked :
          (s : Async W B) (evs : List EpollEvent)
          → AllKnown s.srv evs
          → AreDistinct evs
          → IsTracked is_open s.srv s.world
          → (handle_events k (internal_callback k wait callback) s evs).1 ≡ none
          → let t = (handle_events k (internal_callback k wait callback) s evs).0 in
            IsTracked is_open t.srv t.world
      unfolding internal_callback
      async_server-IsTracked s evs known distinct t ok =
          handle_events-IsTracked k is_open laws (internal_callback k wait callback)
            (λ s ev. job-KeepsOthers s ev ev.job)
            (λ s ev can t. job-IsTracked s ev ev.job refl can t) s evs known distinct t ok
