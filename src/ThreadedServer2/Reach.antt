-- ===== src/ThreadedServer2/Reach.antt =====
-- The steps of the threads that share a ThreadedServer2, and what holds of the write queues in
-- every state that they reach (libnbuss/ThreadedServer2.cpp).
use nonblocking_unix_socket.Base.{
  ℕ, ◌≡◌, refl, subst, Bool, true, false, List, [], ◌∷◌, none, some, some_inj, ℤ, if◌then◌else◌,
}
use nonblocking_unix_socket.Kernel.{Kernel}
use nonblocking_unix_socket.Server.{
  Server, Callback, ListenEvent, JobType, available_for_read, close_socket, available_for_write,
  new_socket, available_for_read_and_write, socket_is_closed,
}
use nonblocking_unix_socket.Server.Life.{request_stop, restore}
use nonblocking_unix_socket.ThreadedServer2.{
  ThreadedServer2, Async, Round, ended, waiting, worked, lock_data, write, close, handle_job,
  internal_callback, serve, write_queue_worker, make_threaded,
}
use nonblocking_unix_socket.ThreadedServer2.Threads.{
  prepare_start, set_running, set_threads, ask_stop,
}
use nonblocking_unix_socket.ThreadedServer2.Empty.{
  AllEmpty, KeepsEmpty, mark-AllEmpty, write-AllEmpty, cleanup-AllEmpty, close-AllEmpty, serve_idle,
  worked_inj,
}

module _ {W B : Type 0} (k : Kernel W) (wait : ℤ → Async W B → Async W B)
    (callback : Callback W (ThreadedServer2 B)) where
  -- A step of one of the threads: a user's thread calls `write` or `close`, or makes a part of
  -- `start` or `stop`, the listener reports an event, or the writing thread makes a round.
  pub data Step (s t : Async W B) : Type 0 where
    writes : (fd : ℤ) (p : List ℕ) → t ≡ (write k s fd p).state → Step s t
    closes : (fd : ℤ) → close k wait s fd ≡ some t → Step s t
    reports : (ev : ListenEvent) → t ≡ internal_callback k wait callback s ev → Step s t
    works : write_queue_worker k wait s ≡ worked t → Step s t
    starts : prepare_start s ≡ some t → Step s t
    stops : t ≡ ask_stop s → Step s t
    asks : t ≡ request_stop k s → Step s t
    restores : t ≡ restore k s → Step s t
    runs : (b : Bool) → t ≡ set_running b s → Step s t
    makes : (listener writer : Bool) → t ≡ set_threads listener writer s → Step s t

  pub data Reach (s : Async W B) : Async W B → Type 0 where
    here : Reach s s
    next : {t u : Async W B} → Reach s t → Step t u → Reach s u

  module _ (waits : (fd : ℤ) → KeepsEmpty (wait fd))
      (calls : (ev : ListenEvent) → KeepsEmpty (λ s. callback s ev)) where
    job-AllEmpty :
        (s : Async W B) (ev : ListenEvent) (job : JobType)
        → AllEmpty s
        → AllEmpty (handle_job k wait callback s ev job)
    unfolding handle_job
    job-AllEmpty s ev available_for_read_and_write h = calls _ _ (mark-AllEmpty s ev.fd h)
    job-AllEmpty s ev new_socket h = calls ev s h
    job-AllEmpty s ev close_socket h = calls ev s h
    job-AllEmpty s ev available_for_write h = mark-AllEmpty s ev.fd h
    job-AllEmpty s ev available_for_read h = calls ev s h
    job-AllEmpty s ev socket_is_closed h = calls ev _ (cleanup-AllEmpty k wait waits s ev.fd h)

    worker-AllEmpty :
        (s t : Async W B) → write_queue_worker k wait s ≡ worked t → AllEmpty s → AllEmpty t
    unfolding write_queue_worker
    worker-AllEmpty s t e h = go s.app.stop_server s.app.ready_to_write_set e
      where
        pick : List ℤ → Round W B
        pick [] = waiting s
        pick (fd ∷ fds) =
            worked
              (serve k wait (record s { app = record (s.app) { ready_to_write_set = fds } }) fd)

        go : (b : Bool) (fds : List ℤ) → (if b then ended s else pick fds) ≡ worked t → AllEmpty t
        go true fds n = cc n
        go false [] n = cc n
        go false (fd ∷ fds) n =
            subst AllEmpty (worked_inj n)
              (serve_idle k wait waits
                (record s { app = record (s.app) { ready_to_write_set = fds } }) fd h).0

    start-AllEmpty : (s t : Async W B) → prepare_start s ≡ some t → AllEmpty s → AllEmpty t
    unfolding prepare_start
    start-AllEmpty s t e h = go s.app.running e
      where
        started : Async W B
        started = record s { app = record (s.app) { ready_to_write_set = [] } }

        go : (b : Bool) → (if b then none else some started) ≡ some t → AllEmpty t
        go true n = cc n
        go false n = subst AllEmpty (some_inj n) h

    Step-AllEmpty : {s t : Async W B} → Step s t → AllEmpty s → AllEmpty t
    unfolding ask_stop request_stop restore set_running set_threads internal_callback
    Step-AllEmpty {s} (writes fd p e) h = rw e (write-AllEmpty k s fd p h)
    Step-AllEmpty {s} {t} (closes fd e) h = close-AllEmpty k wait waits s t fd e h
    Step-AllEmpty {s} (reports ev e) h = rw e (job-AllEmpty s ev ev.job h)
    Step-AllEmpty {s} {t} (works e) h = worker-AllEmpty s t e h
    Step-AllEmpty {s} {t} (starts e) h = start-AllEmpty s t e h
    Step-AllEmpty (stops e) h = rw e h
    Step-AllEmpty (asks e) h = rw e h
    Step-AllEmpty (restores e) h = rw e h
    Step-AllEmpty (runs b e) h = rw e h
    Step-AllEmpty (makes l w e) h = rw e h

    Reach-AllEmpty : {s t : Async W B} → Reach s t → AllEmpty s → AllEmpty t
    Reach-AllEmpty here h = h
    Reach-AllEmpty (next r st) h = Step-AllEmpty st (Reach-AllEmpty r h)

    -- In every state that the threads reach from the constructor's, where the callback and the
    -- waiting threads keep the queues empty, all write queues are empty, and the writing thread's
    -- work on a descriptor leaves server and system as the lock leaves them.
    pub Reach-idle :
        (srv : Server) (w : W) (user : B) {t : Async W B} (fd : ℤ)
        → Reach (record { srv = srv; world = w; app = make_threaded user }) t
        → AllEmpty t
          × ((serve k wait t fd).srv ≡ (lock_data wait t fd).srv)
          × ((serve k wait t fd).world ≡ (lock_data wait t fd).world)
    unfolding make_threaded
    Reach-idle srv w user {t} fd r =
        let empty : AllEmpty t = Reach-AllEmpty r (λ other. refl) in
        (empty, (serve_idle k wait waits t fd empty).1, (serve_idle k wait waits t fd empty).2)
