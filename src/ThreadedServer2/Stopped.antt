-- ===== src/ThreadedServer2/Stopped.antt =====
-- A ThreadedServer2 that has been stopped (libnbuss/ThreadedServer2.cpp).
use nonblocking_unix_socket.Base.{
  ℕ, ◌≡◌, refl, sym, ap, ◌∙◌, inl, inr, true, false, Bool-cases, List, [], ◌∷◌, some, some_inj,
  Option-cases, ℤ, pos, ltb_ℤ, arith,
}
use nonblocking_unix_socket.Kernel.{Kernel}
use nonblocking_unix_socket.Server.{
  Callback, ListenEvent, JobType, available_for_read, close_socket, available_for_write, new_socket,
  available_for_read_and_write, socket_is_closed,
}
use nonblocking_unix_socket.Server.Life as Life
use nonblocking_unix_socket.SocketData.{WriteItem}
use nonblocking_unix_socket.ThreadedServer2.{
  ThreadedServer2, Async, ended, get_socket_data, put_socket_data, mark_ready, lock_data,
  write_or_queue, add_to_write_queue, write, cleanup_data, close_data, close_removed, close,
  handle_job, internal_callback, write_queue_worker,
}
use nonblocking_unix_socket.ThreadedServer2.Threads.{
  prepare_start, set_running, set_threads, ask_stop,
}
use nonblocking_unix_socket.ThreadedServer2.Reach.{
  Step, writes, closes, reports, works, starts, stops, asks, restores, runs, makes, Reach, here,
  next,
}

module _ {W B : Type 0} where
  abbrev IsStopped : Async W B → Type 0
  IsStopped s = s.app.stop_server ≡ true

  lock-stop :
      (wait : ℤ → Async W B → Async W B)
      → ((fd : ℤ) (s : Async W B) → (wait fd s).app.stop_server ≡ s.app.stop_server)
      → (s : Async W B) (fd : ℤ) → (lock_data wait s fd).app.stop_server ≡ s.app.stop_server
  unfolding lock_data put_socket_data
  lock-stop wait waits s fd =
      elim (Bool-cases (ltb_ℤ (pos 0) (s.app.internal_socket_data fd).uses)) [
        | inl e ↦ rw e (waits fd s)
        | inr e ↦ rw e refl
      ]

module _ {W B : Type 0} (k : Kernel W) where
  queued-stop :
      (q : List WriteItem) (s : Async W B) (fd : ℤ) (p : List ℕ)
      → (write_or_queue k q s fd p).state.app.stop_server ≡ s.app.stop_server
  unfolding write_or_queue add_to_write_queue
  queued-stop [] s fd p = ground arith
  queued-stop (item ∷ q) s fd p = refl

module _ {W B : Type 0} (k : Kernel W) (wait : ℤ → Async W B → Async W B)
    (waits : (fd : ℤ) (s : Async W B) → (wait fd s).app.stop_server ≡ s.app.stop_server)
    (callback : Callback W (ThreadedServer2 B))
    (calls : (s : Async W B) (ev : ListenEvent)
      → (callback s ev).app.stop_server ≡ s.app.stop_server) where
  cleanup-stop :
      (s : Async W B) (fd : ℤ) → (cleanup_data k wait s fd).app.stop_server ≡ s.app.stop_server
  unfolding cleanup_data put_socket_data
  cleanup-stop s fd = lock-stop wait waits s fd

  close_data-stop :
      (s : Async W B) (fd : ℤ) → (close_data k wait s fd).app.stop_server ≡ s.app.stop_server
  unfolding close_data put_socket_data
  close_data-stop s fd = lock-stop wait waits s fd

  job-stop :
      (s : Async W B) (ev : ListenEvent) (job : JobType)
      → (handle_job k wait callback s ev job).app.stop_server ≡ s.app.stop_server
  unfolding handle_job mark_ready
  job-stop s ev available_for_read_and_write = calls _ _
  job-stop s ev new_socket = calls s ev
  job-stop s ev close_socket = calls s ev
  job-stop s ev available_for_write = refl
  job-stop s ev available_for_read = calls s ev
  job-stop s ev socket_is_closed = calls _ ev ∙ cleanup-stop s ev.fd

  close-stop :
      (s t : Async W B) (fd : ℤ)
      → close k wait s fd ≡ some t
      → t.app.stop_server ≡ s.app.stop_server
  unfolding close close_removed
  close-stop s t fd e = elim (Option-cases (Life.remove_from_epoll k s.srv s.world fd false)) [
    | inl n ↦ cc (rw n at e)
    | inr (r, n) ↦ ap (λ u. u.app.stop_server) (sym (some_inj (rw n at e))) ∙ close_data-stop _ fd
  ]

  worker_ended : (s : Async W B) → IsStopped s → write_queue_worker k wait s ≡ ended s
  unfolding write_queue_worker
  worker_ended s h = rw h refl

  start-stop : (s t : Async W B) → prepare_start s ≡ some t → t.app.stop_server ≡ s.app.stop_server
  unfolding prepare_start
  start-stop s t e = elim (Bool-cases s.app.running) [
    | inl h ↦ cc (rw h at e)
    | inr h ↦ ap (λ u. u.app.stop_server) (sym (some_inj (rw h at e)))
  ]

  Step-IsStopped : {s t : Async W B} → Step k wait callback s t → IsStopped s → IsStopped t
  unfolding internal_callback write ask_stop Life.request_stop Life.restore set_running set_threads
  Step-IsStopped {s} (writes fd p e) h =
      ap (λ u. u.app.stop_server) e ∙ queued-stop k (get_socket_data s fd).write_queue s fd p ∙ h
  Step-IsStopped {s} {t} (closes fd e) h = close-stop s t fd e ∙ h
  Step-IsStopped {s} (reports ev e) h = ap (λ u. u.app.stop_server) e ∙ job-stop s ev ev.job ∙ h
  Step-IsStopped {s} (works e) h = cc (worker_ended s h, e)
  Step-IsStopped {s} {t} (starts e) h = start-stop s t e ∙ h
  Step-IsStopped (stops e) h = ap (λ u. u.app.stop_server) e
  Step-IsStopped (asks e) h = ap (λ u. u.app.stop_server) e ∙ h
  Step-IsStopped (restores e) h = ap (λ u. u.app.stop_server) e ∙ h
  Step-IsStopped (runs b e) h = ap (λ u. u.app.stop_server) e ∙ h
  Step-IsStopped (makes l w e) h = ap (λ u. u.app.stop_server) e ∙ h

  Reach-IsStopped : {s t : Async W B} → Reach k wait callback s t → IsStopped s → IsStopped t
  Reach-IsStopped here h = h
  Reach-IsStopped (next r st) h = Step-IsStopped st (Reach-IsStopped r h)

  -- In every state that the threads reach after stop has set the flag stopServer, also by a start,
  -- the writing thread ends at once, where the callback and the threads that work while a lock is
  -- awaited leave the flag alone.
  pub stopped_ends :
      (s : Async W B) {t : Async W B}
      → Reach k wait callback (ask_stop s) t
      → write_queue_worker k wait t ≡ ended t
  unfolding ask_stop
  stopped_ends s {t} r = worker_ended t (Reach-IsStopped r refl)
