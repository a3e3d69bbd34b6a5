-- ===== src/WorkQueue/Pipeline.antt =====
-- The way of an event: IGenericServer::listen reports it to ThreadedServer2::internal_callback, which
-- hands it to WorkQueue::producer_callback, and a consumer gives it to the user's callback
-- (libnbuss/IGenericServer.cpp, ThreadedServer2.cpp, WorkQueue.cpp).
use nonblocking_unix_socket.Base.{
  ◌≡◌, ◌≢◌, refl, subst, ap, ◌∙◌, Bool, true, false, ◌&&◌, ◌||◌, not, List, [], ◌∷◌, ◌++◌, Option,
  none, some, ℤ, pos, ltb_ℤ, ne→==ℤ, length, if_keeps, arith,
}
use nonblocking_unix_socket.Kernel.{Kernel, EpollEvent, has}
use nonblocking_unix_socket.Server.{
  Server, Callback, ListenEvent, JobType, available_for_read, close_socket, available_for_write,
  new_socket, available_for_read_and_write, socket_is_closed, is_io,
}
use nonblocking_unix_socket.Server.Life as Life
use nonblocking_unix_socket.Server.Listen.{
  epollrdhup, epollhup, job_of, close_unused, report, handle_socket, handle_event, handle_events,
}
use nonblocking_unix_socket.ThreadedServer2.{
  ThreadedServer2, lock_data, put_socket_data, mark_ready, cleanup_data, handle_job,
  internal_callback,
}
use nonblocking_unix_socket.WorkQueue.{WorkQueue, producer_callback, queue_of}
use nonblocking_unix_socket.WorkQueue.Queues.{
  SameIo, SameIo-refl, LeavesQueue, LeavesQueue-refl, Queues, nothing_new, after_leaving,
  Queues-trans, produced, produced_as, marked,
}
use nonblocking_unix_socket.WorkQueue.Pool.{run}
use nonblocking_unix_socket.WorkQueue.Pool.Passes.{passes, passes-run, free}
use nonblocking_unix_socket.WorkQueue.Fifo.{Log, waits, given, drain_gives_all}

-- What the user is told of an event that the listener reports with this job.
abbrev pub told : ℤ → Option JobType → List ListenEvent
told fd none = []
told fd (some available_for_write) = []
told fd (some available_for_read_and_write) =
    record { fd = fd; job = available_for_read; events = 0 } ∷ []
told fd (some available_for_read) = record { fd = fd; job = available_for_read; events = 0 } ∷ []
told fd (some close_socket) = record { fd = fd; job = close_socket; events = 0 } ∷ []
told fd (some new_socket) = record { fd = fd; job = new_socket; events = 0 } ∷ []
told fd (some socket_is_closed) = record { fd = fd; job = socket_is_closed; events = 0 } ∷ []

abbrev pub unused : Server → ℤ → Bool
unused s fd = s.use_smart_close && not (is_io s fd)

-- What the user is told of the events of one epoll_wait.
abbrev pub all_told : Server → List EpollEvent → List ListenEvent
all_told s [] = []
all_told s (ev ∷ evs) = told ev.fd (job_of (unused s ev.fd) ev.events) ++ all_told s evs

-- None of the events is one of the listening socket.
abbrev pub AllConnections : Server → List EpollEvent → Type 0
AllConnections s [] = Unit
AllConnections s (ev ∷ evs) = (ev.fd ≢ s.listen_sock) × AllConnections s evs

module _ {W : Type 0} (k : Kernel W) (wait : ℤ → Log W → Log W)
    (leaves : (fd : ℤ) (s : Log W) → LeavesQueue s (wait fd s)) where
  -- The callback that the server is given.
  abbrev pub pipeline : Callback W (ThreadedServer2 (WorkQueue (List ListenEvent)))
  pipeline = internal_callback k wait producer_callback

  cleanup-LeavesQueue : (s : Log W) (fd : ℤ) → LeavesQueue s (cleanup_data k wait s fd)
  unfolding cleanup_data lock_data put_socket_data
  cleanup-LeavesQueue s fd =
      let locked =
        if_keeps (LeavesQueue s) (ltb_ℤ (pos 0) (s.app.internal_socket_data fd).uses) (leaves fd s)
          (LeavesQueue-refl s) in
      record { same_queue = locked.same_queue; same_server = locked.same_server }

  job-Queues :
      (s : Log W) (ev : ListenEvent) (job : JobType)
      → ev.job ≡ job
      → Queues (told ev.fd (some job)) s (handle_job k wait producer_callback s ev job)
  unfolding handle_job
  job-Queues s ev available_for_read_and_write e =
      after_leaving _ s (mark_ready s ev.fd) _ (marked s ev.fd) (produced _ _)
  job-Queues s ev available_for_write e = nothing_new s _ (marked s ev.fd)
  job-Queues s ev socket_is_closed e =
      after_leaving _ s (cleanup_data k wait s ev.fd) _ (cleanup-LeavesQueue s ev.fd)
        (produced_as _ ev socket_is_closed e)
  job-Queues s ev available_for_read e = produced_as s ev available_for_read e
  job-Queues s ev close_socket e = produced_as s ev close_socket e
  job-Queues s ev new_socket e = produced_as s ev new_socket e

  report-Queues :
      (s : Log W) (ev : EpollEvent) (job : Option JobType)
      → Queues (told ev.fd job) s (report k pipeline s ev job)
  unfolding report internal_callback
  report-Queues s ev none = nothing_new s s (LeavesQueue-refl s)
  report-Queues s ev (some job) = job-Queues s _ job refl

  closed-LeavesQueue :
      (b : Bool) (s : Log W) (fd : ℤ) → LeavesQueue s (close_unused k pipeline b s fd)
  unfolding close_unused Life.close
  closed-LeavesQueue true s fd = record {
    same_queue = refl;
    same_server =
        if_keeps (λ (r : Server × W). SameIo s.srv r.0) (ltb_ℤ fd (pos 0)) (SameIo-refl s.srv)
          (record { same_listen_sock = refl; same_smart_close = refl; same_io = refl });
  }
  closed-LeavesQueue false s fd = LeavesQueue-refl s

  event-Queues :
      (s : Log W) (ev : EpollEvent)
      → ev.fd ≢ s.srv.listen_sock
      → let r = handle_event k pipeline s ev in
        Queues (told ev.fd (job_of (unused s.srv ev.fd) ev.events)) s r.0 × (r.1 ≡ none)
  unfolding handle_event handle_socket
  event-Queues s ev ne =
      let hung_up = has ev.events epollrdhup || has ev.events epollhup in
      rw (ne→==ℤ ev.fd s.srv.listen_sock ne) (
        after_leaving _ s _ _ (closed-LeavesQueue (hung_up && unused s.srv ev.fd) s ev.fd)
            (report-Queues _ ev _),
        refl,
      )

  same_told : (s t : Server) (evs : List EpollEvent) → SameIo s t → all_told t evs ≡ all_told s evs
  unfolding is_io
  same_told s t [] same = refl
  same_told s t (ev ∷ evs) same =
      rw (same.same_smart_close, same.same_io, same_told s t evs same) refl

  same_connections :
      (s t : Server) (evs : List EpollEvent)
      → SameIo s t
      → AllConnections s evs
      → AllConnections t evs
  same_connections s t [] same all = tt
  same_connections s t (ev ∷ evs) same all =
      (λ e. all.0 (e ∙ same.same_listen_sock), same_connections s t evs same all.1)

  batch-Queues :
      (s : Log W) (evs : List EpollEvent)
      → AllConnections s.srv evs
      → let r = handle_events k pipeline s evs in Queues (all_told s.srv evs) s r.0 × (r.1 ≡ none)
  unfolding handle_events
  batch-Queues s [] all = (nothing_new s s (LeavesQueue-refl s), refl)
  batch-Queues s (ev ∷ evs) all =
      let (first, fine) = event-Queues s ev all.0 in
      let t = (handle_event k pipeline s ev).0 in
      let same = first.same_server in
      let (rest, ok) = batch-Queues t evs (same_connections s.srv t.srv evs same all.1) in
      let rest' =
        subst (λ es. Queues es t (handle_events k pipeline t evs).0)
          (same_told s.srv t.srv evs same) rest in
      rw (fine, handle_events) (Queues-trans _ (all_told s.srv evs) s t _ first rest', ok)

  -- Where the threads that work while a lock is awaited leave the queue and the server's record of
  -- input and output alone, a ThreadedServer2 with a WorkQueue that was not told to stop and has
  -- one consumer handles a list of events on connections without an exception. When the consumer,
  -- with nothing in hand at first, has then taken and reported an item as many times as there are
  -- items, the user's callback has been given what waited before and then, in the order of the
  -- list, each event that has a job but AVAILABLE_FOR_WRITE, with AVAILABLE_FOR_READ_AND_WRITE
  -- given as AVAILABLE_FOR_READ; nothing waits then and nothing is in hand.
  pub batch_served :
      (s : Log W) (evs : List EpollEvent)
      → AllConnections s.srv evs
      → (queue_of s).consumers_must_terminate ≡ false
      → (queue_of s).number_consumer_threads ≡ 1
      → let (t, e) = handle_events k pipeline s evs in
        let u = run (free t) (passes (length (queue_of t).deque)) in
        (e ≡ none)
        × (given u.queue ≡ given s ++ (waits s ++ all_told s.srv evs))
        × (waits u.queue ≡ [])
        × (u.hands ≡ [])
  batch_served s evs all running one =
      let (queued, ok) = batch-Queues s evs all in
      let t = (handle_events k pipeline s evs).0 in
      let n = length (queue_of t).deque in
      let (served, empty) = drain_gives_all n t refl (queued.same_flag ∙ running) in
      let steps =
        passes-run n t (omega (arith, queued.same_number, one)) (queued.same_flag ∙ running) in
      (
        ok,
        ap (λ p. given p.queue) steps
            ∙ served
            ∙ ap (λ es. es ++ waits t) queued.none_given
            ∙ ap (λ es. given s ++ es) queued.behind,
        ap (λ p. waits p.queue) steps ∙ empty,
        ap (λ p. p.hands) steps,
      )
