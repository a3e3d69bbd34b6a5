-- ===== src/WorkQueue/Queues.antt =====
-- What the producer and the threads do to the queue of a WorkQueue, and to what the server knows of
-- input and output, in a form that composes (libnbuss/WorkQueue.cpp).
use nonblocking_unix_socket.Base.{
  ◌≡◌, refl, sym, subst, ap, ◌∙◌, List, [], ◌∷◌, ◌++◌, append-nil, append_assoc, ℤ,
}
use nonblocking_unix_socket.Server.{Server, ListenEvent, JobType}
use nonblocking_unix_socket.ThreadedServer2.{mark_ready}
use nonblocking_unix_socket.WorkQueue.{producer_callback, queue_of}
use nonblocking_unix_socket.WorkQueue.Fifo.{Log, live, live-append, waits, given}

-- The listening socket and the record of input and output are the same.
pub record SameIo (s t : Server) : Type 0 where
  pub same_listen_sock : t.listen_sock ≡ s.listen_sock
  pub same_smart_close : t.use_smart_close ≡ s.use_smart_close
  pub same_io : t.is_socket_io ≡ s.is_socket_io

pub SameIo-refl : (s : Server) → SameIo s s
SameIo-refl s = record { same_listen_sock = refl; same_smart_close = refl; same_io = refl }

SameIo-trans : {s t u : Server} → SameIo s t → SameIo t u → SameIo s u
SameIo-trans a b = record {
  same_listen_sock = b.same_listen_sock ∙ a.same_listen_sock;
  same_smart_close = b.same_smart_close ∙ a.same_smart_close;
  same_io = b.same_io ∙ a.same_io;
}

-- Nothing has happened to the queue.
pub record LeavesQueue {W : Type 0} (s t : Log W) : Type 0 where
  pub same_queue : queue_of t ≡ queue_of s
  pub same_server : SameIo s.srv t.srv

pub LeavesQueue-refl : {W : Type 0} (s : Log W) → LeavesQueue s s
LeavesQueue-refl s = record { same_queue = refl; same_server = SameIo-refl s.srv }

-- The events have been put behind those that wait.
pub record Queues {W : Type 0} (new : List ListenEvent) (s t : Log W) : Type 0 where
  pub behind : waits t ≡ waits s ++ new
  pub none_given : given t ≡ given s
  pub same_flag : (queue_of t).consumers_must_terminate ≡ (queue_of s).consumers_must_terminate
  pub same_number : (queue_of t).number_consumer_threads ≡ (queue_of s).number_consumer_threads
  pub same_server : SameIo s.srv t.srv

module _ {W : Type 0} where
  pub nothing_new : (s t : Log W) → LeavesQueue s t → Queues [] s t
  nothing_new s t l = record {
    behind = ap (λ q. live q.deque) l.same_queue ∙ sym (append-nil (waits s));
    none_given = ap (λ q. q.user) l.same_queue;
    same_flag = ap (λ q. q.consumers_must_terminate) l.same_queue;
    same_number = ap (λ q. q.number_consumer_threads) l.same_queue;
    same_server = l.same_server;
  }

  pub after_leaving :
      (new : List ListenEvent) (s t u : Log W) → LeavesQueue s t → Queues new t u → Queues new s u
  after_leaving new s t u l q = record {
    behind = q.behind ∙ ap (λ x. live x.deque ++ new) l.same_queue;
    none_given = q.none_given ∙ ap (λ x. x.user) l.same_queue;
    same_flag = q.same_flag ∙ ap (λ x. x.consumers_must_terminate) l.same_queue;
    same_number = q.same_number ∙ ap (λ x. x.number_consumer_threads) l.same_queue;
    same_server = SameIo-trans l.same_server q.same_server;
  }

  pub Queues-trans :
      (new more : List ListenEvent) (s t u : Log W)
      → Queues new s t
      → Queues more t u
      → Queues (new ++ more) s u
  Queues-trans new more s t u a b = record {
    behind = b.behind ∙ ap (λ es. es ++ more) a.behind ∙ append_assoc (waits s) new more;
    none_given = b.none_given ∙ a.none_given;
    same_flag = b.same_flag ∙ a.same_flag;
    same_number = b.same_number ∙ a.same_number;
    same_server = SameIo-trans a.same_server b.same_server;
  }

  pub produced :
      (s : Log W) (ev : ListenEvent)
      → Queues (record { fd = ev.fd; job = ev.job; events = 0 } ∷ []) s (producer_callback s ev)
  unfolding producer_callback
  produced s ev = record {
    behind = live-append (queue_of s).deque _;
    none_given = refl;
    same_flag = refl;
    same_number = refl;
    same_server = SameIo-refl s.srv;
  }

  pub produced_as :
      (s : Log W) (ev : ListenEvent) (job : JobType)
      → ev.job ≡ job
      → Queues (record { fd = ev.fd; job = job; events = 0 } ∷ []) s (producer_callback s ev)
  produced_as s ev job e =
      subst
        (λ j. Queues (record { fd = ev.fd; job = j; events = 0 } ∷ []) s (producer_callback s ev)) e
        (produced s ev)

  pub marked : (s : Log W) (fd : ℤ) → LeavesQueue s (mark_ready s fd)
  unfolding mark_ready
  marked s fd = record { same_queue = refl; same_server = SameIo-refl s.srv }
