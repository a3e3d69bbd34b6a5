-- ===== src/WorkQueue.antt =====
-- libnbuss/WorkQueue.h and WorkQueue.cpp: the events of a ThreadedServer2 wait in a deque for
-- consumer threads. The head of the list `deque` is the back of the deque, from which consumers
-- take. A consumer reads its item through a reference after `pop_back` has destroyed it; the model
-- reads the item as it was.
pub mod Fifo
pub mod Wake
pub mod Pool
pub mod Queues
pub mod Pipeline
use nonblocking_unix_socket.Base.{
  ◌==◌, ℕ, zero, suc, Bool, true, false, List, [], ◌∷◌, ◌++◌, Option, none, some, ℤ, ◌==ℤ◌, leb,
  map, if◌then◌else◌,
}
use nonblocking_unix_socket.Kernel.{Kernel}
use nonblocking_unix_socket.Server.{State, Callback, ListenEvent, JobType}
use nonblocking_unix_socket.Server.Life as Life
use nonblocking_unix_socket.ThreadedServer2.{ThreadedServer2, Async}
use nonblocking_unix_socket.ThreadedServer2 as Threaded
use nonblocking_unix_socket.ThreadedServer2.Threads as Threads

pub record Item : Type 0 where
  pub fd : ℤ
  pub job : JobType
  pub process : Bool

-- The fields of `WorkQueue`, but for the server. `consumer_threads` is how many of its threads have
-- been started and not joined.
pub record WorkQueue (C : Type 0) : Type 0 where
  pub number_consumer_threads : ℕ
  pub deque : List Item
  pub consumers_must_terminate : Bool
  pub consumer_threads : ℕ
  pub user : C

abbrev pub Queued : Type 0 → Type 0 → Type 0
Queued W C = Async W (WorkQueue C)

-- The constructor. `none`: it throws.
unfoldable pub make_work_queue : {C : Type 0} → ℕ → C → Option (WorkQueue C)
make_work_queue number user =
    if leb 1 number
    then some (record {
      number_consumer_threads = number;
      deque = [];
      consumers_must_terminate = false;
      consumer_threads = 0;
      user = user;
    })
    else none

-- How a pass of a consumer through its loop ends.
pub data Pass (W C : Type 0) : Type 0 where
  ended : Pass W C
  waiting : Pass W C
  passed : Queued W C → Pass W C

-- `process = false` for the items of a descriptor that is being closed.
unfoldable pub mark : ℤ → Item → Item
mark fd item = if item.fd ==ℤ fd then record item { process = false } else item

module _ {W C : Type 0} where
  abbrev pub queue_of : Queued W C → WorkQueue C
  queue_of s = s.app.user

  abbrev pub with_queue : Queued W C → WorkQueue C → Queued W C
  with_queue s q = record s { app = record (s.app) { user = q } }

  unfoldable pub producer_callback : Callback W (ThreadedServer2 (WorkQueue C))
  producer_callback s ev =
      let item : Item = record { fd = ev.fd; job = ev.job; process = true } in
      with_queue s (record (queue_of s) { deque = (queue_of s).deque ++ item ∷ [] })

  -- The end of a pass: the item is given to the callback unless it was marked.
  unfoldable pub report_item :
      Callback W (ThreadedServer2 (WorkQueue C)) → Queued W C → Item → Queued W C
  report_item callback s item =
      if item.process then callback s (record { fd = item.fd; job = item.job; events = 0 }) else s

  -- The part of `consumer` behind the wait: the item at the back of the deque is taken off first.
  unfoldable pub consume :
      Callback W (ThreadedServer2 (WorkQueue C)) → Queued W C → Item → List Item → Queued W C
  unfolding report_item
  consume callback s item items =
      report_item callback (with_queue s (record (queue_of s) { deque = items })) item

  -- `while (deque.size() == 0) deque_cv.wait(lk)`, and what follows it.
  unfoldable pub take_item :
      Callback W (ThreadedServer2 (WorkQueue C)) → Queued W C → List Item → Pass W C
  unfolding consume
  take_item callback s [] = waiting
  take_item callback s (item ∷ items) = passed (consume callback s item items)

  -- A pass of `consumer` with the mutex held, from the test of the loop on; a consumer that waits
  -- makes another pass when it is woken. Other threads may work between taking
  -- the item and giving it to the callback: Pool has the two as steps of their own.
  unfoldable pub consumer : Callback W (ThreadedServer2 (WorkQueue C)) → Queued W C → Pass W C
  unfolding take_item
  consumer callback s =
      if (queue_of s).consumers_must_terminate
      then ended
      else take_item callback s (queue_of s).deque

  -- `start`, with the threads of the consumers among the `others`. A consumer's thread that has
  -- not been joined is assigned to, which ends the process, before the server is started.
  unfoldable pub start : (Queued W C → Queued W C) → Queued W C → Threads.Call W (WorkQueue C)
  start others s =
      let q = queue_of s in
      let t = with_queue s (record q {
        consumers_must_terminate = false;
        consumer_threads = q.number_consumer_threads;
      }) in
      if q.consumer_threads == 0 then Threads.start others t else Threads.aborted

  -- The end of `stop`, behind the joins of the consumers.
  unfoldable pub cleared : Threads.Call W (WorkQueue C) → Threads.Call W (WorkQueue C)
  cleared (Threads.finished t) =
      Threads.finished (with_queue t (record (queue_of t) { deque = []; consumer_threads = 0 }))
  cleared (Threads.threw t) = Threads.threw t
  cleared (Threads.blocked t) = Threads.blocked t
  cleared Threads.aborted = Threads.aborted

  unfoldable pub mark_all : Queued W C → ℤ → Queued W C
  unfolding mark
  mark_all s fd = with_queue s (record (queue_of s) { deque = map (mark fd) (queue_of s).deque })

module _ {W C : Type 0} (k : Kernel W) where
  -- `stop`, where the consumers have been started, and every one of them ends: see Wake.
  unfoldable pub stop :
      (Queued W C → Queued W C)
      → (Queued W C → Option (Queued W C))
      → Queued W C
      → Threads.Call W (WorkQueue C)
  unfolding cleared
  stop others writer s = cleared (
      Threads.stop k others writer
        (with_queue s (record (queue_of s) { consumers_must_terminate = true })))

  unfoldable pub close : (ℤ → Queued W C → Queued W C) → Queued W C → ℤ → Option (Queued W C)
  close wait s fd = Threaded.close k wait (mark_all s fd) fd

  -- `none`: a null pointer is written through.
  unfoldable pub remove_from_epoll : Queued W C → ℤ → Option (Life.Removed W)
  remove_from_epoll s fd = Life.remove_from_epoll k s.srv s.world fd false
