-- ===== src/ThreadedServer2.antt =====
-- libnbuss/ThreadedServer2.h and ThreadedServer2.cpp: a thread that listens, a thread that writes
-- what could not be written at once, and a write queue for each descriptor. A method is a function
-- on the server, the system and the fields of this class, in the order of its statements; where it
-- waits for the lock of a descriptor's data, the section's `wait` is what other threads do
-- meanwhile.

pub mod Threads
pub mod Drain
pub mod Write
pub mod Empty
pub mod Reach
pub mod Record
pub mod Close
pub mod Stopped
pub mod Restart
use nonblocking_unix_socket.Base.{
  ℕ, Bool, true, false, List, [], ◌∷◌, Option, none, some, ℤ, pos, minus_one, pos_part, ◌==ℤ◌,
  ltb_ℤ, ◌+ℤ◌, length, drop, if◌then◌else◌, ◌||◌,
}
use nonblocking_unix_socket.Kernel.{Kernel}
use nonblocking_unix_socket.Transfer.{data_of}
use nonblocking_unix_socket.Server.{
  Server, State, Callback, ListenEvent, JobType, available_for_read, close_socket,
  available_for_write, new_socket, available_for_read_and_write, socket_is_closed, set_insert,
}
use nonblocking_unix_socket.Server.Io as Io
use nonblocking_unix_socket.Server.Life as Life
use nonblocking_unix_socket.Server.Listen as Listen
use nonblocking_unix_socket.SocketData.{
  SocketData, WriteItem, new_socket_data, cleanup, release, push_front, push_back,
}

-- The fields of `ThreadedServer2`, but for the server and the threads. `internalSocketData` is a
-- `std::map` whose `operator[]` makes a new entry for a missing key, a function here. `user` is
-- what the callback works on. `listener_joinable` and `writer_joinable` say whether
-- `listenWorkerThread` and `writerWorkerThread` stand for threads that have not been joined.
pub record ThreadedServer2 (B : Type 0) : Type 0 where
  pub running : Bool
  pub stop_server : Bool
  pub ready_to_write_set : List ℤ
  pub internal_socket_data : ℤ → SocketData
  pub user : B
  pub listener_joinable : Bool
  pub writer_joinable : Bool

abbrev pub Async : Type 0 → Type 0 → Type 0
Async W B = State W (ThreadedServer2 B)

module _ {W B : Type 0} where
  unfoldable pub get_socket_data : Async W B → ℤ → SocketData
  get_socket_data s fd = s.app.internal_socket_data fd

  -- A change made through the reference that `get_socket_data` returns.
  unfoldable pub put_socket_data : Async W B → ℤ → SocketData → Async W B
  put_socket_data s fd sd = record s {
    app = record (s.app) {
      internal_socket_data = λ other. if fd ==ℤ other then sd else s.app.internal_socket_data other;
    };
  }

  -- `readyToWriteSet.insert(listen_event.fd)`
  unfoldable pub mark_ready : Async W B → ℤ → Async W B
  mark_ready s fd = record s {
    app = record (s.app) { ready_to_write_set = set_insert fd s.app.ready_to_write_set };
  }

  -- `sd.lock()`
  unfoldable pub lock_data : (ℤ → Async W B → Async W B) → Async W B → ℤ → Async W B
  lock_data wait s fd =
      let t = if ltb_ℤ (pos 0) (s.app.internal_socket_data fd).uses then wait fd s else s in
      let sd = t.app.internal_socket_data fd in
      put_socket_data t fd (record sd { uses = sd.uses +ℤ pos 1 })

-- The state after `write`, its result, and the deque that the method has worked on when it returns.
pub record Written (W B : Type 0) : Type 0 where
  pub state : Async W B
  pub ret : ℤ
  pub local_queue : List WriteItem

-- What `write_holding_lock` leaves: the queue is a reference parameter.
pub record Attempt (W : Type 0) : Type 0 where
  pub srv : Server
  pub world : W
  pub ret : ℤ
  pub write_queue : List WriteItem

-- How a round of the writing thread ends.
pub data Round (W B : Type 0) : Type 0 where
  ended : Async W B → Round W B
  waiting : Async W B → Round W B
  worked : Async W B → Round W B

module _ {W : Type 0} (k : Kernel W) where
  unfoldable pub write_holding_lock : Server → W → ℤ → WriteItem → List WriteItem → Attempt W
  write_holding_lock s w fd item q =
      let r = Io.write k s w fd item in
      let rest =
        if r.ret ==ℤ minus_one
        then item
        else if ltb_ℤ r.ret (pos (length item))
        then drop (pos_part r.ret) item
        else item in
      if r.ret ==ℤ pos (length item)
      then record { srv = r.srv; world = r.world; ret = r.ret; write_queue = q }
      else record { srv = r.srv; world = r.world; ret = minus_one; write_queue = push_back rest q }

  -- The loop of `write_queue_worker` over the queue of one descriptor.
  unfoldable pub drain : Server → W → ℤ → List WriteItem → Attempt W
  unfolding write_holding_lock
  drain s w fd [] = record { srv = s; world = w; ret = pos 0; write_queue = [] }
  drain s w fd (item ∷ q) =
      let r = write_holding_lock s w fd item q in
      let rest = drain r.srv r.world fd q in if r.ret ==ℤ minus_one then r else rest

module _ {W B : Type 0} (k : Kernel W) where
  -- `auto writeQueue = sd.getWriteQueue()` is a copy of the queue, `queue` here; what is pushed to
  -- it stays in it, and it is destroyed on return.
  unfoldable pub add_to_write_queue : Async W B → List WriteItem → WriteItem → ℕ → Written W B
  add_to_write_queue s queue item original_data_size = record {
    state = s;
    ret = pos original_data_size;
    local_queue = push_front item queue;
  }

  -- With an empty queue the data is first offered to the system.
  unfoldable pub write_or_queue : List WriteItem → Async W B → ℤ → List ℕ → Written W B
  unfolding add_to_write_queue
  write_or_queue [] s fd p =
      let r = Io.write k s.srv s.world fd p in
      let t = record s { srv = r.srv; world = r.world } in
      if r.ret ==ℤ pos (length p)
      then record { state = t; ret = r.ret; local_queue = [] }
      else if r.ret ==ℤ minus_one
      then add_to_write_queue t [] p (length p)
      else if ltb_ℤ r.ret (pos (length p))
      then add_to_write_queue t [] (drop (pos_part r.ret) p) (length p)
      else add_to_write_queue t [] p (length p)
  write_or_queue (item ∷ q) s fd p = add_to_write_queue s (item ∷ q) p (length p)

  unfoldable pub write : Async W B → ℤ → List ℕ → Written W B
  unfolding get_socket_data write_or_queue
  write s fd p = write_or_queue (get_socket_data s fd).write_queue s fd p

  -- The template over a vector of elements of `width` bytes.
  unfoldable pub write_t : Async W B → ℤ → ℕ → List (List ℕ) → Written W B
  unfolding write data_of
  write_t s fd width elements = write s fd (data_of width elements)

module _ {W B : Type 0} (k : Kernel W) (wait : ℤ → Async W B → Async W B) where
  unfoldable pub cleanup_data : Async W B → ℤ → Async W B
  cleanup_data s fd =
      let t = lock_data wait s fd in
      let u = put_socket_data t fd (cleanup (t.app.internal_socket_data fd)) in
      put_socket_data u fd (release (u.app.internal_socket_data fd))

  -- The rest of `close`, once the descriptor has left the epoll list.
  unfoldable pub close_data : Async W B → ℤ → Async W B
  close_data s fd =
      let t = lock_data wait s fd in
      let u = put_socket_data t fd (cleanup (t.app.internal_socket_data fd)) in
      let (srv', w') = Life.close k u.srv u.world fd in
      put_socket_data (record u { srv = srv'; world = w' }) fd
        (release (u.app.internal_socket_data fd))

  -- `remove_from_epoll` is called with no pointer for the error. `none`: it writes through null.
  unfoldable pub close_removed : Async W B → ℤ → Option (Life.Removed W) → Option (Async W B)
  unfolding close_data
  close_removed s fd none = none
  close_removed s fd (some r) = some (close_data (record s { world = r.world }) fd)

  unfoldable pub close : Async W B → ℤ → Option (Async W B)
  unfolding close_removed
  close s fd = close_removed s fd (Life.remove_from_epoll k s.srv s.world fd false)

  -- The `switch` of `internal_callback`.
  unfoldable pub handle_job :
      Callback W (ThreadedServer2 B) → Async W B → ListenEvent → JobType → Async W B
  handle_job callback s ev available_for_read_and_write =
      callback (mark_ready s ev.fd) (record ev { job = available_for_read })
  handle_job callback s ev new_socket = callback s ev
  handle_job callback s ev close_socket = callback s ev
  handle_job callback s ev available_for_write = mark_ready s ev.fd
  handle_job callback s ev available_for_read = callback s ev
  handle_job callback s ev socket_is_closed = callback (cleanup_data s ev.fd) ev

  unfoldable pub internal_callback : Callback W (ThreadedServer2 B) → Callback W (ThreadedServer2 B)
  unfolding handle_job
  internal_callback callback s ev = handle_job callback s ev ev.job

  -- An exception that leaves `listen` here leaves the thread.
  unfoldable pub listen_worker :
      Callback W (ThreadedServer2 B)
      → List (Async W B → Async W B)
      → Async W B
      → Listen.Outcome W (ThreadedServer2 B)
  unfolding internal_callback
  listen_worker callback rounds s = Listen.listen k (internal_callback callback) rounds s

  -- The work on one descriptor that is ready, with its data locked.
  unfoldable pub serve : Async W B → ℤ → Async W B
  serve s fd =
      let t = lock_data wait s fd in
      let sd = t.app.internal_socket_data fd in
      let d = drain k t.srv t.world fd sd.write_queue in
      put_socket_data (record t { srv = d.srv; world = d.world }) fd
        (release (record sd { write_queue = d.write_queue }))

  -- A round of `write_queue_worker`, from `lk.lock()` on.
  unfoldable pub write_queue_worker : Async W B → Round W B
  write_queue_worker s = if s.app.stop_server then ended s else elim s.app.ready_to_write_set [
    | [] ↦ waiting s
    | fd ∷ fds ↦ worked (serve (record s { app = record (s.app) { ready_to_write_set = fds } }) fd)
  ]

-- The constructor.
unfoldable pub make_threaded : {B : Type 0} → B → ThreadedServer2 B
make_threaded user = record {
  running = false;
  stop_server = false;
  ready_to_write_set = [];
  internal_socket_data = λ fd. new_socket_data;
  user = user;
  listener_joinable = false;
  writer_joinable = false;
}
