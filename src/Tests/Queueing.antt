-- ===== src/Tests/Queueing.antt =====
-- The queues of libnbuss/ThreadedServer2.cpp, SocketData.cpp and WorkQueue.cpp on a simulated
-- system.
use nonblocking_unix_socket.Base.{
  ℕ, ◌≡◌, refl, Bool, true, false, List, [], ◌∷◌, ◌++◌, none, some, ℤ, pos, ◌+ℤ◌, length, map, ◌==◌,
  if◌then◌else◌,
}
use nonblocking_unix_socket.Server.{ListenEvent, JobType}
use nonblocking_unix_socket.SocketData.{SocketData, cleanup, lock, release}
use nonblocking_unix_socket.SocketData.Lock
use nonblocking_unix_socket.SocketData.Lock.{lock_exclusive, cleanup_admits_two}
use nonblocking_unix_socket.ThreadedServer2.{
  Async, drain, get_socket_data, lock_data, make_threaded, serve, write,
}
use nonblocking_unix_socket.ThreadedServer2.Drain.{Conserves, drain-Conserves}
use nonblocking_unix_socket.ThreadedServer2.Write.{Drops, write-Drops}
use nonblocking_unix_socket.ThreadedServer2.Reach
use nonblocking_unix_socket.ThreadedServer2.Empty.{AllEmpty}
use nonblocking_unix_socket.ThreadedServer2.Reach.{Reach-idle}
use nonblocking_unix_socket.WorkQueue.Fifo.{
  Log, consumes, apply, waits, given, Serves, apply-Serves,
}
use nonblocking_unix_socket.WorkQueue.Wake
use nonblocking_unix_socket.WorkQueue.Wake.{stop_may_hang}
use nonblocking_unix_socket.Kernel.{EpollEvent}
use nonblocking_unix_socket.Server.Listen.{handle_events}
use nonblocking_unix_socket.WorkQueue.{queue_of, with_queue}
use nonblocking_unix_socket.WorkQueue.Pool as Pool
use nonblocking_unix_socket.WorkQueue.Pool.Passes.{passes, free}
use nonblocking_unix_socket.WorkQueue.Pipeline.{pipeline, all_told, batch_served}
use nonblocking_unix_socket.WorkQueue.Queues.{LeavesQueue-refl}
use nonblocking_unix_socket.Tests.Sim.{
  World, sim, sim-WriteLaws, sim-FailsOnlyWhenFull, busy, serving,
}

-- Two buffers of three bytes, where the system takes four bytes in all.
abbrev items : List (List ℕ)
items = (1 ∷ 2 ∷ 3 ∷ []) ∷ (4 ∷ 5 ∷ 6 ∷ []) ∷ []

drain-Conserves_example :
    Conserves sim
      (λ w. w.sent)
      sim-WriteLaws
      sim-FailsOnlyWhenFull
      busy
      (pos 5)
      items
      (drain sim serving busy (pos 5) items)
drain-Conserves_example =
    drain-Conserves sim (λ w. w.sent) sim-WriteLaws sim-FailsOnlyWhenFull serving busy (pos 5) items
      (λ e. cc e)

abbrev fresh : Async World Bool
fresh = record { srv = serving; world = busy; app = make_threaded true }

nothing_waits : (get_socket_data fresh (pos 5)).write_queue ≡ []
unfolding get_socket_data make_threaded
nothing_waits = refl

write-Drops_example :
    Drops sim
      (λ w. w.sent)
      fresh
      (pos 5)
      (1 ∷ 2 ∷ 3 ∷ 4 ∷ 5 ∷ [])
      (write sim fresh (pos 5) (1 ∷ 2 ∷ 3 ∷ 4 ∷ 5 ∷ []))
write-Drops_example =
    write-Drops sim (λ w. w.sent) sim-WriteLaws sim-FailsOnlyWhenFull fresh (pos 5)
      (1 ∷ 2 ∷ 3 ∷ 4 ∷ 5 ∷ []) (λ e. cc e) nothing_waits

-- The state after a write of five bytes, of which one does not fit.
abbrev written : Async World Bool
written = (write sim fresh (pos 5) (1 ∷ 2 ∷ 3 ∷ 4 ∷ 5 ∷ [])).state

Reach-idle_example :
    AllEmpty written
    × ((serve sim (λ fd s. s) written (pos 5)).srv ≡ (lock_data (λ fd s. s) written (pos 5)).srv)
    × ((serve sim (λ fd s. s) written (pos 5)).world
        ≡ (lock_data (λ fd s. s) written (pos 5)).world)
Reach-idle_example =
    Reach-idle sim (λ fd s. s) (λ s ev. s) (λ fd s h. h) (λ ev s h. h) serving busy true (pos 5)
      (Reach.next Reach.here (Reach.writes (pos 5) (1 ∷ 2 ∷ 3 ∷ 4 ∷ 5 ∷ []) refl))

-- A thread that has locked the data.
abbrev locked : Lock.Threads
locked = record {
  sd = record { uses = pos 1; write_queue = [] };
  holds = λ j. if 7 == j then true else false;
}

lock_succeeds : lock Lock.unlocked.sd ≡ some locked.sd
unfolding lock ◌+ℤ◌
lock_succeeds = refl

lock_exclusive_example : ◌≡◌ {A = ℕ} 7 7
lock_exclusive_example =
    lock_exclusive locked 7 7 (Lock.next Lock.here (Lock.locks 7 refl lock_succeeds refl)) refl refl

cleanup_admits_two_example :
    (a : SocketData) × (b : SocketData) × (lock
        (release (cleanup (record { uses = pos 1; write_queue = items })))
      ≡ some a)
    × (lock a ≡ some b)
cleanup_admits_two_example = cleanup_admits_two (record { uses = pos 1; write_queue = items })

abbrev event : ℤ → ListenEvent
event fd = record { fd = fd; job = JobType.available_for_read; events = 0 }

-- A work queue in which an event of 5, one of 6 and one of 5 wait.
abbrev log_of_three : Log World
log_of_three = record {
  srv = serving;
  world = busy;
  app = make_threaded (record {
    number_consumer_threads = 2;
    consumer_threads = 0;
    deque =
        map (λ fd. record { fd = fd; job = JobType.available_for_read; process = true })
          (pos 5 ∷ pos 6 ∷ pos 5 ∷ []);
    consumers_must_terminate = false;
    user = [];
  });
}

log_size : length log_of_three.app.user.deque ≡ 3
unfolding make_threaded
log_size = refl

log_running : log_of_three.app.user.consumers_must_terminate ≡ false
unfolding make_threaded
log_running = refl

apply-Serves_example : Serves consumes log_of_three (apply log_of_three consumes)
apply-Serves_example = apply-Serves log_of_three consumes log_running

stop_may_hang_example :
    (t : Wake.Threads) × Wake.Reach Wake.started t
    × (t.must_terminate ≡ true)
    × (t.notifications ≡ 0)
    × ((u : Wake.Threads) → Wake.Reach t u → u.place 0 ≡ Wake.waiting)
stop_may_hang_example = stop_may_hang 2

-- Input with room for output on 5, and a hang-up on 6 that was never used.
abbrev batch : List EpollEvent
batch = record { fd = pos 5; events = 5 } ∷ record { fd = pos 6; events = 8192 } ∷ []

-- The same with one consumer.
abbrev log_of_one : Log World
log_of_one =
    with_queue log_of_three (record (queue_of log_of_three) { number_consumer_threads = 1 })

one_running : log_of_one.app.user.consumers_must_terminate ≡ false
unfolding make_threaded
one_running = refl

batch_served_example :
    let (t, e) =
      handle_events sim (pipeline sim (λ fd s. s) (λ fd s. LeavesQueue-refl s)) log_of_one batch in
    let u = Pool.run (free t) (passes (length (queue_of t).deque)) in
    (e ≡ none)
    × (given u.queue ≡ given log_of_one ++ (waits log_of_one ++ all_told serving batch))
    × (waits u.queue ≡ [])
    × (u.hands ≡ [])
batch_served_example =
    batch_served sim (λ fd s. s) (λ fd s. LeavesQueue-refl s) log_of_one batch
      (λ e. cc e, (λ e. cc e, tt)) one_running refl
