-- ===== src/Tests/Threads.antt =====
-- The threaded servers of libnbuss/ThreadedServer.cpp and ThreadedServer2.cpp on a simulated system.
use nonblocking_unix_socket.Base.{
  ◌≡◌, ◌⊎◌, inr, refl, Bool, true, false, none, some, List, [], ◌∷◌, pos,
}
use nonblocking_unix_socket.Server.{State, ListenEvent}
use nonblocking_unix_socket.Server.Life as Life
use nonblocking_unix_socket.Server.Listen.{handle_event, handle_events}
use nonblocking_unix_socket.Server.Dispatch.{recorder}
use nonblocking_unix_socket.Server.Restart.{listener, asleep}
use nonblocking_unix_socket.Server.Tracking.{IsTracked}
use nonblocking_unix_socket.Server.Tracking.Batch.{KeepsOthers-refl}
use nonblocking_unix_socket.ThreadedServer.{ThreadedServer, finished, aborted, listen_worker, stop}
use nonblocking_unix_socket.ThreadedServer.Restart.{restart_aborts}
use nonblocking_unix_socket.ThreadedServer2.{
  Async, lock_data, internal_callback, write, write_queue_worker, ended,
}
use nonblocking_unix_socket.ThreadedServer2 as Threaded
use nonblocking_unix_socket.ThreadedServer2.Threads as Threads
use nonblocking_unix_socket.ThreadedServer2.Close.{ShutsDown, close-Ends}
use nonblocking_unix_socket.ThreadedServer2.Reach as Reach
use nonblocking_unix_socket.ThreadedServer2.Record.{async_server-IsTracked}
use nonblocking_unix_socket.ThreadedServer2.Restart.{StaysDown, writer, stop-StaysDown}
use nonblocking_unix_socket.ThreadedServer2.Stopped.{stopped_ends}
use nonblocking_unix_socket.Tests.Sim.{
  World, sim, sim-FdLaws, sim-ClosesWell, sim_wakes, SimWatches, sim-WakeLaws, busy, serving,
}
use nonblocking_unix_socket.Tests.Serving.{serving-IsTracked, has_five, in_out, served}

-- A server that has been started, and listens.
abbrev started : ThreadedServer World (List ListenEvent)
started = record {
  base = serving;
  worker_is_running = false;
  joinable = true;
  callback_function = some recorder;
  inner = served [];
}

restart_aborts_example :
    (t : ThreadedServer World (List ListenEvent)) × (stop sim
        (listener sim recorder sim_wakes asleep ((λ s. s) ∷ []))
        started
      ≡ finished t)
    × (t.joinable ≡ false)
    × (t.inner.app ≡ [])
    × ((rounds : List (State World (List ListenEvent) → State World (List ListenEvent)))
        → listen_worker sim rounds t recorder ≡ aborted)
restart_aborts_example =
    restart_aborts sim sim_wakes SimWatches sim-WakeLaws asleep started recorder (λ s. s) []
      sim-ClosesWell refl refl refl (refl, refl) refl

abbrev asynchronous : Async World Bool
asynchronous = record { srv = serving; world = busy; app = Threaded.make_threaded true }

close-Ends_example :
    ((Life.is_wrong_fd serving (pos 5) ≡ true)
      × (Threaded.close sim (λ fd s. s) asynchronous (pos 5) ≡ none))
    ⊎ ((Life.is_wrong_fd serving (pos 5) ≡ false)
        × ((t : Async World Bool) × (Threaded.close sim (λ fd s. s) asynchronous (pos 5) ≡ some t)
            × ShutsDown
                (λ w. w.is_open)
                (lock_data
                  (λ fd s. s)
                  (record asynchronous { world = (sim.sys_epoll_del busy (pos 4) (pos 5)).world })
                  (pos 5))
                (pos 5)
                t))
close-Ends_example =
    close-Ends sim (λ w. w.is_open) sim-FdLaws (λ fd s. s) asynchronous (pos 5) refl

-- The state after `stop` has set its flag, and a write.
abbrev stopped : Async World Bool
stopped = (write sim (Threads.ask_stop asynchronous) (pos 5) (1 ∷ 2 ∷ [])).state

stopped_ends_example : write_queue_worker sim (λ fd s. s) stopped ≡ ended stopped
stopped_ends_example =
    stopped_ends sim (λ fd s. s) (λ fd s. refl) (λ s ev. s) (λ s ev. refl) asynchronous
      (Reach.next Reach.here (Reach.writes (pos 5) (1 ∷ 2 ∷ []) refl))

-- A server that has been started.
abbrev active : Async World Bool
active = Threads.set_threads true true (Threads.set_running true asynchronous)

stop-StaysDown_example :
    (t : Async World Bool) × (Threads.stop sim
        (listener sim
          (internal_callback sim (λ fd s. s) (λ s ev. s))
          sim_wakes
          asleep
          ((λ s. s) ∷ []))
        (writer sim (λ fd s. s) (λ s ev. s))
        active
      ≡ Threads.finished t)
    × (t.srv.incoming_conn_fd ≡ [])
    × StaysDown sim (λ fd s. s) (λ s ev. s) ((λ s. s) ∷ []) t
unfolding Threads.set_running Threads.set_threads
stop-StaysDown_example =
    stop-StaysDown sim (λ fd s. s) (λ s ev. s) sim_wakes SimWatches sim-WakeLaws asleep (λ s. s) []
      ((λ s. s) ∷ []) active sim-ClosesWell refl refl refl refl (refl, refl) refl

all_handled :
    (handle_events sim (internal_callback sim (λ fd s. s) (λ s ev. s)) asynchronous (in_out ∷ [])).1
    ≡ none
unfolding handle_events handle_event
all_handled = refl

async_server-IsTracked_example :
    let t =
      (handle_events sim
        (internal_callback sim (λ fd s. s) (λ s ev. s))
        asynchronous
        (in_out ∷ [])).0 in
    IsTracked (λ w. w.is_open) t.srv t.world
async_server-IsTracked_example =
    async_server-IsTracked sim (λ w. w.is_open) sim-FdLaws (λ fd s. s)
      (record { wait_keeps = λ fd s t. t; wait_minds = λ fd s. KeepsOthers-refl s.srv fd })
      (λ s ev. s) (λ s ev. KeepsOthers-refl s.srv ev.fd) (λ s ev can t. t) asynchronous
      (in_out ∷ []) (inr has_five, tt) (tt, tt) serving-IsTracked all_handled
