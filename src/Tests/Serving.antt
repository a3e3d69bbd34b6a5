-- ===== src/Tests/Serving.antt =====
-- The server of libnbuss/IGenericServer.cpp on a simulated system.
use nonblocking_unix_socket.Base.{
  none, ℕ, ◌≡◌, inl, inr, refl, true, false, List, [], ◌∷◌, ◌++◌, some, ℤ, pos, ==ℤ→eq, ltb_ℤ,
  ◌==ℤ◌, Bool-cases, length, arith,
}
use nonblocking_unix_socket.Transfer.{write_loop}
use nonblocking_unix_socket.Kernel.{EpollEvent}
use nonblocking_unix_socket.Server.{State, ListenEvent, JobType, set_io}
use nonblocking_unix_socket.Server.Io.{write, read, read_loop}
use nonblocking_unix_socket.Server.Life.{terminate}
use nonblocking_unix_socket.Server.Listen.{handle_event, handle_socket}
use nonblocking_unix_socket.Server.Write.{Written, write-Written}
use nonblocking_unix_socket.Server.Read.{ReadsAll, leftover, read-ReadsAll}
use nonblocking_unix_socket.Server.Fds.{has_fd}
use nonblocking_unix_socket.Server.Tracking.{IsTracked}
use nonblocking_unix_socket.Server.Tracking.Events.{handle_event-IsTracked}
use nonblocking_unix_socket.Server.Dispatch.{
  both, recorder, deliveries, settled, handle_socket-Reported,
}
use nonblocking_unix_socket.Server.Life.{close_sockets}
use nonblocking_unix_socket.Server.Shutdown.{IsDown, close_sockets-IsDown}
use nonblocking_unix_socket.Server.Restart.{IsStopped, asleep, listener, terminate-IsStopped}
use nonblocking_unix_socket.Tests.Sim.{
  World, sim, sim-WriteLaws, sim-ReadLaws, sim-FdLaws, sim-ClosesWell, sim_wakes, SimWatches,
  sim-WakeLaws, busy, serving,
}

-- Three bytes, of which the system takes two and then one.
abbrev three : List ℕ
three = 1 ∷ 2 ∷ 3 ∷ []

writes_three : (write sim serving busy (pos 5) three).ret ≡ pos 3
unfolding write write_loop
writes_three = refl

write-Written_example :
    Written (λ w. w.sent) busy (pos 5) three (write sim serving busy (pos 5) three)
write-Written_example =
    write-Written sim (λ w. w.sent) sim-WriteLaws serving busy (pos 5) three (λ e. cc e)

read-ReadsAll_example :
    (b : ReadsAll sim (λ w. w.got) busy (pos 5) 2 (read_loop sim 6 busy (pos 5) 2)) × (read sim 6
        serving busy
        (pos 5)
        2
      ≡ some (record {
        srv = set_io serving (pos 5);
        world = b.last.world;
        buffers = b.filled ++ leftover 2 b.last;
        errno = pos b.last.errno;
      }))
read-ReadsAll_example =
    read-ReadsAll sim (λ w. w.got) (λ w. length w.inbox) sim-ReadLaws 6 serving busy (pos 5) 2
      (omega arith)

serving_tracked :
    (fd : ℤ) → has_fd fd (pos 5 ∷ []) ≡ true → (busy.is_open fd ≡ true) × (ltb_ℤ fd (pos 0) ≡ false)
unfolding has_fd
serving_tracked fd h = elim (Bool-cases (fd ==ℤ pos 5)) [
  | inl e ↦ rw (==ℤ→eq fd (pos 5) e) (refl, refl)
  | inr e ↦ absurd (ground (arith, h, e))
]

pub has_five : has_fd (pos 5) (pos 5 ∷ []) ≡ true
unfolding has_fd
has_five = refl

pub serving-IsTracked : IsTracked (λ w. w.is_open) serving busy
serving-IsTracked = record { ascending = (tt, tt); counted = refl; tracked = serving_tracked }

-- Input and output at once: a single job that says both.
abbrev pub in_out : EpollEvent
in_out = record { fd = pos 5; events = 5 }

abbrev pub served : {A : Type 0} → A → State World A
served a = record { srv = serving; world = busy; app = a }

no_exception : (handle_event sim recorder (served []) in_out).1 ≡ none
unfolding handle_event
no_exception = refl

handle_event-IsTracked_example :
    let t = (handle_event sim recorder (served []) in_out).0 in
    IsTracked (λ w. w.is_open) t.srv t.world
handle_event-IsTracked_example =
    handle_event-IsTracked sim (λ w. w.is_open) sim-FdLaws recorder (λ s ev can t. t) (served [])
      in_out (inr has_five) serving-IsTracked no_exception

handle_socket-Reported_example :
    let t = handle_socket sim recorder (served []) in_out in
    (t.app ≡ [] ++ deliveries in_out (some JobType.available_for_read_and_write))
    × ((t.srv, t.world)
        ≡ settled sim serving busy in_out (some JobType.available_for_read_and_write))
handle_socket-Reported_example =
    handle_socket-Reported sim (served []) in_out (some JobType.available_for_read_and_write)
      (both ((refl, refl), refl) refl refl)

close_sockets-IsDown_example :
    IsDown sim (λ w. w.is_open) sim-FdLaws serving busy (close_sockets sim serving busy)
close_sockets-IsDown_example = close_sockets-IsDown sim (λ w. w.is_open) sim-FdLaws serving busy

terminate-IsStopped_example :
    (t : State World (List ListenEvent)) × (terminate sim
        (listener sim recorder sim_wakes asleep ((λ s. s) ∷ []))
        (served [])
      ≡ some t)
    × (t.app ≡ [])
    × IsStopped sim recorder t
terminate-IsStopped_example =
    terminate-IsStopped sim recorder sim_wakes SimWatches sim-WakeLaws asleep (λ s. s) []
      (served []) sim-ClosesWell refl refl (refl, refl) refl
