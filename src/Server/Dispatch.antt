-- ===== src/Server/Dispatch.antt =====
-- Which events the listener reports to the callback, and as what: the table in the comment of
-- IGenericServer::listen (libnbuss/IGenericServer.cpp).
use nonblocking_unix_socket.Base.{
  ℕ, ◌≡◌, refl, sym, Bool, true, false, not, ◌&&◌, ◌||◌, List, [], ◌∷◌, ◌++◌, append-nil, Option,
  none, some, ◌⊎◌, arith, if◌then◌else◌,
}
use nonblocking_unix_socket.Kernel.{Kernel, EpollEvent, has}
use nonblocking_unix_socket.Server.{
  Server, State, Callback, ListenEvent, JobType, available_for_read, close_socket,
  available_for_write, new_socket, available_for_read_and_write, socket_is_closed, is_io,
}
use nonblocking_unix_socket.Server.Life.{close}
use nonblocking_unix_socket.Server.Listen.{
  epollin, epollout, epollerr, epollhup, epollrdhup, job_of, handle_socket, close_unused, report,
}

-- The peer has closed the connection.
abbrev pub HungUp : ℕ → Type 0
HungUp ev = (has ev epollrdhup ≡ true) ⊎ (has ev epollhup ≡ true)

abbrev pub NotHungUp : ℕ → Type 0
NotHungUp ev = (has ev epollrdhup ≡ false) × (has ev epollhup ≡ false)

-- Neither closed by the peer nor in error.
abbrev pub IsSound : ℕ → Type 0
IsSound ev = NotHungUp ev × (has ev epollerr ≡ false)

-- The table, a row for each case.
pub data Reported (unused : Bool) (ev : ℕ) : Option JobType → Type 0 where
  hang_up : HungUp ev → unused ≡ false → Reported unused ev (some close_socket)
  hang_up_unused : HungUp ev → unused ≡ true → Reported unused ev (some socket_is_closed)
  error : NotHungUp ev → has ev epollerr ≡ true → Reported unused ev (some close_socket)
  both :
      IsSound ev
      → has ev epollin ≡ true
      → has ev epollout ≡ true
      → Reported unused ev (some available_for_read_and_write)
  writable :
      IsSound ev
      → has ev epollin ≡ false
      → has ev epollout ≡ true
      → Reported unused ev (some available_for_write)
  readable :
      IsSound ev
      → has ev epollin ≡ true
      → has ev epollout ≡ false
      → Reported unused ev (some available_for_read)
  nothing : IsSound ev → has ev epollin ≡ false → has ev epollout ≡ false → Reported unused ev none

Reported-job_of :
    (unused : Bool) (ev : ℕ) (job : Option JobType)
    → Reported unused ev job
    → job ≡ job_of unused ev
unfolding job_of
Reported-job_of unused ev job (hang_up h u) = ground arith
Reported-job_of unused ev job (hang_up_unused h u) = ground arith
Reported-job_of unused ev job (error h e) = ground arith
Reported-job_of unused ev job (both h i o) = ground arith
Reported-job_of unused ev job (writable h i o) = ground arith
Reported-job_of unused ev job (readable h i o) = ground arith
Reported-job_of unused ev job (nothing h i o) = ground arith

abbrev pub is_closed_job : Option JobType → Bool
is_closed_job (some socket_is_closed) = true
is_closed_job _ = false

hung_up-Reported :
    (unused : Bool) (ev : ℕ) (job : Option JobType)
    → Reported unused ev job
    → ((has ev epollrdhup || has ev epollhup) && unused) ≡ is_closed_job job
hung_up-Reported unused ev job (hang_up h u) = ground arith
hung_up-Reported unused ev job (hang_up_unused h u) = ground arith
hung_up-Reported unused ev job (error h e) = ground arith
hung_up-Reported unused ev job (both h i o) = ground arith
hung_up-Reported unused ev job (writable h i o) = ground arith
hung_up-Reported unused ev job (readable h i o) = ground arith
hung_up-Reported unused ev job (nothing h i o) = ground arith

-- A callback that writes down what it is given.
abbrev pub recorder : {W : Type 0} → Callback W (List ListenEvent)
recorder s e = record s { app = s.app ++ e ∷ [] }

abbrev pub deliveries : EpollEvent → Option JobType → List ListenEvent
deliveries ev none = []
deliveries ev (some job) = record { fd = ev.fd; job = job; events = ev.events } ∷ []

-- The state of server and system once the event is handled.
abbrev pub settled : {W : Type 0} → Kernel W → Server → W → EpollEvent → Option JobType → Server × W
settled k s w ev job = if is_closed_job job then close k s w ev.fd else (s, w)

module _ {W : Type 0} (k : Kernel W) where
  report_after :
      (b : Bool) (s : State W (List ListenEvent)) (ev : EpollEvent) (job : Option JobType)
      → b ≡ is_closed_job job
      → let t = report k recorder (close_unused k recorder b s ev.fd) ev job in
        (t.app ≡ s.app ++ deliveries ev job) × ((t.srv, t.world) ≡ settled k s.srv s.world ev job)
  unfolding report close_unused
  report_after b s ev none e = rw e (sym (append-nil s.app), refl)
  report_after b s ev (some available_for_read) e = rw e (refl, refl)
  report_after b s ev (some close_socket) e = rw e (refl, refl)
  report_after b s ev (some available_for_write) e = rw e (refl, refl)
  report_after b s ev (some new_socket) e = rw e (refl, refl)
  report_after b s ev (some available_for_read_and_write) e = rw e (refl, refl)
  report_after b s ev (some socket_is_closed) e = rw e (refl, refl)

  -- An event on a connection is reported once as the table says, or not at all where it has no
  -- row, and only a connection that hung up unused under smart close is closed first.
  pub handle_socket-Reported :
      (s : State W (List ListenEvent)) (ev : EpollEvent) (job : Option JobType)
      → Reported (s.srv.use_smart_close && not (is_io s.srv ev.fd)) ev.events job
      → let t = handle_socket k recorder s ev in
        (t.app ≡ s.app ++ deliveries ev job) × ((t.srv, t.world) ≡ settled k s.srv s.world ev job)
  unfolding handle_socket
  handle_socket-Reported s ev job r =
      rw (← Reported-job_of _ ev.events job r)
        (report_after _ s ev job (hung_up-Reported _ ev.events job r))
