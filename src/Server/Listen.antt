-- ===== src/Server/Listen.antt =====
-- IGenericServer::listen (libnbuss/IGenericServer.cpp): the preparation, the event loop, and the
-- clean-up that `RunOnReturn` makes on every way out. Other threads act while the listener blocks
-- in `epoll_wait`; what they do there is an argument for each round.
use nonblocking_unix_socket.Base.{
  ℕ, ◌+◌, ◌^◌, Bool, true, not, ◌&&◌, ◌||◌, List, [], ◌∷◌, Option, none, some, ℤ, pos, minus_one,
  pos_part, ◌+ℤ◌, ◌==ℤ◌, ◌==◌, take, if◌then◌else◌,
}
use nonblocking_unix_socket.Kernel.{Kernel, EpollEvent, has, eagain, eintr}
use nonblocking_unix_socket.Server.{
  State, Callback, JobType, available_for_read, close_socket, available_for_write, new_socket,
  available_for_read_and_write, socket_is_closed, set_insert, unset_io, is_io,
}
use nonblocking_unix_socket.Server.Life.{close, close_sockets}

-- The exceptions that `listen` throws.
pub data Error : Type 0 where
  not_open listen_error epoll_create1_error epoll_ctl_error accept_error epoll_wait_error : Error

-- <sys/epoll.h>
abbrev pub epollin : ℕ
epollin = 0x001

abbrev pub epollout : ℕ
epollout = 0x004

abbrev pub epollerr : ℕ
epollerr = 0x008

abbrev pub epollhup : ℕ
epollhup = 0x010

abbrev pub epollrdhup : ℕ
epollrdhup = 0x2000

abbrev pub epollet : ℕ
epollet = 2 ^ 31

-- EPOLLIN | EPOLLET | EPOLLHUP | EPOLLRDHUP | EPOLLOUT
abbrev pub conn_events : ℕ
conn_events = epollin + epollet + epollhup + epollrdhup + epollout

-- configuration.h
abbrev pub max_events : ℕ
max_events = 32

-- How a run of `listen` stands: it still waits, it has returned, or it has thrown.
pub data Outcome (W A : Type 0) : Type 0 where
  running : State W A → Outcome W A
  returned : State W A → Outcome W A
  threw : State W A → Error → Outcome W A

-- What an event on a connected socket is reported as. `unused`: smart close is on and there has
-- been no input or output on the socket. `none`: it is not reported.
unfoldable pub job_of : Bool → ℕ → Option JobType
job_of unused events =
    if has events epollrdhup || has events epollhup
    then some (if unused then socket_is_closed else close_socket)
    else if has events epollerr
    then some close_socket
    else if has events epollin && has events epollout
    then some available_for_read_and_write
    else if has events epollout
    then some available_for_write
    else if has events epollin
    then some available_for_read
    else none

module _ {W A : Type 0} (k : Kernel W) (callback : Callback W A) where
  -- The rest of the handling of a connection, after `epoll_ctl`. `unset_IO` is given the
  -- descriptor of the event, which is that of the listening socket.
  unfoldable pub register : State W A → ℤ → ℤ → State W A
  register s fd conn_sock =
      let counted = record (s.srv) { active_connections = s.srv.active_connections +ℤ pos 1 } in
      callback (record s { srv = unset_io counted fd })
        (record { fd = conn_sock; job = new_socket; events = 0 })

  -- An event on the listening socket.
  unfoldable pub accept_connection : State W A → ℤ → State W A × Option Error
  unfolding register
  accept_connection s fd =
      let a = k.sys_accept4 s.world s.srv.listen_sock in
      let s1 = record s {
        srv = record (s.srv) { incoming_conn_fd = set_insert a.c s.srv.incoming_conn_fd };
        world = a.world;
      } in
      let r = k.sys_epoll_add a.world s.srv.epollfd a.c conn_events in
      let s2 = record s1 { world = r.world } in
      if a.c ==ℤ minus_one && a.errno == eagain
      then (record s { world = a.world }, none)
      else if a.c ==ℤ minus_one
      then (record s { world = a.world }, some accept_error)
      else if r.c ==ℤ minus_one
      then (s2, some epoll_ctl_error)
      else (register s2 fd a.c, none)

  -- A connection that was never used is closed before it is reported.
  unfoldable pub close_unused : Bool → State W A → ℤ → State W A
  unfolding close
  close_unused b s fd =
      let (srv', w') = close k s.srv s.world fd in
      if b then record s { srv = srv'; world = w' } else s

  unfoldable pub report : State W A → EpollEvent → Option JobType → State W A
  report s ev none = s
  report s ev (some job) = callback s (record { fd = ev.fd; job = job; events = ev.events })

  -- An event on any other descriptor.
  unfoldable pub handle_socket : State W A → EpollEvent → State W A
  unfolding job_of close_unused report
  handle_socket s ev =
      let hung_up = has ev.events epollrdhup || has ev.events epollhup in
      let unused = s.srv.use_smart_close && not (is_io s.srv ev.fd) in
      report (close_unused (hung_up && unused) s ev.fd) ev (job_of unused ev.events)

  unfoldable pub handle_event : State W A → EpollEvent → State W A × Option Error
  unfolding accept_connection handle_socket
  handle_event s ev =
      if ev.fd ==ℤ s.srv.listen_sock
      then if has ev.events epollin then accept_connection s ev.fd else (s, none)
      else (handle_socket s ev, none)

  -- `for (n = 0; n < nfds; ++n)`. An exception leaves the loop.
  unfoldable pub handle_events : State W A → List EpollEvent → State W A × Option Error
  handle_events s [] = (s, none)
  handle_events s (ev ∷ evs) =
      let (s', e) = handle_event s ev in
      elim e [ none ↦ handle_events s' evs | some x ↦ (s', some x) ]

  -- `epoll_wait` and the rest of a round. `others` is what other threads do until the second test
  -- of `stop_server`, and `continue` the rounds that follow.
  unfoldable pub await :
      (State W A → State W A) → (State W A → Outcome W A) → State W A → Outcome W A
  unfolding handle_events
  await others continue s =
      let r = k.sys_epoll_wait s.world s.srv.epollfd max_events in
      let s' = others (record s { world = r.world }) in
      let handled = handle_events s' (take (pos_part r.c) r.ready) in
      let next = continue handled.0 in
      let again = continue s' in
      if s'.srv.stop_server
      then returned s'
      else if r.c ==ℤ minus_one && r.errno == eintr
      then again
      else if r.c ==ℤ minus_one
      then threw s' epoll_wait_error
      else elim handled.1 [ none ↦ next | some x ↦ threw handled.0 x ]

  -- The loop, a round for each entry of the list; when the list ends, the listener blocks in
  -- `epoll_wait`.
  unfoldable pub listen_loop : List (State W A → State W A) → State W A → Outcome W A
  unfolding await
  listen_loop [] s = running s
  listen_loop (others ∷ rounds) s =
      let round = await others (λ t. listen_loop rounds t) s in
      if s.srv.stop_server then returned s else round

  -- The preparation, up to the announcement that the server listens. `some` is the exception.
  unfoldable pub prepare : State W A → State W A × Option Error
  prepare s =
      let l = k.sys_listen s.world s.srv.listen_sock s.srv.backlog in
      let c = k.sys_epoll_create1 l.world in
      let srv' = record (s.srv) { epollfd = c.c } in
      let p = k.sys_epoll_add c.world c.c s.srv.pipe_read_fd epollin in
      let q = k.sys_epoll_add p.world c.c s.srv.listen_sock epollin in
      if l.c ==ℤ minus_one
      then (record s { world = l.world }, some listen_error)
      else if c.c ==ℤ minus_one
      then (record s { srv = srv'; world = c.world }, some epoll_create1_error)
      else if p.c ==ℤ minus_one
      then (record s { srv = srv'; world = p.world }, some epoll_ctl_error)
      else if q.c ==ℤ minus_one
      then (record s { srv = srv'; world = q.world }, some epoll_ctl_error)
      else (record s { srv = record srv' { is_listening = true }; world = q.world }, none)

  -- The destructor of `RunOnReturn`.
  unfoldable pub clean_up : Outcome W A → Outcome W A
  clean_up (running s) = running s
  clean_up (returned s) =
      let (srv', w) = close_sockets k s.srv s.world in returned (record s { srv = srv'; world = w })
  clean_up (threw s e) =
      let (srv', w) = close_sockets k s.srv s.world in threw (record s { srv = srv'; world = w }) e

  unfoldable pub listen : List (State W A → State W A) → State W A → Outcome W A
  unfolding prepare listen_loop clean_up
  listen rounds s =
      let cleared = record s { srv = record (s.srv) { incoming_conn_fd = [] } } in
      let (s', e) = prepare cleared in
      let body = elim e as (λ x. Outcome W A) [
        | none ↦ listen_loop rounds s'
        | some x ↦ threw s' x
      ] in
      if s.srv.listen_sock ==ℤ minus_one then threw s not_open else clean_up body
