-- ===== src/Server/Life.antt =====
-- IGenericServer::close, closeSockets, remove_from_epoll, get_active_connections,
-- wait_for_server_ready, terminate and the destructor (libnbuss/IGenericServer.cpp).
use nonblocking_unix_socket.Base.{
  Bool, true, false, ◌||◌, List, [], ◌∷◌, Option, none, some, ℤ, pos, minus_one, ◌-ℤ◌, ◌==ℤ◌, ltb_ℤ,
  if◌then◌else◌,
}
use nonblocking_unix_socket.Kernel.{Kernel}
use nonblocking_unix_socket.Descriptor.{close_descriptor, destroy_pipe, pipe_write}
use nonblocking_unix_socket.Server.{Server, State, set_extract}

-- What `remove_from_epoll` leaves. `errno` is what it stores in `*_errno`, if it was given one.
pub record Removed (W : Type 0) : Type 0 where
  pub world : W
  pub errno : ℤ

unfoldable pub get_active_connections : Server → ℤ
get_active_connections s = s.active_connections

-- `fd == -1 || epollfd.fd == -1 || fd == epollfd.fd || …`
unfoldable pub is_wrong_fd : Server → ℤ → Bool
is_wrong_fd s fd =
    fd ==ℤ minus_one
    || s.epollfd ==ℤ minus_one
    || fd ==ℤ s.epollfd
    || fd ==ℤ s.pipe_read_fd
    || fd ==ℤ s.listen_sock

module _ {W : Type 0} (k : Kernel W) where
  -- The result of `::close` is only logged; the counter falls in any case.
  unfoldable pub close : Server → W → ℤ → Server × W
  close s w fd = if ltb_ℤ fd (pos 0) then (s, w) else (
    record s {
      incoming_conn_fd = set_extract fd s.incoming_conn_fd;
      active_connections = s.active_connections -ℤ pos 1;
    },
    (k.sys_close w fd).world,
  )

  -- The loop of `closeSockets`.
  unfoldable pub close_all : W → List ℤ → W
  close_all w [] = w
  close_all w (fd ∷ fds) = close_all (k.sys_close w fd).world fds

  unfoldable pub close_sockets : Server → W → Server × W
  unfolding close_all close_descriptor
  close_sockets s w =
      let w' = close_all w s.incoming_conn_fd in
      let e = close_descriptor k w' s.epollfd in
      let l = close_descriptor k e.world s.listen_sock in
      (
        record s {
          incoming_conn_fd = [];
          epollfd = e.fd;
          listen_sock = l.fd;
          is_listening = false;
        },
        l.world,
      )

  -- The destructor: those of the fields, from the last to the first.
  unfoldable pub destroy : Server → W → W
  unfolding close_descriptor destroy_pipe
  destroy s w =
      let w1 = destroy_pipe k w (record { read_fd = s.pipe_read_fd; write_fd = s.pipe_write_fd }) in
      let e = close_descriptor k w1 s.epollfd in (close_descriptor k e.world s.listen_sock).world

  -- `given` tells whether `_errno` is a pointer. `none`: a null pointer is written through, since
  -- the first store has no test.
  unfoldable pub remove_from_epoll : Server → W → ℤ → Bool → Option (Removed W)
  unfolding is_wrong_fd
  remove_from_epoll s w fd given =
      if is_wrong_fd s fd
      then if given then some (record { world = w; errno = minus_one }) else none
      else let r = k.sys_epoll_del w s.epollfd fd in
        some (record { world = r.world; errno = pos r.errno })

-- `while (!is_listening) cv.wait(lk)`: `none`, the caller still waits.
unfoldable pub wait_for_server_ready : Server → Option Server
wait_for_server_ready s = if s.is_listening then some s else none

module _ {W A : Type 0} (k : Kernel W) where
  -- The end of `terminate`.
  unfoldable pub restore : State W A → State W A
  restore s = record s { srv = record (s.srv) { stop_server = false; is_listening = false } }

  -- The request to stop: the flag, and a byte on the pipe, which wakes the listener.
  unfoldable pub request_stop : State W A → State W A
  unfolding pipe_write
  request_stop s =
      let (w, c) =
        pipe_write k s.world
          (record { read_fd = s.srv.pipe_read_fd; write_fd = s.srv.pipe_write_fd }) b'.' in
      record s { srv = record (s.srv) { stop_server = true }; world = w }

  -- `others` is what the other threads do while this one waits for `is_listening` to become
  -- false. `none`: it still waits.
  unfoldable pub terminate : (State W A → State W A) → State W A → Option (State W A)
  unfolding restore request_stop
  terminate others s =
      let t = others (request_stop s) in
      if s.srv.is_listening
      then if t.srv.is_listening then none else some (restore t)
      else some (restore s)
