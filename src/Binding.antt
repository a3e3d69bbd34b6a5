-- ===== src/Binding.antt =====
-- libnbuss/UnixSocketServer.cpp and TcpServer.cpp: a server with its listening socket, opened and
-- bound by the constructor. The arguments of the constructors are parameters of the functions.
pub mod Open
pub mod Unix
pub mod Options
use nonblocking_unix_socket.Base.{
  ℕ, zero, suc, ◌*◌, Bool, ◌||◌, List, [], ◌∷◌, Option, none, some, ℤ, pos, minus_one, ◌==ℤ◌, ltb,
  leb, ◌+◌, ◌==◌, length, if◌then◌else◌, not,
}
use nonblocking_unix_socket.Kernel.{Kernel, AddrInfo, o_nonblock}
use nonblocking_unix_socket.Client.{af_unix, sock_stream, sun_path, c_str}
use nonblocking_unix_socket.Server.{Server}
use nonblocking_unix_socket.Server.Life as Life

-- The exceptions of the constructors.
pub data Error : Type 0 where
  missing_sockname missing_address wrong_backlog wrong_port cannot_open : Error

-- What a method that opens the listening socket leaves: its value is the socket or -1.
pub record Opened (W : Type 0) : Type 0 where
  pub srv : Server
  pub world : W
  pub ret : ℤ

-- What a constructor leaves.
pub record Built (W : Type 0) : Type 0 where
  pub srv : Server
  pub world : W
  pub error : Option Error

module _ {W : Type 0} (k : Kernel W) where
  -- `UnixSocketServer::open_unix_socket`. A socket that cannot be bound is not closed.
  unfoldable pub open_unix_socket : Server → W → List ℕ → Opened W
  open_unix_socket s w sockname =
      let u = k.sys_unlink w (c_str sockname) in
      let f = k.sys_socket u.world af_unix (sock_stream + o_nonblock) 0 in
      let b = k.sys_bind f.world f.c (sun_path sockname) in
      if f.c ==ℤ minus_one
      then record { srv = s; world = f.world; ret = minus_one }
      else if b.c ==ℤ minus_one
      then record { srv = s; world = b.world; ret = minus_one }
      else record { srv = s; world = b.world; ret = f.c }

  -- `UnixSocketServer::setup`
  unfoldable pub setup_unix : Server → W → List ℕ → Built W
  unfolding open_unix_socket
  setup_unix s w sockname =
      let o = open_unix_socket s w sockname in
      record {
        srv = record (o.srv) { listen_sock = o.ret };
        world = o.world;
        error = if o.ret ==ℤ minus_one then some cannot_open else none;
      }

  -- `UnixSocketServer`: `checkParameters` and `setup`.
  unfoldable pub make_unix_server : Server → W → List ℕ → Built W
  unfolding setup_unix
  make_unix_server s w sockname =
      let built = setup_unix s w sockname in
      if length sockname == 0
      then record { srv = s; world = w; error = some missing_sockname }
      else if leb s.backlog 0
      then record { srv = s; world = w; error = some wrong_backlog }
      else built

  -- The loop over the addresses. `close` is the method of IGenericServer.
  unfoldable pub bind_first : Server → W → List AddrInfo → Opened W
  bind_first s w [] = record { srv = s; world = w; ret = minus_one }
  bind_first s w (rp ∷ rest) =
      let f = k.sys_socket w rp.family (rp.socktype + o_nonblock) rp.protocol in
      let b = k.sys_bind f.world f.c rp.addr in
      let (srv', w') = Life.close k s b.world f.c in
      let skipped = bind_first s f.world rest in
      let next = bind_first srv' w' rest in
      if f.c ==ℤ minus_one
      then skipped
      else if b.c ==ℤ pos 0
      then record { srv = s; world = b.world; ret = f.c }
      else next

  -- `TcpServer::open_listening_socket`
  unfoldable pub open_listening_socket : Server → W → List ℕ → ℕ → Opened W
  unfolding bind_first
  open_listening_socket s w address port =
      let g = k.sys_getaddrinfo w (c_str address) port in
      if ltb 65535 port
      then record { srv = s; world = w; ret = minus_one }
      else if not (g.c ==ℤ pos 0)
      then record { srv = s; world = g.world; ret = minus_one }
      else bind_first s g.world g.addresses

  -- The tries of `TcpServer::setup`, with 100 ms after each that failed.
  unfoldable pub try_setup : ℕ → Server → W → List ℕ → ℕ → Built W
  unfolding open_listening_socket
  try_setup zero s w address port = record {
    srv = s;
    world = w;
    error = if s.listen_sock ==ℤ minus_one then some cannot_open else none;
  }
  try_setup (suc counter) s w address port =
      let o = open_listening_socket s w address port in
      let t = record (o.srv) { listen_sock = o.ret } in
      let rest = try_setup counter t (k.sys_nanosleep o.world 100) address port in
      if not (o.ret ==ℤ minus_one) then record { srv = t; world = o.world; error = none } else rest

  -- `TcpServer`: the checks of the constructor, and `setup`.
  unfoldable pub make_tcp_server : Server → W → List ℕ → ℕ → Built W
  unfolding try_setup
  make_tcp_server s w address port =
      if length address == 0
      then record { srv = s; world = w; error = some missing_address }
      else if leb s.backlog 0
      then record { srv = s; world = w; error = some wrong_backlog }
      else if leb port 0
      then record { srv = s; world = w; error = some wrong_port }
      else try_setup 5 s w address port
