-- ===== src/Tests/Builds.antt =====
-- The constructors of libnbuss/TcpServer.cpp and UnixSocketServer.cpp and the clients' connect on a simulated system in
-- which a socket is the next descriptor, and in which bind(2) succeeds or fails as told.
use nonblocking_unix_socket.Base.{
  ℕ, ◌≡◌, refl, Bool, true, false, [], ◌∷◌, pos, minus_one, if◌then◌else◌,
}
use nonblocking_unix_socket.Kernel.{Kernel, FdLaws}
use nonblocking_unix_socket.Client.{new_client, connect_unix, connect_tcp}
use nonblocking_unix_socket.Client.Lifetime.{ConnectLaws, Leaves, LeavesOrCrashes, lifetime-Leaves}
use nonblocking_unix_socket.Server.{Server}
use nonblocking_unix_socket.Binding.{open_unix_socket}
use nonblocking_unix_socket.Binding.Open.{SocketLaws}
use nonblocking_unix_socket.Binding.Unix.{open_unix_socket-leaks}
use nonblocking_unix_socket.Tests.Sim.{
  World, sim, accept_with, accept_with-opens, update_here, update_apart, busy, serving,
}

abbrev binds : Bool → Kernel World
binds well = record sim {
  sys_socket = λ w domain type protocol. accept_with w (w.is_open (pos w.next_fd));
  sys_bind = λ w fd addr. record { world = w; c = if well then pos 0 else minus_one; errno = 0 };
  sys_getaddrinfo = λ w addr port. record {
    world = w;
    c = pos 0;
    addresses = record { family = 2; socktype = 1; protocol = 6; addr = [] } ∷ [];
  };
}

binds-FdLaws : (well : Bool) → FdLaws (binds well) (λ w. w.is_open)
binds-FdLaws well = record {
  accept_opens = λ w fd. accept_with-opens w (w.is_open (pos w.next_fd)) refl;
  close_closes = λ w fd. update_here w.is_open fd false;
  close_apart = λ w fd other ne. update_apart w.is_open fd other false ne;
  epoll_add_keeps = λ w e fd other events. refl;
}

binds-SocketLaws : (well : Bool) → SocketLaws (binds well) (λ w. w.is_open)
binds-SocketLaws well = record {
  socket_opens = λ w family socktype protocol. accept_with-opens w (w.is_open (pos w.next_fd)) refl;
  bind_keeps = λ w fd other addr. refl;
  unlink_keeps = λ w path other. refl;
  sleep_keeps = λ w ms other. refl;
  info_keeps = λ w addr port other. refl;
}

abbrev unbound : Server
unbound = record serving { listen_sock = minus_one }

open_unix_socket-leaks_example :
    let r = open_unix_socket (binds false) unbound busy (47 ∷ 115 ∷ []) in
    (n : ℕ) × (r.ret ≡ minus_one)
    × (busy.is_open (pos n) ≡ false)
    × (r.world.is_open (pos n) ≡ true)
open_unix_socket-leaks_example =
    open_unix_socket-leaks (binds false) (λ w. w.is_open) (binds-FdLaws false)
      (binds-SocketLaws false) unbound busy (47 ∷ 115 ∷ []) (λ e. cc e) refl

binds-ConnectLaws : (well : Bool) → ConnectLaws (binds well) (λ w. w.is_open)
binds-ConnectLaws well = record {
  connect_keeps = λ w fd other addr. refl;
  proto_keeps = λ w other. refl;
  host_keeps = λ w name other. refl;
}

lifetime-Leaves_example :
    Leaves
      (binds true)
      (λ w. w.is_open)
      (binds-FdLaws true)
      (binds-SocketLaws true)
      (binds-ConnectLaws true)
      busy
      (connect_unix (binds true) (new_client true) busy (1 ∷ []))
    × LeavesOrCrashes
        (binds true)
        (λ w. w.is_open)
        (binds-FdLaws true)
        (binds-SocketLaws true)
        (binds-ConnectLaws true)
        busy
        (connect_tcp (binds true) (new_client true) busy (1 ∷ []) 80)
lifetime-Leaves_example =
    lifetime-Leaves (binds true) (λ w. w.is_open) (binds-FdLaws true) (binds-SocketLaws true)
      (binds-ConnectLaws true) true busy (1 ∷ []) 80
