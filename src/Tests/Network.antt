-- ===== src/Tests/Network.antt =====
-- A simulated system with one connection at a time between a client and a listening socket of the
-- same process.
use nonblocking_unix_socket.Base.{
  ℕ, suc, Bool, true, false, List, [], ◌∷◌, ◌++◌, some, ℤ, pos, minus_one, ◌==ℤ◌, length, take,
  drop, if◌then◌else◌,
}
use nonblocking_unix_socket.Kernel.{Kernel, Sys, SysRead, SysWait, SysPipe, eagain}
use nonblocking_unix_socket.Server.Listen.{epollin, epollrdhup}
use nonblocking_unix_socket.Tests.Sim.{update}

-- The client's end of the connection is `near` and the server's is `far`; `inbox` is what waits to
-- be read on a descriptor.
pub record Net : Type 0 where
  pub is_open : ℤ → Bool
  pub next_fd : ℕ
  pub inbox : ℤ → List ℕ
  pub listening : ℤ
  pub near : ℤ
  pub far : ℤ
  pub pending : Bool
  pub hung_up : Bool

abbrev pub done_with : Net → ℤ → Sys Net
done_with w c = record { world = w; c = c; errno = 0 }

abbrev pub refused : Net → Sys Net
refused w = record { world = w; c = minus_one; errno = eagain }

-- The next descriptor, unless it is in use.
abbrev pub open_next : Net → Bool → Sys Net
open_next w true = refused w
open_next w false =
    done_with
      (record w { is_open = update w.is_open (pos w.next_fd) true; next_fd = suc w.next_fd })
      (pos w.next_fd)

abbrev pub accept_next : Net → Bool → Sys Net
accept_next w false = refused w
accept_next w true =
    open_next (record w { far = pos w.next_fd; pending = false }) (w.is_open (pos w.next_fd))

abbrev pub other_end : Net → ℤ → ℤ
other_end w fd = if fd ==ℤ w.near then w.far else if fd ==ℤ w.far then w.near else fd

abbrev pub read_inbox : Net → ℤ → ℕ → List ℕ → SysRead Net
read_inbox w fd n [] = record { world = w; c = minus_one; errno = eagain; bytes = [] }
read_inbox w fd n (b ∷ bs) = record {
  world = record w { inbox = update w.inbox fd (drop n (b ∷ bs)) };
  c = pos (length (take n (b ∷ bs)));
  errno = 0;
  bytes = take n (b ∷ bs);
}

abbrev pub event : Net → ℤ → ℕ → SysWait Net
event w fd events = record {
  world = w;
  c = pos 1;
  errno = 0;
  ready = record { fd = fd; events = events } ∷ [];
}

-- A connection that waits, input on one, a connection that was closed, or nothing.
abbrev pub next_event : Net → Bool → Bool → List ℕ → SysWait Net
next_event w true hung bytes = event w w.listening epollin
next_event w false hung (b ∷ bs) = event w w.far epollin
next_event w false true [] = event (record w { hung_up = false }) w.far epollrdhup
next_event w false false [] = record { world = w; c = pos 0; errno = 0; ready = [] }

abbrev pub pipe_next : Net → Bool → Bool → SysPipe Net
pipe_next w false false = record {
  world = record w {
    is_open = update (update w.is_open (pos w.next_fd) true) (pos (suc w.next_fd)) true;
    next_fd = suc (suc w.next_fd);
  };
  c = pos 0;
  read_end = pos w.next_fd;
  write_end = pos (suc w.next_fd);
}
pipe_next w _ _ = record { world = w; c = minus_one; read_end = minus_one; write_end = minus_one }

abbrev pub network : Kernel Net
network = record {
  sys_write = λ w fd p.
      let to = other_end w fd in
      done_with (record w { inbox = update w.inbox to (w.inbox to ++ p) }) (pos (length p));
  sys_read = λ w fd n. read_inbox w fd n (w.inbox fd);
  sys_close = λ w fd.
      done_with
        (record w {
          is_open = update w.is_open fd false;
          hung_up = if fd ==ℤ w.near then true else w.hung_up;
        })
        (pos 0);
  sys_getfl = λ w fd. done_with w (pos 0);
  sys_setfl = λ w fd flags. done_with w (pos 0);
  sys_getsockopt = λ w fd option. record { world = w; c = pos 0; errno = 0; value = pos 4096 };
  sys_setsockopt = λ w fd option value. done_with w (pos 0);
  sys_getsockopt_at =
      λ w fd level option. record { world = w; c = pos 0; errno = 0; value = pos 1 };
  sys_setsockopt_at = λ w fd level option value. done_with w (pos 0);
  sys_listen = λ w fd backlog. done_with (record w { listening = fd }) (pos 0);
  sys_accept4 = λ w fd. accept_next w w.pending;
  sys_epoll_create1 = λ w. open_next w (w.is_open (pos w.next_fd));
  sys_epoll_add = λ w e fd events. done_with w (pos 0);
  sys_epoll_del = λ w e fd. done_with w (pos 0);
  sys_epoll_wait = λ w e n. next_event w w.pending w.hung_up (w.inbox w.far);
  sys_pipe = λ w. pipe_next w (w.is_open (pos w.next_fd)) (w.is_open (pos (suc w.next_fd)));
  sys_socket = λ w domain type protocol. open_next w (w.is_open (pos w.next_fd));
  sys_bind = λ w fd addr. done_with w (pos 0);
  sys_connect = λ w fd addr. done_with (record w { near = fd; pending = true }) (pos 0);
  sys_unlink = λ w path. done_with w (pos 0);
  sys_getaddrinfo = λ w addr port. record {
    world = w;
    c = pos 0;
    addresses = record { family = 2; socktype = 1; protocol = 6; addr = [] } ∷ [];
  };
  sys_gethostbyname = λ w name. (w, some (127 ∷ 0 ∷ 0 ∷ 1 ∷ []));
  sys_getprotobyname = λ w. (w, some 6);
  sys_nanosleep = λ w ms. w;
}

abbrev pub opened : Net → ℤ → Bool
opened w = w.is_open

abbrev pub quiet : Net
quiet = record {
  is_open = λ fd. false;
  next_fd = 3;
  inbox = λ fd. [];
  listening = minus_one;
  near = minus_one;
  far = minus_one;
  pending = false;
  hung_up = false;
}
