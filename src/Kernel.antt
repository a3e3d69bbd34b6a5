-- ===== src/Kernel.antt =====
-- The operating system, which the program calls and does not contain: the system calls are the
-- fields of a record over a type `W` of states of the system, and every model takes such a record.
-- What the code relies on is stated apart, as records of named laws: the documented behaviour of
-- write(2), read(2), close(2) and fcntl(2).
use nonblocking_unix_socket.Base.{
  [], ◌∷◌, ℕ, ◌≤◌, ◌+◌, ◌≡◌, ◌≢◌, ◌⊎◌, Bool, true, false, not, List, ◌++◌, Option, ℤ, pos,
  minus_one, ◌==◌, bit_and, length, take,
}

-- What a system call leaves: the state of the system, the value returned, and `errno`.
pub record Sys (W : Type 0) : Type 0 where
  pub world : W
  pub c : ℤ
  pub errno : ℕ

-- The same for `read`, with the bytes that it has put into the buffer.
pub record SysRead (W : Type 0) : Type 0 where
  pub world : W
  pub c : ℤ
  pub errno : ℕ
  pub bytes : List ℕ

-- `struct epoll_event`, as far as it is used.
pub record EpollEvent : Type 0 where
  pub fd : ℤ
  pub events : ℕ

pub record SysWait (W : Type 0) : Type 0 where
  pub world : W
  pub c : ℤ
  pub errno : ℕ
  pub ready : List EpollEvent

pub record SysOption (W : Type 0) : Type 0 where
  pub world : W
  pub c : ℤ
  pub errno : ℕ
  pub value : ℤ

-- `struct addrinfo`, as far as it is used: an address is a list of bytes.
pub record AddrInfo : Type 0 where
  pub family : ℕ
  pub socktype : ℕ
  pub protocol : ℕ
  pub addr : List ℕ

-- What `getaddrinfo` leaves: a code, 0 if it succeeded, and the list of addresses.
pub record SysInfo (W : Type 0) : Type 0 where
  pub world : W
  pub c : ℤ
  pub addresses : List AddrInfo

-- What `pipe` leaves: its result and the two ends.
pub record SysPipe (W : Type 0) : Type 0 where
  pub world : W
  pub c : ℤ
  pub read_end : ℤ
  pub write_end : ℤ

-- The system calls. `sys_epoll_add` and `sys_epoll_del` are `epoll_ctl` with those operations,
-- and `sys_getsockopt` and `sys_setsockopt` work at the level SOL_SOCKET; the ones at another level
-- take it as an argument.
pub record Kernel (W : Type 0) : Type 0 where
  pub sys_write : W → ℤ → List ℕ → Sys W
  pub sys_read : W → ℤ → ℕ → SysRead W
  pub sys_close : W → ℤ → Sys W
  pub sys_getfl : W → ℤ → Sys W
  pub sys_setfl : W → ℤ → ℕ → Sys W
  pub sys_getsockopt : W → ℤ → ℕ → SysOption W
  pub sys_setsockopt : W → ℤ → ℕ → ℤ → Sys W
  pub sys_getsockopt_at : W → ℤ → ℕ → ℕ → SysOption W
  pub sys_setsockopt_at : W → ℤ → ℕ → ℕ → ℤ → Sys W
  pub sys_listen : W → ℤ → ℕ → Sys W
  pub sys_accept4 : W → ℤ → Sys W
  pub sys_epoll_create1 : W → Sys W
  pub sys_epoll_add : W → ℤ → ℤ → ℕ → Sys W
  pub sys_epoll_del : W → ℤ → ℤ → Sys W
  pub sys_epoll_wait : W → ℤ → ℕ → SysWait W
  pub sys_pipe : W → SysPipe W
  pub sys_socket : W → ℕ → ℕ → ℕ → Sys W
  pub sys_bind : W → ℤ → List ℕ → Sys W
  pub sys_connect : W → ℤ → List ℕ → Sys W
  pub sys_unlink : W → List ℕ → Sys W
  pub sys_getaddrinfo : W → List ℕ → ℕ → SysInfo W
  pub sys_gethostbyname : W → List ℕ → W × Option (List ℕ)
  pub sys_getprotobyname : W → W × Option ℕ
  pub sys_nanosleep : W → ℕ → W

-- Linux: `EAGAIN` and `EWOULDBLOCK` are one number.
abbrev pub eintr : ℕ
eintr = 4

abbrev pub eagain : ℕ
eagain = 11

abbrev pub o_nonblock : ℕ
o_nonblock = 2048

abbrev pub so_sndbuf : ℕ
so_sndbuf = 7

abbrev pub so_rcvbuf : ℕ
so_rcvbuf = 8

abbrev pub tcp_cork : ℕ
tcp_cork = 3

-- write(2): it takes a first part of the data and returns its length, or takes nothing and
-- returns -1. `sent w fd` is all that has been taken on `fd` so far.
pub record WriteLaws {W : Type 0} (k : Kernel W) (sent : W → ℤ → List ℕ) : Type 0 where
  pub write_takes :
      (w : W) (fd : ℤ) (p : List ℕ)
      → let r = k.sys_write w fd p in
        ((r.c ≡ minus_one) × (sent r.world fd ≡ sent w fd))
        ⊎ ((n : ℕ) × (n ≤ length p) × (r.c ≡ pos n) × (sent r.world fd ≡ sent w fd ++ take n p))
  pub write_apart :
      (w : W) (fd other : ℤ) (p : List ℕ)
      → fd ≢ other
      → sent (k.sys_write w fd p).world other ≡ sent w other

-- read(2): it hands out at most as many bytes as are asked for and returns their number, or hands
-- out none and returns -1. `got w fd` is all that has been handed out on `fd` so far, and `left`
-- bounds the bytes that the system holds: every byte handed out lowers it.
pub record ReadLaws {W : Type 0} (k : Kernel W) (got : W → ℤ → List ℕ) (left : W → ℕ) : Type 0 where
  pub read_gives :
      (w : W) (fd : ℤ) (n : ℕ)
      → let r = k.sys_read w fd n in
        ((r.c ≡ minus_one) × (got r.world fd ≡ got w fd))
        ⊎ ((length r.bytes ≤ n)
            × (r.c ≡ pos (length r.bytes))
            × (got r.world fd ≡ got w fd ++ r.bytes)
            × (left r.world + length r.bytes ≤ left w))

-- `flags & mask` as a test.
abbrev pub has : ℕ → ℕ → Bool
has flags mask = not (bit_and flags mask == 0)

-- write(2) to a descriptor in non-blocking mode fails for no other reason than a full buffer.
abbrev pub FailsOnlyWhenFull : {W : Type 0} → Kernel W → Type 0
FailsOnlyWhenFull {W} k =
    (w : W) (fd : ℤ) (p : List ℕ)
    → (k.sys_write w fd p).c ≡ minus_one
    → (k.sys_write w fd p).errno ≡ eagain

-- fcntl(2): F_GETFL changes nothing and returns flags, among them O_NONBLOCK exactly if the
-- descriptor is in non-blocking mode. F_SETFL gives it the mode of its argument and leaves the
-- others, or changes nothing and returns -1. A write changes no mode.
pub record FcntlLaws {W : Type 0} (k : Kernel W) (non_blocking : W → ℤ → Bool) : Type 0 where
  pub getfl_reads :
      (w : W) (fd : ℤ)
      → let r = k.sys_getfl w fd in
        (((other : ℤ) → non_blocking r.world other ≡ non_blocking w other))
        × ((r.c ≡ minus_one) ⊎ ((n : ℕ) × (r.c ≡ pos n) × (has n o_nonblock ≡ non_blocking w fd)))
  pub setfl_sets :
      (w : W) (fd : ℤ) (n : ℕ)
      → let r = k.sys_setfl w fd n in
        ((r.c ≡ minus_one) × ((other : ℤ) → non_blocking r.world other ≡ non_blocking w other))
        ⊎ ((r.c ≡ pos 0)
            × (non_blocking r.world fd ≡ has n o_nonblock)
            × ((other : ℤ) → fd ≢ other → non_blocking r.world other ≡ non_blocking w other))
  pub write_keeps :
      (w : W) (fd other : ℤ) (p : List ℕ)
      → non_blocking (k.sys_write w fd p).world other ≡ non_blocking w other

-- accept4(2) returns a descriptor that was not open, and opens it; close(2) leaves its argument
-- closed, whatever it returns, as on Linux; epoll_ctl(2) opens and closes nothing.
pub record FdLaws {W : Type 0} (k : Kernel W) (is_open : W → ℤ → Bool) : Type 0 where
  pub accept_opens :
      (w : W) (fd : ℤ)
      → let r = k.sys_accept4 w fd in
        ((r.c ≡ minus_one) × ((other : ℤ) → is_open r.world other ≡ is_open w other))
        ⊎ ((n : ℕ) × (r.c ≡ pos n)
            × (is_open w (pos n) ≡ false)
            × (is_open r.world (pos n) ≡ true)
            × ((other : ℤ) → pos n ≢ other → is_open r.world other ≡ is_open w other))
  pub close_closes : (w : W) (fd : ℤ) → is_open (k.sys_close w fd).world fd ≡ false
  pub close_apart :
      (w : W) (fd other : ℤ) → fd ≢ other → is_open (k.sys_close w fd).world other ≡ is_open w other
  pub epoll_add_keeps :
      (w : W) (e fd other : ℤ) (events : ℕ)
      → is_open (k.sys_epoll_add w e fd events).world other ≡ is_open w other

-- listen(2) and epoll_wait(2) open and close nothing; epoll_create1(2) returns a descriptor that was
-- not open and opens it, or returns -1 and changes nothing.
pub record PollLaws {W : Type 0} (k : Kernel W) (is_open : W → ℤ → Bool) : Type 0 where
  pub listen_keeps :
      (w : W) (fd other : ℤ) (backlog : ℕ)
      → is_open (k.sys_listen w fd backlog).world other ≡ is_open w other
  pub epoll_wait_keeps :
      (w : W) (e other : ℤ) (n : ℕ) → is_open (k.sys_epoll_wait w e n).world other ≡ is_open w other
  pub epoll_create1_opens :
      (w : W)
      → let r = k.sys_epoll_create1 w in
        ((r.c ≡ minus_one) × ((other : ℤ) → is_open r.world other ≡ is_open w other))
        ⊎ ((n : ℕ) × (r.c ≡ pos n)
            × (is_open w (pos n) ≡ false)
            × (is_open r.world (pos n) ≡ true)
            × ((other : ℤ) → pos n ≢ other → is_open r.world other ≡ is_open w other))

-- pipe(2) opens its two ends and nothing else, or returns -1 and opens nothing.
pub record PipeLaws {W : Type 0} (k : Kernel W) (is_open : W → ℤ → Bool) : Type 0 where
  pub pipe_opens :
      (w : W)
      → let r = k.sys_pipe w in
        ((r.c ≡ minus_one) × ((other : ℤ) → is_open r.world other ≡ is_open w other))
        ⊎ ((r.c ≡ pos 0)
            × (is_open w r.read_end ≡ false)
            × (is_open w r.write_end ≡ false)
            × ((other : ℤ)
                → r.read_end ≢ other
                → r.write_end ≢ other
                → is_open r.world other ≡ is_open w other))

-- `wakes w e` says that epoll_wait(2) on the epoll descriptor `e` returns, and `Watches w e r p` that
-- `e` watches for input the read end `r` of a pipe whose write end is `p`. A byte that is written to
-- such a pipe makes epoll_wait return.
pub record WakeLaws {W : Type 0} (k : Kernel W) (wakes : W → ℤ → Bool)
    (Watches : W → ℤ → ℤ → ℤ → Type 0) : Type 0 where
  pub byte_wakes :
      (w : W) (e r p : ℤ) (b : ℕ)
      → Watches w e r p
      → (k.sys_write w p (b ∷ [])).c ≡ pos 1
      → wakes (k.sys_write w p (b ∷ [])).world e ≡ true
