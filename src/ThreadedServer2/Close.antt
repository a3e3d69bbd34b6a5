-- ===== src/ThreadedServer2/Close.antt =====
-- What ThreadedServer2::close does on each of its paths (libnbuss/ThreadedServer2.cpp).
use nonblocking_unix_socket.Base.{
  ◌≡◌, ◌≢◌, ◌⊎◌, inl, inr, refl, Bool, true, false, Bool-cases, [], none, some, ℤ, pos, ==ℤ_refl,
  ne→==ℤ, ltb_ℤ,
}
use nonblocking_unix_socket.Kernel.{Kernel, FdLaws}
use nonblocking_unix_socket.Server.Life as Life
use nonblocking_unix_socket.SocketData.{SocketData, cleanup, release}
use nonblocking_unix_socket.ThreadedServer2.{
  Async, get_socket_data, put_socket_data, lock_data, close_data, close_removed, close,
}

module _ {W B : Type 0} where
  put_here :
      (s : Async W B) (fd : ℤ) (sd : SocketData) → get_socket_data (put_socket_data s fd sd) fd ≡ sd
  unfolding get_socket_data put_socket_data
  put_here s fd sd = rw (==ℤ_refl fd) refl

  put_apart :
      (s : Async W B) (fd other : ℤ) (sd : SocketData)
      → fd ≢ other
      → get_socket_data (put_socket_data s fd sd) other ≡ get_socket_data s other
  unfolding get_socket_data put_socket_data
  put_apart s fd other sd ne = rw (ne→==ℤ fd other ne) refl

  -- `left` is the state in which the data of `fd` has been locked, `t` the state at the end.
  pub record ShutsDown (is_open : W → ℤ → Bool) (left : Async W B) (fd : ℤ) (t : Async W B)
      : Type 0 where
    pub shut : is_open t.world fd ≡ false
    pub emptied : (get_socket_data t fd).write_queue ≡ []
    pub open_apart : (other : ℤ) → fd ≢ other → is_open t.world other ≡ is_open left.world other
    pub data_apart : (other : ℤ) → fd ≢ other → get_socket_data t other ≡ get_socket_data left other

module _ {W B : Type 0} (k : Kernel W) (is_open : W → ℤ → Bool) (laws : FdLaws k is_open)
    (wait : ℤ → Async W B → Async W B) where
  close_data-ShutsDown :
      (s : Async W B) (fd : ℤ)
      → ltb_ℤ fd (pos 0) ≡ false
      → ShutsDown is_open (lock_data wait s fd) fd (close_data k wait s fd)
  unfolding close_data Life.close cleanup release get_socket_data put_socket_data
  close_data-ShutsDown s fd valid = rw valid (record {
    shut = laws.close_closes _ fd;
    emptied = rw (==ℤ_refl fd) refl;
    open_apart = λ other ne. laws.close_apart _ fd other ne;
    data_apart = λ other ne. rw (ne→==ℤ fd other ne) refl;
  })

  -- ThreadedServer2::close of a descriptor that is not negative writes through a null pointer if
  -- the descriptor is one of the server's own or the epoll list is not open; otherwise it shuts
  -- the descriptor and empties its queue, and leaves all other descriptors open or shut, and their
  -- data, as they are once it holds the lock.
  pub close-Ends :
      (s : Async W B) (fd : ℤ)
      → ltb_ℤ fd (pos 0) ≡ false
      → ((Life.is_wrong_fd s.srv fd ≡ true) × (close k wait s fd ≡ none))
        ⊎ ((Life.is_wrong_fd s.srv fd ≡ false)
            × ((t : Async W B) × (close k wait s fd ≡ some t)
                × ShutsDown is_open
                    (lock_data wait
                      (record s { world = (k.sys_epoll_del s.world s.srv.epollfd fd).world })
                      fd)
                    fd
                    t))
  unfolding close close_removed Life.remove_from_epoll
  close-Ends s fd valid = elim (Bool-cases (Life.is_wrong_fd s.srv fd)) [
    | inl e ↦ inl (e, rw e refl)
    | inr e ↦ inr (e, (_, rw e refl, close_data-ShutsDown _ fd valid))
  ]
