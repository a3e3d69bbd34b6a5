-- ===== src/Server/Tracking.antt =====
-- The record that the server keeps of its connections: `incoming_conn_fd` and `activeConnections`
-- (libnbuss/IGenericServer.cpp, listen and close).
pub mod Events
pub mod Batch
use nonblocking_unix_socket.Base.{
  ℕ, ◌≡◌, ◌≢◌, refl, sym, ◌∙◌, inl, inr, Bool, true, false, List, Option, none, some, ℤ, pos,
  minus_one, ◌==ℤ◌, ltb_ℤ, ◌==◌, ◌⊎◌, ◌+ℤ◌, ◌-ℤ◌, ==ℤ→eq, ==ℤ_refl, ==ℤ→ne, Bool-cases, one_less,
  one_more, length, arith,
}
use nonblocking_unix_socket.Kernel.{Kernel, FdLaws, EpollEvent, has, eagain}
use nonblocking_unix_socket.Server.{
  Server, State, Callback, ListenEvent, JobType, socket_is_closed, set_insert, set_extract,
  unset_io,
}
use nonblocking_unix_socket.Server.Fds.{
  has_fd, IsAscending, insert-IsAscending, extract-IsAscending, has_fd-insert, has_fd-extract,
  length-insert, length-extract,
}
use nonblocking_unix_socket.Server.Life.{close}
use nonblocking_unix_socket.Server.Listen.{
  Error, epollin, conn_events, accept_connection, handle_socket, handle_event, close_unused, report,
  job_of,
}

-- The set is ascending, the counter is its size, and its members are descriptors that are open.
pub record IsTracked {W : Type 0} (is_open : W → ℤ → Bool) (s : Server) (w : W) : Type 0 where
  pub ascending : IsAscending s.incoming_conn_fd
  pub counted : s.active_connections ≡ pos (length s.incoming_conn_fd)
  pub tracked :
      (fd : ℤ)
      → has_fd fd s.incoming_conn_fd ≡ true
      → (is_open w fd ≡ true) × (ltb_ℤ fd (pos 0) ≡ false)

module _ {W : Type 0} (k : Kernel W) (is_open : W → ℤ → Bool) (laws : FdLaws k is_open) where
  -- What `close` does to a connection of the server.
  pub record Closes (s : Server) (w : W) (fd : ℤ) (r : Server × W) : Type 0 where
    pub still : IsTracked is_open r.0 r.1
    pub shut : is_open r.1 fd ≡ false
    pub gone : has_fd fd (r.0).incoming_conn_fd ≡ false
    pub others_stay :
        (other : ℤ)
        → fd ≢ other
        → (has_fd other (r.0).incoming_conn_fd ≡ has_fd other s.incoming_conn_fd)
          × (is_open r.1 other ≡ is_open w other)
    pub one_fewer : (r.0).active_connections ≡ s.active_connections -ℤ pos 1

  pub extract_self :
      (fd : ℤ) (fds : List ℤ) → IsAscending fds → has_fd fd (set_extract fd fds) ≡ false
  extract_self fd fds a = has_fd-extract fd fd fds a ∙ ground (arith, ==ℤ_refl fd)

  pub extract_other :
      (fd other : ℤ) (fds : List ℤ)
      → IsAscending fds
      → fd ≢ other
      → has_fd other (set_extract fd fds) ≡ has_fd other fds
  extract_other fd other fds a ne = has_fd-extract other fd fds a ∙ ground (arith, ==ℤ→eq other fd)

  -- Closing a connection that the server tracks keeps the record right, shuts the descriptor,
  -- takes it and no other out of the set, and lowers the counter by one.
  pub close-Closes :
      (s : Server) (w : W) (fd : ℤ)
      → IsTracked is_open s w
      → has_fd fd s.incoming_conn_fd ≡ true
      → Closes s w fd (close k s w fd)
  unfolding close
  close-Closes s w fd t h = rw (t.tracked fd h).1 (record {
    still = record {
      ascending = extract-IsAscending fd s.incoming_conn_fd t.ascending;
      counted = rw t.counted (one_less _ _ (length-extract fd s.incoming_conn_fd h));
      tracked = λ other m. elim (Bool-cases (fd ==ℤ other)) [
        | inl e ↦ cc (extract_self fd s.incoming_conn_fd t.ascending, m, ==ℤ→eq fd other e)
        | inr e ↦
            let ne : fd ≢ other = ==ℤ→ne fd other e in
            let old : has_fd other s.incoming_conn_fd ≡ true =
              sym (extract_other fd other s.incoming_conn_fd t.ascending ne) ∙ m in
            (laws.close_apart w fd other ne ∙ (t.tracked other old).0, (t.tracked other old).1)
      ];
    };
    shut = laws.close_closes w fd;
    gone = extract_self fd s.incoming_conn_fd t.ascending;
    others_stay = λ other ne.
        (extract_other fd other s.incoming_conn_fd t.ascending ne, laws.close_apart w fd other ne);
    one_fewer = refl;
  })

  -- What the server reports of a connection that it still tracks, or of one that it has closed.
  abbrev pub CanReport : Server → ListenEvent → Type 0
  CanReport s ev = (ev.job ≡ socket_is_closed) ⊎ (has_fd ev.fd s.incoming_conn_fd ≡ true)

  -- A callback that keeps the record right at every event that the server reports.
  abbrev pub KeepsTracking : {A : Type 0} → Callback W A → Type 0
  KeepsTracking {A} callback =
      (s : State W A) (ev : ListenEvent)
      → CanReport s.srv ev
      → IsTracked is_open s.srv s.world
      → IsTracked is_open (callback s ev).srv (callback s ev).world

  pub insert-IsTracked :
      (s : Server) (w w' : W) (n : ℕ)
      → is_open w (pos n) ≡ false
      → is_open w' (pos n) ≡ true
      → ((other : ℤ) → pos n ≢ other → is_open w' other ≡ is_open w other)
      → IsTracked is_open s w
      → IsTracked is_open
          (record s {
            incoming_conn_fd = set_insert (pos n) s.incoming_conn_fd;
            active_connections = s.active_connections +ℤ pos 1;
          })
          w'
  insert-IsTracked s w w' n fresh opened same t = record {
    ascending = insert-IsAscending (pos n) s.incoming_conn_fd t.ascending;
    counted = rw t.counted (one_more _ _ (length-insert (pos n) s.incoming_conn_fd not_in));
    tracked = λ other m. elim (Bool-cases (other ==ℤ pos n)) [
      | inl e ↦ rw (==ℤ→eq other (pos n) e) (opened, ground arith)
      | inr e ↦
          let old : has_fd other s.incoming_conn_fd ≡ true =
            ground (arith, m, has_fd-insert other (pos n) s.incoming_conn_fd) in
          (
            same other (λ p. ==ℤ→ne other (pos n) e (sym p)) ∙ (t.tracked other old).0,
            (t.tracked other old).1,
          )
    ];
  }
    where
      not_in : has_fd (pos n) s.incoming_conn_fd ≡ false
      not_in = elim (Bool-cases (has_fd (pos n) s.incoming_conn_fd)) [
        | inl m ↦ cc ((t.tracked (pos n) m).0, fresh)
        | inr m ↦ m
      ]

  pub unset_io-IsTracked :
      (s : Server) (w : W) (fd : ℤ) → IsTracked is_open s w → IsTracked is_open (unset_io s fd) w
  unfolding unset_io
  unset_io-IsTracked s w fd t = elim (Bool-cases s.use_smart_close) [
    | inl e ↦ simp e (record { ascending = t.ascending; counted = t.counted; tracked = t.tracked })
    | inr e ↦ simp e t
  ]

  pub move-IsTracked :
      (s : Server) (w w' : W)
      → ((other : ℤ) → is_open w' other ≡ is_open w other)
      → IsTracked is_open s w
      → IsTracked is_open s w'
  move-IsTracked s w w' same t = record {
    ascending = t.ascending;
    counted = t.counted;
    tracked = λ fd m. (same fd ∙ (t.tracked fd m).0, (t.tracked fd m).1);
  }
