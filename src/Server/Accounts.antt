-- ===== src/Server/Accounts.antt =====
-- Which descriptors a run of IGenericServer::listen leaves open (libnbuss/IGenericServer.cpp): the
-- account that its steps keep of them.
pub mod Loop
use nonblocking_unix_socket.Base.{
  ℕ, ◌≡◌, ◌≢◌, ◌⊎◌, refl, sym, ◌∙◌, inl, inr, Bool, true, false, List, [], ◌∷◌, Option, none, some,
  ℤ, pos, minus_one, ◌==ℤ◌, ltb_ℤ, ◌==◌, ◌+ℤ◌, ◌||◌, ==ℤ→eq, ==ℤ_refl, ==ℤ→ne, Bool-cases,
  Option-cases, arith,
}
use nonblocking_unix_socket.Kernel.{Kernel, FdLaws, EpollEvent, has, eagain}
use nonblocking_unix_socket.Server.{
  Server, State, Callback, ListenEvent, JobType, set_insert, set_extract, unset_io,
}
use nonblocking_unix_socket.Server.Fds.{has_fd, has_fd-insert, has_fd-extract_other}
use nonblocking_unix_socket.Server.Life.{close}
use nonblocking_unix_socket.Server.Listen.{
  Error, epollin, conn_events, accept_connection, handle_socket, handle_event, handle_events,
  close_unused, report,
}

-- The listening socket is `sock`, and whatever is open is among `base`, or a connection of the
-- server, or its epoll descriptor.
pub record IsAccounted {W : Type 0} (is_open : W → ℤ → Bool) (base : ℤ → Bool) (sock : ℤ)
    (s : Server) (w : W) : Type 0 where
  pub same_sock : s.listen_sock ≡ sock
  pub accounted :
      (n : ℕ)
      → is_open w (pos n) ≡ true
      → (base (pos n) ≡ true) ⊎ ((has_fd (pos n) s.incoming_conn_fd ≡ true) ⊎ (pos n ≡ s.epollfd))

module _ {W : Type 0} (k : Kernel W) (is_open : W → ℤ → Bool) (laws : FdLaws k is_open)
    (base : ℤ → Bool) (sock : ℤ) where
  -- A callback leaves nothing open that the server does not know of.
  abbrev pub KeepsAccounts : {A : Type 0} → Callback W A → Type 0
  KeepsAccounts {A} callback =
      (s : State W A) (ev : ListenEvent)
      → IsAccounted is_open base sock s.srv s.world
      → IsAccounted is_open base sock (callback s ev).srv (callback s ev).world

  pub move-IsAccounted :
      (s : Server) (w w' : W)
      → ((other : ℤ) → is_open w' other ≡ is_open w other)
      → IsAccounted is_open base sock s w
      → IsAccounted is_open base sock s w'
  move-IsAccounted s w w' same a = record {
    same_sock = a.same_sock;
    accounted = λ n o. a.accounted n (sym (same (pos n)) ∙ o);
  }

  unset_io-IsAccounted :
      (s : Server) (w : W) (fd : ℤ)
      → IsAccounted is_open base sock s w
      → IsAccounted is_open base sock (unset_io s fd) w
  unfolding unset_io
  unset_io-IsAccounted s w fd a = elim (Bool-cases s.use_smart_close) [
    | inl e ↦ simp e (record { same_sock = a.same_sock; accounted = a.accounted })
    | inr e ↦ simp e a
  ]

  pub close-IsAccounted :
      (s : Server) (w : W) (fd : ℤ)
      → IsAccounted is_open base sock s w
      → IsAccounted is_open base sock (close k s w fd).0 (close k s w fd).1
  unfolding close
  close-IsAccounted s w fd a = elim (Bool-cases (ltb_ℤ fd (pos 0))) [
    | inl e ↦ rw e a
    | inr e ↦ rw e (record {
      same_sock = a.same_sock;
      accounted = λ n o. elim (Bool-cases (fd ==ℤ pos n)) [
        | inl same ↦ cc (laws.close_closes w fd, ==ℤ→eq fd (pos n) same, o)
        | inr apart ↦
            let ne : fd ≢ pos n = ==ℤ→ne fd (pos n) apart in
            rw (has_fd-extract_other (pos n) fd s.incoming_conn_fd ne)
              (a.accounted n (sym (laws.close_apart w fd (pos n) ne) ∙ o))
      ];
    })
  ]

  -- An accepted connection is in the set before anything can fail.
  insert-IsAccounted :
      (s : Server) (w w' : W) (n : ℕ) (count : ℤ)
      → ((other : ℤ) → pos n ≢ other → is_open w' other ≡ is_open w other)
      → IsAccounted is_open base sock s w
      → IsAccounted is_open base sock
          (record s {
            incoming_conn_fd = set_insert (pos n) s.incoming_conn_fd;
            active_connections = count;
          })
          w'
  insert-IsAccounted s w w' n count same a = record {
    same_sock = a.same_sock;
    accounted = λ m o.
        rw (has_fd-insert (pos m) (pos n) s.incoming_conn_fd) (elim (Bool-cases (pos m ==ℤ pos n)) [
          | inl e ↦ rw e (inr (inl refl))
          | inr e ↦
              rw e (a.accounted m (sym (same (pos m) (λ p. ==ℤ→ne (pos m) (pos n) e (sym p))) ∙ o))
        ]);
  }

  module _ {A : Type 0} (callback : Callback W A) (keeps : KeepsAccounts callback) where
    accept-IsAccounted :
        (s : State W A) (fd : ℤ)
        → IsAccounted is_open base sock s.srv s.world
        → let t = (accept_connection k callback s fd).0 in
          IsAccounted is_open base sock t.srv t.world
    unfolding accept_connection
    accept-IsAccounted s fd a = elim (laws.accept_opens s.world s.srv.listen_sock) [
      | inl (c, same) ↦
          elim (Bool-cases ((k.sys_accept4 s.world s.srv.listen_sock).errno == eagain)) [
            | inl e ↦ rw (c, e) (move-IsAccounted s.srv s.world _ same a)
            | inr e ↦ rw (c, e) (move-IsAccounted s.srv s.world _ same a)
          ]
      | inr (n, c, fresh, opened, same) ↦
          let added = λ (count : ℤ).
            insert-IsAccounted s.srv s.world _ n count
              (λ other ne.
                laws.epoll_add_keeps _ s.srv.epollfd (pos n) other conn_events ∙ same other ne)
              a in
          elim (Bool-cases (
            (k.sys_epoll_add (k.sys_accept4 s.world s.srv.listen_sock).world s.srv.epollfd (pos n)
              conn_events).c
            ==ℤ minus_one)) [
              | inl e ↦ rw (c, e) (added s.srv.active_connections)
              | inr e ↦ rw (c, e) (keeps _ _ (unset_io-IsAccounted _ _ fd (added _)))
            ]
    ]

    report-IsAccounted :
        (s : State W A) (ev : EpollEvent) (job : Option JobType)
        → IsAccounted is_open base sock s.srv s.world
        → let t = report k callback s ev job in IsAccounted is_open base sock t.srv t.world
    unfolding report
    report-IsAccounted s ev none a = a
    report-IsAccounted s ev (some job) a = keeps s _ a

    close_unused-IsAccounted :
        (b : Bool) (s : State W A) (fd : ℤ)
        → IsAccounted is_open base sock s.srv s.world
        → let t = close_unused k callback b s fd in IsAccounted is_open base sock t.srv t.world
    unfolding close_unused
    close_unused-IsAccounted true s fd a = close-IsAccounted s.srv s.world fd a
    close_unused-IsAccounted false s fd a = a

    event-IsAccounted :
        (s : State W A) (ev : EpollEvent)
        → IsAccounted is_open base sock s.srv s.world
        → let t = (handle_event k callback s ev).0 in IsAccounted is_open base sock t.srv t.world
    unfolding handle_event handle_socket
    event-IsAccounted s ev a = elim (Bool-cases (ev.fd ==ℤ s.srv.listen_sock)) [
      | inl e ↦ elim (Bool-cases (has ev.events epollin)) [
        | inl readable ↦ rw (e, readable) (accept-IsAccounted s ev.fd a)
        | inr other ↦ rw (e, other) a
      ]
      | inr e ↦ rw e (report-IsAccounted _ ev _ (close_unused-IsAccounted _ s ev.fd a))
    ]

    -- Also where an exception leaves the loop.
    pub events-IsAccounted :
        (s : State W A) (evs : List EpollEvent)
        → IsAccounted is_open base sock s.srv s.world
        → let t = (handle_events k callback s evs).0 in IsAccounted is_open base sock t.srv t.world
    unfolding handle_events
    events-IsAccounted s [] a = a
    events-IsAccounted s (ev ∷ evs) a = elim (Option-cases (handle_event k callback s ev).1) [
      | inr (e, threw) ↦ rw (threw, handle_events) (event-IsAccounted s ev a)
      | inl fine ↦
          rw (fine, handle_events)
            (events-IsAccounted ((handle_event k callback s ev).0) evs (event-IsAccounted s ev a))
    ]
