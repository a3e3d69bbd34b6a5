-- ===== src/Server/Tracking/Events.antt =====
-- The record of connections across an event that the listener handles (libnbuss/IGenericServer.cpp,
-- listen).
use nonblocking_unix_socket.Base.{
  ℕ, ◌≡◌, refl, ◌∙◌, inl, inr, Bool, true, false, Option, none, some, ℤ, pos, minus_one, ◌==ℤ◌,
  ◌==◌, ◌⊎◌, ◌+ℤ◌, ◌&&◌, ◌||◌, ==ℤ_refl, ==ℤ→ne, Bool-cases, arith,
}
use nonblocking_unix_socket.Kernel.{Kernel, FdLaws, EpollEvent, has, eagain}
use nonblocking_unix_socket.Server.{
  Server, State, Callback, JobType, socket_is_closed, set_insert, unset_io,
}
use nonblocking_unix_socket.Server.Fds.{has_fd, has_fd-insert}
use nonblocking_unix_socket.Server.Listen.{
  Error, epollin, epollhup, epollrdhup, conn_events, accept_connection, handle_socket, handle_event,
  close_unused, report, job_of,
}
use nonblocking_unix_socket.Server.Tracking.{
  IsTracked, close-Closes, KeepsTracking, insert-IsTracked, unset_io-IsTracked, move-IsTracked,
}

-- What becomes of a connection is that it was closed unused, or its job is another one.
pub closed_job :
    (unused : Bool) (events : ℕ)
    → ((has events epollrdhup || has events epollhup) && unused) ≡ true
    → job_of unused events ≡ some socket_is_closed
unfolding job_of
closed_job unused events h = ground arith

pub unset_io-fds : (s : Server) (fd : ℤ) → (unset_io s fd).incoming_conn_fd ≡ s.incoming_conn_fd
unfolding unset_io
unset_io-fds s fd = ground arith

pub unset_io-listen_sock : (s : Server) (fd : ℤ) → (unset_io s fd).listen_sock ≡ s.listen_sock
unfolding unset_io
unset_io-listen_sock s fd = ground arith

module _ {W : Type 0} (k : Kernel W) (is_open : W → ℤ → Bool) (laws : FdLaws k is_open) where
  -- A step that threw nothing leaves the record right.
  abbrev Tracks : {A : Type 0} → State W A × Option Error → Type 0
  Tracks (s, e) = e ≡ none → IsTracked is_open s.srv s.world

  registered :
      (s : Server) (n : ℕ) (fd : ℤ)
      → has_fd
          (pos n)
          (unset_io
            (record s {
              incoming_conn_fd = set_insert (pos n) s.incoming_conn_fd;
              active_connections = s.active_connections +ℤ pos 1;
            })
            fd).incoming_conn_fd
        ≡ true
  registered s n fd =
      rw (unset_io-fds _ fd, has_fd-insert (pos n) (pos n) s.incoming_conn_fd, ==ℤ_refl (pos n))
        refl

  module _ {A : Type 0} (callback : Callback W A)
      (keeps : KeepsTracking k is_open laws callback) where
    accept-Tracks :
        (s : State W A) (fd : ℤ)
        → IsTracked is_open s.srv s.world
        → Tracks (accept_connection k callback s fd)
    unfolding accept_connection
    accept-Tracks s fd t = elim (laws.accept_opens s.world s.srv.listen_sock) [
      | inl (c, same) ↦
          elim (Bool-cases ((k.sys_accept4 s.world s.srv.listen_sock).errno == eagain)) [
            | inl e ↦ rw (c, e) (λ ok. move-IsTracked k is_open laws s.srv s.world _ same t)
            | inr e ↦ rw (c, e) (λ ok. cc ok)
          ]
      | inr (n, c, fresh, opened, same) ↦
          elim (Bool-cases (
            (k.sys_epoll_add (k.sys_accept4 s.world s.srv.listen_sock).world s.srv.epollfd (pos n)
              conn_events).c
            ==ℤ minus_one)) [
              | inl e ↦ rw (c, e) (λ ok. cc ok)
              | inr e ↦
                  rw (c, e)
                    (λ ok. keeps _ _ (inr (registered s.srv n fd)) (
                      unset_io-IsTracked k is_open laws _ _ fd (
                        insert-IsTracked k is_open laws s.srv s.world _ n fresh
                          (laws.epoll_add_keeps _ _ _ _ _ ∙ opened)
                          (λ other ne. laws.epoll_add_keeps _ _ _ _ _ ∙ same other ne) t)))
            ]
    ]

    report-IsTracked :
        (s : State W A) (ev : EpollEvent) (job : Option JobType)
        → (job ≡ some socket_is_closed) ⊎ (has_fd ev.fd s.srv.incoming_conn_fd ≡ true)
        → IsTracked is_open s.srv s.world
        → let t = report k callback s ev job in IsTracked is_open t.srv t.world
    unfolding report
    report-IsTracked s ev none can t = t
    report-IsTracked s ev (some job) (inl e) t = keeps s _ (inl (cc e)) t
    report-IsTracked s ev (some job) (inr m) t = keeps s _ (inr m) t

    reported-IsTracked :
        (b : Bool) (s : State W A) (ev : EpollEvent) (job : Option JobType)
        → (b ≡ true → job ≡ some socket_is_closed)
        → has_fd ev.fd s.srv.incoming_conn_fd ≡ true
        → IsTracked is_open s.srv s.world
        → let t = report k callback (close_unused k callback b s ev.fd) ev job in
          IsTracked is_open t.srv t.world
    unfolding close_unused
    reported-IsTracked true s ev job closed m t =
        report-IsTracked _ ev job (inl (closed refl))
          (close-Closes k is_open laws s.srv s.world ev.fd t m).still
    reported-IsTracked false s ev job closed m t = report-IsTracked s ev job (inr m) t

    handle_socket-IsTracked :
        (s : State W A) (ev : EpollEvent)
        → has_fd ev.fd s.srv.incoming_conn_fd ≡ true
        → IsTracked is_open s.srv s.world
        → let t = handle_socket k callback s ev in IsTracked is_open t.srv t.world
    unfolding handle_socket
    handle_socket-IsTracked s ev m t =
        reported-IsTracked _ s ev (job_of _ ev.events) (closed_job _ ev.events) m t

    event-Tracks :
        (s : State W A) (ev : EpollEvent)
        → (ev.fd ≡ s.srv.listen_sock) ⊎ (has_fd ev.fd s.srv.incoming_conn_fd ≡ true)
        → IsTracked is_open s.srv s.world
        → Tracks (handle_event k callback s ev)
    unfolding handle_event
    event-Tracks s ev known t = elim (Bool-cases (ev.fd ==ℤ s.srv.listen_sock)) [
      | inl e ↦ elim (Bool-cases (has ev.events epollin)) [
        | inl readable ↦ simp (e, readable) (accept-Tracks s ev.fd t)
        | inr other ↦ simp (e, other) (λ ok. t)
      ]
      | inr e ↦
          let m : has_fd ev.fd s.srv.incoming_conn_fd ≡ true = elim known [
            | inl p ↦ absurd (==ℤ→ne _ _ e p)
            | inr m ↦ m
          ] in
          simp e (λ ok. handle_socket-IsTracked s ev m t)
    ]

    -- Where the callback keeps it, handling an event of the listening socket or of a tracked
    -- connection keeps the record of connections right, unless an exception leaves the loop: the
    -- set holds open descriptors in ascending order and the counter is its size.
    pub handle_event-IsTracked :
        (s : State W A) (ev : EpollEvent)
        → (ev.fd ≡ s.srv.listen_sock) ⊎ (has_fd ev.fd s.srv.incoming_conn_fd ≡ true)
        → IsTracked is_open s.srv s.world
        → (handle_event k callback s ev).1 ≡ none
        → let t = (handle_event k callback s ev).0 in IsTracked is_open t.srv t.world
    handle_event-IsTracked s ev known t ok = event-Tracks s ev known t ok
