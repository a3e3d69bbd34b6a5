-- ===== src/Server/Fixed.antt =====
-- What the listener leaves alone while it listens: the flags and the ends of the pipe
-- (libnbuss/IGenericServer.cpp, listen).
use nonblocking_unix_socket.Base.{
  ℕ, zero, suc, ◌≡◌, refl, ◌∙◌, inl, inr, Bool, true, false, ◌&&◌, List, [], ◌∷◌, Option, none,
  some, ℤ, pos, minus_one, pos_part, ◌==ℤ◌, ltb_ℤ, ◌==◌, take, replicate, if_keeps, if_not,
  Option-cases,
}
use nonblocking_unix_socket.Kernel.{Kernel, EpollEvent, has, eagain, eintr}
use nonblocking_unix_socket.Server.{Server, State, Callback, ListenEvent, JobType, unset_io, set_io}
use nonblocking_unix_socket.Server.Life.{close}
use nonblocking_unix_socket.Server.Listen.{
  Outcome, running, returned, threw, epollin, conn_events, max_events, accept_connection, register,
  handle_socket, handle_event, handle_events, close_unused, report, listen_loop, await,
}

pub record SameFixed (s t : Server) : Type 0 where
  pub same_read_end : t.pipe_read_fd ≡ s.pipe_read_fd
  pub same_write_end : t.pipe_write_fd ≡ s.pipe_write_fd
  pub same_stop : t.stop_server ≡ s.stop_server
  pub same_listening : t.is_listening ≡ s.is_listening

-- The other fields may have any values.
others-SameFixed :
    (s : Server) (fds : List ℤ) (count : ℤ) (io : ℤ → Bool)
    → SameFixed s
        (record s { incoming_conn_fd = fds; active_connections = count; is_socket_io = io })
others-SameFixed s fds count io = record {
  same_read_end = refl;
  same_write_end = refl;
  same_stop = refl;
  same_listening = refl;
}

pub SameFixed-refl : (s : Server) → SameFixed s s
SameFixed-refl s = others-SameFixed s s.incoming_conn_fd s.active_connections s.is_socket_io

pub SameFixed-trans : {s t u : Server} → SameFixed s t → SameFixed t u → SameFixed s u
SameFixed-trans a b = record {
  same_read_end = b.same_read_end ∙ a.same_read_end;
  same_write_end = b.same_write_end ∙ a.same_write_end;
  same_stop = b.same_stop ∙ a.same_stop;
  same_listening = b.same_listening ∙ a.same_listening;
}

pub set_io-SameFixed : (s : Server) (fd : ℤ) → SameFixed s (set_io s fd)
unfolding set_io
set_io-SameFixed s fd =
    if_keeps (SameFixed s) s.use_smart_close
      (others-SameFixed s s.incoming_conn_fd s.active_connections _) (SameFixed-refl s)

unset_io-SameFixed : (s : Server) (fd : ℤ) → SameFixed s (unset_io s fd)
unfolding unset_io
unset_io-SameFixed s fd =
    if_keeps (SameFixed s) s.use_smart_close
      (others-SameFixed s s.incoming_conn_fd s.active_connections _) (SameFixed-refl s)

pub close-SameFixed :
    {W : Type 0} (k : Kernel W) (s : Server) (w : W) (fd : ℤ) → SameFixed s (close k s w fd).0
unfolding close
close-SameFixed {W} k s w fd =
    if_keeps (λ (r : Server × W). SameFixed s r.0) (ltb_ℤ fd (pos 0)) (SameFixed-refl s)
      (others-SameFixed s _ _ s.is_socket_io)

module _ {W A : Type 0} (k : Kernel W) (callback : Callback W A) where
  abbrev pub KeepsFixed : Type 0
  KeepsFixed = (s : State W A) (ev : ListenEvent) → SameFixed s.srv (callback s ev).srv

  module _ (keeps : KeepsFixed) where
    accept-SameFixed :
        (s : State W A) (fd : ℤ) → SameFixed s.srv ((accept_connection k callback s fd).0).srv
    unfolding accept_connection register
    accept-SameFixed s fd =
        let a = k.sys_accept4 s.world s.srv.listen_sock in
        let r = k.sys_epoll_add a.world s.srv.epollfd a.c conn_events in
        let P : State W A × Option _ → Type 0 = λ r. SameFixed s.srv (r.0).srv in
        if_keeps P (a.c ==ℤ minus_one && a.errno == eagain) (SameFixed-refl s.srv) (
          if_keeps P (a.c ==ℤ minus_one) (SameFixed-refl s.srv) (
            if_keeps P (r.c ==ℤ minus_one) (others-SameFixed s.srv _ _ s.srv.is_socket_io) (
              SameFixed-trans
                (SameFixed-trans (others-SameFixed s.srv _ _ s.srv.is_socket_io)
                  (unset_io-SameFixed _ fd))
                (keeps _ _))))

    report-SameFixed :
        (s : State W A) (ev : EpollEvent) (job : Option JobType)
        → SameFixed s.srv (report k callback s ev job).srv
    unfolding report
    report-SameFixed s ev none = SameFixed-refl s.srv
    report-SameFixed s ev (some job) = keeps s _

    close_unused-SameFixed :
        (b : Bool) (s : State W A) (fd : ℤ) → SameFixed s.srv (close_unused k callback b s fd).srv
    unfolding close_unused
    close_unused-SameFixed true s fd = close-SameFixed k s.srv s.world fd
    close_unused-SameFixed false s fd = SameFixed-refl s.srv

    event-SameFixed :
        (s : State W A) (ev : EpollEvent) → SameFixed s.srv ((handle_event k callback s ev).0).srv
    unfolding handle_event handle_socket
    event-SameFixed s ev =
        let P : State W A × Option _ → Type 0 = λ r. SameFixed s.srv (r.0).srv in
        if_keeps P (ev.fd ==ℤ s.srv.listen_sock)
          (if_keeps P (has ev.events epollin) (accept-SameFixed s ev.fd) (SameFixed-refl s.srv))
          (SameFixed-trans (close_unused-SameFixed _ s ev.fd) (report-SameFixed _ ev _))

    events-SameFixed :
        (s : State W A) (evs : List EpollEvent)
        → SameFixed s.srv ((handle_events k callback s evs).0).srv
    unfolding handle_events
    events-SameFixed s [] = SameFixed-refl s.srv
    events-SameFixed s (ev ∷ evs) = elim (Option-cases (handle_event k callback s ev).1) [
      | inr (e, thrown) ↦ rw (thrown, handle_events) (event-SameFixed s ev)
      | inl fine ↦
          rw (fine, handle_events)
            (SameFixed-trans (event-SameFixed s ev)
              (events-SameFixed ((handle_event k callback s ev).0) evs))
    ]

    -- A loop that nobody else disturbs and that is not told to stop goes on, or throws.
    abbrev pub GoesOn : Server → Outcome W A → Type 0
    GoesOn s (running t) = SameFixed s t.srv
    GoesOn s (returned t) = ⊥
    GoesOn s (threw t e) = Unit

    GoesOn-trans : {s t : Server} (o : Outcome W A) → SameFixed s t → GoesOn t o → GoesOn s o
    GoesOn-trans (running u) a b = SameFixed-trans a b
    GoesOn-trans (returned u) a b = b
    GoesOn-trans (threw u e) a b = b

    pub loop-GoesOn :
        (n : ℕ) (s : State W A)
        → s.srv.stop_server ≡ false
        → GoesOn s.srv (listen_loop k callback (replicate n (λ t. t)) s)
    unfolding listen_loop await
    loop-GoesOn zero s on = SameFixed-refl s.srv
    loop-GoesOn (suc n) s on =
        let r = k.sys_epoll_wait s.world s.srv.epollfd max_events in
        let s' = record s { world = r.world } in
        let handled = handle_events k callback s' (take (pos_part r.c) r.ready) in
        let kept : SameFixed s.srv (handled.0).srv =
          events-SameFixed s' (take (pos_part r.c) r.ready) in
        let last : GoesOn s.srv (elim handled.1 as (λ x. Outcome W A) [
          | none ↦ listen_loop k callback (replicate n (λ t. t)) handled.0
          | some x ↦ threw handled.0 x
        ]) =
          elim (Option-cases handled.1) [
            | inl fine ↦
                rw fine (GoesOn-trans _ kept (loop-GoesOn n handled.0 (kept.same_stop ∙ on)))
            | inr (e, thrown) ↦ rw thrown tt
          ] in
        if_not (GoesOn s.srv) s.srv.stop_server _ on (
          if_not (GoesOn s.srv) s.srv.stop_server _ on (
            if_keeps (GoesOn s.srv) (r.c ==ℤ minus_one && r.errno == eintr) (loop-GoesOn n s' on)
              (if_keeps (GoesOn s.srv) (r.c ==ℤ minus_one) tt last)))
