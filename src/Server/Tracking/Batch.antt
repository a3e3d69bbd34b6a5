-- ===== src/Server/Tracking/Batch.antt =====
-- The events that one epoll_wait hands out, one after the other (libnbuss/IGenericServer.cpp, the
-- inner loop of listen).
use nonblocking_unix_socket.Base.{
  ℕ, ◌≡◌, ◌≢◌, refl, sym, ◌∙◌, inl, inr, Bool, true, false, List, [], ◌∷◌, Option, none, some, ℤ,
  pos, minus_one, ◌==ℤ◌, ltb_ℤ, ◌==◌, ◌⊎◌, ◌+ℤ◌, Bool-cases, Option-cases, arith,
}
use nonblocking_unix_socket.Kernel.{Kernel, FdLaws, EpollEvent, has, eagain}
use nonblocking_unix_socket.Server.{
  Server, State, Callback, ListenEvent, JobType, set_insert, unset_io,
}
use nonblocking_unix_socket.Server.Fds.{has_fd, has_fd-insert, has_fd-extract_other}
use nonblocking_unix_socket.Server.Life.{close}
use nonblocking_unix_socket.Server.Listen.{
  epollin, conn_events, accept_connection, handle_socket, handle_event, handle_events, close_unused,
  report,
}
use nonblocking_unix_socket.Server.Tracking.{IsTracked, KeepsTracking}
use nonblocking_unix_socket.Server.Tracking.Events.{
  unset_io-fds, unset_io-listen_sock, handle_event-IsTracked,
}

-- The listening socket is the same, and every connection but that of `fd` is in the set still.
pub record KeepsOthers (s : Server) (fd : ℤ) (t : Server) : Type 0 where
  pub same_listen_sock : t.listen_sock ≡ s.listen_sock
  pub others_stay :
      (other : ℤ)
      → fd ≢ other
      → has_fd other s.incoming_conn_fd ≡ true
      → has_fd other t.incoming_conn_fd ≡ true

pub KeepsOthers-refl : (s : Server) (fd : ℤ) → KeepsOthers s fd s
KeepsOthers-refl s fd = record { same_listen_sock = refl; others_stay = λ other ne m. m }

pub KeepsOthers-trans :
    {s t u : Server} (fd : ℤ) → KeepsOthers s fd t → KeepsOthers t fd u → KeepsOthers s fd u
KeepsOthers-trans fd a b = record {
  same_listen_sock = b.same_listen_sock ∙ a.same_listen_sock;
  others_stay = λ other ne m. b.others_stay other ne (a.others_stay other ne m);
}

-- The descriptor is the listening socket, or one of a tracked connection.
abbrev pub IsKnown : Server → EpollEvent → Type 0
IsKnown s ev = (ev.fd ≡ s.listen_sock) ⊎ (has_fd ev.fd s.incoming_conn_fd ≡ true)

-- Each descriptor is known, and none comes twice.
abbrev pub AllKnown : Server → List EpollEvent → Type 0
AllKnown s [] = Unit
AllKnown s (ev ∷ evs) = IsKnown s ev × AllKnown s evs

abbrev pub AllApart : ℤ → List EpollEvent → Type 0
AllApart fd [] = Unit
AllApart fd (ev ∷ evs) = (fd ≢ ev.fd) × AllApart fd evs

abbrev pub AreDistinct : List EpollEvent → Type 0
AreDistinct [] = Unit
AreDistinct (ev ∷ evs) = AllApart ev.fd evs × AreDistinct evs

AllKnown-kept :
    (s : Server) (fd : ℤ) (t : Server) (evs : List EpollEvent)
    → KeepsOthers s fd t
    → AllApart fd evs
    → AllKnown s evs
    → AllKnown t evs
AllKnown-kept s fd t [] kept apart known = tt
AllKnown-kept s fd t (ev ∷ evs) kept apart known =
    let first : IsKnown t ev = elim known.0 [
      | inl e ↦ inl (e ∙ sym kept.same_listen_sock)
      | inr m ↦ inr (kept.others_stay ev.fd apart.0 m)
    ] in
    (first, AllKnown-kept s fd t evs kept apart.1 known.1)

pub close-KeepsOthers :
    {W : Type 0} (k : Kernel W) (s : Server) (w : W) (fd : ℤ) → KeepsOthers s fd (close k s w fd).0
unfolding close
close-KeepsOthers k s w fd = elim (Bool-cases (ltb_ℤ fd (pos 0))) [
  | inl e ↦ rw e (KeepsOthers-refl s fd)
  | inr e ↦ rw e (record {
    same_listen_sock = refl;
    others_stay = λ other ne m. has_fd-extract_other other fd s.incoming_conn_fd ne ∙ m;
  })
]

-- The new descriptor is none of those that are tracked.
registered-KeepsOthers :
    {W : Type 0} (is_open : W → ℤ → Bool) (s : Server) (w : W) (fd : ℤ) (n : ℕ) (u : Server)
    → is_open w (pos n) ≡ false
    → IsTracked is_open s w
    → KeepsOthers
        (unset_io
          (record s {
            incoming_conn_fd = set_insert (pos n) s.incoming_conn_fd;
            active_connections = s.active_connections +ℤ pos 1;
          })
          fd)
        (pos n)
        u
    → KeepsOthers s fd u
registered-KeepsOthers is_open s w fd n u fresh t told = record {
  same_listen_sock = told.same_listen_sock ∙ unset_io-listen_sock _ fd;
  others_stay = λ other ne m.
      told.others_stay other (λ e. ground (arith, e, (t.tracked other m).0, fresh))
        (rw (unset_io-fds _ fd, has_fd-insert other (pos n) s.incoming_conn_fd)
          (ground (arith, m)));
}

module _ {W : Type 0} (k : Kernel W) (is_open : W → ℤ → Bool) (laws : FdLaws k is_open) where
  -- A callback that closes no connection but that of its event.
  abbrev pub MindsItsOwn : {A : Type 0} → Callback W A → Type 0
  MindsItsOwn {A} callback =
      (s : State W A) (ev : ListenEvent) → KeepsOthers s.srv ev.fd (callback s ev).srv

  module _ {A : Type 0} (callback : Callback W A) (minds : MindsItsOwn callback)
      (keeps : KeepsTracking k is_open laws callback) where
    report-KeepsOthers :
        (s : State W A) (ev : EpollEvent) (job : Option JobType)
        → KeepsOthers s.srv ev.fd (report k callback s ev job).srv
    unfolding report
    report-KeepsOthers s ev none = KeepsOthers-refl s.srv ev.fd
    report-KeepsOthers s ev (some job) = minds s _

    reported-KeepsOthers :
        (b : Bool) (s : State W A) (ev : EpollEvent) (job : Option JobType)
        → KeepsOthers s.srv ev.fd (report k callback (close_unused k callback b s ev.fd) ev job).srv
    unfolding close_unused
    reported-KeepsOthers true s ev job =
        KeepsOthers-trans ev.fd (close-KeepsOthers k s.srv s.world ev.fd)
          (report-KeepsOthers _ ev job)
    reported-KeepsOthers false s ev job = report-KeepsOthers s ev job

    accept-KeepsOthers :
        (s : State W A) (fd : ℤ)
        → IsTracked is_open s.srv s.world
        → (accept_connection k callback s fd).1 ≡ none
        → KeepsOthers s.srv fd ((accept_connection k callback s fd).0).srv
    unfolding accept_connection
    accept-KeepsOthers s fd t ok = elim (laws.accept_opens s.world s.srv.listen_sock) [
      | inl (c, same) ↦
          elim (Bool-cases ((k.sys_accept4 s.world s.srv.listen_sock).errno == eagain)) [
            | inl e ↦ rw (c, e) (KeepsOthers-refl s.srv fd)
            | inr e ↦ rw (c, e) (KeepsOthers-refl s.srv fd)
          ]
      | inr (n, c, fresh, opened, same) ↦
          elim (Bool-cases (
            (k.sys_epoll_add (k.sys_accept4 s.world s.srv.listen_sock).world s.srv.epollfd (pos n)
              conn_events).c
            ==ℤ minus_one)) [
              | inl e ↦ cc (rw (c, e) at ok)
              | inr e ↦
                  rw (c, e)
                    (registered-KeepsOthers is_open s.srv s.world fd n _ fresh t (minds _ _))
            ]
    ]

    handle_event-KeepsOthers :
        (s : State W A) (ev : EpollEvent)
        → IsTracked is_open s.srv s.world
        → (handle_event k callback s ev).1 ≡ none
        → KeepsOthers s.srv ev.fd ((handle_event k callback s ev).0).srv
    unfolding handle_event handle_socket
    handle_event-KeepsOthers s ev t ok = elim (Bool-cases (ev.fd ==ℤ s.srv.listen_sock)) [
      | inl e ↦ elim (Bool-cases (has ev.events epollin)) [
        | inl readable ↦ rw (e, readable) (accept-KeepsOthers s ev.fd t (rw (e, readable) at ok))
        | inr other ↦ rw (e, other) (KeepsOthers-refl s.srv ev.fd)
      ]
      | inr e ↦ rw e (reported-KeepsOthers _ s ev _)
    ]

    -- Where the callback keeps the record right and closes no connection but that of its event, so
    -- does the handling of all events of one call.
    pub handle_events-IsTracked :
        (s : State W A) (evs : List EpollEvent)
        → AllKnown s.srv evs
        → AreDistinct evs
        → IsTracked is_open s.srv s.world
        → (handle_events k callback s evs).1 ≡ none
        → let t = (handle_events k callback s evs).0 in IsTracked is_open t.srv t.world
    unfolding handle_events
    handle_events-IsTracked s [] known apart t ok = t
    handle_events-IsTracked s (ev ∷ evs) known apart t ok =
        elim (Option-cases (handle_event k callback s ev).1) [
          | inr (e, threw) ↦ cc (rw (threw, handle_events) at ok)
          | inl fine ↦
              let s' = (handle_event k callback s ev).0 in
              rw (fine, handle_events)
                (handle_events-IsTracked s' evs
                  (AllKnown-kept s.srv ev.fd s'.srv evs (handle_event-KeepsOthers s ev t fine)
                    apart.0 known.1)
                  apart.1 (handle_event-IsTracked k is_open laws callback keeps s ev known.0 t fine)
                  (rw (fine, handle_events) at ok))
        ]
