-- ===== src/Echo/Record.antt =====
-- `my_listener` of main/main.cpp as the callback of a server: it keeps the server's record of its
-- connections.
use nonblocking_unix_socket.Base.{
  ℕ, ◌≡◌, ◌⊎◌, refl, sym, ap, subst, length, ◌∙◌, inl, inr, Bool, true, List, [], ◌∷◌, none, ℤ, pos,
  Option-cases,
}
use nonblocking_unix_socket.Kernel.{Kernel, FdLaws, EpollEvent}
use nonblocking_unix_socket.Server.{
  State, JobType, available_for_read, close_socket, available_for_write, new_socket,
  available_for_read_and_write, socket_is_closed,
}
use nonblocking_unix_socket.Server.Fds.{has_fd, IsAscending}
use nonblocking_unix_socket.Server.Io as Io
use nonblocking_unix_socket.Server.Keeps.{
  ReadKeeps, WriteKeeps, read_loop-Keeps, write-keeps, SameRecord, SameRecord-refl,
  SameRecord-trans, set_io-SameRecord, write-SameRecord,
}
use nonblocking_unix_socket.Server.Listen.{handle_events}
use nonblocking_unix_socket.Server.Tracking.{IsTracked, close-Closes}
use nonblocking_unix_socket.Server.Tracking.Batch.{
  AllKnown, AreDistinct, KeepsOthers, close-KeepsOthers, KeepsOthers-refl, handle_events-IsTracked,
}
use nonblocking_unix_socket.Echo.{answer, buffer_size, echo, echo_all, my_listener}

-- read(2) and write(2) open and close nothing.
pub record OpenLaws {W : Type 0} (k : Kernel W) (is_open : W → ℤ → Bool) : Type 0 where
  pub read_keeps : (other : ℤ) → ReadKeeps k (λ w. is_open w other)
  pub write_keeps : (other : ℤ) → WriteKeeps k (λ w. is_open w other)

module _ {W A : Type 0} (k : Kernel W) (is_open : W → ℤ → Bool) (laws : FdLaws k is_open)
    (opens : OpenLaws k is_open) where
  -- Nothing that concerns the connections has changed.
  pub record SameConnections (s t : State W A) : Type 0 where
    pub record_kept : SameRecord s.srv t.srv
    pub open_kept : (other : ℤ) → is_open t.world other ≡ is_open s.world other

  SameConnections-trans :
      {s t u : State W A} → SameConnections s t → SameConnections t u → SameConnections s u
  SameConnections-trans a b = record {
    record_kept = SameRecord-trans a.record_kept b.record_kept;
    open_kept = λ other. b.open_kept other ∙ a.open_kept other;
  }

  SameConnections-IsTracked :
      (s t : State W A)
      → SameConnections s t
      → IsTracked is_open s.srv s.world
      → IsTracked is_open t.srv t.world
  SameConnections-IsTracked s t same i = record {
    ascending = subst IsAscending (sym r.same_fds) i.ascending;
    counted = r.same_count ∙ i.counted ∙ ap (λ fds. pos (length fds)) (sym r.same_fds);
    tracked = λ fd m.
        let (is, valid) = i.tracked fd (ap (has_fd fd) (sym r.same_fds) ∙ m) in
        (same.open_kept fd ∙ is, valid);
  }
    where
      r : SameRecord s.srv t.srv
      r = same.record_kept

  echo_all-SameConnections :
      (s : State W A) (fd : ℤ) (items : List (List ℕ)) → SameConnections s (echo_all k s fd items)
  unfolding echo_all
  echo_all-SameConnections s fd [] = record {
    record_kept = SameRecord-refl s.srv;
    open_kept = λ other. refl;
  }
  echo_all-SameConnections s fd (item ∷ items) =
      let r = Io.write k s.srv s.world fd item in
      SameConnections-trans
        (record {
          record_kept = write-SameRecord k s.srv s.world fd item;
          open_kept = λ other.
              write-keeps k (λ w. is_open w other) (opens.write_keeps other) s.srv s.world fd item;
        })
        (echo_all-SameConnections (record s { srv = r.srv; world = r.world }) fd items)

  pub echo-SameConnections :
      (fuel size : ℕ) (s : State W A) (fd : ℤ)
      → SameConnections s (echo k s fd (Io.read k fuel s.srv s.world fd size))
  unfolding echo Io.read Io.read_result
  echo-SameConnections fuel size s fd = elim (Option-cases (Io.read_loop k fuel s.world fd size)) [
    | inl e ↦ rw e (record { record_kept = SameRecord-refl s.srv; open_kept = λ other. refl })
    | inr ((w', bs, errno), e) ↦ rw e (
        SameConnections-trans
          (record {
            record_kept = set_io-SameRecord s.srv fd;
            open_kept = λ other. rw e at (
                read_loop-Keeps k (λ w. is_open w other) (opens.read_keeps other) fuel s.world fd
                  size);
          })
          (echo_all-SameConnections _ fd bs))
  ]

  SameConnections-KeepsOthers :
      (s t : State W A) (fd : ℤ) → SameConnections s t → KeepsOthers s.srv fd t.srv
  SameConnections-KeepsOthers s t fd same = record {
    same_listen_sock = same.record_kept.same_listen_sock;
    others_stay = λ other ne m. ap (has_fd other) same.record_kept.same_fds ∙ m;
  }

  answer-IsTracked :
      (fuel : W → ℕ) (s : State W A) (fd : ℤ) (job : JobType)
      → (job ≡ socket_is_closed) ⊎ (has_fd fd s.srv.incoming_conn_fd ≡ true)
      → IsTracked is_open s.srv s.world
      → let t = answer k fuel s fd job in IsTracked is_open t.srv t.world
  unfolding answer
  answer-IsTracked fuel s fd close_socket (inl e) t = cc e
  answer-IsTracked fuel s fd close_socket (inr m) t =
      (close-Closes k is_open laws s.srv s.world fd t m).still
  answer-IsTracked fuel s fd available_for_read can t =
      SameConnections-IsTracked s _ (echo-SameConnections (fuel s.world) buffer_size s fd) t
  answer-IsTracked fuel s fd available_for_write can t = t
  answer-IsTracked fuel s fd new_socket can t = t
  answer-IsTracked fuel s fd available_for_read_and_write can t = t
  answer-IsTracked fuel s fd socket_is_closed can t = t

  answer-KeepsOthers :
      (fuel : W → ℕ) (s : State W A) (fd : ℤ) (job : JobType)
      → KeepsOthers s.srv fd (answer k fuel s fd job).srv
  unfolding answer
  answer-KeepsOthers fuel s fd close_socket = close-KeepsOthers k s.srv s.world fd
  answer-KeepsOthers fuel s fd available_for_read =
      SameConnections-KeepsOthers s _ fd (echo-SameConnections (fuel s.world) buffer_size s fd)
  answer-KeepsOthers fuel s fd available_for_write = KeepsOthers-refl s.srv fd
  answer-KeepsOthers fuel s fd new_socket = KeepsOthers-refl s.srv fd
  answer-KeepsOthers fuel s fd available_for_read_and_write = KeepsOthers-refl s.srv fd
  answer-KeepsOthers fuel s fd socket_is_closed = KeepsOthers-refl s.srv fd

  -- A server with `my_listener` that handles all events of one call, each of a descriptor that it
  -- knows and none of the same descriptor twice, has a right record of its connections afterwards,
  -- unless an exception was thrown.
  echo_server-IsTracked :
      (fuel : W → ℕ) (s : State W A) (evs : List EpollEvent)
      → AllKnown s.srv evs
      → AreDistinct evs
      → IsTracked is_open s.srv s.world
      → (handle_events k (my_listener k fuel) s evs).1 ≡ none
      → let t = (handle_events k (my_listener k fuel) s evs).0 in IsTracked is_open t.srv t.world
  unfolding my_listener
  echo_server-IsTracked fuel s evs known distinct t ok =
      handle_events-IsTracked k is_open laws (my_listener k fuel)
        (λ s ev. answer-KeepsOthers fuel s ev.fd ev.job)
        (λ s ev can t. answer-IsTracked fuel s ev.fd ev.job can t) s evs known distinct t ok
