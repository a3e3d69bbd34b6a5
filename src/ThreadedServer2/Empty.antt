-- ===== src/ThreadedServer2/Empty.antt =====
-- The write queues of a ThreadedServer2 while all of them are empty: what the methods do then
-- (libnbuss/ThreadedServer2.cpp).
use nonblocking_unix_socket.Base.{
  ℕ, ◌≡◌, refl, sym, subst, inl, inr, false, Bool-cases, List, [], Option, none, some, some_inj, ℤ,
  pos, ltb_ℤ, ◌==ℤ◌, arith, if◌then◌else◌,
}
use nonblocking_unix_socket.Kernel.{Kernel}
use nonblocking_unix_socket.Server.{Server}
use nonblocking_unix_socket.Server.Life as Life
use nonblocking_unix_socket.SocketData.{SocketData, WriteItem, cleanup, release}
use nonblocking_unix_socket.ThreadedServer2.{
  Async, Round, worked, get_socket_data, put_socket_data, mark_ready, lock_data, drain,
  write_or_queue, add_to_write_queue, write, cleanup_data, close_data, close_removed, close, serve,
}

module _ {W B : Type 0} where
  abbrev pub AllEmpty : Async W B → Type 0
  AllEmpty s = (fd : ℤ) → (s.app.internal_socket_data fd).write_queue ≡ []

  -- A change by code that has no access to the queues but through the methods of the class.
  abbrev pub KeepsEmpty : (Async W B → Async W B) → Type 0
  KeepsEmpty f = (s : Async W B) → AllEmpty s → AllEmpty (f s)

  put-AllEmpty :
      (s : Async W B) (fd : ℤ) (sd : SocketData)
      → AllEmpty s
      → sd.write_queue ≡ []
      → AllEmpty (put_socket_data s fd sd)
  unfolding put_socket_data
  put-AllEmpty s fd sd h e other = elim (Bool-cases (fd ==ℤ other)) [
    | inl same ↦ rw same e
    | inr apart ↦ rw apart (h other)
  ]

  pub mark-AllEmpty : (s : Async W B) (fd : ℤ) → AllEmpty s → AllEmpty (mark_ready s fd)
  unfolding mark_ready
  mark-AllEmpty s fd h = h

  pub lock-AllEmpty :
      (wait : ℤ → Async W B → Async W B)
      → ((fd : ℤ) → KeepsEmpty (wait fd))
      → (s : Async W B) (fd : ℤ) → AllEmpty s
      → AllEmpty (lock_data wait s fd)
  unfolding lock_data
  lock-AllEmpty wait waits s fd h = put-AllEmpty _ fd _ waited (waited fd)
    where
      waited :
          AllEmpty (if ltb_ℤ (pos 0) (s.app.internal_socket_data fd).uses then wait fd s else s)
      waited = elim (Bool-cases (ltb_ℤ (pos 0) (s.app.internal_socket_data fd).uses)) [
        | inl e ↦ rw e (waits fd s h)
        | inr e ↦ rw e h
      ]

pub worked_inj :
    {W B : Type 0} {s t : Async W B} → ◌≡◌ {A = Round W B} (worked s) (worked t) → s ≡ t
worked_inj e = cc e

module _ {W B : Type 0} (k : Kernel W) where
  write_or_queue-AllEmpty :
      (s : Async W B) (fd : ℤ) (p : List ℕ)
      → AllEmpty s
      → AllEmpty (write_or_queue k [] s fd p).state
  unfolding write_or_queue add_to_write_queue
  write_or_queue-AllEmpty s fd p h other = ground (arith, h other)

  pub write-AllEmpty :
      (s : Async W B) (fd : ℤ) (p : List ℕ) → AllEmpty s → AllEmpty (write k s fd p).state
  unfolding write get_socket_data
  write-AllEmpty s fd p h =
      subst (λ q. AllEmpty (write_or_queue k q s fd p).state) (sym (h fd))
        (write_or_queue-AllEmpty s fd p h)

module _ {W B : Type 0} (k : Kernel W) (wait : ℤ → Async W B → Async W B)
    (waits : (fd : ℤ) → KeepsEmpty (wait fd)) where
  cleaned-AllEmpty :
      (t : Async W B) (fd : ℤ)
      → AllEmpty t
      → AllEmpty (put_socket_data t fd (cleanup (t.app.internal_socket_data fd)))
  unfolding cleanup
  cleaned-AllEmpty t fd h = put-AllEmpty t fd _ h refl

  released-AllEmpty :
      (t : Async W B) (fd : ℤ) (sd : SocketData)
      → AllEmpty t
      → sd.write_queue ≡ []
      → AllEmpty (put_socket_data t fd (release sd))
  unfolding release
  released-AllEmpty t fd sd h e = put-AllEmpty t fd _ h e

  pub cleanup-AllEmpty : (s : Async W B) (fd : ℤ) → AllEmpty s → AllEmpty (cleanup_data k wait s fd)
  unfolding cleanup_data
  cleanup-AllEmpty s fd h = released-AllEmpty u fd (u.app.internal_socket_data fd) empty (empty fd)
    where
      t : Async W B
      t = lock_data wait s fd

      u : Async W B
      u = put_socket_data t fd (cleanup (t.app.internal_socket_data fd))

      empty : AllEmpty u
      empty = cleaned-AllEmpty t fd (lock-AllEmpty wait waits s fd h)

  close_data-AllEmpty : (s : Async W B) (fd : ℤ) → AllEmpty s → AllEmpty (close_data k wait s fd)
  unfolding close_data
  close_data-AllEmpty s fd h =
      let c = Life.close k u.srv u.world fd in
      released-AllEmpty (record u { srv = c.0; world = c.1 }) fd (u.app.internal_socket_data fd)
        empty (empty fd)
    where
      t : Async W B
      t = lock_data wait s fd

      u : Async W B
      u = put_socket_data t fd (cleanup (t.app.internal_socket_data fd))

      empty : AllEmpty u
      empty = cleaned-AllEmpty t fd (lock-AllEmpty wait waits s fd h)

  pub close-AllEmpty :
      (s t : Async W B) (fd : ℤ) → close k wait s fd ≡ some t → AllEmpty s → AllEmpty t
  unfolding close close_removed
  close-AllEmpty s t fd e h = go (Life.remove_from_epoll k s.srv s.world fd false) e
    where
      go : (o : Option (Life.Removed W)) → close_removed k wait s fd o ≡ some t → AllEmpty t
      go none n = cc n
      go (some r) n =
          subst AllEmpty (some_inj n) (close_data-AllEmpty (record s { world = r.world }) fd h)

  drain_nothing :
      (s : Server) (w : W) (fd : ℤ) (q : List WriteItem)
      → q ≡ []
      → drain k s w fd q ≡ record { srv = s; world = w; ret = pos 0; write_queue = [] }
  unfolding drain
  drain_nothing s w fd q e = rw (e, drain) refl

  -- With nothing to write the writing thread leaves the server and the system as they are.
  pub serve_idle :
      (s : Async W B) (fd : ℤ)
      → AllEmpty s
      → let t = lock_data wait s fd in
        (AllEmpty (serve k wait s fd))
        × ((serve k wait s fd).srv ≡ t.srv)
        × ((serve k wait s fd).world ≡ t.world)
  unfolding serve
  serve_idle s fd h = rw (drain_nothing _ _ fd _ (locked fd)) (
    released-AllEmpty _ fd _ locked refl,
    unfold put_socket_data in refl,
    unfold put_socket_data in refl,
  )
    where
      locked : AllEmpty (lock_data wait s fd)
      locked = lock-AllEmpty wait waits s fd h
