-- ===== src/ThreadedServer/Restart.antt =====
-- A second start of a ThreadedServer (libnbuss/ThreadedServer.cpp).
use nonblocking_unix_socket.Base.{
  ◌≡◌, ◌≢◌, ◌⊎◌, refl, ◌∙◌, ap, inl, inr, true, false, Bool-cases, List, ◌∷◌, Option, none, some,
  ltb_ℤ, pos, subst, sym, some_inj, ℤ, Bool, [],
}
use nonblocking_unix_socket.Kernel.{Kernel, WakeLaws}
use nonblocking_unix_socket.Server.{State, Callback, make_server}
use nonblocking_unix_socket.Server.Life as Life
use nonblocking_unix_socket.Server.Restart.{ClosesWell, Place, listener, terminate-IsStopped}
use nonblocking_unix_socket.ThreadedServer.{
  ThreadedServer, Call, finished, threw, aborted, blocked, make_threaded, built_on, wait_ready,
  start, thread_end, listen_worker, joined, stop,
}

-- What a call leaves where the process goes on.
abbrev pub left_by : {W A : Type 0} → Call W A → Option (ThreadedServer W A)
left_by (finished t) = some t
left_by (threw t) = some t
left_by aborted = none
left_by (blocked t) = some t

module _ {W A : Type 0} (k : Kernel W) where
  -- A step: a thread calls `start` or `stop`, or the server that is run changes.
  pub data Step (s t : ThreadedServer W A) : Type 0 where
    starts :
        (others : State W A → State W A) (callback : Callback W A)
        → left_by (start others s callback) ≡ some t
        → Step s t
    stops : (others : State W A → State W A) → left_by (stop k others s) ≡ some t → Step s t
    runs : (change : State W A → State W A) → t ≡ record s { inner = change s.inner } → Step s t

  pub data Reach (s : ThreadedServer W A) : ThreadedServer W A → Type 0 where
    here : Reach s s
    next : {t u : ThreadedServer W A} → Reach s t → Step t u → Reach s u

  -- No call sets the flag.
  abbrev Keeps : ThreadedServer W A → Option (ThreadedServer W A) → Type 0
  Keeps s none = Unit
  Keeps s (some t) = t.base.is_listening ≡ s.base.is_listening

  start-Keeps :
      (others : State W A → State W A) (s : ThreadedServer W A) (callback : Callback W A)
      → Keeps s (left_by (start others s callback))
  unfolding start wait_ready Life.wait_for_server_ready
  start-Keeps others s callback = elim (Bool-cases s.base.is_listening) [
    | inl e ↦ rw e refl
    | inr e ↦ elim (Bool-cases s.joinable) [
      | inl f ↦ rw (e, f) tt
      | inr f ↦ elim (Bool-cases (others s.inner).srv.is_listening) [
        | inl g ↦ rw (e, f, g) refl
        | inr g ↦ rw (e, f, g) refl
      ]
    ]
  ]

  joined-Keeps :
      (s : ThreadedServer W A) (o : Option (State W A)) → Keeps s (left_by (joined k s o))
  unfolding joined
  joined-Keeps s none = refl
  joined-Keeps s (some t) = elim (Bool-cases s.joinable) [ inl e ↦ rw e refl | inr e ↦ rw e refl ]

  stop-Keeps :
      (others : State W A → State W A) (s : ThreadedServer W A)
      → Keeps s (left_by (stop k others s))
  unfolding stop
  stop-Keeps others s = joined-Keeps s (Life.terminate k others s.inner)

  Reach-quiet : {s t : ThreadedServer W A} → Reach s t → t.base.is_listening ≡ s.base.is_listening
  Reach-quiet here = refl
  Reach-quiet (next {t} r (starts others callback e)) =
      subst (Keeps t) e (start-Keeps others t callback) ∙ Reach-quiet r
  Reach-quiet (next {t} r (stops others e)) =
      subst (Keeps t) e (stop-Keeps others t) ∙ Reach-quiet r
  Reach-quiet (next r (runs change e)) = ap (λ u. u.base.is_listening) e ∙ Reach-quiet r

  never_threw :
      (others : State W A → State W A) (t : ThreadedServer W A) (callback : Callback W A)
      → t.base.is_listening ≡ false
      → start others t callback ≢ threw t
  unfolding start wait_ready Life.wait_for_server_ready
  never_threw others t callback quiet e = elim (Bool-cases t.joinable) [
    | inl f ↦ cc (rw (quiet, f) at e)
    | inr f ↦ elim (Bool-cases (others t.inner).srv.is_listening) [
      | inl g ↦ cc (rw (quiet, f, g) at e)
      | inr g ↦ cc (rw (quiet, f, g) at e)
    ]
  ]

  -- In every state that a ThreadedServer reaches from its constructor by calls of start and stop
  -- and by changes of the server it runs, start does not throw, and either the thread has been
  -- joined or never started, or start ends the process.
  start_twice :
      (inner : State W A) (first : ThreadedServer W A) {t : ThreadedServer W A}
      (others : State W A → State W A) (callback : Callback W A)
      → make_threaded k inner ≡ some first
      → Reach first t
      → (start others t callback ≢ threw t)
        × ((t.joinable ≡ false) ⊎ (start others t callback ≡ aborted))
  unfolding start make_threaded built_on make_server wait_ready Life.wait_for_server_ready
  start_twice inner first {t} others callback made r =
      let quiet : t.base.is_listening ≡ false =
        Reach-quiet r ∙ ap (λ u. u.base.is_listening) (sym (some_inj made)) in
      (
        λ e. never_threw others t callback quiet e,
        elim (Bool-cases t.joinable) [ inl e ↦ inr (rw (quiet, e) refl) | inr e ↦ inl e ],
      )

  -- Where close(2) succeeds, stop returns on a ThreadedServer whose thread has been started and
  -- whose server listens on a valid socket, where the listening thread is at the head of its loop
  -- or in an epoll_wait that returns only when it has a reason to, epoll watches the pipe and the
  -- byte that terminate writes to it is taken: there is no further call of the callback, the
  -- thread is joined, and a thread that is started on the server afterwards ends the process.
  pub restart_aborts :
      (wakes : W → ℤ → Bool) (Watches : W → ℤ → ℤ → ℤ → Type 0)
      → WakeLaws k wakes Watches
      → (place : Place) (s : ThreadedServer W A) (callback : Callback W A)
        (o : State W A → State W A) (rounds : List (State W A → State W A))
      → ClosesWell k
      → s.joinable ≡ true
      → s.inner.srv.is_listening ≡ true
      → ltb_ℤ s.inner.srv.listen_sock (pos 0) ≡ false
      → Watches s.inner.world s.inner.srv.epollfd s.inner.srv.pipe_read_fd s.inner.srv.pipe_write_fd
      → (k.sys_write s.inner.world s.inner.srv.pipe_write_fd (b'.' ∷ [])).c ≡ pos 1
      → (t : ThreadedServer W A) × (stop k (listener k callback wakes place (o ∷ rounds)) s
          ≡ finished t)
        × (t.joinable ≡ false)
        × (t.inner.app ≡ s.inner.app)
        × ((rounds' : List (State W A → State W A)) → listen_worker k rounds' t callback ≡ aborted)
  unfolding stop joined listen_worker thread_end
  restart_aborts wakes Watches laws place s callback o rounds well join on valid watched written =
      let (t, e, app, stopped) =
        terminate-IsStopped k callback wakes Watches laws place o rounds s.inner well on valid
          watched written in
      (
        record s { joinable = false; inner = t },
        ap (joined k s) e ∙ rw join refl,
        refl,
        app,
        λ rounds'. rw (stopped.unusable rounds') refl,
      )
