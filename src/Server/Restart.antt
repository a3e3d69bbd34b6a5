-- ===== src/Server/Restart.antt =====
-- What IGenericServer::terminate leaves, and what a second IGenericServer::listen does then
-- (libnbuss/IGenericServer.cpp).
use nonblocking_unix_socket.Base.{
  ◌≡◌, ◌≢◌, refl, true, false, List, [], ◌∷◌, some, ℤ, pos, minus_one, ltb_ℤ, ne→==ℤ, ap, ◌∙◌, Bool,
  if◌then◌else◌,
}
use nonblocking_unix_socket.Kernel.{Kernel, WakeLaws}
use nonblocking_unix_socket.Descriptor.{close_descriptor}
use nonblocking_unix_socket.Server.{State, Callback}
use nonblocking_unix_socket.Server.Life.{close_sockets, terminate, request_stop, restore}
use nonblocking_unix_socket.Server.Listen.{
  Outcome, running, returned, threw, not_open, listen, listen_loop, await, clean_up, max_events,
}

-- close(2) does not fail.
abbrev pub ClosesWell : {W : Type 0} → Kernel W → Type 0
ClosesWell {W} k = (w : W) (fd : ℤ) → (k.sys_close w fd).c ≢ minus_one

-- Where the listening thread is.
pub data Place : Type 0 where
  testing asleep : Place

module _ {W A : Type 0} (k : Kernel W) (callback : Callback W A) where
  abbrev pub state_of : Outcome W A → State W A
  state_of (running s) = s
  state_of (returned s) = s
  state_of (threw s e) = s

  -- What the listening thread does from where it is: it tests `stop_server` at the head of its
  -- loop, or it is in `epoll_wait`, which does not return before it has a reason to.
  abbrev pub listener :
      (W → ℤ → Bool) → Place → List (State W A → State W A) → State W A → State W A
  listener wakes testing rounds s = state_of (clean_up k callback (listen_loop k callback rounds s))
  listener wakes asleep rounds s =
      if wakes s.world s.srv.epollfd
      then state_of
          (clean_up k callback (await k callback (λ t. t) (λ t. listen_loop k callback rounds t) s))
      else s

  stopped_loop :
      (o : State W A → State W A) (rounds : List (State W A → State W A)) (s : State W A)
      → s.srv.stop_server ≡ true
      → listen_loop k callback (o ∷ rounds) s ≡ returned s
  unfolding listen_loop
  stopped_loop o rounds s h = simp h

  stopped_await :
      (continue : State W A → Outcome W A) (s : State W A)
      → s.srv.stop_server ≡ true
      → await k callback (λ t. t) continue s
        ≡ returned (record s { world = (k.sys_epoll_wait s.world s.srv.epollfd max_events).world })
  unfolding await
  stopped_await continue s h = rw h refl

  pub listen_not_open :
      (rounds : List (State W A → State W A)) (s : State W A)
      → s.srv.listen_sock ≡ minus_one
      → listen k callback rounds s ≡ threw s not_open
  unfolding listen
  listen_not_open rounds s e = simp e

  descriptor_reset :
      (w : W) (fd : ℤ)
      → ClosesWell k
      → ltb_ℤ fd (pos 0) ≡ false
      → (close_descriptor k w fd).fd ≡ minus_one
  unfolding close_descriptor
  descriptor_reset w fd well h = simp (h, ne→==ℤ (k.sys_close w fd).c minus_one (well w fd))

  -- What the stopped server is like.
  pub record IsStopped (s : State W A) : Type 0 where
    pub may_run : s.srv.stop_server ≡ false
    pub silent : s.srv.is_listening ≡ false
    pub empty : s.srv.incoming_conn_fd ≡ []
    pub closed : s.srv.listen_sock ≡ minus_one
    pub unusable :
        (rounds : List (State W A → State W A)) → listen k callback rounds s ≡ threw s not_open

  -- The listening thread has been told to stop, and does so.
  record StopsAt (asked t : State W A) : Type 0 where
    left : State W A
    leaves : t ≡ state_of (clean_up k callback (returned left))
    same_srv : left.srv ≡ asked.srv
    same_app : left.app ≡ asked.app

  told-StopsAt :
      (wakes : W → ℤ → Bool) (place : Place) (o : State W A → State W A)
      (rounds : List (State W A → State W A)) (s : State W A)
      → s.srv.stop_server ≡ true
      → wakes s.world s.srv.epollfd ≡ true
      → StopsAt s (listener wakes place (o ∷ rounds) s)
  told-StopsAt wakes testing o rounds s h awake = record {
    left = s;
    leaves = ap (λ x. state_of (clean_up k callback x)) (stopped_loop o rounds s h);
    same_srv = refl;
    same_app = refl;
  }
  told-StopsAt wakes asleep o rounds s h awake = record {
    left = record s { world = (k.sys_epoll_wait s.world s.srv.epollfd max_events).world };
    leaves = rw awake (ap (λ x. state_of (clean_up k callback x)) (stopped_await _ s h));
    same_srv = refl;
    same_app = refl;
  }

  stopping-IsStopped :
      (others : State W A → State W A) (s : State W A)
      → ClosesWell k
      → s.srv.is_listening ≡ true
      → ltb_ℤ s.srv.listen_sock (pos 0) ≡ false
      → StopsAt (request_stop k s) (others (request_stop k s))
      → (t : State W A) × (terminate k others s ≡ some t) × (t.app ≡ s.app) × IsStopped t
  unfolding terminate request_stop restore clean_up close_sockets
  stopping-IsStopped others s well on valid stops = (
    restore k left,
    rw (stops.leaves, on) refl,
    stops.same_app,
    record {
      may_run = refl;
      silent = refl;
      empty = refl;
      closed = no_socket;
      unusable = λ rounds'. listen_not_open rounds' _ no_socket;
    },
  )
    where
      left : State W A
      left = state_of (clean_up k callback (returned stops.left))

      no_socket : (restore k left).srv.listen_sock ≡ minus_one
      no_socket =
          descriptor_reset _ stops.left.srv.listen_sock well
            (ap (λ v. ltb_ℤ v.listen_sock (pos 0)) stops.same_srv ∙ valid)

  -- terminate returns on a listening server with a valid listening socket, where the listening
  -- thread is at the head of its loop or in an epoll_wait that returns only when it has a reason
  -- to, epoll watches the pipe and the byte that terminate writes to it is taken: the listening
  -- thread ends without a further call of the callback, and where close(2) succeeds, both flags
  -- are reset, no connection and no listening socket is left, and every later listen throws.
  pub terminate-IsStopped :
      (wakes : W → ℤ → Bool) (Watches : W → ℤ → ℤ → ℤ → Type 0)
      → WakeLaws k wakes Watches
      → (place : Place) (o : State W A → State W A) (rounds : List (State W A → State W A))
        (s : State W A)
      → ClosesWell k
      → s.srv.is_listening ≡ true
      → ltb_ℤ s.srv.listen_sock (pos 0) ≡ false
      → Watches s.world s.srv.epollfd s.srv.pipe_read_fd s.srv.pipe_write_fd
      → (k.sys_write s.world s.srv.pipe_write_fd (b'.' ∷ [])).c ≡ pos 1
      → (t : State W A) × (terminate k (listener wakes place (o ∷ rounds)) s ≡ some t)
        × (t.app ≡ s.app)
        × IsStopped t
  terminate-IsStopped wakes Watches laws place o rounds s well on valid watched written =
      stopping-IsStopped (listener wakes place (o ∷ rounds)) s well on valid (
        told-StopsAt wakes place o rounds (request_stop k s) (unfold request_stop in refl)
          (unfold request_stop in laws.byte_wakes _ _ _ _ b'.' watched written))
