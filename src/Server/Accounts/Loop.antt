-- ===== src/Server/Accounts/Loop.antt =====
-- The account of open descriptors across a whole run of IGenericServer::listen
-- (libnbuss/IGenericServer.cpp): the preparation, the loop and the clean-up.
use nonblocking_unix_socket.Base.{
  ◌≡◌, ◌≢◌, ℕ, zero, suc, replicate, refl, sym, ap, ◌∙◌, inl, inr, Bool, true, false, List, [], ◌∷◌,
  Option, none, some, ℤ, pos, minus_one, pos_part, ◌==ℤ◌, ltb_ℤ, ◌==◌, ◌&&◌, take, if_keeps, ==ℤ→eq,
  ==ℤ→ne, Bool-cases, Option-cases, arith,
}
use nonblocking_unix_socket.Kernel.{Kernel, FdLaws, PollLaws, eintr}
use nonblocking_unix_socket.Server.{State, Callback}
use nonblocking_unix_socket.Server.Fds.{has_fd}
use nonblocking_unix_socket.Server.Life.{close_sockets}
use nonblocking_unix_socket.Server.Listen.{
  Error, Outcome, running, returned, threw, epollin, max_events, handle_events, prepare,
  listen_loop, await, clean_up, listen,
}
use nonblocking_unix_socket.Server.Shutdown.{close_sockets-IsDown}
use nonblocking_unix_socket.Server.Accounts.{
  IsAccounted, KeepsAccounts, move-IsAccounted, events-IsAccounted,
}

module _ {W A : Type 0} (k : Kernel W) (is_open : W → ℤ → Bool) (laws : FdLaws k is_open)
    (polls : PollLaws k is_open) (base : ℤ → Bool) (sock : ℤ) where
  abbrev pub HasAccount : State W A → Type 0
  HasAccount s = IsAccounted is_open base sock s.srv s.world

  -- What other threads do keeps the account.
  abbrev pub AllKeepAccounts : List (State W A → State W A) → Type 0
  AllKeepAccounts [] = Unit
  AllKeepAccounts (others ∷ rounds) =
      ((s : State W A) → HasAccount s → HasAccount (others s)) × AllKeepAccounts rounds

  abbrev pub OutcomeAccount : Outcome W A → Type 0
  OutcomeAccount (running s) = HasAccount s
  OutcomeAccount (returned s) = HasAccount s
  OutcomeAccount (threw s e) = HasAccount s

  -- After the two calls that may open a descriptor, and after any that opens none.
  created-Account :
      (s : State W A) (w w' : W)
      → s.srv.listen_sock ≡ sock
      → ((n : ℕ) → is_open w (pos n) ≡ true → base (pos n) ≡ true)
      → ((other : ℤ) → is_open w' other ≡ is_open (k.sys_epoll_create1 w).world other)
      → (listening : Bool)
      → HasAccount (record s {
        srv = record (s.srv) { epollfd = (k.sys_epoll_create1 w).c; is_listening = listening };
        world = w';
      })
  created-Account s w w' at_sock all same listening = elim (polls.epoll_create1_opens w) [
    | inl (c, kept) ↦ record {
      same_sock = at_sock;
      accounted = λ m o. inl (all m (sym (kept (pos m)) ∙ sym (same (pos m)) ∙ o));
    }
    | inr (n, c, fresh, opened, kept) ↦ record {
      same_sock = at_sock;
      accounted = λ m o. elim (Bool-cases (pos m ==ℤ pos n)) [
        | inl e ↦ inr (inr (==ℤ→eq (pos m) (pos n) e ∙ sym c))
        | inr e ↦
            let ne : pos n ≢ pos m = λ p. ==ℤ→ne (pos m) (pos n) e (sym p) in
            inl (all m (sym (kept (pos m) ne) ∙ sym (same (pos m)) ∙ o))
      ];
    }
  ]

  prepare-Account :
      (callback : Callback W A) (s : State W A)
      → s.srv.listen_sock ≡ sock
      → ((n : ℕ) → is_open s.world (pos n) ≡ true → base (pos n) ≡ true)
      → HasAccount (prepare k callback s).0
  unfolding prepare
  prepare-Account callback s at_sock all =
      let l = k.sys_listen s.world s.srv.listen_sock s.srv.backlog in
      let all' : (n : ℕ) → is_open l.world (pos n) ≡ true → base (pos n) ≡ true =
        λ n o. all n (sym (polls.listen_keeps s.world _ (pos n) _) ∙ o) in
      let c = k.sys_epoll_create1 l.world in
      let p = k.sys_epoll_add c.world c.c s.srv.pipe_read_fd epollin in
      let after_p =
        λ (other : ℤ). laws.epoll_add_keeps c.world c.c s.srv.pipe_read_fd other epollin in
      let after_q = λ (other : ℤ).
        laws.epoll_add_keeps p.world c.c s.srv.listen_sock other epollin ∙ after_p other in
      let q = k.sys_epoll_add p.world c.c s.srv.listen_sock epollin in
      let P : State W A × Option Error → Type 0 = λ r. HasAccount r.0 in
      if_keeps P (l.c ==ℤ minus_one)
        (record { same_sock = at_sock; accounted = λ n o. inl (all' n o) })
        (if_keeps P (c.c ==ℤ minus_one) (created-Account s l.world _ at_sock all' (λ other. refl) _)
          (if_keeps P (p.c ==ℤ minus_one) (created-Account s l.world _ at_sock all' after_p _) (
            if_keeps P (q.c ==ℤ minus_one) (created-Account s l.world _ at_sock all' after_q _)
              (created-Account s l.world _ at_sock all' after_q true))))

  module _ (callback : Callback W A) (keeps : KeepsAccounts k is_open laws base sock callback) where
    pub loop-Account :
        (rounds : List (State W A → State W A)) (s : State W A)
        → AllKeepAccounts rounds
        → HasAccount s
        → OutcomeAccount (listen_loop k callback rounds s)
    unfolding listen_loop await
    loop-Account [] s kept a = a
    loop-Account (others ∷ rounds) s kept a =
        let r = k.sys_epoll_wait s.world s.srv.epollfd max_events in
        let s' = others (record s { world = r.world }) in
        let a' : HasAccount s' =
          kept.0 (record s { world = r.world })
            (move-IsAccounted k is_open laws base sock s.srv s.world r.world
              (λ other. polls.epoll_wait_keeps s.world s.srv.epollfd other max_events) a) in
        let evs = take (pos_part r.c) r.ready in
        let handled = handle_events k callback s' evs in
        let b : HasAccount handled.0 =
          events-IsAccounted k is_open laws base sock callback keeps s' evs a' in
        let last : OutcomeAccount (elim handled.1 as (λ x. Outcome W A) [
          | none ↦ listen_loop k callback rounds handled.0
          | some x ↦ threw handled.0 x
        ]) =
          elim (Option-cases handled.1) [
            | inl fine ↦ rw fine (loop-Account rounds handled.0 kept.1 b)
            | inr (e, thrown) ↦ rw thrown b
          ] in
        if_keeps OutcomeAccount s.srv.stop_server a (
          if_keeps OutcomeAccount s'.srv.stop_server a' (
            if_keeps OutcomeAccount (r.c ==ℤ minus_one && r.errno == eintr)
              (loop-Account rounds s' kept.1 a')
              (if_keeps OutcomeAccount (r.c ==ℤ minus_one) a' last)))

  -- What is open at the end was open at the beginning, and is not the listening socket.
  abbrev pub EndsWith : State W A → Type 0
  EndsWith s = (n : ℕ) → is_open s.world (pos n) ≡ true → (base (pos n) ≡ true) × (pos n ≢ sock)

  abbrev pub LeaksNothing : Outcome W A → Type 0
  LeaksNothing (running s) = HasAccount s
  LeaksNothing (returned s) = EndsWith s
  LeaksNothing (threw s e) = EndsWith s

  pub close_sockets-Ends :
      (s : State W A)
      → HasAccount s
      → let (srv', w) = close_sockets k s.srv s.world in
        EndsWith (record s { srv = srv'; world = w })
  close_sockets-Ends s a n o =
      let d = close_sockets-IsDown k is_open laws s.srv s.world in
      let valid : ltb_ℤ (pos n) (pos 0) ≡ false = ground arith in
      let not_sock : s.srv.listen_sock ≢ pos n =
        λ e. cc (d.listen_shut (ap (λ fd. ltb_ℤ fd (pos 0)) e ∙ valid), e, o) in
      let not_epoll : s.srv.epollfd ≢ pos n =
        λ e. cc (d.epoll_shut (ap (λ fd. ltb_ℤ fd (pos 0)) e ∙ valid), e, o) in
      let not_in : has_fd (pos n) s.srv.incoming_conn_fd ≡ false =
        elim (Bool-cases (has_fd (pos n) s.srv.incoming_conn_fd)) [
          | inl m ↦ cc (d.connections_shut (pos n) m, o)
          | inr m ↦ m
        ] in
      let before : is_open s.world (pos n) ≡ true =
        sym (d.others_stay (pos n) not_in not_epoll not_sock) ∙ o in
      let here : base (pos n) ≡ true = elim (a.accounted n before) [
        | inl h ↦ h
        | inr (inl m) ↦ cc (m, not_in)
        | inr (inr e) ↦ absurd (not_epoll (sym e))
      ] in
      (here, λ e. not_sock (a.same_sock ∙ sym e))

  clean_up-LeaksNothing :
      (callback : Callback W A) (o : Outcome W A)
      → OutcomeAccount o
      → LeaksNothing (clean_up k callback o)
  unfolding clean_up
  clean_up-LeaksNothing callback (running s) a = a
  clean_up-LeaksNothing callback (returned s) a = close_sockets-Ends s a
  clean_up-LeaksNothing callback (threw s e) a = close_sockets-Ends s a

module _ {W A : Type 0} (k : Kernel W) (is_open : W → ℤ → Bool) (laws : FdLaws k is_open)
    (polls : PollLaws k is_open) where
  -- Where the callback and the other threads leave nothing open but what was open before listen,
  -- the connections of the set and the epoll descriptor, that holds all the while; and however
  -- listen leaves, by a return or by any of its exceptions, what is open then was open before and
  -- is not the listening socket.
  pub listen-LeaksNothing :
      (callback : Callback W A) (rounds : List (State W A → State W A)) (s : State W A)
      → KeepsAccounts k is_open laws (is_open s.world) s.srv.listen_sock callback
      → AllKeepAccounts k is_open laws polls (is_open s.world) s.srv.listen_sock rounds
      → LeaksNothing k is_open laws polls
          (is_open s.world)
          s.srv.listen_sock
          (listen k callback rounds s)
  unfolding listen
  listen-LeaksNothing callback rounds s keeps kept = elim (Bool-cases (sock ==ℤ minus_one)) [
    | inl e ↦ rw e (λ n o. (o, λ p. cc (p ∙ ==ℤ→eq sock minus_one e)))
    | inr e ↦ rw e (elim (Option-cases p.1) [
      | inl fine ↦ rw fine (
          clean_up-LeaksNothing k is_open laws polls base sock callback _
            (loop-Account k is_open laws polls base sock callback keeps rounds p.0 kept a))
      | inr (x, thrown) ↦
          rw thrown (clean_up-LeaksNothing k is_open laws polls base sock callback (threw p.0 x) a)
    ])
  ]
    where
      sock : ℤ
      sock = s.srv.listen_sock

      base : ℤ → Bool
      base = is_open s.world

      cleared : State W A
      cleared = record s { srv = record (s.srv) { incoming_conn_fd = [] } }

      p : State W A × Option Error
      p = prepare k callback cleared

      a : HasAccount k is_open laws polls base sock p.0
      a = prepare-Account k is_open laws polls base sock callback cleared refl (λ n o. o)

-- Where no other thread is there.
pub idle-AllKeepAccounts :
    {W : Type 0} (A : Type 0) (k : Kernel W) (is_open : W → ℤ → Bool) (laws : FdLaws k is_open)
    (polls : PollLaws k is_open) (base : ℤ → Bool) (sock : ℤ) (n : ℕ)
    → AllKeepAccounts k is_open laws polls base sock (replicate n (λ (s : State W A). s))
idle-AllKeepAccounts A k is_open laws polls base sock zero = tt
idle-AllKeepAccounts A k is_open laws polls base sock (suc n) =
    (λ s a. a, idle-AllKeepAccounts A k is_open laws polls base sock n)
