-- ===== src/Tests/Sim.antt =====
-- A small system to run the models on. A write takes as many bytes as the next entry of `accepts`
-- allows, and fails with EAGAIN when there is none; a read takes from `inbox`.
use nonblocking_unix_socket.Base.{
  some, ℕ, suc, ◌+◌, ◌≤◌, ◌≡◌, ◌≢◌, ◌⊎◌, inl, inr, refl, Bool, true, false, List, [], ◌∷◌, ◌++◌,
  none, ℤ, pos, minus_one, ◌==ℤ◌, ltb_ℤ, ◌&&◌, ==ℤ_refl, ne→==ℤ, leb, length, take, drop,
  length-append, take-append-drop, ap, sym, ◌∙◌, subst, zero, if◌then◌else◌, arith,
}
use nonblocking_unix_socket.Kernel.{
  Kernel, Sys, SysRead, WriteLaws, ReadLaws, FdLaws, FcntlLaws, FailsOnlyWhenFull, WakeLaws, has,
  eagain, o_nonblock,
}
use nonblocking_unix_socket.Server.{Server}
use nonblocking_unix_socket.Server.Restart.{ClosesWell}

pub record World : Type 0 where
  pub sent : ℤ → List ℕ
  pub got : ℤ → List ℕ
  pub accepts : List ℕ
  pub inbox : List ℕ
  pub is_open : ℤ → Bool
  pub next_fd : ℕ
  pub mode : ℤ → Bool

abbrev pub update {ℓ} : {A : Type ℓ} → (ℤ → A) → ℤ → A → ℤ → A
update f fd a other = if fd ==ℤ other then a else f other

abbrev pub min_of : ℕ → ℕ → ℕ
min_of a b = if leb a b then a else b

abbrev pub write_with : World → ℤ → List ℕ → List ℕ → Sys World
write_with w fd p [] = record { world = w; c = minus_one; errno = eagain }
write_with w fd p (n ∷ ns) =
    let m = min_of n (length p) in
    record {
      world = record w { sent = update w.sent fd (w.sent fd ++ take m p); accepts = ns };
      c = pos m;
      errno = 0;
    }

abbrev pub read_with : World → ℤ → ℕ → List ℕ → SysRead World
read_with w fd n [] = record { world = w; c = minus_one; errno = eagain; bytes = [] }
read_with w fd n (b ∷ bs) =
    let taken = take n (b ∷ bs) in
    record {
      world = record w { got = update w.got fd (w.got fd ++ taken); inbox = drop n (b ∷ bs) };
      c = pos (length taken);
      errno = 0;
      bytes = taken;
    }

abbrev pub accept_with : World → Bool → Sys World
accept_with w true = record { world = w; c = minus_one; errno = eagain }
accept_with w false = record {
  world = record w { is_open = update w.is_open (pos w.next_fd) true; next_fd = suc w.next_fd };
  c = pos w.next_fd;
  errno = 0;
}

abbrev pub done : World → Sys World
done w = record { world = w; c = pos 0; errno = 0 }

abbrev pub sim : Kernel World
sim = record {
  sys_write = λ w fd p. write_with w fd p w.accepts;
  sys_read = λ w fd n. read_with w fd n w.inbox;
  sys_close = λ w fd. done (record w { is_open = update w.is_open fd false });
  sys_getfl =
      λ w fd. record { world = w; c = pos (if w.mode fd then o_nonblock else 0); errno = 0 };
  sys_setfl = λ w fd flags. done (record w { mode = update w.mode fd (has flags o_nonblock) });
  sys_getsockopt = λ w fd option. record { world = w; c = pos 0; errno = 0; value = pos 4096 };
  sys_setsockopt = λ w fd option value. done w;
  sys_getsockopt_at =
      λ w fd level option. record { world = w; c = pos 0; errno = 0; value = pos 1 };
  sys_setsockopt_at = λ w fd level option value. done w;
  sys_listen = λ w fd backlog. done w;
  sys_accept4 = λ w fd. accept_with w (w.is_open (pos w.next_fd));
  sys_epoll_create1 = λ w. accept_with w (w.is_open (pos w.next_fd));
  sys_epoll_add = λ w e fd events. done w;
  sys_epoll_del = λ w e fd. done w;
  sys_epoll_wait = λ w e n. record { world = w; c = pos 0; errno = 0; ready = [] };
  sys_pipe = λ w. record { world = w; c = pos 0; read_end = pos 8; write_end = pos 9 };
  sys_socket = λ w domain type protocol. done w;
  sys_bind = λ w fd addr. done w;
  sys_connect = λ w fd addr. done w;
  sys_unlink = λ w path. done w;
  sys_getaddrinfo = λ w addr port. record { world = w; c = pos 0; addresses = [] };
  sys_gethostbyname = λ w name. (w, none);
  sys_getprotobyname = λ w. (w, some 6);
  sys_nanosleep = λ w ms. w;
}

pub update_here {ℓ} : {A : Type ℓ} (f : ℤ → A) (fd : ℤ) (a : A) → update f fd a fd ≡ a
update_here f fd a = simp (==ℤ_refl fd)

pub update_apart {ℓ} :
    {A : Type ℓ} (f : ℤ → A) (fd other : ℤ) (a : A) → fd ≢ other → update f fd a other ≡ f other
update_apart f fd other a ne = simp (ne→==ℤ fd other ne)

min_of-le : (a b : ℕ) → min_of a b ≤ b
min_of-le a b = ground arith

write_with-takes :
    (w : World) (fd : ℤ) (p ns : List ℕ)
    → let r = write_with w fd p ns in
      ((r.c ≡ minus_one) × (r.world.sent fd ≡ w.sent fd))
      ⊎ ((n : ℕ) × (n ≤ length p) × (r.c ≡ pos n) × (r.world.sent fd ≡ w.sent fd ++ take n p))
write_with-takes w fd p [] = inl (refl, refl)
write_with-takes w fd p (n ∷ ns) =
    inr (min_of n (length p), min_of-le n (length p), refl, update_here w.sent fd _)

write_with-apart :
    (w : World) (fd other : ℤ) (p ns : List ℕ)
    → fd ≢ other
    → (write_with w fd p ns).world.sent other ≡ w.sent other
write_with-apart w fd other p [] ne = refl
write_with-apart w fd other p (n ∷ ns) ne = update_apart w.sent fd other _ ne

pub sim-WriteLaws : WriteLaws sim (λ w. w.sent)
sim-WriteLaws = record {
  write_takes = λ w fd p. write_with-takes w fd p w.accepts;
  write_apart = λ w fd other p ne. write_with-apart w fd other p w.accepts ne;
}

fails_full :
    (w : World) (fd : ℤ) (p ns : List ℕ)
    → (write_with w fd p ns).c ≡ minus_one
    → (write_with w fd p ns).errno ≡ eagain
fails_full w fd p [] e = refl
fails_full w fd p (n ∷ ns) e = cc e

pub sim-FailsOnlyWhenFull : FailsOnlyWhenFull sim
sim-FailsOnlyWhenFull w fd p e = fails_full w fd p w.accepts e

take_short : (n : ℕ) (xs : List ℕ) → length (take n xs) ≤ n
take_short zero xs = omega arith
take_short (suc n) [] = omega arith
take_short (suc n) (x ∷ xs) = omega (arith, take_short n xs)

pieces : (n : ℕ) (xs : List ℕ) → length xs ≡ length (take n xs) + length (drop n xs)
pieces n xs = ap length (sym (take-append-drop n xs)) ∙ length-append (take n xs) (drop n xs)

read_with-gives :
    (w : World) (fd : ℤ) (n : ℕ) (inbox : List ℕ)
    → let r = read_with w fd n inbox in
      ((r.c ≡ minus_one) × (r.world.got fd ≡ w.got fd))
      ⊎ ((length r.bytes ≤ n)
          × (r.c ≡ pos (length r.bytes))
          × (r.world.got fd ≡ w.got fd ++ r.bytes)
          × (length r.world.inbox + length r.bytes ≤ length inbox))
read_with-gives w fd n [] = inl (refl, refl)
read_with-gives w fd n (b ∷ bs) =
    inr (take_short n (b ∷ bs), refl, update_here w.got fd _, omega (arith, pieces n (b ∷ bs)))

pub sim-ReadLaws : ReadLaws sim (λ w. w.got) (λ w. length w.inbox)
sim-ReadLaws = record { read_gives = λ w fd n. read_with-gives w fd n w.inbox }

pub accept_with-opens :
    (w : World) (b : Bool)
    → w.is_open (pos w.next_fd) ≡ b
    → let r = accept_with w b in
      ((r.c ≡ minus_one) × ((other : ℤ) → r.world.is_open other ≡ w.is_open other))
      ⊎ ((n : ℕ) × (r.c ≡ pos n)
          × (w.is_open (pos n) ≡ false)
          × (r.world.is_open (pos n) ≡ true)
          × ((other : ℤ) → pos n ≢ other → r.world.is_open other ≡ w.is_open other))
accept_with-opens w true e = inl (refl, λ other. refl)
accept_with-opens w false e = inr (
  w.next_fd,
  refl,
  e,
  update_here w.is_open (pos w.next_fd) true,
  λ other ne. update_apart w.is_open (pos w.next_fd) other true ne,
)

pub sim-FdLaws : FdLaws sim (λ w. w.is_open)
sim-FdLaws = record {
  accept_opens = λ w fd. accept_with-opens w (w.is_open (pos w.next_fd)) refl;
  close_closes = λ w fd. update_here w.is_open fd false;
  close_apart = λ w fd other ne. update_apart w.is_open fd other false ne;
  epoll_add_keeps = λ w e fd other events. refl;
}

flags_mode : (b : Bool) → has (if b then o_nonblock else 0) o_nonblock ≡ b
flags_mode true = refl
flags_mode false = refl

write_with-mode :
    (w : World) (fd other : ℤ) (p ns : List ℕ)
    → (write_with w fd p ns).world.mode other ≡ w.mode other
write_with-mode w fd other p [] = refl
write_with-mode w fd other p (n ∷ ns) = refl

pub sim-FcntlLaws : FcntlLaws sim (λ w. w.mode)
sim-FcntlLaws = record {
  getfl_reads = λ w fd.
      (λ other. refl, inr ((if w.mode fd then o_nonblock else 0), refl, flags_mode (w.mode fd)));
  setfl_sets = λ w fd n. inr (
    refl,
    update_here w.mode fd (has n o_nonblock),
    λ other ne. update_apart w.mode fd other (has n o_nonblock) ne,
  );
  write_keeps = λ w fd other p. write_with-mode w fd other p w.accepts;
}

pub sim-ClosesWell : ClosesWell sim
sim-ClosesWell w fd e = cc e

-- Two calls that take two bytes each, five bytes to read, descriptors 3 to 5 open.
abbrev pub busy : World
busy = record {
  sent = λ fd. [];
  got = λ fd. [];
  accepts = 2 ∷ 2 ∷ [];
  inbox = 10 ∷ 11 ∷ 12 ∷ 13 ∷ 14 ∷ [];
  is_open = λ fd. ltb_ℤ (pos 2) fd && ltb_ℤ fd (pos 6);
  next_fd = 6;
  mode = λ fd. true;
}

-- A server that listens on 3, with epoll on 4 and a connection on 5.
abbrev pub serving : Server
serving = record {
  listen_sock = pos 3;
  epollfd = pos 4;
  incoming_conn_fd = pos 5 ∷ [];
  stop_server = false;
  is_listening = true;
  pipe_read_fd = pos 8;
  pipe_write_fd = pos 9;
  backlog = 10;
  active_connections = pos 1;
  is_socket_io = λ fd. false;
  use_smart_close = true;
}

-- epoll_wait on the simulated system returns once a byte has been written to the pipe.
abbrev pub any_bytes : List ℕ → Bool
any_bytes [] = false
any_bytes (b ∷ bs) = true

any_append : (bs : List ℕ) (b : ℕ) → any_bytes (bs ++ b ∷ []) ≡ true
any_append [] b = refl
any_append (c ∷ bs) b = refl

one_taken : (bs : List ℕ) (b m : ℕ) → pos m ≡ pos 1 → any_bytes (bs ++ take m (b ∷ [])) ≡ true
one_taken bs b m e =
    let one : m ≡ 1 = cc e in
    subst (λ n. any_bytes (bs ++ take n (b ∷ [])) ≡ true) (sym one) (any_append bs b)

abbrev pub sim_wakes : World → ℤ → Bool
sim_wakes w e = any_bytes (w.sent (pos 9))

abbrev pub SimWatches : World → ℤ → ℤ → ℤ → Type 0
SimWatches w e r p = (r ≡ pos 8) × (p ≡ pos 9)

written_wakes :
    (w : World) (b : ℕ) (accepts : List ℕ)
    → (write_with w (pos 9) (b ∷ []) accepts).c ≡ pos 1
    → any_bytes ((write_with w (pos 9) (b ∷ []) accepts).world.sent (pos 9)) ≡ true
written_wakes w b [] c = cc c
written_wakes w b (n ∷ ns) c = one_taken (w.sent (pos 9)) b (min_of n 1) c

pub sim-WakeLaws : WakeLaws sim sim_wakes SimWatches
sim-WakeLaws = record {
  byte_wakes = λ w e r p b watched.
      subst
        (λ q.
          (write_with w q (b ∷ []) w.accepts).c ≡ pos 1
          → any_bytes ((write_with w q (b ∷ []) w.accepts).world.sent (pos 9)) ≡ true)
        (sym watched.1) (written_wakes w b w.accepts);
}
