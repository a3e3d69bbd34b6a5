-- ===== src/Server/Shutdown.antt =====
-- How a server ends: IGenericServer::closeSockets, the ways out of listen, and terminate
-- (libnbuss/IGenericServer.cpp).
use nonblocking_unix_socket.Base.{
  ◌≡◌, ◌≢◌, refl, ◌∙◌, ◌⊎◌, inl, inr, Bool, true, false, List, [], ◌∷◌, ℤ, pos, minus_one, ◌==ℤ◌,
  ltb_ℤ, ==ℤ→eq, ==ℤ→ne, ne→==ℤ, ==ℤ_refl, Bool-cases, arith,
}
use nonblocking_unix_socket.Kernel.{Kernel, FdLaws}
use nonblocking_unix_socket.Descriptor.{close_descriptor}
use nonblocking_unix_socket.Server.{Server, State, Callback}
use nonblocking_unix_socket.Server.Fds.{has_fd}
use nonblocking_unix_socket.Server.Life.{close_all, close_sockets}
use nonblocking_unix_socket.Server.Listen.{Outcome, running, returned, threw, listen, clean_up}

module _ {W : Type 0} (k : Kernel W) (is_open : W → ℤ → Bool) (laws : FdLaws k is_open) where
  close_apart_false :
      (w : W) (fd other : ℤ)
      → is_open w other ≡ false
      → is_open (k.sys_close w fd).world other ≡ false
  close_apart_false w fd other h = elim (Bool-cases (fd ==ℤ other)) [
    | inl e ↦ rw (==ℤ→eq fd other e) (laws.close_closes w other)
    | inr e ↦ laws.close_apart w fd other (==ℤ→ne fd other e) ∙ h
  ]

  close_all-stays :
      (w : W) (fds : List ℤ) (fd : ℤ)
      → is_open w fd ≡ false
      → is_open (close_all k w fds) fd ≡ false
  unfolding close_all
  close_all-stays w [] fd h = h
  close_all-stays w (x ∷ xs) fd h =
      close_all-stays (k.sys_close w x).world xs fd (close_apart_false w x fd h)

  close_all-shuts :
      (w : W) (fds : List ℤ) (fd : ℤ)
      → has_fd fd fds ≡ true
      → is_open (close_all k w fds) fd ≡ false
  unfolding close_all has_fd
  close_all-shuts w [] fd h = cc
  close_all-shuts w (x ∷ xs) fd h = elim (Bool-cases (fd ==ℤ x)) [
    | inl e ↦
        close_all-stays (k.sys_close w x).world xs fd (rw (==ℤ→eq fd x e) (laws.close_closes w x))
    | inr e ↦ close_all-shuts (k.sys_close w x).world xs fd (ground arith)
  ]

  close_all-apart :
      (w : W) (fds : List ℤ) (fd : ℤ)
      → has_fd fd fds ≡ false
      → is_open (close_all k w fds) fd ≡ is_open w fd
  unfolding close_all has_fd
  close_all-apart w [] fd h = refl
  close_all-apart w (x ∷ xs) fd h =
      close_all-apart (k.sys_close w x).world xs fd (ground arith)
      ∙ laws.close_apart w x fd (λ p. ground (arith, ==ℤ_refl fd))

  -- `FileDescriptor::close` shuts a descriptor that is one, and touches no other.
  descriptor_shuts :
      (w : W) (fd other : ℤ)
      → (fd ≡ other) × (ltb_ℤ fd (pos 0) ≡ false) ⊎ (is_open w other ≡ false)
      → is_open (close_descriptor k w fd).world other ≡ false
  unfolding close_descriptor
  descriptor_shuts w fd other (inl (e, h)) = rw (e, rw e at h) (laws.close_closes w other)
  descriptor_shuts w fd other (inr h) = elim (Bool-cases (ltb_ℤ fd (pos 0))) [
    | inl n ↦ rw n h
    | inr n ↦ rw n (close_apart_false w fd other h)
  ]

  descriptor_apart :
      (w : W) (fd other : ℤ)
      → fd ≢ other
      → is_open (close_descriptor k w fd).world other ≡ is_open w other
  unfolding close_descriptor
  descriptor_apart w fd other ne = elim (Bool-cases (ltb_ℤ fd (pos 0))) [
    | inl n ↦ rw n
    | inr n ↦ rw n (laws.close_apart w fd other ne)
  ]

  -- The server holds no connection and does not listen; all its descriptors are shut, and no
  -- other descriptor is.
  pub record IsDown (s : Server) (w : W) (r : Server × W) : Type 0 where
    pub empty : (r.0).incoming_conn_fd ≡ []
    pub silent : (r.0).is_listening ≡ false
    pub connections_shut : (fd : ℤ) → has_fd fd s.incoming_conn_fd ≡ true → is_open r.1 fd ≡ false
    pub epoll_shut : ltb_ℤ s.epollfd (pos 0) ≡ false → is_open r.1 s.epollfd ≡ false
    pub listen_shut : ltb_ℤ s.listen_sock (pos 0) ≡ false → is_open r.1 s.listen_sock ≡ false
    pub others_stay :
        (fd : ℤ)
        → has_fd fd s.incoming_conn_fd ≡ false
        → s.epollfd ≢ fd
        → s.listen_sock ≢ fd
        → is_open r.1 fd ≡ is_open w fd

  -- closeSockets shuts every connection of the set, the epoll descriptor and the listening socket
  -- where they are not negative, and no other descriptor; the set is empty after it and the server
  -- does not listen.
  pub close_sockets-IsDown : (s : Server) (w : W) → IsDown s w (close_sockets k s w)
  unfolding close_sockets
  close_sockets-IsDown s w =
      let a : W = close_all k w s.incoming_conn_fd in
      let b : W = (close_descriptor k a s.epollfd).world in
      record {
        empty = refl;
        silent = refl;
        connections_shut = λ fd m. descriptor_shuts b s.listen_sock fd (
            inr
              (descriptor_shuts a s.epollfd fd (inr (close_all-shuts w s.incoming_conn_fd fd m))));
        epoll_shut = λ h.
            descriptor_shuts b s.listen_sock s.epollfd
              (inr (descriptor_shuts a s.epollfd s.epollfd (inl (refl, h))));
        listen_shut = λ h. descriptor_shuts b s.listen_sock s.listen_sock (inl (refl, h));
        others_stay = λ fd m e l.
            descriptor_apart b s.listen_sock fd l
            ∙ descriptor_apart a s.epollfd fd e
            ∙ close_all-apart w s.incoming_conn_fd fd m;
      }

module _ {W A : Type 0} (k : Kernel W) (callback : Callback W A) where
  -- The listener is at work still, or it has left the server as `closeSockets` leaves it.
  abbrev pub HasCleanedUp : Outcome W A → Type 0
  HasCleanedUp (running s) = Unit
  HasCleanedUp (returned s) = (s.srv.incoming_conn_fd ≡ []) × (s.srv.is_listening ≡ false)
  HasCleanedUp (threw s e) = (s.srv.incoming_conn_fd ≡ []) × (s.srv.is_listening ≡ false)

  clean_up-HasCleanedUp : (o : Outcome W A) → HasCleanedUp (clean_up k callback o)
  unfolding clean_up close_sockets
  clean_up-HasCleanedUp (running s) = tt
  clean_up-HasCleanedUp (returned s) = (refl, refl)
  clean_up-HasCleanedUp (threw s e) = (refl, refl)

  -- A listener whose socket is open leaves by a return or by an exception, whichever it is, with
  -- no connection in the set and with is_listening false.
  listen-HasCleanedUp :
      (rounds : List (State W A → State W A)) (s : State W A)
      → s.srv.listen_sock ≢ minus_one
      → HasCleanedUp (listen k callback rounds s)
  unfolding listen
  listen-HasCleanedUp rounds s ne =
      simp (ne→==ℤ s.srv.listen_sock minus_one ne) (clean_up-HasCleanedUp _)
