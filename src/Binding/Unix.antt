-- ===== src/Binding/Unix.antt =====
-- Which descriptors the constructor of libnbuss/UnixSocketServer.cpp leaves open.
use nonblocking_unix_socket.Base.{
  ℕ, ◌+◌, ◌≡◌, ◌≢◌, inl, inr, refl, sym, ◌∙◌, Bool, true, false, List, some, none, ℤ, pos,
  minus_one, ne→==ℤ,
}
use nonblocking_unix_socket.Kernel.{Kernel, FdLaws, o_nonblock}
use nonblocking_unix_socket.Client.{af_unix, sock_stream, sun_path, c_str}
use nonblocking_unix_socket.Server.{Server}
use nonblocking_unix_socket.Binding.{Built, Error, cannot_open, open_unix_socket}
use nonblocking_unix_socket.Binding.Open.{SocketLaws, OpensOnly}

module _ {W : Type 0} (k : Kernel W) (is_open : W → ℤ → Bool) (fds : FdLaws k is_open)
    (laws : SocketLaws k is_open) where
  -- Where a socket is opened for a UnixSocketServer and bind(2) fails, open_unix_socket returns
  -- -1, but a descriptor that was not open before stays open.
  pub open_unix_socket-leaks :
      (s : Server) (w : W) (sockname : List ℕ)
      → let u = (k.sys_unlink w (c_str sockname)).world in
        let f = k.sys_socket u af_unix (sock_stream + o_nonblock) 0 in
        f.c ≢ minus_one
        → (k.sys_bind f.world f.c (sun_path sockname)).c ≡ minus_one
        → let r = open_unix_socket k s w sockname in
          (n : ℕ) × (r.ret ≡ minus_one)
          × (is_open w (pos n) ≡ false)
          × (is_open r.world (pos n) ≡ true)
  unfolding open_unix_socket
  open_unix_socket-leaks s w sockname valid fails_to_bind =
      let u = (k.sys_unlink w (c_str sockname)).world in
      let f = k.sys_socket u af_unix (sock_stream + o_nonblock) 0 in
      elim (laws.socket_opens u af_unix (sock_stream + o_nonblock) 0) [
        | inl (c, same) ↦ absurd (valid c)
        | inr (n, c, fresh, now, same) ↦
            rw (ne→==ℤ f.c minus_one valid, fails_to_bind)
              (
                n,
                refl,
                sym (laws.unlink_keeps w (c_str sockname) (pos n)) ∙ fresh,
                laws.bind_keeps f.world f.c (pos n) (sun_path sockname) ∙ now,
              )
      ]

  -- What is left when the constructor is done.
  pub data Makes (w : W) (r : Built W) : Type 0 where
    made :
        r.error ≡ none
        → r.srv.listen_sock ≢ minus_one
        → OpensOnly is_open w r.world r.srv.listen_sock
        → Makes w r
    refused :
        (e : Error)
        → r.error ≡ some e
        → ((other : ℤ) → is_open r.world other ≡ is_open w other)
        → Makes w r
    left_open :
        (n : ℕ)
        → r.error ≡ some cannot_open
        → r.srv.listen_sock ≡ minus_one
        → OpensOnly is_open w r.world (pos n)
        → (u : W) × ((name : List ℕ) × ((k.sys_bind u (pos n) name).c ≡ minus_one))
        → Makes w r
