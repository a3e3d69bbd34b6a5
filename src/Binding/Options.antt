-- ===== src/Binding/Options.antt =====
-- The functions of libnbuss/TcpServer.cpp on the options and the mode of a descriptor.
use nonblocking_unix_socket.Base.{
  ℕ, ◌≡◌, ◌≢◌, inl, inr, sym, ◌∙◌, Bool, true, false, Bool-cases, Option, ℤ, minus_one, pos_part,
  ◌==ℤ◌, if◌then◌else◌,
}
use nonblocking_unix_socket.Kernel.{Kernel, FcntlLaws, has, o_nonblock, tcp_cork}

module _ {W : Type 0} (k : Kernel W) where
  -- `tcp_proto`, a global variable, is an argument of the functions that read it.
  -- `none`: a null pointer is read through.
  unfoldable pub init_socket_env : W → W × Option ℕ
  init_socket_env w = k.sys_getprotobyname w

  unfoldable pub set_tcp_socket_option : ℕ → W → ℤ → ℕ → ℤ → W
  set_tcp_socket_option tcp_proto w fd opt optval =
      (k.sys_setsockopt_at w fd tcp_proto opt optval).world

  unfoldable pub set_tcp_cork : ℕ → W → ℤ → ℤ → W
  set_tcp_cork tcp_proto w fd optval = (k.sys_setsockopt_at w fd tcp_proto tcp_cork optval).world

  -- `optval` is not initialised: `unset` is what it returns if the call fails.
  unfoldable pub is_tcp_cork_enabled : ℕ → ℤ → W → ℤ → W × ℤ
  is_tcp_cork_enabled tcp_proto unset w fd =
      let r = k.sys_getsockopt_at w fd tcp_proto tcp_cork in
      (r.world, if r.c ==ℤ minus_one then unset else r.value)

  unfoldable pub check_nonblock_fd : W → ℤ → W
  check_nonblock_fd w fd =
      let got = k.sys_getfl w fd in
      let put = k.sys_setfl got.world fd o_nonblock in
      if got.c ==ℤ minus_one
      then got.world
      else if has (pos_part got.c) o_nonblock
      then got.world
      else put.world

-- Where no call of fcntl fails, `fd` is in non-blocking mode; every other descriptor is in the mode
-- that it was in, and so is `fd` if it was in non-blocking mode.
pub record OnlyRaises {W : Type 0} (k : Kernel W) (mode : W → ℤ → Bool) (w : W) (fd : ℤ) (r : W)
    : Type 0 where
  pub raised :
      (k.sys_getfl w fd).c ≢ minus_one
      → (k.sys_setfl (k.sys_getfl w fd).world fd o_nonblock).c ≢ minus_one
      → mode r fd ≡ true
  pub kept : mode w fd ≡ true → mode r fd ≡ true
  pub apart : (other : ℤ) → fd ≢ other → mode r other ≡ mode w other

module _ {W : Type 0} (k : Kernel W) (mode : W → ℤ → Bool) (laws : FcntlLaws k mode) where
  -- The case in which the descriptor was in blocking mode.
  put-OnlyRaises :
      (w : W) (fd : ℤ)
      → mode w fd ≡ false
      → ((other : ℤ) → mode (k.sys_getfl w fd).world other ≡ mode w other)
      → OnlyRaises k mode w fd (k.sys_setfl (k.sys_getfl w fd).world fd o_nonblock).world
  put-OnlyRaises w fd off same = elim (laws.setfl_sets (k.sys_getfl w fd).world fd o_nonblock) [
    | inl (failed, left) ↦ record {
      raised = λ ne ne'. absurd (ne' failed);
      kept = λ e. left fd ∙ same fd ∙ e;
      apart = λ other ne. left other ∙ same other;
    }
    | inr (c, put, left) ↦ record {
      raised = λ ne ne'. put;
      kept = λ e. put;
      apart = λ other ne. left other ne ∙ same other;
    }
  ]

  check_nonblock_fd-OnlyRaises :
      (w : W) (fd : ℤ) → OnlyRaises k mode w fd (check_nonblock_fd k w fd)
  unfolding check_nonblock_fd
  check_nonblock_fd-OnlyRaises w fd =
      let (same, read) = laws.getfl_reads w fd in
      elim read [
        | inl failed ↦ rw failed (record {
          raised = λ ne ne'. absurd (ne failed);
          kept = λ e. same fd ∙ e;
          apart = λ other ne. same other;
        })
        | inr (n, c, flags) ↦ elim (Bool-cases (has n o_nonblock)) [
          | inl e ↦
              rw (c, e)
                (record {
                  raised = λ ne ne'. same fd ∙ sym flags ∙ e;
                  kept = λ f. same fd ∙ f;
                  apart = λ other ne. same other;
                })
          | inr e ↦ rw (c, e) (put-OnlyRaises w fd (sym flags ∙ e) same)
        ]
      ]
