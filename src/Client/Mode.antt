-- ===== src/Client/Mode.antt =====
-- The mode of a descriptor: IGenericServer::set_fd_non_blocking and the switch around
-- UnixSocketClient::write (libnbuss/IGenericServer.cpp, libnbuss/UnixSocketClient.cpp).
use nonblocking_unix_socket.Base.{
  ℕ, ◌*◌, ◌/◌, ◌%◌, ◌≡◌, ◌≢◌, inl, inr, refl, ◌∙◌, if◌then◌else◌, List, Bool, true, false, ℤ,
  minus_one, ==ℤ→ne, ◌==ℤ◌, Bool-cases, length, bit_and, arith,
}
use nonblocking_unix_socket.Base.Masks.{bit_and-zero, bit_and_twelfth}
use nonblocking_unix_socket.Kernel.{Kernel, FcntlLaws, has, o_nonblock}
use nonblocking_unix_socket.Server.Keeps.{write_loop-keeps}
use nonblocking_unix_socket.Server.Io.{set_fd_non_blocking}
use nonblocking_unix_socket.Client.{Client, write, write_large}

-- What a mask leaves: the mode with O_NONBLOCK itself, and blocking mode with 0.
masked_on : (n : ℕ) → has (bit_and n o_nonblock) o_nonblock ≡ has n o_nonblock
masked_on n = rw (bit_and_twelfth n, bit_and_twelfth (n / 2048 % 2 * 2048)) (ground arith)

masked_off : (n : ℕ) → has (bit_and n 0) o_nonblock ≡ false
masked_off n = rw (bit_and-zero n) (ground (arith, bit_and_twelfth 0))

masked_kept :
    (n : ℕ) (on : Bool)
    → on ≡ true
    → has (bit_and n (if on then o_nonblock else 0)) o_nonblock ≡ has n o_nonblock
masked_kept n on e = rw e (masked_on n)

masked_cleared :
    (n : ℕ) (on : Bool)
    → on ≡ false
    → has (bit_and n (if on then o_nonblock else 0)) o_nonblock ≡ false
masked_cleared n on e = rw e (masked_off n)

masked_never_on :
    (n : ℕ) (on : Bool)
    → has n o_nonblock ≡ false
    → has (bit_and n (if on then o_nonblock else 0)) o_nonblock ≡ false
masked_never_on n true e = masked_on n ∙ e
masked_never_on n false e = masked_off n

-- The mode of `fd` after a change of it, in a state where the other descriptors keep theirs.
pub record OnlyLowers {W : Type 0} (mode : W → ℤ → Bool) (w : W) (fd : ℤ) (on : Bool) (r : W × ℤ)
    : Type 0 where
  pub kept : on ≡ true → mode (r.0) fd ≡ mode w fd
  pub cleared : on ≡ false → r.1 ≢ minus_one → mode (r.0) fd ≡ false
  pub never_on : mode w fd ≡ false → mode (r.0) fd ≡ false
  pub apart : (other : ℤ) → fd ≢ other → mode (r.0) other ≡ mode w other

module _ {W : Type 0} (k : Kernel W) (mode : W → ℤ → Bool) (laws : FcntlLaws k mode) where
  put-OnlyLowers :
      (w seen : W) (fd : ℤ) (on : Bool) (n : ℕ)
      → ((other : ℤ) → mode seen other ≡ mode w other)
      → has n o_nonblock ≡ mode w fd
      → let put = k.sys_setfl seen fd (bit_and n (if on then o_nonblock else 0)) in
        OnlyLowers mode w fd on (put.world, put.c)
  put-OnlyLowers w seen fd on n same flags =
      let mask = bit_and n (if on then o_nonblock else 0) in
      elim (laws.setfl_sets seen fd mask) [
        | inl (failed, left) ↦ record {
          kept = λ e. left fd ∙ same fd;
          cleared = λ e ne. absurd (ne failed);
          never_on = λ e. left fd ∙ same fd ∙ e;
          apart = λ other ne. left other ∙ same other;
        }
        | inr (c, put, left) ↦ record {
          kept = λ e. put ∙ masked_kept n on e ∙ flags;
          cleared = λ e ne. put ∙ masked_cleared n on e;
          never_on = λ e. put ∙ masked_never_on n on (flags ∙ e);
          apart = λ other ne. left other ne ∙ same other;
        }
      ]

  -- A call of set_fd_non_blocking that asks for non-blocking mode leaves the mode as it is; one
  -- that asks for blocking mode and does not return -1 leaves blocking mode; no call switches from
  -- blocking to non-blocking mode or changes another descriptor.
  pub set_fd_non_blocking-OnlyLowers :
      (w : W) (fd : ℤ) (on : Bool) → OnlyLowers mode w fd on (set_fd_non_blocking k w fd on)
  unfolding set_fd_non_blocking
  set_fd_non_blocking-OnlyLowers w fd on =
      let got = k.sys_getfl w fd in
      let (same, read) = laws.getfl_reads w fd in
      elim read [
        | inl failed ↦ rw failed (record {
          kept = λ e. same fd;
          cleared = λ e ne. absurd (ne refl);
          never_on = λ e. same fd ∙ e;
          apart = λ other ne. same other;
        })
        | inr (n, c, flags) ↦ rw c (put-OnlyLowers w got.world fd on n same flags)
      ]

  write-mode :
      (s : Client) (w : W) (p : List ℕ) (other : ℤ)
      → mode (write k s w p).world other ≡ mode w other
  unfolding write
  write-mode s w p other = elim (Bool-cases (s.data_socket ==ℤ minus_one)) [
    | inl e ↦ rw e refl
    | inr e ↦ rw e (
        write_loop-keeps k (λ v. mode v other) (λ v fd q. laws.write_keeps v fd other q) (length p)
          w s.data_socket p 0)
  ]

  -- Where the part of UnixSocketClient::write that serves large buffers of a non-blocking client
  -- returns anything but -1, the descriptor is in blocking mode afterwards.
  pub write_large-StaysBlocking :
      (s : Client) (w : W) (p : List ℕ)
      → (write_large k s w p).ret ≢ minus_one
      → mode (write_large k s w p).world s.data_socket ≡ false
  unfolding write_large
  write_large-StaysBlocking s w p ne =
      let fd = s.data_socket in
      let (w1, res1) = set_fd_non_blocking k w fd false in
      let written = (write k s w1 p).world in
      let (w2, res2) = set_fd_non_blocking k written fd true in
      let off = set_fd_non_blocking-OnlyLowers w fd false in
      let on = set_fd_non_blocking-OnlyLowers written fd true in
      elim (Bool-cases (res1 ==ℤ minus_one)) [
        | inl e ↦ absurd (ne (rw e refl))
        | inr e ↦ elim (Bool-cases (res2 ==ℤ minus_one)) [
          | inl f ↦ absurd (ne (rw (e, f) refl))
          | inr f ↦
              rw (e, f)
                (on.kept refl ∙ write-mode s w1 p fd ∙ off.cleared refl (==ℤ→ne res1 minus_one e))
        ]
      ]
