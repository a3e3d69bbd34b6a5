-- ===== src/Server/Read.antt =====
-- What IGenericServer::read promises to its caller (libnbuss/IGenericServer.cpp).
use nonblocking_unix_socket.Base.{
  ℕ, zero, suc, ◌≤◌, ◌<◌, ◌≡◌, ◌⊎◌, inl, inr, refl, sym, ap, ◌∙◌, false, ◌&&◌, not, dec_lt, List,
  [], ◌∷◌, ◌++◌, Option, some, ℤ, pos, minus_one, ◌==ℤ◌, ◌==◌, length, replicate, append-nil,
  append_assoc, arith, if◌then◌else◌,
}
use nonblocking_unix_socket.Kernel.{Kernel, SysRead, ReadLaws, eagain}
use nonblocking_unix_socket.Transfer.{joined}
use nonblocking_unix_socket.Server.{Server, set_io}
use nonblocking_unix_socket.Server.Io.{read, read_loop, read_result, push_buffer}

-- Every buffer holds between 1 and `size` bytes.
abbrev pub AreFilled : ℕ → List (List ℕ) → Type 0
AreFilled size [] = Unit
AreFilled size (b ∷ bs) = (0 < length b) × (length b ≤ size) × AreFilled size bs

length-eq-zero : (b : List ℕ) → length b ≡ 0 → b ≡ []
length-eq-zero [] h = refl
length-eq-zero (x ∷ b) h = absurd (omega arith)

-- What the loop leaves behind the filled buffers: after a failed call whose error is not EAGAIN,
-- the buffer that the call was to fill, which holds zeros.
abbrev pub leftover : {W : Type 0} → ℕ → SysRead W → List (List ℕ)
leftover size r = if r.c ==ℤ minus_one && not (r.errno == eagain) then replicate size 0 ∷ [] else []

-- The loop has stopped at the call `last`, made in the state `reached`.
pub record ReadsAll {W : Type 0} (k : Kernel W) (got : W → ℤ → List ℕ) (w : W) (fd : ℤ) (size : ℕ)
    (r : Option (W × List (List ℕ) × ℕ)) : Type 0 where
  pub reached : W
  pub filled : List (List ℕ)
  pub last : SysRead W
  pub is_last : last ≡ k.sys_read reached fd size
  pub stopped : (last.c ≡ minus_one) ⊎ (last.c ≡ pos 0)
  pub returns : r ≡ some (last.world, filled ++ leftover size last, last.errno)
  pub handed_out : got last.world fd ≡ got w fd ++ joined filled
  pub pieces : AreFilled size filled

module _ {W : Type 0} (k : Kernel W) (got : W → ℤ → List ℕ) (left : W → ℕ)
    (laws : ReadLaws k got left) where
  -- The round that reads `b` comes before the rest.
  push-ReadsAll :
      (w w' : W) (fd : ℤ) (size : ℕ) (b : List ℕ) {r : Option (W × List (List ℕ) × ℕ)}
      → 0 < length b
      → length b ≤ size
      → got w' fd ≡ got w fd ++ b
      → ReadsAll k got w' fd size r
      → ReadsAll k got w fd size (push_buffer b r)
  unfolding push_buffer
  push-ReadsAll w w' fd size b some_byte fits step rest = record {
    reached = rest.reached;
    filled = b ∷ rest.filled;
    last = rest.last;
    is_last = rest.is_last;
    stopped = rest.stopped;
    returns = rw rest.returns;
    handed_out =
        rest.handed_out
        ∙ ap (λ s. s ++ joined rest.filled) step
        ∙ append_assoc (got w fd) b (joined rest.filled);
    pieces = (some_byte, fits, rest.pieces);
  }

  -- The round that stops.
  stop-ReadsAll :
      (w : W) (fd : ℤ) (size : ℕ) {r : Option (W × List (List ℕ) × ℕ)}
      → let last = k.sys_read w fd size in
        (last.c ≡ minus_one) ⊎ (last.c ≡ pos 0)
        → got last.world fd ≡ got w fd
        → r ≡ some (last.world, leftover size last, last.errno)
        → ReadsAll k got w fd size r
  stop-ReadsAll w fd size s g e = record {
    reached = w;
    filled = [];
    last = k.sys_read w fd size;
    is_last = refl;
    stopped = s;
    returns = e;
    handed_out = g ∙ sym (append-nil _);
    pieces = tt;
  }

  loop-ReadsAll :
      (fuel : ℕ) (w : W) (fd : ℤ) (size : ℕ)
      → left w < fuel
      → ReadsAll k got w fd size (read_loop k fuel w fd size)
  unfolding read_loop
  loop-ReadsAll zero w fd size h = absurd (omega arith)
  loop-ReadsAll (suc fuel) w fd size h =
      let r : SysRead W = k.sys_read w fd size in
      elim (laws.read_gives w fd size) [
        | inl (c, g) ↦ stop-ReadsAll w fd size (inl c) g (rw c (ground arith))
        | inr (fits, c, g, l) ↦ elim (dec_lt 0 (length r.bytes)) [
          | yes some_byte ↦
              let other : (pos (length r.bytes) ==ℤ pos 0) ≡ false = ground arith in
              rw (c, other)
                (push-ReadsAll w r.world fd size r.bytes some_byte fits g
                  (loop-ReadsAll fuel r.world fd size (omega arith)))
          | no nothing ↦
              let empty : length r.bytes ≡ 0 = omega arith in
              stop-ReadsAll w fd size (inr (c ∙ ap pos empty))
                (g ∙ ap (◌++◌ (got w fd)) (length-eq-zero r.bytes empty) ∙ append-nil _)
                (rw (c, empty) refl)
        ]
      ]

  -- With more fuel than the bytes that the system holds, read returns a result: every buffer holds
  -- between 1 and buffer_size bytes, together they are what the calls have handed out, the last
  -- call has failed or found the end, and a failure other than EAGAIN leaves one buffer of zeros
  -- at the end.
  pub read-ReadsAll :
      (fuel : ℕ) (s : Server) (w : W) (fd : ℤ) (size : ℕ)
      → left w < fuel
      → (b : ReadsAll k got w fd size (read_loop k fuel w fd size)) × (read k fuel s w fd size
          ≡ some (record {
            srv = set_io s fd;
            world = b.last.world;
            buffers = b.filled ++ leftover size b.last;
            errno = pos b.last.errno;
          }))
  unfolding read read_result
  read-ReadsAll fuel s w fd size h =
      let b : ReadsAll k got w fd size (read_loop k fuel w fd size) =
        loop-ReadsAll fuel w fd size h in
      (b, rw b.returns)
