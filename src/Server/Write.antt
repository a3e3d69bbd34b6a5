-- ===== src/Server/Write.antt =====
-- What IGenericServer::write promises to its caller (libnbuss/IGenericServer.cpp).
use nonblocking_unix_socket.Base.{
  ℕ, ◌≤◌, ◌≡◌, ◌≢◌, ◌⊎◌, inl, inr, List, ◌++◌, ℤ, pos, minus_one, pos_part, true, ne→==ℤ, ==ℤ_refl,
  length, take, arith,
}
use nonblocking_unix_socket.Kernel.{Kernel, Sys, WriteLaws, FailsOnlyWhenFull, eagain}
use nonblocking_unix_socket.Transfer.{write_loop}
use nonblocking_unix_socket.Transfer.Stream.{Sends, loop-Sends}
use nonblocking_unix_socket.Transfer.Full.{TakesAll, sys_write-all, full_unroll}
use nonblocking_unix_socket.Server.{Server, set_io, is_io}
use nonblocking_unix_socket.Server.Io.{Result, write, write_result}

-- The first `count` bytes of the data are on the stream of `fd`, and nothing new is on any other.
-- The result is that number, or -1 if nothing was taken or an error other than a full buffer
-- came up.
pub record Written {W : Type 0} (sent : W → ℤ → List ℕ) (w : W) (fd : ℤ) (p : List ℕ) (r : Result W)
    : Type 0 where
  pub count : ℕ
  pub bounded : count ≤ length p
  pub stream : sent r.world fd ≡ sent w fd ++ take count p
  pub apart : (other : ℤ) → fd ≢ other → sent r.world other ≡ sent w other
  pub reported :
      (r.ret ≡ pos count) ⊎ ((r.ret ≡ minus_one) × ((count ≡ 0) ⊎ (r.errno ≢ pos eagain)))
  pub marked : is_io r.srv fd ≡ true

set_io-is_io : (s : Server) (fd : ℤ) → is_io (set_io s fd) fd ≡ true
unfolding set_io is_io
set_io-is_io s fd = ground (arith, ==ℤ_refl fd)

write_result-reported :
    (c : ℤ) (errno total count : ℕ)
    → (c ≡ minus_one) ⊎ (c ≡ pos (pos_part c))
    → total ≡ count
    → (write_result c errno total ≡ pos count)
      ⊎ ((write_result c errno total ≡ minus_one) × ((count ≡ 0) ⊎ (pos errno ≢ pos eagain)))
unfolding write_result
write_result-reported c errno total count (inl e) h = ground arith
write_result-reported c errno total count (inr e) h = ground arith

module _ {W : Type 0} (k : Kernel W) (sent : W → ℤ → List ℕ) (laws : WriteLaws k sent) where
  -- A write to a descriptor other than -1 puts a first part of the data on the stream of that
  -- descriptor and reports its length; it returns -1 only if no byte was taken or the last error
  -- was no full buffer; no other stream changes, and the descriptor counts as used.
  pub write-Written :
      (s : Server) (w : W) (fd : ℤ) (p : List ℕ)
      → fd ≢ minus_one
      → Written sent w fd p (write k s w fd p)
  unfolding write
  write-Written s w fd p ne = rw (ne→==ℤ fd minus_one ne) (record {
    count = e.count;
    bounded = e.bounded;
    stream = e.stream;
    apart = e.apart;
    reported = write_result-reported _ _ _ _ e.result (omega (arith, e.counted));
    marked = set_io-is_io s fd;
  })
    where
      e : Sends k sent laws w fd p 0 (write_loop k (length p) w fd p 0)
      e = loop-Sends k sent laws (length p) w fd p 0

module _ {W : Type 0} (k : Kernel W) (sent : W → ℤ → List ℕ) (laws : WriteLaws k sent) where
  -- A descriptor with room in its buffer takes all of the data.
  pub write-all :
      (s : Server) (w : W) (fd : ℤ) (p : List ℕ)
      → fd ≢ minus_one
      → TakesAll k fd
      → sent (write k s w fd p).world fd ≡ sent w fd ++ p
  unfolding write
  write-all s w fd p ne all =
      rw (ne→==ℤ fd minus_one ne, full_unroll k w fd p all) (sys_write-all k sent laws w fd p all)

-- What `write` has done where a write fails for no other reason than a full buffer: the number that
-- it returns is that of the bytes taken, and -1 stands for none.
pub record Accepted {W : Type 0} (sent : W → ℤ → List ℕ) (w : W) (fd : ℤ) (p : List ℕ)
    (r : Result W) : Type 0 where
  pub count : ℕ
  pub bounded : count ≤ length p
  pub stream : sent r.world fd ≡ sent w fd ++ take count p
  pub apart : (other : ℤ) → fd ≢ other → sent r.world other ≡ sent w other
  pub reported : (r.ret ≡ pos count) ⊎ ((r.ret ≡ minus_one) × (count ≡ 0))

result-reported :
    (c : ℤ) (errno total count : ℕ)
    → (c ≡ minus_one) × (errno ≡ eagain) ⊎ (c ≡ pos (pos_part c))
    → total ≡ count
    → (write_result c errno total ≡ pos count)
      ⊎ ((write_result c errno total ≡ minus_one) × (count ≡ 0))
unfolding write_result
result-reported c errno total count (inl e) h = ground arith
result-reported c errno total count (inr e) h = ground arith

full_errno :
    {W : Type 0} (k : Kernel W) (fd : ℤ) (last : Sys W)
    → FailsOnlyWhenFull k
    → (reached : W) × (rest : List ℕ) × (last ≡ k.sys_write reached fd rest)
    → (last.c ≡ minus_one) ⊎ (last.c ≡ pos (pos_part last.c))
    → (last.c ≡ minus_one) × (last.errno ≡ eagain) ⊎ (last.c ≡ pos (pos_part last.c))
full_errno k fd last full (w, p, e) (inr h) = inr h
full_errno k fd last full (w, p, e) (inl h) = inl (h, rw e (full w fd p (rw e at h)))

module _ {W : Type 0} (k : Kernel W) (sent : W → ℤ → List ℕ) (laws : WriteLaws k sent)
    (full : FailsOnlyWhenFull k) where
  pub write-Accepted :
      (s : Server) (w : W) (fd : ℤ) (p : List ℕ)
      → fd ≢ minus_one
      → Accepted sent w fd p (write k s w fd p)
  unfolding write
  write-Accepted s w fd p ne = rw (ne→==ℤ fd minus_one ne) (record {
    count = e.count;
    bounded = e.bounded;
    stream = e.stream;
    apart = e.apart;
    reported =
        result-reported _ _ _ _ (full_errno k fd _ full e.last_call e.result)
          (omega (arith, e.counted));
  })
    where
      e : Sends k sent laws w fd p 0 (write_loop k (length p) w fd p 0)
      e = loop-Sends k sent laws (length p) w fd p 0
