-- ===== src/Client/Write.antt =====
-- What BaseClient::write promises and what it returns (libnbuss/BaseClient.cpp).
use nonblocking_unix_socket.Base.{
  ℕ, zero, suc, ◌+◌, ◌≤◌, ◌<◌, ◌≡◌, ◌≢◌, ◌⊎◌, inl, inr, refl, List, ◌++◌, ℤ, pos, minus_one,
  pos_part, ne→==ℤ, true, Bool-cases, length, take, drop, length-drop, arith,
}
use nonblocking_unix_socket.Kernel.{Kernel, WriteLaws}
use nonblocking_unix_socket.Transfer.{LoopEnd, is_partial, write_loop}
use nonblocking_unix_socket.Transfer.Stream.{Sends, loop-Sends}
use nonblocking_unix_socket.Server.{Server}
use nonblocking_unix_socket.Server.Io.{write_result}
use nonblocking_unix_socket.Server.Io
use nonblocking_unix_socket.Client.{Client, Result, client_result, write}

-- A call that is partial leaves some of the data.
partial_leaves :
    {W : Type 0} (k : Kernel W) (c : ℤ) (p : List ℕ)
    → is_partial k c p ≡ true
    → (pos_part c + length (drop (pos_part c) p) ≡ length p) × (0 < length (drop (pos_part c) p))
partial_leaves k (pos n) p part = ground (arith, length-drop n p)
partial_leaves k (ℤ.negsuc n) p part = ground arith

module _ {W : Type 0} (k : Kernel W) where
  -- The bytes of the calls before the last one are never all of the data.
  before_last :
      (fuel : ℕ) (w : W) (fd : ℤ) (p : List ℕ) (base : ℕ)
      → 0 < length p
      → (write_loop k fuel w fd p base).before < base + length p
  unfolding write_loop
  before_last zero w fd p base some_data = omega arith
  before_last (suc fuel) w fd p base some_data =
      let r = k.sys_write w fd p in
      elim (Bool-cases (is_partial k r.c p)) [
        | inl e ↦
            let (sum, more) = partial_leaves k r.c p e in
            rw e (
              omega (
                arith,
                sum,
                before_last fuel r.world fd (drop (pos_part r.c) p) (base + pos_part r.c) more,
              ))
        | inr e ↦ rw e (omega arith)
      ]

-- The first `count` bytes of the data are on the stream of `fd`, and nothing new is on any other.
-- The result is -1 or the number of the bytes of all calls but the last, which is never all.
pub record Undercounts {W : Type 0} (sent : W → ℤ → List ℕ) (w : W) (fd : ℤ) (p : List ℕ)
    (r : Result W) : Type 0 where
  pub count : ℕ
  pub bounded : count ≤ length p
  pub stream : sent r.world fd ≡ sent w fd ++ take count p
  pub apart : (other : ℤ) → fd ≢ other → sent r.world other ≡ sent w other
  pub reported : (r.ret ≡ minus_one) ⊎ ((n : ℕ) × (r.ret ≡ pos n) × (n ≤ count) × (n < length p))

client_result-short :
    (c : ℤ) (errno before count size : ℕ)
    → before ≤ count
    → before < size
    → (client_result c errno before ≡ minus_one)
      ⊎ ((n : ℕ) × (client_result c errno before ≡ pos n) × (n ≤ count) × (n < size))
unfolding client_result
client_result-short c errno before count size le lt = ground arith

same_result :
    (c : ℤ) (errno before : ℕ)
    → c ≡ minus_one
    → client_result c errno before ≡ write_result c errno (before + pos_part c)
unfolding client_result write_result
same_result c errno before e = ground arith

module _ {W : Type 0} (k : Kernel W) (sent : W → ℤ → List ℕ) (laws : WriteLaws k sent) where
  -- A client's write of some data to a descriptor other than -1 puts a first part of it on the
  -- stream of its descriptor and nothing on any other stream, and returns -1 or a number below the
  -- length of the data.
  pub client-Undercounts :
      (s : Client) (w : W) (p : List ℕ)
      → s.data_socket ≢ minus_one
      → 0 < length p
      → Undercounts sent w s.data_socket p (write k s w p)
  unfolding write
  client-Undercounts s w p ne some_data = rw (ne→==ℤ s.data_socket minus_one ne) (record {
    count = e.count;
    bounded = e.bounded;
    stream = e.stream;
    apart = e.apart;
    reported =
        client_result-short end.c end.errno end.before e.count (length p) (omega (arith, e.counted))
          (omega (arith, before_last k (length p) w s.data_socket p 0 some_data));
  })
    where
      end : LoopEnd W
      end = write_loop k (length p) w s.data_socket p 0

      e : Sends k sent laws w s.data_socket p 0 (write_loop k (length p) w s.data_socket p 0)
      e = loop-Sends k sent laws (length p) w s.data_socket p 0

  -- The server's write and the client's are the same calls on the system, and where the last of
  -- them has failed, they return the same value.
  pub client-server :
      (s : Client) (srv : Server) (w : W) (p : List ℕ)
      → s.data_socket ≢ minus_one
      → let e = write_loop k (length p) w s.data_socket p 0 in
        let theirs = Io.write k srv w s.data_socket p in
        ((write k s w p).world ≡ theirs.world)
        × ((write k s w p).errno ≡ theirs.errno)
        × (e.c ≡ minus_one → (write k s w p).ret ≡ theirs.ret)
  unfolding write Io.write
  client-server s srv w p ne =
      rw (ne→==ℤ s.data_socket minus_one ne) (refl, refl, λ last. same_result _ _ _ last)
