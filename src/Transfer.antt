-- ===== src/Transfer.antt =====
-- The loop around the `write` system call that IGenericServer::write and BaseClient::write both
-- have (libnbuss/IGenericServer.cpp, libnbuss/BaseClient.cpp): go on as long as a call takes some
-- of the data and not all of it.
pub mod Stream
pub mod Full
use nonblocking_unix_socket.Base.{
  ℕ, zero, suc, ◌+◌, ◌*◌, Bool, ◌&&◌, List, [], ◌∷◌, ◌++◌, take, ℤ, pos, pos_part, ltb_ℤ, length,
  drop, if◌then◌else◌,
}
use nonblocking_unix_socket.Kernel.{Kernel, Sys}

-- The state after the last call: its result, and the bytes that the calls before it have taken,
-- which is `p - data` when the loop is left.
pub record LoopEnd (W : Type 0) : Type 0 where
  pub last : Sys W
  pub open last use *
  pub before : ℕ

-- An element of a vector is the list of its bytes.
abbrev pub joined : List (List ℕ) → List ℕ
joined [] = []
joined (b ∷ bs) = b ++ joined bs

-- `data.size() * sizeof(T)` bytes from `data.data()` on, which the templates over `write` hand on.
unfoldable pub data_of : ℕ → List (List ℕ) → List ℕ
data_of width bs = take (length bs * width) (joined bs)

module _ {W : Type 0} (k : Kernel W) where
  -- `c > 0 && c < data_size`
  abbrev pub is_partial : ℤ → List ℕ → Bool
  is_partial c p = ltb_ℤ (pos 0) c && ltb_ℤ c (pos (length p))

  -- The fuel counts the rounds that may still follow. A round that goes on leaves less data, so
  -- with no data there is no further round, and fuel `length p` is always enough.
  unfoldable pub write_loop : ℕ → W → ℤ → List ℕ → ℕ → LoopEnd W
  write_loop zero w fd p before = record { last = k.sys_write w fd p; before = before }
  write_loop (suc fuel) w fd p before =
      let r = k.sys_write w fd p in
      let n = pos_part r.c in
      let rest = write_loop fuel r.world fd (drop n p) (before + n) in
      if is_partial r.c p then rest else record { last = r; before = before }
