-- ===== src/Transfer/Full.antt =====
-- The write loop on a descriptor with room in its buffer, and the bytes of a vector of elements, which
-- the templates over `write` hand to it (libnbuss/IGenericServer.h, BaseClient.h, ThreadedServer2.h).
use nonblocking_unix_socket.Base.{
  ℕ, ◌*◌, ◌≡◌, inl, inr, refl, ap, ◌∙◌, false, List, [], ◌∷◌, ◌++◌, ℤ, pos, length, length-append,
  take_all, arith,
}
use native.Mathlib.Nat.{suc-mul}
use nonblocking_unix_socket.Kernel.{Kernel, WriteLaws}
use nonblocking_unix_socket.Transfer.{is_partial, write_loop, joined, data_of}
use nonblocking_unix_socket.Transfer.Stream.{transfer_unroll}

-- write(2) takes all of the data.
abbrev pub TakesAll : {W : Type 0} → Kernel W → ℤ → Type 0
TakesAll {W} k fd = (w : W) (p : List ℕ) → (k.sys_write w fd p).c ≡ pos (length p)

-- Every element has `width` bytes.
abbrev pub HaveWidth : ℕ → List (List ℕ) → Type 0
HaveWidth width [] = Unit
HaveWidth width (b ∷ bs) = (length b ≡ width) × HaveWidth width bs

pub length-joined :
    (width : ℕ) (bs : List (List ℕ)) → HaveWidth width bs → length (joined bs) ≡ length bs * width
length-joined width [] h = omega arith
length-joined width (b ∷ bs) h =
    omega (
      arith,
      length-append b (joined bs),
      length-joined width bs h.1,
      h.0,
      suc-mul (length bs) width,
    )

pub data_of-joined :
    (width : ℕ) (bs : List (List ℕ)) → HaveWidth width bs → data_of width bs ≡ joined bs
unfolding data_of
data_of-joined width bs h =
    take_all (length bs * width) (joined bs) (omega (arith, length-joined width bs h))

module _ {W : Type 0} (k : Kernel W) (sent : W → ℤ → List ℕ) (laws : WriteLaws k sent) where
  pub sys_write-all :
      (w : W) (fd : ℤ) (p : List ℕ)
      → TakesAll k fd
      → sent (k.sys_write w fd p).world fd ≡ sent w fd ++ p
  sys_write-all w fd p all = elim (laws.write_takes w fd p) [
    | inl (c, s) ↦ cc (c, all w p)
    | inr (n, fits, c, s) ↦ s ∙ ap (◌++◌ (sent w fd)) (take_all n p (ground (arith, c, all w p)))
  ]

module _ {W : Type 0} (k : Kernel W) where
  -- One call is enough.
  pub full_unroll :
      (w : W) (fd : ℤ) (p : List ℕ)
      → TakesAll k fd
      → write_loop k (length p) w fd p 0 ≡ record { last = k.sys_write w fd p; before = 0 }
  full_unroll w fd p all = transfer_unroll k w fd p 0 ∙ rw complete refl
    where
      complete : is_partial k (k.sys_write w fd p).c p ≡ false
      complete = rw (all w p) (ground arith)
