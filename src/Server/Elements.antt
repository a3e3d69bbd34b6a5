-- ===== src/Server/Elements.antt =====
-- IGenericServer::read_one_buffer_t and the template over `write`: elements of several bytes
-- (libnbuss/IGenericServer.h).
use nonblocking_unix_socket.Base.{
  ℕ, ◌+◌, ◌*◌, ◌/◌, ◌≤◌, ◌<◌, ◌≡◌, ◌≢◌, ◌⊎◌, inl, inr, refl, sym, ap, ◌∙◌, false, List, [], ◌∷◌,
  ◌++◌, append-nil, ℤ, pos, minus_one, ltb_ℤ, length, take, drop, take-append-drop, length-drop,
  length-append, arith,
}
use native.Mathlib.Nat.{mod-lt, div-add-mod', div-eq_of_lt, add-mul-div_right, add_comm, zero-add}
use nonblocking_unix_socket.Kernel.{Kernel, ReadLaws, WriteLaws}
use nonblocking_unix_socket.Transfer.{joined}
use nonblocking_unix_socket.Transfer.Full.{TakesAll, HaveWidth, length-joined, data_of-joined}
use nonblocking_unix_socket.Server.Write.{write-all}
use nonblocking_unix_socket.Server.{Server}
use nonblocking_unix_socket.Server.Io.{Buffer, read_one_buffer_t, write_t}

-- A read of up to `size` elements of `width` bytes: the system has handed out the bytes of `count`
-- elements, which are the buffer, and `lost`, which is less than an element and is in no buffer.
pub record ReadsElements {W : Type 0} (got : W → ℤ → List ℕ) (w : W) (fd : ℤ) (width size : ℕ)
    (r : Buffer W) : Type 0 where
  pub count : ℕ
  pub lost : List ℕ
  pub whole : length r.buffer ≡ count * width
  pub fits : count * width ≤ size * width
  pub partial : length lost < width
  pub handed_out : got r.world fd ≡ got w fd ++ (r.buffer ++ lost)
  pub reported :
      ((r.bytes_read ≡ minus_one) × (r.buffer ≡ []) × (lost ≡ []))
      ⊎ (r.bytes_read ≡ pos (length (r.buffer ++ lost)))

not_negative : (n : ℕ) → ltb_ℤ (pos n) (pos 0) ≡ false
not_negative n = ground arith

length_taken : (n : ℕ) (xs : List ℕ) → n ≤ length xs → length (take n xs) ≡ n
length_taken n xs le = omega (
  arith,
  le,
  ap length (take-append-drop n xs),
  length-append (take n xs) (drop n xs),
  length-drop n xs,
)

module _ {W : Type 0} (k : Kernel W) (got : W → ℤ → List ℕ) (left : W → ℕ)
    (laws : ReadLaws k got left) where
  -- A read_one_buffer_t of elements of at least one byte leaves a buffer of whole elements, no
  -- more than were asked for; behind the buffer's bytes the system has handed out less than one
  -- element, which is in no buffer; the number reported counts both, or it is -1, and then nothing
  -- was handed out and the buffer is empty.
  pub read_one_buffer_t-ReadsElements :
      (s : Server) (w : W) (fd : ℤ) (width size : ℕ)
      → 0 < width
      → ReadsElements got w fd width size (read_one_buffer_t k s w fd width size)
  unfolding read_one_buffer_t
  read_one_buffer_t-ReadsElements s w fd width size positive =
      let r = k.sys_read w fd (size * width) in
      elim (laws.read_gives w fd (size * width)) [
        | inl (c, same) ↦ rw c (record {
          count = 0;
          lost = [];
          whole = omega arith;
          fits = omega arith;
          partial = positive;
          handed_out = same ∙ sym (append-nil _);
          reported = inl (refl, refl, refl);
        })
        | inr (short, c, step, less) ↦
            let n = length r.bytes / width * width in
            let rest = div-add-mod' (length r.bytes) width in
            let cut = take-append-drop n r.bytes in
            rw (c, not_negative (length r.bytes))
              (record {
                count = length r.bytes / width;
                lost = drop n r.bytes;
                whole = length_taken n r.bytes (omega (arith, rest));
                fits = omega (arith, short, rest);
                partial =
                    omega (arith, length-drop n r.bytes, rest, mod-lt (length r.bytes) positive);
                handed_out = step ∙ ap (λ b. got w fd ++ b) (sym cut);
                reported = inr (ap (λ b. pos (length b)) (sym cut));
              })
      ]

take_front : (xs ys : List ℕ) → take (length xs) (xs ++ ys) ≡ xs
take_front [] ys = refl
take_front (x ∷ xs) ys = ap (λ zs. x ∷ zs) (take_front xs ys)

-- Less than an element behind the elements makes no element more.
whole_elements : (width n l : ℕ) → l < width → (n * width + l) / width * width ≡ n * width
whole_elements width n l short =
    ap (λ m. m / width * width) (add_comm (n * width) l)
    ∙ ap (λ m. m * width) (add-mul-div_right l n (omega (arith, short)))
    ∙ ap (λ m. (m + n) * width) (div-eq_of_lt short)
    ∙ ap (λ m. m * width) (zero-add n)

take_whole :
    (width n : ℕ) (whole part : List ℕ)
    → length part < width
    → length whole ≡ n * width
    → take (length (whole ++ part) / width * width) (whole ++ part) ≡ whole
take_whole width n whole part short e =
    ap (λ m. take m (whole ++ part))
      (ap (λ m. m / width * width) (length-append whole part ∙ ap (λ m. m + length part) e)
        ∙ whole_elements width n (length part) short
        ∙ sym e)
    ∙ take_front whole part

module _ {W : Type 0} (k : Kernel W) (sent : W → ℤ → List ℕ) (writes : WriteLaws k sent) where
  -- Elements of one width, written where all data is taken, are read as they were by a reader that is
  -- handed their bytes in one call and less than one element behind them.
  elements-roundtrip :
      (s : Server) (w : W) (fd : ℤ) (width : ℕ) (elements : List (List ℕ))
      → fd ≢ minus_one
      → TakesAll k fd
      → HaveWidth width elements
      → (bytes : List ℕ) × (sent (write_t k s w fd width elements).world fd ≡ sent w fd ++ bytes)
        × ((reader : Server) (v : W) (from : ℤ) (size : ℕ) (part : List ℕ)
            → length part < width
            → (k.sys_read v from (size * width)).bytes ≡ bytes ++ part
            → (k.sys_read v from (size * width)).c ≡ pos (length (bytes ++ part))
            → (read_one_buffer_t k reader v from width size).buffer ≡ joined elements)
  unfolding write_t read_one_buffer_t
  elements-roundtrip s w fd width elements ne all have = (
    joined elements,
    rw (data_of-joined width elements have)
        (write-all k sent writes s w fd (joined elements) ne all),
    λ reader v from size part short e c.
        rw (c, e, not_negative (length (joined elements ++ part)))
          (take_whole width (length elements) (joined elements) part short
            (length-joined width elements have)),
  )
