-- ===== src/UnixClient/Result.antt =====
-- What unix_socket_client/unixsocketclient.c prints of the reply.
use nonblocking_unix_socket.Base.{
  ℕ, zero, suc, ◌≤◌, ◌≡◌, ◌≢◌, ◌⊎◌, inl, inr, refl, sym, ap, ◌∙◌, Bool-cases, List, [], ◌∷◌, ◌++◌,
  append_assoc, append-nil, none, some, ℤ, minus_one, ne→==ℤ, ==ℤ-cases, ◌==◌, length,
  length-append, length-drop, take, take_all, take-nil, drop, set, arith,
}
use nonblocking_unix_socket.Kernel.{Kernel}
use nonblocking_unix_socket.Client.{c_str}
use nonblocking_unix_socket.Client.Path.{
  IsCString, take-IsCString, append-IsCString, c_str-IsCString, c_str-append, length-take,
}
use nonblocking_unix_socket.UnixClient.{Ran, end_word, result_of, receive}

-- A zero byte put into a buffer cuts its string.
c_str-set : (xs : List ℕ) (i : ℕ) → c_str (set xs i 0) ≡ take i (c_str xs)
unfolding c_str
c_str-set [] i = sym (take-nil i)
c_str-set (b ∷ bs) zero = refl
c_str-set (b ∷ bs) (suc i) = elim (Bool-cases (b == 0)) [
  | inl e ↦ rw e refl
  | inr e ↦ rw e (ap (λ s. b ∷ s) (c_str-set bs i))
]

drop-append :
    (xs ys zs : List ℕ)
    → length xs ≤ length ys
    → drop (length xs) (ys ++ zs) ≡ drop (length xs) ys ++ zs
drop-append [] ys zs le = refl
drop-append (x ∷ xs) [] zs le = absurd (omega (arith, le))
drop-append (x ∷ xs) (y ∷ ys) zs le = drop-append xs ys zs (omega (arith, le))

-- What a buffer prints that begins with a C string and its zero byte.
c_str-cut : (s more : List ℕ) → IsCString s → length s ≤ 11 → c_str (set (s ++ 0 ∷ more) 11 0) ≡ s
unfolding c_str
c_str-cut s more c short =
    c_str-set (s ++ 0 ∷ more) 11
    ∙ ap (take 11) (c_str-append s (0 ∷ more) c ∙ append-nil s)
    ∙ take_all 11 s short

result_of-whole :
    (buffer reply more : List ℕ)
    → IsCString reply
    → length reply ≤ 11
    → result_of buffer (reply ++ 0 ∷ more) ≡ reply
unfolding result_of
result_of-whole buffer reply more c short =
    let rest = drop (length (reply ++ 0 ∷ more)) buffer in
    ap (λ s. c_str (set s 11 0)) (append_assoc reply (0 ∷ more) rest)
    ∙ c_str-cut reply (more ++ rest) c short

drop-IsCString : (n : ℕ) (xs : List ℕ) → IsCString xs → IsCString (drop n xs)
drop-IsCString zero xs c = c
drop-IsCString (suc n) [] c = c
drop-IsCString (suc n) (b ∷ bs) c = drop-IsCString n bs c.1

end_word-IsCString : IsCString end_word
end_word-IsCString = (λ e. omega (arith, e), (λ e. omega (arith, e), (λ e. omega (arith, e), tt)))

-- The word END stays behind the bytes of a short reply.
result_of-stale :
    (rest reply : List ℕ)
    → IsCString reply
    → length reply ≤ 3
    → result_of ((end_word ++ 0 ∷ []) ++ rest) reply ≡ reply ++ drop (length reply) end_word
unfolding result_of
result_of-stale rest reply c short =
    let left = drop (length reply) end_word in
    ap (λ s. c_str (set s 11 0))
      (ap (λ s. reply ++ s) (drop-append reply end_word (0 ∷ rest) short)
        ∙ sym (append_assoc reply left (0 ∷ rest)))
    ∙ c_str-cut (reply ++ left) rest
        (append-IsCString reply left c (drop-IsCString (length reply) end_word end_word-IsCString))
        (omega (arith, short, length-append reply left, length-drop (length reply) end_word))

-- What the buffer holds after the read, as a C string cut after 11 bytes.
abbrev pub shown : List ℕ → List ℕ → List ℕ
shown rest bytes = take 11 (c_str (bytes ++ drop (length bytes) ((end_word ++ 0 ∷ []) ++ rest)))

-- The program has printed `s` and returned 0, and `s` fits into the buffer with its zero byte.
pub record Printed {W : Type 0} (r : Ran W) (s : List ℕ) : Type 0 where
  pub exits : r.exit_code ≡ 0
  pub prints : r.printed ≡ some s
  pub string : IsCString s
  pub short : length s ≤ 11

module _ {W : Type 0} (k : Kernel W) where
  -- Either the program's read fails, and it prints no result and exits with 1; or it exits with 0
  -- and prints the bytes up to the first zero byte, 11 of them at most, of what the buffer holds:
  -- the bytes that were read, and behind them what they do not cover of the word END, its zero
  -- byte, and the bytes that were never set.
  pub receive-Prints :
      (w : W) (fd : ℤ) (rest : List ℕ)
      → let r = k.sys_read w fd 12 in
        let t = receive k w fd rest in
        ((r.c ≡ minus_one) × (t.exit_code ≡ 1) × (t.printed ≡ none))
        ⊎ ((r.c ≢ minus_one) × Printed t (shown rest r.bytes))
  unfolding receive result_of
  receive-Prints w fd rest =
      let r = k.sys_read w fd 12 in
      let all = r.bytes ++ drop (length r.bytes) ((end_word ++ 0 ∷ []) ++ rest) in
      elim (==ℤ-cases r.c minus_one) [
        | inl (e, t) ↦ inl (e, rw t refl, rw t refl)
        | inr (ne, f) ↦ inr (
          ne,
          rw f (record {
            exits = refl;
            prints = ap some (c_str-set all 11);
            string = take-IsCString 11 (c_str all) (c_str-IsCString all);
            short = length-take 11 (c_str all);
          }),
        )
      ]

  -- A reply with its zero byte, in one piece, is printed without what follows.
  receive_whole :
      (w : W) (fd : ℤ) (rest reply more : List ℕ)
      → (k.sys_read w fd 12).c ≢ minus_one
      → (k.sys_read w fd 12).bytes ≡ reply ++ 0 ∷ more
      → IsCString reply
      → length reply ≤ 11
      → (receive k w fd rest).printed ≡ some reply
  unfolding receive
  receive_whole w fd rest reply more ne e c short =
      rw (ne→==ℤ (k.sys_read w fd 12).c minus_one ne)
        (ap some (ap (result_of _) e ∙ result_of-whole _ reply more c short))

  -- Behind a reply of at most 3 bytes without a zero byte the program prints what it does not cover
  -- of the word END.
  receive_stale :
      (w : W) (fd : ℤ) (rest reply : List ℕ)
      → (k.sys_read w fd 12).c ≢ minus_one
      → (k.sys_read w fd 12).bytes ≡ reply
      → IsCString reply
      → length reply ≤ 3
      → (receive k w fd rest).printed ≡ some (reply ++ drop (length reply) end_word)
  unfolding receive
  receive_stale w fd rest reply ne e c short =
      rw (ne→==ℤ (k.sys_read w fd 12).c minus_one ne)
        (ap some (ap (result_of _) e ∙ result_of-stale rest reply c short))
