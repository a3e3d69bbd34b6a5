-- ===== src/Crc16/Detect.antt =====
-- What the checksum of libnbuss/Crc16.cpp is good for: it can be computed in pieces, a message
-- with its checksum behind it has checksum 0, and a changed byte changes the checksum.
use nonblocking_unix_socket.Base.{
  ℕ, zero, suc, ◌+◌, ◌*◌, ◌/◌, ◌%◌, ◌<◌, ◌≡◌, ◌≢◌, refl, sym, ap, ◌∙◌, true, List, [], ◌∷◌, ◌++◌,
  some, ◌==◌, ==_iff, if◌then◌else◌, arith,
}
use Prim.Native.Nat.{bit_xor}
use nonblocking_unix_socket.Base.Masks.{bit_and_byte}
use nonblocking_unix_socket.Base.Bits.{
  bit_xor_high, bit_xor_low, bit_xor_inj, bit_xor_inj_left, bit_xor_self, bit_xor-zero,
  zero-bit_xor,
}
use nonblocking_unix_socket.Crc16.{
  make_crc16, crc_poly_16, update_crc_byte, crc_loop, update_crc_16, crc_16, crc_modbus,
  crc_start_16, crc_start_modbus,
}
use nonblocking_unix_socket.Crc16.Serial.{
  AreBytes, entry, all_below, all_below_at, update-lt-word, crc-eq-serial,
}

loop-append :
    (crc : ℕ) (xs ys : List ℕ)
    → crc_loop make_crc16 crc (xs ++ ys) ≡ crc_loop make_crc16 (crc_loop make_crc16 crc xs) ys
unfolding crc_loop
loop-append crc [] ys = refl
loop-append crc (x ∷ xs) ys = loop-append (update_crc_byte make_crc16 crc x) xs ys

update_entry :
    (crc c : ℕ)
    → update_crc_byte make_crc16 crc c ≡ bit_xor (crc / 256) (entry (bit_xor crc c % 256))
unfolding update_crc_byte
update_entry crc c = ap (λ i. bit_xor (crc / 256) (entry i)) (bit_and_byte (bit_xor crc c))

entry-zero : entry 0 ≡ 0
unfolding make_crc16
entry-zero = refl

-- The byte that the register has already: nothing is left of it.
update_own_byte : (crc c : ℕ) → c ≡ crc % 256 → update_crc_byte make_crc16 crc c ≡ crc / 256
update_own_byte crc c e =
    update_entry crc c
    ∙ ap (λ i. bit_xor (crc / 256) (entry i)) index
    ∙ ap (bit_xor (crc / 256)) entry-zero
    ∙ bit_xor-zero (crc / 256)
  where
    index : bit_xor crc c % 256 ≡ 0
    index =
        bit_xor_low crc c ∙ ap (λ b. bit_xor (crc % 256) b) (omega arith) ∙ bit_xor_self (crc % 256)

-- The checksum of a message, sent behind the message low byte first, as the bytes of a word.
abbrev pub word_bytes : ℕ → List ℕ
word_bytes w = w % 256 ∷ w / 256 ∷ []

-- The checksum of two pieces, the first of them bytes, is that of the second started at that of
-- the first, and a message of bytes with its own checksum behind it, low byte first, has checksum
-- 0.
crc_pieces :
    (xs ys : List ℕ)
    → AreBytes xs
    → (update_crc_16 make_crc16 (crc_16 make_crc16 (some xs)) (some ys)
        ≡ crc_16 make_crc16 (some (xs ++ ys)))
      × (crc_16 make_crc16 (some (xs ++ word_bytes (crc_16 make_crc16 (some xs)))) ≡ 0)
unfolding update_crc_16 crc_16
crc_pieces xs ys bytes = (sym (loop-append crc_start_16 xs ys), loop-append crc_start_16 xs _ ∙ own)
  where
    w : ℕ
    w = crc_loop make_crc16 crc_start_16 xs

    word : w < 65536
    word = (crc-eq-serial crc_start_16 xs (omega arith) bytes).1

    own : crc_loop make_crc16 w (word_bytes w) ≡ 0
    own =
        unfold crc_loop in
        (ap (λ r. update_crc_byte make_crc16 r (w / 256)) (update_own_byte w (w % 256) refl)
          ∙ update_own_byte (w / 256) (w / 256) (omega (arith, word))
          ∙ omega (arith, word))

-- A step of the register, undone.
abbrev unshift : ℕ → ℕ
unshift r = if r / 32768 == 0 then 2 * r else (2 * bit_xor r crc_poly_16 + 1) % 65536

unshift_times : ℕ → ℕ → ℕ
unshift_times zero r = r
unshift_times (suc n) r = unshift_times n (unshift r)

-- The high byte of an entry tells which entry it is.
index_of : ℕ → ℕ
index_of high = unshift_times 8 (256 * high) % 256

indices_checked : all_below 256 (λ i. index_of (entry i / 256) == i) ≡ true
unfolding all_below index_of unshift_times make_crc16
indices_checked = refl

entry_high_inj : (i j : ℕ) → i < 256 → j < 256 → entry i / 256 ≡ entry j / 256 → i ≡ j
entry_high_inj i j p q e = sym (at i p) ∙ ap index_of e ∙ at j q
  where
    at : (n : ℕ) → n < 256 → index_of (entry n / 256) ≡ n
    at n h =
        (==_iff _ n).0 (all_below_at 256 (λ m. index_of (entry m / 256) == m) n h indices_checked)

-- The high byte after a byte is that of the entry.
update_high :
    (crc c : ℕ)
    → crc < 65536
    → update_crc_byte make_crc16 crc c / 256 ≡ entry (bit_xor crc c % 256) / 256
update_high crc c p =
    ap (λ r. r / 256) (update_entry crc c)
    ∙ bit_xor_high (crc / 256) (entry (bit_xor crc c % 256))
    ∙ ap (λ h. bit_xor h (entry (bit_xor crc c % 256) / 256)) (omega arith)
    ∙ zero-bit_xor _

same_index :
    (crc crc' c c' : ℕ)
    → crc < 65536
    → crc' < 65536
    → update_crc_byte make_crc16 crc c ≡ update_crc_byte make_crc16 crc' c'
    → bit_xor crc c % 256 ≡ bit_xor crc' c' % 256
same_index crc crc' c c' p p' e =
    entry_high_inj _ _ (omega arith) (omega arith)
      (sym (update_high crc c p) ∙ ap (λ r. r / 256) e ∙ update_high crc' c' p')

-- Equal results after the same byte come from equal values.
update_inj :
    (crc crc' c : ℕ)
    → crc < 65536
    → crc' < 65536
    → update_crc_byte make_crc16 crc c ≡ update_crc_byte make_crc16 crc' c
    → crc ≡ crc'
update_inj crc crc' c p p' e = omega (arith, high, low)
  where
    index : bit_xor crc c % 256 ≡ bit_xor crc' c % 256
    index = same_index crc crc' c c p p' e

    low : crc % 256 ≡ crc' % 256
    low =
        bit_xor_inj (crc % 256) (crc' % 256) (c % 256)
          (sym (bit_xor_low crc c) ∙ index ∙ bit_xor_low crc' c)

    high : crc / 256 ≡ crc' / 256
    high = bit_xor_inj (crc / 256) (crc' / 256) (entry (bit_xor crc c % 256)) (
        sym (update_entry crc c)
        ∙ e
        ∙ update_entry crc' c
        ∙ ap (λ i. bit_xor (crc' / 256) (entry i)) (sym index))

-- Different bytes give different results from the same value.
update_byte_inj :
    (crc a b : ℕ)
    → crc < 65536
    → a < 256
    → b < 256
    → update_crc_byte make_crc16 crc a ≡ update_crc_byte make_crc16 crc b
    → a ≡ b
update_byte_inj crc a b p ha hb e = omega (
  arith,
  bit_xor_inj_left (a % 256) (b % 256) (crc % 256)
      (sym (bit_xor_low crc a) ∙ same_index crc crc a b p p e ∙ bit_xor_low crc b),
)

loop-lt-word : (crc : ℕ) (xs : List ℕ) → crc < 65536 → crc_loop make_crc16 crc xs < 65536
unfolding crc_loop
loop-lt-word crc [] p = p
loop-lt-word crc (x ∷ xs) p =
    loop-lt-word (update_crc_byte make_crc16 crc x) xs (update-lt-word crc x p)

loop_inj :
    (crc crc' : ℕ) (xs : List ℕ)
    → crc < 65536
    → crc' < 65536
    → crc_loop make_crc16 crc xs ≡ crc_loop make_crc16 crc' xs
    → crc ≡ crc'
unfolding crc_loop
loop_inj crc crc' [] p p' e = e
loop_inj crc crc' (x ∷ xs) p p' e = update_inj crc crc' x p p' (
    loop_inj (update_crc_byte make_crc16 crc x) (update_crc_byte make_crc16 crc' x) xs
      (update-lt-word crc x p) (update-lt-word crc' x p') e)

-- Two messages that differ in one element, a byte in each, differ in both checksums.
crc_detects :
    (xs ys : List ℕ) (a b : ℕ)
    → a < 256
    → b < 256
    → a ≢ b
    → (crc_16 make_crc16 (some (xs ++ a ∷ ys)) ≢ crc_16 make_crc16 (some (xs ++ b ∷ ys)))
      × (crc_modbus make_crc16 (some (xs ++ a ∷ ys)) ≢ crc_modbus make_crc16 (some (xs ++ b ∷ ys)))
unfolding crc_16 crc_modbus
crc_detects xs ys a b ha hb ne =
    (λ e. ne (from crc_start_16 (omega arith) e), λ e. ne (from crc_start_modbus (omega arith) e))
  where
    from :
        (start : ℕ)
        → start < 65536
        → crc_loop make_crc16 start (xs ++ a ∷ ys) ≡ crc_loop make_crc16 start (xs ++ b ∷ ys)
        → a ≡ b
    from start p e =
        let w : ℕ = crc_loop make_crc16 start xs in
        let word : w < 65536 = loop-lt-word start xs p in
        update_byte_inj w a b word ha hb (
          loop_inj (update_crc_byte make_crc16 w a) (update_crc_byte make_crc16 w b) ys
            (update-lt-word w a word) (update-lt-word w b word)
            (unfold crc_loop in
              (sym (loop-append start xs (a ∷ ys)) ∙ e ∙ loop-append start xs (b ∷ ys))))
