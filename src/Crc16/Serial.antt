-- ===== src/Crc16/Serial.antt =====
-- The table of libnbuss/Crc16.cpp against the shift register that it stands for, a bit at a time.
use nonblocking_unix_socket.Base.{
  ℕ, zero, suc, ◌*◌, ◌/◌, ◌%◌, ◌<◌, ◌≡◌, refl, sym, ap, ◌∙◌, Bool, true, ◌&&◌, Bool-cases, inl, inr,
  List, [], ◌∷◌, some, ◌==◌, ltb, if◌then◌else◌, get_or, bit_and, arith,
}
use Prim.Native.Nat.{bit_xor}
use nonblocking_unix_socket.Base.Masks.{bit_and_byte}
use nonblocking_unix_socket.Base.Bits.{
  bit_xor_mod, bit_xor_half, bit_xor_comm, bit_xor_assoc, bit_xor_high, bit_xor_word, bit_xor_join,
  bit_xor-zero,
}
use nonblocking_unix_socket.Crc16.{
  make_crc16, crc_poly_16, update_crc_byte, crc_loop, update_crc_16,
}

-- One step of the register: shift right, and combine with the polynomial if a one falls out.
abbrev shift : ℕ → ℕ
shift r = if r % 2 == 0 then r / 2 else bit_xor (r / 2) crc_poly_16

pub shift_times : ℕ → ℕ → ℕ
shift_times zero r = r
shift_times (suc n) r = shift_times n (shift r)

-- The register after a byte and after a string of bytes.
pub serial_crc : ℕ → List ℕ → ℕ
serial_crc crc [] = crc
serial_crc crc (c ∷ cs) = serial_crc (shift_times 8 (bit_xor crc c)) cs

unfoldable pub all_below : ℕ → (ℕ → Bool) → Bool
all_below zero p = true
all_below (suc n) p = p n && all_below n p

pub all_below_at : (n : ℕ) (p : ℕ → Bool) (x : ℕ) → x < n → all_below n p ≡ true → p x ≡ true
unfolding all_below
all_below_at zero p x l h = absurd (omega arith)
all_below_at (suc n) p x l h = ground (arith, all_below_at n p x)

abbrev pub entry : ℕ → ℕ
entry i = get_or (make_crc16).crc_tab16 i 0

entries_checked : all_below 256 (λ i. entry i == shift_times 8 i && ltb (entry i) 65536) ≡ true
unfolding all_below make_crc16 shift_times
entries_checked = refl

entry_facts : (i : ℕ) → i < 256 → (entry i ≡ shift_times 8 i) × (entry i < 65536)
entry_facts i h =
    let both =
      all_below_at 256 (λ j. entry j == shift_times 8 j && ltb (entry j) 65536) i h
        entries_checked in
    (ground (arith, both), ground (arith, both))

-- A number shifted left by `n`.
scale : ℕ → ℕ → ℕ
scale zero x = x
scale (suc n) x = 2 * scale n x

-- What stands above the digits that fall out is only shifted.
shift_above : (a b : ℕ) → shift (bit_xor a (2 * b)) ≡ bit_xor (shift a) b
shift_above a b = elim (Bool-cases (a % 2 == 0)) [
  | inl e ↦ rw (same, e) half
  | inr e ↦ rw (same, e) (ap (λ t. bit_xor t crc_poly_16) half ∙ swap_last)
]
  where
    same : bit_xor a (2 * b) % 2 ≡ a % 2
    same = omega (arith, bit_xor_mod a (2 * b))

    halved : (x : ℕ) → 2 * x / 2 ≡ x
    halved x = omega arith

    half : bit_xor a (2 * b) / 2 ≡ bit_xor (a / 2) b
    half = bit_xor_half a (2 * b) ∙ ap (bit_xor (a / 2)) (halved b)

    swap_last : bit_xor (bit_xor (a / 2) b) crc_poly_16 ≡ bit_xor (bit_xor (a / 2) crc_poly_16) b
    swap_last =
        bit_xor_assoc (a / 2) b crc_poly_16
        ∙ ap (bit_xor (a / 2)) (bit_xor_comm b crc_poly_16)
        ∙ sym (bit_xor_assoc (a / 2) crc_poly_16 b)

shift_times_above :
    (n a b : ℕ) → shift_times n (bit_xor a (scale n b)) ≡ bit_xor (shift_times n a) b
unfolding shift_times scale
shift_times_above zero a b = refl
shift_times_above (suc n) a b =
    ap (shift_times n) (shift_above a (scale n b)) ∙ shift_times_above n (shift a) b

scale_eight : (x : ℕ) → scale 8 x ≡ 256 * x
unfolding scale
scale_eight x = omega arith

pub update-eq-shift :
    (crc c : ℕ)
    → crc < 65536
    → c < 256
    → update_crc_byte make_crc16 crc c ≡ shift_times 8 (bit_xor crc c)
unfolding update_crc_byte
update-eq-shift crc c p q =
    bit_xor_comm (crc / 256) (get_or (make_crc16).crc_tab16 (bit_and x 255) 0)
    ∙ ap (λ i. bit_xor (entry i) (crc / 256)) (bit_and_byte x)
    ∙ ap (λ e. bit_xor e (crc / 256)) (entry_facts (x % 256) (omega arith)).0
    ∙ ap (bit_xor (shift_times 8 (x % 256))) (sym high)
    ∙ sym (shift_times_above 8 (x % 256) (x / 256))
    ∙ ap (shift_times 8) (ap (bit_xor (x % 256)) (scale_eight (x / 256)) ∙ bit_xor_join x)
  where
    x : ℕ
    x = bit_xor crc c

    high : bit_xor crc c / 256 ≡ crc / 256
    high = bit_xor_high crc c ∙ ap (bit_xor (crc / 256)) (omega arith) ∙ bit_xor-zero (crc / 256)

abbrev pub AreBytes : List ℕ → Type 0
AreBytes [] = Unit
AreBytes (c ∷ cs) = (c < 256) × AreBytes cs

pub update-lt-word : (crc c : ℕ) → crc < 65536 → update_crc_byte make_crc16 crc c < 65536
unfolding update_crc_byte
update-lt-word crc c p =
    let i = bit_and_byte (bit_xor crc c) in
    bit_xor_word (crc / 256) _ (omega arith)
      (rw i (entry_facts (bit_xor crc c % 256) (omega arith)).1)

-- For bytes and a 16-bit start value, the table gives what the shift register gives a bit at a
-- time, and the result is a 16-bit value again.
pub crc-eq-serial :
    (crc : ℕ) (input : List ℕ)
    → crc < 65536
    → AreBytes input
    → (update_crc_16 make_crc16 crc (some input) ≡ serial_crc crc input)
      × (update_crc_16 make_crc16 crc (some input) < 65536)
unfolding update_crc_16 crc_loop serial_crc
crc-eq-serial crc [] p bytes = (refl, p)
crc-eq-serial crc (c ∷ cs) p bytes =
    let next = update-eq-shift crc c p bytes.0 in
    let rest =
      crc-eq-serial (update_crc_byte make_crc16 crc c) cs (update-lt-word crc c p) bytes.1 in
    (rest.0 ∙ ap (λ r. serial_crc r cs) next, rest.1)
