-- ===== src/Base/Masks.antt =====
-- Masks: what `bit_and` leaves of a number.
use Prim.Native.Nat.{ℕ, zero, suc, ◌+◌, ◌*◌, ◌/◌, ◌%◌, ◌≤◌, bit_and, bit_and-bitwise}
use mathlib.Core.Path.{◌≡◌, ap}
use native.Mathlib.Omega.{arith}
use nonblocking_unix_socket.Base.Bits.{bit_and_digit}

bit_and-zero_below : (n a : ℕ) → a ≤ n → bit_and a 0 ≡ 0
bit_and-zero_below zero zero p = bit_and-bitwise 0 0
bit_and-zero_below zero (suc a) p = absurd (omega arith)
bit_and-zero_below (suc n) a p =
    omega (arith, bit_and_digit a 0, bit_and-zero_below n (a / 2) (omega arith))

pub bit_and-zero : (a : ℕ) → bit_and a 0 ≡ 0
bit_and-zero a = bit_and-zero_below a a (omega arith)

bit_and_double : (a m : ℕ) → bit_and a (2 * m) ≡ bit_and (a / 2) m * 2
bit_and_double a m = omega (arith, bit_and_digit a (2 * m), ap (bit_and (a / 2)) (half m))
  where
    half : (x : ℕ) → 2 * x / 2 ≡ x
    half x = omega arith

bit_and-one : (a : ℕ) → bit_and a 1 ≡ a % 2
bit_and-one a = omega (arith, bit_and_digit a 1, bit_and-zero (a / 2))

-- A mask of the lowest digits, one digit more.
abbrev Masks : ℕ → ℕ → Type 0
Masks m n = (a : ℕ) → bit_and a m ≡ a % n

Masks-double :
    (m next n twice : ℕ)
    → next / 2 ≡ m
    → next % 2 ≡ 1
    → ((x : ℕ) → x % twice ≡ x / 2 % n * 2 + x % 2)
    → Masks m n
    → Masks next twice
Masks-double m next n twice half low split ih a =
    omega (arith, bit_and_digit a next, ap (bit_and (a / 2)) half, ih (a / 2), low, split a)

eight-Masks : Masks 7 8
eight-Masks =
    Masks-double 3 7 4 8 (omega arith) (omega arith) (λ x. omega arith)
      (Masks-double 1 3 2 4 (omega arith) (omega arith) (λ x. omega arith) bit_and-one)

thirty_two-Masks : Masks 31 32
thirty_two-Masks =
    Masks-double 15 31 16 32 (omega arith) (omega arith) (λ x. omega arith)
      (Masks-double 7 15 8 16 (omega arith) (omega arith) (λ x. omega arith) eight-Masks)

seven_digits-Masks : Masks 127 128
seven_digits-Masks =
    Masks-double 63 127 64 128 (omega arith) (omega arith) (λ x. omega arith)
      (Masks-double 31 63 32 64 (omega arith) (omega arith) (λ x. omega arith) thirty_two-Masks)

-- `x & 0x00FF`
pub bit_and_byte : (a : ℕ) → bit_and a 255 ≡ a % 256
bit_and_byte =
    Masks-double 127 255 128 256 (omega arith) (omega arith) (λ x. omega arith) seven_digits-Masks

-- A mask of one digit, the twelfth.
pub bit_and_twelfth : (a : ℕ) → bit_and a 2048 ≡ a / 2048 % 2 * 2048
bit_and_twelfth a = omega (
  arith,
  bit_and_double a 1024,
  bit_and_double (a / 2) 512,
  bit_and_double (a / 2 / 2) 256,
  bit_and_double (a / 2 / 2 / 2) 128,
  bit_and_double (a / 2 / 2 / 2 / 2) 64,
  bit_and_double (a / 2 / 2 / 2 / 2 / 2) 32,
  bit_and_double (a / 2 / 2 / 2 / 2 / 2 / 2) 16,
  bit_and_double (a / 2 / 2 / 2 / 2 / 2 / 2 / 2) 8,
  bit_and_double (a / 2 / 2 / 2 / 2 / 2 / 2 / 2 / 2) 4,
  bit_and_double (a / 2 / 2 / 2 / 2 / 2 / 2 / 2 / 2 / 2) 2,
  bit_and_double (a / 2 / 2 / 2 / 2 / 2 / 2 / 2 / 2 / 2 / 2) 1,
  bit_and-one (a / 2 / 2 / 2 / 2 / 2 / 2 / 2 / 2 / 2 / 2 / 2),
)
