-- ===== src/Base/Bits.antt =====
-- Laws of the native bit operations at variables: the lowest digit of a result, shifts, and the
-- algebra of exclusive or.
use Prim.Native.Nat.{
  ℕ, zero, suc, ◌+◌, ◌*◌, ◌/◌, ◌%◌, ◌≤◌, ◌<◌, min, differ, digits, bit_and, bit_xor,
  bit_and-bitwise, bit_xor-bitwise,
}
use mathlib.Core.Path.{◌≡◌, refl, sym, ap, ◌∙◌}
use mathlib.Core.Logic.{◌⊎◌}
use native.Mathlib.Omega.{arith}

-- The count of digits to go makes no difference as long as it reaches.
module _ (z : ℕ → ℕ) (f : ℕ → ℕ → ℕ) where
  digits_reach :
      (a b : ℕ) (big small : ℕ) → a ≤ small → a ≤ big → digits z f big a b ≡ digits z f small a b
  digits_reach zero b zero zero _ _ = refl
  digits_reach zero b zero (suc small) _ _ = refl
  digits_reach zero b (suc big) zero _ _ = refl
  digits_reach zero b (suc big) (suc small) _ _ = refl
  digits_reach (suc a) b zero small s t = absurd (omega arith)
  digits_reach (suc a) b (suc big) zero s t = absurd (omega arith)
  digits_reach (suc a) b (suc big) (suc small) s t =
      ap (λ d. d * 2 + f (suc a % 2) (b % 2))
        (digits_reach (suc a / 2) (b / 2) big small (omega arith) (omega arith))

-- One digit at a time.
pub bit_and_digit : (a b : ℕ) → bit_and a b ≡ bit_and (a / 2) (b / 2) * 2 + min (a % 2) (b % 2)
bit_and_digit zero b = omega (arith, bit_and-bitwise 0 b, bit_and-bitwise 0 (b / 2))
bit_and_digit (suc a) b =
    let half =
      digits_reach (λ b. zero) min (suc a / 2) (b / 2) a (suc a / 2) (omega arith) (omega arith) in
    omega (arith, bit_and-bitwise (suc a) b, bit_and-bitwise (suc a / 2) (b / 2), half)

bit_xor_digit : (a b : ℕ) → bit_xor a b ≡ bit_xor (a / 2) (b / 2) * 2 + differ (a % 2) (b % 2)
bit_xor_digit zero b = omega (arith, bit_xor-bitwise 0 b, bit_xor-bitwise 0 (b / 2))
bit_xor_digit (suc a) b =
    let half =
      digits_reach (λ b. b) differ (suc a / 2) (b / 2) a (suc a / 2) (omega arith) (omega arith) in
    omega (arith, bit_xor-bitwise (suc a) b, bit_xor-bitwise (suc a / 2) (b / 2), half)

digit-cases : (a : ℕ) → (a % 2 ≡ 0) ⊎ (a % 2 ≡ 1)
digit-cases a = omega arith

differ_sum : (x y : ℕ) → x < 2 → y < 2 → differ x y ≡ (x + y) % 2
differ_sum zero y p q = omega arith
differ_sum (suc zero) zero p q = refl
differ_sum (suc zero) (suc zero) p q = refl
differ_sum (suc zero) (suc (suc y)) p q = absurd (omega arith)
differ_sum (suc (suc x)) y p q = absurd (omega arith)

-- The lowest digit and the others, by arithmetic.
pub bit_xor_mod : (a b : ℕ) → bit_xor a b % 2 ≡ (a + b) % 2
bit_xor_mod a b =
    omega (arith, bit_xor_digit a b, differ_sum (a % 2) (b % 2) (omega arith) (omega arith))

pub bit_xor_half : (a b : ℕ) → bit_xor a b / 2 ≡ bit_xor (a / 2) (b / 2)
bit_xor_half a b =
    omega (arith, bit_xor_digit a b, differ_sum (a % 2) (b % 2) (omega arith) (omega arith))

-- Two numbers are equal if their lowest digits and the others are.
by_digits : (x y : ℕ) → x % 2 ≡ y % 2 → x / 2 ≡ y / 2 → x ≡ y
by_digits x y p q = omega arith

pub zero-bit_xor : (b : ℕ) → bit_xor 0 b ≡ b
zero-bit_xor b = bit_xor-bitwise 0 b

bit_xor_comm_below : (n a b : ℕ) → a ≤ n → b ≤ n → bit_xor a b ≡ bit_xor b a
bit_xor_comm_below zero zero zero p q = refl
bit_xor_comm_below zero (suc a) b p q = absurd (omega arith)
bit_xor_comm_below zero zero (suc b) p q = absurd (omega arith)
bit_xor_comm_below (suc n) a b p q =
    by_digits _ _ (omega (arith, bit_xor_mod a b, bit_xor_mod b a)) (
      bit_xor_half a b
      ∙ bit_xor_comm_below n (a / 2) (b / 2) (omega arith) (omega arith)
      ∙ sym (bit_xor_half b a))

pub bit_xor_comm : (a b : ℕ) → bit_xor a b ≡ bit_xor b a
bit_xor_comm a b = bit_xor_comm_below (a + b) a b (omega arith) (omega arith)

pub bit_xor-zero : (a : ℕ) → bit_xor a 0 ≡ a
bit_xor-zero a = bit_xor_comm a 0 ∙ zero-bit_xor a

bit_xor_assoc_below :
    (n a b c : ℕ) → a + b + c ≤ n → bit_xor (bit_xor a b) c ≡ bit_xor a (bit_xor b c)
bit_xor_assoc_below zero zero zero zero p = refl
bit_xor_assoc_below zero zero zero (suc c) p = absurd (omega arith)
bit_xor_assoc_below zero zero (suc b) c p = absurd (omega arith)
bit_xor_assoc_below zero (suc a) b c p = absurd (omega arith)
bit_xor_assoc_below (suc n) a b c p =
    by_digits _ _
      (omega (
        arith,
        bit_xor_mod (bit_xor a b) c,
        bit_xor_mod a b,
        bit_xor_mod a (bit_xor b c),
        bit_xor_mod b c,
      ))
      (simp (bit_xor_half, bit_xor_assoc_below n (a / 2) (b / 2) (c / 2) (omega arith)))

pub bit_xor_assoc : (a b c : ℕ) → bit_xor (bit_xor a b) c ≡ bit_xor a (bit_xor b c)
bit_xor_assoc a b c = bit_xor_assoc_below (a + b + c) a b c (omega arith)

bit_xor_self_below : (n a : ℕ) → a ≤ n → bit_xor a a ≡ 0
bit_xor_self_below zero zero p = refl
bit_xor_self_below zero (suc a) p = absurd (omega arith)
bit_xor_self_below (suc n) a p =
    by_digits _ _ (omega (arith, bit_xor_mod a a))
      (bit_xor_half a a ∙ bit_xor_self_below n (a / 2) (omega arith))

pub bit_xor_self : (a : ℕ) → bit_xor a a ≡ 0
bit_xor_self a = bit_xor_self_below a a (omega arith)

-- What is combined twice is gone.
pub bit_xor_cancel : (a b : ℕ) → bit_xor (bit_xor a b) b ≡ a
bit_xor_cancel a b = bit_xor_assoc a b b ∙ ap (bit_xor a) (bit_xor_self b) ∙ bit_xor-zero a

pub bit_xor_inj : (a b c : ℕ) → bit_xor a c ≡ bit_xor b c → a ≡ b
bit_xor_inj a b c e = sym (bit_xor_cancel a c) ∙ ap (λ x. bit_xor x c) e ∙ bit_xor_cancel b c

pub bit_xor_inj_left : (a b c : ℕ) → bit_xor c a ≡ bit_xor c b → a ≡ b
bit_xor_inj_left a b c e = bit_xor_inj a b c (bit_xor_comm a c ∙ e ∙ bit_xor_comm c b)

-- Eight digits at once.
pub bit_xor_high : (a b : ℕ) → bit_xor a b / 256 ≡ bit_xor (a / 256) (b / 256)
bit_xor_high a b = simp (eighth (bit_xor a b), eighth a, eighth b, bit_xor_half)
  where
    eighth : (x : ℕ) → x / 256 ≡ x / 2 / 2 / 2 / 2 / 2 / 2 / 2 / 2
    eighth x = omega arith

-- A remainder by twice the modulus has one digit more.
abbrev Splits : ℕ → Type 0
Splits m = (a b : ℕ) → bit_xor a b % m ≡ bit_xor (a % m) (b % m)

Splits-double :
    (m twice : ℕ)
    → ((x : ℕ) → x % twice / 2 ≡ x / 2 % m)
    → ((x : ℕ) → x % twice % 2 ≡ x % 2)
    → Splits m
    → Splits twice
Splits-double m twice half low ih a b =
    by_digits _ _
      (omega (
        arith,
        low (bit_xor a b),
        bit_xor_mod a b,
        bit_xor_mod (a % twice) (b % twice),
        low a,
        low b,
      ))
      (half (bit_xor a b)
        ∙ ap (λ x. x % m) (bit_xor_half a b)
        ∙ ih (a / 2) (b / 2)
        ∙ sym (
            bit_xor_half (a % twice) (b % twice)
            ∙ ap (λ x. bit_xor x (b % twice / 2)) (half a)
            ∙ ap (bit_xor (a / 2 % m)) (half b)))

one-Splits : Splits 1
one-Splits a b =
    omega
      (arith, ap (λ x. bit_xor x (b % 1)) (zero_mod a), ap (bit_xor 0) (zero_mod b), zero-bit_xor 0)
  where
    zero_mod : (x : ℕ) → x % 1 ≡ 0
    zero_mod x = omega arith

four-Splits : Splits 4
four-Splits =
    Splits-double 2 4 (λ x. omega arith) (λ x. omega arith)
      (Splits-double 1 2 (λ x. omega arith) (λ x. omega arith) one-Splits)

sixteen-Splits : Splits 16
sixteen-Splits =
    Splits-double 8 16 (λ x. omega arith) (λ x. omega arith)
      (Splits-double 4 8 (λ x. omega arith) (λ x. omega arith) four-Splits)

sixty_four-Splits : Splits 64
sixty_four-Splits =
    Splits-double 32 64 (λ x. omega arith) (λ x. omega arith)
      (Splits-double 16 32 (λ x. omega arith) (λ x. omega arith) sixteen-Splits)

pub bit_xor_low : (a b : ℕ) → bit_xor a b % 256 ≡ bit_xor (a % 256) (b % 256)
bit_xor_low =
    Splits-double 128 256 (λ x. omega arith) (λ x. omega arith)
      (Splits-double 64 128 (λ x. omega arith) (λ x. omega arith) sixty_four-Splits)

-- A result is no longer than its arguments.
pub bit_xor_word : (a b : ℕ) → a < 65536 → b < 65536 → bit_xor a b < 65536
bit_xor_word a b p q =
    let h : bit_xor a b / 256 / 256 ≡ 0 =
      ap (λ x. x / 256) (bit_xor_high a b)
      ∙ bit_xor_high (a / 256) (b / 256)
      ∙ ap (λ x. bit_xor x (b / 256 / 256)) (none a p)
      ∙ ap (bit_xor 0) (none b q)
      ∙ zero-bit_xor 0 in
    omega arith
  where
    none : (x : ℕ) → x < 65536 → x / 256 / 256 ≡ 0
    none x h = omega arith

by_bytes : (x y : ℕ) → x / 256 ≡ y / 256 → x % 256 ≡ y % 256 → x ≡ y
by_bytes x y p q = omega arith

-- The low byte and the rest make up the number.
pub bit_xor_join : (x : ℕ) → bit_xor (x % 256) (256 * (x / 256)) ≡ x
bit_xor_join x =
    by_bytes _ _
      (bit_xor_high (x % 256) (256 * (x / 256))
        ∙ ap (λ t. bit_xor t (256 * (x / 256) / 256)) (no_high x)
        ∙ zero-bit_xor _
        ∙ high_only x)
      (bit_xor_low (x % 256) (256 * (x / 256))
        ∙ ap (bit_xor (x % 256 % 256)) (no_low x)
        ∙ bit_xor-zero _
        ∙ low_only x)
  where
    no_high : (y : ℕ) → y % 256 / 256 ≡ 0
    no_high y = omega arith

    high_only : (y : ℕ) → 256 * (y / 256) / 256 ≡ y / 256
    high_only y = omega arith

    no_low : (y : ℕ) → 256 * (y / 256) % 256 ≡ 0
    no_low y = omega arith

    low_only : (y : ℕ) → y % 256 % 256 ≡ y % 256
    low_only y = omega arith
