-- ===== src/Base/Int.antt =====
-- The C++ `int` and `ssize_t` as signed integers over the native numbers, without a bound: the
-- values of the program (descriptors, byte counts, the connection counter) stay far inside theirs.
use nonblocking_unix_socket.Base.Tests.{ltb, leb, ◌==◌, if◌then◌else◌}
use Prim.Native.Nat.{ℕ, suc, ◌+◌, ◌-◌, ◌≤◌}
use mathlib.Core.Path.{◌≡◌, refl}
use mathlib.Core.Logic.{◌≢◌, ◌⊎◌}
use mathlib.Core.Bool.{Bool, true, false}
use native.Mathlib.Omega.{arith}

-- `negsuc n` is -(n + 1).
pub data ℤ : Type 0 where
  pos : ℕ → ℤ
  negsuc : ℕ → ℤ

abbrev pub minus_one : ℤ
minus_one = negsuc 0

abbrev pub pos_part : ℤ → ℕ
pos_part (pos n) = n
pos_part (negsuc n) = 0

abbrev pub neg_part : ℤ → ℕ
neg_part (pos n) = 0
neg_part (negsuc n) = suc n

-- a - b, as an integer.
abbrev pub sub_ℕ : ℕ → ℕ → ℤ
sub_ℕ a b = if leb b a then pos (a - b) else negsuc (b - a - 1)

infixl 65 ◌+ℤ◌ ◌-ℤ◌
unfoldable pub ◌+ℤ◌ : ℤ → ℤ → ℤ
a +ℤ b = sub_ℕ (pos_part a + pos_part b) (neg_part a + neg_part b)

unfoldable pub ◌-ℤ◌ : ℤ → ℤ → ℤ
a -ℤ b = sub_ℕ (pos_part a + neg_part b) (neg_part a + pos_part b)

abbrev pub ltb_ℤ : ℤ → ℤ → Bool
ltb_ℤ a b = ltb (pos_part a + neg_part b) (pos_part b + neg_part a)

infix 50 ◌==ℤ◌
abbrev pub ◌==ℤ◌ : ℤ → ℤ → Bool
pos a ==ℤ pos b = a == b
negsuc a ==ℤ negsuc b = a == b
_ ==ℤ _ = false

-- a < b on the integers, through the parts.
infix 50 ◌<ℤ◌
abbrev pub ◌<ℤ◌ : ℤ → ℤ → Type 0
a <ℤ b = suc (pos_part a + neg_part b) ≤ pos_part b + neg_part a

pub ==ℤ→eq : (a b : ℤ) → (a ==ℤ b) ≡ true → a ≡ b
==ℤ→eq (pos a) (pos b) h = ground arith
==ℤ→eq (negsuc a) (negsuc b) h = ground arith
==ℤ→eq (pos a) (negsuc b) h = cc
==ℤ→eq (negsuc a) (pos b) h = cc

pub ==ℤ_refl : (a : ℤ) → (a ==ℤ a) ≡ true
==ℤ_refl (pos a) = ground arith
==ℤ_refl (negsuc a) = ground arith

pub ==ℤ→ne : (a b : ℤ) → (a ==ℤ b) ≡ false → a ≢ b
==ℤ→ne a b h e = ground (arith, ==ℤ_refl a)

pub ne→==ℤ : (a b : ℤ) → a ≢ b → (a ==ℤ b) ≡ false
ne→==ℤ a b h = ground (arith, ==ℤ→eq a b)

-- A descriptor is another one, or it is the same.
pub ==ℤ-cases : (a b : ℤ) → ((a ≡ b) × ((a ==ℤ b) ≡ true)) ⊎ ((a ≢ b) × ((a ==ℤ b) ≡ false))
==ℤ-cases a b = ground (arith, ==ℤ→eq a b, ==ℤ_refl a)

pub ltb_ℤ→lt : (a b : ℤ) → ltb_ℤ a b ≡ true → a <ℤ b
ltb_ℤ→lt a b h = ground arith

-- A number that is neither equal nor below is above.
pub ltb_ℤ→ge : (a b : ℤ) → (a ==ℤ b) ≡ false → ltb_ℤ a b ≡ false → b <ℤ a
ltb_ℤ→ge (pos a) (pos b) e h = ground arith
ltb_ℤ→ge (negsuc a) (negsuc b) e h = ground arith
ltb_ℤ→ge (pos a) (negsuc b) e h = ground arith
ltb_ℤ→ge (negsuc a) (pos b) e h = ground arith

pub <ℤ_ne : (a b : ℤ) → a <ℤ b → (a ==ℤ b) ≡ false
<ℤ_ne (pos a) (pos b) h = ground arith
<ℤ_ne (negsuc a) (negsuc b) h = ground arith
<ℤ_ne (pos a) (negsuc b) h = refl
<ℤ_ne (negsuc a) (pos b) h = refl

pub <ℤ_trans : (a b c : ℤ) → a <ℤ b → b <ℤ c → a <ℤ c
<ℤ_trans a b c h k = omega arith

pub one_less : (n m : ℕ) → n ≡ suc m → pos n -ℤ pos 1 ≡ pos m
unfolding ◌-ℤ◌
one_less n m h = ground arith

pub one_more : (n m : ℕ) → m ≡ suc n → pos n +ℤ pos 1 ≡ pos m
unfolding ◌+ℤ◌
one_more n m h = ground arith
