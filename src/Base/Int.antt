-- ===== src/Base/Int.antt =====
-- Signed integers over the native numbers, under the library's names: the C type `int`, and `long`,
-- where the code keeps within their range. Sums and orders go through the two parts of an integer,
-- which are numbers.
use xtf.Base.{ℕ, suc, ◌+◌, ◌-◌, ◌%◌, ◌^◌, ◌≤◌, ◌<◌, ◌≡◌, Bool, arith, ltb, leb, if◌then◌else◌}

-- `negsuc n` is -(n + 1).
pub data ℤ : Type 0 where
  pos : ℕ → ℤ
  negsuc : ℕ → ℤ

abbrev pub pos_part : ℤ → ℕ
pos_part (pos n) = n
pos_part (negsuc n) = 0

abbrev pub neg_part : ℤ → ℕ
neg_part (pos n) = 0
neg_part (negsuc n) = suc n

-- a - b, as an integer.
abbrev pub sub_ℕ : ℕ → ℕ → ℤ
sub_ℕ a b = if leb b a then pos (a - b) else negsuc (b - a - 1)

infixl 65 ◌+ℤ◌ ◌-ℤ◌
infix 50 ◌<ℤ◌
unfoldable pub ◌+ℤ◌ : ℤ → ℤ → ℤ
a +ℤ b = sub_ℕ (pos_part a + pos_part b) (neg_part a + neg_part b)

unfoldable pub ◌-ℤ◌ : ℤ → ℤ → ℤ
a -ℤ b = sub_ℕ (pos_part a + neg_part b) (neg_part a + pos_part b)

abbrev pub ◌<ℤ◌ : ℤ → ℤ → Type 0
a <ℤ b = pos_part a + neg_part b < pos_part b + neg_part a

abbrev pub ltb_ℤ : ℤ → ℤ → Bool
ltb_ℤ a b = ltb (pos_part a + neg_part b) (pos_part b + neg_part a)

-- A number of 32 bits or more that is converted to `int`: its low 32 bits as a two's complement.
abbrev pub narrow : ℕ → ℤ
narrow n = let low = n % 2 ^ 32 in if ltb low (2 ^ 31) then pos low else negsuc (2 ^ 32 - 1 - low)

pub narrow-small : (n : ℕ) → n < 2 ^ 31 → narrow n ≡ pos n
narrow-small n h = ground (arith, h)

pub narrow-negative : (n : ℕ) → 2 ^ 31 ≤ n → n < 2 ^ 32 → narrow n ≡ negsuc (2 ^ 32 - 1 - n)
narrow-negative n h k = ground (arith, h, k)

-- What is left of a count when `n` is taken off.
pub pos_part-sub : (a : ℤ) (n : ℕ) → pos_part (a -ℤ pos n) ≡ pos_part a - n
unfolding ◌-ℤ◌
pos_part-sub a n = ground arith
