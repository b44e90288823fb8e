-- ===== src/Common/Int.antt =====
-- Signed integers over the native numbers, and Go's int32, uint8 and truncated division.
use factom_code.Common.{
  ℕ, suc, ◌+◌, ◌-◌, ◌/◌, ◌%◌, ◌^◌, ◌≤◌, ◌<◌, ◌≡◌, Bool, arith, ltb, leb, if◌then◌else◌,
}

-- `negsuc n` is -(n + 1).
pub data ℤ : Type 0 where
  pos : ℕ → ℤ
  negsuc : ℕ → ℤ

abbrev pub pos_part : ℤ → ℕ
pos_part (pos n) = n
pos_part (negsuc n) = 0

abbrev pub neg_part : ℤ → ℕ
neg_part (pos n) = 0
neg_part (negsuc n) = suc n

-- a - b, as an integer.
abbrev pub sub_ℕ : ℕ → ℕ → ℤ
sub_ℕ a b = if leb b a then pos (a - b) else negsuc (b - a - 1)

infixl 65 ◌+ℤ◌ ◌-ℤ◌
infix 50 ◌≤ℤ◌
unfoldable pub ◌+ℤ◌ : ℤ → ℤ → ℤ
a +ℤ b = sub_ℕ (pos_part a + pos_part b) (neg_part a + neg_part b)

unfoldable pub ◌-ℤ◌ : ℤ → ℤ → ℤ
a -ℤ b = sub_ℕ (pos_part a + neg_part b) (neg_part a + pos_part b)

abbrev pub ◌≤ℤ◌ : ℤ → ℤ → Type 0
a ≤ℤ b = pos_part a + neg_part b ≤ pos_part b + neg_part a

abbrev pub ltb_ℤ : ℤ → ℤ → Bool
ltb_ℤ a b = ltb (pos_part a + neg_part b) (pos_part b + neg_part a)

-- Go's `/` and `%` on int, by a positive number: both round towards zero.
unfoldable pub quot : ℤ → ℕ → ℤ
quot (pos n) d = pos (n / d)
quot (negsuc n) d = sub_ℕ 0 (suc n / d)

unfoldable pub rem : ℤ → ℕ → ℤ
rem (pos n) d = pos (n % d)
rem (negsuc n) d = sub_ℕ 0 (suc n % d)

-- The low bits of an integer in two's complement, for a modulus of 2 ^ w.
abbrev pub low_word : ℕ → ℤ → ℕ
low_word m (pos n) = n % m
low_word m (negsuc n) = m - 1 - n % m

-- A bit pattern of 32 bits read as an int32.
abbrev pub signed_32 : ℕ → ℤ
signed_32 u = if ltb u (2 ^ 31) then pos u else negsuc (2 ^ 32 - u - 1)

-- int32 arithmetic wraps.
unfoldable pub wrap_32 : ℤ → ℤ
wrap_32 z = signed_32 (low_word (2 ^ 32) z)

abbrev pub IsInt32 : ℤ → Type 0
IsInt32 z = (pos_part z < 2 ^ 31) × (neg_part z ≤ 2 ^ 31)

pub wrap_32_same : (z : ℤ) → IsInt32 z → wrap_32 z ≡ z
unfolding wrap_32
wrap_32_same (pos n) h = ground arith
wrap_32_same (negsuc n) h = ground arith

pub wrap_32-IsInt32 : (z : ℤ) → IsInt32 (wrap_32 z)
unfolding wrap_32
wrap_32-IsInt32 (pos n) = ground arith
wrap_32-IsInt32 (negsuc n) = ground arith

pub +ℤ_parts :
    (a b : ℤ)
    → pos_part (a +ℤ b) + neg_part a + neg_part b ≡ neg_part (a +ℤ b) + pos_part a + pos_part b
unfolding ◌+ℤ◌
+ℤ_parts a b = ground arith

pub -ℤ_parts :
    (a b : ℤ)
    → pos_part (a -ℤ b) + neg_part a + pos_part b ≡ neg_part (a -ℤ b) + pos_part a + neg_part b
unfolding ◌-ℤ◌
-ℤ_parts a b = ground arith
