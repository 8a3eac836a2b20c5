-- ===== src/Base/Int.antt =====
-- Signed integers over the native numbers, and two's complement arithmetic of a given width.
use Prim.Native.Nat.{ℕ, suc, ◌+◌, ◌-◌, ◌%◌, ◌^◌, ◌≤◌}
use mathlib.Core.Path.{◌≡◌}
use mathlib.Core.Bool.{Bool, ◌&&◌}
use native.Mathlib.Omega.{arith}
use advanced_roleplaying_fra.Base.Tests.{ltb, leb, if◌then◌else◌}

-- `negsuc n` is -(n + 1).
pub data ℤ : Type 0 where
  pos : ℕ → ℤ
  negsuc : ℕ → ℤ

abbrev pub pos_part : ℤ → ℕ
pos_part (pos n) = n
pos_part (negsuc n) = 0

abbrev pub neg_part : ℤ → ℕ
neg_part (pos n) = 0
neg_part (negsuc n) = suc n

abbrev pub sub_ℕ : ℕ → ℕ → ℤ
sub_ℕ a b = if leb b a then pos (a - b) else negsuc (b - a - 1)

infixl 65 ◌+ℤ◌
infix 50 ◌≤ℤ◌
unfoldable pub ◌+ℤ◌ : ℤ → ℤ → ℤ
a +ℤ b = sub_ℕ (pos_part a + pos_part b) (neg_part a + neg_part b)

abbrev pub ◌≤ℤ◌ : ℤ → ℤ → Type 0
a ≤ℤ b = pos_part a + neg_part b ≤ pos_part b + neg_part a

abbrev pub leb_ℤ : ℤ → ℤ → Bool
leb_ℤ a b = leb (pos_part a + neg_part b) (pos_part b + neg_part a)

-- `(lo..=hi).contains(&a)`.
abbrev pub in_range : ℤ → ℤ → ℤ → Bool
in_range lo hi a = leb_ℤ lo a && leb_ℤ a hi

abbrev pub InRange : ℤ → ℤ → ℤ → Type 0
InRange lo hi a = (lo ≤ℤ a) × (a ≤ℤ hi)

-- The bit pattern of width w, and the signed number that a pattern below 2 ^ w stands for.
abbrev pub pattern_of : ℕ → ℤ → ℕ
pattern_of w (pos n) = n % 2 ^ w
pattern_of w (negsuc n) = 2 ^ w - 1 - n % 2 ^ w

abbrev pub signed_of : ℕ → ℕ → ℤ
signed_of w r = if ltb r (2 ^ (w - 1)) then pos r else negsuc (2 ^ w - 1 - r)

-- Addition of i16, i32 and i64, which wraps around; `as u8` keeps the low eight bits.
unfoldable pub add_i16 : ℤ → ℤ → ℤ
add_i16 a b = signed_of 16 (pattern_of 16 (a +ℤ b))

unfoldable pub add_i32 : ℤ → ℤ → ℤ
add_i32 a b = signed_of 32 (pattern_of 32 (a +ℤ b))

unfoldable pub add_i64 : ℤ → ℤ → ℤ
add_i64 a b = signed_of 64 (pattern_of 64 (a +ℤ b))

unfoldable pub as_u8 : ℤ → ℕ
as_u8 a = pattern_of 8 a

-- `a.clamp(lo, hi)`.
unfoldable pub clamp : ℤ → ℤ → ℤ → ℤ
clamp lo hi a = if leb_ℤ a lo then lo else if leb_ℤ hi a then hi else a

abbrev pub i8_min : ℤ
i8_min = negsuc 127

abbrev pub i8_max : ℤ
i8_max = pos 127

abbrev pub i32_min : ℤ
i32_min = negsuc 2147483647

abbrev pub i32_max : ℤ
i32_max = pos 2147483647

abbrev pub i64_min : ℤ
i64_min = negsuc 9223372036854775807

abbrev pub i64_max : ℤ
i64_max = pos 9223372036854775807

pub +ℤ_parts :
    (a b : ℤ)
    → pos_part (a +ℤ b) + neg_part a + neg_part b ≡ neg_part (a +ℤ b) + pos_part a + pos_part b
unfolding ◌+ℤ◌
+ℤ_parts a b = ground arith

pub eq_of_parts : (a b : ℤ) → pos_part a + neg_part b ≡ pos_part b + neg_part a → a ≡ b
eq_of_parts a b h = ground arith

pub ruleset int_laws = (arith, +ℤ_parts, eq_of_parts)

-- Where the exact sum fits, the machine sum is the exact sum.
signed_pattern32 : (a : ℤ) → InRange i32_min i32_max a → signed_of 32 (pattern_of 32 a) ≡ a
signed_pattern32 (pos n) h = ground arith
signed_pattern32 (negsuc n) h = ground arith

signed_pattern64 : (a : ℤ) → InRange i64_min i64_max a → signed_of 64 (pattern_of 64 a) ≡ a
signed_pattern64 (pos n) h = ground arith
signed_pattern64 (negsuc n) h = ground arith

pub add_i32-exact : (a b : ℤ) → InRange i32_min i32_max (a +ℤ b) → add_i32 a b ≡ a +ℤ b
unfolding add_i32
add_i32-exact a b h = signed_pattern32 (a +ℤ b) h

pub add_i64-exact : (a b : ℤ) → InRange i64_min i64_max (a +ℤ b) → add_i64 a b ≡ a +ℤ b
unfolding add_i64
add_i64-exact a b h = signed_pattern64 (a +ℤ b) h

-- A value clamped to the range from 0 to m, cut to eight bits, is at most m.
pub as_u8-clamp-le : (m : ℕ) (a : ℤ) → as_u8 (clamp (pos 0) (pos m) a) ≤ m
unfolding as_u8 clamp
as_u8-clamp-le m (pos n) = ground arith
as_u8-clamp-le m (negsuc n) = ground arith
