-- ===== src/Prelude/Int.antt =====
-- Signed numbers over the native numbers, and the wrap-around of Rust's `i64`.
use Prim.Native.Nat.{ℕ, suc, ◌+◌, ◌-◌, ◌%◌, ◌^◌, ◌≤◌, ◌<◌}
use mathlib.Core.Path.{◌≡◌}
use mathlib.Core.Bool.{Bool}
use native.Mathlib.Omega.{arith}
use rusty_dendrite.Prelude.Tests.{ltb, leb, if◌then◌else◌}

-- `negsuc n` is -(n + 1).
pub data ℤ : Type 0 where
  pos : ℕ → ℤ
  negsuc : ℕ → ℤ

abbrev pub pos_part : ℤ → ℕ
pos_part (pos n) = n
pos_part (negsuc n) = 0

abbrev pub neg_part : ℤ → ℕ
neg_part (pos n) = 0
neg_part (negsuc n) = suc n

-- a - b, as an integer.
abbrev pub sub_ℕ : ℕ → ℕ → ℤ
sub_ℕ a b = if leb b a then pos (a - b) else negsuc (b - a - 1)

abbrev pub leb_ℤ : ℤ → ℤ → Bool
leb_ℤ a b = leb (pos_part a + neg_part b) (pos_part b + neg_part a)

-- The two's complement value of an integer on 64 bits.
abbrev pub wrap_i64 : ℤ → ℤ
wrap_i64 (pos n) = let m = n % 2 ^ 64 in if ltb m (2 ^ 63) then pos m else negsuc (2 ^ 64 - 1 - m)
wrap_i64 (negsuc n) =
    let m = n % 2 ^ 64 in if ltb m (2 ^ 63) then negsuc m else pos (2 ^ 64 - 1 - m)

infixl 65 ◌+i64◌ ◌-i64◌
-- `a + b` and `a - b` of Rust on `i64`, with the wrap-around of a release build.
unfoldable pub ◌+i64◌ : ℤ → ℤ → ℤ
a +i64 b = wrap_i64 (sub_ℕ (pos_part a + pos_part b) (neg_part a + neg_part b))

unfoldable pub ◌-i64◌ : ℤ → ℤ → ℤ
a -i64 b = wrap_i64 (sub_ℕ (pos_part a + neg_part b) (neg_part a + pos_part b))

abbrev pub i64_max : ℕ
i64_max = 2 ^ 63 - 1

pub pos-+i64 : (a b : ℕ) → a + b < 2 ^ 63 → pos a +i64 pos b ≡ pos (a + b)
unfolding ◌+i64◌
pos-+i64 a b h = ground arith

pub pos--i64 : (a b : ℕ) → b ≤ a → a < 2 ^ 63 → pos a -i64 pos b ≡ pos (a - b)
unfolding ◌-i64◌
pos--i64 a b h k = ground arith

pub add-one-ne : (a : ℤ) → ¬ (a +i64 pos 1 ≡ a)
unfolding ◌+i64◌
add-one-ne (pos n) e = ground arith
add-one-ne (negsuc n) e = ground arith
