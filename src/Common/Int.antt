-- ===== src/Common/Int.antt =====
-- Signed integers over the native numbers, for the parameters that the program tests for a sign.
use Prim.Native.Nat.{ℕ, suc, ◌+◌, ◌-◌, ◌≤◌, ◌%◌, ◌^◌}
use mathlib.Core.Bool.{Bool}
use maim.Common.Tests.{ltb, leb, if◌then◌else◌}

-- `negsuc n` is -(n + 1).
pub data ℤ : Type 0 where
  pos : ℕ → ℤ
  negsuc : ℕ → ℤ

abbrev pub pos_part : ℤ → ℕ
pos_part (pos n) = n
pos_part (negsuc n) = 0

abbrev pub neg_part : ℤ → ℕ
neg_part (pos n) = 0
neg_part (negsuc n) = suc n

infixl 65 ◌+ℤ◌
abbrev pub ◌+ℤ◌ : ℤ → ℤ → ℤ
a +ℤ b =
    if leb (neg_part a + neg_part b) (pos_part a + pos_part b)
    then pos (pos_part a + pos_part b - (neg_part a + neg_part b))
    else negsuc (neg_part a + neg_part b - (pos_part a + pos_part b) - 1)

infix 50 ◌≤ℤ◌
abbrev pub ◌≤ℤ◌ : ℤ → ℤ → Type 0
a ≤ℤ b = pos_part a + neg_part b ≤ pos_part b + neg_part a

abbrev pub ltb_ℤ : ℤ → ℤ → Bool
ltb_ℤ a b = ltb (pos_part a + neg_part b) (pos_part b + neg_part a)

abbrev pub leb_ℤ : ℤ → ℤ → Bool
leb_ℤ a b = leb (pos_part a + neg_part b) (pos_part b + neg_part a)

-- A result in an int64: the 64 low bits, read in two's complement.
abbrev pub int64 : ℕ → ℤ
int64 n =
    let low : ℕ = n % 2 ^ 64 in if ltb low (2 ^ 63) then pos low else negsuc (2 ^ 64 - low - 1)
