-- ===== src/Prelude/Int.antt =====
-- The signed integers of the program over the native numbers, under the library's names (its ℤ
-- stands on another ℕ), with the tests and the clamp that the code uses.
use Prim.Native.Nat.{ℕ, suc, ◌+◌, ◌≤◌}
use mathlib.Core.Bool.{Bool}
use xyzen_relay.Prelude.Tests.{leb, if◌then◌else◌}

-- `negsuc n` is -(n + 1).
pub data ℤ : Type 0 where
  pos : ℕ → ℤ
  negsuc : ℕ → ℤ

abbrev pub pos_part : ℤ → ℕ
pos_part (pos n) = n
pos_part (negsuc n) = 0

abbrev pub neg_part : ℤ → ℕ
neg_part (pos n) = 0
neg_part (negsuc n) = suc n

infix 50 ◌≤ℤ◌
abbrev pub ◌≤ℤ◌ : ℤ → ℤ → Type 0
a ≤ℤ b = pos_part a + neg_part b ≤ pos_part b + neg_part a

abbrev pub leb_ℤ : ℤ → ℤ → Bool
leb_ℤ a b = leb (pos_part a + neg_part b) (pos_part b + neg_part a)

-- `i64::clamp` for bounds that are not negative.
abbrev pub clamp_pos : ℤ → ℕ → ℕ → ℕ
clamp_pos (pos n) low high = if leb n low then low else if leb n high then n else high
clamp_pos (negsuc n) low high = low
