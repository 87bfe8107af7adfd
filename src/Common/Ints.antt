-- ===== src/Common/Ints.antt =====
-- Signed C integers over the native numbers, under the library's names.
use Prim.Native.Nat.{ℕ, suc, ◌+◌, ◌-◌}
use mathlib.Core.Path.{◌≡◌}
use native.Mathlib.Omega.{arith}
use mathlib.Core.Bool.{Bool}
use pfs.Common.Tests.{ltb, leb, if◌then◌else◌}

-- `negsuc n` is -(n + 1).
pub data ℤ : Type 0 where
  pos : ℕ → ℤ
  negsuc : ℕ → ℤ

abbrev pub pos_part : ℤ → ℕ
pos_part (pos n) = n
pos_part (negsuc n) = 0

abbrev pub neg_part : ℤ → ℕ
neg_part (pos n) = 0
neg_part (negsuc n) = suc n

-- a - b, as an integer.
abbrev pub sub_ℕ : ℕ → ℕ → ℤ
sub_ℕ a b = if leb b a then pos (a - b) else negsuc (b - a - 1)

-- `i++` and `i--`.
abbrev pub inc_ℤ : ℤ → ℤ
inc_ℤ a = sub_ℕ (pos_part a + 1) (neg_part a)

abbrev pub dec_ℤ : ℤ → ℤ
dec_ℤ a = sub_ℕ (pos_part a) (neg_part a + 1)

abbrev pub ltb_ℤ : ℤ → ℤ → Bool
ltb_ℤ a b = ltb (pos_part a + neg_part b) (pos_part b + neg_part a)

pub sub_ℕ_parts : (a b : ℕ) → pos_part (sub_ℕ a b) + b ≡ neg_part (sub_ℕ a b) + a
sub_ℕ_parts a b = ground arith

pub eq_of_parts : (a b : ℤ) → pos_part a + neg_part b ≡ pos_part b + neg_part a → a ≡ b
eq_of_parts a b h = ground arith

pub inc_ℤ_sub : (a b c : ℕ) → c ≡ a + 1 → inc_ℤ (sub_ℕ a b) ≡ sub_ℕ c b
inc_ℤ_sub a b c e = ground arith

pub dec_ℤ_sub : (a b c : ℕ) → a ≡ c + 1 → dec_ℤ (sub_ℕ a b) ≡ sub_ℕ c b
dec_ℤ_sub a b c e = ground arith
