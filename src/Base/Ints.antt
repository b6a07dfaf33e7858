-- ===== src/Base/Ints.antt =====
-- Signed integers over the native numbers, and the 16-bit `int` of the AVR.
use Prim.Native.Nat.{ℕ, suc, ◌-◌, ◌/◌, ◌%◌, ◌^◌, compare, Ordering}

-- `negsuc n` is -(n + 1).
pub data ℤ : Type 0 where
  pos : ℕ → ℤ
  negsuc : ℕ → ℤ

-- a - b, as an integer
abbrev pub sub_ℕ : ℕ → ℕ → ℤ
sub_ℕ a b = elim (compare a b) [ Ordering.lt ↦ negsuc (b - a - 1) | _ ↦ pos (a - b) ]

-- The value of an `int` (16 bits on the AVR) computed as the number `n`, wrapped around.
abbrev pub int16 : ℕ → ℤ
int16 n = elim (compare (n % 2 ^ 16) (2 ^ 15)) [
  | Ordering.lt ↦ pos (n % 2 ^ 16)
  | _ ↦ negsuc (2 ^ 16 - 1 - n % 2 ^ 16)
]

-- division of C, which rounds towards zero
abbrev pub div_ℤ : ℤ → ℕ → ℤ
div_ℤ (pos n) d = pos (n / d)
div_ℤ (negsuc n) d = sub_ℕ 0 (suc n / d)
