-- ===== src/Base/Ranges.antt =====
-- Tests of every number of a range, by evaluation.
use Prim.Native.Nat.{ℕ, zero, suc, ◌+◌, ◌≤◌, ◌<◌}
use mathlib.Core.Path.{◌≡◌}
use mathlib.Core.Bool.{Bool, true, ◌&&◌}
use native.Mathlib.Decide.{ℕ_discrete}
use native.Mathlib.Omega.{arith}

-- a test of `n` numbers, the first of them `from`
unfoldable pub each_row : (ℕ → Bool) → ℕ → ℕ → Bool
each_row test from zero = true
each_row test from (suc n) = test from && each_row test (from + 1) n

pub each_row_lem :
    (test : ℕ → Bool) (from n i : ℕ)
    → each_row test from n ≡ true
    → from ≤ i
    → i < from + n
    → test i ≡ true
unfolding each_row
each_row_lem test from zero i all p q = absurd (omega arith)
each_row_lem test from (suc n) i all p q = elim (ℕ_discrete from i) [
  | yes s ↦ rw (← s) (ground (arith, all))
  | no s ↦ each_row_lem test (from + 1) n i (ground (arith, all)) (omega arith) (omega arith)
]
