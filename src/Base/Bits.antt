-- ===== src/Base/Bits.antt =====
-- Machine words: casts, shifts, `|` of disjoint fields and `&` with a low mask as arithmetic.
use Prim.Native.Nat.{
  ℕ, zero, suc, ◌+◌, ◌-◌, ◌*◌, ◌/◌, ◌%◌, ◌^◌, ◌≤◌, ◌<◌, min, max, bit_and, bit_or, digits, bitwise,
  bit_and-bitwise, bit_or-bitwise,
}
use mathlib.Core.Path.{◌≡◌, refl, sym, ap, ◌∙◌}
use native.Mathlib.Nat.{
  le_refl, pow-suc, div-div-eq-div-mul, mul_assoc, mul-div-le, mod-eq-sub-mul-div, one-le-pow,
}
use native.Mathlib.Omega.{arith}

abbrev pub u8 : ℕ → ℕ
u8 n = n % 2 ^ 8

abbrev pub u16 : ℕ → ℕ
u16 n = n % 2 ^ 16

abbrev pub u32 : ℕ → ℕ
u32 n = n % 2 ^ 32

infixl 75 ◌<<<◌ ◌>>>◌
abbrev pub ◌<<<◌ : ℕ → ℕ → ℕ
x <<< k = x * 2 ^ k

abbrev pub ◌>>>◌ : ℕ → ℕ → ℕ
x >>> k = x / 2 ^ k

-- `bitwise end join` walks the binary digits of its first argument on fuel. Any fuel from that
-- argument up gives one result, which leaves an equation for the lowest digit.
module _ (end : ℕ → ℕ) (join : ℕ → ℕ → ℕ) where
  walk-enough : (g k x y : ℕ) → x ≤ g → x ≤ k → digits end join g x y ≡ digits end join k x y
  walk-enough (suc g) (suc k) (suc x) y hg hk =
      ap (λ (t : ℕ). t * 2 + join (suc x % 2) (y % 2))
        (walk-enough g k (suc x / 2) (y / 2) (omega arith) (omega arith))
  walk-enough (suc g) (suc k) zero y hg hk = refl
  walk-enough (suc g) zero zero y hg hk = refl
  walk-enough zero (suc k) zero y hg hk = refl
  walk-enough zero zero zero y hg hk = refl
  walk-enough (suc g) zero (suc x) y hg hk = elim hk [ ]
  walk-enough zero k (suc x) y hg hk = elim hg [ ]

  lowest_digit :
      (x y : ℕ)
      → 0 < x
      → bitwise end join x y ≡ join (x % 2) (y % 2) + 2 * bitwise end join (x / 2) (y / 2)
  lowest_digit zero y pos = elim pos [ ]
  lowest_digit (suc x) y pos =
      let half : suc x / 2 ≤ x = omega arith in
      omega (arith, walk-enough x (suc x / 2) (suc x / 2) (y / 2) half (le_refl (suc x / 2)))

-- The lowest digit of `x | y` and of `x & y`.
pub bit_or_low : (x y : ℕ) → bit_or x y ≡ max (x % 2) (y % 2) + 2 * bit_or (x / 2) (y / 2)
bit_or_low zero y = simp bit_or-bitwise (omega arith)
bit_or_low (suc x) y = simp bit_or-bitwise (lowest_digit (λ t. t) max (suc x) y (omega arith))

pub bit_and_low : (x y : ℕ) → bit_and x y ≡ min (x % 2) (y % 2) + 2 * bit_and (x / 2) (y / 2)
bit_and_low zero y = simp bit_and-bitwise (omega arith)
bit_and_low (suc x) y = simp bit_and-bitwise (lowest_digit (λ _. 0) min (suc x) y (omega arith))

-- Zero on the right, by recursion on a bound of the number.
or_zero_upto : (bound x : ℕ) → x ≤ bound → bit_or x 0 ≡ x
or_zero_upto bound zero le = refl
or_zero_upto zero (suc x) le = elim le [ ]
or_zero_upto (suc bound) (suc x) le =
    bit_or_low (suc x) 0 ∙ omega (arith, or_zero_upto bound (suc x / 2) (omega arith))

and_zero_upto : (bound x : ℕ) → x ≤ bound → bit_and x 0 ≡ 0
and_zero_upto bound zero le = refl
and_zero_upto zero (suc x) le = elim le [ ]
and_zero_upto (suc bound) (suc x) le =
    bit_and_low (suc x) 0 ∙ omega (arith, and_zero_upto bound (suc x / 2) (omega arith))

pub bit_or-zero : (x : ℕ) → bit_or x 0 ≡ x
bit_or-zero x = or_zero_upto x x (le_refl x)

pub bit_and-zero : (x : ℕ) → bit_and x 0 ≡ 0
bit_and-zero x = and_zero_upto x x (le_refl x)

shifted-suc : (hi w : ℕ) → hi * 2 ^ suc w ≡ 2 * (hi * 2 ^ w)
shifted-suc hi w = omega (arith, ap (λ (t : ℕ). hi * t) (pow-suc 2 w))

-- `(hi << w) | lo` is a sum where `lo` fits `w` bits.
pub bit_or-join : (w hi lo : ℕ) → lo < 2 ^ w → bit_or (hi <<< w) lo ≡ hi * 2 ^ w + lo
bit_or-join zero hi lo fits =
    let none_left : lo ≡ 0 = omega arith in rw none_left (bit_or-zero (hi * 1) ∙ omega arith)
bit_or-join (suc w) hi lo fits =
    let e = shifted-suc hi w in
    let half = bit_or-join w hi (lo / 2) (omega (arith, pow-suc 2 w)) in
    rw e (bit_or_low (2 * (hi * 2 ^ w)) lo ∙ rest e half)
  where
    rest :
        hi * 2 ^ suc w ≡ 2 * (hi * 2 ^ w)
        → bit_or (hi * 2 ^ w) (lo / 2) ≡ hi * 2 ^ w + lo / 2
        → max (2 * (hi * 2 ^ w) % 2) (lo % 2) + 2 * bit_or (2 * (hi * 2 ^ w) / 2) (lo / 2)
          ≡ 2 * (hi * 2 ^ w) + lo
    rest e half =
        let same : 2 * (hi * 2 ^ w) / 2 ≡ hi * 2 ^ w = omega arith in rw same (omega (arith, half))

-- `x & (1 << w)` keeps one bit.
pub bit_and_one_bit : (w x : ℕ) → bit_and x (2 ^ w) ≡ x / 2 ^ w % 2 * 2 ^ w
bit_and_one_bit zero x = omega (arith, bit_and_low x 1, bit_and-zero (x / 2))
bit_and_one_bit (suc w) x = ground (
  arith,
  bit_and_low x (2 ^ suc w),
  pow-suc 2 w,
  div-div-eq-div-mul x 2 (2 ^ w),
  shifted-suc (x / 2 ^ suc w % 2) w,
  bit_and_one_bit w (x / 2),
)

shift_down : (k x : ℕ) → x / 2 ^ suc k ≡ x / 2 / 2 ^ k
shift_down k x =
    let double : 2 ^ suc k ≡ 2 * 2 ^ k = omega (arith, pow-suc 2 k) in
    ap (λ d. x / d) double ∙ sym (div-div-eq-div-mul x 2 (2 ^ k))

-- Each binary digit of `x | y` and of `x & y`.
pub bit_or-digit : (k x y : ℕ) → bit_or x y / 2 ^ k % 2 ≡ max (x / 2 ^ k % 2) (y / 2 ^ k % 2)
bit_or-digit zero x y = omega (arith, bit_or_low x y)
bit_or-digit (suc k) x y =
    let half : bit_or x y / 2 ≡ bit_or (x / 2) (y / 2) = omega (arith, bit_or_low x y) in
    rw (shift_down k (bit_or x y), shift_down k x, shift_down k y, half)
      (bit_or-digit k (x / 2) (y / 2))

pub bit_and-digit : (k x y : ℕ) → bit_and x y / 2 ^ k % 2 ≡ min (x / 2 ^ k % 2) (y / 2 ^ k % 2)
bit_and-digit zero x y = omega (arith, bit_and_low x y)
bit_and-digit (suc k) x y =
    let half : bit_and x y / 2 ≡ bit_and (x / 2) (y / 2) = omega (arith, bit_and_low x y) in
    rw (shift_down k (bit_and x y), shift_down k x, shift_down k y, half)
      (bit_and-digit k (x / 2) (y / 2))

half_mod : (x m : ℕ) → 0 < m → x % (2 * m) ≡ x % 2 + 2 * (x / 2 % m)
half_mod x m pos =
    let q = x / (2 * m) in
    let same : x / 2 / m ≡ q = div-div-eq-div-mul x 2 m in
    let group : 2 * m * q ≡ 2 * (m * q) = mul_assoc 2 m q in
    let below : m * (x / 2 / m) ≤ x / 2 = mul-div-le (x / 2) m in
    omega (
      arith,
      mod-eq-sub-mul-div x (2 * m),
      mod-eq-sub-mul-div (x / 2) m,
      ap (λ (t : ℕ). m * t) same,
      group,
      below,
    )

and_zero_left : (x : ℕ) → bit_and 0 x ≡ 0
and_zero_left x = simp bit_and-bitwise refl

-- `x & (2 ^ w - 1)` is the remainder.
pub bit_and_low_bits : (w x : ℕ) → bit_and (2 ^ w - 1) x ≡ x % 2 ^ w
bit_and_low_bits zero x = omega (arith, bit_and_low 0 x, and_zero_left (x / 2))
bit_and_low_bits (suc w) x =
    let pos = one-le-pow w 2 (omega arith) in
    let double : 2 ^ suc w ≡ 2 * 2 ^ w = omega (arith, pow-suc 2 w) in
    let half : (2 * 2 ^ w - 1) / 2 ≡ 2 ^ w - 1 = omega (arith, pos) in
    let rest = ap (λ (t : ℕ). bit_and t (x / 2)) half ∙ bit_and_low_bits w (x / 2) in
    rw double (omega (arith, pos, bit_and_low (2 * 2 ^ w - 1) x, rest, half_mod x (2 ^ w) pos))

and_swapped : (bound x y : ℕ) → x ≤ bound → bit_and x y ≡ bit_and y x
and_swapped bound zero y le = and_zero_left y ∙ sym (bit_and-zero y)
and_swapped zero (suc x) y le = elim le [ ]
and_swapped (suc bound) (suc x) y le = omega (
  arith,
  bit_and_low (suc x) y,
  bit_and_low y (suc x),
  and_swapped bound (suc x / 2) (y / 2) (omega arith),
)

pub bit_and_comm : (x y : ℕ) → bit_and x y ≡ bit_and y x
bit_and_comm x y = and_swapped x x y (le_refl x)
