-- ===== src/Pins/Drive.antt =====
-- What `pin_high` and `pin_low` do to the pins of a chip.
use mathlib.Core.Option
use ee459spring.Base.{
  List, [], ◌∷◌, get_or, ==_refl, ==_ne, ℕ, zero, suc, refl, ap, ◌≡◌, ◌≢◌, ◌-◌, ◌/◌, ◌%◌, ◌^◌, ◌<◌,
  ◌==◌, Bool, true, ◌&&◌, Option, some, arith, bit_or-digit, bit_and-digit, each_row, each_row_lem,
  ◌∙◌, if◌then◌else◌, ltb, ==_iff, ℕ_discrete, and_left, and_right, is_some, Option-cases, inl, inr,
}
use ee459spring.Pins.Tables.{Pin, no_pin}
use ee459spring.Pins.{
  Regs, Chip, pins_of, pin_at, in_range, pin_high, pin_low, set_bit, clear_bit, update, is_output,
}
use ee459spring.Pins.Places.{distinct_at, all_distinct}

abbrev pub digit : ℕ → ℕ → ℕ
digit k x = x / 2 ^ k % 2

-- the bit of a port that a pin stands for, or `none` for a pin without a port
abbrev pub level_of : Pin → Regs → Option ℕ
level_of p regs = Option.map (λ r. regs.port r / 2 ^ p.port_num % 2) p.port_reg

abbrev pub level : Chip → ℕ → Regs → Option ℕ
level chip pin regs = level_of (pin_at chip pin) regs

-- an output pin of the chip
abbrev pub is_driven : Chip → ℕ → Bool
is_driven chip pin =
    in_range chip pin && (is_some (pin_at chip pin).port_reg && is_output (pin_at chip pin).pin_dir)

mask_ok : ℕ → ℕ → Bool
mask_ok n k =
    digit k (2 ^ n) == (if k == n then 1 else 0)
    && digit k (255 - 2 ^ n) == (if k == n then 0 else 1)

mask_table : each_row (λ n. each_row (mask_ok n) 0 8) 0 8 ≡ true
unfolding each_row mask_ok
mask_table = refl

masks :
    (n k : ℕ)
    → n < 8
    → k < 8
    → (digit k (2 ^ n) ≡ (if k == n then 1 else 0))
      × (digit k (255 - 2 ^ n) ≡ (if k == n then 0 else 1))
unfolding mask_ok
masks n k hn hk =
    let row =
      each_row_lem (λ n. each_row (mask_ok n) 0 8) 0 8 n mask_table (omega arith) (omega arith) in
    let cell = each_row_lem (mask_ok n) 0 8 k row (omega arith) (omega arith) in
    (
      (==_iff _ _).0 (and_left _ (digit k (255 - 2 ^ n) == (if k == n then 0 else 1)) cell),
      (==_iff _ _).0 (and_right (digit k (2 ^ n) == (if k == n then 1 else 0)) _ cell),
    )

-- the digits of a byte after `|=` and `&= ~`
pub set_bit-digit :
    (n k x : ℕ) → n < 8 → k < 8 → digit k (set_bit n x) ≡ (if k == n then 1 else digit k x)
set_bit-digit n k x hn hk = rw (bit_or-digit k x (2 ^ n), (masks n k hn hk).0) (ground arith)

pub clear_bit-digit :
    (n k x : ℕ) → n < 8 → k < 8 → digit k (clear_bit n x) ≡ (if k == n then 0 else digit k x)
clear_bit-digit n k x hn hk =
    rw (bit_and-digit k x (255 - 2 ^ n), (masks n k hn hk).1) (ground arith)

-- every port number is below 8
unfoldable pub all_small : List Pin → Bool
all_small [] = true
all_small (p ∷ ps) = ltb p.port_num 8 && all_small ps

small_at : (ps : List Pin) (i : ℕ) → all_small ps ≡ true → (get_or ps i no_pin).port_num < 8
unfolding all_small
small_at [] i h = omega arith
small_at (p ∷ ps) zero h =
    let first = and_left (ltb p.port_num 8) (all_small ps) h in ground (arith, first)
small_at (p ∷ ps) (suc i) h = small_at ps i (and_right (ltb p.port_num 8) (all_small ps) h)

pub every_small : (chip : Chip) → all_small (pins_of chip) ≡ true
unfolding all_small
every_small Chip.atmega328 = refl
every_small Chip.atmega2560 = refl
every_small Chip.atmega1284 = refl

pub small_num : (chip : Chip) (pin : ℕ) → (pin_at chip pin).port_num < 8
small_num chip pin = small_at (pins_of chip) pin (every_small chip)

-- A call that succeeds, and what it leaves: the pin at the level, every other pin as it was.
pub record Driven (chip : Chip) (pin v : ℕ) (regs : Regs) (out : ℕ × Regs) : Type 0 where
  pub code : out.0 ≡ 0
  pub own : level chip pin out.1 ≡ some v
  pub others : (q : ℕ) → q ≢ pin → level chip q out.1 ≡ level chip q regs
  pub directions : out.1.ddr ≡ regs.ddr

abbrev changed : ℕ → (ℕ → ℕ) → Regs → Regs
changed r change regs = record regs { port = update regs.port r (change (regs.port r)) }

module _ (chip : Chip) (pin r v : ℕ) (change : ℕ → ℕ) (regs : Regs)
    (reg : (pin_at chip pin).port_reg ≡ some r)
    (act : (k x : ℕ)
      → k < 8
      → digit k (change x) ≡ (if k == (pin_at chip pin).port_num then v else digit k x)) where
  changed-others : (q : ℕ) → q ≢ pin → level chip q (changed r change regs) ≡ level chip q regs
  changed-others q ne = elim (Option-cases (pin_at chip q).port_reg) [
    | inl none_there ↦ rw none_there refl
    | inr (s, there) ↦ rw there (
        ap some (elim (ℕ_discrete s r) [
          | no far ↦ rw (==_ne s r far) refl
          | yes same ↦
              let apart : (pin_at chip q).port_num ≢ (pin_at chip pin).port_num = λ e. ne (
                distinct_at (pins_of chip) q pin r (all_distinct chip) (there ∙ ap some same) reg
                  e) in
              rw (same, ==_refl r)
                (act (pin_at chip q).port_num (regs.port r) (small_num chip q)
                  ∙ rw (==_ne (pin_at chip q).port_num (pin_at chip pin).port_num apart) refl)
        ]))
  ]

  changed-own : level chip pin (changed r change regs) ≡ some v
  changed-own = rw reg (
      ap some (
        rw (==_refl r) (
          act (pin_at chip pin).port_num (regs.port r) (small_num chip pin)
          ∙ rw (==_refl (pin_at chip pin).port_num) refl)))

  changed-Driven : Driven chip pin v regs (0, changed r change regs)
  changed-Driven = record {
    code = refl;
    own = changed-own;
    others = changed-others;
    directions = refl;
  }

module _ (chip : Chip) (pin : ℕ) (regs : Regs) (driven : is_driven chip pin ≡ true) where
  range : in_range chip pin ≡ true
  range =
      and_left (in_range chip pin)
        (is_some (pin_at chip pin).port_reg && is_output (pin_at chip pin).pin_dir) driven

  output : is_output (pin_at chip pin).pin_dir ≡ true
  output = and_right (is_some (pin_at chip pin).port_reg) (is_output (pin_at chip pin).pin_dir) (
      and_right (in_range chip pin)
        (is_some (pin_at chip pin).port_reg && is_output (pin_at chip pin).pin_dir) driven)

  has_reg : (r : ℕ) × ((pin_at chip pin).port_reg ≡ some r)
  has_reg = elim (Option-cases (pin_at chip pin).port_reg) [
    | inr there ↦ there
    | inl missing ↦ cc (driven, missing, range)
  ]

  -- `pin_high` and `pin_low` on an output pin of a chip return 0, set the pin to 1 and 0, and leave
  -- every other pin and the directions as they were.
  pub drive-Driven :
      Driven chip pin 1 regs (pin_high chip pin regs)
      × Driven chip pin 0 regs (pin_low chip pin regs)
  unfolding pin_high pin_low
  drive-Driven =
      let (r, reg) = has_reg in
      let num = (pin_at chip pin).port_num in
      (
        rw (range, reg, output)
            (changed-Driven chip pin r 1 (set_bit num) regs reg
              (λ k x h. set_bit-digit num k x (small_num chip pin) h)),
        rw (range, reg, output)
            (changed-Driven chip pin r 0 (clear_bit num) regs reg
              (λ k x h. clear_bit-digit num k x (small_num chip pin) h)),
      )
