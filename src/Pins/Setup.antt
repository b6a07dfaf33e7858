-- ===== src/Pins/Setup.antt =====
-- What `initialize_pins` does to the direction registers.
use ee459spring.Base.{
  not-true, ap, ==_ne, ℕ_discrete, ◌⊎◌, ℕ, zero, suc, refl, sym, ◌≡◌, ◌<◌, ◌==◌, Bool, true, false,
  ◌&&◌, not, List, [], ◌∷◌, Option, some, none, arith, if◌then◌else◌, get_or, ltb, and_left,
  and_right, ◌∙◌, Bool-cases, inl, inr, ==_refl,
}
use ee459spring.Pins.Tables.{Pin, Dir, no_pin}
use ee459spring.Pins.{
  Regs, Chip, pins_of, pin_at, initialize_pins, setup_pins, setup_pin, update, set_bit, clear_bit,
}
use ee459spring.Pins.Places.{absent, distinct, on_place, on_place_lem, distinct_at, all_distinct}
use ee459spring.Pins.Drive.{
  digit, set_bit-digit, clear_bit-digit, all_small, small_num, every_small,
}

abbrev same_reg : Option ℕ → Option ℕ → Bool
same_reg none none = true
same_reg none (some b) = false
same_reg (some a) none = false
same_reg (some a) (some b) = a == b

-- every pin has the direction register of its port
abbrev pub is_matched : List Pin → Bool
is_matched [] = true
is_matched (p ∷ ps) = same_reg p.dir_reg p.port_reg && is_matched ps

same_reg_lem : (a b : Option ℕ) → same_reg a b ≡ true → a ≡ b
same_reg_lem none none h = refl
same_reg_lem none (some b) h = cc
same_reg_lem (some a) none h = cc
same_reg_lem (some a) (some b) h = ground (arith, h)

-- 1 for an output, 0 for an input
abbrev pub dir_digit : Dir → ℕ → ℕ
dir_digit Dir.output old = 1
dir_digit Dir.input old = 0
dir_digit Dir.dir_inval old = old

ltb-lt : {a b : ℕ} → ltb a b ≡ true → a < b
ltb-lt h = ground arith

update-digit :
    (f : ℕ → ℕ) (r d n k v : ℕ) (change : ℕ → ℕ)
    → digit k (change (f r)) ≡ (if k == n then v else digit k (f r))
    → digit k (update f r (change (f r)) d) ≡ (if r == d && n == k then v else digit k (f d))
update-digit f r d n k v change h = elim (ℕ_discrete d r) [
  | no far ↦
      let apart : (r == d) ≡ false = ==_ne r d (λ e. far (sym e)) in rw (==_ne d r far, apart) refl
  | yes same ↦ rw (same, ==_refl r, h) (ground arith)
]

Dir-cases : (d : Dir) → (d ≡ Dir.output) ⊎ ((d ≡ Dir.input) ⊎ (d ≡ Dir.dir_inval))
Dir-cases Dir.output = inl refl
Dir-cases Dir.input = inr (inl refl)
Dir-cases Dir.dir_inval = inr (inr refl)

if_same : (b : Bool) (x : ℕ) → x ≡ (if b then x else x)
if_same true x = refl
if_same false x = refl

-- one round of the loop on one direction bit
setup-digit :
    (o : Option ℕ) (p : Pin) (regs : Regs) (d k : ℕ)
    → p.dir_reg ≡ o
    → p.port_num < 8
    → k < 8
    → digit k ((setup_pin o p regs).ddr d) ≡ (
        if on_place d k o p.port_num
        then dir_digit p.pin_dir (digit k (regs.ddr d))
        else digit k (regs.ddr d))
setup-digit none p regs d k e hn hk = refl
setup-digit (some r) p regs d k e hn hk = elim (Dir-cases p.pin_dir) [
  | inl out ↦
      rw (out, e)
        (update-digit regs.ddr r d p.port_num k 1 (set_bit p.port_num)
          (set_bit-digit p.port_num k (regs.ddr r) hn hk))
  | inr (inl in_) ↦
      rw (in_, e)
        (update-digit regs.ddr r d p.port_num k 0 (clear_bit p.port_num)
          (clear_bit-digit p.port_num k (regs.ddr r) hn hk))
  | inr (inr other) ↦ rw other (if_same (r == d && p.port_num == k) (digit k (regs.ddr d)))
]

on_place-eq : (d k : ℕ) (o : Option ℕ) (n : ℕ) → on_place d k o n ≡ true → (o ≡ some d) × (n ≡ k)
on_place-eq d k none n h = cc
on_place-eq d k (some q) n h = (ground (arith, h), ground (arith, h))

module _ (d k : ℕ) (hk : k < 8) where
  -- pins on other places leave a direction bit alone
  setup-keeps :
      (ps : List Pin) (regs : Regs)
      → is_matched ps ≡ true
      → all_small ps ≡ true
      → absent (some d) k ps ≡ true
      → digit k ((setup_pins ps regs).ddr d) ≡ digit k (regs.ddr d)
  unfolding setup_pins all_small
  setup-keeps [] regs m s a = refl
  setup-keeps (p ∷ ps) regs m s a =
      let dir =
        same_reg_lem p.dir_reg p.port_reg
          (and_left (same_reg p.dir_reg p.port_reg) (is_matched ps) m) in
      let small : p.port_num < 8 = ltb-lt (and_left (ltb p.port_num 8) (all_small ps) s) in
      let off : on_place d k p.port_reg p.port_num ≡ false =
        not-true (and_left (not (on_place d k p.port_reg p.port_num)) (absent (some d) k ps) a) in
      setup-keeps ps (setup_pin p.port_reg p regs)
        (and_right (same_reg p.dir_reg p.port_reg) (is_matched ps) m)
        (and_right (ltb p.port_num 8) (all_small ps) s)
        (and_right (not (on_place d k p.port_reg p.port_num)) (absent (some d) k ps) a)
      ∙ setup-digit p.port_reg p regs d k dir small hk
      ∙ rw off refl

  off_place :
      (p : Pin) (ps : List Pin) (i : ℕ)
      → distinct (p ∷ ps) ≡ true
      → (get_or ps i no_pin).port_reg ≡ some d
      → (get_or ps i no_pin).port_num ≡ k
      → on_place d k p.port_reg p.port_num ≡ false
  off_place p ps i a er en = elim (Bool-cases (on_place d k p.port_reg p.port_num)) [
    | inr off ↦ off
    | inl hit ↦
        let (reg, num) = on_place-eq d k p.port_reg p.port_num hit in
        let same : zero ≡ suc i = distinct_at (p ∷ ps) zero (suc i) d a reg er (num ∙ sym en) in
        absurd (omega arith)
  ]

  -- the pin on the place decides its direction bit
  setup-sets :
      (ps : List Pin) (regs : Regs) (i : ℕ)
      → is_matched ps ≡ true
      → all_small ps ≡ true
      → distinct ps ≡ true
      → (get_or ps i no_pin).port_reg ≡ some d
      → (get_or ps i no_pin).port_num ≡ k
      → digit k ((setup_pins ps regs).ddr d)
        ≡ dir_digit (get_or ps i no_pin).pin_dir (digit k (regs.ddr d))
  unfolding setup_pins all_small
  setup-sets [] regs i m s a er en = cc
  setup-sets (p ∷ ps) regs zero m s a er en =
      let dir =
        same_reg_lem p.dir_reg p.port_reg
          (and_left (same_reg p.dir_reg p.port_reg) (is_matched ps) m) in
      let small : p.port_num < 8 = ltb-lt (and_left (ltb p.port_num 8) (all_small ps) s) in
      let alone : absent (some d) k ps ≡ true =
        rw (er, en) at (and_left (absent p.port_reg p.port_num ps) (distinct ps) a) in
      setup-keeps ps (setup_pin p.port_reg p regs)
        (and_right (same_reg p.dir_reg p.port_reg) (is_matched ps) m)
        (and_right (ltb p.port_num 8) (all_small ps) s) alone
      ∙ setup-digit p.port_reg p regs d k dir small hk
      ∙ rw (on_place_lem d k p.port_reg p.port_num er en) refl
  setup-sets (p ∷ ps) regs (suc i) m s a er en =
      let q = get_or ps i no_pin in
      let dir =
        same_reg_lem p.dir_reg p.port_reg
          (and_left (same_reg p.dir_reg p.port_reg) (is_matched ps) m) in
      let small : p.port_num < 8 = ltb-lt (and_left (ltb p.port_num 8) (all_small ps) s) in
      let off : on_place d k p.port_reg p.port_num ≡ false = off_place p ps i a er en in
      setup-sets ps (setup_pin p.port_reg p regs) i
        (and_right (same_reg p.dir_reg p.port_reg) (is_matched ps) m)
        (and_right (ltb p.port_num 8) (all_small ps) s)
        (and_right (absent p.port_reg p.port_num ps) (distinct ps) a) er en
      ∙ ap (dir_digit q.pin_dir) (setup-digit p.port_reg p regs d k dir small hk ∙ rw off refl)

-- On a chip whose table gives every pin the direction register of its port, initialize_pins sets the
-- direction bit of every output pin, and clears that of every input pin.
pub initialize_pins-directions :
    (chip : Chip) (regs : Regs) (pin d : ℕ)
    → is_matched (pins_of chip) ≡ true
    → (pin_at chip pin).port_reg ≡ some d
    → digit (pin_at chip pin).port_num ((initialize_pins chip regs).ddr d)
      ≡ dir_digit (pin_at chip pin).pin_dir (digit (pin_at chip pin).port_num (regs.ddr d))
unfolding initialize_pins
initialize_pins-directions chip regs pin d m reg =
    setup-sets d (pin_at chip pin).port_num (small_num chip pin) (pins_of chip) regs pin m
      (every_small chip) (all_distinct chip) reg refl
