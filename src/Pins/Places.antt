-- ===== src/Pins/Places.antt =====
-- Where the pins of a table stand: no two on the same bit of the same port.
use ee459spring.Base.{
  ℕ, zero, suc, refl, sym, ap, and_left, and_right, ◌≡◌, ◌==◌, Bool, true, false, not, ◌&&◌, List,
  [], ◌∷◌, Option, none, some, get_or, arith,
}
use ee459spring.Pins.Tables.{Pin, no_pin}
use ee459spring.Pins.{Chip, pins_of}

abbrev pub on_place : ℕ → ℕ → Option ℕ → ℕ → Bool
on_place r n none k = false
on_place r n (some q) k = q == r && k == n

-- no pin of the list on the place of a given one
abbrev pub absent : Option ℕ → ℕ → List Pin → Bool
absent none n ps = true
absent (some r) n [] = true
absent (some r) n (p ∷ ps) = not (on_place r n p.port_reg p.port_num) && absent (some r) n ps

abbrev pub distinct : List Pin → Bool
distinct [] = true
distinct (p ∷ ps) = absent p.port_reg p.port_num ps && distinct ps

pub absent_at :
    (r n : ℕ) (ps : List Pin) (i : ℕ)
    → absent (some r) n ps ≡ true
    → on_place r n (get_or ps i no_pin).port_reg (get_or ps i no_pin).port_num ≡ false
absent_at r n [] i h = refl
absent_at r n (p ∷ ps) zero h =
    let here = and_left (not (on_place r n p.port_reg p.port_num)) (absent (some r) n ps) h in
    ground (arith, here)
absent_at r n (p ∷ ps) (suc i) h =
    absent_at r n ps i
      (and_right (not (on_place r n p.port_reg p.port_num)) (absent (some r) n ps) h)

-- on_place, read as equations
pub on_place_lem : (r n : ℕ) (o : Option ℕ) (k : ℕ) → o ≡ some r → k ≡ n → on_place r n o k ≡ true
on_place_lem r n none k e f = cc
on_place_lem r n (some q) k e f = ground (arith, e, f)

clash :
    {A : Type 0} (r n : ℕ) (ps : List Pin) (i : ℕ)
    → absent (some r) n ps ≡ true
    → (get_or ps i no_pin).port_reg ≡ some r
    → (get_or ps i no_pin).port_num ≡ n
    → A
clash r n ps i none_there reg num =
    let p = get_or ps i no_pin in
    cc (absent_at r n ps i none_there, on_place_lem r n p.port_reg p.port_num reg num)

pub distinct_at :
    (ps : List Pin) (i j r : ℕ)
    → distinct ps ≡ true
    → (get_or ps i no_pin).port_reg ≡ some r
    → (get_or ps j no_pin).port_reg ≡ some r
    → (get_or ps i no_pin).port_num ≡ (get_or ps j no_pin).port_num
    → i ≡ j
distinct_at [] i j r d ei ej e = cc
distinct_at (p ∷ ps) zero zero r d ei ej e = refl
distinct_at (p ∷ ps) zero (suc j) r d ei ej e =
    let none_there = and_left (absent p.port_reg p.port_num ps) (distinct ps) d in
    clash r p.port_num ps j (rw ei at none_there) ej (sym e)
distinct_at (p ∷ ps) (suc i) zero r d ei ej e =
    let none_there = and_left (absent p.port_reg p.port_num ps) (distinct ps) d in
    clash r p.port_num ps i (rw ej at none_there) ei e
distinct_at (p ∷ ps) (suc i) (suc j) r d ei ej e =
    ap suc
      (distinct_at ps i j r (and_right (absent p.port_reg p.port_num ps) (distinct ps) d) ei ej e)

pub all_distinct : (chip : Chip) → distinct (pins_of chip) ≡ true
all_distinct Chip.atmega328 = refl
all_distinct Chip.atmega2560 = refl
all_distinct Chip.atmega1284 = refl
