-- ===== src/Obd/Supported.antt =====
-- `obd_set_supported_ops`: which rows of the table the list holds.
use ee459spring.Base.{
  ℕ, refl, ◌≡◌, List, [], ◌∷◌, arith, Bool, suc, get_or, ◌<◌, ◌+◌, ◌++◌, true, map, ◌/◌, ◌==◌, ◌^◌,
  false, if◌then◌else◌, ◌&&◌, zero, ◌-◌, hex_digit, ◌%◌, bit_and, Bool-cases, ◌∙◌, not, inl,
  append-nil, ◌*◌, sym, bit_and_one_bit, append_assoc, inr, ap, each_row, each_row_lem,
}
use ee459spring.Obd.{push_supported, obd_set_supported_ops, no_cmd}
use native.Mathlib.Nat.{one-le-pow, pow-suc}
use ee459spring.Obd.Commands.{ObdCmd, obd_cmds}

-- The answer to command 00 has PID 01 in its highest bit and PID 20 in its lowest.
abbrev pub supports : ℕ → ℕ → Bool
supports res pid = res / 2 ^ (32 - pid) % 2 == 1

-- of the PIDs from `pid` on, `n` in number, those that an answer names, the highest first
abbrev pub supported_pids : ℕ → ℕ → ℕ → List ℕ
supported_pids res zero pid = []
supported_pids res (suc n) pid =
    supported_pids res n (pid + 1) ++ (if supports res pid then pid ∷ [] else [])

-- the command of a PID: "01", its two hexadecimal digits and a carriage return
abbrev pub command_of : ℕ → List ℕ
command_of pid = 48 ∷ 49 ∷ hex_digit (pid / 16) ∷ hex_digit (pid % 16) ∷ 13 ∷ []

list_eq : List ℕ → List ℕ → Bool
list_eq [] [] = true
list_eq [] (y ∷ ys) = false
list_eq (x ∷ xs) [] = false
list_eq (x ∷ xs) (y ∷ ys) = x == y && list_eq xs ys

list_eq_sound : (xs ys : List ℕ) → list_eq xs ys ≡ true → xs ≡ ys
unfolding list_eq
list_eq_sound [] [] h = refl
list_eq_sound [] (y ∷ ys) h = cc
list_eq_sound (x ∷ xs) [] h = cc
list_eq_sound (x ∷ xs) (y ∷ ys) h = ground (arith, list_eq_sound xs ys)

row_ok : ℕ → Bool
row_ok i =
    (get_or obd_cmds i no_cmd).obd_pid == i
    && list_eq (get_or obd_cmds i no_cmd).obd_cmd (command_of i)

row_table : each_row row_ok 0 32 ≡ true
unfolding each_row row_ok list_eq
row_table = refl

-- Row `i` of the table is the one of PID `i`, and its command asks for that PID.
pub obd_cmds-row :
    (i : ℕ)
    → i < 32
    → ((get_or obd_cmds i no_cmd).obd_pid ≡ i) × ((get_or obd_cmds i no_cmd).obd_cmd ≡ command_of i)
unfolding row_ok
obd_cmds-row i h = split (each_row_lem row_ok 0 32 i row_table (omega arith) (omega arith))
  where
    split :
        row_ok i ≡ true
        → ((get_or obd_cmds i no_cmd).obd_pid ≡ i)
          × ((get_or obd_cmds i no_cmd).obd_cmd ≡ command_of i)
    split e = (ground arith, list_eq_sound _ _ (ground arith))

test_bit : (x w : ℕ) → (bit_and x (2 ^ w) == 0) ≡ not (x / 2 ^ w % 2 == 1)
test_bit x w =
    rw (bit_and_one_bit w x)
      (digit (x / 2 ^ w % 2) (2 ^ w) (one-le-pow w 2 (omega arith)) (omega arith))
  where
    digit : (d p : ℕ) → 0 < p → d < 2 → (d * p == 0) ≡ not (d == 1)
    digit zero p pos h = ground arith
    digit (suc zero) p pos h = ground arith
    digit (suc (suc d)) p pos h = absurd (omega arith)

push_supported-pids :
    (res n pid : ℕ) (found : List ObdCmd)
    → pid + n ≡ 32
    → map (λ c. c.obd_pid) (push_supported res n pid (2 ^ n) found)
      ≡ supported_pids res n pid ++ map (λ c. c.obd_pid) found
unfolding push_supported
push_supported-pids res zero pid found e = refl
push_supported-pids res (suc n) pid found e =
    let half : 2 ^ suc n / 2 ≡ 2 ^ n = omega (arith, pow-suc 2 n) in
    let place : 32 - pid ≡ suc n = omega arith in
    let row = (obd_cmds-row pid (omega arith)).0 in
    let ih = push_supported-pids res n (pid + 1) in
    rw (half, test_bit res (suc n), place)
      (elim (Bool-cases (res / 2 ^ suc n % 2 == 1)) [
        | inl set_bit ↦ rw set_bit (
            ih (get_or obd_cmds pid no_cmd ∷ found) (omega arith)
            ∙ rw row (
                sym (
                  append_assoc (supported_pids res n (pid + 1)) (pid ∷ [])
                    (map (λ c. c.obd_pid) found))))
        | inr clear ↦ rw clear (
            ih found (omega arith)
            ∙ ap (λ (l : List ℕ). l ++ map (λ c. c.obd_pid) found)
                (sym (append-nil (supported_pids res n (pid + 1)))))
      ])

-- the row of the table for a PID
abbrev pub row_of : ℕ → ObdCmd
row_of pid = get_or obd_cmds pid no_cmd

map_row-append : (xs ys : List ℕ) → map row_of (xs ++ ys) ≡ map row_of xs ++ map row_of ys
map_row-append [] ys = refl
map_row-append (x ∷ xs) ys = ap (λ (l : List ObdCmd). row_of x ∷ l) (map_row-append xs ys)

push_supported-rows :
    (res n pid : ℕ) (found : List ObdCmd)
    → pid + n ≡ 32
    → push_supported res n pid (2 ^ n) found ≡ map row_of (supported_pids res n pid) ++ found
unfolding push_supported
push_supported-rows res zero pid found e = refl
push_supported-rows res (suc n) pid found e =
    let half : 2 ^ suc n / 2 ≡ 2 ^ n = omega (arith, pow-suc 2 n) in
    let place : 32 - pid ≡ suc n = omega arith in
    let later = supported_pids res n (pid + 1) in
    let ih = push_supported-rows res n (pid + 1) in
    rw (half, test_bit res (suc n), place)
      (elim (Bool-cases (res / 2 ^ suc n % 2 == 1)) [
        | inl set_bit ↦ rw set_bit (
            ih (row_of pid ∷ found) (omega arith)
            ∙ sym (append_assoc (map row_of later) (row_of pid ∷ []) found)
            ∙ ap (λ (l : List ObdCmd). l ++ found) (sym (map_row-append later (pid ∷ []))))
        | inr clear ↦ rw clear (
            ih found (omega arith)
            ∙ ap (λ (l : List ℕ). map row_of l ++ found) (sym (append-nil later)))
      ])

-- The list of `obd_set_supported_ops` is that of the table's rows, whole, for exactly those PIDs from 1 to
-- 31 that the answer names, the highest first; each row carries its PID.
pub set_supported_ops-pids :
    (res : ℕ)
    → (obd_set_supported_ops res ≡ map row_of (supported_pids res 31 1))
      × (map (λ c. c.obd_pid) (obd_set_supported_ops res) ≡ supported_pids res 31 1)
unfolding obd_set_supported_ops
set_supported_ops-pids res = (
  push_supported-rows res 31 1 [] refl ∙ append-nil _,
  push_supported-pids res 31 1 [] refl ∙ append-nil _,
)
