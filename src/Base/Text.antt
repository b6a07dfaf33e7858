-- ===== src/Base/Text.antt =====
-- Strings of C in character arrays: the bytes before the first NUL. Reads past the end of an array
-- find nothing.
use Prim.Native.Nat.{ℕ, zero, suc, ◌+◌, ◌-◌, ◌*◌, ◌/◌, ◌%◌}
use Prim.Native.Char.{code}
use Prim.Native.String.{String}
use mathlib.Core.Bool.{Bool, true, false, ◌&&◌, ◌||◌, not}
use mathlib.Core.Option.{Option, none, some}
use mathlib.Core.List.{List, [], ◌∷◌}
use ee459spring.Base.Ints.{ℤ, pos, negsuc}
use ee459spring.Base.Tests.{ltb, leb, ◌==◌, if◌then◌else◌}

-- the bytes of an ASCII text
abbrev pub codes : String → List ℕ
codes String.[] = []
codes (String.◌∷◌ c s) = code c ∷ codes s

-- the string in an array
abbrev pub c_string : List ℕ → List ℕ
c_string [] = []
c_string (c ∷ cs) = let rest = c_string cs in if c == 0 then [] else c ∷ rest

abbrev pub strlen : List ℕ → ℕ
strlen [] = 0
strlen (c ∷ cs) = let rest = strlen cs in if c == 0 then 0 else suc rest

-- does the string in the array start with the text `pat`?
abbrev pub starts_with : List ℕ → List ℕ → Bool
starts_with [] buf = true
starts_with (p ∷ pat) [] = false
starts_with (p ∷ pat) (c ∷ buf) = p == c && not (c == 0) && starts_with pat buf

-- `strstr`, with the index of the match in place of the pointer
unfoldable pub strstr : List ℕ → List ℕ → Option ℕ
strstr pat [] = if starts_with pat [] then some 0 else none
strstr pat (c ∷ buf) =
    let rest : Option ℕ = elim (strstr pat buf) [ none ↦ none | some i ↦ some (suc i) ] in
    if starts_with pat (c ∷ buf) then some 0 else if c == 0 then none else rest

abbrev pub isspace : ℕ → Bool
isspace c = c == 32 || leb 9 c && leb c 13

abbrev pub isdigit : ℕ → Bool
isdigit c = leb 48 c && leb c 57

abbrev pub isxdigit : ℕ → Bool
isxdigit c = isdigit c || leb 65 c && leb c 70 || leb 97 c && leb c 102

abbrev pub digit_value : ℕ → ℕ
digit_value c = if isdigit c then c - 48 else if leb 97 c then c - 87 else c - 55

-- `strtol` in base 16, from a text that starts with neither blanks, a sign nor "0x"
abbrev pub strtol_hex : List ℕ → ℕ → ℕ
strtol_hex [] acc = acc
strtol_hex (c ∷ cs) acc =
    let rest = strtol_hex cs (acc * 16 + digit_value c) in if isxdigit c then rest else acc

-- the upper case digit of a number below 16
abbrev pub hex_digit : ℕ → ℕ
hex_digit d = if ltb d 10 then 48 + d else 55 + d

-- `%d` of a number below ten to the power of the fuel
abbrev pub digits : ℕ → ℕ → List ℕ → List ℕ
digits zero n acc = acc
digits (suc fuel) n acc =
    let more = digits fuel (n / 10) ((48 + n % 10) ∷ acc) in
    if ltb n 10 then (48 + n) ∷ acc else more

-- `%d` of an `int`, which has at most five digits
abbrev pub decimal : ℤ → List ℕ
decimal (pos n) = digits 5 n []
decimal (negsuc n) = 45 ∷ digits 5 (suc n) []
