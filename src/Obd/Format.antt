-- ===== src/Obd/Format.antt =====
-- `obd_fmt_resp` (src/obd.c), which packs the digits of an answer in place.
use ee459spring.Base.{
  append-nil, length-set, ℕ, refl, ◌≡◌, List, [], ◌∷◌, ◌++◌, ◌+◌, ◌≤◌, ◌<◌, arith, true, false, not,
  ◌&&◌, ◌==◌, set, take, drop, length, strlen, c_string, get_or, zero, suc, ap, isspace, isxdigit,
  if◌then◌else◌, ltb, ◌∙◌, sym, append_assoc, Bool-cases, inl, inr, ◌%◌,
}
use ee459spring.Obd.{fmt_loop, obd_fmt_resp}

-- the hexadecimal digits of a text
abbrev pub hex_digits_of : List ℕ → List ℕ
hex_digits_of [] = []
hex_digits_of (c ∷ cs) = let rest = hex_digits_of cs in if isxdigit c then c ∷ rest else rest

strlen-le : (s : List ℕ) → strlen s ≤ length s
strlen-le [] = omega arith
strlen-le (c ∷ s) = ground (arith, strlen-le s)

take-set : (s : List ℕ) (n c : ℕ) → n < length s → take (suc n) (set s n c) ≡ take n s ++ c ∷ []
take-set [] n c h = absurd (omega arith)
take-set (x ∷ s) zero c h = refl
take-set (x ∷ s) (suc n) c h = ap (λ (t : List ℕ). x ∷ t) (take-set s n c (omega arith))

drop-set : (s : List ℕ) (n j c : ℕ) → n < j → drop j (set s n c) ≡ drop j s
drop-set s n zero c h = absurd (omega arith)
drop-set [] n (suc j) c h = refl
drop-set (x ∷ s) zero (suc j) c h = refl
drop-set (x ∷ s) (suc n) (suc j) c h = drop-set s n j c (omega arith)

strlen-set :
    (s : List ℕ) (n c : ℕ) → n < strlen s → (c == 0) ≡ false → strlen (set s n c) ≡ strlen s
strlen-set [] n c h e = refl
strlen-set (x ∷ s) zero c h e = ground (arith, h, e)
strlen-set (x ∷ s) (suc n) c h e = ground (arith, strlen-set s n c)

next_byte :
    (s : List ℕ) (i f : ℕ)
    → i < length s
    → take (suc f) (drop i s) ≡ get_or s i 0 ∷ take f (drop (suc i) s)
next_byte [] i f h = absurd (omega arith)
next_byte (x ∷ s) zero f h = refl
next_byte (x ∷ s) (suc i) f h = next_byte s i f (omega arith)

c_string-set : (s : List ℕ) (n : ℕ) → n ≤ strlen s → n < length s → c_string (set s n 0) ≡ take n s
c_string-set [] n le h = absurd (omega arith)
c_string-set (x ∷ s) zero le h = refl
c_string-set (x ∷ s) (suc n) le h = ground (arith, c_string-set s n)

c_string-take : (s : List ℕ) → c_string s ≡ take (strlen s) s
c_string-take [] = refl
c_string-take (x ∷ s) = ground (arith, c_string-take s)

length-c_string : (s : List ℕ) → strlen s ≡ length (c_string s)
length-c_string [] = refl
length-c_string (x ∷ s) = ground (arith, length-c_string s)

keeps_digits : (c : ℕ) → not (isspace c) && isxdigit c ≡ isxdigit c
keeps_digits c = ground arith

digit_nonzero : (c : ℕ) → isxdigit c ≡ true → (c == 0) ≡ false
digit_nonzero c h = ground (arith, h)

-- What the loop leaves of the `f` bytes from index `i` on, with `n` bytes packed so far.
record Packed (f : ℕ) (s : List ℕ) (i n : ℕ) (out : List ℕ × ℕ) : Type 0 where
  front : take out.1 out.0 ≡ take n s ++ hex_digits_of (take f (drop i s))
  short : out.1 ≤ i + f
  same_strlen : strlen out.0 ≡ strlen s
  same_length : length out.0 ≡ length s

module _ (f : ℕ) (s : List ℕ) (i n : ℕ) (le : n ≤ i) (all : i + suc f ≡ strlen s) where
  inside : ltb i (strlen s) ≡ true
  inside = ground arith

  kept :
      isxdigit (get_or s i 0) ≡ true
      → Packed f
          (set s n (get_or s i 0))
          (i + 1)
          (n + 1)
          (fmt_loop f (set s n (get_or s i 0)) (i + 1) (n + 1))
      → Packed (suc f) s i n (fmt_loop (suc f) s i n)
  unfolding fmt_loop
  kept digit ih =
      let c = get_or s i 0 in
      let room = strlen-le s in
      let i_suc : i + 1 ≡ suc i = omega arith in
      let n_suc : n + 1 ≡ suc n = omega arith in
      let front' : take (suc n) (set s n c) ++ hex_digits_of (take f (drop (suc i) (set s n c)))
          ≡ take n s ++ hex_digits_of (take (suc f) (drop i s)) =
        rw
          (
            take-set s n c (omega arith),
            drop-set s n (suc i) c (omega arith),
            next_byte s i f (omega arith),
            digit,
          )
          (append_assoc (take n s) (c ∷ []) (hex_digits_of (take f (drop (suc i) s)))) in
      rw (inside, keeps_digits c, digit)
        (record {
          front = ih.front ∙ rw (i_suc, n_suc) front';
          short = omega (arith, ih.short);
          same_strlen = ih.same_strlen ∙ strlen-set s n c (omega arith) (digit_nonzero c digit);
          same_length = ih.same_length ∙ length-set s n c;
        })

  dropped :
      isxdigit (get_or s i 0) ≡ false
      → Packed f s (i + 1) n (fmt_loop f s (i + 1) n)
      → Packed (suc f) s i n (fmt_loop (suc f) s i n)
  unfolding fmt_loop
  dropped other ih =
      let c = get_or s i 0 in
      let room = strlen-le s in
      let i_suc : i + 1 ≡ suc i = omega arith in
      rw (inside, keeps_digits c, other)
        (record {
          front = ih.front ∙ rw (i_suc, next_byte s i f (omega arith), other) refl;
          short = omega (arith, ih.short);
          same_strlen = ih.same_strlen;
          same_length = ih.same_length;
        })

fmt_loop-Packed :
    (f : ℕ) (s : List ℕ) (i n : ℕ) → n ≤ i → i + f ≡ strlen s → Packed f s i n (fmt_loop f s i n)
unfolding fmt_loop
fmt_loop-Packed zero s i n le all = record {
  front = sym (append-nil (take n s));
  short = omega arith;
  same_strlen = refl;
  same_length = refl;
}
fmt_loop-Packed (suc f) s i n le all = elim (Bool-cases (isxdigit (get_or s i 0))) [
  | inl digit ↦
      let room = strlen-set s n (get_or s i 0) (omega arith) (digit_nonzero (get_or s i 0) digit) in
      kept f s i n le all digit
        (fmt_loop-Packed f (set s n (get_or s i 0)) (i + 1) (n + 1) (omega arith) (omega arith))
  | inr other ↦
      dropped f s i n le all other (fmt_loop-Packed f s (i + 1) n (omega arith) (omega arith))
]

-- On a string that ends inside its array, obd_fmt_resp leaves the string of its hexadecimal digits, in
-- order, and returns -1 exactly where they are odd in number.
pub fmt_resp-digits :
    (s : List ℕ)
    → strlen s < length s
    → (c_string (obd_fmt_resp s).1 ≡ hex_digits_of (c_string s))
      × ((obd_fmt_resp s).0 ≡ (if length (hex_digits_of (c_string s)) % 2 == 0 then 0 else 255))
unfolding obd_fmt_resp
fmt_resp-digits s h =
    let p = fmt_loop-Packed (strlen s) s 0 0 (omega arith) (omega arith) in
    let packed =
      c_string-set (fmt_loop (strlen s) s 0 0).0 (fmt_loop (strlen s) s 0 0).1
        (omega (arith, p.short, p.same_strlen)) (omega (arith, p.short, p.same_length)) in
    let text = packed ∙ p.front ∙ ap hex_digits_of (sym (c_string-take s)) in
    (
      text,
      rw (length-c_string (set (fmt_loop (strlen s) s 0 0).0 (fmt_loop (strlen s) s 0 0).1 0), text)
          refl,
    )
