-- ===== src/Elm/Read.antt =====
-- What `elm_read` (src/elm.c) makes of the bytes that arrive.
use ee459spring.Base.{
  ℕ, refl, ◌≡◌, List, [], ◌∷◌, ◌++◌, ◌+◌, arith, Bool, true, false, not, ◌&&◌, ◌==◌, replicate, set,
  length, zero, suc, ap, strstr, some, u8, leb, ◌<◌, sym, ap₂, ◌-◌, length-append, ◌∙◌,
  append_assoc, ltb, length-append,
}
use ee459spring.Elm.{Answer, elm_response_complete, elm_read_loop, elm_read, strstr}

-- neither the prompt nor a NUL
abbrev pub is_plain : List ℕ → Bool
is_plain [] = true
is_plain (c ∷ cs) = not (c == 62) && not (c == 0) && is_plain cs

plain-append : (xs ys : List ℕ) → is_plain (xs ++ ys) ≡ is_plain xs && is_plain ys
plain-append [] ys = refl
plain-append (x ∷ xs) ys = ground (arith, plain-append xs ys)

unfinished :
    (xs : List ℕ) (m : ℕ) → is_plain xs ≡ true → elm_response_complete (xs ++ replicate m 0) ≡ false
unfolding strstr
unfinished [] zero h = refl
unfinished [] (suc m) h = refl
unfinished (x ∷ xs) m h = ground (arith, unfinished xs m)

finished : (xs ys : List ℕ) → is_plain xs ≡ true → elm_response_complete (xs ++ 62 ∷ ys) ≡ true
unfolding strstr
finished [] ys h = refl
finished (x ∷ xs) ys h = ground (arith, finished xs ys)

set-append : (xs ys : List ℕ) (y v : ℕ) → set (xs ++ y ∷ ys) (length xs) v ≡ xs ++ v ∷ ys
set-append [] ys y v = refl
set-append (x ∷ xs) ys y v = ap (λ (t : List ℕ). x ∷ t) (set-append xs ys y v)

-- a byte and the NUL after it, where the rest of the array is zeros
stored :
    (done : List ℕ) (m c : ℕ)
    → set (set (done ++ 0 ∷ replicate m 0) (length done) c) (length done + 1) 0
      ≡ done ++ c ∷ replicate m 0
stored [] zero c = refl
stored [] (suc m) c = refl
stored (x ∷ done) m c =
    let shift : suc (length done) + 1 ≡ suc (length done + 1) = omega arith in
    rw shift (ap (λ (t : List ℕ). x ∷ t) (stored done m c))

-- what a read of the plain bytes `bs` and the prompt leaves in the array after `done`
abbrev answer : List ℕ → List ℕ → ℕ → ℕ → List ℕ → Answer
answer done bs k ret rest = record {
  ret = u8 (ret + length bs + 1);
  buf = done ++ (bs ++ 62 ∷ replicate k 0);
  overrun = leb (length done + length bs + 1 + k) (length done + length bs + 1);
  rest = rest;
}

read_loop_step :
    (size m : ℕ) (done : List ℕ) (ret c : ℕ) (incoming : List ℕ)
    → is_plain (done ++ c ∷ []) ≡ true
    → elm_read_loop size (suc m) (done ++ 0 ∷ replicate m 0) (length done) ret (c ∷ incoming)
      ≡ elm_read_loop size m
          ((done ++ c ∷ []) ++ replicate m 0)
          (length (done ++ c ∷ []))
          (u8 (ret + 1))
          incoming
unfolding elm_read_loop
read_loop_step size m done ret c incoming plain =
    let longer : length (done ++ c ∷ []) ≡ length done + 1 =
      omega (arith, length-append done (c ∷ [])) in
    let joined : (done ++ c ∷ []) ++ replicate m 0 ≡ done ++ c ∷ replicate m 0 =
      append_assoc done (c ∷ []) (replicate m 0) in
    let open_end : elm_response_complete (done ++ c ∷ replicate m 0) ≡ false =
      rw (← joined) (unfinished (done ++ c ∷ []) m plain) in
    rw (stored done m c, longer, joined, open_end) refl

read_loop_end :
    (size k : ℕ) (done : List ℕ) (ret : ℕ) (rest : List ℕ)
    → is_plain done ≡ true
    → size ≡ length done + 1 + k
    → elm_read_loop size (suc k) (done ++ 0 ∷ replicate k 0) (length done) ret (62 ∷ rest)
      ≡ some (answer done [] k ret rest)
unfolding elm_read_loop
read_loop_end size k done ret rest plain e =
    let none_left : length done + 0 + 1 ≡ length done + 1 = omega arith in
    let same : ret + 0 + 1 ≡ ret + 1 = omega arith in
    rw (stored done k 62, finished done (replicate k 0) plain, none_left, same, e) refl

read_loop_lem :
    (size k m : ℕ) (bs done : List ℕ) (ret : ℕ) (rest : List ℕ)
    → is_plain done ≡ true
    → is_plain bs ≡ true
    → m ≡ length bs + 1 + k
    → size ≡ length done + m
    → elm_read_loop size m (done ++ replicate m 0) (length done) ret (bs ++ 62 ∷ rest)
      ≡ some (answer done bs k ret rest)
read_loop_lem size k zero bs done ret rest pd pb em es = absurd (omega arith)
read_loop_lem size k (suc m) [] done ret rest pd pb em es =
    let same : m ≡ k = omega arith in rw same (read_loop_end size k done ret rest pd (omega arith))
read_loop_lem size k (suc m) (b ∷ bs) done ret rest pd pb em es =
    let pd' : is_plain (done ++ b ∷ []) ≡ true = ground (arith, plain-append done (b ∷ [])) in
    let longer : length (done ++ b ∷ []) ≡ length done + 1 =
      omega (arith, length-append done (b ∷ [])) in
    let place : length (done ++ b ∷ []) + length bs ≡ length done + suc (length bs) = omega arith in
    let code : u8 (u8 (ret + 1) + length bs + 1) ≡ u8 (ret + suc (length bs) + 1) = omega arith in
    let ih =
      read_loop_lem size k m bs (done ++ b ∷ []) (u8 (ret + 1)) rest pd' (ground (arith, pb))
        (omega arith) (omega arith) in
    read_loop_step size m done ret b (bs ++ 62 ∷ rest) pd'
    ∙ ih
    ∙ ap some (λ i. record {
      ret = code i;
      buf = append_assoc done (b ∷ []) (bs ++ 62 ∷ replicate k 0) i;
      overrun = leb (place i + 1 + k) (place i + 1);
      rest = rest;
    })

read_loop_full :
    (size : ℕ) (bs done : List ℕ) (ret : ℕ) (rest : List ℕ)
    → is_plain done ≡ true
    → is_plain bs ≡ true
    → size ≡ length done + length bs
    → 0 < size
    → ret < 256
    → elm_read_loop size
        (length bs)
        (done ++ replicate (length bs) 0)
        (length done)
        ret
        (bs ++ rest)
      ≡ some (record { ret = u8 (ret + length bs); buf = done ++ bs; overrun = true; rest = rest })
unfolding elm_read_loop
read_loop_full size [] done ret rest pd pb es pos small =
    let code : ret ≡ u8 (ret + 0) = omega arith in
    let past : leb size (length done) && ltb 0 (length done) ≡ true = ground arith in
    ap some (λ i. record { ret = code i; buf = done ++ []; overrun = past i; rest = rest })
read_loop_full size (b ∷ bs) done ret rest pd pb es pos small =
    let pd' : is_plain (done ++ b ∷ []) ≡ true = ground (arith, plain-append done (b ∷ [])) in
    let ih =
      read_loop_full size bs (done ++ b ∷ []) (u8 (ret + 1)) rest pd' (ground (arith, pb))
        (omega (arith, length-append done (b ∷ []))) pos (omega arith) in
    let code : u8 (u8 (ret + 1) + length bs) ≡ u8 (ret + suc (length bs)) = omega arith in
    read_loop_step size (length bs) done ret b (bs ++ rest) pd'
    ∙ ih
    ∙ ap some (λ i. record {
      ret = code i;
      buf = append_assoc done (b ∷ []) bs i;
      overrun = true;
      rest = rest;
    })

-- elm_read takes an answer without NULs that ends with the prompt and fits the array up to and with
-- the prompt: it returns its length as a byte, puts it into the array before zeros, leaves what comes
-- after it, and writes past the end of the array exactly where the answer fills it.
pub elm_read_lem :
    (size : ℕ) (bs rest : List ℕ)
    → is_plain bs ≡ true
    → length bs < size
    → elm_read size (bs ++ 62 ∷ rest)
      ≡ some (record {
        ret = u8 (length bs + 1);
        buf = bs ++ 62 ∷ replicate (size - (length bs + 1)) 0;
        overrun = leb size (length bs + 1);
        rest = rest;
      })
unfolding elm_read
elm_read_lem size bs rest pb h =
    let e : length bs + 1 + (size - (length bs + 1)) ≡ size = omega arith in
    let all =
      read_loop_lem size (size - (length bs + 1)) size bs [] 0 rest refl pb (sym e) (omega arith) in
    all
    ∙ ap some (λ i. record {
      ret = zero_add_code i;
      buf = bs ++ 62 ∷ replicate (size - (length bs + 1)) 0;
      overrun = fits i;
      rest = rest;
    })
  where
    zero_add_code : u8 (0 + length bs + 1) ≡ u8 (length bs + 1)
    zero_add_code = omega arith

    fits :
        leb (0 + length bs + 1 + (size - (length bs + 1))) (0 + length bs + 1)
        ≡ leb size (length bs + 1)
    fits = ap₂ leb (omega arith) (omega arith)

-- Where as many bytes as the array has slots, and at least one, arrive without a prompt and without
-- a NUL, elm_read puts them into the array and writes a NUL past its end.
pub elm_read-overrun :
    (bs rest : List ℕ)
    → is_plain bs ≡ true
    → 0 < length bs
    → elm_read (length bs) (bs ++ rest)
      ≡ some (record { ret = u8 (length bs); buf = bs; overrun = true; rest = rest })
unfolding elm_read
elm_read-overrun bs rest pb h =
    let zero_add : u8 (0 + length bs) ≡ u8 (length bs) = omega arith in
    read_loop_full (length bs) bs [] 0 rest refl pb (omega arith) h (omega arith)
    ∙ ap some (λ i. record { ret = zero_add i; buf = bs; overrun = true; rest = rest })
