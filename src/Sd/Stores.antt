-- ===== src/Sd/Stores.antt =====
-- The functions of src/sd.c before a card that follows the protocol are the device that src/io.c uses.
use ee459spring.Base.{
  ℕ, zero, suc, refl, ◌≡◌, ◌<◌, ◌+◌, ◌^◌, ◌==◌, Bool, true, false, List, [], ◌∷◌, ◌++◌, length,
  take, drop, replicate, arith, some, none, ltb, if◌then◌else◌, Bool-cases, inl, inr, ap,
  append_assoc, length-replicate, length-append, ◌⊎◌, sym, ◌∙◌,
}
use ee459spring.Io.Ram.{fit, length-fit, fit_self}
use ee459spring.Io.Sectors.{Device}
use ee459spring.Sd.{frame, sd_put_sector, sd_get_sector}
use ee459spring.Sd.Steps.{polls_end, bus_with, polls}
use ee459spring.Sd.Sector.{get_sector-data, asked}
use ee459spring.Sd.Put.{commanded, put_sector-accepted}
use ee459spring.Sd.Card.{
  Timing, address_in, write_answers, command_in, data_in, card_get, card_put, read_log, answer_to,
  command_byte, read_answers,
}

drop-append : (xs ys : List ℕ) → drop (length xs) (xs ++ ys) ≡ ys
drop-append [] ys = refl
drop-append (x ∷ xs) ys = drop-append xs ys

take-append : (n : ℕ) (xs ys : List ℕ) → length xs ≡ n → take n (xs ++ ys) ≡ xs
take-append zero [] ys e = refl
take-append zero (x ∷ xs) ys e = absurd (omega arith)
take-append (suc n) [] ys e = absurd (omega arith)
take-append (suc n) (x ∷ xs) ys e = ap (λ (t : List ℕ). x ∷ t) (take-append n xs ys (omega arith))

none-some : {buf : List ℕ} → ¬ (none ≡ some buf)
none-some e = cc

some-injective : {x y : List ℕ} → some x ≡ some y → x ≡ y
some-injective e = cc

false-true : ¬ (false ≡ true)
false-true e = cc

fit_if :
    (buf old : List ℕ) (test : Bool)
    → length buf ≡ 512
    → fit 512 (if test then buf else old) ≡ (if test then buf else fit 512 old)
fit_if buf old true e = fit_self 512 buf e
fit_if buf old false e = refl

in_range : (a : ℕ) → a < 2 ^ 32 → ltb a (2 ^ 32) ≡ true
in_range a h = ground arith

ranged : (a : ℕ) → (a < 2 ^ 32) ⊎ (ltb a (2 ^ 32) ≡ false)
ranged a = elim (Bool-cases (ltb a (2 ^ 32))) [ inl e ↦ inl (ground (arith, e)) | inr e ↦ inr e ]

address_of_frame :
    (cmd a : ℕ) (rest : List ℕ) → a < 2 ^ 32 → address_in (frame cmd a 0xff ++ rest) ≡ a
address_of_frame cmd a rest h = omega arith

module _ (t : Timing) where
  -- one run of a read
  get_run :
      (a : ℕ) (content : List ℕ)
      → length content ≡ 512
      → sd_get_sector a 512 (bus_with (read_answers t content) [] false)
        ≡ some (
          some content,
          bus_with []
              (((asked [] t.busy a ++ polls_end t.waits) ++ polls content) ++ polls_end t.tail)
              false,
        )
  get_run a content e =
      let run =
        get_sector-data a t.busy (replicate 6 0xff) t.waits content t.tail [] [] false t.busy_ok
          refl t.waits_ok t.waits_short t.tail_ok in
      rw e at run

  -- the command in the log of a read
  read_command :
      (a : ℕ) → (rest : List ℕ) × (command_in t (read_log t a) ≡ frame 0x51 a 0xff ++ rest)
  unfolding read_log
  read_command a =
      let zeros = replicate 512 0 in
      let rest = polls_end t.waits ++ (polls zeros ++ polls_end t.tail) in
      let regrouped : ((asked [] t.busy a ++ polls_end t.waits) ++ polls zeros) ++ polls_end t.tail
          ≡ polls_end t.busy ++ (frame 0x51 a 0xff ++ rest) =
        simp append_assoc in
      (
        rest,
        rw (get_run a zeros refl, regrouped)
            (drop-append (polls_end t.busy) (frame 0x51 a 0xff ++ rest)),
      )

  answer_lem :
      (store : ℕ → List ℕ) (a : ℕ)
      → a < 2 ^ 32
      → answer_to t store (read_log t a) ≡ fit 512 (store a)
  answer_lem store a h =
      let (rest, e) = read_command a in
      let where_to : address_in (command_in t (read_log t a)) ≡ a =
        rw e (address_of_frame 0x51 a rest h) in
      let byte : command_byte (command_in t (read_log t a)) ≡ 0x51 = rw e refl in
      rw (byte, where_to) refl

  pub card_get_lem :
      (store : ℕ → List ℕ) (a : ℕ)
      → a < 2 ^ 32
      → card_get t store a ≡ (some (fit 512 (store a)), store)
  unfolding card_get
  card_get_lem store a h =
      let content = fit 512 (store a) in
      let small : ltb a (2 ^ 32) ≡ true = in_range a h in
      rw (small, answer_lem store a h, get_run a content (length-fit 512 (store a))) refl

  -- the log of a write, from its command on
  abbrev written : ℕ → List ℕ → List ℕ
  written a buf =
      frame 0x58 a 0xff
      ++ (polls_end t.noise
          ++ 0xfe ∷ (buf ++ (0xff ∷ 0xff ∷ (polls_end t.settling ++ polls_end t.tail))))

  abbrev log_of : ℕ → List ℕ → List ℕ
  log_of a buf =
      ((commanded [] t.busy t.noise a ++ 0xfe ∷ (buf ++ 0xff ∷ 0xff ∷ [])) ++ polls_end t.settling)
      ++ polls_end t.tail

  log_of-regrouped : (a : ℕ) (buf : List ℕ) → log_of a buf ≡ polls_end t.busy ++ written a buf
  log_of-regrouped a buf = simp append_assoc

  command_of_log : (a : ℕ) (buf : List ℕ) → command_in t (log_of a buf) ≡ written a buf
  command_of_log a buf =
      rw (log_of-regrouped a buf) (drop-append (polls_end t.busy) (written a buf))

  data_of_log : (a : ℕ) (buf : List ℕ) → length buf ≡ 512 → data_in t (log_of a buf) ≡ buf
  data_of_log a buf e =
      let ending = 0xff ∷ 0xff ∷ (polls_end t.settling ++ polls_end t.tail) in
      rw (command_of_log a buf, drop-append (polls_end t.noise) (0xfe ∷ (buf ++ ending)))
        (take-append 512 buf ending e)

  put_run :
      (a : ℕ) (buf : List ℕ)
      → sd_put_sector a buf (bus_with (write_answers t (length buf)) [] false)
        ≡ some (0, bus_with [] (log_of a buf) false)
  put_run a buf =
      let echo : length (replicate (length buf + 3) 0xff)
          ≡ length (0xfe ∷ (buf ++ 0xff ∷ 0xff ∷ [])) =
        omega (
          arith,
          length-replicate {A = ℕ} (length buf + 3) 0xff,
          length-append buf (0xff ∷ 0xff ∷ []),
        ) in
      put_sector-accepted a buf t.busy (replicate 6 0xff) t.noise (replicate (length buf + 3) 0xff)
        t.settling t.tail [] [] false t.busy_ok refl t.noise_ok t.noise_short echo t.settling_ok
        t.settling_short t.tail_ok

  pub card_put_lem :
      (store : ℕ → List ℕ) (a i : ℕ) (buf : List ℕ)
      → a < 2 ^ 32
      → length buf ≡ 512
      → ((card_put t store a buf).0 ≡ true)
        × ((card_put t store a buf).1 i ≡ (if i == a then buf else store i))
  unfolding card_put
  card_put_lem store a i buf h e =
      let small : ltb a (2 ^ 32) ≡ true = in_range a h in
      let where_to : address_in (command_in t (log_of a buf)) ≡ a = rw (command_of_log a buf) (
        address_of_frame 0x58 a
          (polls_end t.noise
            ++ 0xfe ∷ (buf ++ (0xff ∷ 0xff ∷ (polls_end t.settling ++ polls_end t.tail))))
          h) in
      let byte : command_byte (command_in t (log_of a buf)) ≡ 0x58 =
        rw (command_of_log a buf) refl in
      (
        rw (small, put_run a buf) refl,
        rw (small, put_run a buf, byte, where_to, data_of_log a buf e) refl,
      )

  pub card_get-some :
      (store : ℕ → List ℕ) (a : ℕ) (buf : List ℕ)
      → (card_get t store a).0 ≡ some buf
      → buf ≡ fit 512 (store a)
  unfolding card_get
  card_get-some store a buf e = elim (ranged a) [
    | inl h ↦ some-injective (sym e ∙ ap (λ r. r.0) (card_get_lem store a h))
    | inr far ↦ absurd (none-some (rw far at e))
  ]

  pub card_get-store : (store : ℕ → List ℕ) (a : ℕ) → (card_get t store a).1 ≡ store
  unfolding card_get
  card_get-store store a = elim (ranged a) [
    | inl h ↦ ap (λ r. r.1) (card_get_lem store a h)
    | inr far ↦ rw far refl
  ]

  pub card_put-fit :
      (store : ℕ → List ℕ) (a i : ℕ) (buf : List ℕ)
      → length buf ≡ 512
      → (card_put t store a buf).0 ≡ true
      → fit 512 ((card_put t store a buf).1 i) ≡ (if i == a then buf else fit 512 (store i))
  unfolding card_put
  card_put-fit store a i buf e done = elim (ranged a) [
    | inl h ↦ rw (card_put_lem store a i buf h e).1 (fit_if buf (store i) (i == a) e)
    | inr far ↦ absurd (false-true (rw far at done))
  ]

  pub card_put-code :
      (store : ℕ → List ℕ) (a : ℕ) (buf : List ℕ) → a < 2 ^ 32 → (card_put t store a buf).0 ≡ true
  unfolding card_put
  card_put-code store a buf h = rw (in_range a h, put_run a buf) refl

  -- The functions of src/sd.c before such a card are what src/io.c relies on.
  abbrev pub sd_device : Device
  sd_device = record {
    Card = ℕ → List ℕ;
    sector = λ store a. fit 512 (store a);
    get_sector = card_get t;
    put_sector = card_put t;
    length-sector = λ store a. length-fit 512 (store a);
    get_some = card_get-some;
    sector-get = λ store a i. ap (λ (s : ℕ → List ℕ). fit 512 (s i)) (card_get-store store a);
    sector-put = card_put-fit;
  }

  -- Before a card that follows the protocol, and for 32-bit addresses: sd_put_sector of 512 bytes returns
  -- 0, and sd_get_sector then returns them at that address, and at any other address what the card stored
  -- before, as 512 bytes.
  pub card_get-put :
      (store : ℕ → List ℕ) (a b : ℕ) (buf : List ℕ)
      → a < 2 ^ 32
      → b < 2 ^ 32
      → length buf ≡ 512
      → ((card_put t store a buf).0 ≡ true)
        × ((card_get t (card_put t store a buf).1 b).0
            ≡ some (if b == a then buf else fit 512 (store b)))
  card_get-put store a b buf ha hb e =
      let stored = card_put_lem store a b buf ha e in
      (
        stored.0,
        ap (λ r. r.0) (card_get_lem (card_put t store a buf).1 b hb)
            ∙ ap some (card_put-fit store a b buf e stored.0),
      )
