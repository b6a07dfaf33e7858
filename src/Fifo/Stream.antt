-- ===== src/Fifo/Stream.antt =====
-- `fifo_writen` and `fifo_readn`: how many bytes they move, and what they report.
use ee459spring.Base.{
  ℕ, ◌+◌, ◌≡◌, refl, ap, ◌∙◌, Bool, List, [], ◌∷◌, ◌++◌, length, take, arith, false, true, ◌<◌,
  take-nil, if◌then◌else◌, length-append, append-nil, ◌&&◌, ltb, Bool-cases, inl, inr, take_pos,
  append_assoc, ◌-◌,
}
use ee459spring.Fifo.{Fifo, Status, is_full, fifo_write_byte, fifo_writen}
use ee459spring.Fifo.Inv.{IsValid, stored, write-IsValid}
use ee459spring.Fifo.Refine.{contents, view, length-contents, write_refines}
use ee459spring.Fifo.Latch
use ee459spring.Fifo.Latch.{push, pop, room}

-- how many bytes a fifo takes before it refuses
abbrev pub space : Fifo → ℕ
space f = room (view f)

open-lt : (f : Fifo) → IsValid f → is_full f.f_status ≡ false → length (contents f) < 64
open-lt f v e = omega (arith, length-contents f, below f.f_status f.f_head f.f_tail e)
  where
    below : (s : Status) (h t : ℕ) → is_full s ≡ false → stored s h t < 64
    below Status.full h t e = cc
    below Status.empty h t e = omega arith
    below Status.ready h t e = omega arith

pub write-full : (f : Fifo) (x : ℕ) → is_full f.f_status ≡ true → fifo_write_byte f x ≡ (255, f)
unfolding fifo_write_byte
write-full f x e = rw e

record Stored (f : Fifo) (x : ℕ) (out : ℕ × Fifo) : Type 0 where
  code : out.0 ≡ 0
  bytes : contents out.1 ≡ contents f ++ (x ∷ [])
  less : space out.1 + 1 ≡ space f

push-room :
    (l : Latch.Latch) (x : ℕ)
    → l.closed ≡ false
    → length l.bytes < 64
    → (push l x).0 ≡ 0
      × ((push l x).1.bytes ≡ l.bytes ++ (x ∷ []))
      × (room (push l x).1 + 1 ≡ room l)
unfolding push
push-room l x e h = rw e (refl, refl, ground (arith, length-append l.bytes (x ∷ [])))

write-Stored :
    (f : Fifo) (x : ℕ) → IsValid f → is_full f.f_status ≡ false → Stored f x (fifo_write_byte f x)
write-Stored f x v e =
    let p = push-room (view f) x e (open-lt f v e) in
    let same = write_refines f x v in
    record {
      code = ap (λ r. r.0) same ∙ p.0;
      bytes = ap (λ r. r.1.bytes) same ∙ p.1;
      less = ap (λ r. room r.1 + 1) same ∙ p.2;
    }

-- What `fifo_writen` leaves, and its code.
pub record Written (sc : Bool) (f : Fifo) (xs : List ℕ) (out : ℕ × Fifo) : Type 0 where
  pub bytes : contents out.1 ≡ contents f ++ take (space f) xs
  pub code : out.0 ≡ (if sc && ltb (space f) (length xs) then 255 else 0)

writen_full :
    (sc : Bool) (xs : List ℕ) (f : Fifo)
    → is_full f.f_status ≡ true
    → fifo_writen sc f xs ≡ ((if sc && ltb 0 (length xs) then 255 else 0), f)
unfolding fifo_writen
writen_full sc [] f e = ground arith
writen_full sc (x ∷ xs) f e = rw (write-full f x e, writen_full sc xs f e) (ground arith)

-- `fifo_writen` appends the longest prefix that fits and drops the rest. It reports the loss only
-- where `char` is signed: under -funsigned-char it returns 0 in every case.
pub writen-Written :
    (sc : Bool) (xs : List ℕ) (f : Fifo) → IsValid f → Written sc f xs (fifo_writen sc f xs)
unfolding fifo_writen
writen-Written sc [] f v = record { bytes = rw (take-nil, append-nil); code = ground arith }
writen-Written sc (x ∷ xs) f v = elim (Bool-cases (is_full f.f_status)) [
  | inl e ↦ record {
    bytes = ground (arith, writen_full sc (x ∷ xs) f e, append-nil (contents f));
    code = ground (arith, writen_full sc (x ∷ xs) f e);
  }
  | inr e ↦
      let w = write-Stored f x v e in
      let ih = writen-Written sc xs (fifo_write_byte f x).1 (write-IsValid f x v) in
      let t = take_pos (space f) x xs (omega (arith, w.less)) in
      let assoc = append_assoc (contents f) (x ∷ []) (take (space f - 1) xs) in
      record { bytes = ground (arith, w, ih, t, assoc); code = ground (arith, w, ih) }
]
