-- ===== src/Fifo/Drain.antt =====
-- `fifo_readn`, and what reading does to a fifo that was once full.
use ee459spring.Fifo.Stream.{write-full}
use ee459spring.Base.{
  ℕ, zero, suc, ◌≡◌, refl, ◌∙◌, Bool, List, [], ◌∷◌, ◌++◌, length, take, drop, arith, none, some,
  drop-nil, if◌then◌else◌, false, ◌&&◌, ltb, take-nil, true, ◌<◌,
}
use ee459spring.Fifo.{Fifo, is_full, fifo_read_byte, fifo_readn, fifo_write_byte}
use ee459spring.Fifo.Inv.{IsValid, read-IsValid}
use ee459spring.Fifo.Refine.{contents, read_refines}
use ee459spring.Fifo.Latch.{pop, is_nil}

read-nil :
    (f : Fifo)
    → IsValid f
    → contents f ≡ []
    → (fifo_read_byte f).0 ≡ 255
      × ((fifo_read_byte f).1 ≡ none)
      × (contents (fifo_read_byte f).2 ≡ [])
unfolding pop
read-nil f v e = ground (arith, read_refines f v)

read-cons :
    (f : Fifo) (x : ℕ) (xs : List ℕ)
    → IsValid f
    → contents f ≡ x ∷ xs
    → ((fifo_read_byte f).0 ≡ 0)
      × ((fifo_read_byte f).1 ≡ some x)
      × (contents (fifo_read_byte f).2 ≡ xs)
      × (is_full (fifo_read_byte f).2.f_status ≡ (if is_nil xs then false else is_full f.f_status))
unfolding pop
read-cons f x xs v e = ground (arith, read_refines f v)

-- `slots` is the caller's array before the call, `out` the code, the array and the fifo after it.
pub record Drained (sc : Bool) (f : Fifo) (slots : List ℕ) (out : ℕ × List ℕ × Fifo) : Type 0 where
  pub filled : out.1 ≡ take (length slots) (contents f) ++ drop (length (contents f)) slots
  pub rest : contents out.2 ≡ drop (length slots) (contents f)
  pub code : out.0 ≡ (if sc && ltb (length (contents f)) (length slots) then 255 else 0)

-- `fifo_readn` moves as many bytes as there are, oldest first, into the front of the array, leaves
-- the remaining slots alone, and reports a shortage only where `char` is signed.
pub readn-Drained :
    (sc : Bool) (slots : List ℕ) (f : Fifo) → IsValid f → Drained sc f slots (fifo_readn sc f slots)
unfolding fifo_readn
readn-Drained sc [] f v = record { filled = rw drop-nil; rest = refl; code = ground arith }
readn-Drained sc (s ∷ slots) f v =
    go (contents f) refl (readn-Drained sc slots (fifo_read_byte f).2 (read-IsValid f v))
  where
    go :
        (c : List ℕ)
        → contents f ≡ c
        → Drained sc (fifo_read_byte f).2 slots (fifo_readn sc (fifo_read_byte f).2 slots)
        → Drained sc f (s ∷ slots) (fifo_readn sc f (s ∷ slots))
    go [] e ih =
        let r = read-nil f v e in
        let t = take-nil {A = ℕ} (length slots) in
        let d = drop-nil {A = ℕ} (length slots) in
        record {
          filled = ground (arith, r, ih, t, d);
          rest = ground (arith, r, ih, d);
          code = ground (arith, r, ih);
        }
    go (x ∷ xs) e ih =
        let r = read-cons f x xs v e in
        record {
          filled = ground (arith, r, ih);
          rest = ground (arith, r, ih);
          code = ground (arith, r, ih);
        }

-- a number of successive reads
unfoldable pub reads : ℕ → Fifo → Fifo
reads zero f = f
reads (suc k) f = reads k (fifo_read_byte f).2

-- a fifo `g` that refuses the byte `x`, and still holds `bytes`
pub record Refuses (x : ℕ) (g : Fifo) (bytes : List ℕ) : Type 0 where
  pub refused : fifo_write_byte g x ≡ (255, g)
  pub kept : contents g ≡ bytes

-- Once full, a fifo refuses every write until it is empty: after any number of reads that leaves a
-- byte behind, the write returns -1 and changes nothing, though there is room.
pub reads-Refuses :
    (k : ℕ) (f : Fifo) (x : ℕ)
    → IsValid f
    → is_full f.f_status ≡ true
    → k < length (contents f)
    → Refuses x (reads k f) (drop k (contents f))
unfolding reads
reads-Refuses zero f x v e h = record { refused = write-full f x e; kept = refl }
reads-Refuses (suc k) f x v e h =
    go (contents f) refl h (reads-Refuses k (fifo_read_byte f).2 x (read-IsValid f v))
  where
    go :
        (c : List ℕ)
        → contents f ≡ c
        → suc k < length c
        → (is_full (fifo_read_byte f).2.f_status ≡ true
            → k < length (contents (fifo_read_byte f).2)
            → Refuses x (reads k (fifo_read_byte f).2) (drop k (contents (fifo_read_byte f).2)))
        → Refuses x (reads k (fifo_read_byte f).2) (drop (suc k) c)
    go [] p q ih = absurd (omega arith)
    go (y ∷ []) p q ih = absurd (omega arith)
    go (y ∷ z ∷ zs) p q ih =
        let r = read-cons f y (z ∷ zs) v p in rw r.2 at (ih (r.3 ∙ e) (rw r.2 (omega arith)))
