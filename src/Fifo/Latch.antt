-- ===== src/Fifo/Latch.antt =====
-- What fifo.c keeps, as a queue of at most 64 bytes with a latch: the byte that fills the queue
-- closes it, and only the read that empties it opens it again.
use ee459spring.Base.{
  ℕ, ◌+◌, ◌-◌, Bool, true, false, Option, none, some, List, [], ◌∷◌, ◌++◌, length, ◌==◌,
  if◌then◌else◌,
}

pub record Latch : Type 0 where
  pub bytes : List ℕ
  pub closed : Bool

abbrev pub latch : List ℕ → Bool → Latch
latch bytes closed = record { bytes = bytes; closed = closed }

unfoldable pub push : Latch → ℕ → ℕ × Latch
push l x =
    if l.closed then (255, l) else (0, latch (l.bytes ++ (x ∷ [])) (length l.bytes + 1 == 64))

abbrev pub is_nil : List ℕ → Bool
is_nil [] = true
is_nil (_ ∷ _) = false

abbrev pub pop_bytes : List ℕ → Bool → ℕ × Option ℕ × Latch
pop_bytes [] closed = (255, none, latch [] closed)
pop_bytes (x ∷ xs) closed = (0, some x, latch xs (if is_nil xs then false else closed))

unfoldable pub pop : Latch → ℕ × Option ℕ × Latch
pop l = pop_bytes l.bytes l.closed

-- the calls of the two sides: the interrupt writes, the reader reads
pub data Op : Type 0 where
  write : ℕ → Op
  read : Op

abbrev pub Reply : Type 0
Reply = ℕ × Option ℕ

unfoldable pub run : Latch → List Op → List Reply
run l [] = []
run l (write x ∷ ops) = let (c, l') = push l x in (c, none) ∷ run l' ops
run l (read ∷ ops) = let (c, out, l') = pop l in (c, out) ∷ run l' ops

-- how many bytes the queue takes before it refuses
abbrev pub room : Latch → ℕ
room l = if l.closed then 0 else 64 - length l.bytes
