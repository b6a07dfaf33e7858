-- ===== src/Linked.antt =====
-- src/list.c and src/include/list.h: linked lists on an explicit heap. An allocation succeeds, and takes
-- an address that was never used.
pub mod Chain
pub mod Alloc
pub mod Push
pub mod Walk
mod Tests
use ee459spring.Base.{ℕ, zero, suc, ◌+◌, ◌==◌, Option, none, some, List, if◌then◌else◌, ◌∷◌, []}

abbrev pub Ptr : Type 0
Ptr = ℕ

abbrev pub null : Ptr
null = 0

-- `struct node`; the bytes behind `data` are a block of their own
pub record Node : Type 0 where
  pub item : Ptr
  pub next : Ptr

pub record Heap : Type 0 where
  -- the lowest address that was never given out
  pub fresh : ℕ
  pub node : Ptr → Option Node
  pub block : Ptr → Option (List ℕ)

-- A run with the heap after it, an access to memory that is not allocated, or more rounds than fuel.
pub data Run {ℓ} (A : Type ℓ) : Type ℓ where
  done : A → Heap → Run A
  fault : Run A
  out_of_fuel : Run A

infixl 5 ◌>>=◌
abbrev pub ◌>>=◌ {ℓ κ} : {A : Type ℓ} {B : Type κ} → Run A → (A → Heap → Run B) → Run B
done a h >>= k = k a h
fault >>= k = fault
out_of_fuel >>= k = out_of_fuel

abbrev pub put {ℓ} : {A : Type ℓ} → (Ptr → Option A) → Ptr → Option A → Ptr → Option A
put f p v q = if q == p then v else f q

abbrev pub found : Option Node → Heap → Run Node
found none h = fault
found (some n) h = done n h

-- `*p`
abbrev pub load : Ptr → Heap → Run Node
load p h = found (h.node p) h

-- `p->next = q`
unfoldable pub set_next : Ptr → Ptr → Heap → Run (Unit {0})
set_next p q h = load p h >>= λ n h'.
    done tt (record h' { node = put h'.node p (some (record { item = n.item; next = q })) })

-- The two calls of `malloc`, the copy of the bytes and the store of `next`.
unfoldable pub new_node : Ptr → List ℕ → Heap → Run Ptr
new_node next bytes h = done h.fresh (record {
  fresh = h.fresh + 2;
  node = put h.node h.fresh (some (record { item = h.fresh + 1; next = next }));
  block = put h.block (h.fresh + 1) (some bytes);
})

-- The new value of `*head`.
unfoldable pub list_push_head : Ptr → List ℕ → Heap → Run Ptr
unfolding new_node
list_push_head head bytes h = new_node head bytes h

-- `while (ptr->next) ptr = ptr->next;`
unfoldable pub find_tail : ℕ → Ptr → Heap → Run Ptr
find_tail zero p h = out_of_fuel
find_tail (suc fuel) p h = load p h >>= λ n h'.
    let more = find_tail fuel n.next h' in if n.next == null then done p h' else more

unfoldable pub list_push_tail : ℕ → Ptr → List ℕ → Heap → Run Ptr
unfolding new_node find_tail set_next
list_push_tail fuel head bytes h = new_node null bytes h >>= λ p h1.
    if head == null
    then done p h1
    else (find_tail fuel head h1 >>= λ tail h2. set_next tail p h2 >>= λ _ h3. done head h3)

-- The node is freed before its `next` is read.
unfoldable pub list_free : ℕ → Ptr → Heap → Run (Unit {0})
list_free zero p h = out_of_fuel
list_free (suc fuel) p h =
    let go = load p h >>= λ _ h1.
    load p (record h1 { node = put h1.node p none }) >>= λ n h2. list_free fuel n.next h2 in
    if p == null then done tt h else go

-- What `fptr` is called with: the blocks in order.
unfoldable pub list_dump : ℕ → Ptr → Heap → Run (List (Option (List ℕ)))
list_dump zero p h = out_of_fuel
list_dump (suc fuel) p h =
    let go = load p h >>= λ n h1.
    list_dump fuel n.next h1 >>= λ rest h2. done (h1.block n.item ∷ rest) h2 in
    if p == null then done [] h else go
