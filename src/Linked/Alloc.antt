-- ===== src/Linked/Alloc.antt =====
-- A new node on the heap, and what the lists that are there keep of themselves.
use ee459spring.Base.{
  ℕ, refl, ◌≡◌, ◌≢◌, ◌<◌, ◌+◌, false, List, [], ◌∷◌, some, Option, arith, ==_ne, ==_refl,
}
use ee459spring.Linked.{Ptr, null, Node, Heap, put}
use ee459spring.Linked.Chain.{Chain, nil, cons, has}

abbrev pub cell : Ptr → Ptr → Node
cell d q = record { item = d; next = q }

-- the heap after `new_node`
abbrev pub allocated : Ptr → List ℕ → Heap → Heap
allocated next bytes h = record {
  fresh = h.fresh + 2;
  node = put h.node h.fresh (some (cell (h.fresh + 1) next));
  block = put h.block (h.fresh + 1) (some bytes);
}

pub put_other :
    {A : Type 0} (f : Ptr → Option A) (p q : Ptr) (v : Option A) → q ≢ p → put f p v q ≡ f q
put_other f p q v ne = rw (==_ne q p ne) refl

pub put_self : {A : Type 0} (f : Ptr → Option A) (p : Ptr) (v : Option A) → put f p v p ≡ v
put_self f p v = rw (==_refl p) refl

pub nil_items :
    {h : Heap} {p : Ptr} {items : List (List ℕ)} → Chain h p [] items → (p ≡ null) × (items ≡ [])
nil_items nil = (refl, refl)

pub null_items :
    {h : Heap} {p : Ptr} {ps : List Ptr} {items : List (List ℕ)}
    → Chain h p ps items
    → p ≡ null
    → (ps ≡ []) × (items ≡ [])
null_items nil e = (refl, refl)
null_items (cons np lt dlt nd bk r) e = absurd (np e)

pub fresh_apart :
    {h : Heap} {p : Ptr} {ps : List Ptr} {items : List (List ℕ)}
    → Chain h p ps items
    → has h.fresh ps ≡ false
fresh_apart nil = refl
fresh_apart {h} (cons {p} np lt dlt nd bk r) =
    rw (==_ne h.fresh p (λ e. omega arith), fresh_apart r) refl

-- an allocation leaves a list as it is
pub keep-Chain :
    {h : Heap} {p : Ptr} {ps : List Ptr} {items : List (List ℕ)} (next : Ptr) (bytes : List ℕ)
    → Chain h p ps items
    → Chain (allocated next bytes h) p ps items
keep-Chain next bytes nil = nil
keep-Chain {h} next bytes (cons {p} {q} {d} np lt dlt nd bk r) =
    cons {d = d} np (omega arith) (omega arith)
      (rw (put_other h.node h.fresh p (some (cell (h.fresh + 1) next)) (λ e. omega arith)) nd)
      (rw (put_other h.block (h.fresh + 1) d (some bytes) (λ e. omega arith)) bk)
      (keep-Chain next bytes r)

-- a new node in front
pub new-Chain :
    {h : Heap} {next : Ptr} {ps : List Ptr} {items : List (List ℕ)} (bytes : List ℕ)
    → 0 < h.fresh
    → Chain h next ps items
    → Chain (allocated next bytes h) h.fresh (h.fresh ∷ ps) (bytes ∷ items)
new-Chain {h} {next} bytes used c =
    cons {d = h.fresh + 1} (λ e. omega (arith, used)) (omega arith) (omega arith)
      (put_self h.node h.fresh (some (cell (h.fresh + 1) next)))
      (put_self h.block (h.fresh + 1) (some bytes)) (keep-Chain next bytes c)
