-- ===== src/Linked/Push.antt =====
-- `list_push_head` and `list_push_tail` (src/list.c) add an element at either end of the list.
use ee459spring.Base.{
  or_left, or_right, ◌≤◌, ap, ◌∙◌, not-true, ℕ, zero, suc, refl, ◌≡◌, ◌≢◌, ◌<◌, ◌+◌, ◌==◌, true,
  false, not, List, [], ◌∷◌, ◌++◌, some, arith, length, ==_ne, ==_refl, and_left, and_right,
}
use ee459spring.Linked.{
  Ptr, null, Heap, Run, done, put, set_next, new_node, list_push_head, list_push_tail, find_tail,
}
use ee459spring.Linked.Chain.{Chain, nil, cons, has, distinct, IsList}
use ee459spring.Linked.Alloc.{
  cell, allocated, put_other, put_self, nil_items, fresh_apart, keep-Chain, new-Chain,
}

-- the last node of a list that starts at `p`
abbrev last_of : Ptr → List Ptr → Ptr
last_of p [] = p
last_of p (q ∷ qs) = last_of q qs

-- a list that has a node starts elsewhere than at NULL
not_null :
    {h : Heap} {p a : Ptr} {ps : List Ptr} {items : List (List ℕ)}
    → Chain h p (a ∷ ps) items
    → (p == null) ≡ false
not_null (cons {p} np lt dlt nd bk r) = ==_ne p null np

find_tail_lem :
    {h : Heap} (fuel : ℕ) (p a : Ptr) (ps : List Ptr) {items : List (List ℕ)}
    → Chain h p (a ∷ ps) items
    → length ps < fuel
    → find_tail fuel p h ≡ done (last_of a ps) h
unfolding find_tail
find_tail_lem zero p a ps c le = absurd (omega arith)
find_tail_lem (suc fuel) p a [] (cons np lt dlt nd bk r) le = rw (nd, (nil_items r).0) refl
find_tail_lem (suc fuel) p a (b ∷ ps) (cons {q} np lt dlt nd bk r) le =
    rw (nd, not_null r) (find_tail_lem fuel q b ps r (omega arith))

last_node :
    {h : Heap} {p : Ptr} (a : Ptr) (ps : List Ptr) {items : List (List ℕ)}
    → Chain h p (a ∷ ps) items
    → (d : Ptr) × (h.node (last_of a ps) ≡ some (cell d null))
last_node a [] (cons {p} {q} {d} np lt dlt nd bk r) =
    (d, nd ∙ ap (λ z. some (cell d z)) (nil_items r).0)
last_node a (b ∷ ps) (cons np lt dlt nd bk r) = last_node b ps r

last_has : (a : Ptr) (ps : List Ptr) → has (last_of a ps) (a ∷ ps) ≡ true
last_has a [] = rw (==_refl a) refl
last_has a (b ∷ ps) = ground (arith, last_has b ps)

ne_of_has : (p t : Ptr) (ps : List Ptr) → has p ps ≡ false → has t ps ≡ true → p ≢ t
ne_of_has p t ps out in_ e = cc (rw e at out)

-- the heap after `set_next`
abbrev pub linked : Ptr → Ptr → Ptr → Heap → Heap
linked t d x h = record h { node = put h.node t (some (cell d x)) }

-- A new last node: `x` is linked to the last node of a list.
extend :
    {h : Heap} {p : Ptr} (a : Ptr) (ps : List Ptr) {items : List (List ℕ)} (z x : Ptr)
    (item : List ℕ)
    → Chain h p (a ∷ ps) items
    → distinct (a ∷ ps) ≡ true
    → h.node (last_of a ps) ≡ some (cell z null)
    → Chain (linked (last_of a ps) z x h) x (x ∷ []) (item ∷ [])
    → Chain (linked (last_of a ps) z x h) p ((a ∷ ps) ++ x ∷ []) (items ++ item ∷ [])
extend {h} a [] z x item (cons {p} {q} {d} np lt dlt nd bk r) ap_ ld new =
    let same : d ≡ z = ground (arith, nd, ld) in
    rw (nil_items r).1 (
      cons {d = z} np lt (rw same at dlt) (put_self h.node p (some (cell z x))) (rw same at bk) new)
extend {h} a (b ∷ ps) z x item (cons {p} {q} {d} np lt dlt nd bk r) ap_ ld new =
    let out = not-true (and_left (not (has p (b ∷ ps))) (distinct (b ∷ ps)) ap_) in
    let other = ne_of_has p (last_of b ps) (b ∷ ps) out (last_has b ps) in
    cons {d = d} np lt dlt (put_other h.node (last_of b ps) p (some (cell z x)) other ∙ nd) bk
      (extend b ps z x item r (and_right (not (has p (b ∷ ps))) (distinct (b ∷ ps)) ap_) ld new)

has-snoc :
    (p x : Ptr) (ps : List Ptr) → has p ps ≡ false → (p == x) ≡ false → has p (ps ++ x ∷ []) ≡ false
has-snoc p x [] h e = rw e refl
has-snoc p x (q ∷ ps) h e =
    let here : (p == q) ≡ false = or_left (p == q) (has p ps) h in
    rw (here, has-snoc p x ps (or_right (p == q) (has p ps) h) e) refl

distinct-snoc :
    (ps : List Ptr) (x : Ptr)
    → distinct ps ≡ true
    → has x ps ≡ false
    → distinct (ps ++ x ∷ []) ≡ true
distinct-snoc [] x d out = refl
distinct-snoc (p ∷ ps) x d out =
    let own = not-true (and_left (not (has p ps)) (distinct ps) d) in
    let apart : (p == x) ≡ false = eq_comm x p (or_left (x == p) (has x ps) out) in
    rw
      (
        has-snoc p x ps own apart,
        distinct-snoc ps x (and_right (not (has p ps)) (distinct ps) d)
            (or_right (x == p) (has x ps) out),
      )
      refl
  where
    eq_comm : (a b : Ptr) → (a == b) ≡ false → (b == a) ≡ false
    eq_comm a b h = ground (arith, h)

module _ (fuel : ℕ) (h : Heap) (head : Ptr) (items : List (List ℕ)) (bytes : List ℕ)
    (used : 0 < h.fresh) where
  -- what a push returns, with the list that it leaves
  Pushed : Run Ptr → List (List ℕ) → Type 0
  Pushed r after = (p : Ptr) × (g : Heap) × (r ≡ done p g) × IsList g p after

  push_head_lem :
      (ps : List Ptr)
      → Chain h head ps items
      → distinct ps ≡ true
      → Pushed (list_push_head head bytes h) (bytes ∷ items)
  unfolding list_push_head new_node Pushed
  push_head_lem ps c d = (
    h.fresh,
    allocated head bytes h,
    refl,
    record {
      nodes = h.fresh ∷ ps;
      chain = new-Chain bytes used c;
      apart = rw (fresh_apart c, d) refl;
      used = omega arith;
    },
  )

  push_tail_lem :
      (ps : List Ptr)
      → Chain h head ps items
      → distinct ps ≡ true
      → length ps ≤ fuel
      → Pushed (list_push_tail fuel head bytes h) (items ++ bytes ∷ [])
  unfolding list_push_tail new_node set_next Pushed
  push_tail_lem [] c d e =
      let (at_null, empty) = nil_items c in
      (
        h.fresh,
        allocated null bytes h,
        rw at_null refl,
        rw empty (record {
          nodes = h.fresh ∷ [];
          chain = new-Chain bytes used nil;
          apart = refl;
          used = omega arith;
        }),
      )
  push_tail_lem (a ∷ ps) c d e =
      let g = allocated null bytes h in
      let t = last_of a ps in
      let kept = keep-Chain null bytes c in
      let walk = find_tail_lem fuel head a ps kept (omega arith) in
      let (z, at_tail) = last_node a ps kept in
      let apart : h.fresh ≢ t = ne_of_has h.fresh t (a ∷ ps) (fresh_apart c) (last_has a ps) in
      let new : Chain (linked t z h.fresh g) h.fresh (h.fresh ∷ []) (bytes ∷ []) =
        cons {d = h.fresh + 1} (λ q. omega (arith, used)) (omega arith) (omega arith)
          (put_other g.node t h.fresh (some (cell z h.fresh)) apart
            ∙ put_self h.node h.fresh (some (cell (h.fresh + 1) null)))
          (put_self h.block (h.fresh + 1) (some bytes)) nil in
      (
        head,
        linked t z h.fresh g,
        rw (not_null c, walk, at_tail) refl,
        record {
          nodes = (a ∷ ps) ++ h.fresh ∷ [];
          chain = extend a ps z h.fresh bytes kept d at_tail new;
          apart = distinct-snoc (a ∷ ps) h.fresh d (fresh_apart c);
          used = omega arith;
        },
      )

-- On a heap where `head` is a list of nodes of their own, list_push_head puts the element in front,
-- and list_push_tail, with a round of fuel for each node, at the end; both return the new head and
-- reach no memory that is not allocated.
pub push-IsList :
    (fuel : ℕ) (h : Heap) (head : Ptr) (items : List (List ℕ)) (bytes : List ℕ)
    → (l : IsList h head items) → length l.nodes ≤ fuel
    → ((p : Ptr) × (g : Heap) × (list_push_head head bytes h ≡ done p g)
        × IsList g p (bytes ∷ items))
      × ((p : Ptr) × (g : Heap) × (list_push_tail fuel head bytes h ≡ done p g)
          × IsList g p (items ++ bytes ∷ []))
unfolding Pushed
push-IsList fuel h head items bytes l enough = (
  push_head_lem fuel h head items bytes l.used l.nodes l.chain l.apart,
  push_tail_lem fuel h head items bytes l.used l.nodes l.chain l.apart enough,
)
