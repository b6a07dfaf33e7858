-- ===== src/Linked/Walk.antt =====
-- `list_dump` and `list_free` (src/list.c) on a list.
use ee459spring.Base.{
  ℕ, zero, suc, refl, ◌≡◌, ◌≢◌, ◌<◌, List, [], ◌∷◌, some, map, arith, length, ==_ne, ==_refl,
}
use ee459spring.Linked.{Ptr, null, Heap, done, fault, list_dump, list_free}
use ee459spring.Linked.Chain.{Chain, nil, cons, IsList}

dump-Chain :
    {h : Heap} {p : Ptr} (fuel : ℕ) (ps : List Ptr) {items : List (List ℕ)}
    → Chain h p ps items
    → length ps < fuel
    → list_dump fuel p h ≡ done (map some items) h
unfolding list_dump
dump-Chain zero ps c le = absurd (omega arith)
dump-Chain (suc fuel) [] nil le = refl
dump-Chain (suc fuel) (a ∷ ps) (cons {p} np lt dlt nd bk r) le =
    rw (==_ne p null np, nd, dump-Chain fuel ps r (omega arith), bk) refl

free-Chain :
    {h : Heap} {p : Ptr} (fuel : ℕ) (ps : List Ptr) {items : List (List ℕ)}
    → Chain h p ps items
    → p ≢ null
    → list_free (suc fuel) p h ≡ fault
unfolding list_free
free-Chain fuel [] nil ne = absurd (ne refl)
free-Chain fuel (a ∷ ps) (cons {p} np lt dlt nd bk r) ne = rw (==_ne p null np, nd, ==_refl p) refl

-- list_dump calls its function with the elements of a list in order and ends, with a round of fuel
-- more than there are nodes; list_free, on any list that is not empty, reads the `next` of a node that
-- it has freed.
pub dump-free :
    (fuel : ℕ) (h : Heap) (head : Ptr) (items : List (List ℕ))
    → (l : IsList h head items) → length l.nodes < fuel
    → (list_dump fuel head h ≡ done (map some items) h)
      × (head ≢ null → list_free fuel head h ≡ fault)
dump-free zero h head items l enough = absurd (omega arith)
dump-free (suc fuel) h head items l enough =
    (dump-Chain (suc fuel) l.nodes l.chain enough, λ ne. free-Chain fuel l.nodes l.chain ne)
