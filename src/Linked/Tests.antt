-- ===== src/Linked/Tests.antt =====
-- The theorems about src/list.c at a concrete heap.
use ee459spring.Base.{refl, ◌≡◌, ◌≢◌, [], ◌∷◌, ◌++◌, some, none, map, arith, ◌==◌, if◌then◌else◌}
use ee459spring.Linked.{
  Ptr, null, Heap, done, fault, list_push_head, list_push_tail, list_dump, list_free,
}
use ee459spring.Linked.Chain.{nil, cons, IsList}
use ee459spring.Linked.Alloc.{cell}
use ee459spring.Linked.Push.{push-IsList}
use ee459spring.Linked.Walk.{dump-free}

abbrev one : Heap
one = record {
  fresh = 12;
  node = λ p. if p == 10 then some (cell 11 null) else none;
  block = λ p. if p == 11 then some (7 ∷ 8 ∷ []) else none;
}

abbrev one-IsList : IsList one 10 ((7 ∷ 8 ∷ []) ∷ [])
one-IsList = record {
  nodes = 10 ∷ [];
  chain = cons {d = 11} (λ e. omega arith) (omega arith) (omega arith) refl refl nil;
  apart = refl;
  used = omega arith;
}

push-IsList_example :
    ((p : Ptr) × (g : Heap) × (list_push_head 10 (9 ∷ []) one ≡ done p g)
      × IsList g p ((9 ∷ []) ∷ (7 ∷ 8 ∷ []) ∷ []))
    × ((p : Ptr) × (g : Heap) × (list_push_tail 1 10 (9 ∷ []) one ≡ done p g)
        × IsList g p (((7 ∷ 8 ∷ []) ∷ []) ++ (9 ∷ []) ∷ []))
push-IsList_example = push-IsList 1 one 10 ((7 ∷ 8 ∷ []) ∷ []) (9 ∷ []) one-IsList (omega arith)

dump-free_example :
    (list_dump 2 10 one ≡ done (map some ((7 ∷ 8 ∷ []) ∷ [])) one)
    × (10 ≢ null → list_free 2 10 one ≡ fault)
dump-free_example = dump-free 2 one 10 ((7 ∷ 8 ∷ []) ∷ []) one-IsList (omega arith)
