-- ===== src/Linked/Chain.antt =====
-- The list that a pointer stands for.
use ee459spring.Base.{
  ℕ, ◌≡◌, ◌≢◌, ◌<◌, ◌==◌, Bool, true, false, not, ◌&&◌, ◌||◌, List, [], ◌∷◌, some,
}
use ee459spring.Linked.{Ptr, null, Heap}

-- From `p` on, `next` leads through the nodes `ps` to NULL, whose blocks are `items`; all of their
-- addresses have been given out.
pub data Chain (h : Heap) : Ptr → List Ptr → List (List ℕ) → Type 0 where
  nil : Chain h null [] []
  cons :
      {p q d : Ptr} {b : List ℕ} {ps : List Ptr} {items : List (List ℕ)}
      → p ≢ null
      → p < h.fresh
      → d < h.fresh
      → h.node p ≡ some (record { item = d; next = q })
      → h.block d ≡ some b
      → Chain h q ps items
      → Chain h p (p ∷ ps) (b ∷ items)

abbrev pub has : Ptr → List Ptr → Bool
has p [] = false
has p (q ∷ qs) = p == q || has p qs

abbrev pub distinct : List Ptr → Bool
distinct [] = true
distinct (p ∷ ps) = not (has p ps) && distinct ps

-- A list whose nodes are all different, on a heap that has given out no NULL.
pub record IsList (h : Heap) (p : Ptr) (items : List (List ℕ)) : Type 0 where
  pub nodes : List Ptr
  pub chain : Chain h p nodes items
  pub apart : distinct nodes ≡ true
  pub used : 0 < h.fresh
