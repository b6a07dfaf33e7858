-- ===== src/Obd/OnHeap.antt =====
-- `obd_set_supported_ops` (src/obd.c) with the linked list of src/list.c on its heap.
use ee459spring.Base.{
  ℕ, zero, suc, refl, ◌≡◌, ◌+◌, ◌/◌, ◌==◌, bit_and, List, [], ◌∷◌, map, get_or, if◌then◌else◌,
  Bool-cases, inl, inr, arith, ◌<◌, length,
}
use ee459spring.Linked.{Ptr, null, Heap, Run, done, ◌>>=◌, list_push_head}
use ee459spring.Linked.Chain.{IsList, nil}
use ee459spring.Linked.Push.{push-IsList}
use ee459spring.Obd.{push_supported, obd_set_supported_ops, no_cmd}
use ee459spring.Obd.Commands.{ObdCmd, obd_cmds}

-- `bytes_of` has the bytes of a `struct obd_cmd`, whose pointers the linker fixes.
module _ (bytes_of : ObdCmd → List ℕ) where
  -- one round's push, where the bit of the mask is set
  abbrev pub push_if : ℕ → ℕ → ℕ → Ptr → Heap → Run Ptr
  push_if res i mask head h =
      if bit_and res mask == 0
      then done head h
      else list_push_head head (bytes_of (get_or obd_cmds i no_cmd)) h

  -- the loop of `push_supported`, with the head in place of the list
  unfoldable pub push_on_heap : ℕ → ℕ → ℕ → ℕ → Ptr → Heap → Run Ptr
  push_on_heap res zero i mask head h = done head h
  push_on_heap res (suc rounds) i mask head h =
      push_if res i mask head h >>= λ p g. push_on_heap res rounds (i + 1) (mask / 2) p g

  -- The list starts as NULL, whatever it was.
  unfoldable pub set_supported_ops_on_heap : ℕ → Heap → Run Ptr
  set_supported_ops_on_heap res h = push_on_heap res 31 1 0x80000000 null h

  push_on_heap-IsList :
      (res rounds i mask : ℕ) (head : Ptr) (h : Heap) (found : List ObdCmd)
      → IsList h head (map bytes_of found)
      → (p : Ptr) × (g : Heap) × (push_on_heap res rounds i mask head h ≡ done p g)
        × IsList g p (map bytes_of (push_supported res rounds i mask found))
  unfolding push_on_heap push_supported
  push_on_heap-IsList res zero i mask head h found l = (head, h, refl, l)
  push_on_heap-IsList res (suc rounds) i mask head h found l =
      elim (Bool-cases (bit_and res mask == 0)) [
        | inl clear ↦ rw clear (push_on_heap-IsList res rounds (i + 1) (mask / 2) head h found l)
        | inr set ↦
            let cmd = get_or obd_cmds i no_cmd in
            let (p1, g1, pushed, l1) =
              (push-IsList (length l.nodes) h head (map bytes_of found) (bytes_of cmd) l
                (omega arith)).0 in
            let (p, g, rest, l') =
              push_on_heap-IsList res rounds (i + 1) (mask / 2) p1 g1 (cmd ∷ found) l1 in
            rw set (p, g, rw pushed rest, l')
      ]

  -- On a heap that has given out no NULL, obd_set_supported_ops over src/list.c ends without a fault, and
  -- its head is a linked list of distinct nodes with the bytes of the commands that the version over lists
  -- returns, in that order.
  pub set_supported_ops-IsList :
      (res : ℕ) (h : Heap)
      → 0 < h.fresh
      → (p : Ptr) × (g : Heap) × (set_supported_ops_on_heap res h ≡ done p g)
        × IsList g p (map bytes_of (obd_set_supported_ops res))
  unfolding set_supported_ops_on_heap obd_set_supported_ops
  set_supported_ops-IsList res h used =
      push_on_heap-IsList res 31 1 0x80000000 null h []
        (record { nodes = []; chain = nil; apart = refl; used = used })
