-- ===== src/Hashtable/Nodes.antt =====
-- One search tree of the table (src/types.c): a key that was added is found with the value that was
-- stored, and every other key is as before.
use ipfix.Common.{true, false, Option, some, ◌≡◌, ◌≢◌, arith}
use ipfix.Hashtable.Keys.{key_cmp_refl, eq_of_key_cmp}
use ipfix.Hashtable.{Tree, leaf, node, find_node, add_node, write_node}
use ipfix.Heap.{Heap}
use ipfix.Text.{Bytes}

module _ {ℓ} {V : Type ℓ} where
  -- if no node is returned nothing has changed
  pub add_node_refused :
      (t : Tree V) (k : Bytes) (h : Heap) → (add_node t k h).0.0 ≡ false → (add_node t k h).0.1 ≡ t
  unfolding add_node
  add_node_refused leaf k h e = ground arith
  add_node_refused (node key value l g) k h e =
      ground (arith, add_node_refused l k h, add_node_refused g k h)

  pub find-write_self :
      (t : Tree V) (k : Bytes) (v : Option V) (h : Heap)
      → (add_node t k h).0.0 ≡ true
      → find_node (write_node (add_node t k h).0.1 k v) k ≡ some v
  unfolding add_node write_node find_node
  find-write_self leaf k v h e = ground (arith, key_cmp_refl k)
  find-write_self (node key value l g) k v h e =
      ground (arith, find-write_self l k v h, find-write_self g k v h)

  -- a node that is new for its key holds NULL
  pub find-write_ne :
      (t : Tree V) (k j : Bytes) (v : Option V) (h : Heap)
      → j ≢ k
      → find_node (write_node (add_node t k h).0.1 k v) j ≡ find_node t j
  unfolding add_node write_node find_node
  find-write_ne leaf k j v h n = ground (arith, key_cmp_refl k, eq_of_key_cmp j k)
  find-write_ne (node key value l g) k j v h n = ground (
    arith,
    find-write_ne l k j v h,
    find-write_ne g k j v h,
    eq_of_key_cmp k key,
    eq_of_key_cmp j key,
  )
