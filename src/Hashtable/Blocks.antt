-- ===== src/Hashtable/Blocks.antt =====
-- The memory of the hash table of src/types.c: what additions take, and what `nvipfix_hashtable8_free`
-- gives back.
use mathlib.Core.Path.{subst}
use ipfix.Common.{
  ℕ, zero, suc, ◌+◌, ◌-◌, Bool, true, false, List, [], ◌∷◌, Option, none, some, ◌≡◌, refl, ap, ◌∙◌,
  arith, get_elem?, set, if◌then◌else◌, replicate,
}
use ipfix.Hashtable.{
  Tree, leaf, node, Root, Hashtable8, Added, add_node, write_node, free_node, as_tree, as_root,
  add_at, add_root, write_root, store_value, add_with, add_to, free_roots, hashtable8_hash, copied,
  empty_root,
}
use ipfix.Hashtable.Laws.{RootInv, IsRoot, IsTable, add_node_root, write_node_root, All-get_elem?}
use ipfix.Hashtable.Shape.{add_at_key}
use ipfix.Heap.{Heap, free, malloc_live}
use ipfix.Text.{Bytes, is_nil}

pub some_inj {ℓ} : {A : Type ℓ} {a b : A} → some a ≡ some b → a ≡ b
some_inj e = cc

module _ {ℓ} {V : Type ℓ} where
  -- The nodes of a tree.
  pub size : Tree V → ℕ
  size leaf = 0
  size (node key value l g) = size l + size g + 1

  -- The blocks of a root: its key, and one for each node below it.
  abbrev blocks_at : Bytes → Root V → ℕ
  blocks_at [] r = 0
  blocks_at (_ ∷ _) r = size r.lt_node + size r.gt_node + 1

  abbrev root_blocks : Root V → ℕ
  root_blocks r = blocks_at r.key r

  pub blocks : List (Root V) → ℕ
  blocks [] = 0
  blocks (r ∷ rs) = root_blocks r + blocks rs

  free_node_live :
      (values : Bool) (t : Tree V) (h : Heap) → (free_node values t h).1.live ≡ h.live - size t
  unfolding free_node free size
  free_node_live values leaf h = omega arith
  free_node_live values (node key value l g) h =
      omega (arith, free_node_live values l h, free_node_live values g (free_node values l h).1)

  free_used_live :
      (values : Bool) (key : Bytes) (r : Root V) (h : Heap)
      → (free_node values (if is_nil key then leaf else as_tree r) h).1.live
        ≡ h.live - blocks_at key r
  unfolding size
  free_used_live values [] r h = free_node_live values leaf h
  free_used_live values (y ∷ ys) r h = free_node_live values (as_tree r) h

  pub free_roots_live :
      (values : Bool) (rs : List (Root V)) (h : Heap)
      → (free_roots values rs h).1.live ≡ h.live - blocks rs
  unfolding free_roots blocks
  free_roots_live values [] h = omega arith
  free_roots_live values (r ∷ rs) h = omega (
    arith,
    free_used_live values r.key r h,
    free_roots_live values rs (free_node values (if is_nil r.key then leaf else as_tree r) h).1,
  )

  add_node_live :
      (t : Tree V) (k : Bytes) (h : Heap)
      → (add_node t k h).1.live + size t ≡ h.live + size (add_node t k h).0.1
  unfolding add_node size
  add_node_live leaf k h = ground (arith, malloc_live h)
  add_node_live (node key value l g) k h = ground (arith, add_node_live l k h, add_node_live g k h)

  write_node_size : (t : Tree V) (k : Bytes) (v : Option V) → size (write_node t k v) ≡ size t
  unfolding write_node size
  write_node_size leaf k v = refl
  write_node_size (node key value l g) k v =
      ground (arith, write_node_size l k v, write_node_size g k v)

  blocks_used :
      (r : Root V) (y : ℕ) (ys : Bytes) → r.key ≡ y ∷ ys → root_blocks r ≡ size (as_tree r)
  unfolding size
  blocks_used r y ys e = rw e

  leaves_blocks :
      (r : Root V) (c : ℕ) (s : Bytes)
      → (r.lt_node ≡ leaf) × (r.gt_node ≡ leaf)
      → root_blocks (record r { key = c ∷ s }) ≡ 1
  unfolding size
  leaves_blocks r c s (l, g) = rw (l, g) refl

  add_at_live :
      (key : Bytes) (r : Root V) (c : ℕ) (s : Bytes) (h : Heap)
      → r.key ≡ key
      → IsRoot r
      → (add_at key r (c ∷ s) h).1.live + root_blocks r
        ≡ h.live + root_blocks (add_at key r (c ∷ s) h).0.1
  unfolding add_at
  add_at_live [] r c s h e w =
      let none_yet : root_blocks r ≡ 0 = rw e refl in
      let one = leaves_blocks r c s (subst (λ (k : Bytes). RootInv k r) e w) in
      ground (arith, malloc_live h)
  add_at_live (y ∷ ys) r c s h e w =
      let (kept, same) = add_node_root r (c ∷ s) h in
      let r' = as_root r (add_node (as_tree r) (c ∷ s) h).0.1 in
      omega (
        arith,
        blocks_used r y ys e,
        blocks_used r' y ys (same ∙ e),
        ap size kept,
        add_node_live (as_tree r) (c ∷ s) h,
      )

  write_root_blocks :
      (r : Root V) (k : Bytes) (v : Option V) (y : ℕ) (ys : Bytes)
      → r.key ≡ y ∷ ys
      → root_blocks (write_root r k v) ≡ root_blocks r
  write_root_blocks r k v y ys e =
      let (kept, same) = write_node_root r k v in
      omega (
        arith,
        blocks_used r y ys e,
        blocks_used (write_root r k v) y ys (same ∙ e),
        ap size kept,
        write_node_size (as_tree r) k v,
      )

  blocks-set :
      (rs : List (Root V)) (i : ℕ) (r r' : Root V)
      → get_elem? rs i ≡ some r
      → blocks (set rs i r') + root_blocks r ≡ blocks rs + root_blocks r'
  unfolding blocks
  blocks-set [] i r r' e = cc
  blocks-set (x ∷ rs) zero r r' e =
      let same : root_blocks x ≡ root_blocks r = ap (λ (o : Root V). root_blocks o) (some_inj e) in
      omega arith
  blocks-set (x ∷ rs) (suc i) r r' e = omega (arith, blocks-set rs i r r' e)

  -- behind the lookup of the root
  blocks-store_value :
      (t : Hashtable8 V) (i c : ℕ) (s : Bytes) (v : Option V) (r : Root V) (p : Bool × Root V)
      → get_elem? t.nodes i ≡ some r
      → (p.0 ≡ true → (y : ℕ) × (ys : Bytes) × (p.1.key ≡ y ∷ ys))
      → blocks (store_value t i (c ∷ s) v p).table.nodes + root_blocks r
        ≡ blocks t.nodes + root_blocks p.1
  unfolding store_value
  blocks-store_value t i c s v r (false, r') e used = blocks-set t.nodes i r r' e
  blocks-store_value t i c s v r (true, r') e used =
      let (y, ys, k) = used refl in
      let new = copied t.copy_value v in
      omega (
        arith,
        blocks-set t.nodes i r (write_root r' (c ∷ s) new) e,
        write_root_blocks r' (c ∷ s) new y ys k,
      )

  add_with_live :
      (o : Option (Root V)) (t : Hashtable8 V) (i c : ℕ) (s : Bytes) (v : Option V) (h : Heap)
      (a : Added V)
      → IsTable t
      → get_elem? t.nodes i ≡ o
      → (add_with o t i (c ∷ s) v h).0 ≡ some a
      → (add_with o t i (c ∷ s) v h).1.live + blocks t.nodes ≡ h.live + blocks a.table.nodes
  unfolding add_with add_root
  add_with_live none t i c s v h a w e q = cc
  add_with_live (some r) t i c s v h a w e q =
      let ok = All-get_elem? IsRoot t.nodes i r w.roots e in
      let added = (add_at r.key r (c ∷ s) h).0 in
      let same = ap (λ (b : Added V). blocks b.table.nodes) (some_inj q) in
      omega (
        arith,
        same,
        add_at_live r.key r c s h refl ok,
        blocks-store_value t i c s v r added e (add_at_key r.key r c s h refl),
      )

  -- Whatever malloc answers, the blocks that an addition takes are those by which the table grows.
  pub add_to_live :
      (t : Hashtable8 V) (c : ℕ) (s : Bytes) (v : Option V) (h : Heap) (a : Added V)
      → IsTable t
      → (add_to t (c ∷ s) v h).0 ≡ some a
      → (add_to t (c ∷ s) v h).1.live + blocks t.nodes ≡ h.live + blocks a.table.nodes
  unfolding add_to
  add_to_live t c s v h a w q =
      let i = hashtable8_hash (c ∷ s) in add_with_live (get_elem? t.nodes i) t i c s v h a w refl q

pub blocks-new {ℓ} : (V : Type ℓ) (n : ℕ) → blocks (replicate n (empty_root {V = V})) ≡ 0
unfolding blocks
blocks-new V zero = refl
blocks-new V (suc n) = omega (arith, blocks-new V n)
