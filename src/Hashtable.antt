-- ===== src/Hashtable.antt =====
-- The hash table of src/types.c, lines 143-328: an array of `UINT8_MAX` root nodes, each the root of a
-- binary search tree of keys with one hash. Values are of any type `V`, `none` for NULL. Key lengths
-- are below 2 ^ 31, so that `int cmp` holds their difference.
pub mod Keys
pub mod Nodes
pub mod Laws
pub mod Hash
pub mod Shape
pub mod Blocks
pub mod Lifecycle
use Prim.Native.Nat.{bit_xor, compare, Ordering}
use Prim.Native.Nat.Ordering.{lt, eq, gt}
use ipfix.Common.{
  ℕ, zero, suc, ◌+◌, ◌%◌, ◌^◌, Bool, true, false, not, ◌&&◌, ◌||◌, List, [], ◌∷◌, ◌++◌, Option,
  none, some, if◌then◌else◌, length, get_elem?, set, replicate,
}
use ipfix.Heap.{M, ◌>>=◌, ◌>>◌, pure, malloc, free}
use ipfix.Text.{Bytes, is_nil}

-- `NULL`, or a node of the heap with its subtrees.
pub data Tree {ℓ} (V : Type ℓ) : Type ℓ where
  leaf : Tree V
  node : Bytes → Option V → Tree V → Tree V → Tree V

-- A node of the array; it is free as long as its key has length 0.
pub record Root {ℓ} (V : Type ℓ) : Type ℓ where
  pub key : Bytes
  pub value : Option V
  pub lt_node : Tree V
  pub gt_node : Tree V

pub record Hashtable8 {ℓ} (V : Type ℓ) : Type ℓ where
  pub nodes : List (Root V)
  pub free_value : Bool
  pub copy_value : Option (Option V → Option V)

-- What `nvipfix_hashtable8_add` leaves behind: whether it returns the table, the table after it, and
-- the values that were handed to `freeValue`.
pub record Added {ℓ} (V : Type ℓ) : Type ℓ where
  pub result : Bool
  pub table : Hashtable8 V
  pub freed : List V

unfoldable pub hash_from : ℕ → ℕ → Bytes → ℕ
hash_from result i [] = result
hash_from result i (c ∷ s) = hash_from (bit_xor result ((c + i) % 2 ^ 8)) (i + 1) s

unfoldable pub hashtable8_hash : Bytes → ℕ
unfolding hash_from
hashtable8_hash a_value = hash_from 0 0 a_value

memcmp : Bytes → Bytes → Ordering
memcmp (x ∷ a) (y ∷ b) = elim (compare x y) [ lt ↦ lt | eq ↦ memcmp a b | gt ↦ gt ]
memcmp _ _ = eq

-- Shorter keys come first.
unfoldable pub key_cmp : Bytes → Bytes → Ordering
unfolding memcmp
key_cmp a b = elim (compare (length a) (length b)) [ lt ↦ lt | eq ↦ memcmp a b | gt ↦ gt ]

module _ {ℓ} {V : Type ℓ} where
  -- `nvipfix_hashtable8_get_or_add` without adding: NULL, or the value of the node that it returns.
  unfoldable pub find_node : Tree V → Bytes → Option (Option V)
  find_node leaf k = none
  find_node (node key value l g) k = elim (key_cmp k key) [
    | lt ↦ find_node l k
    | eq ↦ some value
    | gt ↦ find_node g k
  ]

  -- With adding: whether it returns a node, and the tree after it.
  unfoldable pub add_node : Tree V → Bytes → M (Bool × Tree V)
  add_node leaf k = do got ← malloc; pure (got, if got then node k none leaf leaf else leaf)
  add_node (node key value l g) k = elim (key_cmp k key) [
    | lt ↦ (do (added, l') ← add_node l k; pure (added, node key value l' g))
    | eq ↦ pure (true, node key value l g)
    | gt ↦ (do (added, g') ← add_node g k; pure (added, node key value l g'))
  ]

  -- The assignment `node->value = v` through the returned pointer.
  unfoldable pub write_node : Tree V → Bytes → Option V → Tree V
  write_node leaf k v = leaf
  write_node (node key value l g) k v = elim (key_cmp k key) [
    | lt ↦ node key value (write_node l k v) g
    | eq ↦ node key v l g
    | gt ↦ node key value l (write_node g k v)
  ]

  abbrev pub as_tree : Root V → Tree V
  as_tree r = node r.key r.value r.lt_node r.gt_node

  abbrev as_root : Root V → Tree V → Root V
  as_root r leaf = r
  as_root r (node key value l g) = record { key = key; value = value; lt_node = l; gt_node = g }

  find_at : Bytes → Root V → Bytes → Option (Option V)
  find_at [] r k = none
  find_at (_ ∷ _) r k = find_node (as_tree r) k

  pub add_at : Bytes → Root V → Bytes → M (Bool × Root V)
  add_at [] r k = do got ← malloc; pure (got, if got then record r { key = k } else r)
  add_at (_ ∷ _) r k = do (added, t) ← add_node (as_tree r) k; pure (added, as_root r t)

  -- The tests of `node->keyLen != 0` for the root.
  unfoldable pub find_root : Root V → Bytes → Option (Option V)
  unfolding find_at
  find_root r k = find_at r.key r k

  unfoldable pub add_root : Root V → Bytes → M (Bool × Root V)
  unfolding add_at
  add_root r k = add_at r.key r k

  unfoldable pub write_root : Root V → Bytes → Option V → Root V
  write_root r k v = as_root r (write_node (as_tree r) k v)

  abbrev pub empty_root : Root V
  empty_root = record { key = []; value = none; lt_node = leaf; gt_node = leaf }

  -- A new table: `malloc`, then `memset` with 0.
  abbrev pub new_table : Bool → Option (Option V → Option V) → Hashtable8 V
  new_table a_freeF a_copyF = record {
    nodes = replicate 255 empty_root;
    free_value = a_freeF;
    copy_value = a_copyF;
  }

  -- `result->copyValue( a_value )`, or `a_value` where there is no copy function.
  abbrev pub copied : Option (Option V → Option V) → Option V → Option V
  copied none v = v
  copied (some f) v = f v

  abbrev pub is_none : Option V → Bool
  is_none none = true
  is_none (some _) = false

  abbrev listed : Option V → List V
  listed none = []
  listed (some v) = v ∷ []

  -- Behind the lookup of the root: `node` is the root with the key in its tree, if `added`.
  store_value : Hashtable8 V → ℕ → Bytes → Option V → Bool × Root V → Added V
  store_value t i k v (false, r) = record {
    result = false;
    table = record t { nodes = set t.nodes i r };
    freed = [];
  }
  store_value t i k v (true, r) =
      let old = elim (find_node (as_tree r) k) as (λ _. Option V) [ none ↦ none | some x ↦ x ] in
      let new = copied t.copy_value v in
      record {
        result = not (not (is_none v) && is_none new);
        table = record t { nodes = set t.nodes i (write_root r k new) };
        freed = if t.free_value then listed old else [];
      }

  -- On a root that the array has; `none` is a read past its end.
  add_with : Option (Root V) → Hashtable8 V → ℕ → Bytes → Option V → M (Option (Added V))
  add_with none t i k v = pure none
  add_with (some r) t i k v = do added ← add_root r k; pure (some (store_value t i k v added))

  -- `nvipfix_hashtable8_add` on a table.
  unfoldable pub add_to : Hashtable8 V → Bytes → Option V → M (Option (Added V))
  unfolding add_with store_value
  add_to t k v = let i = hashtable8_hash k in add_with (get_elem? t.nodes i) t i k v

  -- A new table is given back if the value could not be stored.
  drop_new : Option (Added V) → M (Option (Added V))
  drop_new none = pure none
  drop_new (some a) = do free (if a.result then 0 else 1); pure (some a)

  unfoldable pub hashtable8_add :
      Option (Hashtable8 V)
      → Bytes
      → Option V
      → Option (Option V → Option V)
      → Bool
      → M (Option (Added V))
  unfolding drop_new
  hashtable8_add (some t) k v a_copyF a_freeF = add_to t k v
  hashtable8_add none k v a_copyF a_freeF = do
    got ← malloc
    if got
        then (do a ← add_to (new_table a_freeF a_copyF) k v; drop_new a)
        else pure (some (record { result = false; table = new_table a_freeF a_copyF; freed = [] }))

  get_with : Option (Root V) → Bytes → Option (Option V)
  get_with none k = none
  get_with (some r) k =
      some (elim (find_root r k) as (λ _. Option V) [ none ↦ none | some value ↦ value ])

  -- `nvipfix_hashtable8_get`; `none` is a read past the end of the array.
  unfoldable pub hashtable8_get : Hashtable8 V → Bytes → Option (Option V)
  unfolding get_with
  hashtable8_get t k = get_with (get_elem? t.nodes (hashtable8_hash k)) k

  -- `nvipfix_hashtable8_free_node`: the values in the order in which `freeValue` gets them. A node below
  -- a root is one block with its key; a root's key is a block of its own.
  pub free_node : Bool → Tree V → M (List (Option V))
  free_node values leaf = pure []
  free_node values (node key value l g) = do
    a ← free_node values l
    b ← free_node values g
    free 1
    pure (a ++ (b ++ (if values then value ∷ [] else [])))

  pub free_roots : Bool → List (Root V) → M (List (Option V))
  free_roots values [] = pure []
  free_roots values (r ∷ rs) = do
    a ← free_node values (if is_nil r.key then leaf else as_tree r)
    b ← free_roots values rs
    pure (a ++ b)

  -- The table itself is not given back.
  unfoldable pub hashtable8_free : Hashtable8 V → M (List (Option V))
  unfolding free_roots free_node
  hashtable8_free t = free_roots t.free_value t.nodes
