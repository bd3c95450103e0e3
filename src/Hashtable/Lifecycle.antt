-- ===== src/Hashtable/Lifecycle.antt =====
-- A hash table of src/types.c from its first key until it is freed.
use mathlib.Core.Path.{subst}
use Prim.Native.Nat.{Ordering}
use Prim.Native.Nat.Ordering.{lt, eq, gt}
use ipfix.Common.{
  ℕ, zero, suc, ◌+◌, Bool, true, List, [], ◌∷◌, ◌++◌, Option, none, some, ◌≡◌, ◌⊎◌, inl, inr, refl,
  sym, ap, arith, get_elem?, if◌then◌else◌, Option-cases,
}
use ipfix.Hashtable.{
  Tree, leaf, node, Root, Hashtable8, find_node, find_at, find_root, free_node, as_tree, add_to,
  free_roots, hashtable8_free, hashtable8_get, get_with, hashtable8_hash, new_table, key_cmp,
}
use ipfix.Hashtable.Blocks.{some_inj, blocks, blocks-new, free_roots_live, add_to_live}
use ipfix.Hashtable.Laws.{IsTable}
use ipfix.Hashtable.Shape.{add_to-IsTable, new_table-IsTable}
use ipfix.Heap.{Heap, M}
use ipfix.Text.{Bytes, is_nil}

-- The element is in the list.
abbrev pub Has : {A : Type 0} → A → List A → Type 0
Has x [] = ⊥
Has x (y ∷ ys) = (x ≡ y) ⊎ Has x ys

Has-append_left : {A : Type 0} (x : A) (xs ys : List A) → Has x xs → Has x (xs ++ ys)
Has-append_left x [] ys h = elim h [ ]
Has-append_left x (z ∷ xs) ys (inl e) = inl e
Has-append_left x (z ∷ xs) ys (inr h) = inr (Has-append_left x xs ys h)

Has-append_right : {A : Type 0} (x : A) (xs ys : List A) → Has x ys → Has x (xs ++ ys)
Has-append_right x [] ys h = h
Has-append_right x (z ∷ xs) ys h = inr (Has-append_right x xs ys h)

-- A key of one byte or more, with a value.
pub record Entry (V : Type 0) : Type 0 where
  pub first : ℕ
  pub rest : Bytes
  pub value : Option V

module _ {V : Type 0} where
  -- One addition after another, until one is past the end of the array.
  unfoldable pub add_all : Hashtable8 V → List (Entry V) → M (Option (Hashtable8 V))
  add_all t [] h = (some t, h)
  add_all t (e ∷ es) h = elim (add_to t (e.first ∷ e.rest) e.value h).0 [
    | none ↦ (none, (add_to t (e.first ∷ e.rest) e.value h).1)
    | some a ↦ add_all a.table es (add_to t (e.first ∷ e.rest) e.value h).1
  ]

  add_all_live :
      (t : Hashtable8 V) (es : List (Entry V)) (h : Heap) (t' : Hashtable8 V)
      → IsTable t
      → (add_all t es h).0 ≡ some t'
      → (add_all t es h).1.live + blocks t.nodes ≡ h.live + blocks t'.nodes
  unfolding add_all
  add_all_live t [] h t' w q = ap (λ (x : Hashtable8 V). h.live + blocks x.nodes) (some_inj q)
  add_all_live t (e ∷ es) h t' w q = elim (Option-cases (add_to t (e.first ∷ e.rest) e.value h).0) [
    | inl n ↦ (let past = rw (n, add_all) at q in cc)
    | inr (a, n) ↦
        (let rest = rw (n, add_all) at q in
          let valid = add_to-IsTable t e.first e.rest e.value h a w n in
          let w1 = (add_to t (e.first ∷ e.rest) e.value h).1 in
          rw (n, add_all)
            (omega (
              arith,
              add_to_live t e.first e.rest e.value h a w n,
              add_all_live a.table es w1 t' valid rest,
            )))
  ]

  -- A new table to which any keys that are not empty were added, none of them past the end of the array: to free it
  -- gives back all blocks that the additions took, whatever malloc answered them.
  pub free-add_all_live :
      (copy : Option (Option V → Option V)) (a_freeF : Bool) (es : List (Entry V)) (h : Heap)
      (t : Hashtable8 V)
      → (add_all (new_table a_freeF copy) es h).0 ≡ some t
      → (hashtable8_free t (add_all (new_table a_freeF copy) es h).1).1.live ≡ h.live
  unfolding hashtable8_free
  free-add_all_live copy a_freeF es h t q = omega (
    arith,
    add_all_live (new_table a_freeF copy) es h t (new_table-IsTable a_freeF copy) q,
    blocks-new V 255,
    free_roots_live t.free_value t.nodes (add_all (new_table a_freeF copy) es h).1,
  )

  -- the three ways of a search
  found_in :
      (o : Ordering) (a b c : Option (Option V)) (v : Option V)
      → elim o as (λ _. Option (Option V)) [ lt ↦ a | eq ↦ b | gt ↦ c ] ≡ some v
      → (a ≡ some v) ⊎ ((b ≡ some v) ⊎ (c ≡ some v))
  found_in lt a b c v q = inl q
  found_in eq a b c v q = inr (inl q)
  found_in gt a b c v q = inr (inr q)

  free_node-find :
      (t : Tree V) (k : Bytes) (v : Option V) (h : Heap)
      → find_node t k ≡ some v
      → Has v (free_node true t h).0
  unfolding find_node free_node
  free_node-find leaf k v h q = cc
  free_node-find (node key value l g) k v h q =
      elim (found_in (key_cmp k key) (find_node l k) (some value) (find_node g k) v q) [
        | inl lower ↦ Has-append_left v _ _ (free_node-find l k v h lower)
        | inr (inl same) ↦ Has-append_right v (free_node true l h).0 _ (
            Has-append_right v (free_node true g (free_node true l h).1).0 _
              (inl (sym (some_inj same))))
        | inr (inr greater) ↦
            Has-append_right v (free_node true l h).0 _
              (Has-append_left v _ _ (free_node-find g k v (free_node true l h).1 greater))
      ]

  free_used-find :
      (key : Bytes) (r : Root V) (k : Bytes) (v : Option V) (h : Heap)
      → find_at key r k ≡ some v
      → Has v (free_node true (if is_nil key then leaf else as_tree r) h).0
  unfolding find_at
  free_used-find [] r k v h q = cc
  free_used-find (y ∷ ys) r k v h q = free_node-find (as_tree r) k v h q

  free_roots-find :
      (rs : List (Root V)) (i : ℕ) (r : Root V) (k : Bytes) (v : Option V) (h : Heap)
      → get_elem? rs i ≡ some r
      → find_root r k ≡ some v
      → Has v (free_roots true rs h).0
  unfolding free_roots find_root
  free_roots-find [] i r k v h e q = cc
  free_roots-find (x ∷ rs) zero r k v h e q =
      let found = subst (λ (o : Root V). find_root o k ≡ some v) (sym (some_inj e)) q in
      Has-append_left v _ _ (free_used-find x.key x k v h found)
  free_roots-find (x ∷ rs) (suc i) r k v h e q =
      let h1 = (free_node true (if is_nil x.key then leaf else as_tree x) h).1 in
      Has-append_right v _ _ (free_roots-find rs i r k v h1 e q)

  root_value :
      (o : Option (Option V)) (v : V)
      → some (elim o as (λ _. Option V) [ none ↦ none | some value ↦ value ]) ≡ some (some v)
      → o ≡ some (some v)
  root_value none v q = cc
  root_value (some x) v q = q

  root_get :
      (o : Option (Root V)) (k : Bytes) (v : V)
      → get_with o k ≡ some (some v)
      → (r : Root V) × (o ≡ some r) × (find_root r k ≡ some (some v))
  unfolding get_with
  root_get none k v q = cc
  root_get (some r) k v q = (r, refl, root_value (find_root r k) v q)

  -- A value that `nvipfix_hashtable8_get` finds is handed to `freeValue` when the table is freed, if the table has
  -- that function.
  pub hashtable8_free-get :
      (t : Hashtable8 V) (k : Bytes) (v : V) (h : Heap)
      → t.free_value ≡ true
      → hashtable8_get t k ≡ some (some v)
      → Has (some v) (hashtable8_free t h).0
  unfolding hashtable8_free hashtable8_get
  hashtable8_free-get t k v h f q =
      let (r, e, found) = root_get (get_elem? t.nodes (hashtable8_hash k)) k v q in
      rw f (free_roots-find t.nodes (hashtable8_hash k) r k (some v) h e found)
