-- ===== src/Hashtable/Laws.antt =====
-- The table of src/types.c as a map: `nvipfix_hashtable8_get` after `nvipfix_hashtable8_add`.
use mathlib.Core.Path.{subst}
use ipfix.Common.{
  ℕ, zero, suc, ◌≤◌, ◌<◌, Bool, true, false, List, [], ◌∷◌, Option, none, some, ◌≡◌, ◌≢◌, inl, inr,
  refl, ap, ◌∙◌, arith, All, length, get_elem?, get_elem?-set_self, get_elem?-set_ne, set, ◌==◌,
  Bool-cases,
}
use ipfix.Hashtable.Keys.{key_cmp_refl, eq_of_key_cmp}
use ipfix.Hashtable.Nodes.{find-write_self, find-write_ne}
use ipfix.Hashtable.{
  Tree, leaf, node, Root, Hashtable8, Added, find_node, add_node, write_node, as_tree, as_root,
  find_at, find_root, add_at, add_root, write_root, store_value, add_with, add_to, get_with,
  hashtable8_get, hashtable8_hash, copied,
}
use ipfix.Heap.{Heap, has_room, malloc_live}
use ipfix.Text.{Bytes}

module _ {ℓ} {V : Type ℓ} where
  abbrev pub RootInv : Bytes → Root V → Type ℓ
  RootInv [] r = (r.lt_node ≡ leaf) × (r.gt_node ≡ leaf)
  RootInv (_ ∷ _) r = Unit

  -- A free root has no subtrees.
  abbrev pub IsRoot : Root V → Type ℓ
  IsRoot r = RootInv r.key r

  pub record IsTable (t : Hashtable8 V) : Type ℓ where
    pub size : length t.nodes ≡ 255
    pub roots : All IsRoot t.nodes

  add_node_room :
      (t : Tree V) (k : Bytes) (h : Heap) → has_room h.plan ≡ true → (add_node t k h).0.0 ≡ true
  unfolding add_node
  add_node_room leaf k h room = ground (arith, malloc_live h)
  add_node_room (node key value l g) k h room =
      ground (arith, add_node_room l k h room, add_node_room g k h room)

  -- adding and writing keep the root's key
  pub add_node_root :
      (r : Root V) (k : Bytes) (h : Heap)
      → (as_tree (as_root r (add_node (as_tree r) k h).0.1) ≡ (add_node (as_tree r) k h).0.1)
        × ((as_root r (add_node (as_tree r) k h).0.1).key ≡ r.key)
  unfolding add_node
  add_node_root r k h = ground arith

  pub write_node_root :
      (r : Root V) (k : Bytes) (v : Option V)
      → (as_tree (write_root r k v) ≡ write_node (as_tree r) k v) × ((write_root r k v).key ≡ r.key)
  unfolding write_root write_node
  write_node_root r k v = ground arith

  find_root_used :
      (r : Root V) (y : ℕ) (ys k : Bytes) → r.key ≡ y ∷ ys → find_root r k ≡ find_node (as_tree r) k
  unfolding find_root
  find_root_used r y ys k e = ap (λ (key : Bytes). find_at key r k) e

  -- in a root that is used, adding and writing act on its tree
  write_used :
      (r : Root V) (y : ℕ) (ys k j : Bytes) (v : Option V) (h : Heap)
      → r.key ≡ y ∷ ys
      → find_root (write_root (as_root r (add_node (as_tree r) k h).0.1) k v) j
        ≡ find_node (write_node (add_node (as_tree r) k h).0.1 k v) j
  write_used r y ys k j v h e =
      let (kept, same) = add_node_root r k h in
      let r' = as_root r (add_node (as_tree r) k h).0.1 in
      let (kept', same') = write_node_root r' k v in
      find_root_used (write_root r' k v) y ys j (same' ∙ same ∙ e)
      ∙ ap (λ (t : Tree V). find_node t j) (kept' ∙ ap (λ (t : Tree V). write_node t k v) kept)

  root_self_at :
      (key : Bytes) (r : Root V) (c : ℕ) (s : Bytes) (v : Option V) (h : Heap)
      → r.key ≡ key
      → has_room h.plan ≡ true
      → find_root (write_root (add_at key r (c ∷ s) h).0.1 (c ∷ s) v) (c ∷ s) ≡ some v
  unfolding add_at
  root_self_at [] r c s v h e room =
      unfold write_root write_node find_root find_node in
      ground (arith, malloc_live h, key_cmp_refl (c ∷ s))
  root_self_at (y ∷ ys) r c s v h e room =
      write_used r y ys (c ∷ s) (c ∷ s) v h e
      ∙ find-write_self (as_tree r) (c ∷ s) v h (add_node_room (as_tree r) (c ∷ s) h room)

  root_ne_at :
      (key : Bytes) (r : Root V) (c : ℕ) (s j : Bytes) (v : Option V) (h : Heap)
      → r.key ≡ key
      → IsRoot r
      → j ≢ c ∷ s
      → has_room h.plan ≡ true
      → find_root (write_root (add_at key r (c ∷ s) h).0.1 (c ∷ s) v) j ≡ find_at key r j
  unfolding add_at find_at
  root_ne_at [] r c s j v h e w n room =
      let (no_lt, no_gt) = subst (λ (k : Bytes). RootInv k r) e w in
      unfold write_root write_node find_root find_node in
      ground (arith, malloc_live h, key_cmp_refl (c ∷ s), eq_of_key_cmp j (c ∷ s), no_lt, no_gt)
  root_ne_at (y ∷ ys) r c s j v h e w n room =
      write_used r y ys (c ∷ s) j v h e ∙ find-write_ne (as_tree r) (c ∷ s) j v h n

  add_root_room :
      (key : Bytes) (r : Root V) (k : Bytes) (h : Heap)
      → has_room h.plan ≡ true
      → (add_at key r k h).0.0 ≡ true
  unfolding add_at
  add_root_room [] r k h room = ground (arith, malloc_live h)
  add_root_room (y ∷ ys) r k h room = add_node_room (as_tree r) k h room

-- A table after `nvipfix_hashtable8_add`, read; `none` if the array was accessed past its end.
abbrev pub get_after {ℓ} : {V : Type ℓ} → Option (Added V) → Bytes → Option (Option V)
get_after none j = none
get_after (some a) j = hashtable8_get a.table j

module _ {ℓ} {A : Type ℓ} where
  pub get_elem?-lt : (xs : List A) (i : ℕ) → i < length xs → (x : A) × (get_elem? xs i ≡ some x)
  get_elem?-lt [] i h = elim h [ ]
  get_elem?-lt (x ∷ xs) zero h = (x, refl)
  get_elem?-lt (x ∷ xs) (suc i) h = get_elem?-lt xs i (omega arith)

  pub get_elem?-ge : (xs : List A) (i : ℕ) → length xs ≤ i → get_elem? xs i ≡ none
  get_elem?-ge [] i h = refl
  get_elem?-ge (x ∷ xs) zero h = absurd (omega arith)
  get_elem?-ge (x ∷ xs) (suc i) h = get_elem?-ge xs i (omega arith)

  pub All-get_elem? {κ} :
      (P : A → Type κ) (xs : List A) (i : ℕ) (x : A) → All P xs → get_elem? xs i ≡ some x → P x
  All-get_elem? P [] i x a e = cc
  All-get_elem? P (y ∷ xs) zero x a e = let q : y ≡ x = cc in subst P q a.0
  All-get_elem? P (y ∷ xs) (suc i) x a e = All-get_elem? P xs i x a.1 e

module _ {ℓ} {V : Type ℓ} where
  -- the root that an addition leaves, if no call of `malloc` is refused
  abbrev root_after : Hashtable8 V → Root V → Bytes → Option V → Heap → Root V
  root_after t r k v h = write_root (add_root r k h).0.1 k (copied t.copy_value v)

  store_value_table :
      (t : Hashtable8 V) (i : ℕ) (k : Bytes) (v : Option V) (p : Bool × Root V)
      → p.0 ≡ true
      → (store_value t i k v p).table
        ≡ record t { nodes = set t.nodes i (write_root p.1 k (copied t.copy_value v)) }
  unfolding store_value
  store_value_table t i k v (true, r) e = refl
  store_value_table t i k v (false, r) e = cc

  get_with_find :
      (r r' : Root V) (j : Bytes)
      → find_root r j ≡ find_root r' j
      → get_with (some r) j ≡ get_with (some r') j
  unfolding get_with
  get_with_find r r' j e = rw e

  get_after-add_to :
      (t : Hashtable8 V) (r : Root V) (k j : Bytes) (v : Option V) (h : Heap)
      → get_elem? t.nodes (hashtable8_hash k) ≡ some r
      → has_room h.plan ≡ true
      → get_after (add_to t k v h).0 j
        ≡ get_with
            (get_elem? (set t.nodes (hashtable8_hash k) (root_after t r k v h)) (hashtable8_hash j))
            j
  unfolding add_with hashtable8_get add_to
  get_after-add_to t r k j v h e room =
      ap (λ o. get_after (add_with o t (hashtable8_hash k) k v h).0 j) e
      ∙ ap (λ (u : Hashtable8 V). hashtable8_get u j)
          (store_value_table t (hashtable8_hash k) k v (add_root r k h).0
            (unfold add_root in add_root_room r.key r k h room))

  -- What was added is found: in a well-formed table, for every key that is not empty and whose hash is
  -- below 255, if no call of `malloc` is refused. With a copy function it is the copy.
  pub get-add_self :
      (t : Hashtable8 V) (c : ℕ) (s : Bytes) (v : Option V) (h : Heap)
      → IsTable t
      → hashtable8_hash (c ∷ s) < 255
      → has_room h.plan ≡ true
      → get_after (add_to t (c ∷ s) v h).0 (c ∷ s) ≡ some (copied t.copy_value v)
  unfolding get_with add_root
  get-add_self t c s v h w small room =
      let i = hashtable8_hash (c ∷ s) in
      let (r, e) = get_elem?-lt t.nodes i (rw w.size small) in
      get_after-add_to t r (c ∷ s) (c ∷ s) v h e room
      ∙ rw (
        get_elem?-set_self t.nodes i (root_after t r (c ∷ s) v h) (rw w.size small),
        root_self_at r.key r c s (copied t.copy_value v) h refl room,
      )

  -- In a well-formed table an addition, under a key that is not empty and whose hash is below 255,
  -- leaves what is found under every other key as it was, if no call of `malloc` is refused. The other key
  -- may be any.
  pub get-add_ne :
      (t : Hashtable8 V) (c : ℕ) (s j : Bytes) (v : Option V) (h : Heap)
      → IsTable t
      → hashtable8_hash (c ∷ s) < 255
      → has_room h.plan ≡ true
      → j ≢ c ∷ s
      → get_after (add_to t (c ∷ s) v h).0 j ≡ hashtable8_get t j
  unfolding get_with add_root hashtable8_get find_root
  get-add_ne t c s j v h w small room n =
      let i = hashtable8_hash (c ∷ s) in
      let (r, e) = get_elem?-lt t.nodes i (rw w.size small) in
      get_after-add_to t r (c ∷ s) j v h e room ∙ elim (Bool-cases (hashtable8_hash j == i)) [
        | inl same ↦
            let q : hashtable8_hash j ≡ i = ground arith in
            rw (q, get_elem?-set_self t.nodes i (root_after t r (c ∷ s) v h) (rw w.size small), e)
              (get_with_find (root_after t r (c ∷ s) v h) r j (
                root_ne_at r.key r c s j (copied t.copy_value v) h refl
                  (All-get_elem? IsRoot t.nodes i r w.roots e) n room))
        | inr other ↦
            ap (λ (o : Option (Root V)). get_with o j)
              (get_elem?-set_ne t.nodes (root_after t r (c ∷ s) v h) (λ q. ground arith))
      ]
