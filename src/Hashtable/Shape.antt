-- ===== src/Hashtable/Shape.antt =====
-- The array of the hash table (src/types.c).
use mathlib.Core.Path.{subst}
use ipfix.Common.{
  ◌++◌, ◌<◌, ◌≢◌, ◌↔◌, ◌==◌, inl, inr, Bool-cases, ℕ, zero, suc, Bool, true, false, List, [], ◌∷◌,
  Option, none, some, ◌≡◌, refl, sym, ◌∙◌, arith, All, get_elem?, length-set, set, length-replicate,
  replicate,
}
use ipfix.Hashtable.Hash.{last_byte, hash_small, hash-255_iff}
use ipfix.Hashtable.Laws.{
  RootInv, IsRoot, IsTable, add_node_root, write_node_root, get_elem?-lt, get_elem?-ge,
  All-get_elem?,
}
use ipfix.Hashtable.{
  Root, Hashtable8, Added, as_tree, as_root, add_node, add_at, add_root, write_root, store_value,
  add_with, add_to, get_with, hashtable8_get, hashtable8_hash, copied, new_table, empty_root,
}
use ipfix.Heap.{Heap, malloc_live}
use ipfix.Text.{Bytes}

module _ {ℓ} {V : Type ℓ} where
  IsRoot-used : (r : Root V) (y : ℕ) (ys : Bytes) → r.key ≡ y ∷ ys → IsRoot r
  IsRoot-used r y ys e = subst (λ (k : Bytes). RootInv k r) (sym e) tt

  add_at-IsRoot :
      (key : Bytes) (r : Root V) (c : ℕ) (s : Bytes) (h : Heap)
      → r.key ≡ key
      → IsRoot r
      → IsRoot (add_at key r (c ∷ s) h).0.1
  unfolding add_at
  add_at-IsRoot [] r c s h e w = ground (arith, malloc_live h)
  add_at-IsRoot (y ∷ ys) r c s h e w =
      IsRoot-used (as_root r (add_node (as_tree r) (c ∷ s) h).0.1) y ys
        ((add_node_root r (c ∷ s) h).1 ∙ e)

  -- behind a successful addition the root is in use
  pub add_at_key :
      (key : Bytes) (r : Root V) (c : ℕ) (s : Bytes) (h : Heap)
      → r.key ≡ key
      → (add_at key r (c ∷ s) h).0.0 ≡ true
      → (y : ℕ) × (ys : Bytes) × ((add_at key r (c ∷ s) h).0.1.key ≡ y ∷ ys)
  unfolding add_at
  add_at_key [] r c s h e a = (c, s, ground (arith, malloc_live h))
  add_at_key (y ∷ ys) r c s h e a = (y, ys, (add_node_root r (c ∷ s) h).1 ∙ e)

  All-set :
      (P : Root V → Type ℓ) (xs : List (Root V)) (i : ℕ) (x : Root V)
      → All P xs
      → P x
      → All P (set xs i x)
  All-set P [] i x a p = tt
  All-set P (y ∷ xs) zero x a p = (p, a.1)
  All-set P (y ∷ xs) (suc i) x a p = (a.0, All-set P xs i x a.1 p)

  set-IsTable :
      (t : Hashtable8 V) (i : ℕ) (r : Root V)
      → IsTable t
      → IsRoot r
      → IsTable (record t { nodes = set t.nodes i r })
  set-IsTable t i r w p = record {
    size = length-set t.nodes i r ∙ w.size;
    roots = All-set IsRoot t.nodes i r w.roots p;
  }

  store_value-IsTable :
      (t : Hashtable8 V) (i : ℕ) (k : Bytes) (v : Option V) (p : Bool × Root V)
      → IsTable t
      → IsRoot p.1
      → (p.0 ≡ true → (y : ℕ) × (ys : Bytes) × (p.1.key ≡ y ∷ ys))
      → IsTable (store_value t i k v p).table
  unfolding store_value
  store_value-IsTable t i k v (false, r) w ok used = set-IsTable t i r w ok
  store_value-IsTable t i k v (true, r) w ok used =
      let (y, ys, e) = used refl in
      let new = copied t.copy_value v in
      set-IsTable t i (write_root r k new) w
        (IsRoot-used (write_root r k new) y ys ((write_node_root r k new).1 ∙ e))

  add_with-IsTable :
      (o : Option (Root V)) (t : Hashtable8 V) (i c : ℕ) (s : Bytes) (v : Option V) (h : Heap)
      (a : Added V)
      → IsTable t
      → get_elem? t.nodes i ≡ o
      → (add_with o t i (c ∷ s) v h).0 ≡ some a
      → IsTable a.table
  unfolding add_with add_root
  add_with-IsTable none t i c s v h a w e q = cc
  add_with-IsTable (some r) t i c s v h a w e q =
      let ok = All-get_elem? IsRoot t.nodes i r w.roots e in
      let same : store_value t i (c ∷ s) v (add_at r.key r (c ∷ s) h).0 ≡ a = cc in
      subst (λ (b : Added V). IsTable b.table) same
        (store_value-IsTable t i (c ∷ s) v (add_at r.key r (c ∷ s) h).0 w
          (add_at-IsRoot r.key r c s h refl ok) (add_at_key r.key r c s h refl))

  -- An addition of a key that is not empty, where it does not access the array past its end, keeps the
  -- table well formed, also where `malloc` fails.
  pub add_to-IsTable :
      (t : Hashtable8 V) (c : ℕ) (s : Bytes) (v : Option V) (h : Heap) (a : Added V)
      → IsTable t
      → (add_to t (c ∷ s) v h).0 ≡ some a
      → IsTable a.table
  unfolding add_to
  add_to-IsTable t c s v h a w q =
      let i = hashtable8_hash (c ∷ s) in
      add_with-IsTable (get_elem? t.nodes i) t i c s v h a w refl q

  All-replicate : (r : Root V) (n : ℕ) → IsRoot r → All IsRoot (replicate n r)
  All-replicate r zero w = tt
  All-replicate r (suc n) w = (w, All-replicate r n w)

  pub new_table-IsTable :
      (free : Bool) (copy : Option (Option V → Option V)) → IsTable (new_table free copy)
  new_table-IsTable free copy = record {
    size = length-replicate 255 (empty_root {V = V});
    roots = All-replicate empty_root 255 (refl, refl);
  }

  add_with-some :
      (r : Root V) (t : Hashtable8 V) (i : ℕ) (k : Bytes) (v : Option V) (h : Heap)
      → (add_with (some r) t i k v h).0 ≢ none
  unfolding add_with
  add_with-some r t i k v h e = cc

  get_with-some : (r : Root V) (k : Bytes) → get_with (some r) k ≢ none
  unfolding get_with
  get_with-some r k e = cc

  -- The array has a node for each hash but 255.
  past_end_iff :
      (t : Hashtable8 V) (k : Bytes) (v : Option V) (h : Heap)
      → IsTable t
      → (((add_to t k v h).0 ≡ none) ↔ (hashtable8_hash k ≡ 255))
        × ((hashtable8_get t k ≡ none) ↔ (hashtable8_hash k ≡ 255))
  unfolding add_to hashtable8_get
  past_end_iff t k v h w = elim (Bool-cases (hashtable8_hash k == 255)) [
    | inl last ↦
        let e : hashtable8_hash k ≡ 255 = ground arith in
        let past = get_elem?-ge t.nodes (hashtable8_hash k) (rw (w.size, e) (omega arith)) in
        rw past (unfold add_with get_with in (((λ x. e), λ x. refl), ((λ x. e), λ x. refl)))
    | inr other ↦
        let ne : hashtable8_hash k ≢ 255 = ground arith in
        let (r, found) =
          get_elem?-lt t.nodes (hashtable8_hash k) (rw w.size (omega (arith, hash_small k, ne))) in
        rw found (
          ((λ x. absurd (add_with-some r t (hashtable8_hash k) k v h x)), λ x. absurd (ne x)),
          ((λ x. absurd (get_with-some r k x)), λ x. absurd (ne x)),
        )
  ]

  -- In a well-formed table, behind every text there is exactly one byte with which it is a key that is added and
  -- looked up past the end of the array of 255 nodes.
  pub hash_past_end :
      (t : Hashtable8 V) (s : Bytes) (c : ℕ) (v : Option V) (h : Heap)
      → IsTable t
      → c < 256
      → (((add_to t (s ++ c ∷ []) v h).0 ≡ none) ↔ (c ≡ last_byte s))
        × ((hashtable8_get t (s ++ c ∷ []) ≡ none) ↔ (c ≡ last_byte s))
  hash_past_end t s c v h w small =
      let (added, got) = past_end_iff t (s ++ c ∷ []) v h w in
      let (to, from) = hash-255_iff s c small in
      (((λ e. to (added.0 e)), λ e. added.1 (from e)), ((λ e. to (got.0 e)), λ e. got.1 (from e)))
