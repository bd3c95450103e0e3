-- ===== src/Data/Chain.antt =====
-- The links of the list of src/data.c and the sequence of records that it holds.
use mathlib.Core.Path.{subst}
use ipfix.Common.{
  ℕ, zero, suc, ◌+◌, ◌-◌, ◌≤◌, true, List, [], ◌∷◌, ◌++◌, Option, none, some, ◌≡◌, ◌≢◌, refl, arith,
  length, All, inl, inr, sym, ap, ◌∙◌,
}
use ipfix.Data.{
  Store, RecordList, write, link_last, set_next, data_list_add, free_records, data_list_free,
}
use ipfix.Heap.{Heap, has_room, malloc_live, free}

All-concat : (P : ℕ → Type 0) (bs : List ℕ) (n : ℕ) → All P bs → P n → All P (bs ++ n ∷ [])
All-concat P [] n k x = (x, tt)
All-concat P (b ∷ bs) n k x = (k.0, All-concat P bs n k.1 x)

-- From the cell at `a`, with `p` before it, the links run forward and back over the distinct addresses
-- `a ∷ bs` and end at `t`.
module _ {ℓ} {A : Type ℓ} where
  abbrev pub Chain : Store A → Option ℕ → ℕ → List ℕ → ℕ → Type 0
  Chain σ p a [] t = ((σ a).prev ≡ p) × ((σ a).next ≡ none) × (a ≡ t)
  Chain σ p a (b ∷ bs) t =
      ((σ a).prev ≡ p) × ((σ a).next ≡ some b) × All (λ x. x ≢ a) (b ∷ bs) × Chain σ (some a) b bs t

  Chain-end :
      (σ : Store A) (p : Option ℕ) (a : ℕ) (bs : List ℕ) (t : ℕ) (P : ℕ → Type 0)
      → Chain σ p a bs t
      → All P (a ∷ bs)
      → P t
  Chain-end σ p a [] t P c k = subst P c.2 k.0
  Chain-end σ p a (b ∷ bs) t P c k = Chain-end σ (some a) b bs t P c.3 k.1

  added : Store A → ℕ → ℕ → Store A
  added σ t n = link_last n (some t) (set_next t n σ)

  added-other : (σ : Store A) (t n a : ℕ) → a ≢ n → a ≢ t → added σ t n a ≡ σ a
  unfolding added link_last set_next write
  added-other σ t n a x y = ground arith

  added-end :
      (σ : Store A) (t n a : ℕ) → a ≡ t → a ≢ n → added σ t n a ≡ record (σ t) { next = some n }
  unfolding added link_last set_next write
  added-end σ t n a e x = ground arith

  added-new :
      (σ : Store A) (t n : ℕ)
      → added σ t n n ≡ record (set_next t n σ n) { prev = some t; next = none }
  unfolding added link_last write
  added-new σ t n = ground arith

  -- Adding the record at `n`, which is not in the list, keeps a list of the addresses `a ∷ bs` one,
  -- with `n` at its end.
  Chain-add :
      (σ : Store A) (p : Option ℕ) (a : ℕ) (bs : List ℕ) (t n : ℕ)
      → Chain σ p a bs t
      → All (λ x. x ≢ n) (a ∷ bs)
      → Chain (link_last n (some t) (set_next t n σ)) p a (bs ++ n ∷ []) n
  unfolding added
  Chain-add σ p a [] t n c k = (
    ap (λ q. q.prev) (added-end σ t n a c.2 (k.0)) ∙ ap (λ x. (σ x).prev) (sym c.2) ∙ c.0,
    ap (λ q. q.next) (added-end σ t n a c.2 (k.0)),
    ((λ e. k.0 (sym e)), tt),
    (
      ap (λ q. q.prev) (added-new σ t n) ∙ ap some (sym c.2),
      ap (λ q. q.next) (added-new σ t n),
      refl,
    ),
  )
  Chain-add σ p a (b ∷ bs) t n c k =
      let far = Chain-end σ (some a) b bs t (λ x. x ≢ a) c.3 c.2 in
      (
        ap (λ q. q.prev) (added-other σ t n a k.0 (λ e. far (sym e))) ∙ c.0,
        ap (λ q. q.next) (added-other σ t n a k.0 (λ e. far (sym e))) ∙ c.1,
        All-concat (λ x. x ≢ a) (b ∷ bs) n c.2 (λ e. k.0 (sym e)),
        Chain-add σ (some a) b bs t n c.3 k.1,
      )

  -- The list (NULL when it has no records) holds the records at these addresses, in this order.
  abbrev pub Holds : Store A → Option RecordList → List ℕ → Type 0
  Holds σ none [] = Unit
  Holds σ (some l) (a ∷ bs) = (l.head ≡ a) × Chain σ none a bs l.tail
  Holds σ none (a ∷ bs) = ⊥
  Holds σ (some l) [] = ⊥

  -- `nvipfix_data_list_add` of a record that is not in the list yet puts it at the end and keeps the
  -- links right in both directions, if no call of `malloc` is refused.
  pub data_list_add-Holds :
      (σ : Store A) (l : Option RecordList) (bs : List ℕ) (n : ℕ) (h : Heap)
      → Holds σ l bs
      → All (λ x. x ≢ n) bs
      → has_room h.plan ≡ true
      → Holds (data_list_add l n σ h).0.1 (data_list_add l n σ h).0.0 (bs ++ n ∷ [])
  unfolding data_list_add link_last write
  data_list_add-Holds σ none [] n h c k room = elim (malloc_live h) [
    | inl m ↦ rw m.0 (refl, ground arith)
    | inr m ↦ cc
  ]
  data_list_add-Holds σ (some l) (a ∷ bs) n h c k room = (c.0, Chain-add σ none a bs l.tail n c.1 k)
  data_list_add-Holds σ none (a ∷ bs) n h c k room = elim c [ ]
  data_list_add-Holds σ (some l) [] n h c k room = elim c [ ]

  free_none : (fuel : ℕ) (σ : Store A) (h : Heap) → free_records fuel none σ h ≡ (tt, h)
  unfolding free_records
  free_none zero σ h = refl
  free_none (suc fuel) σ h = refl

  free_records_live :
      (σ : Store A) (p : Option ℕ) (a : ℕ) (bs : List ℕ) (t fuel : ℕ) (h : Heap)
      → Chain σ p a bs t
      → suc (length bs) ≤ fuel
      → (free_records fuel (some a) σ h).1.live ≡ h.live - suc (length bs)
  unfolding free_records free
  free_records_live σ p a [] t zero h c f = elim f [ ]
  free_records_live σ p a (b ∷ bs) t zero h c f = elim f [ ]
  free_records_live σ p a [] t (suc fuel) h c f = rw c.1 (ap (λ x. x.1.live) (free_none fuel σ _))
  free_records_live σ p a (b ∷ bs) t (suc fuel) h c f =
      rw c.1 (free_records_live σ (some a) b bs t fuel _ c.3 (omega arith) ∙ omega arith)

  -- `nvipfix_data_list_free` reaches every record of the list once: it gives back their blocks and
  -- that of the list, when the fuel is at least the number of records.
  pub data_list_free_live :
      (σ : Store A) (l : RecordList) (bs : List ℕ) (fuel : ℕ) (h : Heap)
      → Holds σ (some l) bs
      → length bs ≤ fuel
      → (data_list_free fuel (some l) σ h).1.live ≡ h.live - (length bs + 1)
  unfolding data_list_free free
  data_list_free_live σ l [] fuel h c f = elim c [ ]
  data_list_free_live σ l (a ∷ bs) fuel h c f =
      rw c.0 (omega (arith, free_records_live σ none a bs l.tail fuel h c.1 f))
