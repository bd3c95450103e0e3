-- ===== src/Import/Result.antt =====
-- The list that the importer builds and its memory: src/import.c, lines 135-245.
use ipfix.Common.{
  ℕ, zero, suc, ◌+◌, ◌≤◌, ◌<◌, Bool, true, false, List, [], ◌∷◌, ◌++◌, Option, none, some, ◌≡◌, ◌≢◌,
  ◌⊎◌, inl, inr, refl, ap, ◌∙◌, arith, length, length-append, All, Bool-cases,
}
use ipfix.Data.{DataRecord, Cell, Store, RecordList, write, data_list_add, data_list_add_copy}
use ipfix.Data.Chain.{Holds, Chain, data_list_add-Holds}
use ipfix.Heap.{Heap, malloc, has_room, roomy}
use ipfix.Import.Reader.{Records, add_record}

-- The blocks of a list of `n` records: NULL, or the list and its cells.
abbrev pub blocks : ℕ → ℕ
blocks zero = 0
blocks (suc n) = 1 + suc n

-- The result is a list of the addresses, all of them handed out before, and their blocks are among the
-- live ones. Where no call of `malloc` is ever refused they are the only ones above `base`.
pub record Owns (full : Bool) (base : ℕ) (r : Records) (h : Heap) : Type 0 where
  pub addresses : List ℕ
  pub holds : Holds r.store r.list addresses
  pub old : All (λ a. a < r.next) addresses
  pub few : length addresses ≤ r.next
  pub kept : base + blocks (length addresses) ≤ h.live
  pub exact :
      (full ≡ false) ⊎ ((has_room h.plan ≡ true) × (h.live ≡ base + blocks (length addresses)))

module _ (full : Bool) where
  -- Memory that is taken or given back beside the list.
  pub Owns-taken :
      (base base' : ℕ) (r : Records) (h h' : Heap)
      → Owns full base r h
      → h'.live + base ≡ h.live + base'
      → (has_room h.plan ≡ true → has_room h'.plan ≡ true)
      → Owns full base' r h'
  Owns-taken base base' r h h' o e room = record {
    addresses = o.addresses;
    holds = o.holds;
    old = o.old;
    few = o.few;
    kept = (let k = o.kept in omega arith);
    exact = elim o.exact [ inl f ↦ inl f | inr (x, y) ↦ inr (room x, omega arith) ];
  }

module _ {ℓ} {A : Type ℓ} where
  write-other : (σ : Store A) (n a : ℕ) (c : Cell A) → a ≢ n → write n c σ a ≡ σ a
  unfolding write
  write-other σ n a c ne = ground arith

  Chain-write :
      (σ : Store A) (n : ℕ) (c : Cell A) (p : Option ℕ) (a : ℕ) (bs : List ℕ) (t : ℕ)
      → Chain σ p a bs t
      → All (λ x. x ≢ n) (a ∷ bs)
      → Chain (write n c σ) p a bs t
  Chain-write σ n c p a [] t k ne = rw (write-other σ n a c ne.0) k
  Chain-write σ n c p a (b ∷ bs) t k ne =
      let e = write-other σ n a c ne.0 in
      (
        ap (λ x. x.prev) e ∙ k.0,
        ap (λ x. x.next) e ∙ k.1,
        k.2,
        Chain-write σ n c (some a) b bs t k.3 ne.1,
      )

  pub Holds-write :
      (σ : Store A) (n : ℕ) (c : Cell A) (l : Option RecordList) (bs : List ℕ)
      → Holds σ l bs
      → All (λ x. x ≢ n) bs
      → Holds (write n c σ) l bs
  Holds-write σ n c none [] k ne = k
  Holds-write σ n c (some l) (a ∷ bs) k ne = (k.0, Chain-write σ n c none a bs l.tail k.1 ne)
  Holds-write σ n c none (a ∷ bs) k ne = k
  Holds-write σ n c (some l) [] k ne = k

pub All-ne : (bs : List ℕ) (n : ℕ) → All (λ a. a < n) bs → All (λ x. x ≢ n) bs
All-ne [] n k = tt
All-ne (b ∷ bs) n k = ((λ e. omega arith), All-ne bs n k.1)

All-suc : (bs : List ℕ) (n : ℕ) → All (λ a. a < n) bs → All (λ a. a < suc n) bs
All-suc [] n k = tt
All-suc (b ∷ bs) n k = (omega arith, All-suc bs n k.1)

pub All-last : (bs : List ℕ) (n : ℕ) → All (λ a. a < n) bs → All (λ a. a < suc n) (bs ++ n ∷ [])
All-last [] n k = (omega arith, tt)
All-last (b ∷ bs) n k = (omega arith, All-last bs n k.1)

-- The result behind a record that was added.
abbrev pub added : DataRecord → Records → Records
added d r = (add_record d r (roomy 0)).0

-- What a record takes: its cell, and the list itself for the first one.
abbrev cost : Option RecordList → ℕ
cost none = 2
cost (some l) = 1

abbrev new_cell : DataRecord → Cell DataRecord
new_cell d = record { value = d; prev = none; next = none }

abbrev records : Option RecordList → Store DataRecord → ℕ → Records
records l σ n = record { list = l; store = σ; next = n }

pub added-Holds :
    (d : DataRecord) (l : Option RecordList) (σ : Store DataRecord) (n : ℕ) (bs : List ℕ)
    → Holds σ l bs
    → All (λ a. a < n) bs
    → Holds (added d (records l σ n)).store (added d (records l σ n)).list (bs ++ n ∷ [])
unfolding add_record data_list_add_copy malloc data_list_add
added-Holds d none σ n bs k old =
    data_list_add-Holds (write n (new_cell d) σ) none bs n (roomy 1)
      (Holds-write σ n (new_cell d) none bs k (All-ne bs n old)) (All-ne bs n old) refl
added-Holds d (some l) σ n bs k old =
    data_list_add-Holds (write n (new_cell d) σ) (some l) bs n (roomy 1)
      (Holds-write σ n (new_cell d) (some l) bs k (All-ne bs n old)) (All-ne bs n old) refl

-- Either the record was added; or a call of `malloc` was refused and nothing is lost.
abbrev Adds : DataRecord → Records → Heap → Type 0
Adds d r h =
    (((add_record d r h).0 ≡ added d r)
      × ((add_record d r h).1.live ≡ h.live + cost r.list)
      × (has_room (add_record d r h).1.plan ≡ has_room h.plan))
    ⊎ (((add_record d r h).0.list ≡ r.list)
        × ((add_record d r h).0.next ≡ suc r.next)
        × ((bs : List ℕ) → Holds r.store r.list bs → Holds (add_record d r h).0.store r.list bs)
        × (h.live ≤ (add_record d r h).1.live)
        × (has_room h.plan ≡ false))

Holds-none : (σ σ' : Store DataRecord) (bs : List ℕ) → Holds σ none bs → Holds σ' none bs
Holds-none σ σ' [] k = k
Holds-none σ σ' (b ∷ bs) k = k

add_record_plan-Adds :
    (d : DataRecord) (l : Option RecordList) (σ : Store DataRecord) (n live : ℕ) (plan : List Bool)
    → Adds d (records l σ n) (record { plan = plan; live = live })
unfolding add_record data_list_add_copy data_list_add malloc
add_record_plan-Adds d none σ n live [] = inl (refl, omega arith, refl)
add_record_plan-Adds d none σ n live (true ∷ []) = inl (refl, omega arith, refl)
add_record_plan-Adds d none σ n live (true ∷ true ∷ plan) = inl (refl, omega arith, refl)
add_record_plan-Adds d none σ n live (true ∷ false ∷ plan) =
    inr (refl, refl, (λ bs k. Holds-none σ (write n (new_cell d) σ) bs k), omega arith, refl)
add_record_plan-Adds d none σ n live (false ∷ plan) =
    inr (refl, refl, (λ bs k. k), omega arith, refl)
add_record_plan-Adds d (some l) σ n live [] = inl (refl, refl, refl)
add_record_plan-Adds d (some l) σ n live (true ∷ plan) = inl (refl, refl, refl)
add_record_plan-Adds d (some l) σ n live (false ∷ plan) =
    inr (refl, refl, (λ bs k. k), omega arith, refl)

pub add_record-Adds : (d : DataRecord) (r : Records) (h : Heap) → Adds d r h
add_record-Adds d r h = add_record_plan-Adds d r.list r.store r.next h.live h.plan

blocks-last :
    (σ : Store DataRecord) (l : Option RecordList) (bs : List ℕ) (n : ℕ)
    → Holds σ l bs
    → blocks (length (bs ++ n ∷ [])) ≡ blocks (length bs) + cost l
blocks-last σ none [] n k = refl
blocks-last σ (some l) (b ∷ bs) n k = omega (arith, length-append bs (n ∷ []))
blocks-last σ none (b ∷ bs) n k = elim k [ ]
blocks-last σ (some l) [] n k = elim k [ ]

pub added-next : (d : DataRecord) (r : Records) → (added d r).next ≡ suc r.next
unfolding add_record
added-next d r = refl

module _ (full : Bool) where
  -- Whatever a computation returns, it owns this.
  abbrev pub OwnsAll : ℕ → Records × Heap → Type 0
  OwnsAll base out = Owns full base out.0 out.1

  pub add_record-Owns :
      (d : DataRecord) (base : ℕ) (r : Records) (h : Heap)
      → Owns full base r h
      → OwnsAll base (add_record d r h)
  add_record-Owns d base r h o = elim (add_record-Adds d r h) [
    | inl (e, live, room) ↦ rw e (record {
      addresses = o.addresses ++ r.next ∷ [];
      holds = added-Holds d r.list r.store r.next o.addresses o.holds o.old;
      old = rw (added-next d r) (All-last o.addresses r.next o.old);
      few =
          (let k = o.few in omega (arith, added-next d r, length-append o.addresses (r.next ∷ [])));
      kept =
          (let k = o.kept in omega (arith, blocks-last r.store r.list o.addresses r.next o.holds));
      exact = elim o.exact [
        | inl f ↦ inl f
        | inr (x, y) ↦
            inr (room ∙ x, omega (arith, blocks-last r.store r.list o.addresses r.next o.holds))
      ];
    })
    | inr (e, e', holds, live, room) ↦ record {
      addresses = o.addresses;
      holds = rw e (holds o.addresses o.holds);
      old = rw e' (All-suc o.addresses r.next o.old);
      few = (let k = o.few in omega arith);
      kept = (let k = o.kept in omega arith);
      exact = elim o.exact [ inl f ↦ inl f | inr (x, y) ↦ absurd (cc) ];
    }
  ]

-- NULL owns nothing.
pub empty_Owns :
    (σ : Store DataRecord) (n : ℕ) (h : Heap)
    → Owns (has_room h.plan) h.live (record { list = none; store = σ; next = n }) h
empty_Owns σ n h = record {
  addresses = [];
  holds = tt;
  old = tt;
  few = omega arith;
  kept = omega arith;
  exact = elim (Bool-cases (has_room h.plan)) [
    | inl room ↦ inr (room, omega arith)
    | inr none_left ↦ inl none_left
  ];
}
