-- ===== src/Heap.antt =====
-- The C heap as types.c sees it (src/types.c): `malloc` may return NULL, and `free` gives a block
-- back. A heap is the list of answers that the next calls of `malloc` will get (when it is used up
-- they all succeed) and the number of live blocks. Blocks have no addresses here.
use ipfix.Common.{ℕ, ◌+◌, ◌-◌, Bool, true, false, ◌&&◌, List, [], ◌∷◌, ◌≡◌, refl, ◌⊎◌, arith}

pub record Heap : Type 0 where
  pub plan : List Bool
  pub live : ℕ

abbrev pub M {ℓ} : Type ℓ → Type ℓ
M A = Heap → A × Heap

abbrev pub pure {ℓ} : {A : Type ℓ} → A → M A
pure result h = (result, h)

-- `m`, and then what `k` makes of its result, on the heap that it leaves.
infixl 5 ◌>>=◌
abbrev pub ◌>>=◌ {ℓ κ} : {A : Type ℓ} {B : Type κ} → M A → (A → M B) → M B
◌>>=◌ m k h = let (result, h') = m h in k result h'

infixl 5 ◌>>◌
abbrev pub ◌>>◌ {κ} : {B : Type κ} → M (Unit {0}) → M B → M B
◌>>◌ m k h = k (m h).1

abbrev malloc_next : List Bool → ℕ → Bool × Heap
malloc_next [] live = (true, record { plan = []; live = live + 1 })
malloc_next (true ∷ plan) live = (true, record { plan = plan; live = live + 1 })
malloc_next (false ∷ plan) live = (false, record { plan = plan; live = live })

-- `malloc`: false for NULL.
unfoldable pub malloc : M Bool
malloc h = malloc_next h.plan h.live

-- `realloc` to a smaller size: false for NULL, and then the old block stays.
unfoldable pub realloc : M Bool
realloc h = let (got, h') = malloc_next h.plan h.live in (got, record h' { live = h.live })

-- `free` of `n` blocks that are not NULL.
unfoldable pub free : ℕ → M (Unit {0})
free n h = (tt, record h { live = h.live - n })

-- No call of `malloc` will be refused.
abbrev pub has_room : List Bool → Bool
has_room [] = true
has_room (b ∷ plan) = b && has_room plan

-- A heap on which every call of `malloc` succeeds.
abbrev pub roomy : ℕ → Heap
roomy live = record { plan = []; live = live }

-- An allocation takes one block or none, and only a refused one leaves less room.
pub malloc_live :
    (h : Heap)
    → (((malloc h).0 ≡ true)
        × ((malloc h).1.live ≡ h.live + 1)
        × (has_room (malloc h).1.plan ≡ has_room h.plan))
      ⊎ (((malloc h).0 ≡ false) × ((malloc h).1.live ≡ h.live) × (has_room h.plan ≡ false))
unfolding malloc
malloc_live h = ground arith

pub realloc_live : (h : Heap) → (realloc h).1.live ≡ h.live
unfolding realloc
realloc_live h = refl
