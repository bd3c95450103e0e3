-- ===== src/Text/Tokens.antt =====
-- The string list of src/types.c and the memory that it holds: adding a token, and giving it all back.
use ipfix.Common.{
  ℕ, ◌+◌, ◌-◌, ◌*◌, Bool, true, false, List, [], ◌∷◌, ◌++◌, Option, none, some, ◌≡◌, ◌⊎◌, length,
  length-append, arith,
}
use ipfix.Heap.{Heap, has_room, malloc, free, malloc_live}
use ipfix.Text.{Bytes, StringList, string_list_add, free_items, string_list_free, emit_token}

-- The blocks that a list holds: two for each item and its text, one for the list.
abbrev pub owned : Option StringList → ℕ
owned none = 0
owned (some l) = 1 + 2 * length l.items

-- `result` with the tokens `ts` behind it.
abbrev pub extend : Option StringList → List Bytes → Option StringList
extend r [] = r
extend none (t ∷ ts) = some (record { items = t ∷ ts; count = length (t ∷ ts) })
extend (some l) (t ∷ ts) =
    some (record { items = l.items ++ t ∷ ts; count = l.count + length (t ∷ ts) })

-- Either nothing is returned and nothing is held, and some call of `malloc` was refused; or the list
-- `r` is, and holds its blocks, and none was refused. `room` is `has_room` of the heap before.
abbrev pub Settles : Bool → ℕ → Option StringList → Option StringList × Heap → Type 0
Settles room base r out =
    ((out.0 ≡ none) × (out.1.live ≡ base) × (room ≡ false))
    ⊎ ((out.0 ≡ r) × (out.1.live ≡ base + owned r) × (has_room out.1.plan ≡ room))

free_items_live :
    (xs : List Bytes) (h : Heap) → (free_items xs true h).1.live ≡ h.live - 2 * length xs
unfolding free_items free
free_items_live [] h = omega arith
free_items_live (x ∷ xs) h = omega (arith, free_items_live xs (record h { live = h.live - 1 - 1 }))

pub string_list_free_live :
    (l : Option StringList) (h : Heap) → (string_list_free l true h).1.live ≡ h.live - owned l
unfolding string_list_free free
string_list_free_live none h = omega arith
string_list_free_live (some l) h = omega (arith, free_items_live l.items h)

string_list_add_Settles :
    (r : Option StringList) (t : Bytes) (h : Heap)
    → (((string_list_add r t h).0 ≡ none)
        × ((string_list_add r t h).1.live ≡ h.live)
        × (has_room h.plan ≡ false))
      ⊎ (((string_list_add r t h).0 ≡ extend r (t ∷ []))
          × ((string_list_add r t h).1.live + owned r + 1 ≡ h.live + owned (extend r (t ∷ [])))
          × (has_room (string_list_add r t h).1.plan ≡ has_room h.plan))
unfolding string_list_add free
string_list_add_Settles none t h = ground (arith, malloc_live h, malloc_live (malloc h).1)
string_list_add_Settles (some l) t h = ground (arith, malloc_live h, length-append l.items (t ∷ []))

pub emit_token-Settles :
    (r : Option StringList) (t : Bytes) (h : Heap) (base : ℕ)
    → h.live ≡ base + owned r
    → Settles (has_room h.plan) base (extend r (t ∷ [])) (emit_token r t h)
unfolding emit_token free
emit_token-Settles r t h base e = ground (
  arith,
  malloc_live h,
  string_list_add_Settles r t (malloc h).1,
  string_list_free_live r (malloc h).1,
  string_list_free_live r (string_list_add r t (malloc h).1).1,
)
