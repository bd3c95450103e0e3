-- ===== src/Import/Buffer/Loop.antt =====
-- The loop that reads a file into a block, round by round, and its memory: src/import.c, lines 114-133.
use ipfix.Common.{
  ℕ, zero, suc, ◌+◌, ◌-◌, ◌≤◌, ◌<◌, Bool, true, false, List, [], ◌∷◌, ◌++◌, Option, none, some, ◌≡◌,
  refl, ap, ◌∙◌, ltb, if◌then◌else◌, length, length-append, length-take, length-drop, take, drop,
  get_or, arith,
}
use ipfix.Heap.{Heap, M, malloc, realloc, free, has_room}
use ipfix.Import.Buffer.{sizeof_file_buffer, fresh_bytes, write_at, grow, read_chunks, read_buffer}
use ipfix.Text.{Bytes}

-- The block of the buffer: none for NULL.
abbrev pub block : Option Bytes → ℕ
block none = 0
block (some b) = 1

abbrev pub bytes : Option Bytes → Bytes
bytes none = []
bytes (some b) = b

module _ {ℓ} {A : Type ℓ} where
  pub get_or-append_left :
      (xs ys : List A) (i : ℕ) (d : A) → i < length xs → get_or (xs ++ ys) i d ≡ get_or xs i d
  get_or-append_left [] ys i d h = elim h [ ]
  get_or-append_left (x ∷ xs) ys zero d h = refl
  get_or-append_left (x ∷ xs) ys (suc i) d h = get_or-append_left xs ys i d (omega arith)

  pub get_or-append_right :
      (xs ys : List A) (i n : ℕ) (d : A)
      → length xs ≡ n
      → get_or (xs ++ ys) (n + i) d ≡ get_or ys i d
  get_or-append_right [] ys i n d e = let z : n + i ≡ i = omega arith in rw z
  get_or-append_right (x ∷ xs) ys i zero d e = absurd (omega arith)
  get_or-append_right (x ∷ xs) ys i (suc n) d e =
      let z : suc n + i ≡ suc (n + i) = omega arith in
      rw z (get_or-append_right xs ys i n d (omega arith))

  pub get_or-take :
      (n : ℕ) (xs : List A) (i : ℕ) (d : A) → i < n → get_or (take n xs) i d ≡ get_or xs i d
  get_or-take zero xs i d h = elim h [ ]
  get_or-take (suc n) [] i d h = refl
  get_or-take (suc n) (x ∷ xs) zero d h = refl
  get_or-take (suc n) (x ∷ xs) (suc i) d h = get_or-take n xs i d (omega arith)

  pub get_or-drop :
      (n : ℕ) (xs : List A) (i : ℕ) (d : A) → get_or (drop n xs) i d ≡ get_or xs (n + i) d
  get_or-drop zero xs i d = let z : 0 + i ≡ i = omega arith in rw z
  get_or-drop (suc n) [] i d = refl
  get_or-drop (suc n) (x ∷ xs) i d =
      let z : suc n + i ≡ suc (n + i) = omega arith in rw z (get_or-drop n xs i d)

pub length-fresh_bytes : (fresh : ℕ → ℕ) (i n : ℕ) → length (fresh_bytes fresh i n) ≡ n
unfolding fresh_bytes
length-fresh_bytes fresh i zero = refl
length-fresh_bytes fresh i (suc n) = ap suc (length-fresh_bytes fresh (suc i) n)

pub length-write_at :
    (b : Bytes) (i : ℕ) (got : Bytes)
    → i + length got ≤ length b
    → length (write_at b i got) ≡ length b
unfolding write_at
length-write_at b i got h = omega (
  arith,
  length-append (take i b) (got ++ drop (i + length got) b),
  length-append got (drop (i + length got) b),
  length-take i b,
  length-drop (i + length got) b,
)

pub write_at_before :
    (b : Bytes) (i : ℕ) (got : Bytes) (j : ℕ)
    → i ≤ length b
    → j < i
    → get_or (write_at b i got) j 0 ≡ get_or b j 0
unfolding write_at
write_at_before b i got j h k =
    get_or-append_left (take i b) _ j 0 (omega (arith, length-take i b)) ∙ get_or-take i b j 0 k

pub write_at_within :
    (b : Bytes) (i : ℕ) (got : Bytes) (j : ℕ)
    → i ≤ length b
    → j < length got
    → get_or (write_at b i got) (i + j) 0 ≡ get_or got j 0
unfolding write_at
write_at_within b i got j h k =
    get_or-append_right (take i b) _ j i 0 (omega (arith, length-take i b))
    ∙ get_or-append_left got _ j 0 k

-- Growing the block takes one block if there was none, and gives it back where `realloc` is refused.
grow_live :
    (fresh : ℕ → ℕ) (chunk : ℕ) (b : Option Bytes) (h : Heap)
    → block b ≤ h.live
    → (grow fresh chunk b h).1.live + block b ≡ h.live + block (grow fresh chunk b h).0
unfolding grow realloc free malloc
grow_live fresh chunk none h k = ground arith
grow_live fresh chunk (some b) h k = ground arith

grow_plan :
    (fresh : ℕ → ℕ) (chunk : ℕ) (b : Option Bytes) (plan : List Bool) (live : ℕ)
    → has_room plan ≡ true
    → (has_room (grow fresh chunk b (record { plan = plan; live = live })).1.plan ≡ true)
      × ((grow fresh chunk b (record { plan = plan; live = live })).0
          ≡ some (bytes b ++ fresh_bytes fresh (length (bytes b)) chunk))
unfolding grow realloc free malloc
grow_plan fresh chunk none [] live room = (refl, refl)
grow_plan fresh chunk (some b) [] live room = (refl, refl)
grow_plan fresh chunk none (true ∷ plan) live room = (room, refl)
grow_plan fresh chunk (some b) (true ∷ plan) live room = (room, refl)
grow_plan fresh chunk none (false ∷ plan) live room = cc
grow_plan fresh chunk (some b) (false ∷ plan) live room = cc

pub grow_room :
    (fresh : ℕ → ℕ) (chunk : ℕ) (b : Option Bytes) (h : Heap)
    → has_room h.plan ≡ true
    → (has_room (grow fresh chunk b h).1.plan ≡ true)
      × ((grow fresh chunk b h).0 ≡ some (bytes b ++ fresh_bytes fresh (length (bytes b)) chunk))
grow_room fresh chunk b h room = grow_plan fresh chunk b h.plan h.live room

-- The rest of a round, behind `realloc`.
unfoldable pub rest : (ℕ → ℕ) → ℕ → ℕ → Option Bytes → ℕ → Bytes → M (Option Bytes)
rest fresh chunk fuel none index file h = (none, h)
rest fresh chunk fuel (some b) index file h =
    let b' = write_at b index (take chunk file) in
    let more = read_chunks fresh chunk fuel (some b') (index + (chunk - 1)) (drop chunk file) h in
    if ltb (length (take chunk file)) chunk then (some b', h) else more

pub read_chunks-rest :
    (fresh : ℕ → ℕ) (chunk fuel : ℕ) (b : Option Bytes) (index : ℕ) (file : Bytes) (h : Heap)
    → read_chunks fresh chunk (suc fuel) b index file h
      ≡ rest fresh chunk fuel (grow fresh chunk b h).0 index file (grow fresh chunk b h).1
unfolding read_chunks rest
read_chunks-rest fresh chunk fuel b index file h = ground arith

-- What the loop does with memory, from some fuel on.
abbrev Counts : (ℕ → ℕ) → ℕ → ℕ → Type 0
Counts fresh chunk fuel =
    (b : Option Bytes) (index : ℕ) (file : Bytes) (h : Heap)
    → block b ≤ h.live
    → (read_chunks fresh chunk fuel b index file h).1.live + block b
      ≡ h.live + block (read_chunks fresh chunk fuel b index file h).0

abbrev LeavesRoom : (ℕ → ℕ) → ℕ → ℕ → Type 0
LeavesRoom fresh chunk fuel =
    (b : Option Bytes) (index : ℕ) (file : Bytes) (h : Heap)
    → has_room h.plan ≡ true
    → has_room (read_chunks fresh chunk fuel b index file h).1.plan ≡ true

rest_live :
    (fresh : ℕ → ℕ) (chunk fuel : ℕ) (b : Option Bytes) (index : ℕ) (file : Bytes) (h : Heap)
    → Counts fresh chunk fuel
    → block b ≤ h.live
    → (rest fresh chunk fuel b index file h).1.live + block b
      ≡ h.live + block (rest fresh chunk fuel b index file h).0
unfolding rest
rest_live fresh chunk fuel none index file h c k = refl
rest_live fresh chunk fuel (some b) index file h c k =
    let more =
      c (some (write_at b index (take chunk file))) (index + (chunk - 1)) (drop chunk file) h k in
    ground (arith, more)

rest_room :
    (fresh : ℕ → ℕ) (chunk fuel : ℕ) (b : Option Bytes) (index : ℕ) (file : Bytes) (h : Heap)
    → LeavesRoom fresh chunk fuel
    → has_room h.plan ≡ true
    → has_room (rest fresh chunk fuel b index file h).1.plan ≡ true
unfolding rest
rest_room fresh chunk fuel none index file h c k = k
rest_room fresh chunk fuel (some b) index file h c k =
    let more =
      c (some (write_at b index (take chunk file))) (index + (chunk - 1)) (drop chunk file) h k in
    ground (arith, more)

read_chunks_live : (fresh : ℕ → ℕ) (chunk fuel : ℕ) → Counts fresh chunk fuel
read_chunks_live fresh chunk zero b index file h k = unfold read_chunks in refl
read_chunks_live fresh chunk (suc fuel) b index file h k =
    let (b', h') = grow fresh chunk b h in
    let grown = grow_live fresh chunk b h k in
    let more = rest_live fresh chunk fuel b' index file h' (read_chunks_live fresh chunk fuel) in
    rw (read_chunks-rest fresh chunk fuel b index file h) (omega (arith, more (omega arith)))

read_chunks_room : (fresh : ℕ → ℕ) (chunk fuel : ℕ) → LeavesRoom fresh chunk fuel
read_chunks_room fresh chunk zero b index file h k = unfold read_chunks in k
read_chunks_room fresh chunk (suc fuel) b index file h k =
    rw (read_chunks-rest fresh chunk fuel b index file h) (
      rest_room fresh chunk fuel _ index file _ (read_chunks_room fresh chunk fuel)
        (grow_room fresh chunk b h k).0)

pub read_buffer_live :
    (fresh : ℕ → ℕ) (file : Bytes) (h : Heap)
    → (read_buffer fresh file h).1.live ≡ h.live + block (read_buffer fresh file h).0
unfolding read_buffer
read_buffer_live fresh file h = omega (
  arith,
  read_chunks_live fresh sizeof_file_buffer (suc (length file)) none 0 file h (omega arith),
)

pub read_buffer_room :
    (fresh : ℕ → ℕ) (file : Bytes) (h : Heap)
    → has_room h.plan ≡ true
    → has_room (read_buffer fresh file h).1.plan ≡ true
unfolding read_buffer
read_buffer_room fresh file h = read_chunks_room fresh _ _ none 0 file h
