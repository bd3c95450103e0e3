-- ===== src/Import/Buffer/Kept.antt =====
-- The block that holds the file: src/import.c, lines 114-133.
use ipfix.Common.{
  ℕ, zero, suc, ◌+◌, ◌-◌, ◌/◌, ◌≤◌, ◌<◌, inl, inr, true, [], ◌∷◌, ◌++◌, Option, none, some, ◌≡◌,
  refl, ap, ◌∙◌, ltb, ltb→lt, length, length-append, length-take, length-drop, take, drop, get_or,
  arith, Bool-cases,
}
use ipfix.Heap.{Heap, has_room}
use ipfix.Import.Buffer.{sizeof_file_buffer, fresh_bytes, write_at, read_chunks, read_buffer}
use ipfix.Import.Buffer.Loop.{
  bytes, rest, get_or-append_left, get_or-take, get_or-drop, length-fresh_bytes, length-write_at,
  write_at_before, write_at_within, grow_room, read_chunks-rest,
}
use ipfix.Text.{Bytes}

-- The `lost` bytes of a file of `n` bytes are the last ones of its full chunks.
abbrev pub kept : ℕ → ℕ
kept n = n - n / 65536

-- The block that a round leaves: what it held, and then the file but for the lost bytes.
record Kept (old : Bytes) (index : ℕ) (file : Bytes) (out : Option Bytes) : Type 0 where
  block : Bytes
  got : out ≡ some block
  before : (j : ℕ) → j < index → get_or block j 0 ≡ get_or old j 0
  within :
      (j : ℕ) → j < kept (length file) → get_or block (index + j) 0 ≡ get_or file (j + j / 65535) 0
  long : index + kept (length file) ≤ length block

module _ (chunk : ℕ) (size : chunk ≡ 65536) where
  last-Kept :
      (old b : Bytes) (index : ℕ) (file : Bytes)
      → ((j : ℕ) → j < index → get_or b j 0 ≡ get_or old j 0)
      → index + chunk ≤ length b
      → length file < chunk
      → Kept old index file (some (write_at b index (take chunk file)))
  last-Kept old b index file same room short =
      let n : length (take chunk file) ≡ length file = omega (arith, length-take chunk file) in
      record {
        block = write_at b index (take chunk file);
        got = refl;
        before = λ j k. write_at_before b index (take chunk file) j (omega arith) k ∙ same j k;
        within = λ j k.
            let z : j + j / 65535 ≡ j = omega arith in
            rw z (
              write_at_within b index (take chunk file) j (omega arith) (omega arith)
              ∙ get_or-take chunk file j 0 (omega arith));
        long = omega (arith, length-write_at b index (take chunk file) (omega arith));
      }

  -- A round that has read a whole chunk, with the rounds behind it.
  more-Kept :
      (old b : Bytes) (index : ℕ) (file : Bytes) (out : Option Bytes)
      → ((j : ℕ) → j < index → get_or b j 0 ≡ get_or old j 0)
      → index + chunk ≤ length b
      → chunk ≤ length file
      → Kept (write_at b index (take chunk file)) (index + (chunk - 1)) (drop chunk file) out
      → Kept old index file out
  more-Kept old b index file out same room full k =
      let n : length (take chunk file) ≡ chunk = omega (arith, length-take chunk file) in
      let m : length (drop chunk file) ≡ length file - 65536 =
        omega (arith, length-drop chunk file) in
      record {
        block = k.block;
        got = k.got;
        before = λ j h.
            k.before j (omega arith)
            ∙ write_at_before b index (take chunk file) j (omega arith) h
            ∙ same j h;
        within = λ j h. elim (Bool-cases (ltb j 65535)) [
          | inl near ↦
              let close : j < 65535 = ltb→lt j 65535 near in
              let z : j + j / 65535 ≡ j = omega arith in
              rw z (
                k.before (index + j) (omega arith)
                ∙ write_at_within b index (take chunk file) j (omega arith) (omega arith)
                ∙ get_or-take chunk file j 0 (omega arith))
          | inr far ↦
              let i : ℕ = j - 65535 in
              let apart : 65535 ≤ j = ground arith in
              let z : index + j ≡ index + (chunk - 1) + i = omega arith in
              let w : chunk + (i + i / 65535) ≡ j + j / 65535 = omega arith in
              rw z (
                k.within i (omega arith)
                ∙ get_or-drop chunk file (i + i / 65535) 0
                ∙ ap (λ x. get_or file x 0) w)
        ];
        long = (let l = k.long in omega arith);
      }

  read_chunks-Kept :
      (fresh : ℕ → ℕ) (fuel : ℕ) (old : Option Bytes) (index : ℕ) (file : Bytes) (h : Heap)
      → has_room h.plan ≡ true
      → index ≤ length (bytes old)
      → length file < fuel
      → Kept (bytes old) index file (read_chunks fresh chunk fuel old index file h).0
  unfolding rest
  read_chunks-Kept fresh zero old index file h room i f = elim f [ ]
  read_chunks-Kept fresh (suc fuel) old index file h room i f =
      let b : Bytes = bytes old ++ fresh_bytes fresh (length (bytes old)) chunk in
      let size_b : length b ≡ length (bytes old) + chunk = omega (
        arith,
        length-append (bytes old) (fresh_bytes fresh (length (bytes old)) chunk),
        length-fresh_bytes fresh (length (bytes old)) chunk,
      ) in
      let (room', grown) = grow_room fresh chunk old h room in
      let same : (j : ℕ) → j < index → get_or b j 0 ≡ get_or (bytes old) j 0 =
        λ j k. get_or-append_left (bytes old) _ j 0 (omega arith) in
      rw (read_chunks-rest fresh chunk fuel old index file h, grown)
        (elim (Bool-cases (ltb (length (take chunk file)) chunk)) [
          | inl short ↦ rw short (
              last-Kept (bytes old) b index file same (omega arith)
                (ground (arith, length-take chunk file)))
          | inr full ↦
              let whole : chunk ≤ length file = ground (arith, length-take chunk file) in
              rw full (
                more-Kept (bytes old) b index file _ same (omega arith) whole (
                  read_chunks-Kept fresh fuel (some (write_at b index (take chunk file)))
                    (index + (chunk - 1)) (drop chunk file) _ room'
                    (omega
                      (arith, length-write_at b index (take chunk file), length-take chunk file))
                    (omega (arith, length-drop chunk file))))
        ])

-- `f 0`, `f 1`, …, `f (n - 1)`
abbrev pub tabulate : ℕ → (ℕ → ℕ) → Bytes
tabulate zero f = []
tabulate (suc n) f = f 0 ∷ tabulate n (λ j. f (suc j))

take-tabulate :
    (n : ℕ) (xs : Bytes) (f : ℕ → ℕ)
    → n ≤ length xs
    → ((j : ℕ) → j < n → get_or xs j 0 ≡ f j)
    → take n xs ≡ tabulate n f
take-tabulate zero xs f h k = refl
take-tabulate (suc n) [] f h k = elim h [ ]
take-tabulate (suc n) (x ∷ xs) f h k =
    rw
      (
        k 0 (omega arith),
        take-tabulate n xs (λ j. f (suc j)) (omega arith) (λ j h'. k (suc j) (omega arith)),
      )
      refl

-- The bytes of a file that the block keeps: byte `j` is byte `j + j / 65535` of the file.
abbrev pub kept_bytes : Bytes → Bytes
kept_bytes file = tabulate (kept (length file)) (λ j. get_or file (j + j / 65535) 0)

-- For every file and every content of fresh memory, if no call of `realloc` is refused: the loop ends and
-- leaves a block that starts with the file without the last byte of each full chunk of 65536 bytes, so that a
-- file of less than 65536 bytes is held whole.
pub read_buffer-kept :
    (fresh : ℕ → ℕ) (file : Bytes) (h : Heap)
    → has_room h.plan ≡ true
    → (block : Bytes) × ((read_buffer fresh file h).0 ≡ some block)
      × (take (kept (length file)) block ≡ kept_bytes file)
unfolding read_buffer
read_buffer-kept fresh file h room =
    let k =
      read_chunks-Kept sizeof_file_buffer refl fresh (suc (length file)) none 0 file h room
        (omega arith) (omega arith) in
    (
      k.block,
      k.got,
      take-tabulate (kept (length file)) k.block (λ j. get_or file (j + j / 65535) 0)
          (let l = k.long in omega arith)
          (λ j small. let z : 0 + j ≡ j = omega arith in rw z at (k.within j small)),
    )
