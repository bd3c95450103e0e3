-- ===== src/Import/Buffer/Short.antt =====
-- A file that fits into one chunk: src/import.c, lines 114-137.
use ipfix.Common.{
  take_all, lt→ltb, All, ◌≢◌, ℕ, zero, suc, ◌+◌, ◌<◌, true, [], ◌∷◌, ◌++◌, none, some, ◌≡◌, refl,
  ap, ◌∙◌, length, drop, arith,
}
use ipfix.Heap.{Heap, has_room}
use ipfix.Import.Buffer.{
  sizeof_file_buffer, fresh_bytes, write_at, c_string, read_chunks, read_buffer,
}
use ipfix.Import.Buffer.Loop.{rest, grow_room, read_chunks-rest}
use ipfix.Text.{Bytes}

drop-fresh_bytes :
    (fresh : ℕ → ℕ) (i n m : ℕ)
    → n < m
    → (rest : Bytes) × (drop n (fresh_bytes fresh i m) ≡ fresh (i + n) ∷ rest)
unfolding fresh_bytes
drop-fresh_bytes fresh i n zero h = elim h [ ]
drop-fresh_bytes fresh i zero (suc m) h =
    (fresh_bytes fresh (suc i) m, let z : i + 0 ≡ i = omega arith in rw z refl)
drop-fresh_bytes fresh i (suc n) (suc m) h =
    let (rest, e) = drop-fresh_bytes fresh (suc i) n m (omega arith) in
    let z : suc i + n ≡ i + suc n = omega arith in (rest, e ∙ ap (λ k. fresh k ∷ rest) z)

-- A file that fits into one chunk stands before a fresh byte of the block.
pub read_chunks_short :
    (fresh : ℕ → ℕ) (chunk fuel : ℕ) (file : Bytes) (h : Heap)
    → has_room h.plan ≡ true
    → length file < chunk
    → (more : Bytes) × ((read_chunks fresh chunk (suc fuel) none 0 file h).0
        ≡ some (file ++ (fresh (length file) ∷ more)))
unfolding rest write_at
read_chunks_short fresh chunk fuel file h room short =
    let (room', grown) = grow_room fresh chunk none h room in
    let whole = take_all chunk file (omega arith) in
    let (more, e) = drop-fresh_bytes fresh 0 (length file) chunk short in
    (
      more,
      rw
          (
            read_chunks-rest fresh chunk fuel none 0 file h,
            grown,
            whole,
            lt→ltb (length file) chunk short,
          )
          (let z : 0 + length file ≡ length file = omega arith in
            rw z (ap (λ (x : Bytes). some (file ++ x)) (rw z at e))),
    )

c_string_end :
    (s : Bytes) (z : ℕ) (more : Bytes)
    → z ≡ 0
    → All (λ c. c ≢ 0) s
    → c_string (s ++ (z ∷ more)) ≡ some s
unfolding c_string
c_string_end [] z more e k = ground arith
c_string_end (c ∷ s) z more e k =
    let ih = c_string_end s z more e k.1 in let ne = k.0 in rw ih (ground arith)

-- A NUL behind a file of less than 65536 bytes ends the text of the block.
pub c_string-read_buffer :
    (fresh : ℕ → ℕ) (file : Bytes) (h : Heap)
    → has_room h.plan ≡ true
    → length file < 65536
    → fresh (length file) ≡ 0
    → All (λ c. c ≢ 0) file
    → (block : Bytes) × ((read_buffer fresh file h).0 ≡ some block) × (c_string block ≡ some file)
unfolding read_buffer
c_string-read_buffer fresh file h room short end text =
    let (more, e) = read_chunks_short fresh sizeof_file_buffer (length file) file h room short in
    (file ++ (fresh (length file) ∷ more), e, c_string_end file (fresh (length file)) more end text)
