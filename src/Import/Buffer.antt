-- ===== src/Import/Buffer.antt =====
-- How `nvipfix_import` reads the file into one growing block: src/import.c, lines 113-137.
pub mod Loop
pub mod Kept
pub mod Short
use ipfix.Common.{
  ℕ, zero, suc, ◌+◌, ◌-◌, ◌*◌, ◌≤◌, ◌<◌, Bool, true, false, not, List, [], ◌∷◌, ◌++◌, Option, none,
  some, ◌≡◌, refl, ltb, ◌==◌, if◌then◌else◌, length, take, drop, arith,
}
use ipfix.Heap.{Heap, M, ◌>>=◌, ◌>>◌, pure, malloc, realloc, free, has_room}
use ipfix.Text.{Bytes}
use mathlib.Core.Option

-- `SizeofFileBuffer`
abbrev pub sizeof_file_buffer : ℕ
sizeof_file_buffer = 64 * 1024

-- The bytes that `n` fresh bytes of memory at offset `i` of the block hold.
pub fresh_bytes : (ℕ → ℕ) → ℕ → ℕ → Bytes
fresh_bytes fresh i zero = []
fresh_bytes fresh i (suc n) = fresh i ∷ fresh_bytes fresh (suc i) n

-- `fread( buffer + i, ... )`, where the bytes `got` were read.
pub write_at : Bytes → ℕ → Bytes → Bytes
write_at buffer i got = take i buffer ++ (got ++ drop (i + length got) buffer)

module _ (fresh : ℕ → ℕ) (chunk : ℕ) where
  -- `realloc( buffer, bufferSize )`, which is `malloc` for NULL.
  pub grow : Option Bytes → M (Option Bytes)
  grow none = do got ← malloc; pure (if got then some (fresh_bytes fresh 0 chunk) else none)
  grow (some buffer) = do
    got ← realloc
    if got
        then pure (some (buffer ++ fresh_bytes fresh (length buffer) chunk))
        else (do free 1; pure none)

  -- The `do` loop. `feof` holds once `fread` has read less than it was asked for.
  unfoldable pub read_chunks : ℕ → Option Bytes → ℕ → Bytes → M (Option Bytes)
  unfolding grow write_at
  read_chunks zero buffer index file = pure buffer
  read_chunks (suc fuel) buffer index file = do
    grown ← grow buffer
    elim grown [
      | none ↦ pure none
      | some b ↦
          (let got = take chunk file in
            let b' = write_at b index got in
            let more = read_chunks fuel (some b') (index + (chunk - 1)) (drop chunk file) in
            if ltb (length got) chunk then pure (some b') else more)
    ]

-- Every round but the last reads a whole chunk, so one round more than the file has bytes is enough.
unfoldable pub read_buffer : (ℕ → ℕ) → Bytes → M (Option Bytes)
read_buffer fresh file = read_chunks fresh sizeof_file_buffer (suc (length file)) none 0 file

-- The text of a block: the bytes before the first NUL; `none` where a reader of the text goes past the
-- end of the block.
unfoldable pub c_string : Bytes → Option Bytes
c_string [] = none
c_string (c ∷ s) =
    let rest = c_string s in if c == 0 then some [] else Option.map (λ (t : Bytes). c ∷ t) rest
