-- ===== src/Import/Memory.antt =====
-- The memory of the importer as a whole: src/import.c, lines 109-245.
use ipfix.Common.{
  ◌↔◌, ℕ, ◌+◌, Bool, true, false, List, [], ◌∷◌, Option, none, some, ◌≡◌, ◌≢◌, ◌⊎◌, inl, inr, refl,
  arith, All, Option-cases, ◌==◌, if◌then◌else◌, codes,
}
use ipfix.Data.{DataRecord, Store}
use ipfix.Heap.{Heap, M, free, has_room}
use ipfix.Import.Buffer.{read_buffer, c_string}
use ipfix.Import.Buffer.Loop.{block, read_buffer_live, read_buffer_room}
use ipfix.Import.Reader.{
  Records, read_tokens, finish_tokens, import_text, import_block, import_buffer, import_stream,
  token_trim, is_data, free_copy,
}
use ipfix.Import.Parts.{Keeps, split_Keeps, free_Owns, read_data-Owns}
use ipfix.Import.Result.{Owns, OwnsAll, Owns-taken, empty_Owns}
use ipfix.Text.Roomy.{string_trim_copy_room}
use ipfix.Text.Tokens.{owned}
use ipfix.Text.Trim.{string_trim_copy, string_trim_copy_live}
use ipfix.Text.{Bytes, StringList}
use mathlib.Core.Option

copy_live :
    (t : Bytes) (h : Heap)
    → (string_trim_copy (some t) (some token_trim) h).1.live
      ≡ h.live + block (string_trim_copy (some t) (some token_trim) h).0
copy_live t h = ground (arith, string_trim_copy_live t (some token_trim) h)

module _ (full : Bool) where
  copy_Owns :
      (t : Bytes) (base : ℕ) (r : Records) (h : Heap)
      → Owns full base r h
      → Owns full
          (base + block (string_trim_copy (some t) (some token_trim) h).0)
          r
          (string_trim_copy (some t) (some token_trim) h).1
  copy_Owns t base r h o =
      Owns-taken full base _ r h _ o (omega (arith, copy_live t h))
        (λ room. string_trim_copy_room t token_trim h room)

  free_copy-Owns :
      (copy : Option Bytes) (base : ℕ) (r : Records) (h : Heap)
      → Owns full (base + block copy) r h
      → Owns full base r (free_copy copy h).1
  unfolding free
  free_copy-Owns none base r h o =
      Owns-taken full (base + 0) base r h h o (omega arith) (λ room. room)
  free_copy-Owns (some c) base r h o =
      Owns-taken full (base + 1) base r h (free_copy (some c) h).1 o (let k = o.kept in omega arith)
        (λ room. room)

  if_Owns :
      (b : Bool) (base : ℕ) (m k : M Records) (h : Heap)
      → OwnsAll full base (m h)
      → OwnsAll full base (k h)
      → OwnsAll full base ((if b then m else k) h)
  if_Owns true base m k h p q = p
  if_Owns false base m k h p q = q

  read_tokens-Owns : (tokens : List Bytes) → Keeps full (read_tokens tokens)
  unfolding read_tokens
  read_tokens-Owns [] base r h o = o
  read_tokens-Owns (token ∷ []) base r h o =
      free_copy-Owns (string_trim_copy (some token) (some token_trim) h).0 base r _
        (copy_Owns token base r h o)
  read_tokens-Owns (token ∷ value ∷ tokens) base r h o =
      let (copy, h1) = string_trim_copy (some token) (some token_trim) h in
      let start = copy_Owns token base r h o in
      if_Owns (is_data copy) base _ _ h1
        (read_tokens-Owns tokens base _ _
          (free_copy-Owns copy base _ _ (read_data-Owns full value (base + block copy) r h1 start)))
        (read_tokens-Owns (value ∷ tokens) base _ _ (free_copy-Owns copy base r h1 start))

  finish_tokens-Owns :
      (l : Option StringList) (base : ℕ) (r : Records) (h : Heap)
      → Owns full (base + owned l) r h
      → OwnsAll full base (finish_tokens l r h)
  unfolding finish_tokens
  finish_tokens-Owns none base r h o =
      Owns-taken full (base + 0) base r h h o (omega arith) (λ room. room)
  finish_tokens-Owns (some l) base r h o =
      free_Owns full (some l) base _ _ (read_tokens-Owns l.items (base + owned (some l)) r h o)

  import_text-Owns : (text : Bytes) → Keeps full (import_text text)
  unfolding import_text
  import_text-Owns text base r h o =
      split_Keeps full text (codes "[]") finish_tokens finish_tokens-Owns base r h o

  -- What a reader of the text leaves, unless it went past the end of the block.
  OwnsSome : ℕ → Option Records × Heap → Type 0
  OwnsSome base (none, h) = Unit
  OwnsSome base (some r, h) = OwnsAll full base (r, h)

  import_block-Owns :
      (text : Option Bytes) (b : Bytes) (base : ℕ) (r : Records) (h : Heap)
      → Owns full (base + 1) r h
      → OwnsSome base (import_block text r h)
  unfolding import_block OwnsSome
  import_block-Owns none b base r h o = tt
  import_block-Owns (some text) b base r h o =
      free_copy-Owns (some b) base _ _ (import_text-Owns text (base + 1) r h o)

  import_buffer-Owns :
      (buffer : Option Bytes) (base : ℕ) (r : Records) (h : Heap)
      → Owns full (base + block buffer) r h
      → OwnsSome base (import_buffer buffer r h)
  unfolding import_buffer OwnsSome
  import_buffer-Owns none base r h o =
      Owns-taken full (base + 0) base r h h o (omega arith) (λ room. room)
  import_buffer-Owns (some b) base r h o = import_block-Owns (c_string b) b base r h o

  read_buffer-Owns :
      (fresh : ℕ → ℕ) (file : Bytes) (base : ℕ) (r : Records) (h : Heap)
      → Owns full base r h
      → Owns full (base + block (read_buffer fresh file h).0) r (read_buffer fresh file h).1
  read_buffer-Owns fresh file base r h o =
      Owns-taken full base _ r h _ o (omega (arith, read_buffer_live fresh file h))
        (λ room. read_buffer_room fresh file h room)

  import_stream-Owns :
      (fresh : ℕ → ℕ) (file : Option Bytes) (base : ℕ) (r : Records) (h : Heap)
      → Owns full base r h
      → OwnsSome base (import_stream fresh file r h)
  unfolding import_stream
  import_stream-Owns fresh none base r h o = unfold OwnsSome in o
  import_stream-Owns fresh (some file) base r h o =
      import_buffer-Owns _ base r _ (read_buffer-Owns fresh file base r h o)

byte_none :
    (c : ℕ) (rest : Option Bytes)
    → (if c == 0 then some [] else Option.map (λ (t : Bytes). c ∷ t) rest) ≡ none
    → (c ≢ 0) × (rest ≡ none)
byte_none c none e = (ground arith, refl)
byte_none c (some t) e = ground arith

c_string-none : (s : Bytes) → c_string s ≡ none → All (λ c. c ≢ 0) s
unfolding c_string
c_string-none [] e = tt
c_string-none (c ∷ s) e =
    let (other, more) = byte_none c (c_string s) e in (other, c_string-none s more)

-- The file is read into a block without a NUL.
abbrev pub Unended : (ℕ → ℕ) → Option Bytes → Heap → Type 0
Unended fresh none h = ⊥
Unended fresh (some file) h =
    (block : Bytes) × ((read_buffer fresh file h).0 ≡ some block) × All (λ c. c ≢ 0) block

import_buffer-none :
    (buffer : Option Bytes) (r : Records) (h : Heap)
    → (import_buffer buffer r h).0 ≡ none
    → (b : Bytes) × (buffer ≡ some b) × All (λ c. c ≢ 0) b
unfolding import_buffer import_block
import_buffer-none none r h e = cc
import_buffer-none (some b) r h e = elim (Option-cases (c_string b)) [
  | inl f ↦ (b, refl, c_string-none b f)
  | inr (t, f) ↦ (let e' = (rw f at e) in cc)
]

import_stream-none :
    (fresh : ℕ → ℕ) (file : Option Bytes) (r : Records) (h : Heap)
    → (import_stream fresh file r h).0 ≡ none
    → Unended fresh file h
unfolding import_stream
import_stream-none fresh none r h e = cc
import_stream-none fresh (some file) r h e =
    import_buffer-none (read_buffer fresh file h).0 r (read_buffer fresh file h).1 e

c_string_unended : (s : Bytes) → All (λ c. c ≢ 0) s → c_string s ≡ none
unfolding c_string
c_string_unended [] k = refl
c_string_unended (c ∷ s) k =
    let other = k.0 in
    let plain : (c == 0) ≡ false = ground arith in rw (plain, c_string_unended s k.1)

import_stream-Unended :
    (fresh : ℕ → ℕ) (file : Option Bytes) (r : Records) (h : Heap)
    → Unended fresh file h
    → (import_stream fresh file r h).0 ≡ none
unfolding import_stream import_buffer import_block
import_stream-Unended fresh none r h u = elim u [ ]
import_stream-Unended fresh (some file) r h (b, got, k) = rw (got, c_string_unended b k)

import_outcome :
    (full : Bool) (base : ℕ) (out : Option Records × Heap) (U : Type 0)
    → OwnsSome full base out
    → (out.0 ≡ none) ↔ U
    → ((out.0 ≡ none) × U) ⊎ ((r : Records) × (out.0 ≡ some r) × OwnsAll full base (r, out.1) × ¬ U)
unfolding OwnsSome
import_outcome full base (none, h) U o u = inl (refl, u.0 refl)
import_outcome full base (some r, h) U o u = inr (r, refl, o, λ x. let e = u.1 x in cc)

-- For every file, NULL included, and every heap: where the file was read into a block without a NUL, and only
-- there, `nvipfix_import` reads past the end of the block. Else what it returns is NULL or a list whose
-- links are right in both directions, over the distinct addresses that were handed out for its records; the
-- blocks of the list are among the live ones, and if no call of `malloc` is refused they are the only ones
-- that were not live before, so that the buffer, the tokens and their copies are all given back.
pub import_stream-OwnsAll :
    (fresh : ℕ → ℕ) (file : Option Bytes) (σ : Store DataRecord) (n : ℕ) (h : Heap)
    → let out = import_stream fresh file (record { list = none; store = σ; next = n }) h in
      ((out.0 ≡ none) × Unended fresh file h)
      ⊎ ((r : Records) × (out.0 ≡ some r)
          × OwnsAll (has_room h.plan) h.live (r, out.1)
          × ¬ Unended fresh file h)
import_stream-OwnsAll fresh file σ n h =
    let empty : Records = record { list = none; store = σ; next = n } in
    import_outcome (has_room h.plan) h.live (import_stream fresh file empty h)
      (Unended fresh file h)
      (import_stream-Owns (has_room h.plan) fresh file h.live empty h (empty_Owns σ n h))
      (
        (λ e. import_stream-none fresh file empty h e),
        λ u. import_stream-Unended fresh file empty h u,
      )
