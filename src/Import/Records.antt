-- ===== src/Import/Records.antt =====
-- The list that a data file gives: src/import.c, lines 135-229.
use mathlib.Core.Path.{subst}
use ipfix.Common.{
  length, arith, ◌≢◌, ◌<◌, ℕ, ◌<◌, Bool, true, false, List, [], ◌∷◌, none, some, ◌≡◌, ◌≢◌, refl,
  sym, ap, ◌∙◌, All, codes,
}
use ipfix.Data.{DataRecord, Store}
use ipfix.Heap.{Heap, malloc, realloc, free, has_room}
use ipfix.Import.Fold.{IsRecordText, record_of, read_record_fold}
use ipfix.Import.{zero_record}
use ipfix.Import.Reader.{
  Records, read_record, read_records, finish_data, read_data, read_tokens, finish_tokens,
  import_text, import_block, import_buffer, import_stream, token_trim,
}
use ipfix.Import.Buffer.{c_string, read_buffer}
use ipfix.Import.Buffer.Loop.{read_buffer_room}
use ipfix.Import.Buffer.Short.{c_string-read_buffer}
use ipfix.Import.Result.{added}
use ipfix.Import.Listing.{Lists, add_all, add_all-Lists}
use ipfix.Text.Fields.{pieces}
use ipfix.Text.Join.{string_split_room, string_split_roomy}
use ipfix.Text.Roomy.{Roomy-room, string_list_free-Roomy, string_trim_copy_room}
use ipfix.Text.Tokens.{extend}
use ipfix.Text.Trim.{string_trim, string_trim_copy}
use ipfix.Text.{Bytes, contains, string_split}

abbrev pub Items : Type 0
Items = List (Bytes × Bytes)

-- The texts of records that give these items, one by one.
abbrev pub AreRecordTexts : List Bytes → List Items → Type 0
AreRecordTexts [] [] = Unit
AreRecordTexts (v ∷ vs) (fs ∷ fss) = IsRecordText v fs × AreRecordTexts vs fss
AreRecordTexts [] (fs ∷ fss) = ⊥
AreRecordTexts (v ∷ vs) [] = ⊥

abbrev pub records_of : List Items → List DataRecord
records_of [] = []
records_of (fs ∷ fss) = record_of fs zero_record ∷ records_of fss

read_records_fold :
    (vs : List Bytes) (fss : List Items) (r : Records) (h : Heap)
    → AreRecordTexts vs fss
    → has_room h.plan ≡ true
    → ((read_records vs r h).0 ≡ add_all (records_of fss) r)
      × (has_room (read_records vs r h).1.plan ≡ true)
unfolding read_records add_all
read_records_fold [] [] r h k room = (refl, room)
read_records_fold [] (fs ∷ fss) r h k room = elim k [ ]
read_records_fold (v ∷ vs) [] r h k room = elim k [ ]
read_records_fold (v ∷ vs) (fs ∷ fss) r h k room =
    let (e, room1) = read_record_fold v fs r h k.0 room in
    let h1 = (read_record v r h).1 in
    subst
      (λ x.
        ((read_records vs x h1).0 ≡ add_all (records_of (fs ∷ fss)) r)
        × (has_room (read_records vs x h1).1.plan ≡ true))
      (sym e) (read_records_fold vs fss (added (record_of fs zero_record) r) h1 k.1 room1)

read_data_fold :
    (text v : Bytes) (vs : List Bytes) (fss : List Items) (r : Records) (h : Heap)
    → pieces (contains (codes "{")) text ≡ v ∷ vs
    → AreRecordTexts (v ∷ vs) fss
    → has_room h.plan ≡ true
    → ((read_data text r h).0 ≡ add_all (records_of fss) r)
      × (has_room (read_data text r h).1.plan ≡ true)
unfolding read_data finish_data
read_data_fold text v vs fss r h e k room =
    let (h0, h1) = string_split text (codes "{") h in
    let split = string_split_room text (codes "{") h room ∙ ap (extend none) e in
    let (same, room1) =
      read_records_fold (v ∷ vs) fss r h1 k (string_split_roomy text (codes "{") h room) in
    rw split (same, Roomy-room _ (string_list_free-Roomy (extend none (v ∷ vs))) _ room1)

copy_plan :
    (t set : Bytes) (live : ℕ) (plan : List Bool)
    → has_room plan ≡ true
    → (string_trim_copy (some t) (some set) (record { plan = plan; live = live })).0
      ≡ some (string_trim t (some set))
unfolding string_trim_copy malloc realloc free
copy_plan t set live [] room = refl
copy_plan t set live (true ∷ []) room = refl
copy_plan t set live (true ∷ true ∷ plan) room = refl
copy_plan t set live (true ∷ false ∷ plan) room = cc
copy_plan t set live (false ∷ plan) room = cc

-- A file of three parts: the second one, between brackets, holds the records, and the first one names it.
pub record IsDataFile (text : Bytes) (fss : List Items) : Type 0 where
  pub name : Bytes
  pub body : Bytes
  pub after : Bytes
  pub parts : pieces (contains (codes "[]")) text ≡ name ∷ body ∷ after ∷ []
  pub named : string_trim name (some token_trim) ≡ codes "data"
  pub first : Bytes
  pub others : List Bytes
  pub cut : pieces (contains (codes "{")) body ≡ first ∷ others
  pub texts : AreRecordTexts (first ∷ others) fss

read_tokens_fold :
    (name body after first : Bytes) (others : List Bytes) (fss : List Items) (r : Records)
    (h : Heap)
    → string_trim name (some token_trim) ≡ codes "data"
    → pieces (contains (codes "{")) body ≡ first ∷ others
    → AreRecordTexts (first ∷ others) fss
    → has_room h.plan ≡ true
    → (read_tokens (name ∷ body ∷ after ∷ []) r h).0 ≡ add_all (records_of fss) r
unfolding read_tokens
read_tokens_fold name body after first others fss r h named cut texts room =
    let h1 = (string_trim_copy (some name) (some token_trim) h).1 in
    let copy = copy_plan name token_trim h.live h.plan room ∙ ap some named in
    let data_read =
      read_data_fold body first others fss r h1 cut texts
        (string_trim_copy_room name token_trim h room) in
    rw copy data_read.0

import_text_fold :
    (text : Bytes) (fss : List Items) (r : Records) (h : Heap)
    → IsDataFile text fss
    → has_room h.plan ≡ true
    → (import_text text r h).0 ≡ add_all (records_of fss) r
unfolding import_text finish_tokens
import_text_fold text fss r h d room =
    let h1 = (string_split text (codes "[]") h).1 in
    let split = string_split_room text (codes "[]") h room ∙ ap (extend none) d.parts in
    rw split (
      read_tokens_fold d.name d.body d.after d.first d.others fss r h1 d.named d.cut d.texts
        (string_split_roomy text (codes "[]") h room))

import_buffer-Lists :
    (block text : Bytes) (fss : List Items) (σ : Store DataRecord) (n : ℕ) (h : Heap)
    → c_string block ≡ some text
    → IsDataFile text fss
    → has_room h.plan ≡ true
    → (r : Records) × ((import_buffer
          (some block)
          (record { list = none; store = σ; next = n })
          h).0
        ≡ some r)
      × Lists (records_of fss) r
unfolding import_buffer import_block
import_buffer-Lists block text fss σ n h e d room =
    let start : Records = record { list = none; store = σ; next = n } in
    (
      add_all (records_of fss) start,
      rw e (ap some (import_text_fold text fss start h d room)),
      add_all-Lists [] (records_of fss) start
          (record { addresses = []; holds = tt; old = tt; few = omega arith; contents = refl }),
    )

-- A file of less than 65536 bytes, with a NUL behind it in the memory that it is read to, that is the text of
-- some records: `nvipfix_import` returns the list of exactly these records, in the order of the file, each
-- the zero record with its items parsed into it one after the other, if no call of `malloc` is refused.
pub import_stream-Lists :
    (fresh : ℕ → ℕ) (file : Bytes) (fss : List Items) (σ : Store DataRecord) (n : ℕ) (h : Heap)
    → length file < 65536
    → fresh (length file) ≡ 0
    → All (λ c. c ≢ 0) file
    → IsDataFile file fss
    → has_room h.plan ≡ true
    → (r : Records) × ((import_stream fresh
          (some file)
          (record { list = none; store = σ; next = n })
          h).0
        ≡ some r)
      × Lists (records_of fss) r
unfolding import_stream
import_stream-Lists fresh file fss σ n h short end text d room =
    let (block, got, same) = c_string-read_buffer fresh file h room short end text in
    rw got (
      import_buffer-Lists block file fss σ n (read_buffer fresh file h).1 same d
        (read_buffer_room fresh file h room))
