-- ===== src/Import/Parts.antt =====
-- The memory of a record, and of the text behind "data": src/import.c, lines 150-219.
use ipfix.Common.{ℕ, ◌+◌, Bool, true, List, [], ◌∷◌, Option, none, some, arith, codes}
use ipfix.Data.{DataRecord}
use ipfix.Heap.{Heap, M}
use ipfix.Import.Fields.{read_items_live, read_items-Roomy}
use ipfix.Import.{zero_record}
use ipfix.Import.Reader.{
  Records, finish_record, read_items, read_record, read_records, finish_data, read_data,
}
use ipfix.Text.Roomy.{Roomy-room, string_list_free-Roomy}
use ipfix.Text.Split.{string_split_live}
use ipfix.Text.Join.{string_split_roomy}
use ipfix.Text.Tokens.{owned, string_list_free_live}
use ipfix.Text.{Bytes, StringList, string_split, string_list_free}
use ipfix.Import.Result.{Owns, OwnsAll, Owns-taken, add_record-Owns}

module _ (full : Bool) where
  -- The memory that a split takes is its result's.
  split_Owns :
      (s d : Bytes) (base : ℕ) (r : Records) (h : Heap)
      → Owns full base r h
      → Owns full (base + owned (string_split s d h).0) r (string_split s d h).1
  split_Owns s d base r h o =
      Owns-taken full base (base + owned (string_split s d h).0) r h (string_split s d h).1 o
        (omega (arith, string_split_live s d h)) (λ room. string_split_roomy s d h room)

  pub free_Owns :
      (l : Option StringList) (base : ℕ) (r : Records) (h : Heap)
      → Owns full (base + owned l) r h
      → Owns full base r (string_list_free l true h).1
  free_Owns l base r h o =
      Owns-taken full (base + owned l) base r h (string_list_free l true h).1 o
        (let k = o.kept in omega (arith, string_list_free_live l h))
        (λ room. Roomy-room (string_list_free l true) (string_list_free-Roomy l) h room)

  pub read_items-Owns :
      (values : List Bytes) (d : DataRecord) (base : ℕ) (r : Records) (h : Heap)
      → Owns full base r h
      → Owns full base r (read_items values d h).1
  read_items-Owns values d base r h o =
      Owns-taken full base base r h (read_items values d h).1 o
        (omega (arith, read_items_live values d h))
        (λ room. Roomy-room (read_items values d) (read_items-Roomy values d) h room)

  -- What holds of a part that keeps the list, for every base.
  abbrev pub Keeps : (Records → M Records) → Type 0
  Keeps m = (base : ℕ) (r : Records) (h : Heap) → Owns full base r h → OwnsAll full base (m r h)

  -- A text is split, the parts are worked on, and the list of the parts is freed.
  pub split_Keeps :
      (s d : Bytes) (finish : Option StringList → Records → M Records)
      → ((l : Option StringList) (base : ℕ) (r : Records) (h : Heap)
          → Owns full (base + owned l) r h
          → OwnsAll full base (finish l r h))
      → (base : ℕ) (r : Records) (h : Heap) → Owns full base r h
      → OwnsAll full base (finish (string_split s d h).0 r (string_split s d h).1)
  split_Keeps s d finish k base r h o = k _ base r _ (split_Owns s d base r h o)

  finish_record-Owns :
      (l : Option StringList) (base : ℕ) (r : Records) (h : Heap)
      → Owns full (base + owned l) r h
      → OwnsAll full base (finish_record l r h)
  unfolding finish_record
  finish_record-Owns none base r h o =
      Owns-taken full (base + 0) base r h h o (omega arith) (λ room. room)
  finish_record-Owns (some l) base r h o = free_Owns (some l) base _ _ (
      add_record-Owns full _ (base + owned (some l)) r _
        (read_items-Owns l.items zero_record (base + owned (some l)) r h o))

  read_record-Owns : (value : Bytes) → Keeps (read_record value)
  unfolding read_record
  read_record-Owns value base r h o =
      split_Keeps _ (codes ",") finish_record finish_record-Owns base r h o

  read_records-Owns : (values : List Bytes) → Keeps (read_records values)
  unfolding read_records
  read_records-Owns [] base r h o = o
  read_records-Owns (value ∷ values) base r h o =
      read_records-Owns values base _ _ (read_record-Owns value base r h o)

  finish_data-Owns :
      (l : Option StringList) (base : ℕ) (r : Records) (h : Heap)
      → Owns full (base + owned l) r h
      → OwnsAll full base (finish_data l r h)
  unfolding finish_data
  finish_data-Owns none base r h o =
      Owns-taken full (base + 0) base r h h o (omega arith) (λ room. room)
  finish_data-Owns (some l) base r h o =
      free_Owns (some l) base _ _ (read_records-Owns l.items (base + owned (some l)) r h o)

  pub read_data-Owns : (value : Bytes) → Keeps (read_data value)
  unfolding read_data
  read_data-Owns value base r h o =
      split_Keeps value (codes "{") finish_data finish_data-Owns base r h o
