-- ===== src/Import/Fold.antt =====
-- From the text of a data file to the list of its records: src/import.c, lines 135-229.
use ipfix.Common.{
  true, List, [], ◌∷◌, ◌++◌, none, some, ◌≡◌, ◌≢◌, inl, inr, refl, ap, ◌∙◌, arith, All, map, codes,
}
use ipfix.Data.{DataRecord}
use ipfix.Heap.{Heap, has_room, roomy}
use ipfix.Import.Fields.{store_named-Roomy, read_item-Roomy, read_items-Roomy}
use ipfix.Import.{import_get_item, zero_record}
use ipfix.Import.Reader.{
  Records, mark_delimiter, quotes, store_named, store_pair, read_pair, read_marked, read_item,
  read_items, add_record, finish_record, read_record,
}
use ipfix.Import.Result.{added, add_record-Adds}
use ipfix.Text.Join.{join, IsToken, string_split_roomy, string_split-join}
use ipfix.Text.Roomy.{Roomy-room, Roomy-same, string_list_free-Roomy}
use ipfix.Text.Tokens.{extend}
use ipfix.Text.Trim.{string_trim}
use ipfix.Text.{Bytes, contains, string_split}

-- "name:value", an item of a record.
abbrev pub item_text : Bytes × Bytes → Bytes
item_text (name, value) = name ++ (b':' ∷ value)

-- The name and the value are not empty, and the bytes at which an item is taken apart stand in neither of
-- them, but that the value may hold ':'.
abbrev pub IsField : Bytes × Bytes → Type 0
IsField (name, value) =
    All (λ c. c ≢ b':') name
    × IsToken (contains (11 ∷ [])) name
    × IsToken (contains (11 ∷ [])) value
    × IsToken (contains (codes ",")) (item_text (name, value))

-- The record with the field of this name set from the value; with another name, the record itself.
pub store_item : Bytes × Bytes → DataRecord → DataRecord
store_item (name, value) d =
    (store_named (import_get_item (string_trim name (some quotes)))
      (string_trim value (some quotes)) d (roomy 0)).0

-- The record of these items, the later over the earlier.
pub record_of : List (Bytes × Bytes) → DataRecord → DataRecord
record_of [] d = d
record_of (f ∷ fs) d = record_of fs (store_item f d)

mark_delimiter_lem :
    (name value : Bytes)
    → All (λ c. c ≢ b':') name
    → mark_delimiter (name ++ (b':' ∷ value)) ≡ some (name ++ (11 ∷ value))
unfolding mark_delimiter
mark_delimiter_lem [] value k = refl
mark_delimiter_lem (c ∷ name) value k =
    let ih = mark_delimiter_lem name value k.1 in let ne = k.0 in rw ih (ground arith)

-- The pair of an item's name and value, from the tokens that a split found.
read_pair_fold :
    (name value : Bytes) (d : DataRecord) (h : Heap)
    → has_room h.plan ≡ true
    → (read_pair (extend none (name ∷ value ∷ [])) d h).0 ≡ store_item (name, value) d
unfolding read_pair store_pair store_item
read_pair_fold name value d h room =
    let m =
      store_named (import_get_item (string_trim name (some quotes)))
        (string_trim value (some quotes)) d in
    Roomy-same m (store_named-Roomy _ _ d) h room

read_item_fold :
    (f : Bytes × Bytes) (d : DataRecord)
    → IsField f
    → (read_item (item_text f) d (roomy 0)).0 ≡ store_item f d
unfolding read_item read_marked contains
read_item_fold (name, value) d k =
    let split =
      string_split-join 11 (11 ∷ []) (name ∷ value ∷ []) (roomy 0) refl (k.1, (k.2, tt)) refl in
    rw (mark_delimiter_lem name value k.0, split)
      (read_pair_fold name value d _
        (string_split_roomy (name ++ (11 ∷ value)) (11 ∷ []) (roomy 0) refl))

read_items_fold :
    (fs : List (Bytes × Bytes)) (d : DataRecord) (h : Heap)
    → All IsField fs
    → has_room h.plan ≡ true
    → (read_items (map item_text fs) d h).0 ≡ record_of fs d
unfolding read_items record_of
read_items_fold [] d h k room = refl
read_items_fold (f ∷ fs) d h k room =
    let m = read_item (item_text f) d in
    let same = Roomy-same m (read_item-Roomy (item_text f) d) h room ∙ read_item_fold f d k.0 in
    ap (λ x. (read_items (map item_text fs) x (m h).1).0) same
    ∙ read_items_fold fs (store_item f d) (m h).1 k.1
        (Roomy-room m (read_item-Roomy (item_text f) d) h room)

pub add_record_room :
    (d : DataRecord) (r : Records) (h : Heap)
    → has_room h.plan ≡ true
    → ((add_record d r h).0 ≡ added d r) × (has_room (add_record d r h).1.plan ≡ true)
add_record_room d r h room = elim (add_record-Adds d r h) [
  | inl (e, live, same) ↦ (e, same ∙ room)
  | inr (e, e', holds, live, full) ↦ cc
]

-- A text that gives these items, whatever ',' and '}' stand around it.
abbrev pub IsRecordText : Bytes → List (Bytes × Bytes) → Type 0
IsRecordText value [] = ⊥
IsRecordText value (f ∷ fs) =
    (string_trim value (some (codes ",}")) ≡ join b',' (map item_text (f ∷ fs)))
    × All IsField (f ∷ fs)

items-IsToken :
    (fs : List (Bytes × Bytes))
    → All IsField fs
    → All (IsToken (contains (codes ","))) (map item_text fs)
items-IsToken [] k = tt
items-IsToken (f ∷ fs) k = (k.0.3, items-IsToken fs k.1)

pub read_record_fold :
    (value : Bytes) (fs : List (Bytes × Bytes)) (r : Records) (h : Heap)
    → IsRecordText value fs
    → has_room h.plan ≡ true
    → ((read_record value r h).0 ≡ added (record_of fs zero_record) r)
      × (has_room (read_record value r h).1.plan ≡ true)
unfolding read_record finish_record contains
read_record_fold value [] r h k room = elim k [ ]
read_record_fold value (f ∷ fs) r h k room =
    let ts = map item_text (f ∷ fs) in
    let split = string_split-join b',' (codes ",") ts h refl (items-IsToken (f ∷ fs) k.1) room in
    let room1 = string_split_roomy (join b',' ts) (codes ",") h room in
    let h1 = (string_split (join b',' ts) (codes ",") h).1 in
    let items = read_items_fold (f ∷ fs) zero_record h1 k.1 room1 in
    let room2 = Roomy-room (read_items ts zero_record) (read_items-Roomy ts zero_record) h1 room1 in
    let (e, room3) =
      add_record_room (record_of (f ∷ fs) zero_record) r (read_items ts zero_record h1).1 room2 in
    rw (k.0, split, items) (e, Roomy-room _ (string_list_free-Roomy (extend none ts)) _ room3)
