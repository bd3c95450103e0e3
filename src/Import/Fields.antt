-- ===== src/Import/Fields.antt =====
-- The memory that the parsers of a record's fields use: src/import.c, lines 158-207.
use ipfix.Address.Ip.{parse_ip_address_live, parse_ip_address-Roomy}
use ipfix.Address.Mac.{parse_mac_address_live, parse_mac_address-Roomy}
use ipfix.Common.{◌-◌, ◌≡◌, refl, List, [], ◌∷◌, Option, none, some, ◌==◌, arith, ◌∙◌}
use ipfix.Data.{DataRecord}
use ipfix.Date.Memory.{parse_datetime_iso8601_live, parse_datetime_iso8601-Roomy}
use ipfix.Heap.{Heap}
use ipfix.Import.{
  ImportItem, Field, parse_field, source_mac, destination_mac, source_ip, destination_ip,
  flow_start, flow_end,
}
use ipfix.Import.Reader.{
  store_named, store_pair, read_pair, read_marked, mark_delimiter, read_item, read_items,
}
use ipfix.Text.Roomy.{
  Roomy, pure-Roomy, bind-Roomy, map-Roomy, if-Roomy, free-Roomy, string_split-Roomy,
}
use ipfix.Text.Split.{string_split_live}
use ipfix.Text.Tokens.{owned, string_list_free_live}
use ipfix.Text.{Bytes, StringList, string_split}

pub parse_field-Roomy : (f : Field) (s : Bytes) (d : DataRecord) → Roomy (parse_field f s d)
unfolding parse_field
parse_field-Roomy source_mac s d =
    map-Roomy _ _ _ (λ r. record d { source_mac = r.1 }) (parse_mac_address-Roomy s d.source_mac)
parse_field-Roomy destination_mac s d =
    map-Roomy _ _ _ (λ r. record d { destination_mac = r.1 })
      (parse_mac_address-Roomy s d.destination_mac)
parse_field-Roomy source_ip s d =
    map-Roomy _ _ _ (λ r. record d { source_ip = r.1 }) (parse_ip_address-Roomy s d.source_ip)
parse_field-Roomy destination_ip s d =
    map-Roomy _ _ _ (λ r. record d { destination_ip = r.1 })
      (parse_ip_address-Roomy s d.destination_ip)
parse_field-Roomy flow_start s d =
    map-Roomy _ _ _ (λ r. record d { flow_start = r.1 })
      (parse_datetime_iso8601-Roomy s d.flow_start)
parse_field-Roomy flow_end s d =
    map-Roomy _ _ _ (λ r. record d { flow_end = r.1 }) (parse_datetime_iso8601-Roomy s d.flow_end)
parse_field-Roomy f s d = pure-Roomy _ _

pub parse_field_live :
    (f : Field) (s : Bytes) (d : DataRecord) (h : Heap) → (parse_field f s d h).1.live ≡ h.live
unfolding parse_field
parse_field_live source_mac s d h = parse_mac_address_live (some s) d.source_mac h
parse_field_live destination_mac s d h = parse_mac_address_live (some s) d.destination_mac h
parse_field_live source_ip s d h = parse_ip_address_live (some s) d.source_ip h
parse_field_live destination_ip s d h = parse_ip_address_live (some s) d.destination_ip h
parse_field_live flow_start s d h = parse_datetime_iso8601_live (some s) d.flow_start h
parse_field_live flow_end s d h = parse_datetime_iso8601_live (some s) d.flow_end h
parse_field_live f s d h = refl

pub store_named-Roomy :
    (i : Option ImportItem) (value : Bytes) (d : DataRecord) → Roomy (store_named i value d)
unfolding store_named
store_named-Roomy none value d = pure-Roomy _ _
store_named-Roomy (some i) value d = parse_field-Roomy i.field value d

store_named_live :
    (i : Option ImportItem) (value : Bytes) (d : DataRecord) (h : Heap)
    → (store_named i value d h).1.live ≡ h.live
unfolding store_named
store_named_live none value d h = refl
store_named_live (some i) value d h = parse_field_live i.field value d h

store_pair-Roomy : (ts : List Bytes) (d : DataRecord) → Roomy (store_pair ts d)
unfolding store_pair
store_pair-Roomy (name ∷ value ∷ []) d = store_named-Roomy _ _ d
store_pair-Roomy [] d = pure-Roomy _ _
store_pair-Roomy (name ∷ []) d = pure-Roomy _ _
store_pair-Roomy (name ∷ value ∷ x ∷ ts) d = pure-Roomy _ _

store_pair_live :
    (ts : List Bytes) (d : DataRecord) (h : Heap) → (store_pair ts d h).1.live ≡ h.live
unfolding store_pair
store_pair_live (name ∷ value ∷ []) d h = store_named_live _ _ d h
store_pair_live [] d h = refl
store_pair_live (name ∷ []) d h = refl
store_pair_live (name ∷ value ∷ x ∷ ts) d h = refl

read_pair-Roomy : (pair : Option StringList) (d : DataRecord) → Roomy (read_pair pair d)
unfolding read_pair
read_pair-Roomy none d = pure-Roomy _ _
read_pair-Roomy (some pair) d =
    bind-Roomy _ _ _ _
      (if-Roomy _ (pair.count == 2) _ _ (store_pair-Roomy pair.items d) (pure-Roomy _ d))
      (λ r. free-Roomy _ pair r)

read_pair_live :
    (pair : Option StringList) (d : DataRecord) (h : Heap)
    → (read_pair pair d h).1.live ≡ h.live - owned pair
unfolding read_pair
read_pair_live none d h = omega arith
read_pair_live (some pair) d h = ground (
  arith,
  store_pair_live pair.items d h,
  string_list_free_live (some pair) h,
  string_list_free_live (some pair) (store_pair pair.items d h).1,
)

read_marked-Roomy : (s : Option Bytes) (d : DataRecord) → Roomy (read_marked s d)
unfolding read_marked
read_marked-Roomy none d = pure-Roomy _ _
read_marked-Roomy (some s) d =
    bind-Roomy _ _ _ _ (string_split-Roomy s (11 ∷ [])) (λ t. read_pair-Roomy t d)

read_marked_live :
    (s : Option Bytes) (d : DataRecord) (h : Heap) → (read_marked s d h).1.live ≡ h.live
unfolding read_marked
read_marked_live none d h = refl
read_marked_live (some s) d h =
    let (t, h') = string_split s (11 ∷ []) h in
    omega (arith, read_pair_live t d h', string_split_live s (11 ∷ []) h)

pub read_item-Roomy : (value : Bytes) (d : DataRecord) → Roomy (read_item value d)
unfolding read_item
read_item-Roomy value d = read_marked-Roomy (mark_delimiter value) d

pub read_items-Roomy : (values : List Bytes) (d : DataRecord) → Roomy (read_items values d)
unfolding read_items
read_items-Roomy [] d = pure-Roomy _ _
read_items-Roomy (value ∷ values) d =
    bind-Roomy _ _ (read_item value d) (λ d'. read_items values d') (read_item-Roomy value d)
      (λ d'. read_items-Roomy values d')

-- The items of a record are read without keeping memory, also where a call of `malloc` is refused.
pub read_items_live :
    (values : List Bytes) (d : DataRecord) (h : Heap) → (read_items values d h).1.live ≡ h.live
unfolding read_items read_item
read_items_live [] d h = refl
read_items_live (value ∷ values) d h =
    let (d', h') = read_marked (mark_delimiter value) d h in
    read_items_live values d' h' ∙ read_marked_live (mark_delimiter value) d h
