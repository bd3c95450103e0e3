-- ===== src/Tests/State.antt =====
-- Runs of the hash table of src/types.c, the record list of src/data.c and the exporter of
-- src/export.c.
use ipfix.Common.{
  ℕ, Bool, true, false, List, [], ◌∷◌, ◌++◌, Option, none, some, ◌≡◌, ◌↔◌, ◌≢◌, ◌⊎◌, refl, arith,
  codes,
}
use ipfix.Common.Int.{ℤ, pos}
use ipfix.Config.{udp}
use ipfix.Data.Chain.{Holds, data_list_add-Holds}
use ipfix.Date.{Datetime}
use ipfix.Data.{Cell, Store, data_list_add}
use ipfix.Export.Opening.{nvipfix_export_null}
use ipfix.Common.{◌≤◌}
use ipfix.Export.Outcome.{Counted, nvipfix_export_held, export_after_error}
use ipfix.Export.Session.{
  null, Code, code_none, code_export_templates, Private, Slot, dangling, held, World,
  nvipfix_export, export_init, export_with, export_records, finish_export, raise_unless,
  drop_private,
}
use ipfix.Export.{Row, Fixbuf, Tm}
use ipfix.Hashtable.Laws.{IsTable, get_after, get-add_self, get-add_ne}
use ipfix.Hashtable.Hash.{last_byte}
use ipfix.Hashtable.Shape.{new_table-IsTable, add_to-IsTable, hash_past_end}
use ipfix.Hashtable.{Hashtable8, Added, hashtable8_hash, hashtable8_get, new_table, add_to}
use ipfix.Heap.{roomy}

abbrev table : Hashtable8 ℕ
table = new_table false none

table-IsTable : IsTable table
table-IsTable = new_table-IsTable false none

get-add_self_example :
    get_after (add_to table (codes "k1") (some 5) (roomy 0)).0 (codes "k1") ≡ some (some 5)
unfolding hashtable8_hash
get-add_self_example =
    get-add_self table b'k' (codes "1") (some 5) (roomy 0) table-IsTable (omega arith) refl

get-add_ne_example :
    get_after (add_to table (codes "k1") (some 5) (roomy 0)).0 (codes "k")
    ≡ hashtable8_get table (codes "k")
unfolding hashtable8_hash
get-add_ne_example =
    get-add_ne table b'k' (codes "1") (codes "k") (some 5) (roomy 0) table-IsTable (omega arith)
      refl (λ e. cc)

-- The key is two bytes of 127.
hash_past_end_example :
    (((add_to table (127 ∷ 127 ∷ []) (some 5) (roomy 0)).0 ≡ none) ↔ (127 ≡ last_byte (127 ∷ [])))
    × ((hashtable8_get table (127 ∷ 127 ∷ []) ≡ none) ↔ (127 ≡ last_byte (127 ∷ [])))
hash_past_end_example =
    hash_past_end table (127 ∷ []) 127 (some 5) (roomy 0) table-IsTable (omega arith)

past_end : hashtable8_get table (127 ∷ 127 ∷ []) ≡ none
unfolding hashtable8_hash
past_end = hash_past_end_example.1.1 refl

abbrev added : Added ℕ
added = elim (add_to table (codes "k1") (some 5) (roomy 0)).0 [
  | none ↦ record { result = false; table = table; freed = [] }
  | some a ↦ a
]

add_to-IsTable_example : IsTable added.table
unfolding add_to hashtable8_hash
add_to-IsTable_example =
    add_to-IsTable table b'k' (codes "1") (some 5) (roomy 0) added table-IsTable refl

abbrev is_at : ℕ → ℕ → Cell ℕ
is_at v a = record { value = v; prev = none; next = none }

abbrev cells : Store ℕ
cells a = is_at a a

data_list_add-Holds_example :
    Holds
      (data_list_add (some (record { head = 4; tail = 4 })) 6 cells (roomy 2)).0.1
      (data_list_add (some (record { head = 4; tail = 4 })) 6 cells (roomy 2)).0.0
      (4 ∷ 6 ∷ [])
data_list_add-Holds_example =
    data_list_add-Holds cells (some (record { head = 4; tail = 4 })) (4 ∷ []) 6 (roomy 2)
      (refl, (refl, refl, refl)) ((λ e. cc), tt) refl

-- A libfixbuf that keeps the rows it was given, and whose template export answers as told.
abbrev pub recorder : Bool → Fixbuf (List Row)
recorder answer = record {
  info_model_alloc = λ w. (true, w);
  info_model_add_element = λ w. w;
  session_alloc = λ w. (true, w);
  exporter_alloc_net = λ t h p w. (true, w);
  template_alloc = λ w. (true, w);
  template_append_spec = λ t w. (true, w);
  session_add_template = λ i t w. (1, w);
  buf_alloc_for_export = λ w. (true, w);
  session_export_templates = λ w. (answer, w);
  buf_set_internal_template = λ i w. (true, w);
  buf_set_export_template = λ i w. (true, w);
  buf_append = λ r w. (true, w ++ r ∷ []);
  buf_emit = λ w. (true, w);
  buf_free = λ w. w;
}

abbrev pub no_time : Tm → ℤ
no_time t = pos 0

abbrev pub world : World (List Row)
world = record { fixbuf = []; heap = roomy 2; is_initialized = true }

abbrev pub private : Private
private = record {
  message_count = 4;
  flow_record_count = 9;
  template_id = 1;
  template_id_ext = 1;
  stats_template_id = 1;
  stats_template_id_ext = 1;
}

abbrev pub a_date : Datetime
a_date = record {
  year = pos 2015;
  month = pos 1;
  day = pos 1;
  hours = pos 0;
  minutes = pos 0;
  seconds = pos 0;
  milliseconds = pos 0;
  tz_offset = record { microseconds = pos 0; has_value = true };
  has_value = true;
}

abbrev export_once : Bool → Slot → World (List Row) → Option (Code × Slot) × World (List Row)
export_once answer =
    nvipfix_export (recorder answer) no_time (some (codes "h")) (some (codes "4739")) udp [] a_date
      a_date

nvipfix_export_held_example :
    ((p : Private) × ((export_once true (held private) world).0 ≡ some (code_none, held p))
      × Counted 0 private p
      × ((export_once true (held private) world).1.heap ≡ world.heap))
    ⊎ ((c : Code) × (c ≢ code_none)
        × ((export_once true (held private) world).0 ≡ some (c, dangling))
        × ((export_once true (held private) world).1.heap.live ≡ 0))
nvipfix_export_held_example =
    nvipfix_export_held (recorder true) no_time (some (codes "h")) (some (codes "4739")) udp []
      a_date a_date private world refl

export_after_error_example :
    (export_once false dangling (export_once false (held private) world).1).0 ≡ none
unfolding nvipfix_export export_init export_with export_records raise_unless finish_export
    drop_private
export_after_error_example =
    export_after_error (recorder false) no_time (some (codes "h")) (some (codes "4739")) udp []
      a_date a_date private world code_export_templates dangling refl refl (λ e. cc)

abbrev new_world : List Bool → World (List Row)
new_world plan = record {
  fixbuf = [];
  heap = record { plan = plan; live = 2 };
  is_initialized = true;
}

nvipfix_export_null_example :
    ((p : Private) × ((export_once true null (new_world [])).0 ≡ some (code_none, held p))
      × (p.message_count ≡ 1)
      × (p.flow_record_count ≤ 0)
      × ((export_once true null (new_world [])).1.heap.live ≡ 4))
    ⊎ ((c : Code) × (c ≢ code_none)
        × ((export_once true null (new_world [])).0 ≡ some (c, dangling))
        × ((export_once true null (new_world [])).1.heap.live ≡ 2))
nvipfix_export_null_example =
    nvipfix_export_null (recorder true) no_time (some (codes "h")) (some (codes "4739")) udp []
      a_date a_date (new_world []) refl refl
