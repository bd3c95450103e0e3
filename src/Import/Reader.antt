-- ===== src/Import/Reader.antt =====
-- `nvipfix_import` and `nvipfix_import_file`: src/import.c, lines 109-262. The records are cells of a
-- store, as in src/data.c; the address that `malloc` returns for the next one is a number that no cell
-- has had, and is counted up.
use ipfix.Common.{
  ℕ, suc, Bool, true, false, List, [], ◌∷◌, Option, none, some, ◌==◌, if◌then◌else◌, codes,
}
use ipfix.Config.Table.{str_eq}
use ipfix.Data.{DataRecord, Store, RecordList, data_list_add_copy}
use ipfix.Heap.{M, ◌>>=◌, ◌>>◌, pure, free}
use ipfix.Import.Buffer.{read_buffer, c_string}
use ipfix.Import.{ImportItem, import_get_item, parse_field, zero_record}
use ipfix.Text.Trim.{string_trim, string_trim_copy}
use ipfix.Text.{Bytes, StringList, string_list_free, string_split}

-- `result`, with the memory of its records.
pub record Records : Type 0 where
  pub list : Option RecordList
  pub store : Store DataRecord
  pub next : ℕ

-- `*strchr( item->value, ':' ) = '\v'`, if there is one.
unfoldable pub mark_delimiter : Bytes → Option Bytes
mark_delimiter [] = none
mark_delimiter (c ∷ s) =
    let rest = mark_delimiter s in
    if c == b':'
    then some (11 ∷ s)
    else (elim rest as (λ _. Option Bytes) [ none ↦ none | some t ↦ some (c ∷ t) ])

abbrev pub quotes : Bytes
quotes = codes " \t\r\n\""

-- An unknown name is reported and left out.
unfoldable pub store_named : Option ImportItem → Bytes → DataRecord → M DataRecord
store_named none value d = pure d
store_named (some i) value d = parse_field i.field value d

unfoldable pub store_pair : List Bytes → DataRecord → M DataRecord
unfolding store_named
store_pair (name ∷ value ∷ []) d =
    store_named (import_get_item (string_trim name (some quotes))) (string_trim value (some quotes))
      d
store_pair _ d = pure d

unfoldable pub read_pair : Option StringList → DataRecord → M DataRecord
read_pair none d = pure d
read_pair (some pair) d = do
  d' ← (if pair.count == 2 then store_pair pair.items d else pure d)
  string_list_free (some pair) true
  pure d'

unfoldable pub read_marked : Option Bytes → DataRecord → M DataRecord
read_marked none d = pure d
read_marked (some s) d = do pair ← string_split s (11 ∷ []); read_pair pair d

unfoldable pub read_item : Bytes → DataRecord → M DataRecord
read_item value d = read_marked (mark_delimiter value) d

unfoldable pub read_items : List Bytes → DataRecord → M DataRecord
read_items [] d = pure d
read_items (value ∷ values) d = do d' ← read_item value d; read_items values d'

-- `list = nvipfix_data_list_add_copy( result, &data ); result = (list != NULL) ? list : result;`
unfoldable pub add_record : DataRecord → Records → M Records
add_record d r = do
  (list, store) ←
      data_list_add_copy r.list (record { value = d; prev = none; next = none }) r.next r.store
  pure (record {
    list = elim list [ none ↦ r.list | some l ↦ some l ];
    store = store;
    next = suc r.next;
  })

unfoldable pub finish_record : Option StringList → Records → M Records
finish_record none r = pure r
finish_record (some items) r = do
  d ← read_items items.items zero_record
  r' ← add_record d r
  string_list_free (some items) true
  pure r'

unfoldable pub read_record : Bytes → Records → M Records
read_record value r = do
  items ← string_split (string_trim value (some (codes ",}"))) (codes ",")
  finish_record items r

unfoldable pub read_records : List Bytes → Records → M Records
read_records [] r = pure r
read_records (value ∷ values) r = do r' ← read_record value r; read_records values r'

-- The token behind "data".
unfoldable pub finish_data : Option StringList → Records → M Records
finish_data none r = pure r
finish_data (some records) r = do
  r' ← read_records records.items r
  string_list_free (some records) true
  pure r'

unfoldable pub read_data : Bytes → Records → M Records
read_data value r = do records ← string_split value (codes "{"); finish_data records r

abbrev pub token_trim : Bytes
token_trim = codes "{}\r\n\t \":"

-- Whether the trimmed copy of a token is "data"; the copy is freed at the end of the round.
abbrev pub is_data : Option Bytes → Bool
is_data none = false
is_data (some copy) = str_eq (codes "data") copy

abbrev pub free_copy : Option Bytes → M (Unit {0})
free_copy none = pure tt
free_copy (some copy) = free 1

-- The loop over the tokens: behind "data" the next token holds the records, and is skipped.
unfoldable pub read_tokens : List Bytes → Records → M Records
unfolding str_eq
read_tokens [] r = pure r
read_tokens (token ∷ []) r = do
  copy ← string_trim_copy (some token) (some token_trim)
  free_copy copy
  pure r
read_tokens (token ∷ value ∷ tokens) r = do
  copy ← string_trim_copy (some token) (some token_trim)
  let found = (do r' ← read_data value r; free_copy copy; read_tokens tokens r')
  let skipped = (do free_copy copy; read_tokens (value ∷ tokens) r)
  if is_data copy then found else skipped

unfoldable pub finish_tokens : Option StringList → Records → M Records
finish_tokens none r = pure r
finish_tokens (some tokens) r = do
  r' ← read_tokens tokens.items r
  string_list_free (some tokens) true
  pure r'

unfoldable pub import_text : Bytes → Records → M Records
import_text text r = do tokens ← string_split text (codes "[]"); finish_tokens tokens r

-- The text in the buffer, which is freed behind it.
unfoldable pub import_block : Option Bytes → Records → M (Option Records)
import_block none r = pure none
import_block (some text) r = do r' ← import_text text r; free 1; pure (some r')

-- Behind the reading of the file. The result is `none` where `strlen` and `nvipfix_string_split` read past the end
-- of the buffer, as no byte of it is NUL; nothing is said of the program from there on.
unfoldable pub import_buffer : Option Bytes → Records → M (Option Records)
import_buffer none r = pure (some r)
import_buffer (some buffer) r = import_block (c_string buffer) r

-- `nvipfix_import`; `none` is the file NULL, and `fresh` what fresh memory holds.
unfoldable pub import_stream : (ℕ → ℕ) → Option Bytes → Records → M (Option Records)
import_stream fresh none r = pure (some r)
import_stream fresh (some file) r = do buffer ← read_buffer fresh file; import_buffer buffer r

-- `nvipfix_import_file`, for the bytes of the file; `none` is a file that cannot be opened.
unfoldable pub import_file : (ℕ → ℕ) → Option Bytes → Records → M (Option Records)
import_file fresh none r = pure (some r)
import_file fresh (some file) r = import_stream fresh (some file) r
