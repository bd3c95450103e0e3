-- ===== src/Date.antt =====
-- Dates: src/include/types.h, lines 130-141, and `nvipfix_parse_datetime_iso8601` of src/types.c. A
-- struct that the parser fills is handed over and returned.
pub mod Memory
pub mod RoundTrip
use ipfix.Common.{
  ℕ, Bool, true, false, List, [], ◌∷◌, Option, none, some, ◌==◌, if◌then◌else◌, codes,
}
use ipfix.Common.Int.{ℤ, pos}
use ipfix.Heap.{M, ◌>>=◌, ◌>>◌, pure}
use ipfix.Number.{to_int, parse_unsigned}
use ipfix.Text.{Bytes, StringList, string_list_free, string_split}
use ipfix.Time.{Timespan, set_seconds}

pub record Datetime : Type 0 where
  pub year : ℤ
  pub month : ℤ
  pub day : ℤ
  pub hours : ℤ
  pub minutes : ℤ
  pub seconds : ℤ
  pub milliseconds : ℤ
  pub tz_offset : Timespan
  pub has_value : Bool

-- One `if (nvipfix_parse_unsigned( s, &value ))` with its assignment, inside those before it.
set_number : (ℤ → Datetime → Datetime) → Bytes → Bool × Datetime → Bool × Datetime
set_number f s (false, d) = (false, d)
set_number f s (true, d) =
    let (result, value) = parse_unsigned (some s) 0 in
    (result, if result then f (to_int (pos value)) d else d)

time_of_items : List Bytes → Datetime → Bool × Datetime
time_of_items (h ∷ m ∷ s ∷ []) d =
    let with_hours = set_number (λ n x. record x { hours = n }) h (true, d) in
    let with_minutes = set_number (λ n x. record x { minutes = n }) m with_hours in
    set_number (λ n x. record x { seconds = n; milliseconds = pos 0 }) s with_minutes
time_of_items _ d = (false, d)

-- Behind the split of the time.
unfoldable pub time_finish : Option StringList → Datetime → M (Bool × Datetime)
unfolding time_of_items set_number
time_finish none d = pure (false, d)
time_finish (some tokens) d = do
  let r = if tokens.count == 3 then time_of_items tokens.items d else (false, d)
  string_list_free (some tokens) true
  pure r

date_of_items : List Bytes → Datetime → Bool × Datetime
date_of_items (y ∷ m ∷ n ∷ []) d =
    let with_year = set_number (λ n x. record x { year = n }) y (true, d) in
    let with_month = set_number (λ n x. record x { month = n }) m with_year in
    set_number (λ n x. record x { day = n }) n with_month
date_of_items _ d = (false, d)

-- The time is read only where the date was.
unfoldable pub read_time : Bool × Datetime → Bytes → M (Bool × Datetime)
read_time (false, d) time = pure (false, d)
read_time (true, d) time = do tokens ← string_split time (codes ":"); time_finish tokens d

-- Behind the split of the date.
unfoldable pub date_finish : Option StringList → Bytes → Datetime → M (Bool × Datetime)
unfolding date_of_items set_number
date_finish none time d = pure (false, d)
date_finish (some tokens) time d = do
  r ← (if tokens.count == 3 then read_time (date_of_items tokens.items d) time else pure (false, d))
  string_list_free (some tokens) true
  pure r

unfoldable pub halves_of_items : List Bytes → Datetime → M (Bool × Datetime)
halves_of_items (date ∷ time ∷ []) d = do
  tokens ← string_split date (codes "-")
  date_finish tokens time d
halves_of_items _ d = pure (false, d)

-- Behind the split into date and time.
unfoldable pub halves_finish : Option StringList → Datetime → M (Bool × Datetime)
halves_finish none d = pure (false, d)
halves_finish (some tokens) d = do
  r ← (if tokens.count == 2 then halves_of_items tokens.items d else pure (false, d))
  string_list_free (some tokens) true
  pure r

abbrev pub with_result : Bool × Datetime → Bool × Datetime
with_result (result, d) = (result, record d { has_value = result; tz_offset = set_seconds (pos 0) })

unfoldable pub parse_datetime_iso8601 : Option Bytes → Datetime → M (Bool × Datetime)
parse_datetime_iso8601 none d = pure (false, d)
parse_datetime_iso8601 (some a_s) d = do
  tokens ← string_split a_s (codes "T")
  r ← halves_finish tokens d
  pure (with_result r)
