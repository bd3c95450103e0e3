-- ===== src/Time.antt =====
-- Time spans: src/include/types.h, lines 48-62, and src/types.c, lines 703-760 and 840-892. An `int`
-- product is reduced to 32 bits, as the compiled code does on overflow; C leaves it undefined.
pub mod Span
use ipfix.Common.{
  ℕ, zero, suc, ◌+◌, ◌*◌, ◌/◌, ◌-◌, Bool, true, false, List, [], ◌∷◌, Option, none, some, ◌==◌,
  if◌then◌else◌, codes,
}
use ipfix.Common.Int.{ℤ, pos, negsuc, sub_ℕ, ◌+ℤ◌, ◌*ℤ◌}
use ipfix.Heap.{M, ◌>>=◌, ◌>>◌, pure}
use ipfix.Number.{to_int, atoi, parse_int, parse_i64}
use ipfix.Text.{Bytes, StringList, string_list_free, string_split}

pub record Timespan : Type 0 where
  pub microseconds : ℤ
  pub has_value : Bool

-- `(a_seconds) * 1000 * 1000` for an `int`.
unfoldable pub micros_of_seconds : ℤ → ℤ
unfolding ◌*ℤ◌
micros_of_seconds s = to_int (to_int (s *ℤ pos 1000) *ℤ pos 1000)

-- `NVIPFIX_TIMESPAN_SET_SECONDS` with an `int`.
abbrev pub set_seconds : ℤ → Timespan
set_seconds s = record { microseconds = micros_of_seconds s; has_value = true }

-- hours * 60 * 60 + minutes * 60 + seconds, each step an `int`.
unfoldable pub seconds_of : ℤ → ℤ → ℤ → ℤ
unfolding ◌*ℤ◌ ◌+ℤ◌
seconds_of h m s =
    let hours = to_int (to_int (h *ℤ pos 60) *ℤ pos 60) in
    to_int (to_int (hours +ℤ to_int (m *ℤ pos 60)) +ℤ s)

-- The list has three items where `count` is 3; the result flag of the parser stays false.
span_of_items : List Bytes → Timespan → Timespan
span_of_items (h ∷ m ∷ s ∷ rest) span = set_seconds (seconds_of (atoi h) (atoi m) (atoi s))
span_of_items _ span = span

span_finish : Option StringList → Timespan → M (Bool × Timespan)
span_finish none span = pure (false, span)
span_finish (some tokens) span = do
  let filled = if tokens.count == 3 then span_of_items tokens.items span else span
  string_list_free (some tokens) true
  pure (false, filled)

unfoldable pub parse_timespan : Option Bytes → Timespan → M (Bool × Timespan)
unfolding span_finish span_of_items
parse_timespan none span = pure (false, span)
parse_timespan (some a_s) span = do tokens ← string_split a_s (codes ":"); span_finish tokens span

unfoldable pub parse_timespan_milliseconds : Option Bytes → Timespan → Bool × Timespan
unfolding parse_int ◌*ℤ◌
parse_timespan_milliseconds none span = (false, span)
parse_timespan_milliseconds (some a_s) span =
    let (result, milliseconds) = parse_int (some a_s) (pos 0) in
    (
      result,
      record {
        microseconds = if result then milliseconds *ℤ pos 1000 else span.microseconds;
        has_value = result;
      },
    )

unfoldable pub parse_timespan_microseconds : Option Bytes → Timespan → Bool × Timespan
unfolding parse_i64
parse_timespan_microseconds none span = (false, span)
parse_timespan_microseconds (some a_s) span =
    let (result, microseconds) = parse_i64 (some a_s) (pos 0) in
    (
      result,
      record {
        microseconds = if result then microseconds else span.microseconds;
        has_value = result;
      },
    )

-- `/` of C rounds towards 0.
pub quotient : ℤ → ℕ → ℤ
quotient (pos n) d = pos (n / d)
quotient (negsuc n) d = sub_ℕ 0 (suc n / d)

-- NULL and a span with no value count as 0.
span_value : Option Timespan → ℕ → ℤ
span_value none unit = pos 0
span_value (some span) unit = if span.has_value then quotient span.microseconds unit else pos 0

unfoldable pub timespan_get_minutes : Option Timespan → ℤ
unfolding span_value
timespan_get_minutes span = span_value span (1000 * 1000 * 60)

unfoldable pub timespan_get_seconds : Option Timespan → ℤ
unfolding span_value
timespan_get_seconds span = span_value span (1000 * 1000)

unfoldable pub timespan_get_milliseconds : Option Timespan → ℤ
unfolding span_value
timespan_get_milliseconds span = span_value span 1000

unfoldable pub timespan_get_microseconds : Option Timespan → ℤ
timespan_get_microseconds none = pos 0
timespan_get_microseconds (some span) = if span.has_value then span.microseconds else pos 0
