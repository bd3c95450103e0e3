-- ===== src/Time/Span.antt =====
-- How seconds become microseconds (src/include/types.h): exactly up to 2147 seconds, and never from
-- 2148 seconds up.
use ipfix.Common.{ℕ, ◌*◌, ◌^◌, ◌≤◌, ◌<◌, some, ◌≡◌, ◌≢◌, arith}
use ipfix.Common.Int.{pos}
use ipfix.Time.{
  micros_of_seconds, set_seconds, timespan_get_seconds, timespan_get_milliseconds,
  timespan_get_microseconds, quotient,
}

-- Whole seconds up to 2147 are stored exactly, and the accessors give back the seconds, the
-- milliseconds and the microseconds.
pub set_seconds_exact :
    (n : ℕ)
    → n ≤ 2147
    → (timespan_get_seconds (some (set_seconds (pos n))) ≡ pos n)
      × (timespan_get_milliseconds (some (set_seconds (pos n))) ≡ pos (n * 1000))
      × (timespan_get_microseconds (some (set_seconds (pos n))) ≡ pos (n * 1000000))
unfolding micros_of_seconds timespan_get_seconds timespan_get_milliseconds timespan_get_microseconds
    quotient
set_seconds_exact n h = (ground arith, ground arith, ground arith)

-- A span of 2148 seconds or more that an `int` can hold is never stored as that many microseconds.
pub set_seconds_overflow :
    (n : ℕ)
    → 2148 ≤ n
    → n < 2 ^ 31
    → timespan_get_microseconds (some (set_seconds (pos n))) ≢ pos (n * 1000000)
unfolding micros_of_seconds timespan_get_microseconds
set_seconds_overflow n h small e = ground arith
