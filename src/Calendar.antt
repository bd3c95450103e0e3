-- ===== src/Calendar.antt =====
-- Calendar time: src/types.c, lines 43-60 and 793-838. `localtime`, `gmtime` and `mktime` of the C library
-- are parameters; a time in seconds is an integer, and `int` sums do not overflow for the years at hand.
use ipfix.Common.{Bool, true, Option, none, some, ◌≡◌, refl, ap, ◌∙◌}
use ipfix.Common.Int.{ℤ, pos, negsuc, ◌+ℤ◌, ◌-ℤ◌, ◌*ℤ◌, +ℤ_cancel}
use ipfix.Date.{Datetime}
use ipfix.Export.{Tm, tm_of}
use ipfix.Number.{to_int}
use ipfix.Time.{Timespan, quotient}

-- The calls of <time.h>; `normal` is the broken-down time that `mktime` leaves behind.
pub record Clock : Type 0 where
  pub localtime : ℤ → Tm
  pub gmtime : ℤ → Tm
  pub mktime : Tm → ℤ
  pub normal : Tm → Tm

-- `NVIPFIX_DT_FROM_TM`
unfoldable pub dt_from_tm : Datetime → Tm → Datetime
unfolding ◌+ℤ◌
dt_from_tm d t = record d {
  year = t.year +ℤ pos 1900;
  month = t.mon +ℤ pos 1;
  day = t.mday;
  hours = t.hour;
  minutes = t.min;
  seconds = t.sec;
  milliseconds = pos 0;
  tz_offset = record { microseconds = pos 0; has_value = true };
}

module _ (clock : Clock) where
  -- NULL gives -1.
  unfoldable pub datetime_to_ctime : Option Datetime → ℤ
  datetime_to_ctime none = negsuc 0
  datetime_to_ctime (some a_datetime) = clock.mktime (tm_of a_datetime)

  -- The offset is a product of doubles, which is exact here.
  unfoldable pub ctime_to_datetime : Datetime → ℤ → Bool × Datetime
  unfolding dt_from_tm ◌-ℤ◌ ◌*ℤ◌
  ctime_to_datetime a_datetime a_ctime = (
    true,
    record (dt_from_tm a_datetime (clock.localtime a_ctime)) {
      tz_offset = record {
        microseconds = (clock.mktime (clock.gmtime a_ctime) -ℤ a_ctime) *ℤ pos 1000 *ℤ pos 1000;
        has_value = true;
      };
      has_value = true;
    },
  )

  -- The datetime as it is left, and the result. NULL gives -1, and then there is no datetime.
  unfoldable pub datetime_add_timespan : Option Datetime → Option Timespan → Option Datetime × ℤ
  unfolding ◌+ℤ◌ dt_from_tm
  datetime_add_timespan none a_timespan = (none, negsuc 0)
  datetime_add_timespan (some d) none = (some d, negsuc 0)
  datetime_add_timespan (some d) (some a_timespan) =
      let start = tm_of d in
      let shifted : Tm = record start {
        sec = to_int (start.sec +ℤ quotient a_timespan.microseconds 1000000);
      } in
      (
        some (record (dt_from_tm d (clock.normal shifted)) { tz_offset = d.tz_offset }),
        clock.mktime shifted,
      )

  -- The broken-down time that is stored is that of `localtime`.
  tm_of-ctime : (d : Datetime) (t : ℤ) → tm_of (ctime_to_datetime d t).1 ≡ clock.localtime t
  unfolding ctime_to_datetime
  tm_of-ctime d t =
      rw (+ℤ_cancel (clock.localtime t).year (pos 1900), +ℤ_cancel (clock.localtime t).mon (pos 1))
        refl

  pub ctime_round_trip :
      (d : Datetime) (t : ℤ)
      → clock.mktime (clock.localtime t) ≡ t
      → datetime_to_ctime (some (ctime_to_datetime d t).1) ≡ t
  unfolding datetime_to_ctime
  ctime_round_trip d t e = ap clock.mktime (tm_of-ctime d t) ∙ e
