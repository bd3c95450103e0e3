-- ===== src/Tests/Parsing.antt =====
-- Runs of the parsers of src/types.c and of the configuration reader of src/config.c.
use ipfix.Address.{MacAddress, parse_mac_address, IpAddress, parse_ip_address, print_ip}
use ipfix.Address.Mac.{parse_mac_address_iff}
use ipfix.Date.RoundTrip.{Part, two_digits, as_octal, iso_text, parse_datetime_iso8601-Shown}
use ipfix.Date.Memory.{parse_datetime_iso8601_live}
use ipfix.Date.{Datetime, parse_datetime_iso8601}
use ipfix.Address.Ip.{parse_ip_address_iff, parse_ip_address-print}
use ipfix.Common.{
  ℕ, inl, inr, true, false, [], ◌∷◌, none, some, ◌≡◌, ◌≢◌, ◌↔◌, refl, codes, arith, length,
}
use ipfix.Common.Int.{pos}
use ipfix.Config.{Globals}
use ipfix.Config.Collectors.{IsSound, read_lines-IsSound}
use ipfix.Config.File.{all_blank, uncommented, is_empty_line_lem, read_lines_enough}
use ipfix.Config.Reader.{read_lines, is_empty_line, start}
use ipfix.Heap.{Heap, malloc, roomy}
use ipfix.Number.Decimal.{decimal}
use ipfix.Number.Parse.{parse-decimal}
use ipfix.Number.{parse_octet, parse_byte, parse_u16, parse_u32, parse_unsigned, parse_u64}
use ipfix.Text.Fields.{pieces}
use ipfix.Text.Join.{join, string_split-join}
use ipfix.Text.Split.{string_split-Settles}
use ipfix.Text.Tokens.{Settles, extend}
use ipfix.Text.Trim.{Trims, string_trim, string_trim-Trims, string_duplicate, string_list_add_copy}
use ipfix.Text.{Bytes, contains, string_split, string_list_add}
use ipfix.Time.Span.{set_seconds_exact, set_seconds_overflow}
use ipfix.Time.{
  set_seconds, timespan_get_seconds, timespan_get_milliseconds, timespan_get_microseconds,
}

abbrev line : Bytes
line = codes "switch  sw1 "

abbrev two_answers : Heap
two_answers = record { plan = true ∷ true ∷ false ∷ []; live = 7 }

string_split-Settles_example :
    Settles false 7
      (extend none (pieces (contains (codes " ")) line))
      (string_split line (codes " ") two_answers)
string_split-Settles_example = string_split-Settles line (codes " ") two_answers

string_split-join_example :
    (string_split (join b',' (codes "ab" ∷ codes "c" ∷ [])) (codes ",") (roomy 0)).0
    ≡ some (record { items = codes "ab" ∷ codes "c" ∷ []; count = 2 })
unfolding contains
string_split-join_example =
    string_split-join b',' (codes ",") (codes "ab" ∷ codes "c" ∷ []) (roomy 0) refl
      (((λ e. cc), (refl, (refl, tt))), (((λ e. cc), (refl, tt)), tt)) refl

abbrev unset : IpAddress
unset = record { value = 9; has_value = false }

parse_ip_address-print_example :
    ((parse_ip_address (some (print_ip 3232235777)) unset (roomy 1)).0
      ≡ (true, record { value = 3232235777; has_value = true }))
    × ((parse_ip_address (some (print_ip 3232235777)) unset (roomy 1)).1.live ≡ 1)
parse_ip_address-print_example =
    parse_ip_address-print 3232235777 unset (roomy 1) (omega arith) refl

parse_ip_address_iff_example :
    ((parse_ip_address (some (codes "10.0.0.x")) unset (roomy 0)).0.0 ≡ true)
    ↔ (length (pieces (contains (codes ".")) (codes "10.0.0.x")) ≡ 4)
parse_ip_address_iff_example = parse_ip_address_iff (codes "10.0.0.x") unset (roomy 0) refl

abbrev no_mac : MacAddress
no_mac = record { octets = 0 ∷ 0 ∷ 0 ∷ 0 ∷ 0 ∷ 0 ∷ []; has_value = false }

parse_mac_address_iff_example :
    ((parse_mac_address (some (codes "0:1:2:3:4:ff")) no_mac (roomy 0)).0.0 ≡ true)
    ↔ (length (pieces (contains (codes ":")) (codes "0:1:2:3:4:ff")) ≡ 6)
parse_mac_address_iff_example = parse_mac_address_iff (codes "0:1:2:3:4:ff") no_mac (roomy 0) refl

abbrev no_date : Datetime
no_date = record {
  year = pos 0;
  month = pos 0;
  day = pos 0;
  hours = pos 0;
  minutes = pos 0;
  seconds = pos 0;
  milliseconds = pos 0;
  tz_offset = record { microseconds = pos 0; has_value = false };
  has_value = false;
}

parse_datetime_iso8601_live_example :
    (parse_datetime_iso8601 (some (codes "2015-10-1T1:2:3")) no_date two_answers).1.live ≡ 7
parse_datetime_iso8601_live_example =
    parse_datetime_iso8601_live (some (codes "2015-10-1T1:2:3")) no_date two_answers

-- "2015-10-08T03:59:09"
abbrev the_year : Part
the_year = record { text = codes "2015"; value = 2015 }

abbrev padded : ℕ → Part
padded n = record { text = two_digits n; value = as_octal n }

parse_datetime_iso8601-Shown_example :
    (parse_datetime_iso8601
      (some (iso_text the_year (padded 10) (padded 8) (padded 3) (padded 59) (padded 9)))
      no_date
      (roomy 0)).0
    ≡ (
      true,
      record {
        year = pos 2015;
        month = pos 10;
        day = pos 0;
        hours = pos 3;
        minutes = pos 59;
        seconds = pos 0;
        milliseconds = pos 0;
        tz_offset = set_seconds (pos 0);
        has_value = true;
      },
    )
unfolding decimal
parse_datetime_iso8601-Shown_example =
    parse_datetime_iso8601-Shown the_year (padded 10) (padded 8) (padded 3) (padded 59) (padded 9)
      no_date (roomy 0)
      (inl (refl, omega arith), inr (10, omega arith, refl, refl), inr (8, omega arith, refl, refl))
      (
        inr (3, omega arith, refl, refl),
        inr (59, omega arith, refl, refl),
        inr (9, omega arith, refl, refl),
      )
      refl

padded_text :
    iso_text the_year (padded 10) (padded 8) (padded 3) (padded 59) (padded 9)
    ≡ codes "2015-10-08T03:59:09"
padded_text = refl

string_trim-Trims_example :
    Trims (codes " ") (codes "  a b ") (string_trim (codes "  a b ") (some (codes " ")))
string_trim-Trims_example = string_trim-Trims (codes "  a b ") (some (codes " "))

parse-decimal_example :
    (parse_octet (some (decimal 300)) 0 ≡ (true, 44))
    × (parse_byte (some (decimal 300)) 0 ≡ (true, 44))
    × (parse_u16 (some (decimal 300)) 0 ≡ (true, 300))
    × (parse_u32 (some (decimal 300)) 0 ≡ (true, 300))
    × (parse_unsigned (some (decimal 300)) 0 ≡ (true, 300))
    × (parse_u64 (some (decimal 300)) 0 ≡ (true, 300))
parse-decimal_example = parse-decimal 300 0 (omega arith)

set_seconds_exact_example :
    (timespan_get_seconds (some (set_seconds (pos 60))) ≡ pos 60)
    × (timespan_get_milliseconds (some (set_seconds (pos 60))) ≡ pos 60000)
    × (timespan_get_microseconds (some (set_seconds (pos 60))) ≡ pos 60000000)
set_seconds_exact_example = set_seconds_exact 60 (omega arith)

set_seconds_overflow_example :
    timespan_get_microseconds (some (set_seconds (pos 3600))) ≢ pos 3600000000
set_seconds_overflow_example = set_seconds_overflow 3600 (omega arith) (omega arith)

abbrev cleared_globals : Globals
cleared_globals = record {
  switch_name = none;
  switch_api_host = none;
  switch_api_login = none;
  switch_api_password = none;
  export_interval = record { microseconds = pos 60000000; has_value = true };
  collectors = [];
}

abbrev config_file : Bytes
config_file =
    codes "switch s1 # demo\n\ncollector c1 {\n  collector-ip-address 10.0.0.1\n  dscp 7\n}\n"

read_lines-IsSound_example :
    IsSound (read_lines 100 config_file (start cleared_globals) (roomy 0)).0
read_lines-IsSound_example =
    read_lines-IsSound 100 config_file (start cleared_globals) (roomy 0) (refl, refl)

is_empty_line_lem_example :
    is_empty_line (codes "dscp 1 # x\n")
    ≡ (all_blank (uncommented (codes "dscp 1 # x\n")), uncommented (codes "dscp 1 # x\n"))
is_empty_line_lem_example = is_empty_line_lem (codes "dscp 1 # x\n")

read_lines_enough_example :
    read_lines 9 (codes "switch s\n") (start cleared_globals) (roomy 0)
    ≡ read_lines 50 (codes "switch s\n") (start cleared_globals) (roomy 0)
read_lines_enough_example =
    read_lines_enough 9 50 (codes "switch s\n") (start cleared_globals) (roomy 0) (omega arith)
      (omega arith)

-- The item of the list is refused, and the copy of the text is lost.
copy_lost :
    string_list_add_copy none (codes "a") (record { plan = true ∷ false ∷ []; live = 0 })
    ≡ (none, record { plan = []; live = 1 })
unfolding string_list_add_copy string_duplicate string_list_add malloc
copy_lost = refl
