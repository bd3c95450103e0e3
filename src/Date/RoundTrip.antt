-- ===== src/Date/RoundTrip.antt =====
-- The date parser of src/types.c on dates with decimal numbers and with numbers of two digits.
use ipfix.Common.Int.{ℤ, pos}
use ipfix.Common.{
  ◌+◌, ◌/◌, ◌==◌, ◌||◌, if◌then◌else◌, ◌⊎◌, inl, inr, holds_below, at_below, ℕ, ◌%◌, ◌^◌, ◌<◌, Bool,
  true, false, [], ◌∷◌, ◌++◌, some, ◌≡◌, ◌≢◌, refl, All, arith, codes,
}
use ipfix.Date.{
  Datetime, set_number, time_of_items, time_finish, read_time, date_of_items, date_finish,
  halves_of_items, halves_finish, parse_datetime_iso8601,
}
use ipfix.Heap.{Heap, has_room}
use ipfix.Number.Decimal.{decimal, strtoull-decimal, IsDigit, decimal_digits, decimal-ne-nil}
use ipfix.Number.{
  parse_unsigned, to_int, strtoull, skip_space, magnitude, strip_hex, digits_from, digit_value,
}
use ipfix.Text.Join.{join, Clean, IsToken, string_split-join, string_split_roomy}
use ipfix.Text.{Bytes, contains, string_split}
use ipfix.Time.{set_seconds}

-- A number of a date as it is written, and what is read.
pub record Part : Type 0 where
  pub text : Bytes
  pub value : ℕ

-- The text of two digits, with a zero in front where there is one digit.
abbrev pub two_digits : ℕ → Bytes
two_digits n = (b'0' + n / 10) ∷ (b'0' + n % 10) ∷ []

-- With a zero in front the number is octal: 08 and 09 are read as 0.
abbrev pub as_octal : ℕ → ℕ
as_octal n = if n == 8 || n == 9 then 0 else n

-- A decimal text that starts with no zero, or "0", is read as its number; a text of two digits, as an octal
-- number if it starts with a zero.
abbrev pub Shown : Part → Type 0
Shown p =
    ((p.text ≡ decimal p.value) × (p.value < 2 ^ 31))
    ⊎ ((n : ℕ) × (n < 100) × (p.text ≡ two_digits n) × (p.value ≡ as_octal n))

-- What the parser needs of a text.
record Reads (p : Part) : Type 0 where
  pub small : p.value < 2 ^ 31
  pub value : strtoull p.text 0 ≡ p.value
  pub some_digit : p.text ≢ []
  pub digits : All IsDigit p.text

two_digits_read : holds_below (λ n. strtoull (two_digits n) 0 == as_octal n) 100 ≡ true
unfolding holds_below strtoull skip_space magnitude strip_hex digits_from digit_value
two_digits_read = refl

Shown-Reads : (p : Part) → Shown p → Reads p
Shown-Reads p (inl (e, h)) = record {
  small = h;
  value = rw e (strtoull-decimal p.value (omega arith));
  some_digit = rw e (decimal-ne-nil p.value (omega arith));
  digits = rw e (decimal_digits p.value);
}
Shown-Reads p (inr (n, h, e, v)) = record {
  small = rw v (ground arith);
  value =
      rw (e, v)
        (ground
          (arith, at_below (λ n. strtoull (two_digits n) 0 == as_octal n) 100 two_digits_read n h));
  some_digit = rw e (λ z. cc);
  digits = rw e ((omega arith, omega arith), ((omega arith, omega arith), tt));
}

set_number-Reads :
    (f : ℤ → Datetime → Datetime) (p : Part) (d : Datetime)
    → Reads p
    → set_number f p.text (true, d) ≡ (true, f (pos p.value) d)
unfolding set_number parse_unsigned
set_number-Reads f p d k =
    let n = p.value in
    let h = k.small in
    let small : to_int (pos n) ≡ pos n = ground arith in
    let same : n % 2 ^ 32 ≡ n = omega arith in rw (k.value, same, small)

-- The texts of three numbers with a byte between them.
abbrev pub three : ℕ → Part → Part → Part → Bytes
three c x y z = join c (x.text ∷ y.text ∷ z.text ∷ [])

-- A separator that is not a digit.
abbrev Lone : ℕ → Type 0
Lone c = (n : ℕ) → IsDigit n → contains (c ∷ []) n ≡ false

digits_Clean : (c : ℕ) (t : Bytes) → Lone c → All IsDigit t → Clean (contains (c ∷ [])) t
digits_Clean c [] l k = tt
digits_Clean c (n ∷ t) l k = (l n k.0, digits_Clean c t l k.1)

part_Token : (c : ℕ) (p : Part) → Lone c → Reads p → IsToken (contains (c ∷ [])) p.text
part_Token c p l k = (k.some_digit, digits_Clean c p.text l k.digits)

Clean-append : (p : ℕ → Bool) (s t : Bytes) → Clean p s → Clean p t → Clean p (s ++ t)
Clean-append p [] t a b = b
Clean-append p (c ∷ s) t a b = (a.0, Clean-append p s t a.1 b)

concat-ne-nil : (s t : Bytes) → s ≢ [] → s ++ t ≢ []
concat-ne-nil [] t k e = k refl
concat-ne-nil (c ∷ s) t k e = cc

split_three :
    (c : ℕ) (x y z : Part) (h : Heap)
    → Lone c
    → contains (c ∷ []) c ≡ true
    → Reads x × Reads y × Reads z
    → has_room h.plan ≡ true
    → (string_split (three c x y z) (c ∷ []) h).0
      ≡ some (record { items = x.text ∷ y.text ∷ z.text ∷ []; count = 3 })
split_three c x y z h l e (hx, hy, hz) room =
    string_split-join c (c ∷ []) (x.text ∷ y.text ∷ z.text ∷ []) h e
      (part_Token c x l hx, (part_Token c y l hy, (part_Token c z l hz, tt))) room

abbrev timed : Part → Part → Part → Datetime → Datetime
timed x y z d = record d {
  hours = pos x.value;
  minutes = pos y.value;
  seconds = pos z.value;
  milliseconds = pos 0;
}

abbrev dated : Part → Part → Part → Datetime → Datetime
dated x y z d = record d { year = pos x.value; month = pos y.value; day = pos z.value }

time_of_items-Reads :
    (x y z : Part) (d : Datetime)
    → Reads x × Reads y × Reads z
    → time_of_items (x.text ∷ y.text ∷ z.text ∷ []) d ≡ (true, timed x y z d)
unfolding time_of_items
time_of_items-Reads x y z d (hx, hy, hz) =
    rw (set_number-Reads _ x _ hx, set_number-Reads _ y _ hy, set_number-Reads _ z _ hz)

date_of_items-Reads :
    (x y z : Part) (d : Datetime)
    → Reads x × Reads y × Reads z
    → date_of_items (x.text ∷ y.text ∷ z.text ∷ []) d ≡ (true, dated x y z d)
unfolding date_of_items
date_of_items-Reads x y z d (hx, hy, hz) =
    rw (set_number-Reads _ x _ hx, set_number-Reads _ y _ hy, set_number-Reads _ z _ hz)

colon_Lone : Lone b':'
unfolding contains
colon_Lone n h = ground arith

dash_Lone : Lone b'-'
unfolding contains
dash_Lone n h = ground arith

t_Lone : Lone b'T'
unfolding contains
t_Lone n h = ground arith

read_time-three :
    (x y z : Part) (d : Datetime) (h : Heap)
    → Reads x × Reads y × Reads z
    → has_room h.plan ≡ true
    → (read_time (true, d) (three b':' x y z) h).0 ≡ (true, timed x y z d)
unfolding read_time time_finish
read_time-three x y z d h small room =
    rw (split_three b':' x y z h colon_Lone (unfold contains in refl) small room)
      (time_of_items-Reads x y z d small)

three-IsToken :
    (c : ℕ) (x y z : Part)
    → contains (codes "T") c ≡ false
    → Reads x × Reads y × Reads z
    → IsToken (contains (codes "T")) (three c x y z)
three-IsToken c x y z e (hx, hy, hz) =
    let (some_x, clean_x) = part_Token b'T' x t_Lone hx in
    let (some_y, clean_y) = part_Token b'T' y t_Lone hy in
    let (some_z, clean_z) = part_Token b'T' z t_Lone hz in
    (
      concat-ne-nil x.text _ some_x,
      Clean-append (contains (codes "T")) x.text _ clean_x
          (e, Clean-append (contains (codes "T")) y.text _ clean_y (e, clean_z)),
    )

date_finish-three :
    (y m n a b c : Part) (d : Datetime) (h : Heap)
    → Reads y × Reads m × Reads n
    → Reads a × Reads b × Reads c
    → has_room h.plan ≡ true
    → (date_finish
        (some (record { items = y.text ∷ m.text ∷ n.text ∷ []; count = 3 }))
        (three b':' a b c)
        d
        h).0
      ≡ (true, timed a b c (dated y m n d))
unfolding date_finish
date_finish-three y m n a b c d h date time room =
    rw (date_of_items-Reads y m n d date) (read_time-three a b c (dated y m n d) h time room)

halves_of_items-three :
    (y m n a b c : Part) (d : Datetime) (h : Heap)
    → Reads y × Reads m × Reads n
    → Reads a × Reads b × Reads c
    → has_room h.plan ≡ true
    → (halves_of_items (three b'-' y m n ∷ three b':' a b c ∷ []) d h).0
      ≡ (true, timed a b c (dated y m n d))
unfolding halves_of_items
halves_of_items-three y m n a b c d h date time room =
    rw (split_three b'-' y m n h dash_Lone (unfold contains in refl) date room) (
      date_finish-three y m n a b c d _ date time
        (string_split_roomy (three b'-' y m n) (codes "-") h room))

-- "year-month-dayThours:minutes:seconds"
abbrev pub iso_text : (y m n a b c : Part) → Bytes
iso_text y m n a b c = join b'T' (three b'-' y m n ∷ three b':' a b c ∷ [])

parse_datetime_iso8601-Reads :
    (y m n a b c : Part) (d : Datetime) (h : Heap)
    → Reads y × Reads m × Reads n
    → Reads a × Reads b × Reads c
    → has_room h.plan ≡ true
    → (parse_datetime_iso8601 (some (iso_text y m n a b c)) d h).0 ≡ (
      true,
      record {
        year = pos y.value;
        month = pos m.value;
        day = pos n.value;
        hours = pos a.value;
        minutes = pos b.value;
        seconds = pos c.value;
        milliseconds = pos 0;
        tz_offset = set_seconds (pos 0);
        has_value = true;
      },
    )
unfolding parse_datetime_iso8601 halves_finish
parse_datetime_iso8601-Reads y m n a b c d h date time room =
    rw
      (
        string_split-join b'T' (codes "T") (three b'-' y m n ∷ three b':' a b c ∷ []) h
            (unfold contains in refl)
            (
              three-IsToken b'-' y m n (unfold contains in refl) date,
              (three-IsToken b':' a b c (unfold contains in refl) time, tt),
            )
            room,
        halves_of_items-three y m n a b c d (string_split (iso_text y m n a b c) (codes "T") h).1
            date time (string_split_roomy (iso_text y m n a b c) (codes "T") h room),
      )
      refl

-- A text of six numbers in the form year-month-dayThours:minutes:seconds, where each is a decimal number
-- below 2 ^ 31 that starts with no zero unless it is 0, or has two digits: a number is read as it is written, except that 08 and
-- 09 are read as 0. This holds whatever the target held, if no call of `malloc` is refused. Nothing
-- checks that the numbers are a date.
pub parse_datetime_iso8601-Shown :
    (y m n a b c : Part) (d : Datetime) (h : Heap)
    → Shown y × Shown m × Shown n
    → Shown a × Shown b × Shown c
    → has_room h.plan ≡ true
    → (parse_datetime_iso8601 (some (iso_text y m n a b c)) d h).0 ≡ (
      true,
      record {
        year = pos y.value;
        month = pos m.value;
        day = pos n.value;
        hours = pos a.value;
        minutes = pos b.value;
        seconds = pos c.value;
        milliseconds = pos 0;
        tz_offset = set_seconds (pos 0);
        has_value = true;
      },
    )
parse_datetime_iso8601-Shown y m n a b c d h (sy, sm, sn) (sa, sb, sc) room =
    parse_datetime_iso8601-Reads y m n a b c d h
      (Shown-Reads y sy, Shown-Reads m sm, Shown-Reads n sn)
      (Shown-Reads a sa, Shown-Reads b sb, Shown-Reads c sc) room
