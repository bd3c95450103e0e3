-- ===== src/Number/Parse.antt =====
-- What the number parsers of src/types.c make of decimal texts.
use ipfix.Common.{ℕ, ◌%◌, ◌^◌, ◌<◌, Bool, true, [], ◌∷◌, some, ◌≡◌, ap, arith, ◌⊎◌}
use ipfix.Text.{Bytes}
use ipfix.Number.{
  digit_value, digits_from, strip_hex, magnitude, skip_space, strtoull, parse_unsigned, parse_octet,
  parse_byte, parse_u16, parse_u32, parse_u64,
}
use ipfix.Number.Decimal.{decimal, strtoull-decimal}

abbrev stored_as : (ℕ → ℕ) → ℕ → Bool × ℕ
stored_as f m = (true, f m)

-- Each parser of an unsigned type accepts the decimal text of every 64-bit number and stores the
-- number reduced to the width of its type: only numbers that fit are read back as they are.
pub parse-decimal :
    (n old : ℕ)
    → n < 2 ^ 64
    → (parse_octet (some (decimal n)) old ≡ (true, n % 2 ^ 8))
      × (parse_byte (some (decimal n)) old ≡ (true, n % 2 ^ 8))
      × (parse_u16 (some (decimal n)) old ≡ (true, n % 2 ^ 16))
      × (parse_u32 (some (decimal n)) old ≡ (true, n % 2 ^ 32))
      × (parse_unsigned (some (decimal n)) old ≡ (true, n % 2 ^ 32))
      × (parse_u64 (some (decimal n)) old ≡ (true, n))
unfolding parse_octet parse_byte parse_u16 parse_u32 parse_unsigned parse_u64
parse-decimal n old h =
    let e = strtoull-decimal n h in
    (
      ap (stored_as (λ m. m % 2 ^ 8)) e,
      ap (stored_as (λ m. m % 2 ^ 8)) e,
      ap (stored_as (λ m. m % 2 ^ 16)) e,
      ap (stored_as (λ m. m % 2 ^ 32)) e,
      ap (stored_as (λ m. m % 2 ^ 32)) e,
      ap (stored_as (λ m. m)) e,
    )

octal_zero : (c : ℕ) (s : Bytes) → (c ≡ b'8') ⊎ (c ≡ b'9') → strtoull (b'0' ∷ c ∷ s) 0 ≡ 0
unfolding strtoull skip_space magnitude strip_hex digits_from digit_value
octal_zero c [] h = ground arith
octal_zero c (d ∷ s) h = ground arith

-- `nvipfix_parse_unsigned`, which reads the parts of a date, takes a text that starts with "08" or "09"
-- for an octal number with no digits behind the 0: it stores 0 and returns true.
pub parse_unsigned_octal :
    (c : ℕ) (s : Bytes) (old : ℕ)
    → (c ≡ b'8') ⊎ (c ≡ b'9')
    → parse_unsigned (some (b'0' ∷ c ∷ s)) old ≡ (true, 0)
unfolding parse_unsigned
parse_unsigned_octal c s old h = ap (stored_as (λ m. m % 2 ^ 32)) (octal_zero c s h)
