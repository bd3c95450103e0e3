-- ===== src/Number.antt =====
-- The number parsers of src/types.c, lines 33-41 and 503-557, with what they use of the C library:
-- `strtoull`, `strtoll` (64-bit `long long`), `strtoul` and `atoi` (64-bit `long`). A result that a
-- C conversion narrows is its bit pattern below 2 ^ w, or the integer that the pattern stands for.
pub mod Decimal
pub mod Parse
use ipfix.Common.{
  ℕ, zero, suc, ◌+◌, ◌-◌, ◌*◌, ◌/◌, ◌%◌, ◌^◌, Bool, true, false, ◌&&◌, ◌||◌, List, [], ◌∷◌, Option,
  none, some, ltb, leb, ◌==◌, if◌then◌else◌,
}
use ipfix.Common.Int.{ℤ, pos, negsuc, sub_ℕ}
use ipfix.Text.{Bytes}

abbrev pub is_space : ℕ → Bool
is_space c = c == 32 || (leb 9 c && leb c 13)

unfoldable pub skip_space : Bytes → Bytes
skip_space [] = []
skip_space (c ∷ s) = if is_space c then skip_space s else c ∷ s

-- 36 for a byte that is no digit in any base.
unfoldable pub digit_value : ℕ → ℕ
digit_value c =
    if leb b'0' c && leb c b'9'
    then c - b'0'
    else if leb b'a' c && leb c b'z'
    then c - b'a' + 10
    else if leb b'A' c && leb c b'Z'
    then c - b'A' + 10
    else 36

unfoldable pub digits_from : ℕ → ℕ → Bytes → ℕ
digits_from base acc [] = acc
digits_from base acc (c ∷ s) =
    let more = digits_from base (acc * base + digit_value c) s in
    if ltb (digit_value c) base then more else acc

-- The text behind "0x", if a hexadecimal digit follows.
unfoldable pub strip_hex : Bytes → Option Bytes
strip_hex (a ∷ x ∷ d ∷ s) =
    if a == b'0' && (x == b'x' || x == b'X') && ltb (digit_value d) 16 then some (d ∷ s) else none
strip_hex _ = none

abbrev pub starts_with_zero : Bytes → Bool
starts_with_zero [] = false
starts_with_zero (c ∷ s) = c == b'0'

-- The number that is read behind the sign; base 0 finds the base from the prefix.
unfoldable pub magnitude : ℕ → Bytes → ℕ
magnitude base s = if base == 10 then digits_from 10 0 s else elim (strip_hex s) [
  | some t ↦ digits_from 16 0 t
  | none ↦ digits_from (if base == 0 then (if starts_with_zero s then 8 else 10) else base) 0 s
]

abbrev pub is_negative : Bytes → Bool
is_negative [] = false
is_negative (c ∷ s) = c == b'-'

abbrev pub skip_sign : Bytes → Bytes
skip_sign [] = []
skip_sign (c ∷ s) = if c == b'-' || c == b'+' then s else c ∷ s

-- Out of range is ULLONG_MAX; a minus sign negates in the unsigned type.
unfoldable pub strtoull : Bytes → ℕ → ℕ
strtoull s base =
    let t = skip_space s in
    let m = magnitude base (skip_sign t) in
    if leb (2 ^ 64) m then 2 ^ 64 - 1 else if is_negative t then (2 ^ 64 - m) % 2 ^ 64 else m

-- Out of range is LLONG_MIN or LLONG_MAX.
unfoldable pub strtoll : Bytes → ℕ → ℤ
strtoll s base =
    let t = skip_space s in
    let m = magnitude base (skip_sign t) in
    if is_negative t
    then (if ltb (2 ^ 63) m then sub_ℕ 0 (2 ^ 63) else sub_ℕ 0 m)
    else (if leb (2 ^ 63) m then pos (2 ^ 63 - 1) else pos m)

abbrev pub strtoul : Bytes → ℕ → ℕ
strtoul = strtoull

-- The bit pattern of an integer in `w` bits.
abbrev pub pattern_of : ℕ → ℤ → ℕ
pattern_of w (pos n) = n % 2 ^ w
pattern_of w (negsuc n) = 2 ^ w - 1 - n % 2 ^ w

-- The integer that a pattern of `w` bits stands for.
abbrev pub signed : ℕ → ℕ → ℤ
signed w p = if ltb p (2 ^ (w - 1)) then pos p else negsuc (2 ^ w - 1 - p)

-- `(int)` of a long long.
abbrev pub to_int : ℤ → ℤ
to_int z = signed 32 (pattern_of 32 z)

unfoldable pub atoi : Bytes → ℤ
atoi s = to_int (strtoll s 10)

-- The parsers of types.c. Each stores its value and returns true, for every text; of the text NULL
-- it returns false and leaves the old value. (The target is never NULL.)
module _ {ℓ} {A : Type ℓ} where
  abbrev pub stored : Option Bytes → (Bytes → A) → A → Bool × A
  stored none value old = (false, old)
  stored (some s) value old = (true, value s)

unfoldable pub parse_int : Option Bytes → ℤ → Bool × ℤ
parse_int a_s = stored a_s (λ s. to_int (strtoll s 0))

unfoldable pub parse_unsigned : Option Bytes → ℕ → Bool × ℕ
parse_unsigned a_s = stored a_s (λ s. strtoull s 0 % 2 ^ 32)

unfoldable pub parse_octet : Option Bytes → ℕ → Bool × ℕ
parse_octet a_s = stored a_s (λ s. strtoull s 0 % 2 ^ 8)

unfoldable pub parse_byte : Option Bytes → ℕ → Bool × ℕ
parse_byte a_s = stored a_s (λ s. strtoull s 0 % 2 ^ 8)

unfoldable pub parse_u16 : Option Bytes → ℕ → Bool × ℕ
parse_u16 a_s = stored a_s (λ s. strtoull s 0 % 2 ^ 16)

unfoldable pub parse_u32 : Option Bytes → ℕ → Bool × ℕ
parse_u32 a_s = stored a_s (λ s. strtoull s 0 % 2 ^ 32)

unfoldable pub parse_i64 : Option Bytes → ℤ → Bool × ℤ
parse_i64 a_s = stored a_s (λ s. strtoll s 0)

unfoldable pub parse_u64 : Option Bytes → ℕ → Bool × ℕ
parse_u64 a_s = stored a_s (λ s. strtoull s 0)
