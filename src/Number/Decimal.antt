-- ===== src/Number/Decimal.antt =====
-- Decimal texts: what `printf` writes for "%d" of a number that is not negative, and that `strtoull`
-- with base 0 reads it back.
use native.Mathlib.Nat.{pow-suc}
use ipfix.Common.{
  leb→le, holds_below, at_below, All, length, ◌≢◌, ap, sym, ◌∙◌, ltb→lt, lt→ltb, ℕ, zero, suc, ◌+◌,
  ◌*◌, ◌/◌, ◌%◌, ◌^◌, ◌≤◌, ◌<◌, true, false, inl, inr, [], ◌∷◌, none, ◌≡◌, refl, arith, ltb, leb,
  ◌==◌, if◌then◌else◌, Bool-cases,
}
use ipfix.Text.{Bytes}
use ipfix.Number.{
  digit_value, digits_from, strip_hex, magnitude, skip_space, skip_sign, is_negative, strtoull,
}

-- At most `fuel` digits.
decimal_onto : ℕ → ℕ → Bytes → Bytes
decimal_onto zero n out = out
decimal_onto (suc fuel) n out =
    let more = decimal_onto fuel (n / 10) ((b'0' + n % 10) ∷ out) in
    if ltb n 10 then (b'0' + n) ∷ out else more

-- Twenty digits are enough for 64 bits.
unfoldable pub decimal : ℕ → Bytes
unfolding decimal_onto
decimal n = decimal_onto 20 n []

digit_value_digit : (d : ℕ) → d < 10 → digit_value (b'0' + d) ≡ d
unfolding digit_value
digit_value_digit d h = ground arith

digits_from-cons :
    (base acc d m : ℕ) (s : Bytes)
    → d < 10
    → d < base
    → acc * base + d ≡ m
    → digits_from base acc ((b'0' + d) ∷ s) ≡ digits_from base m s
unfolding digits_from
digits_from-cons base acc d m s h k e = ground (arith, digit_value_digit d h)

digits_from-decimal_onto :
    (fuel n : ℕ) (out : Bytes)
    → n < 10 ^ fuel
    → digits_from 10 0 (decimal_onto fuel n out) ≡ digits_from 10 n out
unfolding decimal_onto
digits_from-decimal_onto zero n out h = let e : n ≡ 0 = omega arith in rw e
digits_from-decimal_onto (suc fuel) n out h = elim (Bool-cases (ltb n 10)) [
  | inl t ↦ rw t (digits_from-cons 10 0 n n out (ltb→lt n 10 t) (ltb→lt n 10 t) (omega arith))
  | inr f ↦ rw f (
      digits_from-decimal_onto fuel (n / 10) ((b'0' + n % 10) ∷ out)
        (omega (arith, pow-suc 10 fuel))
      ∙ digits_from-cons 10 (n / 10) (n % 10) n out (omega arith) (omega arith) (omega arith))
]

-- The first digit is not zero unless the number is.
decimal_onto_head :
    (fuel n : ℕ) (out : Bytes)
    → n < 10 ^ suc fuel
    → (d : ℕ) × (rest : Bytes) × (decimal_onto (suc fuel) n out ≡ (b'0' + d) ∷ rest)
      × (d < 10)
      × (0 < n → 0 < d)
unfolding decimal_onto
decimal_onto_head zero n out h = (n, out, rw (lt→ltb n 10 (omega arith)), omega arith, λ p. p)
decimal_onto_head (suc fuel) n out h = elim (Bool-cases (ltb n 10)) [
  | inl t ↦ (n, out, rw t, ltb→lt n 10 t, λ p. p)
  | inr f ↦
      let lt : n / 10 < 10 ^ suc fuel = omega (arith, pow-suc 10 (suc fuel)) in
      let (d, rest, e, small, first) = decimal_onto_head fuel (n / 10) ((b'0' + n % 10) ∷ out) lt in
      (d, rest, rw f e, small, λ p. first (ground arith))
]

-- A text that starts with a digit from 1 to 9 is read in base 10.
strip_hex_digit : (c : ℕ) (s : Bytes) → b'0' < c → strip_hex (c ∷ s) ≡ none
unfolding strip_hex
strip_hex_digit c [] h = refl
strip_hex_digit c (x ∷ []) h = refl
strip_hex_digit c (x ∷ d ∷ s) h = ground arith

skip_space_digit : (c : ℕ) (s : Bytes) → b'0' < c → skip_space (c ∷ s) ≡ c ∷ s
unfolding skip_space
skip_space_digit c s h = ground arith

skip_sign_digit :
    (c : ℕ) (s : Bytes) → b'0' < c → (skip_sign (c ∷ s) ≡ c ∷ s) × (is_negative (c ∷ s) ≡ false)
skip_sign_digit c s h = ground arith

magnitude_digit : (c : ℕ) (s : Bytes) → b'0' < c → magnitude 0 (c ∷ s) ≡ digits_from 10 0 (c ∷ s)
unfolding magnitude
magnitude_digit c s h = let z : (c == b'0') ≡ false = ground arith in rw (strip_hex_digit c s h, z)

strtoull_digits :
    (c : ℕ) (s : Bytes) (n : ℕ)
    → b'0' < c
    → digits_from 10 0 (c ∷ s) ≡ n
    → n < 2 ^ 64
    → strtoull (c ∷ s) 0 ≡ n
unfolding strtoull
strtoull_digits c s n p e lt =
    let fits : leb (2 ^ 64) n ≡ false = ground arith in
    let (plain, positive) = skip_sign_digit c s p in
    rw (skip_space_digit c s p, plain, positive, magnitude_digit c s p, e, fits)

-- `strtoull` with base 0 reads every 64-bit number back from its decimal text.
pub strtoull-decimal : (n : ℕ) → n < 2 ^ 64 → strtoull (decimal n) 0 ≡ n
unfolding decimal
strtoull-decimal zero h =
    unfold strtoull skip_space magnitude strip_hex digits_from digit_value decimal_onto in refl
strtoull-decimal (suc m) h =
    let n = suc m in
    let (d, rest, e, small, first) = decimal_onto_head 19 n [] (omega arith) in
    rw e (
      strtoull_digits (b'0' + d) rest n (omega (arith, first (omega arith)))
        (ap (digits_from 10 0) (sym e)
          ∙ digits_from-decimal_onto 20 n [] (omega arith)
          ∙ unfold digits_from in refl)
        h)

-- A decimal text consists of digits and is not empty.
abbrev pub IsDigit : ℕ → Type 0
IsDigit c = (b'0' ≤ c) × (c ≤ b'9')

decimal_onto_digits :
    (fuel n : ℕ) (out : Bytes) → All IsDigit out → All IsDigit (decimal_onto fuel n out)
unfolding decimal_onto
decimal_onto_digits zero n out h = h
decimal_onto_digits (suc fuel) n out h =
    let next = decimal_onto_digits fuel (n / 10) ((b'0' + n % 10) ∷ out) (omega arith, h) in
    elim (Bool-cases (ltb n 10)) [
      | inl t ↦ rw t (omega (arith, ltb→lt n 10 t), h)
      | inr f ↦ rw f next
    ]

pub decimal_digits : (n : ℕ) → All IsDigit (decimal n)
unfolding decimal
decimal_digits n = decimal_onto_digits 20 n [] tt

pub decimal-ne-nil : (n : ℕ) → n < 2 ^ 64 → decimal n ≢ []
unfolding decimal
decimal-ne-nil n h z = let (d, rest, e, _, _) = decimal_onto_head 19 n [] (omega arith) in cc e

octet_lengths : holds_below (λ n. leb (length (decimal n)) 3) 256 ≡ true
unfolding holds_below decimal
octet_lengths = refl

pub length-decimal : (n : ℕ) → n < 256 → length (decimal n) ≤ 3
length-decimal n h = leb→le _ _ (at_below (λ m. leb (length (decimal m)) 3) 256 octet_lengths n h)
