-- ===== src/Config/Values.antt =====
-- The values of settings that are printed: words, decimal numbers and addresses (src/config.c, src/types.c).
use ipfix.Address.{print_ip, octet_at}
use ipfix.Common.{
  ℕ, zero, suc, ◌≤◌, ◌<◌, ◌^◌, Bool, true, false, not, ◌&&◌, [], ◌∷◌, ◌++◌, ◌==◌, ◌≡◌, ◌≢◌, refl,
  arith, All, length, length-take, take,
}
use ipfix.Config.Lines.{separators, IsPlain, All-append}
use ipfix.Config.Printed.{IsWord}
use ipfix.Number.Decimal.{decimal, IsDigit, decimal_digits, decimal-ne-nil, length-decimal}
use ipfix.Text.{Bytes, contains}

-- A text that stands as a value in a line.
pub record IsValue (t : Bytes) : Type 0 where
  pub plain : IsPlain t
  pub word : IsWord t
  pub short : length t < 4000

-- A test of the bytes of a text that is written out.
abbrev pub plain_bytes : Bytes → Bool
plain_bytes [] = true
plain_bytes (c ∷ t) = not (contains separators c) && not (c == b'#') && plain_bytes t

plain_of :
    (t : Bytes)
    → plain_bytes t ≡ true
    → All (λ c. contains separators c ≡ false) t × All (λ c. (c == b'#') ≡ false) t
plain_of [] e = (tt, tt)
plain_of (c ∷ t) e =
    let (clean, uncommented) = plain_of t (ground arith) in
    ((ground arith, clean), (ground arith, uncommented))

pub IsPlain-text : (c : ℕ) (t : Bytes) → plain_bytes (c ∷ t) ≡ true → IsPlain (c ∷ t)
IsPlain-text c t e =
    let (clean, uncommented) = plain_of (c ∷ t) e in (((λ n. cc), clean), uncommented)

pub literal :
    (c : ℕ) (t : Bytes)
    → plain_bytes (c ∷ t) ≡ true
    → IsWord (c ∷ t)
    → length (c ∷ t) < 4000
    → IsValue (c ∷ t)
literal c t e w short = record { plain = IsPlain-text c t e; word = w; short = short }

-- A digit or a dot.
abbrev IsNumeral : ℕ → Type 0
IsNumeral c = (b'.' ≤ c) × (c ≤ b'9')

numeral_clean : (t : Bytes) → All IsNumeral t → All (λ c. contains separators c ≡ false) t
unfolding contains
numeral_clean [] k = tt
numeral_clean (c ∷ t) k = (ground arith, numeral_clean t k.1)

numeral_uncommented : (t : Bytes) → All IsNumeral t → All (λ c. (c == b'#') ≡ false) t
numeral_uncommented [] k = tt
numeral_uncommented (c ∷ t) k = (ground arith, numeral_uncommented t k.1)

numeral-IsWord : (t : Bytes) → All IsNumeral t → IsWord t
numeral-IsWord [] k = (refl, refl)
numeral-IsWord (c ∷ t) k = (ground arith, ground arith)

numeral_value : (t : Bytes) → All IsNumeral t → t ≢ [] → length t < 4000 → IsValue t
numeral_value t k n short = record {
  plain = ((n, numeral_clean t k), numeral_uncommented t k);
  word = numeral-IsWord t k;
  short = short;
}

digit-IsNumeral : (t : Bytes) → All IsDigit t → All IsNumeral t
digit-IsNumeral [] k = tt
digit-IsNumeral (c ∷ t) k = (omega (arith, k.0), digit-IsNumeral t k.1)

pub decimal-IsValue : (n : ℕ) → n < 256 → IsValue (decimal n)
decimal-IsValue n h =
    numeral_value (decimal n) (digit-IsNumeral (decimal n) (decimal_digits n))
      (decimal-ne-nil n (omega arith)) (omega (arith, length-decimal n h))

All-take : (P : ℕ → Type 0) (n : ℕ) (t : Bytes) → All P t → All P (take n t)
All-take P zero t k = tt
All-take P (suc n) [] k = tt
All-take P (suc n) (c ∷ t) k = (k.0, All-take P n t k.1)

dotted : (t u : Bytes) → All IsNumeral t → All IsNumeral u → All IsNumeral (t ++ (b'.' ∷ u))
dotted t u k l = All-append IsNumeral t (b'.' ∷ u) k (omega arith, l)

octet-IsNumeral : (n : ℕ) → All IsNumeral (decimal n)
octet-IsNumeral n = digit-IsNumeral (decimal n) (decimal_digits n)

take-ne-nil : (n : ℕ) (t u : Bytes) → t ≢ [] → take (suc n) (t ++ u) ≢ []
take-ne-nil n [] u k e = k refl
take-ne-nil n (c ∷ t) u k e = cc

pub print_ip-IsValue : (v : ℕ) → v < 2 ^ 32 → IsValue (print_ip v)
unfolding print_ip
print_ip-IsValue v h =
    let a = decimal (octet_at 3 v) in
    let b = decimal (octet_at 2 v) in
    let c = decimal (octet_at 1 v) in
    let d = decimal (octet_at 0 v) in
    let text = a ++ (b'.' ∷ (b ++ (b'.' ∷ (c ++ (b'.' ∷ d))))) in
    let numerals = dotted a (b ++ (b'.' ∷ (c ++ (b'.' ∷ d)))) (octet-IsNumeral (octet_at 3 v)) (
      dotted b (c ++ (b'.' ∷ d)) (octet-IsNumeral (octet_at 2 v))
        (dotted c d (octet-IsNumeral (octet_at 1 v)) (octet-IsNumeral (octet_at 0 v)))) in
    numeral_value (take 15 text) (All-take IsNumeral 15 text numerals)
      (take-ne-nil 14 a (b'.' ∷ (b ++ (b'.' ∷ (c ++ (b'.' ∷ d)))))
        (decimal-ne-nil (octet_at 3 v) (omega arith)))
      (omega (arith, length-take 15 text))
