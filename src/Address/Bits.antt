-- ===== src/Address/Bits.antt =====
-- `|` of numbers with no common bit is their sum.
use Prim.Native.Nat.{bit_or, bit_or-bitwise, digits, max}
use native.Mathlib.Nat.{pow-suc}
use ipfix.Common.{ℕ, zero, suc, ◌+◌, ◌*◌, ◌/◌, ◌%◌, ◌^◌, ◌≤◌, ◌<◌, ◌≡◌, refl, sym, ◌∙◌, ap, arith}

-- The bits of `a`, then those of `b`, by halving: the meaning of the native operation.
abbrev joined : ℕ → ℕ → ℕ → ℕ
joined steps a b = digits (λ left. left) max steps a b

joined_nothing : (b steps : ℕ) → joined steps zero b ≡ b
joined_nothing b zero = refl
joined_nothing b (suc steps) = refl

-- more steps than `a` needs change nothing
joined_steps : (b a fuel more : ℕ) → (a ≤ fuel) × (a ≤ more) → joined fuel a b ≡ joined more a b
joined_steps b zero fuel more h = joined_nothing b fuel ∙ sym (joined_nothing b more)
joined_steps b (suc a) zero more h = absurd (omega (arith, h.0))
joined_steps b (suc a) (suc fuel) zero h = absurd (omega (arith, h.1))
joined_steps b (suc a) (suc fuel) (suc more) h =
    let rest =
      joined_steps (b / 2) (suc a / 2) fuel more (omega (arith, h.0), omega (arith, h.1)) in
    omega (arith, rest)

or_nothing : (b : ℕ) → bit_or 0 b ≡ b
or_nothing = bit_or-bitwise 0

lowest_bit : (b a : ℕ) → max (a % 2) (b % 2) + bit_or (a / 2) (b / 2) * 2 ≡ bit_or a b
lowest_bit b zero = omega (arith, or_nothing (b / 2), or_nothing b)
lowest_bit b (suc a) =
    let whole = bit_or-bitwise (suc a) b in
    let upper = bit_or-bitwise (suc a / 2) (b / 2) in
    let steps = joined_steps (b / 2) (suc a / 2) (suc a / 2) a (omega arith, omega arith) in
    omega (arith, steps, upper, whole)

or_with_nothing : (a bound : ℕ) → a ≤ bound → bit_or a 0 ≡ a
or_with_nothing zero bound h = refl
or_with_nothing (suc a) zero h = absurd (omega arith)
or_with_nothing (suc a) (suc bound) h =
    let upper = or_with_nothing (suc a / 2) bound (omega arith) in
    omega (arith, upper, lowest_bit 0 (suc a))

-- The low `k` bits of the left operand are free.
pub bit_or-eq-add : (k a b m : ℕ) → m ≡ a * 2 ^ k → b < 2 ^ k → bit_or m b ≡ m + b
bit_or-eq-add zero a b m e h =
    let z : b ≡ 0 = omega arith in rw z (or_with_nothing m m (omega arith) ∙ omega arith)
bit_or-eq-add (suc k) a b m e h =
    let even : m ≡ 2 * (a * 2 ^ k) =
      omega (arith, e, pow-suc 2 k, ap (λ (t : ℕ). a * t) (pow-suc 2 k)) in
    let small : b < 2 * 2 ^ k = omega (arith, pow-suc 2 k) in
    omega
      (arith, even, lowest_bit b m, bit_or-eq-add k a (b / 2) (m / 2) (omega arith) (omega arith))
