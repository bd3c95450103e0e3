-- ===== src/Hashtable/Keys.antt =====
-- The order of keys and the hash of src/types.c: lengths first, then `memcmp`; eight bits.
use Prim.Native.Nat.Ordering.{eq}
use ipfix.Common.{[], ◌∷◌, ◌≡◌, refl, arith, length}
use ipfix.Hashtable.{memcmp, key_cmp}
use ipfix.Text.{Bytes}

memcmp_refl : (a : Bytes) → memcmp a a ≡ eq
unfolding memcmp
memcmp_refl [] = refl
memcmp_refl (x ∷ a) = ground (arith, memcmp_refl a)

pub key_cmp_refl : (a : Bytes) → key_cmp a a ≡ eq
unfolding key_cmp
key_cmp_refl a = ground (arith, memcmp_refl a)

eq_of_memcmp : (a b : Bytes) → length a ≡ length b → memcmp a b ≡ eq → a ≡ b
unfolding memcmp
eq_of_memcmp [] [] l e = refl
eq_of_memcmp [] (y ∷ b) l e = absurd (omega arith)
eq_of_memcmp (x ∷ a) [] l e = absurd (omega arith)
eq_of_memcmp (x ∷ a) (y ∷ b) l e = ground (arith, eq_of_memcmp a b)

pub eq_of_key_cmp : (a b : Bytes) → key_cmp a b ≡ eq → a ≡ b
unfolding key_cmp
eq_of_key_cmp a b e = ground (arith, eq_of_memcmp a b)
