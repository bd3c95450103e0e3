-- ===== src/Hashtable/Hash.antt =====
-- The hash of a key: src/types.c, lines 143-156.
use Prim.Native.Nat.{bit_xor}
use ipfix.Common.{
  ℕ, suc, ◌+◌, ◌-◌, ◌%◌, ◌^◌, ◌<◌, true, [], ◌∷◌, ◌++◌, ◌≡◌, refl, ap, ◌∙◌, arith, length, ltb,
  ◌==◌, ◌&&◌, ◌||◌, not, ◌↔◌, ltb→lt, holds_below, at_below,
}
use ipfix.Hashtable.{hashtable8_hash, hash_from}
use ipfix.Text.{Bytes}

byte_xors : holds_below (λ a. holds_below (λ b. ltb (bit_xor a b) 256) 256) 256 ≡ true
unfolding holds_below
byte_xors = refl

back_to_255 :
    holds_below (λ a. ltb (bit_xor a 255) 256 && (bit_xor a (bit_xor a 255) == 255)) 256 ≡ true
unfolding holds_below
back_to_255 = refl

xor_255 :
    holds_below (λ a. holds_below (λ b. not (bit_xor a b == 255) || (b == bit_xor a 255)) 256) 256
    ≡ true
unfolding holds_below
xor_255 = refl

xor_small : (a b : ℕ) → a < 256 → b < 256 → bit_xor a b < 256
xor_small a b h k = ltb→lt _ _ (
    at_below (λ b. ltb (bit_xor a b) 256) 256
      (at_below (λ a. holds_below (λ b. ltb (bit_xor a b) 256) 256) 256 byte_xors a h) b k)

hash_from-append :
    (r i : ℕ) (s : Bytes) (c : ℕ)
    → hash_from r i (s ++ c ∷ []) ≡ bit_xor (hash_from r i s) ((c + (i + length s)) % 2 ^ 8)
unfolding hash_from
hash_from-append r i [] c = let z : i + 0 ≡ i = omega arith in rw z refl
hash_from-append r i (x ∷ s) c =
    let z : i + 1 + length s ≡ i + suc (length s) = omega arith in
    hash_from-append (bit_xor r ((x + i) % 2 ^ 8)) (i + 1) s c
    ∙ ap (λ n. bit_xor (hash_from (bit_xor r ((x + i) % 2 ^ 8)) (i + 1) s) ((c + n) % 2 ^ 8)) z

hash_from_small : (r i : ℕ) (s : Bytes) → r < 256 → hash_from r i s < 256
unfolding hash_from
hash_from_small r i [] h = h
hash_from_small r i (c ∷ s) h =
    hash_from_small (bit_xor r ((c + i) % 2 ^ 8)) (i + 1) s
      (xor_small r ((c + i) % 2 ^ 8) h (omega arith))

-- The byte that makes 255 of the hash.
abbrev pub last_byte : Bytes → ℕ
last_byte s = (bit_xor (hashtable8_hash s) 255 + (256 - length s % 256)) % 256

xor-255_iff : (a b : ℕ) → a < 256 → b < 256 → (bit_xor a b ≡ 255) ↔ (b ≡ bit_xor a 255)
xor-255_iff a b h k =
    let only =
      at_below (λ b. not (bit_xor a b == 255) || (b == bit_xor a 255)) 256
        (at_below (λ a. holds_below (λ b. not (bit_xor a b == 255) || (b == bit_xor a 255)) 256) 256
          xor_255 a h)
        b k in
    let back =
      at_below (λ a. ltb (bit_xor a 255) 256 && (bit_xor a (bit_xor a 255) == 255)) 256 back_to_255
        a h in
    ((λ e. ground (arith, only)), λ e. rw e (ground (arith, back)))

pub hash_small : (s : Bytes) → hashtable8_hash s < 256
unfolding hashtable8_hash
hash_small s = hash_from_small 0 0 s (omega arith)

byte_iff : (c n t : ℕ) → c < 256 → t < 256 → ((c + n) % 256 ≡ t) ↔ (c ≡ (t + (256 - n % 256)) % 256)
byte_iff c n t h k = ((λ e. omega arith), λ e. omega arith)

hash-append :
    (s : Bytes) (c : ℕ)
    → hashtable8_hash (s ++ c ∷ []) ≡ bit_xor (hashtable8_hash s) ((c + length s) % 2 ^ 8)
unfolding hashtable8_hash
hash-append s c =
    let z : 0 + length s ≡ length s = omega arith in
    hash_from-append 0 0 s c ∙ ap (λ n. bit_xor (hash_from 0 0 s) ((c + n) % 2 ^ 8)) z

-- The hash of a key is 255 for exactly one last byte.
pub hash-255_iff :
    (s : Bytes) (c : ℕ) → c < 256 → (hashtable8_hash (s ++ c ∷ []) ≡ 255) ↔ (c ≡ last_byte s)
hash-255_iff s c h =
    let r = hashtable8_hash s in
    let e : hashtable8_hash (s ++ c ∷ []) ≡ bit_xor r ((c + length s) % 2 ^ 8) = hash-append s c in
    let (to, from) = xor-255_iff r ((c + length s) % 2 ^ 8) (hash_small s) (omega arith) in
    let (out, in_) =
      byte_iff c (length s) (bit_xor r 255) h (xor_small r 255 (hash_small s) (omega arith)) in
    rw e ((λ x. out (to x)), λ x. from (in_ x))
