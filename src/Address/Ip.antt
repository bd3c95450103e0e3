-- ===== src/Address/Ip.antt =====
-- IPv4 addresses (src/types.c): the parser, its memory, and the texts that
-- `nvipfix_ip_address_to_string` writes.
use Prim.Native.Nat.{bit_or}
use ipfix.Address.Bits.{bit_or-eq-add}
use ipfix.Address.{
  IpAddress, ip_octets, ip_of_tokens, ip_finish, parse_ip_address, octet_at, print_ip,
}
use ipfix.Common.{
  ℕ, ◌+◌, ◌*◌, ◌%◌, ◌^◌, ◌<◌, Bool, true, false, List, [], ◌∷◌, Option, none, some, ◌≡◌, refl, ap,
  ◌∙◌, ◌↔◌, length, take_all, All, codes, arith, length-append,
}
use ipfix.Heap.{Heap, has_room}
use ipfix.Number.Decimal.{
  decimal, strtoull-decimal, IsDigit, decimal_digits, decimal-ne-nil, length-decimal,
}
use ipfix.Number.{strtoul}
use ipfix.Text.Fields.{pieces}
use ipfix.Text.Join.{join, Clean, IsToken, pieces-join, string_split_room}
use ipfix.Text.Split.{string_split_free_live}
use ipfix.Text.Roomy.{Roomy, pure-Roomy, bind-Roomy, free-Roomy, string_split-Roomy}
use ipfix.Text.Tokens.{extend}
use ipfix.Text.{Bytes, StringList, contains, string_list_free, string_split}

-- What the parser makes of the list that the split returned.
ip_result : Option StringList → IpAddress → Bool × IpAddress
ip_result none address = (false, address)
ip_result (some tokens) address =
    let (result, filled) = ip_of_tokens tokens address in
    (result, record filled { has_value = result })

ip_finish_lem :
    (t : Option StringList) (address : IpAddress) (h : Heap)
    → ip_finish t address h ≡ (ip_result t address, (string_list_free t true h).1)
unfolding ip_finish ip_result string_list_free
ip_finish_lem none address h = refl
ip_finish_lem (some t) address h = refl

-- The parser takes no memory that it does not give back, whether or not `malloc` fails.
pub parse_ip_address_live :
    (s : Option Bytes) (address : IpAddress) (h : Heap)
    → (parse_ip_address s address h).1.live ≡ h.live
unfolding parse_ip_address
parse_ip_address_live none address h = refl
parse_ip_address_live (some s) address h = rw ip_finish_lem (string_split_free_live s (codes ".") h)

parse_ip_result :
    (s : Bytes) (address : IpAddress) (h : Heap)
    → has_room h.plan ≡ true
    → (parse_ip_address (some s) address h).0
      ≡ ip_result (extend none (pieces (contains (codes ".")) s)) address
unfolding parse_ip_address
parse_ip_result s address h room =
    rw ip_finish_lem (ap (λ t. ip_result t address) (string_split_room s (codes ".") h room))

ip_octets_index : (ts : List Bytes) (i v : ℕ) → (ip_octets ts i v).0 ≡ i + length ts
unfolding ip_octets
ip_octets_index [] i v = omega arith
ip_octets_index (t ∷ ts) i v = ip_octets_index ts (i + 1) _ ∙ omega arith

ip_result_iff :
    (ts : List Bytes) (address : IpAddress)
    → ((ip_result (extend none ts) address).0 ≡ true) ↔ (length ts ≡ 4)
unfolding ip_result ip_of_tokens
ip_result_iff [] address = ground arith
ip_result_iff (t ∷ ts) address = ground (arith, ip_octets_index (t ∷ ts) 0 0)

-- The parser accepts exactly the texts with four pieces between dots, whatever the pieces are (if no
-- call of `malloc` is refused).
pub parse_ip_address_iff :
    (s : Bytes) (address : IpAddress) (h : Heap)
    → has_room h.plan ≡ true
    → ((parse_ip_address (some s) address h).0.0 ≡ true)
      ↔ (length (pieces (contains (codes ".")) s) ≡ 4)
parse_ip_address_iff s address h room =
    rw (parse_ip_result s address h room) (ip_result_iff (pieces (contains (codes ".")) s) address)

digit_Clean : (t : Bytes) → All IsDigit t → Clean (contains (codes ".")) t
unfolding contains
digit_Clean [] k = tt
digit_Clean (c ∷ t) k = (ground arith, digit_Clean t k.1)

decimal-IsToken : (n : ℕ) → n < 256 → IsToken (contains (codes ".")) (decimal n)
decimal-IsToken n h = (decimal-ne-nil n (omega arith), digit_Clean (decimal n) (decimal_digits n))

strtoul_octet : (n : ℕ) → n < 256 → strtoul (decimal n) 0 % 2 ^ 8 ≡ n
strtoul_octet n h = omega (arith, strtoull-decimal n (omega arith))

octet_texts : ℕ → List Bytes
octet_texts v =
    decimal (octet_at 3 v)
    ∷ decimal (octet_at 2 v)
    ∷ decimal (octet_at 1 v)
    ∷ decimal (octet_at 0 v)
    ∷ []

-- The buffer of 16 bytes holds every address.
print_ip-join : (v : ℕ) → print_ip v ≡ join b'.' (octet_texts v)
unfolding print_ip octet_texts
print_ip-join v = take_all 15 _ (
    omega (
      arith,
      length-decimal (octet_at 3 v) (omega arith),
      length-decimal (octet_at 2 v) (omega arith),
      length-decimal (octet_at 1 v) (omega arith),
      length-decimal (octet_at 0 v) (omega arith),
      length-append {0} {A = ℕ},
    ))

or_octets :
    (a b c d : ℕ)
    → a < 256
    → b < 256
    → c < 256
    → d < 256
    → bit_or (bit_or (bit_or (bit_or 0 (a * 2 ^ 24)) (b * 2 ^ 16)) (c * 2 ^ 8)) (d * 2 ^ 0)
      ≡ a * 2 ^ 24 + b * 2 ^ 16 + c * 2 ^ 8 + d
or_octets a b c d ha hb hc hd =
    let m3 = 0 + a * 2 ^ 24 in
    let m2 = m3 + b * 2 ^ 16 in
    let m1 = m2 + c * 2 ^ 8 in
    rw
      (
        bit_or-eq-add 32 0 (a * 2 ^ 24) 0 refl (omega arith),
        bit_or-eq-add 24 a (b * 2 ^ 16) m3 (omega arith) (omega arith),
        bit_or-eq-add 16 (a * 256 + b) (c * 2 ^ 8) m2 (omega arith) (omega arith),
        bit_or-eq-add 8 (a * 2 ^ 16 + b * 256 + c) (d * 2 ^ 0) m1 (omega arith) (omega arith),
      )
      (omega arith)

ip_octets_value :
    (a b c d : ℕ)
    → a < 256
    → b < 256
    → c < 256
    → d < 256
    → ip_octets (decimal a ∷ decimal b ∷ decimal c ∷ decimal d ∷ []) 0 0
      ≡ (4, a * 2 ^ 24 + b * 2 ^ 16 + c * 2 ^ 8 + d)
unfolding ip_octets
ip_octets_value a b c d ha hb hc hd =
    rw (strtoul_octet a ha, strtoul_octet b hb, strtoul_octet c hc, strtoul_octet d hd)
      (ap (λ (v : ℕ). (4, v)) (or_octets a b c d ha hb hc hd))

ip_result_octets :
    (a b c d v : ℕ) (address : IpAddress)
    → a < 256
    → b < 256
    → c < 256
    → d < 256
    → a * 2 ^ 24 + b * 2 ^ 16 + c * 2 ^ 8 + d ≡ v
    → ip_result (extend none (decimal a ∷ decimal b ∷ decimal c ∷ decimal d ∷ [])) address
      ≡ (true, record { value = v; has_value = true })
unfolding ip_result ip_of_tokens
ip_result_octets a b c d v address ha hb hc hd e = rw (ip_octets_value a b c d ha hb hc hd, e)

-- Every 32-bit address that is printed is read back, whatever the target held, and no memory is kept
-- (if no call of `malloc` is refused).
pub parse_ip_address-print :
    (v : ℕ) (address : IpAddress) (h : Heap)
    → v < 2 ^ 32
    → has_room h.plan ≡ true
    → ((parse_ip_address (some (print_ip v)) address h).0
        ≡ (true, record { value = v; has_value = true }))
      × ((parse_ip_address (some (print_ip v)) address h).1.live ≡ h.live)
unfolding octet_texts
parse_ip_address-print v address h small room = (
  parse_ip_result (print_ip v) address h room
      ∙ ap (λ (s : Bytes). ip_result (extend none (pieces (contains (codes ".")) s)) address)
          (print_ip-join v)
      ∙ ap (λ (ts : List Bytes). ip_result (extend none ts) address)
          (pieces-join (contains (codes ".")) b'.' (octet_texts v) (unfold contains in refl) (
            decimal-IsToken (octet_at 3 v) (omega arith),
            (
              decimal-IsToken (octet_at 2 v) (omega arith),
              (
                decimal-IsToken (octet_at 1 v) (omega arith),
                (decimal-IsToken (octet_at 0 v) (omega arith), tt),
              ),
            ),
          ))
      ∙ ip_result_octets (octet_at 3 v) (octet_at 2 v) (octet_at 1 v) (octet_at 0 v) v address
          (omega arith) (omega arith) (omega arith) (omega arith) (omega arith),
  parse_ip_address_live (some (print_ip v)) address h,
)

ip_finish-Roomy : (t : Option StringList) (address : IpAddress) → Roomy (ip_finish t address)
unfolding ip_finish
ip_finish-Roomy none address = pure-Roomy _ _
ip_finish-Roomy (some t) address = free-Roomy _ t _

pub parse_ip_address-Roomy :
    (s : Bytes) (address : IpAddress) → Roomy (parse_ip_address (some s) address)
unfolding parse_ip_address
parse_ip_address-Roomy s address =
    bind-Roomy _ _ (string_split s (codes ".")) (λ t. ip_finish t address)
      (string_split-Roomy s (codes ".")) (λ t. ip_finish-Roomy t address)
