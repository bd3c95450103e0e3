-- ===== src/Address/Mac.antt =====
-- MAC addresses (src/types.c): what the parser accepts, and its memory.
use ipfix.Address.{MacAddress, mac_octets, mac_of_tokens, mac_finish, parse_mac_address}
use ipfix.Common.{
  ℕ, ◌+◌, Bool, true, false, List, [], ◌∷◌, Option, none, some, ◌≡◌, refl, ◌∙◌, ◌↔◌, length, codes,
  arith,
}
use ipfix.Heap.{Heap, has_room}
use ipfix.Text.Fields.{pieces}
use ipfix.Text.Join.{string_split_room}
use ipfix.Text.Split.{string_split_free_live}
use ipfix.Text.Roomy.{Roomy, pure-Roomy, bind-Roomy, free-Roomy, string_split-Roomy}
use ipfix.Text.Tokens.{extend}
use ipfix.Text.{Bytes, StringList, contains, string_list_free, string_split}

-- What the parser makes of the list that the split returned.
mac_result : Option StringList → MacAddress → Bool × MacAddress
mac_result none address = (false, address)
mac_result (some tokens) address =
    let (result, filled) = mac_of_tokens tokens address in
    (result, record filled { has_value = result })

mac_finish_lem :
    (t : Option StringList) (address : MacAddress) (h : Heap)
    → mac_finish t address h ≡ (mac_result t address, (string_list_free t true h).1)
unfolding mac_finish mac_result string_list_free
mac_finish_lem none address h = refl
mac_finish_lem (some t) address h = refl

mac_octets_index :
    (ts : List Bytes) (i : ℕ) (octets : List ℕ) → (mac_octets ts i octets).0 ≡ i + length ts
unfolding mac_octets
mac_octets_index [] i octets = omega arith
mac_octets_index (t ∷ ts) i octets = mac_octets_index ts (i + 1) _ ∙ omega arith

mac_result_iff :
    (ts : List Bytes) (address : MacAddress)
    → ((mac_result (extend none ts) address).0 ≡ true) ↔ (length ts ≡ 6)
unfolding mac_result mac_of_tokens
mac_result_iff [] address = ground arith
mac_result_iff (t ∷ ts) address = ground (arith, mac_octets_index (t ∷ ts) 0 address.octets)

-- The parser takes no memory that it does not give back, whether or not `malloc` fails.
pub parse_mac_address_live :
    (s : Option Bytes) (address : MacAddress) (h : Heap)
    → (parse_mac_address s address h).1.live ≡ h.live
unfolding parse_mac_address
parse_mac_address_live none address h = refl
parse_mac_address_live (some s) address h =
    rw mac_finish_lem (string_split_free_live s (codes ":") h)

-- The parser accepts exactly the texts with six pieces between colons, whatever the pieces are, if no
-- call of `malloc` is refused.
pub parse_mac_address_iff :
    (s : Bytes) (address : MacAddress) (h : Heap)
    → has_room h.plan ≡ true
    → ((parse_mac_address (some s) address h).0.0 ≡ true)
      ↔ (length (pieces (contains (codes ":")) s) ≡ 6)
unfolding parse_mac_address
parse_mac_address_iff s address h room =
    rw (mac_finish_lem, string_split_room s (codes ":") h room)
      (mac_result_iff (pieces (contains (codes ":")) s) address)

mac_finish-Roomy : (t : Option StringList) (address : MacAddress) → Roomy (mac_finish t address)
unfolding mac_finish
mac_finish-Roomy none address = pure-Roomy _ _
mac_finish-Roomy (some t) address = free-Roomy _ t _

pub parse_mac_address-Roomy :
    (s : Bytes) (address : MacAddress) → Roomy (parse_mac_address (some s) address)
unfolding parse_mac_address
parse_mac_address-Roomy s address =
    bind-Roomy _ _ (string_split s (codes ":")) (λ t. mac_finish t address)
      (string_split-Roomy s (codes ":")) (λ t. mac_finish-Roomy t address)
