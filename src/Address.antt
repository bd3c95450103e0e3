-- ===== src/Address.antt =====
-- Addresses: src/types.c, lines 559-629 and 762-775. A struct that a parser fills is handed over and
-- returned, with the parser's result; a field that the C code leaves alone keeps its value.
pub mod Bits
pub mod Ip
pub mod Mac
use Prim.Native.Nat.{bit_or}
use ipfix.Common.{
  ℕ, zero, suc, ◌+◌, ◌-◌, ◌*◌, ◌/◌, ◌%◌, ◌^◌, Bool, true, false, List, [], ◌∷◌, ◌++◌, Option, none,
  some, ◌==◌, ltb, if◌then◌else◌, length, take, set, codes,
}
use ipfix.Heap.{M, ◌>>=◌, ◌>>◌, pure}
use ipfix.Number.{strtoul}
use ipfix.Number.Decimal.{decimal}
use ipfix.Text.{Bytes, StringList, string_list_free, string_split}
use ipfix.Text.Trim.{string_duplicate}

pub record IpAddress : Type 0 where
  pub value : ℕ
  pub has_value : Bool

pub record MacAddress : Type 0 where
  pub octets : List ℕ
  pub has_value : Bool

abbrev pub octets_ipv4 : ℕ
octets_ipv4 = 4

abbrev pub octets_mac : ℕ
octets_mac = 6

-- The loop over the tokens of an IP address: `value |= octet << (32 - 8 * index)`.
pub ip_octets : List Bytes → ℕ → ℕ → ℕ × ℕ
ip_octets [] index value = (index, value)
ip_octets (token ∷ tokens) index value =
    let octet = strtoul token 0 % 2 ^ 8 in
    ip_octets tokens (index + 1) (bit_or value (octet * 2 ^ (32 - 8 * (index + 1))))

ip_of_tokens : StringList → IpAddress → Bool × IpAddress
ip_of_tokens tokens address =
    if tokens.count == octets_ipv4
    then (let (index, value) = ip_octets tokens.items 0 0 in
        (index == octets_ipv4, record address { value = value }))
    else (false, address)

-- The tokens are freed on every path behind the split.
ip_finish : Option StringList → IpAddress → M (Bool × IpAddress)
ip_finish none address = pure (false, address)
ip_finish (some tokens) address = do
  let (result, filled) = ip_of_tokens tokens address
  string_list_free (some tokens) true
  pure (result, record filled { has_value = result })

unfoldable pub parse_ip_address : Option Bytes → IpAddress → M (Bool × IpAddress)
unfolding ip_finish ip_of_tokens
parse_ip_address none address = pure (false, address)
parse_ip_address (some a_s) address = do
  tokens ← string_split a_s (codes ".")
  ip_finish tokens address

-- The loop over the tokens of a MAC address: `octets[index] = octet`.
pub mac_octets : List Bytes → ℕ → List ℕ → ℕ × List ℕ
mac_octets [] index octets = (index, octets)
mac_octets (token ∷ tokens) index octets =
    mac_octets tokens (index + 1) (set octets index (strtoul token 16 % 2 ^ 8))

mac_of_tokens : StringList → MacAddress → Bool × MacAddress
mac_of_tokens tokens address =
    if tokens.count == octets_mac
    then (let (index, octets) = mac_octets tokens.items 0 address.octets in
        (index == octets_mac, record address { octets = octets }))
    else (false, address)

mac_finish : Option StringList → MacAddress → M (Bool × MacAddress)
mac_finish none address = pure (false, address)
mac_finish (some tokens) address = do
  let (result, filled) = mac_of_tokens tokens address
  string_list_free (some tokens) true
  pure (result, record filled { has_value = result })

unfoldable pub parse_mac_address : Option Bytes → MacAddress → M (Bool × MacAddress)
unfolding mac_finish mac_of_tokens
parse_mac_address none address = pure (false, address)
parse_mac_address (some a_s) address = do
  tokens ← string_split a_s (codes ":")
  mac_finish tokens address

-- `NVIPFIX_ARGSF_IP_ADDRESS`: (value >> 8 * k) & 0xff, for k = 3, 2, 1, 0.
abbrev pub octet_at : ℕ → ℕ → ℕ
octet_at k value = value / 2 ^ (8 * k) % 2 ^ 8

-- "%d.%d.%d.%d" into a buffer of 16 bytes, the last of them the NUL.
unfoldable pub print_ip : ℕ → Bytes
print_ip value = take 15 (
    decimal (octet_at 3 value)
    ++ (b'.'
        ∷ (decimal (octet_at 2 value)
            ++ (b'.' ∷ (decimal (octet_at 1 value) ++ (b'.' ∷ decimal (octet_at 0 value)))))))

-- `snprintf` reports no failure here, since the text is never empty.
unfoldable pub ip_address_to_string : Option IpAddress → M (Option Bytes)
ip_address_to_string none = pure none
ip_address_to_string (some address) = string_duplicate (some (print_ip address.value))
