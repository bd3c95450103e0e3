-- ===== src/Data.antt =====
-- Flow records and the list that holds them: src/include/data.h, src/data.c. The list is doubly linked; its cells live in a store, which maps
-- an address to the cell there, and an address is a number. The list header is one more block.
pub mod Chain
use ipfix.Address.{IpAddress, MacAddress}
use ipfix.Common.{
  ℕ, zero, suc, ◌-◌, Bool, true, false, List, [], ◌∷◌, Option, none, some, ◌==◌, if◌then◌else◌,
}
use ipfix.Date.{Datetime}
use ipfix.Heap.{M, ◌>>=◌, ◌>>◌, pure, malloc, free}
use ipfix.Time.{Timespan}

-- `nvIPFIX_data_record_t` without its links.
pub record DataRecord : Type 0 where
  pub vlan_id : ℕ
  pub protocol : ℕ
  pub ethernet_type : ℕ
  pub tcp_control_bits : ℕ
  pub ingress_interface : ℕ
  pub egress_interface : ℕ
  pub flow_start : Datetime
  pub flow_end : Datetime
  pub flow_duration : Timespan
  pub latency : Timespan
  pub dscp : ℕ
  pub initiator_octets : ℕ
  pub responder_octets : ℕ
  pub layer2_segment_id : ℕ
  pub transport_octet_delta_count : ℕ
  pub source_mac : MacAddress
  pub source_ip : IpAddress
  pub source_port : ℕ
  pub destination_mac : MacAddress
  pub destination_ip : IpAddress
  pub destination_port : ℕ

pub record Cell {ℓ} (A : Type ℓ) : Type ℓ where
  pub value : A
  pub prev : Option ℕ
  pub next : Option ℕ

abbrev pub Store {ℓ} : Type ℓ → Type ℓ
Store A = ℕ → Cell A

-- `nvIPFIX_data_record_list_t`: the addresses of its ends.
pub record RecordList : Type 0 where
  pub head : ℕ
  pub tail : ℕ

module _ {ℓ} {A : Type ℓ} where
  -- `*a = c`
  unfoldable pub write : ℕ → Cell A → Store A → Store A
  write a c σ b = if b == a then c else σ b

  -- `a_record->prev = p; a_record->next = NULL`
  unfoldable pub link_last : ℕ → Option ℕ → Store A → Store A
  unfolding write
  link_last a p σ = write a (record (σ a) { prev = p; next = none }) σ

  unfoldable pub set_next : ℕ → ℕ → Store A → Store A
  unfolding write
  set_next a n σ = write a (record (σ a) { next = some n }) σ

  -- `nvipfix_data_list_add` of a record that is not NULL: the list, and the store as it is left.
  unfoldable pub data_list_add : Option RecordList → ℕ → Store A → M (Option RecordList × Store A)
  data_list_add none a σ = do
    got ← malloc
    if got then pure (some (record { head = a; tail = a }), link_last a none σ) else pure (none, σ)
  data_list_add (some l) a σ =
      pure
        (some (record { head = l.head; tail = a }), link_last a (some l.tail) (set_next l.tail a σ))

  -- `nvipfix_data_list_add_copy`, of a record with this value; `a` is the address that `malloc`
  -- returns, when it returns one.
  unfoldable pub data_list_add_copy :
      Option RecordList → Cell A → ℕ → Store A → M (Option RecordList × Store A)
  data_list_add_copy l c a σ = do
    got ← malloc
    if got then data_list_add l a (write a c σ) else pure (none, σ)

  -- The loop of `nvipfix_data_list_free`, on fuel.
  unfoldable pub free_records : ℕ → Option ℕ → Store A → M (Unit {0})
  free_records zero p σ = pure tt
  free_records (suc fuel) none σ = pure tt
  free_records (suc fuel) (some a) σ = do free 1; free_records fuel (σ a).next σ

  unfoldable pub data_list_free : ℕ → Option RecordList → Store A → M (Unit {0})
  data_list_free fuel none σ = pure tt
  data_list_free fuel (some l) σ = do free_records fuel (some l.head) σ; free 1
