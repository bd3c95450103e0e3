-- ===== src/Import.antt =====
-- The fields that the importer reads: src/import.c, lines 80-106 and 413-507.
pub mod Reader
pub mod Buffer
pub mod Fields
pub mod Fold
pub mod Result
pub mod Parts
pub mod Memory
pub mod Listing
pub mod Records
pub mod Nvc
use Prim.Native.Nat.{bit_or}
use ipfix.Address.{IpAddress, MacAddress, parse_ip_address, parse_mac_address}
use ipfix.Common.{
  ℕ, ◌*◌, ◌^◌, Bool, true, false, List, [], ◌∷◌, Option, none, some, if◌then◌else◌, codes,
}
use ipfix.Common.Int.{pos}
use ipfix.Config.Table.{str_eq}
use ipfix.Data.{DataRecord}
use ipfix.Date.{Datetime, parse_datetime_iso8601}
use ipfix.Heap.{M, ◌>>=◌, pure}
use ipfix.Number.{parse_octet, parse_byte, parse_u16, parse_u32, parse_u64}
use ipfix.Text.{Bytes}
use ipfix.Time.{Timespan, parse_timespan_microseconds}

unfoldable pub import_parse_ingress : Option Bytes → ℕ → Bool × ℕ
import_parse_ingress a_s old = parse_u32 a_s old

unfoldable pub import_parse_egress : Option Bytes → ℕ → Bool × ℕ
import_parse_egress a_s old = parse_u32 a_s old

-- The number of the network with the type VxLAN in its highest byte.
unfoldable pub import_parse_layer2 : Option Bytes → ℕ → Bool × ℕ
import_parse_layer2 a_s old =
    let (result, value) = parse_u64 a_s old in
    (result, if result then bit_or value (1 * 2 ^ 56) else value)

-- `NV_IPFIX_TCP_CONTROL_FLAG_FIN` and the others.
abbrev pub flag_fin : ℕ
flag_fin = 1

abbrev pub flag_syn : ℕ
flag_syn = 2

abbrev pub flag_rst : ℕ
flag_rst = 4

abbrev pub flag_ack : ℕ
flag_ack = 16

unfoldable pub import_parse_tcp_control_flags : Option Bytes → ℕ → Bool × ℕ
unfolding str_eq
import_parse_tcp_control_flags none old = (false, old)
import_parse_tcp_control_flags (some a_s) old =
    if str_eq (codes "fin") a_s
    then (true, flag_fin)
    else if str_eq (codes "rst") a_s
    then (true, flag_rst)
    else if str_eq (codes "syn") a_s
    then (true, flag_syn)
    else if str_eq (codes "est") a_s
    then (true, flag_ack)
    else (false, old)

unfoldable pub import_parse_protocol : Option Bytes → ℕ → Bool × ℕ
import_parse_protocol a_s old =
    let (result, protocol) = parse_octet a_s 0 in (result, if result then protocol else old)

unfoldable pub import_parse_ethernet_type : Option Bytes → ℕ → Bool × ℕ
import_parse_ethernet_type a_s old =
    let (result, type) = parse_u16 a_s 0 in (result, if result then type else old)

-- The field at the `offset` of an item, with its parser.
pub data Field : Type 0 where
  vlan ingress egress dscp source_port destination_port responder_octets initiator_octets : Field
  total_octets layer2 control_bits protocol ethernet_type source_mac destination_mac : Field
  source_ip destination_ip duration flow_start flow_end latency : Field

pub record ImportItem : Type 0 where
  pub name : Bytes
  pub field : Field

abbrev item : Bytes → Field → ImportItem
item name field = record { name = name; field = field }

abbrev pub items : List ImportItem
items =
    item (codes "vlan") vlan
    ∷ item (codes "src-switch-port") ingress
    ∷ item (codes "dst-switch-port") egress
    ∷ item (codes "dscp") dscp
    ∷ item (codes "src-port") source_port
    ∷ item (codes "dst-port") destination_port
    ∷ item (codes "ibytes") responder_octets
    ∷ item (codes "obytes") initiator_octets
    ∷ item (codes "total-bytes") total_octets
    ∷ item (codes "vxlan") layer2
    ∷ item (codes "cur-state") control_bits
    ∷ item (codes "proto") protocol
    ∷ item (codes "ether-type") ethernet_type
    ∷ item (codes "src-mac") source_mac
    ∷ item (codes "dst-mac") destination_mac
    ∷ item (codes "src-ip") source_ip
    ∷ item (codes "dst-ip") destination_ip
    ∷ item (codes "dur") duration
    ∷ item (codes "started-time") flow_start
    ∷ item (codes "ended-time") flow_end
    ∷ item (codes "ended-time") flow_end
    ∷ item (codes "latency") latency
    ∷ []

pub find_item : List ImportItem → Bytes → Option ImportItem
find_item [] a_name = none
find_item (i ∷ is) a_name = if str_eq i.name a_name then some i else find_item is a_name

unfoldable pub import_get_item : Bytes → Option ImportItem
unfolding find_item str_eq
import_get_item = find_item items

-- `importItem->parseValue( itemValue, &data + offset )`
unfoldable pub parse_field : Field → Bytes → DataRecord → M DataRecord
parse_field vlan s d = pure (record d { vlan_id = (parse_u16 (some s) d.vlan_id).1 })
parse_field ingress s d =
    pure (record d { ingress_interface = (import_parse_ingress (some s) d.ingress_interface).1 })
parse_field egress s d =
    pure (record d { egress_interface = (import_parse_egress (some s) d.egress_interface).1 })
parse_field dscp s d = pure (record d { dscp = (parse_byte (some s) d.dscp).1 })
parse_field source_port s d = pure (record d { source_port = (parse_u16 (some s) d.source_port).1 })
parse_field destination_port s d =
    pure (record d { destination_port = (parse_u16 (some s) d.destination_port).1 })
parse_field responder_octets s d =
    pure (record d { responder_octets = (parse_u64 (some s) d.responder_octets).1 })
parse_field initiator_octets s d =
    pure (record d { initiator_octets = (parse_u64 (some s) d.initiator_octets).1 })
parse_field total_octets s d = pure (record d {
  transport_octet_delta_count = (parse_u64 (some s) d.transport_octet_delta_count).1;
})
parse_field layer2 s d =
    pure (record d { layer2_segment_id = (import_parse_layer2 (some s) d.layer2_segment_id).1 })
parse_field control_bits s d =
    pure (record d {
      tcp_control_bits = (import_parse_tcp_control_flags (some s) d.tcp_control_bits).1;
    })
parse_field protocol s d =
    pure (record d { protocol = (import_parse_protocol (some s) d.protocol).1 })
parse_field ethernet_type s d =
    pure (record d { ethernet_type = (import_parse_ethernet_type (some s) d.ethernet_type).1 })
parse_field source_mac s d = do
  r ← parse_mac_address (some s) d.source_mac
  pure (record d { source_mac = r.1 })
parse_field destination_mac s d = do
  r ← parse_mac_address (some s) d.destination_mac
  pure (record d { destination_mac = r.1 })
parse_field source_ip s d = do
  r ← parse_ip_address (some s) d.source_ip
  pure (record d { source_ip = r.1 })
parse_field destination_ip s d = do
  r ← parse_ip_address (some s) d.destination_ip
  pure (record d { destination_ip = r.1 })
parse_field duration s d =
    pure (record d { flow_duration = (parse_timespan_microseconds (some s) d.flow_duration).1 })
parse_field flow_start s d = do
  r ← parse_datetime_iso8601 (some s) d.flow_start
  pure (record d { flow_start = r.1 })
parse_field flow_end s d = do
  r ← parse_datetime_iso8601 (some s) d.flow_end
  pure (record d { flow_end = r.1 })
parse_field latency s d =
    pure (record d { latency = (parse_timespan_microseconds (some s) d.latency).1 })

-- `nvIPFIX_data_record_t data = { 0 }`
abbrev pub zero_date : Datetime
zero_date = record {
  year = pos 0;
  month = pos 0;
  day = pos 0;
  hours = pos 0;
  minutes = pos 0;
  seconds = pos 0;
  milliseconds = pos 0;
  tz_offset = record { microseconds = pos 0; has_value = false };
  has_value = false;
}

abbrev zero_span : Timespan
zero_span = record { microseconds = pos 0; has_value = false }

abbrev zero_mac : MacAddress
zero_mac = record { octets = 0 ∷ 0 ∷ 0 ∷ 0 ∷ 0 ∷ 0 ∷ []; has_value = false }

abbrev zero_ip : IpAddress
zero_ip = record { value = 0; has_value = false }

abbrev pub zero_record : DataRecord
zero_record = record {
  vlan_id = 0;
  protocol = 0;
  ethernet_type = 0;
  tcp_control_bits = 0;
  ingress_interface = 0;
  egress_interface = 0;
  flow_start = zero_date;
  flow_end = zero_date;
  flow_duration = zero_span;
  latency = zero_span;
  dscp = 0;
  initiator_octets = 0;
  responder_octets = 0;
  layer2_segment_id = 0;
  transport_octet_delta_count = 0;
  source_mac = zero_mac;
  source_ip = zero_ip;
  source_port = 0;
  destination_mac = zero_mac;
  destination_ip = zero_ip;
  destination_port = 0;
}
