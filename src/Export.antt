-- ===== src/Export.antt =====
-- The exporter: src/export.c. libfixbuf and `mktime` are parameters: a record of the calls that the
-- source makes, over a state type of its own, and a function. What is written to the log is left out.
pub mod Session
pub mod Frames
pub mod Outcome
pub mod Opening
use ipfix.Address.{IpAddress, MacAddress}
use ipfix.Common.{
  Option, ℕ, zero, suc, ◌+◌, ◌%◌, ◌^◌, Bool, true, false, List, [], ◌∷◌, some, ◌==◌, if◌then◌else◌,
}
use ipfix.Common.Int.{ℤ, pos, negsuc, ◌-ℤ◌}
use ipfix.Config.{Transport, undefined, tcp, udp, sctp}
use ipfix.Date.{Datetime}
use ipfix.Data.{DataRecord}
use ipfix.Number.{pattern_of}
use ipfix.Text.{Bytes}
use ipfix.Time.{timespan_get_milliseconds, timespan_get_microseconds}

-- `nvIPFIX_export_data_t`
pub record ExportData : Type 0 where
  pub flow_start_seconds : ℕ
  pub flow_end_seconds : ℕ
  pub layer2_segment_id : ℕ
  pub transport_octet_delta_count : ℕ
  pub initiator_octets : ℕ
  pub responder_octets : ℕ
  pub latency_microseconds : ℕ
  pub flow_duration_milliseconds : ℕ
  pub ingress_interface : ℕ
  pub egress_interface : ℕ
  pub vlan_id : ℕ
  pub ethernet_type : ℕ
  pub source_ip_address : ℕ
  pub destination_ip_address : ℕ
  pub source_transport_port : ℕ
  pub destination_transport_port : ℕ
  pub source_mac_address : List ℕ
  pub destination_mac_address : List ℕ
  pub protocol_identifier : ℕ
  pub tcp_control_bits : ℕ

-- What `fBufAppend` is given: a flow or `nvIPFIX_export_stats_data_t`.
pub data Row : Type 0 where
  flow_row : ExportData → Row
  stats_row : (exported_message_total_count exported_flow_record_total_count : ℕ) → Row

pub data Template : Type 0 where
  flow_template stats_template : Template

-- `fbTransport_t`, as far as it is used.
pub data FbTransport : Type 0 where
  fb_tcp fb_udp fb_sctp : FbTransport

-- The calls of libfixbuf, on its state `W`. A Boolean result is that of the call, or that the pointer
-- is not NULL.
pub record Fixbuf (W : Type 0) : Type 0 where
  pub info_model_alloc : W → Bool × W
  pub info_model_add_element : W → W
  pub session_alloc : W → Bool × W
  pub exporter_alloc_net : FbTransport → Option Bytes → Option Bytes → W → Bool × W
  pub template_alloc : W → Bool × W
  pub template_append_spec : Template → W → Bool × W
  pub session_add_template : Bool → Template → W → ℕ × W
  pub buf_alloc_for_export : W → Bool × W
  pub session_export_templates : W → Bool × W
  pub buf_set_internal_template : ℕ → W → Bool × W
  pub buf_set_export_template : ℕ → W → Bool × W
  pub buf_append : Row → W → Bool × W
  pub buf_emit : W → Bool × W
  pub buf_free : W → W

-- The fields of `struct tm` that the source sets.
pub record Tm : Type 0 where
  pub year : ℤ
  pub mon : ℤ
  pub mday : ℤ
  pub hour : ℤ
  pub min : ℤ
  pub sec : ℤ

-- `NVIPFIX_TM_INIT_FROM_DT`
abbrev pub tm_of : Datetime → Tm
unfolding ◌-ℤ◌
tm_of d = record {
  year = d.year -ℤ pos 1900;
  mon = d.month -ℤ pos 1;
  mday = d.day;
  hour = d.hours;
  min = d.minutes;
  sec = d.seconds;
}

abbrev epoch : ℤ → ℤ → Tm
unfolding ◌-ℤ◌
epoch year month = record {
  year = year -ℤ pos 1900;
  mon = month -ℤ pos 1;
  mday = pos 1;
  hour = pos 0;
  min = pos 0;
  sec = pos 0;
}

module _ (mktime : Tm → ℤ) where
  -- `nvipfix_datetime_get_seconds_since_epoch`; a difference below 0, which C leaves undefined here,
  -- wraps around.
  unfoldable pub seconds_since_epoch : Datetime → ℤ → ℤ → ℕ
  unfolding ◌-ℤ◌
  seconds_since_epoch d a_epoch_year a_epoch_month =
      pattern_of 32 (mktime (tm_of d) -ℤ mktime (epoch a_epoch_year a_epoch_month))

  -- The time of a flow, or that of the whole export where the record has none.
  unfoldable pub flow_seconds : Datetime → ℕ → ℕ
  flow_seconds d fallback =
      if d.has_value then seconds_since_epoch d (pos 1970) (pos 1) else fallback

  -- The body of the record loop, up to `fBufAppend`.
  unfoldable pub export_data : ℕ → ℕ → DataRecord → ExportData
  export_data start_ts end_ts r = record {
    flow_start_seconds = flow_seconds r.flow_start start_ts;
    flow_end_seconds = flow_seconds r.flow_end end_ts;
    layer2_segment_id = r.layer2_segment_id;
    transport_octet_delta_count = r.transport_octet_delta_count;
    initiator_octets = r.initiator_octets;
    responder_octets = r.responder_octets;
    latency_microseconds = pattern_of 64 (timespan_get_microseconds (some r.latency));
    flow_duration_milliseconds = pattern_of 32 (timespan_get_milliseconds (some r.flow_duration));
    ingress_interface = r.ingress_interface;
    egress_interface = r.egress_interface;
    vlan_id = r.vlan_id;
    ethernet_type = r.ethernet_type % 2 ^ 16;
    source_ip_address = r.source_ip.value;
    destination_ip_address = r.destination_ip.value;
    source_transport_port = r.source_port;
    destination_transport_port = r.destination_port;
    source_mac_address = r.source_mac.octets;
    destination_mac_address = r.destination_mac.octets;
    protocol_identifier = r.protocol % 2 ^ 8;
    tcp_control_bits = r.tcp_control_bits % 2 ^ 8;
  }

abbrev pub fb_transport : Transport → FbTransport
fb_transport tcp = fb_tcp
fb_transport udp = fb_udp
fb_transport _ = fb_sctp
