-- ===== src/Import/Nvc.antt =====
-- The import from the switch: src/import.c, lines 41-55 and 264-408, with the types of
-- src/include/nvc.h. The library of the switch is a parameter: a record of its calls on a state of its own.
-- The calls that set up OpenSSL are part of `init_net`.
pub mod Content
pub mod Protocol
use Prim.Native.Nat.{bit_or}
use ipfix.Address.{IpAddress, MacAddress}
use ipfix.Calendar.{Clock, ctime_to_datetime}
use ipfix.Common.{
  ℕ, ◌*◌, ◌^◌, Bool, true, false, ◌&&◌, List, [], ◌∷◌, Option, none, some, if◌then◌else◌, get_or,
  ◌==◌,
}
use ipfix.Common.Int.{ℤ, pos, negsuc}
use ipfix.Data.{DataRecord}
use ipfix.Heap.{Heap, M, ◌>>=◌, pure}
use ipfix.Import.{flag_fin, flag_syn, flag_rst, flag_ack, zero_date}
use ipfix.Import.Reader.{Records, add_record}
use ipfix.Number.{pattern_of}
use ipfix.Text.{Bytes}
use ipfix.Time.{Timespan, quotient}

-- `nvc_tcp_state_t`; `other` is a value that is none of its constants.
pub data TcpState : Type 0 where
  syn est fin rst other : TcpState

-- `nvc_conn_t`, as far as the handler reads it. An address is the list of its bytes.
pub record Conn : Type 0 where
  pub vlan : ℕ
  pub client_switch_port : ℕ
  pub server_switch_port : ℕ
  pub ether_type : ℕ
  pub client_mac_addr : List ℕ
  pub server_mac_addr : List ℕ
  pub client_ip : List ℕ
  pub server_ip : List ℕ
  pub client_port : ℕ
  pub server_port : ℕ
  pub proto : ℕ
  pub state : TcpState
  pub dur : ℤ
  pub avg_latency : ℤ
  pub bytes_sent : ℕ
  pub bytes_recv : ℕ
  pub bytes_total : ℕ
  pub started_time : ℕ
  pub ended_time : ℕ

-- `NVIPFIX_NVC_GET_TCP_FLAGS_FROM_STATE`
unfoldable pub tcp_flags_from_state : TcpState → ℕ
tcp_flags_from_state syn = flag_syn
tcp_flags_from_state est = flag_ack
tcp_flags_from_state fin = flag_fin
tcp_flags_from_state rst = flag_rst
tcp_flags_from_state other = 0

-- `NVIPFIX_IN6_ADDR_TO_IP_ADDRESS`, which leaves `hasValue` as it is.
unfoldable pub in6_addr_to_ip_address : List ℕ → IpAddress
in6_addr_to_ip_address a = record {
  value =
      bit_or
        (bit_or (bit_or (get_or a 12 0 * 2 ^ 24) (get_or a 13 0 * 2 ^ 16)) (get_or a 14 0 * 2 ^ 8))
        (get_or a 15 0);
  has_value = false;
}

-- `NVIPFIX_ETHER_ADDR_TO_MAC_ADDRESS`
abbrev pub ether_addr_to_mac_address : List ℕ → MacAddress
ether_addr_to_mac_address a = record { octets = a; has_value = true }

-- `NVIPFIX_TIMESPAN_SET_NANOSECONDS`
abbrev pub set_nanoseconds : ℤ → Timespan
set_nanoseconds n = record { microseconds = quotient n 1000; has_value = true }

module _ (clock : Clock) where
  -- `data` of the handler.
  unfoldable pub record_of_conn : Conn → DataRecord
  record_of_conn c = record {
    vlan_id = c.vlan;
    protocol = c.proto;
    ethernet_type = c.ether_type;
    tcp_control_bits = tcp_flags_from_state c.state;
    ingress_interface = c.client_switch_port;
    egress_interface = c.server_switch_port;
    flow_start = (ctime_to_datetime clock zero_date (pos c.started_time)).1;
    flow_end = (ctime_to_datetime clock zero_date (pos c.ended_time)).1;
    flow_duration = set_nanoseconds c.dur;
    latency = set_nanoseconds c.avg_latency;
    dscp = 0;
    initiator_octets = c.bytes_sent;
    responder_octets = c.bytes_recv;
    layer2_segment_id = 0;
    transport_octet_delta_count = c.bytes_total;
    source_mac = ether_addr_to_mac_address c.client_mac_addr;
    source_ip = in6_addr_to_ip_address c.client_ip;
    source_port = c.client_port;
    destination_mac = ether_addr_to_mac_address c.server_mac_addr;
    destination_ip = in6_addr_to_ip_address c.server_ip;
    destination_port = c.server_port;
  }

  -- `nvipfix_import_conn_stat_handler`. The connection is read for the log before the test for NULL, so
  -- it is one that is not NULL.
  unfoldable pub conn_stat_handler : Conn → Records → M Records
  conn_stat_handler c r = add_record (record_of_conn c) r

  -- The library calls the handler once for each connection that it shows.
  unfoldable pub handle_all : List Conn → Records → M Records
  unfolding conn_stat_handler
  handle_all [] r = pure r
  handle_all (c ∷ cs) r = do r' ← conn_stat_handler c r; handle_all cs r'

-- The calls of the switch's library. A call that reports a result returns whether its status is
-- `nvOS_SUCCESS`, and its error code.
pub record Nvc (W : Type 0) : Type 0 where
  pub init_net : Bytes → W → W
  pub init : W → W
  pub connect : W → ℤ × W
  pub authenticate : Bytes → Bytes → W → (Bool × ℤ) × W
  pub check_uid : W → (Bool × ℤ) × W
  pub show_conn_stat : ℕ → ℕ → W → (List Conn × Bool × ℤ) × W
  pub logout : W → W
  pub disconnect : W → W
  pub close : W → W

abbrev pub no_error : ℤ → Bool
no_error (pos n) = n == 0
no_error (negsuc n) = false

abbrev pub limit_output : ℕ
limit_output = 10000

module _ {W : Type 0} (clock : Clock) (nvc : Nvc W) where
  unfoldable pub init_io : Option Bytes → W → W
  init_io none w = nvc.init w
  init_io (some a_host) w = nvc.init_net a_host w

  unfoldable pub login : Option Bytes → Option Bytes → W → (Bool × ℤ) × W
  login none a_password w = nvc.check_uid w
  login (some a_login) none w = nvc.check_uid w
  login (some a_login) (some a_password) w = nvc.authenticate a_login a_password w

  -- With a session, to the label `ConnStat`: its two errors change nothing else.
  unfoldable pub read_connections : ℤ → Records → W × Heap → Records × (W × Heap)
  read_connections within_last r (w, h) =
      let ((conns, status, error), w') =
        nvc.show_conn_stat (pattern_of 64 within_last) limit_output w in
      let (r', h') = handle_all clock conns r h in (r', (nvc.logout w', h'))

  -- With a connection, to the label `Auth`.
  unfoldable pub read_session :
      Option Bytes → Option Bytes → ℤ → Records → W × Heap → Records × (W × Heap)
  unfolding login
  read_session a_login a_password within_last r (w, h) =
      let ((status, error), w') = login a_login a_password w in
      let (r', (w'', h')) =
        (if status && no_error error
          then read_connections within_last r (w', h)
          else (r, (w', h))) in
      (r', (nvc.disconnect w'', h'))

  -- `nvipfix_import_nvc`
  unfoldable pub import_nvc :
      Option Bytes → Option Bytes → Option Bytes → ℤ → Records → W × Heap → Records × (W × Heap)
  unfolding init_io
  import_nvc a_host a_login a_password within_last empty (w, h) =
      let (error, w') = nvc.connect (init_io a_host w) in
      let (r', (w'', h')) =
        (if no_error error
          then read_session a_login a_password within_last empty (w', h)
          else (empty, (w', h))) in
      (r', (nvc.close w'', h'))
