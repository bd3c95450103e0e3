-- ===== src/Config.antt =====
-- The configuration of src/config.c: collectors, global settings and their table.
pub mod Table
pub mod Reader
pub mod Collectors
pub mod File
pub mod Lines
pub mod Reading
pub mod Printed
pub mod Blocks
pub mod Values
pub mod Keys
pub mod Stored
pub mod Peers
pub mod RoundTrip
pub mod Access
use ipfix.Address.{IpAddress}
use ipfix.Common.{
  ℕ, Bool, true, false, not, ◌&&◌, List, [], ◌∷◌, Option, none, some, ◌==◌, if◌then◌else◌, codes,
}
use ipfix.Common.Int.{pos}
use ipfix.Heap.{M, ◌>>=◌, ◌>>◌, pure, malloc, free}
use ipfix.Text.{Bytes}
use ipfix.Text.Trim.{string_duplicate}
use ipfix.Time.{Timespan}

-- `nvIPFIX_TRANSPORT`
pub data Transport : Type 0 where
  undefined tcp udp sctp : Transport

-- `nvIPFIX_collector_info_t`. Its `key` is never set, and its `ctx` stays NULL here: it belongs to the
-- exporter.
pub record Collector : Type 0 where
  pub name : Option Bytes
  pub host : Option Bytes
  pub port : Option Bytes
  pub ip_address : IpAddress
  pub dscp : ℕ
  pub transport : Transport

-- The collector behind `memset` with 0.
abbrev pub zero_collector : Collector
zero_collector = record {
  name = none;
  host = none;
  port = none;
  ip_address = record { value = 0; has_value = false };
  dscp = 0;
  transport = undefined;
}

-- The static variables; `collectors` is `CollectorList` from its head.
pub record Globals : Type 0 where
  pub switch_name : Option Bytes
  pub switch_api_host : Option Bytes
  pub switch_api_login : Option Bytes
  pub switch_api_password : Option Bytes
  pub export_interval : Timespan
  pub collectors : List Collector

-- What the reader reports to the log.
pub data Report : Type 0 where
  unknown_setting : ℕ → Report
  bad_configuration : ℕ → Report
  line_too_long : ℕ → Report
  no_tokens no_address no_memory brace_expected no_file : Report

abbrev pub default_port : Bytes
default_port = codes "4739"

abbrev pub has_address : Collector → Bool
has_address c = elim c.host [ none ↦ c.ip_address.has_value | some _ ↦ true ]

with_port : Collector → M Collector
with_port c = elim c.port [
  | none ↦ (do port ← string_duplicate (some default_port); pure (record c { port = port }))
  | some p ↦ pure c
]

with_transport : Collector → Collector
with_transport c = elim c.transport [ undefined ↦ record c { transport = udp } | _ ↦ c ]

-- `nvipfix_config_add_collector`: the collector as it is left, the list and the report.
unfoldable pub add_collector :
    Collector → List Collector → M (Collector × List Collector × List Report)
unfolding with_port with_transport string_duplicate
add_collector c collectors =
    if not (has_address c) then pure (c, collectors, no_address ∷ []) else (do
      got ← malloc
      if got
          then (do c' ← with_port c; pure (with_transport c', with_transport c' ∷ collectors, []))
          else pure (c, collectors, no_memory ∷ []))

-- `free` of a pointer that may be NULL.
abbrev pub free_string : Option Bytes → M (Unit {0})
free_string none = pure tt
free_string (some s) = free 1

free_collectors : List Collector → M (Unit {0})
free_collectors [] = pure tt
free_collectors (c ∷ cs) = do
  free_string c.name
  free_string c.host
  free_string c.port
  free 1
  free_collectors cs

-- `nvipfix_config_cleanup`: all but the export interval is reset.
unfoldable pub config_cleanup : Globals → M Globals
unfolding free_collectors
config_cleanup g = do
  free_string g.switch_name
  free_string g.switch_api_host
  free_string g.switch_api_login
  free_string g.switch_api_password
  free_collectors g.collectors
  pure (record g {
    switch_name = none;
    switch_api_host = none;
    switch_api_login = none;
    switch_api_password = none;
    collectors = [];
  })
