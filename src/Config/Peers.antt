-- ===== src/Config/Peers.antt =====
-- The blocks of collectors in a configuration file (src/config.c), printed and read.
use ipfix.Address.{print_ip}
use ipfix.Common.{ℕ, ◌<◌, ◌^◌, true, List, [], ◌∷◌, ◌++◌, some, ◌≢◌, refl, arith, codes}
use ipfix.Config.{Transport, undefined, Collector, zero_collector, Globals, Report}
use ipfix.Config.Blocks.{Opened, collector-Ends, open-Ends, close-Ends}
use ipfix.Config.Lines.{IsPlain}
use ipfix.Config.Printed.{Top, Inside}
use ipfix.Config.Reader.{Reader}
use ipfix.Config.Reading.{FileEnds, end-FileEnds}
use ipfix.Config.Keys.{
  print_lines, pair-FileEnds, brace-FileEnds, field-FileEnds, ip_address-IsKey, host-IsKey,
  transport-IsKey, port-IsKey, dscp-IsKey,
}
use ipfix.Config.Stored.{
  transport_text, host-Ends, port-Ends, ip-Ends, transport-Ends, dscp-Ends, transport-IsValue,
}
use ipfix.Config.Values.{IsPlain-text, IsValue, decimal-IsValue, print_ip-IsValue}
use ipfix.Number.Decimal.{decimal}
use ipfix.Text.{Bytes, contains}

-- The settings of a collector with all its fields.
pub record Peer : Type 0 where
  pub name : Bytes
  pub host : Bytes
  pub ip : ℕ
  pub transport : Transport
  pub port : Bytes
  pub dscp : ℕ

abbrev pub collector_of : Peer → Collector
collector_of p = record {
  name = some p.name;
  host = some p.host;
  port = some p.port;
  ip_address = record { value = p.ip; has_value = true };
  dscp = p.dscp;
  transport = p.transport;
}

pub record IsPeer (p : Peer) : Type 0 where
  pub name : IsValue p.name
  pub host : IsValue p.host
  pub ip : p.ip < 2 ^ 32
  pub transport : p.transport ≢ undefined
  pub port : IsValue p.port
  pub dscp : p.dscp < 256

-- The lines of the block of a collector.
abbrev pub peer_lines : Peer → List (List Bytes)
peer_lines p =
    (codes "collector" ∷ p.name ∷ [])
    ∷ (codes "{" ∷ [])
    ∷ (codes "collector-hostname" ∷ p.host ∷ [])
    ∷ (codes "collector-ip-address" ∷ print_ip p.ip ∷ [])
    ∷ (codes "transport" ∷ transport_text p.transport ∷ [])
    ∷ (codes "transport-port" ∷ p.port ∷ [])
    ∷ (codes "dscp" ∷ decimal p.dscp ∷ [])
    ∷ (codes "}" ∷ [])
    ∷ []

collector-IsPlain : IsPlain (codes "collector")
unfolding contains
collector-IsPlain = IsPlain-text b'c' (codes "ollector") refl

open-IsPlain : IsPlain (codes "{")
unfolding contains
open-IsPlain = IsPlain-text b'{' [] refl

close-IsPlain : IsPlain (codes "}")
unfolding contains
close-IsPlain = IsPlain-text b'}' [] refl

-- The block of a collector puts the collector in front of the list.
peer-FileEnds :
    (p : Peer) (ls : List (List Bytes)) (r : Reader) (g : Globals) (reports : List Report)
    (Q : Reader → Type 0)
    → IsPeer p
    → Top g reports r
    → ((r' : Reader)
        → Top (record g { collectors = collector_of p ∷ g.collectors }) reports r'
        → FileEnds (print_lines ls) r' Q)
    → FileEnds (print_lines (peer_lines p ++ ls)) r Q
peer-FileEnds p ls r g reports Q good top more =
    let c0 : Collector = record zero_collector { name = some p.name } in
    let c1 : Collector = record c0 { host = some p.host } in
    let c2 : Collector = record c1 { ip_address = record { value = p.ip; has_value = true } } in
    let c3 : Collector = record c2 { transport = p.transport } in
    let c4 : Collector = record c3 { port = some p.port } in
    let c5 : Collector = record c4 { dscp = p.dscp } in
    let l6 = (codes "}" ∷ []) ∷ ls in
    let l5 = (codes "dscp" ∷ decimal p.dscp ∷ []) ∷ l6 in
    let l4 = (codes "transport-port" ∷ p.port ∷ []) ∷ l5 in
    let l3 = (codes "transport" ∷ transport_text p.transport ∷ []) ∷ l4 in
    let l2 = (codes "collector-ip-address" ∷ print_ip p.ip ∷ []) ∷ l3 in
    let l1 = (codes "collector-hostname" ∷ p.host ∷ []) ∷ l2 in
    let l0 = (codes "{" ∷ []) ∷ l1 in
    let closed : Reader → Type 0 = Top (record g { collectors = c5 ∷ g.collectors }) reports in
    let at6 = λ (r' : Reader) (k : Inside c5 g reports r').
      brace-FileEnds b'}' ls r' closed Q close-IsPlain
        (close-Ends r' c5 g reports p.port refl refl good.transport k) more in
    let at5 = λ (r' : Reader) (k : Inside c4 g reports r').
      field-FileEnds (codes "dscp") (decimal p.dscp) _ l6 r' c4 c5 g reports Q dscp-IsKey
        (decimal-IsValue p.dscp good.dscp) (dscp-Ends p.dscp c4 good.dscp) k at6 in
    let at4 = λ (r' : Reader) (k : Inside c3 g reports r').
      field-FileEnds (codes "transport-port") p.port _ l5 r' c3 c4 g reports Q port-IsKey good.port
        (port-Ends p.port c3) k at5 in
    let at3 = λ (r' : Reader) (k : Inside c2 g reports r').
      field-FileEnds (codes "transport") (transport_text p.transport) _ l4 r' c2 c3 g reports Q
        transport-IsKey (transport-IsValue p.transport good.transport)
        (transport-Ends p.transport c2 good.transport) k at4 in
    let at2 = λ (r' : Reader) (k : Inside c1 g reports r').
      field-FileEnds (codes "collector-ip-address") (print_ip p.ip) _ l3 r' c1 c2 g reports Q
        ip_address-IsKey (print_ip-IsValue p.ip good.ip) (ip-Ends p.ip c1 good.ip) k at3 in
    let at1 = λ (r' : Reader) (k : Inside c0 g reports r').
      field-FileEnds (codes "collector-hostname") p.host _ l2 r' c0 c1 g reports Q host-IsKey
        good.host (host-Ends p.host c0) k at2 in
    let at0 = λ (r' : Reader) (k : Opened c0 g reports r').
      brace-FileEnds b'{' l1 r' (Inside c0 g reports) Q open-IsPlain (open-Ends r' c0 g reports k)
        at1 in
    pair-FileEnds (codes "collector") p.name l0 r (Opened c0 g reports) Q collector-IsPlain
      (omega arith) good.name (collector-Ends p.name r g reports good.name.word top) at0

abbrev pub peers_lines : List Peer → List (List Bytes)
peers_lines [] = []
peers_lines (p ∷ ps) = peer_lines p ++ peers_lines ps

-- Each collector comes in front of the list.
abbrev pub with_peers : List Peer → Globals → Globals
with_peers [] g = g
with_peers (p ∷ ps) g = with_peers ps (record g { collectors = collector_of p ∷ g.collectors })

abbrev pub ArePeers : List Peer → Type 0
ArePeers [] = Unit
ArePeers (p ∷ ps) = IsPeer p × ArePeers ps

pub peers-FileEnds :
    (ps : List Peer) (r : Reader) (g : Globals) (reports : List Report)
    → ArePeers ps
    → Top g reports r
    → FileEnds (print_lines (peers_lines ps)) r (Top (with_peers ps g) reports)
peers-FileEnds [] r g reports good top = end-FileEnds r (Top g reports) top
peers-FileEnds (p ∷ ps) r g reports good top =
    peer-FileEnds p (peers_lines ps) r g reports (Top (with_peers (p ∷ ps) g) reports) good.0 top
      (λ r' k.
        peers-FileEnds ps r' (record g { collectors = collector_of p ∷ g.collectors }) reports
          good.1 k)
