-- ===== src/Config/Stored.antt =====
-- What the settings of a collector store (src/config.c), each from its printed value.
use ipfix.Address.{IpAddress, print_ip, parse_ip_address}
use ipfix.Address.Ip.{parse_ip_address-print, parse_ip_address-Roomy}
use ipfix.Common.{ℕ, ◌<◌, ◌^◌, Bool, true, [], Option, some, ◌≡◌, ◌≢◌, refl, ap, ◌∙◌, arith, codes}
use ipfix.Config.{Transport, tcp, udp, sctp, undefined, Collector}
use ipfix.Config.Blocks.{string-Ends}
use ipfix.Config.Lines.{Ends, pure-Ends, bind-Ends}
use ipfix.Config.Table.{
  parse_into_collector, parse_string, parse_transport, str_eq, collector_ip_address, collector_host,
  collector_transport, collector_port, collector_dscp,
}
use ipfix.Config.Values.{literal, IsValue}
use ipfix.Heap.{pure}
use ipfix.Number.Decimal.{decimal}
use ipfix.Number.Parse.{parse-decimal}
use ipfix.Text.{Bytes, contains}
use ipfix.Text.Roomy.{Roomy-room}

-- The texts of `nvipfix_config_parse_transport`.
abbrev pub transport_text : Transport → Bytes
transport_text undefined = []
transport_text udp = codes "udp"
transport_text tcp = codes "tcp"
transport_text sctp = codes "sctp"

pub host-Ends :
    (v : Bytes) (c : Collector)
    → Ends (parse_into_collector collector_host v c) (λ x. x ≡ record c { host = some v })
unfolding parse_into_collector
host-Ends v c =
    bind-Ends (parse_string (some v) c.host)
      (λ (o : Bool × Option Bytes). pure (record c { host = o.1 })) (λ o. o ≡ (true, some v))
      (λ x. x ≡ record c { host = some v }) (string-Ends v c.host)
      (λ o e.
        pure-Ends _ (λ x. x ≡ record c { host = some v })
          (ap (λ (x : Bool × Option Bytes). record c { host = x.1 }) e))

pub port-Ends :
    (v : Bytes) (c : Collector)
    → Ends (parse_into_collector collector_port v c) (λ x. x ≡ record c { port = some v })
unfolding parse_into_collector
port-Ends v c =
    bind-Ends (parse_string (some v) c.port)
      (λ (o : Bool × Option Bytes). pure (record c { port = o.1 })) (λ o. o ≡ (true, some v))
      (λ x. x ≡ record c { port = some v }) (string-Ends v c.port)
      (λ o e.
        pure-Ends _ (λ x. x ≡ record c { port = some v })
          (ap (λ (x : Bool × Option Bytes). record c { port = x.1 }) e))

address-Ends :
    (v : ℕ) (old : IpAddress)
    → v < 2 ^ 32
    → Ends
        (parse_ip_address (some (print_ip v)) old)
        (λ o. o ≡ (true, record { value = v; has_value = true }))
unfolding Ends
address-Ends v old h heap room = (
  (parse_ip_address-print v old heap h room).0,
  Roomy-room (parse_ip_address (some (print_ip v)) old) (parse_ip_address-Roomy (print_ip v) old)
      heap room,
)

pub ip-Ends :
    (v : ℕ) (c : Collector)
    → v < 2 ^ 32
    → Ends
        (parse_into_collector collector_ip_address (print_ip v) c)
        (λ x. x ≡ record c { ip_address = record { value = v; has_value = true } })
unfolding parse_into_collector
ip-Ends v c h =
    bind-Ends (parse_ip_address (some (print_ip v)) c.ip_address)
      (λ (o : Bool × IpAddress). pure (record c { ip_address = o.1 }))
      (λ o. o ≡ (true, record { value = v; has_value = true }))
      (λ x. x ≡ record c { ip_address = record { value = v; has_value = true } })
      (address-Ends v c.ip_address h)
      (λ o e.
        pure-Ends _ (λ x. x ≡ record c { ip_address = record { value = v; has_value = true } })
          (ap (λ (x : Bool × IpAddress). record c { ip_address = x.1 }) e))

parse_transport-text :
    (t old : Transport) → t ≢ undefined → parse_transport (some (transport_text t)) old ≡ (true, t)
unfolding parse_transport str_eq
parse_transport-text undefined old n = absurd (n refl)
parse_transport-text udp old n = refl
parse_transport-text tcp old n = refl
parse_transport-text sctp old n = refl

pub transport-Ends :
    (t : Transport) (c : Collector)
    → t ≢ undefined
    → Ends
        (parse_into_collector collector_transport (transport_text t) c)
        (λ x. x ≡ record c { transport = t })
unfolding parse_into_collector
transport-Ends t c n =
    pure-Ends _ (λ x. x ≡ record c { transport = t })
      (ap (λ (o : Bool × Transport). record c { transport = o.1 })
        (parse_transport-text t c.transport n))

pub dscp-Ends :
    (d : ℕ) (c : Collector)
    → d < 256
    → Ends (parse_into_collector collector_dscp (decimal d) c) (λ x. x ≡ record c { dscp = d })
unfolding parse_into_collector
dscp-Ends d c h =
    pure-Ends _ (λ x. x ≡ record c { dscp = d })
      (ap (λ (o : Bool × ℕ). record c { dscp = o.1 })
        ((parse-decimal d c.dscp (omega arith)).0 ∙ ap (λ (n : ℕ). (true, n)) (omega arith)))

pub transport-IsValue : (t : Transport) → t ≢ undefined → IsValue (transport_text t)
transport-IsValue undefined n = absurd (n refl)
transport-IsValue udp n =
    literal b'u' (codes "dp") (unfold contains in refl) (refl, refl) (omega arith)
transport-IsValue tcp n =
    literal b't' (codes "cp") (unfold contains in refl) (refl, refl) (omega arith)
transport-IsValue sctp n =
    literal b's' (codes "ctp") (unfold contains in refl) (refl, refl) (omega arith)
