-- ===== src/Config/Table.antt =====
-- The table of settings and the parsers that it names: src/config.c, lines 36-140 and 351-386.
use ipfix.Address.{parse_ip_address}
use ipfix.Common.{
  ℕ, Bool, true, false, ◌&&◌, List, [], ◌∷◌, Option, none, some, ◌==◌, if◌then◌else◌, codes,
}
use ipfix.Config.{Transport, tcp, udp, sctp, Collector, Globals}
use ipfix.Heap.{M, ◌>>=◌, pure}
use ipfix.Number.{parse_octet}
use ipfix.Text.{Bytes}
use ipfix.Text.Trim.{string_duplicate}
use ipfix.Time.{parse_timespan}

-- `strcmp( a, b ) == 0`
unfoldable pub str_eq : Bytes → Bytes → Bool
str_eq [] [] = true
str_eq (x ∷ a) (y ∷ b) = x == y && str_eq a b
str_eq _ _ = false

-- What a setting is stored in: its `value` or the field at its `offset`, with its parser.
pub data Target : Type 0 where
  switch_name switch_api_host switch_api_login switch_api_password export_interval : Target
  collector_name collector_ip_address collector_host collector_transport : Target
  collector_port collector_dscp : Target

pub record Setting : Type 0 where
  pub name : Bytes
  pub id : ℕ
  pub parent_id : ℕ
  pub target : Target

abbrev pub id_collector : ℕ
id_collector = 6

abbrev setting : Bytes → ℕ → ℕ → Target → Setting
setting name id parent_id target = record {
  name = name;
  id = id;
  parent_id = parent_id;
  target = target;
}

abbrev pub settings : List Setting
settings =
    setting (codes "switch") 1 0 switch_name
    ∷ setting (codes "switch-nvapi-host") 2 0 switch_api_host
    ∷ setting (codes "switch-nvapi-login") 3 0 switch_api_login
    ∷ setting (codes "switch-nvapi-password") 4 0 switch_api_password
    ∷ setting (codes "export-interval") 5 0 export_interval
    ∷ setting (codes "collector") id_collector 0 collector_name
    ∷ setting (codes "collector-ip-address") 7 id_collector collector_ip_address
    ∷ setting (codes "collector-hostname") 8 id_collector collector_host
    ∷ setting (codes "transport") 9 id_collector collector_transport
    ∷ setting (codes "transport-port") 10 id_collector collector_port
    ∷ setting (codes "dscp") 11 id_collector collector_dscp
    ∷ []

-- The first entry with this parent and name.
pub find_setting : List Setting → Bytes → ℕ → Option Setting
find_setting [] a_name a_parentId = none
find_setting (s ∷ ss) a_name a_parentId =
    if s.parent_id == a_parentId && str_eq s.name a_name
    then some s
    else find_setting ss a_name a_parentId

unfoldable pub get_setting : Bytes → ℕ → Option Setting
unfolding find_setting str_eq
get_setting = find_setting settings

unfoldable pub parse_transport : Option Bytes → Transport → Bool × Transport
unfolding str_eq
parse_transport none old = (false, old)
parse_transport (some a_s) old =
    if str_eq (codes "udp") a_s
    then (true, udp)
    else if str_eq (codes "tcp") a_s
    then (true, tcp)
    else if str_eq (codes "sctp") a_s
    then (true, sctp)
    else (false, old)

-- `nvipfix_parse_string`: the old text is not given back. (The target is never NULL.)
unfoldable pub parse_string : Option Bytes → Option Bytes → M (Bool × Option Bytes)
unfolding string_duplicate
parse_string none old = pure (false, old)
parse_string (some a_s) old = do
  value ← string_duplicate (some a_s)
  pure (elim value [ none ↦ false | some _ ↦ true ], value)

-- `setting->parseValue( value, &collector + setting->offset )`. A setting of the top level other than
-- `collector` is never stored in a collector.
unfoldable pub parse_into_collector : Target → Bytes → Collector → M Collector
unfolding parse_transport
parse_into_collector collector_name v c = do
  r ← parse_string (some v) c.name
  pure (record c { name = r.1 })
parse_into_collector collector_ip_address v c = do
  r ← parse_ip_address (some v) c.ip_address
  pure (record c { ip_address = r.1 })
parse_into_collector collector_host v c = do
  r ← parse_string (some v) c.host
  pure (record c { host = r.1 })
parse_into_collector collector_transport v c =
    pure (record c { transport = (parse_transport (some v) c.transport).1 })
parse_into_collector collector_port v c = do
  r ← parse_string (some v) c.port
  pure (record c { port = r.1 })
parse_into_collector collector_dscp v c = pure (record c { dscp = (parse_octet (some v) c.dscp).1 })
parse_into_collector _ v c = pure c

-- `setting->parseValue( value, setting->value )`; a setting of a collector has the value NULL there,
-- and its parser does nothing.
unfoldable pub parse_into_globals : Target → Bytes → Globals → M Globals
parse_into_globals switch_name v g = do
  r ← parse_string (some v) g.switch_name
  pure (record g { switch_name = r.1 })
parse_into_globals switch_api_host v g = do
  r ← parse_string (some v) g.switch_api_host
  pure (record g { switch_api_host = r.1 })
parse_into_globals switch_api_login v g = do
  r ← parse_string (some v) g.switch_api_login
  pure (record g { switch_api_login = r.1 })
parse_into_globals switch_api_password v g = do
  r ← parse_string (some v) g.switch_api_password
  pure (record g { switch_api_password = r.1 })
parse_into_globals export_interval v g = do
  r ← parse_timespan (some v) g.export_interval
  pure (record g { export_interval = r.1 })
parse_into_globals _ v g = pure g
