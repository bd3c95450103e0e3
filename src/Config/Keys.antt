-- ===== src/Config/Keys.antt =====
-- The lines of settings in a configuration file (src/config.c): a name of the table and a value.
use ipfix.Common.{
  ℕ, ◌+◌, ◌<◌, true, false, List, [], ◌∷◌, ◌++◌, none, some, ◌==◌, ◌≡◌, refl, arith, length,
  length-append, codes,
}
use ipfix.Config.{Collector, Globals, Report}
use ipfix.Config.Lines.{Ends, IsPlain}
use ipfix.Config.Printed.{IsWord, Top, Inside, Top-Ends, field-Ends}
use ipfix.Config.Reader.{Reader, read_tokens}
use ipfix.Config.Reading.{FileEnds, line-FileEnds}
use ipfix.Config.Table.{
  Target, Setting, id_collector, get_setting, parse_into_collector, parse_into_globals, switch_name,
  switch_api_host, switch_api_login, switch_api_password, collector_ip_address, collector_host,
  collector_transport, collector_port, collector_dscp,
}
use ipfix.Config.Values.{IsValue, plain_bytes, IsPlain-text}
use ipfix.Text.{Bytes, contains}
use ipfix.Text.Join.{join}

-- A name that the table has for settings in the block `parent`.
pub record IsKey (parent : ℕ) (name : Bytes) (s : Setting) : Type 0 where
  pub plain : IsPlain name
  pub word : IsWord name
  pub short : length name < 50
  pub found : get_setting name parent ≡ some s
  pub plain_id : (s.id == id_collector) ≡ false

abbrev pub entry : Bytes → ℕ → ℕ → Target → Setting
entry name id parent target = record { name = name; id = id; parent_id = parent; target = target }

key :
    (parent c : ℕ) (t : Bytes) (s : Setting)
    → plain_bytes (c ∷ t) ≡ true
    → IsWord (c ∷ t)
    → length (c ∷ t) < 50
    → get_setting (c ∷ t) parent ≡ some s
    → (s.id == id_collector) ≡ false
    → IsKey parent (c ∷ t) s
key parent c t s e w short found other = record {
  plain = IsPlain-text c t e;
  word = w;
  short = short;
  found = found;
  plain_id = other;
}

pub switch-IsKey : IsKey 0 (codes "switch") (entry (codes "switch") 1 0 switch_name)
unfolding get_setting contains
switch-IsKey = key 0 b's' (codes "witch") _ refl (refl, refl) (omega arith) refl refl

pub api_host-IsKey :
    IsKey 0 (codes "switch-nvapi-host") (entry (codes "switch-nvapi-host") 2 0 switch_api_host)
unfolding get_setting contains
api_host-IsKey = key 0 b's' (codes "witch-nvapi-host") _ refl (refl, refl) (omega arith) refl refl

pub api_login-IsKey :
    IsKey 0 (codes "switch-nvapi-login") (entry (codes "switch-nvapi-login") 3 0 switch_api_login)
unfolding get_setting contains
api_login-IsKey = key 0 b's' (codes "witch-nvapi-login") _ refl (refl, refl) (omega arith) refl refl

pub api_password-IsKey :
    IsKey 0
      (codes "switch-nvapi-password")
      (entry (codes "switch-nvapi-password") 4 0 switch_api_password)
unfolding get_setting contains
api_password-IsKey =
    key 0 b's' (codes "witch-nvapi-password") _ refl (refl, refl) (omega arith) refl refl

pub ip_address-IsKey :
    IsKey id_collector
      (codes "collector-ip-address")
      (entry (codes "collector-ip-address") 7 id_collector collector_ip_address)
unfolding get_setting contains
ip_address-IsKey =
    key id_collector b'c' (codes "ollector-ip-address") _ refl (refl, refl) (omega arith) refl refl

pub host-IsKey :
    IsKey id_collector
      (codes "collector-hostname")
      (entry (codes "collector-hostname") 8 id_collector collector_host)
unfolding get_setting contains
host-IsKey =
    key id_collector b'c' (codes "ollector-hostname") _ refl (refl, refl) (omega arith) refl refl

pub transport-IsKey :
    IsKey id_collector
      (codes "transport")
      (entry (codes "transport") 9 id_collector collector_transport)
unfolding get_setting contains
transport-IsKey =
    key id_collector b't' (codes "ransport") _ refl (refl, refl) (omega arith) refl refl

pub port-IsKey :
    IsKey id_collector
      (codes "transport-port")
      (entry (codes "transport-port") 10 id_collector collector_port)
unfolding get_setting contains
port-IsKey =
    key id_collector b't' (codes "ransport-port") _ refl (refl, refl) (omega arith) refl refl

pub dscp-IsKey :
    IsKey id_collector (codes "dscp") (entry (codes "dscp") 11 id_collector collector_dscp)
unfolding get_setting contains
dscp-IsKey = key id_collector b'd' (codes "scp") _ refl (refl, refl) (omega arith) refl refl

-- Lines, each with an end of line.
abbrev pub print_lines : List (List Bytes) → Bytes
print_lines [] = []
print_lines (l ∷ ls) = join b' ' l ++ (10 ∷ print_lines ls)

-- One line of a name and a value.
pub pair-FileEnds :
    (name v : Bytes) (ls : List (List Bytes)) (r : Reader) (P Q : Reader → Type 0)
    → IsPlain name
    → length name < 50
    → IsValue v
    → Ends
        (read_tokens (name ∷ v ∷ []) (record r { token_index = 0; setting = none }))
        (λ r'. P (record r' { line = r'.line + 1 }))
    → ((r' : Reader) → P r' → FileEnds (print_lines ls) r' Q)
    → FileEnds (print_lines ((name ∷ v ∷ []) ∷ ls)) r Q
pair-FileEnds name v ls r P Q plain short value k more =
    line-FileEnds (v ∷ []) name (print_lines ls) r P Q (plain, (value.plain, tt))
      (omega (arith, value.short, length-append name (b' ' ∷ v))) k more

-- A line with a brace.
pub brace-FileEnds :
    (c : ℕ) (ls : List (List Bytes)) (r : Reader) (P Q : Reader → Type 0)
    → IsPlain (c ∷ [])
    → Ends
        (read_tokens ((c ∷ []) ∷ []) (record r { token_index = 0; setting = none }))
        (λ r'. P (record r' { line = r'.line + 1 }))
    → ((r' : Reader) → P r' → FileEnds (print_lines ls) r' Q)
    → FileEnds (print_lines (((c ∷ []) ∷ []) ∷ ls)) r Q
brace-FileEnds c ls r P Q plain k more =
    line-FileEnds [] (c ∷ []) (print_lines ls) r P Q (plain, tt) (omega arith) k more

-- The line of a setting of the top level.
pub top-FileEnds :
    (name v : Bytes) (s : Setting) (ls : List (List Bytes)) (r : Reader) (g g' : Globals)
    (reports : List Report) (Q : Reader → Type 0)
    → IsKey 0 name s
    → IsValue v
    → Ends (parse_into_globals s.target v g) (λ x. x ≡ g')
    → Top g reports r
    → ((r' : Reader) → Top g' reports r' → FileEnds (print_lines ls) r' Q)
    → FileEnds (print_lines ((name ∷ v ∷ []) ∷ ls)) r Q
top-FileEnds name v s ls r g g' reports Q is value stores top more =
    pair-FileEnds name v ls r (Top g' reports) Q is.plain is.short value
      (Top-Ends name v s r g g' reports is.found is.plain_id is.word value.word stores top) more

-- The line of a setting of a collector.
pub field-FileEnds :
    (name v : Bytes) (s : Setting) (ls : List (List Bytes)) (r : Reader) (c c' : Collector)
    (g : Globals) (reports : List Report) (Q : Reader → Type 0)
    → IsKey id_collector name s
    → IsValue v
    → Ends (parse_into_collector s.target v c) (λ x. x ≡ c')
    → Inside c g reports r
    → ((r' : Reader) → Inside c' g reports r' → FileEnds (print_lines ls) r' Q)
    → FileEnds (print_lines ((name ∷ v ∷ []) ∷ ls)) r Q
field-FileEnds name v s ls r c c' g reports Q is value stores within more =
    pair-FileEnds name v ls r (Inside c' g reports) Q is.plain is.short value
      (field-Ends name v s r c c' g reports is.found is.plain_id is.word value.word stores within)
      more
