-- ===== src/Config/Collectors.antt =====
-- The collectors of the configuration reader (src/config.c): an invariant of its variables.
use ipfix.Common.{
  ℕ, zero, suc, Bool, true, false, not, ◌&&◌, List, [], ◌∷◌, Option, none, some, ◌≡◌, refl, ◌==◌,
  arith, length, Bool-cases, inl, inr, ◌+◌,
}
use ipfix.Config.Reader.{
  Reader, close_collector, close_block, name_token, store_collector, store_global, value_token,
  line_tokens, read_token, read_tokens, read_line, read_lines, fgets, line_room, is_empty_line,
  start, config_read,
}
use ipfix.Config.Table.{Target, Setting, id_collector, get_setting, parse_into_globals}
use ipfix.Config.{undefined, Collector, Globals, has_address, add_collector}
use ipfix.Heap.{Heap}
use ipfix.Text.{Bytes, StringList, string_split}

abbrev has_transport : Collector → Bool
has_transport c = elim c.transport [ undefined ↦ false | _ ↦ true ]

-- It has a host or an address, and a transport.
abbrev pub usable : Collector → Bool
usable c = has_address c && has_transport c

abbrev pub all_usable : List Collector → Bool
all_usable [] = true
all_usable (c ∷ cs) = usable c && all_usable cs

-- A collector has been cleared, or none is open and none can be opened by '{'.
abbrev pub cleared : Reader → Bool
cleared r = elim r.collector [
  | none ↦ not (r.id == id_collector) && not (r.parent_id == id_collector)
  | some _ ↦ true
]

abbrev pub IsSound : Reader → Type 0
IsSound r = (cleared r ≡ true) × (all_usable r.globals.collectors ≡ true)

add_collector_usable :
    (c : Collector) (cs : List Collector) (h : Heap)
    → all_usable cs ≡ true
    → all_usable (add_collector c cs h).0.1 ≡ true
unfolding add_collector
add_collector_usable c cs h k = ground arith

parse_into_globals_collectors :
    (t : Target) (v : Bytes) (g : Globals) (h : Heap)
    → (parse_into_globals t v g h).0.collectors ≡ g.collectors
unfolding parse_into_globals
parse_into_globals_collectors t v g h = ground arith

close_collector-IsSound :
    (c : Option Collector) (r : Reader) (h : Heap)
    → IsSound r
    → IsSound (record (close_collector c r h).0 { parent_id = 0; token_index = 0 })
unfolding close_collector
close_collector-IsSound none r h k = ground arith
close_collector-IsSound (some c) r h k =
    ground (arith, add_collector_usable c r.globals.collectors h k.1)

close_block-IsSound : (r : Reader) (h : Heap) → IsSound r → IsSound (close_block r h).0
unfolding close_block
close_block-IsSound r h k = elim (Bool-cases (r.parent_id == id_collector)) [
  | inl e ↦ rw e (close_collector-IsSound r.collector r h k)
  | inr e ↦ rw e (ground arith)
]

name_token-IsSound : (s : Option Setting) (r : Reader) → IsSound r → IsSound (name_token s r)
unfolding name_token
name_token-IsSound none r k = k
name_token-IsSound (some s) r k = ground arith

store_collector-IsSound :
    (c : Option Collector) (s : Setting) (t : Bytes) (r : Reader) (h : Heap)
    → IsSound r
    → IsSound (store_collector c s t r h).0
unfolding store_collector
store_collector-IsSound none s t r h k = k
store_collector-IsSound (some c) s t r h k = (refl, k.1)

store_global-IsSound :
    (s : Setting) (t : Bytes) (r : Reader) (h : Heap) → IsSound r → IsSound (store_global s t r h).0
unfolding store_global
store_global-IsSound s t r h k =
    ground (arith, parse_into_globals_collectors s.target t r.globals h)

value_token-IsSound :
    (s : Option Setting) (t : Bytes) (r : Reader) (h : Heap)
    → IsSound r
    → IsSound (value_token s t r h).0
unfolding value_token
value_token-IsSound none t r h k = k
value_token-IsSound (some s) t r h k =
    ground (arith, store_collector-IsSound r.collector s t r h k, store_global-IsSound s t r h k)

read_token-IsSound : (t : Bytes) (r : Reader) (h : Heap) → IsSound r → IsSound (read_token t r h).0
unfolding read_token
read_token-IsSound t r h k =
    let r1 = record r { token_index = r.token_index + 1 } in
    ground (
      arith,
      close_block-IsSound r1 h k,
      name_token-IsSound (get_setting t r.parent_id) r1 k,
      value_token-IsSound r.setting t r1 h k,
    )

read_tokens-IsSound :
    (ts : List Bytes) (r : Reader) (h : Heap) → IsSound r → IsSound (read_tokens ts r h).0
unfolding read_tokens
read_tokens-IsSound [] r h k = k
read_tokens-IsSound (t ∷ ts) r h k =
    read_tokens-IsSound ts (read_token t r h).0 (read_token t r h).1 (read_token-IsSound t r h k)

line_tokens-IsSound :
    (tokens : Option StringList) (r : Reader) (h : Heap)
    → IsSound r
    → IsSound (line_tokens tokens r h).0.1
unfolding line_tokens
line_tokens-IsSound none r h k = k
line_tokens-IsSound (some ts) r h k =
    read_tokens-IsSound ts.items (record r { token_index = 0; setting = none }) h k

read_line-IsSound :
    (buffer : Bytes) (r : Reader) (h : Heap) → IsSound r → IsSound (read_line buffer r h).0.1
unfolding read_line
read_line-IsSound buffer r h k =
    let (tokens, h') = string_split (is_empty_line buffer).1 (9 ∷ 10 ∷ 13 ∷ 32 ∷ []) h in
    ground (arith, line_tokens-IsSound tokens r h' k)

-- Reading keeps a sound reader sound, for every file and fuel and however `malloc` answers: a collector that is
-- filled in has been cleared before, and every collector in the list has a host or an address and a
-- transport.
pub read_lines-IsSound :
    (fuel : ℕ) (file : Bytes) (r : Reader) (h : Heap)
    → IsSound r
    → IsSound (read_lines fuel file r h).0
unfolding read_lines
read_lines-IsSound zero file r h k = k
read_lines-IsSound (suc fuel) [] r h k = k
read_lines-IsSound (suc fuel) (c ∷ file) r h k =
    let (buffer, rest) = fgets line_room (c ∷ file) in
    let ((more, r'), h') = read_line buffer r h in
    ground (
      arith,
      read_line-IsSound buffer r h k,
      read_lines-IsSound fuel rest r' h' (read_line-IsSound buffer r h k),
    )

-- After `nvipfix_config_read`, of any file or none, every collector in the list has a host or an
-- address and a transport other than `NV_IPFIX_TRANSPORT_UNDEFINED`, if those listed before had.
pub config_read_usable :
    (file : Option Bytes) (g : Globals) (h : Heap)
    → all_usable g.collectors ≡ true
    → all_usable (config_read file g h).0.0.collectors ≡ true
unfolding config_read
config_read_usable none g h k = k
config_read_usable (some file) g h k =
    ground (arith, read_lines-IsSound (length file) file (start g) h (refl, k))
