-- ===== src/Config/RoundTrip.antt =====
-- A configuration that is printed, with one setting a line, is read back by `nvipfix_config_read` of src/config.c.
use ipfix.Common.{
  ℕ, Bool, true, not, if◌then◌else◌, List, [], ◌∷◌, ◌++◌, Option, some, ◌==◌, ◌≡◌, refl, ap, ◌∙◌,
  arith, length, codes,
}
use ipfix.Config.{Globals, Report, brace_expected}
use ipfix.Config.Blocks.{string-Ends}
use ipfix.Config.Lines.{Ends, pure-Ends, bind-Ends}
use ipfix.Config.Printed.{Top}
use ipfix.Config.Reader.{Reader, config_read, read_lines, start}
use ipfix.Config.Reading.{FileEnds}
use ipfix.Config.Keys.{
  print_lines, top-FileEnds, switch-IsKey, api_host-IsKey, api_login-IsKey, api_password-IsKey,
}
use ipfix.Config.Table.{parse_into_globals, parse_string}
use ipfix.Config.Values.{IsValue}
use ipfix.Heap.{Heap, ◌>>=◌, pure, has_room}
use ipfix.Text.{Bytes}
use ipfix.Config.Peers.{Peer, ArePeers, peers_lines, with_peers, peers-FileEnds}

-- The settings of the switch.
pub record Switch : Type 0 where
  pub name : Bytes
  pub host : Bytes
  pub login : Bytes
  pub password : Bytes

pub record IsSwitch (w : Switch) : Type 0 where
  pub name : IsValue w.name
  pub host : IsValue w.host
  pub login : IsValue w.login
  pub password : IsValue w.password

abbrev pub switch_lines : Switch → List (List Bytes)
switch_lines w =
    (codes "switch" ∷ w.name ∷ [])
    ∷ (codes "switch-nvapi-host" ∷ w.host ∷ [])
    ∷ (codes "switch-nvapi-login" ∷ w.login ∷ [])
    ∷ (codes "switch-nvapi-password" ∷ w.password ∷ [])
    ∷ []

-- The file of a switch and its collectors.
abbrev pub print_config : Switch → List Peer → Bytes
print_config w ps = print_lines (switch_lines w ++ peers_lines ps)

abbrev pub with_switch : Switch → Globals → Globals
with_switch w g = record g {
  switch_name = some w.name;
  switch_api_host = some w.host;
  switch_api_login = some w.login;
  switch_api_password = some w.password;
}

-- a text of the switch is stored
store-Ends :
    (v : Bytes) (old : Option Bytes) (f : Option Bytes → Globals)
    → Ends (parse_string (some v) old >>= λ o. pure (f o.1)) (λ x. x ≡ f (some v))
store-Ends v old f =
    bind-Ends (parse_string (some v) old) (λ (o : Bool × Option Bytes). pure (f o.1))
      (λ o. o ≡ (true, some v)) (λ x. x ≡ f (some v)) (string-Ends v old)
      (λ o e. pure-Ends (f o.1) (λ x. x ≡ f (some v)) (ap (λ (x : Bool × Option Bytes). f x.1) e))

switch-FileEnds :
    (w : Switch) (ls : List (List Bytes)) (r : Reader) (g : Globals) (reports : List Report)
    (Q : Reader → Type 0)
    → IsSwitch w
    → Top g reports r
    → ((r' : Reader) → Top (with_switch w g) reports r' → FileEnds (print_lines ls) r' Q)
    → FileEnds (print_lines (switch_lines w ++ ls)) r Q
unfolding parse_into_globals
switch-FileEnds w ls r g reports Q good top more =
    let g1 : Globals = record g { switch_name = some w.name } in
    let g2 : Globals = record g1 { switch_api_host = some w.host } in
    let g3 : Globals = record g2 { switch_api_login = some w.login } in
    let g4 : Globals = record g3 { switch_api_password = some w.password } in
    let l3 = (codes "switch-nvapi-password" ∷ w.password ∷ []) ∷ ls in
    let l2 = (codes "switch-nvapi-login" ∷ w.login ∷ []) ∷ l3 in
    let l1 = (codes "switch-nvapi-host" ∷ w.host ∷ []) ∷ l2 in
    let at3 = λ (r' : Reader) (k : Top g3 reports r').
      top-FileEnds (codes "switch-nvapi-password") w.password _ ls r' g3 g4 reports Q
        api_password-IsKey good.password
        (store-Ends w.password g.switch_api_password (λ o. record g3 { switch_api_password = o })) k
        more in
    let at2 = λ (r' : Reader) (k : Top g2 reports r').
      top-FileEnds (codes "switch-nvapi-login") w.login _ l3 r' g2 g3 reports Q api_login-IsKey
        good.login (store-Ends w.login g.switch_api_login (λ o. record g2 { switch_api_login = o }))
        k at3 in
    let at1 = λ (r' : Reader) (k : Top g1 reports r').
      top-FileEnds (codes "switch-nvapi-host") w.host _ l2 r' g1 g2 reports Q api_host-IsKey
        good.host (store-Ends w.host g.switch_api_host (λ o. record g1 { switch_api_host = o })) k
        at2 in
    top-FileEnds (codes "switch") w.name _ l1 r g g1 reports Q switch-IsKey good.name
      (store-Ends w.name g.switch_name (λ o. record g { switch_name = o })) top at1

-- at the end of the file outside of a block
config_read_end :
    (file : Bytes) (g : Globals) (h : Heap)
    → let r = (read_lines (length file) file (start g) h).0 in
      r.parent_id ≡ 0 → (config_read (some file) g h).0 ≡ (r.globals, r.reports)
unfolding config_read
config_read_end file g h e =
    let r = (read_lines (length file) file (start g) h).0 in
    ap
      (λ (p : ℕ).
        let end_of : Reader =
          if not (p == 0) then record r { reports = r.reports ++ brace_expected ∷ [] } else r in
        (end_of.globals, end_of.reports))
      e

-- A configuration of a switch and any number of collectors, of values that are single words, written with one
-- setting a line: `nvipfix_config_read` stores the settings of the switch and puts each collector, with all
-- fields as they were written, in front of the list; nothing is reported, and the other settings stay, if `malloc` refuses no call.
pub config_read-print_config :
    (w : Switch) (ps : List Peer) (g : Globals) (h : Heap)
    → IsSwitch w
    → ArePeers ps
    → has_room h.plan ≡ true
    → (config_read (some (print_config w ps)) g h).0 ≡ (with_peers ps (with_switch w g), [])
unfolding FileEnds Ends
config_read-print_config w ps g h good all room =
    let file = print_config w ps in
    let ((outside, same, told), room') =
      switch-FileEnds w (peers_lines ps) (start g) g [] (Top (with_peers ps (with_switch w g)) [])
        good (refl, refl, refl) (λ r k. peers-FileEnds ps r (with_switch w g) [] all k)
        (length file) (omega arith) h room in
    config_read_end file g h outside
    ∙ ap (λ (x : Globals). (x, (read_lines (length file) file (start g) h).0.reports)) same
    ∙ ap (λ (x : List Report). (with_peers ps (with_switch w g), x)) told
