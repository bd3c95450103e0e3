-- ===== src/Config/Printed.antt =====
-- What the settings of a configuration file (src/config.c) store when they are written with one setting a line.
use ipfix.Common.{
  ℕ, ◌+◌, false, List, [], ◌∷◌, ◌++◌, Option, none, some, ◌==◌, ltb, ◌≡◌, refl, ap, ◌∙◌,
  if◌then◌else◌,
}
use ipfix.Config.{Collector, Globals, Report, bad_configuration}
use ipfix.Config.Lines.{Ends, pure-Ends, bind-Ends}
use ipfix.Config.Reader.{
  Reader, read_token, read_tokens, name_token, value_token, store_collector, store_global,
  first_byte,
}
use ipfix.Config.Table.{
  Setting, id_collector, get_setting, parse_into_collector, parse_into_globals,
}
use ipfix.Heap.{pure}
use ipfix.Text.{Bytes}

-- A text that does not open or close a block.
abbrev pub IsWord : Bytes → Type 0
IsWord t = ((first_byte t == b'{') ≡ false) × ((first_byte t == b'}') ≡ false)

-- The reader behind the name of a setting.
abbrev pub named : Reader → Setting → ℕ → Option Collector → Reader
named r s parent collector = record r {
  token_index = 1;
  setting = some s;
  id = s.id;
  parent_id = parent;
  collector = collector;
}

-- A name and a value.
pub pair-Ends :
    (name v : Bytes) (s : Setting) (r : Reader) (parent : ℕ) (collector : Option Collector)
    (P : Reader → Type 0)
    → get_setting name r.parent_id ≡ some s
    → name_token (some s) (record r { token_index = 1; setting = none })
      ≡ named r s parent collector
    → IsWord name
    → IsWord v
    → Ends
        (value_token (some s) v (record (named r s parent collector) { token_index = 2 }))
        (λ r'. (ltb 2 r'.token_index ≡ false) × P r')
    → Ends (read_tokens (name ∷ v ∷ []) (record r { token_index = 0; setting = none })) P
unfolding read_tokens read_token
pair-Ends name v s r parent collector P found next word word' k =
    rw (word.0, word.1, found, next, word'.0, word'.1)
      (bind-Ends (value_token (some s) v (record (named r s parent collector) { token_index = 2 }))
        (λ (r' : Reader). pure (
          if ltb 2 r'.token_index
          then record r' { reports = r'.reports ++ bad_configuration r'.line ∷ [] }
          else r'))
        (λ r'. (ltb 2 r'.token_index ≡ false) × P r') P k (λ r' q. rw q.0 (pure-Ends r' P q.1)))

-- Outside of a block, with these settings and reports.
abbrev pub Top : Globals → List Report → Reader → Type 0
Top g reports r = (r.parent_id ≡ 0) × (r.globals ≡ g) × (r.reports ≡ reports)

-- In the block of a collector.
abbrev pub Inside : Collector → Globals → List Report → Reader → Type 0
Inside c g reports r =
    (r.parent_id ≡ id_collector) × (r.collector ≡ some c) × (r.globals ≡ g) × (r.reports ≡ reports)

value_token_global :
    (s : Setting) (v : Bytes) (r : Reader)
    → r.parent_id ≡ 0
    → value_token (some s) v r ≡ store_global s v r
unfolding value_token
value_token_global s v r e =
    ap
      (λ (p : ℕ).
        if p == id_collector
        then store_collector r.collector s v r
        else if p == 0
        then store_global s v r
        else pure r)
      e

pub value_token_collector :
    (s : Setting) (v : Bytes) (r : Reader) (c : Collector)
    → r.parent_id ≡ id_collector
    → r.collector ≡ some c
    → value_token (some s) v r ≡ store_collector (some c) s v r
unfolding value_token
value_token_collector s v r c e f =
    ap
      (λ (p : ℕ).
        if p == id_collector
        then store_collector r.collector s v r
        else if p == 0
        then store_global s v r
        else pure r)
      e
    ∙ ap (λ (o : Option Collector). store_collector o s v r) f

name_token_plain :
    (s : Setting) (r : Reader)
    → (s.id == id_collector) ≡ false
    → name_token (some s) (record r { token_index = 1; setting = none })
      ≡ named r s r.parent_id r.collector
unfolding name_token
name_token_plain s r e = rw e refl

-- A setting of the top level.
pub Top-Ends :
    (name v : Bytes) (s : Setting) (r : Reader) (g g' : Globals) (reports : List Report)
    → get_setting name 0 ≡ some s
    → (s.id == id_collector) ≡ false
    → IsWord name
    → IsWord v
    → Ends (parse_into_globals s.target v g) (λ x. x ≡ g')
    → Top g reports r
    → Ends
        (read_tokens (name ∷ v ∷ []) (record r { token_index = 0; setting = none }))
        (λ r'. Top g' reports (record r' { line = r'.line + 1 }))
unfolding store_global
Top-Ends name v s r g g' reports found plain word word' k (outside, same, told) =
    let r2 : Reader = record (named r s r.parent_id r.collector) { token_index = 2 } in
    pair-Ends name v s r r.parent_id r.collector
      (λ r'. Top g' reports (record r' { line = r'.line + 1 }))
      (ap (get_setting name) outside ∙ found) (name_token_plain s r plain) word word'
      (rw (value_token_global s v r2 outside) (
        bind-Ends (parse_into_globals s.target v r.globals)
          (λ (x : Globals). pure (record r2 { globals = x })) (λ x. x ≡ g')
          (λ r'. (ltb 2 r'.token_index ≡ false) × Top g' reports (record r' { line = r'.line + 1 }))
          (rw same k) (λ x e. pure-Ends (record r2 { globals = x }) _ (refl, (outside, e, told)))))

-- A setting of a collector.
pub field-Ends :
    (name v : Bytes) (s : Setting) (r : Reader) (c c' : Collector) (g : Globals)
    (reports : List Report)
    → get_setting name id_collector ≡ some s
    → (s.id == id_collector) ≡ false
    → IsWord name
    → IsWord v
    → Ends (parse_into_collector s.target v c) (λ x. x ≡ c')
    → Inside c g reports r
    → Ends
        (read_tokens (name ∷ v ∷ []) (record r { token_index = 0; setting = none }))
        (λ r'. Inside c' g reports (record r' { line = r'.line + 1 }))
unfolding store_collector
field-Ends name v s r c c' g reports found plain word word' k (within, open_one, same, told) =
    let r2 : Reader = record (named r s r.parent_id r.collector) { token_index = 2 } in
    pair-Ends name v s r r.parent_id r.collector
      (λ r'. Inside c' g reports (record r' { line = r'.line + 1 }))
      (ap (get_setting name) within ∙ found) (name_token_plain s r plain) word word'
      (rw (value_token_collector s v r2 c within open_one) (
        bind-Ends (parse_into_collector s.target v c)
          (λ (x : Collector). pure (record r2 { collector = some x })) (λ x. x ≡ c')
          (λ r'.
            (ltb 2 r'.token_index ≡ false) × Inside c' g reports (record r' { line = r'.line + 1 }))
          k
          (λ x e.
            pure-Ends (record r2 { collector = some x }) _
              (refl, (within, ap some e, same, told)))))
