-- ===== src/Config/Blocks.antt =====
-- The block of a collector in a configuration file (src/config.c): its first line and its braces.
use ipfix.Common.{
  ℕ, ◌+◌, Bool, true, List, [], ◌∷◌, ◌++◌, append-nil, Option, none, some, ◌==◌, ◌≡◌, ◌≢◌, refl, ap,
  ◌∙◌, arith, if◌then◌else◌, codes,
}
use ipfix.Config.{undefined, Collector, zero_collector, Globals, Report, add_collector, has_address}
use ipfix.Config.Lines.{Ends, pure-Ends, bind-Ends}
use ipfix.Config.Printed.{IsWord, named, pair-Ends, Top, Inside, value_token_collector}
use ipfix.Config.Reader.{
  Reader, read_token, read_tokens, name_token, store_collector, close_block, close_collector,
}
use ipfix.Config.Table.{
  Setting, id_collector, get_setting, parse_into_collector, parse_string, collector_name,
}
use ipfix.Heap.{M, ◌>>=◌, pure, malloc_live}
use ipfix.Text.{Bytes}
use ipfix.Text.Trim.{string_duplicate}

-- A text that is stored.
pub string-Ends :
    (v : Bytes) (old : Option Bytes) → Ends (parse_string (some v) old) (λ o. o ≡ (true, some v))
unfolding Ends parse_string string_duplicate
string-Ends v old h room = ground (arith, malloc_live h)

abbrev pub Opened : Collector → Globals → List Report → Reader → Type 0
Opened c g reports r = (r.id ≡ id_collector) × Inside c g reports r

abbrev setting_collector : Setting
setting_collector = record {
  name = codes "collector";
  id = 6;
  parent_id = 0;
  target = collector_name;
}

-- The line with the name of a collector.
pub collector-Ends :
    (v : Bytes) (r : Reader) (g : Globals) (reports : List Report)
    → IsWord v
    → Top g reports r
    → Ends
        (read_tokens (codes "collector" ∷ v ∷ []) (record r { token_index = 0; setting = none }))
        (λ r'.
          Opened
            (record zero_collector { name = some v })
            g
            reports
            (record r' { line = r'.line + 1 }))
unfolding store_collector parse_into_collector
collector-Ends v r g reports word (outside, same, told) =
    let r2 : Reader = record (named r setting_collector 6 (some zero_collector)) {
      token_index = 2;
    } in
    pair-Ends (codes "collector") v setting_collector r 6 (some zero_collector)
      (λ r'.
        Opened (record zero_collector { name = some v }) g reports
          (record r' { line = r'.line + 1 }))
      (ap (get_setting (codes "collector")) outside ∙ unfold get_setting in refl)
      (unfold name_token in refl) (refl, refl) word
      (rw (value_token_collector setting_collector v r2 zero_collector refl refl) (
        bind-Ends (parse_string (some v) none)
          (λ (o : Bool × Option Bytes).
            pure (record r2 { collector = some (record zero_collector { name = o.1 }) }))
          (λ o. o ≡ (true, some v)) _ (string-Ends v none)
          (λ o e.
            pure-Ends (record r2 { collector = some (record zero_collector { name = o.1 }) }) _
              (
                refl,
                (
                  refl,
                  (
                    refl,
                    ap (λ (x : Bool × Option Bytes). some (record zero_collector { name = x.1 })) e,
                    same,
                    told,
                  ),
                ),
              ))))

-- The line with '{'.
pub open-Ends :
    (r : Reader) (c : Collector) (g : Globals) (reports : List Report)
    → Opened c g reports r
    → Ends
        (read_tokens (codes "{" ∷ []) (record r { token_index = 0; setting = none }))
        (λ r'. Inside c g reports (record r' { line = r'.line + 1 }))
unfolding read_tokens read_token
open-Ends r c g reports (is_open, (within, open_one, same, told)) =
    pure-Ends (record r { parent_id = r.id; token_index = 0; setting = none }) _
      (is_open, open_one, same, told)

-- A collector with all that it needs is put in front of the list as it is.
add-Ends :
    (c : Collector) (cs : List Collector) (port : Bytes)
    → has_address c ≡ true
    → c.port ≡ some port
    → c.transport ≢ undefined
    → Ends (add_collector c cs) (λ o. o ≡ (c, c ∷ cs, []))
unfolding Ends add_collector
add-Ends c cs port addressed ported typed h room = ground (arith, malloc_live h)

-- The branch for '}' in the block of a collector.
close_block_lem :
    (r : Reader) (c : Collector)
    → r.parent_id ≡ id_collector
    → r.collector ≡ some c
    → close_block r
      ≡ (close_collector (some c) r >>= λ r'. pure (record r' { parent_id = 0; token_index = 0 }))
unfolding close_block
close_block_lem r c e f =
    let rest = λ (m : M Reader). m >>= λ r'. pure (record r' { parent_id = 0; token_index = 0 }) in
    ap (λ (p : ℕ). rest (if p == id_collector then close_collector r.collector r else pure r)) e
    ∙ ap (λ (o : Option Collector). rest (close_collector o r)) f

-- The line with '}'.
pub close-Ends :
    (r : Reader) (c : Collector) (g : Globals) (reports : List Report) (port : Bytes)
    → has_address c ≡ true
    → c.port ≡ some port
    → c.transport ≢ undefined
    → Inside c g reports r
    → Ends (read_tokens (codes "}" ∷ []) (record r { token_index = 0; setting = none })) (λ r'.
      Top (record g { collectors = c ∷ g.collectors }) reports (record r' { line = r'.line + 1 }))
unfolding read_tokens read_token close_collector
close-Ends r c g reports port addressed ported typed (within, open_one, same, told) =
    let r1 : Reader = record r { token_index = 1; setting = none } in
    let listed = λ (o : Collector × List Collector × List Report). pure (record r1 {
      collector = some o.0;
      globals = record r1.globals { collectors = o.1 };
      reports = r1.reports ++ o.2;
      parent_id = 0;
      token_index = 0;
    }) in
    rw (close_block_lem r1 c within open_one) (
      bind-Ends (add_collector c r.globals.collectors) listed
        (λ o. o ≡ (c, c ∷ r.globals.collectors, [])) _
        (add-Ends c r.globals.collectors port addressed ported typed)
        (λ o e. rw e (
          pure-Ends
            (record r1 {
              collector = some c;
              globals = record r1.globals { collectors = c ∷ r.globals.collectors };
              reports = r1.reports ++ [];
              parent_id = 0;
              token_index = 0;
            })
            _
            (
              refl,
              ap (λ (x : Globals). record x { collectors = c ∷ x.collectors }) same,
              append-nil r.reports ∙ told,
            ))))
