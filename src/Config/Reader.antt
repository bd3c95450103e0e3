-- ===== src/Config/Reader.antt =====
-- `nvipfix_config_read` and what it calls: src/config.c, lines 145-263 and 326-349. The file is the
-- list of its bytes, with no NUL; an `int` line number is a number.
use ipfix.Common.{
  ℕ, zero, suc, ◌+◌, Bool, true, false, not, ◌||◌, List, [], ◌∷◌, ◌++◌, Option, none, some, ltb,
  ◌==◌, if◌then◌else◌, length,
}
use ipfix.Config.Table.{
  Setting, id_collector, get_setting, parse_into_collector, parse_into_globals,
}
use ipfix.Config.{
  Collector, zero_collector, Globals, Report, unknown_setting, bad_configuration, line_too_long,
  no_tokens, brace_expected, no_file, add_collector, config_cleanup,
}
use ipfix.Heap.{M, ◌>>=◌, ◌>>◌, pure}
use ipfix.Text.{Bytes, StringList, contains, string_list_free, string_split}

-- The variables of the function; `collector` is `none` until it is first cleared. `setting` and
-- `token_index` are those of the line.
pub record Reader : Type 0 where
  pub globals : Globals
  pub line : ℕ
  pub id : ℕ
  pub parent_id : ℕ
  pub collector : Option Collector
  pub token_index : ℕ
  pub setting : Option Setting
  pub reports : List Report

abbrev report : Reader → Report → Reader
report r e = record r { reports = r.reports ++ e ∷ [] }

-- `token->value[0]`
abbrev pub first_byte : Bytes → ℕ
first_byte [] = 0
first_byte (c ∷ s) = c

-- The branch for '}'.
unfoldable pub close_collector : Option Collector → Reader → M Reader
close_collector none r = pure r
close_collector (some c) r = do
  (c', collectors, reports) ← add_collector c r.globals.collectors
  pure (record r {
    collector = some c';
    globals = record r.globals { collectors = collectors };
    reports = r.reports ++ reports;
  })

unfoldable pub close_block : Reader → M Reader
unfolding close_collector
close_block r = do
  r' ← (if r.parent_id == id_collector then close_collector r.collector r else pure r)
  pure (record r' { parent_id = 0; token_index = 0 })

-- The first token of a setting.
unfoldable pub name_token : Option Setting → Reader → Reader
name_token none r = record r { setting = none; reports = r.reports ++ unknown_setting r.line ∷ [] }
name_token (some s) r =
    if s.id == id_collector
    then record r { setting = some s; id = s.id; collector = some zero_collector; parent_id = s.id }
    else record r { setting = some s; id = s.id }

unfoldable pub store_collector : Option Collector → Setting → Bytes → Reader → M Reader
store_collector none s token r = pure r
store_collector (some c) s token r = do
  c' ← parse_into_collector s.target token c
  pure (record r { collector = some c' })

unfoldable pub store_global : Setting → Bytes → Reader → M Reader
store_global s token r = do
  g ← parse_into_globals s.target token r.globals
  pure (record r { globals = g })

-- The second token, its value.
unfoldable pub value_token : Option Setting → Bytes → Reader → M Reader
unfolding store_collector store_global
value_token none token r = pure r
value_token (some s) token r =
    if r.parent_id == id_collector
    then store_collector r.collector s token r
    else if r.parent_id == 0
    then store_global s token r
    else pure r

-- The chain of tests of the token loop, behind `tokenIndex++`.
dispatch_token : Bytes → Reader → M Reader
dispatch_token token r =
    if first_byte token == b'{'
    then pure (record r { parent_id = r.id; token_index = 0 })
    else if first_byte token == b'}'
    then close_block r
    else if r.token_index == 1
    then pure (name_token (get_setting token r.parent_id) r)
    else if r.token_index == 2
    then value_token r.setting token r
    else pure r

check_index : Reader → Reader
check_index r =
    if ltb 2 r.token_index
    then record r { reports = r.reports ++ bad_configuration r.line ∷ [] }
    else r

unfoldable pub read_token : Bytes → Reader → M Reader
unfolding dispatch_token check_index
read_token token r = do
  r' ← dispatch_token token (record r { token_index = r.token_index + 1 })
  pure (check_index r')

unfoldable pub read_tokens : List Bytes → Reader → M Reader
read_tokens [] r = pure r
read_tokens (t ∷ ts) r = do r' ← read_token t r; read_tokens ts r'

abbrev pub is_blank : ℕ → Bool
is_blank c = c == b' ' || c == 9 || c == 10 || c == 13

-- `nvipfix_config_is_empty_line`: its result, and the line with the comment cut off.
unfoldable pub is_empty_line : Bytes → Bool × Bytes
is_empty_line [] = (true, [])
is_empty_line (c ∷ s) =
    let (empty, rest) = is_empty_line s in
    if not (is_blank c)
    then (if not (c == b'#') then (false, c ∷ rest) else (true, []))
    else (empty, c ∷ rest)

-- `fgets` with room for `n` bytes and the NUL: the bytes that it reads, and what is left.
unfoldable pub fgets : ℕ → Bytes → Bytes × Bytes
fgets zero s = ([], s)
fgets (suc n) [] = ([], [])
fgets (suc n) (c ∷ s) =
    let (line, rest) = fgets n s in if c == 10 then (c ∷ [], s) else (c ∷ line, rest)

abbrev pub line_room : ℕ
line_room = 4095

-- The tokens of a line; false where the reader gives up.
unfoldable pub line_tokens : Option StringList → Reader → M (Bool × Reader)
line_tokens none r = pure (false, record r { reports = r.reports ++ no_tokens ∷ [] })
line_tokens (some tokens) r = do
  r' ← read_tokens tokens.items (record r { token_index = 0; setting = none })
  string_list_free (some tokens) true
  pure (true, record r' { line = r'.line + 1 })

-- The body of the line loop, on the bytes that `fgets` read.
unfoldable pub read_line : Bytes → Reader → M (Bool × Reader)
unfolding line_tokens is_empty_line
read_line buffer r =
    if not (contains buffer 10)
    then pure (false, record r { reports = r.reports ++ line_too_long r.line ∷ [] })
    else (let (empty, text) = is_empty_line buffer in
        if not empty
        then (do tokens ← string_split text (9 ∷ 10 ∷ 13 ∷ 32 ∷ []); line_tokens tokens r)
        else pure (true, record r { line = r.line + 1 }))

-- The line loop; every round but the last reads at least one byte, so the length of the file is fuel
-- enough. `fgets` returns NULL at the end of the file.
unfoldable pub read_lines : ℕ → Bytes → Reader → M Reader
read_lines zero file r = pure r
read_lines (suc fuel) [] r = pure r
read_lines (suc fuel) (c ∷ file) r =
    let (buffer, rest) = fgets line_room (c ∷ file) in
    do
      (more, r') ← read_line buffer r
      let next = read_lines fuel rest r'
      if more then next else pure r'

abbrev pub start : Globals → Reader
start g = record {
  globals = g;
  line = 1;
  id = 0;
  parent_id = 0;
  collector = none;
  token_index = 0;
  setting = none;
  reports = [];
}

check_end : Reader → Reader
check_end r =
    if not (r.parent_id == 0) then record r { reports = r.reports ++ brace_expected ∷ [] } else r

-- `none` is a file that cannot be opened.
unfoldable pub config_read : Option Bytes → Globals → M (Globals × List Report)
unfolding read_lines check_end
config_read none g = pure (g, no_file ∷ [])
config_read (some file) g = do
  r ← read_lines (length file) file (start g)
  pure ((check_end r).globals, (check_end r).reports)

-- `nvipfix_config_init`, with `isInitialized`.
unfoldable pub config_init : Option Bytes → Bool → Globals → M (Bool × Globals)
config_init file true g = pure (true, g)
config_init file false g = do
  g' ← config_cleanup g
  (g'', reports) ← config_read file g'
  pure (true, g'')
