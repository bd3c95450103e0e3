-- ===== src/Config/Reading.antt =====
-- A configuration file of plain lines, read line by line: `nvipfix_config_read` of src/config.c.
use ipfix.Common.{
  ℕ, zero, suc, ◌+◌, ◌≤◌, ◌<◌, Bool, true, false, List, [], ◌∷◌, ◌++◌, Option, none, some, ◌==◌,
  ◌≡◌, refl, ap, ◌∙◌, arith, All, length, if◌then◌else◌, length-append,
}
use ipfix.Config.File.{all_blank, is_empty_line_lem}
use ipfix.Config.Lines.{
  Ends, pure-Ends, bind-Ends, separators, print_line, IsPlain, OneLine, fgets-line, contains_end,
  uncommented-line, not_blank, Clean-OneLine, All-join,
}
use ipfix.Config.Reader.{Reader, read_tokens, line_tokens, read_line, read_lines, is_empty_line}
use ipfix.Heap.{M, ◌>>=◌, ◌>>◌, pure}
use ipfix.Text.{Bytes, StringList, contains, string_split, string_list_free}
use ipfix.Text.Join.{join, IsToken, string_split_room, string_split_roomy}
use ipfix.Text.Lines.{pieces-line}
use ipfix.Text.Roomy.{Roomy-room, string_list_free-Roomy}
use ipfix.Text.Tokens.{extend}

plain_tokens : (ts : List Bytes) → All IsPlain ts → All (IsToken (contains separators)) ts
plain_tokens [] k = tt
plain_tokens (t ∷ ts) k = (k.0.0, plain_tokens ts k.1)

plain_uncommented : (ts : List Bytes) → All IsPlain ts → All (All (λ c. (c == b'#') ≡ false)) ts
plain_uncommented [] k = tt
plain_uncommented (t ∷ ts) k = (k.0.1, plain_uncommented ts k.1)

plain-OneLine : (ts : List Bytes) → All IsPlain ts → All OneLine ts
plain-OneLine [] k = tt
plain-OneLine (t ∷ ts) k = (Clean-OneLine t k.0.0.1, plain-OneLine ts k.1)

join_not_blank :
    (ts : List Bytes) (t : Bytes)
    → All IsPlain (t ∷ ts)
    → all_blank (join b' ' (t ∷ ts) ++ 10 ∷ []) ≡ false
unfolding all_blank
join_not_blank ts [] k = absurd (k.0.0.0 refl)
join_not_blank [] (c ∷ t) k = rw (not_blank c k.0.0.1.0) refl
join_not_blank (u ∷ ts) (c ∷ t) k = rw (not_blank c k.0.0.1.0) refl

-- The line is not empty, and nothing is cut off.
full_line :
    (ts : List Bytes) (t : Bytes)
    → All IsPlain (t ∷ ts)
    → is_empty_line (print_line (t ∷ ts)) ≡ (false, print_line (t ∷ ts))
full_line ts t k =
    let whole =
      uncommented-line (join b' ' (t ∷ ts))
        (All-join (λ c. (c == b'#') ≡ false) (t ∷ ts) refl (plain_uncommented (t ∷ ts) k)) in
    is_empty_line_lem (print_line (t ∷ ts))
    ∙ ap (λ (s : Bytes). (all_blank s, s)) whole
    ∙ ap (λ (b : Bool). (b, print_line (t ∷ ts))) (join_not_blank ts t k)

-- A reader that goes on, in a state with `P`.
abbrev pub Continues : (Reader → Type 0) → Bool × Reader → Type 0
Continues P o = (o.0 ≡ true) × P o.1

free-Ends : (l : StringList) → Ends (string_list_free (some l) true) (λ _. Unit {0})
unfolding Ends
free-Ends l h room =
    (tt, Roomy-room (string_list_free (some l) true) (string_list_free-Roomy (some l)) h room)

split-Ends :
    (ts : List Bytes) (t : Bytes)
    → All IsPlain (t ∷ ts)
    → Ends (string_split (print_line (t ∷ ts)) separators) (λ l. l ≡ extend none (t ∷ ts))
unfolding Ends
split-Ends ts t k h room = (
  string_split_room (print_line (t ∷ ts)) separators h room
      ∙ ap (extend none) (
          pieces-line (contains separators) b' ' 10 t ts (unfold contains in refl)
            (unfold contains in refl) (plain_tokens (t ∷ ts) k)),
  string_split_roomy (print_line (t ∷ ts)) separators h room,
)

tokens-Ends :
    (ts : List Bytes) (t : Bytes) (r : Reader) (P : Reader → Type 0)
    → Ends
        (read_tokens (t ∷ ts) (record r { token_index = 0; setting = none }))
        (λ r'. P (record r' { line = r'.line + 1 }))
    → (l : Option StringList) → l ≡ extend none (t ∷ ts)
    → Ends (line_tokens l r) (Continues P)
unfolding line_tokens
tokens-Ends ts t r P k l e =
    let tokens : StringList = record { items = t ∷ ts; count = length (t ∷ ts) } in
    let goal =
      bind-Ends (read_tokens (t ∷ ts) (record r { token_index = 0; setting = none }))
        (λ (r' : Reader).
          string_list_free (some tokens) true >> pure (true, record r' { line = r'.line + 1 }))
        (λ (r' : Reader). P (record r' { line = r'.line + 1 })) (Continues P) k
        (λ r' p.
          bind-Ends (string_list_free (some tokens) true)
            (λ _. pure (true, record r' { line = r'.line + 1 })) (λ _. Unit {0}) (Continues P)
            (free-Ends tokens)
            (λ _ _. pure-Ends (true, record r' { line = r'.line + 1 }) (Continues P) (refl, p))) in
    rw e goal

-- One line.
line-Ends :
    (ts : List Bytes) (t : Bytes) (r : Reader) (P : Reader → Type 0)
    → All IsPlain (t ∷ ts)
    → Ends
        (read_tokens (t ∷ ts) (record r { token_index = 0; setting = none }))
        (λ r'. P (record r' { line = r'.line + 1 }))
    → Ends (read_line (print_line (t ∷ ts)) r) (Continues P)
unfolding read_line
line-Ends ts t r P plain k =
    rw (contains_end (join b' ' (t ∷ ts)), full_line ts t plain)
      (bind-Ends (string_split (print_line (t ∷ ts)) separators)
        (λ (l : Option StringList). line_tokens l r)
        (λ (l : Option StringList). l ≡ extend none (t ∷ ts)) (Continues P) (split-Ends ts t plain)
        (tokens-Ends ts t r P k))

-- The rest of a file, with fuel enough.
unfoldable pub FileEnds : Bytes → Reader → (Reader → Type 0) → Type 0
FileEnds file r Q = (fuel : ℕ) → length file ≤ fuel → Ends (read_lines fuel file r) Q

pub end-FileEnds : (r : Reader) (Q : Reader → Type 0) → Q r → FileEnds [] r Q
unfolding FileEnds read_lines
end-FileEnds r Q q zero l = pure-Ends r Q q
end-FileEnds r Q q (suc fuel) l = pure-Ends r Q q

-- What one round of the loop does.
abbrev round : ℕ → Bytes → Bytes → Reader → M Reader
round fuel s rest r = do
  (more, r') ← read_line (s ++ 10 ∷ []) r
  let next = read_lines fuel rest r'
  if more then next else pure r'

read_lines-line :
    (fuel : ℕ) (s rest : Bytes) (r : Reader)
    → OneLine s
    → length s < 4095
    → read_lines (suc fuel) (s ++ 10 ∷ rest) r ≡ round fuel s rest r
unfolding read_lines
read_lines-line fuel [] rest r k short = rw (fgets-line 4095 [] rest k short) refl
read_lines-line fuel (x ∷ s) rest r k short = rw (fgets-line 4095 (x ∷ s) rest k short) refl

-- A line, and what is behind it.
pub line-FileEnds :
    (ts : List Bytes) (t rest : Bytes) (r : Reader) (P Q : Reader → Type 0)
    → All IsPlain (t ∷ ts)
    → length (join b' ' (t ∷ ts)) < 4095
    → Ends
        (read_tokens (t ∷ ts) (record r { token_index = 0; setting = none }))
        (λ r'. P (record r' { line = r'.line + 1 }))
    → ((r' : Reader) → P r' → FileEnds rest r' Q)
    → FileEnds (join b' ' (t ∷ ts) ++ 10 ∷ rest) r Q
unfolding FileEnds
line-FileEnds ts t rest r P Q plain short k more zero l =
    absurd (omega (arith, length-append (join b' ' (t ∷ ts)) (10 ∷ rest)))
line-FileEnds ts t rest r P Q plain short k more (suc fuel) l =
    let s = join b' ' (t ∷ ts) in
    let one = All-join (λ c. (c == 10) ≡ false) (t ∷ ts) refl (plain-OneLine (t ∷ ts) plain) in
    let enough : length rest ≤ fuel = omega (arith, length-append s (10 ∷ rest)) in
    rw (read_lines-line fuel s rest r one short) (
      bind-Ends (read_line (s ++ 10 ∷ []) r)
        (λ (o : Bool × Reader). if o.0 then read_lines fuel rest o.1 else pure o.1) (Continues P) Q
        (line-Ends ts t r P plain k) (λ o p. rw p.0 (more o.1 p.1 fuel enough)))
