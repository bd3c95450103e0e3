-- ===== src/Text/Split.antt =====
-- The index loop of `nvipfix_string_split` (src/types.c) and the memory that it takes.
use ipfix.Common.{
  ℕ, ◌+◌, Bool, true, false, not, ◌&&◌, ◌||◌, List, [], ◌∷◌, ◌++◌, Option, none, some, ◌≡◌, ◌≢◌,
  refl, sym, ap, ◌∙◌, inl, inr, ltb, if◌then◌else◌, length, take, drop, lt→ltb, append_assoc,
  length-append, arith, Bool-cases,
}
use mathlib.Core.Path.{subst}
use ipfix.Heap.{Heap, M, has_room}
use ipfix.Text.{
  Bytes, StringList, string_list_free, contains, emit_token, is_nil, on_list, split_from,
  string_split,
}
use ipfix.Text.Tokens.{owned, extend, Settles, string_list_free_live, emit_token-Settles}
use ipfix.Text.Fields.{runs, blank_end, pieces}

-- The tokens of what is unread, behind the run `cur`.
abbrev pieces_from : Bytes → Bytes → Bytes → List Bytes
pieces_from d cur s = runs (contains d) cur s ++ blank_end (contains d) (not (is_nil cur)) s

take-length : (cur rest : Bytes) → take (length cur) (cur ++ rest) ≡ cur
take-length [] rest = refl
take-length (x ∷ cur) rest = ap (◌∷◌ x) (take-length cur rest)

drop-length : (pre rest : Bytes) → drop (length pre) (pre ++ rest) ≡ rest
drop-length [] rest = refl
drop-length (x ∷ pre) rest = drop-length pre rest

-- The indices name the run that has been read.
token_at :
    (pre cur rest s : Bytes) (start len : ℕ)
    → s ≡ pre ++ (cur ++ rest)
    → start ≡ length pre
    → len ≡ length cur
    → take len (drop start s) ≡ cur
token_at pre cur rest s start len es e e' =
    rw (es, e, e', drop-length pre (cur ++ rest)) (take-length cur rest)

extend-extend :
    (r : Option StringList) (t : Bytes) (ts : List Bytes)
    → extend (extend r (t ∷ [])) ts ≡ extend r (t ∷ ts)
extend-extend none t [] = refl
extend-extend none t (u ∷ ts) = ground arith
extend-extend (some l) t [] = refl
extend-extend (some l) t (u ∷ ts) =
    let assoc = append_assoc l.items (t ∷ []) (u ∷ ts) in ground (arith, assoc)

runs_end :
    (d : Bytes) (cur : Bytes) (c : ℕ) → contains d c ≡ true → pieces_from d cur (c ∷ []) ≡ cur ∷ []
runs_end d [] c e = ground arith
runs_end d (x ∷ cur) c e = ground arith

runs_end_open :
    (d : Bytes) (cur : Bytes) (c : ℕ)
    → contains d c ≡ false
    → pieces_from d cur (c ∷ []) ≡ (cur ++ c ∷ []) ∷ []
runs_end_open d [] c e = ground arith
runs_end_open d (x ∷ cur) c e = ground arith

runs_more :
    (d : Bytes) (cur : Bytes) (c b : ℕ) (s : Bytes)
    → contains d c ≡ false
    → pieces_from d cur (c ∷ b ∷ s) ≡ pieces_from d (cur ++ c ∷ []) (b ∷ s)
runs_more d [] c b s e = rw e
runs_more d (x ∷ cur) c b s e = rw e

runs_close :
    (d : Bytes) (x : ℕ) (cur : Bytes) (c b : ℕ) (s : Bytes)
    → contains d c ≡ true
    → pieces_from d (x ∷ cur) (c ∷ b ∷ s) ≡ (x ∷ cur) ∷ pieces_from d [] (b ∷ s)
runs_close d x cur c b s e = rw e

runs_skip :
    (d : Bytes) (c b : ℕ) (s : Bytes)
    → contains d c ≡ true
    → pieces_from d [] (c ∷ b ∷ s) ≡ pieces_from d [] (b ∷ s)
runs_skip d c b s e = rw e

extend-ne-none : (r : Option StringList) (t : Bytes) → extend r (t ∷ []) ≢ none
extend-ne-none none t = cc
extend-ne-none (some l) t = cc

on_list-Settles :
    (k : StringList → M (Option StringList)) (out : Option StringList × Heap) (p : Bool) (base : ℕ)
    (q r : Option StringList)
    → q ≢ none
    → Settles p base q out
    → ((l : StringList) (h : Heap)
        → q ≡ some l
        → h.live ≡ base + owned q
        → has_room h.plan ≡ p
        → Settles p base r (k l h))
    → Settles p base r (on_list k out.0 out.1)
on_list-Settles k out p base q r ne (inl (e, live, full)) f = rw e (inl (refl, live, full))
on_list-Settles k out p base none r ne (inr (e, live, room)) f = absurd (ne refl)
on_list-Settles k out p base (some l) r ne (inr (e, live, room)) f = rw e (f l out.1 refl live room)

-- The token that a round of the loop copies.
abbrev token : Bytes → Bytes → ℕ → ℕ → ℕ → ℕ → Bytes
token d s c i start len =
    take (if contains d c then len else len + 1)
      (drop (if contains d c && not (ltb 0 len) then i + 1 else start) s)

abbrev is_ready : Bytes → ℕ → Bytes → ℕ → Bool
is_ready d c rest len = (contains d c && ltb 0 len) || is_nil rest

split_from_emit :
    (d s : Bytes) (c : ℕ) (rest : Bytes) (i start len : ℕ) (r : Option StringList) (h : Heap)
    (p : Bool) (base : ℕ) (ps : List Bytes) (t : Bytes) (ts : List Bytes)
    → is_ready d c rest len ≡ true
    → token d s c i start len ≡ t
    → ps ≡ t ∷ ts
    → h.live ≡ base + owned r
    → has_room h.plan ≡ p
    → ((l : StringList) (h' : Heap)
        → extend r (t ∷ []) ≡ some l
        → h'.live ≡ base + owned (extend r (t ∷ []))
        → has_room h'.plan ≡ p
        → Settles p base (extend r (t ∷ ts)) (split_from d s rest (i + 1) (i + 1) 0 (some l) h'))
    → Settles p base (extend r ps) (split_from d s (c ∷ rest) i start len r h)
unfolding split_from
split_from_emit d s c rest i start len r h p base ps t ts ready et ep el hp f =
    rw (ready, et, ep)
      (on_list-Settles (λ l. split_from d s rest (i + 1) (i + 1) 0 (some l)) (emit_token r t h) p
        base (extend r (t ∷ [])) (extend r (t ∷ ts)) (extend-ne-none r t)
        (subst (λ b. Settles b base (extend r (t ∷ [])) (emit_token r t h)) hp
          (emit_token-Settles r t h base el))
        f)

token_closed :
    (d s pre cur rest : Bytes) (c i start len : ℕ)
    → contains d c ≡ true
    → s ≡ pre ++ (cur ++ rest)
    → start ≡ length pre
    → len ≡ length cur
    → token d s c i start len ≡ cur
token_closed d s pre [] rest c i start len t es e e' = rw (t, e')
token_closed d s pre (x ∷ cur) rest c i start len t es e e' =
    rw (t, lt→ltb 0 len (omega arith)) (token_at pre (x ∷ cur) rest s start len es e e')

token_open :
    (d s pre cur rest : Bytes) (c i start len : ℕ)
    → contains d c ≡ false
    → s ≡ pre ++ (cur ++ (c ∷ rest))
    → start ≡ length pre
    → len ≡ length cur
    → token d s c i start len ≡ cur ++ c ∷ []
token_open d s pre cur rest c i start len f es e e' = rw f (
    token_at pre (cur ++ c ∷ []) rest s start (len + 1) (rw append_assoc es) e
      (omega (arith, length-append cur (c ∷ []))))

split_from_end :
    (d s pre cur : Bytes) (c i start len : ℕ) (r : Option StringList) (h : Heap) (p : Bool)
    (base : ℕ)
    → s ≡ pre ++ (cur ++ (c ∷ []))
    → start ≡ length pre
    → len ≡ length cur
    → h.live ≡ base + owned r
    → has_room h.plan ≡ p
    → Settles p base
        (extend r (pieces_from d cur (c ∷ [])))
        (split_from d s (c ∷ []) i start len r h)
split_from_end d s pre cur c i start len r h p base es e e' el hp =
    elim (Bool-cases (contains d c)) [
      | inl t ↦
          split_from_emit d s c [] i start len r h p base _ cur [] (rw t (ground arith))
            (token_closed d s pre cur (c ∷ []) c i start len t es e e') (runs_end d cur c t) el hp
            (λ l h' q live room. unfold split_from in inr (sym q, live, room))
      | inr f ↦
          split_from_emit d s c [] i start len r h p base _ (cur ++ c ∷ []) [] (rw f)
            (token_open d s pre cur [] c i start len f es e e') (runs_end_open d cur c f) el hp
            (λ l h' q live room. unfold split_from in inr (sym q, live, room))
    ]

split_from_skip :
    (d s : Bytes) (c b : ℕ) (more : Bytes) (i start len : ℕ) (r : Option StringList) (h : Heap)
    (p : Bool) (base : ℕ) (q : Option StringList)
    → is_ready d c (b ∷ more) len ≡ false
    → Settles p base q (
        split_from d s
          (b ∷ more)
          (i + 1)
          (if contains d c && not (ltb 0 len) then i + 1 else start)
          (if contains d c then len else len + 1)
          r
          h)
    → Settles p base q (split_from d s (c ∷ b ∷ more) i start len r h)
unfolding split_from
split_from_skip d s c b more i start len r h p base q ready k = rw ready k

split_from-Settles :
    (d s pre cur : Bytes) (c : ℕ) (more : Bytes) (i start len : ℕ) (r : Option StringList)
    (h : Heap) (p : Bool) (base : ℕ)
    → s ≡ pre ++ (cur ++ (c ∷ more))
    → start ≡ length pre
    → len ≡ length cur
    → i ≡ start + len
    → h.live ≡ base + owned r
    → has_room h.plan ≡ p
    → Settles p base
        (extend r (pieces_from d cur (c ∷ more)))
        (split_from d s (c ∷ more) i start len r h)
split_from-Settles d s pre cur c [] i start len r h p base es e e' ei el hp =
    split_from_end d s pre cur c i start len r h p base es e e' el hp
split_from-Settles d s pre [] c (b ∷ more) i start len r h p base es e e' ei el hp =
    elim (Bool-cases (contains d c)) [
      | inl t ↦ rw (runs_skip d c b more t) (
          split_from_skip d s c b more i start len r h p base _ (rw (t, e')) (
            rw (t, e')
              (split_from-Settles d s (pre ++ c ∷ []) [] b more (i + 1) (i + 1) 0 r h p base
                (es ∙ sym (append_assoc pre (c ∷ []) (b ∷ more)))
                (omega (arith, length-append pre (c ∷ []))) refl (omega arith) el hp)))
      | inr f ↦ rw (runs_more d [] c b more f) (
          split_from_skip d s c b more i start len r h p base _ (rw f) (
            rw f (
              split_from-Settles d s pre (c ∷ []) b more (i + 1) start (len + 1) r h p base es e
                (omega arith) (omega arith) el hp)))
    ]
split_from-Settles d s pre (x ∷ cur) c (b ∷ more) i start len r h p base es e e' ei el hp =
    elim (Bool-cases (contains d c)) [
      | inl t ↦
          split_from_emit d s c (b ∷ more) i start len r h p base _ (x ∷ cur) _
            (rw (t, lt→ltb 0 len (omega arith)))
            (token_closed d s pre (x ∷ cur) (c ∷ b ∷ more) c i start len t es e e')
            (runs_close d x cur c b more t) el hp
            (λ l h' q live room.
              subst
                (λ (o : Option StringList).
                  Settles p base o (split_from d s (b ∷ more) (i + 1) (i + 1) 0 (some l) h'))
                (ap (λ (o : Option StringList). extend o (pieces_from d [] (b ∷ more))) (sym q)
                  ∙ extend-extend r (x ∷ cur) (pieces_from d [] (b ∷ more)))
                (split_from-Settles d s (pre ++ (x ∷ (cur ++ c ∷ []))) [] b more (i + 1) (i + 1) 0
                  (some l) h' p base (es ∙ simp append_assoc)
                  (omega
                    (arith, length-append pre (x ∷ (cur ++ c ∷ [])), length-append cur (c ∷ [])))
                  refl (omega arith) (live ∙ ap (λ (o : Option StringList). base + owned o) q)
                  room))
      | inr f ↦ rw (runs_more d (x ∷ cur) c b more f) (
          split_from_skip d s c b more i start len r h p base _ (rw f) (
            rw f (
              split_from-Settles d s pre (x ∷ (cur ++ c ∷ [])) b more (i + 1) start (len + 1) r h p
                base (rw append_assoc es) e (omega (arith, length-append cur (c ∷ [])))
                (omega arith) el hp)))
    ]

-- For every heap and every text: `nvipfix_string_split` either returns the pieces of the text between
-- delimiters (NULL for the empty text), in order and with the right count, every block that it took
-- belonging to the list; or, and only if a call of `malloc` was refused, it returns NULL and has given
-- every block back.
pub string_split-Settles :
    (s d : Bytes) (h : Heap)
    → Settles (has_room h.plan) h.live (extend none (pieces (contains d) s)) (string_split s d h)
unfolding string_split
string_split-Settles [] d h = inr (refl, omega arith, refl)
string_split-Settles (c ∷ s) d h =
    split_from-Settles d (c ∷ s) [] [] c s 0 0 0 none h (has_room h.plan) h.live refl refl refl
      (omega arith) (omega arith) refl

-- What a split takes belongs to its result.
pub string_split_live :
    (s d : Bytes) (h : Heap) → (string_split s d h).1.live ≡ h.live + owned (string_split s d h).0
string_split_live s d h = ground (arith, string_split-Settles s d h)

-- A caller that frees what a split returned, values included, is left with what it had.
pub string_split_free_live :
    (s d : Bytes) (h : Heap)
    → (string_list_free (string_split s d h).0 true (string_split s d h).1).1.live ≡ h.live
string_split_free_live s d h = ground (
  arith,
  string_split-Settles s d h,
  string_list_free_live (string_split s d h).0 (string_split s d h).1,
)
