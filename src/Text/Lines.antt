-- ===== src/Text/Lines.antt =====
-- The split of a text line (src/types.c): tokens with a delimiter between them, and one behind the last.
use ipfix.Common.{
  ℕ, Bool, true, false, not, List, [], ◌∷◌, ◌++◌, ◌≡◌, refl, sym, ap, ◌∙◌, All, append-nil,
  append_assoc, arith,
}
use ipfix.Text.{Bytes}
use ipfix.Text.Fields.{runs, blank_end, pieces}
use ipfix.Text.Join.{join, Clean, IsToken, runs_close_token, blank_end_skip, join-cons}

module _ (delimiter : ℕ → Bool) where
  runs-line :
      (c e : ℕ) (ts : List Bytes)
      → delimiter c ≡ true
      → delimiter e ≡ true
      → All (IsToken delimiter) ts
      → runs delimiter [] (join c ts ++ e ∷ []) ≡ ts
  runs-line c e [] p q k = rw q
  runs-line c e ([] ∷ ts) p q k = absurd (k.0.0 refl)
  runs-line c e ((x ∷ t) ∷ []) p q k = rw k.0.1.0 (runs_close_token delimiter x [] t e [] k.0.1.1 q)
  runs-line c e ((x ∷ t) ∷ u ∷ ts) p q k = rw k.0.1.0 (
      ap (runs delimiter (x ∷ [])) (append_assoc t (c ∷ join c (u ∷ ts)) (e ∷ []))
      ∙ runs_close_token delimiter x [] t c (join c (u ∷ ts) ++ e ∷ []) k.0.1.1 p
      ∙ ap (◌∷◌ (x ∷ t)) (runs-line c e (u ∷ ts) p q k.1))

  blank_end_closed :
      (flag : Bool) (x : ℕ) (t : Bytes) (e : ℕ)
      → Clean delimiter (x ∷ t)
      → blank_end delimiter flag (x ∷ (t ++ e ∷ [])) ≡ []
  blank_end_closed flag x [] e k = rw k.0 (ground arith)
  blank_end_closed flag x (y ∷ t) e k = blank_end_closed (not (delimiter x)) y t e k.1

  blank_end-line :
      (flag : Bool) (c e : ℕ) (t : Bytes) (ts : List Bytes)
      → All (IsToken delimiter) (t ∷ ts)
      → blank_end delimiter flag (join c (t ∷ ts) ++ e ∷ []) ≡ []
  blank_end-line flag c e [] ts k = absurd (k.0.0 refl)
  blank_end-line flag c e (x ∷ t) [] k = blank_end_closed flag x t e k.0.1
  blank_end-line flag c e (x ∷ t) ([] ∷ ts) k = absurd (k.1.0.0 refl)
  blank_end-line flag c e (x ∷ t) ((y ∷ u) ∷ ts) k =
      let (s, same) = join-cons delimiter c y u ts in
      ap (λ (r : Bytes). blank_end delimiter flag (((x ∷ t) ++ (c ∷ r)) ++ e ∷ [])) same
      ∙ ap (blank_end delimiter flag) (append_assoc (x ∷ t) (c ∷ y ∷ s) (e ∷ []))
      ∙ blank_end_skip delimiter flag (x ∷ t) c y (s ++ e ∷ []) (λ b.
        ap (λ (r : Bytes). blank_end delimiter b (r ++ e ∷ [])) (sym same)
        ∙ blank_end-line b c e (y ∷ u) ts k.1)

  -- A line of tokens is taken apart into them.
  pub pieces-line :
      (c e : ℕ) (t : Bytes) (ts : List Bytes)
      → delimiter c ≡ true
      → delimiter e ≡ true
      → All (IsToken delimiter) (t ∷ ts)
      → pieces delimiter (join c (t ∷ ts) ++ e ∷ []) ≡ t ∷ ts
  pieces-line c e t ts p q k =
      rw (runs-line c e (t ∷ ts) p q k, blank_end-line false c e t ts k) (append-nil (t ∷ ts))
