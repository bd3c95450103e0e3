-- ===== src/Text/Join.antt =====
-- `nvipfix_string_split` (src/types.c) takes apart what was put together with a delimiter, and every
-- token that it finds is free of delimiters.
use ipfix.Common.{
  ℕ, Bool, true, false, not, List, [], ◌∷◌, ◌++◌, none, ◌≡◌, ◌≢◌, refl, sym, ap, ◌∙◌, All,
  append-nil, append_assoc, arith,
}
use ipfix.Heap.{Heap, has_room}
use ipfix.Text.{Bytes, contains, string_split}
use ipfix.Text.Fields.{runs, blank_end, pieces}
use ipfix.Text.Split.{string_split-Settles}
use ipfix.Text.Tokens.{extend}

abbrev pub join : ℕ → List Bytes → Bytes
join c [] = []
join c (t ∷ []) = t
join c (t ∷ u ∷ ts) = t ++ (c ∷ join c (u ∷ ts))

module _ (delimiter : ℕ → Bool) where
  abbrev pub Clean : Bytes → Type 0
  Clean = All (λ c. delimiter c ≡ false)

  abbrev pub IsToken : Bytes → Type 0
  IsToken t = (t ≢ []) × Clean t

  pub runs_close_token :
      (x : ℕ) (cur t : Bytes) (c : ℕ) (rest : Bytes)
      → Clean t
      → delimiter c ≡ true
      → runs delimiter (x ∷ cur) (t ++ (c ∷ rest)) ≡ (x ∷ (cur ++ t)) ∷ runs delimiter [] rest
  runs_close_token x cur [] c rest k e = rw (e, append-nil)
  runs_close_token x cur (y ∷ t) c rest k e =
      rw k.0 (runs_close_token x (cur ++ y ∷ []) t c rest k.1 e ∙ rw append_assoc)

  runs_last_token :
      (x : ℕ) (cur t : Bytes) → Clean t → runs delimiter (x ∷ cur) t ≡ (x ∷ (cur ++ t)) ∷ []
  runs_last_token x cur [] k = rw append-nil
  runs_last_token x cur (y ∷ t) k =
      rw k.0 (runs_last_token x (cur ++ y ∷ []) t k.1 ∙ rw append_assoc)

  runs-join :
      (c : ℕ) (ts : List Bytes)
      → delimiter c ≡ true
      → All IsToken ts
      → runs delimiter [] (join c ts) ≡ ts
  runs-join c [] e k = refl
  runs-join c ([] ∷ ts) e k = absurd (k.0.0 refl)
  runs-join c ((x ∷ t) ∷ []) e k = rw k.0.1.0 (runs_last_token x [] t k.0.1.1)
  runs-join c ((x ∷ t) ∷ u ∷ ts) e k = rw k.0.1.0 (
      runs_close_token x [] t c (join c (u ∷ ts)) k.0.1.1 e
      ∙ ap (◌∷◌ (x ∷ t)) (runs-join c (u ∷ ts) e k.1))

  blank_end-Clean :
      (flag : Bool) (x : ℕ) (t : Bytes) → Clean (x ∷ t) → blank_end delimiter flag (x ∷ t) ≡ []
  blank_end-Clean flag x [] k = rw k.0
  blank_end-Clean flag x (y ∷ t) k = blank_end-Clean (not (delimiter x)) y t k.1

  pub blank_end_skip :
      (flag : Bool) (t : Bytes) (c y : ℕ) (s : Bytes)
      → ((b : Bool) → blank_end delimiter b (y ∷ s) ≡ [])
      → blank_end delimiter flag (t ++ (c ∷ y ∷ s)) ≡ []
  blank_end_skip flag [] c y s h = h (not (delimiter c))
  blank_end_skip flag (x ∷ []) c y s h = h (not (delimiter c))
  blank_end_skip flag (x ∷ z ∷ t) c y s h = blank_end_skip (not (delimiter x)) (z ∷ t) c y s h

  pub join-cons :
      (c x : ℕ) (t : Bytes) (ts : List Bytes) → (s : Bytes) × (join c ((x ∷ t) ∷ ts) ≡ x ∷ s)
  join-cons c x t [] = (t, refl)
  join-cons c x t (u ∷ ts) = (t ++ (c ∷ join c (u ∷ ts)), refl)

  blank_end-join :
      (flag : Bool) (c : ℕ) (ts : List Bytes)
      → All IsToken ts
      → blank_end delimiter flag (join c ts) ≡ []
  blank_end-join flag c [] k = refl
  blank_end-join flag c ([] ∷ ts) k = absurd (k.0.0 refl)
  blank_end-join flag c ((x ∷ t) ∷ []) k = blank_end-Clean flag x t k.0.1
  blank_end-join flag c ((x ∷ t) ∷ [] ∷ ts) k = absurd (k.1.0.0 refl)
  blank_end-join flag c ((x ∷ t) ∷ (y ∷ u) ∷ ts) k =
      let (s, e) = join-cons c y u ts in
      ap (λ (r : Bytes). blank_end delimiter flag ((x ∷ t) ++ (c ∷ r))) e
      ∙ blank_end_skip flag (x ∷ t) c y s
          (λ b. ap (blank_end delimiter b) (sym e) ∙ blank_end-join b c ((y ∷ u) ∷ ts) k.1)

  pub pieces-join :
      (c : ℕ) (ts : List Bytes)
      → delimiter c ≡ true
      → All IsToken ts
      → pieces delimiter (join c ts) ≡ ts
  pieces-join c ts e k = rw (runs-join c ts e k, blank_end-join false c ts k) (append-nil ts)

-- With memory to spare, a split returns the pieces.
pub string_split_room :
    (s d : Bytes) (h : Heap)
    → has_room h.plan ≡ true
    → (string_split s d h).0 ≡ extend none (pieces (contains d) s)
string_split_room s d h room = ground (arith, string_split-Settles s d h)

-- A split that was refused nothing leaves a heap that refuses nothing.
pub string_split_roomy :
    (s d : Bytes) (h : Heap) → has_room h.plan ≡ true → has_room (string_split s d h).1.plan ≡ true
string_split_roomy s d h room = ground (arith, string_split-Settles s d h)

-- Texts that are not empty and hold no delimiter, joined by a delimiter, are what the split of the
-- joined text returns, if no call of `malloc` is refused.
pub string_split-join :
    (c : ℕ) (d : Bytes) (ts : List Bytes) (h : Heap)
    → contains d c ≡ true
    → All (IsToken (contains d)) ts
    → has_room h.plan ≡ true
    → (string_split (join c ts) d h).0 ≡ extend none ts
string_split-join c d ts h e k room =
    string_split_room (join c ts) d h room ∙ ap (extend none) (pieces-join (contains d) c ts e k)
