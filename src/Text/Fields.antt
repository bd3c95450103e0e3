-- ===== src/Text/Fields.antt =====
-- What `nvipfix_string_split` (src/types.c) is meant to return, written without indices.
use ipfix.Common.{ℕ, Bool, false, not, ◌&&◌, List, [], ◌∷◌, ◌++◌, if◌then◌else◌}
use ipfix.Text.{Bytes}

module _ (delimiter : ℕ → Bool) where
  -- the maximal runs of other bytes, where `cur` has been read of the present run
  abbrev pub runs : Bytes → Bytes → List Bytes
  runs [] [] = []
  runs (x ∷ cur) [] = (x ∷ cur) ∷ []
  runs [] (c ∷ s) = if delimiter c then runs [] s else runs (c ∷ []) s
  runs (x ∷ cur) (c ∷ s) =
      if delimiter c then (x ∷ cur) ∷ runs [] s else runs (x ∷ (cur ++ c ∷ [])) s

  -- one empty token more if the text ends in a delimiter that closes no run; the flag says that a
  -- run is open
  abbrev pub blank_end : Bool → Bytes → List Bytes
  blank_end open_run [] = []
  blank_end open_run (c ∷ []) = if delimiter c && not open_run then [] ∷ [] else []
  blank_end open_run (c ∷ b ∷ s) = blank_end (not (delimiter c)) (b ∷ s)

  abbrev pub pieces : Bytes → List Bytes
  pieces s = runs [] s ++ blank_end false s
