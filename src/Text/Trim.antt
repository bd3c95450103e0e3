-- ===== src/Text/Trim.antt =====
-- The other string functions of src/types.c: `nvipfix_string_contains_only`, `nvipfix_string_trim`,
-- `nvipfix_string_duplicate`, `nvipfix_string_trim_copy`.
use mathlib.Core.List.{append_assoc}
use mathlib.Core.Path.{subst}
use ipfix.Common.{
  ℕ, zero, suc, ◌+◌, ◌≤◌, ◌<◌, Bool, true, false, not, [], ◌∷◌, ◌++◌, Option, none, some, ◌≡◌, refl,
  sym, ap, ◌∙◌, ◌⊎◌, inl, inr, ◌↔◌, if◌then◌else◌, length, take, drop, get_or, All, arith,
  Bool-cases, codes, take-append-drop,
}
use ipfix.Heap.{Heap, M, pure, malloc, malloc_live, realloc, realloc_live, free, ◌>>=◌, ◌>>◌}
use ipfix.Text.{Bytes, StringList, contains, string_list_add}

-- The loop that clears the result at the first byte outside the set.
pub string_contains_only : Bytes → Bytes → Bool
string_contains_only [] a_charset = true
string_contains_only (c ∷ s) a_charset =
    let rest = string_contains_only s a_charset in
    if not (contains a_charset c) then false else rest

-- The `for` loop from the end of the text: `i` bytes are left.
trim_end : Bytes → Bytes → ℕ → Bytes
trim_end set s zero = take zero s
trim_end set s (suc i) =
    let shorter = trim_end set s i in
    if not (contains set (get_or s i 0)) then take (suc i) s else shorter

-- `srcI`, the number of bytes of the set at the start.
leading : Bytes → Bytes → ℕ
leading set [] = 0
leading set (c ∷ s) = let more = suc (leading set s) in if contains set c then more else 0

abbrev pub blanks : Bytes
blanks = codes " \t\r\n"

-- NULL stands for the blanks.
abbrev pub trim_set : Option Bytes → Bytes
trim_set none = blanks
trim_set (some set) = set

unfoldable pub string_trim : Bytes → Option Bytes → Bytes
unfolding trim_end leading contains
string_trim a_s a_trimChars =
    let set = trim_set a_trimChars in
    let s = trim_end set a_s (length a_s) in drop (leading set s) s

unfoldable pub string_duplicate : Option Bytes → M (Option Bytes)
string_duplicate none = pure none
string_duplicate (some s) = do got ← malloc; pure (if got then some s else none)

-- `nvipfix_string_list_add_copy` of a text that is not NULL. Where the list cannot be extended the copy is
-- not given back.
add_copy : Option StringList → Option Bytes → M (Option StringList)
add_copy a_list none = pure none
add_copy a_list (some copy) = string_list_add a_list copy

unfoldable pub string_list_add_copy : Option StringList → Bytes → M (Option StringList)
unfolding add_copy
string_list_add_copy a_list a_value = do
  copy ← string_duplicate (some a_value)
  add_copy a_list copy

-- The copy is trimmed in place, and its block cut to size.
trim_block : Option Bytes → Option Bytes → M (Option Bytes)
trim_block none set = pure none
trim_block (some s) set = do
  got ← realloc
  if got then pure (some (string_trim s set)) else (do free 1; pure none)

unfoldable pub string_trim_copy : Option Bytes → Option Bytes → M (Option Bytes)
unfolding trim_block string_duplicate
string_trim_copy a_s a_trimChars = do s ← string_duplicate a_s; trim_block s a_trimChars

abbrev pub In : Bytes → ℕ → Type 0
In set c = contains set c ≡ true

-- True exactly for texts of bytes of the set.
pub string_contains_only_iff :
    (s set : Bytes) → (string_contains_only s set ≡ true) ↔ All (In set) s
unfolding string_contains_only
string_contains_only_iff [] set = ((λ h. tt), λ h. refl)
string_contains_only_iff (c ∷ s) set = ground (arith, string_contains_only_iff s set)

-- The text is `before`, then the result, then `after`; these hold bytes of the set only, and the
-- result neither starts nor ends with one.
abbrev pub StartsOutside : Bytes → Bytes → Type 0
StartsOutside set [] = Unit
StartsOutside set (c ∷ s) = contains set c ≡ false

abbrev pub EndsOutside : Bytes → Bytes → Type 0
EndsOutside set [] = Unit
EndsOutside set (c ∷ []) = contains set c ≡ false
EndsOutside set (c ∷ b ∷ s) = EndsOutside set (b ∷ s)

pub record Trims (set s t : Bytes) : Type 0 where
  pub before : Bytes
  pub after : Bytes
  pub splits : s ≡ before ++ (t ++ after)
  pub before_in : All (In set) before
  pub after_in : All (In set) after
  pub starts : StartsOutside set t
  pub ends : EndsOutside set t

record TrimsEnd (set s t : Bytes) : Type 0 where
  rest : Bytes
  joins : s ≡ t ++ rest
  rest_in : All (In set) rest
  stops : EndsOutside set t

take-suc : (i : ℕ) (s : Bytes) → i < length s → take (suc i) s ≡ take i s ++ get_or s i 0 ∷ []
take-suc i [] h = elim h [ ]
take-suc zero (c ∷ s) h = refl
take-suc (suc i) (c ∷ s) h = ap (◌∷◌ c) (take-suc i s (omega arith))

drop-get : (i : ℕ) (s : Bytes) → i < length s → drop i s ≡ get_or s i 0 ∷ drop (suc i) s
drop-get i [] h = elim h [ ]
drop-get zero (c ∷ s) h = refl
drop-get (suc i) (c ∷ s) h = drop-get i s (omega arith)

EndsOutside-concat :
    (set s : Bytes) (c : ℕ) → contains set c ≡ false → EndsOutside set (s ++ c ∷ [])
EndsOutside-concat set [] c h = h
EndsOutside-concat set (b ∷ []) c h = h
EndsOutside-concat set (a ∷ b ∷ s) c h = EndsOutside-concat set (b ∷ s) c h

trim_end-TrimsEnd :
    (set s : Bytes) (i : ℕ)
    → i ≤ length s
    → All (In set) (drop i s)
    → TrimsEnd set s (trim_end set s i)
unfolding trim_end
trim_end-TrimsEnd set s zero h a = record { rest = s; joins = refl; rest_in = a; stops = tt }
trim_end-TrimsEnd set s (suc i) h a = elim (Bool-cases (contains set (get_or s i 0))) [
  | inl t ↦
      rw t (
        trim_end-TrimsEnd set s i (omega arith)
          (subst (All (In set)) (sym (drop-get i s h)) (t, a)))
  | inr f ↦ rw f (record {
    rest = drop (suc i) s;
    joins = sym (take-append-drop (suc i) s);
    rest_in = a;
    stops =
        subst (EndsOutside set) (sym (take-suc i s h))
          (EndsOutside-concat set (take i s) (get_or s i 0) f);
  })
]

leading_starts :
    (set s : Bytes)
    → All (In set) (take (leading set s) s) × StartsOutside set (drop (leading set s) s)
unfolding leading
leading_starts set [] = (tt, tt)
leading_starts set (c ∷ s) = elim (Bool-cases (contains set c)) [
  | inl t ↦ rw t ((t, (leading_starts set s).0), (leading_starts set s).1)
  | inr f ↦ rw f (tt, f)
]

drop-EndsOutside :
    (set : Bytes) (n : ℕ) (s : Bytes) → EndsOutside set s → EndsOutside set (drop n s)
drop-EndsOutside set zero s h = h
drop-EndsOutside set (suc n) [] h = tt
drop-EndsOutside set (suc zero) (c ∷ []) h = tt
drop-EndsOutside set (suc (suc n)) (c ∷ []) h = tt
drop-EndsOutside set (suc n) (c ∷ b ∷ s) h = drop-EndsOutside set n (b ∷ s) h

length-drop_self : (s : Bytes) → drop (length s) s ≡ []
length-drop_self [] = refl
length-drop_self (c ∷ s) = length-drop_self s

-- `nvipfix_string_trim` removes exactly the bytes of the set at both ends, for every set and text.
pub string_trim-Trims :
    (s : Bytes) (set : Option Bytes) → Trims (trim_set set) s (string_trim s set)
unfolding string_trim
string_trim-Trims s set =
    let t = trim_end (trim_set set) s (length s) in
    let n = leading (trim_set set) t in
    let e =
      trim_end-TrimsEnd (trim_set set) s (length s) (omega arith)
        (subst (All (In (trim_set set))) (sym (length-drop_self s)) tt) in
    let (low, high) = leading_starts (trim_set set) t in
    record {
      before = take n t;
      after = e.rest;
      splits =
          e.joins
          ∙ ap (λ (x : Bytes). x ++ e.rest) (sym (take-append-drop (leading (trim_set set) t) t))
          ∙ append_assoc (take n t) (drop n t) e.rest;
      before_in = low;
      after_in = e.rest_in;
      starts = high;
      ends = drop-EndsOutside (trim_set set) n t e.stops;
    }

-- `nvipfix_string_trim_copy` of a text returns the trimmed text in one new block; or NULL, with every
-- block given back. Of NULL it returns NULL.
pub string_trim_copy_live :
    (t : Bytes) (set : Option Bytes) (h : Heap)
    → ((string_trim_copy none set h ≡ (none, h)))
      × ((((string_trim_copy (some t) set h).0 ≡ none)
            × ((string_trim_copy (some t) set h).1.live ≡ h.live))
          ⊎ (((string_trim_copy (some t) set h).0 ≡ some (string_trim t set))
              × ((string_trim_copy (some t) set h).1.live ≡ h.live + 1)))
unfolding string_trim_copy free
string_trim_copy_live t set h = (refl, ground (arith, malloc_live h, realloc_live (malloc h).1))
