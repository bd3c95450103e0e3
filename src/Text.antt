-- ===== src/Text.antt =====
-- The string functions of src/types.c, lines 70-141 and 330-490. A C string is the list of its bytes
-- before the NUL; a pointer that may be NULL is an `Option`. A table of the bytes of a set
-- (`delimitersMap`, `charsetMap`) is the test `contains`; the C code indexes it by a signed char,
-- so the model speaks of texts of bytes below 128.
pub mod Fields
pub mod Tokens
pub mod Split
pub mod Join
pub mod Trim
pub mod Roomy
pub mod Lines
use ipfix.Common.{
  ℕ, zero, suc, ◌+◌, ◌-◌, Bool, true, false, not, ◌&&◌, ◌||◌, List, [], ◌∷◌, ◌++◌, Option, none,
  some, ltb, ◌==◌, if◌then◌else◌, length, take, drop,
}
use ipfix.Heap.{M, ◌>>=◌, ◌>>◌, pure, malloc, free}

abbrev pub Bytes : Type 0
Bytes = List ℕ

-- `nvIPFIX_string_list_t`: the chain of items from `head` to `tail`, and `count`.
pub record StringList : Type 0 where
  pub items : List Bytes
  pub count : ℕ

-- The part of `nvipfix_string_list_add` behind the allocation of the item.
link_item : Option StringList → Bytes → M (Option StringList)
link_item none a_value = do
  got ← malloc
  if got
      then pure (some (record { items = a_value ∷ []; count = 0 + 1 }))
      else (do free 1; pure none)
link_item (some l) a_value =
    pure (some (record { items = l.items ++ a_value ∷ []; count = l.count + 1 }))

unfoldable pub string_list_add : Option StringList → Bytes → M (Option StringList)
unfolding link_item
string_list_add a_list a_value = do
  got ← malloc
  if got then link_item a_list a_value else pure none

-- The `while` loop of `nvipfix_string_list_free`.
pub free_items : List Bytes → Bool → M (Unit {0})
free_items [] values = pure tt
free_items (x ∷ xs) values = do free (if values then 1 else 0); free 1; free_items xs values

unfoldable pub string_list_free : Option StringList → Bool → M (Unit {0})
unfolding free_items
string_list_free none values = pure tt
string_list_free (some l) values = do free_items l.items values; free 1

-- `set[(size_t)c]`, for the table of the bytes of a set.
unfoldable pub contains : Bytes → ℕ → Bool
contains [] c = false
contains (x ∷ xs) c = c == x || contains xs c

-- A token is complete: copy it to a buffer and add it. On a failure all is given back.
pub emit_token : Option StringList → Bytes → M (Option StringList)
emit_token result token = do
  got ← malloc
  if got
      then (do
        list ← string_list_add result token
        elim list [
          | none ↦ (do string_list_free result true; free 1; pure none)
          | some l ↦ pure (some l)
        ])
      else (do string_list_free result true; pure none)

abbrev pub is_nil : Bytes → Bool
is_nil [] = true
is_nil (_ ∷ _) = false

-- The early exit of the loop where a token could not be kept.
abbrev pub on_list :
    (StringList → M (Option StringList)) → Option StringList → M (Option StringList)
on_list next none = pure none
on_list next (some l) = next l

-- The `for` loop of `nvipfix_string_split` at index `i`, with `rest` still to read; the test
-- `i == sLen - 1` is that nothing follows.
pub split_from : Bytes → Bytes → Bytes → ℕ → ℕ → ℕ → Option StringList → M (Option StringList)
split_from d s [] i start len result = pure result
split_from d s (c ∷ rest) i start len result =
    let delimiter = contains d c in
    let start' = if delimiter && not (ltb 0 len) then i + 1 else start in
    let len' = if delimiter then len else len + 1 in
    let ready = (delimiter && ltb 0 len) || is_nil rest in
    let next = on_list (λ l. split_from d s rest (i + 1) (i + 1) 0 (some l)) in
    let skip = split_from d s rest (i + 1) start' len' result in
    if ready then emit_token result (take len' (drop start' s)) >>= next else skip

unfoldable pub string_split : Bytes → Bytes → M (Option StringList)
unfolding split_from emit_token string_list_add string_list_free contains
string_split a_s a_delimiters = split_from a_delimiters a_s a_s 0 0 0 none
