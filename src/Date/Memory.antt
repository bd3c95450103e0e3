-- ===== src/Date/Memory.antt =====
-- What the date parser of src/types.c does with memory.
use ipfix.Common.{
  ◌-◌, Bool, true, false, List, [], ◌∷◌, Option, none, some, ◌≡◌, refl, arith, codes, ◌==◌,
}
use ipfix.Date.{
  Datetime, date_of_items, time_finish, read_time, date_finish, halves_of_items, halves_finish,
  parse_datetime_iso8601, with_result,
}
use ipfix.Heap.{Heap}
use ipfix.Text.Split.{string_split_live}
use ipfix.Text.Roomy.{Roomy, pure-Roomy, bind-Roomy, if-Roomy, free-Roomy, string_split-Roomy}
use ipfix.Text.Tokens.{owned, string_list_free_live}
use ipfix.Text.{Bytes, StringList, string_split}

time_finish_live :
    (t : Option StringList) (d : Datetime) (h : Heap)
    → (time_finish t d h).1.live ≡ h.live - owned t
unfolding time_finish
time_finish_live none d h = omega arith
time_finish_live (some t) d h = string_list_free_live (some t) h

read_time_live :
    (r : Bool × Datetime) (time : Bytes) (h : Heap) → (read_time r time h).1.live ≡ h.live
unfolding read_time
read_time_live (false, d) time h = refl
read_time_live (true, d) time h =
    let (t, h') = string_split time (codes ":") h in
    omega (arith, time_finish_live t d h', string_split_live time (codes ":") h)

date_finish_live :
    (t : Option StringList) (time : Bytes) (d : Datetime) (h : Heap)
    → (date_finish t time d h).1.live ≡ h.live - owned t
unfolding date_finish
date_finish_live none time d h = omega arith
date_finish_live (some t) time d h = ground (
  arith,
  read_time_live (date_of_items t.items d) time h,
  string_list_free_live (some t) h,
  string_list_free_live (some t) (read_time (date_of_items t.items d) time h).1,
)

halves_of_items_live :
    (ts : List Bytes) (d : Datetime) (h : Heap) → (halves_of_items ts d h).1.live ≡ h.live
unfolding halves_of_items
halves_of_items_live (date ∷ time ∷ []) d h =
    let (t, h') = string_split date (codes "-") h in
    omega (arith, date_finish_live t time d h', string_split_live date (codes "-") h)
halves_of_items_live [] d h = refl
halves_of_items_live (date ∷ []) d h = refl
halves_of_items_live (date ∷ time ∷ x ∷ ts) d h = refl

halves_finish_live :
    (t : Option StringList) (d : Datetime) (h : Heap)
    → (halves_finish t d h).1.live ≡ h.live - owned t
unfolding halves_finish
halves_finish_live none d h = omega arith
halves_finish_live (some t) d h = ground (
  arith,
  halves_of_items_live t.items d h,
  string_list_free_live (some t) h,
  string_list_free_live (some t) (halves_of_items t.items d h).1,
)

-- The date parser gives back all memory that it takes, on every path, also where `malloc` refuses a call
-- in one of its three splits.
pub parse_datetime_iso8601_live :
    (s : Option Bytes) (d : Datetime) (h : Heap) → (parse_datetime_iso8601 s d h).1.live ≡ h.live
unfolding parse_datetime_iso8601
parse_datetime_iso8601_live none d h = refl
parse_datetime_iso8601_live (some s) d h =
    let (t, h') = string_split s (codes "T") h in
    omega (arith, halves_finish_live t d h', string_split_live s (codes "T") h)

time_finish-Roomy : (t : Option StringList) (d : Datetime) → Roomy (time_finish t d)
unfolding time_finish
time_finish-Roomy none d = pure-Roomy _ _
time_finish-Roomy (some t) d = free-Roomy _ t _

read_time-Roomy : (r : Bool × Datetime) (time : Bytes) → Roomy (read_time r time)
unfolding read_time
read_time-Roomy (false, d) time = pure-Roomy _ _
read_time-Roomy (true, d) time =
    bind-Roomy _ _ (string_split time (codes ":")) (λ t. time_finish t d)
      (string_split-Roomy time (codes ":")) (λ t. time_finish-Roomy t d)

date_finish-Roomy :
    (t : Option StringList) (time : Bytes) (d : Datetime) → Roomy (date_finish t time d)
unfolding date_finish
date_finish-Roomy none time d = pure-Roomy _ _
date_finish-Roomy (some t) time d =
    bind-Roomy _ _ _ _
      (if-Roomy _ (t.count == 3) _ _ (read_time-Roomy (date_of_items t.items d) time)
        (pure-Roomy _ (false, d)))
      (λ r. free-Roomy _ t r)

halves_of_items-Roomy : (ts : List Bytes) (d : Datetime) → Roomy (halves_of_items ts d)
unfolding halves_of_items
halves_of_items-Roomy (date ∷ time ∷ []) d =
    bind-Roomy _ _ (string_split date (codes "-")) (λ t. date_finish t time d)
      (string_split-Roomy date (codes "-")) (λ t. date_finish-Roomy t time d)
halves_of_items-Roomy [] d = pure-Roomy _ _
halves_of_items-Roomy (date ∷ []) d = pure-Roomy _ _
halves_of_items-Roomy (date ∷ time ∷ x ∷ ts) d = pure-Roomy _ _

halves_finish-Roomy : (t : Option StringList) (d : Datetime) → Roomy (halves_finish t d)
unfolding halves_finish
halves_finish-Roomy none d = pure-Roomy _ _
halves_finish-Roomy (some t) d =
    bind-Roomy _ _ _ _
      (if-Roomy _ (t.count == 2) _ _ (halves_of_items-Roomy t.items d) (pure-Roomy _ (false, d)))
      (λ r. free-Roomy _ t r)

pub parse_datetime_iso8601-Roomy :
    (s : Bytes) (d : Datetime) → Roomy (parse_datetime_iso8601 (some s) d)
unfolding parse_datetime_iso8601
parse_datetime_iso8601-Roomy s d =
    bind-Roomy _ _ (string_split s (codes "T")) _ (string_split-Roomy s (codes "T")) (λ t.
      bind-Roomy _ _ (halves_finish t d) _ (halves_finish-Roomy t d)
        (λ r. pure-Roomy _ (with_result r)))
