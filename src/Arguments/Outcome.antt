-- ===== src/Arguments/Outcome.antt =====
-- What the command line leads to: src/nvipfix.c, lines 85-169.
use ipfix.Arguments.{
  Argument, text, null, outside, argument, Command, exit, start, stop, export_file, export_nvc,
  fault, parse_argument, export_command, end_command, start_command, read_dates, main_command,
}
use ipfix.Calendar.{Clock, datetime_to_ctime}
use ipfix.Common.{
  zero, Bool, true, false, List, [], ◌∷◌, Option, none, some, if◌then◌else◌, take, drop, codes, ◌≡◌,
  ◌≢◌, refl,
}
use ipfix.Common.Int.{◌-ℤ◌}
use ipfix.Config.Table.{str_eq}
use ipfix.Daemon.{args_error}
use ipfix.Date.{Datetime, parse_datetime_iso8601}
use ipfix.Heap.{Heap, M, malloc}
use ipfix.Import.{zero_date}
use ipfix.Number.{to_int}
use ipfix.Text.{Bytes}

module _ (clock : Clock) where
  -- Nothing outside `argv` is read; `main` returns at once only with this code; and an export has two dates,
  -- and the seconds between them.
  abbrev pub Allowed : Command → Type 0
  Allowed (exit c) = c ≡ args_error
  Allowed start = Unit
  Allowed stop = Unit
  Allowed (export_file name s e) = (s.has_value ≡ true) × (e.has_value ≡ true)
  Allowed (export_nvc s e within) =
      (s.has_value ≡ true)
      × (e.has_value ≡ true)
      × (within ≡ to_int (datetime_to_ctime clock (some e) -ℤ datetime_to_ctime clock (some s)))
  Allowed fault = ⊥

  parse-has_value :
      (s : Option Bytes) (h : Heap)
      → (parse_datetime_iso8601 s zero_date h).0.0 ≡ true
      → (parse_datetime_iso8601 s zero_date h).0.1.has_value ≡ true
  unfolding parse_datetime_iso8601
  parse-has_value none h e = cc
  parse-has_value (some s) h e = e

  -- A date that was read, unless it was read outside of `argv`.
  abbrev Read : Option (Bool × Datetime) → Type 0
  Read none = ⊥
  Read (some (false, d)) = Unit
  Read (some (true, d)) = d.has_value ≡ true

  pair-Read : (r : Bool × Datetime) → (r.0 ≡ true → r.1.has_value ≡ true) → Read (some r)
  pair-Read (false, d) p = tt
  pair-Read (true, d) p = p refl

  parse_argument-Read : (a : Argument) (h : Heap) → a ≢ outside → Read (parse_argument a h).0
  unfolding parse_argument
  parse_argument-Read outside h ne = absurd (ne refl)
  parse_argument-Read null h ne = pair-Read _ (parse-has_value none h)
  parse_argument-Read (text s) h ne = pair-Read _ (parse-has_value (some s) h)

  end_command-Allowed :
      (file : Option Bytes) (s : Datetime) (r : Option (Bool × Datetime))
      → s.has_value ≡ true
      → Read r
      → Allowed (end_command clock file s r)
  unfolding end_command export_command
  end_command-Allowed file s none p q = elim q [ ]
  end_command-Allowed file s (some (false, e)) p q = refl
  end_command-Allowed (some name) s (some (true, e)) p q = (p, q)
  end_command-Allowed none s (some (true, e)) p q = (p, q, refl)

  start_command-Allowed :
      (file : Option Bytes) (next : Argument) (r : Option (Bool × Datetime)) (h : Heap)
      → Read r
      → (r ≢ none → next ≢ outside)
      → Allowed (start_command clock file next r h).0
  unfolding start_command
  start_command-Allowed file next none h p q = elim p [ ]
  start_command-Allowed file next (some (false, s)) h p q = refl
  start_command-Allowed file next (some (true, s)) h p q =
      end_command-Allowed file s _ p (parse_argument-Read next h (q (λ e. cc)))

  first-inside : (argv : List Bytes) → argument argv zero ≢ outside
  unfolding argument
  first-inside [] e = cc
  first-inside (a ∷ argv) e = cc

  file-Allowed :
      (name app a : Bytes) (rest : List Bytes) (h : Heap)
      → Allowed (read_dates clock (some name) 2 (app ∷ a ∷ rest) h).0
  unfolding read_dates argument
  file-Allowed name app a [] h = unfold parse_argument parse_datetime_iso8601 start_command in refl
  file-Allowed name app a (b ∷ rest) h =
      start_command-Allowed (some name) (argument rest zero) _ _
        (parse_argument-Read (text b) h (λ e. cc)) (λ _. first-inside rest)

  window-Allowed :
      (app a : Bytes) (rest : List Bytes) (h : Heap)
      → Allowed (read_dates clock none 1 (app ∷ a ∷ rest) h).0
  unfolding read_dates argument
  window-Allowed app a rest h =
      start_command-Allowed none (argument rest zero) _ _ (parse_argument-Read (text a) h (λ e. cc))
        (λ _. first-inside rest)

  if-Allowed :
      (b : Bool) (m k : M Command) (h : Heap)
      → Allowed (m h).0
      → Allowed (k h).0
      → Allowed ((if b then m else k) h).0
  if-Allowed true m k h p q = p
  if-Allowed false m k h p q = q

  -- For every command line, with fewer arguments than the program needs too: `main` reads nothing outside of
  -- `argv`; where it returns at once the code is that of an error in the arguments; and where it goes on to
  -- an export both dates were read, and the window sent to the switch is the difference between them.
  pub main_command-Allowed : (argv : List Bytes) (h : Heap) → Allowed (main_command clock argv h).0
  unfolding main_command
  main_command-Allowed [] h = refl
  main_command-Allowed (app ∷ []) h = refl
  main_command-Allowed (app ∷ a ∷ rest) h =
      let h1 = (malloc h).1 in
      if-Allowed (str_eq (codes "-f") (take 2 a)) _ _ h1 (file-Allowed (drop 2 a) app a rest h1) (
        if-Allowed (str_eq (codes "start") a) _ _ h1 tt
          (if-Allowed (str_eq (codes "stop") a) _ _ h1 tt (window-Allowed app a rest h1)))
