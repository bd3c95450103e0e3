-- ===== src/Arguments.antt =====
-- The command line: `main` of src/nvipfix.c, lines 85-169, up to the call that does the work.
pub mod Outcome
use ipfix.Calendar.{Clock, datetime_to_ctime}
use ipfix.Common.{
  ℕ, zero, suc, Bool, true, false, ◌&&◌, List, [], ◌∷◌, Option, none, some, if◌then◌else◌, take,
  drop, codes,
}
use ipfix.Common.Int.{ℤ, pos, ◌-ℤ◌}
use ipfix.Config.Table.{str_eq}
use ipfix.Daemon.{ReturnCode, args_error}
use ipfix.Date.{Datetime, parse_datetime_iso8601}
use ipfix.Heap.{M, ◌>>=◌, pure, malloc}
use ipfix.Import.{zero_date}
use ipfix.Number.{to_int}
use ipfix.Text.{Bytes}

-- `argv[i]`: a text below `argc`, NULL at `argc`, and nothing that may be read above.
pub data Argument : Type 0 where
  text : Bytes → Argument
  null outside : Argument

pub argument : List Bytes → ℕ → Argument
argument [] zero = null
argument [] (suc i) = outside
argument (a ∷ argv) zero = text a
argument (a ∷ argv) (suc i) = argument argv i

-- What `main` goes on to do: `start_daemon` or `stop_daemon`, for the path of `argv[0]`; the two
-- kinds of export; or to return at once. `fault` is a read outside of `argv`.
pub data Command : Type 0 where
  exit : ReturnCode → Command
  start stop : Command
  export_file : Bytes → Datetime → Datetime → Command
  export_nvc : Datetime → Datetime → ℤ → Command
  fault : Command

-- `nvipfix_parse_datetime_iso8601( argv[i], ... )`, unless the argument may not be read.
parse_argument : Argument → M (Option (Bool × Datetime))
parse_argument outside = pure none
parse_argument null = do r ← parse_datetime_iso8601 none zero_date; pure (some r)
parse_argument (text s) = do r ← parse_datetime_iso8601 (some s) zero_date; pure (some r)

module _ (clock : Clock) where
  -- Behind the two dates.
  export_command : Option Bytes → Datetime → Datetime → Command
  unfolding ◌-ℤ◌
  export_command (some file) start_ts end_ts = export_file file start_ts end_ts
  export_command none start_ts end_ts =
      export_nvc start_ts end_ts
        (to_int (datetime_to_ctime clock (some end_ts) -ℤ datetime_to_ctime clock (some start_ts)))

  end_command : Option Bytes → Datetime → Option (Bool × Datetime) → Command
  end_command file start_ts none = fault
  end_command file start_ts (some (false, end_ts)) = exit args_error
  end_command file start_ts (some (true, end_ts)) = export_command file start_ts end_ts

  -- The second date is read only where the first one was.
  start_command : Option Bytes → Argument → Option (Bool × Datetime) → M Command
  start_command file next none = pure fault
  start_command file next (some (false, start_ts)) = pure (exit args_error)
  start_command file next (some (true, start_ts)) = do
    r ← parse_argument next
    pure (end_command file start_ts r)

  -- From `startTs` on; `index` is `argIndexTs`.
  read_dates : Option Bytes → ℕ → List Bytes → M Command
  read_dates file index argv = do
    r ← parse_argument (argument argv index)
    start_command file (argument argv (suc index)) r

  unfoldable pub main_command : List Bytes → M Command
  unfolding str_eq argument parse_argument export_command end_command start_command read_dates
  main_command [] = pure (exit args_error)
  main_command (app ∷ []) = pure (exit args_error)
  main_command (app ∷ a ∷ rest) =
      let file = read_dates (some (drop 2 a)) 2 (app ∷ a ∷ rest) in
      let window = read_dates none 1 (app ∷ a ∷ rest) in
      malloc >>= λ app_path.
      if str_eq (codes "-f") (take 2 a)
      then file
      else if str_eq (codes "start") a
      then pure start
      else if str_eq (codes "stop") a
      then pure stop
      else window
