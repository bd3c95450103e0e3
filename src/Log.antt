-- ===== src/Log.antt =====
-- Logging: src/log.c, src/include/log.h, in the build without `NVIPFIX_DEF_UNICODE`, and one call after
-- another, as the critical sections order them. The library log4c, the file system and what
-- `vsnprintf` makes of a format are one parameter.
pub mod Delivery
pub mod Setup
use ipfix.Common.{
  ℕ, zero, suc, ◌+◌, ◌<◌, Bool, true, false, List, [], ◌∷◌, Option, none, some, if◌then◌else◌, ltb,
  leb, length, take, codes,
}
use ipfix.Text.{Bytes}
use mathlib.Core.Option

-- What log.c calls, on a state `S` of the world, with categories `C` and argument lists `A`. A smaller
-- priority of log4c is a more severe one. `format` is the whole text for a format and its arguments, without a NUL
-- in it, or `none` where `vsnprintf` reports an error.
pub record Log4c (C S A : Type 0) : Type 0 where
  pub priority_error : ℕ
  pub priority_warn : ℕ
  pub priority_info : ℕ
  pub priority_debug : ℕ
  pub priority_trace : ℕ
  pub error_lt_warn : priority_error < priority_warn
  pub warn_lt_info : priority_warn < priority_info
  pub info_lt_debug : priority_info < priority_debug
  pub debug_lt_trace : priority_debug < priority_trace
  pub log4cfg : Bytes
  pub access : Bytes → S → Bool × S
  pub fopen : Bytes → S → Bool × S
  pub fwrite : Bytes → S → S
  pub fclose : S → S
  pub log4c_init : S → S
  pub log4c_load : Bytes → S → S
  pub log4c_fini : S → S
  pub category_get : Bytes → S → Option C × S
  pub category_log : Option C → ℕ → Bytes → S → S
  pub format : Bytes → A → Option Bytes

-- The static variables of log.c, NULL and false at first, and how often the cleanup was registered to run
-- at exit.
pub record Logger (C : Type 0) : Type 0 where
  pub is_initialized : Bool
  pub category : Option C
  pub category_error : Option C
  pub at_exit : ℕ

abbrev pub log4c_cfg : Bytes
log4c_cfg = codes "/var/nvOS/etc/Local/log4c.rc"

abbrev pub category_name_main : Bytes
category_name_main = codes "nvipfix.log.app"

abbrev pub category_name_error : Bytes
category_name_error = codes "nvipfix.log.app.error"

abbrev pub sizeof_variadic_buffer : ℕ
sizeof_variadic_buffer = 1024

-- The variables before the first call.
abbrev pub fresh_logger : {C : Type 0} → Logger C
fresh_logger = record {
  is_initialized = false;
  category = none;
  category_error = none;
  at_exit = 0;
}

module _ {C S A : Type 0} (lc : Log4c C S A) where
  open lc use {
    priority_error, priority_warn, priority_info, priority_debug, priority_trace, log4cfg, access,
    fopen, fwrite, fclose, log4c_init, log4c_load, log4c_fini, category_get, category_log, format,
  }

  -- The default configuration is written if there is none; `none` where the stream NULL is written to.
  unfoldable pub copy_config : S → Option S
  copy_config s =
      let (present, s1) = access log4c_cfg s in
      let (opened, s2) = fopen log4c_cfg s1 in
      if present then some s1 else if opened then some (fclose (fwrite log4cfg s2)) else none

  unfoldable pub load_categories : Logger C → S → Logger C × S
  load_categories g s =
      let s1 = log4c_load log4c_cfg (log4c_init s) in
      let (main, s2) = category_get category_name_main s1 in
      let (err, s3) = category_get category_name_error s2 in
      (
        record {
          is_initialized = true;
          category = main;
          category_error = err;
          at_exit = g.at_exit + 1;
        },
        s3,
      )

  unfoldable pub log_init : Logger C × S → Option (Logger C × S)
  log_init (g, s) =
      if g.is_initialized then some (g, s) else Option.map (load_categories g) (copy_config s)

  unfoldable pub log_cleanup : S → S
  log_cleanup s = log4c_fini s

  -- The call of `log4c_category_log` on the category of the priority.
  unfoldable pub write_message : ℕ → Bytes → Logger C × S → Logger C × S
  write_message a_priority a_message (g, s) = (
    g,
    category_log (if leb a_priority priority_error then g.category_error else g.category) a_priority
        a_message s,
  )

  unfoldable pub log_message : ℕ → Bytes → Logger C × S → Option (Logger C × S)
  log_message a_priority a_message st =
      Option.map (write_message a_priority a_message) (log_init st)

  -- `vsnprintf` returns the length of the whole text and writes as much as the buffer holds.
  unfoldable pub log_text : ℕ → Option Bytes → Logger C × S → Option (Logger C × S)
  log_text a_priority none st = some st
  log_text a_priority (some text) st =
      if ltb 0 (length text)
      then log_message a_priority (take sizeof_variadic_buffer text) st
      else some st

  unfoldable pub nvipfix_log : ℕ → Bytes → A → Logger C × S → Option (Logger C × S)
  nvipfix_log a_priority a_fmt args = log_text a_priority (format a_fmt args)

  unfoldable pub nvipfix_tlog : ℕ → Bytes → A → Logger C × S → Option (Logger C × S)
  nvipfix_tlog a_priority a_fmt args = nvipfix_log a_priority a_fmt args

  unfoldable pub log_set_config_path : Bytes → Logger C × S → Logger C × S
  log_set_config_path a_path st = st

  unfoldable pub tlog_trace : Bytes → A → Logger C × S → Option (Logger C × S)
  tlog_trace a_fmt args = nvipfix_tlog priority_trace a_fmt args

  unfoldable pub log_trace : Bytes → A → Logger C × S → Option (Logger C × S)
  log_trace a_fmt args = nvipfix_log priority_trace a_fmt args

  unfoldable pub tlog_debug : Bytes → A → Logger C × S → Option (Logger C × S)
  tlog_debug a_fmt args = nvipfix_tlog priority_debug a_fmt args

  unfoldable pub log_debug : Bytes → A → Logger C × S → Option (Logger C × S)
  log_debug a_fmt args = nvipfix_log priority_debug a_fmt args

  unfoldable pub tlog_info : Bytes → A → Logger C × S → Option (Logger C × S)
  tlog_info a_fmt args = nvipfix_tlog priority_info a_fmt args

  unfoldable pub log_info : Bytes → A → Logger C × S → Option (Logger C × S)
  log_info a_fmt args = nvipfix_log priority_info a_fmt args

  unfoldable pub tlog_warning : Bytes → A → Logger C × S → Option (Logger C × S)
  tlog_warning a_fmt args = nvipfix_tlog priority_warn a_fmt args

  unfoldable pub log_warning : Bytes → A → Logger C × S → Option (Logger C × S)
  log_warning a_fmt args = nvipfix_log priority_warn a_fmt args

  unfoldable pub tlog_error : Bytes → A → Logger C × S → Option (Logger C × S)
  tlog_error a_fmt args = nvipfix_tlog priority_error a_fmt args

  unfoldable pub log_error : Bytes → A → Logger C × S → Option (Logger C × S)
  log_error a_fmt args = nvipfix_log priority_error a_fmt args

  -- `NVIPFIX_TLOG_ERROR_IF`
  unfoldable pub tlog_error_if : Bool → Bytes → A → Logger C × S → Option (Logger C × S)
  tlog_error_if a_condition a_fmt args st =
      if a_condition then tlog_error a_fmt args st else some st
