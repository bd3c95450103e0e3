-- ===== src/Log/Delivery.antt =====
-- What any calls of the logging functions of src/log.c do: the log is set up by the first message, and
-- each message goes to its category.
use ipfix.Common.{
  suc, codes, ℕ, Bool, true, false, List, [], ◌∷◌, ◌++◌, Option, none, some, if◌then◌else◌, ltb,
  leb, length, take, ◌≡◌, refl, sym, ap, ◌∙◌, arith, inl, inr, Option-cases,
}
use ipfix.Log.{
  Log4c, Logger, copy_config, load_categories, log_init, write_message, log_message, log_text,
  nvipfix_log, nvipfix_tlog, tlog_trace, log_trace, tlog_debug, log_debug, tlog_info, log_info,
  tlog_warning, log_warning, tlog_error, log_error, sizeof_variadic_buffer,
}
use ipfix.Text.{Bytes}
use mathlib.Core.Option
use mathlib.Core.Path.{fun_ext}

-- A logging function of the header.
pub data Level : Type 0 where
  trace debug info warning error : Level

-- A call: of `nvipfix_tlog_...` if `wide`, else of `nvipfix_log_...`.
pub record LogCall (A : Type 0) : Type 0 where
  pub level : Level
  pub wide : Bool
  pub fmt : Bytes
  pub args : A

-- A text for the log.
pub record Message : Type 0 where
  pub level : Level
  pub text : Bytes

abbrev pub is_error : Level → Bool
is_error error = true
is_error trace = false
is_error debug = false
is_error info = false
is_error warning = false

abbrev pub message_of : Level → Option Bytes → List Message
message_of l none = []
message_of l (some []) = []
message_of l (some (c ∷ s)) = record { level = l; text = take 1024 (c ∷ s) } ∷ []

-- The next call, unless a stream that is NULL was used.
abbrev pub and_then : {B : Type 0} → Option B → (B → Option B) → Option B
and_then none k = none
and_then (some b) k = k b

and_then_ext :
    {B : Type 0} (o : Option B) (j k : B → Option B)
    → ((b : B) → j b ≡ k b)
    → and_then o j ≡ and_then o k
and_then_ext none j k e = refl
and_then_ext (some b) j k e = e b

module _ {C S A : Type 0} (lc : Log4c C S A) where
  open lc use {
    priority_error, priority_warn, priority_info, priority_debug, priority_trace, log4cfg, access,
    fopen, fwrite, fclose, log4c_init, log4c_load, category_get, category_log, format,
    error_lt_warn, warn_lt_info, info_lt_debug, debug_lt_trace,
  }

  abbrev pub priority : Level → ℕ
  priority trace = priority_trace
  priority debug = priority_debug
  priority info = priority_info
  priority warning = priority_warn
  priority error = priority_error

  -- The function that is called.
  abbrev pub function : Level → Bool → Bytes → A → Logger C × S → Option (Logger C × S)
  function trace true = tlog_trace lc
  function trace false = log_trace lc
  function debug true = tlog_debug lc
  function debug false = log_debug lc
  function info true = tlog_info lc
  function info false = log_info lc
  function warning true = tlog_warning lc
  function warning false = log_warning lc
  function error true = tlog_error lc
  function error false = log_error lc

  pub log_all : List (LogCall A) → Logger C × S → Option (Logger C × S)
  log_all [] st = some st
  log_all (c ∷ cs) st = and_then (function c.level c.wide c.fmt c.args st) (log_all cs)

  -- The messages of the calls, in order.
  abbrev pub messages : List (LogCall A) → List Message
  messages [] = []
  messages (c ∷ cs) = message_of c.level (format c.fmt c.args) ++ messages cs

  -- Each message is handed to the category of the errors or to the other.
  abbrev pub deliver : Logger C → List Message → S → S
  deliver g [] s = s
  deliver g (m ∷ ms) s = deliver g ms (
      category_log (if is_error m.level then g.category_error else g.category) (priority m.level)
        m.text s)

  -- The configuration that is there, or else the default one, is loaded; `none` where the default one cannot be
  -- written.
  abbrev pub configured : S → Option S
  configured s =
      let path = codes "/var/nvOS/etc/Local/log4c.rc" in
      let (present, s1) = access path s in
      let (made, s2) = fopen path s1 in
      if present
      then some (log4c_load path (log4c_init s1))
      else if made
      then some (log4c_load path (log4c_init (fclose (fwrite log4cfg s2))))
      else none

  -- The log as it is set up: the messages have a category of their name, and those of the errors another.
  abbrev pub named : Logger C → S → Logger C × S
  named g s =
      let (others, s1) = category_get (codes "nvipfix.log.app") s in
      let (errors, s2) = category_get (codes "nvipfix.log.app.error") s1 in
      (
        record {
          is_initialized = true;
          category = others;
          category_error = errors;
          at_exit = suc g.at_exit;
        },
        s2,
      )

  abbrev pub opened : Logger C × S → Option (Logger C × S)
  opened (g, s) = if g.is_initialized then some (g, s) else Option.map (named g) (configured s)

  log_init_lem : (st : Logger C × S) → log_init lc st ≡ opened st
  unfolding log_init load_categories copy_config
  log_init_lem (g, s) = ground arith

  -- The log is set up once there is a message.
  abbrev pub logged : List Message → Logger C × S → Option (Logger C × S)
  logged [] st = some st
  logged (m ∷ ms) st =
      Option.map (λ (q : Logger C × S). (q.0, deliver q.0 (m ∷ ms) q.1)) (opened st)

  -- the functions differ in their priority only
  function_lem :
      (l : Level) (w : Bool) (fmt : Bytes) (args : A) (st : Logger C × S)
      → function l w fmt args st ≡ log_text lc (priority l) (format fmt args) st
  unfolding tlog_trace log_trace tlog_debug log_debug tlog_info log_info tlog_warning log_warning
      tlog_error log_error nvipfix_log nvipfix_tlog
  function_lem trace true fmt args st = refl
  function_lem trace false fmt args st = refl
  function_lem debug true fmt args st = refl
  function_lem debug false fmt args st = refl
  function_lem info true fmt args st = refl
  function_lem info false fmt args st = refl
  function_lem warning true fmt args st = refl
  function_lem warning false fmt args st = refl
  function_lem error true fmt args st = refl
  function_lem error false fmt args st = refl

  is_error-priority : (l : Level) → leb (priority l) priority_error ≡ is_error l
  is_error-priority trace =
      ground (arith, error_lt_warn, warn_lt_info, info_lt_debug, debug_lt_trace)
  is_error-priority debug = ground (arith, error_lt_warn, warn_lt_info, info_lt_debug)
  is_error-priority info = ground (arith, error_lt_warn, warn_lt_info)
  is_error-priority warning = ground (arith, error_lt_warn)
  is_error-priority error = ground arith

  write_message_lem :
      (l : Level) (text : Bytes) (g : Logger C) (s : S)
      → write_message lc (priority l) text (g, s)
        ≡ (g, deliver g (record { level = l; text = text } ∷ []) s)
  unfolding write_message
  write_message_lem l text g s = rw (is_error-priority l)

  -- one call
  log_text-logged :
      (l : Level) (text : Option Bytes) (st : Logger C × S)
      → log_text lc (priority l) text st ≡ logged (message_of l text) st
  unfolding log_text log_message
  log_text-logged l none st = refl
  log_text-logged l (some []) st = refl
  log_text-logged l (some (c ∷ s)) st =
      let text = take sizeof_variadic_buffer (c ∷ s) in
      let positive : ltb 0 (length (c ∷ s)) ≡ true = ground arith in
      rw (positive, log_init_lem st)
        (ap (λ (f : Logger C × S → Logger C × S). Option.map f (opened st))
          (fun_ext (λ (q : Logger C × S). write_message_lem l text q.0 q.1)))

  deliver-append :
      (g : Logger C) (ms ns : List Message) (s : S)
      → deliver g (ms ++ ns) s ≡ deliver g ns (deliver g ms s)
  deliver-append g [] ns s = refl
  deliver-append g (m ∷ ms) ns s = deliver-append g ms ns _

  logged_ready :
      (ms : List Message) (g : Logger C) (s : S)
      → g.is_initialized ≡ true
      → logged ms (g, s) ≡ some (g, deliver g ms s)
  logged_ready [] g s e = refl
  logged_ready (m ∷ ms) g s e = rw e

  -- behind a call that came back the log is set up
  opened_ready :
      (st : Logger C × S) (q : Logger C × S) → opened st ≡ some q → q.0.is_initialized ≡ true
  opened_ready (g, s) q e = ground arith

  logged-append :
      (ms ns : List Message) (st : Logger C × S)
      → and_then (logged ms st) (logged ns) ≡ logged (ms ++ ns) st
  logged-append [] ns st = refl
  logged-append (m ∷ ms) ns st = elim (Option-cases (opened st)) [
    | inl e ↦ rw e
    | inr (q, e) ↦ rw e (
        logged_ready ns q.0 (deliver q.0 (m ∷ ms) q.1) (opened_ready st q e)
        ∙ ap (λ (s' : S). some (q.0, s')) (sym (deliver-append q.0 (m ∷ ms) ns q.1)))
  ]

  -- For every sequence of calls of the logging functions: as long as none has a text nothing happens.
  -- Before the first text the log is set up, unless it was before: the configuration is loaded, or written
  -- first if there is none, and the two categories are opened, nvipfix.log.app and nvipfix.log.app.error.
  -- Then each text, cut to 1024 bytes, is handed on in order with the priority of its function, to the category
  -- of the errors if an error function was called, and else to the other. Only the writing of the
  -- configuration can fail.
  pub log_all-logged :
      (cs : List (LogCall A)) (st : Logger C × S) → log_all cs st ≡ logged (messages cs) st
  unfolding log_all
  log_all-logged [] st = refl
  log_all-logged (c ∷ cs) st =
      and_then_ext (function c.level c.wide c.fmt c.args st) (log_all cs) (logged (messages cs))
        (log_all-logged cs)
      ∙ ap (λ (o : Option (Logger C × S)). and_then o (logged (messages cs)))
          (function_lem c.level c.wide c.fmt c.args st
            ∙ log_text-logged c.level (format c.fmt c.args) st)
      ∙ logged-append (message_of c.level (format c.fmt c.args)) (messages cs) st
