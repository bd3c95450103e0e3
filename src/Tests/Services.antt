-- ===== src/Tests/Services.antt =====
-- Runs of logging, of the memory of tables and sessions, and of the configuration reader.
use ipfix.Args.{args_parse}
use ipfix.Common.Int.{pos, negsuc}
use ipfix.Config.{Globals, tcp}
use ipfix.Config.Peers.{Peer, IsPeer, with_peers}
use ipfix.Config.Reader.{config_read}
use ipfix.Config.RoundTrip.{Switch, IsSwitch, print_config, with_switch, config_read-print_config}
use ipfix.Config.Values.{literal}
use ipfix.Export.Session.{code_invalid_arguments}
use ipfix.Fwatch.{Watch, fwatch_add, invalid_fwatch_handle}
use ipfix.Text.{contains}
use ipfix.Common.{
  ℕ, Bool, true, false, List, [], ◌∷◌, Option, none, some, ◌≡◌, ◌≢◌, ◌⊎◌, ◌↔◌, refl, ◌∙◌, codes,
  length, arith, ◌+◌, ◌*◌,
}
use ipfix.Export.Session.{
  World, null, nvipfix_export, export_init, export_with, open_session, export_records,
  finish_export, finish_open, raise_unless, raise_if_zero, send_records, send_stats,
}
use ipfix.Export.{Row}
use ipfix.Import.{zero_record}
use ipfix.Config.{zero_collector}
use ipfix.Hashtable.{
  Hashtable8, hashtable8_hash, hashtable8_free, hashtable8_get, new_table, add_to, add_root,
  add_node, write_root, write_node, find_node, find_root, key_cmp,
}
use ipfix.Hashtable.Lifecycle.{Entry, Has, add_all, free-add_all_live, hashtable8_free-get}
use ipfix.Heap.{Heap, malloc, roomy}
use ipfix.Log.{Log4c, Logger, fresh_logger, log_init, load_categories, copy_config}
use ipfix.Log.Delivery.{Level, LogCall, messages, logged, log_all, log_all-logged}
use ipfix.Log.Setup.{unwritable, log_all_fault}
use ipfix.Main.{Target, main_export, export_collectors, export_cleanup}
use ipfix.Main.Closing.{Round, export_rounds, export_rounds-cleanup}
use ipfix.Main.Rounds.{any_dangling}
use ipfix.Main.Sessions.{sessions}
use ipfix.Tests.State.{recorder, no_time, world, a_date}
use ipfix.Text.{Bytes}

-- A log4c that notes each message with its category, and formats without arguments.
abbrev log4c : Bool → Bool → Log4c ℕ (List (Option ℕ × Bytes)) ℕ
log4c present writable = record {
  priority_error = 300;
  priority_warn = 400;
  priority_info = 600;
  priority_debug = 700;
  priority_trace = 800;
  error_lt_warn = omega arith;
  warn_lt_info = omega arith;
  info_lt_debug = omega arith;
  debug_lt_trace = omega arith;
  log4cfg = codes "<log4c/>";
  access = λ path s. (present, s);
  fopen = λ path s. (writable, s);
  fwrite = λ text s. s;
  fclose = λ s. s;
  log4c_init = λ s. s;
  log4c_load = λ path s. s;
  log4c_fini = λ s. s;
  category_get = λ name s. (some (length name), s);
  category_log = λ c priority text s. (c, text) ∷ s;
  format = λ fmt args. some fmt;
}

abbrev calls : List (LogCall ℕ)
calls =
    record { level = Level.info; wide = false; fmt = codes "up"; args = 0 }
    ∷ record { level = Level.debug; wide = false; fmt = []; args = 0 }
    ∷ record { level = Level.error; wide = true; fmt = codes "down"; args = 0 }
    ∷ []

log_all-logged_example :
    log_all (log4c true true) calls (fresh_logger, [])
    ≡ logged (log4c true true) (messages (log4c true true) calls) (fresh_logger, [])
log_all-logged_example = log_all-logged (log4c true true) calls (fresh_logger, [])

log_all_fault_example :
    (log_all (log4c false false) calls (fresh_logger, []) ≡ none)
    ↔ ((messages (log4c false false) calls ≢ []) × (unwritable (log4c false false) [] ≡ true))
log_all_fault_example = log_all_fault (log4c false false) calls []

abbrev set_up : Logger ℕ
set_up = record { is_initialized = true; category = some 15; category_error = some 21; at_exit = 1 }

abbrev seen : List (Option ℕ × Bytes)
seen = (some 21, codes "down") ∷ (some 15, codes "up") ∷ []

-- The debug call has no text; the others reach their categories, the first of which is opened first.
calls_run : log_all (log4c false true) calls (fresh_logger, []) ≡ some (set_up, seen)
unfolding log_init load_categories copy_config
calls_run = log_all-logged (log4c false true) calls (fresh_logger, []) ∙ refl

abbrev entries : List (Entry ℕ)
entries =
    record { first = b'k'; rest = codes "1"; value = some 5 }
    ∷ record { first = b'k'; rest = codes "2"; value = some 6 }
    ∷ record { first = b'k'; rest = codes "1"; value = some 7 }
    ∷ []

abbrev filled : Option (Hashtable8 ℕ) × Heap
filled = add_all (new_table true none) entries (roomy 3)

abbrev filled_table : Hashtable8 ℕ
filled_table = elim filled.0 [ none ↦ new_table true none | some t ↦ t ]

free-add_all_live_example : (hashtable8_free filled_table filled.1).1.live ≡ 3
unfolding add_all add_to add_root malloc hashtable8_hash
free-add_all_live_example = free-add_all_live none true entries (roomy 3) filled_table refl

hashtable8_free-get_example : Has (some 7) (hashtable8_free filled_table (roomy 9)).0
unfolding add_all add_to add_root add_node write_root write_node find_node find_root key_cmp malloc
    hashtable8_get hashtable8_hash
hashtable8_free-get_example = hashtable8_free-get filled_table (codes "k1") 7 (roomy 9) refl refl

abbrev collectors : List Target
collectors =
    record { info = zero_collector; ctx = null } ∷ record { info = zero_collector; ctx = null } ∷ []

abbrev rounds : List Round
rounds =
    record { records = some (zero_record ∷ []); start = a_date; end = a_date }
    ∷ record { records = none; start = a_date; end = a_date }
    ∷ record { records = some []; start = a_date; end = a_date }
    ∷ []

abbrev after_rounds : Option (List Target) × World (List Row)
after_rounds = export_rounds (λ i. recorder true) no_time rounds collectors world

abbrev left : List Target
left = elim after_rounds.0 [ none ↦ [] | some ts ↦ ts ]

abbrev cleaned : Option (World (List Row))
cleaned = export_cleanup (λ i. recorder true) no_time (λ w. w) left after_rounds.1

export_rounds-cleanup_example :
    (after_rounds.1.heap.live ≡ 2 + 2 * sessions left)
    × (((any_dangling left ≡ true) × (cleaned ≡ none))
        ⊎ ((any_dangling left ≡ false)
            × ((v : World (List Row)) × (cleaned ≡ some v) × (v.heap.live ≡ 2 + sessions left))))
unfolding export_rounds main_export export_collectors nvipfix_export export_init export_with
    open_session export_records finish_export finish_open raise_unless raise_if_zero send_records
    send_stats malloc
export_rounds-cleanup_example =
    export_rounds-cleanup (λ i. recorder true) no_time rounds collectors left world after_rounds.1
      (λ w. w) (refl, (refl, tt)) refl refl

abbrev pub unset : Globals
unset = record {
  switch_name = none;
  switch_api_host = none;
  switch_api_login = none;
  switch_api_password = none;
  export_interval = record { microseconds = pos 60000000; has_value = true };
  collectors = [];
}

abbrev a_switch : Switch
a_switch = record {
  name = codes "sw1";
  host = codes "localhost";
  login = codes "admin";
  password = codes "secret";
}

abbrev a_peer : Peer
a_peer = record {
  name = codes "c1";
  host = codes "10.0.0.9";
  ip = 167772169;
  transport = tcp;
  port = codes "4740";
  dscp = 8;
}

a_switch-IsSwitch : IsSwitch a_switch
unfolding contains
a_switch-IsSwitch = record {
  name = literal b's' (codes "w1") refl (refl, refl) (omega arith);
  host = literal b'l' (codes "ocalhost") refl (refl, refl) (omega arith);
  login = literal b'a' (codes "dmin") refl (refl, refl) (omega arith);
  password = literal b's' (codes "ecret") refl (refl, refl) (omega arith);
}

a_peer-IsPeer : IsPeer a_peer
unfolding contains
a_peer-IsPeer = record {
  name = literal b'c' (codes "1") refl (refl, refl) (omega arith);
  host = literal b'1' (codes "0.0.0.9") refl (refl, refl) (omega arith);
  ip = omega arith;
  transport = λ e. cc;
  port = literal b'4' (codes "740") refl (refl, refl) (omega arith);
  dscp = omega arith;
}

config_read-print_config_example :
    (config_read (some (print_config a_switch (a_peer ∷ []))) unset (roomy 0)).0
    ≡ (with_peers (a_peer ∷ []) (with_switch a_switch unset), [])
config_read-print_config_example =
    config_read-print_config a_switch (a_peer ∷ []) unset (roomy 0) a_switch-IsSwitch
      (a_peer-IsPeer, tt) refl

parse_nothing : args_parse none none ≡ (code_invalid_arguments, none)
unfolding args_parse
parse_nothing = refl

abbrev no_watch : Watch
no_watch = record { is_initialized = false; inotify_descriptor = pos 0 }

no_handle : (fwatch_add true (negsuc 0) no_watch).0 ≡ invalid_fwatch_handle
unfolding fwatch_add
no_handle = refl
