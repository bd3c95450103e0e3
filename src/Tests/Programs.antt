-- ===== src/Tests/Programs.antt =====
-- Runs of the importers, the daemon, the export to all collectors and the command line.
use ipfix.Arguments.{main_command}
use ipfix.Arguments.Outcome.{Allowed, main_command-Allowed}
use ipfix.Calendar.{Clock, datetime_to_ctime, ctime_to_datetime}
use ipfix.Common.{
  ℕ, suc, true, false, List, [], ◌∷◌, Option, none, some, ◌≡◌, ◌≢◌, ◌⊎◌, ◌↔◌, take, refl, codes,
  length, arith, ltb,
}
use ipfix.Common.Int.{ℤ, pos, ◌+ℤ◌, ◌-ℤ◌}
use ipfix.Config.{zero_collector}
use ipfix.Daemon.{
  Os, ReturnCode, daemon_round, daemon_loop, daemon_serve, daemon_map, daemon_child, main_daemon,
  shm_name_escape,
}
use ipfix.Daemon.Escape.{escape_all, shm_name_escape-all}
use ipfix.Daemon.Windows.{Log, Covers, recorded, main_daemon-Covers}
use ipfix.Data.{DataRecord, Store}
use ipfix.Export.{Tm, Row}
use ipfix.Export.Session.{Slot, World, dangling, held}
use ipfix.Heap.{Heap, roomy}
use ipfix.Import.{zero_record}
use ipfix.Import.Buffer.{read_buffer, c_string}
use ipfix.Import.Buffer.Kept.{kept, kept_bytes, read_buffer-kept}
use ipfix.Import.Memory.{Unended, import_stream-OwnsAll}
use ipfix.Import.Nvc.{init_io, login, record_of_conn, Conn, syn, Nvc, import_nvc}
use ipfix.Import.Nvc.Protocol.{Call, closed, phase, logged, import_nvc-phase-Owns}
use ipfix.Import.Reader.{Records, import_stream, import_buffer, import_block}
use ipfix.Import.Records.{IsDataFile, records_of, import_stream-Lists}
use ipfix.Import.Listing.{Lists}
use ipfix.Import.Result.{OwnsAll}
use ipfix.Main.{Target, main_export}
use ipfix.Main.Rounds.{any_dangling, main_export_fault}
use ipfix.Tests.State.{recorder, no_time, world, private, a_date}
use ipfix.Text.{Bytes}
use ipfix.Time.{Timespan}
use ipfix.Text.Trim.{string_trim}

abbrev pub zeros : ℕ → ℕ
zeros i = 0

abbrev pub file : Bytes
file = codes "{\"data\":[{\"vlan\":\"7\",\"dscp\":\"1\"},{\"vlan\":\"9\"}]}"

abbrev pub cells : Store DataRecord
cells a = record { value = zero_record; prev = none; next = none }

abbrev pub empty : Records
empty = record { list = none; store = cells; next = 1 }

read_buffer-kept_example :
    (block : Bytes) × ((read_buffer zeros file (roomy 0)).0 ≡ some block)
    × (take (kept (length file)) block ≡ kept_bytes file)
read_buffer-kept_example = read_buffer-kept zeros file (roomy 0) refl

abbrev imported : Option Records × Heap
imported = import_stream zeros (some file) empty (roomy 5)

import_stream-OwnsAll_example :
    ((imported.0 ≡ none) × Unended zeros (some file) (roomy 5))
    ⊎ ((r : Records) × (imported.0 ≡ some r)
        × OwnsAll true 5 (r, imported.1)
        × ¬ Unended zeros (some file) (roomy 5))
import_stream-OwnsAll_example = import_stream-OwnsAll zeros (some file) cells 1 (roomy 5)

abbrev pub fields : List (List (Bytes × Bytes))
fields =
    ((codes "\"vlan\"", codes "\"7\"") ∷ (codes "\"dscp\"", codes "\"1\"") ∷ [])
    ∷ ((codes "\"vlan\"", codes "\"9\"") ∷ [])
    ∷ []

pub file-IsDataFile : IsDataFile file fields
unfolding c_string string_trim
file-IsDataFile = record {
  name = codes "{\"data\":";
  body = codes "{\"vlan\":\"7\",\"dscp\":\"1\"},{\"vlan\":\"9\"}";
  after = codes "}";
  parts = refl;
  named = refl;
  first = codes "\"vlan\":\"7\",\"dscp\":\"1\"},";
  others = codes "\"vlan\":\"9\"}" ∷ [];
  cut = refl;
  texts = ((refl, ground arith), ((refl, ground arith), tt));
}

import_stream-Lists_example :
    (r : Records) × ((import_stream zeros (some file) empty (roomy 0)).0 ≡ some r)
    × Lists (records_of fields) r
import_stream-Lists_example =
    import_stream-Lists zeros file fields cells 1 (roomy 0) (omega arith) refl (ground arith)
      file-IsDataFile refl

shm_name_escape-all_example :
    shm_name_escape (codes "/usr/bin/nvIPFIX") ≡ b'/' ∷ escape_all (codes "usr/bin/nvIPFIX")
shm_name_escape-all_example = shm_name_escape-all b'/' (codes "usr/bin/nvIPFIX")

-- Seconds stand for themselves.
abbrev seconds_tm : ℤ → Tm
seconds_tm t = record {
  year = t;
  mon = pos 0;
  mday = pos 0;
  hour = pos 0;
  min = pos 0;
  sec = pos 0;
}

abbrev pub clock : Clock
clock = record {
  localtime = seconds_tm;
  gmtime = seconds_tm;
  mktime = λ t. t.year;
  normal = λ t. t;
}

-- A system whose state is its time, and whose daemon is stopped at the time 3.
abbrev pub system : Os ℕ
system = record {
  shm_open = λ name w. (false, w);
  shm_create = λ name w. (true, w);
  shm_unlink = λ name w. w;
  close = λ w. w;
  fork = λ w. (pos 0, w);
  setsid = λ w. (true, w);
  detach = λ w. w;
  ftruncate = λ w. (true, w);
  mmap = λ w. (true, w);
  set_running = λ w. w;
  clear_running = λ w. w;
  is_running = λ w. (ltb w 3, w);
  sleep = λ n w. suc w;
  time = λ w. (pos w, w);
  export_nvc = λ s e n w. w;
}

abbrev pub interval : Timespan
interval = record { microseconds = pos 1000000; has_value = true }

abbrev served : Option ReturnCode × (ℕ × Log)
served = main_daemon clock (recorded clock system) 2 (codes "/nvIPFIX") interval (0, [])

main_daemon-Covers_example :
    ((start : ℤ) × (end : ℤ) × Covers start served.1.1 end)
    × ((served.0 ≢ none) ⊎ (length served.1.1 ≡ 2))
main_daemon-Covers_example =
    main_daemon-Covers clock system (λ t. refl) 2 (codes "/nvIPFIX") interval 0

served_lem : served ≡ (none, (2, (pos 1, pos 2) ∷ (pos 0, pos 1) ∷ []))
unfolding main_daemon daemon_child daemon_map daemon_serve daemon_loop daemon_round
    datetime_to_ctime ctime_to_datetime ◌+ℤ◌ ◌-ℤ◌
served_lem = refl

abbrev targets : Slot → List Target
targets slot =
    record { info = zero_collector; ctx = held private }
    ∷ record { info = zero_collector; ctx = slot }
    ∷ []

abbrev exported : Slot → Option (List Target) × World (List Row)
exported slot =
    main_export (λ i. recorder true) no_time (targets slot) (some (zero_record ∷ [])) a_date a_date
      world

main_export_fault_example :
    ((exported dangling).0 ≡ none) ↔ (any_dangling (targets dangling) ≡ true)
main_export_fault_example =
    main_export_fault (λ i. recorder true) no_time (zero_record ∷ []) a_date a_date
      (targets dangling) world refl

abbrev pub connection : Conn
connection = record {
  vlan = 5;
  client_switch_port = 1;
  server_switch_port = 2;
  ether_type = 2048;
  client_mac_addr = 0 ∷ 1 ∷ 2 ∷ 3 ∷ 4 ∷ 5 ∷ [];
  server_mac_addr = 0 ∷ 1 ∷ 2 ∷ 3 ∷ 4 ∷ 6 ∷ [];
  client_ip = 0 ∷ 0 ∷ 0 ∷ 0 ∷ 0 ∷ 0 ∷ 0 ∷ 0 ∷ 0 ∷ 0 ∷ 255 ∷ 255 ∷ 10 ∷ 0 ∷ 0 ∷ 1 ∷ [];
  server_ip = 0 ∷ 0 ∷ 0 ∷ 0 ∷ 0 ∷ 0 ∷ 0 ∷ 0 ∷ 0 ∷ 0 ∷ 255 ∷ 255 ∷ 10 ∷ 0 ∷ 0 ∷ 2 ∷ [];
  client_port = 4000;
  server_port = 80;
  proto = 6;
  state = syn;
  dur = pos 5000;
  avg_latency = pos 1000;
  bytes_sent = 10;
  bytes_recv = 20;
  bytes_total = 30;
  started_time = 7;
  ended_time = 8;
}

-- A switch with one connection to show, which lets users in by name.
abbrev pub switch : Nvc ℕ
switch = record {
  init_net = λ host w. w;
  init = λ w. w;
  connect = λ w. (pos 0, suc w);
  authenticate = λ user password w. ((true, pos 0), w);
  check_uid = λ w. ((false, pos 1), w);
  show_conn_stat = λ within limit w. ((connection ∷ [], true, pos 0), w);
  logout = λ w. w;
  disconnect = λ w. w;
  close = λ w. w;
}

abbrev shown : Records × ((ℕ × List Call) × Heap)
shown =
    import_nvc clock (logged switch) none (some (codes "u")) (some (codes "p")) (pos 60) empty
      ((0, []), roomy 0)

import_nvc-phase-Owns_example :
    (phase shown.1.0.1 ≡ some closed)
    × OwnsAll true 0 (shown.0, shown.1.1)
    × ((true ≡ false) ⊎ Lists (record_of_conn clock connection ∷ []) shown.0)
unfolding init_io login
import_nvc-phase-Owns_example =
    import_nvc-phase-Owns clock switch none (some (codes "u")) (some (codes "p")) (pos 60) 0 cells 1
      (roomy 0)

abbrev argv : List Bytes
argv =
    codes "nvIPFIX"
    ∷ codes "-fdata.json"
    ∷ codes "2015-01-02T03:04:05"
    ∷ codes "2015-01-03T03:04:05"
    ∷ []

main_command-Allowed_example : Allowed clock (main_command clock argv (roomy 0)).0
main_command-Allowed_example = main_command-Allowed clock argv (roomy 0)

-- A block without a NUL is read past its end.
no_end : (import_buffer (some (codes "{}")) empty (roomy 1)).0 ≡ none
unfolding import_buffer import_block c_string
no_end = refl
