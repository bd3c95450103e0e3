-- ===== src/Tests/Exports.antt =====
-- Runs of the export of one file, and of what the switch gives to the daemon.
use ipfix.Common.{
  ℕ, ◌+◌, ◌*◌, true, List, [], ◌∷◌, Option, none, some, ◌≡◌, ◌≢◌, ◌⊎◌, codes, length, refl, arith,
  false,
}
use ipfix.Common.Int.{pos}
use ipfix.Config.{zero_collector}
use ipfix.Config.Access.{SwitchInfo}
use ipfix.Daemon.{ReturnCode, main_daemon}
use ipfix.Daemon.Exports.{Process, program, Spends, main_daemon-Spends}
use ipfix.Daemon.Windows.{Log, recorded}
use ipfix.Export.Session.{World, null, held, on_heap}
use ipfix.Export.{Row}
use ipfix.Heap.{Heap}
use ipfix.Import.Memory.{Unended}
use ipfix.Import.Nvc.{init_io, login, record_of_conn, import_nvc}
use ipfix.Import.Reader.{Records, import_stream}
use ipfix.Import.Records.{records_of}
use ipfix.Main.{Target, main_export, main_export_file, main_export_nvc, export_cleanup}
use ipfix.Main.OneShot.{main_export_file-main_export}
use ipfix.Main.Once.{main_export_file-cleanup}
use ipfix.Main.Rounds.{any_dangling}
use ipfix.Main.Sessions.{sessions}
use ipfix.Main.SwitchContent.{main_export_nvc-main_export}
use ipfix.Tests.Programs.{
  zeros, file, cells, empty, fields, file-IsDataFile, clock, switch, connection, system, interval,
}
use ipfix.Tests.Services.{unset}
use ipfix.Tests.State.{recorder, no_time, world, private, a_date}

abbrev targets : List Target
targets =
    record { info = zero_collector; ctx = held private }
    ∷ record { info = zero_collector; ctx = null }
    ∷ []

abbrev shot : Option (List Target) × World (List Row)
shot =
    main_export_file (λ i. recorder true) no_time zeros (some file) targets a_date a_date empty
      world

abbrev fresh_targets : List Target
fresh_targets = record { info = zero_collector; ctx = null } ∷ []

abbrev once : Option (List Target) × World (List Row)
once =
    main_export_file (λ i. recorder false) no_time zeros (some file) fresh_targets a_date a_date
      empty world

main_export_file-cleanup_example :
    (Unended zeros (some file) world.heap × (once.0 ≡ none))
    ⊎ (¬ Unended zeros (some file) world.heap
        × (ts' : List Target) × (w' : World (List Row)) × (once ≡ (some ts', w'))
        × (w'.heap.live ≡ 2 + 2 * sessions ts')
        × (((any_dangling ts' ≡ true)
              × (export_cleanup (λ i. recorder false) no_time (λ w. w) ts' w' ≡ none))
            ⊎ ((any_dangling ts' ≡ false)
                × ((v : World (List Row)) × (export_cleanup
                        (λ i. recorder false)
                        no_time
                        (λ w. w)
                        ts'
                        w'
                      ≡ some v)
                    × (v.heap.live ≡ 2 + sessions ts')))))
main_export_file-cleanup_example =
    main_export_file-cleanup (λ i. recorder false) no_time zeros (some file) fresh_targets a_date
      a_date cells 1 world (λ w. w) (refl, tt) refl

abbrev exported : Option (List Target) × World (List Row)
exported =
    main_export (λ i. recorder true) no_time targets (some (records_of fields)) a_date a_date
      (on_heap (import_stream zeros (some file) empty) world).1

main_export_file-main_export_example : (shot.0 ≡ exported.0) × (shot.1.fixbuf ≡ exported.1.fixbuf)
main_export_file-main_export_example =
    main_export_file-main_export (λ i. recorder true) no_time zeros file _ _ targets a_date a_date
      cells 1 world (omega arith) refl (ground arith) file-IsDataFile refl

abbrev info : SwitchInfo
info = record {
  name = some (codes "sw1");
  host = some (codes "localhost");
  login = some (codes "u");
  password = some (codes "p");
}

abbrev read : Records × (ℕ × Heap)
read = import_nvc clock switch info.host info.login info.password (pos 60) empty (0, world.heap)

abbrev switched : Option (List Target) × (ℕ × World (List Row))
switched =
    main_export_nvc (λ i. recorder true) no_time clock switch (some info) targets a_date a_date
      (pos 60) empty 0 world

abbrev sent : Option (List Target) × World (List Row)
sent =
    main_export (λ i. recorder true) no_time targets (some (record_of_conn clock connection ∷ []))
      a_date a_date (record world { heap = read.1.1 })

main_export_nvc-main_export_example :
    (switched.0 ≡ sent.0) × (switched.1.0 ≡ read.1.0) × (switched.1.1.fixbuf ≡ sent.1.fixbuf)
unfolding init_io login
main_export_nvc-main_export_example =
    main_export_nvc-main_export (λ i. recorder true) no_time clock switch info targets a_date a_date
      (pos 60) cells 1 0 world refl

abbrev process : Process ℕ ℕ (List Row)
process = record { system = 0; switch = 0; world = world; collectors = some targets }

abbrev two_rounds : Option ReturnCode × (Process ℕ ℕ (List Row) × Log)
two_rounds =
    main_daemon clock
      (recorded clock (program (λ i. recorder true) no_time clock switch unset empty system)) 2
      (codes "/nvIPFIX") interval (process, [])

main_daemon-Spends_example :
    Spends 0 two_rounds.1 × ((two_rounds.0 ≢ none) ⊎ (length two_rounds.1.1 ≡ 2))
main_daemon-Spends_example =
    main_daemon-Spends (λ i. recorder true) no_time clock switch unset cells 1 system 2
      (codes "/nvIPFIX") interval targets 0 0 0 world (λ t. refl) refl refl
