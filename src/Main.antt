-- ===== src/Main.antt =====
-- One export to every collector: src/main.c, lines 30-86. Each collector has a session and a buffer of
-- its own, so libfixbuf is a family of calls, one for each place in the list of the collectors. What
-- they share is one state.
pub mod Rounds
pub mod Sessions
pub mod Closing
pub mod OneShot
pub mod SwitchExport
pub mod SwitchContent
pub mod Once
use ipfix.Common.{ℕ, zero, suc, List, [], ◌∷◌, Option, none, some, if◌then◌else◌}
use ipfix.Common.Int.{ℤ}
use ipfix.Config.{Collector}
use ipfix.Config.Access.{SwitchInfo, config_switch_info_free}
use ipfix.Data.{DataRecord, RecordList, Store, data_list_free}
use ipfix.Date.{Datetime}
use ipfix.Calendar.{Clock}
use ipfix.Export.{Fixbuf, Tm}
use ipfix.Heap.{free}
use ipfix.Import.Nvc.{Nvc, import_nvc}
use mathlib.Core.Option
use ipfix.Export.Session.{Code, Slot, null, dangling, held, World, on_heap, nvipfix_export}
use ipfix.Import.Reader.{Records, import_file}
use ipfix.Text.{Bytes}

-- A collector of `CollectorList` with its `ctx`.
pub record Target : Type 0 where
  pub info : Collector
  pub ctx : Slot

-- The records that a list holds, in order, as the exporter walks over them.
pub walk : ℕ → Option ℕ → Store DataRecord → List DataRecord
walk zero p σ = []
walk (suc n) none σ = []
walk (suc n) (some a) σ = (σ a).value ∷ walk n (σ a).next σ

-- A list and its records, NULL for no list.
pub listed : ℕ → Records → Option (List DataRecord)
listed n r = elim r.list [ none ↦ none | some l ↦ some (walk n (some l.head) r.store) ]

-- The loop goes on with the rest, unless a freed block was used.
pub go_on :
    {W : Type 0}
    → Target
    → Option (Code × Slot)
    → World W
    → Option (List Target) × World W
    → Option (List Target) × World W
go_on t none w more = (none, w)
go_on t (some (code, slot)) w (none, w') = (none, w')
go_on t (some (code, slot)) w (some ts, w') = (some (record t { ctx = slot } ∷ ts), w')

module _ {W : Type 0} (fb : ℕ → Fixbuf W) (mktime : Tm → ℤ) where
  -- The `while` loop from the collector at place `i` on. `none` where a freed block is used.
  unfoldable pub export_collectors :
      ℕ
      → List Target
      → List DataRecord
      → Datetime
      → Datetime
      → World W
      → Option (List Target) × World W
  unfolding go_on
  export_collectors i [] a_data a_startTs a_endTs w = (some [], w)
  export_collectors i (t ∷ ts) a_data a_startTs a_endTs w =
      let (r, w1) =
        nvipfix_export (fb i) mktime t.info.host t.info.port t.info.transport a_data a_startTs
          a_endTs t.ctx w in
      go_on t r w1 (export_collectors (suc i) ts a_data a_startTs a_endTs w1)

  -- `nvipfix_main_export`, behind `nvipfix_config_collectors_get`; NULL for the data is no list.
  unfoldable pub main_export :
      List Target
      → Option (List DataRecord)
      → Datetime
      → Datetime
      → World W
      → Option (List Target) × World W
  main_export collectors none a_startTs a_endTs w = (some collectors, w)
  main_export collectors (some a_dataRecords) a_startTs a_endTs w =
      export_collectors 0 collectors a_dataRecords a_startTs a_endTs w

  -- `nvipfix_main_export_file`, for the bytes of the file; `none` is a file that cannot be opened. The
  -- addresses handed out bound the number of records.
  unfoldable pub main_export_file :
      (ℕ → ℕ)
      → Option Bytes
      → List Target
      → Datetime
      → Datetime
      → Records
      → World W
      → Option (List Target) × World W
  unfolding listed walk
  main_export_file fresh file collectors a_startTs a_endTs empty w =
      let (read, w1) = on_heap (import_file fresh file empty) w in
      elim read [
        | none ↦ (none, w1)
        | some r ↦
            (let (ts, w2) = main_export collectors (listed r.next r) a_startTs a_endTs w1 in
              elim ts [
                | none ↦ (none, w2)
                | some collectors' ↦
                    (some collectors', (on_heap (data_list_free r.next r.list r.store) w2).1)
              ])
      ]

  -- `nvipfix_main_export_nvc` with `NVIPFIX_DEF_ENABLE_NVC`, behind `nvipfix_config_switch_info_get`. The settings of the switch are read for the
  -- log at once, so without memory for them, `none`, the pointer NULL is used.
  unfoldable pub main_export_nvc :
      {V : Type 0}
      → Clock
      → Nvc V
      → Option SwitchInfo
      → List Target
      → Datetime
      → Datetime
      → ℤ
      → Records
      → V
      → World W
      → Option (List Target) × (V × World W)
  unfolding listed walk
  main_export_nvc clock nvc none collectors a_startTs a_endTs within_last empty v w = (none, (v, w))
  main_export_nvc clock nvc (some info) collectors a_startTs a_endTs within_last empty v w =
      let (r, (v1, h)) =
        import_nvc clock nvc info.host info.login info.password within_last empty (v, w.heap) in
      let w1 : World W = record w { heap = h } in
      let (ts, w2) = main_export collectors (listed r.next r) a_startTs a_endTs w1 in
      elim ts [
        | none ↦ (none, (v1, w2))
        | some collectors' ↦
            (let w3 = (on_heap (data_list_free r.next r.list r.store) w2).1 in
              (some collectors', (v1, (on_heap (config_switch_info_free (some info)) w3).1)))
      ]

  -- One collector of `nvipfix_export_cleanup` (src/export.c). Private data that is held has a buffer and its
  -- `collector`; `none` where it was freed.
  unfoldable pub cleanup_private : ℕ → Slot → World W → Option (World W)
  cleanup_private i null w = some w
  cleanup_private i dangling w = none
  cleanup_private i (held p) w =
      some (on_heap (free 1) (record w { fixbuf = (fb i).buf_free w.fixbuf })).1

  -- The loop, from the collector at place `i` on.
  unfoldable pub cleanup_collectors : ℕ → List Target → World W → Option (World W)
  cleanup_collectors i [] w = some w
  cleanup_collectors i (t ∷ ts) w = elim (cleanup_private i t.ctx w) [
    | none ↦ none
    | some v ↦ cleanup_collectors (suc i) ts v
  ]

  -- `nvipfix_export_cleanup`, behind `nvipfix_config_collectors_get`. `info_model_free` is the call of
  -- libfixbuf that frees `InfoModel`, which is set once the exporter is initialised.
  unfoldable pub export_cleanup : (W → W) → List Target → World W → Option (World W)
  export_cleanup info_model_free collectors w =
      Option.map
        (λ (v : World W).
          if v.is_initialized then record v { fixbuf = info_model_free v.fixbuf } else v)
        (cleanup_collectors 0 collectors w)
