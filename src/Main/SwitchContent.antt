-- ===== src/Main/SwitchContent.antt =====
-- What the collectors get from the switch: src/main.c, lines 66-86, with src/import.c behind it.
use ipfix.Calendar.{Clock}
use ipfix.Common.{ℕ, true, List, Option, none, some, ◌≡◌, refl}
use ipfix.Common.Int.{ℤ}
use ipfix.Config.Access.{SwitchInfo}
use ipfix.Data.{DataRecord, Store}
use ipfix.Date.{Datetime}
use ipfix.Export.{Fixbuf, Tm}
use ipfix.Export.Session.{World}
use ipfix.Heap.{has_room}
use ipfix.Import.Nvc.{Nvc, import_nvc}
use ipfix.Import.Nvc.Content.{connections, records_of_conns, import_nvc-Lists}
use ipfix.Import.Reader.{Records}
use ipfix.Main.{Target, main_export, main_export_nvc}
use ipfix.Main.OneShot.{or_null, listed-Lists}
use ipfix.Main.SwitchExport.{settle, nvc_settle}

module _ {W V : Type 0} where
  settle_same :
      (i : SwitchInfo) (n : ℕ) (r : Records) (v : V) (out : Option (List Target) × World W)
      → ((settle i n r v out).0 ≡ out.0)
        × ((settle i n r v out).1.0 ≡ v)
        × ((settle i n r v out).1.1.fixbuf ≡ out.1.fixbuf)
  unfolding settle
  settle_same i n r v (none, w) = (refl, refl, refl)
  settle_same i n r v (some ts, w) = (refl, refl, refl)

module _ {W V : Type 0} (fb : ℕ → Fixbuf W) (mktime : Tm → ℤ) (clock : Clock) (nvc : Nvc V) where
  -- On a heap where no call of `malloc` is refused, with the settings of a switch:
  -- `nvipfix_main_export_nvc` gives the collectors and the state of libfixbuf that `nvipfix_main_export`
  -- gives for exactly the records of the connections that the library of the switch shows, in their
  -- order, on the heap that the import leaves, and for NULL, which exports nothing, where it shows
  -- none or there is no connection or no login. The switch is left as the import leaves it.
  pub main_export_nvc-main_export :
      (i : SwitchInfo) (ts : List Target) (start end : Datetime) (within : ℤ) (σ : Store DataRecord)
      (a : ℕ) (v : V) (w : World W)
      → has_room w.heap.plan ≡ true
      → let empty : Records = record { list = none; store = σ; next = a } in
        let read = import_nvc clock nvc i.host i.login i.password within empty (v, w.heap) in
        let shown = connections clock nvc i.host i.login i.password within v in
        let out = main_export_nvc fb mktime clock nvc (some i) ts start end within empty v w in
        let exported =
          main_export fb mktime ts
            (or_null (records_of_conns clock nvc shown))
            start
            end
            (record w { heap = read.1.1 }) in
        (out.0 ≡ exported.0) × (out.1.0 ≡ read.1.0) × (out.1.1.fixbuf ≡ exported.1.fixbuf)
  main_export_nvc-main_export i ts start end within σ a v w room =
      let empty : Records = record { list = none; store = σ; next = a } in
      let (r, (v1, h)) = import_nvc clock nvc i.host i.login i.password within empty (v, w.heap) in
      let shown = connections clock nvc i.host i.login i.password within v in
      let w1 : World W = record w { heap = h } in
      let same =
        listed-Lists (records_of_conns clock nvc shown) r
          (import_nvc-Lists clock nvc i.host i.login i.password within σ a v w.heap room) in
      rw (nvc_settle fb mktime clock nvc i ts start end within empty v w) (
        rw same (
          settle_same i r.next r v1
            (main_export fb mktime ts (or_null (records_of_conns clock nvc shown)) start end w1)))
