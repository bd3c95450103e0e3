-- ===== src/Daemon/Exports.antt =====
-- The daemon with the exports that it makes, and their memory: src/nvipfix.c, lines 257-274, with
-- src/main.c behind it.
use ipfix.Calendar.{Clock}
use ipfix.Common.{
  ℕ, suc, ◌+◌, ◌*◌, true, List, [], Option, none, some, ◌≡◌, ◌≢◌, ◌⊎◌, arith, length, refl,
}
use ipfix.Common.Int.{ℤ}
use ipfix.Config.{Globals}
use ipfix.Config.Access.{config_switch_info_get}
use ipfix.Daemon.{Os, main_daemon}
use ipfix.Daemon.Windows.{Log, recorded, main_daemon-Covers}
use ipfix.Daemon.Kept.{Invariant, main_daemon-P}
use ipfix.Data.{DataRecord, Store}
use ipfix.Date.{Datetime}
use ipfix.Export.{Fixbuf, Tm}
use ipfix.Export.Session.{World, on_heap}
use ipfix.Heap.{has_room}
use ipfix.Import.Nvc.{Nvc}
use ipfix.Import.Reader.{Records}
use ipfix.Main.{Target, main_export_nvc}
use ipfix.Main.Sessions.{KeepsAll, sessions}
use ipfix.Main.SwitchExport.{main_export_nvc-KeepsAll}
use ipfix.Text.{Bytes}
use ipfix.Time.{Timespan}

-- The daemon's process: the system, the library of the switch, libfixbuf with the heap, and the collectors,
-- none once an export has used a freed block.
pub record Process (S V W : Type 0) : Type 0 where
  pub system : S
  pub switch : V
  pub world : World W
  pub collectors : Option (List Target)

module _ {S V W : Type 0} (fb : ℕ → Fixbuf W) (mktime : Tm → ℤ) (clock : Clock) (nvc : Nvc V)
    (config : Globals) (empty : Records) where
  -- `nvipfix_main_export_nvc` with the configuration as it was read. Behind a use of a freed block nothing
  -- is said of the process: the model leaves it as it is.
  unfoldable pub main_export_switch :
      Datetime → Datetime → ℤ → Process S V W → Option (List Target) → Process S V W
  main_export_switch a_startTs a_endTs within_last p none = p
  main_export_switch a_startTs a_endTs within_last p (some collectors) =
      let (info, w1) = on_heap (config_switch_info_get none true config) p.world in
      let (ts, (v, w2)) =
        main_export_nvc fb mktime clock nvc info.1 collectors a_startTs a_endTs within_last empty
          p.switch w1 in
      record p { switch = v; world = w2; collectors = ts }

  abbrev beside : {A : Type 0} → (S → A × S) → Process S V W → A × Process S V W
  beside f p = ((f p.system).0, record p { system = (f p.system).1 })

  abbrev after : (S → S) → Process S V W → Process S V W
  after f p = record p { system = f p.system }

  -- The system, and the exports of the process.
  abbrev pub program : Os S → Os (Process S V W)
  program os = record {
    shm_open = λ name. beside (os.shm_open name);
    shm_create = λ name. beside (os.shm_create name);
    shm_unlink = λ name. after (os.shm_unlink name);
    close = after os.close;
    fork = beside os.fork;
    setsid = beside os.setsid;
    detach = after os.detach;
    ftruncate = beside os.ftruncate;
    mmap = beside os.mmap;
    set_running = after os.set_running;
    clear_running = after os.clear_running;
    is_running = beside os.is_running;
    sleep = λ n. after (os.sleep n);
    time = beside os.time;
    export_nvc = λ s e n p. main_export_switch s e n p p.collectors;
  }

-- One block for each export that was made, beside `n` others and two for each open session.
abbrev pub Spends : {S V W : Type 0} → ℕ → Process S V W × Log → Type 0
Spends n (p, log) = KeepsAll (n + length log) (p.collectors, p.world)

module _ {S V W : Type 0} (fb : ℕ → Fixbuf W) (mktime : Tm → ℤ) (clock : Clock) (nvc : Nvc V)
    (config : Globals) (σ : Store DataRecord) (a : ℕ) (os : Os S) where
  abbrev running : Os (Process S V W)
  running = program fb mktime clock nvc config (record { list = none; store = σ; next = a }) os

  export-Spends :
      (s e : Datetime) (within : ℤ) (n m : ℕ) (p : Process S V W)
      (collectors : Option (List Target))
      → KeepsAll n (collectors, p.world)
      → m ≡ n + 1
      → p.collectors ≡ collectors
      → (let p' =
            main_export_switch fb mktime clock nvc config
              (record { list = none; store = σ; next = a })
              s
              e
              within
              p
              collectors in
          KeepsAll m (p'.collectors, p'.world))
  unfolding main_export_switch
  export-Spends s e within n m p none o more same = rw same tt
  export-Spends s e within n m p (some ts) o more same = rw more (
      main_export_nvc-KeepsAll fb mktime clock nvc none config ts s e within σ a n p.switch p.world
        o.0 o.1)

  running-Invariant : (n : ℕ) → Invariant (Spends n) (recorded clock running)
  running-Invariant n = record {
    shm_open = λ name w k. k;
    shm_create = λ name w k. k;
    shm_unlink = λ name w k. k;
    close = λ w k. k;
    fork = λ w k. k;
    setsid = λ w k. k;
    detach = λ w k. k;
    ftruncate = λ w k. k;
    mmap = λ w k. k;
    set_running = λ w k. k;
    is_running = λ w k. k;
    sleep = λ t w k. k;
    time = λ w k. k;
    export_nvc = λ s e t w k.
        export-Spends s e t (n + length w.1) (n + suc (length w.1)) w.0 w.0.collectors k
          (omega arith) refl;
  }

  -- Where `mktime` inverts `localtime`, on a heap where no call of `malloc` is refused, whatever the
  -- system, the library of the switch and libfixbuf answer: `main_daemon`, run with the exports of
  -- the process, keeps one block for each export that it has made, beside those that were live at
  -- first and two for each open session, unless an export used a freed block; and a daemon that still runs behind some
  -- number of rounds has made one export in each of them.
  pub main_daemon-Spends :
      (rounds : ℕ) (name : Bytes) (interval : Timespan) (ts : List Target) (n : ℕ) (s : S) (v : V)
      (w : World W)
      → ((t : ℤ) → clock.mktime (clock.localtime t) ≡ t)
      → has_room w.heap.plan ≡ true
      → w.heap.live ≡ n + 2 * sessions ts
      → let out =
          main_daemon clock
            (recorded clock running)
            rounds
            name
            interval
            (record { system = s; switch = v; world = w; collectors = some ts }, []) in
        Spends n out.1 × ((out.0 ≢ none) ⊎ (length out.1.1 ≡ rounds))
  main_daemon-Spends rounds name interval ts n s v w local room live =
      let start : Process S V W = record {
        system = s;
        switch = v;
        world = w;
        collectors = some ts;
      } in
      (
        main_daemon-P (Spends n) clock (recorded clock running) (running-Invariant n) rounds name
            interval (start, []) (room, omega (arith, live)),
        (main_daemon-Covers clock running local rounds name interval start).1,
      )
