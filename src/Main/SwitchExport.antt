-- ===== src/Main/SwitchExport.antt =====
-- The export of what the switch gives, from the configuration to the collectors: src/main.c, lines 66-86.
use mathlib.Core.Path.{subst}
use ipfix.Common.{ℕ, ◌+◌, ◌-◌, ◌*◌, true, List, Option, none, some, ◌≡◌, refl, sym, ap, ◌∙◌, arith}
use ipfix.Calendar.{Clock}
use ipfix.Common.Int.{ℤ}
use ipfix.Config.{Globals, free_string}
use ipfix.Config.Access.{SwitchInfo, config_switch_info_get, config_switch_info_free}
use ipfix.Config.Reader.{config_init}
use ipfix.Data.{DataRecord, Store, data_list_free}
use ipfix.Date.{Datetime}
use ipfix.Export.{Fixbuf, Tm}
use ipfix.Export.Session.{World, on_heap}
use ipfix.Heap.{Heap, malloc, has_room, free}
use ipfix.Import.Buffer.Loop.{block}
use ipfix.Import.Nvc.{Nvc, import_nvc}
use ipfix.Import.Nvc.Protocol.{import_nvc-Owns}
use ipfix.Import.Reader.{Records}
use ipfix.Import.Result.{Owns, empty_Owns}
use ipfix.Main.{Target, listed, main_export, main_export_nvc}
use ipfix.Main.OneShot.{release, export_read-KeepsAll}
use ipfix.Main.Sessions.{KeepsAll, sessions, malloc_room}
use ipfix.Text.{Bytes}
use ipfix.Text.Trim.{string_duplicate}

duplicate_room :
    (s : Option Bytes) (h : Heap)
    → has_room h.plan ≡ true
    → ((string_duplicate s h).0 ≡ s)
      × ((string_duplicate s h).1.live ≡ h.live + block s)
      × (has_room (string_duplicate s h).1.plan ≡ true)
unfolding string_duplicate
duplicate_room none h room = (refl, omega arith, room)
duplicate_room (some s) h room =
    let (got, live, room1) = malloc_room h room in rw got (refl, live, room1)

-- The blocks of the four settings.
abbrev settings : SwitchInfo → ℕ
settings i = block i.name + block i.host + block i.login + block i.password

abbrev info_of : Globals → SwitchInfo
info_of g = record {
  name = g.switch_name;
  host = g.switch_api_host;
  login = g.switch_api_login;
  password = g.switch_api_password;
}

get_room :
    (file : Option Bytes) (g : Globals) (h : Heap)
    → has_room h.plan ≡ true
    → ((config_switch_info_get file true g h).0.1 ≡ some (info_of g))
      × ((config_switch_info_get file true g h).1.live ≡ h.live + 1 + settings (info_of g))
      × (has_room (config_switch_info_get file true g h).1.plan ≡ true)
unfolding config_switch_info_get config_init
get_room file g h room =
    let (got, live, room0) = malloc_room h room in
    let h0 = (malloc h).1 in
    let (e1, live1, room1) = duplicate_room g.switch_name h0 room0 in
    let h1 = (string_duplicate g.switch_name h0).1 in
    let (e2, live2, room2) = duplicate_room g.switch_api_host h1 room1 in
    let h2 = (string_duplicate g.switch_api_host h1).1 in
    let (e3, live3, room3) = duplicate_room g.switch_api_login h2 room2 in
    let h3 = (string_duplicate g.switch_api_login h2).1 in
    let (e4, live4, room4) = duplicate_room g.switch_api_password h3 room3 in
    rw got
      (rw e1 (rw e2 (rw e3 (rw e4 (refl, omega (arith, live, live1, live2, live3, live4), room4)))))

free_room :
    (s : Option Bytes) (h : Heap)
    → ((free_string s h).1.live ≡ h.live - block s) × ((free_string s h).1.plan ≡ h.plan)
unfolding free
free_room none h = (omega arith, refl)
free_room (some s) h = (omega arith, refl)

free_info :
    (i : SwitchInfo) (h : Heap)
    → ((config_switch_info_free (some i) h).1.live ≡ h.live - settings i)
      × ((config_switch_info_free (some i) h).1.plan ≡ h.plan)
unfolding config_switch_info_free
free_info i h =
    let (l1, p1) = free_room i.name h in
    let h1 = (free_string i.name h).1 in
    let (l2, p2) = free_room i.host h1 in
    let h2 = (free_string i.host h1).1 in
    let (l3, p3) = free_room i.login h2 in
    let h3 = (free_string i.login h2).1 in
    let (l4, p4) = free_room i.password h3 in (omega (arith, l1, l2, l3, l4), p4 ∙ p3 ∙ p2 ∙ p1)

module _ {W V : Type 0} where
  -- The list of the records and the settings of the switch are given back.
  unfoldable pub settle :
      SwitchInfo
      → ℕ
      → Records
      → V
      → Option (List Target) × World W
      → Option (List Target) × (V × World W)
  settle i n r v (none, w) = (none, (v, w))
  settle i n r v (some ts, w) =
      let w3 = (on_heap (data_list_free n r.list r.store) w).1 in
      (some ts, (v, (on_heap (config_switch_info_free (some i)) w3).1))

  settle-KeepsAll :
      (n : ℕ) (i : SwitchInfo) (k : ℕ) (r : Records) (v : V) (out : Option (List Target) × World W)
      → KeepsAll (n + settings i) (release k r out)
      → KeepsAll n ((settle i k r v out).0, (settle i k r v out).1.1)
  unfolding settle release
  settle-KeepsAll n i k r v (none, w) o = tt
  settle-KeepsAll n i k r v (some ts, w) o =
      let w3 = (on_heap (data_list_free k r.list r.store) w).1 in
      let (live, plan) = free_info i w3.heap in (ap has_room plan ∙ o.0, omega (arith, live, o.1))

module _ {W V : Type 0} (fb : ℕ → Fixbuf W) (mktime : Tm → ℤ) (clock : Clock) (nvc : Nvc V) where
  pub nvc_settle :
      (i : SwitchInfo) (ts : List Target) (start end : Datetime) (within : ℤ) (empty : Records)
      (v : V) (w : World W)
      → main_export_nvc fb mktime clock nvc (some i) ts start end within empty v w ≡ (
          let (r, (v1, h)) =
            import_nvc clock nvc i.host i.login i.password within empty (v, w.heap) in
          settle i r.next r v1
            (main_export fb mktime ts (listed r.next r) start end (record w { heap = h })))
  unfolding main_export_nvc settle
  nvc_settle i ts start end within empty v w = ground arith

  nvc-KeepsAll :
      (i : SwitchInfo) (ts : List Target) (start end : Datetime) (within : ℤ) (σ : Store DataRecord)
      (a n : ℕ) (v : V) (w : World W)
      → has_room w.heap.plan ≡ true
      → w.heap.live ≡ n + settings i + 2 * sessions ts
      → let out =
          main_export_nvc fb mktime clock nvc
            (some i)
            ts
            start
            end
            within
            (record { list = none; store = σ; next = a })
            v
            w in
        KeepsAll n (out.0, out.1.1)
  nvc-KeepsAll i ts start end within σ a n v w room live =
      let empty : Records = record { list = none; store = σ; next = a } in
      let (r, (v1, h)) = import_nvc clock nvc i.host i.login i.password within empty (v, w.heap) in
      let w1 : World W = record w { heap = h } in
      let got =
        import_nvc-Owns clock nvc (has_room w.heap.plan) i.host i.login i.password within
          w.heap.live empty v w.heap (empty_Owns σ a w.heap) in
      subst (λ (out : Option (List Target) × (V × World W)). KeepsAll n (out.0, out.1.1))
        (sym (nvc_settle i ts start end within empty v w))
        (settle-KeepsAll n i r.next r v1 (main_export fb mktime ts (listed r.next r) start end w1) (
          export_read-KeepsAll fb mktime (has_room w.heap.plan) (n + settings i) r ts start end w1
            room (subst (λ b. Owns (has_room w.heap.plan) b r h) live got)))

  -- The settings of the switch are copied, from a configuration that was read before, and
  -- `nvipfix_main_export_nvc` is run, on a heap where no call of `malloc` is refused: unless an export used a
  -- freed block, one block more is live in the end, beside two for each open session, whatever the
  -- library of the switch and libfixbuf answer.
  pub main_export_nvc-KeepsAll :
      (file : Option Bytes) (g : Globals) (ts : List Target) (start end : Datetime) (within : ℤ)
      (σ : Store DataRecord) (a n : ℕ) (v : V) (w : World W)
      → has_room w.heap.plan ≡ true
      → w.heap.live ≡ n + 2 * sessions ts
      → let (info, w1) = on_heap (config_switch_info_get file true g) w in
        let out =
          main_export_nvc fb mktime clock nvc info.1 ts start end within
            (record { list = none; store = σ; next = a })
            v
            w1 in
        KeepsAll (n + 1) (out.0, out.1.1)
  main_export_nvc-KeepsAll file g ts start end within σ a n v w room live =
      let (got, taken, room1) = get_room file g w.heap room in
      let w1 = (on_heap (config_switch_info_get file true g) w).1 in
      rw got (
        nvc-KeepsAll (info_of g) ts start end within σ a (n + 1) v w1 room1
          (omega (arith, taken, live)))
