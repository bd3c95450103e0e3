-- ===== src/Main/Sessions.antt =====
-- The memory of the collectors over any number of exports, until the program ends: src/main.c, lines 30-54,
-- and `nvipfix_export_cleanup` of src/export.c.
use ipfix.Common.{
  ℕ, suc, ◌+◌, ◌*◌, Bool, true, false, List, [], ◌∷◌, Option, none, some, ◌≡◌, ap, ◌∙◌, arith,
  if◌then◌else◌,
}
use ipfix.Common.Int.{ℤ}
use ipfix.Config.{Transport}
use ipfix.Data.{DataRecord}
use ipfix.Date.{Datetime}
use ipfix.Export.{Fixbuf, Tm}
use ipfix.Export.Frames.{Frames}
use ipfix.Export.Outcome.{open_session-Frames, frame}
use ipfix.Export.Session.{
  Slot, null, dangling, held, Code, Private, World, Result, ok, failed, export_init, open_session,
  export_records, finish_export, finish_open, drop_private, export_with, nvipfix_export,
}
use ipfix.Heap.{Heap, has_room, malloc, malloc_live, free}
use ipfix.Main.{Target, go_on, export_collectors, main_export}
use ipfix.Text.{Bytes}

-- An allocation with room to spare.
pub malloc_room :
    (h : Heap)
    → has_room h.plan ≡ true
    → ((malloc h).0 ≡ true) × ((malloc h).1.live ≡ h.live + 1) × (has_room (malloc h).1.plan ≡ true)
malloc_room h room = ground (arith, malloc_live h)

-- One for an open session.
abbrev pub open_at : Slot → ℕ
open_at null = 0
open_at dangling = 0
open_at (held p) = 1

-- The open sessions of the collectors.
abbrev pub sessions : List Target → ℕ
sessions [] = 0
sessions (t ∷ ts) = open_at t.ctx + sessions ts

module _ {W : Type 0} where
  -- `malloc` refuses no call, and beside `n` blocks there are two for each of `k` sessions.
  abbrev pub Owns : ℕ → ℕ → World W → Type 0
  Owns n k w = (has_room w.heap.plan ≡ true) × (w.heap.live ≡ n + 2 * k)

  -- What an export leaves, unless it used a freed block.
  Keeps : ℕ → Option (Code × Slot) × World W → Type 0
  Keeps n (none, w) = Unit
  Keeps n (some (c, slot), w) = Owns n (open_at slot) w

  if-Keeps :
      (n : ℕ) (b : Bool) (x y : Option (Code × Slot) × World W)
      → Keeps n x
      → Keeps n y
      → Keeps n (if b then x else y)
  if-Keeps n true x y p q = p
  if-Keeps n false x y p q = q

  heap-Owns : (n k : ℕ) (v w : World W) → v.heap ≡ w.heap → Owns n k w → Owns n k v
  heap-Owns n k v w e o =
      (ap (λ (h : Heap). has_room h.plan) e ∙ o.0, ap (λ (h : Heap). h.live) e ∙ o.1)

module _ {W : Type 0} (fb : Fixbuf W) (mktime : Tm → ℤ) (host port : Option Bytes) (t : Transport)
    (rs : List DataRecord) (start end : Datetime) where
  finish-Keeps :
      (n : ℕ) (r : Result Private × World W)
      → Owns n 1 r.1
      → Keeps n (some (finish_export fb mktime r).0, (finish_export fb mktime r).1)
  unfolding finish_export drop_private free Keeps
  finish-Keeps n (ok p, w) o = o
  finish-Keeps n (failed c, w) o = (o.0, omega (arith, o.1))

  finish_open-Keeps :
      (n : ℕ) (r : Result Private × World W)
      → Owns n 1 r.1
      → Keeps n
          (some (finish_open fb mktime rs start end r).0, (finish_open fb mktime rs start end r).1)
  unfolding finish_open drop_private free
  finish_open-Keeps n (ok p, w) o = finish-Keeps n (export_records fb mktime rs start end p w) (
      heap-Owns n 1 (export_records fb mktime rs start end p w).1 w
        (frame fb mktime rs start end p w).0 o)
  finish_open-Keeps n (failed c, w) o = unfold Keeps in (o.0, omega (arith, o.1))

  opened-Owns :
      (n : ℕ) (w : World W) → Owns n 1 w → Owns n 1 (open_session fb mktime host port t w).1
  unfolding Frames
  opened-Owns n w o =
      heap-Owns n 1 (open_session fb mktime host port t w).1 w
        (open_session-Frames fb mktime host port t w).0 o

  export_with-Keeps :
      (slot : Slot) (n : ℕ) (w : World W)
      → Owns n (open_at slot) w
      → Keeps n (export_with fb mktime host port t rs start end slot w)
  unfolding export_with
  export_with-Keeps dangling n w o = unfold Keeps in tt
  export_with-Keeps (held p) n w o = finish-Keeps n (export_records fb mktime rs start end p w) (
      heap-Owns n 1 (export_records fb mktime rs start end p w).1 w
        (frame fb mktime rs start end p w).0 o)
  export_with-Keeps null n w o =
      let (got, live, room) = malloc_room w.heap o.0 in
      let (got', live', room') = malloc_room (malloc w.heap).1 room in
      let w2 : World W = record w { heap = (malloc (malloc w.heap).1).1 } in
      rw (got, got')
        (finish_open-Keeps n (open_session fb mktime host port t w2)
          (opened-Owns n w2 (room', omega (arith, o.1, live, live'))))

  init_heap : (w : World W) → (export_init fb mktime w).1.heap ≡ w.heap
  unfolding export_init
  init_heap w = ground arith

  export-Keeps :
      (slot : Slot) (n : ℕ) (w : World W)
      → Owns n (open_at slot) w
      → Keeps n (nvipfix_export fb mktime host port t rs start end slot w)
  unfolding nvipfix_export
  export-Keeps slot n w o =
      let kept = heap-Owns n (open_at slot) (export_init fb mktime w).1 w (init_heap w) o in
      if-Keeps n (export_init fb mktime w).0 _ _
        (export_with-Keeps slot n (export_init fb mktime w).1 kept) (unfold Keeps in kept)

-- What a round of exports leaves.
abbrev pub KeepsAll : {W : Type 0} → ℕ → Option (List Target) × World W → Type 0
KeepsAll n (none, w) = Unit
KeepsAll n (some ts, w) = Owns n (sessions ts) w

module _ {W : Type 0} (fb : ℕ → Fixbuf W) (mktime : Tm → ℤ) where
  go_on-KeepsAll :
      (n : ℕ) (t : Target) (c : Code) (slot : Slot) (w : World W)
      (more : Option (List Target) × World W)
      → KeepsAll (n + 2 * open_at slot) more
      → KeepsAll n (go_on t (some (c, slot)) w more)
  unfolding go_on
  go_on-KeepsAll n t c slot w (none, w') k = tt
  go_on-KeepsAll n t c slot w (some ts, w') k = (k.0, omega (arith, k.1))

  -- one collector, and then those behind it
  step-KeepsAll :
      (n k : ℕ) (t : Target) (out : Option (Code × Slot) × World W)
      (rest : World W → Option (List Target) × World W)
      → Keeps (n + 2 * k) out
      → ((m : ℕ) (v : World W) → Owns m k v → KeepsAll m (rest v))
      → KeepsAll n (go_on t out.0 out.1 (rest out.1))
  unfolding Keeps
  step-KeepsAll n k t (none, w) rest o more = unfold go_on in tt
  step-KeepsAll n k t (some (c, slot), w) rest o more =
      go_on-KeepsAll n t c slot w (rest w) (more (n + 2 * open_at slot) w (o.0, omega (arith, o.1)))

  collectors-KeepsAll :
      (i : ℕ) (ts : List Target) (rs : List DataRecord) (start end : Datetime) (n : ℕ) (w : World W)
      → Owns n (sessions ts) w
      → KeepsAll n (export_collectors fb mktime i ts rs start end w)
  unfolding export_collectors
  collectors-KeepsAll i [] rs start end n w o = o
  collectors-KeepsAll i (t ∷ ts) rs start end n w o =
      let out =
        nvipfix_export (fb i) mktime t.info.host t.info.port t.info.transport rs start end t.ctx
          w in
      step-KeepsAll n (sessions ts) t out (export_collectors fb mktime (suc i) ts rs start end)
        (export-Keeps (fb i) mktime t.info.host t.info.port t.info.transport rs start end t.ctx
          (n + 2 * sessions ts) w (o.0, omega (arith, o.1)))
        (collectors-KeepsAll (suc i) ts rs start end)

  pub main_export-KeepsAll :
      (data_records : Option (List DataRecord)) (ts : List Target) (start end : Datetime) (n : ℕ)
      (w : World W)
      → Owns n (sessions ts) w
      → KeepsAll n (main_export fb mktime ts data_records start end w)
  unfolding main_export
  main_export-KeepsAll none ts start end n w o = o
  main_export-KeepsAll (some rs) ts start end n w o = collectors-KeepsAll 0 ts rs start end n w o
