-- ===== src/Main/Closing.antt =====
-- Rounds of exports, and the cleanup at the end of the program: src/main.c, and lines 167-191 of
-- src/export.c.
use ipfix.Common.{
  ℕ, suc, ◌+◌, ◌*◌, Bool, true, false, List, [], ◌∷◌, Option, none, some, ◌≡◌, ◌⊎◌, inl, inr, refl,
  ◌∙◌, arith, if◌then◌else◌, ◌||◌,
}
use ipfix.Common.Int.{ℤ}
use ipfix.Data.{DataRecord}
use ipfix.Date.{Datetime}
use ipfix.Export.{Fixbuf, Tm}
use ipfix.Export.Session.{Slot, null, dangling, held, World, on_heap}
use ipfix.Heap.{has_room, free}
use mathlib.Core.Option
use mathlib.Core.Path.{subst}
use ipfix.Main.{Target, main_export, cleanup_private, cleanup_collectors, export_cleanup}
use ipfix.Main.Rounds.{is_dangling, any_dangling}
use ipfix.Main.Sessions.{open_at, sessions, Owns, KeepsAll, main_export-KeepsAll}

-- One round of exports: the data and its window.
pub record Round : Type 0 where
  pub records : Option (List DataRecord)
  pub start : Datetime
  pub end : Datetime

-- No collector has private data.
abbrev pub AllNull : List Target → Type 0
AllNull [] = Unit
AllNull (t ∷ ts) = (t.ctx ≡ null) × AllNull ts

pub sessions-null : (ts : List Target) → AllNull ts → sessions ts ≡ 0
sessions-null [] a = refl
sessions-null (t ∷ ts) a = rw a.0 (omega (arith, sessions-null ts a.1))

module _ {W : Type 0} (fb : ℕ → Fixbuf W) (mktime : Tm → ℤ) where
  abbrev next_rounds :
      (List Target → World W → Option (List Target) × World W)
      → Option (List Target) × World W
      → Option (List Target) × World W
  next_rounds k (none, w) = (none, w)
  next_rounds k (some ts, w) = k ts w

  -- Exports one after another, each with the collectors that the one before left.
  unfoldable pub export_rounds : List Round → List Target → World W → Option (List Target) × World W
  export_rounds [] ts w = (some ts, w)
  export_rounds (r ∷ rs) ts w =
      next_rounds (export_rounds rs) (main_export fb mktime ts r.records r.start r.end w)

  next-KeepsAll :
      (n : ℕ) (k : List Target → World W → Option (List Target) × World W)
      (out : Option (List Target) × World W)
      → ((ts : List Target) (v : World W) → Owns n (sessions ts) v → KeepsAll n (k ts v))
      → KeepsAll n out
      → KeepsAll n (next_rounds k out)
  next-KeepsAll n k (none, w) more o = tt
  next-KeepsAll n k (some ts, w) more o = more ts w o

  rounds-KeepsAll :
      (rs : List Round) (n : ℕ) (ts : List Target) (w : World W)
      → Owns n (sessions ts) w
      → KeepsAll n (export_rounds rs ts w)
  unfolding export_rounds
  rounds-KeepsAll [] n ts w o = o
  rounds-KeepsAll (r ∷ rs) n ts w o =
      next-KeepsAll n (export_rounds rs) (main_export fb mktime ts r.records r.start r.end w)
        (rounds-KeepsAll rs n) (main_export-KeepsAll fb mktime r.records ts r.start r.end n w o)

  -- The cleanup uses a freed block, or it leaves one block for each open session.
  Closes : Bool → ℕ → Option (World W) → Type 0
  Closes used n none = used ≡ true
  Closes used n (some w) = (used ≡ false) × (w.heap.live ≡ n)

  Closes-eq :
      (used : Bool) {m n : ℕ} (out : Option (World W))
      → m ≡ n
      → Closes used m out
      → Closes used n out
  Closes-eq used out e c = subst (λ (k : ℕ). Closes used k out) e c

  cleanup_slot :
      (i : ℕ) (slot : Slot) (ts : List Target) (n : ℕ) (w : World W)
      → w.heap.live ≡ n + 2 * (open_at slot + sessions ts)
      → ((v : World W) (m : ℕ)
          → v.heap.live ≡ m + 2 * sessions ts
          → Closes (any_dangling ts) (m + sessions ts) (cleanup_collectors fb mktime (suc i) ts v))
      → Closes
          (is_dangling slot || any_dangling ts)
          (n + (open_at slot + sessions ts))
          (elim (cleanup_private fb mktime i slot w) as (λ _. Option (World W)) [
            | none ↦ none
            | some v ↦ cleanup_collectors fb mktime (suc i) ts v
          ])
  unfolding cleanup_private free
  cleanup_slot i null ts n w o more =
      Closes-eq (any_dangling ts) _ (omega arith) (more w n (omega (arith, o)))
  cleanup_slot i dangling ts n w o more = unfold Closes in refl
  cleanup_slot i (held p) ts n w o more =
      let v = (on_heap (free 1) (record w { fixbuf = (fb i).buf_free w.fixbuf })).1 in
      Closes-eq (any_dangling ts) _ (omega arith) (more v (n + 1) (omega (arith, o)))

  cleanup-Closes :
      (i : ℕ) (ts : List Target) (n : ℕ) (w : World W)
      → w.heap.live ≡ n + 2 * sessions ts
      → Closes (any_dangling ts) (n + sessions ts) (cleanup_collectors fb mktime i ts w)
  unfolding cleanup_collectors
  cleanup-Closes i [] n w o = unfold Closes in (refl, omega (arith, o))
  cleanup-Closes i (t ∷ ts) n w o =
      cleanup_slot i t.ctx ts n w o (λ v m e. cleanup-Closes (suc i) ts m v e)

  if_heap :
      (f : W → W) (w : World W)
      → (if w.is_initialized then record w { fixbuf = f w.fixbuf } else w).heap.live ≡ w.heap.live
  if_heap f w = ground arith

  map-Closes :
      (used : Bool) (n : ℕ) (f : W → W) (out : Option (World W))
      → Closes used n out
      → Closes used n (
          Option.map
            (λ (v : World W). if v.is_initialized then record v { fixbuf = f v.fixbuf } else v)
            out)
  unfolding Closes
  map-Closes used n f none c = c
  map-Closes used n f (some w) c = (c.0, if_heap f w ∙ c.1)

  closed-eq :
      (used : Bool) (n : ℕ) (out : Option (World W))
      → Closes used n out
      → ((used ≡ true) × (out ≡ none))
        ⊎ ((used ≡ false) × ((w : World W) × (out ≡ some w) × (w.heap.live ≡ n)))
  unfolding Closes
  closed-eq used n none c = inl (c, refl)
  closed-eq used n (some w) c = inr (c.0, (w, refl, c.1))

  -- The cleanup, where two blocks beside `n` are live for each open session.
  pub export_cleanup-sessions :
      (info_model_free : W → W) (ts : List Target) (n : ℕ) (w : World W)
      → w.heap.live ≡ n + 2 * sessions ts
      → ((any_dangling ts ≡ true) × (export_cleanup fb mktime info_model_free ts w ≡ none))
        ⊎ ((any_dangling ts ≡ false)
            × ((v : World W) × (export_cleanup fb mktime info_model_free ts w ≡ some v)
                × (v.heap.live ≡ n + sessions ts)))
  unfolding export_cleanup
  export_cleanup-sessions info_model_free ts n w live =
      closed-eq (any_dangling ts) (n + sessions ts) _ (
        map-Closes (any_dangling ts) (n + sessions ts) info_model_free
          (cleanup_collectors fb mktime 0 ts w) (cleanup-Closes 0 ts n w live))

  -- From collectors without private data, on a heap that refuses nothing, after any number of exports that used no
  -- freed block: two blocks are kept for each open session. The cleanup at the end of the program then uses a
  -- freed block, if the private data of some collector was freed; else it leaves one block for each
  -- session.
  pub export_rounds-cleanup :
      (rs : List Round) (ts ts' : List Target) (w w' : World W) (info_model_free : W → W)
      → AllNull ts
      → has_room w.heap.plan ≡ true
      → export_rounds rs ts w ≡ (some ts', w')
      → (w'.heap.live ≡ w.heap.live + 2 * sessions ts')
        × (((any_dangling ts' ≡ true) × (export_cleanup fb mktime info_model_free ts' w' ≡ none))
            ⊎ ((any_dangling ts' ≡ false)
                × ((v : World W) × (export_cleanup fb mktime info_model_free ts' w' ≡ some v)
                    × (v.heap.live ≡ w.heap.live + sessions ts'))))
  export_rounds-cleanup rs ts ts' w w' info_model_free a room e =
      let start : Owns w.heap.live (sessions ts) w = (room, omega (arith, sessions-null ts a)) in
      let kept =
        subst (λ (out : Option (List Target) × World W). KeepsAll w.heap.live out) e
          (rounds-KeepsAll rs w.heap.live ts w start) in
      (kept.1, export_cleanup-sessions info_model_free ts' w.heap.live w' kept.1)
