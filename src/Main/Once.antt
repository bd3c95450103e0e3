-- ===== src/Main/Once.antt =====
-- A run that exports one file and ends: src/main.c, lines 30-64, and `nvipfix_export_cleanup` of
-- src/export.c.
use ipfix.Common.{
  inl, inr, ℕ, suc, ◌+◌, ◌*◌, Bool, true, false, List, [], ◌∷◌, Option, none, some, ◌≡◌, ◌⊎◌, refl,
  arith, if◌then◌else◌,
}
use ipfix.Common.Int.{ℤ}
use ipfix.Config.{Transport}
use ipfix.Data.{DataRecord, Store}
use ipfix.Date.{Datetime}
use ipfix.Export.{Fixbuf, Tm}
use ipfix.Export.Session.{Code, Slot, null, World, on_heap, export_with, nvipfix_export}
use ipfix.Heap.{has_room}
use ipfix.Import.Memory.{Unended, import_stream-OwnsAll}
use ipfix.Import.Reader.{Records, import_stream}
use ipfix.Main.{
  Target, listed, go_on, export_collectors, main_export, main_export_file, export_cleanup,
}
use ipfix.Main.Closing.{AllNull, sessions-null, export_cleanup-sessions}
use ipfix.Main.OneShot.{release, file_rest, file_release, main_export_file-KeepsAll}
use ipfix.Main.Rounds.{any_dangling}
use ipfix.Main.Sessions.{KeepsAll, sessions}
use ipfix.Text.{Bytes}

-- A result that is not a use of a freed block.
Fine : {A W : Type 0} → Option A × World W → Type 0
Fine (none, w) = ⊥
Fine (some a, w) = Unit

some-Fine : {A W : Type 0} (a : A) (w : World W) → Fine (some a, w)
unfolding Fine
some-Fine a w = tt

if-Fine :
    {A W : Type 0} (b : Bool) (x y : Option A × World W)
    → Fine x
    → Fine y
    → Fine (if b then x else y)
if-Fine true x y p q = p
if-Fine false x y p q = q

-- Collectors without private data use none.
export-Fine :
    {W : Type 0} (fb : Fixbuf W) (mktime : Tm → ℤ) (host port : Option Bytes) (t : Transport)
    (rs : List DataRecord) (start end : Datetime) (w : World W)
    → Fine (nvipfix_export fb mktime host port t rs start end null w)
unfolding nvipfix_export export_with
export-Fine fb mktime host port t rs start end w = search (if-Fine, some-Fine)

next-Fine :
    {W : Type 0} (t : Target) (c : Code) (slot : Slot) (w : World W)
    (more : Option (List Target) × World W)
    → Fine more
    → Fine (go_on t (some (c, slot)) w more)
unfolding go_on Fine
next-Fine t c slot w (none, w') f = f
next-Fine t c slot w (some ts, w') f = tt

go_on-Fine :
    {W : Type 0} (t : Target) (out : Option (Code × Slot) × World W)
    (more : World W → Option (List Target) × World W)
    → Fine out
    → ((v : World W) → Fine (more v))
    → Fine (go_on t out.0 out.1 (more out.1))
unfolding Fine
go_on-Fine t (none, w) more f g = elim f [ ]
go_on-Fine t (some (c, slot), w) more f g = next-Fine t c slot w (more w) (g w)

module _ {W : Type 0} (fb : ℕ → Fixbuf W) (mktime : Tm → ℤ) where
  collectors-Fine :
      (i : ℕ) (ts : List Target) (rs : List DataRecord) (start end : Datetime) (w : World W)
      → AllNull ts
      → Fine (export_collectors fb mktime i ts rs start end w)
  unfolding export_collectors
  collectors-Fine i [] rs start end w a = unfold Fine in tt
  collectors-Fine i (t ∷ ts) rs start end w a =
      let out =
        nvipfix_export (fb i) mktime t.info.host t.info.port t.info.transport rs start end t.ctx
          w in
      go_on-Fine t out (export_collectors fb mktime (suc i) ts rs start end)
        (rw a.0 (export-Fine (fb i) mktime t.info.host t.info.port t.info.transport rs start end w))
        (λ v. collectors-Fine (suc i) ts rs start end v a.1)

  main_export-Fine :
      (records : Option (List DataRecord)) (ts : List Target) (start end : Datetime) (w : World W)
      → AllNull ts
      → Fine (main_export fb mktime ts records start end w)
  unfolding main_export
  main_export-Fine none ts start end w a = unfold Fine in tt
  main_export-Fine (some rs) ts start end w a = collectors-Fine 0 ts rs start end w a

  release-Fine :
      (n : ℕ) (r : Records) (out : Option (List Target) × World W)
      → Fine out
      → Fine (release n r out)
  unfolding release Fine
  release-Fine n r (none, w) f = f
  release-Fine n r (some ts, w) f = tt

  -- Where the file was read.
  rest-Fine :
      (ts : List Target) (start end : Datetime) (r : Records) (out : Option Records × World W)
      → AllNull ts
      → out.0 ≡ some r
      → Fine (file_rest fb mktime ts start end out)
  unfolding file_rest
  rest-Fine ts start end r (none, w) a e = absurd (cc)
  rest-Fine ts start end r (some s, w) a e =
      release-Fine s.next s (main_export fb mktime ts (listed s.next s) start end w)
        (main_export-Fine (listed s.next s) ts start end w a)

  rest-fault :
      (ts : List Target) (start end : Datetime) (out : Option Records × World W)
      → out.0 ≡ none
      → (file_rest fb mktime ts start end out).0 ≡ none
  unfolding file_rest
  rest-fault ts start end (none, w) e = refl
  rest-fault ts start end (some s, w) e = cc

  -- An import that came back, or one that went past the end of its block.
  file-Fine :
      (fresh : ℕ → ℕ) (file : Option Bytes) (ts : List Target) (start end : Datetime)
      (σ : Store DataRecord) (a : ℕ) (w : World W)
      → AllNull ts
      → let out =
          main_export_file fb mktime fresh file ts start end
            (record { list = none; store = σ; next = a })
            w in
        (Unended fresh file w.heap × (out.0 ≡ none)) ⊎ (¬ Unended fresh file w.heap × Fine out)
  file-Fine fresh file ts start end σ a w none_held =
      let empty : Records = record { list = none; store = σ; next = a } in
      let read = on_heap (import_stream fresh file empty) w in
      rw (file_release fb mktime fresh file ts start end empty w)
        (elim (import_stream-OwnsAll fresh file σ a w.heap) [
          | inl (fault, unended) ↦ inl (unended, rest-fault ts start end read fault)
          | inr (r, got, owns, ended) ↦ inr (ended, rest-Fine ts start end r read none_held got)
        ])

  -- What a run of one export leaves.
  Ends : (W → W) → ℕ → Option (List Target) × World W → Type 0
  Ends info_model_free n out =
      (ts : List Target) × (w : World W) × (out ≡ (some ts, w))
      × (w.heap.live ≡ n + 2 * sessions ts)
      × (((any_dangling ts ≡ true) × (export_cleanup fb mktime info_model_free ts w ≡ none))
          ⊎ ((any_dangling ts ≡ false)
              × ((v : World W) × (export_cleanup fb mktime info_model_free ts w ≡ some v)
                  × (v.heap.live ≡ n + sessions ts))))

  fine-Ends :
      (info_model_free : W → W) (n : ℕ) (out : Option (List Target) × World W)
      → Fine out
      → KeepsAll n out
      → Ends info_model_free n out
  unfolding Ends Fine
  fine-Ends info_model_free n (none, w) f k = elim f [ ]
  fine-Ends info_model_free n (some ts, w) f k =
      (ts, w, refl, k.1, export_cleanup-sessions fb mktime info_model_free ts n w k.1)

  -- From collectors without private data, on a heap where no call of `malloc` is refused, for every
  -- file, NULL included: where the file was read into a block without a NUL, and only there, the import reads past the
  -- end of the block. Else `nvipfix_main_export_file` uses no freed block, and gives back the buffer, the tokens and the
  -- list of the records, so that only two blocks for each open session are new. The cleanup at the end
  -- of the program then uses a freed block, if the private data of some collector was freed; else it
  -- leaves one new block for each session.
  pub main_export_file-cleanup :
      (fresh : ℕ → ℕ) (file : Option Bytes) (ts : List Target) (start end : Datetime)
      (σ : Store DataRecord) (a : ℕ) (w : World W) (info_model_free : W → W)
      → AllNull ts
      → has_room w.heap.plan ≡ true
      → let out =
          main_export_file fb mktime fresh file ts start end
            (record { list = none; store = σ; next = a })
            w in
        (Unended fresh file w.heap × (out.0 ≡ none))
        ⊎ (¬ Unended fresh file w.heap
            × (ts' : List Target) × (w' : World W) × (out ≡ (some ts', w'))
            × (w'.heap.live ≡ w.heap.live + 2 * sessions ts')
            × (((any_dangling ts' ≡ true)
                  × (export_cleanup fb mktime info_model_free ts' w' ≡ none))
                ⊎ ((any_dangling ts' ≡ false)
                    × ((v : World W) × (export_cleanup fb mktime info_model_free ts' w' ≡ some v)
                        × (v.heap.live ≡ w.heap.live + sessions ts')))))
  unfolding Ends
  main_export_file-cleanup fresh file ts start end σ a w info_model_free none_held room =
      let empty : Records = record { list = none; store = σ; next = a } in
      elim (file-Fine fresh file ts start end σ a w none_held) [
        | inl fault ↦ inl fault
        | inr (ended, fine) ↦
            let (ts', w', e, live, closed) =
              fine-Ends info_model_free w.heap.live
                (main_export_file fb mktime fresh file ts start end empty w) fine
                (main_export_file-KeepsAll fb mktime fresh file ts start end σ a w.heap.live w room
                  (omega (arith, sessions-null ts none_held))) in
            inr (ended, ts', w', e, live, closed)
      ]
