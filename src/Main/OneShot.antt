-- ===== src/Main/OneShot.antt =====
-- The export of one file, from the file to the collectors: src/main.c, lines 56-64, with src/import.c and
-- src/data.c behind it.
use mathlib.Core.Path.{subst}
use ipfix.Common.{
  ◌⊎◌, ℕ, zero, suc, ◌+◌, ◌-◌, ◌*◌, ◌≤◌, ◌<◌, ◌≢◌, Bool, true, List, [], ◌∷◌, Option, none, some,
  ◌≡◌, inl, inr, refl, ap, ◌∙◌, arith, length, All,
}
use ipfix.Common.Int.{ℤ}
use ipfix.Data.{DataRecord, RecordList, Store, free_records, data_list_free}
use ipfix.Data.Chain.{Chain, Holds, data_list_free_live}
use ipfix.Date.{Datetime}
use ipfix.Export.{Fixbuf, Tm}
use ipfix.Export.Session.{World, on_heap}
use ipfix.Heap.{Heap, has_room, free}
use ipfix.Import.Listing.{Lists, values}
use ipfix.Import.Memory.{import_stream-OwnsAll}
use ipfix.Import.Reader.{Records, import_file, import_stream}
use ipfix.Import.Records.{Items, IsDataFile, records_of, import_stream-Lists}
use ipfix.Import.Result.{Owns, blocks}
use ipfix.Main.{Target, walk, listed, main_export, main_export_file}
use ipfix.Main.Sessions.{KeepsAll, sessions, main_export-KeepsAll}
use ipfix.Text.{Bytes}

free_records_plan :
    (σ : Store DataRecord) (fuel : ℕ) (p : Option ℕ) (h : Heap)
    → (free_records fuel p σ h).1.plan ≡ h.plan
unfolding free_records free
free_records_plan σ zero p h = refl
free_records_plan σ (suc fuel) none h = refl
free_records_plan σ (suc fuel) (some a) h = free_records_plan σ fuel (σ a).next _

data_list_free_plan :
    (σ : Store DataRecord) (fuel : ℕ) (l : Option RecordList) (h : Heap)
    → (data_list_free fuel l σ h).1.plan ≡ h.plan
unfolding data_list_free free
data_list_free_plan σ fuel none h = refl
data_list_free_plan σ fuel (some l) h = free_records_plan σ fuel (some l.head) h

-- A list is given back whole, NULL included.
data_list_free-blocks :
    (σ : Store DataRecord) (l : Option RecordList) (bs : List ℕ) (fuel : ℕ) (h : Heap)
    → Holds σ l bs
    → length bs ≤ fuel
    → (data_list_free fuel l σ h).1.live ≡ h.live - blocks (length bs)
data_list_free-blocks σ none [] fuel h c f = unfold data_list_free in omega arith
data_list_free-blocks σ none (a ∷ bs) fuel h c f = elim c [ ]
data_list_free-blocks σ (some l) [] fuel h c f = elim c [ ]
data_list_free-blocks σ (some l) (a ∷ bs) fuel h c f =
    omega (arith, data_list_free_live σ l (a ∷ bs) fuel h c f)

walk-none : (fuel : ℕ) (σ : Store DataRecord) → walk fuel none σ ≡ []
unfolding walk
walk-none zero σ = refl
walk-none (suc fuel) σ = refl

walk-Chain :
    (σ : Store DataRecord) (p : Option ℕ) (a : ℕ) (bs : List ℕ) (t fuel : ℕ)
    → Chain σ p a bs t
    → suc (length bs) ≤ fuel
    → walk fuel (some a) σ ≡ values σ (a ∷ bs)
unfolding walk
walk-Chain σ p a [] t zero c f = elim f [ ]
walk-Chain σ p a (b ∷ bs) t zero c f = elim f [ ]
walk-Chain σ p a [] t (suc fuel) c f = rw c.1 (ap (◌∷◌ ((σ a).value)) (walk-none fuel σ))
walk-Chain σ p a (b ∷ bs) t (suc fuel) c f =
    rw c.1 (ap (◌∷◌ ((σ a).value)) (walk-Chain σ (some a) b bs t fuel c.3 (omega arith)))

-- NULL for no records.
abbrev pub or_null : List DataRecord → Option (List DataRecord)
or_null [] = none
or_null (d ∷ ds) = some (d ∷ ds)

listed-values :
    (σ : Store DataRecord) (l : Option RecordList) (n : ℕ) (bs : List ℕ)
    → Holds σ l bs
    → length bs ≤ n
    → listed n (record { list = l; store = σ; next = n }) ≡ or_null (values σ bs)
unfolding listed
listed-values σ none n [] c f = refl
listed-values σ none n (a ∷ bs) c f = elim c [ ]
listed-values σ (some l) n [] c f = elim c [ ]
listed-values σ (some l) n (a ∷ bs) c f = rw c.0 (ap some (walk-Chain σ none a bs l.tail n c.1 f))

-- A list of some records gives the exporter these records.
pub listed-Lists : (ds : List DataRecord) (r : Records) → Lists ds r → listed r.next r ≡ or_null ds
listed-Lists ds r k =
    listed-values r.store r.list r.next k.addresses k.holds k.few ∙ ap or_null k.contents

module _ {W : Type 0} where
  -- What is left when the list is given back.
  unfoldable pub release :
      ℕ → Records → Option (List Target) × World W → Option (List Target) × World W
  release n r (none, w) = (none, w)
  release n r (some ts, w) = (some ts, (on_heap (data_list_free n r.list r.store) w).1)

  pub release-KeepsAll :
      (n : ℕ) (r : Records) (bs : List ℕ) (out : Option (List Target) × World W)
      → Holds r.store r.list bs
      → length bs ≤ r.next
      → KeepsAll (n + blocks (length bs)) out
      → KeepsAll n (release r.next r out)
  unfolding release
  release-KeepsAll n r bs (none, w) c f k = tt
  release-KeepsAll n r bs (some ts, w) c f k = (
    ap has_room (data_list_free_plan r.store r.next r.list w.heap) ∙ k.0,
    omega (arith, data_list_free-blocks r.store r.list bs r.next w.heap c f, k.1),
  )

  release_same :
      (n : ℕ) (r : Records) (out : Option (List Target) × World W)
      → ((release n r out).0 ≡ out.0) × ((release n r out).1.fixbuf ≡ out.1.fixbuf)
  unfolding release
  release_same n r (none, w) = (refl, refl)
  release_same n r (some ts, w) = (refl, refl)

module _ {W : Type 0} (fb : ℕ → Fixbuf W) (mktime : Tm → ℤ) where
  -- The export of what was read, unless the import read past the end of its block.
  unfoldable pub file_rest :
      List Target → Datetime → Datetime → Option Records × World W → Option (List Target) × World W
  file_rest ts start end (none, w) = (none, w)
  file_rest ts start end (some r, w) =
      release r.next r (main_export fb mktime ts (listed r.next r) start end w)

  pub file_release :
      (fresh : ℕ → ℕ) (file : Option Bytes) (ts : List Target) (start end : Datetime)
      (empty : Records) (w : World W)
      → main_export_file fb mktime fresh file ts start end empty w
        ≡ file_rest ts start end (on_heap (import_stream fresh file empty) w)
  unfolding main_export_file file_rest release import_file import_stream
  file_release fresh none ts start end empty w = ground arith
  file_release fresh (some file) ts start end empty w = ground arith

  pub export_read-KeepsAll :
      (full : Bool) (n : ℕ) (r : Records) (ts : List Target) (start end : Datetime) (w : World W)
      → full ≡ true
      → Owns full (n + 2 * sessions ts) r w.heap
      → KeepsAll n (release r.next r (main_export fb mktime ts (listed r.next r) start end w))
  export_read-KeepsAll full n r ts start end w all o =
      release-KeepsAll n r o.addresses (main_export fb mktime ts (listed r.next r) start end w)
        o.holds o.few
        (main_export-KeepsAll fb mktime (listed r.next r) ts start end
          (n + blocks (length o.addresses)) w
          (elim o.exact [ inl f ↦ cc | inr (room, live) ↦ (room, omega (arith, live)) ]))

  rest-KeepsAll :
      (n : ℕ) (ts : List Target) (start end : Datetime) (out : Option Records × World W)
      (full : Bool)
      → full ≡ true
      → (out.0 ≡ none)
        ⊎ ((r : Records) × (out.0 ≡ some r) × Owns full (n + 2 * sessions ts) r out.1.heap)
      → KeepsAll n (file_rest ts start end out)
  unfolding file_rest
  rest-KeepsAll n ts start end (none, w) full all o = tt
  rest-KeepsAll n ts start end (some r, w) full all (inl e) = absurd (cc)
  rest-KeepsAll n ts start end (some r, w) full all (inr (s, e, o)) =
      export_read-KeepsAll full n r ts start end w all
        (subst (λ x. Owns full (n + 2 * sessions ts) x w.heap) (let same : s ≡ r = cc in same) o)

  -- `nvipfix_main_export_file` for every file, NULL included, on a heap where no call of `malloc` is refused:
  -- when `n` blocks and two for each open session of the collectors are live before, then after the export
  -- `n` blocks and two for each session that is then open are live, unless an export used a freed block:
  -- the buffer, the tokens and the list of the records are all given back.
  pub main_export_file-KeepsAll :
      (fresh : ℕ → ℕ) (file : Option Bytes) (ts : List Target) (start end : Datetime)
      (σ : Store DataRecord) (a n : ℕ) (w : World W)
      → has_room w.heap.plan ≡ true
      → w.heap.live ≡ n + 2 * sessions ts
      → KeepsAll n (
          main_export_file fb mktime fresh file ts start end
            (record { list = none; store = σ; next = a })
            w)
  main_export_file-KeepsAll fresh file ts start end σ a n w room live =
      let empty : Records = record { list = none; store = σ; next = a } in
      rw (file_release fresh file ts start end empty w) (
        rest-KeepsAll n ts start end (on_heap (import_stream fresh file empty) w)
          (has_room w.heap.plan) room
          (elim (import_stream-OwnsAll fresh file σ a w.heap) [
            | inl (fault, _) ↦ inl fault
            | inr (r, got, owns, _) ↦ inr (
              r,
              got,
              subst (λ b. Owns (has_room w.heap.plan) b r (import_stream fresh file empty w.heap).1)
                  live owns,
            )
          ]))

  -- A file of less than 65536 bytes, with a NUL behind it in the memory that it is read to, that is the text of
  -- some records, at least one, on a heap where no call of `malloc` is refused:
  -- `nvipfix_main_export_file` gives the collectors and the state of libfixbuf that
  -- `nvipfix_main_export` gives for exactly these records, in the order of the file, on the heap that the
  -- import leaves.
  pub main_export_file-main_export :
      (fresh : ℕ → ℕ) (file : Bytes) (fs : Items) (fss : List Items) (ts : List Target)
      (start end : Datetime) (σ : Store DataRecord) (a : ℕ) (w : World W)
      → length file < 65536
      → fresh (length file) ≡ 0
      → All (λ c. c ≢ 0) file
      → IsDataFile file (fs ∷ fss)
      → has_room w.heap.plan ≡ true
      → ((main_export_file fb mktime fresh
            (some file)
            ts
            start
            end
            (record { list = none; store = σ; next = a })
            w).0
          ≡ (main_export fb mktime ts
              (some (records_of (fs ∷ fss)))
              start
              end
              (on_heap
                (import_stream fresh (some file) (record { list = none; store = σ; next = a }))
                w).1).0)
        × ((main_export_file fb mktime fresh
              (some file)
              ts
              start
              end
              (record { list = none; store = σ; next = a })
              w).1.fixbuf
            ≡ (main_export fb mktime ts
                (some (records_of (fs ∷ fss)))
                start
                end
                (on_heap
                  (import_stream fresh (some file) (record { list = none; store = σ; next = a }))
                  w).1).1.fixbuf)
  main_export_file-main_export fresh file fs fss ts start end σ a w short nul text d room =
      let empty : Records = record { list = none; store = σ; next = a } in
      let w1 = (on_heap (import_stream fresh (some file) empty) w).1 in
      let (r, got, lists) =
        import_stream-Lists fresh file (fs ∷ fss) σ a w.heap short nul text d room in
      let same = listed-Lists (records_of (fs ∷ fss)) r lists in
      rw (file_release fresh (some file) ts start end empty w) (
        rw got (
          unfold file_rest in
          rw same (
            release_same r.next r
              (main_export fb mktime ts (some (records_of (fs ∷ fss))) start end w1))))
