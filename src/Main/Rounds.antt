-- ===== src/Main/Rounds.antt =====
-- What one export to all collectors uses: src/main.c, lines 30-54.
use ipfix.Common.{
  ℕ, suc, Bool, true, false, List, [], ◌∷◌, Option, none, some, ◌≡◌, ◌≢◌, inl, inr, ◌↔◌, refl, sym,
  ap, ◌∙◌, ◌||◌, Bool-cases, if◌then◌else◌, not,
}
use ipfix.Common.Int.{ℤ}
use ipfix.Config.{Transport}
use ipfix.Data.{DataRecord}
use ipfix.Date.{Datetime}
use ipfix.Export.{Fixbuf, Tm}
use ipfix.Export.Frames.{Frames}
use ipfix.Export.Outcome.{export_ready, finish_ready, held_ready, open_session-Frames, frame}
use ipfix.Export.Session.{
  code_malloc, Slot, null, dangling, held, Code, Private, World, Result, ok, failed, on_heap,
  open_session, export_records, finish_open, drop_private, export_with, nvipfix_export,
}
use ipfix.Heap.{malloc, free}
use ipfix.Main.{Target, go_on, export_collectors, main_export}
use ipfix.Text.{Bytes}

abbrev pub is_dangling : Slot → Bool
is_dangling dangling = true
is_dangling null = false
is_dangling (held p) = false

-- Some collector points to private data that was freed.
abbrev pub any_dangling : List Target → Bool
any_dangling [] = false
any_dangling (t ∷ ts) = is_dangling t.ctx || any_dangling ts

module _ {W : Type 0} (fb : Fixbuf W) (mktime : Tm → ℤ) (host port : Option Bytes) (t : Transport)
    (rs : List DataRecord) (start end : Datetime) where
  open_ready :
      (w : World W) → (open_session fb mktime host port t w).1.is_initialized ≡ w.is_initialized
  unfolding Frames
  open_ready w = (open_session-Frames fb mktime host port t w).1

  finish_open_ready :
      (r : Result Private × World W)
      → (finish_open fb mktime rs start end r).1.is_initialized ≡ r.1.is_initialized
  unfolding finish_open drop_private free
  finish_open_ready (ok p, w) =
      finish_ready fb mktime (export_records fb mktime rs start end p w)
      ∙ (frame fb mktime rs start end p w).1
  finish_open_ready (failed c, w) = refl

  -- Whether `nvipfix_export` uses freed memory; libfixbuf stays initialised.
  Used : Slot → Option (Code × Slot) × World W → Type 0
  Used slot out =
      (is_dangling slot ≡ true → out.0 ≡ none)
      × (is_dangling slot ≡ false → out.0 ≢ none)
      × (out.1.is_initialized ≡ true)

  if-Used :
      (slot : Slot) (b : Bool) (x y : Option (Code × Slot) × World W)
      → Used slot x
      → Used slot y
      → Used slot (if b then x else y)
  if-Used slot true x y p q = p
  if-Used slot false x y p q = q

  null-Used : (r : Code × Slot) (w : World W) → w.is_initialized ≡ true → Used null (some r, w)
  unfolding Used
  null-Used r w e = ((λ h. cc), (λ h n. cc), e)

  first-Used :
      (w : World W)
      → w.is_initialized ≡ true
      → Used null (export_with fb mktime host port t rs start end null w)
  unfolding export_with
  first-Used w e =
      let (priv, w1) = on_heap malloc w in
      let (collector, w2) = on_heap malloc w1 in
      let opened = open_session fb mktime host port t w2 in
      let (r, w3) = finish_open fb mktime rs start end opened in
      if-Used null (not priv) _ _ (null-Used (code_malloc, null) w1 e) (
        if-Used null (not collector) _ _ (null-Used (code_malloc, null) w2 e)
          (null-Used r w3 (finish_open_ready opened ∙ open_ready w2 ∙ e)))

  held-some :
      (p : Private) (w : World W)
      → (export_with fb mktime host port t rs start end (held p) w).0 ≢ none
  unfolding export_with
  held-some p w = cc

  export-Used :
      (slot : Slot) (w : World W)
      → w.is_initialized ≡ true
      → Used slot (nvipfix_export fb mktime host port t rs start end slot w)
  export-Used dangling w e =
      rw (export_ready fb mktime host port t rs start end dangling w e)
        (unfold Used export_with in ((λ h. refl), (λ h. cc), e))
  export-Used (held p) w e =
      let ready = held_ready fb mktime host port t rs start end p w e in
      let same = export_ready fb mktime host port t rs start end (held p) w e in
      unfold Used in ((λ h. cc), (λ h n. held-some p w (ap (λ x. x.0) (sym same) ∙ n)), ready)
  export-Used null w e =
      rw (export_ready fb mktime host port t rs start end null w e) (first-Used w e)

-- A result that is missing exactly if the test holds.
abbrev Fails : {A : Type 0} → Bool → Option A → Type 0
Fails test out = (test ≡ true → out ≡ none) × (test ≡ false → out ≢ none)

go_on-Fails :
    {W : Type 0} (t : Target) (r : Option (Code × Slot)) (w : World W)
    (more : Option (List Target) × World W) (b c : Bool)
    → Fails b r
    → Fails c more.0
    → Fails (b || c) (go_on t r w more).0
unfolding go_on
go_on-Fails t none w more true c p q = ((λ h. refl), λ h. cc)
go_on-Fails t none w more false c p q = absurd (p.1 refl refl)
go_on-Fails t (some r) w more true c p q = absurd (cc (p.0 refl))
go_on-Fails t (some (k, s)) w (none, w') false c p q = ((λ h. refl), λ h. absurd (q.1 h refl))
go_on-Fails t (some (k, s)) w (some ts, w') false c p q = ((λ h. cc (q.0 h)), λ h n. cc)

module _ {W : Type 0} (fb : ℕ → Fixbuf W) (mktime : Tm → ℤ) (rs : List DataRecord)
    (start end : Datetime) where
  collectors-Fails :
      (i : ℕ) (ts : List Target) (w : World W)
      → w.is_initialized ≡ true
      → Fails (any_dangling ts) (export_collectors fb mktime i ts rs start end w).0
  unfolding export_collectors Used
  collectors-Fails i [] w e = ((λ h. cc), (λ h n. cc))
  collectors-Fails i (t ∷ ts) w e =
      let (yes_used, no_used, ready) =
        export-Used (fb i) mktime t.info.host t.info.port t.info.transport rs start end t.ctx w e in
      let (r, w1) =
        nvipfix_export (fb i) mktime t.info.host t.info.port t.info.transport rs start end t.ctx
          w in
      go_on-Fails t r w1 (export_collectors fb mktime (suc i) ts rs start end w1)
        (is_dangling t.ctx) (any_dangling ts) (yes_used, no_used)
        (collectors-Fails (suc i) ts w1 ready)

  -- Once libfixbuf is initialised, for every number of collectors and whatever libfixbuf answers: one export
  -- of some records to all collectors uses memory that was freed exactly if the private data of one of them
  -- was freed in an earlier export.
  pub main_export_fault :
      (ts : List Target) (w : World W)
      → w.is_initialized ≡ true
      → ((main_export fb mktime ts (some rs) start end w).0 ≡ none) ↔ (any_dangling ts ≡ true)
  unfolding main_export
  main_export_fault ts w e =
      let (fails, works) = collectors-Fails 0 ts w e in
      (
        λ n. elim (Bool-cases (any_dangling ts)) [ inl d ↦ d | inr fine ↦ absurd (works fine n) ],
        fails,
      )
