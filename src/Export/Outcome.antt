-- ===== src/Export/Outcome.antt =====
-- What a call of `nvipfix_export` (src/export.c) leaves behind: counters, memory and `*ptr`.
use ipfix.Common.{
  ℕ, ◌+◌, ◌-◌, ◌%◌, ◌^◌, ◌≤◌, true, List, [], ◌∷◌, Option, none, some, ◌≡◌, ◌≢◌, ◌⊎◌, refl, inl,
  inr, length, arith, ap, sym, ◌∙◌,
}
use ipfix.Common.Int.{ℤ}
use ipfix.Config.{Transport}
use ipfix.Date.{Datetime}
use ipfix.Data.{DataRecord}
use ipfix.Export.Session.{
  Code, code_none, Private, Slot, null, dangling, held, World, Result, ok, failed, export_init,
  open_session, append_records, send_records, send_stats, add_counts, export_records, drop_private,
  finish_export, export_with, nvipfix_export,
}
use ipfix.Export.Frames.{
  Frames, Yields, Any, raise_unless-Frames, raise_if_zero-Frames, bind-Frames, done-Frames,
  raise_unless-Yields, bind-Yields,
}
use ipfix.Export.{flow_row, export_data, Fixbuf, Tm}
use ipfix.Heap.{free}
use ipfix.Text.{Bytes}

abbrev failure : Option (Code × Slot) → Code
failure none = code_none
failure (some r) = r.0

abbrev pointer : Option (Code × Slot) → Slot
pointer none = null
pointer (some r) = r.1

-- The counters after an export of at most `most` records: one more message, and the flows taken.
abbrev pub Counted : ℕ → Private → Private → Type 0
Counted most p p' =
    (p'.message_count ≡ (p.message_count + 1) % 2 ^ 64)
    × ((n : ℕ) × (n ≤ most) × (p'.flow_record_count ≡ (p.flow_record_count + n) % 2 ^ 64))

module _ {W : Type 0} (fb : Fixbuf W) (mktime : Tm → ℤ) where
  pub open_session-Frames :
      (host port : Option Bytes) (t : Transport) → Frames (open_session fb mktime host port t)
  unfolding open_session
  open_session-Frames host port t = bind-Frames _ _ (raise_unless-Frames _ _) (λ _.
      bind-Frames _ _ (raise_unless-Frames _ _) (λ _.
        bind-Frames _ _ (raise_unless-Frames _ _) (λ _.
          bind-Frames _ _ (raise_unless-Frames _ _) (λ _.
            bind-Frames _ _ (raise_unless-Frames _ _) (λ _.
              bind-Frames _ _ (raise_unless-Frames _ _) (λ _.
                bind-Frames _ _ (raise_if_zero-Frames _ _) (λ a.
                  bind-Frames _ _ (raise_if_zero-Frames _ _) (λ b.
                    bind-Frames _ _ (raise_if_zero-Frames _ _) (λ c.
                      bind-Frames _ _ (raise_if_zero-Frames _ _) (λ d.
                        bind-Frames _ _ (raise_unless-Frames _ _)
                          (λ _. done-Frames W Private _)))))))))))

  send_records-Frames :
      (rs : List DataRecord) (start end : Datetime) → Frames (send_records fb mktime rs start end)
  unfolding send_records Frames
  send_records-Frames rs start end w = (refl, refl)

  send_stats-Frames : (p : Private) → Frames (send_stats fb mktime p)
  unfolding send_stats Frames
  send_stats-Frames p w = (refl, refl)

  export_records-Frames :
      (rs : List DataRecord) (start end : Datetime) (p : Private)
      → Frames (export_records fb mktime rs start end p)
  unfolding export_records
  export_records-Frames rs start end p = bind-Frames _ _ (raise_unless-Frames _ _) (λ _.
      bind-Frames _ _ (raise_unless-Frames _ _) (λ _.
        bind-Frames _ _ (raise_unless-Frames _ _) (λ _.
          bind-Frames _ _ (send_records-Frames rs start end) (λ n.
            bind-Frames _ _ (raise_unless-Frames _ _)
              (λ _. bind-Frames _ _ (raise_unless-Frames _ _) (λ _. send_stats-Frames _))))))

  append_records_le :
      (start end : ℕ) (rs : List DataRecord) (w : W)
      → (append_records fb mktime start end rs w).0 ≤ length rs
  unfolding append_records
  append_records_le start end [] w = omega arith
  append_records_le start end (r ∷ rs) w = ground (
    arith,
    append_records_le start end rs (fb.buf_append (flow_row (export_data mktime start end r)) w).1,
  )

  send_records-Yields :
      (rs : List DataRecord) (start end : Datetime)
      → Yields (λ n. n ≤ length rs) (send_records fb mktime rs start end)
  unfolding send_records Yields
  send_records-Yields rs start end w = inl (_, append_records_le _ _ rs w.fixbuf, refl)

  send_stats-Yields : (G : Private → Type 0) (p : Private) → G p → Yields G (send_stats fb mktime p)
  unfolding send_stats Yields
  send_stats-Yields G p g w = inl (p, g, refl)

  add_counts-Counted :
      {most : ℕ} (n : ℕ) (p : Private) → n ≤ most → Counted most p (add_counts fb mktime n p)
  unfolding add_counts
  add_counts-Counted n p le = (refl, (n, le, refl))

  export_records-Yields :
      (rs : List DataRecord) (start end : Datetime) (p : Private)
      → Yields (Counted (length rs) p) (export_records fb mktime rs start end p)
  unfolding export_records
  export_records-Yields rs start end p = bind-Yields Any _ _ _ (raise_unless-Yields _ _ cc) (λ _ _.
      bind-Yields Any _ _ _ (raise_unless-Yields _ _ cc) (λ _ _.
        bind-Yields Any _ _ _ (raise_unless-Yields _ _ cc) (λ _ _.
          bind-Yields (λ n. n ≤ length rs) _ _ _ (send_records-Yields rs start end)
            (λ n le. bind-Yields Any _ _ _ (raise_unless-Yields _ _ cc) (λ _ _.
              bind-Yields Any _ _ _ (raise_unless-Yields _ _ cc) (λ _ _.
                send_stats-Yields (Counted (length rs) p) _ (add_counts-Counted n p le)))))))

  pub yield :
      (rs : List DataRecord) (start end : Datetime) (p : Private) (w : World W)
      → ((p' : Private) × Counted (length rs) p p'
          × ((export_records fb mktime rs start end p w).0 ≡ ok p'))
        ⊎ ((c : Code) × (c ≢ code_none)
            × ((export_records fb mktime rs start end p w).0 ≡ failed c))
  unfolding Yields
  yield rs start end p w = export_records-Yields rs start end p w

  pub frame :
      (rs : List DataRecord) (start end : Datetime) (p : Private) (w : World W)
      → ((export_records fb mktime rs start end p w).1.heap ≡ w.heap)
        × ((export_records fb mktime rs start end p w).1.is_initialized ≡ w.is_initialized)
  unfolding Frames
  frame rs start end p w = export_records-Frames rs start end p w

  pub finish_outcome :
      (rs : List DataRecord) (p : Private) (w : World W) (r : Result Private × World W)
      → ((p' : Private) × Counted (length rs) p p' × (r.0 ≡ ok p'))
        ⊎ ((c : Code) × (c ≢ code_none) × (r.0 ≡ failed c))
      → (r.1.heap ≡ w.heap) × (r.1.is_initialized ≡ w.is_initialized)
      → ((p' : Private) × (some (finish_export fb mktime r).0 ≡ some (code_none, held p'))
          × Counted (length rs) p p'
          × ((finish_export fb mktime r).1.heap ≡ w.heap))
        ⊎ ((c : Code) × (c ≢ code_none)
            × (some (finish_export fb mktime r).0 ≡ some (c, dangling))
            × ((finish_export fb mktime r).1.heap.live ≡ w.heap.live - 2))
  unfolding finish_export drop_private free
  finish_outcome rs p w (x, v) (inl (p', k, e)) f = rw e (inl (p', refl, k, f.0))
  finish_outcome rs p w (x, v) (inr (c, k, e)) f = rw e (inr (c, k, refl, ap (λ h. h.live - 2) f.0))

  init_ready : (w : World W) → w.is_initialized ≡ true → export_init fb mktime w ≡ (true, w)
  unfolding export_init
  init_ready w e = rw e refl

  pub export_ready :
      (host port : Option Bytes) (t : Transport) (rs : List DataRecord) (start end : Datetime)
      (slot : Slot) (w : World W)
      → w.is_initialized ≡ true
      → nvipfix_export fb mktime host port t rs start end slot w
        ≡ export_with fb mktime host port t rs start end slot w
  unfolding nvipfix_export
  export_ready host port t rs start end slot w e = rw (init_ready w e) refl

  pub finish_ready :
      (r : Result Private × World W)
      → (finish_export fb mktime r).1.is_initialized ≡ r.1.is_initialized
  unfolding finish_export drop_private free
  finish_ready (ok p, w) = refl
  finish_ready (failed c, w) = refl

  pub held_ready :
      (host port : Option Bytes) (t : Transport) (rs : List DataRecord) (start end : Datetime)
      (p : Private) (w : World W)
      → w.is_initialized ≡ true
      → (nvipfix_export fb mktime host port t rs start end (held p) w).1.is_initialized ≡ true
  unfolding export_with
  held_ready host port t rs start end p w e =
      rw (export_ready host port t rs start end (held p) w e)
        (finish_ready (export_records fb mktime rs start end p w) ∙ (frame rs start end p w).1 ∙ e)

  -- Once libfixbuf is initialised, an export through an open session either succeeds: the error code is none, the session is kept, the
  -- memory is as before, one more message is counted and no more flows than the data has records; or
  -- it fails: the two blocks of the session are given back, and `*ptr` still points to them.
  pub nvipfix_export_held :
      (host port : Option Bytes) (t : Transport) (rs : List DataRecord) (start end : Datetime)
      (p : Private) (w : World W)
      → w.is_initialized ≡ true
      → ((p' : Private) × ((nvipfix_export fb mktime host port t rs start end (held p) w).0
            ≡ some (code_none, held p'))
          × Counted (length rs) p p'
          × ((nvipfix_export fb mktime host port t rs start end (held p) w).1.heap ≡ w.heap))
        ⊎ ((c : Code) × (c ≢ code_none)
            × ((nvipfix_export fb mktime host port t rs start end (held p) w).0
                ≡ some (c, dangling))
            × ((nvipfix_export fb mktime host port t rs start end (held p) w).1.heap.live
                ≡ w.heap.live - 2))
  unfolding export_with
  nvipfix_export_held host port t rs start end p w e =
      rw (export_ready host port t rs start end (held p) w e) (
        finish_outcome rs p w (export_records fb mktime rs start end p w) (yield rs start end p w)
          (frame rs start end p w))

  -- Once libfixbuf is initialised, and an export through an open session has failed, the next one with the same `*ptr` uses a block
  -- that was freed.
  pub export_after_error :
      (host port : Option Bytes) (t : Transport) (rs : List DataRecord) (start end : Datetime)
      (p : Private) (w : World W) (c : Code) (slot : Slot)
      → w.is_initialized ≡ true
      → (nvipfix_export fb mktime host port t rs start end (held p) w).0 ≡ some (c, slot)
      → c ≢ code_none
      → (nvipfix_export fb mktime host port t rs start end slot
          (nvipfix_export fb mktime host port t rs start end (held p) w).1).0
        ≡ none
  unfolding export_with
  export_after_error host port t rs start end p w c slot e r k =
      elim (nvipfix_export_held host port t rs start end p w e) [
        | inl (p', o, counted, same) ↦ elim (k (ap failure (sym r ∙ o))) [ ]
        | inr (d, kd, o, live) ↦ rw (ap pointer (sym r ∙ o)) (
            ap (λ x. x.0)
              (export_ready host port t rs start end dangling _
                (held_ready host port t rs start end p w e)))
      ]
