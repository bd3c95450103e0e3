-- ===== src/Export/Opening.antt =====
-- The first export of a collector: `nvipfix_export` (src/export.c) with `*ptr` NULL.
use ipfix.Common.Int.{ℤ}
use ipfix.Common.{
  Option, ◌+◌, ◌-◌, ◌%◌, ◌^◌, ◌≤◌, length, Bool, true, false, List, [], ◌∷◌, some, ◌≡◌, ◌≢◌, ◌⊎◌,
  inl, inr, refl, ap, ◌∙◌, arith,
}
use ipfix.Config.{Transport}
use ipfix.Data.{DataRecord}
use ipfix.Date.{Datetime}
use ipfix.Export.Frames.{
  Frames, Yields, Any, raise_unless-Yields, raise_if_zero-Yields, bind-Yields, done-Yields,
}
use ipfix.Export.Outcome.{export_ready, yield, frame, finish_outcome, open_session-Frames}
use ipfix.Export.Session.{
  Code, code_none, code_malloc, Private, null, dangling, held, World, Result, ok, failed,
  open_session, export_records, finish_open, drop_private, export_with, nvipfix_export,
}
use ipfix.Export.{Fixbuf, Tm}
use ipfix.Heap.{Heap, malloc, free}
use ipfix.Text.{Bytes}

module _ {W : Type 0} (fb : Fixbuf W) (mktime : Tm → ℤ) where
  Fresh : Private → Type 0
  Fresh p = (p.message_count ≡ 0) × (p.flow_record_count ≡ 0)

  open_session-Yields :
      (host port : Option Bytes) (t : Transport) → Yields Fresh (open_session fb mktime host port t)
  unfolding open_session Fresh
  open_session-Yields host port t = bind-Yields Any _ _ _ (raise_unless-Yields _ _ cc) (λ _ _.
      bind-Yields Any _ _ _ (raise_unless-Yields _ _ cc) (λ _ _.
        bind-Yields Any _ _ _ (raise_unless-Yields _ _ cc) (λ _ _.
          bind-Yields Any _ _ _ (raise_unless-Yields _ _ cc) (λ _ _.
            bind-Yields Any _ _ _ (raise_unless-Yields _ _ cc) (λ _ _.
              bind-Yields Any _ _ _ (raise_unless-Yields _ _ cc) (λ _ _.
                bind-Yields (λ _. Unit {0}) _ _ _ (raise_if_zero-Yields _ _ cc)
                  (λ _ _.
                    bind-Yields (λ _. Unit {0}) _ _ _ (raise_if_zero-Yields _ _ cc)
                      (λ _ _.
                        bind-Yields (λ _. Unit {0}) _ _ _ (raise_if_zero-Yields _ _ cc)
                          (λ _ _.
                            bind-Yields (λ _. Unit {0}) _ _ _ (raise_if_zero-Yields _ _ cc)
                              (λ _ _.
                                bind-Yields Any _ _ _ (raise_unless-Yields _ _ cc)
                                  (λ _ _. done-Yields W Private Fresh _ (refl, refl))))))))))))

  finish_open_outcome :
      (rs : List DataRecord) (start end : Datetime) (r : Result Private × World W) (h : Heap)
      → ((p : Private) × Fresh p × (r.0 ≡ ok p)) ⊎ ((c : Code) × (c ≢ code_none) × (r.0 ≡ failed c))
      → r.1.heap ≡ h
      → ((p : Private) × (some (finish_open fb mktime rs start end r).0 ≡ some (code_none, held p))
          × (p.message_count ≡ 1)
          × (p.flow_record_count ≤ length rs)
          × ((finish_open fb mktime rs start end r).1.heap ≡ h))
        ⊎ ((c : Code) × (c ≢ code_none)
            × (some (finish_open fb mktime rs start end r).0 ≡ some (c, dangling))
            × ((finish_open fb mktime rs start end r).1.heap.live ≡ h.live - 2))
  unfolding finish_open drop_private free Fresh
  finish_open_outcome rs start end (x, v) h (inr (c, k, e)) f =
      rw e (inr (c, k, refl, ap (λ g. g.live - 2) f))
  finish_open_outcome rs start end (x, v) h (inl (p, fresh, e)) f =
      rw e
        (elim (finish_outcome fb mktime rs p v (export_records fb mktime rs start end p v)
          (yield fb mktime rs start end p v) (frame fb mktime rs start end p v)) [
            | inl (p', o, counted, same) ↦ inl (
              p',
              o,
              counted.0 ∙ ap (λ n. (n + 1) % 2 ^ 64) fresh.0,
              omega (arith, counted.1.1, counted.1.2, fresh.1),
              same ∙ f,
            )
            | inr (c, k, o, live) ↦ inr (c, k, o, live ∙ ap (λ g. g.live - 2) f)
          ])

  -- Once libfixbuf is initialised, a first export for which `malloc` refuses the second block returns with
  -- `NV_IPFIX_ERROR_CODE_MALLOC` and `*ptr` still NULL, and never gives back the first block.
  pub export_leak :
      (host port : Option Bytes) (t : Transport) (rs : List DataRecord) (start end : Datetime)
      (w : World W) (plan : List Bool)
      → w.is_initialized ≡ true
      → w.heap.plan ≡ true ∷ false ∷ plan
      → ((nvipfix_export fb mktime host port t rs start end null w).0 ≡ some (code_malloc, null))
        × ((nvipfix_export fb mktime host port t rs start end null w).1.heap.live ≡ w.heap.live + 1)
  unfolding export_with malloc
  export_leak host port t rs start end w plan e p =
      rw (export_ready fb mktime host port t rs start end null w e, p) (refl, refl)

  yield_open :
      (host port : Option Bytes) (t : Transport) (w : World W)
      → ((p : Private) × Fresh p × ((open_session fb mktime host port t w).0 ≡ ok p))
        ⊎ ((c : Code) × (c ≢ code_none) × ((open_session fb mktime host port t w).0 ≡ failed c))
  unfolding Yields
  yield_open host port t w = open_session-Yields host port t w

  frame_open :
      (host port : Option Bytes) (t : Transport) (w : World W)
      → (open_session fb mktime host port t w).1.heap ≡ w.heap
  unfolding Frames
  frame_open host port t w = (open_session-Frames fb mktime host port t w).0

  -- Once libfixbuf is initialised, the first export of a collector, if no call of `malloc` is refused,
  -- either succeeds: the error code is none, and a session is kept in two blocks that has counted one
  -- message and no more flows than the data has records; or it fails: it keeps no memory, and `*ptr`
  -- points to a block that was freed.
  pub nvipfix_export_null :
      (host port : Option Bytes) (t : Transport) (rs : List DataRecord) (start end : Datetime)
      (w : World W)
      → w.is_initialized ≡ true
      → w.heap.plan ≡ []
      → ((p : Private) × ((nvipfix_export fb mktime host port t rs start end null w).0
            ≡ some (code_none, held p))
          × (p.message_count ≡ 1)
          × (p.flow_record_count ≤ length rs)
          × ((nvipfix_export fb mktime host port t rs start end null w).1.heap.live
              ≡ w.heap.live + 2))
        ⊎ ((c : Code) × (c ≢ code_none)
            × ((nvipfix_export fb mktime host port t rs start end null w).0 ≡ some (c, dangling))
            × ((nvipfix_export fb mktime host port t rs start end null w).1.heap.live
                ≡ w.heap.live))
  unfolding export_with malloc
  nvipfix_export_null host port t rs start end w e room =
      let w2 : World W = record w { heap = record { plan = []; live = w.heap.live + 1 + 1 } } in
      rw (export_ready fb mktime host port t rs start end null w e, room)
        (elim (finish_open_outcome rs start end (open_session fb mktime host port t w2) w2.heap
          (yield_open host port t w2) (frame_open host port t w2)) [
            | inl (p, o, m, n, same) ↦ inl (p, o, m, n, ap (λ g. g.live) same ∙ omega arith)
            | inr (c, k, o, live) ↦ inr (c, k, o, omega (arith, live))
          ])
