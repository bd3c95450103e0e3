-- ===== src/Export/Session.antt =====
-- `nvipfix_export_init` and `nvipfix_export`: src/export.c, lines 128-164 and 193-458, in the order of
-- the source. A call that fails ends in the error path of its label.
use ipfix.Common.{
  ℕ, suc, ◌+◌, ◌%◌, ◌^◌, Bool, true, false, not, List, [], ◌∷◌, Option, none, some, ◌==◌,
  if◌then◌else◌,
}
use ipfix.Common.Int.{pos}
use ipfix.Config.{Transport}
use ipfix.Date.{Datetime}
use ipfix.Data.{DataRecord}
use ipfix.Export.{
  flow_row, stats_row, flow_template, stats_template, Fixbuf, Tm, seconds_since_epoch, export_data,
  fb_transport,
}
use ipfix.Common.Int.{ℤ}
use ipfix.Heap.{Heap, M, malloc, free}
use ipfix.Text.{Bytes}

-- `nvIPFIX_ERROR_CODE`, as far as the exporter and the argument table use it.
pub data Code : Type 0 where
  code_none code_invalid_arguments code_malloc code_export_init code_allocate_session
        code_allocate_exporter :
      Code
  code_allocate_template code_append_spec code_add_template code_buf_alloc : Code
  code_export_templates code_set_internal_template code_set_export_template : Code

-- `nvIPFIX_collector_private_t` with its `nvIPFIX_collector_t`. Session and buffer are in the state of
-- libfixbuf.
pub record Private : Type 0 where
  pub message_count : ℕ
  pub flow_record_count : ℕ
  pub template_id : ℕ
  pub template_id_ext : ℕ
  pub stats_template_id : ℕ
  pub stats_template_id_ext : ℕ

-- What `*ptr` of the caller is: NULL, the private data, or a pointer to a block that was freed.
pub data Slot : Type 0 where
  null dangling : Slot
  held : Private → Slot

pub record World (W : Type 0) : Type 0 where
  pub fixbuf : W
  pub heap : Heap
  pub is_initialized : Bool

pub data Result (A : Type 0) : Type 0 where
  ok : A → Result A
  failed : Code → Result A

abbrev pub T : Type 0 → Type 0 → Type 0
T W A = World W → Result A × World W

abbrev pub done : {W A : Type 0} → A → T W A
done a w = (ok a, w)

abbrev pub next_step : {W A B : Type 0} → (A → T W B) → Result A × World W → Result B × World W
next_step f (ok a, w) = f a w
next_step f (failed c, w) = (failed c, w)

infixl 5 ◌>>=◌ ◌>>◌
abbrev pub ◌>>=◌ : {W A B : Type 0} → T W A → (A → T W B) → T W B
◌>>=◌ m f w = next_step f (m w)

abbrev pub ◌>>◌ : {W B : Type 0} → T W (Unit {0}) → T W B → T W B
m >> k = m >>= λ _. k

module _ {W : Type 0} where
  abbrev pub on_fixbuf : {A : Type 0} → (W → A × W) → World W → A × World W
  on_fixbuf f w = ((f w.fixbuf).0, record w { fixbuf = (f w.fixbuf).1 })

  -- `NVIPFIX_ERROR_RAISE_IF` on the result of a call.
  unfoldable pub raise_unless : (W → Bool × W) → Code → T W (Unit {0})
  raise_unless f c w = let (good, w') = on_fixbuf f w in (if good then ok tt else failed c, w')

  -- A call that returns a template id, and 0 on an error.
  unfoldable pub raise_if_zero : (W → ℕ × W) → Code → T W ℕ
  raise_if_zero f c w = let (tid, w') = on_fixbuf f w in (if tid == 0 then failed c else ok tid, w')

  abbrev pub on_heap : {A : Type 0} → M A → World W → A × World W
  on_heap f w = ((f w.heap).0, record w { heap = (f w.heap).1 })

module _ {W : Type 0} (fb : Fixbuf W) (mktime : Tm → ℤ) where
  -- `nvipfix_export_init`: its result. The cleanup that it registers is not run here.
  unfoldable pub export_init : World W → Bool × World W
  export_init w =
      if w.is_initialized
      then (true, w)
      else (let (got, w') = on_fixbuf fb.info_model_alloc w in
          if got
          then (
            true,
            record w' { fixbuf = fb.info_model_add_element w'.fixbuf; is_initialized = true },
          )
          else (false, w'))

  -- The session, the templates and the buffer of a collector.
  unfoldable pub open_session : Option Bytes → Option Bytes → Transport → T W Private
  open_session a_host a_port a_transport = do
    raise_unless fb.session_alloc code_allocate_session
    raise_unless (fb.exporter_alloc_net (fb_transport a_transport) a_host a_port)
        code_allocate_exporter
    raise_unless fb.template_alloc code_allocate_template
    raise_unless fb.template_alloc code_allocate_template
    raise_unless (fb.template_append_spec flow_template) code_append_spec
    raise_unless (fb.template_append_spec stats_template) code_append_spec
    template_id ← raise_if_zero (fb.session_add_template true flow_template) code_add_template
    template_id_ext ← raise_if_zero (fb.session_add_template false flow_template) code_add_template
    stats_id ← raise_if_zero (fb.session_add_template true stats_template) code_add_template
    stats_id_ext ← raise_if_zero (fb.session_add_template false stats_template) code_add_template
    raise_unless fb.buf_alloc_for_export code_buf_alloc
    done (record {
      message_count = 0;
      flow_record_count = 0;
      template_id = template_id;
      template_id_ext = template_id_ext;
      stats_template_id = stats_id;
      stats_template_id_ext = stats_id_ext;
    })

  -- The record loop: how many records `fBufAppend` took.
  unfoldable pub append_records : ℕ → ℕ → List DataRecord → W → ℕ × W
  append_records start_ts end_ts [] w = (0, w)
  append_records start_ts end_ts (r ∷ rs) w =
      let (good, w') = fb.buf_append (flow_row (export_data mktime start_ts end_ts r)) w in
      let (count, w'') = append_records start_ts end_ts rs w' in
      (if good then suc count else count, w'')

  -- `collector->flowRecordCount += recordCount; collector->messageCount++`
  unfoldable pub add_counts : ℕ → Private → Private
  add_counts n p = record p {
    flow_record_count = (p.flow_record_count + n) % 2 ^ 64;
    message_count = (p.message_count + 1) % 2 ^ 64;
  }

  -- The flows of an export, and their `fBufEmit`, which may fail.
  unfoldable pub send_records : List DataRecord → Datetime → Datetime → T W ℕ
  send_records a_data a_startTs a_endTs w =
      let start_ts = seconds_since_epoch mktime a_startTs (pos 1970) (pos 1) in
      let end_ts = seconds_since_epoch mktime a_endTs (pos 1970) (pos 1) in
      let (n, w') = on_fixbuf (append_records start_ts end_ts a_data) w in
      (ok n, (on_fixbuf fb.buf_emit w').1)

  -- The counters of the collector, sent in a record of their own, which may fail.
  unfoldable pub send_stats : Private → T W Private
  send_stats p w =
      let stats = stats_row p.message_count p.flow_record_count in
      let w' = (on_fixbuf (fb.buf_append stats) w).1 in (ok p, (on_fixbuf fb.buf_emit w').1)

  -- The rest of the function, with an open session.
  unfoldable pub export_records : List DataRecord → Datetime → Datetime → Private → T W Private
  export_records a_data a_startTs a_endTs p = do
    raise_unless fb.session_export_templates code_export_templates
    raise_unless (fb.buf_set_internal_template p.template_id) code_set_internal_template
    raise_unless (fb.buf_set_export_template p.template_id_ext) code_set_export_template
    count ← send_records a_data a_startTs a_endTs
    raise_unless (fb.buf_set_internal_template p.stats_template_id) code_set_internal_template
    raise_unless (fb.buf_set_export_template p.stats_template_id_ext) code_set_export_template
    send_stats (add_counts count p)

  -- The error labels behind the allocations: the two blocks are freed, and `*ptr` stays.
  unfoldable pub drop_private : Code → World W → (Code × Slot) × World W
  drop_private c w = ((c, dangling), (on_heap (free 2) w).1)

  -- With an open session, an error frees the buffer first.
  unfoldable pub finish_export : Result Private × World W → (Code × Slot) × World W
  finish_export (ok p, w) = ((code_none, held p), w)
  finish_export (failed c, w) = drop_private c (record w { fixbuf = fb.buf_free w.fixbuf })

  unfoldable pub finish_open :
      List DataRecord → Datetime → Datetime → Result Private × World W → (Code × Slot) × World W
  finish_open a_data a_startTs a_endTs (ok p, w) =
      finish_export (export_records a_data a_startTs a_endTs p w)
  finish_open a_data a_startTs a_endTs (failed c, w) = drop_private c w

  -- `nvipfix_export`: the error code and `*ptr`; `none` where it would use a freed block.
  unfoldable pub export_with :
      Option Bytes
      → Option Bytes
      → Transport
      → List DataRecord
      → Datetime
      → Datetime
      → Slot
      → World W
      → Option (Code × Slot) × World W
  export_with host port transport a_data start end dangling w = (none, w)
  export_with host port transport a_data start end (held p) w =
      let (r, w') = finish_export (export_records a_data start end p w) in (some r, w')
  export_with host port transport a_data start end null w =
      let (priv, w1) = on_heap malloc w in
      if not priv
      then (some (code_malloc, null), w1)
      else (let (collector, w2) = on_heap malloc w1 in
          if not collector
          then (some (code_malloc, null), w2)
          else (let (r, w3) = finish_open a_data start end (open_session host port transport w2) in
              (some r, w3)))

  unfoldable pub nvipfix_export :
      Option Bytes
      → Option Bytes
      → Transport
      → List DataRecord
      → Datetime
      → Datetime
      → Slot
      → World W
      → Option (Code × Slot) × World W
  nvipfix_export host port transport a_data start end slot w =
      let (ready, w') = export_init w in
      if ready
      then export_with host port transport a_data start end slot w'
      else (some (code_export_init, slot), w')
