-- ===== src/Import/Nvc/Content.antt =====
-- The records that the switch gives: src/import.c, lines 266-408.
use ipfix.Calendar.{Clock}
use ipfix.Common.{
  ℕ, arith, Bool, true, false, ◌&&◌, List, [], ◌∷◌, Option, none, if◌then◌else◌, ap, ◌∙◌, ◌≡◌, refl,
}
use ipfix.Common.Int.{ℤ}
use ipfix.Data.{DataRecord, Store}
use ipfix.Heap.{Heap, has_room}
use ipfix.Import.Fold.{add_record_room}
use ipfix.Import.Listing.{Lists, add_all, add_all-Lists}
use ipfix.Import.Nvc.{
  Conn, Nvc, no_error, limit_output, record_of_conn, conn_stat_handler, handle_all, init_io, login,
  read_connections, read_session, import_nvc,
}
use ipfix.Import.Reader.{Records, add_record}
use ipfix.Import.Result.{added}
use ipfix.Number.{pattern_of}
use ipfix.Text.{Bytes}

-- The connections that the library shows: none without a connection and a login.
module _ {W : Type 0} (clock : Clock) (nvc : Nvc W) where
  abbrev pub connections : Option Bytes → Option Bytes → Option Bytes → ℤ → W → List Conn
  connections host user password within w =
      let (error, w1) = nvc.connect (init_io clock nvc host w) in
      let ((status, refusal), w2) = login clock nvc user password w1 in
      let shown = (nvc.show_conn_stat (pattern_of 64 within) limit_output w2).0.0 in
      if no_error error then (if status && no_error refusal then shown else []) else []

  abbrev pub records_of_conns : List Conn → List DataRecord
  records_of_conns [] = []
  records_of_conns (c ∷ cs) = record_of_conn clock c ∷ records_of_conns cs

  handle_all_fold :
      (cs : List Conn) (r : Records) (h : Heap)
      → has_room h.plan ≡ true
      → (handle_all clock cs r h).0 ≡ add_all (records_of_conns cs) r
  unfolding handle_all conn_stat_handler add_all
  handle_all_fold [] r h room = refl
  handle_all_fold (c ∷ cs) r h room =
      let (e, room1) = add_record_room (record_of_conn clock c) r h room in
      let h1 = (add_record (record_of_conn clock c) r h).1 in
      ap (λ (x : Records). (handle_all clock cs x h1).0) e
      ∙ handle_all_fold cs (added (record_of_conn clock c) r) h1 room1

  if-fold :
      (b : Bool) (x y : Records × (W × Heap)) (xs ys : List Conn) (r : Records)
      → x.0 ≡ add_all (records_of_conns xs) r
      → y.0 ≡ add_all (records_of_conns ys) r
      → (if b then x else y).0 ≡ add_all (records_of_conns (if b then xs else ys)) r
  if-fold true x y xs ys r p q = p
  if-fold false x y xs ys r p q = q

  import_nvc_fold :
      (host user password : Option Bytes) (within : ℤ) (r : Records) (w : W) (h : Heap)
      → has_room h.plan ≡ true
      → (import_nvc clock nvc host user password within r (w, h)).0
        ≡ add_all (records_of_conns (connections host user password within w)) r
  unfolding import_nvc read_session read_connections add_all
  import_nvc_fold host user password within r w h room =
      let (error, w1) = nvc.connect (init_io clock nvc host w) in
      let ((status, refusal), w2) = login clock nvc user password w1 in
      let (shown, w3) = nvc.show_conn_stat (pattern_of 64 within) limit_output w2 in
      if-fold (no_error error) (read_session clock nvc user password within r (w1, h)) (r, (w1, h))
        (if status && no_error refusal then shown.0 else []) [] r
        (if-fold (status && no_error refusal) (read_connections clock nvc within r (w2, h))
          (r, (w2, h)) shown.0 [] r (handle_all_fold shown.0 r h room) refl)
        refl

  pub import_nvc-Lists :
      (host user password : Option Bytes) (within : ℤ) (σ : Store DataRecord) (n : ℕ) (w : W)
      (h : Heap)
      → has_room h.plan ≡ true
      → Lists
          (records_of_conns (connections host user password within w))
          (import_nvc clock nvc host user password within
            (record { list = none; store = σ; next = n })
            (w, h)).0
  import_nvc-Lists host user password within σ n w h room =
      let empty : Records = record { list = none; store = σ; next = n } in
      rw (import_nvc_fold host user password within empty w h room) (
        add_all-Lists [] _ empty
          (record { addresses = []; holds = tt; old = tt; few = omega arith; contents = refl }))
