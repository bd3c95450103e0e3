-- ===== src/Import/Nvc/Protocol.antt =====
-- The order in which `nvipfix_import_nvc` calls the switch's library: src/import.c, lines 325-408.
use ipfix.Calendar.{Clock}
use ipfix.Common.{
  ◌⊎◌, inl, inr, Bool-cases, ℕ, Bool, true, false, ◌&&◌, List, [], ◌∷◌, Option, none, some,
  if◌then◌else◌, ◌≡◌, refl,
}
use ipfix.Common.Int.{ℤ}
use ipfix.Data.{DataRecord, Store}
use ipfix.Heap.{Heap, has_room}
use ipfix.Import.Listing.{Lists}
use ipfix.Import.Nvc.Content.{connections, records_of_conns, import_nvc-Lists}
use ipfix.Import.Nvc.{
  Conn, Nvc, no_error, limit_output, record_of_conn, conn_stat_handler, handle_all, init_io, login,
  read_connections, read_session, import_nvc,
}
use ipfix.Import.Reader.{Records}
use ipfix.Import.Parts.{Keeps}
use ipfix.Import.Result.{Owns, OwnsAll, add_record-Owns, empty_Owns}
use ipfix.Number.{pattern_of}
use ipfix.Text.{Bytes}

-- A call of the library, with whether it succeeded.
pub data Call : Type 0 where
  called_init called_show called_logout called_disconnect called_close : Call
  called_connect called_login : Bool → Call

-- Where a session with the switch stands.
pub data Phase : Type 0 where
  unused prepared connected logged_in closed : Phase

-- What may be called when, and where it leads. A connection and a login that failed are not there to be
-- given up.
abbrev pub next_phase : Phase → Call → Option Phase
next_phase unused called_init = some prepared
next_phase prepared (called_connect true) = some connected
next_phase prepared (called_connect false) = some prepared
next_phase connected (called_login true) = some logged_in
next_phase connected (called_login false) = some connected
next_phase logged_in called_show = some logged_in
next_phase logged_in called_logout = some connected
next_phase connected called_disconnect = some prepared
next_phase prepared called_close = some closed
next_phase _ _ = none

abbrev on_phase : Option Phase → Call → Option Phase
on_phase none c = none
on_phase (some p) c = next_phase p c

-- The phase behind some calls, of which the last one stands first.
abbrev pub phase : List Call → Option Phase
phase [] = some unused
phase (c ∷ calls) = on_phase (phase calls) c

-- The library with a log of its calls.
abbrev pub logged : {W : Type 0} → Nvc W → Nvc (W × List Call)
logged nvc = record {
  init_net = λ host w. (nvc.init_net host w.0, called_init ∷ w.1);
  init = λ w. (nvc.init w.0, called_init ∷ w.1);
  connect = λ w.
      let (error, w') = nvc.connect w.0 in (error, (w', called_connect (no_error error) ∷ w.1));
  authenticate = λ user password w.
      let ((status, error), w') = nvc.authenticate user password w.0 in
      ((status, error), (w', called_login (status && no_error error) ∷ w.1));
  check_uid = λ w.
      let ((status, error), w') = nvc.check_uid w.0 in
      ((status, error), (w', called_login (status && no_error error) ∷ w.1));
  show_conn_stat = λ within limit w.
      let (r, w') = nvc.show_conn_stat within limit w.0 in (r, (w', called_show ∷ w.1));
  logout = λ w. (nvc.logout w.0, called_logout ∷ w.1);
  disconnect = λ w. (nvc.disconnect w.0, called_disconnect ∷ w.1);
  close = λ w. (nvc.close w.0, called_close ∷ w.1);
}

login_step :
    (b : Bool) (o : Option Phase)
    → o ≡ some connected
    → on_phase o (called_login b) ≡ (if b then some logged_in else some connected)
login_step true o e = rw e refl
login_step false o e = rw e refl

connect_step :
    (b : Bool) (o : Option Phase)
    → o ≡ some prepared
    → on_phase o (called_connect b) ≡ (if b then some connected else some prepared)
connect_step true o e = rw e refl
connect_step false o e = rw e refl

module _ {W : Type 0} (clock : Clock) (nvc : Nvc W) where
  -- The calls that a part of the import leaves.
  abbrev calls : Records × ((W × List Call) × Heap) → List Call
  calls out = out.1.0.1

  read_connections-phase :
      (within : ℤ) (r : Records) (w : W × List Call) (h : Heap)
      → phase w.1 ≡ some logged_in
      → phase (calls (read_connections clock (logged nvc) within r (w, h))) ≡ some connected
  unfolding read_connections
  read_connections-phase within r w h p = rw p refl

  -- A login, by name and password or by the user's id, behind a connection.
  login-phase :
      (user password : Option Bytes) (w : W × List Call)
      → phase w.1 ≡ some connected
      → let ((status, error), w') = login clock (logged nvc) user password w in
        phase w'.1 ≡ (if status && no_error error then some logged_in else some connected)
  unfolding login
  login-phase none password w p = login_step _ (phase w.1) p
  login-phase (some user) none w p = login_step _ (phase w.1) p
  login-phase (some user) (some password) w p = login_step _ (phase w.1) p

  if-phase :
      (b : Bool) (o : Option Phase) (good bad : Phase) (x y : Records × ((W × List Call) × Heap))
      → o ≡ (if b then some good else some bad)
      → (o ≡ some good → phase (calls x) ≡ some bad)
      → (o ≡ some bad → phase (calls y) ≡ some bad)
      → phase (calls (if b then x else y)) ≡ some bad
  if-phase true o good bad x y e p q = p e
  if-phase false o good bad x y e p q = q e

  read_session-phase :
      (user password : Option Bytes) (within : ℤ) (r : Records) (w : W × List Call) (h : Heap)
      → phase w.1 ≡ some connected
      → phase (calls (read_session clock (logged nvc) user password within r (w, h)))
        ≡ some prepared
  unfolding read_session
  read_session-phase user password within r w h p =
      let ((status, error), w') = login clock (logged nvc) user password w in
      rw
        (if-phase (status && no_error error) (phase w'.1) logged_in connected
          (read_connections clock (logged nvc) within r (w', h)) (r, (w', h))
          (login-phase user password w p) (λ q. read_connections-phase within r w' h q) (λ q. q))
        refl

  init_io-phase :
      (host : Option Bytes) (w : W)
      → phase (init_io clock (logged nvc) host (w, [])).1 ≡ some prepared
  unfolding init_io
  init_io-phase none w = refl
  init_io-phase (some host) w = refl

  import_nvc-phase :
      (host user password : Option Bytes) (within : ℤ) (r : Records) (w : W) (h : Heap)
      → phase (calls (import_nvc clock (logged nvc) host user password within r ((w, []), h)))
        ≡ some closed
  unfolding import_nvc
  import_nvc-phase host user password within r w h =
      let w0 = init_io clock (logged nvc) host (w, []) in
      let (error, w') = (logged nvc).connect w0 in
      rw
        (if-phase (no_error error) (phase w'.1) connected prepared
          (read_session clock (logged nvc) user password within r (w', h)) (r, (w', h))
          (connect_step (no_error error) (phase w0.1) (init_io-phase host w))
          (λ q. read_session-phase user password within r w' h q) (λ q. q))
        refl

module _ {W : Type 0} (clock : Clock) (nvc : Nvc W) (full : Bool) where
  handle_all-Owns : (cs : List Conn) → Keeps full (handle_all clock cs)
  unfolding handle_all conn_stat_handler
  handle_all-Owns [] base r h o = o
  handle_all-Owns (c ∷ cs) base r h o =
      handle_all-Owns cs base _ _ (add_record-Owns full (record_of_conn clock c) base r h o)

  -- What an import returns and the heap that it leaves.
  abbrev result : Records × (W × Heap) → Records × Heap
  result out = (out.0, out.1.1)

  if-Owns :
      (b : Bool) (base : ℕ) (x y : Records × (W × Heap))
      → OwnsAll full base (result x)
      → OwnsAll full base (result y)
      → OwnsAll full base (result (if b then x else y))
  if-Owns true base x y p q = p
  if-Owns false base x y p q = q

  read_session-Owns :
      (user password : Option Bytes) (within : ℤ) (base : ℕ) (r : Records) (w : W) (h : Heap)
      → Owns full base r h
      → OwnsAll full base (result (read_session clock nvc user password within r (w, h)))
  unfolding read_session read_connections
  read_session-Owns user password within base r w h o =
      let ((status, error), w') = login clock nvc user password w in
      let ((conns, shown, code), w'') = nvc.show_conn_stat (pattern_of 64 within) limit_output w' in
      if-Owns (status && no_error error) base (read_connections clock nvc within r (w', h))
        (r, (w', h)) (handle_all-Owns conns base r h o) o

  pub import_nvc-Owns :
      (host user password : Option Bytes) (within : ℤ) (base : ℕ) (r : Records) (w : W) (h : Heap)
      → Owns full base r h
      → OwnsAll full base (result (import_nvc clock nvc host user password within r (w, h)))
  unfolding import_nvc
  import_nvc-Owns host user password within base r w h o =
      let (error, w') = nvc.connect (init_io clock nvc host w) in
      if-Owns (no_error error) base (read_session clock nvc user password within r (w', h))
        (r, (w', h)) (read_session-Owns user password within base r w' h o) o

-- Whatever the switch's library answers: `nvipfix_import_nvc` calls it in the order of a session, a
-- connection and a login are given up exactly once each if they were made, and closing is the last call;
-- its result is NULL or a list whose links are right, whose blocks are the only new ones if no call of
-- `malloc` is refused; and then it holds exactly the records of the connections that the library shows, in
-- their order, and none without a connection and a login.
pub import_nvc-phase-Owns :
    {W : Type 0} (clock : Clock) (nvc : Nvc W) (host user password : Option Bytes) (within : ℤ)
    (w : W) (σ : Store DataRecord) (n : ℕ) (h : Heap)
    → let out =
        import_nvc clock
          (logged nvc)
          host
          user
          password
          within
          (record { list = none; store = σ; next = n })
          ((w, []), h) in
      (phase out.1.0.1 ≡ some closed)
      × OwnsAll (has_room h.plan) h.live (out.0, out.1.1)
      × ((has_room h.plan ≡ false)
          ⊎ Lists
              (records_of_conns clock
                (logged nvc)
                (connections clock (logged nvc) host user password within (w, [])))
              out.0)
import_nvc-phase-Owns clock nvc host user password within w σ n h =
    let empty : Records = record { list = none; store = σ; next = n } in
    (
      import_nvc-phase clock nvc host user password within empty w h,
      import_nvc-Owns clock (logged nvc) (has_room h.plan) host user password within h.live empty
          (w, []) h (empty_Owns σ n h),
      elim (Bool-cases (has_room h.plan)) [
        | inl room ↦
            inr (import_nvc-Lists clock (logged nvc) host user password within σ n (w, []) h room)
        | inr refused ↦ inl refused
      ],
    )
