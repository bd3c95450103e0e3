-- ===== src/Daemon/Windows.antt =====
-- The windows of time that the daemon exports: src/nvipfix.c, lines 257-274.
use ipfix.Calendar.{Clock, datetime_to_ctime, ctime_to_datetime, ctime_round_trip}
use mathlib.Core.Path.{subst, sym}
use ipfix.Common.{
  ℕ, zero, suc, Bool, true, false, List, [], ◌∷◌, Option, none, some, ◌==◌, if◌then◌else◌, ◌≡◌,
  refl, arith, length, ◌+◌, Bool-cases, inl, inr, ◌⊎◌, ◌≢◌, not,
}
use ipfix.Common.Int.{ℤ, pos, ltb_ℤ, pos_part}
use ipfix.Daemon.{
  Os, ReturnCode, return_ok, start_daemon_error, daemon_already_running, daemon_shared_memory_error,
  wait_seconds, daemon_round, daemon_loop, daemon_serve, daemon_map, daemon_child, main_daemon,
  shm_name_escape,
}
use ipfix.Date.{Datetime}
use ipfix.Import.{zero_date}
use ipfix.Text.{Bytes}
use ipfix.Time.{Timespan}

-- The system with a log of the windows that were exported, the last one first, as times in seconds.
abbrev pub Log : Type 0
Log = List (ℤ × ℤ)

abbrev beside : {W A : Type 0} → (W → A × W) → W × Log → A × (W × Log)
beside f (w, log) = ((f w).0, ((f w).1, log))

abbrev after : {W : Type 0} → (W → W) → W × Log → W × Log
after f (w, log) = (f w, log)

abbrev pub recorded : {W : Type 0} → Clock → Os W → Os (W × Log)
recorded clock os = record {
  shm_open = λ name. beside (os.shm_open name);
  shm_create = λ name. beside (os.shm_create name);
  shm_unlink = λ name. after (os.shm_unlink name);
  close = after os.close;
  fork = beside os.fork;
  setsid = beside os.setsid;
  detach = after os.detach;
  ftruncate = beside os.ftruncate;
  mmap = beside os.mmap;
  set_running = after os.set_running;
  clear_running = after os.clear_running;
  is_running = beside os.is_running;
  sleep = λ n. after (os.sleep n);
  time = beside os.time;
  export_nvc = λ s e n w. (
    os.export_nvc s e n w.0,
    (datetime_to_ctime clock (some s), datetime_to_ctime clock (some e)) ∷ w.1,
  );
}

-- The windows, read from the last one back, lead without a gap or an overlap from `start` to `end`.
abbrev pub Covers : ℤ → Log → ℤ → Type 0
Covers start [] end = start ≡ end
Covers start ((s, e) ∷ log) end = (e ≡ end) × Covers start log s

module _ {W : Type 0} (clock : Clock) (os : Os W)
    (local : (t : ℤ) → clock.mktime (clock.localtime t) ≡ t) where
  round-Covers :
      (start wait : ℤ) (s e : Datetime) (now : ℤ) (w : W × Log)
      → Covers start w.1 now
      → Covers start
          (daemon_round clock (recorded clock os) wait s e now w).1.1
          (daemon_round clock (recorded clock os) wait s e now w).0.2
  unfolding daemon_round ctime_to_datetime
  round-Covers start wait s e now w c =
      let (next, w') = os.time (os.sleep wait w.0) in
      (
        ctime_round_trip clock e next (local next),
        subst (Covers start w.1) (sym (ctime_round_trip clock s now (local now))) c,
      )

  round-length :
      (wait : ℤ) (s e : Datetime) (now : ℤ) (w : W × Log)
      → length (daemon_round clock (recorded clock os) wait s e now w).1.1 ≡ suc (length w.1)
  unfolding daemon_round ctime_to_datetime
  round-length wait s e now w = refl

  loop-Covers :
      (rounds : ℕ) (start wait : ℤ) (s e : Datetime) (now : ℤ) (w : W × Log)
      → Covers start w.1 now
      → (end : ℤ) × Covers start
          (daemon_loop clock (recorded clock os) rounds wait s e now w).1.1
          end
  unfolding daemon_loop
  loop-Covers zero start wait s e now w c = (now, c)
  loop-Covers (suc rounds) start wait s e now w c =
      let (running, w1) = (recorded clock os).is_running w in
      let ((s', e', now'), w2) = daemon_round clock (recorded clock os) wait s e now w1 in
      elim (Bool-cases running) [
        | inl going ↦
            rw going
              (loop-Covers rounds start wait s' e' now' w2 (round-Covers start wait s e now w1 c))
        | inr stopped ↦ rw stopped (now, c)
      ]

  loop-length :
      (rounds : ℕ) (wait : ℤ) (s e : Datetime) (now : ℤ) (w : W × Log)
      → (daemon_loop clock (recorded clock os) rounds wait s e now w).0 ≡ false
      → length (daemon_loop clock (recorded clock os) rounds wait s e now w).1.1
        ≡ rounds + length w.1
  unfolding daemon_loop
  loop-length zero wait s e now w h = omega arith
  loop-length (suc rounds) wait s e now w h =
      let (running, w1) = (recorded clock os).is_running w in
      let ((s', e', now'), w2) = daemon_round clock (recorded clock os) wait s e now w1 in
      let ih = loop-length rounds wait s' e' now' w2 in
      let one = round-length wait s e now w1 in
      elim (Bool-cases running) [
        | inl going ↦ (let h' = (rw going at h) in rw going (omega (arith, ih h', one)))
        | inr stopped ↦ (let h' = (rw stopped at h) in absurd (cc))
      ]

  -- What holds of the result and the log.
  Serves : ℕ → Option ReturnCode × (W × Log) → Type 0
  Serves rounds out =
      ((start : ℤ) × (end : ℤ) × Covers start out.1.1 end)
      × ((out.0 ≢ none) ⊎ (length out.1.1 ≡ rounds))

  if-Serves :
      (rounds : ℕ) (b : Bool) (x y : Option ReturnCode × (W × Log))
      → Serves rounds x
      → Serves rounds y
      → Serves rounds (if b then x else y)
  if-Serves rounds true x y p q = p
  if-Serves rounds false x y p q = q

  early : (rounds : ℕ) (c : ReturnCode) (w : W) → Serves rounds (some c, (w, []))
  unfolding Serves
  early rounds c w = ((pos 0, pos 0, refl), inl (λ e. cc))

  serve-Serves :
      (rounds : ℕ) (name : Bytes) (interval : Timespan) (w : W)
      → Serves rounds (daemon_serve clock (recorded clock os) rounds name interval (w, []))
  unfolding daemon_serve Serves
  serve-Serves rounds name interval w =
      let (now, w1) = os.time (os.set_running w) in
      let wait = wait_seconds interval in
      let (end, c) = loop-Covers rounds now wait zero_date zero_date now (w1, []) refl in
      let count = loop-length rounds wait zero_date zero_date now (w1, []) in
      elim (Bool-cases
        (daemon_loop clock (recorded clock os) rounds wait zero_date zero_date now (w1, [])).0) [
          | inl stopped ↦ rw stopped ((now, end, c), inl (λ e. cc))
          | inr going ↦ rw going ((now, end, c), inr (omega (arith, count going)))
        ]

  map-Serves :
      (rounds : ℕ) (name : Bytes) (interval : Timespan) (w : W)
      → Serves rounds (daemon_map clock (recorded clock os) rounds name interval (w, []))
  unfolding daemon_map
  map-Serves rounds name interval w =
      let (sized, w1) = os.ftruncate w in
      let (mapped, w2) = os.mmap w1 in
      let failed = early rounds daemon_shared_memory_error in
      if-Serves rounds (not sized) _ _ (failed (os.shm_unlink name (os.close w1))) (
        if-Serves rounds (not mapped) _ _ (failed (os.shm_unlink name (os.close w2)))
          (serve-Serves rounds name interval w2))

  child-Serves :
      (rounds : ℕ) (name : Bytes) (interval : Timespan) (w : W)
      → Serves rounds (daemon_child clock (recorded clock os) rounds name interval (w, []))
  unfolding daemon_child
  child-Serves rounds name interval w =
      let (session, w1) = os.setsid w in
      let (created, w2) = os.shm_create name (os.detach w1) in
      if-Serves rounds (not session) _ _ (early rounds start_daemon_error w1) (
        if-Serves rounds (not created) _ _ (early rounds daemon_shared_memory_error w2)
          (map-Serves rounds name interval w2))

  main-Serves :
      (rounds : ℕ) (name : Bytes) (interval : Timespan) (w : W)
      → Serves rounds (main_daemon clock (recorded clock os) rounds name interval (w, []))
  unfolding main_daemon
  main-Serves rounds name interval w =
      let shm = shm_name_escape name in
      let (exists, w1) = os.shm_open shm w in
      let (pid, w2) = os.fork w1 in
      if-Serves rounds exists _ _
        (early rounds daemon_already_running (os.shm_unlink shm (os.close w1)))
        (if-Serves rounds (ltb_ℤ pid (pos 0)) _ _ (early rounds start_daemon_error w2) (
          if-Serves rounds (pos_part pid == 0) _ _ (child-Serves rounds shm interval w2)
            (early rounds return_ok w2)))

  -- Where `mktime` inverts `localtime`: whatever the system answers, the windows that `main_daemon` exports
  -- follow one another without a gap or an overlap, each from the end of the one before it; and a daemon
  -- that still runs behind some number of rounds has exported one window in each of them.
  pub main_daemon-Covers :
      (rounds : ℕ) (name : Bytes) (interval : Timespan) (w : W)
      → ((start : ℤ) × (end : ℤ) × Covers start
            (main_daemon clock (recorded clock os) rounds name interval (w, [])).1.1
            end)
        × (((main_daemon clock (recorded clock os) rounds name interval (w, [])).0 ≢ none)
            ⊎ (length (main_daemon clock (recorded clock os) rounds name interval (w, [])).1.1
                ≡ rounds))
  unfolding Serves
  main_daemon-Covers rounds name interval w = main-Serves rounds name interval w
