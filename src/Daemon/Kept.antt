-- ===== src/Daemon/Kept.antt =====
-- What the daemon keeps true, when every call of the system does: src/nvipfix.c, lines 177-290.
use ipfix.Calendar.{Clock}
use ipfix.Common.{ℕ, zero, suc, Bool, true, false, not, ◌==◌, if◌then◌else◌}
use ipfix.Common.Int.{ℤ, pos, ltb_ℤ, pos_part}
use ipfix.Daemon.{
  Os, wait_seconds, daemon_round, daemon_loop, daemon_serve, daemon_map, daemon_child, main_daemon,
  shm_name_escape,
}
use ipfix.Date.{Datetime}
use ipfix.Import.{zero_date}
use ipfix.Text.{Bytes}
use ipfix.Time.{Timespan}

-- What every call of the system keeps true.
pub record Invariant {W : Type 0} (P : W → Type 0) (os : Os W) : Type 0 where
  pub shm_open : (name : Bytes) (w : W) → P w → P (os.shm_open name w).1
  pub shm_create : (name : Bytes) (w : W) → P w → P (os.shm_create name w).1
  pub shm_unlink : (name : Bytes) (w : W) → P w → P (os.shm_unlink name w)
  pub close : (w : W) → P w → P (os.close w)
  pub fork : (w : W) → P w → P (os.fork w).1
  pub setsid : (w : W) → P w → P (os.setsid w).1
  pub detach : (w : W) → P w → P (os.detach w)
  pub ftruncate : (w : W) → P w → P (os.ftruncate w).1
  pub mmap : (w : W) → P w → P (os.mmap w).1
  pub set_running : (w : W) → P w → P (os.set_running w)
  pub is_running : (w : W) → P w → P (os.is_running w).1
  pub sleep : (n : ℤ) (w : W) → P w → P (os.sleep n w)
  pub time : (w : W) → P w → P (os.time w).1
  pub export_nvc : (s e : Datetime) (n : ℤ) (w : W) → P w → P (os.export_nvc s e n w)

module _ {W : Type 0} (P : W → Type 0) (clock : Clock) (os : Os W) (k : Invariant P os) where
  if-P : {A : Type 0} (b : Bool) (x y : A × W) → P x.1 → P y.1 → P (if b then x else y).1
  if-P true x y p q = p
  if-P false x y p q = q

  if-state : (b : Bool) (x y : W) → P x → P y → P (if b then x else y)
  if-state true x y p q = p
  if-state false x y p q = q

  round-P :
      (wait : ℤ) (s e : Datetime) (now : ℤ) (w : W)
      → P w
      → P (daemon_round clock os wait s e now w).1
  unfolding daemon_round
  round-P wait s e now w p =
      let later = k.time (os.sleep wait w) (k.sleep wait w p) in
      if-state _ _ _ (k.export_nvc _ _ wait _ later) later

  loop-P :
      (rounds : ℕ) (wait : ℤ) (s e : Datetime) (now : ℤ) (w : W)
      → P w
      → P (daemon_loop clock os rounds wait s e now w).1
  unfolding daemon_loop
  loop-P zero wait s e now w p = p
  loop-P (suc rounds) wait s e now w p =
      let (running, w1) = os.is_running w in
      let p1 = k.is_running w p in
      if-P running _ _ (loop-P rounds wait _ _ _ _ (round-P wait s e now w1 p1)) p1

  close-P : (name : Bytes) (w : W) → P w → P (os.shm_unlink name (os.close w))
  close-P name w p = k.shm_unlink name (os.close w) (k.close w p)

  serve-P :
      (rounds : ℕ) (name : Bytes) (interval : Timespan) (w : W)
      → P w
      → P (daemon_serve clock os rounds name interval w).1
  unfolding daemon_serve
  serve-P rounds name interval w p =
      let (now, w1) = os.time (os.set_running w) in
      let p2 =
        loop-P rounds (wait_seconds interval) zero_date zero_date now w1
          (k.time (os.set_running w) (k.set_running w p)) in
      if-P _ _ _ (close-P name _ p2) p2

  map-P :
      (rounds : ℕ) (name : Bytes) (interval : Timespan) (w : W)
      → P w
      → P (daemon_map clock os rounds name interval w).1
  unfolding daemon_map
  map-P rounds name interval w p =
      let (sized, w1) = os.ftruncate w in
      let (mapped, w2) = os.mmap w1 in
      let p1 = k.ftruncate w p in
      let p2 = k.mmap w1 p1 in
      if-P (not sized) _ _ (close-P name w1 p1)
        (if-P (not mapped) _ _ (close-P name w2 p2) (serve-P rounds name interval w2 p2))

  child-P :
      (rounds : ℕ) (name : Bytes) (interval : Timespan) (w : W)
      → P w
      → P (daemon_child clock os rounds name interval w).1
  unfolding daemon_child
  child-P rounds name interval w p =
      let (session, w1) = os.setsid w in
      let (created, w2) = os.shm_create name (os.detach w1) in
      let p1 = k.setsid w p in
      let p2 = k.shm_create name (os.detach w1) (k.detach w1 p1) in
      if-P (not session) _ _ p1 (if-P (not created) _ _ p2 (map-P rounds name interval w2 p2))

  -- What every call of the system keeps true, the daemon keeps true.
  pub main_daemon-P :
      (rounds : ℕ) (name : Bytes) (interval : Timespan) (w : W)
      → P w
      → P (main_daemon clock os rounds name interval w).1
  unfolding main_daemon
  main_daemon-P rounds name interval w p =
      let shm = shm_name_escape name in
      let (exists, w1) = os.shm_open shm w in
      let (pid, w2) = os.fork w1 in
      let p1 = k.shm_open shm w p in
      let p2 = k.fork w1 p1 in
      if-P exists _ _ (close-P shm w1 p1) (
        if-P (ltb_ℤ pid (pos 0)) _ _ p2
          (if-P (pos_part pid == 0) _ _ (child-P rounds shm interval w2 p2) p2))
