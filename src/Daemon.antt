-- ===== src/Daemon.antt =====
-- The daemon of src/nvipfix.c: the name of its shared memory, and its rounds of export.
pub mod Escape
pub mod Windows
pub mod Kept
pub mod Exports
use ipfix.Common.{
  ℕ, zero, suc, ◌*◌, Bool, true, false, List, [], ◌∷◌, Option, none, some, ◌==◌, if◌then◌else◌,
  length, not, ◌&&◌,
}
use ipfix.Common.Int.{ℤ, pos, pos_part, ltb_ℤ}
use ipfix.Calendar.{Clock, ctime_to_datetime}
use ipfix.Date.{Datetime}
use ipfix.Import.{zero_date}
use ipfix.Number.{to_int}
use ipfix.Text.{Bytes}
use ipfix.Time.{Timespan, quotient}

-- `*strchr( s, '/' ) = ':'`, or none where there is no '/'.
pub escape_first : Bytes → Option Bytes
escape_first [] = none
escape_first (c ∷ s) =
    let rest = escape_first s in
    if c == b'/'
    then some (b':' ∷ s)
    else (elim rest as (λ _. Option Bytes) [ none ↦ none | some t ↦ some (c ∷ t) ])

pub escape_with : (Bytes → Bytes) → Bytes → Option Bytes → Bytes
escape_with more s none = s
escape_with more s (some t) = more t

-- The `while` loop, from the second byte on.
unfoldable pub escape_loop : ℕ → Bytes → Bytes
unfolding escape_with
escape_loop zero s = s
escape_loop (suc fuel) s = escape_with (escape_loop fuel) s (escape_first s)

-- `shm_name_escape`. A path is never empty. Each round takes one '/' away, so the length is fuel enough.
unfoldable pub shm_name_escape : Bytes → Bytes
unfolding escape_loop escape_first
shm_name_escape [] = []
shm_name_escape (c ∷ a_shmName) = c ∷ escape_loop (suc (length a_shmName)) a_shmName

-- The exit codes.
pub data ReturnCode : Type 0 where
  return_ok args_error configuration_error data_error start_daemon_error : ReturnCode
  daemon_already_running daemon_shared_memory_error : ReturnCode

-- The calls of the operating system, on its state `W`, and the export of a window. `set_running` and
-- `clear_running` write, and `is_running` reads, the
-- byte that is shared with the process that stops the daemon; `setsid` stands for
-- `umask` too, and `detach` for what is done to the files that are open.
pub record Os (W : Type 0) : Type 0 where
  pub shm_open : Bytes → W → Bool × W
  pub shm_create : Bytes → W → Bool × W
  pub shm_unlink : Bytes → W → W
  pub close : W → W
  pub fork : W → ℤ × W
  pub setsid : W → Bool × W
  pub detach : W → W
  pub ftruncate : W → Bool × W
  pub mmap : W → Bool × W
  pub set_running : W → W
  pub clear_running : W → W
  pub is_running : W → Bool × W
  pub sleep : ℤ → W → W
  pub time : W → ℤ × W
  pub export_nvc : Datetime → Datetime → ℤ → W → W

-- `exportInterval` in seconds, as an `int`.
abbrev pub wait_seconds : Timespan → ℤ
wait_seconds span = to_int (quotient span.microseconds 1000000)

module _ {W : Type 0} (clock : Clock) (os : Os W) where
  -- One round of the loop behind its test: `startTs`, `endTs` and `startT` as they are left.
  unfoldable pub daemon_round : ℤ → Datetime → Datetime → ℤ → W → (Datetime × Datetime × ℤ) × W
  daemon_round wait start_ts end_ts start_t w =
      let (now_t, w1) = os.time (os.sleep wait w) in
      let (started, start_ts') = ctime_to_datetime clock start_ts start_t in
      let (ended, end_ts') = ctime_to_datetime clock end_ts now_t in
      (
        (start_ts', (if started then end_ts' else end_ts), now_t),
        if started && ended then os.export_nvc start_ts' end_ts' wait w1 else w1,
      )

  -- The `while` loop for a number of rounds: false where it is still running behind them.
  unfoldable pub daemon_loop : ℕ → ℤ → Datetime → Datetime → ℤ → W → Bool × W
  daemon_loop zero wait start_ts end_ts start_t w = (false, w)
  daemon_loop (suc rounds) wait start_ts end_ts start_t w =
      let (running, w1) = os.is_running w in
      let ((start_ts', end_ts', start_t'), w2) = daemon_round wait start_ts end_ts start_t w1 in
      let more = daemon_loop rounds wait start_ts' end_ts' start_t' w2 in
      if running then more else (true, w1)

  -- The child process behind `mmap`.
  unfoldable pub daemon_serve : ℕ → Bytes → Timespan → W → Option ReturnCode × W
  daemon_serve rounds name interval w =
      let (start_t, w1) = os.time (os.set_running w) in
      let (ended, w2) = daemon_loop rounds (wait_seconds interval) zero_date zero_date start_t w1 in
      if ended then (some return_ok, os.shm_unlink name (os.close w2)) else (none, w2)

  unfoldable pub daemon_map : ℕ → Bytes → Timespan → W → Option ReturnCode × W
  daemon_map rounds name interval w =
      let (sized, w1) = os.ftruncate w in
      let (mapped, w2) = os.mmap w1 in
      let failed : W → Option ReturnCode × W =
        λ v. (some daemon_shared_memory_error, os.shm_unlink name (os.close v)) in
      let serve = daemon_serve rounds name interval w2 in
      if not sized then failed w1 else if not mapped then failed w2 else serve

  unfoldable pub daemon_child : ℕ → Bytes → Timespan → W → Option ReturnCode × W
  daemon_child rounds name interval w =
      let (session, w1) = os.setsid w in
      let (created, w2) = os.shm_create name (os.detach w1) in
      let mapped = daemon_map rounds name interval w2 in
      if not session
      then (some start_daemon_error, w1)
      else if not created
      then (some daemon_shared_memory_error, w2)
      else mapped

  -- `main_daemon` for a number of rounds: none where the daemon is still running behind them.
  unfoldable pub main_daemon : ℕ → Bytes → Timespan → W → Option ReturnCode × W
  unfolding ctime_to_datetime
  main_daemon rounds a_shmName interval w =
      let name = shm_name_escape a_shmName in
      let (exists, w1) = os.shm_open name w in
      let (pid, w2) = os.fork w1 in
      let child = daemon_child rounds name interval w2 in
      if exists
      then (some daemon_already_running, os.shm_unlink name (os.close w1))
      else if ltb_ℤ pid (pos 0)
      then (some start_daemon_error, w2)
      else if pos_part pid == 0
      then child
      else (some return_ok, w2)

  -- What `main` does for the argument start; NULL is a path of `argv[0]` that cannot be resolved.
  unfoldable pub start_daemon : ℕ → Option Bytes → Timespan → W → Option ReturnCode × W
  start_daemon rounds none interval w = (some args_error, w)
  start_daemon rounds (some app_path) interval w = main_daemon rounds app_path interval w

  -- What `main` does for the argument stop; none where the path that could not be resolved is used.
  unfoldable pub stop_daemon : Option Bytes → W → Option ReturnCode × W
  stop_daemon none w = (none, w)
  stop_daemon (some path) w =
      let app_path = shm_name_escape path in
      let (opened, w1) = os.shm_open app_path w in
      let (mapped, w2) = os.mmap w1 in
      let w3 = if mapped then os.clear_running w2 else w2 in
      if not opened
      then (some daemon_shared_memory_error, w1)
      else (some return_ok, os.shm_unlink app_path (os.close w3))
