-- ===== src/Host/Clock.antt =====
-- TargetClockSync of `shared/python/pyxcp_host/services/target_clock.py`: when the clock of a target may be
-- set, and the one attempt to set it. Times are microseconds, and CPU load is in millionths of a percent.
pub mod Host
pub mod Streak
pub mod Attempts
pub mod Armed
pub mod Ready
use sim_rt.Prelude.{
  ℕ, ◌+◌, ◌-◌, Bool, true, false, not, ◌&&◌, ◌||◌, Option, none, some, List, [], ◌∷◌, ltb, leb,
  ◌==◌, if◌then◌else◌, Text, any,
}
use sim_rt.Exec.{
  Result, ok, err, Error, Exec, pure, raise, gets, ◌>>=◌, ◌>>◌, modify, raise_if, bad_password,
  bad_response, bad_timezone, not_confirmed,
}
use Host.{
  Request, probe, apply, Status, deferred_there, synchronized_there, Answer, TargetHost,
  Interruption, cancelled_then, armed_then, observed_then, Sample,
}

-- CPU_LIMIT, IDLE_SECONDS, MAX_SAMPLE_GAP, RETRY_SECONDS and MAX_FAILURES
abbrev pub cpu_limit : ℕ
cpu_limit = 50000000

abbrev pub idle_time : ℕ
idle_time = 4000000

abbrev pub max_sample_gap : ℕ
max_sample_gap = 6000000

abbrev pub retry_time : ℕ
retry_time = 30000000

abbrev pub max_failures : ℕ
max_failures = 3

-- The fields of TargetClockSync. `event` is the number of the Event in `_cancelled`, and
-- `is_cancelled` whether that one is set; every earlier one is, since `arm` sets it first.
pub record ClockSync : Type 0 where
  pub event : ℕ
  pub is_cancelled : Bool
  pub password : Text
  pub pending : Bool
  pub idle_since : Option ℕ
  pub last_sample : Option ℕ
  pub samples : ℕ
  pub failures : ℕ
  pub retry_at : ℕ

-- TargetClockSync.cancel
unfoldable pub cancel : ClockSync → ClockSync
cancel c = record {
  event = c.event;
  is_cancelled = true;
  password = [];
  pending = false;
  idle_since = none;
  last_sample = none;
  samples = 0;
  failures = 0;
  retry_at = 0;
}

-- TargetClockSync.__init__
unfoldable pub new_clock_sync : ClockSync
unfolding cancel
new_clock_sync = cancel (record {
  event = 0;
  is_cancelled = false;
  password = [];
  pending = false;
  idle_since = none;
  last_sample = none;
  samples = 0;
  failures = 0;
  retry_at = 0;
})

-- TargetClockSync.arm
unfoldable pub arm : Text → ClockSync → ClockSync
unfolding cancel
arm password c = record (cancel c) {
  event = c.event + 1;
  is_cancelled = false;
  password = password;
  pending = true;
}

-- `all(...)` of the loads
unfoldable pub all_below : List (Option ℕ) → Bool
all_below [] = true
all_below (none ∷ values) = false
all_below (some n ∷ values) = if ltb n cpu_limit then all_below values else false

-- `idle` of `observe`
unfoldable pub is_idle : Sample → Bool
unfolding all_below
is_idle s = elim s.running [ none ↦ false | some b ↦ not b && all_below (s.cpu ∷ s.cores) ]

-- `self._last_sample is not None and now - self._last_sample > MAX_SAMPLE_GAP`
unfoldable pub gap_exceeded : ℕ → Option ℕ → Bool
gap_exceeded now none = false
gap_exceeded now (some t) = ltb max_sample_gap (now - t)

-- the reset in `observe`
unfoldable pub restart : ClockSync → ClockSync
restart c = record c { idle_since = none; samples = 0 }

-- `if idle:` of `observe`
unfoldable pub count_idle : ℕ → ClockSync → ClockSync
count_idle now c = record c {
  idle_since = elim c.idle_since [ none ↦ some now | some t ↦ some t ];
  samples = c.samples + 1;
}

-- `observe` while a synchronization is pending
unfoldable pub observe_pending : ℕ → Sample → ClockSync → ClockSync
unfolding is_idle gap_exceeded restart count_idle
observe_pending now s c =
    let idle = is_idle s in
    let c' = if not idle || gap_exceeded now c.last_sample then restart c else c in
    record (if idle then count_idle now c' else c') { last_sample = some now }

-- TargetClockSync.observe
unfoldable pub observe : ℕ → Sample → ClockSync → ClockSync
observe now s c = if c.pending then observe_pending now s c else c

-- `now - t >= IDLE_SECONDS`, and `now - t <= MAX_SAMPLE_GAP`
unfoldable pub idle_enough : ℕ → Option ℕ → Bool
idle_enough now none = false
idle_enough now (some t) = leb idle_time (now - t)

unfoldable pub recent : ℕ → Option ℕ → Bool
recent now none = false
recent now (some t) = leb (now - t) max_sample_gap

-- TargetClockSync.ready
unfoldable pub ready : ℕ → ClockSync → Bool
unfolding idle_enough recent
ready now c =
    c.pending
    && leb 3 c.samples
    && idle_enough now c.idle_since
    && leb c.retry_at now
    && recent now c.last_sample

-- `cancelled.is_set()` of an Event that an attempt has taken
unfoldable pub is_set : ℕ → ClockSync → Bool
is_set event c = not (event == c.event) || c.is_cancelled

-- What `synchronize` returns.
pub data SyncReason : Type 0 where
  waiting_for_idle model_running target_or_link_busy on_target : SyncReason

pub data SyncResult : Type 0 where
  deferred : SyncReason → SyncResult
  cancelled synchronized : SyncResult
  failed : Error → Bool → SyncResult

module _ (h : TargetHost) where
  -- The synchronization and the outside world.
  pub record Sync : Type 0 where
    pub clock : ClockSync
    pub world : h.World

  -- what another thread does to the synchronization
  unfoldable pub interrupt : ℕ → List Interruption → ClockSync → ClockSync
  unfolding arm observe
  interrupt now [] c = c
  interrupt now (cancelled_then ∷ rest) c = interrupt now rest (cancel c)
  interrupt now (armed_then password ∷ rest) c = interrupt now rest (arm password c)
  interrupt now (observed_then s ∷ rest) c = interrupt now rest (observe now s c)

  -- an operation outside, with what other threads do until it is over
  abbrev pub on_host : {A : Type 0} → Exec h.World A → Exec Sync A
  on_host g s =
      let (r, w) = g s.world in
      (r, record s { world = w; clock = interrupt (h.monotonic w) (h.meanwhile w) s.clock })

  abbrev is_control : ℕ → Bool
  is_control c = c == 13 || c == 10 || c == 0

  -- TargetClockSync._request without the text of its command
  unfoldable pub request : Request → Exec Sync Answer
  request r = do
    raise_if (elim r [ probe ↦ false | apply password epoch zone offset ↦ any is_control password ])
        bad_password
    response ← on_host (h.execute r)
    elim response [ none ↦ raise bad_response | some answer ↦ pure answer ]

  abbrev is_true : Option Bool → Bool
  is_true none = false
  is_true (some b) = b

  abbrev is_false : Option Bool → Bool
  is_false none = false
  is_false (some b) = not b

  -- `self.monotonic()`
  abbrev pub now : Exec Sync ℕ
  now s = (ok (h.monotonic s.world), s)

  -- the end of the `try`, on the status that the target reports
  unfoldable pub confirm : ℕ → Option Status → Exec Sync SyncResult
  unfolding is_set cancel
  confirm event none s = (err not_confirmed, s)
  confirm event (some deferred_there) s = (ok (deferred on_target), s)
  confirm event (some synchronized_there) s =
      (ok synchronized, if is_set event s.clock then s else record s { clock = cancel s.clock })

  -- the part of the `try` that follows the idle checks
  unfoldable pub set_clock : ℕ → Text → Exec Sync SyncResult
  unfolding request confirm
  set_clock event password = do
    zone ← on_host h.timezone
    known ← elim zone [ none ↦ raise bad_timezone | some z ↦ pure z ]
    time ← on_host h.epoch
    set ← gets (λ s. is_set event s.clock)
    if set
        then pure cancelled
        else (request (apply password time.0 known time.1) >>= λ a. confirm event a.status)

  -- the probe of the target
  unfoldable pub probe_target : ℕ → Text → Exec Sync SyncResult
  unfolding request
  probe_target event password = do
    started ← now
    answer ← request probe
    ended ← now
    if not (is_true answer.idle) || ltb 1000000 (ended - started)
        then pure (deferred target_or_link_busy)
        else set_clock event password

  -- the part of the `try` under the lock
  unfoldable pub attempt_locked : ℕ → Text → Exec Sync SyncResult
  attempt_locked event password = do
    on_host h.begin
    running ← on_host h.status
    if not (is_false running) then pure (deferred model_running) else probe_target event password

  -- the `try` of `synchronize`
  unfoldable pub attempt : ℕ → Text → Exec Sync SyncResult
  attempt event password = do
    on_host h.lock
    set ← gets (λ s. is_set event s.clock)
    if set then pure cancelled else attempt_locked event password

  -- its `except`
  unfoldable pub count_failure : ℕ → Error → Sync → SyncResult × Sync
  unfolding is_set cancel
  count_failure event e s =
      if is_set event s.clock
      then (cancelled, s)
      else let c = record (s.clock) { failures = s.clock.failures + 1 } in
        let exhausted = leb max_failures c.failures in
        (failed e (not exhausted), record s { clock = if exhausted then cancel c else c })

  -- its `finally`
  unfoldable pub schedule : ℕ → Sync → Sync
  schedule event s =
      if s.clock.pending && event == s.clock.event
      then record s {
        clock = record (s.clock) {
          retry_at = h.monotonic s.world + retry_time;
          idle_since = none;
          last_sample = none;
          samples = 0;
        };
      }
      else s

  -- TargetClockSync.synchronize
  unfoldable pub synchronize : Sync → SyncResult × Sync
  unfolding ready attempt count_failure schedule
  synchronize s =
      let event = s.clock.event in
      let (r, s') = attempt event s.clock.password s in
      let (result, s'') : SyncResult × Sync = elim r [
        | ok x ↦ (x, s')
        | err e ↦ count_failure event e s'
      ] in
      if ready (h.monotonic s.world) s.clock
      then (result, schedule event s'')
      else (deferred waiting_for_idle, s)
