-- ===== src/Host/Clock/Host.antt =====
-- What TargetClockSync of `shared/python/pyxcp_host/services/target_clock.py` calls: the deployment's
-- SSH connection, the clocks and the time zone of this computer. A parameter; its operations may raise.
use sim_rt.Prelude.{ℕ, Bool, Option, List, Text}
use sim_rt.Prelude.Int.{ℤ}
use sim_rt.Exec.{Exec}

-- a request to the helper on the target; the epoch is in microseconds, the offset in seconds
pub data Request : Type 0 where
  probe : Request
  apply : Text → ℕ → Text → ℤ → Request

pub data Status : Type 0 where
  deferred_there synchronized_there : Status

-- The fields of a response; none is a field that is missing or has another value.
pub record Answer : Type 0 where
  pub idle : Option Bool
  pub status : Option Status

-- What the monitor reports: a load is none when it is missing, not finite or negative.
pub record Sample : Type 0 where
  pub running : Option Bool
  pub cpu : Option ℕ
  pub cores : List (Option ℕ)

-- A call of another thread while an operation lasts.
pub data Interruption : Type 0 where
  cancelled_then : Interruption
  armed_then : Text → Interruption
  observed_then : Sample → Interruption

pub record TargetHost : Type 1 where
  pub World : Type 0
  pub monotonic : World → ℕ
  -- deployment._operation_lock, _begin(), status().get('running') and _execute
  pub lock : Exec World Unit
  pub begin : Exec World Unit
  pub status : Exec World (Option Bool)
  -- the response of the helper; none is one that is no dict
  pub execute : Request → Exec World (Option Answer)
  -- timezone_provider(), none where it is no zone name; epoch() with the offset of local time
  pub timezone : Exec World (Option Text)
  pub epoch : Exec World (ℕ × ℤ)
  -- what other threads have called during the last operation
  pub meanwhile : World → List Interruption
