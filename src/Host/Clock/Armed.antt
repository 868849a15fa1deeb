-- ===== src/Host/Clock/Armed.antt =====
-- The fields of TargetClockSync (`shared/python/pyxcp_host/services/target_clock.py`) between calls, whatever
-- the target and other threads do.
use sim_rt.Prelude.{◌<◌, ◌≡◌, ◌⊎◌, true, not, none, List, [], ◌∷◌, Text}
use sim_rt.Host.Clock.Host.{TargetHost, Sample}
use sim_rt.Host.Clock.{ClockSync, max_failures, cancel, arm, observe, Sync, synchronize}

-- It is pending exactly while its Event is not set, it has failed less than three times since it was
-- armed, and what is not pending has nothing left of its password and its samples.
pub record IsArmed (c : ClockSync) : Type 0 where
  pub open_event : c.pending ≡ not c.is_cancelled
  pub few_failures : c.failures < max_failures
  pub wiped :
      (c.pending ≡ true)
      ⊎ ((c.password ≡ []) × (c.idle_since ≡ none) × (c.last_sample ≡ none) × (c.samples ≡ 0))

module _ (h : TargetHost) where
  abbrev Armed : Sync h → Type 0
  Armed s = IsArmed s.clock

  -- A call of the synchronization; the world may have changed since the last one.
  pub data SyncCall : Type 0 where
    cancelling : SyncCall
    arming : Text → SyncCall
    synchronizing : h.World → SyncCall
    observing : Sample → h.World → SyncCall

  unfoldable pub run_sync : List SyncCall → ClockSync → ClockSync
  run_sync [] c = c
  run_sync (cancelling ∷ calls) c = run_sync calls (cancel c)
  run_sync (arming password ∷ calls) c = run_sync calls (arm password c)
  run_sync (observing s w ∷ calls) c = run_sync calls (observe (h.monotonic w) s c)
  run_sync (synchronizing w ∷ calls) c =
      run_sync calls (synchronize h (record { clock = c; world = w })).1.clock
