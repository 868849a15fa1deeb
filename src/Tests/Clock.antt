-- ===== src/Tests/Clock.antt =====
-- The clock synchronization of `shared/python/pyxcp_host` with a target that never answers.
use sim_rt.Prelude.{ℕ, ◌+◌, ◌≤◌, ◌≡◌, refl, true, false, some, List, [], ◌∷◌, codes}
use sim_rt.Prelude.Int.{pos}
use sim_rt.Exec.{ok, err, foreign}
use sim_rt.Host.Clock.Host.{Sample, TargetHost}
use sim_rt.Host.Clock
use sim_rt.Host.Clock.{ClockSync, new_clock_sync, ready, arm, idle_time}
use sim_rt.Host.Clock.Streak.{Observed, IsStreak}
use sim_rt.Host.Clock.Ready.{log_of, ready-IsStreak}
use sim_rt.Host.Clock.Armed.{SyncCall, arming, observing, synchronizing, run_sync}

-- its world is the time; every request fails
abbrev silent : TargetHost
silent = record {
  World = ℕ;
  monotonic = λ t. t;
  lock = λ t. (ok tt, t);
  begin = λ t. (ok tt, t + 1000);
  status = λ t. (ok (some false), t + 1000);
  execute = λ r t. (err (foreign 7), t + 100000);
  timezone = λ t. (ok (some (codes "Europe/Berlin")), t);
  epoch = λ t. (ok (1700000000000000, pos 3600), t);
  meanwhile = λ t. [];
}

abbrev calm : Sample
calm = record { running = some false; cpu = some 10000000; cores = some 20000000 ∷ some 0 ∷ [] }

abbrev calls : List (SyncCall silent)
calls =
    arming (codes "secret")
    ∷ observing calm 2000000
    ∷ observing calm 4000000
    ∷ observing calm 6000000
    ∷ synchronizing 6500000
    ∷ []

-- the attempt has failed once, and another one is due in thirty seconds
failed_once : (run_sync silent calls new_clock_sync).failures ≡ 1
unfolding run_sync Clock.observe Clock.observe_pending Clock.is_idle Clock.all_below
    Clock.gap_exceeded Clock.restart Clock.count_idle arm Clock.cancel new_clock_sync ready
    Clock.idle_enough Clock.recent Clock.synchronize Clock.attempt Clock.attempt_locked
    Clock.probe_target Clock.request Clock.interrupt Clock.is_set Clock.count_failure Clock.schedule
failed_once = refl

-- after the attempt and its thirty seconds, three samples and a fourth in which a model ran before them
abbrev retry : List (SyncCall silent)
retry =
    observing calm 2000000
    ∷ observing calm 4000000
    ∷ observing calm 6000000
    ∷ synchronizing 6500000
    ∷ observing (record calm { running = some true }) 35000000
    ∷ observing calm 36000000
    ∷ observing calm 39000000
    ∷ observing calm 41000000
    ∷ []

abbrev seen : Observed
seen =
    (41000000, calm)
    ∷ (39000000, calm)
    ∷ (36000000, calm)
    ∷ (35000000, record calm { running = some true })
    ∷ []

abbrev armed : ClockSync
armed = arm (codes "secret") new_clock_sync

armed_once : (run_sync silent retry armed).event ≡ new_clock_sync.event + 1
unfolding run_sync Clock.observe Clock.observe_pending Clock.is_idle Clock.all_below
    Clock.gap_exceeded Clock.restart Clock.count_idle arm Clock.cancel new_clock_sync ready
    Clock.idle_enough Clock.recent Clock.synchronize Clock.attempt Clock.attempt_locked
    Clock.probe_target Clock.request Clock.interrupt Clock.is_set Clock.count_failure Clock.schedule
armed_once = refl

ready_again : ready 41500000 (run_sync silent retry armed) ≡ true
unfolding run_sync Clock.observe Clock.observe_pending Clock.is_idle Clock.all_below
    Clock.gap_exceeded Clock.restart Clock.count_idle arm Clock.cancel new_clock_sync ready
    Clock.idle_enough Clock.recent Clock.synchronize Clock.attempt Clock.attempt_locked
    Clock.probe_target Clock.request Clock.interrupt Clock.is_set Clock.count_failure Clock.schedule
ready_again = refl

ready-IsStreak_example :
    (n since : ℕ) × (3 ≤ n)
    × (since + idle_time ≤ 41500000)
    × IsStreak since n (log_of silent retry armed [])
ready-IsStreak_example =
    ready-IsStreak silent (codes "secret") new_clock_sync retry 41500000 armed_once ready_again

-- what it has observed since the attempt
log_of-retry : log_of silent retry armed [] ≡ seen
unfolding log_of run_sync Clock.observe Clock.observe_pending Clock.is_idle Clock.all_below
    Clock.gap_exceeded Clock.restart Clock.count_idle arm Clock.cancel new_clock_sync ready
    Clock.idle_enough Clock.recent Clock.synchronize Clock.attempt Clock.attempt_locked
    Clock.probe_target Clock.request Clock.interrupt Clock.is_set Clock.count_failure Clock.schedule
log_of-retry = refl
