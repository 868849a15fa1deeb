-- ===== src/Host/Clock/Ready.antt =====
-- `ready` of TargetClockSync (`shared/python/pyxcp_host/services/target_clock.py`) over observations and
-- attempts, with the retries after them.
use sim_rt.Prelude.{
  ℕ, ◌+◌, ◌≤◌, ◌≡◌, ◌⊎◌, inl, inr, refl, sym, ◌∙◌, subst, true, false, none, List, [], ◌∷◌, arith,
  Text, Bool-cases, if◌then◌else◌,
}
use sim_rt.Exec.{ok, err, Error, Result-cases}
use sim_rt.Host.Clock.Host.{TargetHost, Sample}
use sim_rt.Host.Clock.{
  ClockSync, Sync, retry_time, idle_time, cancel, arm, observe, observe_pending, restart,
  count_idle, ready, attempt, count_failure, schedule, synchronize,
}
use sim_rt.Host.Clock.Attempts.{IsStable, attempt-Stable}
use sim_rt.Host.Clock.Armed.{SyncCall, cancelling, arming, synchronizing, observing, run_sync}
use sim_rt.Host.Clock.Streak.{Observed, IsStreak, Counts, arm-Counts, observe-Counts, ready_counts}

-- The number of the Event goes up with each `arm`.
Later : ℕ → ClockSync → Type 0
Later n c = n ≤ c.event

Later-IsStable : (n : ℕ) → IsStable (Later n)
unfolding Later cancel arm observe observe_pending restart count_idle
Later-IsStable n = record {
  cancels = λ c le. le;
  arms = λ password c le. omega arith;
  observes = λ t s c le. ground arith;
}

-- It is cancelled, or its fields are what the samples say.
abbrev Tracked : Observed → ClockSync → Type 0
Tracked l c = (c.pending ≡ false) ⊎ Counts l c

observe-Tracked :
    (t : ℕ) (s : Sample) (l : Observed) (c : ClockSync)
    → Tracked l c
    → Tracked ((t, s) ∷ l) (observe t s c)
observe-Tracked t s l c (inl off) = unfold observe in inl (ground (arith, off))
observe-Tracked t s l c (inr counts) = inr (observe-Counts t s l c counts)

observe_event : (t : ℕ) (s : Sample) (c : ClockSync) → (observe t s c).event ≡ c.event
unfolding observe observe_pending restart count_idle
observe_event t s c = ground arith

cancel-Tracked :
    (l : Observed) (c : ClockSync) → Tracked l (cancel c) × ((cancel c).event ≡ c.event)
unfolding cancel
cancel-Tracked l c = (inl refl, refl)

arm_event : (password : Text) (c : ClockSync) → (arm password c).event ≡ c.event + 1
unfolding arm
arm_event password c = refl

module _ (h : TargetHost) where
  count_failure_event :
      (event : ℕ) (e : Error) (s : Sync h)
      → (count_failure h event e s).1.clock.event ≡ s.clock.event
  unfolding count_failure cancel
  count_failure_event event e s = ground arith

  schedule_event : (event : ℕ) (s : Sync h) → (schedule h event s).clock.event ≡ s.clock.event
  unfolding schedule
  schedule_event event s = ground arith

  schedule-Tracked :
      (event : ℕ) (s : Sync h) → event ≡ s.clock.event → Tracked [] (schedule h event s).clock
  unfolding schedule
  schedule-Tracked event s same = elim (Bool-cases s.clock.pending) [
    | inr off ↦ inl (ground arith)
    | inl on ↦
        let e : (schedule h event s).clock ≡ record (s.clock) {
          retry_at = h.monotonic s.world + retry_time;
          idle_since = none;
          last_sample = none;
          samples = 0;
        } =
          ground (arith, on, same) in
        inr (
          subst (Counts []) (sym e)
            (record { pending = on; last = refl; streak = inl (refl, refl) }))
  ]

  -- the synchronization after the `except`, if that is where the attempt has gone
  tried : Sync h → Sync h
  tried s = elim (attempt h s.clock.event s.clock.password s).0 [
    | ok x ↦ (attempt h s.clock.event s.clock.password s).1
    | err e ↦ (count_failure h s.clock.event e (attempt h s.clock.event s.clock.password s).1).1
  ]

  tried_later : (n : ℕ) (s : Sync h) → n ≤ s.clock.event → n ≤ (tried s).clock.event
  unfolding tried Later
  tried_later n s le =
      let event = s.clock.event in
      let s1 = (attempt h event s.clock.password s).1 in
      let kept = (attempt-Stable h (Later n) (Later-IsStable n) event s.clock.password).at s le in
      elim (Result-cases (attempt h event s.clock.password s).0) [
        | inl (x, e) ↦ ground (arith, kept)
        | inr (why, e) ↦ ground (arith, kept, count_failure_event event why s1)
      ]

  synchronize-tried :
      (s : Sync h)
      → ready (h.monotonic s.world) s.clock ≡ true
      → (synchronize h s).1 ≡ schedule h s.clock.event (tried s)
  unfolding synchronize tried
  synchronize-tried s on = elim (Result-cases (attempt h s.clock.event s.clock.password s).0) [
    | inl (x, e) ↦ ground (arith, on)
    | inr (why, e) ↦ ground (arith, on)
  ]

  synchronize_waiting :
      (s : Sync h) → ready (h.monotonic s.world) s.clock ≡ false → (synchronize h s).1 ≡ s
  unfolding synchronize
  synchronize_waiting s off = ground (arith, off)

  -- The samples observed since the last attempt that was made, the last one first.
  unfoldable pub log_of : List (SyncCall h) → ClockSync → Observed → Observed
  unfolding run_sync
  log_of [] c l = l
  log_of (cancelling ∷ calls) c l = log_of calls (cancel c) []
  log_of (arming password ∷ calls) c l = log_of calls (arm password c) []
  log_of (observing s w ∷ calls) c l =
      log_of calls (observe (h.monotonic w) s c) ((h.monotonic w, s) ∷ l)
  log_of (synchronizing w ∷ calls) c l =
      log_of calls (synchronize h (record { clock = c; world = w })).1.clock
        (if ready (h.monotonic w) c then [] else l)

  -- what holds after a call, as long as the Event is still the one with the number `n`
  record IsFollowed (n : ℕ) (l : Observed) (c : ClockSync) : Type 0 where
    later : n ≤ c.event
    tracked : c.event ≡ n → Tracked l c

  synchronize-IsFollowed :
      (n : ℕ) (w : h.World) (l : Observed) (c : ClockSync)
      → IsFollowed n l c
      → IsFollowed n
          (if ready (h.monotonic w) c then [] else l)
          (synchronize h (record { clock = c; world = w })).1.clock
  synchronize-IsFollowed n w l c f =
      let s : Sync h = record { clock = c; world = w } in
      elim (Bool-cases (ready (h.monotonic w) c)) [
        | inr off ↦ rw (off, synchronize_waiting s off) f
        | inl on ↦
            let same = schedule_event c.event (tried s) in
            let low = tried_later n s f.later in
            let up : c.event ≤ (tried s).clock.event = tried_later c.event s (omega arith) in
            rw (on, synchronize-tried s on)
              (record {
                later = omega (arith, same, low);
                tracked = λ e.
                    schedule-Tracked c.event (tried s)
                      (let le = f.later in omega (arith, same, e, up, low, le));
              })
      ]

  run_sync-IsFollowed :
      (n : ℕ) (calls : List (SyncCall h)) (l : Observed) (c : ClockSync)
      → IsFollowed n l c
      → IsFollowed n (log_of calls c l) (run_sync h calls c)
  unfolding log_of run_sync
  run_sync-IsFollowed n [] l c f = f
  run_sync-IsFollowed n (cancelling ∷ calls) l c f =
      let (off, same) = cancel-Tracked [] c in
      run_sync-IsFollowed n calls [] (cancel c)
        (record { later = rw same (f.later); tracked = λ e. off })
  run_sync-IsFollowed n (arming password ∷ calls) l c f =
      let le = f.later in
      run_sync-IsFollowed n calls [] (arm password c) (record {
        later = omega (arith, arm_event password c, le);
        tracked = λ e. inr (arm-Counts password c);
      })
  run_sync-IsFollowed n (observing s w ∷ calls) l c f =
      let same = observe_event (h.monotonic w) s c in
      run_sync-IsFollowed n calls ((h.monotonic w, s) ∷ l) (observe (h.monotonic w) s c) (record {
        later = rw same (f.later);
        tracked = λ e. observe-Tracked (h.monotonic w) s l c (f.tracked (sym same ∙ e));
      })
  run_sync-IsFollowed n (synchronizing w ∷ calls) l c f =
      run_sync-IsFollowed n calls _ _ (synchronize-IsFollowed n w l c f)

  -- After `arm` and then any calls, attempts with their failures and retries among them, and while no
  -- other `arm` has come since, neither as a call nor in the middle of an attempt: a synchronization
  -- that is ready has observed since the last attempt that it made, or since it was armed where it made
  -- none, as its last samples, three or more in which no model ran and every load was below the limit,
  -- none taken more than six seconds after the one before it; the first of them was taken four seconds
  -- ago or earlier.
  pub ready-IsStreak :
      (password : Text) (c : ClockSync) (calls : List (SyncCall h)) (now : ℕ)
      → (run_sync h calls (arm password c)).event ≡ c.event + 1
      → ready now (run_sync h calls (arm password c)) ≡ true
      → (n since : ℕ) × (3 ≤ n)
        × (since + idle_time ≤ now)
        × IsStreak since n (log_of calls (arm password c) [])
  ready-IsStreak password c calls now unarmed on =
      let c' = run_sync h calls (arm password c) in
      let one = arm_event password c in
      let followed =
        run_sync-IsFollowed (c.event + 1) calls [] (arm password c)
          (record { later = omega (arith, one); tracked = λ e. inr (arm-Counts password c) }) in
      let (three, old) = ready_counts now c' on in
      elim (followed.tracked unarmed) [
        | inl off ↦ unfold ready in ground (arith, on, off)
        | inr counts ↦ elim counts.streak [
          | inl (_, zero) ↦ ground (arith, three, zero)
          | inr (since, going, streak) ↦ (c'.samples, since, three, old since going, streak)
        ]
      ]
