-- ===== src/Host/Clock/Attempts.antt =====
-- What an attempt of TargetClockSync (`shared/python/pyxcp_host/services/target_clock.py`) keeps of the
-- fields, whatever the target and other threads do.
use sim_rt.Prelude.{ℕ, Bool, Option, none, some, List, [], ◌∷◌, arith, Text, if◌then◌else◌}
use sim_rt.Prelude.Int.{ℤ}
use sim_rt.Exec.{Exec, Keeps, Keeps-if, >>=-Keeps, raise, pure, gets, ◌>>=◌, bad_timezone}
use sim_rt.Host.Clock.Host.{
  Request, probe, apply, Status, deferred_there, synchronized_there, TargetHost, Interruption,
  cancelled_then, armed_then, observed_then, Sample,
}
use sim_rt.Host.Clock.{
  ClockSync, cancel, arm, observe, is_set, Sync, SyncResult, cancelled, interrupt, on_host, request,
  confirm, set_clock, probe_target, attempt_locked, attempt,
}

-- What the calls of other threads keep.
pub record IsStable (P : ClockSync → Type 0) : Type 0 where
  pub cancels : (c : ClockSync) → P c → P (cancel c)
  pub arms : (password : Text) (c : ClockSync) → P c → P (arm password c)
  pub observes : (t : ℕ) (s : Sample) (c : ClockSync) → P c → P (observe t s c)

module _ (h : TargetHost) (P : ClockSync → Type 0) (stable : IsStable P) where
  abbrev pub Stable : Sync h → Type 0
  Stable s = P s.clock

  interrupt-P :
      (t : ℕ) (calls : List Interruption) (c : ClockSync) → P c → P (interrupt h t calls c)
  unfolding interrupt
  interrupt-P t [] c a = a
  interrupt-P t (cancelled_then ∷ rest) c a = interrupt-P t rest _ (stable.cancels c a)
  interrupt-P t (armed_then password ∷ rest) c a = interrupt-P t rest _ (stable.arms password c a)
  interrupt-P t (observed_then s ∷ rest) c a = interrupt-P t rest _ (stable.observes t s c a)

  on_host-Stable : {A : Type 0} (g : Exec h.World A) → Keeps Stable (on_host h g)
  on_host-Stable g = record {
    at = λ s a. let (r, w) = g s.world in interrupt-P (h.monotonic w) (h.meanwhile w) s.clock a;
  }

  request-Stable : (r : Request) → Keeps Stable (request h r)
  unfolding request
  request-Stable r = record { at = λ s a. ground (arith, (on_host-Stable (h.execute r)).at s a) }

  confirm-Stable : (event : ℕ) (status : Option Status) → Keeps Stable (confirm h event status)
  unfolding confirm
  confirm-Stable event none = record { at = λ s a. a }
  confirm-Stable event (some deferred_there) = record { at = λ s a. a }
  confirm-Stable event (some synchronized_there) = record {
    at = λ s a. ground (arith, a, stable.cancels s.clock a);
  }

  zone_of : Option Text → Exec (Sync h) Text
  zone_of zone = elim zone [ none ↦ raise bad_timezone | some z ↦ pure z ]

  zone_of-Stable : (zone : Option Text) → Keeps Stable (zone_of zone)
  unfolding zone_of
  zone_of-Stable none = record { at = λ s a. a }
  zone_of-Stable (some z) = record { at = λ s a. a }

  send : ℕ → Text → Text → ℕ × ℤ → Bool → Exec (Sync h) SyncResult
  send event password zone time set =
      if set
      then pure cancelled
      else (request h (apply password time.0 zone time.1) >>= λ a. confirm h event a.status)

  send-Stable :
      (event : ℕ) (password zone : Text) (time : ℕ × ℤ) (set : Bool)
      → Keeps Stable (send event password zone time set)
  unfolding send
  send-Stable event password zone time set =
      let asked = apply password time.0 zone time.1 in
      Keeps-if set (pure cancelled) (request h asked >>= λ a. confirm h event a.status)
        (record { at = λ s a. a })
        (>>=-Keeps (request h asked) (λ a. confirm h event a.status) (request-Stable asked)
          (λ a. confirm-Stable event a.status))

  set_clock-Stable : (event : ℕ) (password : Text) → Keeps Stable (set_clock h event password)
  unfolding set_clock zone_of send
  set_clock-Stable event password =
      let taken = gets (λ (s : Sync h). is_set event s.clock) in
      let then_send = λ (zone : Text) (time : ℕ × ℤ). taken >>= send event password zone time in
      >>=-Keeps (on_host h h.timezone)
        (λ zone. zone_of zone >>= λ z. on_host h h.epoch >>= then_send z)
        (on_host-Stable h.timezone)
        (λ zone.
          >>=-Keeps (zone_of zone) (λ z. on_host h h.epoch >>= then_send z) (zone_of-Stable zone)
            (λ z. >>=-Keeps (on_host h h.epoch) (then_send z) (on_host-Stable h.epoch) (λ time.
              >>=-Keeps taken (send event password z time) (record { at = λ s a. a })
                (send-Stable event password z time))))

  probe_target-Stable : (event : ℕ) (password : Text) → Keeps Stable (probe_target h event password)
  unfolding probe_target
  probe_target-Stable event password = record {
    at = λ s a.
        let asked = (request-Stable probe).at s a in
        ground (arith, asked, (set_clock-Stable event password).at (request h probe s).1 asked);
  }

  attempt_locked-Stable :
      (event : ℕ) (password : Text) → Keeps Stable (attempt_locked h event password)
  unfolding attempt_locked
  attempt_locked-Stable event password = record {
    at = λ s a.
        let begun = (on_host-Stable h.begin).at s a in
        let s1 = (on_host h h.begin s).1 in
        let told = (on_host-Stable h.status).at s1 begun in
        ground (
          arith,
          begun,
          told,
          (probe_target-Stable event password).at (on_host h h.status s1).1 told,
        );
  }

  pub attempt-Stable : (event : ℕ) (password : Text) → Keeps Stable (attempt h event password)
  unfolding attempt
  attempt-Stable event password = record {
    at = λ s a.
        let got = (on_host-Stable h.lock).at s a in
        ground (arith, got, (attempt_locked-Stable event password).at (on_host h h.lock s).1 got);
  }
