-- ===== src/Daq/Acquisition/Lifecycle.antt =====
-- The consumer of the transport before and after `start` and `stop` of
-- `shared/python/pyxcp_host/services/daq_acquisition.py`.
use sim_rt.Prelude.{
  map, ℕ, ◌+◌, ◌≡◌, refl, sym, subst, ◌⊎◌, inl, inr, true, false, not, Option, none, some, List, [],
  ◌∷◌, arith,
}
use sim_rt.Prelude.Int.{ℤ, pos_part}
use sim_rt.Daq.Period.{PeriodSource}
use sim_rt.Client.{require_master}
use sim_rt.Prelude.{length}
use sim_rt.Exec.{
  next, bind-next, omitted_signal, Keeps, >>=-Keeps, Keeps-same, gets, modify, pure, raise_if,
  Result, ok, err, Error, Exec, Result-cases, ◌>>=◌,
}
use sim_rt.Transport.{PyxcpConfig}
use sim_rt.Transport.Master.{Master}
use sim_rt.Scalar.{A2lScalar}
use sim_rt.A2l.{DaqEvent}
use sim_rt.Client.{connected}
use sim_rt.Daq.{Decoder, Layout, Policy}
use sim_rt.Daq.Prepare.{Setup, prepare, activate, new_policy}
use sim_rt.Daq.Acquisition.Slave.{DaqMaster}
use sim_rt.Daq.Acquisition.{
  require_ready, negotiate, begin, drain, Metadata, same_names, lay_out, launch, on_slave,
  on_starting, no_op, buffered, Made, Acquisition, Starting, exchange, prepare_fresh, attach,
  activate_fresh, try_start, finalize_policy, give_back, detach, withdraw, clean_up, run_start,
  resolve_period, require_client_master, finish_start, start, stop,
}

module _ (m : Master PyxcpConfig) (d : Decoder) (dm : DaqMaster m d) where
  -- The policy of this number is the acquisition's own, and it is not closed.
  abbrev HasPolicy : Option (Made d) → ℕ → Type 0
  HasPolicy none n = ⊥
  HasPolicy (some p) n = (p.number ≡ n) × (p.policy.closed ≡ false)

  -- While the acquisition is active the transport feeds its open policy, else pyXCP's own one.
  abbrev pub IsAttached : Acquisition m d → Type 0
  IsAttached a =
      ((a.active ≡ false) × (a.installed ≡ no_op))
      ⊎ ((a.active ≡ true)
          × (a.previous ≡ some no_op)
          × ((n : ℕ) × (a.installed ≡ buffered n) × HasPolicy a.policy n))

  -- What `start` keeps on its way: first as before, then attached.
  abbrev IsStarting : Starting m d → Type 0
  IsStarting s =
      (connected m s.acquisition.client ≡ true)
      × (s.acquisition.active ≡ false)
      × (s.fresh.policy.closed ≡ false)
      × (((s.attached ≡ false) × (s.acquisition.installed ≡ no_op))
          ⊎ ((s.attached ≡ true)
              × (s.acquisition.previous ≡ some no_op)
              × (s.acquisition.installed ≡ buffered s.fresh.number)
              × (s.acquisition.policy ≡ some s.fresh)))

  -- not active, and on pyXCP's own consumer
  abbrev IsIdle : Acquisition m d → Type 0
  IsIdle a = (a.active ≡ false) × (a.installed ≡ no_op)

  -- how the part of `start` that changes the target may end
  abbrev IsStarted : Result Layout × Acquisition m d → Type 0
  IsStarted (ok _, a) = IsAttached (record a { active = true })
  IsStarted (err _, a) = IsAttached a

  outcome : Result Layout × Starting m d → Result Layout × Acquisition m d
  outcome (r, s) = (r, s.acquisition)

  clean_up-IsStarted :
      (e : Error) (s : Starting m d) → IsStarting s → IsStarted (outcome (clean_up m d dm e s))
  unfolding outcome clean_up withdraw detach give_back exchange finalize_policy connected
  clean_up-IsStarted e s h = elim (Result-cases (dm.stop_all s.acquisition.client.world).0) [
    | inl (_, e) ↦ ground arith
    | inr (_, e) ↦ ground arith
  ]

  prepare-open : (s : Setup) (p : Policy d) → (prepare d s p).1.closed ≡ p.closed
  unfolding prepare
  prepare-open s p = ground arith

  -- before the policy is attached
  abbrev IsLoose : Starting m d → Type 0
  IsLoose s = IsStarting s × (s.attached ≡ false)

  on_slave-IsLoose :
      {A : Type 0} (f : Exec m.World A) → Keeps IsLoose (on_starting m d dm (on_slave m d dm f))
  unfolding connected
  on_slave-IsLoose f = record { at = λ s h. ground arith }

  prepare_fresh-IsLoose : (setup : Setup) → Keeps IsLoose (prepare_fresh m d dm setup)
  unfolding prepare_fresh connected
  prepare_fresh-IsLoose setup = record {
    at = λ s h. ground (arith, prepare-open setup s.fresh.policy);
  }

  lay_out-IsLoose :
      (channel period : ℕ) (selected : List A2lScalar)
      → Keeps IsLoose (lay_out m d dm channel period selected)
  unfolding lay_out
  lay_out-IsLoose channel period selected =
      let named = λ (l : Layout). not (same_names l.names (map (λ s. s.name) selected)) in
      let check = λ (l : Layout).
        >>=-Keeps (raise_if (named l) omitted_signal) (λ _. pure l) (Keeps-same _ (λ s. refl))
          (λ _. Keeps-same _ (λ s. refl)) in
      let changed : Keeps {A = Unit} IsLoose (modify (λ s. record s { changed_target = true })) =
        record { at = λ s h. h } in
      >>=-Keeps (on_starting m d dm (on_slave m d dm dm.unlock)) _ (on_slave-IsLoose dm.unlock)
        (λ _. >>=-Keeps (modify (λ s. record s { changed_target = true })) _ changed (λ _.
          >>=-Keeps (gets (λ s. s.acquisition.capacity)) _ (Keeps-same _ (λ s. refl)) (λ capacity.
            >>=-Keeps (on_starting m d dm (on_slave m d dm (dm.setup channel selected))) _
              (on_slave-IsLoose (dm.setup channel selected))
              (λ setup.
                >>=-Keeps
                  (prepare_fresh m d dm (record setup { capacity = capacity; period_ps = period }))
                  _ (prepare_fresh-IsLoose _) check))))

  -- How the `try` of `start` may end.
  abbrev IsTried : Result Layout × Starting m d → Type 0
  IsTried (ok l, s) = IsStarting s × (s.attached ≡ true)
  IsTried (err e, s) = IsStarting s

  launch-IsTried : (l : Layout) (s : Starting m d) → IsLoose s → IsTried (launch m d dm l s)
  unfolding launch attach activate_fresh exchange connected activate
  launch-IsTried l s h = elim (Result-cases (dm.start s.acquisition.client.world).0) [
    | inl (_, e) ↦ ground arith
    | inr (_, e) ↦ ground arith
  ]

  try_start-IsTried :
      (channel period : ℕ) (selected : List A2lScalar) (s : Starting m d)
      → IsLoose s
      → IsTried (try_start m d dm channel period selected s)
  unfolding try_start
  try_start-IsTried channel period selected s h =
      let kept = (lay_out-IsLoose channel period selected).at s h in
      elim (Result-cases (lay_out m d dm channel period selected s).0) [
        | inl (l, e) ↦ rw e (launch-IsTried l _ kept)
        | inr (why, e) ↦ rw e (kept.0)
      ]

  settle : Result Layout × Starting m d → Result Layout × Acquisition m d
  settle (ok l, s) = (ok l, s.acquisition)
  settle (err e, s) = outcome (clean_up m d dm e s)

  settle-IsStarted : (t : Result Layout × Starting m d) → IsTried t → IsStarted (settle t)
  unfolding settle connected
  settle-IsStarted (ok l, s) h = ground arith
  settle-IsStarted (err e, s) h = clean_up-IsStarted e s h

  run_start-settle :
      (channel period : ℕ) (selected : List A2lScalar) (p : Policy d) (a : Acquisition m d)
      → run_start m d dm channel period selected p a
        ≡ settle (
            try_start m d dm channel period selected (record {
              acquisition = record a { made = a.made + 1 };
              fresh = record { number = a.made; layout = none; policy = p };
              changed_target = false;
              attached = false;
            }))
  unfolding run_start settle outcome
  run_start-settle channel period selected p a = ground arith

  run_start-IsStarted :
      (channel period : ℕ) (selected : List A2lScalar) (p : Policy d) (a : Acquisition m d)
      → connected m a.client ≡ true
      → p.closed ≡ false
      → IsIdle a
      → IsStarted (run_start m d dm channel period selected p a)
  run_start-IsStarted channel period selected p a up fresh idle =
      rw (run_start-settle channel period selected p a) (
        settle-IsStarted _ (
          try_start-IsTried channel period selected _
            ((up, idle.0, fresh, inl (refl, idle.1)), refl)))

  new_policy-open :
      (n : ℕ) (native : d.World) (p : Policy d) → new_policy d n native ≡ ok p → p.closed ≡ false
  unfolding new_policy
  new_policy-open n native p h = ground arith

  abbrev IsReady : Acquisition m d → Type 0
  IsReady a = (connected m a.client ≡ true) × IsIdle a

  -- the guards change nothing, and let only an idle acquisition on a connected client pass
  abbrev IsGuarded : Acquisition m d → Result (Unit {0}) × Acquisition m d → Type 0
  IsGuarded a (ok _, b) = (b ≡ a) × (a.active ≡ false) × (connected m a.client ≡ true)
  IsGuarded a (err _, b) = b ≡ a

  require_ready-IsGuarded :
      (n : ℕ) (channel : ℤ) (a : Acquisition m d) → IsGuarded a (require_ready m d dm n channel a)
  unfolding require_ready require_client_master require_master
  require_ready-IsGuarded n channel a = ground arith

  resolve_period-IsReady :
      (channel : ℕ) (events : List DaqEvent) → Keeps IsReady (resolve_period m d dm channel events)
  unfolding resolve_period connected
  resolve_period-IsReady channel events = record { at = λ s h. ground arith }

  on_slave-IsReady : {A : Type 0} (f : Exec m.World A) → Keeps IsReady (on_slave m d dm f)
  unfolding connected
  on_slave-IsReady f = record { at = λ s h. ground arith }

  abbrev IsNegotiated : Result ((ℕ × PeriodSource) × Policy d) × Acquisition m d → Type 0
  IsNegotiated (ok (found, p), a) = IsReady a × (p.closed ≡ false)
  IsNegotiated (err e, a) = IsReady a

  negotiate-IsNegotiated :
      (selected : List A2lScalar) (channel : ℕ) (events : List DaqEvent) (a : Acquisition m d)
      → IsReady a
      → IsNegotiated (negotiate m d dm selected channel events a)
  unfolding negotiate resolve_period connected
  negotiate-IsNegotiated selected channel events a h =
      elim (Result-cases (new_policy d a.capacity dm.native)) [
        | inl (p, e) ↦ ground (arith, new_policy-open a.capacity dm.native p e)
        | inr (_, e) ↦ ground arith
      ]

  begin-IsAttached :
      (selected : List A2lScalar) (channel : ℕ) (found : ℕ × PeriodSource) (p : Policy d)
      (a : Acquisition m d)
      → IsReady a
      → p.closed ≡ false
      → IsAttached (begin m d dm selected channel (found, p) a).1
  unfolding begin finish_start
  begin-IsAttached selected channel found p a h fresh =
      ground (arith, run_start-IsStarted channel found.0 selected p a h.0 fresh h.1)

  begun-IsAttached :
      (selected : List A2lScalar) (channel : ℕ)
      (t : Result ((ℕ × PeriodSource) × Policy d) × Acquisition m d)
      → IsNegotiated t
      → IsAttached (next (begin m d dm selected channel) t).1
  begun-IsAttached selected channel (ok (found, p), a) h =
      begin-IsAttached selected channel found p a h.0 h.1
  begun-IsAttached selected channel (err e, a) h = inl h.1

  after_ready : List A2lScalar → ℕ → List DaqEvent → Exec (Acquisition m d) Metadata
  after_ready selected channel events =
      negotiate m d dm selected channel events >>= begin m d dm selected channel

  after_ready-IsAttached :
      (selected : List A2lScalar) (channel : ℕ) (events : List DaqEvent) (a : Acquisition m d)
      → IsReady a
      → IsAttached (after_ready selected channel events a).1
  unfolding after_ready
  after_ready-IsAttached selected channel events a h =
      rw (bind-next (begin m d dm selected channel) (negotiate m d dm selected channel events a))
        (begun-IsAttached selected channel _ (negotiate-IsNegotiated selected channel events a h))

  guarded-IsAttached :
      (selected : List A2lScalar) (channel : ℕ) (events : List DaqEvent) (a : Acquisition m d)
      (t : Result (Unit {0}) × Acquisition m d)
      → IsAttached a
      → IsGuarded a t
      → IsAttached (next (λ _. after_ready selected channel events) t).1
  guarded-IsAttached selected channel events a (ok _, b) h g =
      let (same, idle, up) = g in
      let consumer : a.installed ≡ no_op = ground arith in
      rw same (after_ready-IsAttached selected channel events a (up, (idle, consumer)))
  guarded-IsAttached selected channel events a (err e, b) h g = subst IsAttached (sym g) h

  start-next :
      (selected : List A2lScalar) (channel : ℤ) (events : List DaqEvent) (a : Acquisition m d)
      → start m d dm selected channel events a
        ≡ next
            (λ _. after_ready selected (pos_part channel) events)
            (require_ready m d dm (length selected) channel a)
  unfolding start after_ready
  start-next selected channel events a =
      bind-next _ (require_ready m d dm (length selected) channel a)

  pub start-IsAttached :
      (selected : List A2lScalar) (channel : ℤ) (events : List DaqEvent) (a : Acquisition m d)
      → IsAttached a
      → IsAttached (start m d dm selected channel events a).1
  start-IsAttached selected channel events a h = rw (start-next selected channel events a) (
      guarded-IsAttached selected (pos_part channel) events a _ h
        (require_ready-IsGuarded (length selected) channel a))

  pub stop-IsAttached : (a : Acquisition m d) → IsAttached a → IsAttached (stop m d dm a).1
  unfolding stop give_back exchange finalize_policy connected
  stop-IsAttached a h = elim (Result-cases (dm.stop a.client.world).0) [
    | inl (_, e) ↦ ground arith
    | inr (_, e) ↦ ground arith
  ]

  pub drain-IsAttached :
      (n : ℕ) (a : Acquisition m d) → IsAttached a → IsAttached (drain m d dm n a).1
  unfolding drain sim_rt.Daq.Samples.drain
  drain-IsAttached n a h = ground arith

  -- A method of the acquisition with its arguments.
  pub data AcquisitionCall : Type 0 where
    starting : List A2lScalar → ℤ → List DaqEvent → AcquisitionCall
    stopping : AcquisitionCall
    draining : ℕ → AcquisitionCall

  -- calls one after another, whether they return or raise
  unfoldable pub run_acquisition : List AcquisitionCall → Acquisition m d → Acquisition m d
  run_acquisition [] a = a
  run_acquisition (starting selected channel events ∷ calls) a =
      run_acquisition calls (start m d dm selected channel events a).1
  run_acquisition (stopping ∷ calls) a = run_acquisition calls (stop m d dm a).1
  run_acquisition (draining n ∷ calls) a = run_acquisition calls (drain m d dm n a).1

  -- No sequence of starts, stops and drains, whether they return or raise, loses the transport's
  -- consumer: while the acquisition is active the transport feeds its policy, which is not closed,
  -- and the consumer to give back is pyXCP's own one; else that one is installed.
  pub run_acquisition-IsAttached :
      (calls : List AcquisitionCall) (a : Acquisition m d)
      → IsAttached a
      → IsAttached (run_acquisition calls a)
  unfolding run_acquisition
  run_acquisition-IsAttached [] a h = h
  run_acquisition-IsAttached (starting selected channel events ∷ calls) a h =
      run_acquisition-IsAttached calls _ (start-IsAttached selected channel events a h)
  run_acquisition-IsAttached (stopping ∷ calls) a h =
      run_acquisition-IsAttached calls _ (stop-IsAttached a h)
  run_acquisition-IsAttached (draining n ∷ calls) a h =
      run_acquisition-IsAttached calls _ (drain-IsAttached n a h)
