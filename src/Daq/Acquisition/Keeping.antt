-- ===== src/Daq/Acquisition/Keeping.antt =====
-- What each command to the slave keeps, `start`, `stop` and `drain` of
-- `shared/python/pyxcp_host/services/daq_acquisition.py` keep: one rule for any property of the client.
use sim_rt.Prelude.{refl, ℕ, List, true, not, map, length, arith}
use sim_rt.Prelude.Int.{ℤ, pos_part}
use sim_rt.Exec.{
  Exec, ◌>>=◌, Error, Keeps, Keeps-same, >>=-Keeps, catch-Keeps, modify, gets, raise_if, pure,
  omitted_signal,
}
use sim_rt.Transport.{PyxcpConfig}
use sim_rt.Transport.Master.{Master}
use sim_rt.Scalar.{A2lScalar}
use sim_rt.A2l.{DaqEvent}
use sim_rt.Client.{Client, require_master}
use sim_rt.Client.Keeping.{KeptBy}
use sim_rt.Daq.{Decoder, Layout, Policy}
use sim_rt.Daq.Prepare.{Setup}
use sim_rt.Daq.Period.{PeriodSource}
use sim_rt.Daq.Acquisition.Slave.{DaqMaster}
use sim_rt.Daq.Acquisition.{
  Acquisition, Starting, on_slave, on_starting, exchange, prepare_fresh, attach, activate_fresh,
  lay_out, launch, try_start, finalize_policy, give_back, detach, withdraw, clean_up, run_start,
  resolve_period, require_client_master, require_ready, negotiate, begin, finish_start, start, stop,
  drain, same_names,
}

module _ (m : Master PyxcpConfig) (d : Decoder) (dm : DaqMaster m d) (P : Client m → Type 0) where
  -- Every command of an acquisition keeps the property of the client.
  pub record DaqKeeps : Type 0 where
    pub by_unlock : KeptBy m P (λ w. (dm.unlock w).1)
    pub by_setup : (n : ℕ) (l : List A2lScalar) → KeptBy m P (λ w. (dm.setup n l w).1)
    pub by_start : KeptBy m P (λ w. (dm.start w).1)
    pub by_stop : KeptBy m P (λ w. (dm.stop w).1)
    pub by_stop_all : KeptBy m P (λ w. (dm.stop_all w).1)
    pub by_event_info : (n : ℕ) → KeptBy m P (λ w. (dm.event_info n w).1)
    pub by_daq_info : KeptBy m P (λ w. (dm.daq_info w).1)

  abbrev pub OnClient : Acquisition m d → Type 0
  OnClient a = P a.client

  abbrev OnStarting : Starting m d → Type 0
  OnStarting s = P s.acquisition.client

  slave-Keeps :
      {A : Type 0} (g : Exec m.World A)
      → KeptBy m P (λ w. (g w).1)
      → Keeps OnClient (on_slave m d dm g)
  slave-Keeps g k = record { at = λ a h. k a.client h }

  starting-Keeps :
      {A : Type 0} (g : Exec (Acquisition m d) A)
      → Keeps OnClient g
      → Keeps OnStarting (on_starting m d dm g)
  starting-Keeps g k = record { at = λ s h. k.at s.acquisition h }

  module _ (k : DaqKeeps) where
    prepare_fresh-Keeps : (setup : Setup) → Keeps OnStarting (prepare_fresh m d dm setup)
    unfolding prepare_fresh
    prepare_fresh-Keeps setup = record { at = λ s h. h }

    attach-Keeps : Keeps OnStarting (attach m d dm)
    unfolding attach exchange
    attach-Keeps = record { at = λ s h. ground arith }

    activate_fresh-Keeps : Keeps OnStarting (activate_fresh m d dm)
    unfolding activate_fresh
    activate_fresh-Keeps = record { at = λ s h. h }

    lay_out-Keeps :
        (channel period : ℕ) (selected : List A2lScalar)
        → Keeps OnStarting (lay_out m d dm channel period selected)
    unfolding lay_out
    lay_out-Keeps channel period selected =
        let named = λ (l : Layout). not (same_names l.names (map (λ s. s.name) selected)) in
        let check = λ (l : Layout).
          >>=-Keeps (raise_if (named l) omitted_signal) (λ _. pure l) (Keeps-same _ (λ s. refl))
            (λ _. Keeps-same _ (λ s. refl)) in
        let changed : Keeps {A = Unit} OnStarting
            (modify (λ s. record s { changed_target = true })) =
          record { at = λ s h. h } in
        >>=-Keeps (on_starting m d dm (on_slave m d dm dm.unlock)) _
          (starting-Keeps _ (slave-Keeps dm.unlock k.by_unlock))
          (λ _. >>=-Keeps (modify (λ s. record s { changed_target = true })) _ changed (λ _.
            >>=-Keeps (gets (λ s. s.acquisition.capacity)) _ (Keeps-same _ (λ s. refl)) (λ capacity.
              >>=-Keeps (on_starting m d dm (on_slave m d dm (dm.setup channel selected))) _
                (starting-Keeps _
                  (slave-Keeps (dm.setup channel selected) (k.by_setup channel selected)))
                (λ setup.
                  >>=-Keeps
                    (prepare_fresh m d dm
                      (record setup { capacity = capacity; period_ps = period }))
                    _ (prepare_fresh-Keeps _) check))))

    launch-Keeps : (l : Layout) → Keeps OnStarting (launch m d dm l)
    unfolding launch
    launch-Keeps l = >>=-Keeps (attach m d dm) _ attach-Keeps (λ _.
        >>=-Keeps (activate_fresh m d dm) _ activate_fresh-Keeps (λ _.
          >>=-Keeps (on_starting m d dm (on_slave m d dm dm.start)) (λ _. pure l)
            (starting-Keeps _ (slave-Keeps dm.start k.by_start))
            (λ _. Keeps-same (pure l) (λ s. refl))))

    clean_up-Keeps : (e : Error) → Keeps OnStarting (clean_up m d dm e)
    unfolding clean_up withdraw detach give_back exchange finalize_policy
    clean_up-Keeps e = record { at = λ s h. ground (arith, k.by_stop_all s.acquisition.client h) }

    run_start-Keeps :
        (channel period : ℕ) (selected : List A2lScalar) (p : Policy d)
        → Keeps OnClient (run_start m d dm channel period selected p)
    unfolding run_start try_start
    run_start-Keeps channel period selected p = record {
      at = λ a h.
          (catch-Keeps (try_start m d dm channel period selected) (clean_up m d dm)
              (>>=-Keeps (lay_out m d dm channel period selected) _
                (lay_out-Keeps channel period selected) launch-Keeps)
              clean_up-Keeps).at
            _ h;
    }

    negotiate-Keeps :
        (selected : List A2lScalar) (channel : ℕ) (events : List DaqEvent)
        → Keeps OnClient (negotiate m d dm selected channel events)
    unfolding negotiate resolve_period
    negotiate-Keeps selected channel events = record {
      at = λ a h.
          let asked = k.by_event_info channel a.client h in
          ground (arith, asked, k.by_daq_info _ asked);
    }

    require_ready-Keeps : (n : ℕ) (channel : ℤ) → Keeps OnClient (require_ready m d dm n channel)
    unfolding require_ready require_client_master require_master
    require_ready-Keeps n channel = record { at = λ a h. ground arith }

    begin-Keeps :
        (selected : List A2lScalar) (channel : ℕ) (found : (ℕ × PeriodSource) × Policy d)
        → Keeps OnClient (begin m d dm selected channel found)
    unfolding begin finish_start
    begin-Keeps selected channel (found, p) =
        >>=-Keeps (run_start m d dm channel found.0 selected p)
          (finish_start m d dm channel found selected) (run_start-Keeps channel found.0 selected p)
          (λ l. record { at = λ a h. h })

    pub start-Keeps :
        (selected : List A2lScalar) (channel : ℤ) (events : List DaqEvent)
        → Keeps OnClient (start m d dm selected channel events)
    unfolding start
    start-Keeps selected channel events =
        >>=-Keeps (require_ready m d dm (length selected) channel)
          (λ _.
            negotiate m d dm selected (pos_part channel) events
            >>= begin m d dm selected (pos_part channel))
          (require_ready-Keeps (length selected) channel)
          (λ _.
            >>=-Keeps (negotiate m d dm selected (pos_part channel) events)
              (begin m d dm selected (pos_part channel))
              (negotiate-Keeps selected (pos_part channel) events)
              (begin-Keeps selected (pos_part channel)))

    pub stop-Keeps : Keeps OnClient (stop m d dm)
    unfolding stop give_back exchange finalize_policy
    stop-Keeps = record { at = λ a h. ground (arith, k.by_stop a.client h) }

    pub drain-Keeps : (n : ℕ) → Keeps OnClient (drain m d dm n)
    unfolding drain
    drain-Keeps n = record { at = λ a h. ground arith }
