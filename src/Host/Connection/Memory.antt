-- ===== src/Host/Connection/Memory.antt =====
-- The memory of the slave over a connection of `shared/python/pyxcp_host/services/xcp_session.py`.
use sim_rt.Prelude.{
  ◌≡◌, refl, ◌∙◌, Bool, true, false, Option, none, some, List, [], ◌∷◌, arith, Text, ap, inl, inr,
}
use sim_rt.Prelude.Int.{ℤ, pos}
use sim_rt.Prelude.Dict.{Dict, insert}
use sim_rt.Exec.{pure, Keeps-if, of_result, ◌>>=◌, Exec, Keeps, Keeps-same, >>=-Keeps, Result-cases}
use sim_rt.Transport.{PyxcpConfig}
use sim_rt.Transport.Master.{Master}
use sim_rt.Scalar.{size, A2lScalar, Kind, characteristic, measurement, Number}
use sim_rt.Scalar.Float64.{Floats}
use sim_rt.Scalar.Database.{get_scalar}
use sim_rt.Client.{Client, close_master}
use sim_rt.Client.Keeping.{read_memory-Keeps}
use sim_rt.Client.Memory.{Bytes, Truthful, Contained}
use sim_rt.Client.Characteristic.{read_measurement, read_characteristic, read_scalar, read_bytes}
use sim_rt.Session.{unique_names}
use sim_rt.Session.Pending.{IsRecoverable, step-IsRecoverable}
use sim_rt.Session.Restored.{restore_all-IsRecoverable, restore_named-IsRecoverable}
use sim_rt.Session.Written.{write_calibrations-IsRecoverable}
use sim_rt.Daq.{Decoder}
use sim_rt.Daq.Acquisition
use sim_rt.Daq.Acquisition.{Acquisition}
use sim_rt.Daq.Acquisition.Keeping.{DaqKeeps, start-Keeps, stop-Keeps, drain-Keeps}
use sim_rt.Daq.Acquisition.Slave.{DaqMaster}
use sim_rt.Host.Connection.{
  Catalog, Connection, session_of, on_client, on_daq, read_each, read_measurements,
  read_calibrations, write_calibrations, restore_calibrations, start_daq, stop_daq, drain_daq,
  require_client, new_acquisition, selected_calibrations, measurements_of,
}
use sim_rt.Host.Connection.Calls.{
  SessionCall, reading_measurements, reading_calibrations, writing_calibrations,
  restoring_calibrations, starting_daq, draining_daq, stopping_daq, call_connection, run_connection,
}
use sim_rt.Host.Connection.Slave.{SlaveProperties}

-- The commands of an acquisition and the ones that end a connection change no byte of the memory.
pub record Peaceful (m : Master PyxcpConfig) (t : Truthful m) (d : Decoder) (dm : DaqMaster m d)
    : Type 0 where
  pub daq : (before : Bytes) → DaqKeeps m d dm (λ c. t.mem c.world ≡ before)
  pub mem-disconnect : (w : m.World) → t.mem (m.disconnect w).1 ≡ t.mem w
  pub mem-close : (w : m.World) → t.mem (close_master m w).1 ≡ t.mem w

module _ (m : Master PyxcpConfig) (d : Decoder) (dm : DaqMaster m d) (hm : SlaveProperties m)
    (f : Floats) (catalog : Catalog) (t : Truthful m) (k : Contained m t)
    (calm : Peaceful m t d dm) where
  -- as in `Session.Pending`, of a connection
  abbrev pub CanRestore : Bytes → Connection m d → Type 0
  CanRestore before s = IsRecoverable m t catalog.by_name before (session_of m d dm hm f catalog s)

  -- what only the client has done, without a change of the memory
  client-CanRestore :
      (before : Bytes) (s : Connection m d) (a : Acquisition m d) (b : Bool)
      → CanRestore before s
      → t.mem a.client.world ≡ t.mem s.acquisition.client.world
      → CanRestore before (record s { acquisition = a; has_daq = b })
  client-CanRestore before s a b h same =
      step-IsRecoverable m t catalog.by_name before (session_of m d dm hm f catalog s) a.client h
        (λ e x _. ap (λ g. g e x) same)

  -- an action of the client, and one of the acquisition, that leaves the memory alone
  abbrev pub IsQuiet : {A : Type 0} → Exec (Client m) A → Type 0
  IsQuiet g = (before : Bytes) → Keeps (λ c. t.mem c.world ≡ before) g

  client_quiet-CanRestore :
      {A : Type 0} (before : Bytes) (g : Exec (Client m) A)
      → IsQuiet g
      → Keeps (CanRestore before) (on_client m d dm hm f catalog g)
  client_quiet-CanRestore before g q = record {
    at = λ s h.
        client-CanRestore before s (record (s.acquisition) { client = (g s.acquisition.client).1 })
          s.has_daq h ((q (t.mem s.acquisition.client.world)).at s.acquisition.client refl);
  }

  daq_quiet-CanRestore :
      {A : Type 0} (before : Bytes) (g : Exec (Acquisition m d) A)
      → ((b : Bytes) → Keeps (λ a. t.mem a.client.world ≡ b) g)
      → Keeps (CanRestore before) (on_daq m d dm hm f catalog g)
  daq_quiet-CanRestore before g q = record {
    at = λ s h.
        client-CanRestore before s ((g s.acquisition).1) s.has_daq h
          ((q (t.mem s.acquisition.client.world)).at s.acquisition refl);
  }

  read_scalar-IsQuiet : (s : A2lScalar) → IsQuiet (read_scalar m f s)
  unfolding read_scalar read_bytes
  read_scalar-IsQuiet s before = record {
    at = λ c h. ground (
      arith,
      (read_memory-Keeps m (λ c. t.mem c.world ≡ before) (λ a e c h. t.mem-set_mta a e c.world ∙ h)
            (λ n c h. t.mem-upload n c.world ∙ h) (pos s.address) (pos (size s))
            (pos s.address_extension)).at
          c h,
    );
  }

  read_measurement-IsQuiet : (s : A2lScalar) → IsQuiet (read_measurement m f s)
  unfolding read_measurement
  read_measurement-IsQuiet s before = record {
    at = λ c h. ground (arith, (read_scalar-IsQuiet s before).at c h);
  }

  read_characteristic-IsQuiet : (s : A2lScalar) → IsQuiet (read_characteristic m f s)
  unfolding read_characteristic
  read_characteristic-IsQuiet s before = record {
    at = λ c h. ground (arith, (read_scalar-IsQuiet s before).at c h);
  }

  read_each-CanRestore :
      (before : Bytes) (read : A2lScalar → Exec (Client m) (Number f)) (kind : Kind)
      → ((s : A2lScalar) → IsQuiet (read s))
      → (names : List Text) (values : Dict (Number f))
      → Keeps (CanRestore before) (read_each m d dm hm f catalog read kind names values)
  unfolding read_each
  read_each-CanRestore before read kind q [] values = record { at = λ s h. h }
  read_each-CanRestore before read kind q (name ∷ names) values =
      let rest = λ (scalar : A2lScalar) (value : Number f).
        read_each m d dm hm f catalog read kind names (insert name value values) in
      >>=-Keeps (of_result (get_scalar catalog.by_name name kind))
        (λ scalar. on_client m d dm hm f catalog (read scalar) >>= rest scalar)
        (Keeps-same (of_result (get_scalar catalog.by_name name kind)) (λ s. refl))
        (λ scalar.
          >>=-Keeps (on_client m d dm hm f catalog (read scalar)) (rest scalar)
            (client_quiet-CanRestore before (read scalar) (q scalar))
            (λ value. read_each-CanRestore before read kind q names (insert name value values)))

  read_measurements-CanRestore :
      (before : Bytes) (names : List Text)
      → Keeps (CanRestore before) (read_measurements m d dm hm f catalog names)
  unfolding read_measurements require_client
  read_measurements-CanRestore before names = record {
    at = λ s h. elim (Result-cases (unique_names names)) [
      | inl (selected, e) ↦ ground (
        arith,
        (read_each-CanRestore before (read_measurement m f) measurement read_measurement-IsQuiet
              selected []).at
            s h,
      )
      | inr (_, e) ↦ ground arith
    ];
  }

  read_calibrations-CanRestore :
      (before : Bytes) (names : Option (List Text))
      → Keeps (CanRestore before) (read_calibrations m d dm hm f catalog names)
  unfolding read_calibrations require_client
  read_calibrations-CanRestore before names = record {
    at = λ s h. elim (Result-cases (selected_calibrations m d dm hm f catalog names)) [
      | inl (selected, e) ↦ ground (
        arith,
        (read_each-CanRestore before (read_characteristic m f) characteristic
              read_characteristic-IsQuiet selected []).at
            s h,
      )
      | inr (_, e) ↦ ground arith
    ];
  }

  start_daq-CanRestore :
      (before : Bytes) (names : List Text) (channel : ℤ)
      → Keeps (CanRestore before) (start_daq m d dm hm f catalog names channel)
  unfolding start_daq require_client new_acquisition
  start_daq-CanRestore before names channel = record {
    at = λ s h.
        let fresh : Acquisition m d = record (s.acquisition) {
          capacity = 20000;
          policy = none;
          previous = none;
          active = false;
          metadata = none;
        } in
        elim (Result-cases (unique_names names)) [
          | inr (_, e) ↦ ground arith
          | inl (selected, e) ↦ elim (Result-cases (measurements_of m d dm hm f catalog selected)) [
            | inr (_, e') ↦ ground arith
            | inl (scalars, e') ↦
                let begun =
                  client-CanRestore before s
                    (Acquisition.start m d dm scalars channel catalog.daq_events fresh).1 true h
                    ((start-Keeps m d dm _ (calm.daq (t.mem s.acquisition.client.world)) scalars
                        channel catalog.daq_events).at
                      fresh refl) in
                ground (arith, begun)
          ]
        ];
  }

  stop_daq-CanRestore : (before : Bytes) → Keeps (CanRestore before) (stop_daq m d dm hm f catalog)
  unfolding stop_daq
  stop_daq-CanRestore before = record {
    at = λ s h.
        (Keeps-if s.has_daq (on_daq m d dm hm f catalog (Acquisition.stop m d dm)) (pure tt)
            (daq_quiet-CanRestore before (Acquisition.stop m d dm)
              (λ b. stop-Keeps m d dm _ (calm.daq b)))
            (Keeps-same (pure tt) (λ s. refl))).at
          s h;
  }

  call-CanRestore :
      (before : Bytes) (call : SessionCall f) (s : Connection m d)
      → CanRestore before s
      → CanRestore before ((call_connection m d dm hm f catalog) call s)
  unfolding call_connection write_calibrations restore_calibrations drain_daq stop_daq
  call-CanRestore before (reading_measurements names) s h =
      (read_measurements-CanRestore before names).at s h
  call-CanRestore before (reading_calibrations names) s h =
      (read_calibrations-CanRestore before names).at s h
  call-CanRestore before (writing_calibrations values) s h =
      write_calibrations-IsRecoverable m t k f catalog.by_name before values _ h
  call-CanRestore before (restoring_calibrations none) s h =
      restore_all-IsRecoverable m t k f catalog.by_name before _ h
  call-CanRestore before (restoring_calibrations (some names)) s h =
      restore_named-IsRecoverable m t k f catalog.by_name before names _ h
  call-CanRestore before (starting_daq names channel) s h =
      (start_daq-CanRestore before names channel).at s h
  call-CanRestore before (draining_daq n) s h =
      (Keeps-if s.has_daq (on_daq m d dm hm f catalog (Acquisition.drain m d dm n)) (pure [])
          (daq_quiet-CanRestore before (Acquisition.drain m d dm n)
            (λ b. drain-Keeps m d dm _ (calm.daq b) n))
          (Keeps-same (pure []) (λ s. refl))).at
        s h
  call-CanRestore before stopping_daq s h = (stop_daq-CanRestore before).at s h

  pub run-CanRestore :
      (before : Bytes) (calls : List (SessionCall f)) (s : Connection m d)
      → CanRestore before s
      → CanRestore before ((run_connection m d dm hm f catalog) calls s)
  unfolding run_connection
  run-CanRestore before [] s h = h
  run-CanRestore before (call ∷ calls) s h =
      run-CanRestore before calls ((call_connection m d dm hm f catalog) call s)
        (call-CanRestore before call s h)
