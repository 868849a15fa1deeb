-- ===== src/Host/Connection/Sound.antt =====
-- How client, acquisition and originals of XcpSession (`shared/python/pyxcp_host/services/xcp_session.py`)
-- belong together between calls.
use sim_rt.Prelude.{
  ℕ, ◌≡◌, ◌⊎◌, refl, sym, subst, ◌∙◌, Bool, true, false, Option, none, some, List, [], ◌∷◌, arith,
  Text, ap, inl, inr, Bool-cases,
}
use sim_rt.Prelude.Int.{ℤ, pos}
use sim_rt.Prelude.Dict.{Dict, insert}
use sim_rt.Exec.{Exec, Keeps, Keeps-same, >>=-Keeps, Result-cases, of_result, ◌>>=◌}
use sim_rt.Transport.{PyxcpConfig}
use sim_rt.Transport.Master.{Master}
use sim_rt.Scalar.{size, A2lScalar, Kind, characteristic, measurement, Number, Value}
use sim_rt.Scalar.Float64.{Floats}
use sim_rt.Scalar.Database.{get_scalar}
use sim_rt.Client
use sim_rt.Client.{Client, ClientState, connected, is_connected, new_client}
use sim_rt.Client.Keeping.{read_memory-Keeps, write_memory-Keeps}
use sim_rt.Client.Lifecycle.{IsConsistent}
use sim_rt.Client.Characteristic.{read_measurement, read_characteristic, read_scalar, read_bytes}
use sim_rt.Session
use sim_rt.Session.{Session, unique_names}
use sim_rt.Session.Keeping.{restore_all-Keeps, restore_named-Keeps, write_calibrations-Keeps}
use sim_rt.Daq.{Decoder}
use sim_rt.Daq.Acquisition
use sim_rt.Daq.Acquisition.{Acquisition, no_op}
use sim_rt.Daq.Acquisition.Keeping.{DaqKeeps, start-Keeps, stop-Keeps, drain-Keeps}
use sim_rt.Daq.Acquisition.Lifecycle.{
  IsAttached, start-IsAttached, stop-IsAttached, drain-IsAttached,
}
use sim_rt.Daq.Acquisition.Slave.{DaqMaster}
use sim_rt.Host.Connection
use sim_rt.Host.Connection.{
  Catalog, Connection, ConnectionInfo, session_of, with_session, on_client, on_daq, on_session,
  read_each, read_measurements, read_calibrations, write_calibrations, restore_calibrations,
  start_daq, stop_daq, drain_daq, disconnect, restore_before, forget, leave, disconnect_detached,
  require_client, new_acquisition, selected_calibrations, measurements_of, daq_active, make_client,
  attach_client, inform, give_up, drop_client, leave_active, connect_client, open_client,
  connect_with, connection_info,
}
use sim_rt.Host.Connection.Slave.{SlaveProperties}

module _ (m : Master PyxcpConfig) (d : Decoder) where
  -- a client that only its world tells from another one
  abbrev SameLife : Client m → Client m → Type 0
  SameLife b c = (c.owned ≡ b.owned) × (c.state ≡ b.state)

  read-SameLife : (b : Client m) (a n e : ℤ) → Keeps (SameLife b) (Client.read_memory m a n e)
  read-SameLife b = read_memory-Keeps m (SameLife b) (λ a e c h. h) (λ n c h. h)

  write-SameLife :
      (b : Client m) (a : ℤ) (bs : List ℕ) (e : ℤ)
      → Keeps (SameLife b) (Client.write_memory m a bs e)
  write-SameLife b = write_memory-Keeps m (SameLife b) (λ a e c h. h) (λ bs c h. h)

  life-IsConsistent : (b c : Client m) → SameLife b c → IsConsistent m b → IsConsistent m c
  life-IsConsistent b c same h = ground arith

  life-connected : (b c : Client m) → SameLife b c → connected m b ≡ connected m c
  unfolding connected
  life-connected b c same = ground arith

  daq_same : (dm : DaqMaster m d) (b : Client m) → DaqKeeps m d dm (SameLife b)
  daq_same dm b = record {
    by_unlock = λ c h. h;
    by_setup = λ n l c h. h;
    by_start = λ c h. h;
    by_stop = λ c h. h;
    by_stop_all = λ c h. h;
    by_event_info = λ n c h. h;
    by_daq_info = λ c h. h;
  }

module _ (m : Master PyxcpConfig) (d : Decoder) (dm : DaqMaster m d) where
  -- The session has a client exactly while that is connected, the transport's consumer is the one of
  -- the acquisition, an acquisition runs only on the session's client, and only with a client are
  -- there originals to restore.
  pub record IsSound (s : Connection m d) : Type 0 where
    pub consistent : IsConsistent m s.acquisition.client
    pub owner : s.attached ≡ connected m s.acquisition.client
    pub consumer : IsAttached m d dm s.acquisition
    pub running : (s.acquisition.active ≡ false) ⊎ ((s.has_daq ≡ true) × (s.attached ≡ true))
    pub books : (s.attached ≡ true) ⊎ (s.originals ≡ [])

module _ (m : Master PyxcpConfig) (d : Decoder) (dm : DaqMaster m d) (hm : SlaveProperties m)
    (f : Floats) (catalog : Catalog) where
  client-IsSound :
      {A : Type 0} (g : Exec (Client m) A)
      → ((b : Client m) → Keeps (SameLife m d b) g)
      → Keeps (IsSound m d dm) (on_client m d dm hm f catalog g)
  client-IsSound g k = record {
    at = λ s h.
        let b = s.acquisition.client in
        let same = (k b).at b (refl, refl) in
        let c = (g b).1 in
        record {
          consistent = life-IsConsistent m d b c same h.consistent;
          owner = h.owner ∙ life-connected m d b c same;
          consumer = h.consumer;
          running = h.running;
          books = h.books;
        };
  }

  read_scalar-SameLife : (s : A2lScalar) (b : Client m) → Keeps (SameLife m d b) (read_scalar m f s)
  unfolding read_scalar read_bytes
  read_scalar-SameLife s b = record {
    at = λ c h. ground (
      arith,
      (read-SameLife m d b (pos s.address) (pos (size s)) (pos s.address_extension)).at c h,
    );
  }

  read_measurement-SameLife :
      (s : A2lScalar) (b : Client m) → Keeps (SameLife m d b) (read_measurement m f s)
  unfolding read_measurement
  read_measurement-SameLife s b = record {
    at = λ c h. ground (arith, (read_scalar-SameLife s b).at c h);
  }

  read_characteristic-SameLife :
      (s : A2lScalar) (b : Client m) → Keeps (SameLife m d b) (read_characteristic m f s)
  unfolding read_characteristic
  read_characteristic-SameLife s b = record {
    at = λ c h. ground (arith, (read_scalar-SameLife s b).at c h);
  }

  read_each-IsSound :
      (read : A2lScalar → Exec (Client m) (Number f)) (kind : Kind)
      → ((s : A2lScalar) (b : Client m) → Keeps (SameLife m d b) (read s))
      → (names : List Text) (values : Dict (Number f))
      → Keeps (IsSound m d dm) (read_each m d dm hm f catalog read kind names values)
  unfolding read_each
  read_each-IsSound read kind q [] values = record { at = λ s h. h }
  read_each-IsSound read kind q (name ∷ names) values =
      let rest = λ (scalar : A2lScalar) (value : Number f).
        read_each m d dm hm f catalog read kind names (insert name value values) in
      >>=-Keeps (of_result (get_scalar catalog.by_name name kind))
        (λ scalar. on_client m d dm hm f catalog (read scalar) >>= rest scalar)
        (Keeps-same (of_result (get_scalar catalog.by_name name kind)) (λ s. refl))
        (λ scalar.
          >>=-Keeps (on_client m d dm hm f catalog (read scalar)) (rest scalar)
            (client-IsSound (read scalar) (q scalar))
            (λ value. read_each-IsSound read kind q names (insert name value values)))

  pub read_measurements-IsSound :
      (names : List Text) → Keeps (IsSound m d dm) (read_measurements m d dm hm f catalog names)
  unfolding read_measurements require_client
  read_measurements-IsSound names = record {
    at = λ s h. elim (Result-cases (unique_names names)) [
      | inl (selected, e) ↦ ground (
        arith,
        (read_each-IsSound (read_measurement m f) measurement read_measurement-SameLife selected
              []).at
            s h,
      )
      | inr (_, e) ↦ ground arith
    ];
  }

  pub read_calibrations-IsSound :
      (names : Option (List Text))
      → Keeps (IsSound m d dm) (read_calibrations m d dm hm f catalog names)
  unfolding read_calibrations require_client
  read_calibrations-IsSound names = record {
    at = λ s h. elim (Result-cases (selected_calibrations m d dm hm f catalog names)) [
      | inl (selected, e) ↦ ground (
        arith,
        (read_each-IsSound (read_characteristic m f) characteristic read_characteristic-SameLife
              selected []).at
            s h,
      )
      | inr (_, e) ↦ ground arith
    ];
  }

  -- a method for calibrations, which changes nothing without a client
  session-IsSound :
      {A : Type 0} (g : Exec (Session m) A)
      → ((b : Client m) → Keeps (λ s. SameLife m d b s.client × (s.attached ≡ true)) g)
      → ((s : Session m) → s.attached ≡ false → (g s).1 ≡ s)
      → Keeps (IsSound m d dm) (on_session m d dm hm f catalog g)
  session-IsSound g k idle = record {
    at = λ s h. elim (Bool-cases s.attached) [
      | inr off ↦
          subst (λ t. (IsSound m d dm) (with_session m d dm hm f catalog s t))
            (sym (idle (session_of m d dm hm f catalog s) off)) h
      | inl on ↦
          let b = s.acquisition.client in
          let (same, still) = (k b).at (session_of m d dm hm f catalog s) ((refl, refl), on) in
          let c = (g (session_of m d dm hm f catalog s)).1.client in
          record {
            consistent = life-IsConsistent m d b c same h.consistent;
            owner = still ∙ sym on ∙ h.owner ∙ life-connected m d b c same;
            consumer = h.consumer;
            running = ground (arith, h.running);
            books = inl still;
          }
    ];
  }

  write_idle :
      (values : List (Text × Value f)) (s : Session m)
      → s.attached ≡ false
      → (Session.write_calibrations m f catalog.by_name values s).1 ≡ s
  unfolding Session.write_calibrations Session.require_client
  write_idle [] s off = refl
  write_idle (v ∷ values) s off = ground arith

  restore_all_idle :
      (s : Session m) → s.attached ≡ false → (Session.restore_all m f catalog.by_name s).1 ≡ s
  unfolding Session.restore_all Session.require_client
  restore_all_idle s off = ground arith

  restore_named_idle :
      (names : List Text) (s : Session m)
      → s.attached ≡ false
      → (Session.restore_named m f catalog.by_name names s).1 ≡ s
  unfolding Session.restore_named Session.require_client
  restore_named_idle names s off = ground arith

  pub write_calibrations-IsSound :
      (values : List (Text × Value f))
      → Keeps (IsSound m d dm) (write_calibrations m d dm hm f catalog values)
  unfolding write_calibrations
  write_calibrations-IsSound values =
      session-IsSound (Session.write_calibrations m f catalog.by_name values)
        (λ b.
          write_calibrations-Keeps m (SameLife m d b) (read-SameLife m d b) (write-SameLife m d b)
            true f catalog.by_name values)
        (write_idle values)

  pub restore_calibrations-IsSound :
      (names : Option (List Text))
      → Keeps (IsSound m d dm) (restore_calibrations m d dm hm f catalog names)
  unfolding restore_calibrations
  restore_calibrations-IsSound none =
      session-IsSound (Session.restore_all m f catalog.by_name)
        (λ b.
          restore_all-Keeps m (SameLife m d b) (read-SameLife m d b) (write-SameLife m d b) true f
            catalog.by_name)
        restore_all_idle
  restore_calibrations-IsSound (some names) =
      session-IsSound (Session.restore_named m f catalog.by_name names)
        (λ b.
          restore_named-Keeps m (SameLife m d b) (read-SameLife m d b) (write-SameLife m d b) true f
            catalog.by_name names)
        (restore_named_idle names)

  -- a step of the acquisition while a client is attached or nothing runs
  daq-IsSound :
      (a : Acquisition m d) (b : Bool) (s : Connection m d)
      → (IsSound m d dm) s
      → SameLife m d s.acquisition.client a.client
      → IsAttached m d dm a
      → (a.active ≡ false) ⊎ ((b ≡ true) × (s.attached ≡ true))
      → (IsSound m d dm) (record s { acquisition = a; has_daq = b })
  daq-IsSound a b s h same attached runs = record {
    consistent = life-IsConsistent m d s.acquisition.client a.client same h.consistent;
    owner = h.owner ∙ life-connected m d s.acquisition.client a.client same;
    consumer = attached;
    running = runs;
    books = h.books;
  }

  inactive :
      (s : Connection m d)
      → (IsSound m d dm) s
      → daq_active m d dm hm f catalog s ≡ false
      → s.acquisition.active ≡ false
  unfolding daq_active
  inactive s h idle = ground (arith, h.running)

  -- an acquisition that does not run has pyXCP's own consumer
  pub idle_consumer :
      (a : Acquisition m d) → IsAttached m d dm a → a.active ≡ false → a.installed ≡ no_op
  idle_consumer a h idle = ground arith

  pub start_daq-IsSound :
      (names : List Text) (channel : ℤ)
      → Keeps (IsSound m d dm) (start_daq m d dm hm f catalog names channel)
  unfolding start_daq require_client new_acquisition Connection.is_connected
  start_daq-IsSound names channel = record {
    at = λ s h.
        let fresh : Acquisition m d = record (s.acquisition) {
          capacity = 20000;
          policy = none;
          previous = none;
          active = false;
          metadata = none;
        } in
        elim (Bool-cases (daq_active m d dm hm f catalog s)) [
          | inl busy ↦ ground arith
          | inr idle ↦ elim (Bool-cases s.attached) [
            | inr off ↦ ground arith
            | inl on ↦ elim (Result-cases (unique_names names)) [
              | inr (_, e) ↦ ground arith
              | inl (selected, e) ↦
                  elim (Result-cases (measurements_of m d dm hm f catalog selected)) [
                    | inr (_, e') ↦ ground arith
                    | inl (scalars, e') ↦
                        let started =
                          Acquisition.start m d dm scalars channel catalog.daq_events fresh in
                        let consumer = idle_consumer s.acquisition h.consumer (inactive s h idle) in
                        let same =
                          (start-Keeps m d dm _ (daq_same m d dm s.acquisition.client) scalars
                              channel catalog.daq_events).at
                            fresh (refl, refl) in
                        let kept =
                          start-IsAttached m d dm scalars channel catalog.daq_events fresh
                            (inl (refl, consumer)) in
                        let sound = daq-IsSound started.1 true s h same kept (inr (refl, on)) in
                        ground (arith, sound)
                  ]
            ]
          ]
        ];
  }

  stop_active : (a : Acquisition m d) → a.active ≡ false → (Acquisition.stop m d dm a).1 ≡ a
  unfolding Acquisition.stop
  stop_active a idle = ground arith

  drain_active : (n : ℕ) (a : Acquisition m d) → (Acquisition.drain m d dm n a).1.active ≡ a.active
  unfolding Acquisition.drain
  drain_active n a = ground arith

  pub drain_daq-IsSound : (n : ℕ) → Keeps (IsSound m d dm) (drain_daq m d dm hm f catalog n)
  unfolding drain_daq
  drain_daq-IsSound n = record {
    at = λ s h.
        let a = (Acquisition.drain m d dm n s.acquisition).1 in
        let same =
          (drain-Keeps m d dm _ (daq_same m d dm s.acquisition.client) n).at s.acquisition
            (refl, refl) in
        let runs : (a.active ≡ false) ⊎ ((s.has_daq ≡ true) × (s.attached ≡ true)) =
          ground (arith, drain_active n s.acquisition, h.running) in
        let sound =
          daq-IsSound a s.has_daq s h same (drain-IsAttached m d dm n s.acquisition h.consumer)
            runs in
        ground (arith, sound);
  }

  pub stop_daq-IsSound : Keeps (IsSound m d dm) (stop_daq m d dm hm f catalog)
  unfolding stop_daq
  stop_daq-IsSound = record {
    at = λ s h.
        let a = (Acquisition.stop m d dm s.acquisition).1 in
        let same =
          (stop-Keeps m d dm _ (daq_same m d dm s.acquisition.client)).at s.acquisition
            (refl, refl) in
        let runs : (a.active ≡ false) ⊎ ((s.has_daq ≡ true) × (s.attached ≡ true)) =
          elim h.running [
            | inl idle ↦
                inl (ap (λ (b : Acquisition m d). b.active) (stop_active s.acquisition idle) ∙ idle)
            | inr on ↦ inr on
          ] in
        let sound =
          daq-IsSound a s.has_daq s h same (stop-IsAttached m d dm s.acquisition h.consumer) runs in
        ground (arith, sound);
  }
