-- ===== src/Host/Connection/Attached.antt =====
-- Whether XcpSession (`shared/python/pyxcp_host/services/xcp_session.py`) has a client after a call.
use sim_rt.Prelude.{
  subst, sym, ap, ◌∙◌, ℕ, ◌≡◌, refl, Bool, true, none, some, List, [], ◌∷◌, arith, Text, inl, inr,
}
use sim_rt.Prelude.Int.{ℤ}
use sim_rt.Prelude.Dict.{Dict, insert}
use sim_rt.Exec.{
  Result, ok, err, Error, Exec, Keeps, Keeps-same, >>=-Keeps, Result-cases, of_result, ◌>>=◌, catch,
}
use sim_rt.Transport.{PyxcpConfig, TransportSettings, post_init}
use sim_rt.Transport.Master.{Master}
use sim_rt.Scalar.{A2lScalar, Kind, characteristic, measurement, Number}
use sim_rt.Scalar.Float64.{Floats}
use sim_rt.Scalar.Database.{get_scalar}
use sim_rt.Client
use sim_rt.Client.{Client}
use sim_rt.Client.Keeping.{read_memory-Keeps, write_memory-Keeps}
use sim_rt.Client.Characteristic.{read_measurement, read_characteristic}
use sim_rt.Session.{unique_names}
use sim_rt.Session.Keeping.{restore_all-Keeps, restore_named-Keeps, write_calibrations-Keeps}
use sim_rt.Daq.{Decoder}
use sim_rt.Daq.Acquisition.Slave.{DaqMaster}
use sim_rt.Host.Endpoint.{Endpoint, settings_of}
use sim_rt.Host.Connection.{
  Catalog, Connection, ConnectionInfo, session_of, on_client, read_each, read_measurements,
  read_calibrations, write_calibrations, restore_calibrations, start_daq, stop_daq, drain_daq,
  require_client, new_acquisition, selected_calibrations, measurements_of, make_client,
  attach_client, inform, give_up, open_client, connect_client, connect_with, connection_info,
  leave_active,
}
use sim_rt.Host.Connection.Calls.{
  SessionCall, reading_measurements, reading_calibrations, writing_calibrations,
  restoring_calibrations, starting_daq, draining_daq, stopping_daq, call_connection,
}
use sim_rt.Host.Connection.Opening.{opened, open_client_ok}
use sim_rt.Host.Connection.Slave.{SlaveProperties}

module _ (m : Master PyxcpConfig) (d : Decoder) (dm : DaqMaster m d) (hm : SlaveProperties m)
    (f : Floats) (catalog : Catalog) where
  abbrev Stays : Bool → Connection m d → Type 0
  Stays b s = s.attached ≡ b

  read_each-Stays :
      (b : Bool) (read : A2lScalar → Exec (Client m) (Number f)) (kind : Kind) (names : List Text)
      (values : Dict (Number f))
      → Keeps (Stays b) (read_each m d dm hm f catalog read kind names values)
  unfolding read_each
  read_each-Stays b read kind [] values = record { at = λ s h. h }
  read_each-Stays b read kind (name ∷ names) values =
      let rest = λ (scalar : A2lScalar) (value : Number f).
        read_each m d dm hm f catalog read kind names (insert name value values) in
      >>=-Keeps (of_result (get_scalar catalog.by_name name kind))
        (λ scalar. on_client m d dm hm f catalog (read scalar) >>= rest scalar)
        (Keeps-same (of_result (get_scalar catalog.by_name name kind)) (λ s. refl))
        (λ scalar.
          >>=-Keeps (on_client m d dm hm f catalog (read scalar)) (rest scalar)
            (record { at = λ s h. h })
            (λ value. read_each-Stays b read kind names (insert name value values)))

  -- any property of the client that is always true
  abbrev Any : Client m → Type 0
  Any c = Unit {0}

  read_kept : (a n e : ℤ) → Keeps Any (Client.read_memory m a n e)
  read_kept = read_memory-Keeps m Any (λ a e c h. h) (λ n c h. h)

  write_kept : (a : ℤ) (bs : List ℕ) (e : ℤ) → Keeps Any (Client.write_memory m a bs e)
  write_kept = write_memory-Keeps m Any (λ a e c h. h) (λ bs c h. h)

  -- A call on the session neither gives it a client nor takes it away.
  pub call-Stays :
      (b : Bool) (call : SessionCall f) (s : Connection m d)
      → s.attached ≡ b
      → (call_connection m d dm hm f catalog call s).attached ≡ b
  unfolding call_connection read_measurements read_calibrations write_calibrations
      restore_calibrations start_daq drain_daq stop_daq require_client new_acquisition
  call-Stays b (reading_measurements names) s h = elim (Result-cases (unique_names names)) [
    | inl (selected, e) ↦
        ground (arith, (read_each-Stays b (read_measurement m f) measurement selected []).at s h)
    | inr (_, e) ↦ ground arith
  ]
  call-Stays b (reading_calibrations names) s h =
      elim (Result-cases (selected_calibrations m d dm hm f catalog names)) [
        | inl (selected, e) ↦
            ground (
              arith,
              (read_each-Stays b (read_characteristic m f) characteristic selected []).at s h,
            )
        | inr (_, e) ↦ ground arith
      ]
  call-Stays b (writing_calibrations values) s h =
      ((write_calibrations-Keeps m Any read_kept write_kept b f catalog.by_name values).at
        (session_of m d dm hm f catalog s) (tt, h)).1
  call-Stays b (restoring_calibrations none) s h =
      ((restore_all-Keeps m Any read_kept write_kept b f catalog.by_name).at
        (session_of m d dm hm f catalog s) (tt, h)).1
  call-Stays b (restoring_calibrations (some names)) s h =
      ((restore_named-Keeps m Any read_kept write_kept b f catalog.by_name names).at
        (session_of m d dm hm f catalog s) (tt, h)).1
  call-Stays b (starting_daq names channel) s h = elim (Result-cases (unique_names names)) [
    | inr (_, e) ↦ ground arith
    | inl (selected, e) ↦ elim (Result-cases (measurements_of m d dm hm f catalog selected)) [
      | inr (_, e') ↦ ground arith
      | inl (scalars, e') ↦ ground arith
    ]
  ]
  call-Stays b (draining_daq n) s h = ground arith
  call-Stays b stopping_daq s h = ground arith

  inform_attached :
      (s : Connection m d) (i : ConnectionInfo)
      → (catch (inform m d dm hm f catalog) (give_up m d dm hm f catalog) s).0 ≡ ok i
      → (catch (inform m d dm hm f catalog) (give_up m d dm hm f catalog) s).1.attached ≡ s.attached
  unfolding inform give_up connection_info require_client
  inform_attached s i h = ground arith

  opened_attaches :
      (e : Endpoint) (s : Connection m d) (c : Client m) (i : ConnectionInfo)
      → (opened m d dm hm f catalog e s c).0 ≡ ok i
      → (opened m d dm hm f catalog e s c).1.attached ≡ true
  unfolding opened attach_client
  opened_attaches e s c i done = inform_attached _ i done

  open_client_raises :
      (e : Endpoint) (settings : TransportSettings) (s : Connection m d) (why : Error)
      (i : ConnectionInfo)
      → (Client.connect m (make_client m d dm hm f catalog settings s).1.acquisition.client).0
        ≡ err why
      → ¬ ((open_client m d dm hm f catalog e settings s).0 ≡ ok i)
  unfolding open_client connect_client make_client
  open_client_raises e settings s why i raised = ground (arith, raised)

  open_client_attaches :
      (e : Endpoint) (settings : TransportSettings) (s : Connection m d) (i : ConnectionInfo)
      → (open_client m d dm hm f catalog e settings s).0 ≡ ok i
      → (open_client m d dm hm f catalog e settings s).1.attached ≡ true
  open_client_attaches e settings s i done =
      let s' = (make_client m d dm hm f catalog settings s).1 in
      elim (Result-cases (Client.connect m s'.acquisition.client).0) [
        | inr (why, raised) ↦ elim (open_client_raises e settings s why i raised done) [ ]
        | inl (r, up) ↦
            let same = open_client_ok m d dm hm f catalog e settings s r up in
            subst (λ (u : Result ConnectionInfo × Connection m d). u.1.attached ≡ true) (sym same)
              (opened_attaches e s' _ i
                (ap (λ (u : Result ConnectionInfo × Connection m d). u.0) (sym same) ∙ done))
      ]

  -- A connect that returns leaves the session with a client.
  pub connect_with_attaches :
      (e : Endpoint) (s : Connection m d) (i : ConnectionInfo)
      → (connect_with m d dm hm f catalog e s).0 ≡ ok i
      → (connect_with m d dm hm f catalog e s).1.attached ≡ true
  unfolding connect_with
  connect_with_attaches e s i done = elim (Result-cases (leave_active m d dm hm f catalog s).0) [
    | inr (why, raised) ↦ ground arith
    | inl (_, left) ↦ elim (Result-cases (post_init (settings_of e))) [
      | inr (why, bad) ↦ ground arith
      | inl (settings, good) ↦
          ground (arith, open_client_attaches e settings (leave_active m d dm hm f catalog s).1 i)
    ]
  ]
