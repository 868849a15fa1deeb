-- ===== src/Host/Connection/Opening.antt =====
-- `connect` of XcpSession (`shared/python/pyxcp_host/services/xcp_session.py`), and any calls of the
-- session one after another, leave a sound session.
use sim_rt.Prelude.{
  ◌≡◌, refl, sym, subst, true, false, Option, none, some, List, [], ◌∷◌, arith, inl, inr,
}
use sim_rt.Exec.{catch, Result, ok, err, Error, Keeps, Result-cases}
use sim_rt.Transport.{PyxcpConfig, TransportSettings, post_init}
use sim_rt.Transport.Master.{Master}
use sim_rt.Scalar.Float64.{Floats}
use sim_rt.Client
use sim_rt.Client.{Client, ClientState, connected, is_connected, new_client}
use sim_rt.Client.Lifecycle.{connect-Settled, disconnect-closes}
use sim_rt.Daq.{Decoder}
use sim_rt.Daq.Acquisition.Slave.{DaqMaster}
use sim_rt.Host.Endpoint.{Endpoint, settings_of}
use sim_rt.Host.Connection.{
  Catalog, Connection, ConnectionInfo, disconnect, restore_before, forget, leave,
  disconnect_detached, require_client, make_client, attach_client, inform, give_up, drop_client,
  leave_active, connect_client, open_client, connect_with, connection_info,
}
use sim_rt.Host.Connection.Slave.{SlaveProperties}
use sim_rt.Host.Connection.Calls.{
  SessionCall, reading_measurements, reading_calibrations, writing_calibrations,
  restoring_calibrations, starting_daq, draining_daq, stopping_daq, call_connection, AnyCall,
  connecting, disconnecting, using, run_any,
}
use sim_rt.Host.Connection.Sound.{
  stop_daq-IsSound, read_measurements-IsSound, read_calibrations-IsSound,
  write_calibrations-IsSound, restore_calibrations-IsSound, start_daq-IsSound, drain_daq-IsSound,
  IsSound, idle_consumer,
}
use sim_rt.Host.Connection.Leaving.{disconnect-IsSound, disconnect-IsSound}

module _ (m : Master PyxcpConfig) (d : Decoder) (dm : DaqMaster m d) (hm : SlaveProperties m)
    (f : Floats) (catalog : Catalog) where
  -- before the new client is connected
  make_client-IsSound :
      (settings : TransportSettings) (s : Connection m d)
      → (IsSound m d dm) s
      → s.attached ≡ false
      → (IsSound m d dm) (make_client m d dm hm f catalog settings s).1
  unfolding make_client new_client connected is_connected
  make_client-IsSound settings s h off =
      let idle : s.acquisition.active ≡ false = ground (arith, h.running) in
      record {
        consistent = ground arith;
        owner = ground arith;
        consumer = inl (idle, refl);
        running = inl idle;
        books = h.books;
      }

  -- the client of `connect` that has been given up
  drop_client-IsSound :
      (s : Connection m d) (c : Client m)
      → (IsSound m d dm) s
      → s.attached ≡ false
      → (c.state ≡ ClientState.closed) × (c.owned ≡ false)
      → (IsSound m d dm)
          (drop_client m d dm hm f catalog
            (record s { acquisition = record (s.acquisition) { client = c } })).1
  unfolding drop_client connected is_connected
  drop_client-IsSound s c h off closed =
      let idle : s.acquisition.active ≡ false = ground (arith, h.running) in
      record {
        consistent = ground arith;
        owner = ground arith;
        consumer = h.consumer;
        running = inl idle;
        books = ground (arith, h.books);
      }

  attach_client-IsSound :
      (e : Endpoint) (s : Connection m d) (c : Client m)
      → (IsSound m d dm) s
      → s.attached ≡ false
      → (c.state ≡ ClientState.connected) × (c.owned ≡ true)
      → (IsSound m d dm)
          (attach_client m d dm hm f catalog e
            (record s { acquisition = record (s.acquisition) { client = c } })).1
  unfolding attach_client connected is_connected
  attach_client-IsSound e s c h off open_ =
      let idle : s.acquisition.active ≡ false = ground (arith, h.running) in
      record {
        consistent = ground arith;
        owner = ground arith;
        consumer = h.consumer;
        running = inl idle;
        books = inr refl;
      }

  inform-IsSound :
      (s : Connection m d) → (IsSound m d dm) s → (IsSound m d dm) (inform m d dm hm f catalog s).1
  unfolding inform connection_info require_client
  inform-IsSound s h =
      let informed : (i : ConnectionInfo)
          → (IsSound m d dm) (record s { diagnostic_connection = some i }) =
        λ i. record {
          consistent = h.consistent;
          owner = h.owner;
          consumer = h.consumer;
          running = h.running;
          books = h.books;
        } in
      ground (arith, informed)

  inform_raises :
      (s : Connection m d) (e : Error)
      → (inform m d dm hm f catalog s).0 ≡ err e
      → (inform m d dm hm f catalog s).1 ≡ s
  unfolding inform connection_info require_client
  inform_raises s e h = ground arith

  give_up-IsSound :
      (e : Error) (s : Connection m d)
      → (IsSound m d dm) s
      → s.acquisition.active ≡ false
      → s.originals ≡ []
      → (IsSound m d dm) (give_up m d dm hm f catalog e s).1
  unfolding give_up drop_client connected is_connected
  give_up-IsSound e s h idle none_kept =
      let c = (Client.disconnect m s.acquisition.client).1 in
      let (closed, free) = disconnect-closes m s.acquisition.client h.consistent in
      let given : (IsSound m d dm) (record s {
        acquisition = record (s.acquisition) { client = c };
        attached = false;
        endpoint = none;
      }) =
        record {
          consistent = ground (arith, closed, free);
          owner = ground (arith, free);
          consumer = inl (idle, (idle_consumer m d dm hm f catalog) s.acquisition h.consumer idle);
          running = inl idle;
          books = inr none_kept;
        } in
      ground (arith, given)

  -- `connect` on a state whose client has just been attached
  inform_or_give_up-IsSound :
      (s : Connection m d)
      → (IsSound m d dm) s
      → s.acquisition.active ≡ false
      → s.originals ≡ []
      → (IsSound m d dm) (catch (inform m d dm hm f catalog) (give_up m d dm hm f catalog) s).1
  inform_or_give_up-IsSound s h idle none_kept =
      elim (Result-cases (inform m d dm hm f catalog s).0) [
        | inl (i, e) ↦ ground (arith, inform-IsSound s h)
        | inr (why, e) ↦
            ground (arith, give_up-IsSound why s h idle none_kept, inform_raises s why e)
      ]

  -- `open_client` with its new client connected, and with its new client refused
  unfoldable pub opened :
      Endpoint → Connection m d → Client m → Result ConnectionInfo × Connection m d
  opened endpoint s c =
      catch (inform m d dm hm f catalog) (give_up m d dm hm f catalog)
        (attach_client m d dm hm f catalog endpoint
          (record s { acquisition = record (s.acquisition) { client = c } })).1

  opened-IsSound :
      (e : Endpoint) (s : Connection m d) (c : Client m)
      → (IsSound m d dm) s
      → s.attached ≡ false
      → (c.state ≡ ClientState.connected) × (c.owned ≡ true)
      → (IsSound m d dm) (opened e s c).1
  unfolding opened attach_client
  opened-IsSound e s c h off on =
      let idle : s.acquisition.active ≡ false = ground (arith, h.running) in
      inform_or_give_up-IsSound _ (attach_client-IsSound e s c h off on) idle refl

  pub open_client_ok :
      (e : Endpoint) (settings : TransportSettings) (s : Connection m d) (r : Option m.Response)
      → (Client.connect m (make_client m d dm hm f catalog settings s).1.acquisition.client).0
        ≡ ok r
      → open_client m d dm hm f catalog e settings s
        ≡ opened e
            (make_client m d dm hm f catalog settings s).1
            (Client.connect m (make_client m d dm hm f catalog settings s).1.acquisition.client).1
  unfolding open_client connect_client opened make_client attach_client
  open_client_ok e settings s r done = ground (arith, done)

  open_client_err :
      (e : Endpoint) (settings : TransportSettings) (s : Connection m d) (why : Error)
      → (Client.connect m (make_client m d dm hm f catalog settings s).1.acquisition.client).0
        ≡ err why
      → (open_client m d dm hm f catalog e settings s).1
        ≡ (drop_client m d dm hm f catalog
            (record ((make_client m d dm hm f catalog settings s).1) {
              acquisition = record ((make_client m d dm hm f catalog settings s).1.acquisition) {
                client =
                    (Client.connect m
                      (make_client m d dm hm f catalog settings s).1.acquisition.client).1;
              };
            })).1
  unfolding open_client connect_client make_client drop_client
  open_client_err e settings s why raised = ground (arith, raised)

  open_client-IsSound :
      (e : Endpoint) (settings : TransportSettings) (s : Connection m d)
      → (IsSound m d dm) s
      → s.attached ≡ false
      → (IsSound m d dm) (open_client m d dm hm f catalog e settings s).1
  open_client-IsSound e settings s h off =
      let s' = (make_client m d dm hm f catalog settings s).1 in
      let made = make_client-IsSound settings s h off in
      let off' : s'.attached ≡ false = unfold make_client in off in
      let settled = connect-Settled m s'.acquisition.client made.consistent in
      elim (Result-cases (Client.connect m s'.acquisition.client).0) [
        | inl (r, done) ↦
            let on : ((Client.connect m s'.acquisition.client).1.state ≡ ClientState.connected)
                × ((Client.connect m s'.acquisition.client).1.owned ≡ true) =
              ground (arith, settled) in
            subst (λ (u : Result ConnectionInfo × Connection m d). (IsSound m d dm) u.1)
              (sym (open_client_ok e settings s r done)) (opened-IsSound e s' _ made off' on)
        | inr (why, raised) ↦
            let closed : ((Client.connect m s'.acquisition.client).1.state ≡ ClientState.closed)
                × ((Client.connect m s'.acquisition.client).1.owned ≡ false) =
              ground (arith, settled) in
            subst (IsSound m d dm) (sym (open_client_err e settings s why raised))
              (drop_client-IsSound s' _ made off' closed)
      ]

  leave_active-IsSound : Keeps (IsSound m d dm) (leave_active m d dm hm f catalog)
  unfolding leave_active
  leave_active-IsSound = record {
    at = λ s h. ground (arith, ((disconnect-IsSound m d dm hm f catalog) true).at s h);
  }

  leave_detaches :
      (s : Connection m d)
      → (leave m d dm hm f catalog s).0 ≡ ok tt
      → (leave m d dm hm f catalog s).1.attached ≡ false
  unfolding leave forget
  leave_detaches s done = ground arith

  pub disconnect_detaches :
      (s : Connection m d)
      → (disconnect m d dm hm f catalog true s).0 ≡ ok tt
      → (disconnect m d dm hm f catalog true s).1.attached ≡ false
  unfolding disconnect disconnect_detached
  disconnect_detaches s done =
      ground (arith, leave_detaches (restore_before m d dm hm f catalog true s).1)

  leave_active_detaches :
      (s : Connection m d)
      → (IsSound m d dm) s
      → (leave_active m d dm hm f catalog s).0 ≡ ok tt
      → (leave_active m d dm hm f catalog s).1.attached ≡ false
  unfolding leave_active
  leave_active_detaches s h done = ground (arith, disconnect_detaches s, h.owner)

  pub connect_with-IsSound :
      (e : Endpoint) → Keeps (IsSound m d dm) (connect_with m d dm hm f catalog e)
  unfolding connect_with
  connect_with-IsSound e = record {
    at = λ s h.
        let left = leave_active-IsSound.at s h in
        elim (Result-cases (leave_active m d dm hm f catalog s).0) [
          | inr (why, raised) ↦ ground (arith, left)
          | inl (_, done) ↦ elim (Result-cases (post_init (settings_of e))) [
            | inr (why, bad) ↦ ground (arith, left)
            | inl (settings, good) ↦ ground (
              arith,
              open_client-IsSound e settings (leave_active m d dm hm f catalog s).1 left
                  (leave_active_detaches s h done),
            )
          ]
        ];
  }

  pub call-IsSound :
      (call : SessionCall f) (s : Connection m d)
      → IsSound m d dm s
      → IsSound m d dm (call_connection m d dm hm f catalog call s)
  unfolding call_connection
  call-IsSound (reading_measurements names) s h =
      (read_measurements-IsSound m d dm hm f catalog names).at s h
  call-IsSound (reading_calibrations names) s h =
      (read_calibrations-IsSound m d dm hm f catalog names).at s h
  call-IsSound (writing_calibrations values) s h =
      (write_calibrations-IsSound m d dm hm f catalog values).at s h
  call-IsSound (restoring_calibrations names) s h =
      (restore_calibrations-IsSound m d dm hm f catalog names).at s h
  call-IsSound (starting_daq names channel) s h =
      (start_daq-IsSound m d dm hm f catalog names channel).at s h
  call-IsSound (draining_daq n) s h = (drain_daq-IsSound m d dm hm f catalog n).at s h
  call-IsSound stopping_daq s h = (stop_daq-IsSound m d dm hm f catalog).at s h

  -- No sequence of connects, disconnects, reads, writes, restores and DAQ calls, whether they return or
  -- raise, tears a sound session apart: the session has a client exactly while that is connected, an
  -- acquisition runs only on that client and with its policy in the transport, and without a client
  -- there are no originals left to restore.
  pub run_any-IsSound :
      (calls : List (AnyCall m d dm hm f catalog)) (s : Connection m d)
      → IsSound m d dm s
      → IsSound m d dm (run_any m d dm hm f catalog calls s)
  unfolding run_any
  run_any-IsSound [] s h = h
  run_any-IsSound (connecting e ∷ calls) s h =
      run_any-IsSound calls _ ((connect_with-IsSound e).at s h)
  run_any-IsSound (disconnecting b ∷ calls) s h =
      run_any-IsSound calls _ ((disconnect-IsSound m d dm hm f catalog b).at s h)
  run_any-IsSound (using call ∷ calls) s h = run_any-IsSound calls _ (call-IsSound call s h)
