-- ===== src/Host/Connection/Leaving.antt =====
-- `disconnect` of XcpSession (`shared/python/pyxcp_host/services/xcp_session.py`) leaves a sound session.
use sim_rt.Prelude.{◌≡◌, refl, sym, subst, Bool, false, none, [], arith, inl, inr, Bool-cases}
use sim_rt.Exec.{ok, Keeps, >>=-Keeps, Result-cases}
use sim_rt.Transport.{PyxcpConfig}
use sim_rt.Transport.Master.{Master}
use sim_rt.Scalar.Float64.{Floats}
use sim_rt.Client
use sim_rt.Client.{Client, ClientState, connected, is_connected, new_client}
use sim_rt.Client.Lifecycle.{disconnect-closes}
use sim_rt.Daq.{Decoder}
use sim_rt.Daq.Acquisition
use sim_rt.Daq.Acquisition.{Acquisition, no_op}
use sim_rt.Daq.Acquisition.Slave.{DaqMaster}
use sim_rt.Host.Connection.{
  Catalog, Connection, stop_daq, disconnect, restore_before, forget, leave, disconnect_detached,
}
use sim_rt.Host.Connection.Slave.{SlaveProperties}
use sim_rt.Host.Connection.Sound.{
  IsSound, idle_consumer, restore_calibrations-IsSound, stop_daq-IsSound,
}

module _ (m : Master PyxcpConfig) (d : Decoder) (dm : DaqMaster m d) (hm : SlaveProperties m)
    (f : Floats) (catalog : Catalog) where
  stop_ends :
      (a : Acquisition m d)
      → (Acquisition.stop m d dm a).0 ≡ ok tt
      → (Acquisition.stop m d dm a).1.active ≡ false
  unfolding Acquisition.stop Acquisition.give_back Acquisition.exchange
  stop_ends a done = ground arith

  -- a stop that returned leaves nothing running
  stop_daq_ends :
      (s : Connection m d)
      → (IsSound m d dm) s
      → (stop_daq m d dm hm f catalog s).0 ≡ ok tt
      → (stop_daq m d dm hm f catalog s).1.acquisition.active ≡ false
  unfolding stop_daq
  stop_daq_ends s h done = ground (arith, stop_ends s.acquisition, h.running)

  -- the connection after the end of its client, whatever the slave did
  abbrev ended : Connection m d → Connection m d
  ended s = record s {
    acquisition = record (s.acquisition) { client = (Client.disconnect m s.acquisition.client).1 };
    attached = false;
    endpoint = none;
    originals = [];
    spans = [];
  }

  ended-IsSound :
      (s : Connection m d)
      → (IsSound m d dm) s
      → s.acquisition.active ≡ false
      → (IsSound m d dm) (ended s)
  unfolding connected is_connected
  ended-IsSound s h idle =
      let c = (Client.disconnect m s.acquisition.client).1 in
      let (closed, free) = disconnect-closes m s.acquisition.client h.consistent in
      record {
        consistent = ground (arith, closed, free);
        owner = ground (arith, free);
        consumer = inl (idle, (idle_consumer m d dm hm f catalog) s.acquisition h.consumer idle);
        running = inl idle;
        books = inr refl;
      }

  leave_ends :
      (s : Connection m d)
      → (stop_daq m d dm hm f catalog s).0 ≡ ok tt
      → (leave m d dm hm f catalog s).1 ≡ ended (stop_daq m d dm hm f catalog s).1
  unfolding leave forget
  leave_ends s done = ground (arith, done)

  leave-IsSound : Keeps (IsSound m d dm) (leave m d dm hm f catalog)
  leave-IsSound = record {
    at = λ s h.
        let stopped = (stop_daq-IsSound m d dm hm f catalog).at s h in
        elim (Result-cases (stop_daq m d dm hm f catalog s).0) [
          | inl (_, e) ↦
              subst (IsSound m d dm) (sym (leave_ends s e))
                (ended-IsSound _ stopped (stop_daq_ends s h e))
          | inr (why, e) ↦ unfold leave in ground (arith, stopped)
        ];
  }

  restore_before-IsSound :
      (b : Bool) → Keeps (IsSound m d dm) (restore_before m d dm hm f catalog b)
  unfolding restore_before
  restore_before-IsSound b = record {
    at = λ s h. ground (arith, ((restore_calibrations-IsSound m d dm hm f catalog) none).at s h);
  }

  -- without a client there is nothing to restore, and nothing but the endpoint is lost
  detached-IsSound :
      (b : Bool) (s : Connection m d)
      → (IsSound m d dm) s
      → s.attached ≡ false
      → (IsSound m d dm) (disconnect_detached m d dm hm f catalog b s).1
  unfolding disconnect_detached
  detached-IsSound b s h off =
      let books : s.originals ≡ [] = ground (arith, h.books) in
      let consistent = h.consistent in
      let kept : (IsSound m d dm) (record s { endpoint = none }) = record {
        consistent = h.consistent;
        owner = h.owner;
        consumer = h.consumer;
        running = h.running;
        books = h.books;
      } in
      let lost : (IsSound m d dm) (record s { originals = []; spans = []; endpoint = none }) =
        record {
          consistent = h.consistent;
          owner = h.owner;
          consumer = h.consumer;
          running = h.running;
          books = inr refl;
        } in
      ground (arith, kept, lost, h)

  pub disconnect-IsSound : (b : Bool) → Keeps (IsSound m d dm) (disconnect m d dm hm f catalog b)
  unfolding disconnect
  disconnect-IsSound b = record {
    at = λ s h. elim (Bool-cases s.attached) [
      | inr off ↦ ground (arith, detached-IsSound b s h off)
      | inl on ↦
          let left =
            (>>=-Keeps (restore_before m d dm hm f catalog b) (λ _. leave m d dm hm f catalog)
                (restore_before-IsSound b) (λ _. leave-IsSound)).at
              s h in
          ground (arith, left)
    ];
  }
