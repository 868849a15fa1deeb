-- ===== src/Host/ViewModel/Lifecycle.antt =====
-- Loading, connecting, disconnecting and closing of HostViewModel (`shared/python/pyxcp_host/viewmodel.py`)
-- show the session as it is.
use sim_rt.Prelude.{
  ◌≡◌, ◌⊎◌, inl, inr, refl, sym, subst, Bool, true, false, Option, none, some, [], ◌∷◌, ◌++◌, arith,
  length, Bool-cases, Option-cases,
}
use sim_rt.Exec.{of_result, ◌>>=◌, ◌>>◌, pure, Result, ok, err, Exec, Result-cases}
use sim_rt.Transport.{PyxcpConfig}
use sim_rt.Transport.Master.{Master}
use sim_rt.Scalar.Float64.{Floats}
use sim_rt.Daq.{Decoder}
use sim_rt.Daq.Acquisition.Slave.{DaqMaster}
use sim_rt.Host.Endpoint.{Endpoint, endpoint_init}
use sim_rt.Host.Connection
use sim_rt.Host.Connection.{Catalog, Connection}
use sim_rt.Host.Connection.Slave.{SlaveProperties}
use sim_rt.Host.Connection.Sound.{IsSound}
use sim_rt.Host.Connection.Leaving.{disconnect-IsSound}
use sim_rt.Host.Connection.Opening.{connect_with-IsSound, disconnect_detaches}
use sim_rt.Host.Connection.Attached.{connect_with_attaches}
use sim_rt.Host.ViewModel.{
  ViewModel, HostState, Context, LogLine, keep_last, catalog_of, is_connected, log, guarded,
  show_disconnected, disconnect, disconnect_first, show_loaded, load_a2l, show_connecting,
  show_connected, connect_to, connect, close_session, close,
}
use sim_rt.Host.ViewModel.Shown.{IsShown, HasCatalog, Agrees, keep_last-bounded, fail-IsShown}

module _ (m : Master PyxcpConfig) (d : Decoder) (dm : DaqMaster m d) (hm : SlaveProperties m)
    (f : Floats) where
  -- a session without a client that was asked to disconnect
  detached_stays :
      (c : Catalog) (b : Bool) (s : Connection m d)
      → s.attached ≡ false
      → (Connection.disconnect m d dm hm f c b s).1.attached ≡ false
  unfolding Connection.disconnect Connection.disconnect_detached
  detached_stays c b s off = ground arith

  left_owner :
      (v : ViewModel m d)
      → IsShown m d dm v
      → ((Connection.disconnect m d dm hm f (catalog_of v.catalog) true v.session).1.attached
          ≡ false)
        ⊎ HasCatalog v.catalog
  left_owner v h = elim h.owner [
    | inl off ↦ inl (detached_stays (catalog_of v.catalog) true v.session off)
    | inr known ↦ inr known
  ]

  -- the session after `disconnect`, whatever came of it
  abbrev left : ViewModel m d → Result (Unit {0}) × Connection m d
  left v = Connection.disconnect m d dm hm f (catalog_of v.catalog) true v.session

  left-IsSound : (v : ViewModel m d) → IsShown m d dm v → IsSound m d dm (left v).1
  left-IsSound v h =
      (disconnect-IsSound m d dm hm f (catalog_of v.catalog) true).at v.session h.sound

  left_detached : (v : ViewModel m d) → (left v).0 ≡ ok tt → (left v).1.attached ≡ false
  left_detached v done = disconnect_detaches m d dm hm f (catalog_of v.catalog) v.session done

  left-Agrees :
      (c : Option Catalog) (b : Bool)
      → b ≡ false
      → Agrees
          (elim c as (λ _. HostState) [ none ↦ HostState.empty | some _ ↦ HostState.loaded ])
          b
          c
  left-Agrees none b off = (off, refl)
  left-Agrees (some c) b off = (off, tt)

  pub disconnect-IsShown :
      (v : ViewModel m d) → IsShown m d dm v → IsShown m d dm (disconnect m d dm hm f v).1
  unfolding disconnect guarded show_disconnected log
  disconnect-IsShown v h = elim (Result-cases (left v).0) [
    | inr (why, e) ↦ ground (
      arith,
      (fail-IsShown m d dm hm f) Context.leaving why true (record v { session = (left v).1 })
          (left-IsSound v h) (left_owner v h),
    )
    | inl (_, e) ↦
        let shown : IsShown m d dm
            (show_disconnected m d dm hm f (record v { session = (left v).1 })).1 =
          record {
            sound = left-IsSound v h;
            owner = inl (left_detached v e);
            agrees = left-Agrees v.catalog (left v).1.attached (left_detached v e);
            bounded = keep_last-bounded m d dm 500 (v.log_lines ++ (LogLine.disconnected ∷ []));
          } in
        ground (arith, shown)
  ]

  disconnect_leaves :
      (v : ViewModel m d)
      → (disconnect m d dm hm f v).0 ≡ ok tt
      → (disconnect m d dm hm f v).1.session.attached ≡ false
  unfolding disconnect guarded show_disconnected log
  disconnect_leaves v done = elim (Result-cases (left v).0) [
    | inr (why, e) ↦ ground arith
    | inl (_, e) ↦ ground (arith, left_detached v e)
  ]

  disconnect_first-IsShown :
      (v : ViewModel m d) → IsShown m d dm v → IsShown m d dm (disconnect_first m d dm hm f v).1
  unfolding disconnect_first
  disconnect_first-IsShown v h = elim (Bool-cases (is_connected m d dm hm f v)) [
    | inl up ↦ ground (arith, disconnect-IsShown v h)
    | inr down ↦ ground (arith, h)
  ]

  disconnect_first_leaves :
      (v : ViewModel m d)
      → IsShown m d dm v
      → (disconnect_first m d dm hm f v).0 ≡ ok tt
      → (disconnect_first m d dm hm f v).1.session.attached ≡ false
  unfolding disconnect_first is_connected Connection.is_connected
  disconnect_first_leaves v h done = ground (arith, disconnect_leaves v, h.sound.owner)

  -- the rest of `load_a2l`
  load_rest : Result Catalog → Exec (ViewModel m d) Catalog
  load_rest file = do
    catalog ← guarded m d dm hm f Context.loading false (of_result file)
    show_loaded m d dm hm f catalog
    pure catalog

  load_rest-IsShown :
      (file : Result Catalog) (v : ViewModel m d)
      → IsShown m d dm v
      → v.session.attached ≡ false
      → IsShown m d dm (load_rest file v).1
  unfolding load_rest guarded show_loaded log
  load_rest-IsShown (err e) v h off =
      (fail-IsShown m d dm hm f) Context.loading e false v h.sound h.owner
  load_rest-IsShown (ok c) v h off = record {
    sound = h.sound;
    owner = inl off;
    agrees = (off, tt);
    bounded = keep_last-bounded m d dm 500 (
        v.log_lines
        ++ (LogLine.loaded_a2l c.path (length c.measurements) (length c.calibrations) ∷ []));
  }

  pub load_a2l-IsShown :
      (file : Result Catalog) (v : ViewModel m d)
      → IsShown m d dm v
      → IsShown m d dm (load_a2l m d dm hm f file v).1
  unfolding load_a2l load_rest
  load_a2l-IsShown file v h =
      let first = disconnect_first-IsShown v h in
      elim (Result-cases (disconnect_first m d dm hm f v).0) [
        | inr (why, e) ↦ ground (arith, first)
        | inl (_, e) ↦ ground (
          arith,
          load_rest-IsShown file (disconnect_first m d dm hm f v).1 first
              (disconnect_first_leaves v h e),
        )
      ]

  -- the session after `connect`, whatever came of it
  abbrev met :
      Catalog → Endpoint → ViewModel m d → Result Connection.ConnectionInfo × Connection m d
  met c e v = Connection.connect_with m d dm hm f c e v.session

  connect_to-IsShown :
      (c : Catalog) (e : Endpoint) (v : ViewModel m d)
      → v.catalog ≡ some c
      → IsShown m d dm v
      → IsShown m d dm (connect_to m d dm hm f e v).1
  unfolding connect_to guarded show_connecting show_connected log Connection.connect
  connect_to-IsShown c e v known h =
      let sound =
        (connect_with-IsSound m d dm hm f (catalog_of v.catalog) e).at v.session h.sound in
      let owner : HasCatalog v.catalog = subst HasCatalog (sym known) tt in
      elim (Result-cases (met (catalog_of v.catalog) e v).0) [
        | inr (why, bad) ↦ ground (
          arith,
          (fail-IsShown m d dm hm f) Context.opening why false
              (record ((show_connecting m d dm hm f e v).1) {
                session = (met (catalog_of v.catalog) e v).1;
              })
              sound (inr owner),
        )
        | inl (i, good) ↦
            let shown : IsShown m d dm
                (show_connected m d dm hm f e (record ((show_connecting m d dm hm f e v).1) {
                  session = (met (catalog_of v.catalog) e v).1;
                })).1 =
              record {
                sound = sound;
                owner = inr owner;
                agrees =
                    connect_with_attaches m d dm hm f (catalog_of v.catalog) e v.session i good;
                bounded = keep_last-bounded m d dm 500 (
                    keep_last 500 (v.log_lines ++ (LogLine.connecting_to e ∷ []))
                    ++ (LogLine.connected_to e ∷ []));
              } in
            ground (arith, shown)
      ]

  pub close-IsShown :
      (v : ViewModel m d) → IsShown m d dm v → IsShown m d dm (close m d dm hm f v).1
  unfolding close close_session guarded log
  close-IsShown v h = elim (Result-cases (left v).0) [
    | inr (why, e) ↦ ground (
      arith,
      h,
      (fail-IsShown m d dm hm f) Context.closing why true (record v { session = (left v).1 })
          (left-IsSound v h) (left_owner v h),
    )
    | inl (_, e) ↦
        let shown : IsShown m d dm
            (log m d dm hm f LogLine.host_closed
              (record v { session = (left v).1; state = HostState.closed })).1 =
          record {
            sound = left-IsSound v h;
            owner = inl (left_detached v e);
            agrees = left_detached v e;
            bounded = keep_last-bounded m d dm 500 (v.log_lines ++ (LogLine.host_closed ∷ []));
          } in
        ground (arith, h, shown)
  ]

  pub connect-IsShown :
      (entered : Endpoint) (v : ViewModel m d)
      → IsShown m d dm v
      → IsShown m d dm (connect m d dm hm f entered v).1
  unfolding connect
  connect-IsShown entered v h = elim (Option-cases v.catalog) [
    | inl none_yet ↦ ground (arith, h)
    | inr (c, known) ↦ elim (Result-cases (endpoint_init entered)) [
      | inr (why, bad) ↦ ground (arith, h)
      | inl (e, good) ↦ ground (arith, connect_to-IsShown c e v known h)
    ]
  ]
