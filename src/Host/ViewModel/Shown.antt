-- ===== src/Host/ViewModel/Shown.antt =====
-- What HostViewModel of `shared/python/pyxcp_host/viewmodel.py` shows between calls, against its session.
use sim_rt.Prelude.{
  ℕ, ◌-◌, ◌≤◌, ◌≡◌, ◌⊎◌, inl, inr, refl, sym, subst, Bool, true, false, Option, none, some, List,
  [], ◌∷◌, ◌++◌, arith, length, length-drop, Text, Bool-cases,
}
use sim_rt.Prelude.Int.{ℤ}
use sim_rt.Exec.{◌>>=◌, ◌>>◌, pure, ok, err, Error, Exec, Result-cases}
use sim_rt.Transport.{PyxcpConfig}
use sim_rt.Transport.Master.{Master}
use sim_rt.Scalar.{Value}
use sim_rt.Scalar.Float64.{Floats}
use sim_rt.Daq.{Decoder}
use sim_rt.Daq.Acquisition.Slave.{DaqMaster}
use sim_rt.Client.{connected}
use sim_rt.Host.Connection
use sim_rt.Host.Connection.{Catalog, Connection}
use sim_rt.Host.Connection.Slave.{SlaveProperties}
use sim_rt.Host.Connection.Sound.{IsSound}
use sim_rt.Host.Connection.Calls.{
  SessionCall, reading_measurements, reading_calibrations, writing_calibrations,
  restoring_calibrations, starting_daq, draining_daq, stopping_daq, call_connection,
}
use sim_rt.Host.Connection.Opening.{call-IsSound}
use sim_rt.Host.Connection.Attached.{call-Stays}
use sim_rt.Host.ViewModel.{
  ViewModel, HostState, Context, LogLine, keep_last, catalog_of, on_connection, is_connected, log,
  fail, guarded, poll_measurements, start_daq, drain_daq, stop_daq, read_calibrations,
  write_calibrations, restore_calibrations,
}

abbrev pub HasCatalog : Option Catalog → Type 0
HasCatalog none = ⊥
HasCatalog (some c) = Unit

-- The state that is shown agrees with the session and the catalog.
abbrev pub Agrees : HostState → Bool → Option Catalog → Type 0
Agrees HostState.empty attached catalog = (attached ≡ false) × (catalog ≡ none)
Agrees HostState.loaded attached catalog = (attached ≡ false) × HasCatalog catalog
Agrees HostState.connecting attached catalog = ⊥
Agrees HostState.connected attached catalog = attached ≡ true
Agrees HostState.error attached catalog = Unit
Agrees HostState.closed attached catalog = attached ≡ false

module _ (m : Master PyxcpConfig) (d : Decoder) (dm : DaqMaster m d) where
  -- Between calls: the session is sound, has a client only with a catalog, and is shown as it is, in
  -- a log of 500 lines at most.
  pub record IsShown (v : ViewModel m d) : Type 0 where
    pub sound : IsSound m d dm v.session
    pub owner : (v.session.attached ≡ false) ⊎ HasCatalog v.catalog
    pub agrees : Agrees v.state v.session.attached v.catalog
    pub bounded : length v.log_lines ≤ 500

  pub keep_last-bounded : {A : Type 0} (n : ℕ) (l : List A) → length (keep_last n l) ≤ n
  unfolding keep_last
  keep_last-bounded n l = omega (arith, length-drop (length l - n) l)

module _ (m : Master PyxcpConfig) (d : Decoder) (dm : DaqMaster m d) (hm : SlaveProperties m)
    (f : Floats) where
  log-IsShown :
      (line : LogLine) (v : ViewModel m d)
      → IsShown m d dm v
      → IsShown m d dm (log m d dm hm f line v).1
  unfolding log
  log-IsShown line v h = record {
    sound = h.sound;
    owner = h.owner;
    agrees = h.agrees;
    bounded = keep_last-bounded m d dm 500 (v.log_lines ++ (line ∷ []));
  }

  pub fail-IsShown :
      (context : Context) (e : Error) (b : Bool) (v : ViewModel m d)
      → IsSound m d dm v.session
      → (v.session.attached ≡ false) ⊎ HasCatalog v.catalog
      → IsShown m d dm (fail m d dm hm f context e b v).1
  unfolding fail log is_connected Connection.is_connected
  fail-IsShown context e b v sound owner = record {
    sound = sound;
    owner = owner;
    agrees = elim (Bool-cases b) [
      | inr lost ↦ rw lost tt
      | inl kept ↦ elim (Bool-cases v.session.attached) [
        | inr off ↦ rw (kept, off) tt
        | inl on ↦ elim (Bool-cases (connected m v.session.acquisition.client)) [
          | inl up ↦ rw (kept, on, up) refl
          | inr down ↦ rw (kept, on, down) tt
        ]
      ]
    ];
    bounded = keep_last-bounded m d dm 500 (v.log_lines ++ (LogLine.failed context e ∷ []));
  }

  -- a session that has its client as before
  moved-IsShown :
      (v : ViewModel m d) (s : Connection m d)
      → IsShown m d dm v
      → IsSound m d dm s
      → s.attached ≡ v.session.attached
      → IsShown m d dm (record v { session = s })
  moved-IsShown v s h sound same = record {
    sound = sound;
    owner = subst (λ b. (b ≡ false) ⊎ HasCatalog v.catalog) (sym same) h.owner;
    agrees = subst (λ b. Agrees v.state b v.catalog) (sym same) h.agrees;
    bounded = h.bounded;
  }

  -- the two ends of a guarded action
  ends_well :
      {A : Type 0} (context : Context) (b : Bool) (g : Exec (ViewModel m d) A) (v : ViewModel m d)
      → ((a : A) → (g v).0 ≡ ok a → IsShown m d dm (g v).1)
      → ((e : Error)
          → (g v).0 ≡ err e
          → IsSound m d dm (g v).1.session
            × (((g v).1.session.attached ≡ false) ⊎ HasCatalog (g v).1.catalog))
      → IsShown m d dm (guarded m d dm hm f context b g v).1
  unfolding guarded
  ends_well context b g v good bad = elim (Result-cases (g v).0) [
    | inl (a, e) ↦ ground (arith, good a e)
    | inr (why, e) ↦
        let (sound, owner) = bad why e in
        ground (arith, fail-IsShown context why b (g v).1 sound owner)
  ]

  call_guarded-IsShown :
      {A : Type 0} (context : Context) (g : Catalog → Exec (Connection m d) A) (v : ViewModel m d)
      → IsShown m d dm v
      → IsSound m d dm (g (catalog_of v.catalog) v.session).1
      → (g (catalog_of v.catalog) v.session).1.attached ≡ v.session.attached
      → IsShown m d dm (guarded m d dm hm f context true (on_connection m d dm hm f g) v).1
  call_guarded-IsShown context g v h sound same =
      let moved = moved-IsShown v (g (catalog_of v.catalog) v.session).1 h sound same in
      ends_well context true (on_connection m d dm hm f g) v (λ a e. moved)
        (λ why e. (moved.sound, moved.owner))

  -- an action whose success is logged
  logged-IsShown :
      {A : Type 0} (g : Exec (ViewModel m d) A) (line : A → LogLine) (v : ViewModel m d)
      → IsShown m d dm (g v).1
      → IsShown m d dm ((g >>= λ a. log m d dm hm f (line a) >> pure a) v).1
  logged-IsShown g line v h = elim (Result-cases (g v).0) [
    | inl (a, e) ↦ ground (arith, log-IsShown (line a) (g v).1 h)
    | inr (why, e) ↦ ground (arith, h)
  ]

  -- an action of the session that is the effect of a call
  abbrev IsCall : {A : Type 0} → SessionCall f → (Catalog → Exec (Connection m d) A) → Type 0
  IsCall call g =
      (c : Catalog) (s : Connection m d) → call_connection m d dm hm f c call s ≡ (g c s).1

  call-IsShown :
      {A : Type 0} (context : Context) (call : SessionCall f)
      (g : Catalog → Exec (Connection m d) A)
      → IsCall call g
      → (v : ViewModel m d) → IsShown m d dm v
      → IsShown m d dm (guarded m d dm hm f context true (on_connection m d dm hm f g) v).1
  call-IsShown context call g same v h =
      let c = catalog_of v.catalog in
      call_guarded-IsShown context g v h
        (subst (IsSound m d dm) (same c v.session)
          (call-IsSound m d dm hm f c call v.session h.sound))
        (subst (λ (s : Connection m d). s.attached ≡ v.session.attached) (same c v.session)
          (call-Stays m d dm hm f c v.session.attached call v.session refl))

  pub drain_daq-IsShown :
      (n : ℕ) (v : ViewModel m d) → IsShown m d dm v → IsShown m d dm (drain_daq m d dm hm f n v).1
  unfolding drain_daq
  drain_daq-IsShown n v h =
      let c = catalog_of v.catalog in
      let call : SessionCall f = draining_daq n in
      moved-IsShown v _ h
        (unfold call_connection in call-IsSound m d dm hm f c call v.session h.sound)
        (unfold call_connection in call-Stays m d dm hm f c v.session.attached call v.session refl)

  pub poll_measurements-IsShown :
      (names : List Text) (v : ViewModel m d)
      → IsShown m d dm v
      → IsShown m d dm (poll_measurements m d dm hm f names v).1
  unfolding poll_measurements
  poll_measurements-IsShown names =
      call-IsShown _ (reading_measurements names)
        (λ c. Connection.read_measurements m d dm hm f c names)
        (λ c s. unfold call_connection in refl)

  pub start_daq-IsShown :
      (names : List Text) (channel : ℤ) (v : ViewModel m d)
      → IsShown m d dm v
      → IsShown m d dm (start_daq m d dm hm f names channel v).1
  unfolding start_daq
  start_daq-IsShown names channel v h =
      let g = λ (c : Catalog). Connection.start_daq m d dm hm f c names channel in
      logged-IsShown (guarded m d dm hm f Context.starting_daq true (on_connection m d dm hm f g))
        LogLine.daq_started v
        (call-IsShown _ (starting_daq names channel) g (λ c s. unfold call_connection in refl) v h)

  pub read_calibrations-IsShown :
      (names : Option (List Text)) (v : ViewModel m d)
      → IsShown m d dm v
      → IsShown m d dm (read_calibrations m d dm hm f names v).1
  unfolding read_calibrations
  read_calibrations-IsShown names v h =
      let g = λ (c : Catalog). Connection.read_calibrations m d dm hm f c names in
      logged-IsShown (guarded m d dm hm f Context.reading true (on_connection m d dm hm f g))
        (λ r. LogLine.values_read (length r)) v
        (call-IsShown _ (reading_calibrations names) g (λ c s. unfold call_connection in refl) v h)

  pub write_calibrations-IsShown :
      (values : List (Text × Value f)) (v : ViewModel m d)
      → IsShown m d dm v
      → IsShown m d dm (write_calibrations m d dm hm f values v).1
  unfolding write_calibrations
  write_calibrations-IsShown values v h =
      let g = λ (c : Catalog). Connection.write_calibrations m d dm hm f c values in
      logged-IsShown (guarded m d dm hm f Context.writing true (on_connection m d dm hm f g))
        (λ r. LogLine.values_written (length r)) v
        (call-IsShown _ (writing_calibrations values) g (λ c s. unfold call_connection in refl) v h)

  pub restore_calibrations-IsShown :
      (names : Option (List Text)) (v : ViewModel m d)
      → IsShown m d dm v
      → IsShown m d dm (restore_calibrations m d dm hm f names v).1
  unfolding restore_calibrations
  restore_calibrations-IsShown names v h =
      let g = λ (c : Catalog). Connection.restore_calibrations m d dm hm f c names in
      logged-IsShown (guarded m d dm hm f Context.restoring true (on_connection m d dm hm f g))
        (λ r. LogLine.values_restored (length r)) v
        (call-IsShown _ (restoring_calibrations names) g (λ c s. unfold call_connection in refl) v
          h)

  pub stop_daq-IsShown :
      (v : ViewModel m d) → IsShown m d dm v → IsShown m d dm (stop_daq m d dm hm f v).1
  unfolding stop_daq
  stop_daq-IsShown v h =
      let g = λ (c : Catalog). Connection.stop_daq m d dm hm f c in
      let stopped =
        call-IsShown Context.stopping_daq stopping_daq g (λ c s. unfold call_connection in refl) v
          h in
      elim (Result-cases
        (guarded m d dm hm f Context.stopping_daq true (on_connection m d dm hm f g) v).0) [
          | inl (_, e) ↦ ground (arith, log-IsShown LogLine.daq_stopped _ stopped)
          | inr (why, e) ↦ ground (arith, stopped)
        ]
