-- ===== src/Host/ViewModel.antt =====
-- HostViewModel of `shared/python/pyxcp_host/viewmodel.py`: the state that the windows show, around
-- one session. A log line is kept as what it tells, without its time; the sink that the windows put
-- in is not modelled.

pub mod Shown
pub mod Lifecycle
pub mod Commands
use sim_rt.Prelude.{
  ℕ, ◌-◌, Bool, true, false, ◌&&◌, Option, none, some, List, [], ◌∷◌, ◌++◌, length, drop,
  if◌then◌else◌, Text,
}
use sim_rt.Prelude.Int.{ℤ}
use sim_rt.Prelude.Dict.{Dict}
use sim_rt.Exec.{
  Result, ok, err, Error, Exec, pure, raise, gets, of_result, ◌>>=◌, ◌>>◌, modify, raise_if, catch,
  no_catalog,
}
use sim_rt.Transport.{PyxcpConfig}
use sim_rt.Transport.Master.{Master}
use sim_rt.Scalar.{Number, Value}
use sim_rt.Scalar.Words.{little}
use sim_rt.Scalar.Float64.{Floats}
use sim_rt.Daq.{Decoder, DaqSample}
use sim_rt.Daq.Acquisition.{Metadata}
use sim_rt.Daq.Acquisition.Slave.{DaqMaster}
use sim_rt.Host.Endpoint.{Endpoint, endpoint_init}
use sim_rt.Host.Connection
use sim_rt.Host.Connection.{Catalog, Connection, ConnectionInfo, Diagnostics}
use sim_rt.Host.Connection.Slave.{SlaveProperties}

pub data HostState : Type 0 where
  empty loaded connecting connected error closed : HostState

-- what failed, as `_fail` is told
pub data Context : Type 0 where
  loading opening leaving polling starting_daq stopping_daq reading writing restoring closing :
      Context

pub data LogLine : Type 0 where
  loaded_a2l : Text → ℕ → ℕ → LogLine
  connecting_to connected_to : Endpoint → LogLine
  disconnected daq_stopped host_closed : LogLine
  daq_started : Metadata → LogLine
  values_read values_written values_restored : ℕ → LogLine
  failed : Context → Error → LogLine

-- `del self._log_lines[:-500]`
unfoldable pub keep_last : {A : Type 0} → ℕ → List A → List A
keep_last n lines = drop (length lines - n) lines

pub record ViewModel (m : Master PyxcpConfig) (d : Decoder) : Type 0 where
  pub session : Connection m d
  pub state : HostState
  pub catalog : Option Catalog
  pub last_error : Option (Context × Error)
  pub log_lines : List LogLine

-- HostViewModel.diagnostics
pub record HostDiagnostics : Type 0 where
  pub session : Diagnostics
  pub state : HostState
  pub a2l_file : Option Text
  pub supported_measurements : ℕ
  pub supported_calibrations : ℕ
  pub last_error : Option (Context × Error)

unfoldable pub measurements : Option Catalog → List Text
measurements none = []
measurements (some c) = c.measurements

unfoldable pub calibrations : Option Catalog → List Text
calibrations none = []
calibrations (some c) = c.calibrations

-- The catalog that the session works with; without one it has no client and looks nothing up.
unfoldable pub catalog_of : Option Catalog → Catalog
catalog_of none = record {
  path = [];
  measurements = [];
  by_name = [];
  byte_order = little;
  calibrations = [];
  daq_events = [];
}
catalog_of (some c) = c

module _ (m : Master PyxcpConfig) (d : Decoder) (dm : DaqMaster m d) (hm : SlaveProperties m)
    (f : Floats) where
  -- a method of the session
  abbrev pub on_connection :
      {A : Type 0} → (Catalog → Exec (Connection m d) A) → Exec (ViewModel m d) A
  on_connection g v =
      let (r, s) = g (catalog_of v.catalog) v.session in (r, record v { session = s })

  -- HostViewModel.__init__
  unfoldable pub new_view_model : Connection m d → ViewModel m d
  new_view_model session = record {
    session = session;
    state = HostState.empty;
    catalog = none;
    last_error = none;
    log_lines = [];
  }

  -- HostViewModel.connected
  unfoldable pub is_connected : ViewModel m d → Bool
  is_connected v = Connection.is_connected m d dm hm f (catalog_of v.catalog) v.session

  -- HostViewModel._log
  unfoldable pub log : LogLine → Exec (ViewModel m d) (Unit {0})
  unfolding keep_last
  log line v = (ok tt, record v { log_lines = keep_last 500 (v.log_lines ++ (line ∷ [])) })

  -- HostViewModel._fail
  unfoldable pub fail : Context → Error → Bool → Exec (ViewModel m d) (Unit {0})
  unfolding is_connected log
  fail context e preserve_connection v =
      let state =
        if preserve_connection && is_connected v then HostState.connected else HostState.error in
      log (failed context e) (record v { last_error = some (context, e); state = state })

  -- `try: ... except BaseException as exc: self._fail(...); raise`
  unfoldable pub guarded :
      {A : Type 0} → Context → Bool → Exec (ViewModel m d) A → Exec (ViewModel m d) A
  unfolding fail
  guarded context preserve_connection action =
      catch action (λ e. fail context e preserve_connection >> raise e)

  -- the end of `disconnect`
  unfoldable pub show_disconnected : Exec (ViewModel m d) (Unit {0})
  unfolding log
  show_disconnected v = log disconnected (record v {
    state = elim v.catalog [ none ↦ HostState.empty | some _ ↦ HostState.loaded ];
    last_error = none;
  })

  -- HostViewModel.disconnect
  unfoldable pub disconnect : Exec (ViewModel m d) (Unit {0})
  disconnect = do
    guarded leaving true (on_connection (λ c. Connection.disconnect m d dm hm f c true))
    show_disconnected

  -- `if self.connected: self.disconnect()`
  unfoldable pub disconnect_first : Exec (ViewModel m d) (Unit {0})
  disconnect_first v = (if is_connected v then disconnect else pure tt) v

  -- the end of `load_a2l`
  unfoldable pub show_loaded : Catalog → Exec (ViewModel m d) (Unit {0})
  unfolding log
  show_loaded c v =
      log (loaded_a2l c.path (length c.measurements) (length c.calibrations))
        (record v { catalog = some c; state = HostState.loaded; last_error = none })

  -- HostViewModel.load_a2l, with what A2LCatalogService.load makes of the file
  unfoldable pub load_a2l : Result Catalog → Exec (ViewModel m d) Catalog
  load_a2l file = do
    disconnect_first
    catalog ← guarded loading false (of_result file)
    show_loaded catalog
    pure catalog

  -- the two changes of state in `connect`
  unfoldable pub show_connecting : Endpoint → Exec (ViewModel m d) (Unit {0})
  unfolding log
  show_connecting e v = log (connecting_to e) (record v { state = HostState.connecting })

  unfoldable pub show_connected : Endpoint → Exec (ViewModel m d) (Unit {0})
  unfolding log
  show_connected e v =
      log (connected_to e) (record v { state = HostState.connected; last_error = none })

  -- the part of `connect` that follows the endpoint
  unfoldable pub connect_to : Endpoint → Exec (ViewModel m d) ConnectionInfo
  connect_to endpoint = do
    show_connecting endpoint
    info ←
        guarded opening false
          (on_connection (λ c. Connection.connect m d dm hm f (some c) endpoint))
    show_connected endpoint
    pure info

  -- HostViewModel.connect
  unfoldable pub connect : Endpoint → Exec (ViewModel m d) ConnectionInfo
  unfolding endpoint_init
  connect entered v = elim v.catalog [
    | none ↦ (err no_catalog, v)
    | some _ ↦ elim (endpoint_init entered) [
      | err e ↦ (err e, v)
      | ok endpoint ↦ connect_to endpoint v
    ]
  ]

  -- HostViewModel.poll_measurements
  unfoldable pub poll_measurements : List Text → Exec (ViewModel m d) (Dict (Number f))
  poll_measurements names =
      guarded polling true (on_connection (λ c. Connection.read_measurements m d dm hm f c names))

  -- HostViewModel.start_daq
  unfoldable pub start_daq : List Text → ℤ → Exec (ViewModel m d) Metadata
  start_daq names event_channel = do
    metadata ←
        guarded Context.starting_daq true
          (on_connection (λ c. Connection.start_daq m d dm hm f c names event_channel))
    log (daq_started metadata)
    pure metadata

  -- HostViewModel.drain_daq
  unfoldable pub drain_daq : ℕ → Exec (ViewModel m d) (List (DaqSample d))
  drain_daq max_samples = on_connection (λ c. Connection.drain_daq m d dm hm f c max_samples)

  -- HostViewModel.stop_daq
  unfoldable pub stop_daq : Exec (ViewModel m d) (Unit {0})
  stop_daq = do
    guarded Context.stopping_daq true (on_connection (λ c. Connection.stop_daq m d dm hm f c))
    log daq_stopped

  -- HostViewModel.read_calibrations, .write_calibrations and .restore_calibrations
  unfoldable pub read_calibrations : Option (List Text) → Exec (ViewModel m d) (Dict (Number f))
  read_calibrations names = do
    values ←
        guarded reading true (on_connection (λ c. Connection.read_calibrations m d dm hm f c names))
    log (values_read (length values))
    pure values

  unfoldable pub write_calibrations : List (Text × Value f) → Exec (ViewModel m d) (Dict (Number f))
  write_calibrations values = do
    result ←
        guarded writing true
          (on_connection (λ c. Connection.write_calibrations m d dm hm f c values))
    log (values_written (length result))
    pure result

  unfoldable pub restore_calibrations : Option (List Text) → Exec (ViewModel m d) (Dict (Number f))
  restore_calibrations names = do
    result ←
        guarded restoring true
          (on_connection (λ c. Connection.restore_calibrations m d dm hm f c names))
    log (values_restored (length result))
    pure result

  -- the part of `close` that follows its test
  unfoldable pub close_session : Exec (ViewModel m d) (Unit {0})
  close_session = do
    guarded closing true (on_connection (λ c. Connection.disconnect m d dm hm f c true))
    modify (λ v. record v { state = HostState.closed })
    log host_closed

  abbrev is_closed : HostState → Bool
  is_closed closed = true
  is_closed _ = false

  -- HostViewModel.close
  unfoldable pub close : Exec (ViewModel m d) (Unit {0})
  close v = (if is_closed v.state then pure tt else close_session) v

  -- HostViewModel.diagnostics
  unfoldable pub diagnostics : ViewModel m d → HostDiagnostics
  unfolding measurements calibrations
  diagnostics v = record {
    session = Connection.diagnostics m d dm hm f (catalog_of v.catalog) v.session;
    state = v.state;
    a2l_file = elim v.catalog [ none ↦ none | some c ↦ some c.path ];
    supported_measurements = length (measurements v.catalog);
    supported_calibrations = length (calibrations v.catalog);
    last_error = v.last_error;
  }
