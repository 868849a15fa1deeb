-- ===== src/Host/Connection.antt =====
-- XcpSession of `shared/python/pyxcp_host/services/xcp_session.py` with its connection and its DAQ
-- acquisition. `Session` has the state and the operations for its calibrations.
pub mod Slave
pub mod Calls
pub mod Memory
pub mod Restored
pub mod Sound
pub mod Leaving
pub mod Opening
pub mod Attached
use sim_rt.Prelude.{
  ℕ, Bool, true, false, not, ◌&&◌, ◌||◌, Option, none, some, List, [], ◌∷◌, if◌then◌else◌, length,
  Text, codes, text_eq, upper, strip,
}
use sim_rt.Prelude.Int.{ℤ}
use sim_rt.Prelude.Dict.{Dict, insert, keys}
use sim_rt.Exec.{
  Result, ok, err, Error, Exec, pure, raise, gets, of_result, ◌>>=◌, ◌>>◌, modify, raise_if, catch,
  finally, no_client, not_restored, already_active, no_catalog, mismatched_byte_order,
}
use sim_rt.Transport.{PyxcpConfig, TransportSettings, post_init}
use sim_rt.Transport.Master.{Master}
use sim_rt.Scalar.{A2lScalar, Kind, characteristic, measurement, Number, Value}
use sim_rt.Scalar.Words.{Endian, little, big}
use sim_rt.Scalar.Float64.{Floats}
use sim_rt.Scalar.Database.{get_scalar}
use sim_rt.A2l.{DaqEvent}
use sim_rt.Client
use sim_rt.Client.{Client, connected, new_client}
use sim_rt.Client.Characteristic.{read_measurement, read_characteristic}
use sim_rt.Session
use sim_rt.Session.{Session, Span, unique_names}
use sim_rt.Daq.{Decoder, DaqSample}
use sim_rt.Daq.Acquisition
use sim_rt.Daq.Acquisition.{Acquisition, AcquisitionDiagnostics, Metadata, no_op}
use sim_rt.Daq.Acquisition.Slave.{DaqMaster}
use sim_rt.Host.Endpoint.{Endpoint, settings_of}
use Slave.{SlaveProperties}

-- What the session uses of A2LCatalogService.
pub record Catalog : Type 0 where
  pub path : Text
  pub measurements : List Text
  pub by_name : Dict A2lScalar
  pub byte_order : Endian
  pub calibrations : List Text
  pub daq_events : List DaqEvent

pub record ConnectionInfo : Type 0 where
  pub endpoint : Option Endpoint
  pub byte_order : Text
  pub address_granularity_bytes : Option ℕ
  pub max_cto : Option ℕ
  pub max_dto : Option ℕ
  pub supports_calibration : Bool
  pub supports_daq : Bool

-- the names that A2LDatabase.byte_order has
abbrev pub order_name : Endian → Text
order_name little = codes "little"
order_name big = codes "big"

abbrev same_order : Endian → Endian → Bool
same_order little little = true
same_order big big = true
same_order _ _ = false

abbrev is_one_of : Text → List Text → Bool
is_one_of t [] = false
is_one_of t (u ∷ us) = text_eq t u || is_one_of t us

abbrev pub is_empty : {A : Type 0} → List A → Bool
is_empty [] = true
is_empty (_ ∷ _) = false

-- XcpSession._normalize_byte_order
unfoldable pub normalize_byte_order : Text → Option Endian
normalize_byte_order value =
    let text = upper (strip value) in
    if is_one_of text
      (codes "INTEL" ∷ codes "LITTLE" ∷ codes "LITTLE_ENDIAN" ∷ codes "LSB_FIRST" ∷ [])
    then some little
    else if is_one_of text
        (codes "MOTOROLA" ∷ codes "BIG" ∷ codes "BIG_ENDIAN" ∷ codes "MSB_FIRST" ∷ [])
    then some big
    else none

-- The fields of XcpSession. `attached` is `self._client is not None` and `has_daq` is
-- `self._daq is not None`. The client stands in the acquisition, since a DaqAcquisition works on the
-- object that the session has; an acquisition that outlives it is not active.
pub record Connection (m : Master PyxcpConfig) (d : Decoder) : Type 0 where
  pub acquisition : Acquisition m d
  pub has_daq : Bool
  pub attached : Bool
  pub endpoint : Option Endpoint
  pub originals : Dict (List ℕ)
  pub spans : Dict Span
  pub diagnostic_connection : Option ConnectionInfo

-- XcpSession.diagnostics
pub record Diagnostics : Type 0 where
  pub connection : Option ConnectionInfo
  pub connected : Bool
  pub pending_calibrations : ℕ
  pub daq : Option AcquisitionDiagnostics

module _ (m : Master PyxcpConfig) (d : Decoder) (dm : DaqMaster m d) (hm : SlaveProperties m)
    (f : Floats) (catalog : Catalog) where
  -- the session as its calibrations see it
  abbrev pub session_of : Connection m d → Session m
  session_of s = record {
    client = s.acquisition.client;
    attached = s.attached;
    originals = s.originals;
    spans = s.spans;
  }

  abbrev pub with_session : Connection m d → Session m → Connection m d
  with_session s t = record s {
    acquisition = record (s.acquisition) { client = t.client };
    attached = t.attached;
    originals = t.originals;
    spans = t.spans;
  }

  -- a method for calibrations, a method of the client, and one of the acquisition
  abbrev pub on_session : {A : Type 0} → Exec (Session m) A → Exec (Connection m d) A
  on_session g s = let (r, t) = g (session_of s) in (r, with_session s t)

  abbrev pub on_client : {A : Type 0} → Exec (Client m) A → Exec (Connection m d) A
  on_client g s =
      let (r, c) = g s.acquisition.client in
      (r, record s { acquisition = record (s.acquisition) { client = c } })

  abbrev pub on_daq : {A : Type 0} → Exec (Acquisition m d) A → Exec (Connection m d) A
  on_daq g s = let (r, a) = g s.acquisition in (r, record s { acquisition = a })

  -- XcpSession.__init__, where a client that is not connected stands for none
  unfoldable pub new_connection : Client m → ℕ → Connection m d
  new_connection client made = record {
    acquisition = record {
      client = client;
      installed = no_op;
      capacity = 20000;
      policy = none;
      previous = none;
      active = false;
      metadata = none;
      made = made;
    };
    has_daq = false;
    attached = false;
    endpoint = none;
    originals = [];
    spans = [];
    diagnostic_connection = none;
  }

  -- XcpSession.connected, .pending_calibrations and .daq_active
  unfoldable pub is_connected : Connection m d → Bool
  is_connected s = s.attached && connected m s.acquisition.client

  unfoldable pub pending_calibrations : Connection m d → List Text
  pending_calibrations s = keys s.originals

  unfoldable pub daq_active : Connection m d → Bool
  daq_active s = s.has_daq && s.acquisition.active

  -- XcpSession._require_client
  unfoldable pub require_client : Exec (Connection m d) (Unit {0})
  unfolding is_connected
  require_client s = (if is_connected s then ok tt else err no_client, s)

  -- the comprehension of `read_measurements` and of `read_calibrations`
  unfoldable pub read_each :
      (A2lScalar → Exec (Client m) (Number f))
      → Kind
      → List Text
      → Dict (Number f)
      → Exec (Connection m d) (Dict (Number f))
  read_each read kind [] values = pure values
  read_each read kind (name ∷ names) values = do
    scalar ← of_result (get_scalar catalog.by_name name kind)
    value ← on_client (read scalar)
    read_each read kind names (insert name value values)

  -- XcpSession.read_measurements
  unfoldable pub read_measurements : List Text → Exec (Connection m d) (Dict (Number f))
  unfolding require_client
  read_measurements names = do
    require_client
    selected ← of_result (unique_names names)
    read_each (read_measurement m f) measurement selected []

  -- the names that `read_calibrations` reads
  unfoldable pub selected_calibrations : Option (List Text) → Result (List Text)
  selected_calibrations none = ok catalog.calibrations
  selected_calibrations (some names) = unique_names names

  -- XcpSession.read_calibrations
  unfoldable pub read_calibrations : Option (List Text) → Exec (Connection m d) (Dict (Number f))
  unfolding require_client selected_calibrations
  read_calibrations names = do
    require_client
    selected ← of_result (selected_calibrations names)
    read_each (read_characteristic m f) characteristic selected []

  -- XcpSession.write_calibrations and .restore_calibrations
  unfoldable pub write_calibrations :
      List (Text × Value f) → Exec (Connection m d) (Dict (Number f))
  write_calibrations values = on_session (Session.write_calibrations m f catalog.by_name values)

  unfoldable pub restore_calibrations : Option (List Text) → Exec (Connection m d) (Dict (Number f))
  restore_calibrations none = on_session (Session.restore_all m f catalog.by_name)
  restore_calibrations (some names) = on_session (Session.restore_named m f catalog.by_name names)

  -- [self.catalog.scalar(name, "MEASUREMENT") for name in ...]
  unfoldable pub measurements_of : List Text → Result (List A2lScalar)
  measurements_of [] = ok []
  measurements_of (name ∷ names) =
      let rest = measurements_of names in
      elim (get_scalar catalog.by_name name measurement) [
        | err e ↦ err e
        | ok s ↦ elim rest [ err e ↦ err e | ok scalars ↦ ok (s ∷ scalars) ]
      ]

  -- `DaqAcquisition(client)`, with its capacity of 20000
  unfoldable pub new_acquisition : Exec (Connection m d) (Unit {0})
  new_acquisition s = (
    ok tt,
    record s {
      has_daq = true;
      acquisition = record (s.acquisition) {
        capacity = 20000;
        policy = none;
        previous = none;
        active = false;
        metadata = none;
      };
    },
  )

  -- XcpSession.start_daq
  unfoldable pub start_daq : List Text → ℤ → Exec (Connection m d) Metadata
  unfolding require_client daq_active new_acquisition
  start_daq names event_channel = do
    require_client
    active ← gets daq_active
    raise_if active already_active
    selected ← of_result (unique_names names)
    scalars ← of_result (measurements_of selected)
    new_acquisition
    on_daq (Acquisition.start m d dm scalars event_channel catalog.daq_events)

  -- XcpSession.drain_daq
  unfoldable pub drain_daq : ℕ → Exec (Connection m d) (List (DaqSample d))
  drain_daq max_samples s =
      (if s.has_daq then on_daq (Acquisition.drain m d dm max_samples) else pure []) s

  -- XcpSession.stop_daq
  unfoldable pub stop_daq : Exec (Connection m d) (Unit {0})
  stop_daq s = (if s.has_daq then on_daq (Acquisition.stop m d dm) else pure tt) s

  -- `self._client = None` and `self._endpoint = None`
  unfoldable pub drop_client : Exec (Connection m d) (Unit {0})
  drop_client s = (ok tt, record s { attached = false; endpoint = none })

  -- the `finally` of `disconnect`
  unfoldable pub forget : Exec (Connection m d) (Unit {0})
  forget s = (ok tt, record s { attached = false; endpoint = none; originals = []; spans = [] })

  -- `disconnect` without a client
  unfoldable pub disconnect_detached : Bool → Exec (Connection m d) (Unit {0})
  disconnect_detached restore s =
      if restore && not (is_empty s.originals)
      then (err not_restored, s)
      else if restore
      then (ok tt, record s { endpoint = none })
      else (ok tt, record s { originals = []; spans = []; endpoint = none })

  -- `if restore and self._original_bytes:` of `disconnect`
  unfoldable pub restore_before : Bool → Exec (Connection m d) (Unit {0})
  unfolding restore_calibrations
  restore_before restore s =
      if restore && not (is_empty s.originals)
      then if connected m s.acquisition.client
        then (restore_calibrations none >> pure tt) s
        else (err not_restored, s)
      else (ok tt, s)

  -- the part of `disconnect` that ends the connection
  unfoldable pub leave : Exec (Connection m d) (Unit {0})
  leave = do stop_daq; finally (on_client (Client.disconnect m)) forget

  -- XcpSession.disconnect
  unfoldable pub disconnect : Bool → Exec (Connection m d) (Unit {0})
  disconnect restore s =
      if s.attached then (restore_before restore >> leave) s else disconnect_detached restore s

  -- the byte order that `connection_info` reports
  unfoldable pub agreed_byte_order : Option Text → Result Text
  unfolding normalize_byte_order
  agreed_byte_order reported =
      let text : Text = elim reported [ none ↦ order_name catalog.byte_order | some t ↦ t ] in
      elim (normalize_byte_order text) [
        | none ↦ ok text
        | some order ↦
            if same_order order catalog.byte_order
            then ok (order_name order)
            else err mismatched_byte_order
      ]

  -- XcpSession.connection_info
  unfoldable pub connection_info : Exec (Connection m d) ConnectionInfo
  unfolding require_client agreed_byte_order
  connection_info = do
    require_client
    w ← gets (λ s. s.acquisition.client.world)
    order ← of_result (agreed_byte_order (hm.byte_order w))
    endpoint ← gets (λ s. s.endpoint)
    pure (record {
      endpoint = endpoint;
      byte_order = order;
      address_granularity_bytes = m.bytes_per_element w;
      max_cto = hm.max_cto w;
      max_dto = hm.max_dto w;
      supports_calibration = hm.supports_calibration w;
      supports_daq = dm.supports_daq w;
    })

  -- `self._client_factory(settings)`, whose master has pyXCP's own policy
  unfoldable pub make_client : TransportSettings → Exec (Connection m d) (Unit {0})
  make_client settings s = (
    ok tt,
    record s {
      acquisition = record (s.acquisition) {
        client = new_client m settings s.acquisition.client.world;
        installed = no_op;
      };
    },
  )

  -- the state once the new client is connected
  unfoldable pub attach_client : Endpoint → Exec (Connection m d) (Unit {0})
  attach_client endpoint s = (
    ok tt,
    record s {
      attached = true;
      endpoint = some endpoint;
      originals = [];
      spans = [];
      has_daq = false;
    },
  )

  -- the last `try` of `connect`
  unfoldable pub inform : Exec (Connection m d) ConnectionInfo
  unfolding connection_info
  inform = do
    info ← connection_info
    modify (λ s. record s { diagnostic_connection = some info })
    pure info

  -- its `except`
  unfoldable pub give_up : Error → Exec (Connection m d) ConnectionInfo
  unfolding drop_client
  give_up e = do finally (on_client (Client.disconnect m)) drop_client; raise e

  -- `if self.connected: self.disconnect(restore=True)`
  unfoldable pub leave_active : Exec (Connection m d) (Unit {0})
  unfolding is_connected
  leave_active s = (if is_connected s then disconnect true else pure tt) s

  -- `client.connect()` with the `except` around it
  unfoldable pub connect_client : Exec (Connection m d) (Option m.Response)
  unfolding drop_client
  connect_client = catch (on_client (Client.connect m)) (λ e. drop_client >> raise e)

  -- the part of `connect` that follows the settings
  unfoldable pub open_client : Endpoint → TransportSettings → Exec (Connection m d) ConnectionInfo
  open_client endpoint settings = do
    make_client settings
    connect_client
    attach_client endpoint
    catch inform give_up

  -- XcpSession.connect with a catalog
  unfoldable pub connect_with : Endpoint → Exec (Connection m d) ConnectionInfo
  connect_with endpoint = do
    leave_active
    settings ← of_result (post_init (settings_of endpoint))
    open_client endpoint settings

  -- XcpSession.diagnostics
  unfoldable pub diagnostics : Connection m d → Diagnostics
  unfolding is_connected pending_calibrations
  diagnostics s = record {
    connection = if is_connected s then s.diagnostic_connection else none;
    connected = is_connected s;
    pending_calibrations = length (pending_calibrations s);
    daq = if s.has_daq then some (Acquisition.diagnostics m d dm s.acquisition) else none;
  }

module _ (m : Master PyxcpConfig) (d : Decoder) (dm : DaqMaster m d) (hm : SlaveProperties m)
    (f : Floats) where
  -- XcpSession.connect
  unfoldable pub connect : Option Catalog → Endpoint → Exec (Connection m d) ConnectionInfo
  connect none endpoint = raise no_catalog
  connect (some catalog) endpoint = connect_with m d dm hm f catalog endpoint
