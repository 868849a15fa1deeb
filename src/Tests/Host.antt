-- ===== src/Tests/Host.antt =====
-- The session of `shared/python/pyxcp_host` with its DAQ acquisition over a slave that knows DAQ.
use sim_rt.Prelude.{arith, ℕ, ◌≡◌, refl, inl, inr, true, false, some, none, List, [], ◌∷◌, codes}
use sim_rt.Prelude.Int.{pos}
use sim_rt.Exec.{ok, err, foreign}
use sim_rt.Scalar.{A2lScalar, measurement, characteristic, uword, slong, number, integer}
use sim_rt.Scalar.Words.{little}
use sim_rt.Client.{Client, ClientState}
use sim_rt.Daq.Period.{answered}
use sim_rt.Daq.Prepare.{Setup}
use sim_rt.Daq.Acquisition
use sim_rt.Daq.Acquisition.{Acquisition, check_measurements, no_op}
use sim_rt.Daq.Acquisition.Slave.{DaqInfo, DaqMaster}
use sim_rt.Daq.Acquisition.Selection.{IsSelection, check_measurements-IsSelection}
use sim_rt.Daq.Acquisition.Lifecycle.{
  AcquisitionCall, starting, stopping, draining, run_acquisition, run_acquisition-IsAttached,
  IsAttached,
}
use sim_rt.Host.Endpoint.{Endpoint, endpoint_init, settings_of}
use sim_rt.Host.Endpoint.Settings.{settings_of-accepted}
use sim_rt.Host.Connection
use sim_rt.Host.Connection.{Catalog, Connection, new_connection, disconnect}
use sim_rt.Host.Connection.Slave.{SlaveProperties}
use sim_rt.Host.Connection.Calls.{
  SessionCall, writing_calibrations, starting_daq, stopping_daq, restoring_calibrations,
  reading_measurements, run_connection, AnyCall, connecting, using, disconnecting, run_any,
}
use sim_rt.Host.Connection.Memory.{Peaceful}
use sim_rt.Host.Connection.Restored.{run_connection-restored}
use sim_rt.Host.Connection.Sound.{IsSound}
use sim_rt.Host.Connection.Opening.{run_any-IsSound}
use sim_rt.Transport.{TransportSettings, post_init}
use sim_rt.Tests.Device.{quiet, small_master, small-Truthful, no_floats}
use sim_rt.Tests.Daq.{counter_decoder}
use sim_rt.Tests.Session.{session, batch, catalog, small-Contained}

abbrev info : DaqInfo
info = record {
  dynamic = true;
  timestamps = true;
  entry_granularity = 1;
  timestamp_size = some 4;
  timestamp_ticks = 1;
  max_entry = 7;
  header_size = 1;
}

abbrev setup : Setup
setup = record {
  capacity = 0;
  period_ps = 0;
  header_size = 1;
  overload_msb = false;
  byte_order = codes "INTEL";
  first_pid = 0;
  names = codes "speed" ∷ codes "level" ∷ [];
  entries = (2 ∷ []) ∷ (4 ∷ []) ∷ [];
  ts_size = 4;
  tick_ps = 1000000;
  min_daq = 0;
}

-- a slave that grants every command of an acquisition: an event every millisecond
abbrev pub granting : DaqMaster small_master counter_decoder
granting = record {
  supports_daq = λ _. true;
  max_dto = λ _. 8;
  unknown_code = 32;
  syntax_code = 33;
  event_info = λ _ w. (answered (record { cycle = 1; exponent = some 9; daq = true }), w);
  daq_info = λ w. (ok info, w);
  unlock = quiet;
  setup = λ _ _ w. (ok setup, w);
  start = quiet;
  stop = quiet;
  stop_all = quiet;
  native = 0;
}

-- and one that does not start, nor confirms that it stands
abbrev stuck : DaqMaster small_master counter_decoder
stuck = record granting { start = λ w. (err (foreign 1), w); stop_all = λ w. (err (foreign 2), w) }

abbrev speed : A2lScalar
speed = record {
  name = codes "speed";
  kind = measurement;
  address = 0x200;
  data_type = uword;
  byte_order = little;
  address_extension = 0;
}

abbrev level : A2lScalar
level = record {
  name = codes "level";
  kind = measurement;
  address = 0x202;
  data_type = slong;
  byte_order = little;
  address_extension = 0;
}

abbrev idle : Acquisition small_master counter_decoder
idle = record {
  client = session.client;
  installed = no_op;
  capacity = 20;
  policy = none;
  previous = none;
  active = false;
  metadata = none;
  made = 0;
}

abbrev daq_calls : List (AcquisitionCall small_master counter_decoder stuck)
daq_calls = starting (speed ∷ level ∷ []) (pos 1) [] ∷ draining 5 ∷ stopping ∷ []

-- the start raises, and the stop ends what it has left
stuck_start :
    (run_acquisition small_master counter_decoder stuck
      (starting (speed ∷ level ∷ []) (pos 1) [] ∷ [])
      idle).active
    ≡ true
unfolding run_acquisition Acquisition.start Acquisition.require_ready Acquisition.negotiate
    Acquisition.begin Acquisition.require_client_master sim_rt.Client.require_master
    sim_rt.Client.connected sim_rt.Client.is_connected sim_rt.Transport.in_range check_measurements
    Acquisition.check_measurement Acquisition.overlaps_any Acquisition.scalars_overlap
    sim_rt.Client.validate_address_span sim_rt.Client.validate_address
    sim_rt.Client.Characteristic.is_characteristic sim_rt.Scalar.size sim_rt.Scalar.type_size
    Acquisition.resolve_period sim_rt.Daq.Period.resolve_event_period sim_rt.Daq.Period.event_period
    Acquisition.check_info Acquisition.exceeds sim_rt.Daq.Prepare.new_policy Acquisition.run_start
    Acquisition.try_start Acquisition.lay_out Acquisition.launch Acquisition.prepare_fresh
    sim_rt.Daq.Prepare.prepare sim_rt.Daq.Prepare.layout_of sim_rt.Daq.Prepare.check_layout
    sim_rt.Daq.Prepare.frame_lengths_of sim_rt.Daq.Prepare.later_lengths sim_rt.Daq.Prepare.total
    sim_rt.Daq.Prepare.modulus_of sim_rt.Daq.Samples.round_div Acquisition.same_names
    Acquisition.all_listed Acquisition.listed Acquisition.attach Acquisition.exchange
    Acquisition.activate_fresh sim_rt.Daq.Prepare.activate Acquisition.clean_up
    Acquisition.finish_start
stuck_start = refl

run_acquisition-IsAttached_example :
    IsAttached small_master counter_decoder stuck
      (run_acquisition small_master counter_decoder stuck daq_calls idle)
run_acquisition-IsAttached_example =
    run_acquisition-IsAttached small_master counter_decoder stuck daq_calls idle (inl (refl, refl))

accepted : check_measurements [] (speed ∷ level ∷ []) ≡ ok tt
unfolding check_measurements Acquisition.check_measurement Acquisition.overlaps_any
    Acquisition.scalars_overlap sim_rt.Client.validate_address_span sim_rt.Client.validate_address
    sim_rt.Client.Characteristic.is_characteristic sim_rt.Scalar.size sim_rt.Scalar.type_size
    sim_rt.Transport.in_range
accepted = refl

check_measurements-IsSelection_example : IsSelection [] (speed ∷ level ∷ [])
check_measurements-IsSelection_example =
    check_measurements-IsSelection [] (speed ∷ level ∷ []) accepted

abbrev pub entered : Endpoint
entered = record {
  protocol = codes " tcp";
  host = codes " plc ";
  port = pos 17725;
  timeout = pos 2000000;
}

abbrev pub endpoint : Endpoint
endpoint = record {
  protocol = codes "TCP";
  host = codes "plc";
  port = pos 17725;
  timeout = pos 2000000;
}

entered_endpoint : endpoint_init entered ≡ ok endpoint
unfolding endpoint_init sim_rt.Host.Endpoint.check_endpoint sim_rt.Transport.default_ports
    sim_rt.Transport.in_range sim_rt.Prelude.strip sim_rt.Prelude.lstrip sim_rt.Prelude.upper
entered_endpoint = refl

settings_of-accepted_example : post_init (settings_of endpoint) ≡ ok (settings_of endpoint)
settings_of-accepted_example = settings_of-accepted entered endpoint entered_endpoint

abbrev pub properties : SlaveProperties small_master
properties = record {
  byte_order = λ _. some (codes "INTEL");
  max_cto = λ _. some 8;
  max_dto = λ _. some 8;
  supports_calibration = λ _. true;
}

abbrev pub known : Catalog
known = record {
  path = codes "model.a2l";
  measurements = codes "speed" ∷ codes "level" ∷ [];
  by_name = (codes "speed", speed) ∷ (codes "level", level) ∷ catalog;
  byte_order = little;
  calibrations = codes "gain" ∷ codes "bias" ∷ [];
  daq_events = [];
}

abbrev pub connection : Connection small_master counter_decoder
connection =
    record (new_connection small_master counter_decoder granting properties no_floats known
      session.client 0) { attached = true }

pub connection-IsSound : IsSound small_master counter_decoder granting connection
unfolding new_connection sim_rt.Client.connected sim_rt.Client.is_connected
connection-IsSound = record {
  consistent = ground arith;
  owner = refl;
  consumer = inl (refl, refl);
  running = inl refl;
  books = inl refl;
}

abbrev host_calls : List (AnyCall small_master counter_decoder granting properties no_floats known)
host_calls =
    using (writing_calibrations batch)
    ∷ using (starting_daq (codes "speed" ∷ codes "level" ∷ []) (pos 1))
    ∷ disconnecting true
    ∷ connecting endpoint
    ∷ []

run_any-IsSound_example :
    IsSound small_master counter_decoder granting (
      run_any small_master counter_decoder granting properties no_floats known host_calls
        connection)
run_any-IsSound_example =
    run_any-IsSound small_master counter_decoder granting properties no_floats known host_calls
      connection connection-IsSound

small-Peaceful : Peaceful small_master small-Truthful counter_decoder granting
unfolding sim_rt.Client.close_master
small-Peaceful = record {
  daq = λ before. record {
    by_unlock = λ c h. h;
    by_setup = λ n l c h. h;
    by_start = λ c h. h;
    by_stop = λ c h. h;
    by_stop_all = λ c h. h;
    by_event_info = λ n c h. h;
    by_daq_info = λ c h. h;
  };
  mem-disconnect = λ w. refl;
  mem-close = λ w. refl;
}

abbrev session_calls : List (SessionCall no_floats)
session_calls =
    writing_calibrations batch
    ∷ starting_daq (codes "speed" ∷ codes "level" ∷ []) (pos 1)
    ∷ reading_measurements (codes "level" ∷ [])
    ∷ []

disconnected :
    (disconnect small_master counter_decoder granting properties no_floats known true (
      run_connection small_master counter_decoder granting properties no_floats known session_calls
        connection)).0
    ≡ ok tt
unfolding disconnect run_connection sim_rt.Session.restore_all sim_rt.Session.write_calibrations
    sim_rt.Client.connected sim_rt.Session.entries_of sim_rt.Scalar.Database.get_scalar
    sim_rt.Session.validate_non_overlapping sim_rt.Session.clashes sim_rt.Prelude.Dict.insert
    sim_rt.Session.span_of sim_rt.Scalar.size sim_rt.Scalar.type_size sim_rt.Prelude.Dict.contains
    sim_rt.Client.Characteristic.read_bytes sim_rt.Client.read_memory sim_rt.Client.upload_loop
    sim_rt.Client.Characteristic.write_characteristic sim_rt.Scalar.encode
    sim_rt.Client.Characteristic.verify_bytes sim_rt.Client.Characteristic.write_bytes
    sim_rt.Client.download_loop sim_rt.Client.upload_chunk sim_rt.Client.write_memory
    sim_rt.Prelude.Dict.erase sim_rt.Prelude.Dict.keys sim_rt.Prelude.Dict.lookup
    sim_rt.Scalar.decode sim_rt.Scalar.to_integer sim_rt.Scalar.type_is_float
    sim_rt.Scalar.Words.pack_int sim_rt.Scalar.Words.unpack_int sim_rt.Scalar.Literals.int_literal
    sim_rt.Session.restore_loop sim_rt.Session.restore_one sim_rt.Session.restore_named
    sim_rt.Session.recover sim_rt.Session.unique_names sim_rt.Client.Memory.store_at
    sim_rt.Client.Memory.store Acquisition.start Acquisition.require_ready Acquisition.negotiate
    Acquisition.begin Acquisition.require_client_master sim_rt.Client.require_master
    sim_rt.Client.is_connected sim_rt.Transport.in_range check_measurements
    Acquisition.check_measurement Acquisition.overlaps_any Acquisition.scalars_overlap
    sim_rt.Client.validate_address_span sim_rt.Client.validate_address
    sim_rt.Client.Characteristic.is_characteristic Acquisition.resolve_period
    sim_rt.Daq.Period.resolve_event_period sim_rt.Daq.Period.event_period Acquisition.check_info
    Acquisition.exceeds sim_rt.Daq.Prepare.new_policy Acquisition.run_start Acquisition.try_start
    Acquisition.lay_out Acquisition.launch Acquisition.prepare_fresh sim_rt.Daq.Prepare.prepare
    sim_rt.Daq.Prepare.layout_of sim_rt.Daq.Prepare.check_layout sim_rt.Daq.Prepare.frame_lengths_of
    sim_rt.Daq.Prepare.later_lengths sim_rt.Daq.Prepare.total sim_rt.Daq.Prepare.modulus_of
    sim_rt.Daq.Samples.round_div Acquisition.same_names Acquisition.all_listed Acquisition.listed
    Acquisition.attach Acquisition.exchange Acquisition.activate_fresh sim_rt.Daq.Prepare.activate
    Acquisition.clean_up Acquisition.finish_start Connection.write_calibrations Connection.start_daq
    Connection.read_measurements Connection.require_client Connection.is_connected
    Connection.daq_active Connection.measurements_of Connection.new_acquisition Connection.read_each
    Connection.restore_before Connection.restore_calibrations Connection.leave Connection.stop_daq
    Connection.forget Connection.drain_daq new_connection
    sim_rt.Host.Connection.Calls.call_connection sim_rt.Session.nonempty sim_rt.Session.fromkeys
    sim_rt.Client.disconnect sim_rt.Client.close_master sim_rt.Client.forget
    sim_rt.Daq.Prepare.finalize Acquisition.stop Acquisition.give_back Acquisition.finalize_policy
    sim_rt.Client.Characteristic.read_measurement sim_rt.Client.Characteristic.read_scalar
    sim_rt.Scalar.Database.same_kind sim_rt.Session.require_client sim_rt.Session.write_loop
    sim_rt.Session.write_entry sim_rt.Session.keep_original sim_rt.Session.read_original
    sim_rt.Session.overlaps sim_rt.Client.upload_all sim_rt.Client.require_byte_addressing
    sim_rt.Client.download_all
disconnected = refl

run_connection-restored_example :
    small-Truthful.mem
      (disconnect small_master counter_decoder granting properties no_floats known true (
        run_connection small_master counter_decoder granting properties no_floats known
          session_calls connection)).1.acquisition.client.world
      0
      0x100
    ≡ 0
unfolding new_connection
run_connection-restored_example =
    run_connection-restored small_master counter_decoder granting properties no_floats known
      small-Truthful small-Contained small-Peaceful session_calls connection 0 0x100 refl
      disconnected
