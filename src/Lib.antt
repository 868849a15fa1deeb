-- ===== src/Lib.antt =====
-- The XCP core of SimRT: the client that reads and writes a target's memory, the description of
-- scalars that it works with, and the acquisition of samples.
--
-- Parts and files:
--
-- - `Prelude` and `Exec`: Boolean tests, lists, text as code points, integers, dictionaries as
--   association lists, and actions that return a value or raise and keep the state they have
--   written. `Exec` also has the errors of all parts.
-- - `Transport`: `TransportSettings` and `build_pyxcp_config` of `shared/python/simrt_xcp/client.py`.
--   `Transport.Master` is what the client calls of pyXCP, as a parameter: its operations may raise
--   and may change the world in any way.
-- - `Client`: `XcpClient` of the same file, one function per method (`connect`, `disconnect`,
--   `read_memory`, `write_memory`; in `Client.Characteristic` the typed accesses and the calibration
--   smoke test). `Client.State` is its lifecycle state. `Client.Memory` says, as records of
--   hypotheses, what the XCP commands SET_MTA, UPLOAD and DOWNLOAD do to a slave's memory; the
--   theorems name those that they take. `self._master is not None` is the field `owned`.
-- - `Scalar`: `A2LScalar` of `shared/python/simrt_xcp/a2l.py`. Integers are packed and unpacked here
--   (`Scalar.Words`), texts are read as Python's `int(text, 0)` does (`Scalar.Literals`), the float
--   operations of Python are the parameter `Scalar.Float64.Floats`. The format characters of `struct`
--   have their sizes in `format_size`, apart from the sizes that the source writes beside them.
-- - `Scalar.Database`: `A2LDatabase` of the same file, a dictionary of scalars.
-- - `A2l`: `_daq_events` of the same file, the stack parser of event blocks. Its tokens are those of
--   Python's shlex, with the flag of a quoted one.
-- - `A2l.Blocks`: `parse_a2l` of the same file, from the blocks on that its regular expressions find,
--   each with its kind and the tokens of its body.
-- - `Session`: the calibration part of `XcpSession`
--   (`shared/python/pyxcp_host/services/xcp_session.py`): `write_calibrations` with its recovery,
--   `restore_calibrations` (`restore_all` without names, `restore_named` with them) and the check of
--   overlapping spans. `Session.Pending` is what the session has to bring back. The catalog is an
--   argument, the same for all calls: it is not loaded anew while originals are pending.
-- - `Daq`: `BufferedDaqPolicy` of `shared/python/pyxcp_host/services/daq_acquisition.py`.
--   `Daq.Samples` is `on_daq_list` and `drain`, `Daq.Feed` is `feed`.
--   `Daq.Period` is `resolve_event_period`, `Daq.Prepare` is `__init__`,
--   `prepare`, `activate` and `finalize`. pyXCP's native decoder is the
--   parameter `Decoder`, which makes its calls of `on_daq_list` after a frame.
-- - `Daq.Acquisition`: `DaqAcquisition` of the same file: `start` with the tests of its signals and
--   its rollback, `stop` and `drain`. `installed` is the consumer that `exchange_acquisition_policy` of
--   the client gives to the transport. The DAQ commands of pyXCP are the parameter `DaqMaster`
--   (`Daq.Acquisition.Slave`).
-- - `Host.Endpoint`: `Endpoint` of `shared/python/pyxcp_host/models.py`, and the transport settings that
--   a session makes of it.
-- - `Host.Connection`: the whole of `XcpSession`: `connect`, `connection_info`, the reads, the DAQ
--   methods, `disconnect` and `diagnostics`, around the calibration part of `Session`.
--   `Host.Connection.Calls` has sequences of such calls, `Host.Connection.Memory` what they do to the
--   slave's memory, `Host.Connection.Sound` what holds between them.
-- - `Host.ViewModel`: `HostViewModel` of `shared/python/pyxcp_host/viewmodel.py`, one function per command
--   of the windows. A log line is a constructor in place of its text. What `A2LCatalogService.load` makes
--   of a file is the argument of `load_a2l`.
-- - `Ui`: `normalize_state`, `control_policy` and `default_port` of `app/qt_xcp_host/qt_host/state.py`:
--   the states of the window and the controls they enable.
-- - `Host.Clock`: `TargetClockSync` of `shared/python/pyxcp_host/services/target_clock.py`. `Host.Clock.Host`
--   is what it calls, as a parameter: after each operation it tells which calls of other threads have come
--   in between. An Event is a number. `Host.Clock.Attempts` is what an attempt keeps, `Host.Clock.Ready`
--   has sequences of observations and attempts.
-- - `Tests`: a slave, a float packing and a decoder, on which the theorems are applied.
--
-- A session owns one client and calls `read_memory`, `write_memory` and `write_characteristic` of it.
-- The view model owns one session, and makes of each failure a state and a log line.
-- The client takes its scalars from `Scalar` and its configuration from `Transport`; `Daq` has its
-- frames from the transport of the same session, which makes a new acquisition for each start.
--
-- Loops: the loops of `read_memory` and `write_memory` recurse on fuel, the number of bytes of the
-- span. Each round handles one byte or more, so the fuel is enough.
--
-- Times are whole numbers in place of floats: a timeout is in microseconds, a timestamp in
-- nanoseconds, an event's period in picoseconds. The lock of a policy is not modelled: each of the
-- functions under it is one step.
--
-- Not modelled: the script that is sent to a target to set its clock, and interrupts (KeyboardInterrupt)
-- in the middle of a method. Nor are the drafts of connections, the windows, the chart and the controllers
-- of `app/qt_xcp_host`, network and SSH access, files, the tools under `linux` and `toolchain`, and the
-- tests. Left out of what is modelled: the sink of log lines, which may raise, and a failure of
-- `set_policy_feeder` when a consumer is exchanged.
pub mod Prelude
pub mod Exec
pub mod Transport
pub mod Scalar
pub mod Client
pub mod A2l
pub mod Daq
pub mod Host
pub mod Session
pub mod Ui
mod Tests
