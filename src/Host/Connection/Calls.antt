-- ===== src/Host/Connection/Calls.antt =====
-- Calls of XcpSession (`shared/python/pyxcp_host/services/xcp_session.py`) one after another, whether
-- they return or raise.
use sim_rt.Prelude.{ℕ, Bool, Option, List, [], ◌∷◌, Text}
use sim_rt.Prelude.Int.{ℤ}
use sim_rt.Transport.{PyxcpConfig}
use sim_rt.Transport.Master.{Master}
use sim_rt.Scalar.{Value}
use sim_rt.Scalar.Float64.{Floats}
use sim_rt.Daq.{Decoder}
use sim_rt.Daq.Acquisition.Slave.{DaqMaster}
use sim_rt.Host.Connection.{
  Catalog, Connection, read_measurements, read_calibrations, write_calibrations,
  restore_calibrations, start_daq, stop_daq, drain_daq, disconnect,
}
use sim_rt.Host.Endpoint.{Endpoint}
use sim_rt.Host.Connection.{connect_with}
use sim_rt.Host.Connection.Slave.{SlaveProperties}

-- A method of a connected session with its arguments.
pub data SessionCall (f : Floats) : Type 0 where
  reading_measurements : List Text → SessionCall f
  reading_calibrations : Option (List Text) → SessionCall f
  writing_calibrations : List (Text × Value f) → SessionCall f
  restoring_calibrations : Option (List Text) → SessionCall f
  starting_daq : List Text → ℤ → SessionCall f
  draining_daq : ℕ → SessionCall f
  stopping_daq : SessionCall f

module _ (m : Master PyxcpConfig) (d : Decoder) (dm : DaqMaster m d) (hm : SlaveProperties m)
    (f : Floats) (catalog : Catalog) where
  unfoldable pub call_connection : SessionCall f → Connection m d → Connection m d
  call_connection (reading_measurements names) s = (read_measurements m d dm hm f catalog names s).1
  call_connection (reading_calibrations names) s = (read_calibrations m d dm hm f catalog names s).1
  call_connection (writing_calibrations values) s =
      (write_calibrations m d dm hm f catalog values s).1
  call_connection (restoring_calibrations names) s =
      (restore_calibrations m d dm hm f catalog names s).1
  call_connection (starting_daq names channel) s = (start_daq m d dm hm f catalog names channel s).1
  call_connection (draining_daq n) s = (drain_daq m d dm hm f catalog n s).1
  call_connection stopping_daq s = (stop_daq m d dm hm f catalog s).1

  -- the calls one after another, whether they return or raise
  unfoldable pub run_connection : List (SessionCall f) → Connection m d → Connection m d
  unfolding call_connection
  run_connection [] s = s
  run_connection (call ∷ calls) s = run_connection calls (call_connection call s)

  -- a call on a session that may be without a client
  pub data AnyCall : Type 0 where
    connecting : Endpoint → AnyCall
    disconnecting : Bool → AnyCall
    using : SessionCall f → AnyCall

  unfoldable pub run_any : List AnyCall → Connection m d → Connection m d
  unfolding call_connection
  run_any [] s = s
  run_any (connecting e ∷ calls) s = run_any calls (connect_with m d dm hm f catalog e s).1
  run_any (disconnecting b ∷ calls) s = run_any calls (disconnect m d dm hm f catalog b s).1
  run_any (using call ∷ calls) s = run_any calls (call_connection call s)
