-- ===== src/Host/ViewModel/Commands.antt =====
-- Any commands of HostViewModel (`shared/python/pyxcp_host/viewmodel.py`) one after another.
use sim_rt.Prelude.{ℕ, Option, List, [], ◌∷◌, Text}
use sim_rt.Prelude.Int.{ℤ}
use sim_rt.Exec.{Result}
use sim_rt.Transport.{PyxcpConfig}
use sim_rt.Transport.Master.{Master}
use sim_rt.Scalar.{Value}
use sim_rt.Scalar.Float64.{Floats}
use sim_rt.Daq.{Decoder}
use sim_rt.Daq.Acquisition.Slave.{DaqMaster}
use sim_rt.Host.Endpoint.{Endpoint}
use sim_rt.Host.Connection.{Catalog}
use sim_rt.Host.Connection.Slave.{SlaveProperties}
use sim_rt.Host.ViewModel.{
  ViewModel, disconnect, load_a2l, connect, poll_measurements, start_daq, drain_daq, stop_daq,
  read_calibrations, write_calibrations, restore_calibrations, close,
}
use sim_rt.Host.ViewModel.Shown.{
  IsShown, drain_daq-IsShown, poll_measurements-IsShown, start_daq-IsShown,
  read_calibrations-IsShown, write_calibrations-IsShown, restore_calibrations-IsShown,
  stop_daq-IsShown,
}
use sim_rt.Host.ViewModel.Lifecycle.{
  disconnect-IsShown, load_a2l-IsShown, close-IsShown, connect-IsShown,
}

module _ (m : Master PyxcpConfig) (d : Decoder) (dm : DaqMaster m d) (hm : SlaveProperties m)
    (f : Floats) where
  -- A command of the windows with its arguments; a file comes as what its load makes of it.
  pub data Command : Type 0 where
    load_file : Result Catalog → Command
    connect_host : Endpoint → Command
    disconnect_host close_host stop_acquisition : Command
    poll : List Text → Command
    start_acquisition : List Text → ℤ → Command
    drain_samples : ℕ → Command
    read_values restore_values : Option (List Text) → Command
    write_values : List (Text × Value f) → Command

  unfoldable pub run_commands : List Command → ViewModel m d → ViewModel m d
  run_commands [] v = v
  run_commands (load_file file ∷ commands) v = run_commands commands (load_a2l m d dm hm f file v).1
  run_commands (connect_host e ∷ commands) v = run_commands commands (connect m d dm hm f e v).1
  run_commands (disconnect_host ∷ commands) v = run_commands commands (disconnect m d dm hm f v).1
  run_commands (close_host ∷ commands) v = run_commands commands (close m d dm hm f v).1
  run_commands (stop_acquisition ∷ commands) v = run_commands commands (stop_daq m d dm hm f v).1
  run_commands (poll names ∷ commands) v =
      run_commands commands (poll_measurements m d dm hm f names v).1
  run_commands (start_acquisition names channel ∷ commands) v =
      run_commands commands (start_daq m d dm hm f names channel v).1
  run_commands (drain_samples n ∷ commands) v = run_commands commands (drain_daq m d dm hm f n v).1
  run_commands (read_values names ∷ commands) v =
      run_commands commands (read_calibrations m d dm hm f names v).1
  run_commands (restore_values names ∷ commands) v =
      run_commands commands (restore_calibrations m d dm hm f names v).1
  run_commands (write_values values ∷ commands) v =
      run_commands commands (write_calibrations m d dm hm f values v).1

  -- No sequence of commands of the windows, whether they return or raise, makes the view model lie:
  -- its state says CONNECTED only while the session has its client, and EMPTY, LOADED or CLOSED only
  -- without one; LOADED needs a catalog and EMPTY none; it never stays CONNECTING; the session is sound,
  -- and the log has 500 lines at most.
  pub run_commands-IsShown :
      (commands : List Command) (v : ViewModel m d)
      → IsShown m d dm v
      → IsShown m d dm (run_commands commands v)
  unfolding run_commands
  run_commands-IsShown [] v h = h
  run_commands-IsShown (load_file file ∷ commands) v h =
      run_commands-IsShown commands _ ((load_a2l-IsShown m d dm hm f) file v h)
  run_commands-IsShown (connect_host e ∷ commands) v h =
      run_commands-IsShown commands _ ((connect-IsShown m d dm hm f) e v h)
  run_commands-IsShown (disconnect_host ∷ commands) v h =
      run_commands-IsShown commands _ ((disconnect-IsShown m d dm hm f) v h)
  run_commands-IsShown (close_host ∷ commands) v h =
      run_commands-IsShown commands _ ((close-IsShown m d dm hm f) v h)
  run_commands-IsShown (stop_acquisition ∷ commands) v h =
      run_commands-IsShown commands _ ((stop_daq-IsShown m d dm hm f) v h)
  run_commands-IsShown (poll names ∷ commands) v h =
      run_commands-IsShown commands _ ((poll_measurements-IsShown m d dm hm f) names v h)
  run_commands-IsShown (start_acquisition names channel ∷ commands) v h =
      run_commands-IsShown commands _ ((start_daq-IsShown m d dm hm f) names channel v h)
  run_commands-IsShown (drain_samples n ∷ commands) v h =
      run_commands-IsShown commands _ ((drain_daq-IsShown m d dm hm f) n v h)
  run_commands-IsShown (read_values names ∷ commands) v h =
      run_commands-IsShown commands _ ((read_calibrations-IsShown m d dm hm f) names v h)
  run_commands-IsShown (restore_values names ∷ commands) v h =
      run_commands-IsShown commands _ ((restore_calibrations-IsShown m d dm hm f) names v h)
  run_commands-IsShown (write_values values ∷ commands) v h =
      run_commands-IsShown commands _ ((write_calibrations-IsShown m d dm hm f) values v h)
