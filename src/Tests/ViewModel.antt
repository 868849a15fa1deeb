-- ===== src/Tests/ViewModel.antt =====
-- The view model of `shared/python/pyxcp_host` over the session of the tests.
use sim_rt.Prelude.{refl, arith, inl, inr, false, none, List, [], ◌∷◌, codes}
use sim_rt.Prelude.Int.{pos}
use sim_rt.Exec.{ok}
use sim_rt.Client.{Client, ClientState}
use sim_rt.Host.Connection.{new_connection}
use sim_rt.Host.ViewModel.{ViewModel, new_view_model}
use sim_rt.Host.ViewModel.Shown.{IsShown}
use sim_rt.Host.ViewModel.Commands.{
  Command, load_file, connect_host, close_host, poll, start_acquisition, write_values, run_commands,
  run_commands-IsShown,
}
use sim_rt.Tests.Device.{small_master, blank, settings, no_floats}
use sim_rt.Tests.Daq.{counter_decoder}
use sim_rt.Tests.Session.{batch}
use sim_rt.Tests.Host.{granting, properties, known, entered}

-- a program that has just started
abbrev nobody : Client small_master
nobody = record {
  settings = settings;
  owned = false;
  state = ClientState.closed;
  connect_response = none;
  world = blank;
}

abbrev fresh : ViewModel small_master counter_decoder
fresh =
    new_view_model small_master counter_decoder granting properties no_floats
      (new_connection small_master counter_decoder granting properties no_floats known nobody 0)

fresh-IsShown : IsShown small_master counter_decoder granting fresh
unfolding new_view_model new_connection sim_rt.Client.connected sim_rt.Client.is_connected
fresh-IsShown = record {
  sound = record {
    consistent = ground arith;
    owner = refl;
    consumer = inl (refl, refl);
    running = inl refl;
    books = inr refl;
  };
  owner = inl refl;
  agrees = (refl, refl);
  bounded = omega arith;
}

abbrev commands : List (Command small_master counter_decoder granting properties no_floats)
commands =
    load_file (ok known)
    ∷ connect_host entered
    ∷ write_values batch
    ∷ start_acquisition (codes "speed" ∷ codes "level" ∷ []) (pos 1)
    ∷ poll (codes "nothing" ∷ [])
    ∷ close_host
    ∷ []

run_commands-IsShown_example :
    IsShown small_master counter_decoder granting
      (run_commands small_master counter_decoder granting properties no_floats commands fresh)
run_commands-IsShown_example =
    run_commands-IsShown small_master counter_decoder granting properties no_floats commands fresh
      fresh-IsShown
