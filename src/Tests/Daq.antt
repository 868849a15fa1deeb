-- ===== src/Tests/Daq.antt =====
-- The DAQ policy of `shared/python/pyxcp_host/services/daq_acquisition.py` over a decoder that only
-- counts the frames of an event.
use sim_rt.Prelude.{
  List, ℕ, ◌+◌, ◌-◌, ◌%◌, ◌≤◌, ◌≡◌, refl, true, false, some, [], ◌∷◌, ◌++◌, arith, codes, inl, ap,
}
use sim_rt.Exec.{ok}
use sim_rt.Scalar.Words.{little}
use sim_rt.Daq.{Decoder, Counts, Layout, Policy}
use sim_rt.Daq.Samples.{round_div, on_daq_list, drain}
use sim_rt.Daq.Prepare.{
  Setup, prepare, layout_of, check_layout, frame_lengths_of, later_lengths, total, modulus_of,
  prepare-Tracks,
}
use sim_rt.Daq.Samples.Unwrap.{Tracks, on_daq_list-Tracks}
use sim_rt.Daq.Samples.Queue.{Accounts, on_daq_list-Accounts, drain-Accounts}
use sim_rt.Daq.Samples.Drained.{QueueCall, arriving, draining, drained, drained-Increasing}
use sim_rt.Daq.Samples.Order.{IsOrdered, Increasing, on_daq_list-IsOrdered}
use sim_rt.Daq.Feed.{daq, is_incoming, feed, dispatch, count_reordered}
use sim_rt.Daq.Feed.InSync.{Protocol, IsInSync, feed-IsInSync}
use sim_rt.Daq.Feed.Ignored.{after_gap, feed_late, feed_ahead}

-- Two frames an event: its native state is the number of the frame that it waits for.
abbrev pub counter_decoder : Decoder
counter_decoder = record {
  World = ℕ;
  Value = ℕ;
  ev_daq_overload = 4;
  resync = λ _. 0;
  feed = λ payload w. ((w + 1) % 2, []);
}

abbrev layout : Layout
layout = record {
  capacity = 2;
  period_ps = 1000000;
  header_size = 1;
  overload_msb = false;
  byte_order = little;
  first_pid = 0;
  names = codes "speed" ∷ [];
  frame_lengths = 3 ∷ 2 ∷ [];
  timestamp_modulus_ns = 1000;
}

abbrev no_counts : Counts
no_counts = record {
  received_samples = 1;
  queue_dropped_samples = 0;
  invalid_frames = 0;
  incomplete_events = 0;
  transport_counter_gaps = 0;
  reordered_frames = 0;
  timestamp_gap_samples = 0;
  timestamp_wraps = 0;
  timestamp_reorders = 0;
  overload_events = 0;
}

-- one sample has come in, at the time 900, and the next frame is the second of an event
abbrev running : Policy counter_decoder
running = record {
  ready = true;
  active = true;
  closed = false;
  next_odt = 1;
  reset_decoder = false;
  counter = some 65530;
  last_raw_ns = some 900;
  last_unwrapped_ns = some 900;
  origin_ns = some 900;
  wrap_offset_ns = 0;
  queue = record { timestamp_ns = 0; values = (codes "speed", 7) ∷ [] } ∷ [];
  counts = no_counts;
  native = 1;
}

abbrev counting : Protocol counter_decoder layout
counting = record {
  Expects = λ k w. w ≡ k;
  resync_expects = λ w. refl;
  feed_expects = λ odt payload w h known fits. ap (λ k. (k + 1) % 2) h;
}

feed-IsInSync_example :
    IsInSync counter_decoder layout counting
      (feed counter_decoder layout daq 65531 (0 ∷ 1 ∷ 2 ∷ []) running)
feed-IsInSync_example =
    feed-IsInSync counter_decoder layout counting daq 65531 (0 ∷ 1 ∷ 2 ∷ []) running
      (inl (refl, refl))

-- 150 ns later the stamp of 900 has wrapped to 50
running-Tracks : Tracks counter_decoder layout 900 running
running-Tracks = record { raw = refl; unwrapped = refl; offset = refl }

on_daq_list-Tracks_example :
    Tracks counter_decoder layout
      (900 + 150)
      (on_daq_list counter_decoder layout ((900 + 150) % 1000) (8 ∷ []) running)
on_daq_list-Tracks_example =
    on_daq_list-Tracks counter_decoder layout 900 150 (8 ∷ []) running (omega arith) (omega arith)
      (omega arith) running-Tracks

running-Accounts : Accounts counter_decoder layout 0 running
running-Accounts = record { bounded = omega arith; counted = refl }

on_daq_list-Accounts_example :
    Accounts counter_decoder layout 0 (on_daq_list counter_decoder layout 950 (8 ∷ []) running)
on_daq_list-Accounts_example =
    on_daq_list-Accounts counter_decoder layout 950 (8 ∷ []) {taken = 0} {p = running} (omega arith)
      running-Accounts

drained_once : (drain counter_decoder layout 5 running).0 ≡ ok running.queue
unfolding drain
drained_once = refl

drain-Accounts_example :
    Accounts counter_decoder layout (0 + 1) (drain counter_decoder layout 5 running).1
    × (running.queue ++ (drain counter_decoder layout 5 running).1.queue ≡ running.queue)
    × (1 ≤ 5)
drain-Accounts_example =
    drain-Accounts counter_decoder layout 5 running.queue {taken = 0} {p = running} running-Accounts
      drained_once

running-IsOrdered : IsOrdered counter_decoder layout [] running
running-IsOrdered = record { increasing = (tt, tt); stamped = (omega arith, (omega arith, tt)) }

on_daq_list-IsOrdered_example :
    IsOrdered counter_decoder layout [] (on_daq_list counter_decoder layout 50 (8 ∷ []) running)
on_daq_list-IsOrdered_example =
    on_daq_list-IsOrdered counter_decoder layout 50 (8 ∷ []) [] running running-IsOrdered

abbrev queue_calls : List (QueueCall counter_decoder layout)
queue_calls =
    arriving 50 (8 ∷ [])
    ∷ draining 1
    ∷ arriving 60 (9 ∷ [])
    ∷ arriving 55 (7 ∷ [])
    ∷ draining 5
    ∷ []

drained-Increasing_example : Increasing (drained counter_decoder layout queue_calls running)
drained-Increasing_example =
    drained-Increasing counter_decoder layout queue_calls running running-IsOrdered

incoming : is_incoming daq ≡ true
unfolding is_incoming
incoming = refl

feed_late_example :
    feed counter_decoder layout daq 65528 (0 ∷ []) running
    ≡ count_reordered counter_decoder layout running
feed_late_example =
    feed_late counter_decoder layout daq 65528 2 (0 ∷ []) running (omega arith) incoming refl refl
      refl

feed_ahead_example :
    (feed counter_decoder layout daq 4 (0 ∷ []) running
      ≡ dispatch counter_decoder layout daq
          (0 ∷ [])
          (after_gap counter_decoder layout 65530 10 running))
    × ((after_gap counter_decoder layout 65530 10 running).counts.transport_counter_gaps
        ≡ 0 + (10 - 1))
feed_ahead_example =
    feed_ahead counter_decoder layout daq 65530 10 (0 ∷ []) running (omega arith) (omega arith)
      incoming refl refl refl

-- two-byte timestamps of 1 ns, and an event of 100 ns
abbrev setup : Setup
setup = record {
  capacity = 2;
  period_ps = 100000;
  header_size = 1;
  overload_msb = false;
  byte_order = codes "INTEL";
  first_pid = 0;
  names = codes "speed" ∷ [];
  entries = (2 ∷ []) ∷ (1 ∷ []) ∷ [];
  ts_size = 2;
  tick_ps = 1000;
  min_daq = 0;
}

abbrev prepared : Layout
prepared = record {
  capacity = 2;
  period_ps = 100000;
  header_size = 1;
  overload_msb = false;
  byte_order = little;
  first_pid = 0;
  names = codes "speed" ∷ [];
  frame_lengths = 5 ∷ 2 ∷ [];
  timestamp_modulus_ns = 65536;
}

accepted : (prepare counter_decoder setup running).0 ≡ ok prepared
unfolding prepare layout_of check_layout frame_lengths_of later_lengths total modulus_of round_div
accepted = refl

running-Tracks-prepared : Tracks counter_decoder prepared 900 running
running-Tracks-prepared = record { raw = refl; unwrapped = refl; offset = refl }

prepare-Tracks_example :
    Tracks counter_decoder prepared
      (900 + 100)
      (on_daq_list counter_decoder prepared ((900 + 100) % 65536) (8 ∷ []) running)
prepare-Tracks_example =
    prepare-Tracks counter_decoder setup running prepared 900 100 (8 ∷ []) running accepted
      (omega arith) (omega arith) running-Tracks-prepared
