-- ===== src/Daq.antt =====
-- BufferedDaqPolicy of `shared/python/pyxcp_host/services/daq_acquisition.py`: the data that the
-- policy keeps. Times are whole nanoseconds, the period of the event whole picoseconds, in place
-- of floats. pyXCP's native decoder is the parameter `Decoder`.
pub mod Samples
pub mod Feed
pub mod Period
pub mod Prepare
pub mod Acquisition
use sim_rt.Prelude.{ℕ, Bool, Option, List, Text}
use sim_rt.Prelude.Dict.{Dict}
use sim_rt.Scalar.Words.{Endian}

-- What the native decoder does with a frame: it goes on to another state and may call back
-- `on_daq_list` with a raw timestamp and the values of an event.
pub record Decoder : Type 1 where
  pub World : Type 0
  pub Value : Type 0
  -- types.Event.EV_DAQ_OVERLOAD, a constant of pyXCP
  pub ev_daq_overload : ℕ
  -- set_parameters(measurement_params): a decoder that expects the first frame of an event
  pub resync : World → World
  pub feed : List ℕ → World → World × List (ℕ × List Value)

pub record DaqSample (d : Decoder) : Type 0 where
  pub timestamp_ns : ℕ
  pub values : Dict d.Value

-- self._counts
pub record Counts : Type 0 where
  pub received_samples : ℕ
  pub queue_dropped_samples : ℕ
  pub invalid_frames : ℕ
  pub incomplete_events : ℕ
  pub transport_counter_gaps : ℕ
  pub reordered_frames : ℕ
  pub timestamp_gap_samples : ℕ
  pub timestamp_wraps : ℕ
  pub timestamp_reorders : ℕ
  pub overload_events : ℕ

-- What `__init__` and `prepare` fix before the first frame.
pub record Layout : Type 0 where
  pub capacity : ℕ
  pub period_ps : ℕ
  pub header_size : ℕ
  pub overload_msb : Bool
  pub byte_order : Endian
  pub first_pid : ℕ
  pub names : List Text
  pub frame_lengths : List ℕ
  pub timestamp_modulus_ns : ℕ

-- The fields that change.
pub record Policy (d : Decoder) : Type 0 where
  pub ready : Bool
  pub active : Bool
  pub closed : Bool
  pub next_odt : ℕ
  pub reset_decoder : Bool
  pub counter : Option ℕ
  pub last_raw_ns : Option ℕ
  pub last_unwrapped_ns : Option ℕ
  pub origin_ns : Option ℕ
  pub wrap_offset_ns : ℕ
  pub queue : List (DaqSample d)
  pub counts : Counts
  pub native : d.World
