-- ===== src/Tests/A2l.antt =====
-- The tokens of an A2L event, and the period of it.
use sim_rt.Prelude.{ℕ, ◌≤◌, ◌≡◌, refl, List, [], ◌∷◌, Text, codes, true, false, Bool}
use sim_rt.Exec.{ok, err}
use sim_rt.A2l.{
  Block, scan, DaqEvent, classify, parse_integers, parse_integer, has_channel, is_capability,
  add_event, add_numeric, read_event, daq_events, period_ps,
}
use sim_rt.A2l.Events.{AreEvents, daq_events-AreEvents}
use sim_rt.Daq.Period.{
  refused, from_a2l, matching, a2l_period, resolve_event_period, resolve_event_period_positive,
}
use sim_rt.Prelude.{some}
use sim_rt.Prelude.Dict.{lookup, contains, insert, IsUnique}
use sim_rt.Scalar.{
  A2lScalar, characteristic, measurement, float32_ieee, uword, type_of_name, check_range,
}
use sim_rt.Scalar.Words.{big}
use sim_rt.Scalar.Database.{add_scalars, measurements, characteristics}
use sim_rt.A2l.Blocks.{
  RawBlock, A2lDatabase, parse_a2l, byte_order_of, layout_types, layout_of_block, fnc_values,
  read_blocks, read_block, find_characteristic, find_measurement, is_scalar, mentions,
  after_keyword, dimensions, all_one, keyword_value, extension_text, build_scalar, add_found,
}
use sim_rt.A2l.Blocks.Parsed.{IsParsed, parse_a2l-built, parse_a2l-IsParsed}
use sim_rt.A2l.Complete.{
  ArePlain, one_event, daq_events-one_event, opening, event_before, daq_with, xcp_among,
  scan-event_before,
}

abbrev body : List Text
body =
    codes "base"
    ∷ codes "b"
    ∷ codes "0x1"
    ∷ codes "DAQ"
    ∷ codes "0xFF"
    ∷ codes "1"
    ∷ codes "6"
    ∷ codes "0"
    ∷ []

abbrev base : DaqEvent
base = record {
  name = codes "base";
  channel = 1;
  capability = codes "DAQ";
  cycle = 1;
  unit = 6;
  max_daq_lists = 255;
}

plain : ArePlain body
unfolding classify
plain = (refl, (refl, (refl, (refl, (refl, (refl, (refl, (refl, tt))))))))

read : read_event body [] ≡ ok (base ∷ [])
unfolding read_event parse_integers parse_integer sim_rt.Scalar.Literals.int_literal add_numeric
    add_event is_capability has_channel sim_rt.Prelude.upper
read = refl

events_read : daq_events (one_event body) ≡ ok (base ∷ [])
events_read = daq_events-one_event body (base ∷ []) plain read

-- the blocks that are open in a file with a block between IF_DATA and DAQ
abbrev inner : List Block
inner = record { kind = codes "PROTOCOL_LAYER"; body = [] } ∷ []

scan-event_before_example :
    scan
      (event_before body (opening "/end") (opening "DAQ" ∷ []))
      (daq_with [] ∷ xcp_among inner [] [])
      []
    ≡ elim (read_event body []) [
      | err e ↦ err e
      | ok out ↦
          scan (opening "/end" ∷ opening "DAQ" ∷ []) (daq_with [] ∷ xcp_among inner [] []) out
    ]
scan-event_before_example =
    scan-event_before body [] [] (opening "/end") (opening "DAQ" ∷ []) inner [] [] plain

daq_events-AreEvents_example : AreEvents (base ∷ [])
daq_events-AreEvents_example = daq_events-AreEvents (one_event body) (base ∷ []) events_read

-- a slave without GET_DAQ_EVENT_INFO, which refuses it with the code 0x20
resolved : resolve_event_period 0x20 0x21 (refused 0x20) 1 (base ∷ []) ≡ ok (1000000000, from_a2l)
unfolding resolve_event_period matching a2l_period period_ps
resolved = refl

resolve_event_period_positive_example : 1 ≤ 1000000000
resolve_event_period_positive_example =
    resolve_event_period_positive 0x20 0x21 (refused 0x20) 1 (base ∷ []) 1000000000 from_a2l
      resolved

-- a calibration whose layout has a type of its own, and a measurement at an odd extension
abbrev blocks : List RawBlock
blocks =
    record {
      kind = codes "characteristic";
      tokens = codes "gain" ∷ codes "g" ∷ codes "VALUE" ∷ codes "0x1000" ∷ codes "L" ∷ [];
    }
    ∷ record {
      kind = codes "RECORD_LAYOUT";
      tokens = codes "L" ∷ codes "FNC_VALUES" ∷ codes "1" ∷ codes "float32_ieee" ∷ [];
    }
    ∷ record {
      kind = codes "MEASUREMENT";
      tokens =
          codes "speed"
          ∷ codes "s"
          ∷ codes "uword"
          ∷ codes "ECU_ADDRESS"
          ∷ codes "0x2000"
          ∷ codes "ECU_ADDRESS_EXTENSION"
          ∷ codes "3"
          ∷ codes "MATRIX_DIM"
          ∷ codes "1"
          ∷ [];
    }
    ∷ []

abbrev gain : A2lScalar
gain = record {
  name = codes "gain";
  kind = characteristic;
  address = 0x1000;
  data_type = float32_ieee;
  byte_order = big;
  address_extension = 0;
}

abbrev speed : A2lScalar
speed = record {
  name = codes "speed";
  kind = measurement;
  address = 0x2000;
  data_type = uword;
  byte_order = big;
  address_extension = 3;
}

abbrev database : A2lDatabase
database = record {
  by_name = (codes "gain", gain) ∷ (codes "speed", speed) ∷ [];
  byte_order = big;
  daq_events = base ∷ [];
}

blocks_read :
    read_blocks (byte_order_of (some (codes "msb_first"))) (layout_types blocks []) blocks
    ≡ ok (gain ∷ speed ∷ [])
unfolding byte_order_of layout_types layout_of_block fnc_values read_blocks read_block
    find_characteristic find_measurement is_scalar mentions after_keyword dimensions all_one
    keyword_value extension_text build_scalar add_found parse_integer check_range type_of_name
    sim_rt.Transport.in_range lookup insert sim_rt.Scalar.Literals.int_literal sim_rt.Prelude.upper
blocks_read = refl

scalars_added : add_scalars (gain ∷ speed ∷ []) [] ≡ ok database.by_name
unfolding add_scalars contains insert
scalars_added = refl

parsed : parse_a2l (some (codes "msb_first")) blocks (one_event body) ≡ ok database
unfolding byte_order_of sim_rt.Prelude.upper
parsed =
    parse_a2l-built (some (codes "msb_first")) blocks (one_event body) (gain ∷ speed ∷ [])
      (base ∷ []) database.by_name blocks_read events_read scalars_added

parse_a2l-IsParsed_example :
    (speed.name ≡ codes "speed")
    × IsParsed big speed
    × IsUnique database.by_name
    × AreEvents (base ∷ [])
unfolding lookup
parse_a2l-IsParsed_example =
    parse_a2l-IsParsed (some (codes "msb_first")) blocks (one_event body) database (codes "speed")
      speed parsed refl

measured : measurements database.by_name ≡ speed ∷ []
unfolding measurements
measured = refl

calibrated : characteristics database.by_name ≡ gain ∷ []
unfolding characteristics
calibrated = refl
