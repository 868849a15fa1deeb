-- ===== src/Daq/Feed.antt =====
-- BufferedDaqPolicy.feed of `shared/python/pyxcp_host/services/daq_acquisition.py`: the envelope of
-- each frame is checked before its payload goes to the native decoder.
mod Control
pub mod InSync
pub mod Ignored
use mathlib.Core.List.{foldl}
use sim_rt.Prelude.{
  ℕ, zero, suc, ◌+◌, ◌-◌, ◌*◌, ◌/◌, ◌%◌, Bool, true, false, not, ◌&&◌, ◌||◌, Option, none, some,
  List, [], ◌∷◌, ltb, leb, ◌==◌, if◌then◌else◌, length, take, drop, get_elem?,
}
use sim_rt.Scalar.Words.{Endian, little_value, ordered}
use sim_rt.Daq.{Decoder, Counts, Layout, Policy}
use sim_rt.Daq.Samples.{on_daq_list}

-- types.FrameCategory; `outgoing` is any category that the slave does not send
pub data FrameCategory : Type 0 where
  daq response event serv outgoing : FrameCategory

unfoldable pub is_incoming : FrameCategory → Bool
is_incoming outgoing = false
is_incoming _ = true

-- (counter - last) & 0xFFFF
unfoldable pub counter_delta : ℕ → ℕ → ℕ
counter_delta counter last = (counter + 65536 - last % 65536) % 65536

unfoldable pub byte_or_zero : List ℕ → ℕ → ℕ
byte_or_zero payload i = elim (get_elem? payload i) [ none ↦ 0 | some b ↦ b ]

-- `payload` with the overload bit of its first byte cleared
unfoldable pub clear_overload : List ℕ → List ℕ
clear_overload [] = []
clear_overload (pid ∷ rest) = (pid % 128) ∷ rest

unfoldable pub overload_set : Layout → List ℕ → Bool
unfolding byte_or_zero
overload_set l payload = l.overload_msb && (byte_or_zero payload 0 / 128) % 2 == 1

-- int.from_bytes(payload[offset:header_size], byte_order)
unfoldable pub daq_number : Layout → List ℕ → ℕ
unfolding little_value ordered
daq_number l payload =
    let offset = if l.header_size == 4 then 2 else 1 in
    little_value (ordered l.byte_order (drop offset (take l.header_size payload)))

-- The number of the frame within its event; none is a frame of another list.
unfoldable pub odt_of : Layout → List ℕ → Option ℕ
unfolding byte_or_zero
odt_of l payload =
    let pid = byte_or_zero payload 0 in
    if l.header_size == 1
    then if ltb pid l.first_pid then none else some (pid - l.first_pid)
    else if daq_number l payload == 0
    then some pid
    else none

-- `0 <= odt < len(frame_lengths) and len(payload) >= frame_lengths[odt]`
unfoldable pub frame_fits : Layout → ℕ → List ℕ → Bool
frame_fits l odt payload = elim (get_elem? l.frame_lengths odt) [
  | none ↦ false
  | some n ↦ leb n (length payload)
]

module _ (d : Decoder) (l : Layout) where
  -- _invalid_frame
  unfoldable pub invalid_frame : Policy d → Policy d
  invalid_frame p = record p {
    counts = record (p.counts) { invalid_frames = p.counts.invalid_frames + 1 };
    reset_decoder = true;
    next_odt = 0;
  }

  unfoldable pub count_overload : Policy d → Policy d
  count_overload p = record p {
    counts = record (p.counts) { overload_events = p.counts.overload_events + 1 };
  }

  -- set_parameters, if the decoder has to be resynchronized
  unfoldable pub resynchronize : Policy d → Policy d
  resynchronize p =
      if p.reset_decoder then record p { native = d.resync p.native; reset_decoder = false } else p

  unfoldable pub call_back : List (ℕ × List d.Value) → Policy d → Policy d
  call_back [] p = p
  call_back ((raw, values) ∷ events) p = call_back events (on_daq_list d l raw values p)

  -- super().feed, with the calls of `on_daq_list` that it makes
  unfoldable pub decode_frame : List ℕ → Policy d → Policy d
  unfolding call_back
  decode_frame payload p =
      let (native, events) = d.feed payload p.native in
      call_back events (record p { native = native })

  -- the frame `odt` of an event is next, or starts over
  unfoldable pub in_order : ℕ → List ℕ → Policy d → Policy d
  unfolding resynchronize
  in_order odt payload p =
      let q = resynchronize p in
      decode_frame payload (record q { next_odt = (odt + 1) % length l.frame_lengths })

  unfoldable pub count_incomplete : Policy d → Policy d
  count_incomplete p = record p {
    counts = record (p.counts) { incomplete_events = p.counts.incomplete_events + 1 };
    reset_decoder = true;
    next_odt = 0;
  }

  -- from `if odt != self._next_odt:` on
  unfoldable pub sequence : ℕ → List ℕ → Policy d → Policy d
  unfolding in_order count_incomplete
  sequence odt payload p =
      if odt == p.next_odt
      then in_order odt payload p
      else if not (odt == 0)
      then count_incomplete p
      else in_order odt payload (count_incomplete p)

  -- from the identification of the frame on
  unfoldable pub identify : List ℕ → Policy d → Policy d
  unfolding sequence invalid_frame
  identify payload p = elim (odt_of l payload) [
    | none ↦ invalid_frame p
    | some odt ↦ if frame_fits l odt payload then sequence odt payload p else invalid_frame p
  ]

  -- a DAQ frame, from the test of its length on
  unfoldable pub accept_frame : List ℕ → Policy d → Policy d
  unfolding identify invalid_frame count_overload
  accept_frame payload p =
      if ltb (length payload) l.header_size
      then invalid_frame p
      else if overload_set l payload
      then identify (clear_overload payload) (count_overload p)
      else identify payload p

  -- the frame is counted; what it is decides what is done
  unfoldable pub dispatch : FrameCategory → List ℕ → Policy d → Policy d
  unfolding accept_frame count_overload
  dispatch event payload p =
      if ltb 1 (length payload) && byte_or_zero payload 1 == d.ev_daq_overload
      then count_overload p
      else p
  dispatch daq payload p = if p.active then accept_frame payload p else p
  dispatch _ payload p = p

  unfoldable pub count_gap : ℕ → Policy d → Policy d
  count_gap delta p =
      if ltb 1 delta
      then record p {
        counts = record (p.counts) {
          transport_counter_gaps = p.counts.transport_counter_gaps + (delta - 1);
        };
      }
      else p

  unfoldable pub count_reordered : Policy d → Policy d
  count_reordered p = record p {
    counts = record (p.counts) { reordered_frames = p.counts.reordered_frames + 1 };
  }

  -- the transport counter of an incoming frame, against the last one
  unfoldable pub track : Option ℕ → FrameCategory → ℕ → List ℕ → Policy d → Policy d
  unfolding count_gap count_reordered
  track none category counter payload p =
      dispatch category payload (record p { counter = some counter })
  track (some last) category counter payload p =
      let delta = counter_delta counter last in
      if delta == 0 || leb 0x8000 delta
      then count_reordered p
      else dispatch category payload (record (count_gap delta p) { counter = some counter })

  -- BufferedDaqPolicy.feed
  unfoldable pub feed : FrameCategory → ℕ → List ℕ → Policy d → Policy d
  unfolding is_incoming track dispatch
  feed category counter payload p =
      if p.closed || not p.ready
      then p
      else if is_incoming category
      then track p.counter category counter payload p
      else dispatch category payload p
