-- ===== src/Daq/Feed/Control.antt =====
-- The fields that rule the decoding of frames in `feed` of
-- `shared/python/pyxcp_host/services/daq_acquisition.py`, and the calls of `on_daq_list`.
use sim_rt.Prelude.{ℕ, ◌≡◌, List, [], ◌∷◌, arith}
use sim_rt.Daq.{Decoder, Layout, Policy}
use sim_rt.Daq.Samples.{on_daq_list, place_stamp, accept_stamp, count_wrap}
use sim_rt.Daq.Feed.{call_back}

module _ (d : Decoder) (l : Layout) where
  -- The fields of the two policies that rule the decoding agree.
  abbrev pub SameControl : Policy d → Policy d → Type 0
  SameControl p q =
      (q.native ≡ p.native)
      × (q.next_odt ≡ p.next_odt)
      × (q.reset_decoder ≡ p.reset_decoder)
      × (q.counter ≡ p.counter)
      × (q.counts.transport_counter_gaps ≡ p.counts.transport_counter_gaps)

  accept_stamp-SameControl :
      (raw t : ℕ) (payload : List d.Value) (p : Policy d)
      → SameControl p (accept_stamp d l raw t payload p)
  unfolding accept_stamp
  accept_stamp-SameControl raw t payload p = ground arith

  place_stamp-SameControl :
      (raw : ℕ) (payload : List d.Value) (p : Policy d)
      → SameControl p (place_stamp d l raw payload p)
  unfolding place_stamp
  place_stamp-SameControl raw payload p = grind (arith, accept_stamp-SameControl)

  on_daq_list-SameControl :
      (raw : ℕ) (payload : List d.Value) (p : Policy d)
      → SameControl p (on_daq_list d l raw payload p)
  unfolding on_daq_list
  on_daq_list-SameControl raw payload p = ground (
    arith,
    place_stamp-SameControl raw payload p,
    place_stamp-SameControl raw payload (count_wrap d l p),
  )

  pub call_back-SameControl :
      (events : List (ℕ × List d.Value)) (p : Policy d) → SameControl p (call_back d l events p)
  unfolding call_back
  call_back-SameControl [] p = ground arith
  call_back-SameControl ((raw, values) ∷ events) p = ground (
    arith,
    on_daq_list-SameControl raw values p,
    call_back-SameControl events (on_daq_list d l raw values p),
  )
