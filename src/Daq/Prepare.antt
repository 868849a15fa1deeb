-- ===== src/Daq/Prepare.antt =====
-- How a BufferedDaqPolicy of `shared/python/pyxcp_host/services/daq_acquisition.py` starts and ends:
-- `__init__`, `prepare`, `activate` and `finalize`.
use sim_rt.Prelude.{
  ℕ, ◌+◌, ◌*◌, ◌%◌, ◌^◌, ◌≤◌, ◌<◌, ◌≡◌, subst, Bool, true, false, not, ◌&&◌, ◌||◌, none, List, [],
  ◌∷◌, ltb, leb, ◌==◌, if◌then◌else◌, length, Text, codes, text_eq, arith, Bool-cases, inl, inr,
}
use sim_rt.Exec.{
  Result, ok, err, bad_capacity, no_identifiers, reserved_identifiers, relative_identifiers,
  short_timestamps,
}
use sim_rt.Scalar.Words.{little, big}
use sim_rt.Daq.{Decoder, Counts, Layout, Policy}
use sim_rt.Daq.Samples.{round_div, on_daq_list}
use sim_rt.Daq.Samples.Unwrap.{Tracks, on_daq_list-Tracks}

-- What `prepare` asks pyXCP and the slave for. `entries` has the lengths of the entries of each ODT,
-- `tick_ps` is `ts_scale_factor` in picoseconds.
pub record Setup : Type 0 where
  pub capacity : ℕ
  pub period_ps : ℕ
  pub header_size : ℕ
  pub overload_msb : Bool
  pub byte_order : Text
  pub first_pid : ℕ
  pub names : List Text
  pub entries : List (List ℕ)
  pub ts_size : ℕ
  pub tick_ps : ℕ
  pub min_daq : ℕ

unfoldable pub total : List ℕ → ℕ
total [] = 0
total (n ∷ ns) = n + total ns

-- the frames after the first, and all frames
unfoldable pub later_lengths : ℕ → List (List ℕ) → List ℕ
unfolding total
later_lengths header [] = []
later_lengths header (odt ∷ odts) = (header + total odt) ∷ later_lengths header odts

unfoldable pub frame_lengths_of : ℕ → ℕ → List (List ℕ) → List ℕ
unfolding later_lengths
frame_lengths_of header ts_size [] = []
frame_lengths_of header ts_size (odt ∷ odts) =
    (header + total odt + ts_size) ∷ later_lengths header odts

unfoldable pub modulus_of : ℕ → ℕ → ℕ
unfolding round_div
modulus_of ts_size tick_ps = round_div (2 ^ (8 * ts_size) * tick_ps) 1000

-- the layout that `prepare` fixes
unfoldable pub layout_of : Setup → Layout
unfolding frame_lengths_of modulus_of
layout_of s = record {
  capacity = s.capacity;
  period_ps = s.period_ps;
  header_size = s.header_size;
  overload_msb = s.overload_msb;
  byte_order = if text_eq s.byte_order (codes "INTEL") then little else big;
  first_pid = s.first_pid;
  names = s.names;
  frame_lengths = frame_lengths_of s.header_size s.ts_size s.entries;
  timestamp_modulus_ns = modulus_of s.ts_size s.tick_ps;
}

-- the tests of `prepare`
unfoldable pub check_layout : ℕ → Layout → Result Layout
check_layout min_daq l =
    if length l.frame_lengths == 0 || ltb 0xFC (length l.frame_lengths)
    then err no_identifiers
    else if l.header_size == 1
        && ltb (if l.overload_msb then 0x80 else 0xFC) (l.first_pid + length l.frame_lengths)
    then err reserved_identifiers
    else if not (l.header_size == 1) && not (min_daq == 0)
    then err relative_identifiers
    else if leb (1000 * l.timestamp_modulus_ns) (2 * l.period_ps)
    then err short_timestamps
    else ok l

-- self._counts as it starts
abbrev pub zero_counts : Counts
zero_counts = record {
  received_samples = 0;
  queue_dropped_samples = 0;
  invalid_frames = 0;
  incomplete_events = 0;
  transport_counter_gaps = 0;
  reordered_frames = 0;
  timestamp_gap_samples = 0;
  timestamp_wraps = 0;
  timestamp_reorders = 0;
  overload_events = 0;
}

module _ (d : Decoder) where
  -- BufferedDaqPolicy.__init__
  unfoldable pub new_policy : ℕ → d.World → Result (Policy d)
  new_policy capacity native =
      if ltb capacity 1
      then err bad_capacity
      else ok (record {
        ready = false;
        active = false;
        closed = false;
        next_odt = 0;
        reset_decoder = false;
        counter = none;
        last_raw_ns = none;
        last_unwrapped_ns = none;
        origin_ns = none;
        wrap_offset_ns = 0;
        queue = [];
        counts = zero_counts;
        native = native;
      })

  -- BufferedDaqPolicy.prepare
  unfoldable pub prepare : Setup → Policy d → Result Layout × Policy d
  unfolding layout_of check_layout
  prepare s p =
      let r = check_layout s.min_daq (layout_of s) in
      (r, elim r [ ok _ ↦ record p { ready = true } | err _ ↦ p ])

  -- BufferedDaqPolicy.activate and .finalize
  unfoldable pub activate : Policy d → Policy d
  activate p = record p { active = true }

  unfoldable pub finalize : Policy d → Policy d
  finalize p = record p { closed = true; active = false }

  check_layout-wide :
      (min_daq : ℕ) (l l' : Layout)
      → check_layout min_daq l ≡ ok l'
      → 2 * l'.period_ps < 1000 * l'.timestamp_modulus_ns
  unfolding check_layout
  check_layout-wide min_daq l l' h =
      elim (Bool-cases (leb (1000 * l.timestamp_modulus_ns) (2 * l.period_ps))) [
        | inl narrow ↦ ground arith
        | inr wide ↦
            let e : l ≡ l' = ground arith in
            let p : 2 * l.period_ps < 1000 * l.timestamp_modulus_ns = ground arith in
            subst (λ t. 2 * t.period_ps < 1000 * t.timestamp_modulus_ns) e p
      ]

  -- With a layout that `prepare` has accepted, a policy that tracks the target's clock goes on
  -- tracking it over any step of at most one period of the event.
  pub prepare-Tracks :
      (s : Setup) (fresh : Policy d) (l : Layout) (t u : ℕ) (payload : List d.Value) (p : Policy d)
      → (prepare s fresh).0 ≡ ok l
      → 0 < u
      → 1000 * u ≤ l.period_ps
      → Tracks d l t p
      → Tracks d l (t + u) (on_daq_list d l ((t + u) % l.timestamp_modulus_ns) payload p)
  unfolding prepare
  prepare-Tracks s fresh l t u payload p accepted pos step h =
      let wide = check_layout-wide s.min_daq (layout_of s) l accepted in
      on_daq_list-Tracks d l t u payload p (omega (arith, wide)) pos (omega (arith, wide)) h
