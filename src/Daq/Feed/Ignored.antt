-- ===== src/Daq/Feed/Ignored.antt =====
-- The transport counter in `feed` of `shared/python/pyxcp_host/services/daq_acquisition.py`.
use sim_rt.Prelude.{
  ℕ, zero, suc, ◌+◌, ◌-◌, ◌%◌, ◌≤◌, ◌<◌, ◌≡◌, refl, sym, subst, true, false, not, ◌||◌, some, List,
  leb, ◌==◌, arith,
}
use sim_rt.Daq.{Decoder, Layout, Policy}
use sim_rt.Daq.Feed.{
  FrameCategory, is_incoming, counter_delta, dispatch, count_gap, count_reordered, track, feed,
}

-- The counter of a frame that is `k` frames after the last one, `k` below half of its range.
counter_delta_ahead : (s k : ℕ) → k < 0x8000 → counter_delta ((s + k) % 65536) (s % 65536) ≡ k
unfolding counter_delta
counter_delta_ahead s k h = omega arith

-- The counter of a frame that is `k` frames before the last one.
counter_delta_behind :
    (s k : ℕ) → k ≤ 0x8000 → 0 < k → counter_delta (s % 65536) ((s + k) % 65536) ≡ 65536 - k
unfolding counter_delta
counter_delta_behind s k h p = omega arith

late_is_old :
    (s k : ℕ)
    → k ≤ 0x8000
    → (counter_delta (s % 65536) ((s + k) % 65536) == 0
        || leb 0x8000 (counter_delta (s % 65536) ((s + k) % 65536)))
      ≡ true
late_is_old s zero h =
    let e : counter_delta (s % 65536) ((s + 0) % 65536) ≡ 0 = unfold counter_delta in omega arith in
    ground (arith, e)
late_is_old s (suc k) h = ground (arith, counter_delta_behind s (suc k) h (omega arith))

module _ (d : Decoder) (l : Layout) where
  -- A frame of the slave that is no later than the last one, by at most half the range of the
  -- counter, is only counted as reordered.
  pub feed_late :
      (category : FrameCategory) (s k : ℕ) (payload : List ℕ) (p : Policy d)
      → k ≤ 0x8000
      → is_incoming category ≡ true
      → p.closed ≡ false
      → p.ready ≡ true
      → p.counter ≡ some ((s + k) % 65536)
      → feed d l category (s % 65536) payload p ≡ count_reordered d l p
  unfolding feed track
  feed_late category s k payload p half incoming open_now ready last =
      let old = late_is_old s k half in
      let shut : (p.closed || not p.ready) ≡ false = ground arith in
      let e : track d l p.counter category (s % 65536) payload p ≡ count_reordered d l p =
        subst (λ o. track d l o category (s % 65536) payload p ≡ count_reordered d l p) (sym last)
          (rw (old, track) refl) in
      rw (shut, incoming) e

  -- What a frame that is `k` frames later than the last one finds.
  abbrev pub after_gap : ℕ → ℕ → Policy d → Policy d
  after_gap s k p = record (count_gap d l k p) { counter = some ((s + k) % 65536) }

  -- A frame of the slave that is `k` frames later than the last one, `k` below half the range of
  -- the counter, is handled, with the `k - 1` frames between them counted as lost.
  pub feed_ahead :
      (category : FrameCategory) (s k : ℕ) (payload : List ℕ) (p : Policy d)
      → 0 < k
      → k < 0x8000
      → is_incoming category ≡ true
      → p.closed ≡ false
      → p.ready ≡ true
      → p.counter ≡ some (s % 65536)
      → (feed d l category ((s + k) % 65536) payload p
          ≡ dispatch d l category payload (after_gap s k p))
        × ((after_gap s k p).counts.transport_counter_gaps
            ≡ p.counts.transport_counter_gaps + (k - 1))
  unfolding feed track count_gap
  feed_ahead category s k payload p pos half incoming open_now ready last =
      let now = (s + k) % 65536 in
      let new : (k == 0 || leb 0x8000 k) ≡ false = ground arith in
      let shut : (p.closed || not p.ready) ≡ false = ground arith in
      let e : track d l p.counter category now payload p
          ≡ dispatch d l category payload (after_gap s k p) =
        subst
          (λ o.
            track d l o category now payload p ≡ dispatch d l category payload (after_gap s k p))
          (sym last) (rw (track, counter_delta_ahead s k half, new) refl) in
      (rw (shut, incoming) e, ground arith)
