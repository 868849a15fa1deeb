-- ===== src/Daq/Samples.antt =====
-- The sample queue of BufferedDaqPolicy: `on_daq_list` unwraps the target's timestamps and appends
-- to a bounded queue, `drain` takes from it.
pub mod Unwrap
pub mod Queue
pub mod Order
pub mod Drained
use sim_rt.Prelude.{
  ℕ, zero, suc, ◌+◌, ◌-◌, ◌*◌, ◌/◌, ◌%◌, min, Bool, true, false, not, Option, none, some, List, [],
  ◌∷◌, ◌++◌, ltb, leb, ◌==◌, if◌then◌else◌, length, take, drop, Text,
}
use sim_rt.Prelude.Dict.{Dict, insert}
use sim_rt.Exec.{Result, ok, err, bad_max_samples}
use sim_rt.Daq.{Decoder, DaqSample, Counts, Layout, Policy}

-- round(n / d) of Python: to the nearest, a tie to the even
unfoldable pub round_div : ℕ → ℕ → ℕ
round_div n d =
    let q = n / d in
    let r = n % d in
    if ltb (2 * r) d then q else if ltb d (2 * r) then q + 1 else if q % 2 == 0 then q else q + 1

-- what an event adds to `timestamp_gap_samples`, from the time since the last one
unfoldable pub gap_samples : ℕ → ℕ → ℕ
unfolding round_div
gap_samples period_ps delta_ns =
    if ltb (3 * period_ps) (2000 * delta_ns) then round_div (1000 * delta_ns) period_ps - 1 else 0

-- dict(zip(names, payload))
unfoldable pub zip_values {ℓ} : {V : Type ℓ} → List Text → List V → Dict V → Dict V
unfolding insert
zip_values [] vs acc = acc
zip_values (n ∷ ns) [] acc = acc
zip_values (n ∷ ns) (v ∷ vs) acc = zip_values ns vs (insert n v acc)

-- deque.append with a maximal length
unfoldable pub append_bounded {ℓ} : {A : Type ℓ} → ℕ → List A → A → List A
append_bounded capacity q x = let all = q ++ (x ∷ []) in drop (length all - capacity) all

-- the origin of the time axis: the first unwrapped stamp
unfoldable pub or_else : Option ℕ → ℕ → ℕ
or_else none n = n
or_else (some o) n = o

module _ (d : Decoder) (l : Layout) where
  -- the end of `on_daq_list`: the values of an event go into the queue
  unfoldable pub enqueue : ℕ → ℕ → List d.Value → Policy d → Policy d
  enqueue unwrapped origin payload p =
      let values = zip_values l.names payload [] in
      if not (length values == length l.names)
      then record p { counts = record (p.counts) { invalid_frames = p.counts.invalid_frames + 1 } }
      else record p {
        queue =
            append_bounded l.capacity p.queue
              (record { timestamp_ns = unwrapped - origin; values = values });
        counts = record (p.counts) {
          queue_dropped_samples =
              if length p.queue == l.capacity
              then p.counts.queue_dropped_samples + 1
              else p.counts.queue_dropped_samples;
          received_samples = p.counts.received_samples + 1;
        };
      }

  -- the stamps are kept, then the values are queued
  unfoldable pub accept_stamp : ℕ → ℕ → List d.Value → Policy d → Policy d
  unfolding enqueue or_else
  accept_stamp raw unwrapped payload p =
      let origin = or_else p.origin_ns unwrapped in
      enqueue unwrapped origin payload (record p {
        last_raw_ns = some raw;
        last_unwrapped_ns = some unwrapped;
        origin_ns = some origin;
      })

  unfoldable pub count_reorder : Policy d → Policy d
  count_reorder p = record p {
    counts = record (p.counts) { timestamp_reorders = p.counts.timestamp_reorders + 1 };
  }

  -- the test against the last unwrapped stamp, if there is one
  unfoldable pub place_after : Option ℕ → ℕ → ℕ → List d.Value → Policy d → Policy d
  unfolding count_reorder
  place_after none raw unwrapped payload p = accept_stamp raw unwrapped payload p
  place_after (some last) raw unwrapped payload p =
      if leb unwrapped last
      then count_reorder p
      else accept_stamp raw unwrapped payload (record p {
        counts = record (p.counts) {
          timestamp_gap_samples =
              p.counts.timestamp_gap_samples + gap_samples l.period_ps (unwrapped - last);
        };
      })

  -- from `unwrapped_ns = raw_ns + self._wrap_offset_ns` on
  unfoldable pub place_stamp : ℕ → List d.Value → Policy d → Policy d
  unfolding place_after
  place_stamp raw payload p = place_after p.last_unwrapped_ns raw (raw + p.wrap_offset_ns) payload p

  unfoldable pub count_wrap : Policy d → Policy d
  count_wrap p = record p {
    wrap_offset_ns = p.wrap_offset_ns + l.timestamp_modulus_ns;
    counts = record (p.counts) { timestamp_wraps = p.counts.timestamp_wraps + 1 };
  }

  -- the test against the last raw stamp, if there is one
  unfoldable pub stamp_after : Option ℕ → ℕ → List d.Value → Policy d → Policy d
  unfolding count_wrap count_reorder
  stamp_after none raw payload p = place_stamp raw payload p
  stamp_after (some last) raw payload p =
      if not (ltb raw last)
      then place_stamp raw payload p
      else if ltb (l.timestamp_modulus_ns / 2) (last - raw)
      then place_stamp raw payload (count_wrap p)
      else count_reorder p

  -- BufferedDaqPolicy.on_daq_list
  unfoldable pub on_daq_list : ℕ → List d.Value → Policy d → Policy d
  unfolding stamp_after
  on_daq_list raw payload p = stamp_after p.last_raw_ns raw payload p

  -- BufferedDaqPolicy.drain
  unfoldable pub drain : ℕ → Policy d → Result (List (DaqSample d)) × Policy d
  drain max_samples p =
      if ltb max_samples 1
      then (err bad_max_samples, p)
      else let n = min max_samples (length p.queue) in
        (ok (take n p.queue), record p { queue = drop n p.queue })
