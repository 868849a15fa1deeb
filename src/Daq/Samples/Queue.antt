-- ===== src/Daq/Samples/Queue.antt =====
-- The bounded sample queue of BufferedDaqPolicy (`on_daq_list` and `drain` of
-- `shared/python/pyxcp_host/services/daq_acquisition.py`): its bound, its bookkeeping, its order.
use sim_rt.Prelude.{
  ℕ, ◌+◌, ◌-◌, ◌≤◌, ◌≡◌, Option, none, some, List, [], ◌∷◌, ◌++◌, ltb, leb, ◌==◌, if◌then◌else◌,
  arith, length, take, drop, length-append, length-drop, length-take, Bool-cases, inl, inr, ◌/◌,
  take-append-drop, min,
}
use sim_rt.Exec.{ok}
use sim_rt.Daq.{Decoder, DaqSample, Layout, Policy}
use sim_rt.Daq.Samples.{
  on_daq_list, stamp_after, place_after, place_stamp, accept_stamp, or_else, append_bounded,
  count_reorder, count_wrap, drain, zip_values,
}

length-append_bounded {ℓ} :
    {A : Type ℓ} (capacity : ℕ) (q : List A) (x : A)
    → length q ≤ capacity
    → 1 ≤ capacity
    → length (append_bounded capacity q x)
      ≡ (if length q == capacity then length q else length q + 1)
unfolding append_bounded
length-append_bounded capacity q x h p = ground (
  arith,
  length-drop (length (q ++ (x ∷ [])) - capacity) (q ++ (x ∷ [])),
  length-append q (x ∷ []),
)

module _ (d : Decoder) (l : Layout) where
  -- The queue is within its capacity, and every sample that came in is in the queue, was dropped
  -- from it, or is one of the `taken` that `drain` has handed out.
  pub record Accounts (taken : ℕ) (p : Policy d) : Type 0 where
    pub bounded : length p.queue ≤ l.capacity
    pub counted :
        p.counts.received_samples ≡ taken + length p.queue + p.counts.queue_dropped_samples

  accept_stamp-Accounts :
      (raw unwrapped : ℕ) (payload : List d.Value) {taken : ℕ} {p : Policy d}
      → 1 ≤ l.capacity
      → Accounts taken p
      → Accounts taken (accept_stamp d l raw unwrapped payload p)
  unfolding accept_stamp
  accept_stamp-Accounts raw unwrapped payload {taken = taken} {p = p} pos h =
      let x : DaqSample d = record {
        timestamp_ns = unwrapped - or_else p.origin_ns unwrapped;
        values = zip_values l.names payload [];
      } in
      ground (arith, length-append_bounded l.capacity p.queue x)

  place_after-Accounts :
      (before : Option ℕ) (raw unwrapped : ℕ) (payload : List d.Value) {taken : ℕ} {p : Policy d}
      → 1 ≤ l.capacity
      → Accounts taken p
      → Accounts taken (place_after d l before raw unwrapped payload p)
  unfolding place_after
  place_after-Accounts none raw unwrapped payload pos h =
      accept_stamp-Accounts raw unwrapped payload pos h
  place_after-Accounts (some last) raw unwrapped payload pos h =
      elim (Bool-cases (leb unwrapped last)) [
        | inl late ↦ rw late (record { bounded = h.bounded; counted = h.counted })
        | inr fresh ↦ rw fresh (
            accept_stamp-Accounts raw unwrapped payload pos
              (record { bounded = h.bounded; counted = h.counted }))
      ]

  place_stamp-Accounts :
      (raw : ℕ) (payload : List d.Value) {taken : ℕ} {p : Policy d}
      → 1 ≤ l.capacity
      → Accounts taken p
      → Accounts taken (place_stamp d l raw payload p)
  unfolding place_stamp
  place_stamp-Accounts raw payload {p = p} pos h =
      place_after-Accounts p.last_unwrapped_ns raw (raw + p.wrap_offset_ns) payload pos h

  stamp_after-Accounts :
      (before : Option ℕ) (raw : ℕ) (payload : List d.Value) {taken : ℕ} {p : Policy d}
      → 1 ≤ l.capacity
      → Accounts taken p
      → Accounts taken (stamp_after d l before raw payload p)
  unfolding stamp_after
  stamp_after-Accounts none raw payload pos h = place_stamp-Accounts raw payload pos h
  stamp_after-Accounts (some last) raw payload {taken = taken} {p = p} pos h =
      let wrapped : Accounts taken (count_wrap d l p) = record {
        bounded = h.bounded;
        counted = h.counted;
      } in
      let reordered : Accounts taken (count_reorder d l p) = record {
        bounded = h.bounded;
        counted = h.counted;
      } in
      elim (Bool-cases (ltb raw last)) [
        | inr forward ↦ rw forward (place_stamp-Accounts raw payload pos h)
        | inl back ↦ elim (Bool-cases (ltb (l.timestamp_modulus_ns / 2) (last - raw))) [
          | inl far ↦ rw (back, far) (place_stamp-Accounts raw payload pos wrapped)
          | inr near ↦ rw (back, near) reordered
        ]
      ]

  -- With a capacity of one or more, an event keeps the queue within its capacity and every sample
  -- that was received accounted for: queued, dropped from the queue, or taken.
  pub on_daq_list-Accounts :
      (raw : ℕ) (payload : List d.Value) {taken : ℕ} {p : Policy d}
      → 1 ≤ l.capacity
      → Accounts taken p
      → Accounts taken (on_daq_list d l raw payload p)
  unfolding on_daq_list
  on_daq_list-Accounts raw payload {p = p} pos h =
      stamp_after-Accounts p.last_raw_ns raw payload pos h

  -- What `drain` returns is the front of the queue, at most as many samples as were asked for, and
  -- they are accounted for as taken.
  pub drain-Accounts :
      (max_samples : ℕ) (out : List (DaqSample d)) {taken : ℕ} {p : Policy d}
      → Accounts taken p
      → (drain d l max_samples p).0 ≡ ok out
      → Accounts (taken + length out) (drain d l max_samples p).1
        × (out ++ (drain d l max_samples p).1.queue ≡ p.queue)
        × (length out ≤ max_samples)
  unfolding drain
  drain-Accounts max_samples out {taken = taken} {p = p} h got =
      let n = min max_samples (length p.queue) in
      let whole : take n p.queue ++ drop n p.queue ≡ p.queue = take-append-drop n p.queue in
      let kept : length (drop n p.queue) ≡ length p.queue - n = length-drop n p.queue in
      let given : length (take n p.queue) ≡ min n (length p.queue) = length-take n p.queue in
      ground (arith, whole, kept, given)
