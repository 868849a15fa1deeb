-- ===== src/Daq/Samples/Order.antt =====
-- The time axis of the samples that `on_daq_list` of
-- `shared/python/pyxcp_host/services/daq_acquisition.py` queues.
use sim_rt.Prelude.{
  ℕ, zero, suc, ◌+◌, ◌-◌, ◌/◌, ◌≤◌, ◌<◌, ◌≡◌, refl, sym, subst, Option, none, some, List, [], ◌∷◌,
  ◌++◌, ltb, leb, ◌==◌, arith, length, drop, append_assoc, Bool-cases, inl, inr,
}
use sim_rt.Daq.{Decoder, DaqSample, Layout, Policy}
use sim_rt.Daq.Samples.{
  on_daq_list, stamp_after, place_after, place_stamp, accept_stamp, or_else, append_bounded,
  count_reorder, count_wrap, zip_values,
}

module _ {d : Decoder} where
  -- Every sample of the list has a time below `n`.
  abbrev pub AllBelow : ℕ → List (DaqSample d) → Type 0
  AllBelow n [] = Unit
  AllBelow n (x ∷ xs) = (x.timestamp_ns < n) × AllBelow n xs

  abbrev pub AllAbove : ℕ → List (DaqSample d) → Type 0
  AllAbove n [] = Unit
  AllAbove n (x ∷ xs) = (n < x.timestamp_ns) × AllAbove n xs

  abbrev pub Increasing : List (DaqSample d) → Type 0
  Increasing [] = Unit
  Increasing (x ∷ xs) = AllAbove x.timestamp_ns xs × Increasing xs

  AllBelow-mono : (n k : ℕ) (xs : List (DaqSample d)) → n ≤ k → AllBelow n xs → AllBelow k xs
  AllBelow-mono n k [] le h = tt
  AllBelow-mono n k (x ∷ xs) le h = (omega arith, AllBelow-mono n k xs le h.1)

  AllBelow-append :
      (n : ℕ) (xs : List (DaqSample d)) (y : DaqSample d)
      → AllBelow n xs
      → y.timestamp_ns < n
      → AllBelow n (xs ++ (y ∷ []))
  AllBelow-append n [] y h p = (p, tt)
  AllBelow-append n (x ∷ xs) y h p = (h.0, AllBelow-append n xs y h.1 p)

  AllAbove-append :
      (n : ℕ) (xs : List (DaqSample d)) (y : DaqSample d)
      → AllAbove n xs
      → n < y.timestamp_ns
      → AllAbove n (xs ++ (y ∷ []))
  AllAbove-append n [] y h p = (p, tt)
  AllAbove-append n (x ∷ xs) y h p = (h.0, AllAbove-append n xs y h.1 p)

  Increasing-append :
      (xs : List (DaqSample d)) (y : DaqSample d)
      → Increasing xs
      → AllBelow y.timestamp_ns xs
      → Increasing (xs ++ (y ∷ []))
  Increasing-append [] y h b = (tt, tt)
  Increasing-append (x ∷ xs) y h b =
      (AllAbove-append x.timestamp_ns xs y h.0 b.0, Increasing-append xs y h.1 b.1)

  drop-AllBelow : (n k : ℕ) (xs : List (DaqSample d)) → AllBelow n xs → AllBelow n (drop k xs)
  drop-AllBelow n zero xs h = h
  drop-AllBelow n (suc k) [] h = h
  drop-AllBelow n (suc k) (x ∷ xs) h = drop-AllBelow n k xs h.1

  drop-Increasing : (k : ℕ) (xs : List (DaqSample d)) → Increasing xs → Increasing (drop k xs)
  drop-Increasing zero xs h = h
  drop-Increasing (suc k) [] h = h
  drop-Increasing (suc k) (x ∷ xs) h = drop-Increasing k xs h.1

  -- Samples that are left out after those of `out`.
  skip-AllAbove :
      (n k : ℕ) (out xs : List (DaqSample d))
      → AllAbove n (out ++ xs)
      → AllAbove n (out ++ drop k xs)
  skip-AllAbove n zero [] xs h = h
  skip-AllAbove n (suc k) [] [] h = h
  skip-AllAbove n (suc k) [] (x ∷ xs) h = skip-AllAbove n k [] xs h.1
  skip-AllAbove n k (y ∷ out) xs h = (h.0, skip-AllAbove n k out xs h.1)

  skip-AllBelow :
      (n k : ℕ) (out xs : List (DaqSample d))
      → AllBelow n (out ++ xs)
      → AllBelow n (out ++ drop k xs)
  skip-AllBelow n k [] xs h = drop-AllBelow n k xs h
  skip-AllBelow n k (y ∷ out) xs h = (h.0, skip-AllBelow n k out xs h.1)

  pub skip-Increasing :
      (k : ℕ) (out xs : List (DaqSample d)) → Increasing (out ++ xs) → Increasing (out ++ drop k xs)
  skip-Increasing k [] xs h = drop-Increasing k xs h
  skip-Increasing k (y ∷ out) xs h =
      (skip-AllAbove y.timestamp_ns k out xs h.0, skip-Increasing k out xs h.1)

module _ (d : Decoder) (l : Layout) where
  -- Before the first stamp the queue is empty; after it, the samples lie between the origin and the
  -- last stamp.
  abbrev IsStamped : Option ℕ → Option ℕ → List (DaqSample d) → Type 0
  IsStamped none origin q = (q ≡ []) × (origin ≡ none)
  IsStamped (some last) none q = ⊥
  IsStamped (some last) (some origin) q = (origin ≤ last) × AllBelow (last - origin + 1) q

  -- `out` are the samples that were drained before.
  pub record IsOrdered (out : List (DaqSample d)) (p : Policy d) : Type 0 where
    pub increasing : Increasing (out ++ p.queue)
    pub stamped : IsStamped p.last_unwrapped_ns p.origin_ns (out ++ p.queue)

  -- A stamp after the last one keeps the order.
  IsLate : Option ℕ → ℕ → Type 0
  IsLate none t = Unit
  IsLate (some last) t = last < t

  enqueue_room :
      (last origin : Option ℕ) (t : ℕ) (q : List (DaqSample d))
      → IsStamped last origin q
      → IsLate last t
      → AllBelow (t - or_else origin t) q × (or_else origin t ≤ t)
  unfolding or_else IsLate
  enqueue_room none origin t q h late =
      let (empty, fresh) = h in rw (empty, fresh) (tt, omega arith)
  enqueue_room (some last) none t q h late = elim h [ ]
  enqueue_room (some last) (some origin) t q h late =
      (AllBelow-mono (last - origin + 1) (t - origin) q (omega arith) h.1, omega arith)

  accept_stamp-IsOrdered :
      (raw t : ℕ) (payload : List d.Value) (out : List (DaqSample d)) (p : Policy d)
      → IsLate p.last_unwrapped_ns t
      → IsOrdered out p
      → IsOrdered out (accept_stamp d l raw t payload p)
  unfolding accept_stamp append_bounded
  accept_stamp-IsOrdered raw t payload out p late h =
      let before = out ++ p.queue in
      let values = zip_values l.names payload [] in
      let origin = or_else p.origin_ns t in
      let x : DaqSample d = record { timestamp_ns = t - origin; values = values } in
      let (room, low) = enqueue_room p.last_unwrapped_ns p.origin_ns t before h.stamped late in
      let wider : AllBelow (t - origin + 1) before =
        AllBelow-mono (t - origin) (t - origin + 1) before (omega arith) room in
      let all = p.queue ++ (x ∷ []) in
      let k = length all - l.capacity in
      let joined : before ++ (x ∷ []) ≡ out ++ all = append_assoc out p.queue (x ∷ []) in
      elim (Bool-cases (length values == length l.names)) [
        | inr short ↦ rw short (record { increasing = h.increasing; stamped = (low, wider) })
        | inl whole ↦ rw whole (record {
          increasing =
              skip-Increasing k out all
                (subst Increasing joined (Increasing-append before x h.increasing room));
          stamped = (
            low,
            skip-AllBelow (t - origin + 1) k out all (
                subst (AllBelow (t - origin + 1)) joined
                  (AllBelow-append (t - origin + 1) before x wider (omega arith))),
          );
        })
      ]

  place_after-IsOrdered :
      (raw t : ℕ) (payload : List d.Value) (before : Option ℕ) (out : List (DaqSample d))
      (p : Policy d)
      → p.last_unwrapped_ns ≡ before
      → IsOrdered out p
      → IsOrdered out (place_after d l before raw t payload p)
  unfolding place_after
  place_after-IsOrdered raw t payload none out p e h =
      accept_stamp-IsOrdered raw t payload out p
        (subst (λ o. IsLate o t) (sym e) (unfold IsLate in tt)) h
  place_after-IsOrdered raw t payload (some last) out p e h = elim (Bool-cases (leb t last)) [
    | inl late ↦ rw late (record { increasing = h.increasing; stamped = h.stamped })
    | inr fresh ↦
        let after : last < t = ground (arith, fresh) in
        rw fresh (
          accept_stamp-IsOrdered raw t payload out _
            (subst (λ o. IsLate o t) (sym e) (unfold IsLate in after))
            (record { increasing = h.increasing; stamped = h.stamped }))
  ]

  place_stamp-IsOrdered :
      (raw : ℕ) (payload : List d.Value) (out : List (DaqSample d)) (p : Policy d)
      → IsOrdered out p
      → IsOrdered out (place_stamp d l raw payload p)
  unfolding place_stamp
  place_stamp-IsOrdered raw payload out p h =
      place_after-IsOrdered raw (raw + p.wrap_offset_ns) payload p.last_unwrapped_ns out p refl h

  stamp_after-IsOrdered :
      (before : Option ℕ) (raw : ℕ) (payload : List d.Value) (out : List (DaqSample d))
      (p : Policy d)
      → IsOrdered out p
      → IsOrdered out (stamp_after d l before raw payload p)
  unfolding stamp_after
  stamp_after-IsOrdered none raw payload out p h = place_stamp-IsOrdered raw payload out p h
  stamp_after-IsOrdered (some last) raw payload out p h =
      let wrapped : IsOrdered out (count_wrap d l p) = record {
        increasing = h.increasing;
        stamped = h.stamped;
      } in
      let reordered : IsOrdered out (count_reorder d l p) = record {
        increasing = h.increasing;
        stamped = h.stamped;
      } in
      elim (Bool-cases (ltb raw last)) [
        | inr forward ↦ rw forward (place_stamp-IsOrdered raw payload out p h)
        | inl back ↦ elim (Bool-cases (ltb (l.timestamp_modulus_ns / 2) (last - raw))) [
          | inl far ↦
              rw (back, far) (place_stamp-IsOrdered raw payload out (count_wrap d l p) wrapped)
          | inr near ↦ rw (back, near) reordered
        ]
      ]

  -- Whatever stamp arrives: where the times of the samples drained so far and of those in the queue
  -- increase strictly in this order, between the origin and the last stamp, they go on to do so.
  pub on_daq_list-IsOrdered :
      (raw : ℕ) (payload : List d.Value) (out : List (DaqSample d)) (p : Policy d)
      → IsOrdered out p
      → IsOrdered out (on_daq_list d l raw payload p)
  unfolding on_daq_list
  on_daq_list-IsOrdered raw payload out p h =
      stamp_after-IsOrdered p.last_raw_ns raw payload out p h
