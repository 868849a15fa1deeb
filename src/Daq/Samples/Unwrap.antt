-- ===== src/Daq/Samples/Unwrap.antt =====
-- The unwrapping of the target's timestamps in `on_daq_list` of
-- `shared/python/pyxcp_host/services/daq_acquisition.py`, against the time of the target's clock.
use native.Mathlib.Decide.{dec_lt}
use native.Mathlib.Nat.{mod-lt, mod-eq_of_lt, mod-add-mod, mod-eq-sub-mod, div-add-mod'}
use sim_rt.Prelude.{
  ℕ, ◌+◌, ◌-◌, ◌*◌, ◌/◌, ◌%◌, ◌≤◌, ◌<◌, ◌≡◌, refl, sym, subst, ◌∙◌, true, false, Option, none, some,
  List, ltb, leb, arith, inl, inr, ◌⊎◌,
}
use sim_rt.Daq.{Decoder, Layout, Policy}
use sim_rt.Daq.Samples.{
  on_daq_list, stamp_after, place_after, place_stamp, accept_stamp, count_wrap,
}

-- One step of a clock that wraps: the same round, or the next one.
wrap_step :
    (t m u : ℕ)
    → 0 < m
    → u + m / 2 < m
    → ((t % m + u < m) × ((t + u) % m ≡ t % m + u) × ((t + u) / m * m ≡ t / m * m))
      ⊎ ((m ≤ t % m + u) × ((t + u) % m + m ≡ t % m + u) × ((t + u) / m * m ≡ t / m * m + m))
wrap_step t m u p h =
    let low : t % m < m = mod-lt t p in
    let whole = div-add-mod' t m in
    let whole' = div-add-mod' (t + u) m in
    let same : (t + u) % m ≡ (t % m + u) % m = sym (mod-add-mod t m u) in
    elim (dec_lt (t % m + u) m) [
      | yes inside ↦
          let e : (t % m + u) % m ≡ t % m + u = mod-eq_of_lt inside in
          inl (inside, same ∙ e, omega (arith, same ∙ e))
      | no outside ↦
          let over : m ≤ t % m + u = omega arith in
          let e : (t % m + u) % m ≡ (t % m + u - m) % m = mod-eq-sub-mod over in
          let e' : (t % m + u - m) % m ≡ t % m + u - m = mod-eq_of_lt (omega arith) in
          let r : (t + u) % m + m ≡ t % m + u = omega (arith, same ∙ e ∙ e') in
          inr (over, r, omega arith)
    ]

module _ (d : Decoder) (l : Layout) where
  abbrev modulus : ℕ
  modulus = l.timestamp_modulus_ns

  -- The policy has last seen the time `t` of the target's clock, whose stamps are `t % modulus`.
  pub record Tracks (t : ℕ) (p : Policy d) : Type 0 where
    pub raw : p.last_raw_ns ≡ some (t % modulus)
    pub unwrapped : p.last_unwrapped_ns ≡ some t
    pub offset : p.wrap_offset_ns ≡ t / modulus * modulus

  accept_stamp-Tracks :
      (raw t : ℕ) (payload : List d.Value) (p : Policy d)
      → raw ≡ t % modulus
      → p.wrap_offset_ns ≡ t / modulus * modulus
      → Tracks t (accept_stamp d l raw t payload p)
  unfolding accept_stamp
  accept_stamp-Tracks raw t payload p e o = ground arith

  -- what is known of the last stamp when a later one comes
  abbrev IsBefore : Option ℕ → ℕ → Type 0
  IsBefore none t = Unit
  IsBefore (some last) t = last < t

  place_after-Tracks :
      (before : Option ℕ) (raw t : ℕ) (payload : List d.Value) (p : Policy d)
      → raw ≡ t % modulus
      → p.wrap_offset_ns ≡ t / modulus * modulus
      → IsBefore before t
      → Tracks t (place_after d l before raw t payload p)
  unfolding place_after
  place_after-Tracks none raw t payload p e o before = accept_stamp-Tracks raw t payload p e o
  place_after-Tracks (some last) raw t payload p e o before =
      let late : leb t last ≡ false = ground arith in
      rw late (accept_stamp-Tracks raw t payload _ e o)

  place_stamp-Tracks :
      (raw t : ℕ) (payload : List d.Value) (p : Policy d)
      → raw ≡ t % modulus
      → p.wrap_offset_ns ≡ t / modulus * modulus
      → IsBefore p.last_unwrapped_ns t
      → Tracks t (place_stamp d l raw payload p)
  unfolding place_stamp
  place_stamp-Tracks raw t payload p e o before =
      let sum : raw + p.wrap_offset_ns ≡ t = omega (arith, div-add-mod' t modulus) in
      rw (sum, place_stamp) (place_after-Tracks p.last_unwrapped_ns raw t payload p e o before)

  -- From the first stamp on the policy tracks the clock.
  pub on_daq_list_first-Tracks :
      (t : ℕ) (payload : List d.Value) (p : Policy d)
      → t < modulus
      → p.last_raw_ns ≡ none
      → p.last_unwrapped_ns ≡ none
      → p.wrap_offset_ns ≡ 0
      → Tracks t (on_daq_list d l t payload p)
  unfolding on_daq_list
  on_daq_list_first-Tracks t payload p low fresh fresh' zero_offset =
      let raw : t ≡ t % modulus = sym (mod-eq_of_lt low) in
      let offset : p.wrap_offset_ns ≡ t / modulus * modulus =
        omega (arith, div-add-mod' t modulus) in
      let placed =
        place_stamp-Tracks t t payload p raw offset (subst (λ o. IsBefore o t) (sym fresh') tt) in
      subst (λ o. Tracks t (stamp_after d l o t payload p)) (sym fresh) placed

  -- A policy that tracks the target's clock goes on tracking it over any step of less than half of
  -- the range of the stamps, also where they wrap.
  pub on_daq_list-Tracks :
      (t u : ℕ) (payload : List d.Value) (p : Policy d)
      → 0 < modulus
      → 0 < u
      → u + modulus / 2 < modulus
      → Tracks t p
      → Tracks (t + u) (on_daq_list d l ((t + u) % modulus) payload p)
  unfolding on_daq_list
  on_daq_list-Tracks t u payload p pos step half h =
      let later : IsBefore p.last_unwrapped_ns (t + u) =
        let next : t < t + u = omega arith in
        subst (λ o. IsBefore o (t + u)) (sym h.unwrapped) next in
      let raw = (t + u) % modulus in
      subst (λ o. Tracks (t + u) (stamp_after d l o raw payload p)) (sym h.raw)
        (elim (wrap_step t modulus u pos half) [
          | inl (inside, stamp, round) ↦
              let forward : ltb raw (t % modulus) ≡ false = ground (arith, stamp) in
              rw forward
                (place_stamp-Tracks raw (t + u) payload p refl (h.offset ∙ sym round) later)
          | inr (over, stamp, round) ↦
              let back : ltb raw (t % modulus) ≡ true = ground (arith, stamp, half) in
              let far : ltb (modulus / 2) (t % modulus - raw) ≡ true =
                ground (arith, stamp, half) in
              rw (back, far)
                (place_stamp-Tracks raw (t + u) payload (count_wrap d l p) refl
                  (omega (arith, h.offset, round)) later)
        ])
