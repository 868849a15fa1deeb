-- ===== src/Host/Clock/Streak.antt =====
-- What `ready` of TargetClockSync (`shared/python/pyxcp_host/services/target_clock.py`) says of the samples
-- that it has observed.
use sim_rt.Prelude.{
  subst, sym, ℕ, ◌+◌, ◌≤◌, ◌≡◌, ◌⊎◌, inl, inr, refl, true, false, Option, none, some, List, [], ◌∷◌,
  arith, Text, Bool-cases,
}
use sim_rt.Host.Clock.Host.{Sample}
use sim_rt.Host.Clock.{
  ClockSync, idle_time, max_sample_gap, is_idle, gap_exceeded, restart, count_idle, observe_pending,
  observe, idle_enough, ready, arm, cancel,
}

-- Samples with their times, the last one first.
abbrev pub Observed : Type 0
Observed = List (ℕ × Sample)

-- The first `n` of the samples are idle ones, none more than six seconds after the one before it, and
-- the last of them was taken at `since`.
unfoldable pub IsStreak : ℕ → ℕ → Observed → Type 0
IsStreak since n [] = ⊥
IsStreak since n ((t, s) ∷ []) = (is_idle s ≡ true) × (n ≡ 1) × (t ≡ since)
IsStreak since n ((t, s) ∷ (u, r) ∷ earlier) =
    (is_idle s ≡ true)
    × (((n ≡ 1) × (t ≡ since))
        ⊎ ((t ≤ u + max_sample_gap)
            × ((k : ℕ) × (n ≡ k + 1) × IsStreak since k ((u, r) ∷ earlier))))

starts : (t : ℕ) (s : Sample) (l : Observed) → is_idle s ≡ true → IsStreak t 1 ((t, s) ∷ l)
unfolding IsStreak
starts t s [] idle = (idle, refl, refl)
starts t s ((u, r) ∷ l) idle = (idle, inl (refl, refl))

goes_on :
    (since n t u : ℕ) (s r : Sample) (l : Observed)
    → is_idle s ≡ true
    → t ≤ u + max_sample_gap
    → IsStreak since n ((u, r) ∷ l)
    → IsStreak since (n + 1) ((t, s) ∷ (u, r) ∷ l)
unfolding IsStreak
goes_on since n t u s r l idle near before = (idle, inr (near, (n, refl, before)))

none_yet : (since n : ℕ) → ¬ IsStreak since n []
unfolding IsStreak
none_yet since n h = h

abbrev pub IsLast : Observed → Option ℕ → Type 0
IsLast [] last = last ≡ none
IsLast ((t, s) ∷ earlier) last = last ≡ some t

-- what the fields of a pending synchronization say of the samples since it was armed
pub record Counts (l : Observed) (c : ClockSync) : Type 0 where
  pub pending : c.pending ≡ true
  pub last : IsLast l c.last_sample
  pub streak :
      ((c.idle_since ≡ none) × (c.samples ≡ 0))
      ⊎ ((t : ℕ) × (c.idle_since ≡ some t) × IsStreak t c.samples l)

-- a sample that starts a new streak, one that goes on with a streak, and one that is not idle
first-Counts :
    (t : ℕ) (s : Sample) (l : Observed) (c : ClockSync)
    → is_idle s ≡ true
    → Counts l c
    → Counts ((t, s) ∷ l) (record c { idle_since = some t; samples = 1; last_sample = some t })
first-Counts t s l c idle h = record {
  pending = h.pending;
  last = refl;
  streak = inr (t, refl, starts t s l idle);
}

next-Counts :
    (t u since : ℕ) (s r : Sample) (l : Observed) (c : ClockSync)
    → is_idle s ≡ true
    → t ≤ u + max_sample_gap
    → IsStreak since c.samples ((u, r) ∷ l)
    → Counts ((u, r) ∷ l) c
    → Counts
        ((t, s) ∷ (u, r) ∷ l)
        (record c { idle_since = some since; samples = c.samples + 1; last_sample = some t })
next-Counts t u since s r l c idle near before h = record {
  pending = h.pending;
  last = refl;
  streak = inr (since, refl, goes_on since c.samples t u s r l idle near before);
}

busy-Counts :
    (t : ℕ) (s : Sample) (l : Observed) (c : ClockSync)
    → Counts l c
    → Counts ((t, s) ∷ l) (record c { idle_since = none; samples = 0; last_sample = some t })
busy-Counts t s l c h = record { pending = h.pending; last = refl; streak = inl (refl, refl) }

-- what `observe` does to the fields
observe_busy :
    (t : ℕ) (s : Sample) (c : ClockSync)
    → c.pending ≡ true
    → is_idle s ≡ false
    → observe t s c ≡ record c { idle_since = none; samples = 0; last_sample = some t }
unfolding observe observe_pending restart
observe_busy t s c on busy = ground (arith, on, busy)

observe_first :
    (t : ℕ) (s : Sample) (c : ClockSync)
    → c.pending ≡ true
    → is_idle s ≡ true
    → (gap_exceeded t c.last_sample ≡ true) ⊎ ((c.idle_since ≡ none) × (c.samples ≡ 0))
    → observe t s c ≡ record c { idle_since = some t; samples = 1; last_sample = some t }
unfolding observe observe_pending restart count_idle
observe_first t s c on idle new = ground (arith, on, idle, new)

observe_next :
    (t since : ℕ) (s : Sample) (c : ClockSync)
    → c.pending ≡ true
    → is_idle s ≡ true
    → gap_exceeded t c.last_sample ≡ false
    → c.idle_since ≡ some since
    → observe t s c
      ≡ record c { idle_since = some since; samples = c.samples + 1; last_sample = some t }
unfolding observe observe_pending restart count_idle
observe_next t since s c on idle near going = ground (arith, on, idle, near, going)

near_last :
    (t u : ℕ) (last : Option ℕ)
    → last ≡ some u
    → gap_exceeded t last ≡ false
    → t ≤ u + max_sample_gap
unfolding gap_exceeded
near_last t u last h g = ground arith

observe_idle-Counts :
    (t : ℕ) (s : Sample) (l : Observed) (c : ClockSync)
    → is_idle s ≡ true
    → gap_exceeded t c.last_sample ≡ false
    → Counts l c
    → Counts ((t, s) ∷ l) (observe t s c)
observe_idle-Counts t s [] c idle near h = elim h.streak [
  | inl new ↦
      subst (Counts ((t, s) ∷ [])) (sym (observe_first t s c h.pending idle (inr new)))
        (first-Counts t s [] c idle h)
  | inr (since, going, streak) ↦ elim (none_yet since c.samples streak) [ ]
]
observe_idle-Counts t s ((u, r) ∷ earlier) c idle near h = elim h.streak [
  | inl new ↦
      subst (Counts _) (sym (observe_first t s c h.pending idle (inr new)))
        (first-Counts t s ((u, r) ∷ earlier) c idle h)
  | inr (since, going, streak) ↦
      subst (Counts _) (sym (observe_next t since s c h.pending idle near going)) (
        next-Counts t u since s r earlier c idle (near_last t u c.last_sample h.last near) streak h)
]

pub observe-Counts :
    (t : ℕ) (s : Sample) (l : Observed) (c : ClockSync)
    → Counts l c
    → Counts ((t, s) ∷ l) (observe t s c)
observe-Counts t s l c h = elim (Bool-cases (is_idle s)) [
  | inr busy ↦ subst (Counts _) (sym (observe_busy t s c h.pending busy)) (busy-Counts t s l c h)
  | inl idle ↦ elim (Bool-cases (gap_exceeded t c.last_sample)) [
    | inl far ↦
        subst (Counts _) (sym (observe_first t s c h.pending idle (inl far)))
          (first-Counts t s l c idle h)
    | inr near ↦ observe_idle-Counts t s l c idle near h
  ]
]

pub arm-Counts : (password : Text) (c : ClockSync) → Counts [] (arm password c)
unfolding arm cancel
arm-Counts password c = record { pending = refl; last = refl; streak = inl (refl, refl) }

pub ready_counts :
    (now : ℕ) (c : ClockSync)
    → ready now c ≡ true
    → (3 ≤ c.samples) × ((t : ℕ) → c.idle_since ≡ some t → t + idle_time ≤ now)
unfolding ready idle_enough
ready_counts now c h = (ground arith, λ t e. ground arith)
