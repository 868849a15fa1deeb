-- ===== src/Daq/Period.antt =====
-- The period of a DAQ event: event_period_seconds and resolve_event_period of
-- `shared/python/pyxcp_host/services/daq_acquisition.py`. Periods are picoseconds.
use native.Mathlib.Nat.{mul-pos}
use sim_rt.Prelude.{
  ℕ, zero, suc, ◌+◌, ◌-◌, ◌*◌, ◌^◌, ◌≤◌, ◌<◌, ◌≡◌, Bool, false, not, ◌||◌, Option, none, some, List,
  [], ◌∷◌, ◌==◌, if◌then◌else◌, codes, text_eq, arith, Bool-cases, Option-cases, inl, inr,
}
use sim_rt.Exec.{Result, ok, err, foreign, no_period, no_event, Result-cases}
use sim_rt.A2l.{DaqEvent, period_ps}

-- What the slave reports of an event. `exponent` is what pyXCP's table gives for the time unit, as
-- a power of ten of picoseconds; none is a unit that is not in the table.
pub record EventInfo : Type 0 where
  pub cycle : ℕ
  pub exponent : Option ℕ
  pub daq : Bool

-- event_period_seconds
unfoldable pub event_period : EventInfo → Result ℕ
event_period info = if info.cycle == 0 then err no_period else elim info.exponent [
  | none ↦ err no_period
  | some k ↦ if info.daq then ok (info.cycle * 10 ^ k) else err no_period
]

-- How GET_DAQ_EVENT_INFO may end: an answer, an XCP error with its code, or another exception.
pub data Answer : Type 0 where
  answered : EventInfo → Answer
  refused : ℕ → Answer
  failed : ℕ → Answer

pub data PeriodSource : Type 0 where
  from_slave from_a2l : PeriodSource

unfoldable pub matching : ℕ → List DaqEvent → List DaqEvent
matching n [] = []
matching n (e ∷ events) = let rest = matching n events in if e.channel == n then e ∷ rest else rest

-- the tests of the matching event
unfoldable pub a2l_period : List DaqEvent → Result (ℕ × PeriodSource)
unfolding period_ps
a2l_period (e ∷ []) =
    if not (text_eq e.capability (codes "DAQ") || text_eq e.capability (codes "DAQ_STIM"))
      || e.cycle == 0
      || e.max_daq_lists == 0
    then err no_event
    else ok (period_ps e, from_a2l)
a2l_period _ = err no_event

-- resolve_event_period; `unknown` and `syntax` are ERR_CMD_UNKNOWN and ERR_CMD_SYNTAX of pyXCP
unfoldable pub resolve_event_period : ℕ → ℕ → Answer → ℕ → List DaqEvent → Result (ℕ × PeriodSource)
unfolding event_period matching a2l_period
resolve_event_period unknown syntax (answered info) channel events = elim (event_period info) [
  | err e ↦ err e
  | ok p ↦ ok (p, from_slave)
]
resolve_event_period unknown syntax (refused code) channel events =
    if code == unknown || code == syntax
    then a2l_period (matching channel events)
    else err (foreign code)
resolve_event_period unknown syntax (failed code) channel events = err (foreign code)

power_pos : (n : ℕ) → 1 ≤ 10 ^ n
power_pos zero = omega arith
power_pos (suc n) = let ih = power_pos n in omega arith

times_power_pos : (c k : ℕ) → (c == 0) ≡ false → 1 ≤ c * 10 ^ k
times_power_pos c k h = let p : 0 < c = ground arith in mul-pos p (power_pos k)

event_period_positive : (info : EventInfo) (p : ℕ) → event_period info ≡ ok p → 1 ≤ p
unfolding event_period
event_period_positive info p h = elim (Bool-cases (info.cycle == 0)) [
  | inl asynchronous ↦ ground arith
  | inr periodic ↦ elim (Option-cases info.exponent) [
    | inl unknown ↦ ground arith
    | inr (k, known) ↦ ground (arith, times_power_pos info.cycle k periodic)
  ]
]

period_ps_positive : (e : DaqEvent) → (e.cycle == 0) ≡ false → 1 ≤ period_ps e
unfolding period_ps
period_ps_positive e h =
    ground (arith, times_power_pos e.cycle (e.unit + 3) h, times_power_pos e.cycle (e.unit - 10) h)

a2l_period_positive :
    (events : List DaqEvent) (p : ℕ) (source : PeriodSource)
    → a2l_period events ≡ ok (p, source)
    → 1 ≤ p
unfolding a2l_period
a2l_period_positive [] p source h = ground arith
a2l_period_positive (e ∷ []) p source h = elim (Bool-cases (e.cycle == 0)) [
  | inl asynchronous ↦ ground arith
  | inr periodic ↦ ground (arith, period_ps_positive e periodic)
]
a2l_period_positive (e ∷ e' ∷ events) p source h = ground arith

-- A period that is resolved, from the slave's answer or from the A2L file, is positive.
pub resolve_event_period_positive :
    (unknown syntax : ℕ) (answer : Answer) (channel : ℕ) (events : List DaqEvent) (p : ℕ)
    (source : PeriodSource)
    → resolve_event_period unknown syntax answer channel events ≡ ok (p, source)
    → 1 ≤ p
unfolding resolve_event_period
resolve_event_period_positive unknown syntax (answered info) channel events p source h =
    elim (Result-cases (event_period info)) [
      | inr (why, e) ↦ ground arith
      | inl (q, e) ↦ ground (arith, event_period_positive info q e)
    ]
resolve_event_period_positive unknown syntax (refused code) channel events p source h =
    ground (arith, a2l_period_positive (matching channel events) p source)
resolve_event_period_positive unknown syntax (failed code) channel events p source h = ground arith
