-- ===== src/Daq/Acquisition.antt =====
-- DaqAcquisition of `shared/python/pyxcp_host/services/daq_acquisition.py`: the start of an
-- acquisition with its rollback, and its stop.
pub mod Slave
pub mod Selection
pub mod Lifecycle
pub mod Keeping
use sim_rt.Prelude.{
  ℕ, ◌+◌, ◌-◌, min, max, Bool, true, false, not, ◌&&◌, ◌||◌, Option, none, some, List, [], ◌∷◌, map,
  ltb, leb, ◌==◌, if◌then◌else◌, length, any, all, Text, text_eq,
}
use sim_rt.Prelude.Int.{ℤ, pos, pos_part}
use sim_rt.Exec.{
  Result, ok, err, Error, Exec, pure, raise, gets, of_result, ◌>>=◌, ◌>>◌, modify, raise_if, catch,
  not_connected, granularity, wrong_kind, overlapping, no_signals, event_channel_range,
  unsupported_daq, already_active, dynamic_lists, entry_granularity, timestamp_format, small_dto,
  large_entry, omitted_signal, stop_unconfirmed,
}
use sim_rt.Transport.{PyxcpConfig, in_range}
use sim_rt.Transport.Master.{Master}
use sim_rt.Scalar.{A2lScalar, size}
use sim_rt.A2l.{DaqEvent}
use sim_rt.Client.{Client, connected, require_master, validate_address_span}
use sim_rt.Client.Characteristic.{is_characteristic}
use sim_rt.Daq.{Decoder, Counts, DaqSample, Layout, Policy}
use sim_rt.Daq.Samples
use sim_rt.Daq.Period.{PeriodSource, resolve_event_period}
use sim_rt.Daq.Prepare.{Setup, new_policy, prepare, activate, finalize}
use Slave.{DaqInfo, DaqMaster}

-- `scalar` and `other` share a byte
unfoldable pub scalars_overlap : A2lScalar → A2lScalar → Bool
scalars_overlap s t =
    s.address_extension == t.address_extension
    && ltb (max s.address t.address) (min (s.address + size s) (t.address + size t))

-- the inner loop, over the scalars that are checked already
unfoldable pub overlaps_any : A2lScalar → List A2lScalar → Bool
unfolding scalars_overlap
overlaps_any s [] = false
overlaps_any s (t ∷ checked) = if scalars_overlap s t then true else overlaps_any s checked

-- the body of `for scalar in selected:`
unfoldable pub check_measurement : List A2lScalar → A2lScalar → Result (Unit {0})
unfolding is_characteristic overlaps_any
check_measurement checked s =
    if is_characteristic s
    then err wrong_kind
    else elim (validate_address_span (pos s.address) (pos (size s)) (pos s.address_extension)) [
      | err e ↦ err e
      | ok _ ↦ if overlaps_any s checked then err overlapping else ok tt
    ]

unfoldable pub check_measurements : List A2lScalar → List A2lScalar → Result (Unit {0})
unfolding check_measurement
check_measurements checked [] = ok tt
check_measurements checked (s ∷ rest) =
    let others = check_measurements (s ∷ checked) rest in
    elim (check_measurement checked s) [ err e ↦ err e | ok _ ↦ others ]

-- any(scalar.size > maxOdtEntrySizeDaq for scalar in selected)
unfoldable pub exceeds : ℕ → List A2lScalar → Bool
exceeds n [] = false
exceeds n (s ∷ rest) = if ltb n (size s) then true else exceeds n rest

-- the tests of `info`
unfoldable pub check_info : ℕ → DaqInfo → List A2lScalar → Result (Unit {0})
unfolding exceeds
check_info max_dto info selected =
    if not info.dynamic || not info.timestamps
    then err dynamic_lists
    else if not (info.entry_granularity == 1)
    then err entry_granularity
    else elim info.timestamp_size [
      | none ↦ err timestamp_format
      | some n ↦
          if info.timestamp_ticks == 0
          then err timestamp_format
          else if leb (min info.max_entry (max_dto - info.header_size)) n
          then err small_dto
          else if exceeds info.max_entry selected
          then err large_entry
          else ok tt
    ]

-- a name of the list
unfoldable pub listed : Text → List Text → Bool
listed n [] = false
listed n (t ∷ ts) = if text_eq t n then true else listed n ts

unfoldable pub all_listed : List Text → List Text → Bool
unfolding listed
all_listed [] names = true
all_listed (t ∷ ts) names = if listed t names then all_listed ts names else false

-- set(policy._names) == {scalar.name for scalar in selected}
unfoldable pub same_names : List Text → List Text → Bool
unfolding all_listed
same_names names selected = all_listed names selected && all_listed selected names

-- The consumer of the transport: pyXCP's NoOpPolicy, or the policy with this number.
pub data Consumer : Type 0 where
  no_op : Consumer
  buffered : ℕ → Consumer

-- A policy object, with the number of its construction.
pub record Made (d : Decoder) : Type 0 where
  pub number : ℕ
  pub layout : Option Layout
  pub policy : Policy d

-- self.metadata
pub record Metadata : Type 0 where
  pub event_channel : ℕ
  pub period_ps : ℕ
  pub source : PeriodSource
  pub signals : List Text
  pub odt_count : ℕ
  pub queue_capacity : ℕ

-- The acquisition and the client that it works on; `installed` is the policy that the transport and
-- the feeder of `master.stim` have, which are set together, and
-- `made` counts the policies that were constructed.
pub record Acquisition (m : Master PyxcpConfig) (d : Decoder) : Type 0 where
  pub client : Client m
  pub installed : Consumer
  pub capacity : ℕ
  pub policy : Option (Made d)
  pub previous : Option Consumer
  pub active : Bool
  pub metadata : Option Metadata
  pub made : ℕ

-- BufferedDaqPolicy.diagnostics, and what DaqAcquisition.diagnostics adds to it
pub record PolicyDiagnostics : Type 0 where
  pub counts : Counts
  pub queued_samples : ℕ
  pub queue_capacity : ℕ

pub record AcquisitionDiagnostics : Type 0 where
  pub metadata : Option Metadata
  pub active : Bool
  pub policy : Option PolicyDiagnostics

-- The local variables of `start` while it changes the target.
pub record Starting (m : Master PyxcpConfig) (d : Decoder) : Type 0 where
  pub acquisition : Acquisition m d
  pub fresh : Made d
  pub changed_target : Bool
  pub attached : Bool

module _ (m : Master PyxcpConfig) (d : Decoder) (dm : DaqMaster m d) where
  -- an operation of the master, on the acquisition's client
  abbrev pub on_slave : {A : Type 0} → Exec m.World A → Exec (Acquisition m d) A
  on_slave f s =
      let (r, w) = f s.client.world in (r, record s { client = record (s.client) { world = w } })

  abbrev pub on_starting : {A : Type 0} → Exec (Acquisition m d) A → Exec (Starting m d) A
  on_starting f s = let (r, a) = f s.acquisition in (r, record s { acquisition = a })

  -- XcpClient.exchange_acquisition_policy
  unfoldable pub exchange : Consumer → Exec (Acquisition m d) Consumer
  exchange new s =
      if connected m s.client
      then (ok s.installed, record s { installed = new })
      else (err not_connected, s)

  -- policy.prepare(info), on the policy that is being started
  unfoldable pub prepare_fresh : Setup → Exec (Starting m d) Layout
  prepare_fresh setup s =
      let (r, p) = prepare d setup s.fresh.policy in
      (
        r,
        record s {
          fresh = record (s.fresh) { policy = p; layout = elim r [ ok l ↦ some l | err _ ↦ none ] };
        },
      )

  -- `self._previous_policy = ...exchange...; attached = True; self.policy = policy`
  unfoldable pub attach : Exec (Starting m d) (Unit {0})
  unfolding exchange
  attach s =
      let (r, a) = exchange (buffered s.fresh.number) s.acquisition in
      elim r [
        | err e ↦ (err e, record s { acquisition = a })
        | ok old ↦ (
          ok tt,
          record s {
            acquisition = record a { previous = some old; policy = some s.fresh };
            attached = true;
          },
        )
      ]

  -- policy.activate(), on the policy that is attached
  unfoldable pub activate_fresh : Exec (Starting m d) (Unit {0})
  activate_fresh s =
      let p = record (s.fresh) { policy = activate d s.fresh.policy } in
      (ok tt, record s { fresh = p; acquisition = record (s.acquisition) { policy = some p } })

  -- the `try` of `start`, up to the test of the layout's names
  unfoldable pub lay_out : ℕ → ℕ → List A2lScalar → Exec (Starting m d) Layout
  unfolding prepare_fresh same_names
  lay_out channel period selected = do
    on_starting (on_slave dm.unlock)
    modify (λ s. record s { changed_target = true })
    capacity ← gets (λ s. s.acquisition.capacity)
    setup ← on_starting (on_slave (dm.setup channel selected))
    layout ← prepare_fresh (record setup { capacity = capacity; period_ps = period })
    raise_if (not (same_names layout.names (map (λ s. s.name) selected))) omitted_signal
    pure layout

  -- the rest of the `try` of `start`
  unfoldable pub launch : Layout → Exec (Starting m d) Layout
  unfolding attach activate_fresh
  launch layout = do attach; activate_fresh; on_starting (on_slave dm.start); pure layout

  -- the `try` of `start`, after the policy has been constructed
  unfoldable pub try_start : ℕ → ℕ → List A2lScalar → Exec (Starting m d) Layout
  unfolding lay_out launch
  try_start channel period selected = lay_out channel period selected >>= launch

  -- policy.finalize()
  unfoldable pub finalize_policy : Acquisition m d → Acquisition m d
  finalize_policy a = record a {
    policy = elim a.policy [
      | none ↦ none
      | some p ↦ some (record p { policy = finalize d p.policy })
    ];
  }

  -- self.client.exchange_acquisition_policy(self._previous_policy); self._previous_policy = None
  unfoldable pub give_back : Exec (Acquisition m d) (Unit {0})
  unfolding exchange
  give_back a =
      let (r, b) = exchange (elim a.previous [ none ↦ no_op | some old ↦ old ]) a in
      elim r [ err e ↦ (err e, b) | ok _ ↦ (ok tt, record b { previous = none }) ]

  -- the policy is detached and finalized
  unfoldable pub detach : Error → Exec (Acquisition m d) Layout
  unfolding give_back finalize_policy
  detach e a =
      let (r, b) = give_back a in elim r [ err x ↦ (err x, b) | ok _ ↦ (err e, finalize_policy b) ]

  -- the end of the `except` of `start`
  unfoldable pub withdraw : Error → Bool → Exec (Acquisition m d) Layout
  unfolding detach
  withdraw e attached a = if attached then detach e a else (err e, a)

  -- the `except` of `start`
  unfoldable pub clean_up : Error → Exec (Starting m d) Layout
  unfolding withdraw
  clean_up e s =
      let (stopped, a) =
        if s.changed_target then on_slave dm.stop_all s.acquisition else (ok tt, s.acquisition) in
      let kept : Bool = elim stopped [ ok _ ↦ false | err _ ↦ s.attached ] in
      if kept
      then (err stop_unconfirmed, record s { acquisition = record a { active = true } })
      else on_starting (withdraw e s.attached) (record s { acquisition = a })

  -- the `try` and the `except`, from the constructed policy on
  unfoldable pub run_start : ℕ → ℕ → List A2lScalar → Policy d → Exec (Acquisition m d) Layout
  unfolding try_start clean_up
  run_start channel period selected policy a =
      let fresh : Made d = record { number = a.made; layout = none; policy = policy } in
      let (r, s) = catch (try_start channel period selected) clean_up (record {
        acquisition = record a { made = a.made + 1 };
        fresh = fresh;
        changed_target = false;
        attached = false;
      }) in
      (r, s.acquisition)

  -- resolve_event_period(master, int(event_channel), a2l_events)
  unfoldable pub resolve_period : ℕ → List DaqEvent → Exec (Acquisition m d) (ℕ × PeriodSource)
  resolve_period channel events a =
      let (answer, w) = dm.event_info channel a.client.world in
      (
        resolve_event_period dm.unknown_code dm.syntax_code answer channel events,
        record a { client = record (a.client) { world = w } },
      )

  -- `self.client.master`
  unfoldable pub require_client_master : Exec (Acquisition m d) (Unit {0})
  require_client_master a = let (r, c) = require_master m a.client in (r, record a { client = c })

  -- the guards of `start`
  unfoldable pub require_ready : ℕ → ℤ → Exec (Acquisition m d) (Unit {0})
  unfolding require_client_master in_range
  require_ready count event_channel = do
    active ← gets (λ a. a.active)
    raise_if active already_active
    raise_if (count == 0) no_signals
    raise_if (not (in_range (pos 0) (pos 0xFFFF) event_channel)) event_channel_range
    require_client_master
    supported ← gets (λ a. dm.supports_daq a.client.world)
    raise_if (not supported) unsupported_daq
    bytes ← gets (λ a. m.bytes_per_element a.client.world)
    raise_if (not (elim bytes [ none ↦ false | some n ↦ n == 1 ])) granularity

  -- the part of `start` that asks the slave, down to the new policy
  unfoldable pub negotiate :
      List A2lScalar → ℕ → List DaqEvent → Exec (Acquisition m d) ((ℕ × PeriodSource) × Policy d)
  unfolding check_measurements resolve_period check_info
  negotiate selected channel events = do
    of_result (check_measurements [] selected)
    found ← resolve_period channel events
    info ← on_slave dm.daq_info
    max_dto ← gets (λ a. dm.max_dto a.client.world)
    of_result (check_info max_dto info selected)
    capacity ← gets (λ a. a.capacity)
    policy ← of_result (new_policy d capacity dm.native)
    pure (found, policy)

  unfoldable pub finish_start :
      ℕ → ℕ × PeriodSource → List A2lScalar → Layout → Exec (Acquisition m d) Metadata
  finish_start channel found selected layout a =
      let metadata : Metadata = record {
        event_channel = channel;
        period_ps = found.0;
        source = found.1;
        signals = map (λ s. s.name) selected;
        odt_count = length layout.frame_lengths;
        queue_capacity = a.capacity;
      } in
      (ok metadata, record a { active = true; metadata = some metadata })

  -- the part of `start` that sets up the acquisition
  unfoldable pub begin :
      List A2lScalar → ℕ → (ℕ × PeriodSource) × Policy d → Exec (Acquisition m d) Metadata
  unfolding run_start finish_start
  begin selected channel (found, policy) = do
    layout ← run_start channel found.0 selected policy
    finish_start channel found selected layout

  -- DaqAcquisition.start
  unfoldable pub start : List A2lScalar → ℤ → List DaqEvent → Exec (Acquisition m d) Metadata
  start selected event_channel events = do
    require_ready (length selected) event_channel
    found ← negotiate selected (pos_part event_channel) events
    begin selected (pos_part event_channel) found

  -- DaqAcquisition.stop
  unfoldable pub stop : Exec (Acquisition m d) (Unit {0})
  unfolding give_back finalize_policy
  stop a =
      if not a.active
      then (ok tt, a)
      else (do
        on_slave dm.stop
        give_back
        modify (λ b. record (finalize_policy b) { active = false }))
          a

  -- DaqAcquisition.drain
  unfoldable pub drain : ℕ → Exec (Acquisition m d) (List (DaqSample d))
  drain max_samples a = elim a.policy [
    | none ↦ (ok [], a)
    | some p ↦ elim p.layout [
      | none ↦ (ok [], a)
      | some l ↦
          let (r, q) = Samples.drain d l max_samples p.policy in
          (r, record a { policy = some (record p { policy = q }) })
    ]
  ]

  -- BufferedDaqPolicy.diagnostics, of a queue that was made for this capacity
  unfoldable pub policy_diagnostics : ℕ → Policy d → PolicyDiagnostics
  policy_diagnostics capacity p = record {
    counts = p.counts;
    queued_samples = length p.queue;
    queue_capacity = capacity;
  }

  -- DaqAcquisition.diagnostics
  unfoldable pub diagnostics : Acquisition m d → AcquisitionDiagnostics
  unfolding policy_diagnostics
  diagnostics a = record {
    metadata = a.metadata;
    active = a.active;
    policy = elim a.policy [ none ↦ none | some p ↦ some (policy_diagnostics a.capacity p.policy) ];
  }
