-- ===== src/A2l.antt =====
-- The DAQ events of an A2L file: `_daq_events` of `shared/python/simrt_xcp/a2l.py`, from the tokens
-- on. A stack of blocks has its top first here, and the dictionary of events is their list.
pub mod Events
pub mod Blocks
pub mod Complete
use sim_rt.Prelude.{
  ℕ, ◌+◌, ◌-◌, ◌*◌, ◌^◌, Bool, true, false, not, ◌&&◌, ◌||◌, Option, none, some, List, [], ◌∷◌,
  ◌++◌, ltb, leb, ◌==◌, if◌then◌else◌, Text, codes, text_eq, upper,
}
use sim_rt.Prelude.Int.{ℤ, pos, negsuc}
use sim_rt.Exec.{
  Result, ok, err, bad_integer, integer_range, truncated_block, mismatched_block, unclosed_block,
  truncated_event, event_range, bad_capability, duplicate_event,
}
use sim_rt.Scalar.Literals.{int_literal}

-- A token of _token_strings, with the flag of a quoted one.
abbrev pub Token : Type 0
Token = Text × Bool

pub record DaqEvent : Type 0 where
  pub name : Text
  pub channel : ℕ
  pub capability : Text
  pub cycle : ℕ
  pub unit : ℕ
  pub max_daq_lists : ℕ

-- A2LDaqEvent.period_seconds, in picoseconds
unfoldable pub period_ps : DaqEvent → ℕ
period_ps e = if leb e.unit 9 then e.cycle * 10 ^ (e.unit + 3) else e.cycle * 10 ^ (e.unit - 10)

-- an open block: its kind in capitals and its tokens so far
pub record Block : Type 0 where
  pub kind : Text
  pub body : List Text

pub data TokenKind : Type 0 where
  begins ends word : TokenKind

unfoldable pub classify : Token → TokenKind
classify (t, quoted) =
    if text_eq t (codes "/begin") && not quoted
    then begins
    else if text_eq t (codes "/end") && not quoted
    then ends
    else word

-- `stack[-1][1].append(token)`, if there is a block
unfoldable pub push : Text → List Block → List Block
push t [] = []
push t (b ∷ stack) = record b { body = b.body ++ (t ∷ []) } ∷ stack

-- _parse_integer
unfoldable pub parse_integer : Text → Result ℕ
unfolding int_literal
parse_integer t = elim (int_literal t) [
  | none ↦ err bad_integer
  | some (negsuc n) ↦ err integer_range
  | some (pos n) ↦ if leb n 0xFFFFFFFF then ok n else err integer_range
]

unfoldable pub parse_integers : List Text → Result (List ℕ)
unfolding parse_integer
parse_integers [] = ok []
parse_integers (t ∷ ts) =
    let rest = parse_integers ts in
    elim (parse_integer t) [
      | err e ↦ err e
      | ok n ↦ elim rest [ err e ↦ err e | ok ns ↦ ok (n ∷ ns) ]
    ]

-- `owner == "IF_DATA" and values and values[0].upper() == "XCP"`
unfoldable pub is_xcp : Block → Bool
is_xcp b =
    text_eq b.kind (codes "IF_DATA")
    && elim b.body [ [] ↦ false | t ∷ _ ↦ text_eq (upper t) (codes "XCP") ]

unfoldable pub any_xcp : List Block → Bool
unfolding is_xcp
any_xcp [] = false
any_xcp (b ∷ stack) = if is_xcp b then true else any_xcp stack

-- is a block of this kind, in these blocks, the description of an event?
unfoldable pub is_daq_event : Text → List Block → Bool
unfolding any_xcp
is_daq_event kind [] = false
is_daq_event kind (b ∷ stack) =
    text_eq kind (codes "EVENT") && text_eq b.kind (codes "DAQ") && any_xcp (b ∷ stack)

unfoldable pub has_channel : ℕ → List DaqEvent → Bool
has_channel n [] = false
has_channel n (e ∷ events) = if e.channel == n then true else has_channel n events

unfoldable pub is_capability : Text → Bool
is_capability t =
    text_eq t (codes "DAQ") || text_eq t (codes "STIM") || text_eq t (codes "DAQ_STIM")

-- the tests of an event's fields, and `events[channel_num] = ...`
unfoldable pub add_event : Text → Text → ℕ → ℕ → ℕ → ℕ → ℕ → List DaqEvent → Result (List DaqEvent)
unfolding is_capability has_channel
add_event name capability channel maximum cycle unit priority events =
    if ltb 0xFFFF channel
      || ltb 0xFF maximum
      || ltb 0xFF cycle
      || ltb 0xFF unit
      || ltb 0xFF priority
      || ltb 12 unit
    then err event_range
    else if not (is_capability (upper capability))
    then err bad_capability
    else if has_channel channel events
    then err duplicate_event
    else ok (
        events
        ++ (record {
          name = name;
          channel = channel;
          capability = upper capability;
          cycle = cycle;
          unit = unit;
          max_daq_lists = maximum;
        }
            ∷ []))

-- the numbers of an event, in the order of `numeric`
unfoldable pub add_numeric : Text → Text → List ℕ → List DaqEvent → Result (List DaqEvent)
unfolding add_event
add_numeric name capability (channel ∷ maximum ∷ cycle ∷ unit ∷ priority ∷ []) events =
    add_event name capability channel maximum cycle unit priority events
add_numeric name capability _ events = err truncated_event

-- from `if len(body) < 8:` on
unfoldable pub read_event : List Text → List DaqEvent → Result (List DaqEvent)
unfolding parse_integers add_numeric
read_event (name ∷ short_name ∷ channel ∷ capability ∷ maximum ∷ cycle ∷ unit ∷ priority ∷ _)
      events =
    elim (parse_integers (channel ∷ maximum ∷ cycle ∷ unit ∷ priority ∷ [])) [
      | err e ↦ err e
      | ok numeric ↦ add_numeric name capability numeric events
    ]
read_event _ events = err truncated_event

-- an `/end` with the kind that follows it
unfoldable pub close : Text → List Block → List DaqEvent → Result (List Block × List DaqEvent)
unfolding is_daq_event read_event
close kind [] events = err mismatched_block
close kind (b ∷ stack) events =
    if not (text_eq b.kind kind)
    then err mismatched_block
    else if is_daq_event b.kind stack
    then elim (read_event b.body events) [ err e ↦ err e | ok events' ↦ ok (stack, events') ]
    else ok (stack, events)

unfoldable pub finish : List Block → List DaqEvent → Result (List DaqEvent)
finish [] events = ok events
finish (b ∷ stack) events = err unclosed_block

-- the loop of _daq_events
unfoldable pub scan : List Token → List Block → List DaqEvent → Result (List DaqEvent)
unfolding classify push close finish
scan [] stack events = finish stack events
scan (t ∷ []) stack events = elim (classify t) [
  | begins ↦ err truncated_block
  | ends ↦ err mismatched_block
  | word ↦ finish (push t.0 stack) events
]
scan (t ∷ n ∷ rest) stack events = elim (classify t) [
  | begins ↦ scan rest (record { kind = upper n.0; body = [] } ∷ stack) events
  | ends ↦ elim (close (upper n.0) stack events) [
    | err e ↦ err e
    | ok (stack', events') ↦ scan rest stack' events'
  ]
  | word ↦ scan (n ∷ rest) (push t.0 stack) events
]

-- _daq_events
unfoldable pub daq_events : List Token → Result (List DaqEvent)
unfolding scan
daq_events tokens = scan tokens [] []
