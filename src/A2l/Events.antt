-- ===== src/A2l/Events.antt =====
-- What `_daq_events` of `shared/python/simrt_xcp/a2l.py` reads.
use sim_rt.Prelude.{
  ℕ, ◌≤◌, ◌≡◌, ◌≢◌, refl, subst, true, false, ◌||◌, List, [], ◌∷◌, ◌++◌, ltb, Text, text_eq, upper,
  arith, Bool-cases, ◌⊎◌, inl, inr,
}
use sim_rt.Exec.{ok, ok-ok, Result-cases}
use sim_rt.A2l.{
  Token, DaqEvent, Block, TokenKind, begins, ends, word, classify, push, close, finish, scan,
  daq_events, read_event, add_numeric, add_event, parse_integers, has_channel, is_capability,
  is_daq_event,
}

TokenKind-cases : (k : TokenKind) → (k ≡ begins) ⊎ (k ≡ ends) ⊎ (k ≡ word)
TokenKind-cases begins = inl refl
TokenKind-cases ends = inr (inl refl)
TokenKind-cases word = inr (inr refl)

-- The fields of an event are in the ranges of the protocol.
pub record IsEvent (e : DaqEvent) : Type 0 where
  pub channel : e.channel ≤ 0xFFFF
  pub cycle : e.cycle ≤ 0xFF
  pub unit : e.unit ≤ 12
  pub max_daq_lists : e.max_daq_lists ≤ 0xFF
  pub capability : is_capability e.capability ≡ true

-- Every event is in range and is the only one of its channel.
abbrev pub AreEvents : List DaqEvent → Type 0
AreEvents [] = Unit
AreEvents (e ∷ events) = IsEvent e × (has_channel e.channel events ≡ false) × AreEvents events

has_channel-append :
    (n : ℕ) (xs : List DaqEvent) (e : DaqEvent)
    → has_channel n xs ≡ false
    → e.channel ≢ n
    → has_channel n (xs ++ (e ∷ [])) ≡ false
unfolding has_channel
has_channel-append n [] e h ne = ground arith
has_channel-append n (x ∷ xs) e h ne = ground (arith, has_channel-append n xs e)

AreEvents-append :
    (xs : List DaqEvent) (e : DaqEvent)
    → AreEvents xs
    → IsEvent e
    → has_channel e.channel xs ≡ false
    → AreEvents (xs ++ (e ∷ []))
AreEvents-append [] e h ev new = (ev, unfold has_channel in refl, tt)
AreEvents-append (x ∷ xs) e (first, alone, rest) ev new =
    let other : e.channel ≢ x.channel = unfold has_channel in ground arith in
    let new' : has_channel e.channel xs ≡ false = unfold has_channel in ground arith in
    (first, has_channel-append x.channel xs e alone other, AreEvents-append xs e rest ev new')

add_event-AreEvents :
    (name capability : Text) (channel maximum cycle unit priority : ℕ) (events out : List DaqEvent)
    → AreEvents events
    → add_event name capability channel maximum cycle unit priority events ≡ ok out
    → AreEvents out
unfolding add_event
add_event-AreEvents name capability channel maximum cycle unit priority events out h done =
    elim (Bool-cases (
      ltb 0xFFFF channel
      || ltb 0xFF maximum
      || ltb 0xFF cycle
      || ltb 0xFF unit
      || ltb 0xFF priority
      || ltb 12 unit)) [
        | inl outside ↦ ground arith
        | inr inside ↦ elim (Bool-cases (is_capability (upper capability))) [
          | inr unknown ↦ ground arith
          | inl known ↦ elim (Bool-cases (has_channel channel events)) [
            | inl twice ↦ ground arith
            | inr once ↦
                let e : DaqEvent = record {
                  name = name;
                  channel = channel;
                  capability = upper capability;
                  cycle = cycle;
                  unit = unit;
                  max_daq_lists = maximum;
                } in
                let added : events ++ (e ∷ []) ≡ out = ground arith in
                let ev : IsEvent e = record {
                  channel = ground arith;
                  cycle = ground arith;
                  unit = ground arith;
                  max_daq_lists = ground arith;
                  capability = known;
                } in
                subst AreEvents added (AreEvents-append events e h ev once)
          ]
        ]
      ]

add_numeric-AreEvents :
    (name capability : Text) (numeric : List ℕ) (events out : List DaqEvent)
    → AreEvents events
    → add_numeric name capability numeric events ≡ ok out
    → AreEvents out
unfolding add_numeric
add_numeric-AreEvents name capability (channel ∷ maximum ∷ cycle ∷ unit ∷ priority ∷ []) events out
      h done =
    add_event-AreEvents name capability channel maximum cycle unit priority events out h done
add_numeric-AreEvents name capability _ events out h done = ground arith

read_event-AreEvents :
    (body : List Text) (events out : List DaqEvent)
    → AreEvents events
    → read_event body events ≡ ok out
    → AreEvents out
unfolding read_event
read_event-AreEvents
      (name ∷ short_name ∷ channel ∷ capability ∷ maximum ∷ cycle ∷ unit ∷ priority ∷ _) events out
      h done =
    elim (Result-cases (parse_integers (channel ∷ maximum ∷ cycle ∷ unit ∷ priority ∷ []))) [
      | inr (why, failed) ↦ ground arith
      | inl (numeric, read) ↦
          add_numeric-AreEvents name capability numeric events out h (rw (read, read_event) at done)
    ]
read_event-AreEvents _ events out h done = ground arith

close-AreEvents :
    (kind : Text) (stack stack' : List Block) (events out : List DaqEvent)
    → AreEvents events
    → close kind stack events ≡ ok (stack', out)
    → AreEvents out
unfolding close
close-AreEvents kind [] stack' events out h done = ground arith
close-AreEvents kind (b ∷ stack) stack' events out h done =
    elim (Bool-cases (text_eq b.kind kind)) [
      | inr other ↦ ground arith
      | inl same ↦ elim (Bool-cases (is_daq_event b.kind stack)) [
        | inr plain ↦ let e : events ≡ out = ground arith in subst AreEvents e h
        | inl event ↦ elim (Result-cases (read_event b.body events)) [
          | inr (why, failed) ↦ ground arith
          | inl (events', read) ↦
              let e : events' ≡ out = ground arith in
              subst AreEvents e (read_event-AreEvents b.body events events' h read)
        ]
      ]
    ]

finish-AreEvents :
    (stack : List Block) (events out : List DaqEvent)
    → AreEvents events
    → finish stack events ≡ ok out
    → AreEvents out
unfolding finish
finish-AreEvents [] events out h done = subst AreEvents (ok-ok done) h
finish-AreEvents (b ∷ stack) events out h done = ground arith

scan-AreEvents :
    (tokens : List Token) (stack : List Block) (events out : List DaqEvent)
    → AreEvents events
    → scan tokens stack events ≡ ok out
    → AreEvents out
unfolding scan
scan-AreEvents [] stack events out h done = finish-AreEvents stack events out h done
scan-AreEvents (t ∷ []) stack events out h done = elim (TokenKind-cases (classify t)) [
  | inl first ↦ ground arith
  | inr (inl last) ↦ ground arith
  | inr (inr plain) ↦ finish-AreEvents (push t.0 stack) events out h (rw (plain, scan) at done)
]
scan-AreEvents (t ∷ n ∷ rest) stack events out h done = elim (TokenKind-cases (classify t)) [
  | inl first ↦
      scan-AreEvents rest (record { kind = upper n.0; body = [] } ∷ stack) events out h
        (rw (first, scan) at done)
  | inr (inl last) ↦ elim (Result-cases (close (upper n.0) stack events)) [
    | inr (why, failed) ↦ ground arith
    | inl ((stack', events'), closed) ↦
        scan-AreEvents rest stack' events' out
          (close-AreEvents (upper n.0) stack stack' events events' h closed)
          (rw (last, closed, scan) at done)
  ]
  | inr (inr plain) ↦
      scan-AreEvents (n ∷ rest) (push t.0 stack) events out h (rw (plain, scan) at done)
]

-- Whatever the tokens are: the events that are read are in the ranges of the protocol, and no two
-- of them have the same channel.
pub daq_events-AreEvents :
    (tokens : List Token) (events : List DaqEvent)
    → daq_events tokens ≡ ok events
    → AreEvents events
unfolding daq_events
daq_events-AreEvents tokens events done = scan-AreEvents tokens [] [] events tt done
