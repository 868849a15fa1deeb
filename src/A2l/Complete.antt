-- ===== src/A2l/Complete.antt =====
-- The events that `_daq_events` of `shared/python/simrt_xcp/a2l.py` does not miss.
use sim_rt.Prelude.{
  ◌≡◌, refl, ap, ◌∙◌, Bool, true, false, List, arith, [], ◌∷◌, ◌++◌, Text, codes, upper, String,
  append-nil, append_assoc,
}
use sim_rt.Exec.{Result, ok, err}
use sim_rt.A2l.{
  Token, DaqEvent, Block, word, classify, push, close, finish, scan, daq_events, read_event,
  is_daq_event, any_xcp, is_xcp,
}

-- The tokens are plain words, which open and close no block.
abbrev pub ArePlain : List Text → Type 0
ArePlain [] = Unit
ArePlain (t ∷ ts) = (classify (t, false) ≡ word) × ArePlain ts

abbrev pub unquoted : List Text → List Token
unquoted [] = []
unquoted (t ∷ ts) = (t, false) ∷ unquoted ts

scan-word :
    (t n : Token) (rest : List Token) (stack : List Block) (events : List DaqEvent)
    → classify t ≡ word
    → scan (t ∷ n ∷ rest) stack events ≡ scan (n ∷ rest) (push t.0 stack) events
unfolding scan
scan-word t n rest stack events h = rw (scan, h) refl

scan-next :
    (t : Text) (ts : List Text) (n : Token) (rest : List Token) (stack : List Block)
    (events : List DaqEvent)
    → classify (t, false) ≡ word
    → scan ((t, false) ∷ (unquoted ts ++ (n ∷ rest))) stack events
      ≡ scan (unquoted ts ++ (n ∷ rest)) (push t stack) events
scan-next t [] n rest stack events h = scan-word (t, false) n rest stack events h
scan-next t (u ∷ us) n rest stack events h =
    scan-word (t, false) (u, false) (unquoted us ++ (n ∷ rest)) stack events h

-- Plain words go to the innermost block.
scan-unquoted :
    (ts : List Text) (n : Token) (rest : List Token) (kind : Text) (body : List Text)
    (stack : List Block) (events : List DaqEvent)
    → ArePlain ts
    → scan (unquoted ts ++ (n ∷ rest)) (record { kind = kind; body = body } ∷ stack) events
      ≡ scan (n ∷ rest) (record { kind = kind; body = body ++ ts } ∷ stack) events
scan-unquoted [] n rest kind body stack events h = rw (append-nil body) refl
scan-unquoted (t ∷ ts) n rest kind body stack events (plain, others) =
    let first = scan-next t ts n rest (record { kind = kind; body = body } ∷ stack) events plain in
    let pushed : push t (record { kind = kind; body = body } ∷ stack)
        ≡ record { kind = kind; body = body ++ (t ∷ []) } ∷ stack =
      unfold push in refl in
    let ih = scan-unquoted ts n rest kind (body ++ (t ∷ [])) stack events others in
    let joined : (body ++ (t ∷ [])) ++ ts ≡ body ++ (t ∷ ts) = append_assoc body (t ∷ []) ts in
    first ∙ rw pushed (ih ∙ rw joined refl)

abbrev pub opening : String → Text × Bool
opening s = (codes s, false)

-- A file with one event block: `/begin IF_DATA XCP /begin DAQ /begin EVENT` ... and the ends.
abbrev pub one_event : List Text → List Token
one_event body =
    opening "/begin"
    ∷ opening "IF_DATA"
    ∷ opening "XCP"
    ∷ opening "/begin"
    ∷ opening "DAQ"
    ∷ opening "/begin"
    ∷ opening "EVENT"
    ∷ (unquoted body
        ++ (opening "/end"
            ∷ opening "EVENT"
            ∷ opening "/end"
            ∷ opening "DAQ"
            ∷ opening "/end"
            ∷ opening "IF_DATA"
            ∷ []))

abbrev xcp_block : Block
xcp_block = record { kind = codes "IF_DATA"; body = codes "XCP" ∷ [] }

abbrev daq_block : Block
daq_block = record { kind = codes "DAQ"; body = [] }

open_blocks :
    (tokens : List Token)
    → daq_events (
        opening "/begin"
        ∷ opening "IF_DATA"
        ∷ opening "XCP"
        ∷ opening "/begin"
        ∷ opening "DAQ"
        ∷ opening "/begin"
        ∷ opening "EVENT"
        ∷ tokens)
      ≡ scan tokens (record { kind = codes "EVENT"; body = [] } ∷ daq_block ∷ xcp_block ∷ []) []
unfolding daq_events scan classify push upper
open_blocks tokens = refl

close_blocks :
    (body : List Text) (out : List DaqEvent)
    → read_event body [] ≡ ok out
    → scan
        (opening "/end"
          ∷ opening "EVENT"
          ∷ opening "/end"
          ∷ opening "DAQ"
          ∷ opening "/end"
          ∷ opening "IF_DATA"
          ∷ [])
        (record { kind = codes "EVENT"; body = body } ∷ daq_block ∷ xcp_block ∷ [])
        []
      ≡ ok out
unfolding scan classify push upper close is_daq_event any_xcp is_xcp finish
close_blocks body out read = rw (scan, close, read) refl

pub daq_events-one_event :
    (body : List Text) (out : List DaqEvent)
    → ArePlain body
    → read_event body [] ≡ ok out
    → daq_events (one_event body) ≡ ok out
daq_events-one_event body out plain read =
    open_blocks _
    ∙ scan-unquoted body (opening "/end") _ (codes "EVENT") [] (daq_block ∷ xcp_block ∷ []) [] plain
    ∙ close_blocks body out read

-- A block `IF_DATA XCP` ..., anywhere in the blocks that are open.
abbrev pub xcp_among : List Block → List Text → List Block → List Block
xcp_among inner words outer =
    inner ++ (record { kind = codes "IF_DATA"; body = codes "XCP" ∷ words } ∷ outer)

any_xcp-xcp_among :
    (inner outer : List Block) (words : List Text) → any_xcp (xcp_among inner words outer) ≡ true
unfolding any_xcp is_xcp upper
any_xcp-xcp_among [] outer words = refl
any_xcp-xcp_among (b ∷ inner) outer words = ground (arith, any_xcp-xcp_among inner outer words)

-- `/begin EVENT`, the words and `/end EVENT`, before another token
abbrev pub event_before : List Text → Token → List Token → List Token
event_before body next rest =
    opening "/begin"
    ∷ opening "EVENT"
    ∷ (unquoted body ++ (opening "/end" ∷ opening "EVENT" ∷ next ∷ rest))

-- a DAQ block that is open, with its words so far
abbrev pub daq_with : List Text → Block
daq_with words = record { kind = codes "DAQ"; body = words }

close-event :
    (body words : List Text) (inner : List Block) (events : List DaqEvent)
    → any_xcp inner ≡ true
    → close
        (codes "EVENT")
        (record { kind = codes "EVENT"; body = body } ∷ daq_with words ∷ inner)
        events
      ≡ elim (read_event body events) [ err e ↦ err e | ok out ↦ ok (daq_with words ∷ inner, out) ]
unfolding close is_daq_event any_xcp is_xcp
close-event body words inner events known = rw known refl

scan-end :
    (kind : String) (rest : List Token) (stack : List Block) (events : List DaqEvent)
    → scan (opening "/end" ∷ opening kind ∷ rest) stack events
      ≡ elim (close (upper (codes kind)) stack events) [
        | err e ↦ err e
        | ok (stack', events') ↦ scan rest stack' events'
      ]
unfolding scan classify
scan-end kind rest stack events = refl

-- what the scan does with the result of `close`
abbrev after_close : List Token → Result (List Block × List DaqEvent) → Result (List DaqEvent)
after_close rest r = elim r [ err e ↦ err e | ok (stack, events) ↦ scan rest stack events ]

after_close_event :
    (rest : List Token) (stack : List Block) (r : Result (List DaqEvent))
    → after_close rest (elim r [ err e ↦ err e | ok out ↦ ok (stack, out) ])
      ≡ elim r [ err e ↦ err e | ok out ↦ scan rest stack out ]
after_close_event rest stack (ok out) = refl
after_close_event rest stack (err e) = refl

-- Plain words, none of them `/begin` or `/end`, in `/begin EVENT` ... `/end EVENT` directly within a
-- DAQ block that is anywhere, at any depth, within a block `IF_DATA XCP`, whatever was read before and
-- where a token follows: the event is read from the words, with its error, and the scan goes on at that
-- token with the same open blocks.
pub scan-event_before :
    (body words values : List Text) (next : Token) (rest : List Token) (inner outer : List Block)
    (events : List DaqEvent)
    → ArePlain body
    → scan (event_before body next rest) (daq_with words ∷ xcp_among inner values outer) events
      ≡ elim (read_event body events) [
        | err e ↦ err e
        | ok out ↦ scan (next ∷ rest) (daq_with words ∷ xcp_among inner values outer) out
      ]
unfolding upper
scan-event_before body words values next rest inner outer events plain =
    let around = daq_with words ∷ xcp_among inner values outer in
    let begun : scan (event_before body next rest) around events
        ≡ scan (unquoted body ++ (opening "/end" ∷ opening "EVENT" ∷ next ∷ rest))
            (record { kind = codes "EVENT"; body = [] } ∷ around) events =
      unfold scan classify upper in refl in
    let closed =
      close-event body words (xcp_among inner values outer) events
        (any_xcp-xcp_among inner outer values) in
    begun
    ∙ scan-unquoted body (opening "/end") (opening "EVENT" ∷ next ∷ rest) (codes "EVENT") [] around
        events plain
    ∙ scan-end "EVENT" (next ∷ rest) (record { kind = codes "EVENT"; body = body } ∷ around) events
    ∙ ap (after_close (next ∷ rest)) closed
    ∙ after_close_event (next ∷ rest) around (read_event body events)
