-- ===== src/A2l/Blocks/Parsed.antt =====
-- What `parse_a2l` of `shared/python/simrt_xcp/a2l.py` puts into the database.
use sim_rt.Prelude.{
  ℕ, ◌≤◌, ◌≡◌, refl, subst, true, Option, some, List, [], ◌∷◌, ◌++◌, ltb, Text, codes, upper,
  text_eq, text_eq_iff, leb, arith, Option-cases, Bool-cases, inl, inr,
}
use sim_rt.Prelude.Int.{pos, negsuc}
use sim_rt.Prelude.Dict.{Dict, lookup, contains, insert, lookup-insert, IsUnique, insert-IsUnique}
use sim_rt.Exec.{ok, err, integer_range, ok-ok, Result-cases}
use sim_rt.Transport.{in_range}
use sim_rt.Scalar.{DataType, Kind, characteristic, measurement, A2lScalar, check_range}
use sim_rt.Scalar.Words.{Endian}
use sim_rt.Scalar.Database.{add_scalars}
use sim_rt.Scalar.Literals.{int_literal}
use sim_rt.A2l.{Token, DaqEvent, parse_integer, daq_events}
use sim_rt.A2l.Events.{AreEvents, daq_events-AreEvents}
use sim_rt.A2l.Blocks.{
  RawBlock, Found, extension_text, build_scalar, add_found, find_characteristic, find_measurement,
  read_block, read_blocks, layout_types, byte_order_of, A2lDatabase, parse_a2l,
}

-- An address of 32 bits, an extension of 8 bits and the byte order of the file.
pub record IsParsed (order : Endian) (s : A2lScalar) : Type 0 where
  pub address : s.address ≤ 0xFFFFFFFF
  pub extension : s.address_extension ≤ 0xFF
  pub byte_order : s.byte_order ≡ order

unfoldable AreParsed : Endian → List A2lScalar → Type 0
AreParsed order [] = Unit
AreParsed order (s ∷ scalars) = IsParsed order s × AreParsed order scalars

AreParsed-append :
    (order : Endian) (xs ys : List A2lScalar)
    → AreParsed order xs
    → AreParsed order ys
    → AreParsed order (xs ++ ys)
unfolding AreParsed
AreParsed-append order [] ys h k = k
AreParsed-append order (x ∷ xs) ys (first, h) k = (first, AreParsed-append order xs ys h k)

parse_integer-bounded : (t : Text) (n : ℕ) → parse_integer t ≡ ok n → n ≤ 0xFFFFFFFF
unfolding parse_integer
parse_integer-bounded t n read = elim (Option-cases (int_literal t)) [
  | inl missing ↦ ground arith
  | inr (negsuc m, negative) ↦ ground arith
  | inr (pos m, number) ↦ elim (Bool-cases (leb m 0xFFFFFFFF)) [
    | inl small ↦
        let same : m ≡ n =
          ok-ok (subst (λ r. r ≡ ok n) (rw (parse_integer, number, small) refl) read) in
        subst (λ k. k ≤ 0xFFFFFFFF) same (ground arith)
    | inr large ↦
        let none_read : err integer_range ≡ ok n =
          subst (λ r. r ≡ ok n) (rw (parse_integer, number, large) refl) read in
        ground arith
  ]
]

in_range-fits : (n high : ℕ) → n ≤ high → in_range (pos 0) (pos high) (pos n) ≡ true
unfolding in_range
in_range-fits n high small = ground arith

check_range-IsParsed :
    (name : Text) (kind : Kind) (d : DataType) (order : Endian) (a e : ℕ) (s : A2lScalar)
    → a ≤ 0xFFFFFFFF
    → e ≤ 0xFF
    → check_range name kind d order (pos a) (pos e) ≡ ok s
    → IsParsed order s
unfolding check_range
check_range-IsParsed name kind d order a e s small short made =
    let here : A2lScalar = record {
      name = name;
      kind = kind;
      address = a;
      data_type = d;
      byte_order = order;
      address_extension = e;
    } in
    let fits = in_range-fits a 0xFFFFFFFF small in
    let fits' = in_range-fits e 0xFF short in
    let same : here ≡ s = ok-ok (subst (λ r. r ≡ ok s) (rw (check_range, fits, fits') refl) made) in
    subst (IsParsed order) same (record { address = small; extension = short; byte_order = refl })

build_scalar-IsParsed :
    (order : Endian) (kind : Kind) (name : Text) (d : DataType) (address : Text)
    (tokens : List Text) (s : A2lScalar)
    → build_scalar order kind name d address tokens ≡ ok s
    → IsParsed order s
unfolding build_scalar
build_scalar-IsParsed order kind name d address tokens s made =
    elim (Result-cases (parse_integer (extension_text tokens))) [
      | inr (e, refused) ↦ ground arith
      | inl (extension, given) ↦ elim (Bool-cases (ltb 0xFF extension)) [
        | inl large ↦ ground arith
        | inr short ↦ elim (Result-cases (parse_integer address)) [
          | inr (e, refused) ↦ ground arith
          | inl (a, read) ↦
              check_range-IsParsed name kind d order a extension s
                (parse_integer-bounded address a read) (ground arith) (ground arith)
        ]
      ]
    ]

empty-AreParsed : (order : Endian) (out : List A2lScalar) → [] ≡ out → AreParsed order out
unfolding AreParsed
empty-AreParsed order out same = subst (AreParsed order) same tt

add_found-AreParsed :
    (order : Endian) (kind : Kind) (tokens : List Text) (found : Found) (out : List A2lScalar)
    → add_found order kind tokens found ≡ ok out
    → AreParsed order out
unfolding add_found AreParsed
add_found-AreParsed order kind tokens found out done = elim (Option-cases found.address) [
  | inl missing ↦ empty-AreParsed order out (ground arith)
  | inr (address, there) ↦ elim (Option-cases found.data_type) [
    | inl missing ↦ empty-AreParsed order out (ground arith)
    | inr (d, known) ↦ elim (Result-cases (build_scalar order kind found.name d address tokens)) [
      | inr (e, refused) ↦ ground arith
      | inl (s, made) ↦
          let one : s ∷ [] ≡ out = ground arith in
          subst (AreParsed order) one
            (build_scalar-IsParsed order kind found.name d address tokens s made, tt)
    ]
  ]
]

read_block-AreParsed :
    (order : Endian) (layouts : Dict DataType) (b : RawBlock) (out : List A2lScalar)
    → read_block order layouts b ≡ ok out
    → AreParsed order out
unfolding read_block
read_block-AreParsed order layouts b out done =
    elim (Bool-cases (text_eq (upper b.kind) (codes "RECORD_LAYOUT"))) [
      | inl layout ↦ empty-AreParsed order out (ground arith)
      | inr scalar ↦ elim (Bool-cases (text_eq (upper b.kind) (codes "CHARACTERISTIC"))) [
        | inl first ↦ elim (Option-cases (find_characteristic layouts b.tokens)) [
          | inl nothing ↦ empty-AreParsed order out (ground arith)
          | inr (found, there) ↦
              add_found-AreParsed order characteristic b.tokens found out (ground arith)
        ]
        | inr second ↦ elim (Option-cases (find_measurement b.tokens)) [
          | inl nothing ↦ empty-AreParsed order out (ground arith)
          | inr (found, there) ↦
              add_found-AreParsed order measurement b.tokens found out (ground arith)
        ]
      ]
    ]

read_blocks-AreParsed :
    (order : Endian) (layouts : Dict DataType) (blocks : List RawBlock) (out : List A2lScalar)
    → read_blocks order layouts blocks ≡ ok out
    → AreParsed order out
unfolding read_blocks
read_blocks-AreParsed order layouts [] out done = empty-AreParsed order out (ok-ok done)
read_blocks-AreParsed order layouts (b ∷ blocks) out done =
    elim (Result-cases (read_block order layouts b)) [
      | inr (e, refused) ↦ ground arith
      | inl (here, read) ↦ elim (Result-cases (read_blocks order layouts blocks)) [
        | inr (e, refused) ↦ ground arith
        | inl (later, others) ↦
            let both : here ++ later ≡ out = ground arith in
            subst (AreParsed order) both (
              AreParsed-append order here later (read_block-AreParsed order layouts b here read)
                (read_blocks-AreParsed order layouts blocks later others))
      ]
    ]

-- Every entry is under its name, once, and is a scalar of the file.
unfoldable IsDatabase : Endian → Dict A2lScalar → Type 0
IsDatabase order d =
    IsUnique d
    × ((n : Text) (s : A2lScalar) → lookup n d ≡ some s → (s.name ≡ n) × IsParsed order s)

insert-IsDatabase :
    (order : Endian) (s : A2lScalar) (d : Dict A2lScalar)
    → IsParsed order s
    → IsDatabase order d
    → IsDatabase order (insert s.name s d)
unfolding IsDatabase
insert-IsDatabase order s d parsed (unique, named) = (
  insert-IsUnique s.name s d unique,
  λ n t found. elim (Bool-cases (text_eq s.name n)) [
    | inl same ↦
        let it : s ≡ t = ground (arith, lookup-insert s.name n s d) in
        let named_n : s.name ≡ n = ground (arith, text_eq_iff s.name n) in
        subst (λ u. (u.name ≡ n) × IsParsed order u) it (named_n, parsed)
    | inr other ↦ named n t (ground (arith, lookup-insert s.name n s d))
  ],
)

add_scalars-IsDatabase :
    (order : Endian) (scalars : List A2lScalar) (d out : Dict A2lScalar)
    → AreParsed order scalars
    → IsDatabase order d
    → add_scalars scalars d ≡ ok out
    → IsDatabase order out
unfolding AreParsed add_scalars
add_scalars-IsDatabase order [] d out parsed h done = subst (IsDatabase order) (ok-ok done) h
add_scalars-IsDatabase order (s ∷ scalars) d out (first, parsed) h done =
    elim (Bool-cases (contains s.name d)) [
      | inl twice ↦ ground arith
      | inr fresh ↦
          add_scalars-IsDatabase order scalars (insert s.name s d) out parsed
            (insert-IsDatabase order s d first h) (ground arith)
    ]

unfoldable IsA2lDatabase : A2lDatabase → Type 0
IsA2lDatabase db = IsDatabase db.byte_order db.by_name × AreEvents db.daq_events

pub parse_a2l-built :
    (order_match : Option Text) (blocks : List RawBlock) (tokens : List Token)
    (scalars : List A2lScalar) (events : List DaqEvent) (by_name : Dict A2lScalar)
    → read_blocks (byte_order_of order_match) (layout_types blocks []) blocks ≡ ok scalars
    → daq_events tokens ≡ ok events
    → add_scalars scalars [] ≡ ok by_name
    → parse_a2l order_match blocks tokens
      ≡ ok (record {
        by_name = by_name;
        byte_order = byte_order_of order_match;
        daq_events = events;
      })
unfolding parse_a2l
parse_a2l-built order_match blocks tokens scalars events by_name read given added =
    rw (parse_a2l, read, given, added) refl

parse_a2l-IsA2lDatabase :
    (order_match : Option Text) (blocks : List RawBlock) (tokens : List Token) (db : A2lDatabase)
    → parse_a2l order_match blocks tokens ≡ ok db
    → IsA2lDatabase db
unfolding parse_a2l IsA2lDatabase IsDatabase lookup
parse_a2l-IsA2lDatabase order_match blocks tokens db done =
    let order : Endian = byte_order_of order_match in
    elim (Result-cases (read_blocks order (layout_types blocks []) blocks)) [
      | inr (e, refused) ↦ ground arith
      | inl (scalars, read) ↦ elim (Result-cases (daq_events tokens)) [
        | inr (e, refused) ↦ ground arith
        | inl (events, given) ↦ elim (Result-cases (add_scalars scalars [])) [
          | inr (e, refused) ↦ ground arith
          | inl (by_name, added) ↦
              let built : A2lDatabase = record {
                by_name = by_name;
                byte_order = order;
                daq_events = events;
              } in
              let same : built ≡ db = ok-ok (
                subst (λ r. r ≡ ok db)
                  (parse_a2l-built order_match blocks tokens scalars events by_name read given
                    added)
                  done) in
              subst IsA2lDatabase same (
                add_scalars-IsDatabase order scalars [] by_name
                    (read_blocks-AreParsed order (layout_types blocks []) blocks scalars read)
                    (tt, λ n s found. ground arith) added,
                daq_events-AreEvents tokens events given,
              )
        ]
      ]
    ]

-- Every scalar that the database of an A2L file holds under a name is of that name, has an address
-- of 32 bits, an extension of 8 bits and the byte order of the file; no name occurs twice among the
-- scalars, and the DAQ events are in range with distinct channels.
pub parse_a2l-IsParsed :
    (order_match : Option Text) (blocks : List RawBlock) (tokens : List Token) (db : A2lDatabase)
    (n : Text) (s : A2lScalar)
    → parse_a2l order_match blocks tokens ≡ ok db
    → lookup n db.by_name ≡ some s
    → (s.name ≡ n) × IsParsed db.byte_order s × IsUnique db.by_name × AreEvents db.daq_events
unfolding IsA2lDatabase IsDatabase
parse_a2l-IsParsed order_match blocks tokens db n s done found =
    let whole = parse_a2l-IsA2lDatabase order_match blocks tokens db done in
    let entry = whole.0.1 n s found in (entry.0, entry.1, whole.0.0, whole.1)
