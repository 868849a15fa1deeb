-- ===== src/A2l/Blocks.antt =====
-- The scalars of an A2L file: `_is_scalar`, `_layout_types`, `_infer_layout_type` and `parse_a2l` of
-- `shared/python/simrt_xcp/a2l.py`, from the blocks and tokens on that the regular expressions and shlex
-- of Python find in the text without its comments.
pub mod Parsed
use sim_rt.Prelude.{
  ℕ, ◌-◌, Bool, true, false, not, ◌&&◌, ◌||◌, Option, none, some, List, [], ◌∷◌, ◌++◌, length, drop,
  ltb, ◌==◌, if◌then◌else◌, Text, codes, text_eq, upper,
}
use sim_rt.Prelude.Int.{ℤ, pos, negsuc}
use sim_rt.Prelude.Dict.{Dict, lookup, insert}
use sim_rt.Exec.{Result, ok, err, extension_range}
use sim_rt.Scalar.{
  DataType, sbyte, ubyte, sword, uword, slong, ulong, a_int64, a_uint64, float32_ieee, float64_ieee,
  Kind, characteristic, measurement, A2lScalar, type_of_name, check_range,
}
use sim_rt.Scalar.Words.{Endian, little, big}
use sim_rt.Scalar.Literals.{int_literal}
use sim_rt.Scalar.Database.{add_scalars}
use sim_rt.A2l.{Token, DaqEvent, parse_integer, daq_events}

-- _keyword_value
unfoldable pub keyword_value : Text → List Text → Option Text
keyword_value keyword [] = none
keyword_value keyword (t ∷ []) = none
keyword_value keyword (t ∷ u ∷ tokens) =
    if text_eq (upper t) keyword then some u else keyword_value keyword (u ∷ tokens)

-- any(token.upper() == keyword for token in tokens)
unfoldable pub mentions : Text → List Text → Bool
mentions keyword [] = false
mentions keyword (t ∷ tokens) = if text_eq (upper t) keyword then true else mentions keyword tokens

-- the tokens after the first one that is the keyword
unfoldable pub after_keyword : Text → List Text → Option (List Text)
after_keyword keyword [] = none
after_keyword keyword (t ∷ tokens) =
    if text_eq (upper t) keyword then some tokens else after_keyword keyword tokens

-- the numbers at the front of the tokens
unfoldable pub dimensions : List Text → List ℤ
unfolding int_literal
dimensions [] = []
dimensions (t ∷ tokens) =
    let rest = dimensions tokens in elim (int_literal t) [ none ↦ [] | some n ↦ n ∷ rest ]

unfoldable pub all_one : List ℤ → Bool
all_one [] = true
all_one (pos n ∷ ns) = if n == 1 then all_one ns else false
all_one (negsuc n ∷ ns) = false

abbrev is_value : Option Text → Bool
is_value none = true
is_value (some t) = text_eq (upper t) (codes "VALUE")

-- _is_scalar
unfoldable pub is_scalar : List Text → Option Text → Bool
unfolding mentions after_keyword dimensions all_one
is_scalar tokens characteristic_type =
    if not (is_value characteristic_type) || mentions (codes "ARRAY_SIZE") tokens
    then false
    else elim (after_keyword (codes "MATRIX_DIM") tokens) [
      | none ↦ true
      | some rest ↦ not (length (dimensions rest) == 0) && all_one (dimensions rest)
    ]

-- A match of _BLOCK_RE: its kind and the tokens of its body.
pub record RawBlock : Type 0 where
  pub kind : Text
  pub tokens : List Text

-- tokens[fnc_index + 2], where there is one
unfoldable pub fnc_values : List Text → Option Text
unfolding after_keyword
fnc_values tokens = elim (after_keyword (codes "FNC_VALUES") tokens) [
  | none ↦ none
  | some [] ↦ none
  | some (_ ∷ []) ↦ none
  | some (_ ∷ t ∷ _) ↦ some (upper t)
]

-- the layout that a block adds
unfoldable pub layout_of_block : RawBlock → Dict DataType → Dict DataType
unfolding fnc_values type_of_name insert
layout_of_block b layouts =
    if not (text_eq (upper b.kind) (codes "RECORD_LAYOUT")) then layouts else elim b.tokens [
      | [] ↦ layouts
      | name ∷ _ ↦ elim (fnc_values b.tokens) [
        | none ↦ layouts
        | some t ↦ elim (type_of_name t) [ none ↦ layouts | some d ↦ insert name d layouts ]
      ]
    ]

-- _layout_types, from the layouts that are in already
unfoldable pub layout_types : List RawBlock → Dict DataType → Dict DataType
unfolding layout_of_block
layout_types [] layouts = layouts
layout_types (b ∷ blocks) layouts = layout_types blocks (layout_of_block b layouts)

-- str.endswith
unfoldable pub ends_with : Text → Text → Bool
ends_with s suffix = text_eq (drop (length s - length suffix) s) suffix

-- the names of _TYPE_FORMATS, the longest first
abbrev suffixes : List (Text × DataType)
suffixes =
    (codes "FLOAT32_IEEE", float32_ieee)
    ∷ (codes "FLOAT64_IEEE", float64_ieee)
    ∷ (codes "A_UINT64", a_uint64)
    ∷ (codes "A_INT64", a_int64)
    ∷ (codes "SBYTE", sbyte)
    ∷ (codes "UBYTE", ubyte)
    ∷ (codes "SWORD", sword)
    ∷ (codes "UWORD", uword)
    ∷ (codes "SLONG", slong)
    ∷ (codes "ULONG", ulong)
    ∷ (codes "BOOLEAN", ubyte)
    ∷ []

unfoldable pub first_suffix : Text → List (Text × DataType) → Option DataType
unfolding ends_with
first_suffix s [] = none
first_suffix s ((suffix, d) ∷ rest) = if ends_with s suffix then some d else first_suffix s rest

-- _infer_layout_type
unfoldable pub infer_layout_type : Text → Option DataType
unfolding first_suffix
infer_layout_type layout = first_suffix (upper layout) suffixes

-- What the branches on the kind find: name, type and address of a scalar, or a block to leave out.
pub record Found : Type 0 where
  pub name : Text
  pub data_type : Option DataType
  pub address : Option Text

-- the branch of a CHARACTERISTIC
unfoldable pub find_characteristic : Dict DataType → List Text → Option Found
unfolding is_scalar infer_layout_type lookup
find_characteristic layouts (name ∷ description ∷ type ∷ address ∷ layout ∷ rest) =
    if is_scalar (name ∷ description ∷ type ∷ address ∷ layout ∷ rest) (some type)
    then some (record {
      name = name;
      data_type = elim (lookup layout layouts) [
        | none ↦ infer_layout_type layout
        | some d ↦ some d
      ];
      address = some address;
    })
    else none
find_characteristic layouts _ = none

-- the branch of a MEASUREMENT
unfoldable pub find_measurement : List Text → Option Found
unfolding is_scalar keyword_value type_of_name
find_measurement (name ∷ description ∷ type ∷ rest) =
    if is_scalar (name ∷ description ∷ type ∷ rest) none
    then some (record {
      name = name;
      data_type = type_of_name (upper type);
      address = keyword_value (codes "ECU_ADDRESS") (name ∷ description ∷ type ∷ rest);
    })
    else none
find_measurement _ = none

-- `_keyword_value(tokens, "ECU_ADDRESS_EXTENSION") or "0"`
unfoldable pub extension_text : List Text → Text
unfolding keyword_value
extension_text tokens = elim (keyword_value (codes "ECU_ADDRESS_EXTENSION") tokens) [
  | none ↦ codes "0"
  | some [] ↦ codes "0"
  | some (c ∷ t) ↦ c ∷ t
]

-- the scalar of a block that is not left out
unfoldable pub build_scalar : Endian → Kind → Text → DataType → Text → List Text → Result A2lScalar
unfolding extension_text parse_integer check_range
build_scalar order kind name data_type address tokens =
    elim (parse_integer (extension_text tokens)) [
      | err e ↦ err e
      | ok extension ↦
          if ltb 0xFF extension then err extension_range else elim (parse_integer address) [
            | err e ↦ err e
            | ok a ↦ check_range name kind data_type order (pos a) (pos extension)
          ]
    ]

-- a block whose branch has found something, as the scalars that it adds
unfoldable pub add_found : Endian → Kind → List Text → Found → Result (List A2lScalar)
unfolding build_scalar
add_found order kind tokens found = elim found.address [
  | none ↦ ok []
  | some address ↦ elim found.data_type [
    | none ↦ ok []
    | some d ↦ elim (build_scalar order kind found.name d address tokens) [
      | err e ↦ err e
      | ok s ↦ ok (s ∷ [])
    ]
  ]
]

-- the body of `for raw_kind, body in blocks:`
unfoldable pub read_block : Endian → Dict DataType → RawBlock → Result (List A2lScalar)
unfolding find_characteristic find_measurement add_found
read_block order layouts b =
    if text_eq (upper b.kind) (codes "RECORD_LAYOUT")
    then ok []
    else if text_eq (upper b.kind) (codes "CHARACTERISTIC")
    then elim (find_characteristic layouts b.tokens) [
      | none ↦ ok []
      | some x ↦ add_found order characteristic b.tokens x
    ]
    else elim (find_measurement b.tokens) [
      | none ↦ ok []
      | some x ↦ add_found order measurement b.tokens x
    ]

unfoldable pub read_blocks : Endian → Dict DataType → List RawBlock → Result (List A2lScalar)
unfolding read_block
read_blocks order layouts [] = ok []
read_blocks order layouts (b ∷ blocks) =
    let rest = read_blocks order layouts blocks in
    elim (read_block order layouts b) [
      | err e ↦ err e
      | ok here ↦ elim rest [ err e ↦ err e | ok later ↦ ok (here ++ later) ]
    ]

-- A2LDatabase
pub record A2lDatabase : Type 0 where
  pub by_name : Dict A2lScalar
  pub byte_order : Endian
  pub daq_events : List DaqEvent

-- `byte_order`, from the group of _BYTE_ORDER_RE
unfoldable pub byte_order_of : Option Text → Endian
byte_order_of none = little
byte_order_of (some t) = if text_eq (upper t) (codes "MSB_FIRST") then big else little

-- parse_a2l; Python evaluates the events before it builds the database
unfoldable pub parse_a2l : Option Text → List RawBlock → List Token → Result A2lDatabase
unfolding byte_order_of layout_types read_blocks add_scalars
parse_a2l order_match blocks tokens =
    let order : Endian = byte_order_of order_match in
    elim (read_blocks order (layout_types blocks []) blocks) [
      | err e ↦ err e
      | ok scalars ↦ elim (daq_events tokens) [
        | err e ↦ err e
        | ok events ↦ elim (add_scalars scalars []) [
          | err e ↦ err e
          | ok by_name ↦ ok (record { by_name = by_name; byte_order = order; daq_events = events })
        ]
      ]
    ]
