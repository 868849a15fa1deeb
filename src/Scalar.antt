-- ===== src/Scalar.antt =====
-- A2LScalar of `shared/python/simrt_xcp/a2l.py`: the storage types, the validation of a scalar, and
-- the conversion of values to bytes and back. Integers are packed here; the packing of floats and
-- the other float operations of Python are the parameter `Floats`.
pub mod Words
pub mod Float64
pub mod Literals
pub mod Codec
pub mod Database
use sim_rt.Prelude.{
  ℕ, zero, suc, ◌+◌, ◌-◌, Bool, true, false, not, ◌&&◌, ◌||◌, Option, none, some, List, [], ◌∷◌,
  ltb, leb, ◌==◌, if◌then◌else◌, length, Text, codes, text_eq, upper,
}
use sim_rt.Prelude.Int.{ℤ, pos, negsuc, pos_part, ltb_ℤ, leb_ℤ}
use sim_rt.Exec.{
  Result, ok, err, Error, address_range, extension_range, bad_kind, bad_type, bad_byte_order,
  bad_length, bad_value, struct_error,
}
use sim_rt.Transport.{in_range}
use Words.{Endian, little, big, pack_int, unpack_int}
use Float64.{Floats}
use Literals.{int_literal}

-- the keys of _TYPE_FORMATS
pub data DataType : Type 0 where
  sbyte ubyte sword uword slong ulong a_int64 a_uint64 float32_ieee float64_ieee : DataType

pub data Kind : Type 0 where
  characteristic measurement : Kind

unfoldable pub type_of_name : Text → Option DataType
type_of_name name =
    if text_eq name (codes "SBYTE")
    then some sbyte
    else if text_eq name (codes "UBYTE")
    then some ubyte
    else if text_eq name (codes "SWORD")
    then some sword
    else if text_eq name (codes "UWORD")
    then some uword
    else if text_eq name (codes "SLONG")
    then some slong
    else if text_eq name (codes "ULONG")
    then some ulong
    else if text_eq name (codes "A_INT64")
    then some a_int64
    else if text_eq name (codes "A_UINT64")
    then some a_uint64
    else if text_eq name (codes "FLOAT32_IEEE")
    then some float32_ieee
    else if text_eq name (codes "FLOAT64_IEEE")
    then some float64_ieee
    else none

unfoldable pub kind_of_name : Text → Option Kind
kind_of_name name =
    if text_eq name (codes "CHARACTERISTIC")
    then some characteristic
    else if text_eq name (codes "MEASUREMENT")
    then some measurement
    else none

unfoldable pub endian_of_name : Text → Option Endian
endian_of_name name =
    if text_eq name (codes "little")
    then some little
    else if text_eq name (codes "big")
    then some big
    else none

-- the size of _TYPE_FORMATS
unfoldable pub type_size : DataType → ℕ
type_size sbyte = 1
type_size ubyte = 1
type_size sword = 2
type_size uword = 2
type_size slong = 4
type_size ulong = 4
type_size a_int64 = 8
type_size a_uint64 = 8
type_size float32_ieee = 4
type_size float64_ieee = 8

-- A2LScalar.is_float
unfoldable pub type_is_float : DataType → Bool
type_is_float float32_ieee = true
type_is_float float64_ieee = true
type_is_float _ = false

-- the format characters of `struct` in _TYPE_FORMATS: lower case stands for a signed integer, and
-- `single` and `double` for "f" and "d"
pub data Format : Type 0 where
  signed_8 unsigned_8 signed_16 unsigned_16 signed_32 unsigned_32 : Format
  signed_64 unsigned_64 single double : Format

-- A2LScalar.struct_format, without the sign of the byte order
abbrev pub struct_format : DataType → Format
struct_format sbyte = signed_8
struct_format ubyte = unsigned_8
struct_format sword = signed_16
struct_format uword = unsigned_16
struct_format slong = signed_32
struct_format ulong = unsigned_32
struct_format a_int64 = signed_64
struct_format a_uint64 = unsigned_64
struct_format float32_ieee = single
struct_format float64_ieee = double

-- the bytes that `struct` packs a format into, with "<" and ">"
abbrev pub format_size : Format → ℕ
format_size signed_8 = 1
format_size unsigned_8 = 1
format_size signed_16 = 2
format_size unsigned_16 = 2
format_size signed_32 = 4
format_size unsigned_32 = 4
format_size signed_64 = 8
format_size unsigned_64 = 8
format_size single = 4
format_size double = 8

abbrev pub format_is_signed : Format → Bool
format_is_signed signed_8 = true
format_is_signed signed_16 = true
format_is_signed signed_32 = true
format_is_signed signed_64 = true
format_is_signed _ = false

pub record A2lScalar : Type 0 where
  pub name : Text
  pub kind : Kind
  pub address : ℕ
  pub data_type : DataType
  pub byte_order : Endian
  pub address_extension : ℕ

-- the range tests, the last of A2LScalar.__post_init__
unfoldable pub check_range : Text → Kind → DataType → Endian → ℤ → ℤ → Result A2lScalar
unfolding in_range
check_range name kind data_type order address extension =
    if not (in_range (pos 0) (pos 0xFFFFFFFF) address)
    then err address_range
    else if not (in_range (pos 0) (pos 0xFF) extension)
    then err extension_range
    else ok (record {
      name = name;
      kind = kind;
      address = pos_part address;
      data_type = data_type;
      byte_order = order;
      address_extension = pos_part extension;
    })

-- A2LScalar(...): the constructor with __post_init__, on the arguments as they are given
unfoldable pub make_scalar : Text → Text → ℤ → Text → Text → ℤ → Result A2lScalar
unfolding kind_of_name type_of_name endian_of_name check_range
make_scalar name kind address data_type order extension = elim (kind_of_name (upper kind)) [
  | none ↦ err bad_kind
  | some k ↦ elim (type_of_name (upper data_type)) [
    | none ↦ err bad_type
    | some t ↦ elim (endian_of_name order) [
      | none ↦ err bad_byte_order
      | some o ↦ check_range name k t o address extension
    ]
  ]
]

-- A2LScalar.size
unfoldable pub size : A2lScalar → ℕ
size s = type_size s.data_type

-- Union[int, float], and Union[str, int, float]
pub data Number (f : Floats) : Type 0 where
  integer : ℤ → Number f
  float : f.Float → Number f

pub data Value (f : Floats) : Type 0 where
  text : Text → Value f
  number : Number f → Value f

module _ (f : Floats) where
  -- A2LScalar.decode; struct.unpack refuses bytes that are not as many as its format has
  unfoldable pub decode : A2lScalar → List ℕ → Result (Number f)
  decode s payload =
      let format = struct_format s.data_type in
      if not (length payload == size s)
      then err bad_length
      else if not (length payload == format_size format)
      then err struct_error
      else if type_is_float s.data_type
      then ok (float (f.unpack s.byte_order (format_size format) payload))
      else ok
          (integer (unpack_int s.byte_order (format_is_signed format) (format_size format) payload))

  -- float(value)
  unfoldable pub to_float : Value f → Option f.Float
  to_float (text t) = f.of_text t
  to_float (number (integer i)) = f.of_int i
  to_float (number (float x)) = some x

  -- int(value, 0) of a text; int(value) of a number, which must be integral
  unfoldable pub to_integer : Value f → Option ℤ
  unfolding int_literal
  to_integer (text t) = int_literal t
  to_integer (number (integer i)) = some i
  to_integer (number (float x)) = elim (f.to_int x) [
    | none ↦ none
    | some i ↦ if f.differs i x then none else some i
  ]

  -- the `try` of `encode`; none is any of the exceptions that it catches
  unfoldable pub encode_float : A2lScalar → Value f → Option (List ℕ)
  encode_float s v = elim (to_float v) [
    | none ↦ none
    | some x ↦
        if f.is_finite x
        then f.pack s.byte_order (format_size (struct_format s.data_type)) x
        else none
  ]

  unfoldable pub encode_integer : A2lScalar → Value f → Option (List ℕ)
  encode_integer s v = elim (to_integer v) [
    | none ↦ none
    | some i ↦
        let format = struct_format s.data_type in
        pack_int s.byte_order (format_is_signed format) (format_size format) i
  ]

  -- A2LScalar.encode
  unfoldable pub encode : A2lScalar → Value f → Result (List ℕ)
  unfolding encode_float encode_integer
  encode s v = elim (if type_is_float s.data_type then encode_float s v else encode_integer s v) [
    | none ↦ err bad_value
    | some bs ↦ ok bs
  ]
