-- ===== src/Tests/Scalar.antt =====
-- Scalars of `shared/python/simrt_xcp/a2l.py`: a big-endian signed word.
use sim_rt.Prelude.{ℕ, ◌≡◌, refl, false, some, List, [], ◌∷◌, arith, length, codes}
use sim_rt.Prelude.Int.{negsuc}
use sim_rt.Exec.{ok}
use sim_rt.Scalar.{
  A2lScalar, sword, measurement, number, integer, text, Number, encode, decode, size, type_is_float,
  type_size, to_integer,
}
use sim_rt.Scalar.Words.{big, pack_int}
use sim_rt.Scalar.Literals.{int_literal}
use sim_rt.Scalar.Codec.{decode-encode_ok, decode-encode_integer, encode-decode_integer}
use sim_rt.Tests.Device.{no_floats}

abbrev torque : A2lScalar
torque = record {
  name = codes "torque";
  kind = measurement;
  address = 0x200;
  data_type = sword;
  byte_order = big;
  address_extension = 0;
}

-- "-0x2" is -2
abbrev minus_two : List ℕ
minus_two = 0xFF ∷ 0xFE ∷ []

encoded : encode no_floats torque (text (codes "-0x2")) ≡ ok minus_two
unfolding encode type_is_float to_integer int_literal size type_size pack_int
encoded = refl

whole : type_is_float torque.data_type ≡ false
unfolding type_is_float
whole = refl

read : to_integer no_floats (text (codes "-0x2")) ≡ some (negsuc 1)
unfolding to_integer int_literal
read = refl

decode-encode_ok_example :
    (length minus_two ≡ size torque)
    × ((n : Number no_floats) × (decode no_floats torque minus_two ≡ ok n))
decode-encode_ok_example = decode-encode_ok no_floats torque (text (codes "-0x2")) minus_two encoded

decode-encode_integer_example : decode no_floats torque minus_two ≡ ok (integer (negsuc 1))
decode-encode_integer_example =
    decode-encode_integer no_floats torque (text (codes "-0x2")) minus_two (negsuc 1) whole read
      encoded

abbrev least : List ℕ
least = 0x80 ∷ 0 ∷ []

two : length least ≡ size torque
unfolding size type_size
two = refl

encode-decode_integer_example :
    (n : Number no_floats) × (decode no_floats torque least ≡ ok n)
    × (encode no_floats torque (number n) ≡ ok least)
encode-decode_integer_example =
    encode-decode_integer no_floats torque least whole (omega arith, (omega arith, tt)) two
