-- ===== src/Scalar/Codec.antt =====
-- Values and bytes of `shared/python/simrt_xcp/a2l.py`: packing and unpacking are inverse.
use mathlib.Core.List.{reverse, reverse-reverse, reverse-cons}
use native.Mathlib.Nat.{pow-suc}
use sim_rt.Prelude.{
  ℕ, zero, suc, ◌+◌, ◌*◌, ◌/◌, ◌%◌, ◌^◌, ◌≤◌, ◌<◌, ◌≡◌, refl, sym, ap, ◌∙◌, Bool-cases, Bool, true,
  false, some, List, [], ◌∷◌, ◌++◌, arith, length, length-append, Option-cases, inl, inr,
}
use sim_rt.Prelude.Int.{ℤ, pos, negsuc}
use sim_rt.Exec.{ok}
use sim_rt.Scalar.Words.{
  Endian, little, big, little_bytes, little_value, ordered, word_of, int_of_word, pack_int,
  unpack_int,
}
use sim_rt.Scalar.Float64.{Floats}
use sim_rt.Scalar.{
  A2lScalar, DataType, size, type_size, type_is_float, Format, struct_format, format_size,
  format_is_signed, Number, integer, float, Value, number, encode, decode, encode_integer,
  encode_float, to_integer, to_float,
}

-- Every number of the list is a byte.
abbrev pub AreBytes : List ℕ → Type 0
AreBytes [] = Unit
AreBytes (b ∷ bs) = (b < 256) × AreBytes bs

length-little_bytes : (n w : ℕ) → length (little_bytes n w) ≡ n
unfolding little_bytes
length-little_bytes zero w = refl
length-little_bytes (suc n) w = ap suc (length-little_bytes n (w / 256))

little_bytes-AreBytes : (n w : ℕ) → AreBytes (little_bytes n w)
unfolding little_bytes
little_bytes-AreBytes zero w = tt
little_bytes-AreBytes (suc n) w = (omega arith, little_bytes-AreBytes n (w / 256))

little_value-little_bytes : (n w : ℕ) → w < 256 ^ n → little_value (little_bytes n w) ≡ w
unfolding little_bytes little_value
little_value-little_bytes zero w h = omega arith
little_value-little_bytes (suc n) w h =
    let p : 256 ^ suc n ≡ 256 ^ n * 256 = pow-suc _ _ in
    omega (arith, little_value-little_bytes n (w / 256) (omega arith))

little_bytes-little_value :
    (bs : List ℕ) → AreBytes bs → little_bytes (length bs) (little_value bs) ≡ bs
unfolding little_bytes little_value
little_bytes-little_value [] h = refl
little_bytes-little_value (b ∷ bs) h =
    let low : (b + 256 * little_value bs) % 256 ≡ b = omega arith in
    let high : (b + 256 * little_value bs) / 256 ≡ little_value bs = omega arith in
    rw (low, high) (ap (λ l. b ∷ l) (little_bytes-little_value bs h.1))

little_value-lt : (bs : List ℕ) → AreBytes bs → little_value bs < 256 ^ length bs
unfolding little_value
little_value-lt [] h = omega arith
little_value-lt (b ∷ bs) h =
    let p : 256 ^ suc (length bs) ≡ 256 ^ length bs * 256 = pow-suc _ _ in
    omega (arith, little_value-lt bs h.1)

int_of_word-word_of :
    (signed : Bool) (n : ℕ) (i : ℤ) (w : ℕ)
    → word_of signed n i ≡ some w
    → (int_of_word signed n w ≡ i) × (w < 256 ^ n)
unfolding word_of int_of_word
int_of_word-word_of false n (pos k) w h = ground arith
int_of_word-word_of false n (negsuc k) w h = cc
int_of_word-word_of true n (pos k) w h = ground arith
int_of_word-word_of true n (negsuc k) w h = ground arith

word_of-int_of_word :
    (signed : Bool) (n w : ℕ)
    → 1 ≤ n
    → w < 256 ^ n
    → word_of signed n (int_of_word signed n w) ≡ some w
unfolding word_of int_of_word
word_of-int_of_word false n w p h = ground arith
word_of-int_of_word true zero w p h = elim p [ ]
word_of-int_of_word true (suc n) w p h =
    let even : 256 ^ suc n ≡ 256 ^ n * 256 = pow-suc _ _ in ground arith

length-reverse : (bs : List ℕ) → length (reverse bs) ≡ length bs
length-reverse [] = refl
length-reverse (b ∷ bs) =
    rw (reverse-cons b bs) (omega (arith, length-append (reverse bs) (b ∷ []), length-reverse bs))

length-ordered : (o : Endian) (bs : List ℕ) → length (ordered o bs) ≡ length bs
unfolding ordered
length-ordered little bs = refl
length-ordered big bs = length-reverse bs

ordered-ordered : (o : Endian) (bs : List ℕ) → ordered o (ordered o bs) ≡ bs
unfolding ordered
ordered-ordered little bs = refl
ordered-ordered big bs = reverse-reverse bs

AreBytes-append : (xs ys : List ℕ) → AreBytes xs → AreBytes ys → AreBytes (xs ++ ys)
AreBytes-append [] ys hx hy = hy
AreBytes-append (x ∷ xs) ys hx hy = (hx.0, AreBytes-append xs ys hx.1 hy)

reverse-AreBytes : (bs : List ℕ) → AreBytes bs → AreBytes (reverse bs)
reverse-AreBytes [] h = tt
reverse-AreBytes (b ∷ bs) h =
    rw (reverse-cons b bs)
      (AreBytes-append (reverse bs) (b ∷ []) (reverse-AreBytes bs h.1) (h.0, tt))

ordered-AreBytes : (o : Endian) (bs : List ℕ) → AreBytes bs → AreBytes (ordered o bs)
unfolding ordered
ordered-AreBytes little bs h = h
ordered-AreBytes big bs h = reverse-AreBytes bs h

-- What is packed has the length that is asked for, consists of bytes, and unpacks to the integer.
pub unpack_int-pack_int :
    (o : Endian) (signed : Bool) (n : ℕ) (i : ℤ) (bs : List ℕ)
    → pack_int o signed n i ≡ some bs
    → (length bs ≡ n) × AreBytes bs × (unpack_int o signed n bs ≡ i)
unfolding pack_int unpack_int
unpack_int-pack_int o signed n i bs h = elim (Option-cases (word_of signed n i)) [
  | inl outside ↦ ground arith
  | inr (w, inside) ↦
      let (word, fits) = int_of_word-word_of signed n i w inside in
      let packed : ordered o (little_bytes n w) ≡ bs = ground arith in
      rw (← packed, ordered-ordered, little_value-little_bytes n w fits)
        (
          length-ordered o (little_bytes n w) ∙ length-little_bytes n w,
          ordered-AreBytes o (little_bytes n w) (little_bytes-AreBytes n w),
          word,
        )
]

-- Bytes that are unpacked and packed again are the same bytes.
pub pack_int-unpack_int :
    (o : Endian) (signed : Bool) (bs : List ℕ)
    → 1 ≤ length bs
    → AreBytes bs
    → pack_int o signed (length bs) (unpack_int o signed (length bs) bs) ≡ some bs
unfolding pack_int unpack_int
pack_int-unpack_int o signed bs p h =
    let bytes = ordered-AreBytes o bs h in
    let size : length (ordered o bs) ≡ length bs = length-ordered o bs in
    let w = little_value (ordered o bs) in
    let fits : w < 256 ^ length bs = rw size at (little_value-lt (ordered o bs) bytes) in
    let back : little_bytes (length bs) w ≡ ordered o bs =
      rw size at (little_bytes-little_value (ordered o bs) bytes) in
    rw (word_of-int_of_word signed (length bs) w p fits, pack_int)
      (ap some (ap (ordered o) back ∙ ordered-ordered o bs))

format_size_pos : (g : Format) → 1 ≤ format_size g
format_size_pos g = ground arith

-- The two columns of _TYPE_FORMATS agree.
format_size-struct_format : (t : DataType) → format_size (struct_format t) ≡ type_size t
unfolding type_size
format_size-struct_format t = ground arith

module _ (f : Floats) (s : A2lScalar) where
  abbrev format : Format
  format = struct_format s.data_type

  agrees : format_size format ≡ size s
  unfolding size
  agrees = format_size-struct_format s.data_type

  length-encode_float :
      (v : Value f) (bs : List ℕ) → encode_float f s v ≡ some bs → length bs ≡ format_size format
  unfolding encode_float
  length-encode_float v bs h = elim (Option-cases (to_float f v)) [
    | inl refused ↦ ground arith
    | inr (x, given) ↦ ground (arith, f.length-pack s.byte_order (format_size format) x bs)
  ]

  length-encode_integer :
      (v : Value f) (bs : List ℕ) → encode_integer f s v ≡ some bs → length bs ≡ format_size format
  unfolding encode_integer
  length-encode_integer v bs h = elim (Option-cases (to_integer f v)) [
    | inl refused ↦ ground arith
    | inr (i, given) ↦ ground (
      arith,
      unpack_int-pack_int s.byte_order (format_is_signed format) (format_size format) i bs,
    )
  ]

  pub length-encode : (v : Value f) (bs : List ℕ) → encode f s v ≡ ok bs → length bs ≡ size s
  unfolding encode
  length-encode v bs h =
      ground (arith, agrees, length-encode_float v bs, length-encode_integer v bs)

  -- Bytes of the scalar's size always decode: neither the size test nor struct refuses them.
  decode_ok : (bs : List ℕ) → length bs ≡ size s → (n : Number f) × (decode f s bs ≡ ok n)
  unfolding decode
  decode_ok bs fits = elim (Bool-cases (type_is_float s.data_type)) [
    | inl floating ↦
        (float (f.unpack s.byte_order (format_size format) bs), ground (arith, agrees, fits))
    | inr whole ↦ (
      integer (unpack_int s.byte_order (format_is_signed format) (format_size format) bs),
      ground (arith, agrees, fits),
    )
  ]

  -- A value of any type that is encoded has the size of its type, and its bytes are accepted by
  -- decoding: neither the size test nor struct refuses them.
  pub decode-encode_ok :
      (v : Value f) (bs : List ℕ)
      → encode f s v ≡ ok bs
      → (length bs ≡ size s) × ((n : Number f) × (decode f s bs ≡ ok n))
  decode-encode_ok v bs h = let fits = length-encode v bs h in (fits, decode_ok bs fits)

  -- For a type that is not a float type: a value that is encoded decodes to the integer that it
  -- stands for.
  pub decode-encode_integer :
      (v : Value f) (bs : List ℕ) (i : ℤ)
      → type_is_float s.data_type ≡ false
      → to_integer f v ≡ some i
      → encode f s v ≡ ok bs
      → decode f s bs ≡ ok (integer i)
  unfolding encode decode
  decode-encode_integer v bs i kind known h = ground (
    arith,
    agrees,
    unpack_int-pack_int s.byte_order (format_is_signed format) (format_size format) i bs,
  )

  -- For a type that is not a float type: bytes, as many as the type has, decode to a number that
  -- encodes to the same bytes.
  pub encode-decode_integer :
      (bs : List ℕ)
      → type_is_float s.data_type ≡ false
      → AreBytes bs
      → length bs ≡ size s
      → (n : Number f) × (decode f s bs ≡ ok n) × (encode f s (number n) ≡ ok bs)
  unfolding encode decode to_integer
  encode-decode_integer bs kind bytes fits =
      let i = unpack_int s.byte_order (format_is_signed format) (format_size format) bs in
      let whole : length bs ≡ format_size format = fits ∙ sym agrees in
      let pos : 1 ≤ length bs = omega (arith, format_size_pos format, whole) in
      let back = pack_int-unpack_int s.byte_order (format_is_signed format) bs pos bytes in
      (integer i, ground (arith, fits, whole), ground (arith, rw whole at back))
