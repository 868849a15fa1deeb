-- ===== src/Scalar/Words.antt =====
-- `struct.pack` and `struct.unpack` of one integer: two's complement in a number of bytes, in
-- either order.
use sim_rt.Prelude.{
  ℕ, zero, suc, ◌+◌, ◌-◌, ◌*◌, ◌/◌, ◌%◌, ◌^◌, Bool, true, false, Option, none, some, List, [], ◌∷◌,
  ltb, if◌then◌else◌,
}
use mathlib.Core.List.{reverse}
use sim_rt.Prelude.Int.{ℤ, pos, negsuc}

pub data Endian : Type 0 where
  little big : Endian

unfoldable pub little_bytes : ℕ → ℕ → List ℕ
little_bytes zero w = []
little_bytes (suc n) w = (w % 256) ∷ little_bytes n (w / 256)

unfoldable pub little_value : List ℕ → ℕ
little_value [] = 0
little_value (b ∷ bs) = b + 256 * little_value bs

unfoldable pub ordered : Endian → List ℕ → List ℕ
ordered little bs = bs
ordered big bs = reverse bs

-- the word that stands for an integer, if the integer is in range
unfoldable pub word_of : Bool → ℕ → ℤ → Option ℕ
word_of false n (pos k) = if ltb k (256 ^ n) then some k else none
word_of false n (negsuc k) = none
word_of true n (pos k) = if ltb k (256 ^ n / 2) then some k else none
word_of true n (negsuc k) = if ltb k (256 ^ n / 2) then some (256 ^ n - 1 - k) else none

unfoldable pub int_of_word : Bool → ℕ → ℕ → ℤ
int_of_word false n w = pos w
int_of_word true n w = if ltb w (256 ^ n / 2) then pos w else negsuc (256 ^ n - 1 - w)

unfoldable pub pack_int : Endian → Bool → ℕ → ℤ → Option (List ℕ)
unfolding word_of ordered little_bytes
pack_int order signed n i = elim (word_of signed n i) [
  | none ↦ none
  | some w ↦ some (ordered order (little_bytes n w))
]

unfoldable pub unpack_int : Endian → Bool → ℕ → List ℕ → ℤ
unfolding int_of_word ordered little_value
unpack_int order signed n bs = int_of_word signed n (little_value (ordered order bs))
