-- ===== src/Scalar/Float64.antt =====
-- Python's floats, which have no counterpart here: their operations are a parameter, and the laws
-- are those of IEEE 754 packing that the program relies on.
use sim_rt.Prelude.{ℕ, ◌≡◌, Bool, Option, some, List, length, Text}
use sim_rt.Prelude.Int.{ℤ}
use sim_rt.Scalar.Words.{Endian}

pub record Floats : Type 1 where
  pub Float : Type 0
  -- float(text) and float(int); none is ValueError or OverflowError
  pub of_text : Text → Option Float
  pub of_int : ℤ → Option Float
  -- math.isfinite(x), int(x), and `i != x` of an int and a float
  pub is_finite : Float → Bool
  pub to_int : Float → Option ℤ
  pub differs : ℤ → Float → Bool
  -- struct.pack and struct.unpack of 4 or 8 bytes; none is OverflowError
  pub pack : Endian → ℕ → Float → Option (List ℕ)
  pub unpack : Endian → ℕ → List ℕ → Float
  pub length-pack :
      (o : Endian) (n : ℕ) (x : Float) (bs : List ℕ) → pack o n x ≡ some bs → length bs ≡ n
