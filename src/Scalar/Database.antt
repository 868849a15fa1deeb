-- ===== src/Scalar/Database.antt =====
-- A2LDatabase of `shared/python/simrt_xcp/a2l.py`: the scalars by their names.
use sim_rt.Prelude.{Bool, true, false, none, some, List, [], ◌∷◌, if◌then◌else◌, Text}
use sim_rt.Prelude.Dict.{Dict, lookup, contains, insert}
use sim_rt.Exec.{Result, ok, err, duplicate_scalar, unknown_scalar, other_kind}
use sim_rt.Scalar.{A2lScalar, Kind, characteristic, measurement}

-- A2LDatabase.__init__, from the scalars that are in already
unfoldable pub add_scalars : List A2lScalar → Dict A2lScalar → Result (Dict A2lScalar)
unfolding contains insert
add_scalars [] by_name = ok by_name
add_scalars (s ∷ scalars) by_name =
    if contains s.name by_name
    then err duplicate_scalar
    else add_scalars scalars (insert s.name s by_name)

unfoldable pub same_kind : Kind → Kind → Bool
same_kind characteristic characteristic = true
same_kind measurement measurement = true
same_kind _ _ = false

-- A2LDatabase.scalars
unfoldable pub scalars : Dict A2lScalar → List A2lScalar
scalars [] = []
scalars ((_, s) ∷ by_name) = s ∷ scalars by_name

unfoldable pub of_kind : Kind → List A2lScalar → List A2lScalar
unfolding same_kind
of_kind kind [] = []
of_kind kind (s ∷ rest) =
    let others = of_kind kind rest in if same_kind s.kind kind then s ∷ others else others

-- A2LDatabase.characteristics
unfoldable pub characteristics : Dict A2lScalar → List A2lScalar
unfolding scalars of_kind
characteristics by_name = of_kind characteristic (scalars by_name)

-- A2LDatabase.measurements
unfoldable pub measurements : Dict A2lScalar → List A2lScalar
unfolding scalars of_kind
measurements by_name = of_kind measurement (scalars by_name)

-- A2LDatabase.get with a kind
unfoldable pub get_scalar : Dict A2lScalar → Text → Kind → Result A2lScalar
unfolding lookup same_kind
get_scalar by_name name kind = elim (lookup name by_name) [
  | none ↦ err unknown_scalar
  | some s ↦ if same_kind s.kind kind then ok s else err other_kind
]
