-- ===== src/Prelude/Dict.antt =====
-- Python's `dict` with text keys, in insertion order.
use mathlib.Core.Path.{◌≡◌, refl}
use mathlib.Core.Logic.{◌≢◌}
use mathlib.Core.Bool.{Bool, true, false}
use mathlib.Core.Option.{Option, none, some}
use mathlib.Core.List.{List, [], ◌∷◌}
use native.Mathlib.Omega.{arith}
use mathlib.Core.Logic.{inl, inr}
use sim_rt.Prelude.Tests.{if◌then◌else◌, Bool-cases}
use sim_rt.Prelude.Texts.{Text, text_eq, text_eq_iff}

abbrev pub Dict {ℓ} : Type ℓ → Type ℓ
Dict V = List (Text × V)

module _ {ℓ} {V : Type ℓ} where
  -- d.get(k)
  unfoldable pub lookup : Text → Dict V → Option V
  lookup k [] = none
  lookup k ((j, v) ∷ d) = if text_eq j k then some v else lookup k d

  -- k in d
  unfoldable pub contains : Text → Dict V → Bool
  contains k [] = false
  contains k ((j, v) ∷ d) = if text_eq j k then true else contains k d

  -- d[k] = v: a key that is there keeps its place
  unfoldable pub insert : Text → V → Dict V → Dict V
  insert k v [] = (k, v) ∷ []
  insert k v ((j, w) ∷ d) = if text_eq j k then (j, v) ∷ d else (j, w) ∷ insert k v d

  -- d.pop(k, None)
  unfoldable pub erase : Text → Dict V → Dict V
  erase k [] = []
  erase k ((j, v) ∷ d) = if text_eq j k then d else (j, v) ∷ erase k d

  -- list(d)
  unfoldable pub keys : Dict V → List Text
  keys [] = []
  keys ((j, v) ∷ d) = j ∷ keys d

  pub lookup-insert :
      (k j : Text) (v : V) (d : Dict V)
      → lookup j (insert k v d) ≡ (if text_eq k j then some v else lookup j d)
  unfolding lookup insert
  lookup-insert k j v [] = refl
  lookup-insert k j v ((i, w) ∷ d) =
      ground (arith, text_eq_iff k j, text_eq_iff i k, text_eq_iff i j, lookup-insert k j v d)

  -- Every key occurs once.
  abbrev pub IsUnique : Dict V → Type ℓ
  IsUnique [] = Unit
  IsUnique ((j, v) ∷ d) = (lookup j d ≡ none) × IsUnique d

  pub insert-IsUnique : (k : Text) (v : V) (d : Dict V) → IsUnique d → IsUnique (insert k v d)
  unfolding insert lookup
  insert-IsUnique k v [] h = (refl, tt)
  insert-IsUnique k v ((j, w) ∷ d) h = elim (Bool-cases (text_eq j k)) [
    | inl same ↦ rw same h
    | inr other ↦ rw other (
      ground (arith, lookup-insert k j v d, text_eq_iff k j, text_eq_iff j k),
      insert-IsUnique k v d h.1,
    )
  ]

  pub lookup-erase : (k : Text) (d : Dict V) → IsUnique d → lookup k (erase k d) ≡ none
  unfolding lookup erase
  lookup-erase k [] h = refl
  lookup-erase k ((j, w) ∷ d) h = ground (arith, text_eq_iff j k, lookup-erase k d h.1)

  lookup-erase-none : (k j : Text) (d : Dict V) → lookup j d ≡ none → lookup j (erase k d) ≡ none
  unfolding lookup erase
  lookup-erase-none k j [] h = refl
  lookup-erase-none k j ((i, w) ∷ d) h = ground (arith, lookup-erase-none k j d)

  pub erase-IsUnique : (k : Text) (d : Dict V) → IsUnique d → IsUnique (erase k d)
  unfolding erase
  erase-IsUnique k [] h = tt
  erase-IsUnique k ((j, w) ∷ d) h = elim (Bool-cases (text_eq j k)) [
    | inl same ↦ rw same h.1
    | inr other ↦ rw other (lookup-erase-none k j d h.0, erase-IsUnique k d h.1)
  ]

  -- Removing one key leaves the others.
  pub lookup-erase_ne : (k j : Text) (d : Dict V) → k ≢ j → lookup j (erase k d) ≡ lookup j d
  unfolding lookup erase
  lookup-erase_ne k j [] h = refl
  lookup-erase_ne k j ((i, w) ∷ d) h =
      ground (arith, text_eq_iff i k, text_eq_iff i j, lookup-erase_ne k j d h)

  pub contains_found : (n : Text) (v : V) (d : Dict V) → lookup n d ≡ some v → contains n d ≡ true
  unfolding lookup contains
  contains_found n v [] h = ground arith
  contains_found n v ((j, w) ∷ d) h = ground (arith, contains_found n v d)

  pub contains_absent : (n : Text) (d : Dict V) → lookup n d ≡ none → contains n d ≡ false
  unfolding lookup contains
  contains_absent n [] h = refl
  contains_absent n ((j, w) ∷ d) h = ground (arith, contains_absent n d)
