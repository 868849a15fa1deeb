-- ===== src/Session/Spans.antt =====
-- The spans of scalars that XcpSession of `shared/python/pyxcp_host/services/xcp_session.py` keeps
-- clear of each other.
use sim_rt.Prelude.{
  ℕ, ◌+◌, ◌≤◌, ◌<◌, ◌≡◌, ◌≢◌, subst, ◌⊎◌, inl, inr, false, some, [], ◌∷◌, arith, ltb, ◌==◌, Text,
  text_eq, text_eq_iff, Bool-cases,
}
use sim_rt.Prelude.Dict.{Dict, lookup, insert, lookup-insert}
use sim_rt.Scalar.{A2lScalar, size}
use sim_rt.Client.Containment.{Outside}
use sim_rt.Session.{Span, span_of, overlaps, clashes}

-- The byte at `x` of the extension `e` is one of the scalar's.
pub record IsWithin (s : A2lScalar) (e x : ℕ) : Type 0 where
  pub extension : e ≡ s.address_extension
  pub low : s.address ≤ x
  pub high : x < s.address + size s

pub scalar_split :
    (s : A2lScalar) (e x : ℕ) → IsWithin s e x ⊎ Outside s.address_extension s.address (size s) e x
scalar_split s e x = elim (Bool-cases (e == s.address_extension)) [
  | inr other ↦ inr (inl (ground (arith, other)))
  | inl same ↦ elim (Bool-cases (ltb x s.address)) [
    | inl below ↦ let p : x < s.address = ground arith in inr (inr (inl p))
    | inr above ↦ elim (Bool-cases (ltb x (s.address + size s))) [
      | inl inside ↦
          inl (record { extension = ground arith; low = ground arith; high = ground arith })
      | inr past ↦ let p : s.address + size s ≤ x = ground arith in inr (inr (inr p))
    ]
  ]
]

pub inside_excluded :
    (s : A2lScalar) (e x : ℕ)
    → IsWithin s e x
    → ¬ Outside s.address_extension s.address (size s) e x
inside_excluded s e x h (inl other) = other h.extension
inside_excluded s e x h (inr (inl below)) = let low = h.low in omega arith
inside_excluded s e x h (inr (inr past)) = let high = h.high in omega arith

-- Bytes of two scalars are different where the spans are clear of each other.
pub overlaps-apart :
    (s t : A2lScalar) (e x : ℕ)
    → overlaps (span_of s) (span_of t) ≡ false
    → IsWithin s e x
    → ¬ IsWithin t e x
unfolding overlaps span_of
overlaps-apart s t e x clear h k =
    let left = h.extension in
    let right = k.extension in
    let left_low = h.low in
    let right_low = k.low in let left_high = h.high in let right_high = k.high in ground arith

-- An entry that clashes with no span overlaps none of another name.
pub clashes-clear :
    (name other : Text) (p q : Span) (spans : Dict Span)
    → clashes name p spans ≡ false
    → lookup other spans ≡ some q
    → other ≢ name
    → overlaps p q ≡ false
unfolding clashes lookup
clashes-clear name other p q [] clear known ne = ground arith
clashes-clear name other p q ((j, r) ∷ spans) clear known ne =
    ground (arith, text_eq_iff j other, text_eq_iff j name, clashes-clear name other p q spans)

-- A key that is inserted with the value that it has changes nothing that is found.
pub already :
    (name n : Text) (p q : Span) (spans : Dict Span)
    → lookup name spans ≡ some p
    → lookup n spans ≡ some q
    → lookup n (insert name p spans) ≡ some q
already name n p q spans mine found = elim (Bool-cases (text_eq name n)) [
  | inl same ↦
      let e : name ≡ n = (text_eq_iff name n).0 same in
      let both : lookup n spans ≡ some p = subst (λ k. lookup k spans ≡ some p) e mine in
      ground (arith, lookup-insert name n p spans)
  | inr differs ↦ ground (arith, lookup-insert name n p spans)
]

pub insert_among :
    (name n : Text) (p q : Span) (spans checked : Dict Span)
    → ((q : Span) → lookup n spans ≡ some q → lookup n checked ≡ some q)
    → lookup n (insert name p spans) ≡ some q
    → lookup n (insert name p checked) ≡ some q
insert_among name n p q spans checked among found = elim (Bool-cases (text_eq name n)) [
  | inl same ↦ ground (arith, lookup-insert name n p spans, lookup-insert name n p checked)
  | inr differs ↦
      let there : lookup n spans ≡ some q = ground (arith, lookup-insert name n p spans) in
      ground (arith, lookup-insert name n p checked, among q there)
]
