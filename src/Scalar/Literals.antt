-- ===== src/Scalar/Literals.antt =====
-- `int(text, 0)` of Python: a sign, a prefix that names the base, digits with single underscores
-- between them. Digits are those of ASCII.
use sim_rt.Prelude.{
  ℕ, zero, suc, ◌+◌, ◌-◌, ◌*◌, Bool, true, false, not, ◌&&◌, Option, none, some, [], ◌∷◌, ltb, leb,
  ◌==◌, if◌then◌else◌, Text, to_lower, strip, ◌≡◌, refl, codes,
}
use sim_rt.Prelude.Int.{ℤ, pos, negsuc}

unfoldable pub digit_value : ℕ → ℕ
digit_value c =
    let l = to_lower c in
    if leb b'0' l && leb l b'9'
    then l - b'0'
    else if leb b'a' l && leb l b'z'
    then l - b'a' + 10
    else 36

-- The digits of a base with their separators; `separated` says that a digit must follow.
unfoldable pub digits_from : ℕ → Bool → ℕ → Text → Option ℕ
digits_from base separated acc [] = if separated then none else some acc
digits_from base separated acc (c ∷ s) =
    let next = digits_from base true acc s in
    let step = digits_from base false (acc * base + digit_value c) s in
    if c == b'_'
    then if separated then none else next
    else if ltb (digit_value c) base
    then step
    else none

-- after a prefix one underscore may stand
unfoldable pub prefixed : ℕ → Text → Option ℕ
unfolding digits_from digit_value
prefixed base [] = none
prefixed base (c ∷ s) =
    if c == b'_' then digits_from base true 0 s else digits_from base true 0 (c ∷ s)

-- a decimal literal that begins with 0 is zero
unfoldable pub decimal : Text → Option ℕ
unfolding digits_from digit_value
decimal [] = none
decimal (c ∷ s) = elim (digits_from 10 true 0 (c ∷ s)) [
  | none ↦ none
  | some n ↦ if c == b'0' && not (n == 0) then none else some n
]

unfoldable pub magnitude : Text → Option ℕ
unfolding prefixed decimal
magnitude [] = none
magnitude (c ∷ []) = decimal (c ∷ [])
magnitude (c ∷ x ∷ s) =
    let l = to_lower x in
    if not (c == b'0')
    then decimal (c ∷ x ∷ s)
    else if l == b'x'
    then prefixed 16 s
    else if l == b'o'
    then prefixed 8 s
    else if l == b'b'
    then prefixed 2 s
    else decimal (c ∷ x ∷ s)

unfoldable pub negate : ℕ → ℤ
negate zero = pos 0
negate (suc n) = negsuc n

unfoldable pub signed_literal : Text → Option ℤ
unfolding magnitude negate
signed_literal [] = none
signed_literal (c ∷ s) =
    if c == b'-'
    then elim (magnitude s) [ none ↦ none | some n ↦ some (negate n) ]
    else if c == b'+'
    then elim (magnitude s) [ none ↦ none | some n ↦ some (pos n) ]
    else elim (magnitude (c ∷ s)) [ none ↦ none | some n ↦ some (pos n) ]

-- int(text, 0); none is ValueError
unfoldable pub int_literal : Text → Option ℤ
unfolding signed_literal strip
int_literal s = signed_literal (strip s)

literal_hex : int_literal (codes " 0x_fF ") ≡ some (pos 255)
unfolding int_literal
literal_hex = refl

literal_negative : int_literal (codes "-1_000") ≡ some (negsuc 999)
unfolding int_literal
literal_negative = refl

literal_zeros : int_literal (codes "00") ≡ some (pos 0)
unfolding int_literal
literal_zeros = refl

literal_bad : int_literal (codes "010") ≡ none
unfolding int_literal
literal_bad = refl
