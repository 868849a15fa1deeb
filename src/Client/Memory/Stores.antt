-- ===== src/Client/Memory/Stores.antt =====
-- The bytes of a slave's address spaces, and writes of lists of bytes.
use sim_rt.Prelude.{
  ℕ, zero, suc, ◌+◌, ◌-◌, ◌≤◌, ◌<◌, ◌≡◌, refl, ap, fun_ext, ap₂, ◌≢◌, ◌⊎◌, inl, inr, Bool-cases,
  List, false, [], ◌∷◌, ◌++◌, arith, ltb, ◌==◌, if◌then◌else◌, length,
}

-- A byte for each address extension and address.
abbrev pub Bytes : Type 0
Bytes = ℕ → ℕ → ℕ

-- The `n` bytes from an address on.
abbrev pub bytes_at : (ℕ → ℕ) → ℕ → ℕ → List ℕ
bytes_at f a zero = []
bytes_at f a (suc n) = f a ∷ bytes_at f (a + 1) n

abbrev pub byte_or : List ℕ → ℕ → ℕ → ℕ
byte_or [] i d = d
byte_or (x ∷ xs) zero d = x
byte_or (x ∷ xs) (suc i) d = byte_or xs i d

-- The bytes after a write of a list at an address.
unfoldable pub store : (ℕ → ℕ) → ℕ → List ℕ → ℕ → ℕ
store f a bs x = if ltb x a then f x else byte_or bs (x - a) (f x)

unfoldable pub store_at : Bytes → ℕ → ℕ → List ℕ → Bytes
store_at mem e a bs e' = if e' == e then store (mem e) a bs else mem e'

pub length-bytes_at : (f : ℕ → ℕ) (a n : ℕ) → length (bytes_at f a n) ≡ n
length-bytes_at f a zero = refl
length-bytes_at f a (suc n) = ap suc (length-bytes_at f (a + 1) n)

pub bytes_at-append :
    (f : ℕ → ℕ) (a k n : ℕ) → bytes_at f a k ++ bytes_at f (a + k) n ≡ bytes_at f a (k + n)
bytes_at-append f a zero n =
    let e : a + 0 ≡ a = omega arith in let e' : 0 + n ≡ n = omega arith in rw (e, e')
bytes_at-append f a (suc k) n =
    let e : suc k + n ≡ suc (k + n) = omega arith in
    let e' : a + suc k ≡ a + 1 + k = omega arith in
    rw (e, e') (ap (λ l. f a ∷ l) (bytes_at-append f (a + 1) k n))

byte_or-append :
    (xs ys : List ℕ) (i d : ℕ)
    → byte_or (xs ++ ys) i d
      ≡ (if ltb i (length xs) then byte_or xs i d else byte_or ys (i - length xs) d)
byte_or-append [] ys i d = let e : i - 0 ≡ i = omega arith in rw e (ground arith)
byte_or-append (x ∷ xs) ys zero d = ground arith
byte_or-append (x ∷ xs) ys (suc i) d = ground (arith, byte_or-append xs ys i d)

byte_or-ltb : (bs : List ℕ) (i d d' : ℕ) → i < length bs → byte_or bs i d ≡ byte_or bs i d'
byte_or-ltb [] i d d' h = elim h [ ]
byte_or-ltb (b ∷ bs) zero d d' h = refl
byte_or-ltb (b ∷ bs) (suc i) d d' h = byte_or-ltb bs i d d' (omega arith)

byte_or-outside : (bs : List ℕ) (i d : ℕ) → length bs ≤ i → byte_or bs i d ≡ d
byte_or-outside [] i d h = refl
byte_or-outside (b ∷ bs) zero d h = elim h [ ]
byte_or-outside (b ∷ bs) (suc i) d h = byte_or-outside bs i d (omega arith)

byte_or-bytes_at :
    (f : ℕ → ℕ) (a n i d : ℕ) → byte_or (bytes_at f a n) i d ≡ (if ltb i n then f (a + i) else d)
byte_or-bytes_at f a zero i d = ground arith
byte_or-bytes_at f a (suc n) zero d = let e : a + 0 ≡ a = omega arith in rw e (ground arith)
byte_or-bytes_at f a (suc n) (suc i) d =
    let e : a + suc i ≡ a + 1 + i = omega arith in
    rw e (ground (arith, byte_or-bytes_at f (a + 1) n i d))

-- Two writes that follow one another are one write.
pub store-append :
    (f : ℕ → ℕ) (a : ℕ) (xs ys : List ℕ)
    → store (store f a xs) (a + length xs) ys ≡ store f a (xs ++ ys)
unfolding store
store-append f a xs ys = fun_ext λ x. ground (
  arith,
  byte_or-append xs ys (x - a) (f x),
  byte_or-outside xs (x - a) (f x),
  byte_or-outside ys (x - a - length xs) (f x),
)

-- A write of the bytes that were there undoes a write of as many bytes.
pub store-restore :
    (f : ℕ → ℕ) (a : ℕ) (bs : List ℕ) → store (store f a bs) a (bytes_at f a (length bs)) ≡ f
unfolding store
store-restore f a bs = fun_ext λ x.
    let e : a ≤ x → a + (x - a) ≡ x = omega arith in
    let d : ℕ = if ltb x a then f x else byte_or bs (x - a) (f x) in
    elim (Bool-cases (ltb x a)) [
      | inl before ↦ rw before
      | inr after ↦ ground (
        arith,
        after,
        byte_or-bytes_at f a (length bs) (x - a) d,
        byte_or-outside bs (x - a) (f x),
        ap f (e (ground arith)),
      )
    ]

bytes_at-eq :
    (g : ℕ → ℕ) (a : ℕ) (bs : List ℕ)
    → ((i : ℕ) → i < length bs → g (a + i) ≡ byte_or bs i 0)
    → bytes_at g a (length bs) ≡ bs
bytes_at-eq g a [] h = refl
bytes_at-eq g a (b ∷ bs) h =
    let first : g a ≡ b = let e : a + 0 ≡ a = omega arith in rw e at (h 0 (omega arith)) in
    let rest : bytes_at g (a + 1) (length bs) ≡ bs =
      bytes_at-eq g (a + 1) bs
        λ i p. let e : a + suc i ≡ a + 1 + i = omega arith in rw e at (h (suc i) (omega arith)) in
    cc

-- What was written is what is read.
pub bytes_at-store : (f : ℕ → ℕ) (a : ℕ) (bs : List ℕ) → bytes_at (store f a bs) a (length bs) ≡ bs
unfolding store
bytes_at-store f a bs = bytes_at-eq (store f a bs) a bs λ i p.
    let e : a + i - a ≡ i = omega arith in rw e (ground (arith, byte_or-ltb bs i (f (a + i)) 0))

-- Spans agree exactly if they agree byte by byte.
pub bytes_at-ext :
    (f g : ℕ → ℕ) (a n : ℕ)
    → ((x : ℕ) → a ≤ x → x < a + n → f x ≡ g x)
    → bytes_at f a n ≡ bytes_at g a n
bytes_at-ext f g a zero h = refl
bytes_at-ext f g a (suc n) h =
    ap₂ (λ b bs. b ∷ bs) (h a (omega arith) (omega arith))
      (bytes_at-ext f g (a + 1) n λ x low high. h x (omega arith) (omega arith))

pub bytes_at-agree :
    (f g : ℕ → ℕ) (a n x : ℕ) → bytes_at f a n ≡ bytes_at g a n → a ≤ x → x < a + n → f x ≡ g x
bytes_at-agree f g a zero x h low high = ground arith
bytes_at-agree f g a (suc n) x h low high =
    let first : f a ≡ g a = cc in
    let rest : bytes_at f (a + 1) n ≡ bytes_at g (a + 1) n = cc in
    elim (Bool-cases (x == a)) [
      | inl here ↦ let e : x ≡ a = ground arith in rw e first
      | inr later ↦ bytes_at-agree f g (a + 1) n x rest (ground arith) (omega arith)
    ]

-- A write elsewhere leaves a span alone.
pub bytes_at-store_disjoint :
    (f : ℕ → ℕ) (a n b : ℕ) (bs : List ℕ)
    → (a + n ≤ b) ⊎ (b + length bs ≤ a)
    → bytes_at (store f b bs) a n ≡ bytes_at f a n
unfolding store
bytes_at-store_disjoint f a zero b bs h = refl
bytes_at-store_disjoint f a (suc n) b bs h =
    let rest : bytes_at (store f b bs) (a + 1) n ≡ bytes_at f (a + 1) n =
      bytes_at-store_disjoint f (a + 1) n b bs (omega arith) in
    let first : store f b bs a ≡ f a = ground (arith, byte_or-outside bs (a - b) (f a)) in
    ap₂ (λ x l. x ∷ l) first rest

pub store_at-append :
    (mem : Bytes) (e a : ℕ) (xs ys : List ℕ)
    → store_at (store_at mem e a xs) e (a + length xs) ys ≡ store_at mem e a (xs ++ ys)
unfolding store_at
store_at-append mem e a xs ys = fun_ext λ e'. ground (arith, store-append (mem e) a xs ys)

pub store_at_self :
    (mem : Bytes) (e a : ℕ) (bs : List ℕ) → store_at mem e a bs e ≡ store (mem e) a bs
unfolding store_at
store_at_self mem e a bs = ground arith

pub store_at-restore :
    (mem : Bytes) (e a : ℕ) (bs : List ℕ)
    → store_at (store_at mem e a bs) e a (bytes_at (mem e) a (length bs)) ≡ mem
unfolding store_at
store_at-restore mem e a bs = fun_ext λ e'. ground (arith, store-restore (mem e) a bs)

pub store_at-nil : (mem : Bytes) (e a : ℕ) → store_at mem e a [] ≡ mem
unfolding store_at store
store_at-nil mem e a = fun_ext λ e'. fun_ext λ x. ground arith

pub store_at_outside :
    (mem : Bytes) (e a : ℕ) (bs : List ℕ) (e' x : ℕ)
    → (e' ≢ e) ⊎ (x < a) ⊎ (a + length bs ≤ x)
    → store_at mem e a bs e' x ≡ mem e' x
unfolding store_at store
store_at_outside mem e a bs e' x (inl other) = let b : (e' == e) ≡ false = ground arith in rw b refl
store_at_outside mem e a bs e' x (inr (inl below)) = ground arith
store_at_outside mem e a bs e' x (inr (inr past)) =
    ground (arith, byte_or-outside bs (x - a) (mem e' x))
