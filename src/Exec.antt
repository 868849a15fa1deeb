-- ===== src/Exec.antt =====
-- Python statements over an object: an action returns a value or raises, and the state comes back
-- in both cases, since what was written before a raise stays written. `Error` has one constructor
-- for each reason for which the modelled code raises, and `foreign` for what a library raises.
use sim_rt.Prelude.{ℕ, ◌≡◌, refl, ◌⊎◌, inl, inr, Bool, true, false, if◌then◌else◌}

pub data Error : Type 0 where
  -- ValueError and TypeError of the settings
  empty_host bad_protocol bad_port bad_timeout bad_bind_port : Error
  -- ValueError of a memory operation
  address_range extension_range address_span negative_size : Error
  -- ValueError of DAQ
  bad_capacity bad_max_samples no_signals event_channel_range no_period no_event no_identifiers
        reserved_identifiers relative_identifiers short_timestamps :
      Error
  -- XcpClientError
  not_connected single_use granularity small_cto short_upload : Error
  wrong_kind equal_bytes unsupported_daq : Error
  -- A2LError
  bad_kind bad_type bad_byte_order bad_length bad_value bad_integer : Error
  -- struct.error of a decoding
  struct_error : Error
  -- A2LError of a database and of a file
  duplicate_scalar unknown_scalar other_kind : Error
  truncated_block mismatched_block unclosed_block : Error
  truncated_event event_range integer_range bad_capability duplicate_event : Error
  -- CalibrationVerificationError and CalibrationRestoreError
  not_verified not_restored : Error
  -- ValueError and RuntimeError of a session
  no_client no_values no_names overlapping : Error
  -- XcpClientError of an acquisition
  already_active dynamic_lists entry_granularity timestamp_format small_dto large_entry : Error
  omitted_signal stop_unconfirmed : Error
  -- RuntimeError and XcpClientError of a connection
  no_catalog mismatched_byte_order : Error
  -- ValueError of a clock synchronization
  bad_password bad_response bad_timezone not_confirmed : Error
  -- raised by pyxcp, the operating system or a callback
  foreign : ℕ → Error

pub data Result {ℓ} (A : Type ℓ) : Type ℓ where
  ok : A → Result A
  err : Error → Result A

abbrev pub Exec : Type 0 → Type 0 → Type 0
Exec S A = S → Result A × S

module _ {S A : Type 0} where
  abbrev pub pure : A → Exec S A
  pure a s = (ok a, s)

  abbrev pub raise : Error → Exec S A
  raise e s = (err e, s)

  abbrev pub gets : (S → A) → Exec S A
  gets f s = (ok (f s), s)

  abbrev pub of_result : Result A → Exec S A
  of_result r s = (r, s)

infixl 5 ◌>>=◌ ◌>>◌
abbrev pub ◌>>=◌ : {S A B : Type 0} → Exec S A → (A → Exec S B) → Exec S B
◌>>=◌ m f s = let (r, s') = m s in elim r [ ok a ↦ f a s' | err e ↦ (err e, s') ]

abbrev pub ◌>>◌ : {S A B : Type 0} → Exec S A → Exec S B → Exec S B
m >> k = m >>= λ _. k

abbrev pub modify : {S : Type 0} → (S → S) → Exec S (Unit {0})
modify f s = (ok tt, f s)

-- `if c: raise e`
abbrev pub raise_if : {S : Type 0} → Bool → Error → Exec S (Unit {0})
raise_if c e s = (if c then err e else ok tt, s)

-- `try: m  except BaseException as e: h e`
abbrev pub catch : {S A : Type 0} → Exec S A → (Error → Exec S A) → Exec S A
catch m h s = let (r, s') = m s in elim r [ ok a ↦ (ok a, s') | err e ↦ h e s' ]

-- `try: m  finally: f`: an error of `f` hides the outcome of `m`.
abbrev pub finally : {S A : Type 0} → Exec S A → Exec S (Unit {0}) → Exec S A
finally m f s =
    let (r, s') = m s in let (q, t) = f s' in elim q [ ok _ ↦ (r, t) | err e ↦ (err e, t) ]

pub Result-cases {ℓ} :
    {A : Type ℓ} (r : Result A) → ((a : A) × (r ≡ ok a)) ⊎ ((e : Error) × (r ≡ err e))
Result-cases (ok a) = inl (a, refl)
Result-cases (err e) = inr (e, refl)

pub ok-ok : {A : Type 0} {a b : A} → ok a ≡ ok b → a ≡ b
ok-ok h = cc

-- Inversion of a block that has returned, and of a test that has passed.
abbrev after : {S A B : Type 0} → Result A → (A → Exec S B) → S → Result B × S
after r f s = elim r [ ok a ↦ f a s | err e ↦ (err e, s) ]

after-ok :
    {S A B : Type 0} (r : Result A) (f : A → Exec S B) (s : S) {b : B}
    → (after r f s).0 ≡ ok b
    → (a : A) × (r ≡ ok a) × ((f a s).0 ≡ ok b) × ((after r f s).1 ≡ (f a s).1)
after-ok (ok a) f s h = (a, refl, h, refl)
after-ok (err e) f s h = cc

pub >>=-ok :
    {S A B : Type 0} (m : Exec S A) (f : A → Exec S B) (s : S) {b : B}
    → ((m >>= f) s).0 ≡ ok b
    → (a : A) × ((m s).0 ≡ ok a) × ((f a (m s).1).0 ≡ ok b) × (((m >>= f) s).1 ≡ (f a (m s).1).1)
>>=-ok m f s h = let (r, s') = m s in after-ok r f s' h

pub raise_if-ok :
    {S : Type 0} (c : Bool) (e : Error) (s : S) → (raise_if c e s).0 ≡ ok tt → c ≡ false
raise_if-ok true e s h = cc
raise_if-ok false e s h = refl

-- A block after an action, whatever the action's outcome.
abbrev pub next : {S A B : Type 0} → (A → Exec S B) → Result A × S → Result B × S
next f (ok x, s) = f x s
next f (err e, s) = (err e, s)

pub bind-next :
    {S A B : Type 0} (f : A → Exec S B) (t : Result A × S)
    → (elim t.0 as (λ _. Result B × S) [ ok x ↦ f x t.1 | err e ↦ (err e, t.1) ]) ≡ next f t
bind-next f (ok x, s) = refl
bind-next f (err e, s) = refl

-- A property of the state that an action keeps, whether it returns or raises.
pub record Keeps {S A : Type 0} (P : S → Type 0) (m : Exec S A) : Type 0 where
  pub at : (s : S) → P s → P (m s).1

module _ {S A B : Type 0} {P : S → Type 0} where
  after-Keeps :
      (r : Result A) (f : A → Exec S B) (s : S)
      → P s
      → ((a : A) → Keeps P (f a))
      → P (after r f s).1
  after-Keeps (ok a) f s h kf = (kf a).at s h
  after-Keeps (err e) f s h kf = h

  pub >>=-Keeps :
      (m : Exec S A) (f : A → Exec S B) → Keeps P m → ((a : A) → Keeps P (f a)) → Keeps P (m >>= f)
  >>=-Keeps m f km kf = record {
    at = λ s h. let (r, s') = m s in after-Keeps r f s' (km.at s h) kf;
  }

ended :
    {S A : Type 0} (P : S → Type 0) (r : Result A) (q : Result (Unit {0})) (s : S)
    → P s
    → P (elim q as (λ _. Result A × S) [ ok _ ↦ (r, s) | err e ↦ (err e, s) ]).1
ended P r (ok _) s p = p
ended P r (err e) s p = p

module _ {S A : Type 0} {P : S → Type 0} where
  handled :
      (r : Result A) (h : Error → Exec S A) (s : S)
      → P s
      → ((e : Error) → Keeps P (h e))
      → P (elim r as (λ _. Result A × S) [ ok a ↦ (ok a, s) | err e ↦ h e s ]).1
  handled (ok a) h s p kh = p
  handled (err e) h s p kh = (kh e).at s p

  -- an action that leaves the state alone
  pub Keeps-same : (m : Exec S A) → ((s : S) → (m s).1 ≡ s) → Keeps P m
  Keeps-same m same = record { at = λ s h. rw same h }

  pub Keeps-if : (b : Bool) (m n : Exec S A) → Keeps P m → Keeps P n → Keeps P (if b then m else n)
  Keeps-if true m n km kn = km
  Keeps-if false m n km kn = kn

  -- a `try` with a handler that keeps the property
  pub catch-Keeps :
      (m : Exec S A) (h : Error → Exec S A)
      → Keeps P m
      → ((e : Error) → Keeps P (h e))
      → Keeps P (catch m h)
  catch-Keeps m h km kh = record { at = λ s p. let (r, s') = m s in handled r h s' (km.at s p) kh }

  pub finally-Keeps :
      (m : Exec S A) (f : Exec S (Unit {0})) → Keeps P m → Keeps P f → Keeps P (finally m f)
  finally-Keeps m f km kf = record {
    at = λ s p. let (r, s') = m s in let (q, t) = f s' in ended P r q t (kf.at s' (km.at s p));
  }
