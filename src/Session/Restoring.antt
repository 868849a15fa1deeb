-- ===== src/Session/Restoring.antt =====
-- The rounds of `restore_calibrations` of
-- `shared/python/pyxcp_host/services/xcp_session.py` against the memory before the first write.
use sim_rt.Prelude.{
  ℕ, ◌≡◌, ◌≢◌, sym, subst, ap, ◌∙◌, inl, inr, Bool, true, some, List, [], ◌∷◌, arith, length, Text,
  text_eq, text_eq_iff, Bool-cases, Option-cases,
}
use sim_rt.Prelude.Dict.{Dict, lookup, insert, erase}
use sim_rt.Exec.{ok, ok-ok, Result-cases}
use sim_rt.Transport.{PyxcpConfig}
use sim_rt.Transport.Master.{Master}
use sim_rt.Scalar.{A2lScalar, characteristic, size, Number, decode}
use sim_rt.Scalar.Float64.{Floats}
use sim_rt.Scalar.Database.{get_scalar}
use sim_rt.Client.Memory.{Bytes, Truthful, Contained, length-bytes_at}
use sim_rt.Client.Containment.{Outside, write_bytes-contained, mem-read_bytes}
use sim_rt.Client.Characteristic.{read_bytes, write_bytes}
use sim_rt.Client.Characteristic.Verified.{read_bytes-held}
use sim_rt.Session.{Session, restore_one, restore_loop}
use sim_rt.Session.Pending.{
  IsPending, IsRecoverable, step-IsRecoverable, without_original-IsRecoverable,
}
use sim_rt.Session.Spans.{scalar_split}

module _ (m : Master PyxcpConfig) (d : Truthful m) (k : Contained m d) (f : Floats)
    (by_name : Dict A2lScalar) where
  abbrev pub Recoverable : Bytes → Session m → Type 0
  Recoverable before s = IsRecoverable m d by_name before s

  -- What a scalar that is pending does not hold is outside it.
  pub free-Outside :
      (s : Session m) (name : Text) (scalar : A2lScalar) (original : List ℕ) (e x : ℕ)
      → lookup name s.originals ≡ some original
      → get_scalar by_name name characteristic ≡ ok scalar
      → ¬ IsPending m d by_name s e x
      → Outside scalar.address_extension scalar.address (size scalar) e x
  free-Outside s name scalar original e x kept known free = elim (scalar_split scalar e x) [
    | inr outside ↦ outside
    | inl inside ↦
        elim (free (record {
          name = name;
          original = original;
          scalar = scalar;
          kept = kept;
          known = known;
          within = inside;
        })) [ ]
  ]

  original_size :
      (before : Bytes) (s : Session m) (name : Text) (scalar : A2lScalar) (original : List ℕ)
      → Recoverable before s
      → lookup name s.originals ≡ some original
      → get_scalar by_name name characteristic ≡ ok scalar
      → length original ≡ size scalar
  original_size before s name scalar original h kept known =
      let o = h.originals name original kept in
      let e : o.scalar ≡ scalar = ok-ok (sym o.known ∙ known) in
      ap length o.bytes ∙ length-bytes_at _ _ (size o.scalar) ∙ ap size e

  restore_one-Recoverable :
      (before : Bytes) (s : Session m) (name : Text) (scalar : A2lScalar) (original : List ℕ)
      → lookup name s.originals ≡ some original
      → get_scalar by_name name characteristic ≡ ok scalar
      → Recoverable before s
      → Recoverable before (restore_one m f by_name name scalar original s).1
  unfolding restore_one
  restore_one-Recoverable before s name scalar original kept known h =
      let fits = original_size before s name scalar original h kept known in
      let c = (write_bytes m scalar original s.client).1 in
      let c' = (read_bytes m scalar c).1 in
      let wrote : (e x : ℕ)
          → Outside scalar.address_extension scalar.address (size scalar) e x
          → d.mem c.world e x ≡ d.mem s.client.world e x =
        λ e x outside. write_bytes-contained m d k scalar original s.client e x fits outside in
      let same : (e x : ℕ)
          → Outside scalar.address_extension scalar.address (size scalar) e x
          → d.mem c'.world e x ≡ d.mem s.client.world e x =
        λ e x outside. ap (λ mem. mem e x) (mem-read_bytes m d k scalar c) ∙ wrote e x outside in
      let stopped : Recoverable before (record s { client = c }) =
        step-IsRecoverable m d by_name before s c h
          λ e x free. wrote e x (free-Outside s name scalar original e x kept known free) in
      let tried : Recoverable before (record s { client = c' }) =
        step-IsRecoverable m d by_name before s c' h
          λ e x free. same e x (free-Outside s name scalar original e x kept known free) in
      let ends : (s' : Session m)
          → (restore_one m f by_name name scalar original s).1 ≡ s'
          → Recoverable before s'
          → Recoverable before (restore_one m f by_name name scalar original s).1 =
        λ s' e h'. subst (Recoverable before) (sym e) h' in
      elim (Result-cases (write_bytes m scalar original s.client).0) [
        | inr (why, failed) ↦ ends _ (ground arith) stopped
        | inl (_, written) ↦ elim (Result-cases (read_bytes m scalar c).0) [
          | inr (why, failed) ↦ ends _ (ground arith) tried
          | inl (actual, read) ↦ elim (Bool-cases (text_eq actual original)) [
            | inr differs ↦ ends _ (ground arith) tried
            | inl equal ↦ elim (Result-cases (decode f scalar actual)) [
              | inr (why, failed) ↦ ends _ (ground arith) tried
              | inl (value, decoded) ↦
                  let (there, kept_there) = read_bytes-held m d scalar c actual read in
                  let same_bytes : actual ≡ original = (text_eq_iff actual original).0 equal in
                  ends _ (ground arith) (
                    without_original-IsRecoverable m d by_name before s name scalar original c' h
                      kept known same (sym same_bytes ∙ there ∙ sym kept_there))
            ]
          ]
        ]
      ]

  pub restore_loop-Recoverable :
      (before : Bytes) (names : List Text) (restored : Dict (Number f)) (failed : Bool)
      (s : Session m)
      → Recoverable before s
      → Recoverable before (restore_loop m f by_name names restored failed s).1
  unfolding restore_loop
  restore_loop-Recoverable before [] restored failed s h = h
  restore_loop-Recoverable before (name ∷ names) restored failed s h =
      elim (Option-cases (lookup name s.originals)) [
        | inl absent ↦
            rw (absent, restore_loop) (restore_loop-Recoverable before names restored failed s h)
        | inr (original, kept) ↦ elim (Result-cases (get_scalar by_name name characteristic)) [
          | inr (why, unknown) ↦ rw (kept, unknown, restore_loop) h
          | inl (scalar, known) ↦
              let s' = (restore_one m f by_name name scalar original s).1 in
              let h' = restore_one-Recoverable before s name scalar original kept known h in
              elim (Result-cases (restore_one m f by_name name scalar original s).0) [
                | inl (value, ended) ↦
                    rw (kept, known, restore_loop, ended)
                      (restore_loop-Recoverable before names (insert name value restored) failed s'
                        h')
                | inr (why, ended) ↦
                    rw (kept, known, restore_loop, ended)
                      (restore_loop-Recoverable before names restored true s' h')
              ]
        ]
      ]

  pub restore_loop_failed :
      (names : List Text) (restored r : Dict (Number f)) (s : Session m)
      → (restore_loop m f by_name names restored true s).0 ≢ ok r
  unfolding restore_loop
  restore_loop_failed [] restored r s h = ground arith
  restore_loop_failed (name ∷ names) restored r s h =
      elim (Option-cases (lookup name s.originals)) [
        | inl absent ↦ restore_loop_failed names restored r s (rw (absent, restore_loop) at h)
        | inr (original, kept) ↦ elim (Result-cases (get_scalar by_name name characteristic)) [
          | inr (why, unknown) ↦ ground arith
          | inl (scalar, known) ↦
              let s' = (restore_one m f by_name name scalar original s).1 in
              elim (Result-cases (restore_one m f by_name name scalar original s).0) [
                | inl (value, ended) ↦
                    restore_loop_failed names (insert name value restored) r s' (ground arith)
                | inr (why, ended) ↦ restore_loop_failed names restored r s' (ground arith)
              ]
        ]
      ]

  pub restore_one_erases :
      (s : Session m) (name : Text) (scalar : A2lScalar) (original : List ℕ) (value : Number f)
      → (restore_one m f by_name name scalar original s).0 ≡ ok value
      → (restore_one m f by_name name scalar original s).1.originals ≡ erase name s.originals
  unfolding restore_one
  restore_one_erases s name scalar original value h =
      let c = (write_bytes m scalar original s.client).1 in
      elim (Result-cases (read_bytes m scalar c).0) [
        | inr (why, failed) ↦ ground arith
        | inl (actual, read) ↦ ground arith
      ]
