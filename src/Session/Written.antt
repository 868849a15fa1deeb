-- ===== src/Session/Written.antt =====
-- `write_calibrations` of `shared/python/pyxcp_host/services/xcp_session.py` against the memory
-- before the first write.
use sim_rt.Prelude.{
  ℕ, ◌≡◌, ◌≢◌, refl, sym, subst, ap, ◌∙◌, inl, inr, true, false, ◌&&◌, some, List, [], ◌∷◌, ◌++◌,
  arith, Text, text_eq_iff, Bool-cases, Option-cases,
}
use sim_rt.Prelude.Dict.{
  Dict, lookup, contains, contains_found, contains_absent, insert, lookup-insert,
}
use sim_rt.Exec.{ok, Error, ok-ok, Result-cases}
use sim_rt.Transport.{PyxcpConfig}
use sim_rt.Transport.Master.{Master}
use sim_rt.Scalar.{A2lScalar, characteristic, Number, Value}
use sim_rt.Scalar.Float64.{Floats}
use sim_rt.Scalar.Database.{get_scalar}
use sim_rt.Client.{connected}
use sim_rt.Client.Memory.{Bytes, Truthful, Contained}
use sim_rt.Client.Containment.{mem-read_bytes, write_characteristic-contained}
use sim_rt.Client.Characteristic.{read_bytes, write_characteristic}
use sim_rt.Client.Characteristic.Verified.{read_bytes-held}
use sim_rt.Session.{
  Session, Span, span_of, overlaps, clashes, Entry, require_client, entries_of,
  validate_non_overlapping, read_original, keep_original, write_entry, restore_named, recover,
  write_loop, write_calibrations,
}
use sim_rt.Session.Pending.{
  IsRecoverable, step-IsRecoverable, with_original, with_original-IsRecoverable,
}
use sim_rt.Session.Spans.{clashes-clear, already, insert_among}
use sim_rt.Session.Restoring.{free-Outside}
use sim_rt.Session.Restored.{restore_named-IsRecoverable}

module _ (m : Master PyxcpConfig) (d : Truthful m) (k : Contained m d) (f : Floats)
    (by_name : Dict A2lScalar) where
  abbrev Recoverable : Bytes → Session m → Type 0
  Recoverable before s = IsRecoverable m d by_name before s

  -- The write of a scalar that is pending already.
  write_pending :
      (before : Bytes) (s : Session m) (name : Text) (scalar : A2lScalar) (original : List ℕ)
      (v : Value f)
      → Recoverable before s
      → lookup name s.originals ≡ some original
      → get_scalar by_name name characteristic ≡ ok scalar
      → Recoverable before
          (record s { client = (write_characteristic m f scalar v true s.client).1 })
  write_pending before s name scalar original v h kept known =
      step-IsRecoverable m d by_name before s (write_characteristic m f scalar v true s.client).1 h
        λ e x free.
          write_characteristic-contained m d k scalar f v s.client e x
            (free-Outside m d k f by_name s name scalar original e x kept known free)

  -- Every entry is of the catalog.
  abbrev AreKnown : List (Entry m f by_name) → Type 0
  AreKnown [] = Unit
  AreKnown (e ∷ es) = (get_scalar by_name e.name characteristic ≡ ok e.scalar) × AreKnown es

  entries_of-AreKnown :
      (values : List (Text × Value f)) (entries : List (Entry m f by_name))
      → entries_of m f by_name values ≡ ok entries
      → AreKnown entries
  unfolding entries_of
  entries_of-AreKnown [] entries h = let e : [] ≡ entries = ok-ok h in subst AreKnown e tt
  entries_of-AreKnown ((name, value) ∷ values) entries h =
      elim (Result-cases (get_scalar by_name name characteristic)) [
        | inr (why, unknown) ↦ ground arith
        | inl (s, known) ↦ elim (Result-cases (entries_of m f by_name values)) [
          | inr (why, failed) ↦ ground arith
          | inl (rest, others) ↦
              let e : record { name = name; scalar = s; value = value } ∷ rest ≡ entries =
                ground arith in
              subst AreKnown e (known, entries_of-AreKnown values rest others)
        ]
      ]

  -- The entry's span is clear of the spans of all other names.
  abbrev IsClear : Text → A2lScalar → Dict Span → Type 0
  IsClear name scalar spans =
      (other : Text) (q : Span)
      → other ≢ name
      → lookup other spans ≡ some q
      → overlaps (span_of scalar) q ≡ false

  -- The spans of the session are among those that were checked.
  abbrev AreAmong : Dict Span → Dict Span → Type 0
  AreAmong spans checked =
      (n : Text) (q : Span) → lookup n spans ≡ some q → lookup n checked ≡ some q

  write_entry-Recoverable :
      (before : Bytes) (s : Session m) (entry : Entry m f by_name)
      → Recoverable before s
      → get_scalar by_name entry.name characteristic ≡ ok entry.scalar
      → IsClear entry.name entry.scalar s.spans
      → Recoverable before (write_entry m f by_name entry s).1
        × ((v : Number f)
            → (write_entry m f by_name entry s).0 ≡ ok v
            → AreAmong
                (write_entry m f by_name entry s).1.spans
                (insert entry.name (span_of entry.scalar) s.spans))
  unfolding write_entry keep_original read_original
  write_entry-Recoverable before s entry h known clear =
      elim (Option-cases (lookup entry.name s.originals)) [
        | inr (original, kept) ↦
            let there : contains entry.name s.originals ≡ true =
              contains_found entry.name original s.originals kept in
            let c = (write_characteristic m f entry.scalar entry.value true s.client).1 in
            let e : (write_entry m f by_name entry s).1 ≡ record s { client = c } = ground arith in
            let o = h.originals entry.name original kept in
            let same : o.scalar ≡ entry.scalar = ok-ok (sym o.known ∙ known) in
            let mine : lookup entry.name s.spans ≡ some (span_of entry.scalar) =
              subst (λ t. lookup entry.name s.spans ≡ some (span_of t)) same o.span in
            (
              subst (Recoverable before) (sym e) (
                  write_pending before s entry.name entry.scalar original entry.value h kept known),
              λ v done n q found.
                  let there : lookup n s.spans ≡ some q =
                    subst (λ t. lookup n t.spans ≡ some q) e found in
                  already entry.name n (span_of entry.scalar) q s.spans mine there,
            )
        | inl absent ↦
            let there : contains entry.name s.originals ≡ false =
              contains_absent entry.name s.originals absent in
            let c1 = (read_bytes m entry.scalar s.client).1 in
            let same : (e x : ℕ) → d.mem c1.world e x ≡ d.mem s.client.world e x =
              λ e x. ap (λ mem. mem e x) (mem-read_bytes m d k entry.scalar s.client) in
            elim (Result-cases (read_bytes m entry.scalar s.client).0) [
              | inr (why, failed) ↦
                  let e : (write_entry m f by_name entry s).1 ≡ record s { client = c1 } =
                    ground arith in
                  (
                    subst (Recoverable before) (sym e)
                        (step-IsRecoverable m d by_name before s c1 h λ e x _. same e x),
                    λ v done. ground arith,
                  )
              | inl (original, read) ↦
                  let s0 : Session m = record s { client = c1 } in
                  let s1 = with_original m d by_name before s0 entry.name entry.scalar original in
                  let e : (write_entry m f by_name entry s).1 ≡ record s1 {
                    client = (write_characteristic m f entry.scalar entry.value true c1).1;
                  } =
                    ground arith in
                  let h0 : Recoverable before s0 =
                    step-IsRecoverable m d by_name before s c1 h λ e x _. same e x in
                  let (held_there, kept_there) =
                    read_bytes-held m d entry.scalar s.client original read in
                  let h1 : Recoverable before s1 =
                    with_original-IsRecoverable m d by_name before s0 entry.name entry.scalar
                      original h0 absent known clear (held_there ∙ sym kept_there) in
                  let kept : lookup entry.name (insert entry.name original s.originals)
                      ≡ some original =
                    ground (
                      arith,
                      lookup-insert entry.name entry.name original s.originals,
                      text_eq_iff entry.name entry.name,
                    ) in
                  (
                    subst (Recoverable before) (sym e) (
                        write_pending before s1 entry.name entry.scalar original entry.value h1 kept
                          known),
                    λ v done n q found. subst (λ t. lookup n t.spans ≡ some q) e found,
                  )
            ]
      ]

  recover_state :
      (names : List Text) (e : Error) (s : Session m)
      → (recover m f by_name names e s).1 ≡ (restore_named m f by_name names s).1
  unfolding recover
  recover_state names e s = elim (Result-cases (restore_named m f by_name names s).0) [
    | inl (r, done) ↦ rw (recover, done) refl
    | inr (why, failed) ↦ rw (recover, failed) refl
  ]

  write_loop-Recoverable :
      (before : Bytes) (entries : List (Entry m f by_name)) (written : List Text)
      (result : Dict (Number f)) (checked : Dict Span) (s : Session m)
      → AreKnown entries
      → validate_non_overlapping m f by_name checked entries ≡ ok tt
      → AreAmong s.spans checked
      → Recoverable before s
      → Recoverable before (write_loop m f by_name entries written result s).1
  unfolding write_loop
  write_loop-Recoverable before [] written result checked s known valid among h = h
  write_loop-Recoverable before (entry ∷ entries) written result checked s known valid among h =
      let p = span_of entry.scalar in
      let clear0 : clashes entry.name p checked ≡ false =
        unfold validate_non_overlapping in ground arith in
      let valid' : validate_non_overlapping m f by_name (insert entry.name p checked) entries
          ≡ ok tt =
        unfold validate_non_overlapping in ground arith in
      let clear : IsClear entry.name entry.scalar s.spans = λ other q ne found.
        clashes-clear entry.name other p q checked clear0 (among other q found) ne in
      let (h', among') = write_entry-Recoverable before s entry h known.0 clear in
      let s' = (write_entry m f by_name entry s).1 in
      elim (Result-cases (write_entry m f by_name entry s).0) [
        | inl (value, done) ↦
            let written' = written ++ (entry.name ∷ []) in
            let result' = insert entry.name value result in
            let e : (write_loop m f by_name (entry ∷ entries) written result s).1
                ≡ (write_loop m f by_name entries written' result' s').1 =
              rw (write_loop, done) refl in
            let within : AreAmong s'.spans (insert entry.name p checked) = λ n q found.
              insert_among entry.name n p q s.spans checked (among n)
                (among' value done n q found) in
            subst (Recoverable before) (sym e) (
              write_loop-Recoverable before entries written' result' (insert entry.name p checked)
                s' known.1 valid' within h')
        | inr (why, failed) ↦
            let names = written ++ (entry.name ∷ []) in
            let e : (write_loop m f by_name (entry ∷ entries) written result s).1
                ≡ (restore_named m f by_name names s').1 =
              rw (write_loop, failed) (recover_state names why s') in
            subst (Recoverable before) (sym e)
              (restore_named-IsRecoverable m d k f by_name before names s' h')
      ]

  -- Where SET_MTA and UPLOAD change no byte and, when they succeed, set the MTA and read at it, and a
  -- DOWNLOAD, also one that fails, changes only bytes of its span and, when it succeeds, moves the MTA
  -- past it (which bytes it leaves in the span is open): where every
  -- original that a session keeps is the bytes of its scalar in an earlier memory, and every byte
  -- outside those scalars is as in that memory, then this is still so after a batch of writes, whether
  -- it returns or fails at any point.
  pub write_calibrations-IsRecoverable :
      (before : Bytes) (values : List (Text × Value f)) (s : Session m)
      → IsRecoverable m d by_name before s
      → IsRecoverable m d by_name before (write_calibrations m f by_name values s).1
  unfolding write_calibrations require_client
  write_calibrations-IsRecoverable before [] s h = h
  write_calibrations-IsRecoverable before (v ∷ values) s h =
      let same : (write_calibrations m f by_name (v ∷ values) s).1 ≡ s
          → Recoverable before (write_calibrations m f by_name (v ∷ values) s).1 =
        λ e. subst (Recoverable before) (sym e) h in
      elim (Bool-cases (s.attached && connected m s.client)) [
        | inr offline ↦ same (ground arith)
        | inl online ↦ elim (Result-cases (entries_of m f by_name (v ∷ values))) [
          | inr (why, unknown) ↦ same (ground arith)
          | inl (entries, known) ↦
              elim (Result-cases (validate_non_overlapping m f by_name s.spans entries)) [
                | inr (why, clash) ↦ same (ground arith)
                | inl (_, valid) ↦
                    let e : (write_calibrations m f by_name (v ∷ values) s).1
                        ≡ (write_loop m f by_name entries [] [] s).1 =
                      ground arith in
                    subst (Recoverable before) (sym e) (
                      write_loop-Recoverable before entries [] [] s.spans s
                        (entries_of-AreKnown (v ∷ values) entries known) valid (λ n q found. found)
                        h)
              ]
        ]
      ]
