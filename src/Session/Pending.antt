-- ===== src/Session/Pending.antt =====
-- What a session of `shared/python/pyxcp_host/services/xcp_session.py` owes to the slave: the bytes
-- that its writes have changed and the originals it keeps of them.
use sim_rt.Prelude.{
  ℕ, ◌≡◌, ◌≢◌, refl, sym, subst, ◌∙◌, inl, inr, false, none, some, List, arith, Text, text_eq,
  text_eq_iff, Bool-cases,
}
use sim_rt.Prelude.Dict.{
  Dict, lookup, insert, erase, IsUnique, insert-IsUnique, erase-IsUnique, lookup-insert,
  lookup-erase, lookup-erase_ne,
}
use sim_rt.Exec.{ok, ok-ok}
use sim_rt.Transport.{PyxcpConfig}
use sim_rt.Transport.Master.{Master}
use sim_rt.Scalar.{A2lScalar, characteristic, size}
use sim_rt.Scalar.Database.{get_scalar}
use sim_rt.Client.{Client}
use sim_rt.Client.Memory.{Bytes, Truthful, bytes_at, bytes_at-ext, bytes_at-agree}
use sim_rt.Client.Containment.{Outside}
use sim_rt.Session.{Session, Span, span_of, overlaps}
use sim_rt.Session.Spans.{IsWithin, scalar_split, inside_excluded, overlaps-apart}

module _ (m : Master PyxcpConfig) (d : Truthful m) (by_name : Dict A2lScalar) where
  -- The byte is one of a scalar that the session has an original of.
  pub record IsPending (s : Session m) (e x : ℕ) : Type 0 where
    pub name : Text
    pub original : List ℕ
    pub scalar : A2lScalar
    pub kept : lookup name s.originals ≡ some original
    pub known : get_scalar by_name name characteristic ≡ ok scalar
    pub within : IsWithin scalar e x

  -- What is known of an original.
  pub record IsOriginal (before : Bytes) (s : Session m) (name : Text) (original : List ℕ)
      : Type 0 where
    pub scalar : A2lScalar
    pub known : get_scalar by_name name characteristic ≡ ok scalar
    pub bytes : original ≡ bytes_at (before scalar.address_extension) scalar.address (size scalar)
    pub span : lookup name s.spans ≡ some (span_of scalar)

  -- The session can bring the memory back to `before`: it keeps the bytes of `before` of the
  -- scalars that are pending, and every other byte is as it was.
  pub record IsRecoverable (before : Bytes) (s : Session m) : Type 0 where
    pub unique : IsUnique s.originals
    pub originals :
        (name : Text) (original : List ℕ)
        → lookup name s.originals ≡ some original
        → IsOriginal before s name original
    pub untouched : (e x : ℕ) → ¬ IsPending s e x → d.mem s.client.world e x ≡ before e x

  -- Steps of the client that change no byte but those of a pending scalar.
  pub step-IsRecoverable :
      (before : Bytes) (s : Session m) (c : Client m)
      → IsRecoverable before s
      → ((e x : ℕ) → ¬ IsPending s e x → d.mem c.world e x ≡ d.mem s.client.world e x)
      → IsRecoverable before (record s { client = c })
  step-IsRecoverable before s c h same = record {
    unique = h.unique;
    originals = λ name original kept.
        let o = h.originals name original kept in
        record { scalar = o.scalar; known = o.known; bytes = o.bytes; span = o.span };
    untouched = λ e x free.
        let free' : ¬ IsPending s e x = λ p. free (record {
          name = p.name;
          original = p.original;
          scalar = p.scalar;
          kept = p.kept;
          known = p.known;
          within = p.within;
        }) in
        same e x free' ∙ h.untouched e x free';
  }

  module _ (before : Bytes) (s : Session m) (name : Text) (scalar : A2lScalar)
      (original : List ℕ) where
    -- the session with one more original
    abbrev pub with_original : Session m
    with_original = record s {
      originals = insert name original s.originals;
      spans = insert name (span_of scalar) s.spans;
    }

    kept_before :
        (other : Text) (bs : List ℕ)
        → other ≢ name
        → lookup other s.originals ≡ some bs
        → lookup other (insert name original s.originals) ≡ some bs
    kept_before other bs ne h =
        ground (arith, lookup-insert name other original s.originals, text_eq_iff name other)

    -- The original of a scalar that is clear of all others is of the memory as it was before.
    pub with_original-IsRecoverable :
        IsRecoverable before s
        → lookup name s.originals ≡ none
        → get_scalar by_name name characteristic ≡ ok scalar
        → ((other : Text) (q : Span)
            → other ≢ name
            → lookup other s.spans ≡ some q
            → overlaps (span_of scalar) q ≡ false)
        → original
          ≡ bytes_at (d.mem s.client.world scalar.address_extension) scalar.address (size scalar)
        → IsRecoverable before with_original
    with_original-IsRecoverable h new known clear read =
        let not_pending : (p : Text) (bs : List ℕ) → lookup p s.originals ≡ some bs → p ≢ name =
          λ p bs kept e.
            let k : lookup name s.originals ≡ some bs =
              subst (λ n. lookup n s.originals ≡ some bs) e kept in
            ground arith in
        let fresh : (x : ℕ)
            → IsWithin scalar scalar.address_extension x
            → ¬ IsPending s scalar.address_extension x =
          λ x inside p.
            let o = h.originals p.name p.original p.kept in
            let ne = not_pending p.name p.original p.kept in
            let e' : o.scalar ≡ p.scalar = ok-ok (sym o.known ∙ p.known) in
            let c : overlaps (span_of scalar) (span_of p.scalar) ≡ false =
              subst (λ t. overlaps (span_of scalar) (span_of t) ≡ false) e'
                (clear p.name _ ne o.span) in
            overlaps-apart scalar p.scalar scalar.address_extension x c inside p.within in
        record {
          unique = insert-IsUnique name original s.originals h.unique;
          originals = λ other bs kept. elim (Bool-cases (text_eq name other)) [
            | inl same ↦
                let e : name ≡ other = (text_eq_iff name other).0 same in
                let b : original ≡ bs =
                  ground (arith, lookup-insert name other original s.originals) in
                record {
                  scalar = scalar;
                  known = subst (λ n. get_scalar by_name n characteristic ≡ ok scalar) e known;
                  bytes =
                      sym b
                      ∙ read
                      ∙ bytes_at-ext _ _ scalar.address (size scalar) λ x low high.
                        let inside : IsWithin scalar scalar.address_extension x = record {
                          extension = refl;
                          low = low;
                          high = high;
                        } in
                        h.untouched scalar.address_extension x (fresh x inside);
                  span = ground (arith, lookup-insert name other (span_of scalar) s.spans);
                }
            | inr differs ↦
                let o =
                  h.originals other bs
                    (ground (arith, lookup-insert name other original s.originals)) in
                record {
                  scalar = o.scalar;
                  known = o.known;
                  bytes = o.bytes;
                  span = ground (arith, o.span, lookup-insert name other (span_of scalar) s.spans);
                }
          ];
          untouched = λ e x free. h.untouched e x λ p. free (record {
            name = p.name;
            original = p.original;
            scalar = p.scalar;
            kept = kept_before p.name p.original (not_pending p.name p.original p.kept) p.kept;
            known = p.known;
            within = p.within;
          });
        }

    -- the session without the original, over the client `c`
    abbrev pub without_original : Client m → Session m
    without_original c = record s {
      client = c;
      originals = erase name s.originals;
      spans = erase name s.spans;
    }

    -- The original of a scalar that holds it again is no longer needed.
    pub without_original-IsRecoverable :
        (c : Client m)
        → IsRecoverable before s
        → lookup name s.originals ≡ some original
        → get_scalar by_name name characteristic ≡ ok scalar
        → ((e x : ℕ)
            → Outside scalar.address_extension scalar.address (size scalar) e x
            → d.mem c.world e x ≡ d.mem s.client.world e x)
        → original ≡ bytes_at (d.mem c.world scalar.address_extension) scalar.address (size scalar)
        → IsRecoverable before (without_original c)
    without_original-IsRecoverable c h kept known same held =
        let gone : lookup name (erase name s.originals) ≡ none =
          lookup-erase name s.originals h.unique in
        let other_name : (p : Text) (bs : List ℕ)
            → lookup p (erase name s.originals) ≡ some bs
            → name ≢ p =
          λ p bs k e.
            let k' : lookup name (erase name s.originals) ≡ some bs =
              subst (λ n. lookup n (erase name s.originals) ≡ some bs) (sym e) k in
            ground arith in
        let mine = h.originals name original kept in
        let e : mine.scalar ≡ scalar = ok-ok (sym mine.known ∙ known) in
        let bytes : original
            ≡ bytes_at (before scalar.address_extension) scalar.address (size scalar) =
          subst (λ t. original ≡ bytes_at (before t.address_extension) t.address (size t)) e
            mine.bytes in
        record {
          unique = erase-IsUnique name s.originals h.unique;
          originals = λ other bs k.
              let ne = other_name other bs k in
              let o = h.originals other bs (sym (lookup-erase_ne name other s.originals ne) ∙ k) in
              record {
                scalar = o.scalar;
                known = o.known;
                bytes = o.bytes;
                span = lookup-erase_ne name other s.spans ne ∙ o.span;
              };
          untouched = λ e x free. elim (scalar_split scalar e x) [
            | inl inside ↦
                let b =
                  bytes_at-agree (d.mem c.world scalar.address_extension)
                    (before scalar.address_extension) scalar.address (size scalar) x
                    (sym held ∙ bytes) inside.low inside.high in
                subst (λ k. d.mem c.world k x ≡ before k x) (sym inside.extension) b
            | inr outside ↦
                same e x outside
                ∙ h.untouched e x λ p. elim (Bool-cases (text_eq name p.name)) [
                  | inl yes_same ↦
                      let n : name ≡ p.name = (text_eq_iff name p.name).0 yes_same in
                      let t : scalar ≡ p.scalar = ok-ok (
                        sym known
                        ∙ subst (λ n. get_scalar by_name n characteristic ≡ ok p.scalar) (sym n)
                            p.known) in
                      inside_excluded scalar e x (subst (λ t'. IsWithin t' e x) (sym t) p.within)
                        outside
                  | inr differs ↦ free (record {
                    name = p.name;
                    original = p.original;
                    scalar = p.scalar;
                    kept =
                        lookup-erase_ne name p.name s.originals
                          (λ n. let b = (text_eq_iff name p.name).1 n in ground arith)
                        ∙ p.kept;
                    known = p.known;
                    within = p.within;
                  })
                ]
          ];
        }
