-- ===== src/Session/Restored.antt =====
-- `restore_calibrations` of `shared/python/pyxcp_host/services/xcp_session.py` against the memory
-- before the first write.
use sim_rt.Prelude.{
  ℕ, ◌≡◌, ◌≢◌, sym, subst, ◌∙◌, ◌⊎◌, inl, inr, Bool, false, ◌&&◌, none, some, List, [], ◌∷◌, arith,
  Text, text_eq, text_eq_iff, Bool-cases, Option-cases,
}
use sim_rt.Prelude.Dict.{
  Dict, lookup, insert, erase, keys, IsUnique, erase-IsUnique, lookup-erase, lookup-erase_ne,
}
use sim_rt.Exec.{ok, Result-cases}
use sim_rt.Transport.{PyxcpConfig}
use sim_rt.Transport.Master.{Master}
use sim_rt.Scalar.{A2lScalar, characteristic, Number}
use sim_rt.Scalar.Float64.{Floats}
use sim_rt.Scalar.Database.{get_scalar}
use sim_rt.Client.{connected}
use sim_rt.Client.Memory.{Bytes, Truthful, Contained}
use sim_rt.Session.{
  Session, require_client, restore_one, restore_loop, restore_all, restore_named, unique_names,
}
use sim_rt.Session.Pending.{IsRecoverable}
use sim_rt.Session.Restoring.{restore_loop-Recoverable, restore_loop_failed, restore_one_erases}

abbrev IsListed : Text → List Text → Type 0
IsListed n [] = ⊥
IsListed n (j ∷ js) = (n ≡ j) ⊎ IsListed n js

lookup-IsListed {ℓ} :
    {V : Type ℓ} (n : Text) (v : V) (d : Dict V) → lookup n d ≡ some v → IsListed n (keys d)
unfolding lookup keys
lookup-IsListed n v [] h = ground arith
lookup-IsListed n v ((j, w) ∷ d) h = elim (Bool-cases (text_eq j n)) [
  | inl same ↦ inl (sym ((text_eq_iff j n).0 same))
  | inr other ↦ inr (lookup-IsListed n v d (rw (other, lookup) at h))
]

module _ (m : Master PyxcpConfig) (d : Truthful m) (k : Contained m d) (f : Floats)
    (by_name : Dict A2lScalar) where
  -- After a loop that has returned, what is still kept is none of the names.
  restore_loop_left :
      (names : List Text) (restored r : Dict (Number f)) (failed : Bool) (s : Session m)
      → IsUnique s.originals
      → (restore_loop m f by_name names restored failed s).0 ≡ ok r
      → (n : Text) (bs : List ℕ)
      → lookup n (restore_loop m f by_name names restored failed s).1.originals ≡ some bs
      → (lookup n s.originals ≡ some bs) × ¬ IsListed n names
  unfolding restore_loop
  restore_loop_left [] restored r failed s u h n bs left = (left, λ l. l)
  restore_loop_left (name ∷ names) restored r failed s u h n bs left =
      elim (Option-cases (lookup name s.originals)) [
        | inl absent ↦
            let (kept, free) =
              restore_loop_left names restored r failed s u (rw (absent, restore_loop) at h) n bs
                (rw (absent, restore_loop) at left) in
            (
              kept,
              λ l. elim l [
                | inl e ↦
                    let k : lookup name s.originals ≡ some bs =
                      subst (λ n. lookup n s.originals ≡ some bs) e kept in
                    ground arith
                | inr l' ↦ free l'
              ],
            )
        | inr (original, kept) ↦ elim (Result-cases (get_scalar by_name name characteristic)) [
          | inr (why, unknown) ↦ ground arith
          | inl (scalar, known) ↦
              let s' = (restore_one m f by_name name scalar original s).1 in
              elim (Result-cases (restore_one m f by_name name scalar original s).0) [
                | inr (why, ended) ↦
                    elim (restore_loop_failed m d k f by_name names restored r s'
                      (ground arith)) [ ]
                | inl (value, ended) ↦
                    let erased =
                      restore_one_erases m d k f by_name s name scalar original value ended in
                    let (kept', free) =
                      restore_loop_left names (insert name value restored) r failed s'
                        (rw erased (erase-IsUnique name s.originals u)) (ground arith) n bs
                        (ground arith) in
                    let there : lookup n (erase name s.originals) ≡ some bs = rw erased at kept' in
                    let ne : n ≢ name = λ e.
                      let gone = lookup-erase name s.originals u in
                      let here : lookup name (erase name s.originals) ≡ some bs =
                        subst (λ j. lookup j (erase name s.originals) ≡ some bs) e there in
                      ground arith in
                    (
                      sym (lookup-erase_ne name n s.originals (λ e. ne (sym e))) ∙ there,
                      λ l. elim l [ inl e ↦ ne e | inr l' ↦ free l' ],
                    )
              ]
        ]
      ]

  -- After `restore_calibrations()` has returned, the slave's memory is what it was before the first
  -- write of the session, in every byte, and no original is pending.
  pub restore_all-restores :
      (before : Bytes) (s : Session m) (r : Dict (Number f))
      → IsRecoverable m d by_name before s
      → (restore_all m f by_name s).0 ≡ ok r
      → ((e x : ℕ) → d.mem (restore_all m f by_name s).1.client.world e x ≡ before e x)
        × ((n : Text) → lookup n (restore_all m f by_name s).1.originals ≡ none)
  unfolding restore_all require_client
  restore_all-restores before s r h done =
      let names = keys s.originals in
      let s' = (restore_loop m f by_name names [] false s).1 in
      let ran : (restore_loop m f by_name names [] false s).0 ≡ ok r = ground arith in
      let e : (restore_all m f by_name s).1 ≡ s' = ground arith in
      let h' = restore_loop-Recoverable m d k f by_name before names [] false s h in
      let left : (n : Text) (bs : List ℕ) → ¬ (lookup n s'.originals ≡ some bs) = λ n bs kept.
        let (was, free) = restore_loop_left names [] r false s h.unique ran n bs kept in
        free (lookup-IsListed n bs s.originals was) in
      let clean : (n : Text) → lookup n s'.originals ≡ none = λ n.
        elim (Option-cases (lookup n s'.originals)) [
          | inl absent ↦ absent
          | inr (bs, kept) ↦ elim (left n bs kept) [ ]
        ] in
      subst
        (λ t.
          ((e x : ℕ) → d.mem t.client.world e x ≡ before e x)
          × ((n : Text) → lookup n t.originals ≡ none))
        (sym e) (λ e x. h'.untouched e x (λ p. left p.name p.original p.kept), clean)

  -- Where SET_MTA and UPLOAD change no byte and, when they succeed, set the MTA and read at it, and a
  -- DOWNLOAD, also one that fails, changes only bytes of its span and, when it succeeds, moves the MTA
  -- past it (which bytes it leaves in the span is open): where every
  -- original that a session keeps is the bytes of its scalar in an earlier memory, and every byte
  -- outside those scalars is as in that memory, then this is still so after a restore of all names,
  -- also one that fails half way; an original is given up only where its bytes are there again.
  pub restore_all-IsRecoverable :
      (before : Bytes) (s : Session m)
      → IsRecoverable m d by_name before s
      → IsRecoverable m d by_name before (restore_all m f by_name s).1
  unfolding restore_all require_client
  restore_all-IsRecoverable before s h = elim (Bool-cases (s.attached && connected m s.client)) [
    | inr offline ↦
        let e : (restore_all m f by_name s).1 ≡ s = ground arith in
        subst (IsRecoverable m d by_name before) (sym e) h
    | inl online ↦
        let names = keys s.originals in
        let e : (restore_all m f by_name s).1 ≡ (restore_loop m f by_name names [] false s).1 =
          ground arith in
        subst (IsRecoverable m d by_name before) (sym e)
          (restore_loop-Recoverable m d k f by_name before names [] false s h)
  ]

  pub restore_named-IsRecoverable :
      (before : Bytes) (names : List Text) (s : Session m)
      → IsRecoverable m d by_name before s
      → IsRecoverable m d by_name before (restore_named m f by_name names s).1
  unfolding restore_named require_client
  restore_named-IsRecoverable before names s h =
      elim (Bool-cases (s.attached && connected m s.client)) [
        | inr offline ↦
            let e : (restore_named m f by_name names s).1 ≡ s = ground arith in
            subst (IsRecoverable m d by_name before) (sym e) h
        | inl online ↦ elim (Result-cases (unique_names names)) [
          | inr (why, empty) ↦
              let e : (restore_named m f by_name names s).1 ≡ s = ground arith in
              subst (IsRecoverable m d by_name before) (sym e) h
          | inl (selected, unique) ↦
              let e : (restore_named m f by_name names s).1
                  ≡ (restore_loop m f by_name selected [] false s).1 =
                ground arith in
              subst (IsRecoverable m d by_name before) (sym e)
                (restore_loop-Recoverable m d k f by_name before selected [] false s h)
        ]
      ]
