-- ===== src/Session/Recovery.antt =====
-- Any calls of `write_calibrations` and `restore_calibrations` of
-- `shared/python/pyxcp_host/services/xcp_session.py` one after another.
use sim_rt.Prelude.{ℕ, ◌≡◌, refl, sym, subst, some, List, [], ◌∷◌, arith, Text}
use sim_rt.Prelude.Dict.{Dict, lookup, IsUnique}
use sim_rt.Exec.{ok}
use sim_rt.Transport.{PyxcpConfig}
use sim_rt.Transport.Master.{Master}
use sim_rt.Scalar.{A2lScalar, Number, Value}
use sim_rt.Scalar.Float64.{Floats}
use sim_rt.Client.Memory.{Bytes, Truthful, Contained}
use sim_rt.Session.{Session, write_calibrations, restore_all, restore_named}
use sim_rt.Session.Pending.{IsRecoverable}
use sim_rt.Session.Restored.{
  restore_all-restores, restore_all-IsRecoverable, restore_named-IsRecoverable,
}
use sim_rt.Session.Written.{write_calibrations-IsRecoverable}

module _ (f : Floats) where
  -- A call on the session: a batch of writes, or a restore of all names or of some.
  pub data CalibrationCall : Type 0 where
    write_batch : List (Text × Value f) → CalibrationCall
    restore_every : CalibrationCall
    restore_some : List Text → CalibrationCall

module _ (m : Master PyxcpConfig) (f : Floats) (by_name : Dict A2lScalar) where
  unfoldable pub call_session : CalibrationCall f → Session m → Session m
  call_session (write_batch values) s = (write_calibrations m f by_name values s).1
  call_session restore_every s = (restore_all m f by_name s).1
  call_session (restore_some names) s = (restore_named m f by_name names s).1

  -- The calls one after another, whether they return or raise.
  unfoldable pub call_all : List (CalibrationCall f) → Session m → Session m
  unfolding call_session
  call_all [] s = s
  call_all (call ∷ calls) s = call_all calls (call_session call s)

module _ (m : Master PyxcpConfig) (d : Truthful m) (k : Contained m d) (f : Floats)
    (by_name : Dict A2lScalar) where
  call_all-IsRecoverable :
      (before : Bytes) (calls : List (CalibrationCall f)) (s : Session m)
      → IsRecoverable m d by_name before s
      → IsRecoverable m d by_name before (call_all m f by_name calls s)
  unfolding call_all call_session
  call_all-IsRecoverable before [] s h = h
  call_all-IsRecoverable before (write_batch values ∷ calls) s h =
      call_all-IsRecoverable before calls _
        (write_calibrations-IsRecoverable m d k f by_name before values s h)
  call_all-IsRecoverable before (restore_every ∷ calls) s h =
      call_all-IsRecoverable before calls _ (restore_all-IsRecoverable m d k f by_name before s h)
  call_all-IsRecoverable before (restore_some names ∷ calls) s h =
      call_all-IsRecoverable before calls _
        (restore_named-IsRecoverable m d k f by_name before names s h)

  -- A session without originals has nothing to bring back.
  pub fresh-IsRecoverable :
      (s : Session m) → s.originals ≡ [] → IsRecoverable m d by_name (d.mem s.client.world) s
  fresh-IsRecoverable s none_kept = record {
    unique = subst (λ o. IsUnique o) (sym none_kept) tt;
    originals = λ name original kept.
        let k' : lookup name [] ≡ some original =
          subst (λ o. lookup name o ≡ some original) none_kept kept in
        unfold lookup in ground arith;
    untouched = λ e x free. refl;
  }

  -- Where SET_MTA and UPLOAD change no byte and, when they succeed, set the MTA and read at it, and a
  -- DOWNLOAD, also one that fails, changes only bytes of its span and, when it succeeds, moves the MTA
  -- past it (which bytes it leaves in the span is open): whatever batches were written and restored since a session had no originals, and wherever they
  -- failed, once `restore_calibrations()` returns, every byte of the slave is as it was then.
  pub call_all-restored :
      (calls : List (CalibrationCall f)) (s : Session m) (r : Dict (Number f)) (e x : ℕ)
      → s.originals ≡ []
      → (restore_all m f by_name (call_all m f by_name calls s)).0 ≡ ok r
      → d.mem (restore_all m f by_name (call_all m f by_name calls s)).1.client.world e x
        ≡ d.mem s.client.world e x
  call_all-restored calls s r e x none_kept done =
      (restore_all-restores m d k f by_name (d.mem s.client.world) (call_all m f by_name calls s) r
          (call_all-IsRecoverable (d.mem s.client.world) calls s (fresh-IsRecoverable s none_kept))
          done).0
        e x
