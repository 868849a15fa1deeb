-- ===== src/Daq/Samples/Drained.antt =====
-- The time axis of the samples that `drain` of
-- `shared/python/pyxcp_host/services/daq_acquisition.py` hands out.
use sim_rt.Prelude.{
  ℕ, ◌≡◌, ap, ◌∙◌, List, [], ◌∷◌, ◌++◌, ltb, arith, length, drop, take, take-append-drop,
  append_assoc, append-nil, drop-nil_of_le, min, Bool-cases, inl, inr,
}
use sim_rt.Exec.{Result, ok, err}
use sim_rt.Daq.{Decoder, DaqSample, Layout, Policy}
use sim_rt.Daq.Samples.{on_daq_list, drain}
use sim_rt.Daq.Samples.Order.{Increasing, IsOrdered, skip-Increasing, on_daq_list-IsOrdered}

module _ {d : Decoder} where
  -- the samples that `drain` returns
  unfoldable pub handed : Result (List (DaqSample d)) → List (DaqSample d)
  handed (ok xs) = xs
  handed (err e) = []

module _ (d : Decoder) (l : Layout) where
  -- What `drain` hands out goes to the end of what was drained before.
  pub drain-IsOrdered :
      (max_samples : ℕ) (out : List (DaqSample d)) (p : Policy d)
      → IsOrdered d l out p
      → IsOrdered d l (out ++ handed (drain d l max_samples p).0) (drain d l max_samples p).1
  unfolding drain handed
  drain-IsOrdered max_samples out p h =
      let k = min max_samples (length p.queue) in
      let same : (out ++ take k p.queue) ++ drop k p.queue ≡ out ++ p.queue =
        append_assoc out (take k p.queue) (drop k p.queue)
        ∙ ap (λ q. out ++ q) (take-append-drop k p.queue) in
      elim (Bool-cases (ltb max_samples 1)) [
        | inl refused ↦ rw (refused, append-nil out) h
        | inr taken ↦
            rw taken (record { increasing = rw same (h.increasing); stamped = rw same (h.stamped) })
      ]

  -- A stamp that arrives, or a call of `drain`.
  pub data QueueCall : Type 0 where
    arriving : ℕ → List d.Value → QueueCall
    draining : ℕ → QueueCall

  -- all that is handed out over the calls
  unfoldable pub drained : List QueueCall → Policy d → List (DaqSample d)
  unfolding handed
  drained [] p = []
  drained (arriving raw payload ∷ calls) p = drained calls (on_daq_list d l raw payload p)
  drained (draining max_samples ∷ calls) p =
      let (r, p') = drain d l max_samples p in handed r ++ drained calls p'

  drained-after :
      (calls : List QueueCall) (out : List (DaqSample d)) (p : Policy d)
      → IsOrdered d l out p
      → Increasing (out ++ drained calls p)
  unfolding drained
  drained-after [] out p h =
      let none_left = drop-nil_of_le (length p.queue) p.queue (omega arith) in
      rw none_left at (skip-Increasing (length p.queue) out p.queue h.increasing)
  drained-after (arriving raw payload ∷ calls) out p h =
      drained-after calls out _ (on_daq_list-IsOrdered d l raw payload out p h)
  drained-after (draining max_samples ∷ calls) out p h =
      let (r, p') = drain d l max_samples p in
      let all = drained-after calls (out ++ handed r) p' (drain-IsOrdered max_samples out p h) in
      rw (append_assoc out (handed r) (drained calls p')) at all

  -- From a policy whose queue increases strictly between its origin and its last stamp, as an empty
  -- one does, over any stamps that arrive and any calls of `drain` between them, with samples dropped
  -- from a full queue and stamps out of order among them: the times of all samples that are handed
  -- out, one call after the other, increase strictly.
  pub drained-Increasing :
      (calls : List QueueCall) (p : Policy d) → IsOrdered d l [] p → Increasing (drained calls p)
  drained-Increasing calls p h = drained-after calls [] p h
