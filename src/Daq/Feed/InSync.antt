-- ===== src/Daq/Feed/InSync.antt =====
-- The frames that BufferedDaqPolicy.feed of `shared/python/pyxcp_host/services/daq_acquisition.py`
-- hands to the native decoder, against what the decoder expects.
use sim_rt.Prelude.{
  ℕ, ◌+◌, ◌%◌, ◌≡◌, refl, sym, subst, true, false, not, ◌&&◌, ◌||◌, Option, none, some, List, ltb,
  leb, ◌==◌, if◌then◌else◌, arith, length, Bool-cases, Option-cases, inl, inr, ◌⊎◌,
}
use sim_rt.Daq.{Decoder, Layout, Policy}
use sim_rt.Daq.Feed.{
  FrameCategory, daq, event, is_incoming, odt_of, frame_fits, clear_overload, overload_set,
  invalid_frame, count_overload, resynchronize, decode_frame, in_order, count_incomplete, sequence,
  identify, accept_frame, dispatch, count_gap, track, feed, byte_or_zero, counter_delta,
}
use sim_rt.Daq.Feed.Control.{call_back-SameControl}

-- What the native decoder needs: `Expects k` says that its next frame is the frame `k` of an event.
-- Fed with that frame, whole and of this list, it expects the one after it.
pub record Protocol (d : Decoder) (l : Layout) : Type 1 where
  pub Expects : ℕ → d.World → Type 0
  pub resync_expects : (w : d.World) → Expects 0 (d.resync w)
  pub feed_expects :
      (odt : ℕ) (payload : List ℕ) (w : d.World)
      → Expects odt w
      → odt_of l payload ≡ some odt
      → frame_fits l odt payload ≡ true
      → Expects ((odt + 1) % length l.frame_lengths) (d.feed payload w).0

module _ (d : Decoder) (l : Layout) where
  module _ (c : Protocol d l) where
    -- Unless it is to be resynchronized first, the decoder expects the frame `next_odt`; after a
    -- resynchronization an event starts over.
    pub record IsSynced (p : Policy d) : Type 0 where
      pub expects : p.reset_decoder ≡ false → c.Expects p.next_odt p.native
      pub restart : p.reset_decoder ≡ true → p.next_odt ≡ 0

    resynchronize-Expects :
        (p : Policy d) → IsSynced p → c.Expects p.next_odt (resynchronize d l p).native
    unfolding resynchronize
    resynchronize-Expects p h = elim (Bool-cases p.reset_decoder) [
      | inr synced ↦
          subst
            (λ b. c.Expects p.next_odt (
              (if b
                then record p { native = d.resync p.native; reset_decoder = false }
                else p).native))
            (sym synced) (h.expects synced)
      | inl reset ↦
          subst
            (λ b. c.Expects p.next_odt (
              (if b
                then record p { native = d.resync p.native; reset_decoder = false }
                else p).native))
            (sym reset)
            (subst (λ k. c.Expects k (d.resync p.native)) (sym (h.restart reset))
              (c.resync_expects p.native))
    ]

    resynchronize_done : (p : Policy d) → (resynchronize d l p).reset_decoder ≡ false
    unfolding resynchronize
    resynchronize_done p = ground arith

    in_order-IsSynced :
        (odt : ℕ) (payload : List ℕ) (p : Policy d)
        → odt_of l payload ≡ some odt
        → frame_fits l odt payload ≡ true
        → c.Expects odt (resynchronize d l p).native
        → IsSynced (in_order d l odt payload p)
    unfolding in_order decode_frame
    in_order-IsSynced odt payload p known fits h =
        let q = resynchronize d l p in
        let done : q.reset_decoder ≡ false = resynchronize_done p in
        let next = (odt + 1) % length l.frame_lengths in
        let native = (d.feed payload q.native).0 in
        let sc =
          call_back-SameControl d l (d.feed payload q.native).1
            (record q { next_odt = next; native = native }) in
        record {
          expects = λ _. rw (sc.0, sc.1) (c.feed_expects odt payload q.native h known fits);
          restart = λ reset. cc (sc.2, done, reset);
        }

    count_incomplete-IsSynced : (p : Policy d) → IsSynced (count_incomplete d l p)
    unfolding count_incomplete
    count_incomplete-IsSynced p = record { expects = λ e. cc; restart = λ _. refl }

    invalid_frame-IsSynced : (p : Policy d) → IsSynced (invalid_frame d l p)
    unfolding invalid_frame
    invalid_frame-IsSynced p = record { expects = λ e. cc; restart = λ _. refl }

    sequence-IsSynced :
        (odt : ℕ) (payload : List ℕ) (p : Policy d)
        → odt_of l payload ≡ some odt
        → frame_fits l odt payload ≡ true
        → IsSynced p
        → IsSynced (sequence d l odt payload p)
    unfolding sequence
    sequence-IsSynced odt payload p known fits h = elim (Bool-cases (odt == p.next_odt)) [
      | inl next ↦
          let e : p.next_odt ≡ odt = ground (arith, next) in
          rw next (
            in_order-IsSynced odt payload p known fits
              (subst (λ k. c.Expects k (resynchronize d l p).native) e (resynchronize-Expects p h)))
      | inr other ↦ elim (Bool-cases (odt == 0)) [
        | inr later ↦ rw (other, later) (count_incomplete-IsSynced p)
        | inl first ↦
            let q = count_incomplete d l p in
            let e : q.next_odt ≡ odt = unfold count_incomplete in ground (arith, first) in
            rw (other, first)
              (in_order-IsSynced odt payload q known fits (
                subst (λ k. c.Expects k (resynchronize d l q).native) e
                  (resynchronize-Expects q (count_incomplete-IsSynced p))))
      ]
    ]

    identify-IsSynced :
        (payload : List ℕ) (p : Policy d) → IsSynced p → IsSynced (identify d l payload p)
    unfolding identify
    identify-IsSynced payload p h = elim (Option-cases (odt_of l payload)) [
      | inl other_list ↦ rw (other_list, identify) (invalid_frame-IsSynced p)
      | inr (odt, known) ↦ elim (Bool-cases (frame_fits l odt payload)) [
        | inl fits ↦ rw (known, fits, identify) (sequence-IsSynced odt payload p known fits h)
        | inr short ↦ rw (known, short, identify) (invalid_frame-IsSynced p)
      ]
    ]

    count_overload-IsSynced : (p : Policy d) → IsSynced p → IsSynced (count_overload d l p)
    unfolding count_overload
    count_overload-IsSynced p h = record { expects = h.expects; restart = h.restart }

    accept_frame-IsSynced :
        (payload : List ℕ) (p : Policy d) → IsSynced p → IsSynced (accept_frame d l payload p)
    unfolding accept_frame
    accept_frame-IsSynced payload p h = elim (Bool-cases (ltb (length payload) l.header_size)) [
      | inl short ↦ rw short (invalid_frame-IsSynced p)
      | inr whole ↦ elim (Bool-cases (overload_set l payload)) [
        | inl full ↦
            rw (whole, full)
              (identify-IsSynced (clear_overload payload) (count_overload d l p)
                (count_overload-IsSynced p h))
        | inr clear ↦ rw (whole, clear) (identify-IsSynced payload p h)
      ]
    ]

    dispatch-IsSynced :
        (category : FrameCategory) (payload : List ℕ) (p : Policy d)
        → IsSynced p
        → IsSynced (dispatch d l category payload p)
    unfolding dispatch
    dispatch-IsSynced event payload p h =
        elim (Bool-cases (ltb 1 (length payload) && byte_or_zero payload 1 == d.ev_daq_overload)) [
          | inl overload ↦ rw overload (count_overload-IsSynced p h)
          | inr other ↦ rw other h
        ]
    dispatch-IsSynced daq payload p h = elim (Bool-cases p.active) [
      | inl active ↦
          subst (λ b. IsSynced (if b then accept_frame d l payload p else p)) (sym active)
            (accept_frame-IsSynced payload p h)
      | inr idle ↦ subst (λ b. IsSynced (if b then accept_frame d l payload p else p)) (sym idle) h
    ]
    dispatch-IsSynced _ payload p h = h

    count_gap-IsSynced :
        (delta counter : ℕ) (p : Policy d)
        → IsSynced p
        → IsSynced (record (count_gap d l delta p) { counter = some counter })
    unfolding count_gap
    count_gap-IsSynced delta counter p h = elim (Bool-cases (ltb 1 delta)) [
      | inl gap ↦ rw gap (record { expects = h.expects; restart = h.restart })
      | inr next ↦ rw next (record { expects = h.expects; restart = h.restart })
    ]

    track-IsSynced :
        (last : Option ℕ) (category : FrameCategory) (counter : ℕ) (payload : List ℕ) (p : Policy d)
        → IsSynced p
        → IsSynced (track d l last category counter payload p)
    unfolding track
    track-IsSynced none category counter payload p h =
        dispatch-IsSynced category payload (record p { counter = some counter })
          (record { expects = h.expects; restart = h.restart })
    track-IsSynced (some last) category counter payload p h =
        let delta = counter_delta counter last in
        elim (Bool-cases (delta == 0 || leb 0x8000 delta)) [
          | inl old ↦ rw old (record { expects = h.expects; restart = h.restart })
          | inr new ↦ rw new (
              dispatch-IsSynced category payload
                (record (count_gap d l delta p) { counter = some counter })
                (count_gap-IsSynced delta counter p h))
        ]

    feed-IsSynced :
        (category : FrameCategory) (counter : ℕ) (payload : List ℕ) (p : Policy d)
        → IsSynced p
        → IsSynced (feed d l category counter payload p)
    unfolding feed
    feed-IsSynced category counter payload p h = elim (Bool-cases (p.closed || not p.ready)) [
      | inl shut ↦ rw shut h
      | inr open_now ↦ elim (Bool-cases (is_incoming category)) [
        | inl incoming ↦
            rw (open_now, incoming) (track-IsSynced p.counter category counter payload p h)
        | inr own ↦ rw (open_now, own) (dispatch-IsSynced category payload p h)
      ]
    ]

    -- The native decoder expects the frame `next_odt`, or it is resynchronized before the next
    -- frame, which then has to be the first of an event.
    abbrev pub IsInSync : Policy d → Type 0
    IsInSync p =
        ((p.reset_decoder ≡ false) × c.Expects p.next_odt p.native)
        ⊎ ((p.reset_decoder ≡ true) × (p.next_odt ≡ 0))

    IsInSync-IsSynced : (p : Policy d) → IsInSync p → IsSynced p
    IsInSync-IsSynced p (inl (synced, next)) = record { expects = λ _. next; restart = λ e. cc }
    IsInSync-IsSynced p (inr (reset, first)) = record { expects = λ e. cc; restart = λ _. first }

    IsSynced-IsInSync : (p : Policy d) → IsSynced p → IsInSync p
    IsSynced-IsInSync p h = elim (Bool-cases p.reset_decoder) [
      | inl reset ↦ inr (reset, h.restart reset)
      | inr synced ↦ inl (synced, h.expects synced)
    ]

    -- Whatever frame arrives, in order, lost, late, cut short or of another list, the native decoder
    -- expects the frame that `feed` waits for next, or is about to be resynchronized.
    pub feed-IsInSync :
        (category : FrameCategory) (counter : ℕ) (payload : List ℕ) (p : Policy d)
        → IsInSync p
        → IsInSync (feed d l category counter payload p)
    feed-IsInSync category counter payload p h =
        IsSynced-IsInSync (feed d l category counter payload p)
          (feed-IsSynced category counter payload p (IsInSync-IsSynced p h))
