-- ===== src/Host/Connection/Restored.antt =====
-- `disconnect(restore=True)` of XcpSession (`shared/python/pyxcp_host/services/xcp_session.py`) against
-- the memory before the first write.
use sim_rt.Prelude.{
  if◌then◌else◌, Bool-cases, ◌⊎◌, ℕ, ◌≡◌, refl, sym, subst, ◌∙◌, true, false, some, List, [], ◌∷◌,
  arith, ap, inl, inr,
}
use sim_rt.Prelude.Dict.{lookup}
use sim_rt.Exec.{finally-Keeps, finally, ◌>>=◌, Result, ok, Keeps, >>=-Keeps, >>=-ok, Result-cases}
use sim_rt.Transport.{PyxcpConfig}
use sim_rt.Transport.Master.{Master}
use sim_rt.Scalar.Float64.{Floats}
use sim_rt.Client
use sim_rt.Client.{Client, close_master}
use sim_rt.Client.Memory.{Bytes, Truthful, Contained}
use sim_rt.Session.{restore_all}
use sim_rt.Session.Restored.{restore_all-restores}
use sim_rt.Session.Recovery.{fresh-IsRecoverable}
use sim_rt.Daq.{Decoder}
use sim_rt.Daq.Acquisition.Keeping.{stop-Keeps}
use sim_rt.Daq.Acquisition.Slave.{DaqMaster}
use sim_rt.Host.Connection.{
  leave, disconnect_detached, is_empty, Catalog, Connection, session_of, on_client,
  restore_calibrations, stop_daq, disconnect, restore_before, forget,
}
use sim_rt.Host.Connection.Calls.{SessionCall, run_connection}
use sim_rt.Host.Connection.Slave.{SlaveProperties}
use sim_rt.Host.Connection.Memory.{CanRestore, IsQuiet, run-CanRestore, Peaceful}

is_empty-cases : {A : Type 0} (l : List A) → (l ≡ []) ⊎ (is_empty l ≡ false)
is_empty-cases [] = inl refl
is_empty-cases (x ∷ l) = inr refl

module _ (m : Master PyxcpConfig) (d : Decoder) (dm : DaqMaster m d) (hm : SlaveProperties m)
    (f : Floats) (catalog : Catalog) (t : Truthful m) (k : Contained m t)
    (calm : Peaceful m t d dm) where
  -- the memory of the slave, with every byte as it was
  abbrev IsRestored : Bytes → Connection m d → Type 0
  IsRestored before s = (e x : ℕ) → t.mem s.acquisition.client.world e x ≡ before e x

  nothing_kept-IsRestored :
      (before : Bytes) (s : Connection m d)
      → (CanRestore m d dm hm f catalog t k calm) before s
      → s.originals ≡ []
      → IsRestored before s
  nothing_kept-IsRestored before s h empty e x = h.untouched e x (λ p.
      let kept : lookup p.name [] ≡ some p.original =
        subst (λ o. lookup p.name o ≡ some p.original) empty p.kept in
      unfold lookup in ground arith)

  restore_before-IsRestored :
      (before : Bytes) (s : Connection m d)
      → (CanRestore m d dm hm f catalog t k calm) before s
      → (restore_before m d dm hm f catalog true s).0 ≡ ok tt
      → IsRestored before (restore_before m d dm hm f catalog true s).1
  unfolding restore_before restore_calibrations
  restore_before-IsRestored before s h done = elim (is_empty-cases s.originals) [
    | inl none_kept ↦ ground (arith, nothing_kept-IsRestored before s h none_kept)
    | inr some_kept ↦
        elim (Result-cases (restore_all m f catalog.by_name (session_of m d dm hm f catalog s)).0) [
          | inr (why, e) ↦ ground arith
          | inl (r, e) ↦ λ x y. ground (
            arith,
            (restore_all-restores m t k f catalog.by_name before (session_of m d dm hm f catalog s)
                  r h e).0
                x y,
          )
        ]
  ]

  disconnect-IsQuiet : (IsQuiet m d dm hm f catalog t k calm) (Client.disconnect m)
  unfolding Client.disconnect Client.forget
  disconnect-IsQuiet before = record {
    at = λ c h. ground (
      arith,
      calm.mem-disconnect c.world,
      calm.mem-close c.world,
      calm.mem-close (m.disconnect c.world).1,
    );
  }

  abbrev Remembers : Bytes → Connection m d → Type 0
  Remembers b s = t.mem s.acquisition.client.world ≡ b

  stop_daq-Remembers : (b : Bytes) → Keeps (Remembers b) (stop_daq m d dm hm f catalog)
  unfolding stop_daq
  stop_daq-Remembers b = record {
    at = λ s h. ground (arith, (stop-Keeps m d dm _ (calm.daq b)).at s.acquisition h);
  }

  forget-Remembers : (b : Bytes) → Keeps (Remembers b) (forget m d dm hm f catalog)
  unfolding forget
  forget-Remembers b = record { at = λ s h. h }

  leave-Remembers : (b : Bytes) → Keeps (Remembers b) (leave m d dm hm f catalog)
  unfolding leave
  leave-Remembers b =
      let closing = on_client m d dm hm f catalog (Client.disconnect m) in
      let closed : Keeps (Remembers b) closing = record {
        at = λ s h. (disconnect-IsQuiet b).at s.acquisition.client h;
      } in
      >>=-Keeps (stop_daq m d dm hm f catalog) (λ _. finally closing (forget m d dm hm f catalog))
        (stop_daq-Remembers b)
        (λ _. finally-Keeps closing (forget m d dm hm f catalog) closed (forget-Remembers b))

  attached-IsRestored :
      (before : Bytes) (s : Connection m d)
      → (CanRestore m d dm hm f catalog t k calm) before s
      → ((restore_before m d dm hm f catalog true >>= λ _. leave m d dm hm f catalog) s).0 ≡ ok tt
      → IsRestored before
          ((restore_before m d dm hm f catalog true >>= λ _. leave m d dm hm f catalog) s).1
  attached-IsRestored before s h done x y =
      let (a, restored, left, end) =
        >>=-ok (restore_before m d dm hm f catalog true) (λ _. leave m d dm hm f catalog) s done in
      let s' = (restore_before m d dm hm f catalog true s).1 in
      let same = (leave-Remembers (t.mem s'.acquisition.client.world)).at s' refl in
      subst (λ (u : Connection m d). t.mem u.acquisition.client.world x y ≡ before x y) (sym end)
        (ap (λ g. g x y) same ∙ restore_before-IsRestored before s h restored x y)

  disconnect-attached :
      (s : Connection m d)
      → s.attached ≡ true
      → disconnect m d dm hm f catalog true s
        ≡ (restore_before m d dm hm f catalog true >>= λ _. leave m d dm hm f catalog) s
  unfolding disconnect
  disconnect-attached s on =
      ap
        (λ b.
          if b
          then (restore_before m d dm hm f catalog true >>= λ _. leave m d dm hm f catalog) s
          else disconnect_detached m d dm hm f catalog true s)
        on

  -- what `disconnect(restore=True)` leaves of the memory
  disconnect-IsRestored :
      (before : Bytes) (s : Connection m d)
      → (CanRestore m d dm hm f catalog t k calm) before s
      → (disconnect m d dm hm f catalog true s).0 ≡ ok tt
      → IsRestored before (disconnect m d dm hm f catalog true s).1
  unfolding disconnect disconnect_detached
  disconnect-IsRestored before s h done = elim (Bool-cases s.attached) [
    | inl on ↦
        let same = disconnect-attached s on in
        subst (λ (u : Result (Unit {0}) × Connection m d). IsRestored before u.1) (sym same)
          (attached-IsRestored before s h
            (ap (λ (u : Result (Unit {0}) × Connection m d). u.0) (sym same) ∙ done))
    | inr off ↦ elim (is_empty-cases s.originals) [
      | inl none_kept ↦ λ x y. ground (arith, nothing_kept-IsRestored before s h none_kept x y)
      | inr some_kept ↦ ground arith
    ]
  ]

  -- Where SET_MTA and UPLOAD change no byte and, when they succeed, set the MTA and read at it, and a
  -- DOWNLOAD, also one that fails, changes only bytes of its span and, when it succeeds, moves the MTA
  -- past it (which bytes it leaves in the span is open), and where
  -- neither the commands of an acquisition nor those that end a connection change the memory: whatever was read, written,
  -- restored and acquired over a connection that had no originals, and wherever it failed, once
  -- `disconnect(restore=True)` returns, every byte of the slave is as it was before.
  pub run_connection-restored :
      (calls : List (SessionCall f)) (s : Connection m d) (e x : ℕ)
      → s.originals ≡ []
      → (disconnect m d dm hm f catalog true ((run_connection m d dm hm f catalog) calls s)).0
        ≡ ok tt
      → t.mem
          (disconnect m d dm hm f catalog true
            ((run_connection m d dm hm f catalog) calls s)).1.acquisition.client.world
          e
          x
        ≡ t.mem s.acquisition.client.world e x
  run_connection-restored calls s e x none_kept done =
      let before = t.mem s.acquisition.client.world in
      let fresh =
        fresh-IsRecoverable m t k f catalog.by_name (session_of m d dm hm f catalog s) none_kept in
      disconnect-IsRestored before ((run_connection m d dm hm f catalog) calls s)
        ((run-CanRestore m d dm hm f catalog t k calm) before calls s fresh) done e x
