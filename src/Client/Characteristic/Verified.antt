-- ===== src/Client/Characteristic/Verified.antt =====
-- What a verified write and the smoke test of `shared/python/simrt_xcp/client.py` leave in the
-- slave, also where the slave does not do what it was asked to.
use sim_rt.Prelude.{ℕ, ◌≡◌, ◌≢◌, ap, true, List, text_eq_iff, arith, inl, inr}
use sim_rt.Prelude.Int.{pos}
use sim_rt.Exec.{Result, ok, err, not_restored, Result-cases}
use sim_rt.Transport.{PyxcpConfig}
use sim_rt.Transport.Master.{Master}
use sim_rt.Scalar.{A2lScalar, size, Number, Value, encode}
use sim_rt.Scalar.Float64.{Floats}
use sim_rt.Client.{Client}
use sim_rt.Client.Memory.{Truthful, bytes_at}
use sim_rt.Client.Reading.{mem-read_memory, read_memory-reads}
use sim_rt.Client.Characteristic.{
  read_bytes, write_bytes, write_characteristic, write_temporary, restore_original, try_requested,
  calibration_smoke_test,
}

module _ (m : Master PyxcpConfig) (d : Truthful m) (s : A2lScalar) where
  -- The bytes that a slave holds at the span of the scalar.
  abbrev pub held : Client m → List ℕ
  held c = bytes_at (d.mem c.world s.address_extension) s.address (size s)

  pub read_bytes-held :
      (c : Client m) (bs : List ℕ)
      → (read_bytes m s c).0 ≡ ok bs
      → (bs ≡ held c) × (held (read_bytes m s c).1 ≡ held c)
  unfolding read_bytes
  read_bytes-held c bs h = (
    read_memory-reads m d s.address (size s) s.address_extension c bs h,
    ap (λ mem. bytes_at (mem s.address_extension) s.address (size s))
        (mem-read_memory m d (pos s.address) (pos (size s)) (pos s.address_extension) c),
  )

  held-read_bytes : (c : Client m) → held (read_bytes m s c).1 ≡ held c
  unfolding read_bytes
  held-read_bytes c =
      ap (λ mem. bytes_at (mem s.address_extension) s.address (size s))
        (mem-read_memory m d (pos s.address) (pos (size s)) (pos s.address_extension) c)

  module _ (f : Floats) where
    -- Where UPLOAD tells the truth, whatever DOWNLOAD does: a verified write that returns leaves exactly the encoded value in the slave.
    pub write_characteristic-held :
        (v : Value f) (c : Client m) (n : Number f)
        → (write_characteristic m f s v true c).0 ≡ ok n
        → encode f s v ≡ ok (held (write_characteristic m f s v true c).1)
    unfolding write_characteristic
    write_characteristic-held v c n h = elim (Result-cases (encode f s v)) [
      | inr (e, refused) ↦ ground arith
      | inl (bs, encoded) ↦
          let c' = (write_bytes m s bs c).1 in
          elim (Result-cases (read_bytes m s c').0) [
            | inr (e, failed) ↦ ground arith
            | inl (r, read) ↦ ground (arith, read_bytes-held c' r read, text_eq_iff r bs)
          ]
    ]

    -- How a restore may end.
    abbrev Restored : List ℕ → Result (List ℕ) × Client m → Type 0
    Restored original (ok bs, c) = (bs ≡ original) × (held c ≡ original)
    Restored original (err e, c) = e ≡ not_restored

    restore_original-Restored :
        (original : List ℕ) (c : Client m) → Restored original (restore_original m f s original c)
    unfolding restore_original
    restore_original-Restored original c =
        let c' = (write_bytes m s original c).1 in
        elim (Result-cases (read_bytes m s c').0) [
          | inr (e, failed) ↦ ground arith
          | inl (r, read) ↦ ground (arith, read_bytes-held c' r read, text_eq_iff r original)
        ]

    -- How the smoke test may end, from a client that holds `original`.
    abbrev pub Recovered : {A : Type 0} → List ℕ → Result A × Client m → Type 0
    Recovered original (ok _, c) = held c ≡ original
    Recovered original (err e, c) = (e ≢ not_restored) → held c ≡ original

    try_requested-Recovered :
        (requested original : List ℕ) (c : Client m)
        → Recovered original (try_requested m f s requested original c)
    unfolding try_requested
    try_requested-Recovered requested original c =
        ground (arith, restore_original-Restored original (write_temporary m f s requested c).1)

    calibration_smoke_test-Recovered :
        (v : Value f) (c : Client m) → Recovered (held c) (calibration_smoke_test m f s v c)
    unfolding calibration_smoke_test
    calibration_smoke_test-Recovered v c = elim (Result-cases (read_bytes m s c).0) [
      | inr (e, failed) ↦ ground (arith, held-read_bytes c)
      | inl (original, read) ↦ elim (Result-cases (encode f s v)) [
        | inr (e, refused) ↦ ground (arith, held-read_bytes c)
        | inl (requested, encoded) ↦ ground (
          arith,
          read_bytes-held c original read,
          try_requested-Recovered requested original (read_bytes m s c).1,
        )
      ]
    ]

    Recovered-held :
        {A : Type 0} (original : List ℕ) (r : Result A) (c : Client m)
        → Recovered original (r, c)
        → r ≢ err not_restored
        → held c ≡ original
    Recovered-held original (ok a) c h other = h
    Recovered-held original (err e) c h other = h (λ same. other (ap err same))

    -- Where UPLOAD tells the truth, whatever DOWNLOAD does: the smoke test leaves the bytes of the
    -- scalar in the slave as they were, whatever it returns or raises, unless it raises
    -- CalibrationRestoreError.
    pub calibration_smoke_test-held :
        (v : Value f) (c : Client m)
        → (calibration_smoke_test m f s v c).0 ≢ err not_restored
        → held (calibration_smoke_test m f s v c).1 ≡ held c
    calibration_smoke_test-held v c other =
        let (r, c') = calibration_smoke_test m f s v c in
        Recovered-held (held c) r c' (calibration_smoke_test-Recovered v c) other
