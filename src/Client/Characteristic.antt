-- ===== src/Client/Characteristic.antt =====
-- The typed accesses of XcpClient (`shared/python/simrt_xcp/client.py`): scalars, verified writes
-- and the calibration smoke test.
pub mod Verified
use sim_rt.Prelude.{ℕ, Bool, true, false, not, List, if◌then◌else◌, text_eq, Text}
use sim_rt.Prelude.Int.{ℤ, pos}
use sim_rt.Exec.{
  Result, ok, err, Error, Exec, pure, raise, of_result, ◌>>=◌, ◌>>◌, raise_if, catch, wrong_kind,
  equal_bytes, not_verified, not_restored,
}
use sim_rt.Transport.{PyxcpConfig}
use sim_rt.Transport.Master.{Master}
use sim_rt.Scalar.{
  A2lScalar, Kind, characteristic, measurement, size, Number, Value, decode, encode,
}
use sim_rt.Scalar.Float64.{Floats}
use sim_rt.Client.{Client, read_memory, write_memory}

unfoldable pub is_characteristic : A2lScalar → Bool
is_characteristic s = elim s.kind [ characteristic ↦ true | measurement ↦ false ]

pub record CalibrationSmokeResult (f : Floats) : Type 0 where
  pub name : Text
  pub original_value : Number f
  pub requested_value : Number f
  pub readback_value : Number f
  pub restored_value : Number f

module _ (m : Master PyxcpConfig) where
  -- read_memory and write_memory at the span of a scalar
  unfoldable pub read_bytes : A2lScalar → Exec (Client m) (List ℕ)
  read_bytes s = read_memory m (pos s.address) (pos (size s)) (pos s.address_extension)

  unfoldable pub write_bytes : A2lScalar → List ℕ → Exec (Client m) (Unit {0})
  write_bytes s bs = write_memory m (pos s.address) bs (pos s.address_extension)

module _ (m : Master PyxcpConfig) (f : Floats) where
  -- XcpClient.read_scalar
  unfoldable pub read_scalar : A2lScalar → Exec (Client m) (Number f)
  read_scalar s = do payload ← read_bytes m s; of_result (decode f s payload)

  -- XcpClient.read_measurement
  unfoldable pub read_measurement : A2lScalar → Exec (Client m) (Number f)
  unfolding read_scalar is_characteristic
  read_measurement s = if is_characteristic s then raise wrong_kind else read_scalar s

  -- XcpClient.read_characteristic
  unfoldable pub read_characteristic : A2lScalar → Exec (Client m) (Number f)
  unfolding read_scalar is_characteristic
  read_characteristic s = if is_characteristic s then read_scalar s else raise wrong_kind

  -- XcpClient.write_scalar
  unfoldable pub write_scalar : A2lScalar → Value f → Exec (Client m) (Unit {0})
  unfolding is_characteristic
  write_scalar s v = do
    raise_if (not (is_characteristic s)) wrong_kind
    payload ← of_result (encode f s v)
    write_bytes m s payload

  -- the readback of `write_characteristic`
  unfoldable pub verify_bytes : A2lScalar → List ℕ → Exec (Client m) (Number f)
  verify_bytes s requested = do
    readback ← read_bytes m s
    raise_if (not (text_eq readback requested)) not_verified
    of_result (decode f s readback)

  -- XcpClient.write_characteristic
  unfoldable pub write_characteristic : A2lScalar → Value f → Bool → Exec (Client m) (Number f)
  unfolding is_characteristic verify_bytes
  write_characteristic s v verify = do
    raise_if (not (is_characteristic s)) wrong_kind
    requested ← of_result (encode f s v)
    write_bytes m s requested
    if verify then verify_bytes s requested else of_result (decode f s requested)

  -- the `try` of the smoke test
  unfoldable pub write_temporary : A2lScalar → List ℕ → Exec (Client m) (List ℕ)
  write_temporary s requested = do
    write_bytes m s requested
    readback ← read_bytes m s
    raise_if (not (text_eq readback requested)) not_verified
    pure readback

  -- its `finally`
  unfoldable pub restore_original : A2lScalar → List ℕ → Exec (Client m) (List ℕ)
  restore_original s original = do
    restored ← catch (do write_bytes m s original; read_bytes m s) (λ _. raise not_restored)
    raise_if (not (text_eq restored original)) not_restored
    pure restored

  -- `try` and `finally` together: the bytes read back and the bytes restored
  unfoldable pub try_requested : A2lScalar → List ℕ → List ℕ → Exec (Client m) (List ℕ × List ℕ)
  try_requested s requested original c =
      let (r, c') = write_temporary s requested c in
      let (q, c'') = restore_original s original c' in
      elim q [
        | err e ↦ (err e, c'')
        | ok restored ↦ elim r [
          | ok readback ↦ (ok (readback, restored), c'')
          | err e ↦ (err e, c'')
        ]
      ]

  -- XcpClient.calibration_smoke_test
  unfoldable pub calibration_smoke_test :
      A2lScalar → Value f → Exec (Client m) (CalibrationSmokeResult f)
  unfolding is_characteristic
  calibration_smoke_test s v = do
    raise_if (not (is_characteristic s)) wrong_kind
    original ← read_bytes m s
    requested ← of_result (encode f s v)
    raise_if (text_eq requested original) equal_bytes
    original_value ← of_result (decode f s original)
    both ← try_requested s requested original
    requested_value ← of_result (decode f s requested)
    readback_value ← of_result (decode f s both.0)
    restored_value ← of_result (decode f s both.1)
    pure (record {
      name = s.name;
      original_value = original_value;
      requested_value = requested_value;
      readback_value = readback_value;
      restored_value = restored_value;
    })
