-- ===== src/Session/Keeping.antt =====
-- What each command of the master and each change of the books keeps, the calibration methods of
-- `shared/python/pyxcp_host/services/xcp_session.py` keep.
use sim_rt.Prelude.{
  ◌≡◌, ℕ, List, [], ◌∷◌, ◌++◌, Bool, true, false, arith, Text, Option-cases, inl, inr,
}
use sim_rt.Prelude.Int.{ℤ, pos}
use sim_rt.Prelude.Dict.{Dict, lookup, insert, keys}
use sim_rt.Exec.{Error, Exec, Keeps, >>=-Keeps, Result-cases}
use sim_rt.Transport.{PyxcpConfig}
use sim_rt.Transport.Master.{Master}
use sim_rt.Scalar.{size, encode, A2lScalar, Number, Value, characteristic}
use sim_rt.Scalar.Database.{get_scalar}
use sim_rt.Scalar.Float64.{Floats}
use sim_rt.Client.{Client, read_memory, write_memory}
use sim_rt.Client.Characteristic.{read_bytes, write_bytes, verify_bytes, write_characteristic}
use sim_rt.Session.{
  Session, Entry, on_client, require_client, read_original, keep_original, write_entry, restore_one,
  restore_loop, restore_all, restore_named, recover, write_loop, write_calibrations, unique_names,
  entries_of,
}

-- The state of the client but its world, and the acquisition's view of it, stay.
module _ (m : Master PyxcpConfig) (P : Client m → Type 0)
    (by_read : (a n e : ℤ) → Keeps P (read_memory m a n e))
    (by_write : (a : ℤ) (bs : List ℕ) (e : ℤ) → Keeps P (write_memory m a bs e)) (b : Bool) where
  abbrev pub HasClient : Session m → Type 0
  HasClient s = P s.client × (s.attached ≡ b)

  module _ (f : Floats) (by_name : Dict A2lScalar) where
    on_client-Keeps :
        {A : Type 0} (g : Exec (Client m) A) → Keeps P g → Keeps HasClient (on_client m f by_name g)
    on_client-Keeps g k = record { at = λ s h. (k.at s.client h.0, h.1) }

    verify_bytes-Keeps : (s : A2lScalar) (bs : List ℕ) → Keeps P (verify_bytes m f s bs)
    unfolding verify_bytes read_bytes
    verify_bytes-Keeps s bs = record {
      at = λ c h.
          ground (arith, (by_read (pos s.address) (pos (size s)) (pos s.address_extension)).at c h);
    }

    write_verified-Keeps :
        (s : A2lScalar) (bs : List ℕ) (c : Client m)
        → P c
        → P (verify_bytes m f s bs (write_bytes m s bs c).1).1
    unfolding write_bytes
    write_verified-Keeps s bs c h =
        (verify_bytes-Keeps s bs).at _
          ((by_write (pos s.address) bs (pos s.address_extension)).at c h)

    write_characteristic-Keeps :
        (s : A2lScalar) (v : Value f) → Keeps P (write_characteristic m f s v true)
    unfolding write_characteristic write_bytes
    write_characteristic-Keeps s v = record {
      at = λ c h. elim (Result-cases (encode f s v)) [
        | inl (bs, e) ↦ ground (
          arith,
          write_verified-Keeps s bs c h,
          (by_write (pos s.address) bs (pos s.address_extension)).at c h,
        )
        | inr (_, e) ↦ ground arith
      ];
    }

    keep_original-Keeps :
        (name : Text) (s : A2lScalar) → Keeps HasClient (keep_original m f by_name name s)
    unfolding keep_original read_original read_bytes
    keep_original-Keeps name s = record {
      at = λ t h. ground (
        arith,
        (by_read (pos s.address) (pos (size s)) (pos s.address_extension)).at t.client h.0,
      );
    }

    write_entry-Keeps : (e : Entry m f by_name) → Keeps HasClient (write_entry m f by_name e)
    unfolding write_entry
    write_entry-Keeps e =
        >>=-Keeps (keep_original m f by_name e.name e.scalar) _
          (keep_original-Keeps e.name e.scalar)
          (λ _. on_client-Keeps _ (write_characteristic-Keeps e.scalar e.value))

    restore_one-Keeps :
        (name : Text) (s : A2lScalar) (bs : List ℕ)
        → Keeps HasClient (restore_one m f by_name name s bs)
    unfolding restore_one write_bytes read_bytes
    restore_one-Keeps name s bs = record {
      at = λ t h.
          let written = (by_write (pos s.address) bs (pos s.address_extension)).at t.client h.0 in
          ground (
            arith,
            written,
            (by_read (pos s.address) (pos (size s)) (pos s.address_extension)).at _ written,
          );
    }

    restore_loop-Keeps :
        (names : List Text) (restored : Dict (Number f)) (failed : Bool)
        → Keeps HasClient (restore_loop m f by_name names restored failed)
    unfolding restore_loop
    restore_loop-Keeps [] restored failed = record { at = λ s h. h }
    restore_loop-Keeps (name ∷ names) restored failed = record {
      at = λ s h. elim (Option-cases (lookup name s.originals)) [
        | inl absent ↦ ground (arith, (restore_loop-Keeps names restored failed).at s h)
        | inr (original, kept) ↦ elim (Result-cases (get_scalar by_name name characteristic)) [
          | inr (why, unknown) ↦ ground arith
          | inl (scalar, known) ↦
              let one = (restore_one-Keeps name scalar original).at s h in
              elim (Result-cases (restore_one m f by_name name scalar original s).0) [
                | inl (value, e) ↦
                    rw (restore_loop, kept, known, e)
                      ((restore_loop-Keeps names (insert name value restored) failed).at _ one)
                | inr (why, e) ↦
                    rw (restore_loop, kept, known, e)
                      ((restore_loop-Keeps names restored true).at _ one)
              ]
        ]
      ];
    }

    pub restore_all-Keeps : Keeps HasClient (restore_all m f by_name)
    unfolding restore_all require_client
    restore_all-Keeps = record {
      at = λ s h. ground (arith, (restore_loop-Keeps (keys s.originals) [] false).at s h);
    }

    pub restore_named-Keeps :
        (names : List Text) → Keeps HasClient (restore_named m f by_name names)
    unfolding restore_named require_client
    restore_named-Keeps names = record {
      at = λ s h. elim (Result-cases (unique_names names)) [
        | inl (selected, e) ↦ ground (arith, (restore_loop-Keeps selected [] false).at s h)
        | inr (_, e) ↦ ground arith
      ];
    }

    recover-Keeps : (names : List Text) (e : Error) → Keeps HasClient (recover m f by_name names e)
    unfolding recover
    recover-Keeps names e = record {
      at = λ s h. ground (arith, (restore_named-Keeps names).at s h);
    }

    write_loop-Keeps :
        (entries : List (Entry m f by_name)) (written : List Text) (result : Dict (Number f))
        → Keeps HasClient (write_loop m f by_name entries written result)
    unfolding write_loop
    write_loop-Keeps [] written result = record { at = λ s h. h }
    write_loop-Keeps (entry ∷ entries) written result = record {
      at = λ s h.
          let one = (write_entry-Keeps entry).at s h in
          elim (Result-cases (write_entry m f by_name entry s).0) [
            | inl (value, e) ↦
                rw (write_loop, e)
                  ((write_loop-Keeps entries (written ++ (entry.name ∷ []))
                      (insert entry.name value result)).at
                    _ one)
            | inr (why, e) ↦
                rw (write_loop, e) ((recover-Keeps (written ++ (entry.name ∷ [])) why).at _ one)
          ];
    }

    pub write_calibrations-Keeps :
        (values : List (Text × Value f)) → Keeps HasClient (write_calibrations m f by_name values)
    unfolding write_calibrations require_client
    write_calibrations-Keeps [] = record { at = λ s h. h }
    write_calibrations-Keeps (v ∷ values) = record {
      at = λ s h. elim (Result-cases (entries_of m f by_name (v ∷ values))) [
        | inl (entries, e) ↦ ground (arith, (write_loop-Keeps entries [] []).at s h)
        | inr (_, e) ↦ ground arith
      ];
    }
