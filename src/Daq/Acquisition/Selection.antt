-- ===== src/Daq/Acquisition/Selection.antt =====
-- The signals that `start` of `shared/python/pyxcp_host/services/daq_acquisition.py` accepts.
use sim_rt.Prelude.{◌+◌, ◌≤◌, ◌≡◌, ◌≢◌, ◌⊎◌, false, List, [], ◌∷◌, arith}
use sim_rt.Exec.{ok}
use sim_rt.Scalar.{A2lScalar, measurement, size, type_size}
use sim_rt.Transport.{in_range}
use sim_rt.Client.{validate_address, validate_address_span}
use sim_rt.Client.Characteristic.{is_characteristic}
use sim_rt.Daq.Acquisition.{scalars_overlap, overlaps_any, check_measurement, check_measurements}

-- The bytes of two scalars are different ones.
abbrev pub AreApart : A2lScalar → A2lScalar → Type 0
AreApart s t =
    (s.address_extension ≢ t.address_extension)
    ⊎ ((s.address + size s ≤ t.address) ⊎ (t.address + size t ≤ s.address))

abbrev pub AreAllApart : A2lScalar → List A2lScalar → Type 0
AreAllApart s [] = Unit
AreAllApart s (t ∷ ts) = AreApart s t × AreAllApart s ts

-- Each scalar is a measurement in the 32-bit space and apart from the ones before it.
abbrev pub IsSelection : List A2lScalar → List A2lScalar → Type 0
IsSelection checked [] = Unit
IsSelection checked (s ∷ rest) =
    (s.kind ≡ measurement)
    × (s.address + size s ≤ 0x100000000)
    × AreAllApart s checked
    × IsSelection (s ∷ checked) rest

size-bounds : (s : A2lScalar) → 1 ≤ size s
unfolding size type_size
size-bounds s = ground arith

scalars_overlap-AreApart : (s t : A2lScalar) → scalars_overlap s t ≡ false → AreApart s t
unfolding scalars_overlap
scalars_overlap-AreApart s t h = ground (arith, size-bounds s, size-bounds t)

overlaps_any-AreAllApart :
    (s : A2lScalar) (checked : List A2lScalar)
    → overlaps_any s checked ≡ false
    → AreAllApart s checked
unfolding overlaps_any
overlaps_any-AreAllApart s [] h = tt
overlaps_any-AreAllApart s (t ∷ checked) h =
    ground (arith, scalars_overlap-AreApart s t, overlaps_any-AreAllApart s checked)

check_measurement-accepts :
    (checked : List A2lScalar) (s : A2lScalar)
    → check_measurement checked s ≡ ok tt
    → (s.kind ≡ measurement) × (s.address + size s ≤ 0x100000000) × AreAllApart s checked
unfolding check_measurement is_characteristic validate_address_span validate_address in_range
check_measurement-accepts checked s h =
    ground (arith, size-bounds s, overlaps_any-AreAllApart s checked)

-- Signals pass the tests of `start` only if each of them is a measurement that ends within the 32-bit
-- space and shares no byte with another one, if none is among the ones already checked.
pub check_measurements-IsSelection :
    (checked selected : List A2lScalar)
    → check_measurements checked selected ≡ ok tt
    → IsSelection checked selected
unfolding check_measurements
check_measurements-IsSelection checked [] h = tt
check_measurements-IsSelection checked (s ∷ rest) h =
    ground (
      arith,
      check_measurement-accepts checked s,
      check_measurements-IsSelection (s ∷ checked) rest,
    )
