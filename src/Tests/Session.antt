-- ===== src/Tests/Session.antt =====
-- A session of `shared/python/pyxcp_host/services/xcp_session.py` on the slave of the tests.
use sim_rt.Prelude.{
  ℕ, zero, suc, ◌+◌, ◌≤◌, ◌<◌, ◌≡◌, ◌≢◌, ◌⊎◌, inl, inr, refl, Bool, true, false, Option, none, some,
  List, [], ◌∷◌, arith, codes, Text, length,
}
use sim_rt.Prelude.Int.{pos}
use sim_rt.Prelude.Dict.{Dict, lookup}
use sim_rt.Exec.{ok}
use sim_rt.Scalar.{A2lScalar, uword, slong, characteristic, number, integer, text, Number, Value}
use sim_rt.Scalar.Words.{Endian, little}
use sim_rt.Client.{Client, ClientState, write_memory}
use sim_rt.Client.Memory.{Contained, store_at_outside}
use sim_rt.Client.Containment.{write_memory-contained}
use sim_rt.Session.{Session, write_calibrations, restore_all}
use sim_rt.Session.Pending.{IsRecoverable}
use sim_rt.Session.Restored.{restore_all-IsRecoverable}
use sim_rt.Session.Written.{write_calibrations-IsRecoverable}
use sim_rt.Session.Recovery.{
  CalibrationCall, write_batch, restore_every, call_all, call_all-restored, fresh-IsRecoverable,
}
use sim_rt.Tests.Device.{small_master, small-Truthful, blank, settings, no_floats}

pub small-Contained : Contained small_master small-Truthful
small-Contained = record {
  download_contained = λ bs w e x h. store_at_outside w.memory w.extension w.address bs e x h;
  download_moves = λ bs w h. (refl, refl);
}

abbrev pub catalog : Dict A2lScalar
catalog =
    (
      codes "gain",
      record {
        name = codes "gain";
        kind = characteristic;
        address = 0x100;
        data_type = uword;
        byte_order = little;
        address_extension = 0;
      },
    )
    ∷ (
      codes "bias",
      record {
        name = codes "bias";
        kind = characteristic;
        address = 0x102;
        data_type = slong;
        byte_order = little;
        address_extension = 0;
      },
    )
    ∷ []

abbrev pub session : Session small_master
session = record {
  client = record {
    settings = settings;
    owned = true;
    state = ClientState.connected;
    connect_response = some 255;
    world = blank;
  };
  attached = true;
  originals = [];
  spans = [];
}

abbrev pub batch : List (Text × Value no_floats)
batch = (codes "gain", number (integer (pos 3))) ∷ (codes "bias", text (codes "-5")) ∷ []

abbrev calls : List (CalibrationCall no_floats)
calls = write_batch batch ∷ write_batch ((codes "gain", number (integer (pos 70000))) ∷ []) ∷ []

session-IsRecoverable : IsRecoverable small_master small-Truthful catalog (λ _ _. 0) session
session-IsRecoverable =
    fresh-IsRecoverable small_master small-Truthful small-Contained no_floats catalog session refl

write_memory-contained_example :
    small-Truthful.mem
      (write_memory small_master (pos 16) (1 ∷ 2 ∷ []) (pos 0) session.client).1.world
      0
      18
    ≡ 0
write_memory-contained_example =
    write_memory-contained small_master small-Truthful small-Contained 16 (1 ∷ 2 ∷ []) 0
      session.client 0 18 (inr (inr (omega arith)))

write_calibrations-IsRecoverable_example :
    IsRecoverable small_master small-Truthful catalog
      (λ _ _. 0)
      (write_calibrations small_master no_floats catalog batch session).1
write_calibrations-IsRecoverable_example =
    write_calibrations-IsRecoverable small_master small-Truthful small-Contained no_floats catalog
      (λ _ _. 0) batch session session-IsRecoverable

restore_all-IsRecoverable_example :
    IsRecoverable small_master small-Truthful catalog
      (λ _ _. 0)
      (restore_all small_master no_floats catalog session).1
restore_all-IsRecoverable_example =
    restore_all-IsRecoverable small_master small-Truthful small-Contained no_floats catalog
      (λ _ _. 0) session session-IsRecoverable

-- the second batch does not fit the word, so its name is restored; the other one is left to restore
restored :
    (restore_all small_master no_floats catalog
      (call_all small_master no_floats catalog calls session)).0
    ≡ ok ((codes "bias", integer (pos 0)) ∷ [])
unfolding restore_all call_all write_calibrations sim_rt.Client.connected sim_rt.Session.entries_of
    sim_rt.Scalar.Database.get_scalar sim_rt.Session.validate_non_overlapping sim_rt.Session.clashes
    sim_rt.Prelude.Dict.insert sim_rt.Session.span_of sim_rt.Scalar.size sim_rt.Scalar.type_size
    sim_rt.Prelude.Dict.contains sim_rt.Client.Characteristic.read_bytes sim_rt.Client.read_memory
    sim_rt.Client.upload_loop sim_rt.Client.Characteristic.write_characteristic sim_rt.Scalar.encode
    sim_rt.Client.Characteristic.verify_bytes sim_rt.Client.Characteristic.write_bytes
    sim_rt.Client.download_loop sim_rt.Client.upload_chunk write_memory sim_rt.Prelude.Dict.erase
    sim_rt.Prelude.Dict.keys lookup sim_rt.Scalar.decode sim_rt.Scalar.to_integer
    sim_rt.Scalar.type_is_float sim_rt.Scalar.Words.pack_int sim_rt.Scalar.Words.unpack_int
    sim_rt.Scalar.Literals.int_literal sim_rt.Session.restore_loop sim_rt.Session.restore_one
    sim_rt.Session.restore_named sim_rt.Session.recover sim_rt.Session.unique_names
    sim_rt.Session.Recovery.call_session sim_rt.Client.Memory.store_at sim_rt.Client.Memory.store
restored = refl

call_all-restored_example :
    small-Truthful.mem
      (restore_all small_master no_floats catalog
        (call_all small_master no_floats catalog calls session)).1.client.world
      0
      0x103
    ≡ 0
call_all-restored_example =
    call_all-restored small_master small-Truthful small-Contained no_floats catalog calls session
      ((codes "bias", integer (pos 0)) ∷ []) 0 0x103 refl restored
