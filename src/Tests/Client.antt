-- ===== src/Tests/Client.antt =====
-- The client of `shared/python/simrt_xcp/client.py` on the slave of the tests.
use sim_rt.Prelude.{
  inr, ℕ, ◌≡◌, ◌≢◌, refl, sym, ◌∙◌, true, false, none, some, List, [], ◌∷◌, arith, codes, strip,
  upper,
}
use sim_rt.Prelude.Int.{pos}
use sim_rt.Exec.{ok, err, not_restored}
use sim_rt.Transport.{TransportSettings, post_init}
use sim_rt.Transport.Accepted.{IsUsable, post_init-IsUsable, IsUsable-post_init}
use sim_rt.Scalar.{
  A2lScalar, uword, characteristic, number, integer, encode, decode, type_is_float, to_integer,
  size, type_size,
}
use sim_rt.Scalar.Words.{little, pack_int, unpack_int}
use sim_rt.Client.{
  Client, ClientState, is_connected, connected, new_client, connect, disconnect, read_memory,
  write_memory, upload_loop, upload_chunk, download_loop,
}
use sim_rt.Client.Lifecycle.{
  Call, connecting, disconnecting, writing, IsConsistent, Settled, connect-Settled,
  disconnect-closes, run, run-IsConsistent, run_closed,
}
use sim_rt.Client.Memory.{bytes_at, store, store_at}
use sim_rt.Client.Reading.{read_memory-reads, Answers, read_memory-ok}
use sim_rt.Client.Writing.{write_memory-writes, write_memory-ok}
use sim_rt.Client.Characteristic.{
  write_bytes, read_bytes, write_characteristic, try_requested, restore_original, write_temporary,
  calibration_smoke_test,
}
use sim_rt.Client.Characteristic.Verified.{
  held, write_characteristic-held, calibration_smoke_test-held,
}
use sim_rt.Tests.Device.{
  small_master, small-Truthful, small-Writable, small-Responsive, small-Serves, blank, settings,
  no_floats,
}

abbrev fresh : Client small_master
fresh = new_client small_master settings blank

abbrev online : Client small_master
online = record {
  settings = settings;
  owned = true;
  state = ClientState.connected;
  connect_response = some 255;
  world = blank;
}

abbrev closed_client : Client small_master
closed_client = record {
  settings = settings;
  owned = false;
  state = ClientState.closed;
  connect_response = none;
  world = blank;
}

abbrev gain : A2lScalar
gain = record {
  name = codes "gain";
  kind = characteristic;
  address = 0x100;
  data_type = uword;
  byte_order = little;
  address_extension = 0;
}

new-IsConsistent : IsConsistent small_master fresh
unfolding new_client is_connected
new-IsConsistent = (refl, λ e. cc)

abbrev accepted : TransportSettings
accepted = record settings { port = some (pos 17725); protocol = codes "TCP" }

post_init-IsUsable_example : IsUsable settings accepted
unfolding post_init strip upper
post_init-IsUsable_example = post_init-IsUsable settings accepted refl

settings-IsUsable : IsUsable settings accepted
unfolding strip upper
settings-IsUsable = record {
  host = λ e. ground arith;
  protocol = inr refl;
  number = 17725;
  port = inr (refl, refl);
  port_fits = (omega arith, omega arith);
  microseconds = 2000000;
  timeout = (refl, omega arith);
  bind_port = tt;
  rest = refl;
}

IsUsable-post_init_example : post_init settings ≡ ok accepted
IsUsable-post_init_example = IsUsable-post_init settings accepted settings-IsUsable

connect-Settled_example : Settled small_master (connect small_master fresh)
connect-Settled_example = connect-Settled small_master fresh new-IsConsistent

abbrev session : List Call
session = connecting ∷ writing (pos 16) (1 ∷ 2 ∷ []) (pos 0) ∷ disconnecting ∷ connecting ∷ []

run-IsConsistent_example : IsConsistent small_master (run small_master session fresh)
run-IsConsistent_example = run-IsConsistent small_master session fresh new-IsConsistent

run_closed_example : run small_master session closed_client ≡ closed_client
run_closed_example = run_closed small_master session closed_client refl refl

online-IsConsistent : IsConsistent small_master online
unfolding is_connected
online-IsConsistent = (refl, λ e. cc)

disconnect-closes_example :
    ((disconnect small_master online).1.state ≡ ClientState.closed)
    × ((disconnect small_master online).1.owned ≡ false)
disconnect-closes_example = disconnect-closes small_master online online-IsConsistent

online-Answers : Answers small_master small-Responsive online
unfolding connected is_connected
online-Answers = (refl, small-Serves blank)

read_memory-ok_example :
    (bs : List ℕ) × ((read_memory small_master (pos 16) (pos 20) (pos 0) online).0 ≡ ok bs)
read_memory-ok_example =
    read_memory-ok small_master small-Responsive 16 20 0 online online-Answers (omega arith)
      (omega arith) (omega arith) (omega arith)

-- twenty bytes, in frames of 7, 7 and 6
twenty :
    (read_memory small_master (pos 16) (pos 20) (pos 0) online).0 ≡ ok (bytes_at (λ _. 0) 16 20)
unfolding read_memory upload_loop upload_chunk
twenty = refl

read_memory-reads_example : bytes_at (λ _. 0) 16 20 ≡ bytes_at (λ _. 0) 16 20
read_memory-reads_example =
    read_memory-reads small_master small-Truthful 16 20 0 online (bytes_at (λ _. 0) 16 20) twenty

abbrev ten : List ℕ
ten = 10 ∷ 11 ∷ 12 ∷ 13 ∷ 14 ∷ 15 ∷ 16 ∷ 17 ∷ 18 ∷ 19 ∷ []

write_memory-ok_example : (write_memory small_master (pos 16) ten (pos 0) online).0 ≡ ok tt
write_memory-ok_example =
    write_memory-ok small_master small-Responsive 16 ten 0 online online-Answers (omega arith)
      (omega arith) (omega arith) (omega arith)

write_memory-writes_example :
    small-Truthful.mem (write_memory small_master (pos 16) ten (pos 0) online).1.world
    ≡ store_at (λ _ _. 0) 0 16 ten
write_memory-writes_example =
    write_memory-writes small_master small-Truthful small-Writable 16 ten 0 online
      write_memory-ok_example

written :
    (write_characteristic small_master no_floats gain (number (integer (pos 0x1234))) true online).0
    ≡ ok (integer (pos 0x1234))
unfolding write_characteristic write_bytes read_bytes write_memory download_loop read_memory
    upload_loop upload_chunk encode decode store store_at type_is_float to_integer pack_int size
    type_size unpack_int
written = refl

write_characteristic-held_example :
    encode no_floats gain (number (integer (pos 0x1234)))
    ≡ ok (
        held small_master small-Truthful gain
          (write_characteristic small_master no_floats gain
            (number (integer (pos 0x1234)))
            true
            online).1)
write_characteristic-held_example =
    write_characteristic-held small_master small-Truthful gain no_floats
      (number (integer (pos 0x1234))) online (integer (pos 0x1234)) written

tested :
    (calibration_smoke_test small_master no_floats gain (number (integer (pos 7))) online).0
    ≡ ok (record {
      name = codes "gain";
      original_value = integer (pos 0);
      requested_value = integer (pos 7);
      readback_value = integer (pos 7);
      restored_value = integer (pos 0);
    })
unfolding calibration_smoke_test write_bytes read_bytes write_memory download_loop read_memory
    upload_loop upload_chunk encode decode store store_at type_is_float to_integer pack_int size
    type_size unpack_int try_requested restore_original write_temporary
tested = refl

returned : {A : Type 0} (a : A) → ok a ≢ err not_restored
returned a e = cc

calibration_smoke_test-held_example :
    held small_master small-Truthful gain
      (calibration_smoke_test small_master no_floats gain (number (integer (pos 7))) online).1
    ≡ held small_master small-Truthful gain online
calibration_smoke_test-held_example =
    calibration_smoke_test-held small_master small-Truthful gain no_floats
      (number (integer (pos 7))) online (λ e. returned _ (sym tested ∙ e))
