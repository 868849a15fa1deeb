-- ===== src/Tests/Device.antt =====
-- A slave for the tests: 64 KB of zeros that every command reaches, with a MAX_CTO of 8.
use sim_rt.Prelude.{ℕ, ◌+◌, ◌≡◌, refl, sym, true, false, none, some, List, arith, length, codes}
use sim_rt.Prelude.Int.{pos}
use sim_rt.Exec.{ok, Exec}
use sim_rt.Transport.{TransportSettings, PyxcpConfig}
use sim_rt.Transport.Master.{Master}
use sim_rt.Scalar.Float64.{Floats}
use sim_rt.Client.Memory.{
  Bytes, bytes_at, length-bytes_at, store_at, Truthful, Writable, Serves, Responsive,
}

pub record Slave : Type 0 where
  pub memory : Bytes
  pub address : ℕ
  pub extension : ℕ

abbrev pub quiet : Exec Slave (Unit {0})
quiet w = (ok tt, w)

abbrev pub small_master : Master PyxcpConfig
small_master = record {
  World = Slave;
  Response = ℕ;
  create = λ _ w. (ok tt, w);
  transport_connect = quiet;
  connect = λ w. (ok 255, w);
  disconnect = quiet;
  close_base = quiet;
  set_policy_feeder = quiet;
  set_frame_sender = quiet;
  set_mta = λ a e w. (ok tt, record w { address = a; extension = e });
  upload = λ n w.
      (ok (bytes_at (w.memory w.extension) w.address n), record w { address = w.address + n });
  download = λ bs w. (
    ok tt,
    record w {
      memory = store_at w.memory w.extension w.address bs;
      address = w.address + length bs;
    },
  );
  max_cto = λ _. 8;
  bytes_per_element = λ _. some 1;
}

pub uploaded :
    (w : Slave) (n : ℕ) (bs : List ℕ)
    → ok (bytes_at (w.memory w.extension) w.address n) ≡ ok bs
    → (bs ≡ bytes_at (w.memory w.extension) w.address (length bs))
      × (w.address + n ≡ w.address + length bs)
uploaded w n bs h =
    let e : bytes_at (w.memory w.extension) w.address n ≡ bs = ground arith in
    let size : length bs ≡ n = rw (← e) (length-bytes_at (w.memory w.extension) w.address n) in
    rw size (sym e, refl)

abbrev pub small-Truthful : Truthful small_master
small-Truthful = record {
  mem = λ w. w.memory;
  mta = λ w. w.address;
  mta_extension = λ w. w.extension;
  mem-set_mta = λ a e w. refl;
  mem-upload = λ n w. refl;
  set_mta_moves = λ a e w h. (refl, refl);
  upload_reads = λ n w bs h. let (read, moved) = uploaded w n bs h in (read, moved, refl);
}

pub small-Writable : Writable small_master small-Truthful
small-Writable = record { download_writes = λ bs w h. (refl, refl, refl) }

pub small-Serves : (w : Slave) → Serves small_master w 8
small-Serves w = record { frame = refl; bytes = refl }

pub small-Responsive : Responsive small_master 8
small-Responsive = record {
  set_mta_ok = λ a e w s. refl;
  set_mta_serves = λ a e w s. small-Serves _;
  upload_ok = λ n w s low fits byte. (
    bytes_at (w.memory w.extension) w.address n,
    refl,
    length-bytes_at (w.memory w.extension) w.address n,
  );
  upload_serves = λ n w s. small-Serves _;
  download_ok = λ bs w s low fits byte. refl;
  download_serves = λ bs w s. small-Serves _;
}

abbrev pub blank : Slave
blank = record { memory = λ _ _. 0; address = 0; extension = 0 }

abbrev pub settings : TransportSettings
settings = record {
  host = codes "127.0.0.1";
  port = none;
  timeout = pos 2000000;
  bind_address = none;
  bind_port = none;
  ipv6 = false;
  protocol = codes " tcp";
  tcp_nodelay = true;
}

pub zeros_length : (n : ℕ) (bs : List ℕ) → some (bytes_at (λ _. 0) 0 n) ≡ some bs → length bs ≡ n
zeros_length n bs h =
    let e : bytes_at (λ _. 0) 0 n ≡ bs = ground arith in rw (← e) (length-bytes_at (λ _. 0) 0 n)

-- One float only, 0, whose bytes are zeros.
abbrev pub no_floats : Floats
no_floats = record {
  Float = Unit;
  of_text = λ _. none;
  of_int = λ _. some tt;
  is_finite = λ _. true;
  to_int = λ _. some (pos 0);
  differs = λ i x. false;
  pack = λ o n x. some (bytes_at (λ _. 0) 0 n);
  unpack = λ o n bs. tt;
  length-pack = λ o n x bs h. zeros_length n bs h;
}
