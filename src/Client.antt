-- ===== src/Client.antt =====
-- XcpClient of `shared/python/simrt_xcp/client.py`: the lifecycle of one client-owned master and
-- byte-addressed memory access in bounded UPLOAD and DOWNLOAD frames. The proofs are in the
-- modules below.
mod State
pub mod Lifecycle
pub mod Memory
pub mod Keeping
pub mod Reading
pub mod Writing
pub mod Containment
pub mod Characteristic
pub use State.{ClientState}
unfoldable pub use State.{is_connected, is_new}
use sim_rt.Prelude.{
  ℕ, zero, suc, ◌+◌, ◌-◌, min, Bool, true, false, not, ◌&&◌, ◌||◌, Option, none, some, List, [],
  ◌∷◌, ◌++◌, ltb, leb, ◌==◌, if◌then◌else◌, length, take, drop,
}
use sim_rt.Prelude.Int.{ℤ, pos, negsuc, pos_part, ltb_ℤ, leb_ℤ}
use sim_rt.Exec.{
  Result, ok, err, Error, Exec, pure, raise, gets, of_result, ◌>>=◌, ◌>>◌, modify, raise_if, catch,
  finally, address_range, extension_range, address_span, negative_size, not_connected, single_use,
  granularity, small_cto, short_upload,
}
use sim_rt.Transport.{TransportSettings, PyxcpConfig, build_pyxcp_config, in_range}
use sim_rt.Transport.Master.{Master}

-- `self._master is not None` is `owned`; the object itself is the world's.
pub record Client (m : Master PyxcpConfig) : Type 0 where
  pub settings : TransportSettings
  pub owned : Bool
  pub state : ClientState
  pub connect_response : Option m.Response
  pub world : m.World

-- XcpClient._validate_address
unfoldable pub validate_address : ℤ → ℤ → Result (Unit {0})
unfolding in_range
validate_address address extension =
    if not (in_range (pos 0) (pos 0xFFFFFFFF) address)
    then err address_range
    else if not (in_range (pos 0) (pos 0xFF) extension)
    then err extension_range
    else ok tt

-- XcpClient._validate_address_span, with both sides of `size - 1 > 0xFFFFFFFF - address` moved
unfoldable pub validate_address_span : ℤ → ℤ → ℤ → Result (Unit {0})
unfolding validate_address
validate_address_span address size extension = elim (validate_address address extension) [
  | err e ↦ err e
  | ok _ ↦
      if ltb_ℤ (pos 0) size && ltb (0xFFFFFFFF + 1) (pos_part size + pos_part address)
      then err address_span
      else ok tt
]

module _ (m : Master PyxcpConfig) where
  -- an operation of the master, on the client's world
  abbrev pub on_world : {A : Type 0} → Exec m.World A → Exec (Client m) A
  on_world f c = let (r, w) = f c.world in (r, record c { world = w })

  -- XcpClient.__init__
  unfoldable pub new_client : TransportSettings → m.World → Client m
  new_client settings w = record {
    settings = settings;
    owned = false;
    state = ClientState.new;
    connect_response = none;
    world = w;
  }

  -- XcpClient.connected
  unfoldable pub connected : Client m → Bool
  unfolding is_connected
  connected c = c.owned && is_connected c.state

  -- the property `master`
  unfoldable pub require_master : Exec (Client m) (Unit {0})
  unfolding connected
  require_master c = (if connected c then ok tt else err not_connected, c)

  -- _SessionMaster.close
  unfoldable pub close_master : Exec m.World (Unit {0})
  close_master = finally m.close_base (m.set_policy_feeder >> m.set_frame_sender)

  -- `self._master = None` and `self._state = ClientState.CLOSED`
  unfoldable pub release : Exec (Client m) (Unit {0})
  release c = (ok tt, record c { owned = false; state = ClientState.closed })

  -- the `except` of `connect`; `master` is set exactly if the factory has returned
  unfoldable pub abandon : Error → Exec (Client m) m.Response
  unfolding close_master release
  abandon e c =
      (if c.owned then finally (on_world close_master) release >> raise e else release >> raise e) c

  -- the `try` of `connect`
  unfoldable pub open_master : Exec (Client m) m.Response
  open_master = do
    settings ← gets (λ c. c.settings)
    on_world (m.create (build_pyxcp_config settings))
    modify (λ c. record c { owned = true })
    on_world m.transport_connect
    on_world m.connect

  -- the part of `connect` that opens a session
  unfoldable pub open_session : Exec (Client m) (Option m.Response)
  unfolding open_master abandon
  open_session = do
    modify (λ c. record c { state = ClientState.opening })
    response ← catch open_master abandon
    modify (λ c. record c { connect_response = some response; state = ClientState.connected })
    pure (some response)

  -- XcpClient.connect
  unfoldable pub connect : Exec (Client m) (Option m.Response)
  unfolding connected is_new open_session
  connect c =
      if connected c
      then (ok c.connect_response, c)
      else if not (is_new c.state)
      then (err single_use, c)
      else open_session c

  -- the inner `finally` of `disconnect`
  unfoldable pub forget : Exec (Client m) (Unit {0})
  forget c =
      (ok tt, record c { owned = false; state = ClientState.closed; connect_response = none })

  -- XcpClient.disconnect
  unfoldable pub disconnect : Exec (Client m) (Unit {0})
  unfolding is_new is_connected close_master forget
  disconnect c =
      if not c.owned
      then (ok tt, if is_new c.state then record c { state = ClientState.closed } else c)
      else finally (if is_connected c.state then on_world m.disconnect else pure tt)
          (finally (on_world close_master) forget) c

  -- XcpClient._require_byte_addressing
  unfoldable pub require_byte_addressing : Exec (Client m) (Unit {0})
  unfolding require_master
  require_byte_addressing = do
    require_master
    reported ← gets (λ c. m.bytes_per_element c.world)
    raise_if (not (elim reported [ none ↦ false | some n ↦ n == 1 ])) granularity

  -- one round of the loop below: an UPLOAD and the test of its length
  unfoldable pub upload_chunk : ℕ → Exec (Client m) (List ℕ)
  upload_chunk chunk_size = do
    chunk ← on_world (m.upload chunk_size)
    raise_if (not (length chunk == chunk_size)) short_upload
    pure chunk

  -- `while remaining:` of `read_memory`. The fuel is the number of bytes: each round takes one
  -- byte at least, so at fuel 0 nothing remains.
  unfoldable pub upload_loop : ℕ → ℕ → ℕ → List ℕ → Exec (Client m) (List ℕ)
  unfolding upload_chunk
  upload_loop zero remaining max_chunk result = pure result
  upload_loop (suc fuel) remaining max_chunk result = elim (remaining == 0) [
    | true ↦ pure result
    | false ↦
        let chunk_size = min remaining max_chunk in
        do
          chunk ← upload_chunk chunk_size
          upload_loop fuel (remaining - chunk_size) max_chunk (result ++ chunk)
  ]

  -- the part of `read_memory` that talks to the slave
  unfoldable pub upload_all : ℕ → ℕ → ℕ → Exec (Client m) (List ℕ)
  unfolding require_byte_addressing
  upload_all address size extension = do
    require_byte_addressing
    max_chunk ← gets (λ c. min 0xFF (m.max_cto c.world - 1))
    raise_if (ltb max_chunk 1) small_cto
    on_world (m.set_mta address extension)
    upload_loop size size max_chunk []

  -- XcpClient.read_memory
  unfoldable pub read_memory : ℤ → ℤ → ℤ → Exec (Client m) (List ℕ)
  unfolding validate_address_span require_master upload_all
  read_memory address size extension = do
    raise_if (ltb_ℤ size (pos 0)) negative_size
    of_result (validate_address_span address size extension)
    require_master
    if pos_part size == 0
        then pure []
        else upload_all (pos_part address) (pos_part size) (pos_part extension)

  -- `for offset in range(0, len(payload), max_chunk):` of `write_memory`. The fuel is the length:
  -- each round moves on by one byte at least.
  unfoldable pub download_loop : ℕ → ℕ → ℕ → List ℕ → Exec (Client m) (Unit {0})
  download_loop zero offset max_chunk payload = pure tt
  download_loop (suc fuel) offset max_chunk payload = elim (ltb offset (length payload)) [
    | false ↦ pure tt
    | true ↦ do
      on_world (m.download (take max_chunk (drop offset payload)))
      download_loop fuel (offset + max_chunk) max_chunk payload
  ]

  unfoldable pub download_all : ℕ → List ℕ → ℕ → Exec (Client m) (Unit {0})
  unfolding require_byte_addressing
  download_all address payload extension = do
    require_byte_addressing
    max_chunk ← gets (λ c. min 0xFF (m.max_cto c.world - 2))
    raise_if (ltb max_chunk 1) small_cto
    on_world (m.set_mta address extension)
    download_loop (length payload) 0 max_chunk payload

  -- XcpClient.write_memory
  unfoldable pub write_memory : ℤ → List ℕ → ℤ → Exec (Client m) (Unit {0})
  unfolding validate_address_span require_master download_all
  write_memory address payload extension = do
    of_result (validate_address_span address (pos (length payload)) extension)
    require_master
    if length payload == 0
        then pure tt
        else download_all (pos_part address) payload (pos_part extension)
