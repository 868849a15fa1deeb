-- ===== src/Transport/Master.antt =====
-- pyXCP's `Master`, which the repository only calls: its operations on an outside world (the link,
-- the slave and pyXCP's own state) are parameters. An operation may raise and may change the
-- world in any way; `Client.Memory` says what the documented behaviour of a slave's memory is.
use sim_rt.Prelude.{ℕ, List, Option}
use sim_rt.Exec.{Exec}

-- `Config` is what the factory is called with.
pub record Master (Config : Type 0) : Type 1 where
  pub World : Type 0
  pub Response : Type 0
  -- the master factory, which makes the one object that the client owns
  pub create : Config → Exec World Unit
  -- master.transport.connect(), master.connect(), master.disconnect()
  pub transport_connect : Exec World Unit
  pub connect : Exec World Response
  pub disconnect : Exec World Unit
  -- Master.close() of the library, and the two setters that _SessionMaster.close calls
  pub close_base : Exec World Unit
  pub set_policy_feeder : Exec World Unit
  pub set_frame_sender : Exec World Unit
  -- setMta(address, address_extension), upload(size), download(data)
  pub set_mta : ℕ → ℕ → Exec World Unit
  pub upload : ℕ → Exec World (List ℕ)
  pub download : List ℕ → Exec World Unit
  -- slaveProperties.maxCto and slaveProperties.bytesPerElement
  pub max_cto : World → ℕ
  pub bytes_per_element : World → Option ℕ
