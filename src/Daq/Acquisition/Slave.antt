-- ===== src/Daq/Acquisition/Slave.antt =====
-- What DaqAcquisition of `shared/python/pyxcp_host/services/daq_acquisition.py` calls of pyXCP and
-- of the slave beyond the client: a parameter. Its operations may raise and may change the world.
use sim_rt.Prelude.{ℕ, Bool, Option, List}
use sim_rt.Exec.{Exec}
use sim_rt.Transport.{PyxcpConfig}
use sim_rt.Transport.Master.{Master}
use sim_rt.Scalar.{A2lScalar}
use sim_rt.Daq.{Decoder}
use sim_rt.Daq.Period.{Answer}
use sim_rt.Daq.Prepare.{Setup}

-- What `start` reads of the answer of getDaqInfo. `timestamp_size` is the number of bytes of S1, S2
-- or S4; none is another format. `header_size` is that of pyXCP's table for the key byte.
pub record DaqInfo : Type 0 where
  pub dynamic : Bool
  pub timestamps : Bool
  pub entry_granularity : ℕ
  pub timestamp_size : Option ℕ
  pub timestamp_ticks : ℕ
  pub max_entry : ℕ
  pub header_size : ℕ

pub record DaqMaster (m : Master PyxcpConfig) (d : Decoder) : Type 0 where
  -- slaveProperties.supportsDaq and .maxDto
  pub supports_daq : m.World → Bool
  pub max_dto : m.World → ℕ
  -- types.XcpError.ERR_CMD_UNKNOWN and .ERR_CMD_SYNTAX
  pub unknown_code : ℕ
  pub syntax_code : ℕ
  -- getDaqEventInfo(channel) and getDaqInfo(...)
  pub event_info : ℕ → m.World → Answer × m.World
  pub daq_info : Exec m.World DaqInfo
  -- cond_unlock("DAQ"), policy.setup() with what it lays out, policy.start(), policy.stop()
  pub unlock : Exec m.World Unit
  pub setup : ℕ → List A2lScalar → Exec m.World Setup
  pub start : Exec m.World Unit
  pub stop : Exec m.World Unit
  -- startStopSynch(0)
  pub stop_all : Exec m.World Unit
  -- the native part of a new policy
  pub native : d.World
