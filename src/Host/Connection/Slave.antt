-- ===== src/Host/Connection/Slave.antt =====
-- What `connection_info` of `shared/python/pyxcp_host/services/xcp_session.py` reads of pyXCP's
-- slaveProperties beyond the client and the acquisition; none stands for a missing attribute.
use sim_rt.Prelude.{ℕ, Bool, Option, Text}
use sim_rt.Transport.{PyxcpConfig}
use sim_rt.Transport.Master.{Master}

pub record SlaveProperties (m : Master PyxcpConfig) : Type 0 where
  -- byteOrder.name, maxCto, maxDto, supportsCalpag
  pub byte_order : m.World → Option Text
  pub max_cto : m.World → Option ℕ
  pub max_dto : m.World → Option ℕ
  pub supports_calibration : m.World → Bool
