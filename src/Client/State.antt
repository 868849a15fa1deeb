-- ===== src/Client/State.antt =====
-- The states in the life of one XcpClient (`shared/python/simrt_xcp/client.py`).
use sim_rt.Prelude.{Bool, true, false}

pub data ClientState : Type 0 where
  new opening connected closed : ClientState

unfoldable pub is_connected : ClientState → Bool
is_connected ClientState.connected = true
is_connected _ = false

unfoldable pub is_new : ClientState → Bool
is_new ClientState.new = true
is_new _ = false
