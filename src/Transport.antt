-- ===== src/Transport.antt =====
-- The connection settings of `shared/python/simrt_xcp/client.py`, their validation, and the pyXCP
-- configuration built from them. Times are whole microseconds in place of floats.
pub mod Master
pub mod Accepted
use sim_rt.Prelude.{
  ℕ, ◌≡◌, Bool, true, false, not, ◌&&◌, ◌||◌, Option, none, some, [], ◌∷◌, arith, ltb, leb,
  if◌then◌else◌, Text, codes, text_eq, upper, strip, get_elem?,
}
use sim_rt.Prelude.Int.{ℤ, pos, negsuc, ltb_ℤ, leb_ℤ}
use sim_rt.Exec.{
  Result, ok, err, Error, empty_host, bad_protocol, bad_port, bad_timeout, bad_bind_port,
}

-- DEFAULT_PORTS
unfoldable pub default_ports : Text → Option ℤ
default_ports protocol =
    if text_eq protocol (codes "UDP")
    then some (pos 5555)
    else if text_eq protocol (codes "TCP")
    then some (pos 17725)
    else none

pub record TransportSettings : Type 0 where
  pub host : Text
  pub port : Option ℤ
  pub timeout : ℤ
  pub bind_address : Option Text
  pub bind_port : Option ℤ
  pub ipv6 : Bool
  pub protocol : Text
  pub tcp_nodelay : Bool

-- `1 <= port <= 65535`, and `0 <= bind_port <= 65535`
unfoldable pub in_range : ℤ → ℤ → ℤ → Bool
in_range low high n = leb_ℤ low n && leb_ℤ n high

unfoldable pub bind_port_fits : Option ℤ → Bool
unfolding in_range
bind_port_fits none = true
bind_port_fits (some n) = in_range (pos 0) (pos 65535) n

-- `self.port`, after the default has been filled in
unfoldable pub port_or : Option ℤ → ℤ → ℤ
port_or none d = d
port_or (some n) d = n

-- the tests that follow the lookup of the protocol
unfoldable pub check_settings : TransportSettings → Text → ℤ → Result TransportSettings
unfolding in_range bind_port_fits port_or
check_settings s protocol suggested =
    let port = port_or s.port suggested in
    if not (in_range (pos 1) (pos 65535) port)
    then err bad_port
    else if leb_ℤ s.timeout (pos 0)
    then err bad_timeout
    else if not (bind_port_fits s.bind_port)
    then err bad_bind_port
    else ok (record s { port = some port; protocol = protocol })

-- TransportSettings.__post_init__
unfoldable pub post_init : TransportSettings → Result TransportSettings
unfolding default_ports check_settings
post_init s =
    if text_eq (strip s.host) []
    then err empty_host
    else let protocol = upper (strip s.protocol) in
      elim (default_ports protocol) [
        | none ↦ err bad_protocol
        | some suggested ↦ check_settings s protocol suggested
      ]

-- The values that build_pyxcp_config puts into the configuration of pyXCP.
pub record PyxcpConfig : Type 0 where
  pub layer : Text
  pub timeout : ℤ
  pub alignment : ℕ
  pub host : Text
  pub port : Option ℤ
  pub protocol : Text
  pub ipv6 : Bool
  pub bind_to_address : Option Text
  pub bind_to_port : Option ℤ
  pub tcp_nodelay : Bool

unfoldable pub build_pyxcp_config : TransportSettings → PyxcpConfig
build_pyxcp_config s = record {
  layer = codes "ETH";
  timeout = s.timeout;
  alignment = 1;
  host = s.host;
  port = s.port;
  protocol = s.protocol;
  ipv6 = s.ipv6;
  bind_to_address = s.bind_address;
  bind_to_port = s.bind_port;
  tcp_nodelay = s.tcp_nodelay;
}
