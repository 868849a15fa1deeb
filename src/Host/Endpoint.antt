-- ===== src/Host/Endpoint.antt =====
-- Endpoint of `shared/python/pyxcp_host/models.py` and the transport settings that XcpSession makes
-- of it. Times are whole microseconds in place of floats.
pub mod Settings
use sim_rt.Prelude.{
  Option, none, some, [], not, Bool, if◌then◌else◌, Text, codes, text_eq, upper, strip, true, false,
}
use sim_rt.Prelude.Int.{ℤ, pos, leb_ℤ}
use sim_rt.Exec.{Result, ok, err, empty_host, bad_protocol, bad_port, bad_timeout}
use sim_rt.Transport.{TransportSettings, default_ports, in_range}

pub record Endpoint : Type 0 where
  pub protocol : Text
  pub host : Text
  pub port : ℤ
  pub timeout : ℤ

-- the tests that follow the lookup of the protocol
unfoldable pub check_endpoint : Endpoint → Text → Result Endpoint
unfolding in_range
check_endpoint e protocol =
    if text_eq (strip e.host) []
    then err empty_host
    else if not (in_range (pos 1) (pos 65535) e.port)
    then err bad_port
    else if leb_ℤ e.timeout (pos 0)
    then err bad_timeout
    else ok (record e { protocol = protocol; host = strip e.host })

-- Endpoint.__post_init__
unfoldable pub endpoint_init : Endpoint → Result Endpoint
unfolding default_ports check_endpoint
endpoint_init e =
    let protocol = upper (strip e.protocol) in
    elim (default_ports protocol) [ none ↦ err bad_protocol | some _ ↦ check_endpoint e protocol ]

-- the arguments of TransportSettings in XcpSession.connect, with its defaults for the rest
unfoldable pub settings_of : Endpoint → TransportSettings
settings_of e = record {
  host = e.host;
  port = some e.port;
  timeout = e.timeout;
  bind_address = none;
  bind_port = none;
  ipv6 = false;
  protocol = e.protocol;
  tcp_nodelay = true;
}

-- HostViewModel.default_port
unfoldable pub default_port : Text → ℤ
default_port protocol =
    if text_eq (upper (strip protocol)) (codes "TCP") then pos 17725 else pos 5555
