-- ===== src/Transport/Accepted.antt =====
-- What TransportSettings.__post_init__ of `shared/python/simrt_xcp/client.py` lets through.
use sim_rt.Prelude.{
  ℕ, ◌≤◌, ◌≢◌, ◌≡◌, refl, sym, ap, true, false, Option, none, some, [], arith, subst, Text, codes,
  text_eq, text_eq_iff, upper, strip, ◌⊎◌, inl, inr, Bool-cases, Option-cases,
}
use sim_rt.Prelude.Int.{ℤ, pos, negsuc, leb_ℤ}
use sim_rt.Exec.{ok}
use sim_rt.Transport.{
  TransportSettings, default_ports, in_range, bind_port_fits, port_or, check_settings, post_init,
}

-- The port that a protocol has when none is given.
abbrev pub IsPort : Option ℤ → Text → ℤ → Type 0
IsPort none protocol n =
    ((protocol ≡ codes "UDP") × (n ≡ pos 5555)) ⊎ ((protocol ≡ codes "TCP") × (n ≡ pos 17725))
IsPort (some given) protocol n = given ≡ n

abbrev pub IsBindPort : Option ℤ → Type 0
IsBindPort none = Unit
IsBindPort (some n) = (b : ℕ) × (n ≡ pos b) × (b ≤ 65535)

-- `t` is what becomes of the arguments `s`: a host is given, the protocol is UDP or TCP without its
-- spaces and in capitals, the port is the one given or the protocol's own, and nothing else changes.
pub record IsUsable (s t : TransportSettings) : Type 0 where
  pub host : strip s.host ≢ []
  pub protocol : (upper (strip s.protocol) ≡ codes "UDP") ⊎ (upper (strip s.protocol) ≡ codes "TCP")
  pub number : ℕ
  pub port : IsPort s.port (upper (strip s.protocol)) (pos number)
  pub port_fits : (1 ≤ number) × (number ≤ 65535)
  pub microseconds : ℕ
  pub timeout : (s.timeout ≡ pos microseconds) × (1 ≤ microseconds)
  pub bind_port : IsBindPort s.bind_port
  pub rest : t ≡ record s { port = some (pos number); protocol = upper (strip s.protocol) }

default_ports-known :
    (p : Text) (n : ℤ)
    → default_ports p ≡ some n
    → ((p ≡ codes "UDP") × (n ≡ pos 5555)) ⊎ ((p ≡ codes "TCP") × (n ≡ pos 17725))
unfolding default_ports
default_ports-known p n h = ground (arith, text_eq_iff p (codes "UDP"), text_eq_iff p (codes "TCP"))

in_range-pos :
    (low high : ℕ) (n : ℤ)
    → in_range (pos low) (pos high) n ≡ true
    → (k : ℕ) × (n ≡ pos k) × (low ≤ k) × (k ≤ high)
unfolding in_range
in_range-pos low high (pos k) h = (k, refl, ground arith, ground arith)
in_range-pos low high (negsuc k) h = ground arith

in_range-fits : (low high k : ℕ) → low ≤ k → k ≤ high → in_range (pos low) (pos high) (pos k) ≡ true
unfolding in_range
in_range-fits low high k le small = ground arith

positive : (n : ℤ) → leb_ℤ n (pos 0) ≡ false → (k : ℕ) × (n ≡ pos k) × (1 ≤ k)
positive (pos k) h = (k, refl, ground arith)
positive (negsuc k) h = ground arith

bind_port_fits-IsBindPort : (b : Option ℤ) → bind_port_fits b ≡ true → IsBindPort b
unfolding bind_port_fits
bind_port_fits-IsBindPort none h = tt
bind_port_fits-IsBindPort (some n) h =
    let (k, e, low, high) = in_range-pos 0 65535 n h in (k, e, high)

IsBindPort-bind_port_fits : (b : Option ℤ) → IsBindPort b → bind_port_fits b ≡ true
unfolding bind_port_fits
IsBindPort-bind_port_fits none h = refl
IsBindPort-bind_port_fits (some n) (k, e, high) = rw e (in_range-fits 0 65535 k (omega arith) high)

port_or-IsPort :
    (given : Option ℤ) (p : Text) (n : ℤ)
    → ((p ≡ codes "UDP") × (n ≡ pos 5555)) ⊎ ((p ≡ codes "TCP") × (n ≡ pos 17725))
    → IsPort given p (port_or given n)
unfolding port_or
port_or-IsPort none p n h = h
port_or-IsPort (some k) p n h = refl

check_settings-IsUsable :
    (s t : TransportSettings) (n : ℤ)
    → strip s.host ≢ []
    → default_ports (upper (strip s.protocol)) ≡ some n
    → check_settings s (upper (strip s.protocol)) n ≡ ok t
    → IsUsable s t
unfolding check_settings
check_settings-IsUsable s t n named known h =
    let p = upper (strip s.protocol) in
    let port = port_or s.port n in
    elim (Bool-cases (in_range (pos 1) (pos 65535) port)) [
      | inr outside ↦ ground arith
      | inl inside ↦ elim (Bool-cases (leb_ℤ s.timeout (pos 0))) [
        | inl never ↦ ground arith
        | inr later ↦ elim (Bool-cases (bind_port_fits s.bind_port)) [
          | inr unbound ↦ ground arith
          | inl bound ↦
              let e : record s { port = some port; protocol = p } ≡ t = ground arith in
              let (k, is_k, low, high) = in_range-pos 1 65535 port inside in
              let (us, is_us, one) = positive s.timeout later in
              let known' = default_ports-known p n known in
              record {
                host = named;
                protocol = elim known' [ inl (udp, _) ↦ inl udp | inr (tcp, _) ↦ inr tcp ];
                number = k;
                port = subst (IsPort s.port p) is_k (port_or-IsPort s.port p n known');
                port_fits = (low, high);
                microseconds = us;
                timeout = (is_us, one);
                bind_port = bind_port_fits-IsBindPort s.bind_port bound;
                rest = subst (λ q. t ≡ record s { port = some q; protocol = p }) is_k (sym e);
              }
        ]
      ]
    ]

-- Arguments that are accepted are usable, and only the port and the protocol change: a host is given
-- that is not blank; the protocol is UDP or TCP once its spaces are taken off and it is in capitals,
-- and is kept so; the port is the one that is given, or 5555 for UDP and 17725 for TCP where none is,
-- and is in 1..65535; the timeout is positive; a bind port is in 0..65535.
pub post_init-IsUsable : (s t : TransportSettings) → post_init s ≡ ok t → IsUsable s t
unfolding post_init
post_init-IsUsable s t h =
    let protocol = upper (strip s.protocol) in
    elim (Bool-cases (text_eq (strip s.host) [])) [
      | inl empty ↦ ground arith
      | inr host ↦ elim (Option-cases (default_ports protocol)) [
        | inl unknown ↦ ground arith
        | inr (n, known) ↦
            let named : strip s.host ≢ [] = ground (arith, text_eq_iff (strip s.host) []) in
            check_settings-IsUsable s t n named known (ground arith)
      ]
    ]

default_ports-ok :
    (given : Option ℤ) (p : Text) (k : ℤ)
    → (p ≡ codes "UDP") ⊎ (p ≡ codes "TCP")
    → IsPort given p k
    → (n : ℤ) × (default_ports p ≡ some n) × (port_or given n ≡ k)
unfolding default_ports port_or
default_ports-ok (some j) p k (inl udp) same = (pos 5555, rw udp refl, same)
default_ports-ok (some j) p k (inr tcp) same = (pos 17725, rw tcp refl, same)
default_ports-ok none p k known (inl (udp, is_k)) = (pos 5555, rw udp refl, sym is_k)
default_ports-ok none p k known (inr (tcp, is_k)) = (pos 17725, rw tcp refl, sym is_k)

check_settings-ok :
    (s t : TransportSettings) (n : ℤ) (u : IsUsable s t)
    → port_or s.port n ≡ pos u.number
    → check_settings s (upper (strip s.protocol)) n ≡ ok t
unfolding check_settings
check_settings-ok s t n u same =
    let fits = in_range-fits 1 65535 u.number u.port_fits.0 u.port_fits.1 in
    let bound = IsBindPort-bind_port_fits s.bind_port u.bind_port in
    let later : leb_ℤ s.timeout (pos 0) ≡ false = rw (u.timeout.0) (ground (arith, u.timeout.1)) in
    rw (check_settings, same, fits, later, bound) (ap ok (sym u.rest))

-- Where a host is given that is not blank, the protocol is UDP or TCP once its spaces are taken off and
-- it is in capitals, the port that is given, or 5555 for UDP and 17725 for TCP where none is, is in
-- 1..65535, the timeout is positive, and a bind port is in 0..65535: the arguments are accepted, and
-- only the port and the protocol are changed, to these.
pub IsUsable-post_init : (s t : TransportSettings) → IsUsable s t → post_init s ≡ ok t
unfolding post_init
IsUsable-post_init s t u =
    let (n, known, same) =
      default_ports-ok s.port (upper (strip s.protocol)) (pos u.number) u.protocol u.port in
    let named : text_eq (strip s.host) [] ≡ false =
      ground (arith, u.host, text_eq_iff (strip s.host) []) in
    rw (post_init, named, known) (check_settings-ok s t n u same)
