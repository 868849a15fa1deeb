-- ===== src/Host/Endpoint/Settings.antt =====
-- The settings of an endpoint of `shared/python/pyxcp_host/models.py` that was accepted.
use sim_rt.Prelude.{
  if◌then◌else◌, ◌≡◌, refl, sym, subst, ◌∙◌, ap, Bool, true, false, ◌&&◌, [], ◌∷◌, some, arith,
  Text, codes, is_space, lstrip, strip, upper, text_eq, text_eq_iff, Option-cases, ◌⊎◌, inl, inr,
}
use mathlib.Core.List.{reverse, reverse_aux}
use sim_rt.Exec.{ok}
use sim_rt.Prelude.Int.{ℤ, pos, leb_ℤ}
use sim_rt.Transport.{default_ports, check_settings, post_init, in_range, bind_port_fits, port_or}
use sim_rt.Host.Endpoint.{Endpoint, check_endpoint, endpoint_init, settings_of}

-- nothing but white space
abbrev is_blank : Text → Bool
is_blank [] = true
is_blank (c ∷ s) = is_space c && is_blank s

is_blank-reverse_aux : (s t : Text) → is_blank (reverse_aux s t) ≡ (is_blank s && is_blank t)
is_blank-reverse_aux [] t = refl
is_blank-reverse_aux (c ∷ s) t = ground (arith, is_blank-reverse_aux s (c ∷ t))

is_blank-reverse : (s : Text) → is_blank (reverse s) ≡ is_blank s
is_blank-reverse s = ground (arith, is_blank-reverse_aux s [])

is_blank-lstrip : (s : Text) → is_blank (lstrip s) ≡ is_blank s
unfolding lstrip
is_blank-lstrip [] = refl
is_blank-lstrip (c ∷ s) = ground (arith, is_blank-lstrip s)

-- a text that is stripped to nothing is blank, and only that
lstrip-is_blank : (s : Text) → is_blank s ≡ true → lstrip s ≡ []
unfolding lstrip
lstrip-is_blank [] h = refl
lstrip-is_blank (c ∷ s) h = ground (arith, lstrip-is_blank s)

is_blank-strip : (s : Text) → is_blank (strip s) ≡ is_blank s
unfolding strip
is_blank-strip s =
    is_blank-reverse (lstrip (reverse (lstrip s)))
    ∙ is_blank-lstrip (reverse (lstrip s))
    ∙ is_blank-reverse (lstrip s)
    ∙ is_blank-lstrip s

-- a text that strips to nothing is blank, and the other way round
strip-is_blank : (s : Text) → is_blank s ≡ true → strip s ≡ []
unfolding strip
strip-is_blank s h = rw (lstrip-is_blank s h) refl

is_blank-nil : (s : Text) → strip s ≡ [] → is_blank s ≡ true
is_blank-nil s h = sym (is_blank-strip s) ∙ ap is_blank h

-- the host of an endpoint does not become empty when it is stripped again
strip_again : (s : Text) → text_eq (strip s) [] ≡ false → text_eq (strip (strip s)) [] ≡ false
strip_again s h = ground (
  arith,
  text_eq_iff (strip s) [],
  text_eq_iff (strip (strip s)) [],
  is_blank-nil (strip s),
  is_blank-strip s,
  strip-is_blank s,
)

known_protocol :
    (p : Text) (port : ℤ) → default_ports p ≡ some port → (p ≡ codes "UDP") ⊎ (p ≡ codes "TCP")
unfolding default_ports
known_protocol p port h = ground (arith, text_eq_iff p (codes "UDP"), text_eq_iff p (codes "TCP"))

udp_kept : upper (strip (codes "UDP")) ≡ codes "UDP"
unfolding upper strip lstrip
udp_kept = refl

tcp_kept : upper (strip (codes "TCP")) ≡ codes "TCP"
unfolding upper strip lstrip
tcp_kept = refl

normal_protocol : (p : Text) (port : ℤ) → default_ports p ≡ some port → upper (strip p) ≡ p
normal_protocol p port h = elim (known_protocol p port h) [
  | inl udp ↦ subst (λ q. upper (strip q) ≡ q) (sym udp) udp_kept
  | inr tcp ↦ subst (λ q. upper (strip q) ≡ q) (sym tcp) tcp_kept
]

-- What an accepted endpoint is like.
record IsAccepted (e : Endpoint) : Type 0 where
  host : text_eq (strip e.host) [] ≡ false
  port : in_range (pos 1) (pos 65535) e.port ≡ true
  timeout : leb_ℤ e.timeout (pos 0) ≡ false
  protocol : upper (strip e.protocol) ≡ e.protocol
  suggested : ℤ
  known : default_ports e.protocol ≡ some suggested

check_endpoint-tests :
    (e e' : Endpoint) (p : Text)
    → check_endpoint e p ≡ ok e'
    → (text_eq (strip e.host) [] ≡ false)
      × (in_range (pos 1) (pos 65535) e.port ≡ true)
      × (leb_ℤ e.timeout (pos 0) ≡ false)
      × (e' ≡ record e { protocol = p; host = strip e.host })
unfolding check_endpoint
check_endpoint-tests e e' p h = ground arith

check_endpoint-IsAccepted :
    (e e' : Endpoint) (p : Text) (port : ℤ)
    → upper (strip p) ≡ p
    → default_ports p ≡ some port
    → check_endpoint e p ≡ ok e'
    → IsAccepted e'
check_endpoint-IsAccepted e e' p port normal known h =
    let (host, range, timeout, same) = check_endpoint-tests e e' p h in
    subst IsAccepted (sym same) (record {
      host = strip_again e.host host;
      port = range;
      timeout = timeout;
      protocol = normal;
      suggested = port;
      known = known;
    })

IsAccepted-settings : (e : Endpoint) → IsAccepted e → post_init (settings_of e) ≡ ok (settings_of e)
unfolding post_init settings_of check_settings port_or bind_port_fits
IsAccepted-settings e h =
    rw (h.host, if◌then◌else◌, h.protocol, h.known, h.port, h.timeout)
      (ap (λ p. ok (record (settings_of e) { protocol = p })) h.protocol)

-- An endpoint that Endpoint accepts has settings that TransportSettings accepts as they are: `connect`
-- of a session raises no ValueError for its endpoint.
pub settings_of-accepted :
    (e e' : Endpoint) → endpoint_init e ≡ ok e' → post_init (settings_of e') ≡ ok (settings_of e')
unfolding endpoint_init
settings_of-accepted e e' h = elim (Option-cases (default_ports (upper (strip e.protocol)))) [
  | inl absent ↦ ground arith
  | inr (port, known) ↦
      let normal = normal_protocol (upper (strip e.protocol)) port known in
      let checked : check_endpoint e (upper (strip e.protocol)) ≡ ok e' = ground arith in
      IsAccepted-settings e'
        (check_endpoint-IsAccepted e e' (upper (strip e.protocol)) port normal known checked)
]
