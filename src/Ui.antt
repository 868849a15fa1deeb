-- ===== src/Ui.antt =====
-- The pure helpers of the window, `app/qt_xcp_host/qt_host/state.py`: the states of the host, and the
-- controls that each of them enables.
use sim_rt.Prelude.{
  ◌≡◌, refl, Bool, true, false, ◌&&◌, ◌||◌, Option, none, some, if◌then◌else◌, Text, codes, text_eq,
  upper, strip,
}
use sim_rt.Prelude.Int.{ℤ, pos}
use sim_rt.Exec.{Result, ok, err, bad_protocol}

pub data HostState : Type 0 where
  empty loaded connecting connected acquiring error closing : HostState

-- `current == state`
unfoldable pub is_state : HostState → HostState → Bool
is_state empty empty = true
is_state loaded loaded = true
is_state connecting connecting = true
is_state connected connected = true
is_state acquiring acquiring = true
is_state error error = true
is_state closing closing = true
is_state _ _ = false

-- the value of a state: a HostState, or the text of another value, where it is not None
pub data Given : Type 0 where
  state : HostState → Given
  nothing : Given
  words : Text → Given

-- the aliases, and HostState(text)
unfoldable pub state_of_name : Text → Option HostState
state_of_name t =
    if text_eq t (codes "DISCONNECTED") || text_eq t (codes "READY") || text_eq t (codes "LOADED")
    then some loaded
    else if text_eq t (codes "LOADING")
        || text_eq t (codes "BUSY")
        || text_eq t (codes "CONNECTING")
    then some connecting
    else if text_eq t (codes "EMPTY")
    then some empty
    else if text_eq t (codes "CONNECTED")
    then some connected
    else if text_eq t (codes "ACQUIRING")
    then some acquiring
    else if text_eq t (codes "ERROR")
    then some error
    else if text_eq t (codes "CLOSING")
    then some closing
    else none

unfoldable pub normalize_state : Given → HostState → HostState
unfolding state_of_name upper strip
normalize_state (state s) fallback = s
normalize_state nothing fallback = fallback
normalize_state (words t) fallback = elim (state_of_name (upper (strip t))) [
  | none ↦ fallback
  | some s ↦ s
]

pub record ControlPolicy : Type 0 where
  pub endpoint_enabled : Bool
  pub a2l_enabled : Bool
  pub connect_enabled : Bool
  pub disconnect_enabled : Bool
  pub observation_select_enabled : Bool
  pub observation_start_enabled : Bool
  pub observation_stop_enabled : Bool
  pub calibration_enabled : Bool

-- control_policy, from the normalized state on
unfoldable pub policy_of : HostState → Bool → ControlPolicy
unfolding is_state
policy_of current has_a2l =
    let idle = is_state current empty || is_state current loaded || is_state current error in
    let is_connected = is_state current connected || is_state current acquiring in
    record {
      endpoint_enabled = idle;
      a2l_enabled = idle;
      connect_enabled = idle && has_a2l;
      disconnect_enabled = is_connected;
      observation_select_enabled = is_state current loaded || is_state current connected;
      observation_start_enabled = is_state current connected;
      observation_stop_enabled = is_state current acquiring;
      calibration_enabled = is_connected;
    }

unfoldable pub control_policy : Given → Bool → ControlPolicy
unfolding normalize_state policy_of
control_policy given has_a2l = policy_of (normalize_state given empty) has_a2l

-- default_port
unfoldable pub default_port : Text → Result ℤ
unfolding upper strip
default_port protocol =
    let normalized = upper (strip protocol) in
    if text_eq normalized (codes "TCP")
    then ok (pos 17725)
    else if text_eq normalized (codes "UDP")
    then ok (pos 5555)
    else err bad_protocol

-- Connecting and disconnecting are never enabled together, nor are the start and the stop of an
-- observation.
pub control_policy-separate :
    (given : Given) (has_a2l : Bool)
    → ((control_policy given has_a2l).connect_enabled
          && (control_policy given has_a2l).disconnect_enabled
        ≡ false)
      × ((control_policy given has_a2l).observation_start_enabled
            && (control_policy given has_a2l).observation_stop_enabled
          ≡ false)
unfolding control_policy policy_of
control_policy-separate given has_a2l = apart (normalize_state given empty) has_a2l
  where
    apart :
        (s : HostState) (b : Bool)
        → ((policy_of s b).connect_enabled && (policy_of s b).disconnect_enabled ≡ false)
          × ((policy_of s b).observation_start_enabled && (policy_of s b).observation_stop_enabled
              ≡ false)
    apart empty true = (refl, refl)
    apart empty false = (refl, refl)
    apart loaded true = (refl, refl)
    apart loaded false = (refl, refl)
    apart connecting b = (refl, refl)
    apart connected b = (refl, refl)
    apart acquiring b = (refl, refl)
    apart error true = (refl, refl)
    apart error false = (refl, refl)
    apart closing b = (refl, refl)

-- a state that is read from a text
read_busy : (control_policy (words (codes " busy ")) true).connect_enabled ≡ false
unfolding control_policy
read_busy = refl
