-- ===== src/Client/Lifecycle.antt =====
-- The single-use lifecycle of XcpClient (`shared/python/simrt_xcp/client.py`) over any master.
use sim_rt.Prelude.{ℕ, ◌≡◌, ◌≢◌, refl, true, false, Option, List, [], ◌∷◌, arith}
use sim_rt.Prelude.Int.{ℤ}
use sim_rt.Exec.{Result, ok, err}
use sim_rt.Transport.{PyxcpConfig}
use sim_rt.Transport.Master.{Master}
use sim_rt.Client.{
  Client, ClientState, is_connected, is_new, connected, connect, disconnect, open_master, abandon,
  open_session, close_master, forget, read_memory, write_memory,
}
use sim_rt.Client.Keeping.{read_memory-Keeps, write_memory-Keeps}

-- A public method of the client with its arguments.
pub data Call : Type 0 where
  connecting disconnecting : Call
  reading : ℤ → ℤ → ℤ → Call
  writing : ℤ → List ℕ → ℤ → Call

module _ (m : Master PyxcpConfig) where
  -- Between calls a master is owned exactly in the state CONNECTED, and no call is half done.
  abbrev pub IsConsistent : Client m → Type 0
  IsConsistent c = (c.owned ≡ is_connected c.state) × (c.state ≢ ClientState.opening)

  -- How `connect` may end: connected with the response, or closed with the master given up.
  abbrev pub Settled : Result (Option m.Response) × Client m → Type 0
  Settled (ok r, c) =
      (c.state ≡ ClientState.connected) × (c.owned ≡ true) × (c.connect_response ≡ r)
  Settled (err e, c) = (c.state ≡ ClientState.closed) × (c.owned ≡ false)

  -- `connect` on a client between calls connects it, or raises and leaves it closed.
  pub connect-Settled : (c : Client m) → IsConsistent c → Settled (connect m c)
  unfolding connect connected is_new is_connected open_session open_master abandon close_master
  connect-Settled c h = ground arith

  -- Whatever the master does, `disconnect` on a client between calls, which owns a master exactly if it
  -- is connected and is not half open, leaves the client closed and without a master.
  pub disconnect-closes :
      (c : Client m)
      → IsConsistent c
      → ((disconnect m c).1.state ≡ ClientState.closed) × ((disconnect m c).1.owned ≡ false)
  unfolding disconnect is_new is_connected close_master forget
  disconnect-closes c h = ground arith

  run_call : Call → Client m → Client m
  run_call connecting c = (connect m c).1
  run_call disconnecting c = (disconnect m c).1
  run_call (reading a n e) c = (read_memory m a n e c).1
  run_call (writing a bs e) c = (write_memory m a bs e c).1

  -- Any calls one after another, whether they return or raise.
  pub run : List Call → Client m → Client m
  unfolding run_call
  run [] c = c
  run (call ∷ calls) c = run calls (run_call call c)

  run_call-IsConsistent :
      (call : Call) (c : Client m) → IsConsistent c → IsConsistent (run_call call c)
  unfolding run_call is_connected
  run_call-IsConsistent connecting c h = ground (arith, connect-Settled c h)
  run_call-IsConsistent disconnecting c h = ground (arith, disconnect-closes c h)
  run_call-IsConsistent (reading a n e) c h =
      (read_memory-Keeps m IsConsistent (λ a e c h. h) (λ n c h. h) a n e).at c h
  run_call-IsConsistent (writing a bs e) c h =
      (write_memory-Keeps m IsConsistent (λ a e c h. h) (λ bs c h. h) a bs e).at c h

  -- From a client that owns a master exactly if it is connected and is not half open, no sequence of
  -- calls, whether they return or raise, leads to another one.
  pub run-IsConsistent :
      (calls : List Call) (c : Client m) → IsConsistent c → IsConsistent (run calls c)
  unfolding run
  run-IsConsistent [] c h = h
  run-IsConsistent (call ∷ calls) c h =
      run-IsConsistent calls (run_call call c) (run_call-IsConsistent call c h)

  run_call_closed :
      (call : Call) (c : Client m)
      → c.state ≡ ClientState.closed
      → c.owned ≡ false
      → run_call call c ≡ c
  unfolding run_call connect disconnect read_memory write_memory connected is_connected is_new
  run_call_closed call c h o = ground arith

  -- Once closed, a client never reaches its slave again: no call changes it or its world.
  pub run_closed :
      (calls : List Call) (c : Client m)
      → c.state ≡ ClientState.closed
      → c.owned ≡ false
      → run calls c ≡ c
  unfolding run
  run_closed [] c h o = refl
  run_closed (call ∷ calls) c h o = rw (run_call_closed call c h o) (run_closed calls c h o)
