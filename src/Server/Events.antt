-- ===== src/Server/Events.antt =====
-- The server as a state machine. Its threads run `handle_client`, one for each connection, and the
-- watchdog; an event is what one of them does between two waits.
use simple_chat_protocol.Prelude.{ℕ, true, some, List, [], ◌∷◌, if◌then◌else◌}
use simple_chat_protocol.Messages.{World}
use simple_chat_protocol.Server.State.{Server}
use simple_chat_protocol.Server.Client.{dispatch, cleanup}
use simple_chat_protocol.Server.Lifecycle.{new_server, open_listener, accept, stop}
use simple_chat_protocol.Server.Watchdog.{watchdog_round}

-- `message now fd msg_type payload`: a message is read from the connection `fd`.
-- `connect fd`: a connection is accepted. `shut`: `stop` is called.
-- `hangup fd`: `recv_message` fails there. `wake now`: the watchdog wakes up.
pub data Event : Type 0 where
  message : ℕ → ℕ → ℕ → List ℕ → Event
  hangup : ℕ → Event
  wake : ℕ → Event
  connect : ℕ → Event
  shut : Event

-- A server that listens on the socket `fd`, before any event.
abbrev pub start : ℕ → ℕ → Server
unfolding new_server open_listener
start idle_timeout_sec fd = open_listener (some fd) true true (new_server idle_timeout_sec)

module _ (w : World) where
  unfoldable pub step : Event → Server → Server
  step (message now fd msg_type payload) s =
      let next = dispatch w now fd msg_type payload s in
      if next.1 then cleanup fd next.0 else next.0
  step (hangup fd) s = cleanup fd s
  step (wake now) s = watchdog_round now s
  step (connect fd) s = accept fd s
  step shut s = stop s

  unfoldable pub run : List Event → Server → Server
  unfolding step
  run [] s = s
  run (e ∷ es) s = run es (step e s)
