-- ===== src/Server/Threads/Machine.antt =====
-- The threads of src/server/server.cpp side by side: those of `handle_client`, the watchdog, and
-- the accept loop.
use simple_chat_protocol.Prelude.{
  ℕ, zero, suc, Bool, true, false, not, ◌&&◌, Option, none, some, List, [], ◌∷◌, ◌==◌, ◌<>◌,
  to_string, if◌then◌else◌,
}
use simple_chat_protocol.Protocol.StatusCode
use simple_chat_protocol.Messages.{World}
use simple_chat_protocol.Server.State.{SessionInfo, Sent, Server}
use simple_chat_protocol.Server.Sending.{send_message}
use simple_chat_protocol.Server.Watchdog.{mark_all, to_notify}
use simple_chat_protocol.Server.Lifecycle.{accept, stop_listening, stop_clients}
use simple_chat_protocol.Server.Events.{start}
use simple_chat_protocol.Server.Threads.{Act, Reading, ending, plan_message, reply_direct}
use simple_chat_protocol.Server.Threads.Doing.{carry_out}

-- `todo fd` is what the thread of the connection `fd` still has to do: `none` where there is no
-- thread, and nothing when it waits in `recv_message`. `alerts` are the messages that the watchdog
-- has still to send before it sleeps again.
pub record Threads : Type 0 where
  pub server : Server
  pub todo : ℕ → Option (List Act)
  pub alerts : List Sent

-- `receive fd msg_type payload`: the waiting thread of `fd` gets a message.
-- `lose fd`: `recv_message` fails there, or the loop ends since the server is stopped.
-- `advance now reading fd`: the thread of `fd` does its next part.
-- `open_client fd`: a connection is accepted. The system gives a descriptor that is not in use.
-- `awake now`: the watchdog wakes up and marks sessions. `alert`: it sends the next message.
-- `begin_stop`: `stop` up to the joining of the watchdog. `end_stop`: the rest, once it is joined.
pub data Move : Type 0 where
  receive : ℕ → ℕ → List ℕ → Move
  lose : ℕ → Move
  advance : ℕ → Reading → ℕ → Move
  open_client : ℕ → Move
  awake : ℕ → Move
  alert : Move
  begin_stop : Move
  end_stop : Move

-- A server that listens on the socket `fd`, before any connection.
abbrev pub begin : ℕ → ℕ → Threads
begin idle_timeout_sec fd = record {
  server = start idle_timeout_sec fd;
  todo = λ _. none;
  alerts = [];
}

-- What a thread does next, if it is inside a handler or at its end.
unfoldable pub proceed : ℕ → Reading → ℕ → Option (List Act) → Server → Option (List Act) × Server
unfolding carry_out
proceed now reading fd none s = (none, s)
proceed now reading fd (some []) s = (some [], s)
proceed now reading fd (some (a ∷ rest)) s = carry_out now reading fd a rest s

abbrev pub put : {A : Type 0} → ℕ → A → (ℕ → A) → ℕ → A
put fd a f j = if fd == j then a else f j

-- A waiting thread leaves `recv_message`, with these parts to do.
abbrev pub leave_recv : List Act → Option (List Act) → Option (List Act)
leave_recv acts none = none
leave_recv acts (some []) = some acts
leave_recv acts (some (a ∷ rest)) = some (a ∷ rest)

abbrev pub is_unused : Option (List Act) → Bool
is_unused none = true
is_unused (some acts) = false

abbrev pub alerts_of : ℕ → List SessionInfo → List Sent
alerts_of timeout [] = []
alerts_of timeout (session ∷ rest) =
    reply_direct session StatusCode.auto_inactive
      ("You have been marked INACTIVO due to inactivity (" <> to_string timeout <> "s)") true
    ∷ alerts_of timeout rest

-- The watchdog's critical section, if it sleeps.
unfoldable pub mark_idle : ℕ → List Sent → Threads → Threads
unfolding mark_all to_notify
mark_idle now [] t = record t {
  server = record t.server { sessions = mark_all t.server.idle_timeout_sec now t.server.sessions };
  alerts =
      alerts_of t.server.idle_timeout_sec
        (to_notify t.server.idle_timeout_sec now t.server.sessions);
}
mark_idle now (m ∷ later) t = t

abbrev pub is_quiet : List Sent → Bool
is_quiet [] = true
is_quiet (m ∷ later) = false

unfoldable pub send_alert : List Sent → Threads → Threads
unfolding send_message
send_alert [] t = t
send_alert (m ∷ later) t = record t {
  server = send_message m.fd m.msg_type m.proto t.server;
  alerts = later;
}

module _ (w : World) where
  -- A move that is not possible changes nothing.
  unfoldable pub do_move : Move → Threads → Threads
  unfolding plan_message proceed accept mark_idle send_alert stop_listening stop_clients
  do_move (receive fd msg_type payload) t = record t {
    todo = put fd (leave_recv (plan_message w fd payload msg_type t.server) (t.todo fd)) t.todo;
  }
  do_move (lose fd) t = record t { todo = put fd (leave_recv ending (t.todo fd)) t.todo }
  do_move (advance now reading fd) t =
      let next = proceed now reading fd (t.todo fd) t.server in
      record t { server = next.1; todo = put fd next.0 t.todo }
  do_move (open_client fd) t =
      if t.server.running && is_unused (t.todo fd)
      then record t { server = accept fd t.server; todo = put fd (some []) t.todo }
      else t
  do_move (awake now) t = if t.server.running then mark_idle now t.alerts t else t
  do_move alert t = send_alert t.alerts t
  do_move begin_stop t = record t { server = stop_listening t.server }
  do_move end_stop t =
      if not t.server.running && is_quiet t.alerts
      then record t { server = stop_clients t.server }
      else t

  unfoldable pub play : List Move → Threads → Threads
  unfolding do_move
  play [] t = t
  play (m ∷ ms) t = play ms (do_move m t)

  -- The threads after the first n moves of an endless schedule.
  unfoldable pub after : (ℕ → Move) → ℕ → Threads → Threads
  unfolding do_move
  after moves zero t = t
  after moves (suc n) t = do_move (moves n) (after moves n t)
