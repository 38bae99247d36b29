-- ===== src/Server/Client.antt =====
-- `handle_client` of src/server/server.cpp: the read loop of one connection.
use simple_chat_protocol.Prelude.{
  ℕ, zero, suc, Bool, true, false, Option, none, some, List, [], ◌∷◌, ◌++◌, ◌==◌, if◌then◌else◌,
}
use simple_chat_protocol.Prelude.Map.{map_option}
use simple_chat_protocol.Protocol.MsgType
use simple_chat_protocol.Protocol.StatusCode
use simple_chat_protocol.Wire.Socket.{Socket}
use simple_chat_protocol.Wire.Frame.{recv_message}
use simple_chat_protocol.Messages.{World}
use simple_chat_protocol.Server.State.{Server}
use simple_chat_protocol.Server.Sending.{send_response_bare}
use simple_chat_protocol.Server.Session.{remove_session}
use simple_chat_protocol.Server.Handlers.{
  handle_register, handle_message_general, handle_message_dm, handle_change_status,
  handle_list_users, handle_get_user_info, handle_quit,
}

module _ (w : World) (now fd : ℕ) where
  -- The `switch`. The second part tells whether `goto cleanup` is taken.
  unfoldable pub dispatch : ℕ → List ℕ → Server → Server × Bool
  dispatch msg_type payload s =
      if msg_type == MsgType.register
      then (handle_register w now fd payload s, false)
      else if msg_type == MsgType.message_general
      then (handle_message_general w now fd payload s, false)
      else if msg_type == MsgType.message_dm
      then (handle_message_dm w now fd payload s, false)
      else if msg_type == MsgType.change_status
      then (handle_change_status w now fd payload s, false)
      else if msg_type == MsgType.list_users
      then (handle_list_users w now fd payload s, false)
      else if msg_type == MsgType.get_user_info
      then (handle_get_user_info w now fd payload s, false)
      else if msg_type == MsgType.quit
      then (handle_quit w now fd payload s, true)
      else (send_response_bare fd StatusCode.bad_request "Unknown message type" false s, false)

-- ::close(fd)
unfoldable pub close : ℕ → Server → Server
close fd s = record s { closed = s.closed ++ fd ∷ [] }

unfoldable pub cleanup : ℕ → Server → Server
unfolding close remove_session
cleanup fd s = close fd (remove_session fd s)

-- `clock n` is the reading of the clock in the round with n rounds of fuel left behind it.
module _ (k : Socket) (w : World) (clock : ℕ → ℕ) (fd : ℕ) where
  open k use {S}

  -- `none` is the end of the fuel; a message has five bytes at least, so as many rounds as there
  -- are bytes, and one, are enough.
  unfoldable pub read_messages : ℕ → S → Server → Option Server
  read_messages zero t s = none
  read_messages (suc fuel) t s =
      if s.running
      then elim (recv_message k t) [
        | none ↦ some s
        | some ((msg_type, payload), t') ↦
            let next = dispatch w (clock fuel) fd msg_type payload s in
            let rest = read_messages fuel t' next.0 in if next.1 then some next.0 else rest
      ]
      else some s

  unfoldable pub handle_client : ℕ → S → Server → Option Server
  handle_client fuel t s = map_option (cleanup fd) (read_messages fuel t s)
