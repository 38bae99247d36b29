-- ===== src/Server/Sending.antt =====
-- The helpers of src/server/server.cpp that send a message.
use simple_chat_protocol.Prelude.{ℕ, String, Bool, Option, none, some, [], ◌∷◌, ◌++◌, nat_equality}
use simple_chat_protocol.Prelude.Map.{find}
use simple_chat_protocol.Protocol.MsgType
use simple_chat_protocol.Messages.{ServerMessage, server_response}
use simple_chat_protocol.Server.State.{SessionInfo, Server}

-- send_message(fd, msg_type, proto)
unfoldable pub send_message : ℕ → ℕ → ServerMessage → Server → Server
send_message fd msg_type proto s = record s {
  sent = s.sent ++ record { fd = fd; msg_type = msg_type; proto = proto } ∷ [];
}

abbrev pub response : ℕ → String → Bool → ServerMessage
response code msg success =
    server_response (record { status_code = code; message = msg; is_successful = success })

unfoldable pub send_locked : SessionInfo → ℕ → ServerMessage → Server → Server
unfolding send_message
send_locked session msg_type proto s = send_message session.socket_fd msg_type proto s

unfoldable pub send_response_direct : SessionInfo → ℕ → String → Bool → Server → Server
unfolding send_locked
send_response_direct session code msg success s =
    send_locked session MsgType.server_response (response code msg success) s

unfoldable pub send_response_bare : ℕ → ℕ → String → Bool → Server → Server
unfolding send_message
send_response_bare fd code msg success s =
    send_message fd MsgType.server_response (response code msg success) s

unfoldable pub get_session : ℕ → Server → Option SessionInfo
get_session fd s = find fd s.sessions

unfoldable pub send_server_response : ℕ → ℕ → String → Bool → Server → Server
unfolding get_session send_response_direct send_response_bare
send_server_response fd code msg success s = elim (get_session fd s) [
  | some session ↦ send_response_direct session code msg success s
  | none ↦ send_response_bare fd code msg success s
]

unfoldable pub send_to_client : ℕ → ℕ → ServerMessage → Server → Server
unfolding get_session send_locked send_message
send_to_client fd msg_type proto s = elim (get_session fd s) [
  | some session ↦ send_locked session msg_type proto s
  | none ↦ send_message fd msg_type proto s
]
