-- ===== src/Server/Invariant/Requests.antt =====
-- The registry under the handlers and the dispatch of src/server/server.cpp.
use simple_chat_protocol.Prelude.{
  ℕ, false, Option, none, some, List, option_cases, nat_equality, string_equality,
}
use simple_chat_protocol.Messages.{World}
use simple_chat_protocol.Server.State.{SessionInfo, Server}
use simple_chat_protocol.Server.Session.{get_peer_ip}
use simple_chat_protocol.Server.Handlers.{
  handle_register, handle_message_general, handle_message_dm, handle_change_status,
  handle_list_users, handle_get_user_info, handle_quit, register_user, broadcast, direct_message,
  set_user_status, list_of_users, user_info, goodbye,
}
use simple_chat_protocol.Protocol.StatusCode
use simple_chat_protocol.Server.Sending.{get_session}
use simple_chat_protocol.Server.Client.{dispatch}
use simple_chat_protocol.Server.Dispatching.{dispatch_cases}
use simple_chat_protocol.Server.Registry.{IsConsistent}
use simple_chat_protocol.Server.Invariant.Bodies.{
  on_request-IsConsistent, send_response_bare-IsConsistent, register_user-IsConsistent,
  broadcast-IsConsistent, direct_message-IsConsistent, set_user_status-IsConsistent,
  list_of_users-IsConsistent, user_info-IsConsistent,
}

module _ (w : World) (now fd : ℕ) (payload : List ℕ) (s : Server) (h : IsConsistent s) where
  handle_register-IsConsistent : IsConsistent (handle_register w now fd payload s)
  unfolding handle_register
  handle_register-IsConsistent =
      option_cases IsConsistent (w.register.parse_from_string payload) _
        (λ reg. register_user now fd reg.username (get_peer_ip w fd) s) (λ _. h)
        (λ reg _. register_user-IsConsistent now fd reg.username (get_peer_ip w fd) s h)

  handle_message_general-IsConsistent : IsConsistent (handle_message_general w now fd payload s)
  unfolding handle_message_general
  handle_message_general-IsConsistent =
      on_request-IsConsistent fd (w.message_general.parse_from_string payload)
        "Malformed MessageGeneral" (λ session msg. broadcast now fd session msg.message) s
        (λ session msg. broadcast-IsConsistent now fd session msg.message s h) h

  handle_message_dm-IsConsistent : IsConsistent (handle_message_dm w now fd payload s)
  unfolding handle_message_dm
  handle_message_dm-IsConsistent =
      on_request-IsConsistent fd (w.message_dm.parse_from_string payload) "Malformed MessageDM"
        (λ session msg. direct_message now fd session msg.username_des msg.message) s
        (λ session msg. direct_message-IsConsistent now fd session msg.username_des msg.message s h)
        h

  pub handle_change_status-IsConsistent : IsConsistent (handle_change_status w now fd payload s)
  unfolding handle_change_status
  handle_change_status-IsConsistent =
      on_request-IsConsistent fd (w.change_status.parse_from_string payload)
        "Malformed ChangeStatus" (λ session cs. set_user_status now fd session cs.status) s
        (λ session cs. set_user_status-IsConsistent now fd session cs.status s h) h

  handle_list_users-IsConsistent : IsConsistent (handle_list_users w now fd payload s)
  unfolding handle_list_users
  handle_list_users-IsConsistent =
      on_request-IsConsistent fd (w.list_users.parse_from_string payload) "Malformed ListUsers"
        (λ session lu. list_of_users now fd session) s
        (λ session lu. list_of_users-IsConsistent now fd session s h) h

  handle_get_user_info-IsConsistent : IsConsistent (handle_get_user_info w now fd payload s)
  unfolding handle_get_user_info
  handle_get_user_info-IsConsistent =
      on_request-IsConsistent fd (w.get_user_info.parse_from_string payload) "Malformed GetUserInfo"
        (λ session gui. user_info now fd session gui.username_des) s
        (λ session gui. user_info-IsConsistent now fd session gui.username_des s h) h

  handle_quit-IsConsistent : IsConsistent (handle_quit w now fd payload s)
  unfolding handle_quit
  handle_quit-IsConsistent =
      option_cases IsConsistent (w.quit.parse_from_string payload) _
        (λ q. goodbye (get_session fd s) s) (λ _. h) (λ q _. said (get_session fd s))
    where
      said : (o : Option SessionInfo) → IsConsistent (goodbye o s)
      said none = h
      said (some i) = h

  pub dispatch-IsConsistent : (msg_type : ℕ) → IsConsistent (dispatch w now fd msg_type payload s).0
  dispatch-IsConsistent = dispatch_cases IsConsistent w now fd payload s (record {
    register = handle_register-IsConsistent;
    message_general = handle_message_general-IsConsistent;
    message_dm = handle_message_dm-IsConsistent;
    change_status = handle_change_status-IsConsistent;
    list_users = handle_list_users-IsConsistent;
    get_user_info = handle_get_user_info-IsConsistent;
    quit = handle_quit-IsConsistent;
    unknown =
        send_response_bare-IsConsistent fd StatusCode.bad_request "Unknown message type" false s h;
  })
