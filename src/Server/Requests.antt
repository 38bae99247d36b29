-- ===== src/Server/Requests.antt =====
-- The beginning that the handlers of requests in src/server/server.cpp share.
use simple_chat_protocol.Prelude.{
  ℕ, ◌≤◌, String, false, ◌≡◌, Option, none, some, List, [], ◌∷◌, ◌++◌, arith, nat_equality,
}
use simple_chat_protocol.Prelude.Map.{find}
use simple_chat_protocol.Protocol.MsgType
use simple_chat_protocol.Protocol.StatusCode
use simple_chat_protocol.Messages.{
  World, MessageGeneral, MessageDm, ChangeStatus, ListUsers, GetUserInfo,
}
use simple_chat_protocol.Server.State.{SessionInfo, Server}
use simple_chat_protocol.Server.Handlers.{
  on_request, broadcast, direct_message, set_user_status, list_of_users, user_info,
  handle_message_general, handle_message_dm, handle_change_status, handle_list_users,
  handle_get_user_info,
}
use simple_chat_protocol.Server.Client.{dispatch}
use simple_chat_protocol.Server.Registration.{answer}

module _ {A : Type 0} (fd : ℕ) (request : Option A) (text : String)
    (body : SessionInfo → A → Server → Server) (s : Server) where
  on_request-registered :
      (i : SessionInfo) (a : A)
      → find fd s.sessions ≡ some i
      → request ≡ some a
      → on_request fd request text body s ≡ body i a s
  unfolding on_request
  on_request-registered i a found parse = rw (found, parse, on_request)

  pub on_request-malformed :
      (i : SessionInfo)
      → find fd s.sessions ≡ some i
      → i.socket_fd ≡ fd
      → request ≡ none
      → on_request fd request text body s
        ≡ record s { sent = s.sent ++ answer fd StatusCode.bad_request text false ∷ [] }
  unfolding on_request
  on_request-malformed i found socket parse = rw (found, parse, on_request) (ground (arith, socket))

  on_request-unregistered :
      find fd s.sessions ≡ none
      → on_request fd request text body s ≡ record s {
        sent = s.sent ++ answer fd StatusCode.not_registered "Not registered" false ∷ [];
      }
  unfolding on_request
  on_request-unregistered absent = rw (absent, on_request)

module _ (w : World) (now fd : ℕ) (payload : List ℕ) (s : Server) where
  pub handle_message_general-registered :
      (i : SessionInfo) (msg : MessageGeneral)
      → find fd s.sessions ≡ some i
      → w.message_general.parse_from_string payload ≡ some msg
      → handle_message_general w now fd payload s ≡ broadcast now fd i msg.message s
  unfolding handle_message_general
  handle_message_general-registered i msg found parse =
      on_request-registered fd (w.message_general.parse_from_string payload)
        "Malformed MessageGeneral" (λ session msg. broadcast now fd session msg.message) s i msg
        found parse

  pub handle_message_dm-registered :
      (i : SessionInfo) (msg : MessageDm)
      → find fd s.sessions ≡ some i
      → w.message_dm.parse_from_string payload ≡ some msg
      → handle_message_dm w now fd payload s
        ≡ direct_message now fd i msg.username_des msg.message s
  unfolding handle_message_dm
  handle_message_dm-registered i msg found parse =
      on_request-registered fd (w.message_dm.parse_from_string payload) "Malformed MessageDM"
        (λ session msg. direct_message now fd session msg.username_des msg.message) s i msg found
        parse

  pub handle_change_status-registered :
      (i : SessionInfo) (cs : ChangeStatus)
      → find fd s.sessions ≡ some i
      → w.change_status.parse_from_string payload ≡ some cs
      → handle_change_status w now fd payload s ≡ set_user_status now fd i cs.status s
  unfolding handle_change_status
  handle_change_status-registered i cs found parse =
      on_request-registered fd (w.change_status.parse_from_string payload) "Malformed ChangeStatus"
        (λ session cs. set_user_status now fd session cs.status) s i cs found parse

  pub handle_list_users-registered :
      (i : SessionInfo) (lu : ListUsers)
      → find fd s.sessions ≡ some i
      → w.list_users.parse_from_string payload ≡ some lu
      → handle_list_users w now fd payload s ≡ list_of_users now fd i s
  unfolding handle_list_users
  handle_list_users-registered i lu found parse =
      on_request-registered fd (w.list_users.parse_from_string payload) "Malformed ListUsers"
        (λ session lu. list_of_users now fd session) s i lu found parse

  pub handle_get_user_info-registered :
      (i : SessionInfo) (gui : GetUserInfo)
      → find fd s.sessions ≡ some i
      → w.get_user_info.parse_from_string payload ≡ some gui
      → handle_get_user_info w now fd payload s ≡ user_info now fd i gui.username_des s
  unfolding handle_get_user_info
  handle_get_user_info-registered i gui found parse =
      on_request-registered fd (w.get_user_info.parse_from_string payload) "Malformed GetUserInfo"
        (λ session gui. user_info now fd session gui.username_des) s i gui found parse

  unregistered_message_general :
      find fd s.sessions ≡ none
      → handle_message_general w now fd payload s ≡ record s {
        sent = s.sent ++ answer fd StatusCode.not_registered "Not registered" false ∷ [];
      }
  unfolding handle_message_general
  unregistered_message_general =
      on_request-unregistered fd (w.message_general.parse_from_string payload)
        "Malformed MessageGeneral" (λ session msg. broadcast now fd session msg.message) s

  unregistered_message_dm :
      find fd s.sessions ≡ none
      → handle_message_dm w now fd payload s ≡ record s {
        sent = s.sent ++ answer fd StatusCode.not_registered "Not registered" false ∷ [];
      }
  unfolding handle_message_dm
  unregistered_message_dm =
      on_request-unregistered fd (w.message_dm.parse_from_string payload) "Malformed MessageDM"
        (λ session msg. direct_message now fd session msg.username_des msg.message) s

  unregistered_change_status :
      find fd s.sessions ≡ none
      → handle_change_status w now fd payload s ≡ record s {
        sent = s.sent ++ answer fd StatusCode.not_registered "Not registered" false ∷ [];
      }
  unfolding handle_change_status
  unregistered_change_status =
      on_request-unregistered fd (w.change_status.parse_from_string payload)
        "Malformed ChangeStatus" (λ session cs. set_user_status now fd session cs.status) s

  unregistered_list_users :
      find fd s.sessions ≡ none
      → handle_list_users w now fd payload s ≡ record s {
        sent = s.sent ++ answer fd StatusCode.not_registered "Not registered" false ∷ [];
      }
  unfolding handle_list_users
  unregistered_list_users =
      on_request-unregistered fd (w.list_users.parse_from_string payload) "Malformed ListUsers"
        (λ session lu. list_of_users now fd session) s

  unregistered_get_user_info :
      find fd s.sessions ≡ none
      → handle_get_user_info w now fd payload s ≡ record s {
        sent = s.sent ++ answer fd StatusCode.not_registered "Not registered" false ∷ [];
      }
  unfolding handle_get_user_info
  unregistered_get_user_info =
      on_request-unregistered fd (w.get_user_info.parse_from_string payload) "Malformed GetUserInfo"
        (λ session gui. user_info now fd session gui.username_des) s

  -- A connection without a session, whatever it sends of the types from MESSAGE_GENERAL to
  -- GET_USER_INFO, gets the answer 401; nothing else happens, and the read loop goes on.
  pub dispatch_unregistered :
      (msg_type : ℕ)
      → find fd s.sessions ≡ none
      → MsgType.message_general ≤ msg_type
      → msg_type ≤ MsgType.get_user_info
      → dispatch w now fd msg_type payload s ≡ (
        record s {
          sent = s.sent ++ answer fd StatusCode.not_registered "Not registered" false ∷ [];
        },
        false,
      )
  unfolding dispatch
  dispatch_unregistered t absent low high = ground (
    arith,
    unregistered_message_general absent,
    unregistered_message_dm absent,
    unregistered_change_status absent,
    unregistered_list_users absent,
    unregistered_get_user_info absent,
  )
