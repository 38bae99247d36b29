-- ===== src/Server/Malformed.antt =====
-- Payloads that do not parse and unknown types, in `handle_client` and the handlers of
-- src/server/server.cpp.
use simple_chat_protocol.Prelude.{
  ℕ, ◌<◌, String, Bool, false, ◌≡◌, refl, ap, none, some, List, [], ◌∷◌, ◌++◌, arith, nat_equality,
}
use simple_chat_protocol.Prelude.Map.{find}
use simple_chat_protocol.Protocol.MsgType
use simple_chat_protocol.Protocol.StatusCode
use simple_chat_protocol.Messages.{World}
use simple_chat_protocol.Server.State.{SessionInfo, Server}
use simple_chat_protocol.Server.Handlers.{
  broadcast, direct_message, set_user_status, list_of_users, user_info, handle_register,
  handle_message_general, handle_message_dm, handle_change_status, handle_list_users,
  handle_get_user_info,
}
use simple_chat_protocol.Server.Client.{dispatch}
use simple_chat_protocol.Server.Registry.{IsConsistent}
use simple_chat_protocol.Server.Requests.{on_request-malformed}
use simple_chat_protocol.Server.Registration.{answer}

-- A message that is no request: its payload does not parse as its type, or the type is unknown.
pub data IsMalformed (w : World) (payload : List ℕ) : ℕ → Type 0 where
  bad_register :
      w.register.parse_from_string payload ≡ none → IsMalformed w payload MsgType.register
  bad_message_general :
      w.message_general.parse_from_string payload ≡ none
      → IsMalformed w payload MsgType.message_general
  bad_message_dm :
      w.message_dm.parse_from_string payload ≡ none → IsMalformed w payload MsgType.message_dm
  bad_change_status :
      w.change_status.parse_from_string payload ≡ none → IsMalformed w payload MsgType.change_status
  bad_list_users :
      w.list_users.parse_from_string payload ≡ none → IsMalformed w payload MsgType.list_users
  bad_get_user_info :
      w.get_user_info.parse_from_string payload ≡ none → IsMalformed w payload MsgType.get_user_info
  type_zero : IsMalformed w payload 0
  type_unknown : (t : ℕ) → MsgType.quit < t → IsMalformed w payload t

-- The answer 400, nothing else, and the read loop goes on.
abbrev pub Complains : ℕ → Server → Server × Bool → Type 0
Complains fd s next =
    (text : String) × (next
      ≡ (record s { sent = s.sent ++ answer fd StatusCode.bad_request text false ∷ [] }, false))

-- In a consistent registry, a message of a connection with a session that does not parse, and is
-- no Quit, or is of an unknown type, is answered with
-- 400; it changes no session, not even the time of the last activity, and the connection goes on.
pub dispatch-Complains :
    (w : World) (now fd t : ℕ) (payload : List ℕ) (i : SessionInfo) (s : Server)
    → IsConsistent s
    → find fd s.sessions ≡ some i
    → IsMalformed w payload t
    → Complains fd s (dispatch w now fd t payload s)
unfolding dispatch handle_register handle_message_general handle_message_dm handle_change_status
    handle_list_users handle_get_user_info
dispatch-Complains w now fd t payload i s h found (bad_register e) =
    ("Malformed Register message", ground (arith, e))
dispatch-Complains w now fd t payload i s h found (bad_message_general e) = (
  "Malformed MessageGeneral",
  ap (λ q. (q, false))
      (on_request-malformed fd (w.message_general.parse_from_string payload)
        "Malformed MessageGeneral" (λ session msg. broadcast now fd session msg.message) s i found
        (h.indexed fd i found).socket e),
)
dispatch-Complains w now fd t payload i s h found (bad_message_dm e) = (
  "Malformed MessageDM",
  ap (λ q. (q, false))
      (on_request-malformed fd (w.message_dm.parse_from_string payload) "Malformed MessageDM"
        (λ session msg. direct_message now fd session msg.username_des msg.message) s i found
        (h.indexed fd i found).socket e),
)
dispatch-Complains w now fd t payload i s h found (bad_change_status e) = (
  "Malformed ChangeStatus",
  ap (λ q. (q, false))
      (on_request-malformed fd (w.change_status.parse_from_string payload) "Malformed ChangeStatus"
        (λ session cs. set_user_status now fd session cs.status) s i found
        (h.indexed fd i found).socket e),
)
dispatch-Complains w now fd t payload i s h found (bad_list_users e) = (
  "Malformed ListUsers",
  ap (λ q. (q, false))
      (on_request-malformed fd (w.list_users.parse_from_string payload) "Malformed ListUsers"
        (λ session lu. list_of_users now fd session) s i found (h.indexed fd i found).socket e),
)
dispatch-Complains w now fd t payload i s h found (bad_get_user_info e) = (
  "Malformed GetUserInfo",
  ap (λ q. (q, false))
      (on_request-malformed fd (w.get_user_info.parse_from_string payload) "Malformed GetUserInfo"
        (λ session gui. user_info now fd session gui.username_des) s i found
        (h.indexed fd i found).socket e),
)
dispatch-Complains w now fd t payload i s h found type_zero = ("Unknown message type", refl)
dispatch-Complains w now fd t payload i s h found (type_unknown t' gt) =
    ("Unknown message type", ground (arith, gt))
