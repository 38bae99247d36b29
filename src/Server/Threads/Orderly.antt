-- ===== src/Server/Threads/Orderly.antt =====
-- In which order a thread of src/server/server.cpp does its parts.
use simple_chat_protocol.Prelude.{
  ℕ, ◌≤◌, not, ◌&&◌, ◌≡◌, refl, none, some, List, [], ◌∷◌, ◌++◌, Option, String, if_cases,
  option_cases, ◌==◌, nat_equality, string_equality,
}
use simple_chat_protocol.Protocol.Status.{StatusEnum, active, do_not_disturb, invisible}
use simple_chat_protocol.Protocol.MsgType
use simple_chat_protocol.Messages.{World}
use simple_chat_protocol.Server.State.{SessionInfo, Server}
use simple_chat_protocol.Server.Sending.{get_session}
use simple_chat_protocol.Server.Session.{get_peer_ip}
use simple_chat_protocol.Server.Invariant.Bodies.{valid_status}
use simple_chat_protocol.Server.Threads.{
  Pointer, Act, enroll, restore, touch, write_status, collect, seek, gather, ask, remove, leave,
  plan_request, plan_status, plan_message, plan_register, plan_goodbye, plan_quit,
  plan_message_general, plan_message_dm, plan_change_status, plan_list_users, plan_get_user_info,
  ending,
}
use simple_chat_protocol.Server.Threads.Doing.{announce, on_dest, on_target}

-- A thread writes no status but those of the protocol, and closes its socket directly behind the
-- removal of its session.
abbrev pub IsOrderly : List Act → Type 0
IsOrderly [] = Unit
IsOrderly (write_status t ∷ rest) = (t ≤ invisible) × IsOrderly rest
IsOrderly (remove ∷ rest) = rest ≡ leave ∷ []
IsOrderly (leave ∷ rest) = ⊥
IsOrderly (_ ∷ rest) = IsOrderly rest

module _ {A : Type 0} (fd : ℕ) (request : Option A) (text : String)
    (body : SessionInfo → A → List Act) where
  plan_request-IsOrderly :
      (s : Server)
      → ((session : SessionInfo) (a : A) → IsOrderly (body session a))
      → IsOrderly (plan_request fd request text body s)
  unfolding plan_request
  plan_request-IsOrderly s k =
      option_cases IsOrderly (get_session fd s) _ _ (λ _. tt)
        λ session _.
          option_cases IsOrderly request _ (λ a. body session a) (λ _. tt) (λ a _. k session a)

plan_status-IsOrderly : (session : SessionInfo) (t : StatusEnum) → IsOrderly (plan_status session t)
plan_status-IsOrderly session t =
    if_cases IsOrderly (not (t == active) && not (t == do_not_disturb) && not (t == invisible)) _ _
      (λ _. tt) (λ valid. (valid_status t valid, tt))

plan_goodbye-IsOrderly : (o : Option SessionInfo) → IsOrderly (plan_goodbye o ++ ending)
plan_goodbye-IsOrderly none = refl
plan_goodbye-IsOrderly (some session) = refl

module _ (w : World) (fd : ℕ) (payload : List ℕ) where
  plan_quit-IsOrderly : (s : Server) → IsOrderly (plan_quit w fd payload s ++ ending)
  unfolding get_session
  plan_quit-IsOrderly s =
      option_cases (λ acts. IsOrderly (acts ++ ending)) (w.quit.parse_from_string payload) []
        (λ q. plan_goodbye (get_session fd s)) (λ _. refl)
        (λ q _. plan_goodbye-IsOrderly (get_session fd s))

  plan_register-IsOrderly : IsOrderly (plan_register w fd payload)
  unfolding get_peer_ip
  plan_register-IsOrderly =
      option_cases IsOrderly (w.register.parse_from_string payload) _
        (λ reg. enroll reg.username (get_peer_ip w fd) ∷ []) (λ _. tt) (λ reg _. tt)

  plan_message_general-IsOrderly : (s : Server) → IsOrderly (plan_message_general w fd payload s)
  plan_message_general-IsOrderly s =
      plan_request-IsOrderly fd (w.message_general.parse_from_string payload)
        "Malformed MessageGeneral"
        (λ session msg. restore ∷ touch ∷ collect session.username msg.message ∷ []) s
        (λ session msg. tt)

  plan_message_dm-IsOrderly : (s : Server) → IsOrderly (plan_message_dm w fd payload s)
  plan_message_dm-IsOrderly s =
      plan_request-IsOrderly fd (w.message_dm.parse_from_string payload) "Malformed MessageDM"
        (λ session msg. restore ∷ touch ∷ seek session msg.username_des msg.message ∷ []) s
        (λ session msg. tt)

  plan_change_status-IsOrderly : (s : Server) → IsOrderly (plan_change_status w fd payload s)
  plan_change_status-IsOrderly s =
      plan_request-IsOrderly fd (w.change_status.parse_from_string payload) "Malformed ChangeStatus"
        (λ session cs. plan_status session cs.status) s
        (λ session cs. plan_status-IsOrderly session cs.status)

  plan_list_users-IsOrderly : (s : Server) → IsOrderly (plan_list_users w fd payload s)
  plan_list_users-IsOrderly s =
      plan_request-IsOrderly fd (w.list_users.parse_from_string payload) "Malformed ListUsers"
        (λ session lu. touch ∷ gather session ∷ []) s (λ session lu. tt)

  plan_get_user_info-IsOrderly : (s : Server) → IsOrderly (plan_get_user_info w fd payload s)
  plan_get_user_info-IsOrderly s =
      plan_request-IsOrderly fd (w.get_user_info.parse_from_string payload) "Malformed GetUserInfo"
        (λ session gui. touch ∷ ask session gui.username_des ∷ []) s (λ session gui. tt)

  pub plan_message-IsOrderly : (t : ℕ) (s : Server) → IsOrderly (plan_message w fd payload t s)
  unfolding plan_message
  plan_message-IsOrderly t s =
      if_cases IsOrderly (t == MsgType.register) _ _ (λ _. plan_register-IsOrderly)
        λ _.
          if_cases IsOrderly (t == MsgType.message_general) _ _
            (λ _. plan_message_general-IsOrderly s)
            λ _.
              if_cases IsOrderly (t == MsgType.message_dm) _ _ (λ _. plan_message_dm-IsOrderly s)
                λ _.
                  if_cases IsOrderly (t == MsgType.change_status) _ _
                    (λ _. plan_change_status-IsOrderly s)
                    λ _.
                      if_cases IsOrderly (t == MsgType.list_users) _ _
                        (λ _. plan_list_users-IsOrderly s)
                        λ _.
                          if_cases IsOrderly (t == MsgType.get_user_info) _ _
                            (λ _. plan_get_user_info-IsOrderly s)
                            λ _.
                              if_cases IsOrderly (t == MsgType.quit) _ _
                                (λ _. plan_quit-IsOrderly s) (λ _. tt)

-- What a part puts in front of the rest keeps its order.
pub announce-IsOrderly :
    (sender text : String) (targets : List SessionInfo) (rest : List Act)
    → IsOrderly rest
    → IsOrderly (announce sender text targets ++ rest)
announce-IsOrderly sender text [] rest h = h
announce-IsOrderly sender text (t ∷ targets) rest h = announce-IsOrderly sender text targets rest h

pub on_dest-IsOrderly :
    (session : SessionInfo) (dest_user text : String) (p : Pointer) (o : Option SessionInfo)
    (rest : List Act)
    → IsOrderly rest
    → IsOrderly (on_dest session dest_user text p o ++ rest)
on_dest-IsOrderly session dest_user text p none rest h = h
on_dest-IsOrderly session dest_user text p (some d) rest h = h

pub on_target-IsOrderly :
    (session : SessionInfo) (target_user : String) (o : Option SessionInfo) (rest : List Act)
    → IsOrderly rest
    → IsOrderly (on_target session target_user o ++ rest)
on_target-IsOrderly session target_user none rest h = h
on_target-IsOrderly session target_user (some d) rest h = h
