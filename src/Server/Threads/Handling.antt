-- ===== src/Server/Threads/Handling.antt =====
-- A thread that runs alone, and the handlers of src/server/server.cpp.
use simple_chat_protocol.Prelude.{
  ℕ, String, Bool, true, false, ◌≡◌, refl, none, some, List, [], ◌∷◌, ◌++◌, Option, if_both,
  option_both, if◌then◌else◌, ◌==◌, nat_equality, string_equality,
}
use simple_chat_protocol.Prelude.Map.{find}
use simple_chat_protocol.Protocol.MsgType
use simple_chat_protocol.Messages.{World}
use simple_chat_protocol.Server.State.{SessionInfo, Server}
use simple_chat_protocol.Server.Sending.{send_message, get_session}
use simple_chat_protocol.Server.Session.{get_peer_ip}
use simple_chat_protocol.Server.Handlers.{
  register_user, on_request, broadcast, direct_message, set_user_status, list_of_users, user_info,
  goodbye, handle_register, handle_message_general, handle_message_dm, handle_change_status,
  handle_list_users, handle_get_user_info, handle_quit,
}
use simple_chat_protocol.Server.Client.{dispatch, cleanup}
use simple_chat_protocol.Server.Threads.{
  Act, enroll, plan_request, plan_goodbye, plan_register, plan_quit, plan_message_general,
  plan_message_dm, plan_change_status, plan_list_users, plan_get_user_info, plan_message, ending,
}
use simple_chat_protocol.Server.Threads.Doing.{carry_out}
use simple_chat_protocol.Server.Threads.Machine.{proceed}
use simple_chat_protocol.Server.Threads.Alone.{
  Gets, any, Gets-status, Gets-list, Gets-info, Gets-dm, Gets-broadcast,
}

module _ {A : Type 0} (now fd : ℕ) (request : Option A) (text : String)
    (acts : SessionInfo → A → List Act) (body : SessionInfo → A → Server → Server)
    (s : Server) where
  Gets-request :
      ((session : SessionInfo) (msg : A)
        → find fd s.sessions ≡ some session
        → Gets now fd (some (acts session msg)) s (some []) (body session msg s))
      → Gets now fd
          (some (plan_request fd request text acts s))
          s
          (some [])
          (on_request fd request text body s)
  unfolding plan_request on_request get_session send_message carry_out proceed
  Gets-request gets =
      let P : List Act → Server → Type 0 = λ l q. Gets now fd (some l) s (some []) q in
      option_both P (find fd s.sessions) _ _ _ _ (λ _. (any ∷ [], refl))
        λ session found.
          option_both P request _ (acts session) _ (λ msg. body session msg s)
            (λ _. (any ∷ [], refl)) (λ msg _. gets session msg found)

module _ (w : World) (now fd : ℕ) (payload : List ℕ) (s : Server) where
  -- What a thread has left when a message is handled, and the server.
  abbrev Ends : List Act → Server × Bool → Type 0
  Ends acts q =
      Gets now fd (some acts) s (if q.1 then none else some [])
        (if q.1 then cleanup fd q.0 else q.0)

  Ends-register : Ends (plan_register w fd payload) (handle_register w now fd payload s, false)
  unfolding handle_register get_peer_ip send_message carry_out proceed
  Ends-register =
      option_both (λ acts q. Ends acts (q, false)) (w.register.parse_from_string payload) _
        (λ reg. enroll reg.username (get_peer_ip w fd) ∷ []) _
        (λ reg. register_user now fd reg.username (get_peer_ip w fd) s) (λ _. (any ∷ [], refl))
        (λ reg _. (any ∷ [], refl))

  Ends-message_general :
      Ends (plan_message_general w fd payload s) (handle_message_general w now fd payload s, false)
  unfolding handle_message_general
  Ends-message_general =
      Gets-request now fd (w.message_general.parse_from_string payload) "Malformed MessageGeneral" _
        (λ session msg. broadcast now fd session msg.message) s
        (λ session msg. Gets-broadcast now fd session msg.message s)

  Ends-message_dm :
      Ends (plan_message_dm w fd payload s) (handle_message_dm w now fd payload s, false)
  unfolding handle_message_dm
  Ends-message_dm =
      Gets-request now fd (w.message_dm.parse_from_string payload) "Malformed MessageDM" _
        (λ session msg. direct_message now fd session msg.username_des msg.message) s
        (λ session msg. Gets-dm now fd session msg.username_des msg.message s)

  Ends-change_status :
      Ends (plan_change_status w fd payload s) (handle_change_status w now fd payload s, false)
  unfolding handle_change_status
  Ends-change_status =
      Gets-request now fd (w.change_status.parse_from_string payload) "Malformed ChangeStatus" _
        (λ session cs. set_user_status now fd session cs.status) s
        (λ session cs _. Gets-status now fd session cs.status s)

  Ends-list_users :
      Ends (plan_list_users w fd payload s) (handle_list_users w now fd payload s, false)
  unfolding handle_list_users
  Ends-list_users =
      Gets-request now fd (w.list_users.parse_from_string payload) "Malformed ListUsers" _
        (λ session lu. list_of_users now fd session) s (λ session lu _. Gets-list now fd session s)

  Ends-get_user_info :
      Ends (plan_get_user_info w fd payload s) (handle_get_user_info w now fd payload s, false)
  unfolding handle_get_user_info
  Ends-get_user_info =
      Gets-request now fd (w.get_user_info.parse_from_string payload) "Malformed GetUserInfo" _
        (λ session gui. user_info now fd session gui.username_des) s
        (λ session gui _. Gets-info now fd session gui.username_des s)

  Ends-goodbye : (o : Option SessionInfo) → Ends (plan_goodbye o ++ ending) (goodbye o s, true)
  unfolding carry_out proceed send_message cleanup
  Ends-goodbye none = (any ∷ any ∷ [], refl)
  Ends-goodbye (some session) = (any ∷ any ∷ any ∷ [], refl)

  Ends-quit : Ends (plan_quit w fd payload s ++ ending) (handle_quit w now fd payload s, true)
  unfolding handle_quit get_session carry_out proceed cleanup
  Ends-quit =
      option_both (λ acts q. Ends (acts ++ ending) (q, true)) (w.quit.parse_from_string payload) []
        (λ q. plan_goodbye (get_session fd s)) s (λ q. goodbye (get_session fd s) s)
        (λ _. Ends-goodbye none) (λ q _. Ends-goodbye (get_session fd s))

  pub Ends-dispatch : (t : ℕ) → Ends (plan_message w fd payload t s) (dispatch w now fd t payload s)
  unfolding plan_message dispatch carry_out proceed send_message
  Ends-dispatch t =
      if_both Ends (t == MsgType.register) _ _ _ _ (λ _. Ends-register)
        λ _.
          if_both Ends (t == MsgType.message_general) _ _ _ _ (λ _. Ends-message_general)
            λ _.
              if_both Ends (t == MsgType.message_dm) _ _ _ _ (λ _. Ends-message_dm)
                λ _.
                  if_both Ends (t == MsgType.change_status) _ _ _ _ (λ _. Ends-change_status)
                    λ _.
                      if_both Ends (t == MsgType.list_users) _ _ _ _ (λ _. Ends-list_users)
                        λ _.
                          if_both Ends (t == MsgType.get_user_info) _ _ _ _
                            (λ _. Ends-get_user_info)
                            λ _.
                              if_both Ends (t == MsgType.quit) _ _ _ _ (λ _. Ends-quit)
                                (λ _. (any ∷ [], refl))
