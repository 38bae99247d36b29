-- ===== src/Server/Dispatching.antt =====
-- To prove of `dispatch` what holds of each handler, for the `switch` of src/server/server.cpp.
use simple_chat_protocol.Prelude.{ℕ, Bool, false, List, ◌==◌, if_cases}
use simple_chat_protocol.Protocol.MsgType
use simple_chat_protocol.Protocol.StatusCode
use simple_chat_protocol.Messages.{World}
use simple_chat_protocol.Server.State.{Server}
use simple_chat_protocol.Server.Sending.{send_response_bare}
use simple_chat_protocol.Server.Handlers.{
  handle_register, handle_message_general, handle_message_dm, handle_change_status,
  handle_list_users, handle_get_user_info, handle_quit,
}
use simple_chat_protocol.Server.Client.{dispatch}

module _ (P : Server → Type 0) (w : World) (now fd : ℕ) (payload : List ℕ) (s : Server) where
  -- What each case of the `switch` leaves satisfies P.
  pub record Handled : Type 0 where
    pub register : P (handle_register w now fd payload s)
    pub message_general : P (handle_message_general w now fd payload s)
    pub message_dm : P (handle_message_dm w now fd payload s)
    pub change_status : P (handle_change_status w now fd payload s)
    pub list_users : P (handle_list_users w now fd payload s)
    pub get_user_info : P (handle_get_user_info w now fd payload s)
    pub quit : P (handle_quit w now fd payload s)
    pub unknown : P (send_response_bare fd StatusCode.bad_request "Unknown message type" false s)

  pub dispatch_cases : Handled → (t : ℕ) → P (dispatch w now fd t payload s).0
  unfolding dispatch
  dispatch_cases h t =
      let Q : Server × Bool → Type 0 = λ q. P q.0 in
      if_cases Q (t == MsgType.register) _ _ (λ _. h.register)
        λ _.
          if_cases Q (t == MsgType.message_general) _ _ (λ _. h.message_general)
            λ _.
              if_cases Q (t == MsgType.message_dm) _ _ (λ _. h.message_dm)
                λ _.
                  if_cases Q (t == MsgType.change_status) _ _ (λ _. h.change_status)
                    λ _.
                      if_cases Q (t == MsgType.list_users) _ _ (λ _. h.list_users)
                        λ _.
                          if_cases Q (t == MsgType.get_user_info) _ _ (λ _. h.get_user_info)
                            λ _. if_cases Q (t == MsgType.quit) _ _ (λ _. h.quit) (λ _. h.unknown)
