-- ===== src/Server/Typing/Steps.antt =====
-- The types of the messages that src/server/server.cpp sends, under events and their sequences.
use simple_chat_protocol.Prelude.{
  ℕ, List, [], ◌∷◌, Option, none, some, sym, subst, if_cases, option_cases, nat_equality,
}
use simple_chat_protocol.Messages.{World}
use simple_chat_protocol.Server.State.{SessionInfo, Server}
use simple_chat_protocol.Server.Sending.{get_session}
use simple_chat_protocol.Server.Session.{get_peer_ip}
use simple_chat_protocol.Server.Handlers.{
  broadcast, direct_message, set_user_status, list_of_users, user_info, goodbye, handle_register,
  handle_message_general, handle_message_dm, handle_change_status, handle_list_users,
  handle_get_user_info, handle_quit,
}
use simple_chat_protocol.Server.Client.{dispatch, cleanup}
use simple_chat_protocol.Server.Lifecycle.{accept, new_server, open_listener}
use simple_chat_protocol.Server.Watchdog.{to_notify}
use simple_chat_protocol.Server.Events.{
  Event, message, hangup, wake, connect, shut, start, step, run,
}
use simple_chat_protocol.Server.Leaving.{sent-cleanup}
use simple_chat_protocol.Server.Stopping.{stop_lem}
use simple_chat_protocol.Server.Watching.{watchdog_round_lem}
use simple_chat_protocol.Server.Dispatching.{Handled, dispatch_cases}
use simple_chat_protocol.Server.Typing.{
  Typed, AllTyped, also_answer, register_user-AllTyped, broadcast-AllTyped,
  set_user_status-AllTyped, list_of_users-AllTyped, user_info-AllTyped, direct_message-AllTyped,
  on_request-AllTyped, Typed-notices,
}

module _ (w : World) (now fd : ℕ) (payload : List ℕ) (s : Server) (h : AllTyped s) where
  handle_register-AllTyped : AllTyped (handle_register w now fd payload s)
  unfolding handle_register
  handle_register-AllTyped =
      option_cases AllTyped (w.register.parse_from_string payload) _ _
        (λ _. also_answer s.sent _ _ _ _ h)
        (λ reg _. register_user-AllTyped now fd s h reg.username (get_peer_ip w fd))

  handle_quit-AllTyped : AllTyped (handle_quit w now fd payload s)
  unfolding handle_quit
  handle_quit-AllTyped =
      option_cases AllTyped (w.quit.parse_from_string payload) _ _ (λ _. h)
        (λ q _. said (get_session fd s))
    where
      said : (o : Option SessionInfo) → AllTyped (goodbye o s)
      said none = h
      said (some i) = also_answer s.sent _ _ _ _ h

  Handled-AllTyped : Handled AllTyped w now fd payload s
  unfolding handle_message_general handle_message_dm handle_change_status handle_list_users
      handle_get_user_info
  Handled-AllTyped = record {
    register = handle_register-AllTyped;
    message_general =
        on_request-AllTyped fd (w.message_general.parse_from_string payload)
          "Malformed MessageGeneral" (λ session msg. broadcast now fd session msg.message) s h
          (λ i msg. broadcast-AllTyped now fd i s h msg.message);
    message_dm =
        on_request-AllTyped fd (w.message_dm.parse_from_string payload) "Malformed MessageDM"
          (λ session msg. direct_message now fd session msg.username_des msg.message) s h
          (λ i msg. direct_message-AllTyped now fd i msg.username_des msg.message s h);
    change_status =
        on_request-AllTyped fd (w.change_status.parse_from_string payload) "Malformed ChangeStatus"
          (λ session cs. set_user_status now fd session cs.status) s h
          (λ i cs. set_user_status-AllTyped now fd i s h cs.status);
    list_users =
        on_request-AllTyped fd (w.list_users.parse_from_string payload) "Malformed ListUsers"
          (λ session lu. list_of_users now fd session) s h
          (λ i lu. list_of_users-AllTyped now fd i s h);
    get_user_info =
        on_request-AllTyped fd (w.get_user_info.parse_from_string payload) "Malformed GetUserInfo"
          (λ session gui. user_info now fd session gui.username_des) s h
          (λ i gui. user_info-AllTyped now fd i s h gui.username_des);
    quit = handle_quit-AllTyped;
    unknown = also_answer s.sent _ _ _ _ h;
  }

cleanup-AllTyped : (fd : ℕ) (s : Server) → AllTyped s → AllTyped (cleanup fd s)
cleanup-AllTyped fd s h = subst Typed (sym (sent-cleanup fd s)) h

step-AllTyped : (w : World) (e : Event) (s : Server) → AllTyped s → AllTyped (step w e s)
unfolding step accept
step-AllTyped w (message now fd msg_type payload) s h =
    let next = dispatch w now fd msg_type payload s in
    let h' =
      dispatch_cases AllTyped w now fd payload s (Handled-AllTyped w now fd payload s h) msg_type in
    if_cases AllTyped next.1 (cleanup fd next.0) next.0 (λ _. cleanup-AllTyped fd next.0 h')
      (λ _. h')
step-AllTyped w (hangup fd) s h = cleanup-AllTyped fd s h
step-AllTyped w (wake now) s h =
    subst AllTyped (sym (watchdog_round_lem now s))
      (Typed-notices s.idle_timeout_sec s.sent (to_notify s.idle_timeout_sec now s.sessions) h)
step-AllTyped w (connect fd) s h = h
step-AllTyped w shut s h = subst AllTyped (sym (stop_lem s)) h

run-AllTyped : (w : World) (es : List Event) (s : Server) → AllTyped s → AllTyped (run w es s)
unfolding run
run-AllTyped w [] s h = h
run-AllTyped w (e ∷ es) s h = run-AllTyped w es (step w e s) (step-AllTyped w e s h)

-- Whatever happens after the start, each message that the server has sent went out under the type
-- of its class, so that a client parses it as the message that it is.
pub run-start-AllTyped :
    (w : World) (timeout fd : ℕ) (es : List Event) → AllTyped (run w es (start timeout fd))
unfolding new_server open_listener
run-start-AllTyped w timeout fd es = run-AllTyped w es (start timeout fd) (record { each = tt })
