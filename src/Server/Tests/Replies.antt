-- ===== src/Server/Tests/Replies.antt =====
-- The theorems on the answers of the server, in the chat of two users.
use simple_chat_protocol.Prelude.{◌≡◌, refl, true, false, [], ◌∷◌, ◌++◌, arith, nat_equality}
use simple_chat_protocol.Protocol.MsgType
use simple_chat_protocol.Protocol.Status.{do_not_disturb}
use simple_chat_protocol.Server.Handlers.{
  handle_message_dm, handle_change_status, handle_get_user_info,
}
use simple_chat_protocol.Server.Client.{dispatch}
use simple_chat_protocol.Server.Events.{message, step}
use simple_chat_protocol.Server.Registration.{answer}
use simple_chat_protocol.Server.Profiles.{
  with_status, profile, handle_get_user_info-handle_change_status,
}
use simple_chat_protocol.Server.Absence.{handle_message_dm-absent}
use simple_chat_protocol.Server.Malformed.{bad_message_dm, Complains, dispatch-Complains}
use simple_chat_protocol.Server.Leaving.{IsGone, step_quit-IsGone}
use simple_chat_protocol.Server.Tests.{
  toy, lobby, ana, bob, lobby-IsConsistent, found_ana, found_bob, no_eva, to_one, changing, asking,
}

handle_get_user_info-handle_change_status_example :
    (handle_get_user_info toy 10 5 (1 ∷ []) (handle_change_status toy 9 4 (1 ∷ []) lobby)).sent
    ≡ (handle_change_status toy 9 4 (1 ∷ []) lobby).sent
      ++ profile 5 (with_status 9 do_not_disturb ana) ∷ []
handle_get_user_info-handle_change_status_example =
    handle_get_user_info-handle_change_status toy 9 10 4 5 (1 ∷ []) (1 ∷ []) (changing 1) (asking 1)
      ana bob lobby lobby-IsConsistent found_ana refl (omega arith) found_bob refl refl

handle_message_dm-absent_example :
    (handle_message_dm toy 9 4 (3 ∷ []) lobby).sent
    ≡ (lobby.sent ++ []) ++ answer 4 404 "User 'eva' not found" false ∷ []
handle_message_dm-absent_example =
    handle_message_dm-absent toy 9 4 (3 ∷ []) (to_one 3) ana lobby lobby-IsConsistent found_ana refl
      no_eva

dispatch-Complains_example : Complains 4 lobby (dispatch toy 9 4 MsgType.message_dm [] lobby)
dispatch-Complains_example =
    dispatch-Complains toy 9 4 MsgType.message_dm [] ana lobby lobby-IsConsistent found_ana
      (bad_message_dm refl)

step_quit-IsGone_example :
    IsGone 4 lobby (step toy (message 9 4 MsgType.quit (0 ∷ [])) lobby)
    × ((step toy (message 9 4 MsgType.quit (0 ∷ [])) lobby).sent
        ≡ lobby.sent ++ answer 4 203 "Goodbye!" true ∷ [])
step_quit-IsGone_example = step_quit-IsGone toy 9 4 (0 ∷ []) ana lobby lobby-IsConsistent found_ana
