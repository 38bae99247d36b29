-- ===== src/Client/Sender.antt =====
-- `NetworkSender` of src/client/network.cpp: the messages of the client.
use simple_chat_protocol.Prelude.{String, Bool, true}
use simple_chat_protocol.Protocol.MsgType
use simple_chat_protocol.Protocol.Status.{StatusEnum}
use simple_chat_protocol.Wire.Socket.{Socket}
use simple_chat_protocol.Wire.Frame.{send_message}
use simple_chat_protocol.Messages.{World}

module _ (k : Socket) (w : World) where
  open k use {S}

  unfoldable pub send_register : S → String → String → Bool × S
  unfolding send_message
  send_register s username ip =
      send_message k w.register s MsgType.register (record { username = username; ip = ip })

  unfoldable pub send_message_general : S → String → StatusEnum → String → String → Bool × S
  unfolding send_message
  send_message_general s message status username ip =
      send_message k w.message_general s MsgType.message_general
        (record { message = message; status = status; username_origin = username; ip = ip })

  unfoldable pub send_message_dm : S → String → StatusEnum → String → String → Bool × S
  unfolding send_message
  send_message_dm s message status dest_user ip =
      send_message k w.message_dm s MsgType.message_dm
        (record { message = message; status = status; username_des = dest_user; ip = ip })

  unfoldable pub send_change_status : S → StatusEnum → String → String → Bool × S
  unfolding send_message
  send_change_status s status username ip =
      send_message k w.change_status s MsgType.change_status
        (record { status = status; username = username; ip = ip })

  unfoldable pub send_list_users : S → String → String → Bool × S
  unfolding send_message
  send_list_users s username ip =
      send_message k w.list_users s MsgType.list_users (record { username = username; ip = ip })

  unfoldable pub send_get_user_info : S → String → String → String → Bool × S
  unfolding send_message
  send_get_user_info s target_user username ip =
      send_message k w.get_user_info s MsgType.get_user_info
        (record { username_des = target_user; username = username; ip = ip })

  unfoldable pub send_quit : S → String → Bool × S
  unfolding send_message
  send_quit s ip = send_message k w.quit s MsgType.quit (record { quit = true; ip = ip })
