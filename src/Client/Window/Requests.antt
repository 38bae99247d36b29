-- ===== src/Client/Window/Requests.antt =====
-- How src/client/network.cpp makes what src/client/mainwindow.cpp asks for.
use simple_chat_protocol.Prelude.{Bool}
use simple_chat_protocol.Wire.Socket.{Socket}
use simple_chat_protocol.Messages.{World}
use simple_chat_protocol.Client.Sender.{
  send_message_general, send_message_dm, send_change_status, send_list_users, send_get_user_info,
  send_quit,
}
use simple_chat_protocol.Client.Window.State.{
  Request, message_general, message_dm, change_status, list_users, get_user_info, quit,
}

-- A request of the window, made by its `NetworkSender`.
module _ (k : Socket) (w : World) where
  open k use {S}

  unfoldable pub perform : Request → S → Bool × S
  unfolding send_message_general send_message_dm send_change_status send_list_users
      send_get_user_info send_quit
  perform (message_general text status username ip) s =
      send_message_general k w s text status username ip
  perform (message_dm text status target ip) s = send_message_dm k w s text status target ip
  perform (change_status status username ip) s = send_change_status k w s status username ip
  perform (list_users username ip) s = send_list_users k w s username ip
  perform (get_user_info target username ip) s = send_get_user_info k w s target username ip
  perform (quit ip) s = send_quit k w s ip
