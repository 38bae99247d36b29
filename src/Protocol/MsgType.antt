-- ===== src/Protocol/MsgType.antt =====
-- namespace MsgType of include/chat/protocol.h: the message types on the wire.
use simple_chat_protocol.Prelude.{ℕ}

abbrev pub register : ℕ
register = 1

abbrev pub message_general : ℕ
message_general = 2

abbrev pub message_dm : ℕ
message_dm = 3

abbrev pub change_status : ℕ
change_status = 4

abbrev pub list_users : ℕ
list_users = 5

abbrev pub get_user_info : ℕ
get_user_info = 6

abbrev pub quit : ℕ
quit = 7

abbrev pub server_response : ℕ
server_response = 10

abbrev pub all_users : ℕ
all_users = 11

abbrev pub for_dm : ℕ
for_dm = 12

abbrev pub broadcast_delivery : ℕ
broadcast_delivery = 13

abbrev pub get_user_info_response : ℕ
get_user_info_response = 14
