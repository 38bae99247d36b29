-- ===== src/Protocol/StatusCode.antt =====
-- namespace StatusCode of include/chat/protocol.h: the codes of a ServerResponse.
use simple_chat_protocol.Prelude.{ℕ}

abbrev pub ok_register : ℕ
ok_register = 200

abbrev pub ok_status_changed : ℕ
ok_status_changed = 201

abbrev pub ok_dm_sent : ℕ
ok_dm_sent = 202

abbrev pub ok_quit : ℕ
ok_quit = 203

abbrev pub bad_request : ℕ
bad_request = 400

abbrev pub not_registered : ℕ
not_registered = 401

abbrev pub user_not_found : ℕ
user_not_found = 404

abbrev pub username_taken : ℕ
username_taken = 409

abbrev pub ip_taken : ℕ
ip_taken = 410

abbrev pub internal_error : ℕ
internal_error = 500

abbrev pub auto_inactive : ℕ
auto_inactive = 602

abbrev pub status_restored : ℕ
status_restored = 603
