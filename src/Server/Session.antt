-- ===== src/Server/Session.antt =====
-- The sessions of src/server/server.cpp: their creation, removal and activity.
use simple_chat_protocol.Prelude.{
  ℕ, String, Bool, true, false, not, ◌&&◌, none, some, ◌==◌, if◌then◌else◌, nat_equality,
  string_equality,
}
use simple_chat_protocol.Prelude.Map.{find, erase, modify}
use simple_chat_protocol.Protocol.Status.{StatusEnum, active, invisible}
use simple_chat_protocol.Protocol.StatusCode
use simple_chat_protocol.Messages.{World}
use simple_chat_protocol.Server.State.{SessionInfo, Server}
use simple_chat_protocol.Server.Sending.{send_response_direct}

unfoldable pub get_peer_ip : World → ℕ → String
get_peer_ip w fd = elim (w.getpeername fd) [ some address ↦ address | none ↦ "unknown" ]

-- The constructor of `SessionInfo`; `now` is the reading of the clock.
unfoldable pub new_session : String → String → ℕ → ℕ → SessionInfo
new_session user addr fd now = record {
  username = user;
  ip = addr;
  socket_fd = fd;
  status = active;
  manual_status = active;
  last_activity = now;
  alive = true;
}

-- A write to the session of `fd` through its pointer.
unfoldable pub update_session : ℕ → (SessionInfo → SessionInfo) → Server → Server
update_session fd f s = record s { sessions = modify fd f s.sessions }

-- session->alive = false
abbrev pub set_dead : SessionInfo → SessionInfo
set_dead session = record session { alive = false }

unfoldable pub remove_session : ℕ → Server → Server
unfolding update_session
remove_session client_fd s = elim (find client_fd s.sessions) [
  | none ↦ s
  | some session ↦
      let s' = update_session client_fd set_dead s in
      record s' {
        username_to_fd = erase session.username s'.username_to_fd;
        ip_to_fd = erase session.ip s'.ip_to_fd;
        sessions = erase client_fd s'.sessions;
      }
]

abbrev pub set_status : StatusEnum → StatusEnum → SessionInfo → SessionInfo
set_status status manual_status session = record session {
  status = status;
  manual_status = manual_status;
}

abbrev pub set_last_activity : ℕ → SessionInfo → SessionInfo
set_last_activity now session = record session { last_activity = now }

unfoldable pub touch_activity : ℕ → ℕ → Server → Server
unfolding update_session
touch_activity fd now s = update_session fd (set_last_activity now) s

abbrev pub is_auto_inactive : SessionInfo → Bool
is_auto_inactive session = session.status == invisible && not (session.manual_status == invisible)

unfoldable pub maybe_restore_activity : ℕ → SessionInfo → ℕ → Server → Server
unfolding update_session touch_activity send_response_direct
maybe_restore_activity fd session now s =
    if is_auto_inactive session
    then touch_activity fd now (
        send_response_direct session StatusCode.status_restored
          "Status restored to ACTIVO after inactivity period" true
          (update_session fd (set_status active active) s))
    else touch_activity fd now s
