-- ===== src/Server/Absence.antt =====
-- Users that a handler of src/server/server.cpp does not find, and users who were idle.
use simple_chat_protocol.Prelude.{
  ℕ, String, false, ◌≡◌, ◌≢◌, refl, ap, ◌∙◌, none, some, List, [], ◌∷◌, ◌++◌, arith, ◌<>◌, ◌==◌,
  if◌then◌else◌, nat_equality, string_equality,
}
use simple_chat_protocol.Prelude.Map.{find}
use simple_chat_protocol.Protocol.MsgType
use simple_chat_protocol.Protocol.StatusCode
use simple_chat_protocol.Messages.{
  World, MessageGeneral, MessageDm, GetUserInfo, ServerMessage, broadcast_delivery,
}
use simple_chat_protocol.Server.State.{SessionInfo, Sent, Server}
use simple_chat_protocol.Server.Session.{touch_activity, maybe_restore_activity}
use simple_chat_protocol.Server.Handlers.{
  live_sessions, send_to_all, broadcast, find_user, user_info, direct_message,
  handle_message_general, handle_get_user_info, handle_message_dm,
}
use simple_chat_protocol.Server.Registry.{IsConsistent}
use simple_chat_protocol.Server.Requests.{
  handle_get_user_info-registered, handle_message_dm-registered, handle_message_general-registered,
}
use simple_chat_protocol.Server.Registration.{answer, free_name}
use simple_chat_protocol.Server.Activity.{
  notice, restored, sent-restore, names-restore, find-restore,
}

-- No session has the name.
abbrev pub IsAbsent : String → Server → Type 0
IsAbsent u s = (j : ℕ) (i : SessionInfo) → find j s.sessions ≡ some i → i.username ≢ u

find_user-none : (u : String) (s : Server) → find u s.username_to_fd ≡ none → find_user u s ≡ none
unfolding find_user
find_user-none u s e = rw (e, find_user)

direct_message-absent :
    (now fd : ℕ) (i : SessionInfo) (u text : String) (s : Server)
    → i.socket_fd ≡ fd
    → find_user u (maybe_restore_activity fd i now s) ≡ none
    → direct_message now fd i u text s ≡ record (maybe_restore_activity fd i now s) {
      sent =
          (maybe_restore_activity fd i now s).sent
          ++ answer fd StatusCode.user_not_found ("User '" <> u <> "' not found") false ∷ [];
    }
unfolding direct_message
direct_message-absent now fd i u text s e f = rw (f, direct_message) (ground (arith, e))

-- In a consistent registry, a direct message of a registered user that parses, to a name that no
-- session has, goes to nobody: its sender gets the answer 404,
-- after the notice if the message ends an inactivity.
pub handle_message_dm-absent :
    (w : World) (now fd : ℕ) (payload : List ℕ) (msg : MessageDm) (i : SessionInfo) (s : Server)
    → IsConsistent s
    → find fd s.sessions ≡ some i
    → w.message_dm.parse_from_string payload ≡ some msg
    → IsAbsent msg.username_des s
    → (handle_message_dm w now fd payload s).sent
      ≡ (s.sent ++ notice fd i)
        ++ answer fd StatusCode.user_not_found ("User '" <> msg.username_des <> "' not found") false
          ∷ []
handle_message_dm-absent w now fd payload msg i s h found parse absent =
    let s' = maybe_restore_activity fd i now s in
    let socket = (h.indexed fd i found).socket in
    let unlisted : find msg.username_des s'.username_to_fd ≡ none =
      ap (find msg.username_des) (names-restore fd now i s)
      ∙ free_name s h msg.username_des absent in
    ap (λ (q : Server). q.sent) (handle_message_dm-registered w now fd payload s i msg found parse)
    ∙ ap (λ (q : Server). q.sent)
        (direct_message-absent now fd i msg.username_des msg.message s socket
          (find_user-none msg.username_des s' unlisted))
    ∙ ap
        (λ (a : List Sent).
          a
          ++ answer fd StatusCode.user_not_found ("User '" <> msg.username_des <> "' not found")
              false
            ∷ [])
        (sent-restore fd now i s socket)

user_info-absent :
    (now fd : ℕ) (i : SessionInfo) (u : String) (s : Server)
    → i.socket_fd ≡ fd
    → find_user u (touch_activity fd now s) ≡ none
    → (user_info now fd i u s).sent
      ≡ s.sent ++ answer fd StatusCode.user_not_found ("User '" <> u <> "' not found") false ∷ []
unfolding user_info touch_activity
user_info-absent now fd i u s e f = rw (f, user_info) (ground (arith, e))

-- In a consistent registry, a question of a registered user that parses, about a name that no
-- session has, is answered with 404, and nothing else is sent.
handle_get_user_info-absent :
    (w : World) (now fd : ℕ) (payload : List ℕ) (gui : GetUserInfo) (i : SessionInfo) (s : Server)
    → IsConsistent s
    → find fd s.sessions ≡ some i
    → w.get_user_info.parse_from_string payload ≡ some gui
    → IsAbsent gui.username_des s
    → (handle_get_user_info w now fd payload s).sent
      ≡ s.sent
        ++ answer fd StatusCode.user_not_found ("User '" <> gui.username_des <> "' not found") false
          ∷ []
unfolding touch_activity
handle_get_user_info-absent w now fd payload gui i s h found parse absent =
    ap (λ (q : Server). q.sent)
      (handle_get_user_info-registered w now fd payload s i gui found parse)
    ∙ user_info-absent now fd i gui.username_des s (h.indexed fd i found).socket (
        find_user-none gui.username_des (touch_activity fd now s)
          (free_name s h gui.username_des absent))

sessions-send_to_all :
    (targets : List SessionInfo) (msg_type : ℕ) (proto : ServerMessage) (s : Server)
    → (send_to_all targets msg_type proto s).sessions ≡ s.sessions
unfolding send_to_all
sessions-send_to_all [] msg_type proto s = refl
sessions-send_to_all (t ∷ targets) msg_type proto s = sessions-send_to_all targets msg_type proto _

-- A general message of a registered user that parses ends the inactivity of its sender: a
-- session that the watchdog made INVISIBLE is
-- ACTIVE again, any other status stays, and the time is kept. No other session changes.
find-handle_message_general :
    (w : World) (now fd j : ℕ) (payload : List ℕ) (msg : MessageGeneral) (i : SessionInfo)
    (s : Server)
    → find fd s.sessions ≡ some i
    → w.message_general.parse_from_string payload ≡ some msg
    → find j (handle_message_general w now fd payload s).sessions
      ≡ (if fd == j then some (restored now i) else find j s.sessions)
unfolding broadcast
find-handle_message_general w now fd j payload msg i s found parse =
    ap (λ (q : Server). find j q.sessions)
      (handle_message_general-registered w now fd payload s i msg found parse)
    ∙ ap (find j) (
        sessions-send_to_all (live_sessions (maybe_restore_activity fd i now s).sessions)
          MsgType.broadcast_delivery
          (broadcast_delivery (record { message = msg.message; username_origin = i.username }))
          (maybe_restore_activity fd i now s))
    ∙ find-restore fd now i s j found
