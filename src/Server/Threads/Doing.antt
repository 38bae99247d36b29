-- ===== src/Server/Threads/Doing.antt =====
-- What the parts of a thread of src/server/server.cpp do.
use simple_chat_protocol.Prelude.{
  ℕ, String, false, true, Option, none, some, List, [], ◌∷◌, ◌++◌, ◌<>◌, map, if◌then◌else◌,
  nat_equality, string_equality,
}
use simple_chat_protocol.Prelude.Map.{find}
use simple_chat_protocol.Protocol.Status.{active}
use simple_chat_protocol.Protocol.MsgType
use simple_chat_protocol.Protocol.StatusCode
use simple_chat_protocol.Messages.{all_users, for_dm, broadcast_delivery, get_user_info_response}
use simple_chat_protocol.Server.State.{SessionInfo, Sent, Server}
use simple_chat_protocol.Server.Sending.{send_message}
use simple_chat_protocol.Server.Session.{
  update_session, set_status, touch_activity, is_auto_inactive, remove_session,
}
use simple_chat_protocol.Server.Sorting.{sort}
use simple_chat_protocol.Server.Handlers.{register_user, live_sessions, find_user, user_of}
use simple_chat_protocol.Server.Client.{close}
use simple_chat_protocol.Server.Threads.{
  Act, transmit, enroll, restore, touch, write_status, collect, seek, deliver, gather, ask, report,
  remove, leave, Reading, Pointer, point_to, is_alive, to_session, reply_direct,
}

-- What is found under the lock decides what the thread does next.
abbrev pub announce : String → String → List SessionInfo → List Act
announce sender text [] = []
announce sender text (t ∷ targets) =
    transmit (
      to_session t MsgType.broadcast_delivery
        (broadcast_delivery (record { message = text; username_origin = sender })))
    ∷ announce sender text targets

abbrev pub not_found : SessionInfo → String → Act
not_found session username =
    transmit
      (reply_direct session StatusCode.user_not_found ("User '" <> username <> "' not found") false)

abbrev pub on_dest : SessionInfo → String → String → Pointer → Option SessionInfo → List Act
on_dest session dest_user text p none = not_found session dest_user ∷ []
on_dest session dest_user text p (some dest_session) =
    deliver p (
      to_session dest_session MsgType.for_dm
        (for_dm (record { username_des = session.username; message = text })))
    ∷ transmit (reply_direct session StatusCode.ok_dm_sent ("DM sent to " <> dest_user) true)
    ∷ []

abbrev pub on_target : SessionInfo → String → Option SessionInfo → List Act
on_target session target_user none = not_found session target_user ∷ []
on_target session target_user (some target) = report session target ∷ []

abbrev pub listing_of : SessionInfo → Server → Sent
unfolding sort
listing_of session s =
    let users = sort (map user_of s.sessions) in
    to_session session MsgType.all_users
      (all_users (record { usernames = map (λ u. u.0) users; status = map (λ u. u.1) users }))

abbrev pub status_restored : SessionInfo → Sent
status_restored session =
    reply_direct session StatusCode.status_restored
      "Status restored to ACTIVO after inactivity period" true

-- The first part of a thread that has `rest` left behind it. The result is what the thread has left
-- then, `none` when it has ended. `now` is what a call of `steady_clock::now()` in this part gives.
unfoldable pub carry_out : ℕ → Reading → ℕ → Act → List Act → Server → Option (List Act) × Server
unfolding send_message register_user update_session touch_activity live_sessions find_user
    remove_session close sort is_alive
carry_out now reading fd (transmit m) rest s = (some rest, send_message m.fd m.msg_type m.proto s)
carry_out now reading fd (enroll username peer_ip) rest s =
    (some rest, register_user now fd username peer_ip s)
carry_out now reading fd restore rest s = elim (find fd s.sessions) [
  | none ↦ (some rest, s)
  | some session ↦
      if is_auto_inactive session
      then (
        some (transmit (status_restored session) ∷ rest),
        update_session fd (set_status active active) s,
      )
      else (some rest, s)
]
carry_out now reading fd touch rest s = (some rest, touch_activity fd now s)
carry_out now reading fd (write_status t) rest s = (some rest, update_session fd (set_status t t) s)
carry_out now reading fd (collect sender text) rest s =
    (some (announce sender text (live_sessions s.sessions) ++ rest), s)
carry_out now reading fd (seek session dest_user text) rest s = (
  some (on_dest session dest_user text (point_to dest_user s) (find_user dest_user s) ++ rest),
  s,
)
carry_out now reading fd (deliver p m) rest s =
    (some (if is_alive p s then transmit m ∷ rest else rest), s)
carry_out now reading fd (gather session) rest s =
    (some (transmit (listing_of session s) ∷ rest), s)
carry_out now reading fd (ask session target_user) rest s =
    (some (on_target session target_user (find_user target_user s) ++ rest), s)
carry_out now reading fd (report session target) rest s = (
  some (
      transmit (
        to_session session MsgType.get_user_info_response (
          get_user_info_response (record {
            ip_address = target.ip;
            username = target.username;
            status = reading.status;
          })))
      ∷ rest),
  s,
)
carry_out now reading fd remove rest s = (some rest, remove_session fd s)
carry_out now reading fd leave rest s = (none, close fd s)
