-- ===== src/Server/Handlers.antt =====
-- The message handlers of src/server/server.cpp. `now` is the reading of the clock of the one call
-- of `steady_clock::now()` that a handler makes.
use simple_chat_protocol.Prelude.{
  ℕ, String, true, false, not, ◌&&◌, Option, none, some, List, [], ◌∷◌, ◌==◌, ◌<>◌, is_empty, map,
  if◌then◌else◌, nat_equality, string_equality,
}
use simple_chat_protocol.Prelude.Map.{Map, find, count, insert}
use simple_chat_protocol.Protocol.Status.{
  StatusEnum, active, do_not_disturb, invisible, status_to_display,
}
use simple_chat_protocol.Protocol.MsgType
use simple_chat_protocol.Protocol.StatusCode
use simple_chat_protocol.Messages.{
  World, ServerMessage, all_users, for_dm, broadcast_delivery, get_user_info_response,
}
use simple_chat_protocol.Server.State.{SessionInfo, Server}
use simple_chat_protocol.Server.Sending.{
  send_locked, send_response_direct, send_response_bare, get_session,
}
use simple_chat_protocol.Server.Session.{
  get_peer_ip, new_session, update_session, set_status, touch_activity, maybe_restore_activity,
}
use simple_chat_protocol.Server.Sorting.{User, sort}

-- The guards of `handle_register`, under `sessions_mutex_`, and its three writes.
unfoldable pub register_user : ℕ → ℕ → String → String → Server → Server
unfolding send_response_bare send_response_direct new_session
register_user now fd username peer_ip s =
    if is_empty username
    then send_response_bare fd StatusCode.bad_request "Username cannot be empty" false s
    else elim (find fd s.sessions) [
      | some session ↦
          send_response_direct session StatusCode.bad_request "Already registered" false s
      | none ↦
          if count username s.username_to_fd
          then send_response_bare fd StatusCode.username_taken
              ("Username '" <> username <> "' is already taken") false s
          else if count peer_ip s.ip_to_fd
          then send_response_bare fd StatusCode.ip_taken
              ("IP " <> peer_ip <> " is already registered") false s
          else let session = new_session username peer_ip fd now in
            send_response_direct session StatusCode.ok_register
              ("Registration successful. Welcome, " <> username <> "!") true
              (record s {
                sessions = insert fd session s.sessions;
                username_to_fd = insert username fd s.username_to_fd;
                ip_to_fd = insert peer_ip fd s.ip_to_fd;
              })
    ]

-- The beginning that the other handlers share: the session of the connection, else 401; then
-- `ParseFromString`, whose result `request` is, else 400 with the given text.
unfoldable pub on_request :
    {A : Type 0} → ℕ → Option A → String → (SessionInfo → A → Server → Server) → Server → Server
unfolding get_session send_response_bare send_response_direct
on_request fd request text body s = elim (get_session fd s) [
  | none ↦ send_response_bare fd StatusCode.not_registered "Not registered" false s
  | some session ↦ elim request [
    | none ↦ send_response_direct session StatusCode.bad_request text false s
    | some msg ↦ body session msg s
  ]
]

-- The sessions whose entry is alive, in the order of the map.
unfoldable pub live_sessions : Map ℕ SessionInfo → List SessionInfo
live_sessions [] = []
live_sessions ((cfd, csession) ∷ m) =
    if csession.alive then csession ∷ live_sessions m else live_sessions m

unfoldable pub send_to_all : List SessionInfo → ℕ → ServerMessage → Server → Server
unfolding send_locked
send_to_all [] msg_type proto s = s
send_to_all (t ∷ targets) msg_type proto s =
    send_to_all targets msg_type proto (send_locked t msg_type proto s)

-- `handle_message_general` behind the parsing.
unfoldable pub broadcast : ℕ → ℕ → SessionInfo → String → Server → Server
unfolding maybe_restore_activity live_sessions send_to_all
broadcast now fd session text s =
    let s' = maybe_restore_activity fd session now s in
    send_to_all (live_sessions s'.sessions) MsgType.broadcast_delivery
      (broadcast_delivery (record { message = text; username_origin = session.username })) s'

-- The session of a user, by way of `username_to_fd`.
unfoldable pub find_user : String → Server → Option SessionInfo
find_user username s = elim (find username s.username_to_fd) [
  | none ↦ none
  | some fd ↦ find fd s.sessions
]

abbrev pub user_not_found : String → SessionInfo → Server → Server
user_not_found username session s =
    send_response_direct session StatusCode.user_not_found ("User '" <> username <> "' not found")
      false s

unfoldable pub deliver_dm : SessionInfo → SessionInfo → String → String → Server → Server
unfolding send_locked send_response_direct
deliver_dm session dest_session dest_user text s =
    let fordm = for_dm (record { username_des = session.username; message = text }) in
    send_response_direct session StatusCode.ok_dm_sent ("DM sent to " <> dest_user) true
      (if dest_session.alive then send_locked dest_session MsgType.for_dm fordm s else s)

-- `handle_message_dm` behind the parsing.
unfoldable pub direct_message : ℕ → ℕ → SessionInfo → String → String → Server → Server
unfolding maybe_restore_activity find_user send_response_direct deliver_dm
direct_message now fd session dest_user text s =
    let s' = maybe_restore_activity fd session now s in
    elim (find_user dest_user s') [
      | none ↦ user_not_found dest_user session s'
      | some dest_session ↦ deliver_dm session dest_session dest_user text s'
    ]

-- `handle_change_status` behind the parsing.
unfoldable pub set_user_status : ℕ → ℕ → SessionInfo → StatusEnum → Server → Server
unfolding send_response_direct update_session touch_activity status_to_display
set_user_status now fd session new_status s =
    if not (new_status == active)
      && not (new_status == do_not_disturb)
      && not (new_status == invisible)
    then send_response_direct session StatusCode.bad_request "Invalid status value" false s
    else send_response_direct session StatusCode.ok_status_changed
        ("Status changed to " <> status_to_display new_status) true
        (touch_activity fd now (update_session fd (set_status new_status new_status) s))

abbrev pub user_of : ℕ × SessionInfo → User
user_of e = (e.1.username, e.1.status)

-- `handle_list_users` behind the parsing.
unfoldable pub list_of_users : ℕ → ℕ → SessionInfo → Server → Server
unfolding touch_activity sort send_locked
list_of_users now fd session s =
    let s' = touch_activity fd now s in
    let users = sort (map user_of s'.sessions) in
    send_locked session MsgType.all_users
      (all_users (record { usernames = map (λ u. u.0) users; status = map (λ u. u.1) users })) s'

-- `handle_get_user_info` behind the parsing.
unfoldable pub user_info : ℕ → ℕ → SessionInfo → String → Server → Server
unfolding touch_activity find_user send_response_direct send_locked
user_info now fd session target_user s =
    let s' = touch_activity fd now s in
    elim (find_user target_user s') [
      | none ↦ user_not_found target_user session s'
      | some target ↦
          send_locked session MsgType.get_user_info_response
            (get_user_info_response (record {
              ip_address = target.ip;
              username = target.username;
              status = target.status;
            }))
            s'
    ]

abbrev pub goodbye : Option SessionInfo → Server → Server
goodbye none s = s
goodbye (some session) s = send_response_direct session StatusCode.ok_quit "Goodbye!" true s

module _ (w : World) (now fd : ℕ) (payload : List ℕ) where
  unfoldable pub handle_register : Server → Server
  unfolding register_user send_response_bare get_peer_ip
  handle_register s = elim (w.register.parse_from_string payload) [
    | none ↦ send_response_bare fd StatusCode.bad_request "Malformed Register message" false s
    | some reg ↦ register_user now fd reg.username (get_peer_ip w fd) s
  ]

  unfoldable pub handle_message_general : Server → Server
  unfolding on_request broadcast
  handle_message_general =
      on_request fd (w.message_general.parse_from_string payload) "Malformed MessageGeneral"
        λ session msg. broadcast now fd session msg.message

  unfoldable pub handle_message_dm : Server → Server
  unfolding on_request direct_message
  handle_message_dm =
      on_request fd (w.message_dm.parse_from_string payload) "Malformed MessageDM"
        λ session msg. direct_message now fd session msg.username_des msg.message

  unfoldable pub handle_change_status : Server → Server
  unfolding on_request set_user_status
  handle_change_status =
      on_request fd (w.change_status.parse_from_string payload) "Malformed ChangeStatus"
        λ session cs. set_user_status now fd session cs.status

  unfoldable pub handle_list_users : Server → Server
  unfolding on_request list_of_users
  handle_list_users =
      on_request fd (w.list_users.parse_from_string payload) "Malformed ListUsers"
        λ session lu. list_of_users now fd session

  unfoldable pub handle_get_user_info : Server → Server
  unfolding on_request user_info
  handle_get_user_info =
      on_request fd (w.get_user_info.parse_from_string payload) "Malformed GetUserInfo"
        λ session gui. user_info now fd session gui.username_des

  unfoldable pub handle_quit : Server → Server
  unfolding get_session send_response_direct
  handle_quit s = elim (w.quit.parse_from_string payload) [
    | none ↦ s
    | some q ↦ goodbye (get_session fd s) s
  ]
