-- ===== src/Server/Threads.antt =====
-- The threads of src/server/server.cpp in small steps. A handler gives up `sessions_mutex_` between
-- its parts, so the other threads and the watchdog may act there; `Server.Events` runs a handler at
-- once.
pub mod Doing
pub mod Machine
pub mod Orderly
pub mod Parts
pub mod Standing
pub mod Reachable
pub mod Ownership
pub mod Progress
pub mod Ending
pub mod Promises
pub mod Spreading
pub mod Broadcasting
pub mod Answering
pub mod Alone
pub mod Handling
pub mod Putting
pub mod Calm
pub mod Refinement
use simple_chat_protocol.Prelude.{
  ℕ, ◌+◌, String, Bool, false, true, not, ◌&&◌, Option, none, some, List, [], ◌∷◌, ◌++◌, ◌==◌, ◌<>◌,
  map, if◌then◌else◌, nat_equality, string_equality,
}
use simple_chat_protocol.Prelude.Map.{find}
use simple_chat_protocol.Protocol.Status.{
  StatusEnum, active, do_not_disturb, invisible, status_to_display,
}
use simple_chat_protocol.Protocol.MsgType
use simple_chat_protocol.Protocol.StatusCode
use simple_chat_protocol.Messages.{
  World, ServerMessage, all_users, for_dm, broadcast_delivery, get_user_info_response,
}
use simple_chat_protocol.Server.State.{SessionInfo, Sent, Server}
use simple_chat_protocol.Server.Sending.{send_message, response, get_session}
use simple_chat_protocol.Server.Session.{
  get_peer_ip, update_session, set_status, touch_activity, is_auto_inactive, remove_session,
}
use simple_chat_protocol.Server.Sorting.{sort}
use simple_chat_protocol.Server.Handlers.{register_user, live_sessions, find_user, user_of}
use simple_chat_protocol.Server.Client.{close}

-- A pointer to a session that was found in `sessions_` under `fd`, after `closings` calls of
-- `close` on this descriptor. A thread takes its session out of `sessions_` and then closes the
-- descriptor, which no other connection gets before; `stop` closes those of the sessions that it
-- leaves as dead. So an entry of `fd` is the same object if the descriptor was not closed again.
pub record Pointer : Type 0 where
  pub fd : ℕ
  pub closings : ℕ

abbrev pub times_closed : ℕ → List ℕ → ℕ
times_closed fd [] = 0
times_closed fd (c ∷ closed) =
    let rest = times_closed fd closed in if c == fd then rest + 1 else rest

abbrev pub fd_or_zero : Option ℕ → ℕ
fd_or_zero none = 0
fd_or_zero (some fd) = fd

-- The pointer to the session of a user, if there is one.
abbrev pub point_to : String → Server → Pointer
point_to username s =
    let fd = fd_or_zero (find username s.username_to_fd) in
    record { fd = fd; closings = times_closed fd s.closed }

-- `dest_session->alive`: `remove_session` clears it when it takes the session out of `sessions_`.
unfoldable pub is_alive : Pointer → Server → Bool
unfolding find
is_alive p s = elim (find p.fd s.sessions) [
  | none ↦ false
  | some session ↦ session.alive && times_closed p.fd s.closed == p.closings
]

-- What a thread of `handle_client` still has to do, in parts that no other thread can see half
-- done: a part is one critical section, one call of `send_message`, one `close`, or the accesses to
-- one session without a lock, up to the next of these. `enroll username peer_ip`: the critical
-- section of `handle_register`. `restore`: the test and the writes of `maybe_restore_activity`.
-- `collect sender text`: the targets of a broadcast. `gather session`: the users of a list. `seek
-- session dest_user text`, `ask session target_user`: the session of a user. `deliver p m`: the
-- test of `alive`. `report session target`: the reading of the status. `remove`: `remove_session`.
-- `leave`: `close`, and the thread ends.
pub data Act : Type 0 where
  transmit : Sent → Act
  enroll : String → String → Act
  restore : Act
  touch : Act
  write_status : StatusEnum → Act
  collect : String → String → Act
  seek : SessionInfo → String → String → Act
  deliver : Pointer → Sent → Act
  gather : SessionInfo → Act
  ask : SessionInfo → String → Act
  report : SessionInfo → SessionInfo → Act
  remove : Act
  leave : Act

-- The status that a thread reads without a lock from the session of another connection, which may
-- have been removed since it was found.
pub record Reading : Type 0 where
  pub status : StatusEnum

-- The calls of `send_locked`, `send_response_direct` and `send_response_bare`.
abbrev pub to_session : SessionInfo → ℕ → ServerMessage → Sent
to_session session msg_type proto = record {
  fd = session.socket_fd;
  msg_type = msg_type;
  proto = proto;
}

abbrev pub reply_direct : SessionInfo → ℕ → String → Bool → Sent
reply_direct session code msg success =
    to_session session MsgType.server_response (response code msg success)

abbrev pub reply_bare : ℕ → ℕ → String → Bool → Sent
reply_bare fd code msg success = record {
  fd = fd;
  msg_type = MsgType.server_response;
  proto = response code msg success;
}

-- The beginning that the handlers share, which reads the registry and changes nothing.
unfoldable pub plan_request :
    {A : Type 0} → ℕ → Option A → String → (SessionInfo → A → List Act) → Server → List Act
unfolding get_session
plan_request fd request text body s = elim (get_session fd s) [
  | none ↦ transmit (reply_bare fd StatusCode.not_registered "Not registered" false) ∷ []
  | some session ↦ elim request [
    | none ↦ transmit (reply_direct session StatusCode.bad_request text false) ∷ []
    | some msg ↦ body session msg
  ]
]

abbrev pub plan_status : SessionInfo → StatusEnum → List Act
plan_status session new_status =
    if not (new_status == active)
      && not (new_status == do_not_disturb)
      && not (new_status == invisible)
    then transmit (reply_direct session StatusCode.bad_request "Invalid status value" false) ∷ []
    else write_status new_status
      ∷ touch
      ∷ transmit (
          reply_direct session StatusCode.ok_status_changed
            ("Status changed to " <> status_to_display new_status) true)
      ∷ []

abbrev pub plan_goodbye : Option SessionInfo → List Act
plan_goodbye none = []
plan_goodbye (some session) =
    transmit (reply_direct session StatusCode.ok_quit "Goodbye!" true) ∷ []

abbrev pub ending : List Act
ending = remove ∷ leave ∷ []

module _ (w : World) (fd : ℕ) (payload : List ℕ) where
  abbrev pub plan_register : List Act
  plan_register = elim (w.register.parse_from_string payload) [
    | none ↦ transmit (reply_bare fd StatusCode.bad_request "Malformed Register message" false) ∷ []
    | some reg ↦ enroll reg.username (get_peer_ip w fd) ∷ []
  ]

  abbrev pub plan_quit : Server → List Act
  plan_quit s = elim (w.quit.parse_from_string payload) [
    | none ↦ []
    | some q ↦ plan_goodbye (get_session fd s)
  ]

  abbrev pub plan_message_general : Server → List Act
  plan_message_general =
      plan_request fd (w.message_general.parse_from_string payload) "Malformed MessageGeneral"
        λ session msg. restore ∷ touch ∷ collect session.username msg.message ∷ []

  abbrev pub plan_message_dm : Server → List Act
  plan_message_dm =
      plan_request fd (w.message_dm.parse_from_string payload) "Malformed MessageDM"
        λ session msg. restore ∷ touch ∷ seek session msg.username_des msg.message ∷ []

  abbrev pub plan_change_status : Server → List Act
  plan_change_status =
      plan_request fd (w.change_status.parse_from_string payload) "Malformed ChangeStatus"
        λ session cs. plan_status session cs.status

  abbrev pub plan_list_users : Server → List Act
  plan_list_users =
      plan_request fd (w.list_users.parse_from_string payload) "Malformed ListUsers"
        λ session lu. touch ∷ gather session ∷ []

  abbrev pub plan_get_user_info : Server → List Act
  plan_get_user_info =
      plan_request fd (w.get_user_info.parse_from_string payload) "Malformed GetUserInfo"
        λ session gui. touch ∷ ask session gui.username_des ∷ []

  -- The `switch` of `handle_client`, and its end after a Quit.
  unfoldable pub plan_message : ℕ → Server → List Act
  unfolding plan_request get_session get_peer_ip
  plan_message msg_type s =
      if msg_type == MsgType.register
      then plan_register
      else if msg_type == MsgType.message_general
      then plan_message_general s
      else if msg_type == MsgType.message_dm
      then plan_message_dm s
      else if msg_type == MsgType.change_status
      then plan_change_status s
      else if msg_type == MsgType.list_users
      then plan_list_users s
      else if msg_type == MsgType.get_user_info
      then plan_get_user_info s
      else if msg_type == MsgType.quit
      then plan_quit s ++ ending
      else transmit (reply_bare fd StatusCode.bad_request "Unknown message type" false) ∷ []
