-- ===== src/Server/Profiles.antt =====
-- The status that a user sets, and what others are told of it: `handle_change_status` and
-- `handle_get_user_info` of src/server/server.cpp.
use simple_chat_protocol.Prelude.{
  ℕ, ◌≤◌, ◌<◌, String, true, ◌≡◌, refl, sym, ap, ◌∙◌, subst, some, List, [], ◌∷◌, ◌++◌, arith, ◌<>◌,
  ◌==◌, if◌then◌else◌, nat_equality, string_equality,
}
use simple_chat_protocol.Prelude.Map.{Map, find, modify, find-modify}
use simple_chat_protocol.Protocol.Status.{StatusEnum, invisible, status_to_display}
use simple_chat_protocol.Protocol.MsgType
use simple_chat_protocol.Protocol.StatusCode
use simple_chat_protocol.Messages.{World, ChangeStatus, GetUserInfo, get_user_info_response}
use simple_chat_protocol.Server.State.{SessionInfo, Sent, Server}
use simple_chat_protocol.Server.Session.{set_status, set_last_activity, touch_activity}
use simple_chat_protocol.Server.Handlers.{
  find_user, set_user_status, user_info, handle_change_status, handle_get_user_info,
}
use simple_chat_protocol.Server.Registry.{IsConsistent}
use simple_chat_protocol.Server.Invariant.Requests.{handle_change_status-IsConsistent}
use simple_chat_protocol.Server.Requests.{
  handle_change_status-registered, handle_get_user_info-registered,
}
use simple_chat_protocol.Server.Registration.{answer, Refuses}

-- Both fields of the status, and the time.
abbrev pub with_status : ℕ → StatusEnum → SessionInfo → SessionInfo
with_status now status i = record i { status = status; manual_status = status; last_activity = now }

set_user_status_lem :
    (now fd : ℕ) (i : SessionInfo) (status : StatusEnum) (s : Server)
    → i.socket_fd ≡ fd
    → status ≤ invisible
    → set_user_status now fd i status s ≡ record s {
      sessions =
          modify fd (set_last_activity now) (modify fd (set_status status status) s.sessions);
      sent =
          s.sent
          ++ answer fd StatusCode.ok_status_changed
              ("Status changed to " <> status_to_display status)
              true
            ∷ [];
    }
unfolding set_user_status
set_user_status_lem now fd i status s e h = ground (arith, e)

find-with_status :
    (now fd j : ℕ) (i : SessionInfo) (status : StatusEnum) (m : Map ℕ SessionInfo)
    → find fd m ≡ some i
    → find j (modify fd (set_last_activity now) (modify fd (set_status status status) m))
      ≡ (if fd == j then some (with_status now status i) else find j m)
find-with_status now fd j i status m e = ground (
  arith,
  e,
  find-modify fd j (set_last_activity now) (modify fd (set_status status status) m),
  find-modify fd j (set_status status status) m,
)

-- What a change of status does: the session has the new status, also as the manual one, the other
-- sessions stay as they are, and the user gets the answer 201.
abbrev pub ChangesStatus : ℕ → ℕ → SessionInfo → StatusEnum → Server → Server → Type 0
ChangesStatus now fd i status s s' =
    ((j : ℕ)
      → find j s'.sessions
        ≡ (if fd == j then some (with_status now status i) else find j s.sessions))
    × (s'.username_to_fd ≡ s.username_to_fd)
    × (s'.sent
        ≡ s.sent
          ++ answer fd StatusCode.ok_status_changed
              ("Status changed to " <> status_to_display status) true
            ∷ [])

-- In a consistent registry, a registered user whose message parses and asks for one of the three
-- statuses gets it: the session of the connection
-- has the new status, also as the manual one, no other session changes, and the answer is 201.
pub handle_change_status-ChangesStatus :
    (w : World) (now fd : ℕ) (payload : List ℕ) (cs : ChangeStatus) (i : SessionInfo) (s : Server)
    → IsConsistent s
    → find fd s.sessions ≡ some i
    → w.change_status.parse_from_string payload ≡ some cs
    → cs.status ≤ invisible
    → ChangesStatus now fd i cs.status s (handle_change_status w now fd payload s)
handle_change_status-ChangesStatus w now fd payload cs i s h found parse valid =
    subst (ChangesStatus now fd i cs.status s)
      (sym (
        handle_change_status-registered w now fd payload s i cs found parse
        ∙ set_user_status_lem now fd i cs.status s (h.indexed fd i found).socket valid))
      ((λ j. find-with_status now fd j i cs.status s.sessions found), refl, refl)

-- In a consistent registry, a registered user whose message parses and asks for any other status
-- is refused with code 400; nothing changes, not even the time of the last activity.
handle_change_status-Refuses :
    (w : World) (now fd : ℕ) (payload : List ℕ) (cs : ChangeStatus) (i : SessionInfo) (s : Server)
    → IsConsistent s
    → find fd s.sessions ≡ some i
    → w.change_status.parse_from_string payload ≡ some cs
    → invisible < cs.status
    → Refuses fd StatusCode.bad_request s (handle_change_status w now fd payload s)
unfolding set_user_status
handle_change_status-Refuses w now fd payload cs i s h found parse invalid = (
  "Invalid status value",
  handle_change_status-registered w now fd payload s i cs found parse
      ∙ ground (arith, (h.indexed fd i found).socket),
)

abbrev pub profile : ℕ → SessionInfo → Sent
profile fd d = record {
  fd = fd;
  msg_type = MsgType.get_user_info_response;
  proto =
      get_user_info_response
        (record { ip_address = d.ip; username = d.username; status = d.status });
}

-- The session of a name.
find_user_lem :
    (s : Server) (u : String) (j : ℕ) (d : SessionInfo)
    → find u s.username_to_fd ≡ some j
    → find j s.sessions ≡ some d
    → find_user u s ≡ some d
unfolding find_user
find_user_lem s u j d e f = rw (e, find_user) f

user_info-sent :
    (now fd : ℕ) (i d : SessionInfo) (u : String) (s : Server)
    → i.socket_fd ≡ fd
    → find_user u (touch_activity fd now s) ≡ some d
    → (user_info now fd i u s).sent ≡ s.sent ++ profile fd d ∷ []
unfolding user_info touch_activity
user_info-sent now fd i d u s e f = rw (f, user_info) (ground (arith, e))

abbrev touched : ℕ → ℕ → ℕ → SessionInfo → SessionInfo
touched now fd j d = if fd == j then set_last_activity now d else d

find-touch_activity :
    (now fd j : ℕ) (d : SessionInfo) (s : Server)
    → find j s.sessions ≡ some d
    → find j (touch_activity fd now s).sessions ≡ some (touched now fd j d)
unfolding touch_activity
find-touch_activity now fd j d s e =
    ground (arith, e, find-modify fd j (set_last_activity now) s.sessions)

profile-touched : (now fd j : ℕ) (d : SessionInfo) → profile fd (touched now fd j d) ≡ profile fd d
profile-touched now fd j d = ground arith

-- In a consistent registry, a registered user whose message parses and asks for a name that a
-- session has gets the address, the name and the status of that session,
-- and nothing else is sent; in particular the question does not end an inactivity.
pub handle_get_user_info-sent :
    (w : World) (now fd j : ℕ) (payload : List ℕ) (gui : GetUserInfo) (i d : SessionInfo)
    (s : Server)
    → IsConsistent s
    → find fd s.sessions ≡ some i
    → w.get_user_info.parse_from_string payload ≡ some gui
    → find j s.sessions ≡ some d
    → d.username ≡ gui.username_des
    → (handle_get_user_info w now fd payload s).sent ≡ s.sent ++ profile fd d ∷ []
unfolding touch_activity
handle_get_user_info-sent w now fd j payload gui i d s h found parse here name =
    ap (λ (q : Server). q.sent)
      (handle_get_user_info-registered w now fd payload s i gui found parse)
    ∙ user_info-sent now fd i (touched now fd j d) gui.username_des s (h.indexed fd i found).socket
        (find_user_lem (touch_activity fd now s) gui.username_des j (touched now fd j d)
          (subst (λ u. find u s.username_to_fd ≡ some j) name (h.indexed j d here).name)
          (find-touch_activity now fd j d s here))
    ∙ ap (λ (p : Sent). s.sent ++ p ∷ []) (profile-touched now fd j d)

-- In a consistent registry, when a registered user has changed to one of the three statuses, any
-- registered user who asks for that user next is told the new status, whatever it was before,
-- with the address and the name of the session.
pub handle_get_user_info-handle_change_status :
    (w : World) (now later fd j : ℕ) (payload question : List ℕ) (cs : ChangeStatus)
    (gui : GetUserInfo) (i d : SessionInfo) (s : Server)
    → IsConsistent s
    → find fd s.sessions ≡ some i
    → w.change_status.parse_from_string payload ≡ some cs
    → cs.status ≤ invisible
    → find j s.sessions ≡ some d
    → w.get_user_info.parse_from_string question ≡ some gui
    → i.username ≡ gui.username_des
    → (handle_get_user_info w later j question (handle_change_status w now fd payload s)).sent
      ≡ (handle_change_status w now fd payload s).sent
        ++ profile j (with_status now cs.status i) ∷ []
handle_get_user_info-handle_change_status w now later fd j payload question cs gui i d s h found
      parse valid asks parse' name =
    let s' = handle_change_status w now fd payload s in
    let (after, _, _) =
      handle_change_status-ChangesStatus w now fd payload cs i s h found parse valid in
    handle_get_user_info-sent w later j fd question gui
      (if fd == j then with_status now cs.status i else d) (with_status now cs.status i) s'
      (handle_change_status-IsConsistent w now fd payload s h) (ground (arith, after j, asks))
      parse' (ground (arith, after fd)) name
