-- ===== src/Server/Invariant/Bodies.antt =====
-- The registry under the bodies of the handlers of src/server/server.cpp.
use simple_chat_protocol.Prelude.{
  ℕ, ◌≤◌, String, Bool, false, not, ◌&&◌, ◌≡◌, refl, inl, Option, none, some, List, [], ◌∷◌, arith,
  ◌==◌, is_empty, is_some, if_cases, option_cases, nat_equality, string_equality,
}
use simple_chat_protocol.Prelude.Map.{find, count}
use simple_chat_protocol.Protocol.Status.{StatusEnum, active, do_not_disturb, invisible}
use simple_chat_protocol.Messages.{ServerMessage}
use simple_chat_protocol.Server.State.{SessionInfo, Server}
use simple_chat_protocol.Server.Sending.{send_locked, send_response_bare, get_session}
use simple_chat_protocol.Server.Session.{
  new_session, set_status, set_last_activity, touch_activity, maybe_restore_activity,
  is_auto_inactive,
}
use simple_chat_protocol.Server.Handlers.{
  register_user, send_to_all, broadcast, direct_message, deliver_dm, set_user_status, list_of_users,
  user_info, live_sessions, find_user, on_request,
}
use simple_chat_protocol.Server.Registry.{IsConsistent, IsSettled, Keeps, Registry-modify}
use simple_chat_protocol.Server.Registry.Insertion.{Registry-insert}

none_of_not-count {ℓ} : {A : Type ℓ} (o : Option A) → is_some o ≡ false → o ≡ none
none_of_not-count none e = refl
none_of_not-count (some a) e = cc

new_session-IsSettled : (user addr : String) (fd now : ℕ) → IsSettled (new_session user addr fd now)
unfolding new_session
new_session-IsSettled user addr fd now = record { manual = omega arith; current = inl refl }

pub register_user-IsConsistent :
    (now fd : ℕ) (username peer_ip : String) (s : Server)
    → IsConsistent s
    → IsConsistent (register_user now fd username peer_ip s)
unfolding register_user
register_user-IsConsistent now fd username peer_ip s h =
    if_cases IsConsistent (is_empty username) _ _ (λ _. h)
      λ named.
        option_cases IsConsistent (find fd s.sessions) _ _
          (λ new_fd.
            if_cases IsConsistent (count username s.username_to_fd) _ _ (λ _. h)
              λ new_name.
                if_cases IsConsistent (count peer_ip s.ip_to_fd) _ _ (λ _. h)
                  λ new_ip.
                    Registry-insert s.running s.sessions s.username_to_fd s.ip_to_fd fd
                      (new_session username peer_ip fd now) h new_fd (none_of_not-count _ new_name)
                      (none_of_not-count _ new_ip) refl named (λ _. refl)
                      (new_session-IsSettled username peer_ip fd now))
          (λ i _. h)

-- A write of a valid status, and the two writes that handlers make besides it.
pub Keeps-set_status : (status : StatusEnum) → status ≤ invisible → Keeps (set_status status status)
Keeps-set_status status valid = record {
  username = λ i. refl;
  ip = λ i. refl;
  socket_fd = λ i. refl;
  alive = λ i. refl;
  settled = λ i h. record { manual = valid; current = inl refl };
}

pub Keeps-set_last_activity : (now : ℕ) → Keeps (set_last_activity now)
Keeps-set_last_activity now = record {
  username = λ i. refl;
  ip = λ i. refl;
  socket_fd = λ i. refl;
  alive = λ i. refl;
  settled = λ i h. record { manual = h.manual; current = h.current };
}

pub touch_activity-IsConsistent :
    (fd now : ℕ) (s : Server) → IsConsistent s → IsConsistent (touch_activity fd now s)
unfolding touch_activity
touch_activity-IsConsistent fd now s h =
    Registry-modify fd (set_last_activity now) s.sessions (Keeps-set_last_activity now) h

pub maybe_restore_activity-IsConsistent :
    (fd : ℕ) (session : SessionInfo) (now : ℕ) (s : Server)
    → IsConsistent s
    → IsConsistent (maybe_restore_activity fd session now s)
unfolding maybe_restore_activity
maybe_restore_activity-IsConsistent fd session now s h =
    if_cases IsConsistent (is_auto_inactive session) _ _
      (λ _. Registry-modify fd (set_last_activity now) _ (Keeps-set_last_activity now) (
        Registry-modify fd (set_status active active) s.sessions
          (Keeps-set_status active (omega arith)) h))
      (λ _. touch_activity-IsConsistent fd now s h)

-- Sending changes no map.
send_to_all-IsConsistent :
    (targets : List SessionInfo) (msg_type : ℕ) (proto : ServerMessage) (s : Server)
    → IsConsistent s
    → IsConsistent (send_to_all targets msg_type proto s)
unfolding send_to_all
send_to_all-IsConsistent [] msg_type proto s h = h
send_to_all-IsConsistent (t ∷ targets) msg_type proto s h =
    send_to_all-IsConsistent targets msg_type proto (send_locked t msg_type proto s) h

pub broadcast-IsConsistent :
    (now fd : ℕ) (session : SessionInfo) (text : String) (s : Server)
    → IsConsistent s
    → IsConsistent (broadcast now fd session text s)
unfolding broadcast
broadcast-IsConsistent now fd session text s h =
    send_to_all-IsConsistent (live_sessions (maybe_restore_activity fd session now s).sessions) _ _
      _ (maybe_restore_activity-IsConsistent fd session now s h)

deliver_dm-IsConsistent :
    (session dest : SessionInfo) (dest_user text : String) (s : Server)
    → IsConsistent s
    → IsConsistent (deliver_dm session dest dest_user text s)
unfolding deliver_dm
deliver_dm-IsConsistent session dest dest_user text s h =
    if_cases IsConsistent dest.alive _ s (λ _. h) (λ _. h)

pub direct_message-IsConsistent :
    (now fd : ℕ) (session : SessionInfo) (dest_user text : String) (s : Server)
    → IsConsistent s
    → IsConsistent (direct_message now fd session dest_user text s)
unfolding direct_message
direct_message-IsConsistent now fd session dest_user text s h =
    let s' = maybe_restore_activity fd session now s in
    let h' : IsConsistent s' = maybe_restore_activity-IsConsistent fd session now s h in
    option_cases IsConsistent (find_user dest_user s') _ _ (λ _. h')
      (λ dest _. deliver_dm-IsConsistent session dest dest_user text s' h')

pub valid_status :
    (t : StatusEnum)
    → (not (t == active) && not (t == do_not_disturb) && not (t == invisible)) ≡ false
    → t ≤ invisible
valid_status t e = ground arith

pub set_user_status-IsConsistent :
    (now fd : ℕ) (session : SessionInfo) (new_status : StatusEnum) (s : Server)
    → IsConsistent s
    → IsConsistent (set_user_status now fd session new_status s)
unfolding set_user_status
set_user_status-IsConsistent now fd session t s h =
    if_cases IsConsistent (not (t == active) && not (t == do_not_disturb) && not (t == invisible)) _
      _ (λ _. h)
      λ valid. Registry-modify fd (set_last_activity now) _ (Keeps-set_last_activity now) (
        Registry-modify fd (set_status t t) s.sessions (Keeps-set_status t (valid_status t valid))
          h)

pub list_of_users-IsConsistent :
    (now fd : ℕ) (session : SessionInfo) (s : Server)
    → IsConsistent s
    → IsConsistent (list_of_users now fd session s)
unfolding list_of_users
list_of_users-IsConsistent now fd session s h = touch_activity-IsConsistent fd now s h

pub user_info-IsConsistent :
    (now fd : ℕ) (session : SessionInfo) (target_user : String) (s : Server)
    → IsConsistent s
    → IsConsistent (user_info now fd session target_user s)
unfolding user_info
user_info-IsConsistent now fd session target_user s h =
    let h' : IsConsistent (touch_activity fd now s) = touch_activity-IsConsistent fd now s h in
    option_cases IsConsistent (find_user target_user (touch_activity fd now s)) _ _ (λ _. h')
      (λ target _. h')

-- The beginning of a handler refuses, or goes on from the state that it found.
pub on_request-IsConsistent :
    {A : Type 0} (fd : ℕ) (request : Option A) (text : String)
    (body : SessionInfo → A → Server → Server) (s : Server)
    → ((i : SessionInfo) (a : A) → IsConsistent (body i a s))
    → IsConsistent s
    → IsConsistent (on_request fd request text body s)
unfolding on_request
on_request-IsConsistent fd request text body s k h =
    option_cases IsConsistent (get_session fd s) _ _ (λ _. h)
      λ i _. option_cases IsConsistent request _ (λ a. body i a s) (λ _. h) (λ a _. k i a)

pub send_response_bare-IsConsistent :
    (fd code : ℕ) (text : String) (success : Bool) (s : Server)
    → IsConsistent s
    → IsConsistent (send_response_bare fd code text success s)
unfolding send_response_bare
send_response_bare-IsConsistent fd code text success s h = h
