-- ===== src/Server/Typing.antt =====
-- The types of the messages that src/server/server.cpp sends, in the handlers.
pub mod Steps
use simple_chat_protocol.Prelude.{
  ℕ, String, Bool, ◌≡◌, refl, Option, none, some, List, [], ◌∷◌, ◌++◌, map, All, All-append,
  if_cases, option_cases, not, ◌&&◌, ◌==◌, is_empty, is_some, if◌then◌else◌, nat_equality,
  string_equality,
}
use simple_chat_protocol.Prelude.Map.{find, count}
use simple_chat_protocol.Protocol.Status.{StatusEnum, active, do_not_disturb, invisible}
use simple_chat_protocol.Protocol.MsgType
use simple_chat_protocol.Messages.{World, ServerMessage, type_of, broadcast_delivery, for_dm}
use simple_chat_protocol.Server.State.{SessionInfo, Sent, Server}
use simple_chat_protocol.Server.Sending.{
  send_locked, send_response_direct, send_response_bare, get_session,
}
use simple_chat_protocol.Server.Session.{
  get_peer_ip, is_auto_inactive, maybe_restore_activity, touch_activity,
}
use simple_chat_protocol.Server.Handlers.{
  user_of, register_user, on_request, send_to_all, live_sessions, broadcast, find_user, deliver_dm,
  direct_message, set_user_status, list_of_users, user_info, goodbye, handle_register,
  handle_message_general, handle_message_dm, handle_change_status, handle_list_users,
  handle_get_user_info, handle_quit,
}
use simple_chat_protocol.Server.Client.{dispatch, close, cleanup}
use simple_chat_protocol.Server.Watchdog.{notify_all, to_notify, watchdog_round}
use simple_chat_protocol.Server.Registration.{answer}
use simple_chat_protocol.Server.Delivery.{private_message}
use simple_chat_protocol.Server.Profiles.{profile}
use simple_chat_protocol.Server.Listing.{listing}
use simple_chat_protocol.Server.Sorting.{sort}
use simple_chat_protocol.Server.Watching.{idle_notice}
use simple_chat_protocol.Server.Stopping.{stop_lem}
use simple_chat_protocol.Server.Lifecycle.{accept, stop}
use simple_chat_protocol.Server.Events.{
  Event, message, hangup, wake, connect, shut, start, step, run,
}

abbrev pub IsTyped : Sent → Type 0
IsTyped m = m.msg_type ≡ type_of m.proto

pub record Typed (sent : List Sent) : Type 0 where
  pub each : All IsTyped sent

abbrev pub AllTyped : Server → Type 0
AllTyped s = Typed s.sent

also : (sent : List Sent) (m : Sent) → Typed sent → IsTyped m → Typed (sent ++ m ∷ [])
also sent m h e = record { each = All-append IsTyped sent (m ∷ []) h.each (e, tt) }

pub also_answer :
    (sent : List Sent) (fd code : ℕ) (text : String) (success : Bool)
    → Typed sent
    → Typed (sent ++ answer fd code text success ∷ [])
also_answer sent fd code text success h = also sent (answer fd code text success) h refl

module _ (now fd : ℕ) (s : Server) (h : AllTyped s) where
  pub register_user-AllTyped : (u ip : String) → AllTyped (register_user now fd u ip s)
  unfolding register_user
  register_user-AllTyped u ip =
      if_cases AllTyped (is_empty u) _ _ (λ _. also_answer s.sent _ _ _ _ h)
        λ _.
          option_cases AllTyped (find fd s.sessions) _ _
            (λ _.
              if_cases AllTyped (count u s.username_to_fd) _ _ (λ _. also_answer s.sent _ _ _ _ h)
                λ _.
                  if_cases AllTyped (count ip s.ip_to_fd) _ _ (λ _. also_answer s.sent _ _ _ _ h)
                    (λ _. also_answer s.sent _ _ _ _ h))
            (λ session here. also_answer s.sent _ _ _ _ h)

module _ (now fd : ℕ) (i : SessionInfo) (s : Server) (h : AllTyped s) where
  maybe_restore_activity-AllTyped : AllTyped (maybe_restore_activity fd i now s)
  unfolding maybe_restore_activity
  maybe_restore_activity-AllTyped =
      if_cases AllTyped (is_auto_inactive i) _ _ (λ _. also_answer s.sent _ _ _ _ h) (λ _. h)

send_to_all-AllTyped :
    (targets : List SessionInfo) (m : ServerMessage) (s : Server)
    → AllTyped s
    → AllTyped (send_to_all targets (type_of m) m s)
unfolding send_to_all
send_to_all-AllTyped [] m s h = h
send_to_all-AllTyped (t ∷ targets) m s h =
    send_to_all-AllTyped targets m _
      (also s.sent (record { fd = t.socket_fd; msg_type = type_of m; proto = m }) h refl)

module _ (now fd : ℕ) (i : SessionInfo) (s : Server) (h : AllTyped s) where
  pub broadcast-AllTyped : (text : String) → AllTyped (broadcast now fd i text s)
  unfolding broadcast
  broadcast-AllTyped text =
      send_to_all-AllTyped (live_sessions (maybe_restore_activity fd i now s).sessions)
        (broadcast_delivery (record { message = text; username_origin = i.username }))
        (maybe_restore_activity fd i now s) (maybe_restore_activity-AllTyped now fd i s h)

  pub set_user_status-AllTyped : (t : StatusEnum) → AllTyped (set_user_status now fd i t s)
  unfolding set_user_status
  set_user_status-AllTyped t =
      if_cases AllTyped (not (t == active) && not (t == do_not_disturb) && not (t == invisible)) _ _
        (λ _. also_answer s.sent _ _ _ _ h) (λ _. also_answer s.sent _ _ _ _ h)

  pub list_of_users-AllTyped : AllTyped (list_of_users now fd i s)
  unfolding list_of_users
  list_of_users-AllTyped =
      also s.sent (listing i.socket_fd (sort (map user_of (touch_activity fd now s).sessions))) h
        refl

  pub user_info-AllTyped : (u : String) → AllTyped (user_info now fd i u s)
  unfolding user_info
  user_info-AllTyped u =
      option_cases AllTyped (find_user u (touch_activity fd now s)) _ _
        (λ _. also_answer s.sent _ _ _ _ h) (λ d _. also s.sent (profile i.socket_fd d) h refl)

deliver_dm-AllTyped :
    (i d : SessionInfo) (u text : String) (s : Server)
    → AllTyped s
    → AllTyped (deliver_dm i d u text s)
unfolding deliver_dm
deliver_dm-AllTyped i d u text s h =
    let fordm = for_dm (record { username_des = i.username; message = text }) in
    let q = if d.alive then send_locked d MsgType.for_dm fordm s else s in
    also_answer q.sent _ _ _ _ (
      if_cases AllTyped d.alive _ _
        (λ _. also s.sent (private_message i.username text d.socket_fd) h refl) (λ _. h))

pub direct_message-AllTyped :
    (now fd : ℕ) (i : SessionInfo) (u text : String) (s : Server)
    → AllTyped s
    → AllTyped (direct_message now fd i u text s)
unfolding direct_message
direct_message-AllTyped now fd i u text s h =
    let s' = maybe_restore_activity fd i now s in
    let h' = maybe_restore_activity-AllTyped now fd i s h in
    option_cases AllTyped (find_user u s') _ _ (λ _. also_answer s'.sent _ _ _ _ h')
      (λ d _. deliver_dm-AllTyped i d u text s' h')

pub on_request-AllTyped :
    {A : Type 0} (fd : ℕ) (request : Option A) (text : String)
    (body : SessionInfo → A → Server → Server) (s : Server)
    → AllTyped s
    → ((i : SessionInfo) (a : A) → AllTyped (body i a s))
    → AllTyped (on_request fd request text body s)
unfolding on_request
on_request-AllTyped fd request text body s h b =
    option_cases AllTyped (get_session fd s) _ _ (λ _. also_answer s.sent _ _ _ _ h)
      λ i _. option_cases AllTyped request _ _ (λ _. also_answer s.sent _ _ _ _ h) (λ a _. b i a)

pub Typed-notices :
    (timeout : ℕ) (sent : List Sent) (told : List SessionInfo)
    → Typed sent
    → Typed (sent ++ map (λ i. idle_notice timeout i.socket_fd) told)
Typed-notices timeout sent told h = record {
  each = All-append IsTyped sent _ h.each (notices told);
}
  where
    notices :
        (told : List SessionInfo) → All IsTyped (map (λ i. idle_notice timeout i.socket_fd) told)
    notices [] = tt
    notices (i ∷ rest) = (refl, notices rest)
