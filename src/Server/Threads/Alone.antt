-- ===== src/Server/Threads/Alone.antt =====
-- A thread of src/server/server.cpp that runs alone through its handler.
use simple_chat_protocol.Prelude.{
  ℕ, String, ==_iff, arith, option_cases, Option, not, ◌&&◌, ◌≡◌, refl, ap, ◌∙◌, none, some, List,
  [], ◌∷◌, if_both, Bool-cases, inl, inr, if◌then◌else◌, ◌==◌, nat_equality, string_equality,
}
use mathlib.Core.List.{append-nil}
use simple_chat_protocol.Prelude.Map.{find}
use simple_chat_protocol.Protocol.Status.{StatusEnum, active, do_not_disturb, invisible}
use simple_chat_protocol.Protocol.MsgType
use simple_chat_protocol.Messages.{broadcast_delivery, get_user_info_response}
use simple_chat_protocol.Server.State.{SessionInfo, Server}
use simple_chat_protocol.Server.Sending.{send_message, send_locked}
use simple_chat_protocol.Server.Session.{
  update_session, set_status, touch_activity, is_auto_inactive, maybe_restore_activity,
}
use simple_chat_protocol.Server.Handlers.{
  live_sessions, send_to_all, broadcast, find_user, user_not_found, deliver_dm, direct_message,
  set_user_status, list_of_users, user_info,
}
use simple_chat_protocol.Server.Threads.{
  Act, Reading, Pointer, times_closed, fd_or_zero, point_to, is_alive, transmit, restore, touch,
  collect, seek, gather, ask, plan_status,
}
use simple_chat_protocol.Server.Threads.Doing.{
  carry_out, announce, on_dest, on_target, status_restored,
}
use simple_chat_protocol.Server.Threads.Machine.{proceed}

-- For the parts that read no other session.
abbrev pub any : Reading
any = record { status = active }

module _ (now fd : ℕ) where
  -- The thread of `fd` does a part for each of the readings, and nobody else does anything.
  abbrev pub proceeds : List Reading → Option (List Act) × Server → Option (List Act) × Server
  proceeds [] x = x
  proceeds (reading ∷ readings) x = proceeds readings (proceed now reading fd x.0 x.1)

  abbrev pub Gets : Option (List Act) → Server → Option (List Act) → Server → Type 0
  Gets o s o' s' = (readings : List Reading) × (proceeds readings (o, s) ≡ (o', s'))

  -- One part, and what follows.
  front :
      (reading : Reading) (a : Act) (rest : List Act) (s : Server) (o' : Option (List Act))
      (s' : Server) (next : Option (List Act) × Server)
      → carry_out now reading fd a rest s ≡ next
      → Gets next.0 next.1 o' s'
      → Gets (some (a ∷ rest)) s o' s'
  unfolding proceed
  front reading a rest s o' s' next e (readings, e') =
      (reading ∷ readings, ap (proceeds readings) e ∙ e')

  Gets-restore :
      (session : SessionInfo) (rest : List Act) (s : Server) (o' : Option (List Act)) (s' : Server)
      → find fd s.sessions ≡ some session
      → Gets (some rest) (maybe_restore_activity fd session now s) o' s'
      → Gets (some (restore ∷ touch ∷ rest)) s o' s'
  unfolding carry_out proceed maybe_restore_activity send_message
  Gets-restore session rest s o' s' found gets =
      let noticed : Option (List Act) × Server = (
        some (transmit (status_restored session) ∷ touch ∷ rest),
        update_session fd (set_status active active) s,
      ) in
      front any restore (touch ∷ rest) s o' s'
        (if is_auto_inactive session then noticed else (some (touch ∷ rest), s))
        (rw (found, carry_out) refl)
        (if_both
          (λ (next : Option (List Act) × Server) (q : Server).
            Gets (some rest) q o' s' → Gets next.0 next.1 o' s')
          (is_auto_inactive session) noticed (some (touch ∷ rest), s) _ _
          (λ _ h. (any ∷ any ∷ h.0, h.1)) (λ _ h. (any ∷ h.0, h.1)) gets)

  Gets-announce :
      (sender text : String) (targets : List SessionInfo) (s : Server)
      → Gets (some (announce sender text targets)) s (some []) (
          send_to_all targets MsgType.broadcast_delivery
            (broadcast_delivery (record { message = text; username_origin = sender }))
            s)
  unfolding proceed carry_out send_to_all send_message
  Gets-announce sender text [] s = ([], refl)
  Gets-announce sender text (t ∷ targets) s =
      let (readings, e) = Gets-announce sender text targets _ in (any ∷ readings, e)

  is_alive-find :
      (p : Pointer) (dest : SessionInfo) (s : Server)
      → find p.fd s.sessions ≡ some dest
      → times_closed p.fd s.closed ≡ p.closings
      → is_alive p s ≡ dest.alive
  unfolding is_alive
  is_alive-find p dest s found same =
      rw (found, (==_iff (times_closed p.fd s.closed) p.closings).1 same, is_alive) (ground arith)

  -- The pointer of a user who is found leads to the session that is found.
  point_to-find :
      (u : String) (dest : SessionInfo) (s : Server)
      → find_user u s ≡ some dest
      → find (point_to u s).fd s.sessions ≡ some dest
  unfolding find_user
  point_to-find u dest s found =
      option_cases
        (λ (o : Option SessionInfo). o ≡ some dest → find (point_to u s).fd s.sessions ≡ some dest)
        (find u s.username_to_fd) none (λ fd. find fd s.sessions) (λ missing e. absurd (cc))
        (λ fd named e. ap (λ o. find (fd_or_zero o) s.sessions) named ∙ e) found

  -- The destination is alive as it was when it was found.
  Gets-deliver :
      (session dest : SessionInfo) (dest_user text : String) (p : Pointer) (s : Server)
      → is_alive p s ≡ dest.alive
      → Gets
          (some (on_dest session dest_user text p (some dest)))
          s
          (some [])
          (deliver_dm session dest dest_user text s)
  unfolding proceed carry_out deliver_dm send_message
  Gets-deliver session dest dest_user text p s same = elim (Bool-cases dest.alive) [
    | inl e ↦ (any ∷ any ∷ any ∷ [], rw (same, e, deliver_dm) refl)
    | inr e ↦ (any ∷ any ∷ [], rw (same, e, deliver_dm) refl)
  ]

  Gets-dest :
      (session : SessionInfo) (dest_user text : String) (o : Option SessionInfo) (s : Server)
      → find_user dest_user s ≡ o
      → Gets (some (on_dest session dest_user text (point_to dest_user s) o)) s (some []) (elim o [
        | none ↦ user_not_found dest_user session s
        | some dest_session ↦ deliver_dm session dest_session dest_user text s
      ])
  unfolding proceed carry_out send_message
  Gets-dest session dest_user text none s found = (any ∷ [], refl)
  Gets-dest session dest_user text (some dest) s found =
      Gets-deliver session dest dest_user text (point_to dest_user s) s
        (is_alive-find (point_to dest_user s) dest s (point_to-find dest_user dest s found) refl)

  pub Gets-status :
      (session : SessionInfo) (new_status : StatusEnum) (s : Server)
      → Gets
          (some (plan_status session new_status))
          s
          (some [])
          (set_user_status now fd session new_status s)
  unfolding proceed carry_out set_user_status send_message
  Gets-status session t s =
      if_both (λ acts q. Gets (some acts) s (some []) q)
        (not (t == active) && not (t == do_not_disturb) && not (t == invisible)) _ _ _ _
        (λ _. (any ∷ [], refl)) (λ _. (any ∷ any ∷ any ∷ [], refl))

  pub Gets-list :
      (session : SessionInfo) (s : Server)
      → Gets (some (touch ∷ gather session ∷ [])) s (some []) (list_of_users now fd session s)
  unfolding proceed carry_out list_of_users send_message
  Gets-list session s = (any ∷ any ∷ any ∷ [], refl)

  -- The target has the status that it had when it was found.
  Gets-target :
      (session : SessionInfo) (target_user : String) (o : Option SessionInfo) (s : Server)
      → Gets (some (on_target session target_user o)) s (some []) (elim o [
        | none ↦ user_not_found target_user session s
        | some target ↦
            send_locked session MsgType.get_user_info_response
              (get_user_info_response (record {
                ip_address = target.ip;
                username = target.username;
                status = target.status;
              }))
              s
      ])
  unfolding proceed carry_out send_message send_locked
  Gets-target session target_user none s = (any ∷ [], refl)
  Gets-target session target_user (some target) s =
      (record { status = target.status } ∷ any ∷ [], refl)

  pub Gets-info :
      (session : SessionInfo) (target_user : String) (s : Server)
      → Gets
          (some (touch ∷ ask session target_user ∷ []))
          s
          (some [])
          (user_info now fd session target_user s)
  unfolding proceed carry_out user_info send_message
  Gets-info session target_user s =
      let s' = touch_activity fd now s in
      front any touch (ask session target_user ∷ []) s _ _ (some (ask session target_user ∷ []), s')
        refl
        (front any (ask session target_user) [] s' _ _ _
          (ap (λ acts. (some acts, s'))
            (append-nil (on_target session target_user (find_user target_user s'))))
          (Gets-target session target_user (find_user target_user s') s'))

  pub Gets-dm :
      (session : SessionInfo) (dest_user text : String) (s : Server)
      → find fd s.sessions ≡ some session
      → Gets
          (some (restore ∷ touch ∷ seek session dest_user text ∷ []))
          s
          (some [])
          (direct_message now fd session dest_user text s)
  unfolding proceed carry_out direct_message send_message
  Gets-dm session dest_user text s found =
      let s' = maybe_restore_activity fd session now s in
      Gets-restore session _ s _ _ found (
        front any (seek session dest_user text) [] s' _ _ _
          (ap (λ acts. (some acts, s'))
            (append-nil
              (on_dest session dest_user text (point_to dest_user s') (find_user dest_user s'))))
          (Gets-dest session dest_user text (find_user dest_user s') s' refl))

  pub Gets-broadcast :
      (session : SessionInfo) (text : String) (s : Server)
      → find fd s.sessions ≡ some session
      → Gets
          (some (restore ∷ touch ∷ collect session.username text ∷ []))
          s
          (some [])
          (broadcast now fd session text s)
  unfolding broadcast carry_out
  Gets-broadcast session text s found =
      let s' = maybe_restore_activity fd session now s in
      Gets-restore session _ s _ _ found (
        front any (collect session.username text) [] s' _ _ _
          (ap (λ acts. (some acts, s'))
            (append-nil (announce session.username text (live_sessions s'.sessions))))
          (Gets-announce session.username text (live_sessions s'.sessions) s'))
