-- ===== src/Server/Delivery.antt =====
-- General and direct messages in src/server/server.cpp: who gets what.
use simple_chat_protocol.Prelude.{
  ℕ, String, true, ◌≡◌, sym, ap, ◌∙◌, subst, some, List, [], ◌∷◌, ◌++◌, arith, map, All, ◌<>◌,
  nat_equality, string_equality,
}
use mathlib.Core.Path.{ap₂}
use mathlib.Core.List.{append-nil, append_assoc}
use simple_chat_protocol.Prelude.Map.{Map, find, keys, All-entries}
use simple_chat_protocol.Protocol.MsgType
use simple_chat_protocol.Protocol.StatusCode
use simple_chat_protocol.Messages.{World, MessageGeneral, MessageDm, broadcast_delivery, for_dm}
use simple_chat_protocol.Server.State.{SessionInfo, Sent, Server}
use simple_chat_protocol.Server.Session.{maybe_restore_activity}
use simple_chat_protocol.Server.Handlers.{
  live_sessions, send_to_all, broadcast, find_user, deliver_dm, direct_message,
  handle_message_general, handle_message_dm,
}
use simple_chat_protocol.Server.Registry.{IsConsistent}
use simple_chat_protocol.Server.Invariant.Bodies.{maybe_restore_activity-IsConsistent}
use simple_chat_protocol.Server.Requests.{
  handle_message_general-registered, handle_message_dm-registered,
}
use simple_chat_protocol.Server.Registration.{answer}
use simple_chat_protocol.Server.Activity.{
  notice, sent-restore, names-restore, running-restore, keys-restore,
}

abbrev pub delivery : String → String → ℕ → Sent
delivery origin text fd = record {
  fd = fd;
  msg_type = MsgType.broadcast_delivery;
  proto = broadcast_delivery (record { message = text; username_origin = origin });
}

-- A session that is alive and stands under its own socket.
abbrev IsReachable : ℕ → SessionInfo → Type 0
IsReachable fd i = (i.socket_fd ≡ fd) × (i.alive ≡ true)

abbrev broadcast_to : Map ℕ SessionInfo → String → String → Server → Server
broadcast_to m origin text =
    send_to_all (live_sessions m) MsgType.broadcast_delivery
      (broadcast_delivery (record { message = text; username_origin = origin }))

-- Reachable sessions get one message each, in the order of the map.
sent-broadcast_to :
    (origin text : String) (m : Map ℕ SessionInfo) (s : Server)
    → All (λ (e : ℕ × SessionInfo). IsReachable e.0 e.1) m
    → (broadcast_to m origin text s).sent ≡ s.sent ++ map (delivery origin text) (keys m)
unfolding send_to_all live_sessions
sent-broadcast_to origin text [] s h = sym (append-nil s.sent)
sent-broadcast_to origin text ((fd, i) ∷ m) s h =
    let head : send_to_all (live_sessions ((fd, i) ∷ m)) MsgType.broadcast_delivery
          (broadcast_delivery (record { message = text; username_origin = origin })) s
        ≡ broadcast_to m origin text
            (record s { sent = s.sent ++ delivery origin text i.socket_fd ∷ [] }) =
      ground (arith, h.0.1) in
    ap (λ (q : Server). q.sent) head
    ∙ sent-broadcast_to origin text m _ h.1
    ∙ append_assoc s.sent (delivery origin text i.socket_fd ∷ []) _
    ∙ ap (λ (j : ℕ). s.sent ++ delivery origin text j ∷ map (delivery origin text) (keys m)) h.0.0

reachable :
    (s : Server)
    → IsConsistent s
    → s.running ≡ true
    → All (λ (e : ℕ × SessionInfo). IsReachable e.0 e.1) s.sessions
reachable s h e =
    All-entries IsReachable s.sessions h.distinct_sessions
      (λ fd i found. ((h.indexed fd i found).socket, (h.indexed fd i found).alive e))

-- While the server runs and its registry is consistent, a general message of a registered user
-- that parses goes to every registered
-- connection, the sender's own included, once to each, under the name that the sender registered;
-- before it the sender is told if the activity ends its inactivity. Nothing else is sent.
pub handle_message_general-sent :
    (w : World) (now fd : ℕ) (payload : List ℕ) (msg : MessageGeneral) (i : SessionInfo)
    (s : Server)
    → IsConsistent s
    → s.running ≡ true
    → find fd s.sessions ≡ some i
    → w.message_general.parse_from_string payload ≡ some msg
    → (handle_message_general w now fd payload s).sent
      ≡ (s.sent ++ notice fd i) ++ map (delivery i.username msg.message) (keys s.sessions)
unfolding broadcast
handle_message_general-sent w now fd payload msg i s h run found parse =
    let s' = maybe_restore_activity fd i now s in
    ap (λ (q : Server). q.sent)
      (handle_message_general-registered w now fd payload s i msg found parse)
    ∙ sent-broadcast_to i.username msg.message s'.sessions s' (
        reachable s' (maybe_restore_activity-IsConsistent fd i now s h)
          (running-restore fd now i s ∙ run))
    ∙ ap₂ (λ (a : List Sent) (b : List ℕ). a ++ map (delivery i.username msg.message) b)
        (sent-restore fd now i s (h.indexed fd i found).socket) (keys-restore fd now i s)

abbrev pub private_message : String → String → ℕ → Sent
private_message origin text fd = record {
  fd = fd;
  msg_type = MsgType.for_dm;
  proto = for_dm (record { username_des = origin; message = text });
}

find_user-found :
    (u : String) (j : ℕ) (d : SessionInfo) (s : Server)
    → find u s.username_to_fd ≡ some j
    → find j s.sessions ≡ some d
    → find_user u s ≡ some d
unfolding find_user
find_user-found u j d s e f = rw (e, find_user) f

direct_message-found :
    (now fd : ℕ) (i d : SessionInfo) (u text : String) (s : Server)
    → find_user u (maybe_restore_activity fd i now s) ≡ some d
    → direct_message now fd i u text s ≡ deliver_dm i d u text (maybe_restore_activity fd i now s)
unfolding direct_message
direct_message-found now fd i d u text s e = rw (e, direct_message)

sent-deliver_dm :
    (i d : SessionInfo) (fd j : ℕ) (u text : String) (s : Server)
    → i.socket_fd ≡ fd
    → d.socket_fd ≡ j
    → d.alive ≡ true
    → (deliver_dm i d u text s).sent
      ≡ (s.sent ++ private_message i.username text j ∷ [])
        ++ answer fd StatusCode.ok_dm_sent ("DM sent to " <> u) true ∷ []
unfolding deliver_dm
sent-deliver_dm i d fd j u text s e f a = ground (arith, e, f, a)

-- While the server runs and its registry is consistent, a direct message that parses, of a
-- registered user to the name of a session goes to
-- the connection of that session and to no other, under the name that the sender registered; then
-- the sender is told so, with code 202.
pub handle_message_dm-sent :
    (w : World) (now fd j : ℕ) (payload : List ℕ) (msg : MessageDm) (i d : SessionInfo) (s : Server)
    → IsConsistent s
    → s.running ≡ true
    → find fd s.sessions ≡ some i
    → w.message_dm.parse_from_string payload ≡ some msg
    → find j s.sessions ≡ some d
    → d.username ≡ msg.username_des
    → (handle_message_dm w now fd payload s).sent
      ≡ ((s.sent ++ notice fd i) ++ private_message i.username msg.message j ∷ [])
        ++ answer fd StatusCode.ok_dm_sent ("DM sent to " <> msg.username_des) true ∷ []
handle_message_dm-sent w now fd j payload msg i d s h run found parse dest name =
    let s' = maybe_restore_activity fd i now s in
    let h' = maybe_restore_activity-IsConsistent fd i now s h in
    let listed : find msg.username_des s'.username_to_fd ≡ some j =
      rw (names-restore fd now i s)
        (subst (λ u. find u s.username_to_fd ≡ some j) name (h.indexed j d dest).name) in
    let (d', here, _) = h'.name_owner msg.username_des j listed in
    ap (λ (q : Server). q.sent) (handle_message_dm-registered w now fd payload s i msg found parse)
    ∙ ap (λ (q : Server). q.sent)
        (direct_message-found now fd i d' msg.username_des msg.message s
          (find_user-found msg.username_des j d' s' listed here))
    ∙ sent-deliver_dm i d' fd j msg.username_des msg.message s' (h.indexed fd i found).socket
        (h'.indexed j d' here).socket
        ((h'.indexed j d' here).alive (running-restore fd now i s ∙ run))
    ∙ ap
        (λ (a : List Sent).
          (a ++ private_message i.username msg.message j ∷ [])
          ++ answer fd StatusCode.ok_dm_sent ("DM sent to " <> msg.username_des) true ∷ [])
        (sent-restore fd now i s (h.indexed fd i found).socket)
