-- ===== src/Client/Delivered.antt =====
-- A direct and a general message from `NetworkSender` (src/client/network.cpp) through the wire to
-- the handlers of src/server/server.cpp.
use simple_chat_protocol.Prelude.{
  ℕ, ◌≤◌, String, true, ◌≡◌, some, List, [], ◌∷◌, ◌++◌, length, map, ◌<>◌, nat_equality,
}
use simple_chat_protocol.Prelude.Map.{find, keys}
use simple_chat_protocol.Protocol.MsgType
use simple_chat_protocol.Protocol.Status.{StatusEnum}
use simple_chat_protocol.Protocol.StatusCode
use simple_chat_protocol.Wire.Socket.{Socket}
use simple_chat_protocol.Wire.Frame.{RoundTrips, max_payload, recv_message}
use simple_chat_protocol.Wire.Sending.{recv_message-send_message}
use simple_chat_protocol.Messages.{World, MessageDm, MessageGeneral}
use simple_chat_protocol.Server.State.{Server, SessionInfo}
use simple_chat_protocol.Server.Client.{dispatch}
use simple_chat_protocol.Server.Registry.{IsConsistent}
use simple_chat_protocol.Server.Registration.{answer}
use simple_chat_protocol.Server.Activity.{notice}
use simple_chat_protocol.Server.Delivery.{
  private_message, delivery, handle_message_dm-sent, handle_message_general-sent,
}
use simple_chat_protocol.Client.Sender.{send_message_dm, send_message_general}

module _ (k r : Socket) (w : World) where
  open k use {S, outgoing}
  open r use {S as R, incoming}

  dispatch-dm :
      (now fd j : ℕ) (payload : List ℕ) (msg : MessageDm) (i d : SessionInfo) (s : Server)
      → IsConsistent s
      → s.running ≡ true
      → find fd s.sessions ≡ some i
      → w.message_dm.parse_from_string payload ≡ some msg
      → find j s.sessions ≡ some d
      → d.username ≡ msg.username_des
      → (dispatch w now fd MsgType.message_dm payload s).0.sent
        ≡ ((s.sent ++ notice fd i) ++ private_message i.username msg.message j ∷ [])
          ++ answer fd StatusCode.ok_dm_sent ("DM sent to " <> msg.username_des) true ∷ []
  unfolding dispatch
  dispatch-dm = handle_message_dm-sent w

  -- Suppose that parsing undoes serializing, that the client's `sendMessageDM` returns true for a
  -- message of at most 16 MB, that the bytes it put out reach the server, which runs with a
  -- consistent registry, and that the addressee has a session. Then the server receives the message
  -- whatever chunks the network makes, and handling it sends the client's text to the addressee's
  -- connection under the name that the sender registered, whatever name the client has, and then
  -- tells the sender so.
  pub send_message_dm-delivered :
      (c : S) (t : R) (text dest ip : String) (status : StatusEnum) (payload bytes rest : List ℕ)
      (now fd j : ℕ) (i d : SessionInfo) (s : Server)
      → RoundTrips w.message_dm
      → w.message_dm.serialize_to_string
          (record { message = text; status = status; username_des = dest; ip = ip })
        ≡ some payload
      → length payload ≤ max_payload
      → (send_message_dm k w c text status dest ip).0 ≡ true
      → outgoing (send_message_dm k w c text status dest ip).1 ≡ outgoing c ++ bytes
      → incoming t ≡ bytes ++ rest
      → IsConsistent s
      → s.running ≡ true
      → find fd s.sessions ≡ some i
      → find j s.sessions ≡ some d
      → d.username ≡ dest
      → (got : List ℕ) × (t' : R) × (recv_message r t ≡ some ((MsgType.message_dm, got), t'))
        × ((dispatch w now fd MsgType.message_dm got s).0.sent
            ≡ ((s.sent ++ notice fd i) ++ private_message i.username text j ∷ [])
              ++ answer fd StatusCode.ok_dm_sent ("DM sent to " <> dest) true ∷ [])
  unfolding send_message_dm
  send_message_dm-delivered c t text dest ip status payload bytes rest now fd j i d s law ser fits
        ok out inc h run found there name =
      let msg : MessageDm = record {
        message = text;
        status = status;
        username_des = dest;
        ip = ip;
      } in
      let (got, t', received, parsed, left) =
        recv_message-send_message k r w.message_dm c t MsgType.message_dm msg payload bytes rest law
          ser fits ok out inc in
      (got, t', received, dispatch-dm now fd j got msg i d s h run found parsed there name)

  -- Of a general message: the same, and handling it sends the text to every registered connection.
  pub send_message_general-delivered :
      (c : S) (t : R) (text username ip : String) (status : StatusEnum)
      (payload bytes rest : List ℕ) (now fd : ℕ) (i : SessionInfo) (s : Server)
      → RoundTrips w.message_general
      → w.message_general.serialize_to_string
          (record { message = text; status = status; username_origin = username; ip = ip })
        ≡ some payload
      → length payload ≤ max_payload
      → (send_message_general k w c text status username ip).0 ≡ true
      → outgoing (send_message_general k w c text status username ip).1 ≡ outgoing c ++ bytes
      → incoming t ≡ bytes ++ rest
      → IsConsistent s
      → s.running ≡ true
      → find fd s.sessions ≡ some i
      → (got : List ℕ) × (t' : R) × (recv_message r t ≡ some ((MsgType.message_general, got), t'))
        × ((dispatch w now fd MsgType.message_general got s).0.sent
            ≡ (s.sent ++ notice fd i) ++ map (delivery i.username text) (keys s.sessions))
  unfolding send_message_general dispatch
  send_message_general-delivered c t text username ip status payload bytes rest now fd i s law ser
        fits ok out inc h run found =
      let msg : MessageGeneral = record {
        message = text;
        status = status;
        username_origin = username;
        ip = ip;
      } in
      let (got, t', received, parsed, left) =
        recv_message-send_message k r w.message_general c t MsgType.message_general msg payload
          bytes rest law ser fits ok out inc in
      (got, t', received, handle_message_general-sent w now fd got msg i s h run found parsed)
