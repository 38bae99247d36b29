-- ===== src/Client/Joining.antt =====
-- A user who joins: src/client/main.cpp with `handle_register` of src/server/server.cpp.
use simple_chat_protocol.Prelude.{
  ℕ, ◌≤◌, String, true, false, ◌≡◌, ◌≢◌, subst, inl, inr, some, none, List, ◌∷◌, ◌++◌, ◌<>◌, length,
  is_empty, nat_equality,
}
use simple_chat_protocol.Prelude.Map.{find}
use simple_chat_protocol.Prelude.Number.{atoi, to_uint16}
use simple_chat_protocol.Protocol.MsgType
use simple_chat_protocol.Protocol.StatusCode
use simple_chat_protocol.Wire.Socket.{Socket}
use simple_chat_protocol.Wire.Frame.{Format, RoundTrips, max_payload, frame}
use simple_chat_protocol.Messages.{World, ServerResponse}
use simple_chat_protocol.Server.State.{SessionInfo, Server}
use simple_chat_protocol.Server.Session.{get_peer_ip}
use simple_chat_protocol.Server.Handlers.{handle_register}
use simple_chat_protocol.Server.Registry.{IsConsistent}
use simple_chat_protocol.Server.Registration.{Welcomes, handle_register-Welcomes}
use simple_chat_protocol.Client.Qt.{Qt}
use simple_chat_protocol.Client.Window.State.{Window, new_window}
use simple_chat_protocol.Client.Main.{Os, Outcome, opened, get_local_ip, main}
use simple_chat_protocol.Client.Handshake.{Follows, sent_register, main-answer}

-- The answer of the server to a new user.
abbrev pub welcome : String → ServerResponse
welcome username = record {
  status_code = StatusCode.ok_register;
  message = "Registration successful. Welcome, " <> username <> "!";
  is_successful = true;
}

module _ (q : Qt) (k : Socket) (os : Os k) (w : World) (response : Format ServerResponse) where
  open k use {S, incoming}

  -- Suppose that the client's connection is made and its Register message, which serializes to some
  -- payload, is sent; that the server, with a consistent registry, handles this payload on
  -- a connection without a session, and that no session has the name, which is not empty, or the
  -- address that the server sees; that the stream of the client brings the server's welcome, of
  -- at most 16 MB; and that parsing undoes serializing. Then the server has a session of that
  -- name and has sent the welcome, and the window of the client opens with the same name.
  pub handle_register-opens :
      (program username server_ip port : String) (rest : List String) (sockfd now fd : ℕ) (s : S)
      (srv : Server) (payload reply later : List ℕ)
      → os.socket ≡ some (sockfd, s)
      → os.inet_pton server_ip ≡ true
      → let connected = os.connect server_ip (to_uint16 (atoi os.beyond port)) s in
        connected.0 ≡ true
        → (sent_register q k os w.register response username connected.1).0 ≡ true
        → RoundTrips w.register
        → RoundTrips response
        → w.register.serialize_to_string
            (record { username = username; ip = get_local_ip os connected.1 })
          ≡ some payload
        → IsConsistent srv
        → is_empty username ≡ false
        → find fd srv.sessions ≡ none
        → ((j : ℕ) (i : SessionInfo) → find j srv.sessions ≡ some i → i.username ≢ username)
        → ((j : ℕ) (i : SessionInfo) → find j srv.sessions ≡ some i → i.ip ≢ get_peer_ip w fd)
        → response.serialize_to_string (welcome username) ≡ some reply
        → length reply ≤ max_payload
        → incoming (sent_register q k os w.register response username connected.1).1
          ≡ frame MsgType.server_response reply ++ later
        → Welcomes now fd username (get_peer_ip w fd) srv (handle_register w now fd payload srv)
          × ((t : S) × (incoming t ≡ later)
              × (main q k os w.register response (program ∷ username ∷ server_ip ∷ port ∷ rest)
                  ≡ opened (new_window q username sockfd (get_local_ip os connected.1)) t))
  handle_register-opens program username server_ip port rest sockfd now fd s srv payload reply later
        made address on sent law law' ser h named new_fd names ips ser' fits inc =
      let (t, left, shown) =
        main-answer q k os w.register response program username server_ip port rest sockfd s reply
          later made address on sent inc fits in
      (
        handle_register-Welcomes w now fd payload _ srv h (law _ payload ser) named new_fd names
            ips,
        (
          t,
          left,
          welcomed _ (
              subst
                (λ o.
                  Follows sockfd
                    (new_window q username sockfd (
                      get_local_ip os (os.connect server_ip (to_uint16 (atoi os.beyond port)) s).1))
                    t o
                    (main q k os w.register response
                      (program ∷ username ∷ server_ip ∷ port ∷ rest)))
                (law' (welcome username) reply ser') shown),
        ),
      )
    where
      welcomed :
          {outcome : Outcome q k} {window : Window q} {t : S} (fd' : ℕ)
          → Follows fd' window t (some (welcome username)) outcome
          → outcome ≡ opened window t
      welcomed fd' (inl (_, shown)) = shown
      welcomed fd' (inr (refused, _)) = absurd (cc)
