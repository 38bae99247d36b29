-- ===== src/Client/Handshake.antt =====
-- The connection of src/client/main.cpp to the server, until the window opens or the program ends.
use simple_chat_protocol.Prelude.{
  ℕ, ◌≤◌, String, Bool, true, false, ◌≡◌, ◌≢◌, ◌⊎◌, inl, inr, Bool-cases, refl, sym, ap, subst, ◌∙◌,
  ◌<>◌, All, Option, none, some, List, [], ◌∷◌, ◌++◌, ◌==◌, length, if_cases, option_cases,
  nat_equality,
}
use simple_chat_protocol.Prelude.Number.{atoi, to_uint16}
use simple_chat_protocol.Protocol.MsgType
use simple_chat_protocol.Wire.Socket.{Socket}
use simple_chat_protocol.Wire.Frame.{Format, max_payload, frame, send_message, recv_message}
use simple_chat_protocol.Wire.Receiving.{recv_message-frame}
use simple_chat_protocol.Messages.{Register, ServerResponse}
use simple_chat_protocol.Client.Qt.{Qt}
use simple_chat_protocol.Client.Window.State.{Window, new_window}
use simple_chat_protocol.Client.Window.Actions.{close_event}
use simple_chat_protocol.Client.Window.Events.{Action, close_window, act, session}
use simple_chat_protocol.Client.Window.Sockets.{session-HasSocket, session-append}
use simple_chat_protocol.Client.Main.{
  Os, Outcome, usage, failed, opened, get_local_ip, check_response, await_response, register_user,
  connect_user, main,
}

module _ {q : Qt} {k : Socket} (actions : List Action) where
  -- The socket is closed once: after the dialog, or when the window is closed behind these actions.
  abbrev pub Closes : ℕ → Outcome q k → Type 0
  Closes sockfd usage = ⊥
  Closes sockfd (failed text closed) = closed ≡ sockfd ∷ []
  Closes sockfd (opened w s) =
      ((session actions w).closed ≡ [])
      × ((session (actions ++ close_window ∷ []) w).closed ≡ sockfd ∷ [])

-- What follows the answer of the server, if it can be parsed.
module _ {q : Qt} {k : Socket} (sockfd : ℕ) (w : Window q) (s : k.S) where
  abbrev pub Follows : Option ServerResponse → Outcome q k → Type 0
  Follows none outcome = outcome ≡ opened w s
  Follows (some r) outcome =
      ((r.is_successful ≡ true) × (outcome ≡ opened w s))
      ⊎ ((r.is_successful ≡ false)
          × (outcome
              ≡ failed ("[Código " <> q.number r.status_code <> "] " <> r.message) (sockfd ∷ [])))

module _ (q : Qt) (k : Socket) (os : Os k) (register : Format Register)
    (response : Format ServerResponse) where
  open k use {S, incoming}

  check_response-Follows :
      (sockfd : ℕ) (w : Window q) (s : S) (o : Option ServerResponse)
      → Follows {k = k} sockfd w s o (check_response q k os register response sockfd o (opened w s))
  check_response-Follows sockfd w s none = refl
  check_response-Follows sockfd w s (some r) = elim (Bool-cases r.is_successful) [
    | inl ok ↦ inl (ok, rw ok refl)
    | inr bad ↦ inr (bad, rw bad refl)
  ]

  module _ (actions : List Action) (kept : All (λ a. a ≢ close_window) actions) where
    opened-Closes :
        (sockfd : ℕ) (username ip : String) (s : S)
        → Closes {q = q} {k = k} actions sockfd (opened (new_window q username sockfd ip) s)
    unfolding new_window session act close_event
    opened-Closes sockfd username ip s =
        let w = new_window q username sockfd ip in
        let h = session-HasSocket [] sockfd actions w kept (refl, refl) in
        (
          h.0,
          ap (λ (v : Window q). v.closed) (session-append actions (close_window ∷ []) w)
              ∙ ap (λ l. l ++ (session actions w).socket_fd ∷ []) h.0
              ∙ ap (λ fd. fd ∷ []) h.1,
        )

    await_response-Closes :
        (sockfd : ℕ) (username ip : String) (s : S)
        → Closes actions sockfd (await_response q k os register response sockfd username ip s)
    unfolding await_response
    await_response-Closes sockfd username ip s =
        option_cases (Closes actions sockfd) (recv_message k s) _ _ (λ _. refl)
          λ got _.
            if_cases (Closes actions sockfd) (got.0.0 == MsgType.server_response) _ _
              (λ _. checked (response.parse_from_string got.0.1) got.1) (λ _. refl)
      where
        checked :
            (o : Option ServerResponse) (t : S)
            → Closes actions sockfd (
                check_response q k os register response sockfd o
                  (opened (new_window q username sockfd ip) t))
        checked none t = opened-Closes sockfd username ip t
        checked (some r) t =
            if_cases (Closes actions sockfd) r.is_successful _ _
              (λ _. opened-Closes sockfd username ip t) (λ _. refl)

    register_user-Closes :
        (sockfd : ℕ) (username ip : String) (s : S)
        → Closes actions sockfd (register_user q k os register response sockfd username ip s)
    unfolding register_user
    register_user-Closes sockfd username ip s =
        let sent =
          send_message k register s MsgType.register (record { username = username; ip = ip }) in
        if_cases (Closes actions sockfd) sent.0 _ _
          (λ _. await_response-Closes sockfd username ip sent.1) (λ _. refl)

    connect_user-Closes :
        (sockfd : ℕ) (username server_ip : String) (server_port : ℕ) (s : S)
        → Closes actions sockfd
            (connect_user q k os register response sockfd username server_ip server_port s)
    unfolding connect_user
    connect_user-Closes sockfd username server_ip server_port s =
        let connected = os.connect server_ip server_port s in
        if_cases (Closes actions sockfd) (os.inet_pton server_ip) _ _
          (λ _.
            if_cases (Closes actions sockfd) connected.0 _ _
              (λ _. register_user-Closes sockfd username (get_local_ip os connected.1) connected.1)
              (λ _. refl))
          (λ _. refl)

    -- If `socket` succeeds and there are three arguments at least, then whatever the arguments, the
    -- network and the server do, the program does not end with the usage. If it fails, the socket
    -- is closed once, after the dialog. If the window opens, then whatever the user does but
    -- closing the window, and whatever signals arrive, no socket is closed; and when the window is
    -- closed then, this socket is closed once, and no other.
    pub main-Closes :
        (program username server_ip port : String) (rest : List String) (sockfd : ℕ) (s : S)
        → os.socket ≡ some (sockfd, s)
        → Closes actions sockfd
            (main q k os register response (program ∷ username ∷ server_ip ∷ port ∷ rest))
    unfolding main
    main-Closes program username server_ip port rest sockfd s e =
        rw (e, main)
          (connect_user-Closes sockfd username server_ip (to_uint16 (atoi os.beyond port)) s)

  -- The bytes of a Register message.
  abbrev pub sent_register : String → S → Bool × S
  sent_register username s =
      send_message k register s MsgType.register
        (record { username = username; ip = get_local_ip os s })

  -- Suppose that the socket is there, that its connection is made, that the Register message, with
  -- the name of the arguments and the address of this end of the connection, is sent, and that a
  -- frame of the type SERVER_RESPONSE, with at most 16 MB of payload, comes first on the stream.
  -- Then the window opens, with the name, the socket and the address, if the payload parses to a
  -- successful answer, and also if it does not parse, and the stream goes on behind the frame. If
  -- it parses to an answer that is not successful, the program shows a dialog with its code and
  -- text, then closes this socket, and ends.
  pub main-answer :
      (program username server_ip port : String) (rest : List String) (sockfd : ℕ) (s : S)
      (payload later : List ℕ)
      → os.socket ≡ some (sockfd, s)
      → os.inet_pton server_ip ≡ true
      → let connected = os.connect server_ip (to_uint16 (atoi os.beyond port)) s in
        connected.0 ≡ true
        → (sent_register username connected.1).0 ≡ true
        → incoming (sent_register username connected.1).1
          ≡ frame MsgType.server_response payload ++ later
        → length payload ≤ max_payload
        → (t : S) × (incoming t ≡ later)
          × Follows sockfd
              (new_window q username sockfd (get_local_ip os connected.1))
              t
              (response.parse_from_string payload)
              (main q k os register response (program ∷ username ∷ server_ip ∷ port ∷ rest))
  unfolding main connect_user register_user await_response
  main-answer program username server_ip port rest sockfd s payload later made address on sent inc
        fits =
      let connected = os.connect server_ip (to_uint16 (atoi os.beyond port)) s in
      let (t, got, left) =
        recv_message-frame k (sent_register username connected.1).1 MsgType.server_response payload
          later inc fits in
      (
        t,
        left,
        subst
            (Follows sockfd (new_window q username sockfd (get_local_ip os connected.1)) t
              (response.parse_from_string payload))
            (sym (
              rw (made, address, on, sent, got, main, connect_user, register_user, await_response)
                refl))
            (check_response-Follows sockfd
              (new_window q username sockfd (get_local_ip os connected.1)) t
              (response.parse_from_string payload)),
      )
