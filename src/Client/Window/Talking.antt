-- ===== src/Client/Window/Talking.antt =====
-- What is said in one window of src/client/mainwindow.cpp and heard in another, through
-- src/client/network.cpp and src/server/server.cpp.
use simple_chat_protocol.Prelude.{
  ℕ, ◌≤◌, String, true, false, ◌≡◌, refl, ap, none, some, List, [], ◌∷◌, ◌++◌, ◌<>◌, length, map,
  is_empty, if◌then◌else◌, option_cases, Option-cases, inl, inr, nat_equality, string_equality,
}
use text.Mathlib.Text.{◌==◌ as str_eq}
use simple_chat_protocol.Prelude.Map.{find, keys}
use simple_chat_protocol.Protocol.MsgType
use simple_chat_protocol.Protocol.StatusCode
use simple_chat_protocol.Wire.Socket.{Socket}
use simple_chat_protocol.Wire.Frame.{RoundTrips, max_payload, recv_message}
use simple_chat_protocol.Messages.{World}
use simple_chat_protocol.Server.State.{SessionInfo, Server}
use simple_chat_protocol.Server.Activity.{notice}
use simple_chat_protocol.Server.Client.{dispatch}
use simple_chat_protocol.Server.Registry.{IsConsistent}
use simple_chat_protocol.Server.Registration.{answer}
use simple_chat_protocol.Server.Delivery.{delivery, private_message}
use simple_chat_protocol.Client.Qt.{Qt}
use simple_chat_protocol.Client.Delivered.{
  send_message_dm-delivered, send_message_general-delivered,
}
use simple_chat_protocol.Client.Window.Requests.{perform}
use simple_chat_protocol.Client.Window.StartDm.{on_send_clicked-Aims}
use simple_chat_protocol.Client.Signals.{signal_of}
use simple_chat_protocol.Client.Window.State.{Window, message_general, message_dm, general_chat}
use simple_chat_protocol.Client.Window.Output.{
  append_system_message, stamped, said_by, get_or_create_dm_tab, show_tab, append_dm_chat,
  append_general_chat,
}
use simple_chat_protocol.Client.Window.Actions.{is_general, request, send_dm, on_send_clicked}
use simple_chat_protocol.Client.Window.Slots.{on_signal, on_for_dm, on_broadcast}
use simple_chat_protocol.Client.Window.ClosedTab.{notice as system_notice}

module _ {q : Qt} where
  open q use {trimmed}
  open (q.combo_box) use {current_index, current_text}

  -- The page of a peer: that of its tab, or a new one.
  abbrev pub page_of : String → Window q → ℕ
  page_of peer v = elim (find peer v.dm_tabs) [ none ↦ v.next_page | some page ↦ page ]

  show_tab-appended : (page : ℕ) (v : Window q) → (show_tab page v).appended ≡ v.appended
  show_tab-appended page v =
      option_cases (λ (x : Window q). x.appended ≡ v.appended)
        (q.tab_widget.index_of v.chat_tabs page) _ _ (λ _. refl) (λ _ _. refl)

  append_dm_chat-outgoing :
      (time peer msg : String) (v : Window q)
      → (append_dm_chat time peer msg false v).appended
        ≡ v.appended ++ (page_of peer v, stamped time (said_by q "#89b4fa" v.username msg)) ∷ []
  unfolding append_dm_chat get_or_create_dm_tab
  append_dm_chat-outgoing time peer msg v = elim (Option-cases (find peer v.dm_tabs)) [
    | inl e ↦ rw (e, append_dm_chat, get_or_create_dm_tab, page_of) refl
    | inr (page, e) ↦ rw (e, append_dm_chat, get_or_create_dm_tab, page_of) refl
  ]

  append_dm_chat-incoming :
      (time peer msg : String) (v : Window q)
      → (append_dm_chat time peer msg true v).appended
        ≡ v.appended ++ (page_of peer v, stamped time (said_by q "#f38ba8" peer msg)) ∷ []
  unfolding append_dm_chat get_or_create_dm_tab
  append_dm_chat-incoming time peer msg v = elim (Option-cases (find peer v.dm_tabs)) [
    | inl e ↦
        rw (e, append_dm_chat, get_or_create_dm_tab, page_of) (show_tab-appended v.next_page _)
    | inr (page, e) ↦
        rw (e, append_dm_chat, get_or_create_dm_tab, page_of) (show_tab-appended page _)
  ]

  on_send_clicked-echo :
      (time : String) (v : Window q)
      → current_index v.mode_combo ≡ some 1
      → is_empty (current_text v.dm_target_combo) ≡ false
      → is_empty (trimmed v.message_input) ≡ false
      → (on_send_clicked time v).appended
        ≡ v.appended
          ++ (
            page_of (current_text v.dm_target_combo) v,
            stamped time (said_by q "#89b4fa" v.username (trimmed v.message_input)),
          )
            ∷ []
  unfolding on_send_clicked send_dm
  on_send_clicked-echo time v mode target said =
      let dm : is_general v ≡ false = rw (mode, is_general) refl in
      rw (said, dm, target, on_send_clicked, send_dm)
        (append_dm_chat-outgoing time (current_text v.dm_target_combo) (trimmed v.message_input) _)

  on_send_clicked-general :
      (time : String) (v : Window q)
      → current_index v.mode_combo ≡ some 0
      → is_empty (trimmed v.message_input) ≡ false
      → on_send_clicked time v
        ≡ request
            (message_general (trimmed v.message_input) v.current_status v.username v.local_ip)
            (record v { message_input = "" })
  unfolding on_send_clicked
  on_send_clicked-general time v mode said =
      let general : is_general v ≡ true = rw (mode, is_general) refl in
      rw (said, general, on_send_clicked) refl

module _ (k r : Socket) (w : World) (q : Qt) where
  open k use {S, outgoing}
  open r use {S as R, incoming}
  open q use {trimmed}
  open (q.combo_box) use {current_index, current_text}

  -- A window in DM mode with an addressee and a text that are not blank, a running server
  -- with a consistent registry, and the window of the addressee. Suppose that the request of
  -- the first window, a message of at most 16 MB, is sent and reaches the server, that
  -- parsing undoes serializing, and that the sender and the addressee have sessions. When the
  -- button is clicked, then the request is made and the text is shown on the page of the
  -- addressee under the own name; the server receives the message, and handling it sends it
  -- to the addressee under the name that the sender registered, and then tells the sender so;
  -- and what the window of the addressee makes of it is the text on the page of that name,
  -- and a line in the system log.
  pub on_send_clicked-whispered :
      (time time' later : String) (v u : Window q) (c : S) (t : R) (payload bytes rest : List ℕ)
      (now fd j : ℕ) (i d : SessionInfo) (s : Server)
      → current_index v.mode_combo ≡ some 1
      → is_empty (current_text v.dm_target_combo) ≡ false
      → is_empty (trimmed v.message_input) ≡ false
      → RoundTrips w.message_dm
      → let text = trimmed v.message_input in
        let dest = current_text v.dm_target_combo in
        let asked = message_dm text v.current_status dest v.local_ip in
        w.message_dm.serialize_to_string (record {
          message = text;
          status = v.current_status;
          username_des = dest;
          ip = v.local_ip;
        })
          ≡ some payload
        → length payload ≤ max_payload
        → (perform k w asked c).0 ≡ true
        → outgoing (perform k w asked c).1 ≡ outgoing c ++ bytes
        → incoming t ≡ bytes ++ rest
        → IsConsistent s
        → s.running ≡ true
        → find fd s.sessions ≡ some i
        → find j s.sessions ≡ some d
        → d.username ≡ dest
        → ((on_send_clicked time v).requests ≡ v.requests ++ asked ∷ [])
          × ((on_send_clicked time v).appended
              ≡ v.appended
                ++ (page_of dest v, stamped time (said_by q "#89b4fa" v.username text)) ∷ [])
          × ((got : List ℕ) × (t' : R) × (recv_message r t ≡ some ((MsgType.message_dm, got), t'))
              × ((dispatch w now fd MsgType.message_dm got s).0.sent
                  ≡ ((s.sent ++ notice fd i) ++ private_message i.username text j ∷ [])
                    ++ answer fd StatusCode.ok_dm_sent ("DM sent to " <> dest) true ∷ []))
          × ((on_signal time' later
                (signal_of (private_message i.username text j).proto)
                u).appended
              ≡ (u.appended
                  ++ (page_of i.username u, stamped time' (said_by q "#f38ba8" i.username text))
                    ∷ [])
                ++ system_notice q later i.username ∷ [])
  unfolding perform on_signal on_for_dm append_system_message
  on_send_clicked-whispered time time' later v u c t payload bytes rest now fd j i d s mode target
        said law ser fits ok out inc h run found there name =
      let text = trimmed v.message_input in
      let dest = current_text v.dm_target_combo in
      (
        on_send_clicked-Aims time dest v v
            (record { mode = mode; target = refl; asked = refl; status = refl; own_ip = refl })
            target said,
        on_send_clicked-echo time v mode target said,
        send_message_dm-delivered k r w c t text dest v.local_ip v.current_status payload bytes rest
            now fd j i d s law ser fits ok out inc h run found there name,
        ap (λ l. l ++ system_notice q later i.username ∷ [])
            (append_dm_chat-incoming time' i.username text u),
      )

  -- A window in general mode with a text that is not blank, a running server with a
  -- consistent registry, and any window u. Suppose that the request of the first window, a
  -- message of at most 16 MB, is sent and reaches the server, that parsing undoes
  -- serializing, and that the sender has a session. When the button is clicked, then the
  -- request is made and nothing is shown yet; the server receives the message, and handling
  -- it sends it once to every registered connection, under the name that the sender
  -- registered; and what the window u makes of it is the text in its general chat, in the
  -- colour of the own messages exactly if the name is its own.
  pub on_send_clicked-announced :
      (time time' later : String) (v u : Window q) (c : S) (t : R) (payload bytes rest : List ℕ)
      (now fd j : ℕ) (i : SessionInfo) (s : Server)
      → current_index v.mode_combo ≡ some 0
      → is_empty (trimmed v.message_input) ≡ false
      → RoundTrips w.message_general
      → let text = trimmed v.message_input in
        let asked = message_general text v.current_status v.username v.local_ip in
        w.message_general.serialize_to_string (record {
          message = text;
          status = v.current_status;
          username_origin = v.username;
          ip = v.local_ip;
        })
          ≡ some payload
        → length payload ≤ max_payload
        → (perform k w asked c).0 ≡ true
        → outgoing (perform k w asked c).1 ≡ outgoing c ++ bytes
        → incoming t ≡ bytes ++ rest
        → IsConsistent s
        → s.running ≡ true
        → find fd s.sessions ≡ some i
        → ((on_send_clicked time v).requests ≡ v.requests ++ asked ∷ [])
          × ((on_send_clicked time v).appended ≡ v.appended)
          × ((got : List ℕ) × (t' : R) × (recv_message r t
                ≡ some ((MsgType.message_general, got), t'))
              × ((dispatch w now fd MsgType.message_general got s).0.sent
                  ≡ (s.sent ++ notice fd i) ++ map (delivery i.username text) (keys s.sessions)))
          × ((on_signal time' later (signal_of (delivery i.username text j).proto) u).appended
              ≡ u.appended
                ++ (
                  general_chat,
                  stamped time' (
                      said_by q
                        (if str_eq i.username u.username then "#89b4fa" else "#f38ba8")
                        i.username
                        text),
                )
                  ∷ [])
  unfolding perform on_signal on_broadcast append_general_chat
  on_send_clicked-announced time time' later v u c t payload bytes rest now fd j i s mode said law
        ser fits ok out inc h run found =
      let click = on_send_clicked-general time v mode said in
      (
        ap (λ (x : Window q). x.requests) click,
        ap (λ (x : Window q). x.appended) click,
        send_message_general-delivered k r w c t (trimmed v.message_input) v.username v.local_ip
            v.current_status payload bytes rest now fd i s law ser fits ok out inc h run found,
        refl,
      )
