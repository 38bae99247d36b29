-- ===== src/Client/Window/Sockets.antt =====
-- The socket of the window of src/client/mainwindow.cpp until the window is closed.
use text.Mathlib.Text.{◌==◌ as str_eq}
use simple_chat_protocol.Prelude.{
  ℕ, String, Bool, ◌≡◌, ◌≢◌, refl, All, true, false, Option, none, some, List, [], ◌∷◌, ◌++◌, ◌==◌,
  leb, is_empty, ◌||◌, if_cases, option_cases, string_equality,
}
use simple_chat_protocol.Prelude.Map.{find}
use simple_chat_protocol.Protocol.StatusCode
use simple_chat_protocol.Client.Qt.{Qt}
use simple_chat_protocol.Client.Thread.{
  Signal, server_response_received, all_users_received, for_dm_received, broadcast_received,
  user_info_received, connection_lost,
}
use simple_chat_protocol.Client.Window.State.{Window, message_dm}
use simple_chat_protocol.Client.Window.Output.{get_or_create_dm_tab, show_tab, append_dm_chat}
use simple_chat_protocol.Client.Window.Actions.{
  request, is_general, send_dm, on_send_clicked, on_change_status, is_current, set_mode,
  select_status, start_dm, on_user_double_clicked, on_show_user_info, on_tab_close_requested,
}
use simple_chat_protocol.Client.Window.Slots.{follow_code, later_statuses, add_users, on_signal}
use simple_chat_protocol.Client.Window.Events.{
  Action, type_text, choose_target, choose_status, choose_mode, send_clicked, refresh_users,
  double_clicked, show_user_info, show_help, close_tab, signal, close_window, act, session,
}

module _ {q : Qt} (c : List ℕ) (fd : ℕ) where
  -- The sockets `c` were closed by the window, and `fd` is its own.
  abbrev pub HasSocket : Window q → Type 0
  HasSocket w = (w.closed ≡ c) × (w.socket_fd ≡ fd)

  get_or_create_dm_tab-HasSocket :
      (user : String) (w : Window q) → HasSocket w → HasSocket (get_or_create_dm_tab user w).1
  unfolding get_or_create_dm_tab
  get_or_create_dm_tab-HasSocket user w h =
      option_cases (λ (r : ℕ × Window q). HasSocket r.1) (find user w.dm_tabs) _ _ (λ _. h)
        (λ _ _. h)

  show_tab-HasSocket : (tab : ℕ) (w : Window q) → HasSocket w → HasSocket (show_tab tab w)
  show_tab-HasSocket tab w h =
      option_cases HasSocket (q.tab_widget.index_of w.chat_tabs tab) _ _ (λ _. h) (λ _ _. h)

  append_dm_chat-HasSocket :
      (time user msg : String) (incoming : Bool) (w : Window q)
      → HasSocket w
      → HasSocket (append_dm_chat time user msg incoming w)
  unfolding append_dm_chat
  append_dm_chat-HasSocket time user msg incoming w h =
      let h' = get_or_create_dm_tab-HasSocket user w h in
      if_cases HasSocket incoming _ _ (λ _. show_tab-HasSocket _ _ h') (λ _. h')

  on_send_clicked-HasSocket :
      (time : String) (w : Window q) → HasSocket w → HasSocket (on_send_clicked time w)
  unfolding on_send_clicked send_dm
  on_send_clicked-HasSocket time w h =
      let w' : Window q = record w { message_input = "" } in
      let text = q.trimmed w.message_input in
      if_cases HasSocket (is_empty text) _ _ (λ _. h)
        λ _.
          if_cases HasSocket (is_general w') _ _ (λ _. h)
            λ _.
              if_cases HasSocket (is_empty (q.combo_box.current_text w.dm_target_combo)) _ _
                (λ _. h)
                (λ _.
                  append_dm_chat-HasSocket time (q.combo_box.current_text w.dm_target_combo) text
                    false
                    (request
                      (message_dm text w.current_status (q.combo_box.current_text w.dm_target_combo)
                        w.local_ip)
                      w')
                    h)

  on_change_status-HasSocket :
      (o : Option ℕ) (w : Window q) → HasSocket w → HasSocket (on_change_status o w)
  unfolding on_change_status
  on_change_status-HasSocket o w h =
      if_cases HasSocket (q.combo_box.item_data w.status_combo o == w.current_status) _ _ (λ _. h)
        (λ _. h)

  select_status-HasSocket : (i : ℕ) (w : Window q) → HasSocket w → HasSocket (select_status i w)
  unfolding select_status
  select_status-HasSocket i w h =
      if_cases HasSocket (is_current i (q.combo_box.current_index w.status_combo)) _ _ (λ _. h)
        (λ _. on_change_status-HasSocket (some i) _ h)

  set_mode-HasSocket : (i : ℕ) (w : Window q) → HasSocket w → HasSocket (set_mode i w)
  unfolding set_mode
  set_mode-HasSocket i w h =
      if_cases HasSocket (is_current i (q.combo_box.current_index w.mode_combo)) _ _ (λ _. h)
        (λ _. h)

  start_dm-HasSocket : (user : String) (w : Window q) → HasSocket w → HasSocket (start_dm user w)
  unfolding start_dm
  start_dm-HasSocket user w h = show_tab-HasSocket _ _ (
      get_or_create_dm_tab-HasSocket user _ (
        option_cases HasSocket (q.combo_box.find_text (set_mode 1 w).dm_target_combo user) _ _
          (λ _. set_mode-HasSocket 1 w h) (λ _ _. set_mode-HasSocket 1 w h)))

  on_user_double_clicked-HasSocket :
      (text : String) (w : Window q) → HasSocket w → HasSocket (on_user_double_clicked text w)
  unfolding on_user_double_clicked
  on_user_double_clicked-HasSocket text w h =
      let user = q.trimmed (q.section text "  ") in
      if_cases HasSocket (is_empty user || str_eq user w.username) _ _ (λ _. h)
        (λ _. start_dm-HasSocket user w h)

  on_show_user_info-HasSocket :
      (o : Option String) (w : Window q) → HasSocket w → HasSocket (on_show_user_info o w)
  unfolding on_show_user_info
  on_show_user_info-HasSocket none w h = h
  on_show_user_info-HasSocket (some target) w h =
      if_cases HasSocket (is_empty (q.trimmed target)) _ _ (λ _. h) (λ _. h)

  on_tab_close_requested-HasSocket :
      (i : ℕ) (w : Window q) → HasSocket w → HasSocket (on_tab_close_requested i w)
  unfolding on_tab_close_requested
  on_tab_close_requested-HasSocket i w h = if_cases HasSocket (leb i 1) _ _ (λ _. h) (λ _. h)

  follow_code-HasSocket : (code : ℕ) (w : Window q) → HasSocket w → HasSocket (follow_code code w)
  unfolding follow_code
  follow_code-HasSocket code w h =
      let taken =
        if_cases HasSocket (code == StatusCode.auto_inactive) _ _ (λ _. h)
          (λ _.
            if_cases HasSocket (code == StatusCode.status_restored) _ _ (λ _. h)
              (λ _.
                if_cases HasSocket (code == StatusCode.ok_status_changed) _ _ (λ _. h) (λ _. h))) in
      if_cases HasSocket (code == StatusCode.ok_status_changed) _ _ (λ _. taken)
        λ _.
          if_cases HasSocket (code == StatusCode.status_restored) _ _ (λ _. taken)
            λ _. if_cases HasSocket (code == StatusCode.auto_inactive) _ _ (λ _. h) (λ _. h)

  add_users-HasSocket :
      (names : List String) (statuses : List ℕ) (w : Window q)
      → HasSocket w
      → HasSocket (add_users names statuses w)
  unfolding add_users
  add_users-HasSocket [] statuses w h = h
  add_users-HasSocket (name ∷ names) statuses w h =
      add_users-HasSocket names (later_statuses statuses) _
        (if_cases HasSocket (str_eq name w.username) _ _ (λ _. h) (λ _. h))

  on_signal-HasSocket :
      (time later : String) (s : Signal) (w : Window q)
      → HasSocket w
      → HasSocket (on_signal time later s w)
  unfolding on_signal
  on_signal-HasSocket time later (server_response_received code message ok) w h =
      follow_code-HasSocket code _ h
  on_signal-HasSocket time later (all_users_received usernames statuses) w h =
      add_users-HasSocket usernames statuses _ h
  on_signal-HasSocket time later (for_dm_received sender message) w h =
      append_dm_chat-HasSocket time sender message true w h
  on_signal-HasSocket time later (broadcast_received origin message) w h = h
  on_signal-HasSocket time later (user_info_received ip username status) w h = h
  on_signal-HasSocket time later connection_lost w h = h

  act-HasSocket : (a : Action) (w : Window q) → a ≢ close_window → HasSocket w → HasSocket (act a w)
  unfolding act
  act-HasSocket (type_text text) w other h = h
  act-HasSocket (choose_target i) w other h = h
  act-HasSocket (choose_status i) w other h = select_status-HasSocket i w h
  act-HasSocket (choose_mode i) w other h = set_mode-HasSocket i w h
  act-HasSocket (send_clicked time) w other h = on_send_clicked-HasSocket time w h
  act-HasSocket refresh_users w other h = h
  act-HasSocket (double_clicked text) w other h = on_user_double_clicked-HasSocket text w h
  act-HasSocket (show_user_info target) w other h = on_show_user_info-HasSocket target w h
  act-HasSocket show_help w other h = h
  act-HasSocket (close_tab i) w other h = on_tab_close_requested-HasSocket i w h
  act-HasSocket (signal time later s) w other h = on_signal-HasSocket time later s w h
  act-HasSocket close_window w other h = absurd (other refl)

  -- While the window is not closed, it closes no socket and keeps its own.
  pub session-HasSocket :
      (actions : List Action) (w : Window q)
      → All (λ a. a ≢ close_window) actions
      → HasSocket w
      → HasSocket (session actions w)
  unfolding session
  session-HasSocket [] w open_ h = h
  session-HasSocket (a ∷ actions) w open_ h =
      session-HasSocket actions (act a w) open_.1 (act-HasSocket a w open_.0 h)

pub session-append :
    {q : Qt} (actions later : List Action) (w : Window q)
    → session (actions ++ later) w ≡ session later (session actions w)
unfolding session
session-append [] later w = refl
session-append (a ∷ actions) later w = session-append actions later (act a w)
