-- ===== src/Client/Window/TabSafety.antt =====
-- The tabs of src/client/mainwindow.cpp under actions and signals.
use text.Mathlib.Text.{◌==◌ as str_eq}
use simple_chat_protocol.Prelude.{
  ℕ, String, Bool, true, false, Option, none, some, List, [], ◌∷◌, ◌<>◌, ◌==◌, leb, arith, is_empty,
  ◌||◌, if_cases, option_cases, string_equality,
}
use simple_chat_protocol.Prelude.Map.{find}
use simple_chat_protocol.Protocol.StatusCode
use simple_chat_protocol.Client.Qt.{Qt}
use simple_chat_protocol.Client.Thread.{
  Signal, server_response_received, all_users_received, for_dm_received, broadcast_received,
  user_info_received, connection_lost,
}
use simple_chat_protocol.Client.Window.State.{Window, message_dm, new_window}
use simple_chat_protocol.Client.Window.Output.{get_or_create_dm_tab, show_tab, append_dm_chat}
use simple_chat_protocol.Client.Window.Actions.{
  request, is_general, send_dm, on_send_clicked, on_change_status, is_current, set_mode,
  select_status, start_dm, on_user_double_clicked, on_show_user_info, on_tab_close_requested,
}
use simple_chat_protocol.Client.Window.Slots.{follow_code, later_statuses, add_users, on_signal}
use simple_chat_protocol.Client.Window.Events.{
  Action, type_text, choose_target, choose_status, choose_mode, send_clicked, refresh_users,
  double_clicked, show_user_info, show_help, close_tab, signal, close_window, act, session,
}
use simple_chat_protocol.Client.Window.Tabs.{
  Tabs, add_tab-Tabs, remove_tab-Tabs, set_current_tab-Tabs, new_tabs-Tabs,
}

abbrev pub HasTabs : {q : Qt} → Window q → Type 0
HasTabs {q} w = Tabs q.tab_widget w.chat_tabs w.dm_tabs w.next_page

module _ {q : Qt} where
  pub get_or_create_dm_tab-HasTabs :
      (user : String) (w : Window q) → HasTabs w → HasTabs (get_or_create_dm_tab user w).1
  unfolding get_or_create_dm_tab
  get_or_create_dm_tab-HasTabs user w h =
      option_cases (λ (r : ℕ × Window q). HasTabs r.1) (find user w.dm_tabs) _ _
        (λ _. add_tab-Tabs q.tab_widget w.chat_tabs w.dm_tabs w.next_page user ("📩 " <> user) h)
        (λ _ _. h)

  show_tab-HasTabs : (tab : ℕ) (w : Window q) → HasTabs w → HasTabs (show_tab tab w)
  show_tab-HasTabs tab w h =
      option_cases HasTabs (q.tab_widget.index_of w.chat_tabs tab) _ _ (λ _. h)
        (λ i _. set_current_tab-Tabs q.tab_widget w.chat_tabs w.dm_tabs w.next_page i h)

  append_dm_chat-HasTabs :
      (time user msg : String) (incoming : Bool) (w : Window q)
      → HasTabs w
      → HasTabs (append_dm_chat time user msg incoming w)
  unfolding append_dm_chat
  append_dm_chat-HasTabs time user msg incoming w h =
      let h' = get_or_create_dm_tab-HasTabs user w h in
      if_cases HasTabs incoming _ _ (λ _. show_tab-HasTabs _ _ h') (λ _. h')

  on_send_clicked-HasTabs :
      (time : String) (w : Window q) → HasTabs w → HasTabs (on_send_clicked time w)
  unfolding on_send_clicked send_dm
  on_send_clicked-HasTabs time w h =
      let w' : Window q = record w { message_input = "" } in
      let text = q.trimmed w.message_input in
      if_cases HasTabs (is_empty text) _ _ (λ _. h)
        λ _.
          if_cases HasTabs (is_general w') _ _ (λ _. h)
            λ _.
              if_cases HasTabs (is_empty (q.combo_box.current_text w.dm_target_combo)) _ _ (λ _. h)
                (λ _.
                  append_dm_chat-HasTabs time (q.combo_box.current_text w.dm_target_combo) text
                    false
                    (request
                      (message_dm text w.current_status (q.combo_box.current_text w.dm_target_combo)
                        w.local_ip)
                      w')
                    h)

  on_change_status-HasTabs :
      (o : Option ℕ) (w : Window q) → HasTabs w → HasTabs (on_change_status o w)
  unfolding on_change_status
  on_change_status-HasTabs o w h =
      if_cases HasTabs (q.combo_box.item_data w.status_combo o == w.current_status) _ _ (λ _. h)
        (λ _. h)

  select_status-HasTabs : (i : ℕ) (w : Window q) → HasTabs w → HasTabs (select_status i w)
  unfolding select_status
  select_status-HasTabs i w h =
      if_cases HasTabs (is_current i (q.combo_box.current_index w.status_combo)) _ _ (λ _. h)
        (λ _. on_change_status-HasTabs (some i) _ h)

  set_mode-HasTabs : (i : ℕ) (w : Window q) → HasTabs w → HasTabs (set_mode i w)
  unfolding set_mode
  set_mode-HasTabs i w h =
      if_cases HasTabs (is_current i (q.combo_box.current_index w.mode_combo)) _ _ (λ _. h) (λ _. h)

  start_dm-HasTabs : (user : String) (w : Window q) → HasTabs w → HasTabs (start_dm user w)
  unfolding start_dm
  start_dm-HasTabs user w h = show_tab-HasTabs _ _ (
      get_or_create_dm_tab-HasTabs user _ (
        option_cases HasTabs (q.combo_box.find_text (set_mode 1 w).dm_target_combo user) _ _
          (λ _. set_mode-HasTabs 1 w h) (λ _ _. set_mode-HasTabs 1 w h)))

  on_user_double_clicked-HasTabs :
      (text : String) (w : Window q) → HasTabs w → HasTabs (on_user_double_clicked text w)
  unfolding on_user_double_clicked
  on_user_double_clicked-HasTabs text w h =
      let user = q.trimmed (q.section text "  ") in
      if_cases HasTabs (is_empty user || str_eq user w.username) _ _ (λ _. h)
        (λ _. start_dm-HasTabs user w h)

  on_show_user_info-HasTabs :
      (o : Option String) (w : Window q) → HasTabs w → HasTabs (on_show_user_info o w)
  unfolding on_show_user_info
  on_show_user_info-HasTabs none w h = h
  on_show_user_info-HasTabs (some target) w h =
      if_cases HasTabs (is_empty (q.trimmed target)) _ _ (λ _. h) (λ _. h)

  on_tab_close_requested-HasTabs :
      (i : ℕ) (w : Window q) → HasTabs w → HasTabs (on_tab_close_requested i w)
  unfolding on_tab_close_requested
  on_tab_close_requested-HasTabs i w h =
      if_cases HasTabs (leb i 1) _ _ (λ _. h)
        (λ gt.
          remove_tab-Tabs q.tab_widget w.chat_tabs w.dm_tabs w.next_page i
            (q.tab_widget.tab_text w.chat_tabs i) (ground (arith, gt)) h)

  follow_code-HasTabs : (code : ℕ) (w : Window q) → HasTabs w → HasTabs (follow_code code w)
  unfolding follow_code
  follow_code-HasTabs code w h =
      let taken =
        if_cases HasTabs (code == StatusCode.auto_inactive) _ _ (λ _. h)
          (λ _.
            if_cases HasTabs (code == StatusCode.status_restored) _ _ (λ _. h)
              (λ _.
                if_cases HasTabs (code == StatusCode.ok_status_changed) _ _ (λ _. h) (λ _. h))) in
      if_cases HasTabs (code == StatusCode.ok_status_changed) _ _ (λ _. taken)
        λ _.
          if_cases HasTabs (code == StatusCode.status_restored) _ _ (λ _. taken)
            λ _. if_cases HasTabs (code == StatusCode.auto_inactive) _ _ (λ _. h) (λ _. h)

  add_users-HasTabs :
      (names : List String) (statuses : List ℕ) (w : Window q)
      → HasTabs w
      → HasTabs (add_users names statuses w)
  unfolding add_users
  add_users-HasTabs [] statuses w h = h
  add_users-HasTabs (name ∷ names) statuses w h =
      add_users-HasTabs names (later_statuses statuses) _
        (if_cases HasTabs (str_eq name w.username) _ _ (λ _. h) (λ _. h))

  on_signal-HasTabs :
      (time later : String) (s : Signal) (w : Window q)
      → HasTabs w
      → HasTabs (on_signal time later s w)
  unfolding on_signal
  on_signal-HasTabs time later (server_response_received code message ok) w h =
      follow_code-HasTabs code _ h
  on_signal-HasTabs time later (all_users_received usernames statuses) w h =
      add_users-HasTabs usernames statuses _ h
  on_signal-HasTabs time later (for_dm_received sender message) w h =
      append_dm_chat-HasTabs time sender message true w h
  on_signal-HasTabs time later (broadcast_received origin message) w h = h
  on_signal-HasTabs time later (user_info_received ip username status) w h = h
  on_signal-HasTabs time later connection_lost w h = h

  act-HasTabs : (a : Action) (w : Window q) → HasTabs w → HasTabs (act a w)
  unfolding act
  act-HasTabs (type_text text) w h = h
  act-HasTabs (choose_target i) w h = h
  act-HasTabs (choose_status i) w h = select_status-HasTabs i w h
  act-HasTabs (choose_mode i) w h = set_mode-HasTabs i w h
  act-HasTabs (send_clicked time) w h = on_send_clicked-HasTabs time w h
  act-HasTabs refresh_users w h = h
  act-HasTabs (double_clicked text) w h = on_user_double_clicked-HasTabs text w h
  act-HasTabs (show_user_info target) w h = on_show_user_info-HasTabs target w h
  act-HasTabs show_help w h = h
  act-HasTabs (close_tab i) w h = on_tab_close_requested-HasTabs i w h
  act-HasTabs (signal time later s) w h = on_signal-HasTabs time later s w h
  act-HasTabs close_window w h = h

  session-HasTabs : (actions : List Action) (w : Window q) → HasTabs w → HasTabs (session actions w)
  unfolding session
  session-HasTabs [] w h = h
  session-HasTabs (a ∷ actions) w h = session-HasTabs actions (act a w) (act-HasTabs a w h)

-- Whatever the user does and whatever messages arrive, in any order: the first two tabs of the
-- window are the general chat and the system log, and the page of a peer is none of these two, nor
-- the page of another peer.
pub session-new_window-HasTabs :
    (q : Qt) (username : String) (fd : ℕ) (ip : String) (actions : List Action)
    → HasTabs (session actions (new_window q username fd ip))
unfolding new_window
session-new_window-HasTabs q username fd ip actions =
    session-HasTabs actions (new_window q username fd ip) (new_tabs-Tabs q.tab_widget)
