-- ===== src/Client/Window/Reachable.antt =====
-- The status of the window of src/client/mainwindow.cpp after any actions and signals.
use simple_chat_protocol.Prelude.{
  ℕ, ◌≤◌, String, true, ◌∙◌, List, [], ◌∷◌, ◌==◌, arith, if_cases, string_equality,
}
use text.Mathlib.Text.{◌==◌ as str_eq}
use simple_chat_protocol.Protocol.Status.{active, invisible}
use simple_chat_protocol.Protocol.StatusCode
use simple_chat_protocol.Client.Qt.{Qt}
use simple_chat_protocol.Client.Thread.{
  Signal, server_response_received, all_users_received, for_dm_received, broadcast_received,
  user_info_received, connection_lost,
}
use simple_chat_protocol.Client.Window.State.{Window, list_users, quit, new_window}
use simple_chat_protocol.Client.Window.Actions.{on_refresh_users}
use simple_chat_protocol.Client.Window.Slots.{
  force_status, take_status, follow_code, later_statuses, add_users, on_signal,
}
use simple_chat_protocol.Client.Window.Events.{
  Action, type_text, choose_target, choose_status, choose_mode, send_clicked, refresh_users,
  double_clicked, show_user_info, show_help, close_tab, signal, close_window, act, session,
}
use simple_chat_protocol.Client.Window.Statuses.{
  IsSound, item_data-le, requested, new_window-IsSound, append_dm_chat-IsSound,
  on_send_clicked-IsSound, select_status-IsSound, set_mode-IsSound, on_user_double_clicked-IsSound,
  on_show_user_info-IsSound, on_tab_close_requested-IsSound,
}

module _ {q : Qt} where
  force_status-IsSound :
      (status i : ℕ) (w : Window q)
      → status ≤ invisible
      → IsSound w
      → IsSound (force_status status i w)
  force_status-IsSound status i w v h = record {
    entries = q.combo_box.items_set i w.status_combo ∙ h.entries;
    modes_entries = h.modes_entries;
    current_valid = v;
    requests_valid = h.requests_valid;
  }

  take_status-IsSound : (code : ℕ) (w : Window q) → IsSound w → IsSound (take_status code w)
  take_status-IsSound code w h =
      if_cases IsSound (code == StatusCode.auto_inactive) _ _
        (λ _. force_status-IsSound invisible 2 w (omega arith) h)
        λ _.
          if_cases IsSound (code == StatusCode.status_restored) _ _
            (λ _. force_status-IsSound active 0 w (omega arith) h)
            λ _.
              if_cases IsSound (code == StatusCode.ok_status_changed) _ _
                (λ _. record {
                  entries = h.entries;
                  modes_entries = h.modes_entries;
                  current_valid = item_data-le q.combo_box w.status_combo _ h.entries;
                  requests_valid = h.requests_valid;
                })
                (λ _. h)

  on_refresh_users-IsSound : (w : Window q) → IsSound w → IsSound (on_refresh_users w)
  unfolding on_refresh_users
  on_refresh_users-IsSound w h = requested (list_users w.username w.local_ip) w tt h

  follow_code-IsSound : (code : ℕ) (w : Window q) → IsSound w → IsSound (follow_code code w)
  unfolding follow_code
  follow_code-IsSound code w h =
      let refreshed = take_status-IsSound code _ (on_refresh_users-IsSound w h) in
      if_cases IsSound (code == StatusCode.ok_status_changed) _ _ (λ _. refreshed)
        λ _.
          if_cases IsSound (code == StatusCode.status_restored) _ _ (λ _. refreshed)
            λ _.
              if_cases IsSound (code == StatusCode.auto_inactive) _ _
                (λ _. force_status-IsSound invisible 2 w (omega arith) h) (λ _. h)

  add_users-IsSound :
      (names : List String) (statuses : List ℕ) (w : Window q)
      → IsSound w
      → IsSound (add_users names statuses w)
  unfolding add_users
  add_users-IsSound [] statuses w h = h
  add_users-IsSound (name ∷ names) statuses w h =
      add_users-IsSound names (later_statuses statuses) _
        (if_cases IsSound (str_eq name w.username) _ _ (λ _. h) (λ _. h))

  on_signal-IsSound :
      (time later : String) (s : Signal) (w : Window q)
      → IsSound w
      → IsSound (on_signal time later s w)
  unfolding on_signal
  on_signal-IsSound time later (server_response_received code message ok) w h =
      follow_code-IsSound code _ h
  on_signal-IsSound time later (all_users_received usernames statuses) w h =
      add_users-IsSound usernames statuses _ h
  on_signal-IsSound time later (for_dm_received sender message) w h =
      append_dm_chat-IsSound time sender message true w h
  on_signal-IsSound time later (broadcast_received origin message) w h = h
  on_signal-IsSound time later (user_info_received ip username status) w h = h
  on_signal-IsSound time later connection_lost w h = h

  act-IsSound : (a : Action) (w : Window q) → IsSound w → IsSound (act a w)
  unfolding act
  act-IsSound (type_text text) w h = h
  act-IsSound (choose_target i) w h = h
  act-IsSound (choose_status i) w h = select_status-IsSound i w h
  act-IsSound (choose_mode i) w h = set_mode-IsSound i w h
  act-IsSound (send_clicked time) w h = on_send_clicked-IsSound time w h
  act-IsSound refresh_users w h = on_refresh_users-IsSound w h
  act-IsSound (double_clicked text) w h = on_user_double_clicked-IsSound text w h
  act-IsSound (show_user_info target) w h = on_show_user_info-IsSound target w h
  act-IsSound show_help w h = h
  act-IsSound (close_tab i) w h = on_tab_close_requested-IsSound i w h
  act-IsSound (signal time later s) w h = on_signal-IsSound time later s w h
  act-IsSound close_window w h = requested (quit w.local_ip) w tt h

  session-IsSound : (actions : List Action) (w : Window q) → IsSound w → IsSound (session actions w)
  unfolding session
  session-IsSound [] w h = h
  session-IsSound (a ∷ actions) w h = session-IsSound actions (act a w) (act-IsSound a w h)

-- Whatever the user does and whatever messages arrive, also malicious ones, in any order: the
-- status and mode combo boxes of the window keep their entries, and the window's status, and that
-- of each request it has sent, is one of the three that the server accepts.
pub session-new_window-IsSound :
    (q : Qt) (username : String) (fd : ℕ) (ip : String) (actions : List Action)
    → IsSound (session actions (new_window q username fd ip))
session-new_window-IsSound q username fd ip actions =
    session-IsSound actions (new_window q username fd ip) (new_window-IsSound q username fd ip)
