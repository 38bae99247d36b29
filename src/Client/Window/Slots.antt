-- ===== src/Client/Window/Slots.antt =====
-- The slots of src/client/mainwindow.cpp for the signals of the network thread.
use simple_chat_protocol.Prelude.{
  ℕ, String, Bool, true, false, List, [], ◌∷◌, ◌++◌, ◌<>◌, ◌==◌, if◌then◌else◌,
}
use text.Mathlib.Text.{◌==◌ as str_eq}
use simple_chat_protocol.Protocol.Status.{active, invisible}
use simple_chat_protocol.Protocol.StatusCode
use simple_chat_protocol.Client.Qt.{Qt}
use simple_chat_protocol.Client.Thread.{
  Signal, server_response_received, all_users_received, for_dm_received, broadcast_received,
  user_info_received, connection_lost,
}
use simple_chat_protocol.Client.Window.State.{Window}
use simple_chat_protocol.Client.Window.Output.{
  status_to_display, append_system_message, append_general_chat, append_dm_chat,
}
use simple_chat_protocol.Client.Window.Actions.{on_refresh_users}

-- `statuses[i]` if there are so many, else 0
abbrev pub status_or_zero : List ℕ → ℕ
status_or_zero [] = 0
status_or_zero (st ∷ statuses) = st

abbrev pub later_statuses : List ℕ → List ℕ
later_statuses [] = []
later_statuses (st ∷ statuses) = statuses

abbrev pub display_user : String → ℕ → String
display_user name st = name <> "  " <> status_to_display st

module _ {q : Qt} where
  open q use {to_html_escaped, number}
  open (q.combo_box) use {add_item, clear, current_index, set_current_index, item_data}

  -- statusCombo_->setCurrentIndex(i) with its signals blocked, and the status that goes with it
  abbrev pub force_status : ℕ → ℕ → Window q → Window q
  force_status status i w = record w {
    current_status = status;
    status_combo = set_current_index i w.status_combo;
  }

  -- The cases OK_STATUS_CHANGED and STATUS_RESTORED of the `switch`, behind the refresh.
  abbrev pub take_status : ℕ → Window q → Window q
  take_status status_code w =
      if status_code == StatusCode.auto_inactive
      then force_status invisible 2 w
      else if status_code == StatusCode.status_restored
      then force_status active 0 w
      else if status_code == StatusCode.ok_status_changed
      then record w { current_status = item_data w.status_combo (current_index w.status_combo) }
      else w

  unfoldable pub follow_code : ℕ → Window q → Window q
  unfolding on_refresh_users
  follow_code status_code w =
      if status_code == StatusCode.ok_status_changed
      then take_status status_code (on_refresh_users w)
      else if status_code == StatusCode.status_restored
      then take_status status_code (on_refresh_users w)
      else if status_code == StatusCode.auto_inactive
      then force_status invisible 2 w
      else w

  unfoldable pub on_server_response : String → ℕ → String → Bool → Window q → Window q
  unfolding append_system_message follow_code
  on_server_response time status_code message is_successful w =
      let color = if is_successful then "#a6e3a1" else "#f38ba8" in
      follow_code status_code (
        append_system_message time
          ("<span style='color:"
            <> color
            <> ";'>[Código "
            <> number status_code
            <> "] "
            <> to_html_escaped message
            <> "</span>")
          w)

  -- The loop over the names, with what is left of both lists.
  unfoldable pub add_users : List String → List ℕ → Window q → Window q
  unfolding status_to_display
  add_users [] statuses w = w
  add_users (name ∷ usernames) statuses w =
      let w' = record w {
        user_list = w.user_list ++ display_user name (status_or_zero statuses) ∷ [];
      } in
      add_users usernames (later_statuses statuses) (
        if str_eq name w'.username
        then w'
        else record w' { dm_target_combo = add_item name 0 w'.dm_target_combo })

  unfoldable pub on_all_users : List String → List ℕ → Window q → Window q
  unfolding add_users
  on_all_users usernames statuses w =
      add_users usernames statuses
        (record w { user_list = []; dm_target_combo = clear w.dm_target_combo })

  unfoldable pub on_for_dm : String → String → String → String → Window q → Window q
  unfolding append_dm_chat append_system_message
  on_for_dm time later sender_username message w =
      append_system_message later
        ("<span style='color:#cba6f7;'>📩 DM recibido de "
          <> to_html_escaped sender_username
          <> "</span>")
        (append_dm_chat time sender_username message true w)

  unfoldable pub on_broadcast : String → String → String → Window q → Window q
  unfolding append_general_chat
  on_broadcast time username_origin message w = append_general_chat time username_origin message w

  unfoldable pub on_user_info : String → String → ℕ → Window q → Window q
  unfolding status_to_display
  on_user_info ip_address username status w = record w {
    dialogs =
        w.dialogs
        ++ ("<h3>👤 "
            <> to_html_escaped username
            <> "</h3><p><b>IP:</b> "
            <> to_html_escaped ip_address
            <> "</p><p><b>Estado:</b> "
            <> status_to_display status
            <> "</p>")
          ∷ [];
  }

  unfoldable pub on_connection_lost : String → Window q → Window q
  unfolding append_system_message
  on_connection_lost time w =
      record (append_system_message time
        "<span style='color:#f38ba8;'><b>❌ Conexión perdida con el servidor.</b></span>"
        (record w { status_label = "  🔴 Desconectado  " })) {
          input_enabled = false;
          send_enabled = false;
          status_enabled = false;
        }

  -- The connections of the constructor. `time` and `later` are the readings of the clock.
  unfoldable pub on_signal : String → String → Signal → Window q → Window q
  unfolding on_server_response on_all_users on_for_dm on_broadcast on_user_info on_connection_lost
  on_signal time later (server_response_received code message ok) w =
      on_server_response time code message ok w
  on_signal time later (all_users_received usernames statuses) w = on_all_users usernames statuses w
  on_signal time later (for_dm_received sender message) w = on_for_dm time later sender message w
  on_signal time later (broadcast_received origin message) w = on_broadcast time origin message w
  on_signal time later (user_info_received ip username status) w = on_user_info ip username status w
  on_signal time later connection_lost w = on_connection_lost time w
