-- ===== src/Client/Window/Events.antt =====
-- The window of src/client/mainwindow.cpp as a state machine: what the user does, and the signals
-- of the network thread, in any order.
use simple_chat_protocol.Prelude.{ℕ, String, Option, List, [], ◌∷◌}
use simple_chat_protocol.Client.Qt.{Qt}
use simple_chat_protocol.Client.Thread.{Signal}
use simple_chat_protocol.Client.Window.State.{Window}
use simple_chat_protocol.Client.Window.Actions.{
  on_send_clicked, on_refresh_users, select_status, set_mode, on_user_double_clicked,
  on_show_user_info, on_show_help, on_tab_close_requested, close_event,
}
use simple_chat_protocol.Client.Window.Slots.{on_signal}

-- The user types a text, chooses an addressee, a status or a mode by its index, clicks on a button,
-- doubly on an item of the list, or on the cross of a tab, and closes the window. The timer of the
-- constructor refreshes the users once more.
pub data Action : Type 0 where
  type_text : String → Action
  choose_target : ℕ → Action
  choose_status : ℕ → Action
  choose_mode : ℕ → Action
  send_clicked : String → Action
  refresh_users : Action
  double_clicked : String → Action
  show_user_info : Option String → Action
  show_help : Action
  close_tab : ℕ → Action
  signal : String → String → Signal → Action
  close_window : Action

module _ {q : Qt} where
  open (q.combo_box) use {set_current_index}

  unfoldable pub act : Action → Window q → Window q
  unfolding on_send_clicked on_refresh_users select_status set_mode on_user_double_clicked
      on_show_user_info on_show_help on_tab_close_requested close_event on_signal
  act (type_text text) w = record w { message_input = text }
  act (choose_target i) w = record w { dm_target_combo = set_current_index i w.dm_target_combo }
  act (choose_status i) w = select_status i w
  act (choose_mode i) w = set_mode i w
  act (send_clicked time) w = on_send_clicked time w
  act refresh_users w = on_refresh_users w
  act (double_clicked text) w = on_user_double_clicked text w
  act (show_user_info target) w = on_show_user_info target w
  act show_help w = on_show_help w
  act (close_tab i) w = on_tab_close_requested i w
  act (signal time later s) w = on_signal time later s w
  act close_window w = close_event w

  unfoldable pub session : List Action → Window q → Window q
  unfolding act
  session [] w = w
  session (a ∷ rest) w = session rest (act a w)
