-- ===== src/Client/Window/Actions.antt =====
-- The slots of src/client/mainwindow.cpp for what the user does.
use simple_chat_protocol.Prelude.{
  ℕ, String, Bool, false, ◌||◌, Option, none, some, [], ◌∷◌, ◌++◌, ◌==◌, ◌<>◌, leb, is_empty,
  if◌then◌else◌, string_equality,
}
use text.Mathlib.Text.{◌==◌ as str_eq}
use simple_chat_protocol.Prelude.Map.{erase}
use simple_chat_protocol.Client.Qt.{Qt}
use simple_chat_protocol.Client.Window.State.{
  Window, Request, message_general, message_dm, change_status, list_users, get_user_info, quit,
}
use simple_chat_protocol.Client.Window.Output.{
  append_system_message, append_dm_chat, get_or_create_dm_tab, show_tab,
}

-- A combo box tells its slot of a new index only if it is another one.
abbrev pub is_current : ℕ → Option ℕ → Bool
is_current i none = false
is_current i (some j) = i == j

-- The text of `onShowHelp`.
abbrev pub help_text : String
help_text =
    "<h3>Chat Client - Ayuda</h3>"
    <> "<p><b>Chat General:</b> Selecciona modo 'General' y escribe tu mensaje.</p>"
    <> "<p><b>Mensaje Directo:</b> Selecciona modo 'DM', elige el destinatario y envía.</p>"
    <> "<p><b>Doble clic</b> en un usuario de la lista para iniciar DM.</p>"
    <> "<p><b>Cambiar Estado:</b> Usa el selector en la barra superior.</p>" <> "<ul>"
    <> "<li>🟢 ACTIVO - Disponible</li>" <> "<li>🔴 OCUPADO - No molestar</li>"
    <> "<li>⚫ INACTIVO - Invisible/ausente</li>" <> "</ul>"
    <> "<p><b>🔄 Usuarios:</b> Actualizar lista de usuarios conectados.</p>"
    <> "<p><b>ℹ\u{fe0f} Info Usuario:</b> Ver IP, estado y nombre de un usuario.</p>"
    <> "<p><b>Cerrar ventana:</b> Se desconecta del servidor.</p>" <> "<hr>"
    <> "<p><i>Protocolo: TCP + Protocol Buffers + framing 5 bytes</i></p>"

module _ {q : Qt} where
  open q use {trimmed, section}
  open (q.combo_box) use {current_index, set_current_index, item_data, find_text, current_text}
  open (q.tab_widget) use {tab_text, remove_tab}

  -- A call of a function of net_sender_.
  abbrev pub request : Request → Window q → Window q
  request r w = record w { requests = w.requests ++ r ∷ [] }

  -- modeCombo_->currentIndex() == 0
  abbrev pub is_general : Window q → Bool
  is_general w = elim (current_index w.mode_combo) [ none ↦ false | some i ↦ i == 0 ]

  -- The part of `onSendClicked` in DM mode.
  unfoldable pub send_dm : String → String → Window q → Window q
  unfolding append_system_message append_dm_chat
  send_dm time text w =
      let target = current_text w.dm_target_combo in
      if is_empty target
      then append_system_message time
          "<span style='color:#fab387;'>⚠ Selecciona un destinatario para DM.</span>" w
      else append_dm_chat time target text false
          (request (message_dm text w.current_status target w.local_ip) w)

  unfoldable pub on_send_clicked : String → Window q → Window q
  unfolding send_dm
  on_send_clicked time w =
      let text = trimmed w.message_input in
      let w' = record w { message_input = "" } in
      if is_empty text
      then w
      else if is_general w'
      then request (message_general text w'.current_status w'.username w'.local_ip) w'
      else send_dm time text w'

  unfoldable pub on_refresh_users : Window q → Window q
  on_refresh_users w = request (list_users w.username w.local_ip) w

  unfoldable pub on_change_status : Option ℕ → Window q → Window q
  on_change_status index w =
      let new_status = item_data w.status_combo index in
      if new_status == w.current_status
      then w
      else request (change_status new_status w.username w.local_ip) w

  unfoldable pub on_mode_changed : ℕ → Window q → Window q
  on_mode_changed index w = record w {
    dm_target_visible = index == 1;
    placeholder = if index == 0 then "Escribe un mensaje..." else "Mensaje directo...";
  }

  -- modeCombo_->setCurrentIndex(i), with its connection to `onModeChanged`, also by the user
  unfoldable pub set_mode : ℕ → Window q → Window q
  unfolding on_mode_changed
  set_mode i w =
      if is_current i (current_index w.mode_combo)
      then w
      else on_mode_changed i (record w { mode_combo = set_current_index i w.mode_combo })

  -- The user takes another entry of statusCombo_, which is connected to `onChangeStatus`.
  unfoldable pub select_status : ℕ → Window q → Window q
  unfolding on_change_status
  select_status i w =
      if is_current i (current_index w.status_combo)
      then w
      else on_change_status (some i)
          (record w { status_combo = set_current_index i w.status_combo })

  -- dmTargetCombo_->setCurrentIndex(dmTargetCombo_->findText(user)), if it is there
  abbrev pub aim_at : String → Window q → Window q
  aim_at user w = elim (find_text w.dm_target_combo user) [
    | none ↦ w
    | some idx ↦ record w { dm_target_combo = set_current_index idx w.dm_target_combo }
  ]

  -- The part of `onUserDoubleClicked` behind its guard.
  unfoldable pub start_dm : String → Window q → Window q
  unfolding set_mode get_or_create_dm_tab
  start_dm user w =
      let r = get_or_create_dm_tab user (aim_at user (set_mode 1 w)) in show_tab r.0 r.1

  -- `text` is the text of the item.
  unfoldable pub on_user_double_clicked : String → Window q → Window q
  unfolding start_dm
  on_user_double_clicked text w =
      let user = trimmed (section text "  ") in
      if is_empty user || str_eq user w.username then w else start_dm user w

  -- `none` if the dialog is cancelled, else the text that is entered.
  unfoldable pub on_show_user_info : Option String → Window q → Window q
  on_show_user_info none w = w
  on_show_user_info (some target) w =
      if is_empty (trimmed target)
      then w
      else request (get_user_info (trimmed target) w.username w.local_ip) w

  -- The function that is connected to `tabCloseRequested`.
  unfoldable pub on_tab_close_requested : ℕ → Window q → Window q
  on_tab_close_requested index w = if leb index 1 then w else record w {
    dm_tabs = erase (tab_text w.chat_tabs index) w.dm_tabs;
    chat_tabs = remove_tab index w.chat_tabs;
  }

  unfoldable pub on_show_help : Window q → Window q
  on_show_help w = record w { dialogs = w.dialogs ++ help_text ∷ [] }

  -- `stopThread` clears `running_`; the thread has ended after `wait`, or goes on reading a socket
  -- that is shut down.
  unfoldable pub close_event : Window q → Window q
  close_event w =
      let w' = request (quit w.local_ip) w in
      record w' { thread_running = false; closed = w'.closed ++ w'.socket_fd ∷ [] }
