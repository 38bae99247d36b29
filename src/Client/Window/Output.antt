-- ===== src/Client/Window/Output.antt =====
-- The helpers of src/client/mainwindow.cpp that show something. `time` is the text of the current
-- time that the helper reads.
use simple_chat_protocol.Prelude.{
  ℕ, String, Bool, none, some, [], ◌∷◌, ◌++◌, ◌+◌, ◌<>◌, ◌==◌, if◌then◌else◌, string_equality,
}
use text.Mathlib.Text.{◌==◌ as str_eq}
use simple_chat_protocol.Prelude.Map.{find, insert}
use simple_chat_protocol.Protocol.Status.{active, do_not_disturb, invisible}
use simple_chat_protocol.Client.Qt.{Qt}
use simple_chat_protocol.Client.Window.State.{Window, general_chat, system_log}

unfoldable pub status_to_display : ℕ → String
status_to_display status =
    if status == active
    then "🟢 ACTIVO"
    else if status == do_not_disturb
    then "🔴 OCUPADO"
    else if status == invisible
    then "⚫ INACTIVO"
    else "❓ DESCONOCIDO"

abbrev pub stamped : String → String → String
stamped time html = "<span style='color:#a6adc8;'>[" <> time <> "]</span> " <> html

abbrev pub said_by : Qt → String → String → String → String
said_by q color user msg =
    "<b style='color:"
    <> color
    <> ";'>"
    <> q.to_html_escaped user
    <> ":</b> "
    <> q.to_html_escaped msg

module _ {q : Qt} where
  open (q.tab_widget) use {index_of, add_tab, set_current_tab}

  -- A call of `append` on a QTextEdit.
  abbrev pub append : ℕ → String → Window q → Window q
  append page html w = record w { appended = w.appended ++ (page, html) ∷ [] }

  unfoldable pub append_system_message : String → String → Window q → Window q
  append_system_message time msg w = append system_log (stamped time msg) w

  unfoldable pub append_general_chat : String → String → String → Window q → Window q
  append_general_chat time user msg w =
      let color = if str_eq user w.username then "#89b4fa" else "#f38ba8" in
      append general_chat (stamped time (said_by q color user msg)) w

  -- The tab, and the window with it.
  unfoldable pub get_or_create_dm_tab : String → Window q → ℕ × Window q
  get_or_create_dm_tab peer_user w = elim (find peer_user w.dm_tabs) [
    | some tab ↦ (tab, w)
    | none ↦
        let tab = w.next_page in
        (
          tab,
          record w {
            next_page = tab + 1;
            chat_tabs = add_tab tab ("📩 " <> peer_user) w.chat_tabs;
            dm_tabs = insert peer_user tab w.dm_tabs;
          },
        )
  ]

  -- chatTabs_->setCurrentIndex(chatTabs_->indexOf(tab)), if the tab is there
  abbrev pub show_tab : ℕ → Window q → Window q
  show_tab tab w = elim (index_of w.chat_tabs tab) [
    | none ↦ w
    | some idx ↦ record w { chat_tabs = set_current_tab idx w.chat_tabs }
  ]

  unfoldable pub append_dm_chat : String → String → String → Bool → Window q → Window q
  unfolding get_or_create_dm_tab
  append_dm_chat time peer_user msg incoming w =
      let r = get_or_create_dm_tab peer_user w in
      let label = if incoming then peer_user else r.1.username in
      let color = if incoming then "#f38ba8" else "#89b4fa" in
      let w' = append r.0 (stamped time (said_by q color label msg)) r.1 in
      if incoming then show_tab r.0 w' else w'
