-- ===== src/Client/Window/State.antt =====
-- The members of `MainWindow` in src/client/mainwindow.h, and its constructor.
use simple_chat_protocol.Prelude.{ℕ, String, Bool, true, false, List, [], string_equality}
use simple_chat_protocol.Prelude.Map.{Map}
use simple_chat_protocol.Protocol.Status.{StatusEnum, active, do_not_disturb, invisible}
use simple_chat_protocol.Client.Qt.{Qt}

-- One call of a function of `NetworkSender`, whose result the window ignores.
pub data Request : Type 0 where
  message_general : String → StatusEnum → String → String → Request
  message_dm : String → StatusEnum → String → String → Request
  change_status : StatusEnum → String → String → Request
  list_users : String → String → Request
  get_user_info : String → String → String → Request
  quit : String → Request

-- A property of a widget that the code only sets and reads, such as a text or whether it is
-- enabled, is a field. `new` gives a QTextEdit the number `next_page`. `appended` lists the calls
-- of `append`, with the page, `dialogs` the texts of the dialogs, and `requests` the calls of
-- `net_sender_`, each the oldest first. `closed` has the sockets that were closed.
pub record Window (q : Qt) : Type 0 where
  pub username : String
  pub local_ip : String
  pub current_status : StatusEnum
  pub socket_fd : ℕ
  pub status_combo : q.combo_box.C
  pub mode_combo : q.combo_box.C
  pub dm_target_combo : q.combo_box.C
  pub chat_tabs : q.tab_widget.T
  pub dm_tabs : Map String ℕ
  pub user_list : List String
  pub message_input : String
  pub placeholder : String
  pub dm_target_visible : Bool
  pub input_enabled : Bool
  pub send_enabled : Bool
  pub status_enabled : Bool
  pub status_label : String
  pub next_page : ℕ
  pub appended : List (ℕ × String)
  pub dialogs : List String
  pub requests : List Request
  pub thread_running : Bool
  pub closed : List ℕ

-- generalChat_ and systemLog_
abbrev pub general_chat : ℕ
general_chat = 0

abbrev pub system_log : ℕ
system_log = 1

module _ (q : Qt) where
  open (q.combo_box) use {C, new_combo, add_item}
  open (q.tab_widget) use {T, new_tabs, add_tab}

  abbrev pub setup_status_combo : C
  setup_status_combo =
      add_item "⚫ INACTIVO" invisible
        (add_item "🔴 OCUPADO" do_not_disturb (add_item "🟢 ACTIVO" active new_combo))

  abbrev pub setup_mode_combo : C
  setup_mode_combo = add_item "DM" 0 (add_item "General" 0 new_combo)

  abbrev pub setup_chat_tabs : T
  setup_chat_tabs =
      add_tab system_log "🖥\u{fe0f} Sistema" (add_tab general_chat "💬 General" new_tabs)

  unfoldable pub new_window : String → ℕ → String → Window q
  new_window username socket_fd local_ip = record {
    username = username;
    local_ip = local_ip;
    current_status = active;
    socket_fd = socket_fd;
    status_combo = setup_status_combo;
    mode_combo = setup_mode_combo;
    dm_target_combo = new_combo;
    chat_tabs = setup_chat_tabs;
    dm_tabs = [];
    user_list = [];
    message_input = "";
    placeholder = "Escribe un mensaje...";
    dm_target_visible = false;
    input_enabled = true;
    send_enabled = true;
    status_enabled = true;
    status_label = "  🟢 Conectado  ";
    next_page = 2;
    appended = [];
    dialogs = [];
    requests = [];
    thread_running = true;
    closed = [];
  }
