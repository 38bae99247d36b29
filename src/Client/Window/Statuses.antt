-- ===== src/Client/Window/Statuses.antt =====
-- The status that the window of src/client/mainwindow.cpp shows and sends.
use simple_chat_protocol.Prelude.{
  ℕ, ◌≤◌, String, Bool, false, ◌≡◌, refl, ap, ◌∙◌, Option, none, some, List, [], ◌∷◌, ◌==◌, arith,
  All, All-append, get_elem?, is_empty, if_cases, option_cases, ◌||◌, leb, suc, zero,
  string_equality,
}
use text.Mathlib.Text.{◌==◌ as str_eq}
use simple_chat_protocol.Prelude.Map.{find}
use simple_chat_protocol.Protocol.Status.{StatusEnum, active, do_not_disturb, invisible}
use simple_chat_protocol.Client.Qt.{Qt, ComboBox}
use simple_chat_protocol.Client.Window.State.{
  Window, Request, message_general, message_dm, change_status, list_users, get_user_info, quit,
  new_window,
}
use simple_chat_protocol.Client.Window.Output.{append_dm_chat, get_or_create_dm_tab, show_tab}
use simple_chat_protocol.Client.Window.Actions.{
  request, is_general, send_dm, on_send_clicked, on_change_status, is_current, set_mode,
  select_status, start_dm, on_user_double_clicked, on_show_user_info, on_tab_close_requested,
}

-- The three entries of the status combo box.
abbrev pub status_items : List (String × ℕ)
status_items = ("🟢 ACTIVO", active) ∷ ("🔴 OCUPADO", do_not_disturb) ∷ ("⚫ INACTIVO", invisible) ∷ []

-- The two entries of the mode combo box.
abbrev pub mode_items : List (String × ℕ)
mode_items = ("General", 0) ∷ ("DM", 0) ∷ []

-- A request that the server does not refuse for its status.
abbrev pub IsValid : Request → Type 0
IsValid (message_general text status username ip) = status ≤ invisible
IsValid (message_dm text status target ip) = status ≤ invisible
IsValid (change_status status username ip) = status ≤ invisible
IsValid (list_users username ip) = Unit
IsValid (get_user_info target username ip) = Unit
IsValid (quit ip) = Unit

module _ (b : ComboBox) where
  open b use {C, items, item_data, data_within, data_outside, data_none}

  -- Whatever the index, the data of an entry is a status.
  pub item_data-le : (c : C) (o : Option ℕ) → items c ≡ status_items → item_data c o ≤ invisible
  item_data-le c none e = omega (arith, data_none c)
  item_data-le c (some zero) e = omega (arith, data_within c 0 _ (ap (λ l. get_elem? l 0) e))
  item_data-le c (some (suc zero)) e = omega (arith, data_within c 1 _ (ap (λ l. get_elem? l 1) e))
  item_data-le c (some (suc (suc zero))) e =
      omega (arith, data_within c 2 _ (ap (λ l. get_elem? l 2) e))
  item_data-le c (some (suc (suc (suc i)))) e =
      omega (arith, data_outside c _ (ap (λ l. get_elem? l (suc (suc (suc i)))) e))

  pub record Statuses (combo modes : C) (current : StatusEnum) (requests : List Request)
      : Type 0 where
    pub entries : items combo ≡ status_items
    pub modes_entries : items modes ≡ mode_items
    pub current_valid : current ≤ invisible
    pub requests_valid : All IsValid requests

-- The two combo boxes have their entries, and the current status and those of all requests are
-- among them.
abbrev pub IsSound : {q : Qt} → Window q → Type 0
IsSound {q} w = Statuses q.combo_box w.status_combo w.mode_combo w.current_status w.requests

pub new_window-IsSound :
    (q : Qt) (username : String) (fd : ℕ) (ip : String) → IsSound (new_window q username fd ip)
unfolding new_window
new_window-IsSound q username fd ip = record {
  entries = rw (items_add, items_add, items_add, items_new) refl;
  modes_entries = rw (items_add, items_add, items_new) refl;
  current_valid = omega arith;
  requests_valid = tt;
}
  where
    open (q.combo_box) use {items_new, items_add}

module _ {q : Qt} where
  open (q.combo_box) use {items_set, item_data}

  pub requested : (r : Request) (w : Window q) → IsValid r → IsSound w → IsSound (request r w)
  requested r w v h = record {
    entries = h.entries;
    modes_entries = h.modes_entries;
    current_valid = h.current_valid;
    requests_valid = All-append IsValid w.requests (r ∷ []) h.requests_valid (v, tt);
  }

  get_or_create_dm_tab-IsSound :
      (user : String) (w : Window q) → IsSound w → IsSound (get_or_create_dm_tab user w).1
  unfolding get_or_create_dm_tab
  get_or_create_dm_tab-IsSound user w h =
      option_cases (λ (r : ℕ × Window q). IsSound r.1) (find user w.dm_tabs) _ _ (λ _. h) (λ _ _. h)

  show_tab-IsSound : (tab : ℕ) (w : Window q) → IsSound w → IsSound (show_tab tab w)
  show_tab-IsSound tab w h =
      option_cases IsSound (q.tab_widget.index_of w.chat_tabs tab) _ _ (λ _. h) (λ _ _. h)

  pub append_dm_chat-IsSound :
      (time user msg : String) (incoming : Bool) (w : Window q)
      → IsSound w
      → IsSound (append_dm_chat time user msg incoming w)
  unfolding append_dm_chat
  append_dm_chat-IsSound time user msg incoming w h =
      let h' = get_or_create_dm_tab-IsSound user w h in
      if_cases IsSound incoming _ _ (λ _. show_tab-IsSound _ _ h') (λ _. h')

  send_dm-IsSound : (time text : String) (w : Window q) → IsSound w → IsSound (send_dm time text w)
  unfolding send_dm
  send_dm-IsSound time text w h =
      if_cases IsSound (is_empty (q.combo_box.current_text w.dm_target_combo)) _ _ (λ _. h)
        (λ _. append_dm_chat-IsSound time _ text false _ (requested _ w h.current_valid h))

  pub on_send_clicked-IsSound :
      (time : String) (w : Window q) → IsSound w → IsSound (on_send_clicked time w)
  unfolding on_send_clicked
  on_send_clicked-IsSound time w h =
      let w' : Window q = record w { message_input = "" } in
      if_cases IsSound (is_empty (q.trimmed w.message_input)) _ _ (λ _. h)
        λ _.
          if_cases IsSound (is_general w') _ _
            (λ _.
              requested
                (message_general (q.trimmed w.message_input) w.current_status w.username w.local_ip)
                w' h.current_valid h)
            (λ _. send_dm-IsSound time (q.trimmed w.message_input) w' h)

  on_change_status-IsSound :
      (o : Option ℕ) (w : Window q) → IsSound w → IsSound (on_change_status o w)
  unfolding on_change_status
  on_change_status-IsSound o w h =
      if_cases IsSound (item_data w.status_combo o == w.current_status) _ _ (λ _. h)
        (λ _. requested _ w (item_data-le q.combo_box w.status_combo o h.entries) h)

  pub select_status-IsSound : (i : ℕ) (w : Window q) → IsSound w → IsSound (select_status i w)
  unfolding select_status
  select_status-IsSound i w h =
      if_cases IsSound (is_current i (q.combo_box.current_index w.status_combo)) _ _ (λ _. h)
        (λ _. on_change_status-IsSound (some i) _ (record {
          entries = items_set i w.status_combo ∙ h.entries;
          modes_entries = h.modes_entries;
          current_valid = h.current_valid;
          requests_valid = h.requests_valid;
        }))

  pub set_mode-IsSound : (i : ℕ) (w : Window q) → IsSound w → IsSound (set_mode i w)
  unfolding set_mode
  set_mode-IsSound i w h =
      if_cases IsSound (is_current i (q.combo_box.current_index w.mode_combo)) _ _ (λ _. h)
        (λ _. record {
          entries = h.entries;
          modes_entries = items_set i w.mode_combo ∙ h.modes_entries;
          current_valid = h.current_valid;
          requests_valid = h.requests_valid;
        })

  start_dm-IsSound : (user : String) (w : Window q) → IsSound w → IsSound (start_dm user w)
  unfolding start_dm
  start_dm-IsSound user w h = show_tab-IsSound _ _ (
      get_or_create_dm_tab-IsSound user _ (
        option_cases IsSound (q.combo_box.find_text (set_mode 1 w).dm_target_combo user) _ _
          (λ _. set_mode-IsSound 1 w h) (λ _ _. set_mode-IsSound 1 w h)))

  pub on_user_double_clicked-IsSound :
      (text : String) (w : Window q) → IsSound w → IsSound (on_user_double_clicked text w)
  unfolding on_user_double_clicked
  on_user_double_clicked-IsSound text w h =
      let user = q.trimmed (q.section text "  ") in
      if_cases IsSound (is_empty user || str_eq user w.username) _ _ (λ _. h)
        (λ _. start_dm-IsSound user w h)

  pub on_show_user_info-IsSound :
      (o : Option String) (w : Window q) → IsSound w → IsSound (on_show_user_info o w)
  unfolding on_show_user_info
  on_show_user_info-IsSound none w h = h
  on_show_user_info-IsSound (some target) w h =
      if_cases IsSound (is_empty (q.trimmed target)) _ _ (λ _. h) (λ _. requested _ w tt h)

  pub on_tab_close_requested-IsSound :
      (i : ℕ) (w : Window q) → IsSound w → IsSound (on_tab_close_requested i w)
  unfolding on_tab_close_requested
  on_tab_close_requested-IsSound i w h = if_cases IsSound (leb i 1) _ _ (λ _. h) (λ _. h)
