-- ===== src/Client/Window/StartDm.antt =====
-- A direct message that begins with a double click on a user, in src/client/mainwindow.cpp.
use text.Mathlib.Text.{◌==◌ as str_eq}
use text.Mathlib.TextEquality.{eq_iff}
use simple_chat_protocol.Prelude.{
  ℕ, zero, suc, ◌<◌, String, true, false, ◌≡◌, ◌≢◌, refl, sym, ap, ◌∙◌, Option, none, some, List,
  [], ◌∷◌, ◌++◌, arith, length, map, get_elem?, is_empty, option_cases, if_cases, string_equality,
  Option-cases, Bool-cases, inl, inr,
}
use simple_chat_protocol.Prelude.Map.{find}
use simple_chat_protocol.Client.Qt.{Qt, Precedes, ComboBox}
use simple_chat_protocol.Client.Window.State.{Window, message_dm}
use simple_chat_protocol.Client.Window.Output.{
  status_to_display, get_or_create_dm_tab, show_tab, append_dm_chat,
}
use simple_chat_protocol.Client.Window.Actions.{
  is_current, is_general, set_mode, aim_at, start_dm, send_dm, on_send_clicked,
  on_user_double_clicked,
}
use simple_chat_protocol.Client.Window.Slots.{display_user}
use simple_chat_protocol.Client.Window.Statuses.{IsSound}
use simple_chat_protocol.Client.Window.Users.{targets}
use simple_chat_protocol.Server.Sorting.{User}

is_current-some : (i : ℕ) (o : Option ℕ) → is_current i o ≡ true → o ≡ some i
is_current-some i none e = cc
is_current-some i (some j) e = ground (arith, e)

module _ (b : ComboBox) where
  open b use {
    C, items, find_text, find_found, find_missing, current_text, set_current_index, text_within,
    current_set, items_set,
  }

  get-map :
      (l : List (String × ℕ)) (i : ℕ) (t : String)
      → get_elem? (map (λ e. e.0) l) i ≡ some t
      → (d : ℕ) × (get_elem? l i ≡ some (t, d)) × (i < length l)
  get-map [] i t e = cc
  get-map (x ∷ l) zero t e = (x.1, cc, omega arith)
  get-map (x ∷ l) (suc i) t e = let (d, here, le) = get-map l i t e in (d, here, omega (arith, le))

  map-get :
      (l : List (String × ℕ)) (i : ℕ) (t : String) (d : ℕ)
      → get_elem? l i ≡ some (t, d)
      → get_elem? (map (λ e. e.0) l) i ≡ some t
  map-get [] i t d e = cc
  map-get (x ∷ l) zero t d e = cc
  map-get (x ∷ l) (suc i) t d e = map-get l i t d e

  -- A text of the combo box is found, and it is the current text then.
  pub find_text_then :
      (c : C) (i d : ℕ) (t : String)
      → get_elem? (items c) i ≡ some (t, d)
      → (j : ℕ) × (find_text c t ≡ some j) × (current_text (set_current_index j c) ≡ t)
  find_text_then c i d t e = elim (Option-cases (find_text c t)) [
    | inl missing ↦ absurd (find_missing c t i missing (map-get (items c) i t d e))
    | inr (j, found) ↦
        let (d', here, le) = get-map (items c) j t (find_found c t j found) in
        (
          j,
          found,
          text_within (set_current_index j c) j (t, d') (current_set j c le)
              (ap (λ l. get_elem? l j) (items_set j c) ∙ here),
        )
  ]

targets-get :
    (own name : String) (st j : ℕ) (users : List User)
    → get_elem? users j ≡ some (name, st)
    → name ≢ own
    → (i : ℕ) × (get_elem? (targets own users) i ≡ some (name, 0))
targets-get own name st j [] here other = cc
targets-get own name st zero (u ∷ users) here other =
    if_cases (λ l. (i : ℕ) × (get_elem? l i ≡ some (name, 0))) (str_eq u.0 own) _ _
      (λ same. absurd (other (named ∙ (eq_iff u.0 own).0 same)))
      (λ _. (0, ap (λ n. some (n, 0)) (sym named)))
  where
    named : name ≡ u.0
    named = cc
targets-get own name st (suc j) (u ∷ users) here other =
    let (i, found) = targets-get own name st j users here other in
    if_cases (λ l. (i : ℕ) × (get_elem? l i ≡ some (name, 0))) (str_eq u.0 own) _ _
      (λ _. (i, found)) (λ _. (suc i, found))

module _ {q : Qt} where
  open q use {trimmed, section, section_front}
  open (q.combo_box) use {items, current_index, current_set, current_text}

  -- The window is ready to send the peer what is typed.
  pub record Aims (peer : String) (v w : Window q) : Type 0 where
    pub mode : current_index w.mode_combo ≡ some 1
    pub target : current_text w.dm_target_combo ≡ peer
    pub asked : w.requests ≡ v.requests
    pub status : w.current_status ≡ v.current_status
    pub own_ip : w.local_ip ≡ v.local_ip

  record Untouched (v w : Window q) : Type 0 where
    targets : w.dm_target_combo ≡ v.dm_target_combo
    asked : w.requests ≡ v.requests
    status : w.current_status ≡ v.current_status
    own_ip : w.local_ip ≡ v.local_ip

  set_mode-rest : (w : Window q) → Untouched w (set_mode 1 w)
  unfolding set_mode
  set_mode-rest w =
      let same : Untouched w w = record {
        targets = refl;
        asked = refl;
        status = refl;
        own_ip = refl;
      } in
      if_cases (Untouched w) (is_current 1 (current_index w.mode_combo)) _ _ (λ _. same)
        (λ _. record { targets = refl; asked = refl; status = refl; own_ip = refl })

  show_tab-Aims :
      (peer : String) (tab : ℕ) (v w : Window q) → Aims peer v w → Aims peer v (show_tab tab w)
  show_tab-Aims peer tab v w h =
      option_cases (Aims peer v) (q.tab_widget.index_of w.chat_tabs tab) _ _ (λ _. h)
        λ i _. record {
          mode = h.mode;
          target = h.target;
          asked = h.asked;
          status = h.status;
          own_ip = h.own_ip;
        }

  get_or_create_dm_tab-Aims :
      (peer user : String) (v w : Window q)
      → Aims peer v w
      → Aims peer v (get_or_create_dm_tab user w).1
  unfolding get_or_create_dm_tab
  get_or_create_dm_tab-Aims peer user v w h =
      option_cases (λ (r : ℕ × Window q). Aims peer v r.1) (find user w.dm_tabs) _ _
        (λ _. record {
          mode = h.mode;
          target = h.target;
          asked = h.asked;
          status = h.status;
          own_ip = h.own_ip;
        })
        (λ _ _. h)

  set_mode-mode :
      (w : Window q)
      → length (items w.mode_combo) ≡ 2
      → current_index (set_mode 1 w).mode_combo ≡ some 1
  unfolding set_mode
  set_mode-mode w two = elim (Bool-cases (is_current 1 (current_index w.mode_combo))) [
    | inl there ↦ rw (there) (is_current-some 1 (current_index w.mode_combo) there)
    | inr other ↦ rw (other) (current_set 1 w.mode_combo (omega (arith, two)))
  ]

  start_dm-Aims :
      (peer : String) (i d : ℕ) (w : Window q)
      → length (items w.mode_combo) ≡ 2
      → get_elem? (items w.dm_target_combo) i ≡ some (peer, d)
      → Aims peer w (start_dm peer w)
  unfolding start_dm
  start_dm-Aims peer i d w two here = show_tab-Aims peer _ w _ (
      get_or_create_dm_tab-Aims peer peer w (aim_at peer (set_mode 1 w))
        (aimed (set_mode 1 w) (set_mode-mode w two) (set_mode-rest w)))
    where
      open (q.combo_box) use {find_text}

      aimed :
          (v : Window q)
          → current_index v.mode_combo ≡ some 1
          → Untouched w v
          → Aims peer w (aim_at peer v)
      aimed v mode same =
          let (j, found, target) =
            find_text_then q.combo_box v.dm_target_combo i d peer
              (ap (λ c. get_elem? (items c) i) same.targets ∙ here) in
          rw (found, aim_at)
            record {
              mode = mode;
              target = target;
              asked = same.asked;
              status = same.status;
              own_ip = same.own_ip;
            }

  append_dm_chat-requests :
      (time peer msg : String) (w : Window q)
      → (append_dm_chat time peer msg false w).requests ≡ w.requests
  unfolding append_dm_chat get_or_create_dm_tab
  append_dm_chat-requests time peer msg w =
      option_cases (λ (r : ℕ × Window q). r.1.requests ≡ w.requests) (find peer w.dm_tabs) _ _
        (λ _. refl) (λ _ _. refl)

  abbrev pub type_in : String → Window q → Window q
  type_in text w = record w { message_input = text }

  type_in-Aims :
      (peer text : String) (v w : Window q) → Aims peer v w → Aims peer v (type_in text w)
  type_in-Aims peer text v w h = record {
    mode = h.mode;
    target = h.target;
    asked = h.asked;
    status = h.status;
    own_ip = h.own_ip;
  }

  -- A click on the button of a window that aims at a peer.
  pub on_send_clicked-Aims :
      (time peer : String) (v w : Window q)
      → Aims peer v w
      → is_empty peer ≡ false
      → is_empty (trimmed w.message_input) ≡ false
      → (on_send_clicked time w).requests
        ≡ w.requests ++ message_dm (trimmed w.message_input) w.current_status peer w.local_ip ∷ []
  unfolding on_send_clicked send_dm
  on_send_clicked-Aims time peer v w h named text =
      let dm : is_general w ≡ false = rw (h.mode, is_general) refl in
      let some_target : is_empty (current_text w.dm_target_combo) ≡ false =
        ap is_empty h.target ∙ named in
      rw (text, dm, some_target, on_send_clicked, send_dm)
        (append_dm_chat-requests time (current_text w.dm_target_combo) (trimmed w.message_input) _
          ∙ ap
              (λ t.
                w.requests
                ++ message_dm (trimmed w.message_input) w.current_status t w.local_ip ∷ [])
              h.target)

  -- Suppose that the combo box of addressees has the other users of the list, that the status and
  -- mode combo boxes have their entries and the statuses are valid, and that a user other than the
  -- own one, whose name is not empty, has no blank at an end and holds no two blanks in a row, is
  -- in the list. When the user double-clicks this entry, types a text that is not blank and clicks
  -- on the button, then exactly one request is made: that of a direct message to that user, with
  -- the text trimmed.
  pub on_user_double_clicked-reaches :
      (users : List User) (name text time : String) (st j : ℕ) (w : Window q)
      → items w.dm_target_combo ≡ targets w.username users
      → IsSound w
      → get_elem? users j ≡ some (name, st)
      → name ≢ w.username
      → is_empty name ≡ false
      → trimmed name ≡ name
      → Precedes name "  "
      → is_empty (trimmed text) ≡ false
      → let aimed = on_user_double_clicked (display_user name st) w in
        (on_send_clicked time (type_in text aimed)).requests
        ≡ w.requests ++ message_dm (trimmed text) w.current_status name w.local_ip ∷ []
  unfolding on_user_double_clicked
  on_user_double_clicked-reaches users name text time st j w combo sound here other named trim front
        said =
      let user : trimmed (section (display_user name st) "  ") ≡ name =
        ap trimmed (section_front name "  " (status_to_display st) front) ∙ trim in
      let foreign : str_eq name w.username ≡ false =
        ground (arith, eq_iff name w.username, other) in
      let (i, there) = targets-get w.username name st j users here other in
      let start : on_user_double_clicked (display_user name st) w ≡ start_dm name w =
        rw (user, named, foreign, on_user_double_clicked) refl in
      let aimed =
        start_dm-Aims name i 0 w (ap length sound.modes_entries)
          (ap (λ l. get_elem? l i) combo ∙ there) in
      ap (λ v. (on_send_clicked time (type_in text v)).requests) start
      ∙ on_send_clicked-Aims time name w (type_in text (start_dm name w))
          (type_in-Aims name text w (start_dm name w) aimed) named said
      ∙ ground (arith, aimed.asked, aimed.status, aimed.own_ip)
