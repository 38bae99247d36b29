-- ===== src/Client/Window/Agreement.antt =====
-- Whether the status that the window of src/client/mainwindow.cpp shows is the one that the server
-- has.
use simple_chat_protocol.Prelude.{
  ℕ, zero, suc, ◌≤◌, String, Bool, true, false, ◌≡◌, ◌≢◌, refl, ap, ◌∙◌, some, List, [], ◌∷◌, ◌++◌,
  arith, length, get_elem?, ◌<>◌, nat_equality,
}
use simple_chat_protocol.Prelude.Map.{find}
use simple_chat_protocol.Protocol.Status.{invisible, status_to_display}
use simple_chat_protocol.Protocol.StatusCode
use simple_chat_protocol.Messages.{World, ChangeStatus}
use simple_chat_protocol.Server.State.{SessionInfo, Server}
use simple_chat_protocol.Server.Handlers.{handle_change_status}
use simple_chat_protocol.Server.Registry.{IsConsistent}
use simple_chat_protocol.Server.Profiles.{with_status, handle_change_status-ChangesStatus}
use simple_chat_protocol.Server.Registration.{answer}
use simple_chat_protocol.Client.Qt.{Qt, ComboBox}
use simple_chat_protocol.Client.Signals.{signal_of}
use simple_chat_protocol.Client.Window.State.{Window, change_status}
use simple_chat_protocol.Client.Window.Actions.{is_current, on_change_status, select_status}
use simple_chat_protocol.Client.Window.Slots.{follow_code, on_server_response, on_signal}
use simple_chat_protocol.Client.Window.Statuses.{IsSound, status_items}

module _ (b : ComboBox) where
  open b use {
    C, items, current_index, set_current_index, item_data, data_within, items_set, current_set,
  }

  -- Each entry has its own index as the status.
  status_at : (c : C) (i : ℕ) → items c ≡ status_items → i ≤ invisible → item_data c (some i) ≡ i
  status_at c zero e h = data_within c 0 _ (ap (λ l. get_elem? l 0) e)
  status_at c (suc zero) e h = data_within c 1 _ (ap (λ l. get_elem? l 1) e)
  status_at c (suc (suc zero)) e h = data_within c 2 _ (ap (λ l. get_elem? l 2) e)
  status_at c (suc (suc (suc i))) e h = absurd (omega arith)

  set_then_current :
      (c : C) (i : ℕ)
      → items c ≡ status_items
      → i ≤ invisible
      → current_index (set_current_index i c) ≡ some i
  set_then_current c i e h = current_set i c (omega (arith, ap length e, h))

  set_then_data :
      (c : C) (i : ℕ)
      → items c ≡ status_items
      → i ≤ invisible
      → item_data (set_current_index i c) (current_index (set_current_index i c)) ≡ i
  set_then_data c i e h =
      ap (item_data (set_current_index i c)) (set_then_current c i e h)
      ∙ status_at (set_current_index i c) i (items_set i c ∙ e) h

module _ {q : Qt} where
  open (q.combo_box) use {items, current_index, set_current_index, item_data}

  -- The window after the user has taken another entry than the current one, which is not its
  -- status.
  select_status_lem :
      (i : ℕ) (v : Window q)
      → IsSound v
      → i ≤ invisible
      → is_current i (current_index v.status_combo) ≡ false
      → i ≢ v.current_status
      → select_status i v ≡ record v {
        status_combo = set_current_index i v.status_combo;
        requests = v.requests ++ change_status i v.username v.local_ip ∷ [];
      }
  unfolding select_status on_change_status
  select_status_lem i v h le other new =
      let chosen : item_data (set_current_index i v.status_combo) (some i) ≡ i =
        status_at q.combo_box _ i (q.combo_box.items_set i v.status_combo ∙ h.entries) le in
      rw (other, chosen) (ground (arith, new))

  confirmed_status :
      (time message : String) (ok : Bool) (v : Window q)
      → (on_server_response time StatusCode.ok_status_changed message ok v).current_status
        ≡ item_data v.status_combo (current_index v.status_combo)
  unfolding on_server_response follow_code
  confirmed_status time message ok v = refl

  -- Suppose that the two combo boxes of the window have their entries and its statuses are
  -- valid, and that the user takes the entry i of the status combo box, one of the three,
  -- which is neither the current one nor the status of the window. Then the window asks for
  -- the status i; when the server, with a consistent registry, handles a message of a
  -- registered user that parses to this status, the session has the status i; and the answer
  -- that it sends, if it is the next thing that the window is told, makes it the status of
  -- the window.
  pub select_status-agrees :
      (w : World) (now fd i : ℕ) (payload : List ℕ) (cs : ChangeStatus) (session : SessionInfo)
      (s : Server) (time later : String) (v : Window q)
      → IsConsistent s
      → find fd s.sessions ≡ some session
      → w.change_status.parse_from_string payload ≡ some cs
      → cs.status ≡ i
      → IsSound v
      → i ≤ invisible
      → is_current i (current_index v.status_combo) ≡ false
      → i ≢ v.current_status
      → let reply =
          answer fd StatusCode.ok_status_changed
            ("Status changed to " <> status_to_display cs.status)
            true in
        ((select_status i v).requests ≡ v.requests ++ change_status i v.username v.local_ip ∷ [])
        × (find fd (handle_change_status w now fd payload s).sessions
            ≡ some (with_status now i session))
        × ((handle_change_status w now fd payload s).sent ≡ s.sent ++ reply ∷ [])
        × ((on_signal time later (signal_of reply.proto) (select_status i v)).current_status ≡ i)
  unfolding on_signal
  select_status-agrees w now fd i payload cs session s time later v h found parse same sound le
        other new =
      let (after, _, sent) =
        handle_change_status-ChangesStatus w now fd payload cs session s h found parse
          (omega (arith, same)) in
      let shown = select_status_lem i v sound le other new in
      (
        ap (λ (x : Window q). x.requests) shown,
        after fd ∙ ground (arith, same),
        sent,
        confirmed_status time ("Status changed to " <> status_to_display cs.status) true
              (select_status i v)
            ∙ ap (λ (x : Window q). item_data x.status_combo (current_index x.status_combo)) shown
            ∙ set_then_data q.combo_box v.status_combo i sound.entries le,
      )

  -- Suppose that the two combo boxes of the window have their entries and its statuses are
  -- valid, and that the user takes the entry i of the status combo box, one of the three,
  -- which is neither the current one nor the status of the window. Then the window asks for
  -- the status i, but if the notice of inactivity arrives first and then the confirmation, it
  -- ends with the status INVISIBLE, whatever i is.
  pub select_status-overtaken :
      (i : ℕ) (time time' notice message : String) (ok ok' : Bool) (v : Window q)
      → IsSound v
      → i ≤ invisible
      → is_current i (current_index v.status_combo) ≡ false
      → i ≢ v.current_status
      → let told = on_server_response time StatusCode.auto_inactive notice ok (select_status i v) in
        let last = on_server_response time' StatusCode.ok_status_changed message ok' told in
        ((select_status i v).requests ≡ v.requests ++ change_status i v.username v.local_ip ∷ [])
        × (last.current_status ≡ invisible)
  unfolding on_server_response follow_code
  select_status-overtaken i time time' notice message ok ok' v sound le other new =
      let shown = select_status_lem i v sound le other new in
      (
        ap (λ (x : Window q). x.requests) shown,
        ap
              (λ (x : Window q).
                item_data (set_current_index 2 x.status_combo)
                  (current_index (set_current_index 2 x.status_combo)))
              shown
            ∙ set_then_data q.combo_box (set_current_index i v.status_combo) 2
                (q.combo_box.items_set i v.status_combo ∙ sound.entries) (omega arith),
      )
