-- ===== src/Client/Window/ClosedTab.antt =====
-- The closing of a tab in src/client/mainwindow.cpp, and the messages after it.
use simple_chat_protocol.Prelude.{
  ℕ, ◌≤◌, String, true, false, ◌≡◌, refl, ap, ◌∙◌, none, some, [], ◌∷◌, ◌++◌, ◌<>◌, leb, arith,
  get_elem?, erase_idx, option_cases, string_equality, nat_equality,
}
use mathlib.Core.List.{append_assoc}
use simple_chat_protocol.Prelude.Map.{Map, find, erase}
use simple_chat_protocol.Client.Qt.{Qt}
use simple_chat_protocol.Client.Window.State.{Window, system_log}
use simple_chat_protocol.Client.Window.Output.{
  get_or_create_dm_tab, append_dm_chat, append_system_message, said_by, stamped,
}
use simple_chat_protocol.Client.Window.Actions.{on_tab_close_requested}
use simple_chat_protocol.Client.Window.Slots.{on_for_dm}
use simple_chat_protocol.Client.Window.Pages.{find-erase_idx_at}
use simple_chat_protocol.Client.Window.TabSafety.{HasTabs}

-- A key that is not there takes nothing out.
erase_missing : (k : String) (m : Map String ℕ) → find k m ≡ none → erase k m ≡ m
unfolding find erase
erase_missing k [] h = refl
erase_missing k ((j, v) ∷ m) h = ground (arith, h, erase_missing k m)

-- What the system log shows of a direct message.
abbrev pub notice : Qt → String → String → ℕ × String
notice q later peer = (
  system_log,
  stamped later
      ("<span style='color:#cba6f7;'>📩 DM recibido de " <> q.to_html_escaped peer <> "</span>"),
)

module _ {q : Qt} where
  open (q.tab_widget) use {pages, pages_remove, pages_set, text_of}

  -- With a page for the peer, an incoming message is appended there, and no tab is added or
  -- removed.
  append_dm_chat-known :
      (time peer msg : String) (page : ℕ) (w : Window q)
      → find peer w.dm_tabs ≡ some page
      → let w' = append_dm_chat time peer msg true w in
        (pages w'.chat_tabs ≡ pages w.chat_tabs)
        × (w'.appended ≡ w.appended ++ (page, stamped time (said_by q "#f38ba8" peer msg)) ∷ [])
  unfolding append_dm_chat get_or_create_dm_tab
  append_dm_chat-known time peer msg page w e =
      rw (e, append_dm_chat, get_or_create_dm_tab)
        (option_cases
          (λ (x : Window q).
            (pages x.chat_tabs ≡ pages w.chat_tabs)
            × (x.appended ≡ w.appended ++ (page, stamped time (said_by q "#f38ba8" peer msg)) ∷ []))
          (q.tab_widget.index_of w.chat_tabs page) _ _ (λ _. (refl, refl))
          (λ i _. (pages_set i w.chat_tabs, refl)))

  -- Suppose that the window has its tabs in order, that the tab i, behind the first two, is that of
  -- a peer, and that no user is called as its label reads. When the user closes the tab and the
  -- peer sends another message, then the message is appended to the page of the closed tab, which
  -- is no page of the tabs, and the tabs are those that were left: none is opened for it.
  pub on_tab_close_requested-lost :
      (i page : ℕ) (time later peer message : String) (w : Window q)
      → HasTabs w
      → 2 ≤ i
      → get_elem? (pages w.chat_tabs) i ≡ some (page, "📩 " <> peer)
      → find peer w.dm_tabs ≡ some page
      → find ("📩 " <> peer) w.dm_tabs ≡ none
      → let last = on_for_dm time later peer message (on_tab_close_requested i w) in
        (pages last.chat_tabs ≡ erase_idx (pages w.chat_tabs) i)
        × (find page (pages last.chat_tabs) ≡ none)
        × (last.appended
            ≡ w.appended
              ++ (page, stamped time (said_by q "#f38ba8" peer message)) ∷ notice q later peer ∷ [])
  unfolding on_tab_close_requested on_for_dm append_system_message
  on_tab_close_requested-lost i page time later peer message w h le here known free =
      let closing : leb i 1 ≡ false = ground (arith, le) in
      let same : erase (q.tab_widget.tab_text w.chat_tabs i) w.dm_tabs ≡ w.dm_tabs =
        ap (λ l. erase l w.dm_tabs) (text_of w.chat_tabs i (page, "📩 " <> peer) here)
        ∙ erase_missing ("📩 " <> peer) w.dm_tabs free in
      let closed = on_tab_close_requested i w in
      let still : find peer closed.dm_tabs ≡ some page = rw (closing, same) known in
      let (tabs, text) = append_dm_chat-known time peer message page closed still in
      let left : pages closed.chat_tabs ≡ erase_idx (pages w.chat_tabs) i =
        rw (closing) (pages_remove i w.chat_tabs) in
      let said : closed.appended ≡ w.appended = rw (closing) refl in
      (
        tabs ∙ left,
        ap (find page) (tabs ∙ left)
            ∙ find-erase_idx_at i page ("📩 " <> peer) (pages w.chat_tabs) h.pages_distinct here,
        ap (λ l. l ++ notice q later peer ∷ [])
              (text
                ∙ ap (λ l. l ++ (page, stamped time (said_by q "#f38ba8" peer message)) ∷ []) said)
            ∙ append_assoc w.appended _ _,
      )
