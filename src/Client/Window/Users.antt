-- ===== src/Client/Window/Users.antt =====
-- The user list of src/client/mainwindow.cpp, and where it comes from.
use mathlib.Core.List.{Perm, append-nil, append_assoc}
use text.Mathlib.Text.{◌==◌ as str_eq}
use simple_chat_protocol.Prelude.{
  ℕ, String, ◌≡◌, refl, sym, ap, ◌∙◌, some, List, [], ◌∷◌, ◌++◌, map, if◌then◌else◌, if_cases,
  nat_equality, arith,
}
use simple_chat_protocol.Prelude.Map.{find}
use simple_chat_protocol.Messages.{World, ListUsers}
use simple_chat_protocol.Server.State.{SessionInfo, Server}
use simple_chat_protocol.Server.Sorting.{User}
use simple_chat_protocol.Server.Handlers.{user_of, handle_list_users}
use simple_chat_protocol.Server.Registry.{IsConsistent}
use simple_chat_protocol.Server.Listing.{IsSorted, listing, handle_list_users-sent}
use simple_chat_protocol.Client.Qt.{Qt}
use simple_chat_protocol.Client.Signals.{signal_of}
use simple_chat_protocol.Client.Window.State.{Window}
use simple_chat_protocol.Client.Window.Slots.{display_user, add_users, on_all_users, on_signal}

-- The entries of the others in the combo box of addressees.
abbrev pub targets : String → List User → List (String × ℕ)
targets own [] = []
targets own (u ∷ users) = if str_eq u.0 own then targets own users else (u.0, 0) ∷ targets own users

abbrev pub displays : List User → List String
displays = map (λ u. display_user u.0 u.1)

module _ {q : Qt} where
  open (q.combo_box) use {items, items_add, items_clear}

  -- The window shows the users, and all but its own can be addressed.
  pub record Shows (users : List User) (v w : Window q) : Type 0 where
    pub listed : w.user_list ≡ displays users
    pub addressed : items w.dm_target_combo ≡ targets v.username users
    pub asked : w.requests ≡ v.requests

  record Adds (users : List User) (v w : Window q) : Type 0 where
    listed : w.user_list ≡ v.user_list ++ displays users
    addressed : items w.dm_target_combo ≡ items v.dm_target_combo ++ targets v.username users
    asked : w.requests ≡ v.requests

  add_users-Adds :
      (users : List User) (v : Window q)
      → Adds users v (add_users (map (λ u. u.0) users) (map (λ u. u.1) users) v)
  unfolding add_users
  add_users-Adds [] v = record {
    listed = sym (append-nil v.user_list);
    addressed = sym (append-nil (items v.dm_target_combo));
    asked = refl;
  }
  add_users-Adds (u ∷ users) v =
      let w : Window q = record v { user_list = v.user_list ++ display_user u.0 u.1 ∷ [] } in
      if_cases
        (λ (x : Window q).
          Adds (u ∷ users) v (add_users (map (λ u. u.0) users) (map (λ u. u.1) users) x))
        (str_eq u.0 v.username) w _
        (λ own.
          let rest = add_users-Adds users w in
          record {
            listed = rest.listed ∙ append_assoc v.user_list _ _;
            addressed = rest.addressed ∙ ground (arith, own);
            asked = rest.asked;
          })
        (λ other.
          let rest =
            add_users-Adds users
              (record w { dm_target_combo = q.combo_box.add_item u.0 0 w.dm_target_combo }) in
          record {
            listed = rest.listed ∙ append_assoc v.user_list _ _;
            addressed =
                rest.addressed
                ∙ ap (λ l. l ++ targets v.username users) (items_add u.0 0 v.dm_target_combo)
                ∙ append_assoc (items v.dm_target_combo) _ _
                ∙ ground (arith, other);
            asked = rest.asked;
          })

  on_all_users-Shows :
      (users : List User) (v : Window q)
      → Shows users v (on_all_users (map (λ u. u.0) users) (map (λ u. u.1) users) v)
  unfolding on_all_users
  on_all_users-Shows users v =
      let all =
        add_users-Adds users
          (record v { user_list = []; dm_target_combo = q.combo_box.clear v.dm_target_combo }) in
      record {
        listed = all.listed;
        addressed =
            all.addressed ∙ ap (λ l. l ++ targets v.username users) (items_clear v.dm_target_combo);
        asked = all.asked;
      }

  -- When a registered user asks a server with a consistent registry for the users, with a
  -- message that parses, then what the window makes of the answer is the list of all
  -- sessions, each once, with name and status, in alphabetical order; every user but the
  -- window's own can be addressed, and nobody else, whatever the window showed before.
  pub handle_list_users-Shows :
      (w : World) (now fd : ℕ) (payload : List ℕ) (lu : ListUsers) (i : SessionInfo) (s : Server)
      (time later : String) (v : Window q)
      → IsConsistent s
      → find fd s.sessions ≡ some i
      → w.list_users.parse_from_string payload ≡ some lu
      → (users : List User) × Perm (map user_of s.sessions) users
        × IsSorted users
        × ((handle_list_users w now fd payload s).sent ≡ s.sent ++ listing fd users ∷ [])
        × Shows users v (on_signal time later (signal_of (listing fd users).proto) v)
  unfolding on_signal
  handle_list_users-Shows w now fd payload lu i s time later v h found parse =
      let (users, same, sorted, sent) =
        handle_list_users-sent w now fd payload lu i s h found parse in
      (users, same, sorted, sent, on_all_users-Shows users v)
