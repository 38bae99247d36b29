-- ===== src/Client/Window/Tests.antt =====
-- A window with simple widgets, and the theorems on it.
mod Section
pub mod Widgets
use mathlib.Core.List.{Perm}
use simple_chat_protocol.Prelude.{
  ℕ, zero, suc, ◌≤◌, ◌<◌, String, Bool, true, false, ◌≡◌, ◌≢◌, refl, sym, ap, ◌∙◌, Option, none,
  some, List, [], ◌∷◌, ◌++◌, ◌<>◌, ◌==◌, arith, map, length, get_elem?, erase_idx, if◌then◌else◌,
  nat_equality, string_equality, eq_iff,
}
use Prim.Native.Char.{char, code}
use simple_chat_protocol.Prelude.Map.{find, insert}
use simple_chat_protocol.Protocol.Status.{invisible, status_to_display}
use simple_chat_protocol.Protocol.StatusCode
use simple_chat_protocol.Server.Handlers.{user_of, handle_list_users, handle_change_status}
use simple_chat_protocol.Server.Sorting.{User}
use simple_chat_protocol.Server.Listing.{IsSorted, listing}
use simple_chat_protocol.Server.Profiles.{with_status}
use simple_chat_protocol.Server.Registration.{answer}
use simple_chat_protocol.Server.Tests.{toy, changing, lobby, ana, lobby-IsConsistent, found_ana}
use simple_chat_protocol.Client.Thread.{
  for_dm_received, server_response_received, all_users_received,
}
use simple_chat_protocol.Client.Signals.{signal_of}
use simple_chat_protocol.Client.Window.State.{
  Window, change_status, message_dm, new_window, system_log,
}
use simple_chat_protocol.Client.Window.Output.{
  stamped, said_by, append_dm_chat, get_or_create_dm_tab, append_system_message,
}
use simple_chat_protocol.Client.Window.Actions.{
  select_status, on_tab_close_requested, on_user_double_clicked, on_send_clicked,
}
use simple_chat_protocol.Client.Window.Slots.{
  on_server_response, on_for_dm, on_signal, display_user, on_all_users, add_users,
}
use simple_chat_protocol.Client.Window.Events.{
  Action, type_text, choose_status, send_clicked, signal, close_tab, act, session,
}
use simple_chat_protocol.Client.Window.Statuses.{IsSound, new_window-IsSound}
use simple_chat_protocol.Client.Window.Reachable.{session-new_window-IsSound}
use simple_chat_protocol.Client.Window.Users.{Shows, targets, handle_list_users-Shows}
use simple_chat_protocol.Client.Window.Agreement.{select_status-agrees, select_status-overtaken}
use simple_chat_protocol.Client.Window.TabSafety.{HasTabs, session-new_window-HasTabs}
use simple_chat_protocol.Client.Window.ClosedTab.{notice, on_tab_close_requested-lost}
use simple_chat_protocol.Client.Window.StartDm.{type_in, on_user_double_clicked-reaches}
use simple_chat_protocol.Client.Qt.{Precedes}
use simple_chat_protocol.Client.Window.Tests.Section.{Lacks, Lacks-Precedes}
use simple_chat_protocol.Client.Window.Tests.Widgets.{simple, place}

abbrev fresh : Window simple
fresh = new_window simple "ana" 9 "10.0.0.4"

abbrev busy_day : List Action
busy_day =
    choose_status 1
    ∷ signal "10:00" "10:00" (server_response_received 201 "Status changed to OCUPADO" true)
    ∷ signal "10:01" "10:02" (for_dm_received "bob" "psst")
    ∷ type_text "hello"
    ∷ send_clicked "10:03"
    ∷ close_tab 2
    ∷ []

session-new_window-IsSound_example : IsSound (session busy_day fresh)
session-new_window-IsSound_example = session-new_window-IsSound simple "ana" 9 "10.0.0.4" busy_day

session-new_window-HasTabs_example : HasTabs (session busy_day fresh)
session-new_window-HasTabs_example = session-new_window-HasTabs simple "ana" 9 "10.0.0.4" busy_day

handle_list_users-Shows_example :
    (users : List User) × Perm (map user_of lobby.sessions) users
    × IsSorted users
    × ((handle_list_users toy 9 4 (1 ∷ []) lobby).sent ≡ lobby.sent ++ listing 4 users ∷ [])
    × Shows users fresh (on_signal "10:00" "10:00" (signal_of (listing 4 users).proto) fresh)
handle_list_users-Shows_example =
    handle_list_users-Shows toy 9 4 (1 ∷ []) (record { username = ""; ip = "" }) ana lobby "10:00"
      "10:00" fresh lobby-IsConsistent found_ana refl

fresh-IsSound : IsSound fresh
fresh-IsSound = new_window-IsSound simple "ana" 9 "10.0.0.4"

select_status-agrees_example :
    ((select_status 1 fresh).requests ≡ change_status 1 "ana" "10.0.0.4" ∷ [])
    × (find 4 (handle_change_status toy 9 4 (1 ∷ []) lobby).sessions ≡ some (with_status 9 1 ana))
    × ((handle_change_status toy 9 4 (1 ∷ []) lobby).sent
        ≡ lobby.sent ++ answer 4 201 "Status changed to OCUPADO" true ∷ [])
    × ((on_signal "10:00" "10:00"
          (server_response_received 201 "Status changed to OCUPADO" true)
          (select_status 1 fresh)).current_status
        ≡ 1)
unfolding new_window status_to_display
select_status-agrees_example =
    select_status-agrees toy 9 4 1 (1 ∷ []) (changing 1) ana lobby "10:00" "10:00" fresh
      lobby-IsConsistent found_ana refl refl fresh-IsSound (omega arith) refl (omega arith)

select_status-overtaken_example :
    ((select_status 1 fresh).requests ≡ change_status 1 "ana" "10.0.0.4" ∷ [])
    × ((on_server_response "10:01" 201 "Status changed to OCUPADO" true (
          on_server_response "10:00" StatusCode.auto_inactive "You have been marked INACTIVO" true
            (select_status 1 fresh))).current_status
        ≡ invisible)
unfolding new_window
select_status-overtaken_example =
    select_status-overtaken 1 "10:00" "10:01" "You have been marked INACTIVO"
      "Status changed to OCUPADO" true true fresh fresh-IsSound (omega arith) refl (omega arith)

-- A direct message of bob has opened the tab 2.
abbrev chatting : Window simple
chatting = on_for_dm "10:00" "10:00" "bob" "psst" fresh

chatting-HasTabs : HasTabs chatting
unfolding session act on_signal
chatting-HasTabs =
    session-new_window-HasTabs simple "ana" 9 "10.0.0.4"
      (signal "10:00" "10:00" (for_dm_received "bob" "psst") ∷ [])

on_tab_close_requested-lost_example :
    let last = on_for_dm "10:01" "10:02" "bob" "there?" (on_tab_close_requested 2 chatting) in
    (last.chat_tabs.0 ≡ erase_idx chatting.chat_tabs.0 2)
    × (find 2 last.chat_tabs.0 ≡ none)
    × (last.appended
        ≡ chatting.appended
          ++ (2, stamped "10:01" (said_by simple "#f38ba8" "bob" "there?"))
            ∷ notice simple "10:02" "bob"
            ∷ [])
unfolding new_window on_for_dm append_dm_chat get_or_create_dm_tab append_system_message place find
    insert
on_tab_close_requested-lost_example =
    on_tab_close_requested-lost 2 2 "10:01" "10:02" "bob" "there?" chatting chatting-HasTabs
      (omega arith) refl refl refl

abbrev two_users : List User
two_users = ("ana", 0) ∷ ("bob", 1) ∷ []

abbrev listing_two : Window simple
listing_two = on_all_users ("ana" ∷ "bob" ∷ []) (0 ∷ 1 ∷ []) fresh

bob_front : Precedes "bob" "  "
bob_front = Lacks-Precedes (char 32 tt) "bob" " " (
  (λ e. omega (arith, ap code e)),
  ((λ e. omega (arith, ap code e)), ((λ e. omega (arith, ap code e)), tt)),
)

listing_two-IsSound : IsSound listing_two
unfolding session act on_signal
listing_two-IsSound =
    session-new_window-IsSound simple "ana" 9 "10.0.0.4"
      (signal "10:00" "10:00" (all_users_received ("ana" ∷ "bob" ∷ []) (0 ∷ 1 ∷ [])) ∷ [])

on_user_double_clicked-reaches_example :
    (on_send_clicked "10:00"
      (type_in "psst" (on_user_double_clicked (display_user "bob" 1) listing_two))).requests
    ≡ message_dm "psst" 0 "bob" "10.0.0.4" ∷ []
unfolding new_window on_all_users add_users
on_user_double_clicked-reaches_example =
    on_user_double_clicked-reaches two_users "bob" "psst" "10:00" 1 1 listing_two refl
      listing_two-IsSound refl (λ e. ground (arith, (eq_iff "bob" "ana").1 e)) refl refl bob_front
      refl
