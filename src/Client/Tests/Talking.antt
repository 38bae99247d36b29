-- ===== src/Client/Tests/Talking.antt =====
-- What ana says in her window, and bob hears in his.
use text.Mathlib.Text.{◌==◌ as str_eq}
use mathlib.Core.Bool.{◌&&◌}
use simple_chat_protocol.Prelude.{
  ℕ, true, ◌≡◌, refl, Option, none, some, List, [], ◌∷◌, ◌++◌, arith, length, ◌==◌, eq_iff,
  if◌then◌else◌, nat_equality, string_equality,
}
use simple_chat_protocol.Prelude.Map.{find}
use simple_chat_protocol.Protocol.MsgType
use simple_chat_protocol.Wire.Io.{write_exact}
use simple_chat_protocol.Wire.Frame.{Format, RoundTrips, header, recv_message, send_message}
use simple_chat_protocol.Wire.Tests.{Pipe, slow, slow_send, arriving}
use simple_chat_protocol.Messages.{World, MessageGeneral}
use simple_chat_protocol.Server.Client.{dispatch}
use simple_chat_protocol.Server.Registration.{answer}
use simple_chat_protocol.Server.Delivery.{private_message, delivery}
use simple_chat_protocol.Server.Tests.{
  toy, lobby, ana, bob, lobby-IsConsistent, found_ana, found_bob,
}
use simple_chat_protocol.Client.Sender.{send_message_dm, send_message_general}
use simple_chat_protocol.Client.Thread.{for_dm_received, broadcast_received}
use simple_chat_protocol.Client.Window.State.{
  Window, message_dm, message_general, new_window, general_chat,
}
use simple_chat_protocol.Client.Window.Output.{stamped, said_by}
use simple_chat_protocol.Client.Window.Actions.{on_send_clicked}
use simple_chat_protocol.Client.Window.Slots.{on_signal}
use simple_chat_protocol.Client.Window.Requests.{perform}
use simple_chat_protocol.Client.Window.ClosedTab.{notice}
use simple_chat_protocol.Client.Window.Talking.{
  on_send_clicked-whispered, on_send_clicked-announced,
}
use simple_chat_protocol.Client.Window.Tests.Widgets.{simple}
use simple_chat_protocol.Client.Tests.{serialize_to_bob, to_bob_format-RoundTrips, toy_dm, dm_frame}

-- Ana has chosen bob, and has typed a word.
abbrev whispering : Window simple
whispering = record (new_window simple "ana" 9 "") {
  mode_combo = (("General", 0) ∷ ("DM", 0) ∷ [], some 1);
  dm_target_combo = (("bob", 0) ∷ [], some 0);
  message_input = "psst";
}

abbrev listening : Window simple
listening = new_window simple "bob" 9 ""

on_send_clicked-whispered_example :
    ((on_send_clicked "10:00" whispering).requests ≡ message_dm "psst" 0 "bob" "" ∷ [])
    × ((on_send_clicked "10:00" whispering).appended
        ≡ (2, stamped "10:00" (said_by simple "#89b4fa" "ana" "psst")) ∷ [])
    × ((got : List ℕ) × (t : Pipe) × (recv_message slow (arriving dm_frame)
          ≡ some ((MsgType.message_dm, got), t))
        × ((dispatch toy_dm 9 4 MsgType.message_dm got lobby).0.sent
            ≡ ((lobby.sent ++ []) ++ private_message "ana" "psst" 5 ∷ [])
              ++ answer 4 202 "DM sent to bob" true ∷ []))
    × ((on_signal "10:01" "10:02" (for_dm_received "ana" "psst") listening).appended
        ≡ (2, stamped "10:01" (said_by simple "#f38ba8" "ana" "psst"))
          ∷ notice simple "10:02" "ana"
          ∷ [])
unfolding new_window perform send_message_dm send_message write_exact slow_send header
    serialize_to_bob find
on_send_clicked-whispered_example =
    on_send_clicked-whispered slow slow toy_dm simple "10:00" "10:01" "10:02" whispering listening
      (arriving []) (arriving dm_frame) (2 ∷ []) dm_frame [] 9 4 5 ana bob lobby refl refl refl
      to_bob_format-RoundTrips refl (omega arith) refl refl refl lobby-IsConsistent refl found_ana
      found_bob refl

abbrev to_all : MessageGeneral
to_all = record { message = "psst"; status = 0; username_origin = "ana"; ip = "" }

serialize_to_all : MessageGeneral → Option (List ℕ)
serialize_to_all m =
    if str_eq m.message "psst"
      && (m.status == 0 && (str_eq m.username_origin "ana" && str_eq m.ip ""))
    then some (2 ∷ [])
    else none

abbrev to_all_format : Format MessageGeneral
to_all_format = record {
  serialize_to_string = serialize_to_all;
  parse_from_string = λ bytes. if length bytes == 1 then some to_all else none;
}

to_all_format-RoundTrips : RoundTrips to_all_format
unfolding serialize_to_all
to_all_format-RoundTrips m bytes e =
    ground (arith, e, eq_iff m.message "psst", eq_iff m.username_origin "ana", eq_iff m.ip "")

abbrev toy_general : World
toy_general = record toy { message_general = to_all_format }

abbrev general_frame : List ℕ
general_frame = 2 ∷ 0 ∷ 0 ∷ 0 ∷ 1 ∷ 2 ∷ []

abbrev announcing : Window simple
announcing = record (new_window simple "ana" 9 "") { message_input = "psst" }

on_send_clicked-announced_example :
    ((on_send_clicked "10:00" announcing).requests ≡ message_general "psst" 0 "ana" "" ∷ [])
    × ((on_send_clicked "10:00" announcing).appended ≡ [])
    × ((got : List ℕ) × (t : Pipe) × (recv_message slow (arriving general_frame)
          ≡ some ((MsgType.message_general, got), t))
        × ((dispatch toy_general 9 4 MsgType.message_general got lobby).0.sent
            ≡ (lobby.sent ++ []) ++ delivery "ana" "psst" 4 ∷ delivery "ana" "psst" 5 ∷ []))
    × ((on_signal "10:01" "10:02" (broadcast_received "ana" "psst") listening).appended
        ≡ (general_chat, stamped "10:01" (said_by simple "#f38ba8" "ana" "psst")) ∷ [])
unfolding new_window perform send_message_general send_message write_exact slow_send header
    serialize_to_all find
on_send_clicked-announced_example =
    on_send_clicked-announced slow slow toy_general simple "10:00" "10:01" "10:02" announcing
      listening (arriving []) (arriving general_frame) (2 ∷ []) general_frame [] 9 4 5 ana lobby
      refl refl to_all_format-RoundTrips refl (omega arith) refl refl refl lobby-IsConsistent refl
      found_ana
