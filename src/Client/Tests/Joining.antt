-- ===== src/Client/Tests/Joining.antt =====
-- A third user joins the chat of two users.
use text.Mathlib.Text.{◌==◌ as str_eq}
use mathlib.Core.Bool.{◌&&◌}
use simple_chat_protocol.Prelude.{
  ℕ, String, ◌≢◌, All, true, ◌≡◌, refl, Option, none, some, List, [], ◌∷◌, arith, length, ◌==◌,
  eq_iff, if◌then◌else◌, nat_equality,
}
use simple_chat_protocol.Prelude.Map.{find}
use simple_chat_protocol.Prelude.Number.{pos}
use simple_chat_protocol.Wire.Io.{write_exact}
use simple_chat_protocol.Wire.Frame.{Format, RoundTrips, header, send_message}
use simple_chat_protocol.Wire.Tests.{Pipe, slow, slow_send, arriving}
use simple_chat_protocol.Messages.{Register, ServerResponse}
use simple_chat_protocol.Server.Session.{get_peer_ip}
use simple_chat_protocol.Server.Handlers.{handle_register}
use simple_chat_protocol.Server.Registration.{Welcomes}
use simple_chat_protocol.Server.Tests.{toy, lobby, lobby-IsConsistent, no_eva, no_host}
use simple_chat_protocol.Client.Thread.{connection_lost}
use simple_chat_protocol.Client.Window.State.{new_window}
use simple_chat_protocol.Client.Window.Events.{
  Action, type_text, send_clicked, signal, show_help, close_window,
}
use simple_chat_protocol.Client.Window.Tests.Widgets.{simple}
use simple_chat_protocol.Client.Main.{Os, opened, get_local_ip, main}
use simple_chat_protocol.Client.Handshake.{Closes, Follows, main-Closes, main-answer}
use simple_chat_protocol.Client.Joining.{welcome, handle_register-opens}

abbrev eva : Register
eva = record { username = "eva"; ip = "10.0.0.9" }

serialize_eva : Register → Option (List ℕ)
serialize_eva m = if str_eq m.username "eva" && str_eq m.ip "10.0.0.9" then some (3 ∷ []) else none

abbrev eva_format : Format Register
eva_format = record {
  serialize_to_string = serialize_eva;
  parse_from_string = λ bytes. if length bytes == 1 then some eva else none;
}

eva_format-RoundTrips : RoundTrips eva_format
unfolding serialize_eva
eva_format-RoundTrips m bytes e = ground (arith, e, eq_iff m.username "eva", eq_iff m.ip "10.0.0.9")

serialize_welcome : ServerResponse → Option (List ℕ)
serialize_welcome m =
    if m.status_code == 200
      && (str_eq m.message "Registration successful. Welcome, eva!" && m.is_successful)
    then some (8 ∷ [])
    else none

abbrev welcome_format : Format ServerResponse
welcome_format = record {
  serialize_to_string = serialize_welcome;
  parse_from_string = λ bytes. if length bytes == 1 then some (welcome "eva") else none;
}

welcome_format-RoundTrips : RoundTrips welcome_format
unfolding serialize_welcome
welcome_format-RoundTrips m bytes e =
    ground (arith, e, eq_iff m.message "Registration successful. Welcome, eva!")

abbrev reply_frame : List ℕ
reply_frame = 10 ∷ 0 ∷ 0 ∷ 0 ∷ 1 ∷ 8 ∷ []

-- The connection is made, and brings the given bytes.
abbrev network : List ℕ → Os slow
network bytes = record {
  socket = some (9, arriving bytes);
  inet_pton = λ ip. true;
  connect = λ ip port s. (true, s);
  getsockname = λ s. some "10.0.0.9";
  strerror = "";
  beyond = λ s. pos 0;
}

abbrev arguments : List String
arguments = "chat_client" ∷ "eva" ∷ "10.0.0.1" ∷ "5000" ∷ []

-- The user writes to everybody, the connection is lost, and the user opens the help.
abbrev busy_user : List Action
busy_user =
    type_text "hola" ∷ send_clicked "9:00" ∷ signal "9:01" "9:01" connection_lost ∷ show_help ∷ []

busy_user-keeps : All (λ a. a ≢ close_window) busy_user
busy_user-keeps = ((λ e. cc), ((λ e. cc), ((λ e. cc), ((λ e. cc), tt))))

main-Closes_example :
    Closes busy_user 9 (main simple slow (network reply_frame) eva_format welcome_format arguments)
main-Closes_example =
    main-Closes simple slow (network reply_frame) eva_format welcome_format busy_user
      busy_user-keeps "chat_client" "eva" "10.0.0.1" "5000" [] 9 (arriving reply_frame) refl

main-answer_example :
    (t : Pipe) × (t.inbox ≡ [])
    × Follows 9
        (new_window simple "eva" 9 "10.0.0.9")
        t
        (some (welcome "eva"))
        (main simple slow (network reply_frame) eva_format welcome_format arguments)
unfolding get_local_ip send_message write_exact slow_send header serialize_eva
main-answer_example =
    main-answer simple slow (network reply_frame) eva_format welcome_format "chat_client" "eva"
      "10.0.0.1" "5000" [] 9 (arriving reply_frame) (8 ∷ []) [] refl refl refl refl refl
      (omega arith)

handle_register-opens_example :
    Welcomes 9 7 "eva" "10.0.0.7" lobby
      (handle_register (record toy { register = eva_format }) 9 7 (3 ∷ []) lobby)
    × ((t : Pipe) × (t.inbox ≡ [])
        × (main simple slow (network reply_frame) eva_format welcome_format arguments
            ≡ opened (new_window simple "eva" 9 "10.0.0.9") t))
unfolding get_local_ip get_peer_ip send_message write_exact slow_send header serialize_eva
    serialize_welcome find
handle_register-opens_example =
    handle_register-opens simple slow (network reply_frame) (record toy { register = eva_format })
      welcome_format "chat_client" "eva" "10.0.0.1" "5000" [] 9 9 7 (arriving reply_frame) lobby
      (3 ∷ []) (8 ∷ []) [] refl refl refl refl eva_format-RoundTrips welcome_format-RoundTrips refl
      lobby-IsConsistent refl refl no_eva no_host refl (omega arith) refl
