-- ===== src/Client/Tests.antt =====
-- The theorems on the client, at single messages.
mod Joining
mod Stopped
mod Talking
use text.Mathlib.Text.{◌==◌ as str_eq}
use mathlib.Core.Bool.{◌&&◌}
use simple_chat_protocol.Prelude.{
  ℕ, ◌≡◌, refl, true, Option, none, some, List, [], ◌∷◌, ◌++◌, arith, length, ◌==◌, eq_iff,
  if◌then◌else◌, nat_equality,
}
use simple_chat_protocol.Protocol.MsgType
use simple_chat_protocol.Wire.Frame.{Format, RoundTrips, header, recv_message, send_message}
use simple_chat_protocol.Wire.Io.{write_exact}
use simple_chat_protocol.Wire.Tests.{Pipe, slow, slow_send, arriving}
use simple_chat_protocol.Messages.{World, ForDm, MessageDm, for_dm}
use simple_chat_protocol.Server.Client.{dispatch}
use simple_chat_protocol.Server.Registration.{answer}
use simple_chat_protocol.Server.Delivery.{private_message}
use simple_chat_protocol.Server.Tests.{
  toy, lobby, ana, bob, lobby-IsConsistent, found_ana, found_bob,
}
use simple_chat_protocol.Client.Sender.{send_message_dm}
use simple_chat_protocol.Client.Thread.{
  Signal, for_dm_received, connection_lost, ServerFormats, run_thread,
}
use simple_chat_protocol.Client.Signals.{AllRoundTrip, at_end, next, run_thread-Carries}
use simple_chat_protocol.Client.Delivered.{send_message_dm-delivered}

-- A class of which nothing serializes.
abbrev mute : {A : Type 0} → Format A
mute = record { serialize_to_string = λ m. none; parse_from_string = λ bytes. none }

mute-RoundTrips : {A : Type 0} → RoundTrips {A = A} mute
mute-RoundTrips m bytes e = absurd cc

abbrev psst : ForDm
psst = record { username_des = "ana"; message = "psst" }

serialize_psst : ForDm → Option (List ℕ)
serialize_psst m =
    if str_eq m.username_des "ana" && str_eq m.message "psst" then some (7 ∷ []) else none

abbrev psst_format : Format ForDm
psst_format = record {
  serialize_to_string = serialize_psst;
  parse_from_string = λ bytes. if length bytes == 1 then some psst else none;
}

psst_format-RoundTrips : RoundTrips psst_format
unfolding serialize_psst
psst_format-RoundTrips m bytes e =
    ground (arith, e, eq_iff m.username_des "ana", eq_iff m.message "psst")

abbrev formats : ServerFormats
formats = record {
  server_response = mute;
  all_users = mute;
  for_dm = psst_format;
  broadcast_delivery = mute;
  get_user_info_response = mute;
}

formats-AllRoundTrip : AllRoundTrip formats
formats-AllRoundTrip = record {
  server_response = mute-RoundTrips;
  all_users = mute-RoundTrips;
  for_dm = psst_format-RoundTrips;
  broadcast_delivery = mute-RoundTrips;
  get_user_info_response = mute-RoundTrips;
}

abbrev psst_frame : List ℕ
psst_frame = 12 ∷ 0 ∷ 0 ∷ 0 ∷ 1 ∷ 7 ∷ []

run_thread-Carries_example :
    run_thread formats slow (λ _. true) (λ _. true) 3 (arriving (psst_frame ++ psst_frame))
    ≡ some (for_dm_received "ana" "psst" ∷ for_dm_received "ana" "psst" ∷ connection_lost ∷ [])
unfolding header serialize_psst
run_thread-Carries_example =
    run_thread-Carries formats slow (λ _. true) (λ _. true) 3 (for_dm psst ∷ for_dm psst ∷ [])
      (psst_frame ++ psst_frame) (arriving (psst_frame ++ psst_frame)) formats-AllRoundTrip
      (λ n. refl) (λ n. refl)
      (next (for_dm psst) (for_dm psst ∷ []) (7 ∷ []) psst_frame refl (omega arith)
        (next (for_dm psst) [] (7 ∷ []) [] refl (omega arith) at_end))
      refl (omega arith)

abbrev pub to_bob : MessageDm
to_bob = record { message = "psst"; status = 0; username_des = "bob"; ip = "" }

unfoldable pub serialize_to_bob : MessageDm → Option (List ℕ)
serialize_to_bob m =
    if str_eq m.message "psst" && (m.status == 0 && (str_eq m.username_des "bob" && str_eq m.ip ""))
    then some (2 ∷ [])
    else none

abbrev pub to_bob_format : Format MessageDm
to_bob_format = record {
  serialize_to_string = serialize_to_bob;
  parse_from_string = λ bytes. if length bytes == 1 then some to_bob else none;
}

pub to_bob_format-RoundTrips : RoundTrips to_bob_format
unfolding serialize_to_bob
to_bob_format-RoundTrips m bytes e =
    ground (arith, e, eq_iff m.message "psst", eq_iff m.username_des "bob", eq_iff m.ip "")

abbrev pub toy_dm : World
toy_dm = record toy { message_dm = to_bob_format }

abbrev pub dm_frame : List ℕ
dm_frame = 3 ∷ 0 ∷ 0 ∷ 0 ∷ 1 ∷ 2 ∷ []
