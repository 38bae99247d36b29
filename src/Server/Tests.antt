-- ===== src/Server/Tests.antt =====
-- A chat of two users, and the theorems on the server at it.
mod Replies
mod Rounds
mod Starting
mod Threads
mod Unordered
use text.Mathlib.Text.{◌==◌ as str_eq}
use simple_chat_protocol.Prelude.{
  ℕ, ◌≡◌, ◌∙◌, refl, ap, ◌≢◌, ◌⊎◌, inl, inr, String, true, false, none, some, List, [], ◌∷◌, ◌++◌,
  arith, if◌then◌else◌, ◌==◌, nat_equality, string_equality,
}
use simple_chat_protocol.Prelude.Map.{find, insert, erase, modify}
use simple_chat_protocol.Protocol.MsgType
use simple_chat_protocol.Protocol.Status.{active}
use simple_chat_protocol.Protocol.StatusCode
use simple_chat_protocol.Wire.Frame.{Format}
use simple_chat_protocol.Messages.{
  World, Register, MessageGeneral, MessageDm, ChangeStatus, GetUserInfo,
}
use simple_chat_protocol.Server.State.{SessionInfo, Server}
use simple_chat_protocol.Server.Session.{get_peer_ip}
use simple_chat_protocol.Server.Client.{dispatch, cleanup}
use simple_chat_protocol.Server.Handlers.{
  handle_register, handle_message_general, handle_message_dm,
}
use simple_chat_protocol.Server.Lifecycle.{new_server, open_listener, accept}
use simple_chat_protocol.Server.Events.{
  Event, message, hangup, wake, connect, shut, start, step, run,
}
use simple_chat_protocol.Server.Registry.{IsConsistent}
use simple_chat_protocol.Server.Invariant.Steps.{run-start-IsConsistent}
use simple_chat_protocol.Server.Registration.{
  answer, Welcomes, Refuses, name_taken, handle_register-Welcomes, handle_register-Refuses,
  register-cleanup,
}
use simple_chat_protocol.Server.Requests.{dispatch_unregistered}
use simple_chat_protocol.Server.Delivery.{
  delivery, private_message, handle_message_general-sent, handle_message_dm-sent,
}

-- A payload of one byte names a user or a status.
abbrev pub name_of : ℕ → String
name_of n = if n == 1 then "ana" else if n == 2 then "bob" else if n == 3 then "eva" else ""

abbrev pub reading : {A : Type 0} → (ℕ → A) → Format A
reading f = record {
  serialize_to_string = λ a. none;
  parse_from_string = λ bytes. elim bytes [ [] ↦ none | n ∷ _ ↦ some (f n) ];
}

abbrev pub registering : ℕ → Register
registering n = record { username = name_of n; ip = "" }

abbrev pub to_everyone : ℕ → MessageGeneral
to_everyone n = record { message = "hello"; status = active; username_origin = "eva"; ip = "" }

abbrev pub to_one : ℕ → MessageDm
to_one n = record { message = "psst"; status = active; username_des = name_of n; ip = "" }

abbrev pub changing : ℕ → ChangeStatus
changing n = record { status = n; username = "eva"; ip = "" }

abbrev pub asking : ℕ → GetUserInfo
asking n = record { username_des = name_of n; username = "eva"; ip = "" }

-- The connections 4 and 6 come from one host, 5 and 7 from others.
abbrev pub toy : World
toy = record {
  register = reading registering;
  message_general = reading to_everyone;
  message_dm = reading to_one;
  change_status = reading changing;
  list_users = reading λ n. record { username = ""; ip = "" };
  get_user_info = reading asking;
  quit = reading λ n. record { quit = true; ip = "" };
  getpeername =
      λ fd. some (if fd == 5 then "10.0.0.5" else if fd == 7 then "10.0.0.7" else "10.0.0.4");
}

abbrev pub two_join : List Event
two_join =
    connect 4
    ∷ message 7 4 MsgType.register (1 ∷ [])
    ∷ connect 5
    ∷ message 8 5 MsgType.register (2 ∷ [])
    ∷ []

abbrev pub ana : SessionInfo
ana = record {
  username = "ana";
  ip = "10.0.0.4";
  socket_fd = 4;
  status = active;
  manual_status = active;
  last_activity = 7;
  alive = true;
}

abbrev pub bob : SessionInfo
bob = record {
  username = "bob";
  ip = "10.0.0.5";
  socket_fd = 5;
  status = active;
  manual_status = active;
  last_activity = 8;
  alive = true;
}

abbrev pub lobby : Server
lobby = record {
  idle_timeout_sec = 60;
  running = true;
  listen_fd = some 3;
  sessions = (4, ana) ∷ (5, bob) ∷ [];
  username_to_fd = ("ana", 4) ∷ ("bob", 5) ∷ [];
  ip_to_fd = ("10.0.0.4", 4) ∷ ("10.0.0.5", 5) ∷ [];
  client_threads = 4 ∷ 5 ∷ [];
  sent =
      answer 4 200 "Registration successful. Welcome, ana!" true
      ∷ answer 5 200 "Registration successful. Welcome, bob!" true
      ∷ [];
  closed = [];
}

lobby_lem : run toy two_join (start 60 3) ≡ lobby
unfolding run step dispatch handle_register find insert new_server open_listener accept
lobby_lem = refl

pub lobby-IsConsistent : IsConsistent lobby
unfolding run step dispatch handle_register find insert new_server open_listener accept
lobby-IsConsistent = run-start-IsConsistent toy 60 3 two_join

pub found_ana : find 4 lobby.sessions ≡ some ana
unfolding find
found_ana = refl

pub found_bob : find 5 lobby.sessions ≡ some bob
unfolding find
found_bob = refl

pub found_none : find 6 lobby.sessions ≡ none
unfolding find
found_none = refl

in_lobby : (j : ℕ) (i : SessionInfo) → find j lobby.sessions ≡ some i → (i ≡ ana) ⊎ (i ≡ bob)
unfolding find
in_lobby j i e = ground arith

-- Neither eva nor her host is there.
not_eva : (a : String) → str_eq a "eva" ≡ false → a ≢ "eva"
not_eva a e q = absurd (cc (e, ap (λ x. str_eq x "eva") q))

not_host : (a : String) → str_eq a "10.0.0.7" ≡ false → a ≢ "10.0.0.7"
not_host a e q = absurd (cc (e, ap (λ x. str_eq x "10.0.0.7") q))

pub no_eva : (j : ℕ) (i : SessionInfo) → find j lobby.sessions ≡ some i → i.username ≢ "eva"
no_eva j i e = not_eva i.username (elim (in_lobby j i e) [
  | inl p ↦ ap (λ (x : SessionInfo). str_eq x.username "eva") p
  | inr p ↦ ap (λ (x : SessionInfo). str_eq x.username "eva") p
])

pub no_host : (j : ℕ) (i : SessionInfo) → find j lobby.sessions ≡ some i → i.ip ≢ "10.0.0.7"
no_host j i e = not_host i.ip (elim (in_lobby j i e) [
  | inl p ↦ ap (λ (x : SessionInfo). str_eq x.ip "10.0.0.7") p
  | inr p ↦ ap (λ (x : SessionInfo). str_eq x.ip "10.0.0.7") p
])

handle_register-Refuses_example :
    Refuses 6 StatusCode.username_taken lobby (handle_register toy 9 6 (2 ∷ []) lobby)
handle_register-Refuses_example =
    handle_register-Refuses toy 9 6 StatusCode.username_taken (2 ∷ []) (registering 2) lobby
      lobby-IsConsistent refl (name_taken refl found_none 5 bob found_bob refl refl)

register-cleanup_example :
    Welcomes 9 6 "ana" "10.0.0.4"
      (cleanup 4 lobby)
      (handle_register toy 9 6 (1 ∷ []) (cleanup 4 lobby))
unfolding get_peer_ip find cleanup erase modify
register-cleanup_example =
    register-cleanup toy 9 4 6 (1 ∷ []) (registering 1) ana lobby lobby-IsConsistent found_ana refl
      refl refl refl

dispatch_unregistered_example :
    dispatch toy 9 6 MsgType.list_users (0 ∷ []) lobby
    ≡ (record lobby { sent = lobby.sent ++ answer 6 401 "Not registered" false ∷ [] }, false)
dispatch_unregistered_example =
    dispatch_unregistered toy 9 6 (0 ∷ []) lobby MsgType.list_users found_none (omega arith)
      (omega arith)

handle_message_general-sent_example :
    (handle_message_general toy 9 4 (0 ∷ []) lobby).sent
    ≡ (lobby.sent ++ []) ++ delivery "ana" "hello" 4 ∷ delivery "ana" "hello" 5 ∷ []
handle_message_general-sent_example =
    handle_message_general-sent toy 9 4 (0 ∷ []) (to_everyone 0) ana lobby lobby-IsConsistent refl
      found_ana refl

handle_message_dm-sent_example :
    (handle_message_dm toy 9 4 (2 ∷ []) lobby).sent
    ≡ ((lobby.sent ++ []) ++ private_message "ana" "psst" 5 ∷ [])
      ++ answer 4 202 "DM sent to bob" true ∷ []
handle_message_dm-sent_example =
    handle_message_dm-sent toy 9 4 5 (2 ∷ []) (to_one 2) ana bob lobby lobby-IsConsistent refl
      found_ana refl found_bob refl
