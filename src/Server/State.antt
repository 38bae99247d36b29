-- ===== src/Server/State.antt =====
-- include/chat/server.h: `SessionInfo` and the members of `ChatServer`.
use simple_chat_protocol.Prelude.{ℕ, String, Bool, List, Option}
use simple_chat_protocol.Prelude.Map.{Map}
use simple_chat_protocol.Protocol.Status.{StatusEnum}
use simple_chat_protocol.Messages.{ServerMessage}

-- `last_activity` is a reading of the steady clock, in nanoseconds.
pub record SessionInfo : Type 0 where
  pub username : String
  pub ip : String
  pub socket_fd : ℕ
  pub status : StatusEnum
  pub manual_status : StatusEnum
  pub last_activity : ℕ
  pub alive : Bool

-- One call of `send_message`. The server ignores its result.
pub record Sent : Type 0 where
  pub fd : ℕ
  pub msg_type : ℕ
  pub proto : ServerMessage

-- A session is shared by pointers; the entry of `sessions` stands for the object itself.
-- `client_threads` has the descriptor that each thread was started with. `sent` lists the calls of
-- `send_message`, and `closed` those of `close`, the oldest first.
pub record Server : Type 0 where
  pub idle_timeout_sec : ℕ
  pub running : Bool
  pub listen_fd : Option ℕ
  pub sessions : Map ℕ SessionInfo
  pub username_to_fd : Map String ℕ
  pub ip_to_fd : Map String ℕ
  pub client_threads : List ℕ
  pub sent : List Sent
  pub closed : List ℕ
