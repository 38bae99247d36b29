-- ===== src/Messages.antt =====
-- The messages of protos/, and the classes that protoc generates for them.
use simple_chat_protocol.Prelude.{ℕ, String, Bool, List, Option}
use simple_chat_protocol.Protocol.MsgType
use simple_chat_protocol.Protocol.Status.{StatusEnum}
use simple_chat_protocol.Wire.Frame.{Format}

-- protos/cliente-side: from a client to the server.

pub record Register : Type 0 where
  pub username : String
  pub ip : String

pub record MessageGeneral : Type 0 where
  pub message : String
  pub status : StatusEnum
  pub username_origin : String
  pub ip : String

pub record MessageDm : Type 0 where
  pub message : String
  pub status : StatusEnum
  pub username_des : String
  pub ip : String

pub record ChangeStatus : Type 0 where
  pub status : StatusEnum
  pub username : String
  pub ip : String

pub record ListUsers : Type 0 where
  pub username : String
  pub ip : String

pub record GetUserInfo : Type 0 where
  pub username_des : String
  pub username : String
  pub ip : String

pub record Quit : Type 0 where
  pub quit : Bool
  pub ip : String

-- protos/server-side: from the server to a client.

pub record ServerResponse : Type 0 where
  pub status_code : ℕ
  pub message : String
  pub is_successful : Bool

pub record AllUsers : Type 0 where
  pub usernames : List String
  pub status : List StatusEnum

pub record ForDm : Type 0 where
  pub username_des : String
  pub message : String

pub record BroadcastDelivery : Type 0 where
  pub message : String
  pub username_origin : String

pub record GetUserInfoResponse : Type 0 where
  pub ip_address : String
  pub username : String
  pub status : StatusEnum

-- Any message of the server: what a `const google::protobuf::MessageLite&` may refer to there.
pub data ServerMessage : Type 0 where
  server_response : ServerResponse → ServerMessage
  all_users : AllUsers → ServerMessage
  for_dm : ForDm → ServerMessage
  broadcast_delivery : BroadcastDelivery → ServerMessage
  get_user_info_response : GetUserInfoResponse → ServerMessage

-- The type that goes with a message of the server.
abbrev pub type_of : ServerMessage → ℕ
type_of (server_response m) = MsgType.server_response
type_of (all_users m) = MsgType.all_users
type_of (for_dm m) = MsgType.for_dm
type_of (broadcast_delivery m) = MsgType.broadcast_delivery
type_of (get_user_info_response m) = MsgType.get_user_info_response

-- What the server uses of the generated classes and of the operating system: `ParseFromString` of
-- each message of a client, and `getpeername` with `inet_ntop`, `none` where one of them fails.
pub record World : Type 0 where
  pub register : Format Register
  pub message_general : Format MessageGeneral
  pub message_dm : Format MessageDm
  pub change_status : Format ChangeStatus
  pub list_users : Format ListUsers
  pub get_user_info : Format GetUserInfo
  pub quit : Format Quit
  pub getpeername : ℕ → Option String
