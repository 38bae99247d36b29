-- ===== src/Client/Thread.antt =====
-- `NetworkThread` of src/client/network.cpp: the server's messages as signals to the window.
use simple_chat_protocol.Prelude.{
  ℕ, zero, suc, String, Bool, Option, none, some, List, [], ◌∷◌, ◌++◌, ◌==◌, if◌then◌else◌,
}
use simple_chat_protocol.Prelude.Map.{map_option}
use simple_chat_protocol.Protocol.MsgType
use simple_chat_protocol.Wire.Socket.{Socket}
use simple_chat_protocol.Wire.Frame.{Format, recv_message}
use simple_chat_protocol.Messages.{
  ServerResponse, AllUsers, ForDm, BroadcastDelivery, GetUserInfoResponse,
}

-- The signals of the class, with what they carry.
pub data Signal : Type 0 where
  server_response_received : ℕ → String → Bool → Signal
  all_users_received : List String → List ℕ → Signal
  for_dm_received : String → String → Signal
  broadcast_received : String → String → Signal
  user_info_received : String → String → ℕ → Signal
  connection_lost : Signal

-- The generated classes of protos/server-side.
pub record ServerFormats : Type 0 where
  pub server_response : Format ServerResponse
  pub all_users : Format AllUsers
  pub for_dm : Format ForDm
  pub broadcast_delivery : Format BroadcastDelivery
  pub get_user_info_response : Format GetUserInfoResponse

-- `if (m.ParseFromString(payload)) emit ...`
abbrev pub emit_parsed : {A : Type 0} → (A → Signal) → Option A → List Signal
emit_parsed signal none = []
emit_parsed signal (some m) = signal m ∷ []

abbrev pub response_signal : ServerResponse → Signal
response_signal m = server_response_received m.status_code m.message m.is_successful

abbrev pub users_signal : AllUsers → Signal
users_signal m = all_users_received m.usernames m.status

abbrev pub dm_signal : ForDm → Signal
dm_signal m = for_dm_received m.username_des m.message

abbrev pub broadcast_signal : BroadcastDelivery → Signal
broadcast_signal m = broadcast_received m.username_origin m.message

abbrev pub info_signal : GetUserInfoResponse → Signal
info_signal m = user_info_received m.ip_address m.username m.status

module _ (f : ServerFormats) where
  -- The `switch`.
  unfoldable pub emit_message : ℕ → List ℕ → List Signal
  emit_message msg_type payload =
      if msg_type == MsgType.server_response
      then emit_parsed response_signal (f.server_response.parse_from_string payload)
      else if msg_type == MsgType.all_users
      then emit_parsed users_signal (f.all_users.parse_from_string payload)
      else if msg_type == MsgType.for_dm
      then emit_parsed dm_signal (f.for_dm.parse_from_string payload)
      else if msg_type == MsgType.broadcast_delivery
      then emit_parsed broadcast_signal (f.broadcast_delivery.parse_from_string payload)
      else if msg_type == MsgType.get_user_info_response
      then emit_parsed info_signal (f.get_user_info_response.parse_from_string payload)
      else []

  -- `run`, with the signals that it emits, the first one first. Another thread may clear `running_`
  -- at any time: `running n` and `still n` are the two readings in the round with n rounds of fuel
  -- left behind it. `none` is the end of the fuel.
  module _ (k : Socket) (running still : ℕ → Bool) where
    open k use {S}

    unfoldable pub run_thread : ℕ → S → Option (List Signal)
    run_thread zero t = none
    run_thread (suc fuel) t =
        if running fuel
        then elim (recv_message k t) [
          | none ↦ some (if still fuel then connection_lost ∷ [] else [])
          | some ((msg_type, payload), t') ↦
              map_option (λ later. emit_message msg_type payload ++ later) (run_thread fuel t')
        ]
        else some []
