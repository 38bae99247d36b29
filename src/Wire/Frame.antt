-- ===== src/Wire/Frame.antt =====
-- `send_message` and `recv_message` of include/chat/protocol.h: a byte for the type, four for the
-- length, big-endian, then the payload.
use simple_chat_protocol.Prelude.{
  ℕ, zero, suc, ◌*◌, ◌/◌, ◌%◌, ◌^◌, bit_and, bit_or, Bool, true, false, Option, none, some, List,
  [], ◌∷◌, ◌++◌, ◌≡◌, length, take, ltb, if◌then◌else◌,
}
use simple_chat_protocol.Prelude.Map.{map_option}
use simple_chat_protocol.Wire.Socket.{Socket}
use simple_chat_protocol.Wire.Io.{read_exact, write_exact}

abbrev pub header_size : ℕ
header_size = 5

-- The sanity check of `recv_message`: 16 MB.
abbrev pub max_payload : ℕ
max_payload = 16 * 1024 * 1024

-- `SerializeToString` and `ParseFromString` of a generated class: code that protoc writes, hence
-- a parameter of the model. `none` is the result `false`.
pub record Format (A : Type 0) : Type 0 where
  pub serialize_to_string : A → Option (List ℕ)
  pub parse_from_string : List ℕ → Option A

-- What protobuf documents of the two: parsing undoes serializing.
abbrev pub RoundTrips : {A : Type 0} → Format A → Type 0
RoundTrips {A} f =
    (m : A) (bytes : List ℕ)
    → f.serialize_to_string m ≡ some bytes
    → f.parse_from_string bytes ≡ some m

-- `len` of `send_message`: a size as a uint32_t.
abbrev pub wire_length : List ℕ → ℕ
wire_length payload = length payload % 2 ^ 32

unfoldable pub header : ℕ → ℕ → List ℕ
header msg_type len =
    msg_type
    ∷ bit_and (len / 2 ^ 24) 0xFF
    ∷ bit_and (len / 2 ^ 16) 0xFF
    ∷ bit_and (len / 2 ^ 8) 0xFF
    ∷ bit_and len 0xFF
    ∷ []

-- The byte i of the buffer `header`, which the code has filled before it reads it.
abbrev pub byte_at : List ℕ → ℕ → ℕ
byte_at [] i = 0
byte_at (b ∷ bs) zero = b
byte_at (b ∷ bs) (suc i) = byte_at bs i

unfoldable pub payload_length : List ℕ → ℕ
payload_length bytes =
    bit_or
      (bit_or (bit_or (byte_at bytes 1 * 2 ^ 24) (byte_at bytes 2 * 2 ^ 16))
        (byte_at bytes 3 * 2 ^ 8))
      (byte_at bytes 4)

module _ (k : Socket) where
  open k use {S}

  -- The part of `send_message` behind the serialization.
  unfoldable pub send_frame : S → ℕ → List ℕ → Bool × S
  send_frame s msg_type payload =
      let len = wire_length payload in
      let first = write_exact k s (header msg_type len) in
      if first.0
      then (if ltb 0 len then write_exact k first.1 (take len payload) else (true, first.1))
      else (false, first.1)

  unfoldable pub send_message : {A : Type 0} → Format A → S → ℕ → A → Bool × S
  unfolding send_frame
  send_message f s msg_type proto_msg = elim (f.serialize_to_string proto_msg) [
    | none ↦ (false, s)
    | some payload ↦ send_frame s msg_type payload
  ]

  -- The part of `recv_message` behind the header; `none` is the result `false`.
  unfoldable pub recv_payload : List ℕ → S → Option ((ℕ × List ℕ) × S)
  recv_payload bytes s =
      let len = payload_length bytes in
      if ltb max_payload len
      then none
      else if ltb 0 len
      then map_option (λ r. ((byte_at bytes 0, r.0), r.1)) (read_exact k s len)
      else some ((byte_at bytes 0, []), s)

  unfoldable pub recv_message : S → Option ((ℕ × List ℕ) × S)
  unfolding recv_payload
  recv_message s = elim (read_exact k s header_size) [
    | none ↦ none
    | some (bytes, s') ↦ recv_payload bytes s'
  ]

-- The bytes of a message on the wire.
abbrev pub frame : ℕ → List ℕ → List ℕ
frame msg_type payload = header msg_type (wire_length payload) ++ payload
