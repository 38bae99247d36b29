-- ===== src/Wire/Sending.antt =====
-- What `send_message` of include/chat/protocol.h puts on a byte stream.
use simple_chat_protocol.Prelude.{
  ℕ, ◌^◌, ◌≤◌, ◌<◌, ◌≡◌, refl, sym, ap, ◌∙◌, subst, Bool, true, false, some, List, [], ◌∷◌, ◌++◌,
  inl, inr, arith, length, take, Bool-cases, ltb, none, if◌then◌else◌,
}
use mathlib.Core.List.{append-nil, append_cancel_left}
use simple_chat_protocol.Wire.Socket.{Socket}
use simple_chat_protocol.Wire.Io.{write_exact}
use simple_chat_protocol.Wire.Frame.{
  Format, RoundTrips, header, max_payload, wire_length, send_frame, send_message, recv_message,
  frame,
}
use simple_chat_protocol.Wire.Writing.{
  Writes, write_exact-Writes, take-length, Writes-append, Writes-front,
}
use simple_chat_protocol.Wire.Receiving.{recv_message-frame}

module _ (k : Socket) where
  open k use {S, send, outgoing}

  abbrev rest_of_frame : S → List ℕ → Bool × S
  rest_of_frame s payload =
      if ltb 0 (wire_length payload)
      then write_exact k s (take (wire_length payload) payload)
      else (true, s)

  rest_of_frame-Writes :
      (s : S) (payload : List ℕ)
      → length payload < 2 ^ 32
      → Writes k s payload (rest_of_frame s payload)
  rest_of_frame-Writes s [] fits = record {
    sent = 0;
    went_out = sym (append-nil _);
    whole = λ e. refl;
    partly = λ e. cc;
  }
  rest_of_frame-Writes s (b ∷ bs) fits =
      let len : wire_length (b ∷ bs) ≡ length (b ∷ bs) = omega arith in
      let all : rest_of_frame s (b ∷ bs) ≡ write_exact k s (b ∷ bs) =
        ground (arith, len, take-length (b ∷ bs)) in
      subst (Writes k s (b ∷ bs)) (sym all) (write_exact-Writes k s (b ∷ bs))

  module _ (s : S) (msg_type : ℕ) (payload : List ℕ) where
    abbrev head_of_frame : Bool × S
    head_of_frame = write_exact k s (header msg_type (wire_length payload))

    send_frame_done :
        head_of_frame.0 ≡ true
        → send_frame k s msg_type payload ≡ rest_of_frame head_of_frame.1 payload
    unfolding send_frame
    send_frame_done e = rw e

    send_frame_failed : head_of_frame.0 ≡ false → send_frame k s msg_type payload ≡ head_of_frame
    unfolding send_frame
    send_frame_failed e = ground (arith, e)

    -- Whatever `send` takes at a time: the result true means that the whole frame went out, the
    -- result false that a proper front part of it did.
    send_frame-Writes :
        length payload < 2 ^ 32
        → Writes k s (frame msg_type payload) (send_frame k s msg_type payload)
    send_frame-Writes fits =
        let head = write_exact-Writes k s (header msg_type (wire_length payload)) in
        elim (Bool-cases head_of_frame.0) [
          | inl done ↦ subst (Writes k s (frame msg_type payload)) (sym (send_frame_done done)) (
              Writes-append k s (header msg_type (wire_length payload)) payload head_of_frame _ head
                done (rest_of_frame-Writes head_of_frame.1 payload fits))
          | inr failed ↦
              subst (Writes k s (frame msg_type payload)) (sym (send_frame_failed failed)) (
                Writes-front k s (header msg_type (wire_length payload)) payload head_of_frame head
                  failed)
        ]

  -- `send_message` of a message that serializes is `send_frame` of its bytes.
  pub send_message_lem :
      {A : Type 0} (f : Format A) (s : S) (msg_type : ℕ) (m : A) (payload : List ℕ)
      → f.serialize_to_string m ≡ some payload
      → send_message k f s msg_type m ≡ send_frame k s msg_type payload
  unfolding send_message
  send_message_lem f s msg_type m payload e = rw (e, send_message)

  -- A message that does not serialize puts nothing on the wire, and the result is false.
  pub send_message_unserializable :
      {A : Type 0} (f : Format A) (s : S) (msg_type : ℕ) (m : A)
      → f.serialize_to_string m ≡ none
      → send_message k f s msg_type m ≡ (false, s)
  unfolding send_message
  send_message_unserializable f s msg_type m e = rw (e, send_message)

-- Sender and receiver, each with its own socket, and the format of one class of messages.
module _ (k r : Socket) {A : Type 0} (f : Format A) where
  open k use {S, outgoing}
  open r use {S as R, incoming}

  -- Suppose that what the class serializes it parses back. When `send_message` of a message with
  -- at most 16 MB of payload returns true, and the stream of the receiver goes on with the bytes
  -- that it put out, then `recv_message`, whatever chunks the network makes, returns the given
  -- type and a payload that parses to the message, and the stream goes on behind it.
  pub recv_message-send_message :
      (s : S) (t : R) (msg_type : ℕ) (m : A) (payload bytes rest : List ℕ)
      → RoundTrips f
      → f.serialize_to_string m ≡ some payload
      → length payload ≤ max_payload
      → (send_message k f s msg_type m).0 ≡ true
      → outgoing (send_message k f s msg_type m).1 ≡ outgoing s ++ bytes
      → incoming t ≡ bytes ++ rest
      → (got : List ℕ) × (t' : R) × (recv_message r t ≡ some ((msg_type, got), t'))
        × (f.parse_from_string got ≡ some m)
        × (incoming t' ≡ rest)
  recv_message-send_message s t msg_type m payload bytes rest law ser h sent out inc =
      let got =
        recv_message-frame r t msg_type payload rest (inc ∙ ap (λ (b : List ℕ). b ++ rest) same)
          h in
      (payload, got.0, got.1, law m payload ser, got.2)
    where
      w : Writes k s (frame msg_type payload) (send_message k f s msg_type m)
      w =
          subst (Writes k s (frame msg_type payload))
            (sym (send_message_lem k f s msg_type m payload ser))
            (send_frame-Writes k s msg_type payload (omega arith))

      all : take w.sent (frame msg_type payload) ≡ frame msg_type payload
      all =
          ap (λ (n : ℕ). take n (frame msg_type payload)) (w.whole sent)
          ∙ take-length (frame msg_type payload)

      same : bytes ≡ frame msg_type payload
      same = append_cancel_left (outgoing s) _ _ (sym out ∙ w.went_out ∙ ap (◌++◌ (outgoing s)) all)
