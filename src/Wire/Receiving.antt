-- ===== src/Wire/Receiving.antt =====
-- What `recv_message` of include/chat/protocol.h takes off a byte stream.
use simple_chat_protocol.Prelude.{
  ℕ, ◌+◌, ◌-◌, ◌*◌, ◌/◌, ◌%◌, ◌^◌, bit_or, ◌≤◌, ◌<◌, ◌≡◌, refl, ap, ◌∙◌, none, some, List, [], ◌∷◌,
  ◌++◌, inl, inr, arith, length, take, length-append, length-take, Bool-cases, bit_or_shifted,
  bit_and_byte, if◌then◌else◌, ltb,
}
use mathlib.Core.Path.{ap₂}
use mathlib.Core.List.{append_assoc}
use simple_chat_protocol.Prelude.Map.{map_option}
use simple_chat_protocol.Wire.Socket.{Socket}
use simple_chat_protocol.Wire.Io.{read_exact}
use simple_chat_protocol.Wire.Frame.{
  header, header_size, max_payload, wire_length, byte_at, payload_length, recv_payload,
  recv_message, frame,
}
use simple_chat_protocol.Wire.Reading.{read_exact_short, read_exact-append, take-append_le}

join_bytes :
    (a b c d : ℕ)
    → b < 256
    → c < 256
    → d < 256
    → bit_or (bit_or (bit_or (a * 2 ^ 24) (b * 2 ^ 16)) (c * 2 ^ 8)) d
      ≡ a * 2 ^ 24 + b * 2 ^ 16 + c * 2 ^ 8 + d
join_bytes a b c d hb hc hd =
    ap (λ (x : ℕ). bit_or (bit_or x (c * 2 ^ 8)) d)
      (bit_or_shifted 24 a (b * 2 ^ 16) (omega arith) ∙ regroup)
    ∙ ap (λ (x : ℕ). bit_or x d)
        (bit_or_shifted 16 (a * 256 + b) (c * 2 ^ 8) (omega arith) ∙ regroup')
    ∙ bit_or_shifted 8 (a * 65536 + b * 256 + c) d (omega arith)
    ∙ total
  where
    regroup : a * 2 ^ 24 + b * 2 ^ 16 ≡ (a * 256 + b) * 2 ^ 16
    regroup = omega arith

    regroup' : (a * 256 + b) * 2 ^ 16 + c * 2 ^ 8 ≡ (a * 65536 + b * 256 + c) * 2 ^ 8
    regroup' = omega arith

    total : (a * 65536 + b * 256 + c) * 2 ^ 8 + d ≡ a * 2 ^ 24 + b * 2 ^ 16 + c * 2 ^ 8 + d
    total = omega arith

-- The four length bytes, read back by shifts and `|`, give the length that was written.
payload_length-header :
    (msg_type len : ℕ) → len < 2 ^ 32 → payload_length (header msg_type len) ≡ len
unfolding payload_length header
payload_length-header msg_type len h =
    rw (bit_and_byte, bit_and_byte, bit_and_byte, bit_and_byte)
      (join_bytes (len / 2 ^ 24 % 256) (len / 2 ^ 16 % 256) (len / 2 ^ 8 % 256) (len % 256)
          (omega arith) (omega arith) (omega arith)
        ∙ omega arith)

length-header : (msg_type len : ℕ) → length (header msg_type len) ≡ 5
unfolding header
length-header msg_type len = refl

type-header : (msg_type len : ℕ) → byte_at (header msg_type len) 0 ≡ msg_type
unfolding header
type-header msg_type len = refl

length-frame :
    (msg_type : ℕ) (payload : List ℕ) → length (frame msg_type payload) ≡ 5 + length payload
length-frame msg_type payload = omega (
  arith,
  length-append (header msg_type (wire_length payload)) payload,
  length-header msg_type (wire_length payload),
)

frame-header :
    (msg_type : ℕ) (payload rest : List ℕ)
    → length payload < 2 ^ 32
    → frame msg_type payload ++ rest ≡ header msg_type (length payload) ++ (payload ++ rest)
frame-header msg_type payload rest h =
    append_assoc (header msg_type (wire_length payload)) payload rest
    ∙ ap (λ (n : ℕ). header msg_type n ++ (payload ++ rest)) (omega arith)

module _ (k : Socket) where
  open k use {S, incoming, outgoing}

  recv_message-read :
      (s s' : S) (bytes : List ℕ)
      → read_exact k s header_size ≡ some (bytes, s')
      → recv_message k s ≡ recv_payload k bytes s'
  unfolding recv_message
  recv_message-read s s' bytes e = rw (e, recv_message)

  -- The stream begins with a header: `recv_message` goes on behind it.
  recv_header :
      (s : S) (msg_type len : ℕ) (rest : List ℕ)
      → incoming s ≡ header msg_type len ++ rest
      → (s' : S) × (recv_message k s ≡ recv_payload k (header msg_type len) s')
        × (incoming s' ≡ rest)
  recv_header s msg_type len rest e =
      let got =
        read_exact-append k s header_size (header msg_type len) rest e
          (length-header msg_type len) in
      (got.0, recv_message-read s got.0 (header msg_type len) got.1, got.2)

  -- What `recv_message` does of a payload whose length the header tells.
  recv_payload-header :
      (s : S) (msg_type len : ℕ)
      → len < 2 ^ 32
      → recv_payload k (header msg_type len) s ≡ (
          if ltb max_payload len
          then none
          else if ltb 0 len
          then map_option (λ r. ((msg_type, r.0), r.1)) (read_exact k s len)
          else some ((msg_type, []), s))
  unfolding recv_payload
  recv_payload-header s msg_type len h =
      rw (payload_length-header msg_type len h, type-header msg_type len)

  recv_payload-append :
      (s : S) (msg_type : ℕ) (payload rest : List ℕ)
      → incoming s ≡ payload ++ rest
      → length payload ≤ max_payload
      → (s' : S) × (recv_payload k (header msg_type (length payload)) s
          ≡ some ((msg_type, payload), s'))
        × (incoming s' ≡ rest)
  recv_payload-append s msg_type [] rest e h =
      (s, recv_payload-header s msg_type 0 (omega arith), e)
  recv_payload-append s msg_type (b ∷ bs) rest e h =
      let got = read_exact-append k s (length (b ∷ bs)) (b ∷ bs) rest e refl in
      let shape = recv_payload-header s msg_type (length (b ∷ bs)) (omega arith) in
      (got.0, ground (arith, shape, got.1), got.2)

  abbrev pub Receives : S → ℕ → List ℕ → List ℕ → Type 0
  Receives s msg_type payload rest =
      (s' : S) × (recv_message k s ≡ some ((msg_type, payload), s')) × (incoming s' ≡ rest)

  -- A frame of at most 16 MB at the front of the stream, however the network cuts it into chunks,
  -- is received whole, and the stream goes on behind it.
  pub recv_message-frame :
      (s : S) (msg_type : ℕ) (payload rest : List ℕ)
      → incoming s ≡ frame msg_type payload ++ rest
      → length payload ≤ max_payload
      → Receives s msg_type payload rest
  recv_message-frame s msg_type payload rest e h =
      let head =
        recv_header s msg_type (length payload) (payload ++ rest)
          (e ∙ frame-header msg_type payload rest (omega arith)) in
      let body = recv_payload-append head.0 msg_type payload rest head.2 h in
      (body.0, head.1 ∙ body.1, body.2)

  -- `recv_message` refuses a frame that comes first on the stream and whose payload has more than
  -- 16 MB and fewer than 2 ^ 32 bytes.
  pub recv_message_oversize :
      (s : S) (msg_type : ℕ) (payload rest : List ℕ)
      → incoming s ≡ frame msg_type payload ++ rest
      → max_payload < length payload
      → length payload < 2 ^ 32
      → recv_message k s ≡ none
  recv_message_oversize s msg_type payload rest e big fits =
      let head =
        recv_header s msg_type (length payload) (payload ++ rest)
          (e ∙ frame-header msg_type payload rest (omega arith)) in
      ground (arith, head.1, recv_payload-header head.0 msg_type (length payload))

  pub recv_message_short : (s : S) → length (incoming s) < header_size → recv_message k s ≡ none
  unfolding recv_message
  recv_message_short s h = rw (read_exact_short k s header_size h, recv_message)

  recv_message_cut :
      (s : S) (msg_type : ℕ) (payload front : List ℕ)
      → incoming s ≡ header msg_type (length payload) ++ front
      → length front < length payload
      → length payload ≤ max_payload
      → recv_message k s ≡ none
  recv_message_cut s msg_type payload front e short h =
      let head = recv_header s msg_type (length payload) front e in
      ground (
        arith,
        head.1,
        recv_payload-header head.0 msg_type (length payload),
        read_exact_short k head.0 (length payload) (omega (arith, ap length head.2)),
      )

  -- A stream that ends inside a frame gives no message.
  recv_message_truncated :
      (s : S) (msg_type : ℕ) (payload : List ℕ) (n : ℕ)
      → incoming s ≡ take n (frame msg_type payload)
      → n < length (frame msg_type payload)
      → length payload ≤ max_payload
      → recv_message k s ≡ none
  recv_message_truncated s msg_type payload n e short h = elim (Bool-cases (ltb n 5)) [
    | inl inside ↦
        recv_message_short s (ground (arith, ap length e, length-take n (frame msg_type payload)))
    | inr behind ↦
        recv_message_cut s msg_type payload (take (n - 5) payload) (e ∙ cut (ground arith))
          (ground (arith, length-take (n - 5) payload, length-frame msg_type payload)) h
  ]
    where
      cut :
          5 ≤ n
          → take n (frame msg_type payload)
            ≡ header msg_type (length payload) ++ take (n - 5) payload
      cut le =
          take-append_le n (header msg_type (wire_length payload)) payload
            (ground (arith, length-header msg_type (wire_length payload)))
          ∙ ap₂ (λ (a b : ℕ). header msg_type a ++ take (n - b) payload) (omega arith)
              (length-header msg_type (wire_length payload))
