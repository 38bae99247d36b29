-- ===== src/Wire/Tests.antt =====
-- A socket whose network hands over two bytes at a time and takes three, and the theorems on it.
use Prim.Native.Nat.{min}
use simple_chat_protocol.Prelude.{
  ℕ, zero, suc, ◌≤◌, ◌<◌, ◌≡◌, refl, sym, Option, none, some, List, [], ◌∷◌, ◌++◌, arith, length,
  take, drop, length-take, take-append-drop, if◌then◌else◌, ◌==◌, eq_iff,
}
use text.Mathlib.Text.{◌==◌ as str_eq}
use mathlib.Core.Bool.{◌&&◌}
use simple_chat_protocol.Messages.{Register}
use simple_chat_protocol.Wire.Socket.{Socket}
use simple_chat_protocol.Wire.Io.{read_exact, write_exact}
use simple_chat_protocol.Wire.Frame.{
  Format, RoundTrips, header, payload_length, frame, send_message, recv_message,
}
use simple_chat_protocol.Wire.Receiving.{recv_message_oversize}
use simple_chat_protocol.Wire.Sending.{recv_message-send_message}

-- The bytes that are still to come, and those that went out.
pub record Pipe : Type 0 where
  pub inbox : List ℕ
  pub outbox : List ℕ

unfoldable pub slow_recv : Pipe → ℕ → List ℕ × Pipe
slow_recv p n = (take (min n 2) p.inbox, record p { inbox = drop (min n 2) p.inbox })

unfoldable pub slow_send : Pipe → List ℕ → ℕ × Pipe
slow_send p bytes =
    (min (length bytes) 3, record p { outbox = p.outbox ++ take (min (length bytes) 3) bytes })

pub slow_recv_fits : (p : Pipe) (n : ℕ) → length (slow_recv p n).0 ≤ n
unfolding slow_recv
slow_recv_fits p n = omega (arith, length-take (min n 2) p.inbox)

pub slow_recv_takes : (p : Pipe) (n : ℕ) → p.inbox ≡ (slow_recv p n).0 ++ (slow_recv p n).1.inbox
unfolding slow_recv
slow_recv_takes p n = sym (take-append-drop (min n 2) p.inbox)

pub slow_recv_waits : (p : Pipe) (n : ℕ) → 0 < n → 0 < length p.inbox → 0 < length (slow_recv p n).0
unfolding slow_recv
slow_recv_waits p n h k = omega (arith, length-take (min n 2) p.inbox)

pub slow_send_fits : (p : Pipe) (bytes : List ℕ) → (slow_send p bytes).0 ≤ length bytes
unfolding slow_send
slow_send_fits p bytes = omega arith

pub slow_send_adds :
    (p : Pipe) (bytes : List ℕ)
    → (slow_send p bytes).1.outbox ≡ p.outbox ++ take (slow_send p bytes).0 bytes
unfolding slow_send
slow_send_adds p bytes = refl

abbrev pub slow : Socket
slow = record {
  S = Pipe;
  recv = slow_recv;
  send = slow_send;
  incoming = λ p. p.inbox;
  outgoing = λ p. p.outbox;
  recv_fits = slow_recv_fits;
  recv_takes = slow_recv_takes;
  recv_waits = slow_recv_waits;
  send_fits = slow_send_fits;
  send_adds = slow_send_adds;
}

-- A Register message of the user "al", as protobuf writes it.
abbrev al : Register
al = record { username = "al"; ip = "" }

abbrev al_bytes : List ℕ
al_bytes = 0x0A ∷ 0x02 ∷ 0x61 ∷ 0x6C ∷ []

-- A format of that one message.
serialize_al : Register → Option (List ℕ)
serialize_al m = if str_eq m.username "al" && str_eq m.ip "" then some al_bytes else none

abbrev al_format : Format Register
al_format = record {
  serialize_to_string = serialize_al;
  parse_from_string = λ bytes. if length bytes == 4 then some al else none;
}

al_format-RoundTrips : RoundTrips al_format
unfolding serialize_al
al_format-RoundTrips m bytes e = ground (arith, e, eq_iff m.username "al", eq_iff m.ip "")

abbrev pub arriving : List ℕ → Pipe
arriving bytes = record { inbox = bytes; outbox = [] }

abbrev al_frame : List ℕ
al_frame = 1 ∷ 0 ∷ 0 ∷ 0 ∷ 4 ∷ 0x0A ∷ 0x02 ∷ 0x61 ∷ 0x6C ∷ []

test_frame : frame 1 al_bytes ≡ al_frame
unfolding header
test_frame = refl

test_read :
    read_exact slow (arriving (1 ∷ 2 ∷ 3 ∷ 4 ∷ [])) 3 ≡ some (1 ∷ 2 ∷ 3 ∷ [], arriving (4 ∷ []))
unfolding read_exact slow_recv
test_read = refl

test_send : (send_message slow al_format (arriving []) 1 al).1.outbox ≡ al_frame
unfolding send_message write_exact slow_send header serialize_al
test_send = refl

test_recv :
    recv_message slow (arriving (al_frame ++ 7 ∷ [])) ≡ some ((1, al_bytes), arriving (7 ∷ []))
unfolding recv_message read_exact slow_recv payload_length
test_recv = refl

recv_message-send_message_example :
    (got : List ℕ) × (t : Pipe) × (recv_message slow (arriving al_frame) ≡ some ((1, got), t))
    × (al_format.parse_from_string got ≡ some al)
    × (t.inbox ≡ [])
unfolding send_message write_exact slow_send header serialize_al
recv_message-send_message_example =
    recv_message-send_message slow slow al_format (arriving []) (arriving al_frame) 1 al al_bytes
      al_frame [] al_format-RoundTrips refl (omega arith) refl refl refl

zeros : ℕ → List ℕ
zeros zero = []
zeros (suc n) = 0 ∷ zeros n

length-zeros : (n : ℕ) → length (zeros n) ≡ n
unfolding zeros
length-zeros zero = refl
length-zeros (suc n) = omega (arith, length-zeros n)

recv_message_oversize_example : recv_message slow (arriving (frame 1 (zeros 16777217) ++ [])) ≡ none
recv_message_oversize_example =
    recv_message_oversize slow (arriving (frame 1 (zeros 16777217) ++ [])) 1 (zeros 16777217) []
      refl (omega (arith, length-zeros 16777217)) (omega (arith, length-zeros 16777217))
