-- ===== src/Client/Signals.antt =====
-- The signals of `NetworkThread` (src/client/network.cpp), for a stream of messages of the
-- server.
use simple_chat_protocol.Prelude.{
  ℕ, zero, suc, ◌≤◌, ◌<◌, Bool, true, ◌≡◌, refl, ap, ◌∙◌, Option, none, some, List, [], ◌∷◌, ◌++◌,
  arith, length, map, option_cases, if_cases,
}
use simple_chat_protocol.Prelude.Map.{map_option}
use simple_chat_protocol.Wire.Socket.{Socket}
use simple_chat_protocol.Wire.Frame.{RoundTrips, max_payload, frame, recv_message}
use simple_chat_protocol.Wire.Receiving.{recv_message-frame, recv_message_short}
use simple_chat_protocol.Wire.Progress.{recv_message_takes}
use simple_chat_protocol.Messages.{
  type_of, ServerMessage, server_response, all_users, for_dm, broadcast_delivery,
  get_user_info_response,
}
use simple_chat_protocol.Client.Thread.{
  Signal, connection_lost, ServerFormats, response_signal, users_signal, dm_signal,
  broadcast_signal, info_signal, emit_message, run_thread,
}

-- What the window should learn of it.
abbrev pub signal_of : ServerMessage → Signal
signal_of (server_response m) = response_signal m
signal_of (all_users m) = users_signal m
signal_of (for_dm m) = dm_signal m
signal_of (broadcast_delivery m) = broadcast_signal m
signal_of (get_user_info_response m) = info_signal m

abbrev pub serialize : ServerFormats → ServerMessage → Option (List ℕ)
serialize f (server_response m) = f.server_response.serialize_to_string m
serialize f (all_users m) = f.all_users.serialize_to_string m
serialize f (for_dm m) = f.for_dm.serialize_to_string m
serialize f (broadcast_delivery m) = f.broadcast_delivery.serialize_to_string m
serialize f (get_user_info_response m) = f.get_user_info_response.serialize_to_string m

-- Parsing undoes serializing, for each class.
pub record AllRoundTrip (f : ServerFormats) : Type 0 where
  pub server_response : RoundTrips f.server_response
  pub all_users : RoundTrips f.all_users
  pub for_dm : RoundTrips f.for_dm
  pub broadcast_delivery : RoundTrips f.broadcast_delivery
  pub get_user_info_response : RoundTrips f.get_user_info_response

emit_message-serialize :
    (f : ServerFormats) (m : ServerMessage) (payload : List ℕ)
    → AllRoundTrip f
    → serialize f m ≡ some payload
    → emit_message f (type_of m) payload ≡ signal_of m ∷ []
unfolding emit_message
emit_message-serialize f (server_response m) payload law e =
    rw (law.server_response m payload e) refl
emit_message-serialize f (all_users m) payload law e = rw (law.all_users m payload e) refl
emit_message-serialize f (for_dm m) payload law e = rw (law.for_dm m payload e) refl
emit_message-serialize f (broadcast_delivery m) payload law e =
    rw (law.broadcast_delivery m payload e) refl
emit_message-serialize f (get_user_info_response m) payload law e =
    rw (law.get_user_info_response m payload e) refl

-- The bytes of messages of at most 16 MB each, one frame after the other.
pub data Carries (f : ServerFormats) : List ServerMessage → List ℕ → Type 0 where
  at_end : Carries f [] []
  next :
      (m : ServerMessage) (ms : List ServerMessage) (payload rest : List ℕ)
      → serialize f m ≡ some payload
      → length payload ≤ max_payload
      → Carries f ms rest
      → Carries f (m ∷ ms) (frame (type_of m) payload ++ rest)

module _ (f : ServerFormats) (k : Socket) where
  open k use {S, incoming}

  -- With one more round than there are bytes to come, the thread ends, whatever arrives and in
  -- whatever chunks.
  run_thread_stops :
      (running still : ℕ → Bool) (fuel : ℕ) (t : S)
      → length (incoming t) < fuel
      → (signals : List Signal) × (run_thread f k running still fuel t ≡ some signals)
  unfolding run_thread
  run_thread_stops running still zero t h = absurd (omega arith)
  run_thread_stops running still (suc fuel) t h =
      let Ends : Option (List Signal) → Type 0 =
        λ o. (signals : List Signal) × (o ≡ some signals) in
      if_cases Ends (running fuel) _ _
        (λ _.
          option_cases Ends (recv_message k t) _ _ (λ _. (_, refl))
            λ got here.
              let (later, e) =
                run_thread_stops running still fuel got.1
                  (omega (arith, h, recv_message_takes k t got.1 got.0 here)) in
              (_, ap (map_option (λ q. emit_message f got.0.0 got.0.1 ++ q)) e))
        (λ _. ([], refl))

  pub run_thread-message :
      (running still : ℕ → Bool) (fuel msg_type : ℕ) (t t' : S) (payload : List ℕ)
      → running fuel ≡ true
      → recv_message k t ≡ some ((msg_type, payload), t')
      → run_thread f k running still (suc fuel) t
        ≡ map_option
            (λ later. emit_message f msg_type payload ++ later)
            (run_thread f k running still fuel t')
  unfolding run_thread
  run_thread-message running still fuel msg_type t t' payload r e = rw (r, e, run_thread)

  run_thread-closed :
      (running still : ℕ → Bool) (fuel : ℕ) (t : S)
      → running fuel ≡ true
      → still fuel ≡ true
      → recv_message k t ≡ none
      → run_thread f k running still (suc fuel) t ≡ some (connection_lost ∷ [])
  unfolding run_thread
  run_thread-closed running still fuel t r u e = rw (r, e, u, run_thread)

  -- Suppose that parsing undoes serializing, that nobody stops the thread, and that its stream
  -- brings the server's messages, of at most 16 MB each, and then ends. Then, with more rounds than
  -- there are messages, the window gets exactly the signal of each message, in the order in which
  -- they were sent, and at last that the connection is lost.
  pub run_thread-Carries :
      (running still : ℕ → Bool) (fuel : ℕ) (ms : List ServerMessage) (bytes : List ℕ) (t : S)
      → AllRoundTrip f
      → ((n : ℕ) → running n ≡ true)
      → ((n : ℕ) → still n ≡ true)
      → Carries f ms bytes
      → incoming t ≡ bytes
      → length ms < fuel
      → run_thread f k running still fuel t ≡ some (map signal_of ms ++ connection_lost ∷ [])
  run_thread-Carries running still zero ms bytes t law run stay c e h = absurd (omega arith)
  run_thread-Carries running still (suc fuel) [] bytes t law run stay at_end e h =
      run_thread-closed running still fuel t (run fuel) (stay fuel)
        (recv_message_short k t (omega (arith, ap length e)))
  run_thread-Carries running still (suc fuel) (m ∷ ms) bytes t law run stay
        (next m' ms' payload rest ser fits c) e h =
      let (t', got, left) = recv_message-frame k t (type_of m) payload rest e fits in
      run_thread-message running still fuel (type_of m) t t' payload (run fuel) got
      ∙ ap (λ q. map_option (λ later. q ++ later) (run_thread f k running still fuel t'))
          (emit_message-serialize f m payload law ser)
      ∙ ap (map_option (λ later. signal_of m ∷ later))
          (run_thread-Carries running still fuel ms rest t' law run stay c left (omega arith))
