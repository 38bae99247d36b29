-- ===== src/Server/Connection.antt =====
-- A whole run of `handle_client` of src/server/server.cpp.
use simple_chat_protocol.Prelude.{
  ℕ, zero, suc, ◌<◌, ◌≡◌, refl, sym, ap, ◌∙◌, All, Option, none, some, List, [], ◌∷◌, arith, length,
  if_cases, option_cases, if◌then◌else◌, nat_equality,
}
use simple_chat_protocol.Prelude.Map.{find, map_option, erase-modify_self}
use simple_chat_protocol.Wire.Socket.{Socket}
use simple_chat_protocol.Wire.Frame.{recv_message}
use simple_chat_protocol.Wire.Progress.{recv_message_takes}
use simple_chat_protocol.Messages.{World}
use simple_chat_protocol.Server.State.{Server}
use simple_chat_protocol.Server.Client.{dispatch, cleanup, read_messages, handle_client}
use simple_chat_protocol.Server.Events.{Event, message, hangup, step, run}
use simple_chat_protocol.Server.Registry.{IsConsistent}
use simple_chat_protocol.Server.Invariant.Requests.{dispatch-IsConsistent}
use simple_chat_protocol.Server.Registration.{find-erase_self}

-- No session is left of a connection that has been cleaned up.
find-cleanup : (fd : ℕ) (s : Server) → IsConsistent s → find fd (cleanup fd s).sessions ≡ none
unfolding cleanup
find-cleanup fd s h =
    option_cases (λ (q : Server). find fd q.sessions ≡ none) (find fd s.sessions) s _ (λ e. e)
      λ i here. rw erase-modify_self (find-erase_self fd s.sessions h.distinct_sessions)

-- What the thread of a connection does.
pub data IsOf (fd : ℕ) : Event → Type 0 where
  of_message : (now msg_type : ℕ) (payload : List ℕ) → IsOf fd (message now fd msg_type payload)
  of_hangup : IsOf fd (hangup fd)

module _ (k : Socket) (w : World) (clock : ℕ → ℕ) (fd : ℕ) where
  open k use {S, incoming}

  -- Results of the read loop whose cleanup gives the state after some events, with no session left.
  abbrev pub EndsAsRun : Server → Option Server → Type 0
  EndsAsRun s result =
      (es : List Event) × All (IsOf fd) es
      × (result ≡ some (run w es s))
      × (find fd (run w es s).sessions ≡ none)

  ends_here : (s : Server) → IsConsistent s → EndsAsRun s (some (cleanup fd s))
  unfolding run step
  ends_here s h = (hangup fd ∷ [], (of_hangup, tt), refl, find-cleanup fd s h)

  ends_after :
      (now msg_type : ℕ) (payload : List ℕ) (s : Server) (rest : Option Server)
      → IsConsistent s
      → EndsAsRun (dispatch w now fd msg_type payload s).0 (map_option (cleanup fd) rest)
      → EndsAsRun s (
          map_option (cleanup fd) (
            if (dispatch w now fd msg_type payload s).1
            then some (dispatch w now fd msg_type payload s).0
            else rest))
  unfolding run step
  ends_after now msg_type payload s rest h (es, of_fd, ended, gone) =
      let next = dispatch w now fd msg_type payload s in
      let e = message now fd msg_type payload in
      if_cases (λ o. EndsAsRun s (map_option (cleanup fd) o)) next.1 (some next.0) rest
        (λ quits.
          let after : step w e s ≡ cleanup fd next.0 = ground (arith, quits) in
          (
            e ∷ [],
            (of_message now msg_type payload, tt),
            ap some (sym after),
            ap (λ (q : Server). find fd q.sessions) after
                ∙ find-cleanup fd next.0 (dispatch-IsConsistent w now fd payload s h msg_type),
          ))
        (λ stays.
          let after : step w e s ≡ next.0 = ground (arith, stays) in
          (
            e ∷ es,
            (of_message now msg_type payload, of_fd),
            ended ∙ ap (λ q. some (run w es q)) (sym after),
            ap (λ q. find fd (run w es q).sessions) after ∙ gone,
          ))

  read_messages_end :
      (fuel : ℕ) (t : S) (s : Server)
      → length (incoming t) < fuel
      → IsConsistent s
      → EndsAsRun s (map_option (cleanup fd) (read_messages k w clock fd fuel t s))
  unfolding read_messages
  read_messages_end zero t s f h = absurd (omega arith)
  read_messages_end (suc fuel) t s f h =
      let P : Option Server → Type 0 = λ o. EndsAsRun s (map_option (cleanup fd) o) in
      if_cases P s.running _ _
        (λ _.
          option_cases P (recv_message k t) (some s) _ (λ _. ends_here s h)
            λ got here. ends_after (clock fuel) got.0.0 got.0.1 s _ h (
              read_messages_end fuel got.1 _
                (omega (arith, f, recv_message_takes k t got.1 got.0 here))
                (dispatch-IsConsistent w (clock fuel) fd got.0.1 s h got.0.0)))
        (λ _. ends_here s h)

  -- From a consistent registry, with one more round than there are bytes to come,
  -- `handle_client` ends, whatever arrives and in
  -- whatever chunks. Its whole effect is that of a run of messages and hangups of this
  -- connection, and the connection has no session any more.
  pub handle_client-EndsAsRun :
      (fuel : ℕ) (t : S) (s : Server)
      → length (incoming t) < fuel
      → IsConsistent s
      → EndsAsRun s (handle_client k w clock fd fuel t s)
  unfolding handle_client
  handle_client-EndsAsRun fuel t s f h = read_messages_end fuel t s f h
