-- ===== src/Server/Invariant/Steps.antt =====
-- The registry of src/server/server.cpp under events and their sequences.
use simple_chat_protocol.Prelude.{
  ◌≡◌, sym, ap, ◌∙◌, ◌⊎◌, inl, inr, some, ℕ, List, [], ◌∷◌, if_cases, nat_equality, string_equality,
}
use simple_chat_protocol.Prelude.Map.{find}
use simple_chat_protocol.Messages.{World}
use simple_chat_protocol.Server.State.{Server, SessionInfo}
use simple_chat_protocol.Server.Client.{dispatch, cleanup}
use simple_chat_protocol.Server.Lifecycle.{accept, new_server, open_listener}
use simple_chat_protocol.Server.Invariant.Requests.{dispatch-IsConsistent}
use simple_chat_protocol.Server.Invariant.Endings.{
  cleanup-IsConsistent, watchdog_round-IsConsistent, stop-IsConsistent,
}
use simple_chat_protocol.Server.Events.{
  Event, message, hangup, wake, connect, shut, start, step, run,
}
use simple_chat_protocol.Server.Registry.{IsConsistent}

-- Whatever event happens, a consistent registry stays consistent.
pub step-IsConsistent :
    (w : World) (e : Event) (s : Server) → IsConsistent s → IsConsistent (step w e s)
unfolding step accept
step-IsConsistent w (message now fd msg_type payload) s h =
    let after = dispatch w now fd msg_type payload s in
    let h' : IsConsistent after.0 = dispatch-IsConsistent w now fd payload s h msg_type in
    if_cases IsConsistent after.1 (cleanup fd after.0) after.0
      (λ _. cleanup-IsConsistent fd after.0 h') (λ _. h')
step-IsConsistent w (hangup fd) s h = cleanup-IsConsistent fd s h
step-IsConsistent w (wake now) s h = watchdog_round-IsConsistent now s h
step-IsConsistent w (connect fd) s h = h
step-IsConsistent w shut s h = stop-IsConsistent s h

pub run-IsConsistent :
    (w : World) (es : List Event) (s : Server) → IsConsistent s → IsConsistent (run w es s)
unfolding run
run-IsConsistent w [] s h = h
run-IsConsistent w (e ∷ es) s h = run-IsConsistent w es (step w e s) (step-IsConsistent w e s h)

pub start-IsConsistent : (timeout fd : ℕ) → IsConsistent (start timeout fd)
unfolding find new_server open_listener
start-IsConsistent timeout fd = record {
  distinct_sessions = tt;
  distinct_names = tt;
  distinct_ips = tt;
  indexed = λ j i e. cc;
  name_owner = λ u j e. absurd (cc);
  ip_owner = λ a j e. absurd (cc);
}

-- In every state that the server reaches from its start, the registry is consistent: the three maps
-- agree, no socket, name or address is listed twice, and each session stands under its own socket,
-- has a name and a status that it was given, and is alive unless the server has stopped.
pub run-start-IsConsistent :
    (w : World) (timeout fd : ℕ) (es : List Event) → IsConsistent (run w es (start timeout fd))
run-start-IsConsistent w timeout fd es =
    run-IsConsistent w es (start timeout fd) (start-IsConsistent timeout fd)

-- In every state that the server reaches, two sessions with the same name, or with the same
-- address, are the session of one connection.
run-start_unique :
    (w : World) (timeout fd : ℕ) (es : List Event) (j k : ℕ) (a b : SessionInfo)
    → find j (run w es (start timeout fd)).sessions ≡ some a
    → find k (run w es (start timeout fd)).sessions ≡ some b
    → (a.username ≡ b.username) ⊎ (a.ip ≡ b.ip)
    → j ≡ k
run-start_unique w timeout fd es j k a b here there same =
    let s = run w es (start timeout fd) in
    let h = run-start-IsConsistent w timeout fd es in
    let one = h.indexed j a here in
    let other = h.indexed k b there in
    elim same [
      | inl e ↦ some-inj (sym one.name ∙ ap (λ u. find u s.username_to_fd) e ∙ other.name)
      | inr e ↦ some-inj (sym one.address ∙ ap (λ u. find u s.ip_to_fd) e ∙ other.address)
    ]
  where
    some-inj : {x y : ℕ} → some x ≡ some y → x ≡ y
    some-inj e = cc
