-- ===== src/Server/Leaving.antt =====
-- What is left of a connection that ends in src/server/server.cpp, by `handle_quit` or otherwise.
use mathlib.Core.List.{append-nil}
use simple_chat_protocol.Prelude.{
  subst, inl, inr, Option-cases, ℕ, true, ◌≡◌, refl, sym, ap, ◌∙◌, Option, none, some, List, [],
  ◌∷◌, ◌++◌, arith, ◌==◌, if◌then◌else◌, option_cases, nat_equality,
}
use simple_chat_protocol.Prelude.Map.{find, find-erase, erase-modify_self}
use simple_chat_protocol.Protocol.MsgType
use simple_chat_protocol.Protocol.StatusCode
use simple_chat_protocol.Messages.{World, Quit}
use simple_chat_protocol.Server.State.{SessionInfo, Sent, Server}
use simple_chat_protocol.Server.Handlers.{handle_quit}
use simple_chat_protocol.Server.Client.{dispatch, close, cleanup}
use simple_chat_protocol.Server.Events.{message, step}
use simple_chat_protocol.Server.Registry.{IsConsistent}
use simple_chat_protocol.Server.Registration.{answer}

-- The connection is closed and has no session, and no other session has changed.
pub record IsGone (fd : ℕ) (s s' : Server) : Type 0 where
  pub sessions : (j : ℕ) → find j s'.sessions ≡ (if fd == j then none else find j s.sessions)
  pub closed : s'.closed ≡ s.closed ++ fd ∷ []

cleanup-IsGone : (fd : ℕ) (s : Server) → IsConsistent s → IsGone fd s (cleanup fd s)
unfolding cleanup close
cleanup-IsGone fd s h = record {
  sessions = λ j.
      option_cases
        (λ (q : Server). find j q.sessions ≡ (if fd == j then none else find j s.sessions))
        (find fd s.sessions) s _ (λ e. ground (arith, e))
        λ i here. rw erase-modify_self (find-erase fd j s.sessions h.distinct_sessions);
  closed =
      option_cases (λ (q : Server). q.closed ++ fd ∷ [] ≡ s.closed ++ fd ∷ []) (find fd s.sessions)
        s _ (λ _. refl) (λ i here. refl);
}

pub sent-cleanup : (fd : ℕ) (s : Server) → (cleanup fd s).sent ≡ s.sent
unfolding cleanup close
sent-cleanup fd s =
    option_cases (λ (q : Server). q.sent ≡ s.sent) (find fd s.sessions) s _ (λ _. refl)
      (λ i here. refl)

-- What a user is told who quits.
abbrev pub farewell : ℕ → Option Quit → List Sent
farewell fd none = []
farewell fd (some q) = answer fd StatusCode.ok_quit "Goodbye!" true ∷ []

handle_quit_lem :
    (w : World) (now fd : ℕ) (payload : List ℕ) (i : SessionInfo) (s : Server)
    → find fd s.sessions ≡ some i
    → i.socket_fd ≡ fd
    → handle_quit w now fd payload s
      ≡ record s { sent = s.sent ++ farewell fd (w.quit.parse_from_string payload) }
unfolding handle_quit
handle_quit_lem w now fd payload i s found socket =
    elim (Option-cases (w.quit.parse_from_string payload)) [
      | inl e ↦ rw (e, handle_quit) (ground (arith, append-nil s.sent))
      | inr (q, e) ↦ rw (e, found, handle_quit) (ground (arith, socket))
    ]

step-quit :
    (w : World) (now fd : ℕ) (payload : List ℕ) (s : Server)
    → step w (message now fd MsgType.quit payload) s ≡ cleanup fd (handle_quit w now fd payload s)
unfolding step dispatch
step-quit w now fd payload s = refl

-- In a consistent registry, a registered user who quits is told goodbye, with code 203, unless the
-- message does not parse; then in either case the connection is closed, its session is gone, and no
-- other session has changed.
pub step_quit-IsGone :
    (w : World) (now fd : ℕ) (payload : List ℕ) (i : SessionInfo) (s : Server)
    → IsConsistent s
    → find fd s.sessions ≡ some i
    → IsGone fd s (step w (message now fd MsgType.quit payload) s)
      × ((step w (message now fd MsgType.quit payload) s).sent
          ≡ s.sent ++ farewell fd (w.quit.parse_from_string payload))
step_quit-IsGone w now fd payload i s h found =
    let said = s.sent ++ farewell fd (w.quit.parse_from_string payload) in
    let s' : Server = record s { sent = said } in
    let gone = cleanup-IsGone fd s' h in
    subst (λ t. IsGone fd s t × (t.sent ≡ said))
      (sym (
        step-quit w now fd payload s
        ∙ ap (cleanup fd)
            (handle_quit_lem w now fd payload i s found (h.indexed fd i found).socket)))
      (record { sessions = gone.sessions; closed = gone.closed }, sent-cleanup fd s')
