-- ===== src/Server/Stopping.antt =====
-- The state after `stop` of src/server/server.cpp.
use simple_chat_protocol.Prelude.{
  ℕ, false, ◌≡◌, refl, ap, ◌∙◌, Option, none, some, List, [], ◌∷◌, ◌++◌, map, arith, nat_equality,
}
use mathlib.Core.List.{append-nil, append_assoc}
use simple_chat_protocol.Prelude.Map.{Map, keys}
use simple_chat_protocol.Server.State.{SessionInfo, Server}
use simple_chat_protocol.Server.Client.{close}
use simple_chat_protocol.Server.Lifecycle.{kill_all, close_all, close_listener, stop}

abbrev pub listener : Option ℕ → List ℕ
listener none = []
listener (some fd) = fd ∷ []

-- An entry whose session is on record as dead.
abbrev pub as_dead : ℕ × SessionInfo → ℕ × SessionInfo
as_dead (fd, i) = (fd, record i { alive = false })

kill_all_lem : (m : Map ℕ SessionInfo) → kill_all m ≡ map as_dead m
unfolding kill_all
kill_all_lem [] = refl
kill_all_lem ((fd, i) ∷ m) = ap (◌∷◌ (as_dead (fd, i))) (kill_all_lem m)

keys-kill_all : (m : Map ℕ SessionInfo) → keys (kill_all m) ≡ keys m
unfolding kill_all
keys-kill_all [] = refl
keys-kill_all ((fd, i) ∷ m) = ap (◌∷◌ fd) (keys-kill_all m)

close_all_lem :
    (m : Map ℕ SessionInfo) (s : Server) → close_all m s ≡ record s { closed = s.closed ++ keys m }
unfolding close_all close
close_all_lem [] s = ground (arith, append-nil s.closed)
close_all_lem ((fd, i) ∷ m) s =
    close_all_lem m (close fd s)
    ∙ ap (λ (a : List ℕ). record s { closed = a }) (append_assoc s.closed (fd ∷ []) (keys m))

close_listener_lem :
    (o : Option ℕ) (s : Server)
    → s.listen_fd ≡ o
    → close_listener o s ≡ record s { listen_fd = none; closed = s.closed ++ listener o }
unfolding close
close_listener_lem none s e = ground (arith, e, append-nil s.closed)
close_listener_lem (some fd) s e = refl

-- `stop` ends the loops, closes the listening socket, if there is one, and then the socket of each
-- session, once each and no other. Each session stays in the registry with `alive` false, and
-- nothing else changes: nothing is sent, and a connection without a session stays open.
pub stop_lem :
    (s : Server)
    → stop s ≡ record s {
      running = false;
      listen_fd = none;
      sessions = map as_dead s.sessions;
      closed = (s.closed ++ listener s.listen_fd) ++ keys s.sessions;
    }
unfolding stop
stop_lem s =
    ap (λ (q : Server). close_all q.sessions (record q { sessions = kill_all q.sessions }))
      (close_listener_lem s.listen_fd (record s { running = false }) refl)
    ∙ close_all_lem s.sessions _
    ∙ ap
        (λ (m : Map ℕ SessionInfo). record s {
          running = false;
          listen_fd = none;
          sessions = m;
          closed = (s.closed ++ listener s.listen_fd) ++ keys s.sessions;
        })
        (kill_all_lem s.sessions)
