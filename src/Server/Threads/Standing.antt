-- ===== src/Server/Threads/Standing.antt =====
-- Threads of src/server/server.cpp and the sessions of their connections, as the sessions change.
use simple_chat_protocol.Prelude.{
  ℕ, ◌≡◌, ◌≢◌, ap, subst, ◌∙◌, inl, inr, none, some, List, [], ◌∷◌, Option, if_cases, false, ◌==◌,
  ==_iff, arith, nat_equality, string_equality,
}
use simple_chat_protocol.Prelude.Map.{Map, find, map_option}
use simple_chat_protocol.Server.State.{SessionInfo, Server}
use simple_chat_protocol.Server.Session.{set_dead}
use simple_chat_protocol.Server.Lifecycle.{stop_clients, kill_all}
use simple_chat_protocol.Server.Watchdog.{mark, mark_all}
use simple_chat_protocol.Server.Invariant.Endings.{find-mark_all, find-kill_all, sessions-close_all}
use simple_chat_protocol.Server.Threads.{Act}
use simple_chat_protocol.Server.Threads.Machine.{leave_recv, put}
use simple_chat_protocol.Server.Threads.Orderly.{IsOrderly}
use simple_chat_protocol.Server.Threads.Parts.{Stands}

pub Stands-same :
    (j : ℕ) (o : Option (List Act)) (m m' : Map ℕ SessionInfo)
    → find j m' ≡ find j m
    → Stands j o m
    → Stands j o m'
Stands-same j none m m' e h = e ∙ h
Stands-same j (some acts) m m' e (inl orderly) = inl orderly
Stands-same j (some acts) m m' e (inr (last, absent)) = inr (last, e ∙ absent)

pub put-Stands :
    (fd : ℕ) (o : Option (List Act)) (f : ℕ → Option (List Act)) (m : Map ℕ SessionInfo)
    → Stands fd o m
    → ((j : ℕ) → fd ≢ j → Stands j (f j) m)
    → (j : ℕ) → Stands j (put fd o f j) m
put-Stands fd o f m here there j =
    if_cases (λ o'. Stands j o' m) (fd == j) o (f j)
      (λ e. subst (λ k. Stands k o m) ((==_iff fd j).0 e) here)
      (λ e. there j (λ same. absurd (other e same)))
  where
    other : (fd == j) ≡ false → fd ≡ j → ⊥
    other e same = ground (arith, e, same)

pub leave_recv-Stands :
    (fd : ℕ) (acts : List Act) (o : Option (List Act)) (m : Map ℕ SessionInfo)
    → IsOrderly acts
    → Stands fd o m
    → Stands fd (leave_recv acts o) m
leave_recv-Stands fd acts none m orderly h = h
leave_recv-Stands fd acts (some []) m orderly h = inl orderly
leave_recv-Stands fd acts (some (a ∷ rest)) m orderly h = h

pub mark_all-Stands :
    (timeout now j : ℕ) (o : Option (List Act)) (m : Map ℕ SessionInfo)
    → Stands j o m
    → Stands j o (mark_all timeout now m)
mark_all-Stands timeout now j none m h =
    find-mark_all timeout now m j ∙ ap (map_option (mark timeout now)) h
mark_all-Stands timeout now j (some acts) m (inl orderly) = inl orderly
mark_all-Stands timeout now j (some acts) m (inr (last, absent)) =
    inr (last, find-mark_all timeout now m j ∙ ap (map_option (mark timeout now)) absent)

pub find-stop_clients :
    (s : Server) (j : ℕ)
    → find j (stop_clients s).sessions ≡ map_option set_dead (find j s.sessions)
unfolding stop_clients
find-stop_clients s j =
    ap (find j) (sessions-close_all s.sessions (record s { sessions = kill_all s.sessions }))
    ∙ find-kill_all s.sessions j

pub stop_clients-Stands :
    (j : ℕ) (o : Option (List Act)) (s : Server)
    → Stands j o s.sessions
    → Stands j o (stop_clients s).sessions
stop_clients-Stands j none s h = find-stop_clients s j ∙ ap (map_option set_dead) h
stop_clients-Stands j (some acts) s (inl orderly) = inl orderly
stop_clients-Stands j (some acts) s (inr (last, absent)) =
    inr (last, find-stop_clients s j ∙ ap (map_option set_dead) absent)
