-- ===== src/Server/Invariant/Endings.antt =====
-- The registry under the removal of a session, the watchdog and `stop` of src/server/server.cpp.
use simple_chat_protocol.Prelude.{
  ℕ, String, Bool, false, ◌≡◌, refl, sym, ap, subst, ◌∙◌, Option, none, some, List, [], ◌∷◌, arith,
  option_cases, nat_equality, string_equality,
}
use simple_chat_protocol.Prelude.Map.{
  map_option-eq-some, Map, find, Distinct, map_option, erase-modify_self,
}
use simple_chat_protocol.Server.State.{SessionInfo, Server}
use simple_chat_protocol.Server.Session.{set_dead, remove_session}
use simple_chat_protocol.Server.Client.{cleanup, close}
use simple_chat_protocol.Server.Watchdog.{mark, mark_all, notify_all, to_notify, watchdog_round}
use simple_chat_protocol.Server.Lifecycle.{
  kill_all, close_all, close_listener, stop_listening, stop_clients, stop,
}
use simple_chat_protocol.Server.Registry.{
  IsConsistent, Registry, IsIndexed, Keeps, Registry-refresh,
}
use simple_chat_protocol.Server.Registry.Removal.{Registry-erase}

pub remove_session-IsConsistent :
    (fd : ℕ) (s : Server) → IsConsistent s → IsConsistent (remove_session fd s)
unfolding remove_session
remove_session-IsConsistent fd s h =
    option_cases IsConsistent (find fd s.sessions) s _ (λ _. h)
      λ i here.
        rw erase-modify_self
          (Registry-erase s.running s.sessions s.username_to_fd s.ip_to_fd fd i h here)

pub cleanup-IsConsistent : (fd : ℕ) (s : Server) → IsConsistent s → IsConsistent (cleanup fd s)
unfolding cleanup
cleanup-IsConsistent fd s h = remove_session-IsConsistent fd s h

-- The watchdog writes a status and nothing else.
Keeps-mark : (timeout now : ℕ) → Keeps (mark timeout now)
Keeps-mark timeout now = record {
  username = λ i. ground arith;
  ip = λ i. ground arith;
  socket_fd = λ i. ground arith;
  alive = λ i. ground arith;
  settled = λ i h. ground (arith, h.manual, h.current);
}

pub find-mark_all :
    (timeout now : ℕ) (m : Map ℕ SessionInfo) (fd : ℕ)
    → find fd (mark_all timeout now m) ≡ map_option (mark timeout now) (find fd m)
unfolding find mark_all
find-mark_all timeout now [] fd = refl
find-mark_all timeout now ((j, i) ∷ m) fd = ground (arith, find-mark_all timeout now m fd)

mark_all-Distinct :
    (timeout now : ℕ) (m : Map ℕ SessionInfo) → Distinct m → Distinct (mark_all timeout now m)
unfolding mark_all
mark_all-Distinct timeout now [] d = tt
mark_all-Distinct timeout now ((j, i) ∷ m) d = (
  find-mark_all timeout now m j ∙ ap (map_option (mark timeout now)) d.0,
  mark_all-Distinct timeout now m d.1,
)

notify_all-IsConsistent :
    (rest : List SessionInfo) (s : Server) → IsConsistent s → IsConsistent (notify_all rest s)
unfolding notify_all
notify_all-IsConsistent [] s h = h
notify_all-IsConsistent (i ∷ rest) s h = notify_all-IsConsistent rest _ h

-- The critical section of the watchdog.
pub mark_all-IsConsistent :
    (now : ℕ) (s : Server)
    → IsConsistent s
    → IsConsistent (record s { sessions = mark_all s.idle_timeout_sec now s.sessions })
mark_all-IsConsistent now s h =
    Registry-refresh s.sessions (mark_all s.idle_timeout_sec now s.sessions)
      (λ _. mark s.idle_timeout_sec now) (λ _. Keeps-mark s.idle_timeout_sec now)
      (find-mark_all s.idle_timeout_sec now s.sessions)
      (mark_all-Distinct s.idle_timeout_sec now s.sessions h.distinct_sessions) h

pub watchdog_round-IsConsistent :
    (now : ℕ) (s : Server) → IsConsistent s → IsConsistent (watchdog_round now s)
unfolding watchdog_round
watchdog_round-IsConsistent now s h =
    notify_all-IsConsistent (to_notify s.idle_timeout_sec now s.sessions) _
      (mark_all-IsConsistent now s h)

pub find-kill_all :
    (m : Map ℕ SessionInfo) (fd : ℕ) → find fd (kill_all m) ≡ map_option set_dead (find fd m)
unfolding find kill_all
find-kill_all [] fd = refl
find-kill_all ((j, i) ∷ m) fd = ground (arith, find-kill_all m fd)

kill_all-Distinct : (m : Map ℕ SessionInfo) → Distinct m → Distinct (kill_all m)
unfolding kill_all
kill_all-Distinct [] d = tt
kill_all-Distinct ((j, i) ∷ m) d =
    (find-kill_all m j ∙ ap (map_option set_dead) d.0, kill_all-Distinct m d.1)

IsIndexed-dead :
    {live : Bool} {names ips : Map String ℕ} (fd : ℕ) (i : SessionInfo)
    → IsIndexed live names ips fd i
    → IsIndexed false names ips fd (set_dead i)
IsIndexed-dead fd i x = record {
  socket = x.socket;
  name = x.name;
  address = x.address;
  named = x.named;
  alive = λ e. cc;
  settled = record { manual = x.settled.manual; current = x.settled.current };
}

-- `stop` ends the promise that a session is alive, and keeps the rest.
Registry-stopped :
    {live : Bool} {names ips : Map String ℕ} (m : Map ℕ SessionInfo)
    → Registry live m names ips
    → Registry false (kill_all m) names ips
Registry-stopped {names = names} {ips = ips} m r = record {
  distinct_sessions = kill_all-Distinct m r.distinct_sessions;
  distinct_names = r.distinct_names;
  distinct_ips = r.distinct_ips;
  indexed = λ fd i e.
      let (old, here, is) =
        map_option-eq-some set_dead (find fd m) i (sym (find-kill_all m fd) ∙ e) in
      subst (IsIndexed false names ips fd) is (IsIndexed-dead fd old (r.indexed fd old here));
  name_owner = λ u fd e.
      let (i, here, is) = r.name_owner u fd e in
      (set_dead i, find-kill_all m fd ∙ ap (map_option set_dead) here, is);
  ip_owner = λ a fd e.
      let (i, here, is) = r.ip_owner a fd e in
      (set_dead i, find-kill_all m fd ∙ ap (map_option set_dead) here, is);
}

close_all-IsConsistent :
    (m : Map ℕ SessionInfo) (s : Server) → IsConsistent s → IsConsistent (close_all m s)
unfolding close_all
close_all-IsConsistent [] s h = h
close_all-IsConsistent ((fd, i) ∷ m) s h = close_all-IsConsistent m (close fd s) h

pub stop_clients-IsConsistent :
    (s : Server) → IsConsistent s → s.running ≡ false → IsConsistent (stop_clients s)
unfolding stop_clients
stop_clients-IsConsistent s h e = close_all-IsConsistent s.sessions _ (
    subst (λ b. Registry b (kill_all s.sessions) s.username_to_fd s.ip_to_fd) (sym e)
      (Registry-stopped s.sessions h))

IsConsistent-stopped : (s : Server) → IsConsistent s → IsConsistent (record s { running = false })
IsConsistent-stopped s h = record {
  distinct_sessions = h.distinct_sessions;
  distinct_names = h.distinct_names;
  distinct_ips = h.distinct_ips;
  indexed = λ fd i e.
      let x = h.indexed fd i e in
      record {
        socket = x.socket;
        name = x.name;
        address = x.address;
        named = x.named;
        alive = λ e. cc;
        settled = x.settled;
      };
  name_owner = h.name_owner;
  ip_owner = h.ip_owner;
}

pub close_listener_cases :
    (P : Server → Type 0) (o : Option ℕ) (s : Server)
    → P s
    → ((fd : ℕ) → P (record (close fd s) { listen_fd = none }))
    → P (close_listener o s)
close_listener_cases P none s p q = p
close_listener_cases P (some fd) s p q = q fd

pub stop_listening-IsConsistent : (s : Server) → IsConsistent s → IsConsistent (stop_listening s)
unfolding stop_listening
stop_listening-IsConsistent s h =
    close_listener_cases IsConsistent s.listen_fd (record s { running = false })
      (IsConsistent-stopped s h) (λ fd. IsConsistent-stopped s h)

pub sessions-close_all :
    (m : Map ℕ SessionInfo) (s : Server) → (close_all m s).sessions ≡ s.sessions
unfolding close_all close
sessions-close_all [] s = refl
sessions-close_all ((fd, i) ∷ m) s = sessions-close_all m (close fd s)

pub sessions-stop_listening : (s : Server) → (stop_listening s).sessions ≡ s.sessions
unfolding stop_listening
sessions-stop_listening s =
    close_listener_cases (λ q. q.sessions ≡ s.sessions) s.listen_fd (record s { running = false })
      refl (λ fd. refl)

pub running-stop_listening : (s : Server) → (stop_listening s).running ≡ false
unfolding stop_listening
running-stop_listening s =
    close_listener_cases (λ q. q.running ≡ false) s.listen_fd (record s { running = false }) refl
      (λ fd. refl)

pub stop-IsConsistent : (s : Server) → IsConsistent s → IsConsistent (stop s)
unfolding stop
stop-IsConsistent s h =
    stop_clients-IsConsistent (stop_listening s) (stop_listening-IsConsistent s h)
      (running-stop_listening s)
