-- ===== src/Server/Watching.antt =====
-- Whom a round of the watchdog of src/server/server.cpp marks and tells.
use simple_chat_protocol.Prelude.{
  ℕ, ◌+◌, ◌*◌, ◌<◌, Bool, true, not, ◌&&◌, ◌≡◌, refl, sym, ap, ◌∙◌, Option, none, some, List, [],
  ◌∷◌, ◌++◌, arith, map, All, ◌<>◌, ◌==◌, leb, to_string, if◌then◌else◌, nat_equality,
}
use mathlib.Core.List.{append-nil, append_assoc}
use simple_chat_protocol.Prelude.Map.{Map, find, map_option, All-entries}
use simple_chat_protocol.Protocol.Status.{invisible}
use simple_chat_protocol.Protocol.StatusCode
use simple_chat_protocol.Server.State.{SessionInfo, Sent, Server}
use simple_chat_protocol.Server.Watchdog.{
  second, is_idle, times_out, mark, mark_all, to_notify, notify_all, watchdog_round,
}
use simple_chat_protocol.Server.Registry.{IsConsistent}
use simple_chat_protocol.Server.Invariant.Endings.{find-mark_all}
use simple_chat_protocol.Server.Registration.{answer}

-- Connected, not INVISIBLE, and without activity for `timeout` seconds.
abbrev pub idles_for : ℕ → ℕ → SessionInfo → Bool
idles_for timeout now i =
    i.alive && not (i.status == invisible) && leb (i.last_activity + timeout * second) now

times_out_lem :
    (timeout now : ℕ) (i : SessionInfo)
    → 0 < timeout
    → times_out timeout now i ≡ idles_for timeout now i
unfolding times_out is_idle
times_out_lem timeout now i h = ground arith

abbrev pub hide_idle : ℕ → ℕ → SessionInfo → SessionInfo
hide_idle timeout now i = if idles_for timeout now i then record i { status = invisible } else i

abbrev pub idle_notice : ℕ → ℕ → Sent
idle_notice timeout fd =
    answer fd StatusCode.auto_inactive
      ("You have been marked INACTIVO due to inactivity (" <> to_string timeout <> "s)") true

notify_all_lem :
    (l : List SessionInfo) (s : Server)
    → notify_all l s
      ≡ record s { sent = s.sent ++ map (λ i. idle_notice s.idle_timeout_sec i.socket_fd) l }
unfolding notify_all
notify_all_lem [] s = ground (arith, append-nil s.sent)
notify_all_lem (i ∷ l) s =
    notify_all_lem l (record s { sent = s.sent ++ idle_notice s.idle_timeout_sec i.socket_fd ∷ [] })
    ∙ ap (λ (a : List Sent). record s { sent = a }) (append_assoc s.sent _ _)

-- A round, with its messages as a list.
abbrev pub after_round : ℕ → Server → Server
after_round now s = record s {
  sessions = mark_all s.idle_timeout_sec now s.sessions;
  sent =
      s.sent
      ++ map (λ i. idle_notice s.idle_timeout_sec i.socket_fd)
          (to_notify s.idle_timeout_sec now s.sessions);
}

pub watchdog_round_lem : (now : ℕ) (s : Server) → watchdog_round now s ≡ after_round now s
unfolding watchdog_round
watchdog_round_lem now s = notify_all_lem (to_notify s.idle_timeout_sec now s.sessions) _

-- With a positive timeout, a round makes the users INVISIBLE who are connected, visible and
-- without activity for the timeout, whatever status they had chosen, which stays on record; it
-- changes no other session.
pub find-watchdog_round :
    (now fd : ℕ) (s : Server)
    → 0 < s.idle_timeout_sec
    → find fd (watchdog_round now s).sessions
      ≡ map_option (hide_idle s.idle_timeout_sec now) (find fd s.sessions)
find-watchdog_round now fd s h =
    rw (watchdog_round_lem now s) (find-mark_all s.idle_timeout_sec now s.sessions fd)
    ∙ hide (find fd s.sessions)
  where
    hide :
        (o : Option SessionInfo)
        → map_option (mark s.idle_timeout_sec now) o
          ≡ map_option (hide_idle s.idle_timeout_sec now) o
    hide none = refl
    hide (some i) = rw (times_out_lem s.idle_timeout_sec now i h)

-- The sockets of the idle users, in the order of the map.
abbrev pub idle_sockets : ℕ → ℕ → Map ℕ SessionInfo → List ℕ
idle_sockets timeout now [] = []
idle_sockets timeout now ((fd, i) ∷ m) =
    if idles_for timeout now i then fd ∷ idle_sockets timeout now m else idle_sockets timeout now m

notices :
    (timeout now : ℕ) (m : Map ℕ SessionInfo)
    → 0 < timeout
    → All (λ (e : ℕ × SessionInfo). e.1.socket_fd ≡ e.0) m
    → map (λ i. idle_notice timeout i.socket_fd) (to_notify timeout now m)
      ≡ map (idle_notice timeout) (idle_sockets timeout now m)
unfolding to_notify
notices timeout now [] h a = refl
notices timeout now ((fd, i) ∷ m) h a =
    ground (arith, notices timeout now m h a.1, a.0, times_out_lem timeout now i h)

-- In a consistent registry and with a positive timeout, a round tells each user who is
-- connected, visible and without activity for the timeout, and nobody else, with code 602 and
-- the timeout.
sent-watchdog_round :
    (now : ℕ) (s : Server)
    → IsConsistent s
    → 0 < s.idle_timeout_sec
    → (watchdog_round now s).sent
      ≡ s.sent
        ++ map (idle_notice s.idle_timeout_sec) (idle_sockets s.idle_timeout_sec now s.sessions)
sent-watchdog_round now s h t = rw (watchdog_round_lem now s) (
    ap (λ (a : List Sent). s.sent ++ a)
      (notices s.idle_timeout_sec now s.sessions t (
        All-entries (λ fd i. i.socket_fd ≡ fd) s.sessions h.distinct_sessions
          (λ fd i found. (h.indexed fd i found).socket))))

mark_all_twice :
    (timeout now : ℕ) (m : Map ℕ SessionInfo)
    → mark_all timeout now (mark_all timeout now m) ≡ mark_all timeout now m
unfolding mark_all
mark_all_twice timeout now [] = refl
mark_all_twice timeout now ((fd, i) ∷ m) = ground (arith, mark_all_twice timeout now m)

to_notify-mark_all :
    (timeout now : ℕ) (m : Map ℕ SessionInfo) → to_notify timeout now (mark_all timeout now m) ≡ []
unfolding to_notify mark_all
to_notify-mark_all timeout now [] = refl
to_notify-mark_all timeout now ((fd, i) ∷ m) = ground (arith, to_notify-mark_all timeout now m)

-- A second round at the same time changes nothing and tells nobody: it gives the state that the
-- first one gave.
watchdog_round_twice :
    (now : ℕ) (s : Server) → watchdog_round now (watchdog_round now s) ≡ watchdog_round now s
watchdog_round_twice now s =
    watchdog_round_lem now (watchdog_round now s)
    ∙ ap (after_round now) (watchdog_round_lem now s)
    ∙ ground (
      arith,
      mark_all_twice s.idle_timeout_sec now s.sessions,
      to_notify-mark_all s.idle_timeout_sec now s.sessions,
      append-nil (after_round now s).sent,
    )
    ∙ sym (watchdog_round_lem now s)
