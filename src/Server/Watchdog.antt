-- ===== src/Server/Watchdog.antt =====
-- `watchdog_loop` of src/server/server.cpp: inactivity detection.
use simple_chat_protocol.Prelude.{
  ℕ, ◌-◌, ◌/◌, ◌^◌, Bool, true, not, ◌&&◌, List, [], ◌∷◌, ◌==◌, ◌<>◌, leb, to_string, if◌then◌else◌,
}
use simple_chat_protocol.Prelude.Map.{Map}
use simple_chat_protocol.Protocol.Status.{invisible}
use simple_chat_protocol.Protocol.StatusCode
use simple_chat_protocol.Server.State.{SessionInfo, Server}
use simple_chat_protocol.Server.Sending.{send_response_direct}
use simple_chat_protocol.Server.Session.{set_status}

abbrev pub second : ℕ
second = 10 ^ 9

-- `elapsed >= idle_timeout_sec_`. The activity may be later than `now`, which is read before the
-- lock is taken; then the elapsed seconds, rounded towards zero, are zero or negative.
unfoldable pub is_idle : ℕ → ℕ → SessionInfo → Bool
is_idle timeout now session =
    if leb session.last_activity now
    then leb timeout ((now - session.last_activity) / second)
    else timeout == 0 && (session.last_activity - now) / second == 0

-- The two `continue` lines and the test of the elapsed time.
unfoldable pub times_out : ℕ → ℕ → SessionInfo → Bool
times_out timeout now session =
    session.alive && not (session.status == invisible) && is_idle timeout now session

-- session->status = chat::INVISIBLE, with `manual_status` as it is
abbrev pub mark : ℕ → ℕ → SessionInfo → SessionInfo
mark timeout now session =
    if times_out timeout now session
    then set_status invisible session.manual_status session
    else session

-- The pass over `sessions_`: the sessions after it, and `to_notify`.
unfoldable pub mark_all : ℕ → ℕ → Map ℕ SessionInfo → Map ℕ SessionInfo
unfolding times_out
mark_all timeout now [] = []
mark_all timeout now ((fd, session) ∷ m) = (fd, mark timeout now session) ∷ mark_all timeout now m

unfoldable pub to_notify : ℕ → ℕ → Map ℕ SessionInfo → List SessionInfo
unfolding times_out
to_notify timeout now [] = []
to_notify timeout now ((fd, session) ∷ m) =
    if times_out timeout now session
    then session ∷ to_notify timeout now m
    else to_notify timeout now m

unfoldable pub notify_all : List SessionInfo → Server → Server
unfolding send_response_direct
notify_all [] s = s
notify_all (session ∷ rest) s = notify_all rest (
    send_response_direct session StatusCode.auto_inactive
      ("You have been marked INACTIVO due to inactivity (" <> to_string s.idle_timeout_sec <> "s)")
      true s)

-- One round of the loop behind the sleep.
unfoldable pub watchdog_round : ℕ → Server → Server
unfolding mark_all to_notify notify_all
watchdog_round now s =
    notify_all (to_notify s.idle_timeout_sec now s.sessions)
      (record s { sessions = mark_all s.idle_timeout_sec now s.sessions })

-- The loop over the readings of the clock after each sleep.
unfoldable pub watchdog_loop : List ℕ → Server → Server
unfolding watchdog_round
watchdog_loop [] s = s
watchdog_loop (now ∷ later) s =
    let rest = watchdog_loop later (watchdog_round now s) in if s.running then rest else s
