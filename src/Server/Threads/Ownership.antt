-- ===== src/Server/Threads/Ownership.antt =====
-- Who writes to a session of src/server/server.cpp.
use simple_chat_protocol.Prelude.{
  ℕ, ◌≡◌, ◌≢◌, ◌⊎◌, refl, ap, ◌∙◌, inl, inr, some, List, [], ◌∷◌, All, if_cases, not, ◌&&◌, false,
  nat_equality, string_equality,
}
use simple_chat_protocol.Prelude.Map.{Map, find, map_option}
use simple_chat_protocol.Protocol.Status.{invisible}
use simple_chat_protocol.Messages.{World}
use simple_chat_protocol.Server.State.{SessionInfo, Sent}
use simple_chat_protocol.Server.Session.{set_status, set_dead}
use simple_chat_protocol.Server.Lifecycle.{accept}
use simple_chat_protocol.Server.Watchdog.{mark, times_out}
use simple_chat_protocol.Server.Invariant.Endings.{find-mark_all, sessions-stop_listening}
use simple_chat_protocol.Server.Threads.Machine.{
  Threads, Move, receive, lose, advance, open_client, awake, alert, begin_stop, end_stop, is_quiet,
  mark_idle, send_alert, is_unused, do_move, play, begin,
}
use simple_chat_protocol.Server.Threads.Reachable.{
  IsSound, proceed-others, do_move-IsSound, play-IsSound, begin-IsSound,
}
use simple_chat_protocol.Server.Threads.Standing.{find-stop_clients}

-- The moves that are not of the thread of `j`, while it is inside a handler.
abbrev pub IsForeign : ℕ → Move → Type 0
IsForeign j (advance now reading fd) = fd ≢ j
IsForeign j _ = Unit

-- `i'` is `i`, but that it may have the status INVISIBLE or be dead.
pub record IsMarked (i i' : SessionInfo) : Type 0 where
  pub username : i'.username ≡ i.username
  pub ip : i'.ip ≡ i.ip
  pub socket_fd : i'.socket_fd ≡ i.socket_fd
  pub manual_status : i'.manual_status ≡ i.manual_status
  pub last_activity : i'.last_activity ≡ i.last_activity
  pub status : (i'.status ≡ i.status) ⊎ (i'.status ≡ invisible)
  pub alive : (i'.alive ≡ i.alive) ⊎ (i'.alive ≡ false)

-- Under `j` the map has the session `i`, possibly marked or dead.
abbrev pub Holds : ℕ → SessionInfo → Map ℕ SessionInfo → Type 0
Holds j i m = (i' : SessionInfo) × (find j m ≡ some i') × IsMarked i i'

IsMarked-invisible :
    (i i' : SessionInfo) → IsMarked i i' → IsMarked i (set_status invisible i'.manual_status i')
IsMarked-invisible i i' h = record {
  username = h.username;
  ip = h.ip;
  socket_fd = h.socket_fd;
  manual_status = h.manual_status;
  last_activity = h.last_activity;
  status = inr refl;
  alive = h.alive;
}

IsMarked-dead : (i i' : SessionInfo) → IsMarked i i' → IsMarked i (set_dead i')
IsMarked-dead i i' h = record {
  username = h.username;
  ip = h.ip;
  socket_fd = h.socket_fd;
  manual_status = h.manual_status;
  last_activity = h.last_activity;
  status = h.status;
  alive = inr refl;
}

IsMarked-refl : (i : SessionInfo) → IsMarked i i
IsMarked-refl i = record {
  username = refl;
  ip = refl;
  socket_fd = refl;
  manual_status = refl;
  last_activity = refl;
  status = inl refl;
  alive = inl refl;
}

mark-IsMarked :
    (timeout now : ℕ) (i i' : SessionInfo) → IsMarked i i' → IsMarked i (mark timeout now i')
unfolding times_out
mark-IsMarked timeout now i i' h =
    if_cases (IsMarked i) (times_out timeout now i') _ i' (λ _. IsMarked-invisible i i' h) (λ _. h)

mark_idle-Holds :
    (j now : ℕ) (i : SessionInfo) (l : List Sent) (t : Threads)
    → Holds j i t.server.sessions
    → Holds j i (mark_idle now l t).server.sessions
unfolding mark_idle
mark_idle-Holds j now i [] t (i', found, is) = (
  mark t.server.idle_timeout_sec now i',
  find-mark_all t.server.idle_timeout_sec now t.server.sessions j
      ∙ ap (map_option (mark t.server.idle_timeout_sec now)) found,
  mark-IsMarked t.server.idle_timeout_sec now i i' is,
)
mark_idle-Holds j now i (m ∷ later) t h = h

send_alert-Holds :
    (j : ℕ) (i : SessionInfo) (l : List Sent) (t : Threads)
    → Holds j i t.server.sessions
    → Holds j i (send_alert l t).server.sessions
unfolding send_alert
send_alert-Holds j i [] t h = h
send_alert-Holds j i (m ∷ later) t h = h

module _ (w : World) (j : ℕ) (i : SessionInfo) where
  do_move-Holds :
      (m : Move) (t : Threads)
      → IsSound t
      → IsForeign j m
      → Holds j i t.server.sessions
      → Holds j i (do_move w m t).server.sessions
  unfolding do_move accept
  do_move-Holds (receive fd msg_type payload) t h foreign held = held
  do_move-Holds (lose fd) t h foreign held = held
  do_move-Holds (advance now reading fd) t h foreign (i', found, is) =
      (i', proceed-others now reading fd t.server h.registry (t.todo fd) j foreign ∙ found, is)
  do_move-Holds (open_client fd) t h foreign held =
      if_cases (λ (q : Threads). Holds j i q.server.sessions)
        (t.server.running && is_unused (t.todo fd)) _ t (λ _. held) (λ _. held)
  do_move-Holds (awake now) t h foreign held =
      if_cases (λ (q : Threads). Holds j i q.server.sessions) t.server.running
        (mark_idle now t.alerts t) t (λ _. mark_idle-Holds j now i t.alerts t held) (λ _. held)
  do_move-Holds alert t h foreign held = send_alert-Holds j i t.alerts t held
  do_move-Holds begin_stop t h foreign (i', found, is) =
      (i', ap (find j) (sessions-stop_listening t.server) ∙ found, is)
  do_move-Holds end_stop t h foreign (i', found, is) =
      if_cases (λ (q : Threads). Holds j i q.server.sessions)
        (not t.server.running && is_quiet t.alerts) _ t
        (λ _. (
          set_dead i',
          find-stop_clients t.server j ∙ ap (map_option set_dead) found,
          IsMarked-dead i i' is,
        ))
        (λ _. (i', found, is))

  play-Holds :
      (ms : List Move) (t : Threads)
      → IsSound t
      → All (IsForeign j) ms
      → Holds j i t.server.sessions
      → Holds j i (play w ms t).server.sessions
  unfolding play
  play-Holds [] t h foreign held = held
  play-Holds (m ∷ ms) t h foreign held =
      play-Holds ms (do_move w m t) (do_move-IsSound w m t h) foreign.1
        (do_move-Holds m t h foreign.0 held)

  -- In every state that the threads reach from the server's start: while the thread of a connection
  -- takes no part of its own, and the others and the watchdog take any, the session of the
  -- connection stays where it is, and nothing of it changes but the status, which the watchdog may
  -- set to INVISIBLE, and that it may die by `stop`.
  pub play-begin_owned :
      (timeout fd : ℕ) (before ms : List Move)
      → find j (play w before (begin timeout fd)).server.sessions ≡ some i
      → All (IsForeign j) ms
      → Holds j i (play w ms (play w before (begin timeout fd))).server.sessions
  play-begin_owned timeout fd before ms found foreign =
      play-Holds ms (play w before (begin timeout fd))
        (play-IsSound w before (begin timeout fd) (begin-IsSound w timeout fd)) foreign
        (i, found, IsMarked-refl i)
