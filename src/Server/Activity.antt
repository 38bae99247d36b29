-- ===== src/Server/Activity.antt =====
-- What `maybe_restore_activity` of src/server/server.cpp does to a state.
use simple_chat_protocol.Prelude.{
  ℕ, true, ◌≡◌, some, List, [], ◌∷◌, ◌++◌, arith, ◌==◌, if◌then◌else◌, nat_equality,
}
use mathlib.Core.List.{append-nil}
use simple_chat_protocol.Prelude.Map.{find, modify, find-modify, keys, keys-modify}
use simple_chat_protocol.Protocol.Status.{active}
use simple_chat_protocol.Protocol.StatusCode
use simple_chat_protocol.Server.State.{SessionInfo, Sent, Server}
use simple_chat_protocol.Server.Session.{
  is_auto_inactive, maybe_restore_activity, set_status, set_last_activity,
}
use simple_chat_protocol.Server.Registration.{answer}

-- The notice to a user whom the watchdog had made invisible.
abbrev pub notice : ℕ → SessionInfo → List Sent
notice fd i =
    if is_auto_inactive i
    then answer fd StatusCode.status_restored "Status restored to ACTIVO after inactivity period"
        true
      ∷ []
    else []

-- The session after an activity at `now`.
abbrev pub restored : ℕ → SessionInfo → SessionInfo
restored now i =
    set_last_activity now (if is_auto_inactive i then set_status active active i else i)

module _ (fd now : ℕ) (i : SessionInfo) (s : Server) where
  pub sent-restore :
      i.socket_fd ≡ fd → (maybe_restore_activity fd i now s).sent ≡ s.sent ++ notice fd i
  unfolding maybe_restore_activity
  sent-restore e = ground (arith, e, append-nil s.sent)

  pub names-restore : (maybe_restore_activity fd i now s).username_to_fd ≡ s.username_to_fd
  unfolding maybe_restore_activity
  names-restore = ground arith

  pub running-restore : (maybe_restore_activity fd i now s).running ≡ s.running
  unfolding maybe_restore_activity
  running-restore = ground arith

  pub keys-restore : keys (maybe_restore_activity fd i now s).sessions ≡ keys s.sessions
  unfolding maybe_restore_activity
  keys-restore = ground (
    arith,
    keys-modify fd (set_last_activity now) s.sessions,
    keys-modify fd (set_last_activity now) (modify fd (set_status active active) s.sessions),
    keys-modify fd (set_status active active) s.sessions,
  )

  -- The session of the connection is restored and touched, the others are left alone.
  pub find-restore :
      (j : ℕ)
      → find fd s.sessions ≡ some i
      → find j (maybe_restore_activity fd i now s).sessions
        ≡ (if fd == j then some (restored now i) else find j s.sessions)
  unfolding maybe_restore_activity
  find-restore j e = ground (
    arith,
    e,
    find-modify fd j (set_last_activity now) s.sessions,
    find-modify fd j (set_last_activity now) (modify fd (set_status active active) s.sessions),
    find-modify fd j (set_status active active) s.sessions,
  )
