-- ===== src/Server/Threads/Parts.antt =====
-- The registry of src/server/server.cpp under the parts of a thread.
use simple_chat_protocol.Prelude.{
  ℕ, ◌≡◌, ◌≢◌, ◌⊎◌, refl, inl, inr, none, some, List, [], ◌∷◌, Option, if_cases, option_cases,
  arith, nat_equality, string_equality,
}
use simple_chat_protocol.Prelude.Map.{
  Map, find, find-insert, find-modify, find-erase, erase-modify_self,
}
use simple_chat_protocol.Protocol.Status.{active}
use simple_chat_protocol.Server.State.{SessionInfo, Server}
use simple_chat_protocol.Server.Session.{
  remove_session, set_status, is_auto_inactive, set_last_activity, new_session, update_session,
  touch_activity,
}
use simple_chat_protocol.Server.Handlers.{live_sessions, find_user, register_user}
use simple_chat_protocol.Server.Registry.{IsConsistent, Registry-modify}
use simple_chat_protocol.Server.Registration.{find-erase_self}
use simple_chat_protocol.Server.Invariant.Bodies.{
  register_user-IsConsistent, touch_activity-IsConsistent, Keeps-set_status,
}
use simple_chat_protocol.Server.Invariant.Endings.{remove_session-IsConsistent}
use simple_chat_protocol.Server.Threads.{
  Act, Reading, point_to, is_alive, transmit, enroll, restore, touch, write_status, collect, seek,
  deliver, gather, ask, report, remove, leave,
}
use simple_chat_protocol.Server.Threads.Doing.{carry_out}
use simple_chat_protocol.Server.Threads.Orderly.{
  IsOrderly, announce-IsOrderly, on_dest-IsOrderly, on_target-IsOrderly,
}

-- Where a thread stands towards the session of its connection. Before its end it goes on in order;
-- when it has removed its session and has only its socket to close, and when it has ended, there is
-- no session.
abbrev pub Stands : ℕ → Option (List Act) → Map ℕ SessionInfo → Type 0
Stands fd none m = find fd m ≡ none
Stands fd (some acts) m = IsOrderly acts ⊎ ((acts ≡ leave ∷ []) × (find fd m ≡ none))

module _ (now : ℕ) (reading : Reading) (fd : ℕ) where
  pub carry_out-IsConsistent :
      (a : Act) (rest : List Act) (s : Server)
      → IsOrderly (a ∷ rest)
      → IsConsistent s
      → IsConsistent (carry_out now reading fd a rest s).1
  unfolding carry_out
  carry_out-IsConsistent (transmit m) rest s o h = h
  carry_out-IsConsistent (enroll username peer_ip) rest s o h =
      register_user-IsConsistent now fd username peer_ip s h
  carry_out-IsConsistent restore rest s o h =
      let P : Option (List Act) × Server → Type 0 = λ r. IsConsistent r.1 in
      option_cases P (find fd s.sessions) _ _ (λ _. h)
        λ i _.
          if_cases P (is_auto_inactive i) _ _
            (λ _.
              Registry-modify fd (set_status active active) s.sessions
                (Keeps-set_status active (omega arith)) h)
            (λ _. h)
  carry_out-IsConsistent touch rest s o h = touch_activity-IsConsistent fd now s h
  carry_out-IsConsistent (write_status t) rest s o h =
      Registry-modify fd (set_status t t) s.sessions (Keeps-set_status t o.0) h
  carry_out-IsConsistent (collect sender text) rest s o h = h
  carry_out-IsConsistent (seek session dest_user text) rest s o h = h
  carry_out-IsConsistent (deliver p m) rest s o h = h
  carry_out-IsConsistent (gather session) rest s o h = h
  carry_out-IsConsistent (ask session target_user) rest s o h = h
  carry_out-IsConsistent (report session target) rest s o h = h
  carry_out-IsConsistent remove rest s o h = remove_session-IsConsistent fd s h
  carry_out-IsConsistent leave rest s o h = absurd o

  find-removed : (s : Server) → IsConsistent s → find fd (remove_session fd s).sessions ≡ none
  unfolding remove_session
  find-removed s h =
      option_cases (λ (q : Server). find fd q.sessions ≡ none) (find fd s.sessions) s _ (λ e. e)
        λ i here. rw erase-modify_self (find-erase_self fd s.sessions h.distinct_sessions)

  pub carry_out-Stands :
      (a : Act) (rest : List Act) (s : Server)
      → IsOrderly (a ∷ rest)
      → IsConsistent s
      → Stands fd
          (carry_out now reading fd a rest s).0
          (carry_out now reading fd a rest s).1.sessions
  unfolding carry_out
  carry_out-Stands (transmit m) rest s o h = inl o
  carry_out-Stands (enroll username peer_ip) rest s o h = inl o
  carry_out-Stands restore rest s o h =
      let P : Option (List Act) × Server → Type 0 = λ r. Stands fd r.0 r.1.sessions in
      option_cases P (find fd s.sessions) _ _ (λ _. inl o)
        λ i _. if_cases P (is_auto_inactive i) _ _ (λ _. inl o) (λ _. inl o)
  carry_out-Stands touch rest s o h = inl o
  carry_out-Stands (write_status t) rest s o h = inl o.1
  carry_out-Stands (collect sender text) rest s o h =
      inl (announce-IsOrderly sender text (live_sessions s.sessions) rest o)
  carry_out-Stands (seek session dest_user text) rest s o h = inl (
      on_dest-IsOrderly session dest_user text (point_to dest_user s) (find_user dest_user s) rest
        o)
  carry_out-Stands (deliver p m) rest s o h =
      inl (if_cases IsOrderly (is_alive p s) (transmit m ∷ rest) rest (λ _. o) (λ _. o))
  carry_out-Stands (gather session) rest s o h = inl o
  carry_out-Stands (ask session target_user) rest s o h =
      inl (on_target-IsOrderly session target_user (find_user target_user s) rest o)
  carry_out-Stands (report session target) rest s o h = inl o
  carry_out-Stands remove rest s o h = inr (o, find-removed s h)
  carry_out-Stands leave rest s o h = absurd o

  -- A thread writes to the session of its own connection alone.
  pub carry_out-others :
      (a : Act) (rest : List Act) (s : Server) (j : ℕ)
      → IsConsistent s
      → fd ≢ j
      → find j (carry_out now reading fd a rest s).1.sessions ≡ find j s.sessions
  unfolding carry_out register_user update_session touch_activity
  carry_out-others (transmit m) rest s j h other = refl
  carry_out-others (enroll username peer_ip) rest s j h other =
      ground (arith, find-insert fd j (new_session username peer_ip fd now) s.sessions)
  carry_out-others restore rest s j h other =
      let P : Option (List Act) × Server → Type 0 = λ r. find j r.1.sessions ≡ find j s.sessions in
      option_cases P (find fd s.sessions) _ _ (λ _. refl)
        λ i _.
          if_cases P (is_auto_inactive i) _ _
            (λ _. ground (arith, find-modify fd j (set_status active active) s.sessions))
            (λ _. refl)
  carry_out-others touch rest s j h other =
      ground (arith, find-modify fd j (set_last_activity now) s.sessions)
  carry_out-others (write_status t) rest s j h other =
      ground (arith, find-modify fd j (set_status t t) s.sessions)
  carry_out-others (collect sender text) rest s j h other = refl
  carry_out-others (seek session dest_user text) rest s j h other = refl
  carry_out-others (deliver p m) rest s j h other = refl
  carry_out-others (gather session) rest s j h other = refl
  carry_out-others (ask session target_user) rest s j h other = refl
  carry_out-others (report session target) rest s j h other = refl
  carry_out-others remove rest s j h other =
      option_cases (λ (q : Server). find j q.sessions ≡ find j s.sessions) (find fd s.sessions) s _
        (λ _. refl)
        λ i here.
          rw erase-modify_self (ground (arith, find-erase fd j s.sessions h.distinct_sessions))
  carry_out-others leave rest s j h other = refl
