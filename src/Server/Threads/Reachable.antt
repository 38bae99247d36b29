-- ===== src/Server/Threads/Reachable.antt =====
-- The states of src/server/server.cpp that its threads reach, however they interleave.
use simple_chat_protocol.Prelude.{
  ℕ, String, ◌≡◌, ◌≢◌, refl, sym, ap, subst, inl, inr, none, some, List, [], ◌∷◌, Option, if_cases,
  Bool, true, false, not, ◌&&◌, nat_equality, string_equality,
}
use simple_chat_protocol.Prelude.Map.{find}
use simple_chat_protocol.Messages.{World}
use simple_chat_protocol.Server.State.{Sent, Server}
use simple_chat_protocol.Server.Lifecycle.{accept, new_server, open_listener}
use simple_chat_protocol.Server.Registry.{IsConsistent}
use simple_chat_protocol.Server.Invariant.Endings.{
  mark_all-IsConsistent, stop_listening-IsConsistent, stop_clients-IsConsistent,
  sessions-stop_listening,
}
use simple_chat_protocol.Server.Invariant.Steps.{start-IsConsistent}
use simple_chat_protocol.Server.Threads.{Act, Reading, plan_message, ending}
use simple_chat_protocol.Server.Threads.Doing.{carry_out}
use simple_chat_protocol.Server.Threads.Machine.{
  Threads, Move, receive, lose, advance, open_client, awake, alert, begin_stop, end_stop, is_quiet,
  proceed, mark_idle, send_alert, is_unused, do_move, play, begin,
}
use simple_chat_protocol.Server.Threads.Orderly.{plan_message-IsOrderly}
use simple_chat_protocol.Server.Threads.Standing.{
  Stands-same, put-Stands, leave_recv-Stands, mark_all-Stands, stop_clients-Stands,
}
use simple_chat_protocol.Server.Threads.Parts.{
  Stands, carry_out-IsConsistent, carry_out-Stands, carry_out-others,
}

-- The registry is consistent, and each thread stands well towards the session of its connection.
pub record IsSound (t : Threads) : Type 0 where
  pub registry : IsConsistent t.server
  pub stands : (fd : ℕ) → Stands fd (t.todo fd) t.server.sessions

module _ (now : ℕ) (reading : Reading) (fd : ℕ) (s : Server) (h : IsConsistent s) where
  -- What a part leaves, of the thread that does it.
  abbrev IsGood : Option (List Act) × Server → Type 0
  IsGood r = IsConsistent r.1 × Stands fd r.0 r.1.sessions

  proceed-IsGood :
      (o : Option (List Act)) → Stands fd o s.sessions → IsGood (proceed now reading fd o s)
  unfolding proceed carry_out
  proceed-IsGood none stand = (h, stand)
  proceed-IsGood (some []) stand = (h, stand)
  proceed-IsGood (some (a ∷ rest)) (inl o) = (
    carry_out-IsConsistent now reading fd a rest s o h,
    carry_out-Stands now reading fd a rest s o h,
  )
  proceed-IsGood (some (a ∷ rest)) (inr (last, absent)) =
      subst (λ acts. IsGood (proceed now reading fd (some acts) s)) (sym last) (h, absent)

  pub proceed-others :
      (o : Option (List Act)) (j : ℕ)
      → fd ≢ j
      → find j (proceed now reading fd o s).1.sessions ≡ find j s.sessions
  unfolding proceed
  proceed-others none j other = refl
  proceed-others (some []) j other = refl
  proceed-others (some (a ∷ rest)) j other = carry_out-others now reading fd a rest s j h other

mark_idle-IsSound :
    (now : ℕ) (l : List Sent) (t : Threads) → IsSound t → IsSound (mark_idle now l t)
unfolding mark_idle
mark_idle-IsSound now [] t h = record {
  registry = mark_all-IsConsistent now t.server h.registry;
  stands = λ j.
      mark_all-Stands t.server.idle_timeout_sec now j (t.todo j) t.server.sessions (h.stands j);
}
mark_idle-IsSound now (m ∷ later) t h = h

send_alert-IsSound : (l : List Sent) (t : Threads) → IsSound t → IsSound (send_alert l t)
unfolding send_alert
send_alert-IsSound [] t h = h
send_alert-IsSound (m ∷ later) t h = record { registry = h.registry; stands = h.stands }

halted : (running quiet : Bool) → (not running && quiet) ≡ true → running ≡ false
halted true quiet e = absurd (cc)
halted false quiet e = refl

-- Nothing is known of the connection.
pub record IsAbsent (j : ℕ) (s : Server) : Type 0 where
  pub session : find j s.sessions ≡ none
  pub names : (u : String) → find u s.username_to_fd ≢ some j
  pub ips : (a : String) → find a s.ip_to_fd ≢ some j

pub IsSound-IsAbsent : (j : ℕ) (t : Threads) → IsSound t → t.todo j ≡ none → IsAbsent j t.server
IsSound-IsAbsent j t h e =
    let absent : find j t.server.sessions ≡ none =
      subst (λ o. Stands j o t.server.sessions) e (h.stands j) in
    record {
      session = absent;
      names = λ u found. let (i, here, is) = h.registry.name_owner u j found in cc (absent, here);
      ips = λ a found. let (i, here, is) = h.registry.ip_owner a j found in cc (absent, here);
    }

module _ (w : World) where
  pub do_move-IsSound : (m : Move) (t : Threads) → IsSound t → IsSound (do_move w m t)
  unfolding do_move accept
  do_move-IsSound (receive fd msg_type payload) t h = record {
    registry = h.registry;
    stands =
        put-Stands fd _ t.todo t.server.sessions
          (leave_recv-Stands fd (plan_message w fd payload msg_type t.server) (t.todo fd)
            t.server.sessions (plan_message-IsOrderly w fd payload msg_type t.server) (h.stands fd))
          (λ j _. h.stands j);
  }
  do_move-IsSound (lose fd) t h = record {
    registry = h.registry;
    stands =
        put-Stands fd _ t.todo t.server.sessions
          (leave_recv-Stands fd ending (t.todo fd) t.server.sessions refl (h.stands fd))
          (λ j _. h.stands j);
  }
  do_move-IsSound (advance now reading fd) t h =
      let good = proceed-IsGood now reading fd t.server h.registry (t.todo fd) (h.stands fd) in
      record {
        registry = good.0;
        stands = put-Stands fd _ t.todo _ good.1 (λ j other.
            Stands-same j (t.todo j) t.server.sessions _
              (proceed-others now reading fd t.server h.registry (t.todo fd) j other) (h.stands j));
      }
  do_move-IsSound (open_client fd) t h =
      if_cases IsSound (t.server.running && is_unused (t.todo fd)) _ t
        (λ _. record {
          registry = h.registry;
          stands = put-Stands fd (some []) t.todo t.server.sessions (inl tt) (λ j _. h.stands j);
        })
        (λ _. h)
  do_move-IsSound (awake now) t h =
      if_cases IsSound t.server.running (mark_idle now t.alerts t) t
        (λ _. mark_idle-IsSound now t.alerts t h) (λ _. h)
  do_move-IsSound alert t h = send_alert-IsSound t.alerts t h
  do_move-IsSound begin_stop t h = record {
    registry = stop_listening-IsConsistent t.server h.registry;
    stands = λ j.
        Stands-same j (t.todo j) t.server.sessions _
          (ap (find j) (sessions-stop_listening t.server)) (h.stands j);
  }
  do_move-IsSound end_stop t h =
      if_cases IsSound (not t.server.running && is_quiet t.alerts) _ t
        (λ stopped. record {
          registry =
              stop_clients-IsConsistent t.server h.registry
                (halted t.server.running (is_quiet t.alerts) stopped);
          stands = λ j. stop_clients-Stands j (t.todo j) t.server (h.stands j);
        })
        (λ _. h)

  pub play-IsSound : (ms : List Move) (t : Threads) → IsSound t → IsSound (play w ms t)
  unfolding play
  play-IsSound [] t h = h
  play-IsSound (m ∷ ms) t h = play-IsSound ms (do_move w m t) (do_move-IsSound m t h)

  pub begin-IsSound : (timeout fd : ℕ) → IsSound (begin timeout fd)
  unfolding find new_server open_listener
  begin-IsSound timeout fd = record { registry = start-IsConsistent timeout fd; stands = λ j. refl }

  -- In every state that the threads reach from the server's start, however their parts interleave,
  -- the registry is consistent: the three maps agree, no socket, name or address is listed twice,
  -- and each session stands under its own socket, has a name and a status that it was given, and is
  -- alive unless `stop` was called.
  pub play-begin-IsConsistent :
      (timeout fd : ℕ) (ms : List Move) → IsConsistent (play w ms (begin timeout fd)).server
  play-begin-IsConsistent timeout fd ms =
      (play-IsSound ms (begin timeout fd) (begin-IsSound timeout fd)).registry

  -- In every state that the threads reach from the server's start, a descriptor without a thread
  -- has no session, and no name and no address lead to it.
  pub play-begin_unused :
      (timeout fd : ℕ) (ms : List Move) (j : ℕ)
      → (play w ms (begin timeout fd)).todo j ≡ none
      → IsAbsent j (play w ms (begin timeout fd)).server
  play-begin_unused timeout fd ms j e =
      IsSound-IsAbsent j (play w ms (begin timeout fd))
        (play-IsSound ms (begin timeout fd) (begin-IsSound timeout fd)) e
