-- ===== src/Server/Threads/Promises.antt =====
-- What a thread of src/server/server.cpp sends while the others act between its parts.
use simple_chat_protocol.Prelude.{
  ℕ, String, ◌≡◌, refl, sym, ap, subst, ◌∙◌, none, some, List, [], ◌∷◌, ◌++◌, Option, if_cases,
  option_cases, if◌then◌else◌, ◌==◌, not, false, ◌&&◌, is_empty, nat_equality, string_equality,
}
use mathlib.Core.List.{Sublistᴰ, append-nil, append_assoc}
use mathlib.Core.List.Sublistᴰ
use simple_chat_protocol.Prelude.Map.{Map, find, count}
use simple_chat_protocol.Messages.{World}
use simple_chat_protocol.Server.State.{SessionInfo, Sent, Server}
use simple_chat_protocol.Server.Session.{is_auto_inactive}
use simple_chat_protocol.Server.Handlers.{register_user}
use simple_chat_protocol.Server.Lifecycle.{
  accept, stop_listening, stop_clients, close_all, kill_all,
}
use simple_chat_protocol.Server.Client.{close}
use simple_chat_protocol.Server.Invariant.Endings.{close_listener_cases}
use simple_chat_protocol.Server.Threads.{
  Act, Reading, transmit, enroll, restore, touch, write_status, collect, seek, deliver, gather, ask,
  report, remove, leave,
}
use simple_chat_protocol.Server.Threads.Doing.{carry_out}
use simple_chat_protocol.Server.Threads.Machine.{
  Threads, Move, receive, lose, advance, open_client, awake, alert, begin_stop, end_stop, is_quiet,
  mark_idle, send_alert, is_unused, proceed, do_move, play,
}

-- What the thread with these parts sends next, if its next part is a send.
abbrev pub next_send : Option (List Act) → List Sent
next_send (some (transmit m ∷ rest)) = m ∷ []
next_send _ = []

-- What the thread of `j` sends by a move, and by moves.
abbrev pub sent_by : ℕ → Move → Threads → List Sent
sent_by j (advance now reading fd) t = if fd == j then next_send (t.todo fd) else []
sent_by j _ t = []

module _ (w : World) where
  unfoldable pub said : ℕ → List Move → Threads → List Sent
  unfolding do_move
  said j [] t = []
  said j (m ∷ ms) t = sent_by j m t ++ said j ms (do_move w m t)

nil-Sublistᴰ {ℓ} : {A : Type ℓ} (l : List A) → Sublistᴰ [] l
nil-Sublistᴰ [] = Sublistᴰ.slnil
nil-Sublistᴰ (x ∷ l) = Sublistᴰ.cons (nil-Sublistᴰ l)

-- The log of `s'` is that of `s` and more, and what is added has `l` in its order.
abbrev pub Adds : List Sent → Server → Server → Type 0
Adds l s s' = (more : List Sent) × (s'.sent ≡ s.sent ++ more) × Sublistᴰ l more

Adds-nothing : (s : Server) → Adds [] s s
Adds-nothing s = ([], sym (append-nil s.sent), Sublistᴰ.slnil)

Adds-one : (m : Sent) (s : Server) → Adds [] s (record s { sent = s.sent ++ m ∷ [] })
Adds-one m s = (m ∷ [], refl, nil-Sublistᴰ (m ∷ []))

register_user-Adds :
    (now fd : ℕ) (username peer_ip : String) (s : Server)
    → Adds [] s (register_user now fd username peer_ip s)
unfolding register_user
register_user-Adds now fd username peer_ip s =
    if_cases (Adds [] s) (is_empty username) _ _ (λ _. Adds-one _ s)
      λ _.
        option_cases (Adds [] s) (find fd s.sessions) _ _
          (λ _.
            if_cases (Adds [] s) (count username s.username_to_fd) _ _ (λ _. Adds-one _ s)
              λ _.
                if_cases (Adds [] s) (count peer_ip s.ip_to_fd) _ _ (λ _. Adds-one _ s)
                  (λ _. Adds-one _ s))
          (λ i _. Adds-one _ s)

module _ (now : ℕ) (reading : Reading) (fd : ℕ) where
  carry_out-Adds :
      (a : Act) (rest : List Act) (s : Server)
      → Adds (next_send (some (a ∷ rest))) s (carry_out now reading fd a rest s).1
  unfolding carry_out
  carry_out-Adds (transmit m) rest s = (m ∷ [], refl, Sublistᴰ.cons-cons refl Sublistᴰ.slnil)
  carry_out-Adds (enroll username peer_ip) rest s = register_user-Adds now fd username peer_ip s
  carry_out-Adds restore rest s =
      let P : Option (List Act) × Server → Type 0 = λ r. Adds [] s r.1 in
      option_cases P (find fd s.sessions) _ _ (λ _. Adds-nothing s)
        λ i _. if_cases P (is_auto_inactive i) _ _ (λ _. Adds-nothing s) (λ _. Adds-nothing s)
  carry_out-Adds touch rest s = Adds-nothing s
  carry_out-Adds (write_status t) rest s = Adds-nothing s
  carry_out-Adds (collect sender text) rest s = Adds-nothing s
  carry_out-Adds (seek session dest_user text) rest s = Adds-nothing s
  carry_out-Adds (deliver p m) rest s = Adds-nothing s
  carry_out-Adds (gather session) rest s = Adds-nothing s
  carry_out-Adds (ask session target_user) rest s = Adds-nothing s
  carry_out-Adds (report session target) rest s = Adds-nothing s
  carry_out-Adds remove rest s =
      option_cases (λ (q : Server). Adds [] s q) (find fd s.sessions) s _ (λ _. Adds-nothing s)
        (λ i _. Adds-nothing s)
  carry_out-Adds leave rest s = Adds-nothing s

  proceed-Adds :
      (o : Option (List Act)) (s : Server) → Adds (next_send o) s (proceed now reading fd o s).1
  unfolding proceed
  proceed-Adds none s = Adds-nothing s
  proceed-Adds (some []) s = Adds-nothing s
  proceed-Adds (some (a ∷ rest)) s = carry_out-Adds a rest s

send_alert-Adds : (l : List Sent) (t : Threads) → Adds [] t.server (send_alert l t).server
unfolding send_alert
send_alert-Adds [] t = Adds-nothing t.server
send_alert-Adds (m ∷ later) t = Adds-one m t.server

mark_idle-Adds :
    (now : ℕ) (l : List Sent) (t : Threads) → Adds [] t.server (mark_idle now l t).server
unfolding mark_idle
mark_idle-Adds now [] t = Adds-nothing t.server
mark_idle-Adds now (m ∷ later) t = Adds-nothing t.server

-- A log `l` in which nothing is missing.
abbrev Silent : Server → List Sent → Type 0
Silent s l = (more : List Sent) × (l ≡ s.sent ++ more) × Sublistᴰ [] more

sent-close_all : (m : Map ℕ SessionInfo) (s : Server) → (close_all m s).sent ≡ s.sent
unfolding close_all close
sent-close_all [] s = refl
sent-close_all ((fd, i) ∷ m) s = sent-close_all m (close fd s)

sent-stop_clients : (s : Server) → (stop_clients s).sent ≡ s.sent
unfolding stop_clients
sent-stop_clients s = sent-close_all s.sessions (record s { sessions = kill_all s.sessions })

sent-stop_listening : (s : Server) → (stop_listening s).sent ≡ s.sent
unfolding stop_listening
sent-stop_listening s =
    close_listener_cases (λ q. q.sent ≡ s.sent) s.listen_fd (record s { running = false }) refl
      (λ fd. refl)

module _ (w : World) (j : ℕ) where
  do_move-Adds : (m : Move) (t : Threads) → Adds (sent_by j m t) t.server (do_move w m t).server
  unfolding do_move accept
  do_move-Adds (receive fd msg_type payload) t = Adds-nothing t.server
  do_move-Adds (lose fd) t = Adds-nothing t.server
  do_move-Adds (advance now reading fd) t =
      let (more, e, part) = proceed-Adds now reading fd (t.todo fd) t.server in
      if_cases (λ l. Adds l t.server (proceed now reading fd (t.todo fd) t.server).1) (fd == j) _ []
        (λ _. (more, e, part)) (λ _. (more, e, nil-Sublistᴰ more))
  do_move-Adds (open_client fd) t =
      if_cases (λ (q : Threads). Adds [] t.server q.server)
        (t.server.running && is_unused (t.todo fd)) _ t (λ _. Adds-nothing t.server)
        (λ _. Adds-nothing t.server)
  do_move-Adds (awake now) t =
      if_cases (λ (q : Threads). Adds [] t.server q.server) t.server.running
        (mark_idle now t.alerts t) t (λ _. mark_idle-Adds now t.alerts t)
        (λ _. Adds-nothing t.server)
  do_move-Adds alert t = send_alert-Adds t.alerts t
  do_move-Adds begin_stop t =
      subst (λ l. Silent t.server l) (sym (sent-stop_listening t.server)) (Adds-nothing t.server)
  do_move-Adds end_stop t =
      if_cases (λ (q : Threads). Adds [] t.server q.server)
        (not t.server.running && is_quiet t.alerts) _ t
        (λ _.
          subst (λ l. Silent t.server l) (sym (sent-stop_clients t.server)) (Adds-nothing t.server))
        (λ _. Adds-nothing t.server)

  pub play-Adds :
      (ms : List Move) (t : Threads) → Adds (said w j ms t) t.server (play w ms t).server
  unfolding play said
  play-Adds [] t = Adds-nothing t.server
  play-Adds (m ∷ ms) t =
      let (first, e, part) = do_move-Adds m t in
      let (later, e', part') = play-Adds ms (do_move w m t) in
      (
        first ++ later,
        e' ∙ ap (λ l. l ++ later) e ∙ append_assoc t.server.sent first later,
        Sublistᴰ.append part part',
      )
