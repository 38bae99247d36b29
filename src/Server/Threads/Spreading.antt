-- ===== src/Server/Threads/Spreading.antt =====
-- A thread of src/server/server.cpp that has sends before it and nothing else.
use simple_chat_protocol.Prelude.{
  map, ℕ, Bool, true, false, ◌≡◌, ◌≢◌, refl, sym, ap, subst, ◌∙◌, none, some, List, [], ◌∷◌, ◌++◌,
  Option, All, if_cases, if_both, ◌==◌, ==_iff, not, ◌&&◌, nat_equality, string_equality,
}
use mathlib.Core.List.{append-nil, append_assoc}
use simple_chat_protocol.Messages.{World}
use simple_chat_protocol.Server.State.{Sent, Server}
use simple_chat_protocol.Server.Threads.{transmit, Act, Reading}
use simple_chat_protocol.Server.Threads.Doing.{carry_out}
use simple_chat_protocol.Server.Threads.Machine.{
  Threads, Move, receive, lose, advance, open_client, awake, alert, begin_stop, end_stop, is_quiet,
  mark_idle, send_alert, is_unused, proceed, do_move, play,
}
use simple_chat_protocol.Server.Threads.Putting.{put_other}
use simple_chat_protocol.Server.Threads.Promises.{next_send, sent_by, said}

-- The moves by which the thread of `j` does not read a new message.
abbrev pub IsQuiet : ℕ → Move → Type 0
IsQuiet j (receive fd msg_type payload) = fd ≢ j
IsQuiet j (lose fd) = fd ≢ j
IsQuiet j _ = Unit

module _ (w : World) (j : ℕ) where
  -- The thread has sent the first of the messages, and has the others before it.
  abbrev Spreads : List Sent → Option (List Act) → List Sent → Type 0
  Spreads targets o sends =
      (done left : List Sent) × (targets ≡ done ++ left)
      × (o ≡ some (map transmit left))
      × (sends ≡ done)

  unmoved :
      (targets : List Sent) (o o' : Option (List Act))
      → o' ≡ o
      → o ≡ some (map transmit targets)
      → Spreads targets o' []
  unmoved targets o o' e here = ([], targets, refl, e ∙ here, refl)

  proceed-Spreads :
      (now : ℕ) (reading : Reading) (targets : List Sent) (s : Server)
      → Spreads targets
          (proceed now reading j (some (map transmit targets)) s).0
          (next_send (some (map transmit targets)))
  unfolding proceed carry_out
  proceed-Spreads now reading [] s = ([], [], refl, refl, refl)
  proceed-Spreads now reading (m ∷ targets) s = (m ∷ [], targets, refl, refl, refl)

  used :
      (b : Bool) (o : Option (List Act)) (acts : List Act)
      → (b && is_unused o) ≡ true
      → o ≡ some acts
      → ⊥
  used b none acts free e = cc
  used true (some acts') acts free e = cc
  used false (some acts') acts free e = cc

  module _ (t : Threads) (targets : List Sent) (here : t.todo j ≡ some (map transmit targets)) where
    mark_idle-todo : (now : ℕ) (l : List Sent) → (mark_idle now l t).todo j ≡ t.todo j
    unfolding mark_idle
    mark_idle-todo now [] = refl
    mark_idle-todo now (m ∷ later) = refl

    send_alert-todo : (l : List Sent) → (send_alert l t).todo j ≡ t.todo j
    unfolding send_alert
    send_alert-todo [] = refl
    send_alert-todo (m ∷ later) = refl

    abbrev Mine : ℕ → Reading → Option (List Act) → ℕ → Type 0
    Mine now reading o k = Spreads targets (proceed now reading k o t.server).0 (next_send o)

    do_move-Spreads :
        (m : Move) → IsQuiet j m → Spreads targets ((do_move w m t).todo j) (sent_by j m t)
    unfolding do_move
    do_move-Spreads (receive fd msg_type payload) quiet =
        unmoved targets (t.todo j) _ (put_other fd j _ t.todo quiet) here
    do_move-Spreads (lose fd) quiet =
        unmoved targets (t.todo j) _ (put_other fd j _ t.todo quiet) here
    do_move-Spreads (advance now reading fd) quiet =
        if_both (Spreads targets) (fd == j) _ (t.todo j) _ []
          (λ e.
            subst (λ k. Mine now reading (t.todo k) k) (sym ((==_iff fd j).0 e))
              (subst (λ o. Mine now reading o j) (sym here)
                (proceed-Spreads now reading targets t.server)))
          (λ _. unmoved targets (t.todo j) _ refl here)
    do_move-Spreads (open_client fd) quiet =
        if_cases (λ (q : Threads). Spreads targets (q.todo j) [])
          (t.server.running && is_unused (t.todo fd)) _ t
          (λ free.
            unmoved targets (t.todo j) _
              (put_other fd j (some []) t.todo
                λ e. used t.server.running (t.todo fd) _ free (ap t.todo e ∙ here))
              here)
          (λ _. unmoved targets (t.todo j) _ refl here)
    do_move-Spreads (awake now) quiet =
        if_cases (λ (q : Threads). Spreads targets (q.todo j) []) t.server.running
          (mark_idle now t.alerts t) t
          (λ _. unmoved targets (t.todo j) _ (mark_idle-todo now t.alerts) here)
          (λ _. unmoved targets (t.todo j) _ refl here)
    do_move-Spreads alert quiet = unmoved targets (t.todo j) _ (send_alert-todo t.alerts) here
    do_move-Spreads begin_stop quiet = unmoved targets (t.todo j) _ refl here
    do_move-Spreads end_stop quiet =
        if_cases (λ (q : Threads). Spreads targets (q.todo j) [])
          (not t.server.running && is_quiet t.alerts) _ t
          (λ _. unmoved targets (t.todo j) _ refl here)
          (λ _. unmoved targets (t.todo j) _ refl here)

  play-Spreads :
      (ms : List Move) (t : Threads) (targets : List Sent)
      → t.todo j ≡ some (map transmit targets)
      → All (IsQuiet j) ms
      → Spreads targets ((play w ms t).todo j) (said w j ms t)
  unfolding play said
  play-Spreads [] t targets here quiet = ([], targets, refl, here, refl)
  play-Spreads (m ∷ ms) t targets here quiet =
      let (done, left, e, here', s) = do_move-Spreads t targets here m quiet.0 in
      let (done', left', e', here'', s') = play-Spreads ms (do_move w m t) left here' quiet.1 in
      (
        done ++ done',
        left',
        e ∙ ap (◌++◌ done) e' ∙ sym (append_assoc done done' left'),
        here'',
        ap (λ l. l ++ said w j ms (do_move w m t)) s ∙ ap (◌++◌ done) s',
      )

  nothing_left : (left : List Sent) → some [] ≡ some (map transmit left) → left ≡ []
  nothing_left [] e = refl
  nothing_left (m ∷ left) e = absurd (cc)

  -- A thread with these messages before it has sent them all when it waits again.
  pub play-sends :
      (ms : List Move) (t : Threads) (targets : List Sent)
      → t.todo j ≡ some (map transmit targets)
      → All (IsQuiet j) ms
      → (play w ms t).todo j ≡ some []
      → said w j ms t ≡ targets
  play-sends ms t targets here quiet back =
      let (done, left, e, here', s) = play-Spreads ms t targets here quiet in
      s ∙ sym (e ∙ ap (◌++◌ done) (nothing_left left (sym back ∙ here')) ∙ append-nil done)
