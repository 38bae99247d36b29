-- ===== src/Server/Threads/Progress.antt =====
-- That a thread of src/server/server.cpp keeps what it has to do until its turn comes.
use simple_chat_protocol.Prelude.{
  ℕ, zero, suc, ◌+◌, ◌≤◌, Bool, true, false, ◌≡◌, ap, subst, ◌∙◌, inl, inr, none, some, List, [],
  ◌∷◌, Option, if_cases, Bool-cases, ◌==◌, ==_iff, not, ◌&&◌, arith, nat_equality, string_equality,
}
use simple_chat_protocol.Messages.{World}
use simple_chat_protocol.Server.State.{Sent}
use simple_chat_protocol.Server.Threads.{Act}
use simple_chat_protocol.Server.Threads.Machine.{
  Threads, Move, receive, lose, advance, open_client, awake, alert, begin_stop, end_stop, is_quiet,
  mark_idle, send_alert, is_unused, leave_recv, put, do_move, after,
}

-- The move is of the thread of `j`, while it is inside a handler.
abbrev pub is_turn : ℕ → Move → Bool
is_turn j (advance now reading fd) = fd == j
is_turn j _ = false

module _ (w : World) (j : ℕ) (a : Act) (rest : List Act) where
  abbrev IsBusy : Threads → Type 0
  IsBusy t = t.todo j ≡ some (a ∷ rest)

  put_busy :
      (fd : ℕ) (o : Option (List Act)) (t : Threads)
      → IsBusy t
      → (fd ≡ j → o ≡ some (a ∷ rest))
      → put fd o t.todo j ≡ some (a ∷ rest)
  put_busy fd o t busy same =
      if_cases (λ o'. o' ≡ some (a ∷ rest)) (fd == j) o (t.todo j) (λ e. same ((==_iff fd j).0 e))
        (λ _. busy)

  leave_recv_busy :
      (fd : ℕ) (acts : List Act) (t : Threads)
      → IsBusy t
      → put fd (leave_recv acts (t.todo fd)) t.todo j ≡ some (a ∷ rest)
  leave_recv_busy fd acts t busy =
      put_busy fd _ t busy λ e. ap (λ k. leave_recv acts (t.todo k)) e ∙ ap (leave_recv acts) busy

  mark_idle-IsBusy : (now : ℕ) (l : List Sent) (t : Threads) → IsBusy t → IsBusy (mark_idle now l t)
  unfolding mark_idle
  mark_idle-IsBusy now [] t busy = busy
  mark_idle-IsBusy now (m ∷ later) t busy = busy

  send_alert-IsBusy : (l : List Sent) (t : Threads) → IsBusy t → IsBusy (send_alert l t)
  unfolding send_alert
  send_alert-IsBusy [] t busy = busy
  send_alert-IsBusy (m ∷ later) t busy = busy

  not_unused :
      (running : Bool) (o : Option (List Act))
      → (running && is_unused o) ≡ true
      → o ≡ some (a ∷ rest)
      → some [] ≡ some (a ∷ rest)
  not_unused running none free busy = absurd (cc)
  not_unused true (some acts) free busy = absurd (cc)
  not_unused false (some acts) free busy = absurd (cc)

  not_turn : (fd : ℕ) → (fd == j) ≡ false → fd ≡ j → ⊥
  not_turn fd other e = ground arith

  -- The moves of the others leave alone what the thread has to do.
  pub do_move-IsBusy :
      (m : Move) (t : Threads) → IsBusy t → is_turn j m ≡ false → IsBusy (do_move w m t)
  unfolding do_move
  do_move-IsBusy (receive fd msg_type payload) t busy other = leave_recv_busy fd _ t busy
  do_move-IsBusy (lose fd) t busy other = leave_recv_busy fd _ t busy
  do_move-IsBusy (advance now reading fd) t busy other =
      put_busy fd _ t busy λ e. absurd (not_turn fd other e)
  do_move-IsBusy (open_client fd) t busy other =
      if_cases IsBusy (t.server.running && is_unused (t.todo fd)) _ t
        (λ free.
          put_busy fd (some []) t busy
            λ e. not_unused t.server.running (t.todo fd) free (ap t.todo e ∙ busy))
        (λ _. busy)
  do_move-IsBusy (awake now) t busy other =
      if_cases IsBusy t.server.running (mark_idle now t.alerts t) t
        (λ _. mark_idle-IsBusy now t.alerts t busy) (λ _. busy)
  do_move-IsBusy alert t busy other = send_alert-IsBusy t.alerts t busy
  do_move-IsBusy begin_stop t busy other = busy
  do_move-IsBusy end_stop t busy other =
      if_cases IsBusy (not t.server.running && is_quiet t.alerts) _ t (λ _. busy) (λ _. busy)

module _ (w : World) (j : ℕ) (moves : ℕ → Move) (t : Threads) where
  abbrev pub todo_at : ℕ → Option (List Act)
  todo_at n = (after w moves n t).todo j

  -- A busy thread waits for its turn with the same parts to do.
  pub await_turn :
      (a : Act) (rest : List Act) (d n : ℕ)
      → todo_at n ≡ some (a ∷ rest)
      → is_turn j (moves (n + d)) ≡ true
      → (m : ℕ) × (n ≤ m) × (todo_at m ≡ some (a ∷ rest)) × (is_turn j (moves m) ≡ true)
  unfolding after
  await_turn a rest zero n busy turn =
      (n, omega arith, busy, subst (λ k. is_turn j (moves k) ≡ true) (omega arith) turn)
  await_turn a rest (suc d) n busy turn = elim (Bool-cases (is_turn j (moves n))) [
    | inl here ↦ (n, omega arith, busy, here)
    | inr other ↦
        let (m, later, busy', turn') =
          await_turn a rest d (suc n)
            (do_move-IsBusy w j a rest (moves n) (after w moves n t) busy other)
            (subst (λ k. is_turn j (moves k) ≡ true) (omega arith) turn) in
        (m, omega (arith, later), busy', turn')
  ]
