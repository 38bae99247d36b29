-- ===== src/Server/Threads/Ending.antt =====
-- That the thread of a lost connection of src/server/server.cpp comes to its end.
use simple_chat_protocol.Prelude.{
  ℕ, zero, suc, ◌+◌, ◌≤◌, true, ◌≡◌, sym, ap, subst, ◌∙◌, none, some, List, [], ◌∷◌, ==_iff, arith,
  nat_equality, string_equality,
}
use simple_chat_protocol.Messages.{World}
use simple_chat_protocol.Server.State.{Server}
use simple_chat_protocol.Server.Threads.{Act, Reading, remove, leave, ending}
use simple_chat_protocol.Server.Threads.Doing.{carry_out}
use simple_chat_protocol.Server.Threads.Machine.{
  Threads, Move, receive, lose, advance, open_client, awake, alert, begin_stop, end_stop, proceed,
  put, leave_recv, do_move, after, begin,
}
use simple_chat_protocol.Server.Threads.Putting.{put_here}
use simple_chat_protocol.Server.Threads.Reachable.{
  IsSound, IsAbsent, IsSound-IsAbsent, do_move-IsSound, begin-IsSound,
}
use simple_chat_protocol.Server.Threads.Progress.{is_turn, todo_at, await_turn}

module _ (w : World) (j : ℕ) where
  -- What the thread's own move leaves it to do.
  pub own_move :
      (m : Move) (t : Threads) (a : Act) (rest : List Act)
      → t.todo j ≡ some (a ∷ rest)
      → is_turn j m ≡ true
      → (now : ℕ) × (reading : Reading) × ((do_move w m t).todo j
          ≡ (carry_out now reading j a rest t.server).0)
  unfolding do_move proceed
  own_move (advance now reading fd) t a rest busy turn =
      let mine : ℕ → Type 0 = λ k.
        put k (proceed now reading k (t.todo k) t.server).0 t.todo j
        ≡ (carry_out now reading j a rest t.server).0 in
      (
        now,
        reading,
        subst mine (sym ((==_iff fd j).0 turn)) (
            put_here j (proceed now reading j (t.todo j) t.server).0 t.todo
            ∙ ap (λ o. (proceed now reading j o t.server).0) busy),
      )
  own_move (receive fd msg_type payload) t a rest busy turn = absurd (cc)
  own_move (lose fd) t a rest busy turn = absurd (cc)
  own_move (open_client fd) t a rest busy turn = absurd (cc)
  own_move (awake now) t a rest busy turn = absurd (cc)
  own_move alert t a rest busy turn = absurd (cc)
  own_move begin_stop t a rest busy turn = absurd (cc)
  own_move end_stop t a rest busy turn = absurd (cc)

  module _ (moves : ℕ → Move) (t : Threads)
      (fair : (n : ℕ) → (d : ℕ) × (is_turn j (moves (n + d)) ≡ true)) where
    -- A thread that has this part to do does it at a later time.
    does_next :
        (a : Act) (rest : List Act) (n : ℕ)
        → todo_at w j moves t n ≡ some (a ∷ rest)
        → (m : ℕ) × (n ≤ m)
          × (now : ℕ) × (reading : Reading) × (s : Server) × (todo_at w j moves t m
              ≡ (carry_out now reading j a rest s).0)
    unfolding after
    does_next a rest n busy =
        let (m, later, busy', turn) = await_turn w j moves t a rest (fair n).0 n busy (fair n).1 in
        let (now, reading, e) = own_move (moves m) (after w moves m t) a rest busy' turn in
        (suc m, omega (arith, later), now, reading, (after w moves m t).server, e)

    ends :
        (n : ℕ)
        → todo_at w j moves t n ≡ some ending
        → (m : ℕ) × (n ≤ m) × (todo_at w j moves t m ≡ none)
    unfolding carry_out
    ends n busy =
        let (m, later, now, reading, s, e) = does_next remove (leave ∷ []) n busy in
        let (m', later', now', reading', s', e') = does_next leave [] m e in
        (m', omega (arith, later, later'), e')

  after-IsSound :
      (moves : ℕ → Move) (t : Threads) → IsSound t → (n : ℕ) → IsSound (after w moves n t)
  unfolding after
  after-IsSound moves t h zero = h
  after-IsSound moves t h (suc n) =
      do_move-IsSound w (moves n) (after w moves n t) (after-IsSound moves t h n)

  -- On an endless schedule from the server's start that gives turns to the thread of the connection
  -- `j` again and again: when the waiting thread loses its connection, it has ended at a later
  -- time, and then the connection has no session, and no name and no address lead to it. The other
  -- threads, the watchdog and the system do what they like in between.
  pub after_lost :
      (timeout fd : ℕ) (moves : ℕ → Move)
      → ((n : ℕ) → (d : ℕ) × (is_turn j (moves (n + d)) ≡ true))
      → (n : ℕ) → (after w moves n (begin timeout fd)).todo j ≡ some []
      → moves n ≡ lose j
      → (m : ℕ) × (n ≤ m)
        × ((after w moves m (begin timeout fd)).todo j ≡ none)
        × IsAbsent j (after w moves m (begin timeout fd)).server
  unfolding after do_move
  after_lost timeout fd moves fair n waiting lost =
      let t = after w moves n (begin timeout fd) in
      let left : (do_move w (moves n) t).todo j ≡ some ending =
        ap (λ x. (do_move w x t).todo j) lost
        ∙ put_here j (leave_recv ending (t.todo j)) t.todo
        ∙ ap (leave_recv ending) waiting in
      let (m, later, gone) = ends moves (begin timeout fd) fair (suc n) left in
      let h : IsSound (after w moves m (begin timeout fd)) =
        after-IsSound moves (begin timeout fd) (begin-IsSound w timeout fd) m in
      (
        m,
        omega (arith, later),
        gone,
        IsSound-IsAbsent j (after w moves m (begin timeout fd)) h gone,
      )
