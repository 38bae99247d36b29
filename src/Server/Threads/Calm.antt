-- ===== src/Server/Threads/Calm.antt =====
-- A thread of src/server/server.cpp that goes on while the others stand still.
use simple_chat_protocol.Prelude.{
  ℕ, Bool, true, false, ◌≡◌, ◌≢◌, refl, sym, ap, subst, ◌∙◌, none, some, List, [], ◌∷◌, ◌++◌,
  Option, if_cases, if◌then◌else◌, ◌==◌, ==_iff, arith, nat_equality, string_equality,
}
use simple_chat_protocol.Messages.{World}
use simple_chat_protocol.Server.State.{Server}
use simple_chat_protocol.Server.Threads.{Act, Reading}
use simple_chat_protocol.Server.Threads.Machine.{
  Threads, Move, advance, proceed, leave_recv, put, do_move, play,
}
use simple_chat_protocol.Server.Threads.Putting.{put_here, put_other}
use simple_chat_protocol.Server.Threads.Alone.{Gets, proceeds}

-- No handler is running, and the watchdog sleeps: the connections of `c` wait for a message.
pub record IsCalm (c : ℕ → Bool) (t : Threads) : Type 0 where
  pub todo : (j : ℕ) → t.todo j ≡ (if c j then some [] else none)
  pub alerts : t.alerts ≡ []

module _ (w : World) where
  pub play-append :
      (ms ms' : List Move) (t : Threads) → play w (ms ++ ms') t ≡ play w ms' (play w ms t)
  unfolding play
  play-append [] ms' t = refl
  play-append (m ∷ ms) ms' t = play-append ms ms' (do_move w m t)

  -- What a thread does that goes on while the others stand still.
  record Continues (fd : ℕ) (t t' : Threads) (o : Option (List Act)) (s : Server) : Type 0 where
    server : t'.server ≡ s
    own : t'.todo fd ≡ o
    others : (j : ℕ) → fd ≢ j → t'.todo j ≡ t.todo j
    alerts : t'.alerts ≡ t.alerts

  abbrev advances : ℕ → ℕ → List Reading → List Move
  advances now fd [] = []
  advances now fd (reading ∷ readings) = advance now reading fd ∷ advances now fd readings

  advances-Continues :
      (now fd : ℕ) (readings : List Reading) (t : Threads)
      → Continues fd t
          (play w (advances now fd readings) t)
          (proceeds now fd readings (t.todo fd, t.server)).0
          (proceeds now fd readings (t.todo fd, t.server)).1
  unfolding play do_move
  advances-Continues now fd [] t = record {
    server = refl;
    own = refl;
    others = λ j other. refl;
    alerts = refl;
  }
  advances-Continues now fd (reading ∷ readings) t =
      let t' = do_move w (advance now reading fd) t in
      let next = proceed now reading fd (t.todo fd) t.server in
      let h = advances-Continues now fd readings t' in
      let same : t'.todo fd ≡ next.0 = put_here fd next.0 t.todo in
      record {
        server = h.server ∙ ap (λ o. (proceeds now fd readings (o, next.1)).1) same;
        own = h.own ∙ ap (λ o. (proceeds now fd readings (o, next.1)).0) same;
        others = λ j other. h.others j other ∙ put_other fd j next.0 t.todo other;
        alerts = h.alerts;
      }

  -- The thread of `fd` has left nothing to do, or is gone, and the others wait as before.
  pub Continues-IsCalm :
      (fd : ℕ) (b : Bool) (c : ℕ → Bool) (t t' : Threads)
      → IsCalm c t
      → ((j : ℕ) → fd ≢ j → t'.todo j ≡ t.todo j)
      → t'.alerts ≡ t.alerts
      → t'.todo fd ≡ (if b then some [] else none)
      → IsCalm (put fd b c) t'
  Continues-IsCalm fd b c t t' calm others alerts own = record {
    todo = λ j.
        let P : Bool → Type 0 = λ x. t'.todo j ≡ (if x then some [] else none) in
        if_cases P (fd == j) b (c j)
          (λ e. subst (λ k. t'.todo k ≡ (if b then some [] else none)) ((==_iff fd j).0 e) own)
          (λ e. others j (unequal fd j e) ∙ calm.todo j);
    alerts = alerts ∙ calm.alerts;
  }
    where
      unequal : (fd j : ℕ) → (fd == j) ≡ false → fd ≢ j
      unequal fd j e same = ground arith

  waits : (c : ℕ → Bool) (t : Threads) (fd : ℕ) → IsCalm c t → c fd ≡ true → t.todo fd ≡ some []
  waits c t fd calm connected = calm.todo fd ∙ ap (λ b. if b then some [] else none) connected

  -- A waiting thread leaves `recv_message` by a move, and goes on alone.
  pub alone :
      (now fd : ℕ) (m : Move) (acts : List Act) (b : Bool) (s' : Server) (c : ℕ → Bool)
      (t : Threads)
      → IsCalm c t
      → c fd ≡ true
      → do_move w m t ≡ record t { todo = put fd (leave_recv acts (t.todo fd)) t.todo }
      → Gets now fd (some acts) t.server (if b then some [] else none) s'
      → (ms : List Move) × ((play w ms t).server ≡ s') × IsCalm (put fd b c) (play w ms t)
  unfolding play
  alone now fd m acts b s' c t calm connected moved (readings, e) =
      let t' : Threads = record t { todo = put fd (leave_recv acts (t.todo fd)) t.todo } in
      let h = advances-Continues now fd readings t' in
      let ready : t'.todo fd ≡ some acts =
        put_here fd (leave_recv acts (t.todo fd)) t.todo
        ∙ ap (leave_recv acts) (waits c t fd calm connected) in
      let result : proceeds now fd readings (t'.todo fd, t.server)
          ≡ ((if b then some [] else none), s') =
        ap (λ o. proceeds now fd readings (o, t.server)) ready ∙ e in
      let Q : Threads → Type 0 = λ q.
        ((play w (advances now fd readings) q).server ≡ s')
        × IsCalm (put fd b c) (play w (advances now fd readings) q) in
      let r : Q (do_move w m t) = subst Q (sym moved) (
        h.server ∙ ap (λ x. x.1) result,
        Continues-IsCalm fd b c t (play w (advances now fd readings) t') calm
            (λ j other. h.others j other ∙ put_other fd j _ t.todo other) h.alerts
            (h.own ∙ ap (λ x. x.0) result),
      ) in
      (m ∷ advances now fd readings, r.0, r.1)
