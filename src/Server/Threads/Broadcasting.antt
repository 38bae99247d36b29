-- ===== src/Server/Threads/Broadcasting.antt =====
-- A broadcast of src/server/server.cpp, while the others act between its sends.
use simple_chat_protocol.Prelude.{
  map, Bool-cases, inl, inr, true, false, ℕ, String, ◌≡◌, refl, ap, subst, ◌∙◌, some, List, [], ◌∷◌,
  ◌++◌, All, if_cases, ◌==◌, nat_equality, string_equality,
}
use mathlib.Core.List.{append-nil}
use simple_chat_protocol.Prelude.Map.{Map}
use simple_chat_protocol.Messages.{World}
use simple_chat_protocol.Server.State.{SessionInfo, Sent}
use simple_chat_protocol.Server.Handlers.{live_sessions}
use simple_chat_protocol.Server.Delivery.{delivery}
use simple_chat_protocol.Server.Threads.{transmit, Reading, collect}
use simple_chat_protocol.Server.Threads.Doing.{carry_out, announce}
use simple_chat_protocol.Server.Threads.Machine.{Threads, Move, advance, proceed, do_move, play}
use simple_chat_protocol.Server.Threads.Putting.{put_here}
use simple_chat_protocol.Server.Threads.Spreading.{IsQuiet, play-sends}
use simple_chat_protocol.Server.Threads.Promises.{next_send, sent_by, said, Adds, play-Adds}

-- A text of `sender` for each of the sessions.
abbrev pub deliveries : String → String → List SessionInfo → List Sent
deliveries sender text [] = []
deliveries sender text (i ∷ targets) =
    delivery sender text i.socket_fd ∷ deliveries sender text targets

-- A text of `sender` for each session of the registry whose `alive` is true, in the order of the
-- map.
abbrev pub deliveries_to_alive : String → String → Map ℕ SessionInfo → List Sent
deliveries_to_alive sender text [] = []
deliveries_to_alive sender text ((fd, i) ∷ m) =
    let later = deliveries_to_alive sender text m in
    elim i.alive [ true ↦ delivery sender text i.socket_fd ∷ later | false ↦ later ]

live_sessions_lem :
    (sender text : String) (m : Map ℕ SessionInfo)
    → deliveries sender text (live_sessions m) ≡ deliveries_to_alive sender text m
unfolding live_sessions
live_sessions_lem sender text [] = refl
live_sessions_lem sender text ((fd, i) ∷ m) = elim (Bool-cases i.alive) [
  | inl on ↦ rw (on, live_sessions_lem sender text m) refl
  | inr off ↦ rw (off, live_sessions_lem sender text m) refl
]

announce_lem :
    (sender text : String) (targets : List SessionInfo)
    → announce sender text targets ≡ map transmit (deliveries sender text targets)
announce_lem sender text [] = refl
announce_lem sender text (i ∷ targets) =
    ap (◌∷◌ (transmit (delivery sender text i.socket_fd))) (announce_lem sender text targets)

module _ (w : World) (j : ℕ) (sender text : String) where
  module _ (now : ℕ) (reading : Reading) (t : Threads)
      (here : t.todo j ≡ some (collect sender text ∷ [])) where
    collected :
        (do_move w (advance now reading j) t).todo j
        ≡ some (map transmit (deliveries sender text (live_sessions t.server.sessions)))
    unfolding do_move proceed carry_out
    collected =
        put_here j (proceed now reading j (t.todo j) t.server).0 t.todo
        ∙ ap (λ o. (proceed now reading j o t.server).0) here
        ∙ ap some (
            append-nil (announce sender text (live_sessions t.server.sessions))
            ∙ announce_lem sender text (live_sessions t.server.sessions))

    silent : sent_by j (advance now reading j) t ≡ []
    silent = if_cases (λ l. l ≡ []) (j == j) _ [] (λ _. ap next_send here) (λ _. refl)

  -- A thread that is about to collect the targets of a broadcast, and after any moves of it, of the
  -- others, of the watchdog, of new connections and of `stop` waits for its next message, not
  -- having read one in between, has sent the text once to each session that was alive when it
  -- collected them, in the order of the map, and has sent nothing else. The log of the server has
  -- these sends in this order behind what it had before.
  pub play_broadcast :
      (now : ℕ) (reading : Reading) (ms : List Move) (t : Threads)
      → t.todo j ≡ some (collect sender text ∷ [])
      → All (IsQuiet j) ms
      → (play w (advance now reading j ∷ ms) t).todo j ≡ some []
      → (said w j (advance now reading j ∷ ms) t
          ≡ deliveries_to_alive sender text t.server.sessions)
        × Adds
            (deliveries_to_alive sender text t.server.sessions)
            t.server
            (play w (advance now reading j ∷ ms) t).server
  unfolding play said
  play_broadcast now reading ms t here quiet back =
      let targets = deliveries_to_alive sender text t.server.sessions in
      let t' = do_move w (advance now reading j) t in
      let sends : said w j (advance now reading j ∷ ms) t ≡ targets =
        ap (λ l. l ++ said w j ms t') (silent now reading t here)
        ∙ play-sends w j ms t' targets
            (collected now reading t here
              ∙ ap (λ l. some (map transmit l)) (live_sessions_lem sender text t.server.sessions))
            quiet back in
      (
        sends,
        subst (λ l. Adds l t.server (play w (advance now reading j ∷ ms) t).server) sends
            (play-Adds w j (advance now reading j ∷ ms) t),
      )
