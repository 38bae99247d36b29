-- ===== src/Server/Threads/Answering.antt =====
-- A direct message of src/server/server.cpp, while the others act between its parts.
use simple_chat_protocol.Prelude.{
  option_cases, Option-cases, arith, ◌&&◌, ◌==◌, ℕ, String, Bool, true, false, ◌≡◌, ◌⊎◌, inl, inr,
  refl, sym, ap, subst, ◌∙◌, none, some, List, [], ◌∷◌, ◌++◌, ◌<>◌, Option, All, Bool-cases,
  if◌then◌else◌, ==_iff, nat_equality, string_equality,
}
use mathlib.Core.List.{append-nil}
use simple_chat_protocol.Protocol.StatusCode
use simple_chat_protocol.Messages.{World}
use simple_chat_protocol.Server.State.{SessionInfo, Sent, Server}
use simple_chat_protocol.Server.Registry.{IsConsistent}
use simple_chat_protocol.Server.Absence.{IsAbsent}
use simple_chat_protocol.Prelude.Map.{find}
use simple_chat_protocol.Server.Handlers.{find_user}
use simple_chat_protocol.Server.Registration.{answer}
use simple_chat_protocol.Server.Delivery.{private_message}
use simple_chat_protocol.Server.Threads.{
  Act, Reading, transmit, seek, Pointer, times_closed, fd_or_zero, point_to, is_alive,
}
use simple_chat_protocol.Server.Threads.Doing.{carry_out, on_dest}
use simple_chat_protocol.Server.Threads.Machine.{
  Threads, Move, receive, lose, advance, open_client, awake, alert, begin_stop, end_stop, do_move,
  play, proceed,
}
use simple_chat_protocol.Server.Threads.Putting.{put_here}
use simple_chat_protocol.Server.Threads.Progress.{is_turn, do_move-IsBusy}
use simple_chat_protocol.Server.Threads.Ending.{own_move}
use simple_chat_protocol.Server.Threads.Promises.{next_send, sent_by, said}
use simple_chat_protocol.Server.Threads.Spreading.{IsQuiet, play-sends}

-- The server as the thread of `j` finds it when it does its next part, if these moves have one.
unfoldable pub next_part : World → ℕ → List Move → Threads → Option Server
unfolding do_move
next_part w j [] t = none
next_part w j (m ∷ ms) t =
    let later = next_part w j ms (do_move w m t) in if is_turn j m then some t.server else later

-- In `s`, the session `dest` of an earlier server is still registered, and alive: its descriptor
-- has an entry, and was not closed in between.
abbrev pub IsStillAlive : SessionInfo → Server → Server → Type 0
IsStillAlive dest earlier s =
    (i : SessionInfo) × (find dest.socket_fd s.sessions ≡ some i)
    × (i.alive ≡ true)
    × (times_closed dest.socket_fd s.closed ≡ times_closed dest.socket_fd earlier.closed)

-- The text goes to the user that was found in `earlier` exactly if it is still alive in `s`. The
-- sender is told that it was sent in either case.
abbrev pub Tells :
    SessionInfo → String → String → SessionInfo → Server → Server → List Sent → Type 0
Tells session dest_user text dest earlier s sends =
    let ok = answer session.socket_fd StatusCode.ok_dm_sent ("DM sent to " <> dest_user) true in
    (IsStillAlive dest earlier s
      × (sends ≡ private_message session.username text dest.socket_fd ∷ ok ∷ []))
    ⊎ ((¬ IsStillAlive dest earlier s) × (sends ≡ ok ∷ []))

-- What the sender is told, and what the user it wrote to gets: 404 if no session of `earlier` has
-- the name, and else what follows from the server at the next part of the thread.
abbrev pub DmOutcome : SessionInfo → String → String → Server → Option Server → List Sent → Type 0
DmOutcome session dest_user text earlier next sends =
    (IsAbsent dest_user earlier
      × (sends
          ≡ answer session.socket_fd StatusCode.user_not_found
              ("User '" <> dest_user <> "' not found") false
            ∷ []))
    ⊎ ((dest : SessionInfo) × (find dest.socket_fd earlier.sessions ≡ some dest)
        × (dest.username ≡ dest_user)
        × ((s : Server) × (next ≡ some s) × Tells session dest_user text dest earlier s sends))

-- The look-up by the index finds the session of that name, or there is none.
abbrev Found : String → Server → Option SessionInfo → Type 0
Found u s none = IsAbsent u s
Found u s (some dest) =
    (find dest.socket_fd s.sessions ≡ some dest)
    × (dest.username ≡ u)
    × (point_to u s
        ≡ record { fd = dest.socket_fd; closings = times_closed dest.socket_fd s.closed })

find_user-Found : (u : String) (s : Server) → IsConsistent s → Found u s (find_user u s)
unfolding find_user
find_user-Found u s h =
    option_cases (Found u s) (find u s.username_to_fd) none (λ fd. find fd s.sessions)
      (λ missing j i here name. absurd (
        none_some (
          sym missing
          ∙ ap (λ u'. find u' s.username_to_fd) (sym name)
          ∙ (h.indexed j i here).name)))
      λ fd named.
        let (i, here, name) = h.name_owner u fd named in
        let socket = (h.indexed fd i here).socket in
        subst (Found u s) (sym here) (
          ap (λ k. find k s.sessions) socket ∙ here,
          name,
          ap (λ o. record { fd = fd_or_zero o; closings = times_closed (fd_or_zero o) s.closed })
                named
              ∙ ap (λ k. record { fd = k; closings = times_closed k s.closed }) (sym socket),
        )
  where
    none_some : {k : ℕ} → ◌≡◌ {A = Option ℕ} none (some k) → ⊥
    none_some e = cc

-- The pointer that the look-up gives to the thread.
abbrev pointer : SessionInfo → Server → Pointer
pointer dest earlier = record {
  fd = dest.socket_fd;
  closings = times_closed dest.socket_fd earlier.closed;
}

module _ (dest : SessionInfo) (earlier s : Server) where
  is_alive-none : find dest.socket_fd s.sessions ≡ none → is_alive (pointer dest earlier) s ≡ false
  unfolding is_alive
  is_alive-none e = rw (e, is_alive) refl

  is_alive-some :
      (i : SessionInfo)
      → find dest.socket_fd s.sessions ≡ some i
      → is_alive (pointer dest earlier) s ≡ (
          i.alive
          && times_closed dest.socket_fd s.closed == times_closed dest.socket_fd earlier.closed)
  unfolding is_alive
  is_alive-some i e = rw (e, is_alive) refl

  alive-IsStillAlive : is_alive (pointer dest earlier) s ≡ true → IsStillAlive dest earlier s
  alive-IsStillAlive e = elim (Option-cases (find dest.socket_fd s.sessions)) [
    | inl missing ↦ absurd (true_false (sym e ∙ is_alive-none missing))
    | inr (i, found) ↦
        let both = sym (is_alive-some i found) ∙ e in
        (i, found, ground (arith, both), ground (arith, both))
  ]
    where
      true_false : true ≡ false → ⊥
      true_false e' = cc

  IsStillAlive-alive : IsStillAlive dest earlier s → is_alive (pointer dest earlier) s ≡ true
  IsStillAlive-alive (i, found, live, same) = is_alive-some i found ∙ ground (arith, live, same)

  dead : is_alive (pointer dest earlier) s ≡ false → ¬ IsStillAlive dest earlier s
  dead e still = true_false (sym (IsStillAlive-alive still) ∙ e)
    where
      true_false : true ≡ false → ⊥
      true_false e' = cc

module _ (w : World) (j : ℕ) (session : SessionInfo) (dest_user text : String) where
  other_silent : (m : Move) (t : Threads) → is_turn j m ≡ false → sent_by j m t ≡ []
  other_silent (advance now reading fd) t e = ap (λ b. if b then next_send (t.todo fd) else []) e
  other_silent (receive fd msg_type payload) t e = refl
  other_silent (lose fd) t e = refl
  other_silent (open_client fd) t e = refl
  other_silent (awake now) t e = refl
  other_silent alert t e = refl
  other_silent begin_stop t e = refl
  other_silent end_stop t e = refl

  own_silent :
      (m : Move) (t : Threads) (o : Option (List Act))
      → t.todo j ≡ o
      → next_send o ≡ []
      → is_turn j m ≡ true
      → sent_by j m t ≡ []
  own_silent (advance now reading fd) t o here quiet e =
      ap (λ b. if b then next_send (t.todo fd) else []) e
      ∙ ap (λ k. next_send (t.todo k)) ((==_iff fd j).0 e)
      ∙ ap next_send here
      ∙ quiet
  own_silent (receive fd msg_type payload) t o here quiet e = refl
  own_silent (lose fd) t o here quiet e = refl
  own_silent (open_client fd) t o here quiet e = refl
  own_silent (awake now) t o here quiet e = refl
  own_silent alert t o here quiet e = refl
  own_silent begin_stop t o here quiet e = refl
  own_silent end_stop t o here quiet e = refl

  -- The part of the thread that tests `alive`, and what follows.
  module _ (dest : SessionInfo) (earlier : Server) where
    -- What the thread has left behind the test.
    abbrev then_left : Bool → List Act
    then_left alive =
        if alive
        then transmit (private_message session.username text dest.socket_fd)
          ∷ transmit
              (answer session.socket_fd StatusCode.ok_dm_sent ("DM sent to " <> dest_user) true)
          ∷ []
        else transmit
            (answer session.socket_fd StatusCode.ok_dm_sent ("DM sent to " <> dest_user) true)
          ∷ []

    delivered :
        (ms : List Move) (t : Threads) (s : Server)
        → t.todo j ≡ some (then_left (is_alive (pointer dest earlier) s))
        → All (IsQuiet j) ms
        → (play w ms t).todo j ≡ some []
        → Tells session dest_user text dest earlier s (said w j ms t)
    delivered ms t s here quiet back = elim (Bool-cases (is_alive (pointer dest earlier) s)) [
      | inl on ↦ inl (
        alive-IsStillAlive dest earlier s on,
        play-sends w j ms t (_ ∷ _ ∷ []) (here ∙ ap (λ b. some (then_left b)) on) quiet back,
      )
      | inr off ↦ inr (
        dead dest earlier s off,
        play-sends w j ms t (_ ∷ []) (here ∙ ap (λ b. some (then_left b)) off) quiet back,
      )
    ]

    -- What comes of a session that was found, once the thread has its turn.
    abbrev Decides : Option Server → List Sent → Type 0
    Decides next sends =
        (s : Server) × (next ≡ some s) × Tells session dest_user text dest earlier s sends

    -- The session of the addressee is found, and the test of `alive` comes next.
    delivering :
        (ms : List Move) (t : Threads)
        → t.todo j ≡ some (on_dest session dest_user text (pointer dest earlier) (some dest))
        → All (IsQuiet j) ms
        → (play w ms t).todo j ≡ some []
        → Decides (next_part w j ms t) (said w j ms t)
    unfolding play said carry_out next_part
    delivering [] t here quiet back = absurd (stuck (sym back ∙ here))
      where
        stuck :
            some [] ≡ some (on_dest session dest_user text (pointer dest earlier) (some dest)) → ⊥
        stuck e = cc
    delivering (m ∷ ms) t here quiet back = elim (Bool-cases (is_turn j m)) [
      | inr other ↦
          let (s, next, tells) =
            delivering ms (do_move w m t) (do_move-IsBusy w j _ _ m t here other) quiet.1 back in
          (
            s,
            ap (λ b. if b then some t.server else next_part w j ms (do_move w m t)) other ∙ next,
            subst (Tells session dest_user text dest earlier s)
                (ap (λ l. l ++ said w j ms (do_move w m t)) (sym (other_silent m t other))) tells,
          )
      | inl turn ↦
          let (now, reading, e) = own_move w j m t _ _ here turn in
          (
            t.server,
            ap (λ b. if b then some t.server else next_part w j ms (do_move w m t)) turn,
            subst (Tells session dest_user text dest earlier t.server)
                (ap (λ l. l ++ said w j ms (do_move w m t)) (sym (own_silent m t _ here refl turn)))
                (delivered ms (do_move w m t) t.server e quiet.1 back),
          )
    ]

  answered :
      (earlier : Server) (o : Option SessionInfo) (ms : List Move) (t : Threads)
      → Found dest_user earlier o
      → t.todo j ≡ some (on_dest session dest_user text (point_to dest_user earlier) o)
      → All (IsQuiet j) ms
      → (play w ms t).todo j ≡ some []
      → DmOutcome session dest_user text earlier (next_part w j ms t) (said w j ms t)
  answered earlier none ms t absent here quiet back =
      inl (absent, play-sends w j ms t (_ ∷ []) here quiet back)
  answered earlier (some dest) ms t (found, name, points) here quiet back = inr (
    dest,
    found,
    name,
    delivering dest earlier ms t
        (here ∙ ap (λ p. some (on_dest session dest_user text p (some dest))) points) quiet back,
  )

  -- In a consistent registry, a thread is about to look up the addressee of a direct message. It
  -- does so, and after any moves of it, of the others, of the watchdog, of new connections and of
  -- `stop` it waits for its next message, not having read one in between. Then it has sent this and
  -- nothing else: 404 to the sender, if no session had the name when it was looked up. Otherwise a
  -- session had the name; and at the next part of the thread this session was either still
  -- registered and alive, and the text went to its connection under the sender's name, followed by
  -- 202 to the sender; or it was not, and the sender got 202 all the same, and nobody the text.
  pub play_dm :
      (now : ℕ) (reading : Reading) (ms : List Move) (t : Threads)
      → IsConsistent t.server
      → t.todo j ≡ some (seek session dest_user text ∷ [])
      → All (IsQuiet j) ms
      → (play w (advance now reading j ∷ ms) t).todo j ≡ some []
      → DmOutcome session dest_user text t.server
          (next_part w j ms (do_move w (advance now reading j) t))
          (said w j (advance now reading j ∷ ms) t)
  unfolding play said do_move proceed carry_out
  play_dm now reading ms t h here quiet back =
      let o = find_user dest_user t.server in
      let p = point_to dest_user t.server in
      let t' = do_move w (advance now reading j) t in
      let looked_up : t'.todo j ≡ some (on_dest session dest_user text p o) =
        put_here j (proceed now reading j (t.todo j) t.server).0 t.todo
        ∙ ap (λ o. (proceed now reading j o t.server).0) here
        ∙ ap some (append-nil (on_dest session dest_user text p o)) in
      subst (DmOutcome session dest_user text t.server (next_part w j ms t'))
        (ap (λ l. l ++ said w j ms t')
          (sym (own_silent (advance now reading j) t _ here refl ((==_iff j j).1 refl))))
        (answered t.server o ms t' (find_user-Found dest_user t.server h) looked_up quiet back)
