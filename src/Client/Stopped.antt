-- ===== src/Client/Stopped.antt =====
-- What a `NetworkThread` (src/client/network.cpp) does when it is stopped, and its loop in steps.
use simple_chat_protocol.Prelude.{
  ℕ, Bool, true, false, ◌≡◌, ◌⊎◌, inl, inr, refl, sym, ap, subst, ◌∙◌, Option, none, some, List, [],
  ◌∷◌, ◌++◌, All, if_cases, ◌==◌,
}
use mathlib.Core.List.{append-nil}
use simple_chat_protocol.Protocol.MsgType
use simple_chat_protocol.Client.Thread.{
  Signal, connection_lost, ServerFormats, emit_parsed, response_signal, users_signal, dm_signal,
  broadcast_signal, info_signal, emit_message,
}
use simple_chat_protocol.Client.Lifetime.{
  Phase, at_test, in_recv, at_failure, finished, NetworkThread, stop_thread, Step, advance, returns,
  stop, step, steps, destroy,
}

-- Any signal but that the connection is lost.
abbrev pub IsMessage : Signal → Type 0
IsMessage connection_lost = ⊥
IsMessage _ = Unit

-- A thread that was stopped.
abbrev stopped : ℕ → Phase → Bool → NetworkThread
stopped socket_fd phase is_shut = record {
  socket_fd = socket_fd;
  running = false;
  phase = phase;
  is_shut = is_shut;
}

abbrev IsOutside : Phase → Type 0
IsOutside in_recv = ⊥
IsOutside _ = Unit

-- The signals of at most one message, which the thread was receiving.
abbrev pub AtMostOne : ServerFormats → Phase → List Signal → Type 0
AtMostOne f phase signals =
    (signals ≡ [])
    ⊎ ((phase ≡ in_recv)
        × ((msg_type : ℕ) × (payload : List ℕ) × (signals ≡ emit_message f msg_type payload)))

module _ (f : ServerFormats) (socket_fd : ℕ) where
  outside :
      (xs : List Step) (phase : Phase) (is_shut : Bool)
      → IsOutside phase
      → (steps f xs (stopped socket_fd phase is_shut)).1 ≡ []
  unfolding steps step stop_thread
  outside [] phase is_shut o = refl
  outside (advance ∷ xs) at_test is_shut o = outside xs finished is_shut tt
  outside (advance ∷ xs) in_recv is_shut o = absurd o
  outside (advance ∷ xs) at_failure is_shut o = outside xs finished is_shut tt
  outside (advance ∷ xs) finished is_shut o = outside xs finished is_shut tt
  outside (returns none ∷ xs) at_test is_shut o = outside xs at_test is_shut tt
  outside (returns none ∷ xs) in_recv is_shut o = absurd o
  outside (returns none ∷ xs) at_failure is_shut o = outside xs at_failure is_shut tt
  outside (returns none ∷ xs) finished is_shut o = outside xs finished is_shut tt
  outside (returns (some (m, p)) ∷ xs) at_test is_shut o = outside xs at_test is_shut tt
  outside (returns (some (m, p)) ∷ xs) in_recv is_shut o = absurd o
  outside (returns (some (m, p)) ∷ xs) at_failure is_shut o = outside xs at_failure is_shut tt
  outside (returns (some (m, p)) ∷ xs) finished is_shut o = outside xs finished is_shut tt
  outside (stop ∷ xs) phase is_shut o = outside xs phase true o

  inside :
      (xs : List Step) (is_shut : Bool)
      → AtMostOne f in_recv (steps f xs (stopped socket_fd in_recv is_shut)).1
  unfolding steps step stop_thread
  inside [] is_shut = inl refl
  inside (advance ∷ xs) is_shut = inside xs is_shut
  inside (returns none ∷ xs) is_shut = inl (outside xs at_failure is_shut tt)
  inside (returns (some (m, p)) ∷ xs) is_shut = inr (
    refl,
    (
      m,
      p,
      ap (λ l. emit_message f m p ++ l) (outside xs at_test is_shut tt)
          ∙ append-nil (emit_message f m p),
    ),
  )
  inside (stop ∷ xs) is_shut = inside xs true

  at_most_one :
      (xs : List Step) (phase : Phase) (is_shut : Bool)
      → AtMostOne f phase (steps f xs (stopped socket_fd phase is_shut)).1
  at_most_one xs at_test is_shut = inl (outside xs at_test is_shut tt)
  at_most_one xs in_recv is_shut = inside xs is_shut
  at_most_one xs at_failure is_shut = inl (outside xs at_failure is_shut tt)
  at_most_one xs finished is_shut = inl (outside xs finished is_shut tt)

emit_parsed-IsMessage :
    {A : Type 0} (signal : A → Signal) (o : Option A)
    → ((a : A) → IsMessage (signal a))
    → All IsMessage (emit_parsed signal o)
emit_parsed-IsMessage signal none h = tt
emit_parsed-IsMessage signal (some a) h = (h a, tt)

emit_message-IsMessage :
    (f : ServerFormats) (msg_type : ℕ) (payload : List ℕ)
    → All IsMessage (emit_message f msg_type payload)
unfolding emit_message
emit_message-IsMessage f t payload =
    if_cases (All IsMessage) (t == MsgType.server_response) _ _
      (λ _. emit_parsed-IsMessage response_signal _ (λ a. tt))
      λ _.
        if_cases (All IsMessage) (t == MsgType.all_users) _ _
          (λ _. emit_parsed-IsMessage users_signal _ (λ a. tt))
          λ _.
            if_cases (All IsMessage) (t == MsgType.for_dm) _ _
              (λ _. emit_parsed-IsMessage dm_signal _ (λ a. tt))
              λ _.
                if_cases (All IsMessage) (t == MsgType.broadcast_delivery) _ _
                  (λ _. emit_parsed-IsMessage broadcast_signal _ (λ a. tt))
                  λ _.
                    if_cases (All IsMessage) (t == MsgType.get_user_info_response) _ []
                      (λ _. emit_parsed-IsMessage info_signal _ (λ a. tt)) (λ _. tt)

module _ (f : ServerFormats) where
  AtMostOne-IsMessage :
      (phase : Phase) (signals : List Signal) → AtMostOne f phase signals → All IsMessage signals
  AtMostOne-IsMessage phase signals (inl e) = subst (All IsMessage) (sym e) tt
  AtMostOne-IsMessage phase signals (inr (here, (m, p, e))) =
      subst (All IsMessage) (sym e) (emit_message-IsMessage f m p)

  destroyed :
      (r : Option (ℕ × List ℕ)) (fd : ℕ) (phase : Phase)
      → (steps f (advance ∷ returns r ∷ advance ∷ []) (stopped fd phase true)).0.phase ≡ finished
  unfolding steps step
  destroyed none fd at_test = refl
  destroyed (some (m, p)) fd at_test = refl
  destroyed none fd in_recv = refl
  destroyed (some (m, p)) fd in_recv = refl
  destroyed none fd at_failure = refl
  destroyed (some (m, p)) fd at_failure = refl
  destroyed none fd finished = refl
  destroyed (some (m, p)) fd finished = refl

  -- Once `stopThread` was called, whatever a thread and the others do from then on, it emits the
  -- signals of at most one message, the one that it was receiving, and never that the connection is
  -- lost; and a thread that is destroyed has come to its end, whatever its last `recv_message`
  -- returns.
  pub stop_thread-AtMostOne :
      (t : NetworkThread) (xs : List Step) (r : Option (ℕ × List ℕ))
      → AtMostOne f t.phase (steps f xs (stop_thread t)).1
        × All IsMessage (steps f xs (stop_thread t)).1
        × ((destroy f r t).0.phase ≡ finished)
  unfolding stop_thread destroy
  stop_thread-AtMostOne t xs r =
      let one = at_most_one f t.socket_fd xs t.phase true in
      (one, AtMostOne-IsMessage t.phase _ one, destroyed r t.socket_fd t.phase)
