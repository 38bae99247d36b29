-- ===== src/Client/Stepwise.antt =====
-- The loop of `NetworkThread` (src/client/network.cpp) as a function, and step by step.
use simple_chat_protocol.Prelude.{
  ℕ, zero, suc, Bool, true, false, ◌≡◌, inl, inr, refl, sym, ap, ◌∙◌, none, some, List, [], ◌∷◌,
  ◌++◌, if◌then◌else◌, Bool-cases, Option-cases, Option,
}
use simple_chat_protocol.Prelude.Map.{map_option, map_option-eq-some}
use simple_chat_protocol.Wire.Socket.{Socket}
use simple_chat_protocol.Wire.Frame.{recv_message}
use simple_chat_protocol.Client.Thread.{
  Signal, connection_lost, ServerFormats, emit_message, run_thread,
}
use simple_chat_protocol.Client.Signals.{run_thread-message}
use simple_chat_protocol.Client.Lifetime.{
  finished, new_network_thread, stop_thread, Step, advance, returns, stop, step, steps,
}

module _ (f : ServerFormats) (k : Socket) (running still : ℕ → Bool) (socket_fd : ℕ) where
  open k use {S}

  -- The steps for what is read of `running_` and for the stream, for at most `fuel` rounds:
  -- `stopThread` is called where the first reading is false, and each result of `recv_message` is
  -- that of the call on what the calls before have left of the stream.
  unfoldable pub schedule : ℕ → S → Option (List Step)
  unfolding recv_message
  schedule zero t = none
  schedule (suc fuel) t =
      let rounds : S → Option (List Step) = schedule fuel in
      if running fuel
      then elim (recv_message k t) [
        | none ↦
            some (advance ∷ returns none ∷ (if still fuel then [] else stop ∷ []) ++ advance ∷ [])
        | some (got, t') ↦ map_option (λ xs. advance ∷ returns (some got) ∷ xs) (rounds t')
      ]
      else some (stop ∷ advance ∷ [])

  -- The steps that are scheduled bring a new thread to its end, with these signals.
  abbrev pub EndsWith : ℕ → S → List Signal → Type 0
  EndsWith fuel t signals =
      (xs : List Step) × (schedule fuel t ≡ some xs)
      × ((steps f xs (new_network_thread socket_fd)).1 ≡ signals)
      × ((steps f xs (new_network_thread socket_fd)).0.phase ≡ finished)

  some-inj : {x y : List Signal} → some x ≡ some y → x ≡ y
  some-inj e = cc

  not_run :
      (fuel : ℕ) (t : S)
      → running fuel ≡ false
      → run_thread f k running still (suc fuel) t ≡ some []
  unfolding run_thread
  not_run fuel t r = rw (r, run_thread) refl

  failed :
      (fuel : ℕ) (t : S)
      → running fuel ≡ true
      → recv_message k t ≡ none
      → run_thread f k running still (suc fuel) t
        ≡ some (if still fuel then connection_lost ∷ [] else [])
  unfolding run_thread
  failed fuel t r e = rw (r, e, run_thread) refl

  planned_off :
      (fuel : ℕ) (t : S) → running fuel ≡ false → schedule (suc fuel) t ≡ some (stop ∷ advance ∷ [])
  unfolding schedule
  planned_off fuel t r = rw (r, schedule) refl

  planned_failed :
      (fuel : ℕ) (t : S)
      → running fuel ≡ true
      → recv_message k t ≡ none
      → schedule (suc fuel) t
        ≡ some (advance ∷ returns none ∷ (if still fuel then [] else stop ∷ []) ++ advance ∷ [])
  unfolding schedule
  planned_failed fuel t r e = rw (r, e, schedule) refl

  planned_message :
      (fuel : ℕ) (t t' : S) (got : ℕ × List ℕ) (xs : List Step)
      → running fuel ≡ true
      → recv_message k t ≡ some (got, t')
      → schedule fuel t' ≡ some xs
      → schedule (suc fuel) t ≡ some (advance ∷ returns (some got) ∷ xs)
  unfolding schedule
  planned_message fuel t t' got xs r e planned = rw (r, e, planned, schedule) refl

  ends_failed :
      (fuel : ℕ) (t : S) (b : Bool) (signals : List Signal)
      → running fuel ≡ true
      → recv_message k t ≡ none
      → still fuel ≡ b
      → (if b then connection_lost ∷ [] else []) ≡ signals
      → EndsWith (suc fuel) t signals
  unfolding steps step stop_thread
  ends_failed fuel t true signals r closed s e = (
    advance ∷ returns none ∷ advance ∷ [],
    planned_failed fuel t r closed
        ∙ ap (λ b. some (advance ∷ returns none ∷ (if b then [] else stop ∷ []) ++ advance ∷ [])) s,
    e,
    refl,
  )
  ends_failed fuel t false signals r closed s e = (
    advance ∷ returns none ∷ stop ∷ advance ∷ [],
    planned_failed fuel t r closed
        ∙ ap (λ b. some (advance ∷ returns none ∷ (if b then [] else stop ∷ []) ++ advance ∷ [])) s,
    e,
    refl,
  )

  -- Every run of the loop that ends emits what the steps of a new thread emit, in the same order:
  -- those for its readings of `running_` and its stream, with a call of `stopThread` just before
  -- the first reading that is false. These steps bring the thread to its end.
  pub run_thread-EndsWith :
      (fuel : ℕ) (t : S) (signals : List Signal)
      → run_thread f k running still fuel t ≡ some signals
      → EndsWith fuel t signals
  unfolding run_thread steps step stop_thread
  run_thread-EndsWith zero t signals e = absurd (cc)
  run_thread-EndsWith (suc fuel) t signals e = elim (Bool-cases (running fuel)) [
    | inr off ↦
        (stop ∷ advance ∷ [], planned_off fuel t off, some-inj (sym (not_run fuel t off) ∙ e), refl)
    | inl on ↦ elim (Option-cases (recv_message k t)) [
      | inl closed ↦
          ends_failed fuel t (still fuel) signals on closed refl
            (some-inj (sym (failed fuel t on closed) ∙ e))
      | inr (((msg_type, payload), t'), got) ↦
          let (later, rest, is) =
            map_option-eq-some (λ l. emit_message f msg_type payload ++ l)
              (run_thread f k running still fuel t') signals
              (sym (run_thread-message f k running still fuel msg_type t t' payload on got) ∙ e) in
          let (xs, planned, same, end) = run_thread-EndsWith fuel t' later rest in
          (
            advance ∷ returns (some (msg_type, payload)) ∷ xs,
            planned_message fuel t t' (msg_type, payload) xs on got planned,
            ap (λ l. emit_message f msg_type payload ++ l) same ∙ is,
            end,
          )
    ]
  ]
