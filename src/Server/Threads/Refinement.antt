-- ===== src/Server/Threads/Refinement.antt =====
-- That the events of the server are runs of its threads, for src/server/server.cpp.
use simple_chat_protocol.Prelude.{
  ℕ, Bool, true, false, not, ◌&&◌, ◌≡◌, refl, sym, ap, subst, ◌∙◌, none, some, List, [], ◌∷◌, ◌++◌,
  Option, if◌then◌else◌, nat_equality, string_equality,
}
use simple_chat_protocol.Messages.{World}
use simple_chat_protocol.Server.State.{SessionInfo, Server}
use simple_chat_protocol.Server.Client.{dispatch, cleanup}
use simple_chat_protocol.Server.Lifecycle.{accept, stop_listening, stop}
use simple_chat_protocol.Server.Invariant.Endings.{running-stop_listening}
use simple_chat_protocol.Server.Watchdog.{to_notify, notify_all, watchdog_round}
use simple_chat_protocol.Server.Events.{
  Event, message, hangup, wake, connect, shut, start, step, run,
}
use simple_chat_protocol.Server.Threads.{Act, plan_message, ending}
use simple_chat_protocol.Server.Threads.Doing.{carry_out}
use simple_chat_protocol.Server.Threads.Machine.{
  Threads, Move, receive, lose, open_client, awake, alert, begin_stop, end_stop, is_quiet,
  alerts_of, proceed, put, do_move, play, mark_idle, send_alert, begin, is_unused,
}
use simple_chat_protocol.Server.Threads.Putting.{put_here, put_other}
use simple_chat_protocol.Server.Threads.Alone.{any}
use simple_chat_protocol.Server.Threads.Calm.{IsCalm, play-append, Continues-IsCalm, alone}
use simple_chat_protocol.Server.Threads.Handling.{Ends-dispatch}

-- The connections that are open after an event.
unfoldable pub opens : World → Event → Server → (ℕ → Bool) → ℕ → Bool
unfolding dispatch
opens w (message now fd msg_type payload) s c =
    put fd (not (dispatch w now fd msg_type payload s).1) c
opens w (hangup fd) s c = put fd false c
opens w (connect fd) s c = put fd true c
opens w _ s c = c

-- Messages come from open connections, and a descriptor that is in use is not given again. A server
-- that has stopped accepts no connection, and its watchdog is gone.
abbrev pub IsPossible : Event → Server → (ℕ → Bool) → Type 0
IsPossible (message now fd msg_type payload) s c = c fd ≡ true
IsPossible (hangup fd) s c = c fd ≡ true
IsPossible (connect fd) s c = (c fd ≡ false) × (s.running ≡ true)
IsPossible (wake now) s c = s.running ≡ true
IsPossible shut s c = Unit

module _ (w : World) where
  unfoldable pub IsLegal : List Event → Server → (ℕ → Bool) → Type 0
  unfolding step opens
  IsLegal [] s c = Unit
  IsLegal (e ∷ es) s c = IsPossible e s c × IsLegal es (step w e s) (opens w e s c)

  ended :
      (b : Bool)
      → ◌≡◌ {A = Option (List Act)} (if b then none else some []) (if not b then some [] else none)
  ended true = refl
  ended false = refl

  -- The watchdog sends what it has to send.
  alerts_lem :
      (l : List SessionInfo) (t : Threads)
      → t.alerts ≡ alerts_of t.server.idle_timeout_sec l
      → (ms : List Move) × ((play w ms t).server ≡ notify_all l t.server)
        × ((j : ℕ) → (play w ms t).todo j ≡ t.todo j)
        × ((play w ms t).alerts ≡ [])
  unfolding play do_move send_alert notify_all
  alerts_lem [] t e = ([], refl, λ j. refl, e)
  alerts_lem (i ∷ l) t e =
      let timeout = t.server.idle_timeout_sec in
      let t' = send_alert (alerts_of timeout (i ∷ l)) t in
      let (ms, server, todo, alerts) = alerts_lem l t' refl in
      let Q : Threads → Type 0 = λ q.
        ((play w ms q).server ≡ notify_all (i ∷ l) t.server)
        × ((j : ℕ) → (play w ms q).todo j ≡ t.todo j)
        × ((play w ms q).alerts ≡ []) in
      let r : Q (send_alert t.alerts t) =
        subst Q (ap (λ x. send_alert x t) (sym e)) (server, todo, alerts) in
      (alert ∷ ms, r.0, r.1, r.2)

  possible :
      (e : Event) (c : ℕ → Bool) (t : Threads)
      → IsPossible e t.server c
      → IsCalm c t
      → (ms : List Move) × ((play w ms t).server ≡ step w e t.server)
        × IsCalm (opens w e t.server c) (play w ms t)
  unfolding step opens do_move play watchdog_round mark_idle cleanup proceed carry_out stop
  possible (message now fd msg_type payload) c t connected calm =
      let quits = (dispatch w now fd msg_type payload t.server).1 in
      let (readings, e) = Ends-dispatch w now fd payload t.server msg_type in
      alone w now fd (receive fd msg_type payload) (plan_message w fd payload msg_type t.server)
        (not quits) _ c t calm connected refl
        (
          readings,
          e ∙ ap (λ o. (o, step w (message now fd msg_type payload) t.server)) (ended quits),
        )
  possible (hangup fd) c t connected calm =
      alone w 0 fd (lose fd) ending false (cleanup fd t.server) c t calm connected refl
        (any ∷ any ∷ [], refl)
  possible (connect fd) c t (unused, running) calm =
      let free : t.todo fd ≡ none = calm.todo fd ∙ ap (λ b. if b then some [] else none) unused in
      let guard : (t.server.running && is_unused (t.todo fd)) ≡ true =
        ap (λ b. b && is_unused (t.todo fd)) running ∙ ap is_unused free in
      let t' : Threads = record t { server = accept fd t.server; todo = put fd (some []) t.todo } in
      let Q : Threads → Type 0 = λ q. (q.server ≡ accept fd t.server) × IsCalm (put fd true c) q in
      let r : Q (do_move w (open_client fd) t) =
        subst Q (ap (λ b. if b then t' else t) (sym guard)) (
          refl,
          Continues-IsCalm w fd true c t t' calm (λ j other. put_other fd j (some []) t.todo other)
              refl (put_here fd (some []) t.todo),
        ) in
      (open_client fd ∷ [], r.0, r.1)
  possible (wake now) c t running calm =
      let t' = mark_idle now [] t in
      let (ms, server, todo, alerts) =
        alerts_lem (to_notify t.server.idle_timeout_sec now t.server.sessions) t' refl in
      let Q : Threads → Type 0 =
        λ q. ((play w ms q).server ≡ watchdog_round now t.server) × IsCalm c (play w ms q) in
      let woken : do_move w (awake now) t ≡ t' =
        ap (λ b. if b then mark_idle now t.alerts t else t) running
        ∙ ap (λ x. mark_idle now x t) calm.alerts in
      let r : Q (do_move w (awake now) t) =
        subst Q (sym woken)
          (server, record { todo = λ j. todo j ∙ calm.todo j; alerts = alerts }) in
      (awake now ∷ ms, r.0, r.1)
  possible shut c t any_time calm =
      let t' : Threads = record t { server = stop_listening t.server } in
      let t'' : Threads = record t { server = stop t.server } in
      let guard : (not t'.server.running && is_quiet t.alerts) ≡ true =
        ap (λ b. not b && is_quiet t.alerts) (running-stop_listening t.server)
        ∙ ap is_quiet calm.alerts in
      let Q : Threads → Type 0 = λ q. (q.server ≡ stop t.server) × IsCalm c q in
      let r : Q (do_move w end_stop t') =
        subst Q (ap (λ b. if b then t'' else t') (sym guard))
          (refl, record { todo = calm.todo; alerts = calm.alerts }) in
      (begin_stop ∷ end_stop ∷ [], r.0, r.1)

  legal :
      (es : List Event) (c : ℕ → Bool) (t : Threads)
      → IsLegal es t.server c
      → IsCalm c t
      → (ms : List Move) × ((play w ms t).server ≡ run w es t.server)
  unfolding run play IsLegal
  legal [] c t h calm = ([], refl)
  legal (e ∷ es) c t h calm =
      let (ms, here, calm') = possible e c t h.0 calm in
      let c' = opens w e t.server c in
      let (ms', there) =
        legal es c' (play w ms t) (subst (λ s. IsLegal es s c') (sym here) h.1) calm' in
      (
        ms ++ ms',
        ap (λ (q : Threads). q.server) (play-append w ms ms' t) ∙ there ∙ ap (run w es) here,
      )

  -- Every sequence of events from the server's start, in which messages come from open connections,
  -- no descriptor in use is given again, and the watchdog wakes up and connections are accepted
  -- only while the server runs, is a run of the threads: by some moves they bring the server to the
  -- same state.
  pub legal-play :
      (timeout fd : ℕ) (es : List Event)
      → IsLegal es (start timeout fd) (λ j. false)
      → (ms : List Move) × ((play w ms (begin timeout fd)).server ≡ run w es (start timeout fd))
  legal-play timeout fd es h =
      legal es (λ j. false) (begin timeout fd) h (record { todo = λ j. refl; alerts = refl })
