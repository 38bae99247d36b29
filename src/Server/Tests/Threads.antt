-- ===== src/Server/Tests/Threads.antt =====
-- The theorems on interleaved threads, at the chat of two users.
use simple_chat_protocol.Prelude.{
  ℕ, zero, suc, ◌+◌, subst, true, ◌≡◌, ◌≢◌, ◌≤◌, refl, false, none, some, List, [], ◌∷◌, ◌++◌,
  arith, if◌then◌else◌, ◌==◌, ◌^◌, nat_equality, string_equality,
}
use simple_chat_protocol.Prelude.Map.{find, insert, erase, modify}
use simple_chat_protocol.Protocol.MsgType
use simple_chat_protocol.Protocol.Status.{invisible}
use simple_chat_protocol.Server.Handlers.{find_user, handle_register, handle_message_general}
use simple_chat_protocol.Server.Client.{dispatch}
use simple_chat_protocol.Server.Lifecycle.{accept, new_server, open_listener}
use simple_chat_protocol.Server.Watchdog.{is_idle}
use simple_chat_protocol.Server.Registry.{IsConsistent}
use simple_chat_protocol.Server.Events.{Event, message, hangup, wake, shut, start, step, run}
use simple_chat_protocol.Server.Threads.{is_alive, seek, collect, restore, touch, plan_message}
use simple_chat_protocol.Server.Threads.Doing.{carry_out}
use simple_chat_protocol.Server.Threads.Machine.{
  Threads, Move, receive, lose, advance, open_client, awake, alert, begin, proceed, do_move, play,
  after,
}
use simple_chat_protocol.Server.Threads.Alone.{any}
use simple_chat_protocol.Server.Threads.Reachable.{
  IsAbsent, play-begin-IsConsistent, play-begin_unused,
}
use simple_chat_protocol.Server.Threads.Ownership.{Holds, play-begin_owned}
use simple_chat_protocol.Server.Threads.Progress.{is_turn}
use simple_chat_protocol.Server.Threads.Ending.{after_lost}
use simple_chat_protocol.Server.Threads.Promises.{Adds, said}
use simple_chat_protocol.Server.Threads.Answering.{next_part, DmOutcome, play_dm}
use simple_chat_protocol.Server.Threads.Broadcasting.{play_broadcast}
use simple_chat_protocol.Server.Delivery.{delivery, private_message}
use simple_chat_protocol.Server.Registration.{answer}
use simple_chat_protocol.Protocol.StatusCode
use simple_chat_protocol.Server.Threads.Refinement.{IsLegal, opens, legal-play}
use simple_chat_protocol.Server.Tests.{toy, two_join, lobby, lobby-IsConsistent, ana, bob}

-- The registrations of ana and bob, the second begun before the first ends.
abbrev both_join : List Move
both_join =
    open_client 4
    ∷ open_client 5
    ∷ receive 4 MsgType.register (1 ∷ [])
    ∷ receive 5 MsgType.register (2 ∷ [])
    ∷ advance 7 any 4
    ∷ advance 8 any 5
    ∷ []

-- The connection 4 is lost, and its thread comes to its end.
abbrev ana_leaves : List Move
ana_leaves = lose 4 ∷ advance 9 any 4 ∷ awake (10 ^ 12) ∷ advance 9 any 4 ∷ alert ∷ []

play-begin-IsConsistent_example :
    IsConsistent (play toy (both_join ++ ana_leaves) (begin 60 3)).server
play-begin-IsConsistent_example = play-begin-IsConsistent toy 60 3 (both_join ++ ana_leaves)

ana_gone : (play toy (both_join ++ ana_leaves) (begin 60 3)).todo 4 ≡ none
unfolding play do_move plan_message proceed carry_out find insert erase modify new_server
    open_listener accept is_idle
ana_gone = refl

play-begin_unused_example : IsAbsent 4 (play toy (both_join ++ ana_leaves) (begin 60 3)).server
play-begin_unused_example = play-begin_unused toy 60 3 (both_join ++ ana_leaves) 4 ana_gone

ana_found : find 4 (play toy both_join (begin 60 3)).server.sessions ≡ some ana
unfolding play do_move plan_message proceed carry_out find insert new_server open_listener accept
ana_found = refl

-- The watchdog marks both users and tells them, while ana's thread does nothing.
play-begin_owned_example :
    Holds 4 ana
      (play toy
        (awake (10 ^ 12) ∷ alert ∷ alert ∷ advance 9 any 5 ∷ [])
        (play toy both_join (begin 60 3))).server.sessions
play-begin_owned_example =
    play-begin_owned toy 4 ana 60 3 both_join
      (awake (10 ^ 12) ∷ alert ∷ alert ∷ advance 9 any 5 ∷ []) ana_found
      (tt, (tt, (tt, (other, tt))))
  where
    other : ◌≢◌ {A = ℕ} 5 4
    other e = absurd (omega (arith, e))

-- Ana's thread has a broadcast before it, and bob's waits.
abbrev speaking : Threads
speaking = record {
  server = lobby;
  todo =
      λ j. if j == 4 then some (collect "ana" "hello" ∷ []) else if j == 5 then some [] else none;
  alerts = [];
}

-- The same, with a session that `stop` has left behind as dead between the two others.
abbrev crowd : Threads
crowd = record speaking {
  server = record lobby {
    sessions =
        (4, ana)
        ∷ (6, record bob { username = "eva"; socket_fd = 6; alive = false })
        ∷ (5, bob)
        ∷ [];
  };
}

-- Bob leaves between the two sends.
abbrev between : List Move
between = advance 9 any 4 ∷ lose 5 ∷ advance 9 any 5 ∷ awake 9 ∷ advance 9 any 4 ∷ []

spoken : (play toy (advance 9 any 4 ∷ between) crowd).todo 4 ≡ some []
unfolding play do_move proceed carry_out is_idle find erase modify
spoken = refl

play_broadcast_example :
    (said toy 4 (advance 9 any 4 ∷ between) crowd
      ≡ delivery "ana" "hello" 4 ∷ delivery "ana" "hello" 5 ∷ [])
    × Adds
        (delivery "ana" "hello" 4 ∷ delivery "ana" "hello" 5 ∷ [])
        crowd.server
        (play toy (advance 9 any 4 ∷ between) crowd).server
play_broadcast_example =
    play_broadcast toy 4 "ana" "hello" 9 any between crowd refl
      (tt, (unequal, (tt, (tt, (tt, tt))))) spoken
  where
    unequal : ◌≢◌ {A = ℕ} 5 4
    unequal e = absurd (omega (arith, e))

abbrev short_chat : List Event
short_chat =
    two_join ++ message 9 4 MsgType.message_general (0 ∷ []) ∷ wake (10 ^ 12) ∷ hangup 5 ∷ shut ∷ []

short_chat-IsLegal : IsLegal toy short_chat (start 60 3) (λ j. false)
unfolding IsLegal opens step dispatch handle_register find insert modify new_server open_listener
    accept handle_message_general
short_chat-IsLegal =
    ((refl, refl), (refl, ((refl, refl), (refl, (refl, (refl, (refl, (tt, tt))))))))

legal-play_example :
    (ms : List Move) × ((play toy ms (begin 60 3)).server ≡ run toy short_chat (start 60 3))
legal-play_example = legal-play toy 60 3 short_chat short_chat-IsLegal

-- Ana was marked by the watchdog and is active again. It wakes up between the writes of her status
-- and that of her last activity, and marks her once more.
abbrev returning : Threads
returning = record speaking {
  server = record lobby { sessions = (4, record ana { status = invisible }) ∷ (5, bob) ∷ [] };
  todo = λ j. if j == 4 then some (restore ∷ touch ∷ []) else none;
}

restore_overtaken :
    find 4
      (play toy
        (advance (10 ^ 12) any 4
          ∷ awake (10 ^ 12)
          ∷ advance (10 ^ 12) any 4
          ∷ advance (10 ^ 12) any 4
          ∷ [])
        returning).server.sessions
    ≡ some (record ana { status = invisible; last_activity = 10 ^ 12 })
unfolding play do_move proceed carry_out is_idle find modify
restore_overtaken = refl

-- A connection is accepted and lost, and from then on its thread has all turns.
abbrev short_visit : ℕ → Move
short_visit zero = open_client 4
short_visit (suc zero) = lose 4
short_visit (suc (suc n)) = advance n any 4

visit_fair : (n : ℕ) → (d : ℕ) × (is_turn 4 (short_visit (n + d)) ≡ true)
visit_fair zero = (2, refl)
visit_fair (suc zero) = (1, refl)
visit_fair (suc (suc n)) = (0, subst (λ k. is_turn 4 (short_visit k) ≡ true) (same n) refl)
  where
    same : (n : ℕ) → suc (suc n) ≡ suc (suc n) + 0
    same n = omega arith

after_lost_example :
    (m : ℕ) × (1 ≤ m)
    × ((after toy short_visit m (begin 60 3)).todo 4 ≡ none)
    × IsAbsent 4 (after toy short_visit m (begin 60 3)).server
unfolding after do_move new_server open_listener accept
after_lost_example = after_lost toy 4 60 3 short_visit visit_fair 1 refl refl

-- Ana writes to bob, who leaves after he was looked up.
abbrev whispering : Threads
whispering = record speaking {
  todo =
      λ j. if j == 4 then some (seek ana "bob" "psst" ∷ []) else if j == 5 then some [] else none;
}

abbrev too_late : List Move
too_late = lose 5 ∷ advance 9 any 5 ∷ advance 9 any 4 ∷ advance 9 any 4 ∷ []

whispered : (play toy (advance 9 any 4 ∷ too_late) whispering).todo 4 ≡ some []
unfolding play do_move proceed carry_out find_user find erase modify
whispered = refl

play_dm_example :
    DmOutcome ana "bob" "psst" lobby
      (next_part toy 4 too_late (do_move toy (advance 9 any 4) whispering))
      (said toy 4 (advance 9 any 4 ∷ too_late) whispering)
play_dm_example =
    play_dm toy 4 ana "bob" "psst" 9 any too_late whispering lobby-IsConsistent refl
      (unequal, (tt, (tt, (tt, tt)))) whispered
  where
    unequal : ◌≢◌ {A = ℕ} 5 4
    unequal e = absurd (omega (arith, e))

-- The text does not go out.
unheard :
    said toy 4 (advance 9 any 4 ∷ too_late) whispering
    ≡ answer 4 StatusCode.ok_dm_sent "DM sent to bob" true ∷ []
unfolding said play do_move proceed carry_out find_user find erase modify is_alive
unheard = refl

-- It does if bob leaves behind the test.
heard :
    said toy 4
      (advance 9 any 4
        ∷ advance 9 any 4
        ∷ lose 5
        ∷ advance 9 any 5
        ∷ advance 9 any 4
        ∷ advance 9 any 4
        ∷ [])
      whispering
    ≡ private_message "ana" "psst" 5 ∷ answer 4 StatusCode.ok_dm_sent "DM sent to bob" true ∷ []
unfolding said play do_move proceed carry_out find_user find erase modify is_alive
heard = refl
