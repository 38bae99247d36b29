-- ===== src/Client/Tests/Stopped.antt =====
-- The theorems on the thread of the client that is stopped.
use simple_chat_protocol.Prelude.{
  ◌≡◌, refl, true, false, All, none, some, List, [], ◌∷◌, ◌++◌, if◌then◌else◌, ◌==◌,
}
use simple_chat_protocol.Protocol.MsgType
use simple_chat_protocol.Wire.Frame.{recv_message, payload_length}
use simple_chat_protocol.Wire.Io.{read_exact}
use simple_chat_protocol.Wire.Tests.{slow, slow_recv, arriving}
use simple_chat_protocol.Client.Thread.{for_dm_received, emit_message, run_thread}
use simple_chat_protocol.Client.Lifetime.{
  in_recv, finished, NetworkThread, Step, advance, returns, steps, stop_thread, destroy,
}
use simple_chat_protocol.Client.Stopped.{AtMostOne, IsMessage, stop_thread-AtMostOne}
use simple_chat_protocol.Client.Stepwise.{EndsWith, run_thread-EndsWith}
use simple_chat_protocol.Client.Tests.{formats, psst_frame}

-- A thread in `recv_message`.
abbrev receiving : NetworkThread
receiving = record { socket_fd = 3; running = true; phase = in_recv; is_shut = false }

-- A message arrives while the window stops the thread, and then the loop ends.
abbrev last_message : List Step
last_message = returns (some (MsgType.for_dm, 7 ∷ [])) ∷ advance ∷ returns none ∷ advance ∷ []

stop_thread-AtMostOne_example :
    AtMostOne formats in_recv (steps formats last_message (stop_thread receiving)).1
    × All IsMessage (steps formats last_message (stop_thread receiving)).1
    × ((destroy formats none receiving).0.phase ≡ finished)
stop_thread-AtMostOne_example = stop_thread-AtMostOne formats receiving last_message none

-- The thread is stopped in its third round, before it reads `running_`.
psst_signals :
    run_thread formats slow
      (λ n. if n == 0 then false else true)
      (λ _. true)
      3
      (arriving (psst_frame ++ psst_frame))
    ≡ some (for_dm_received "ana" "psst" ∷ for_dm_received "ana" "psst" ∷ [])
unfolding run_thread recv_message read_exact slow_recv payload_length emit_message
psst_signals = refl

run_thread-EndsWith_example :
    EndsWith formats slow
      (λ n. if n == 0 then false else true)
      (λ _. true)
      3
      3
      (arriving (psst_frame ++ psst_frame))
      (for_dm_received "ana" "psst" ∷ for_dm_received "ana" "psst" ∷ [])
run_thread-EndsWith_example =
    run_thread-EndsWith formats slow (λ n. if n == 0 then false else true) (λ _. true) 3 3
      (arriving (psst_frame ++ psst_frame))
      (for_dm_received "ana" "psst" ∷ for_dm_received "ana" "psst" ∷ []) psst_signals
