-- ===== src/Server/Tests/Rounds.antt =====
-- The theorems on the watchdog, on a connection and on the end of the server, in the chat of two
-- users.
use simple_chat_protocol.Prelude.{
  ℕ, ◌+◌, ◌*◌, ◌≡◌, false, none, some, List, [], ◌∷◌, ◌++◌, arith, nat_equality,
}
use simple_chat_protocol.Prelude.Map.{find}
use simple_chat_protocol.Protocol.Status.{invisible}
use simple_chat_protocol.Wire.Tests.{slow, arriving}
use simple_chat_protocol.Server.Watchdog.{second, watchdog_round}
use simple_chat_protocol.Server.Client.{handle_client}
use simple_chat_protocol.Server.Lifecycle.{stop}
use simple_chat_protocol.Server.Events.{start, run, wake, hangup, shut}
use simple_chat_protocol.Server.Typing.{AllTyped}
use simple_chat_protocol.Server.Typing.Steps.{run-start-AllTyped}
use simple_chat_protocol.Server.Connection.{EndsAsRun, handle_client-EndsAsRun}
use simple_chat_protocol.Server.Stopping.{stop_lem}
use simple_chat_protocol.Server.Watching.{find-watchdog_round}
use simple_chat_protocol.Server.Tests.{two_join, toy, lobby, ana, bob, lobby-IsConsistent}

-- The timeout of sixty seconds after ana's registration.
abbrev deadline : ℕ
deadline = 7 + 60 * second

find-watchdog_round_example :
    find 4 (watchdog_round deadline lobby).sessions ≡ some (record ana { status = invisible })
unfolding find
find-watchdog_round_example = find-watchdog_round deadline 4 lobby (omega arith)

-- Eva registers on a third connection, asks for the users and hangs up.
abbrev eva_bytes : List ℕ
eva_bytes = 1 ∷ 0 ∷ 0 ∷ 0 ∷ 1 ∷ 3 ∷ 5 ∷ 0 ∷ 0 ∷ 0 ∷ 1 ∷ 0 ∷ []

handle_client-EndsAsRun_example :
    EndsAsRun slow toy
      (λ _. 9)
      7
      lobby
      (handle_client slow toy (λ _. 9) 7 13 (arriving eva_bytes) lobby)
handle_client-EndsAsRun_example =
    handle_client-EndsAsRun slow toy (λ _. 9) 7 13 (arriving eva_bytes) lobby (omega arith)
      lobby-IsConsistent

stop_lem_example : stop lobby ≡ record lobby {
  running = false;
  listen_fd = none;
  sessions = (4, record ana { alive = false }) ∷ (5, record bob { alive = false }) ∷ [];
  closed = 3 ∷ 4 ∷ 5 ∷ [];
}
stop_lem_example = stop_lem lobby

run-start-AllTyped_example :
    AllTyped (run toy (two_join ++ wake deadline ∷ hangup 4 ∷ shut ∷ []) (start 60 3))
run-start-AllTyped_example =
    run-start-AllTyped toy 60 3 (two_join ++ wake deadline ∷ hangup 4 ∷ shut ∷ [])
