-- ===== src/Server/Tests/Starting.antt =====
-- The theorems on the arguments of the server, at a command line.
use simple_chat_protocol.Prelude.{◌<◌, ◌^◌, String, ◌≡◌, refl, none, some, List, [], ◌∷◌, arith}
use simple_chat_protocol.Prelude.Number.{ℤ, pos}
use simple_chat_protocol.Server.Lifecycle.{new_server}
use simple_chat_protocol.Server.Main.{main}
use simple_chat_protocol.Server.Options.{main-bounds}

abbrev zero_beyond : String → ℤ
zero_beyond s = pos 0

abbrev command_line : List String
command_line = "chat_server" ∷ "5000" ∷ "--verbose" ∷ "--idle-timeout" ∷ "60" ∷ []

started : main zero_beyond command_line ≡ some (5000, new_server 60)
unfolding main
started = refl

main-bounds_example :
    (5000 < 2 ^ 16)
    × (0 < (new_server 60).idle_timeout_sec)
    × ((new_server 60).idle_timeout_sec < 2 ^ 31)
    × ((new_server 60).sessions ≡ [])
    × ((new_server 60).listen_fd ≡ none)
main-bounds_example =
    main-bounds zero_beyond (λ s. omega arith) command_line 5000 (new_server 60) started
