-- ===== src/Server/Lifecycle.antt =====
-- The constructor, `run` and `stop` of src/server/server.cpp: the listening socket, the accepted
-- connections, and the end of the server.
use simple_chat_protocol.Prelude.{
  ℕ, Bool, true, false, Option, none, some, List, [], ◌∷◌, ◌++◌, if◌then◌else◌,
}
use simple_chat_protocol.Prelude.Map.{Map}
use simple_chat_protocol.Server.State.{SessionInfo, Server}
use simple_chat_protocol.Server.Session.{set_dead}
use simple_chat_protocol.Server.Client.{close}

-- The constructor of `ChatServer`. `listen_fd` is `none` where the code has -1.
unfoldable pub new_server : ℕ → Server
new_server idle_timeout_sec = record {
  idle_timeout_sec = idle_timeout_sec;
  running = false;
  listen_fd = none;
  sessions = [];
  username_to_fd = [];
  ip_to_fd = [];
  client_threads = [];
  sent = [];
  closed = [];
}

abbrev give_up : ℕ → Server → Server
give_up fd s = record (close fd s) { listen_fd = none }

-- The setup of `run`: the results of `socket`, `bind` and `listen`, `none` and false for an error.
-- The server accepts connections afterwards exactly if `running` is true.
unfoldable pub open_listener : Option ℕ → Bool → Bool → Server → Server
unfolding close
open_listener none bound listening s = record s { listen_fd = none }
open_listener (some fd) bound listening s =
    if bound
    then (if listening then record s { listen_fd = some fd; running = true } else give_up fd s)
    else give_up fd s

-- The accept loop starts a thread for the connection.
unfoldable pub accept : ℕ → Server → Server
accept client_fd s = record s { client_threads = s.client_threads ++ client_fd ∷ [] }

-- The accept loop over the results of `accept`, `none` for an error. It reads `running_` in each
-- round.
unfoldable pub accept_clients : List (Option ℕ) → Server → Server
unfolding accept
accept_clients [] s = s
accept_clients (result ∷ later) s =
    let s' : Server = elim result [ none ↦ s | some client_fd ↦ accept client_fd s ] in
    let rest = accept_clients later s' in if s.running then rest else s

-- The whole of `run`. Where a call of the setup fails, `running_` stays false.
unfoldable pub serve : Option ℕ → Bool → Bool → List (Option ℕ) → Server → Server
unfolding open_listener accept_clients
serve socket bound listening results s =
    let s' : Server = open_listener socket bound listening s in
    elim s'.listen_fd [ none ↦ s' | some fd ↦ accept_clients results s' ]

abbrev pub close_listener : Option ℕ → Server → Server
close_listener none s = s
close_listener (some fd) s = record (close fd s) { listen_fd = none }

-- The loop of `stop` over `sessions_`: each session dies, and its socket is closed.
unfoldable pub kill_all : Map ℕ SessionInfo → Map ℕ SessionInfo
kill_all [] = []
kill_all ((fd, session) ∷ m) = (fd, set_dead session) ∷ kill_all m

unfoldable pub close_all : Map ℕ SessionInfo → Server → Server
unfolding close
close_all [] s = s
close_all ((fd, session) ∷ m) s = close_all m (close fd s)

-- `stop` up to the joining of the watchdog.
unfoldable pub stop_listening : Server → Server
unfolding close
stop_listening s = close_listener s.listen_fd (record s { running = false })

-- The rest of `stop`, under `sessions_mutex_`. The calls of `join` change no state.
unfoldable pub stop_clients : Server → Server
unfolding kill_all close_all
stop_clients s = close_all s.sessions (record s { sessions = kill_all s.sessions })

unfoldable pub stop : Server → Server
unfolding stop_listening stop_clients
stop s = stop_clients (stop_listening s)
