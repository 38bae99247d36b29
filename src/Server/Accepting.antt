-- ===== src/Server/Accepting.antt =====
-- The accept loop of `run` in src/server/server.cpp.
use simple_chat_protocol.Prelude.{
  ℕ, Bool, true, false, ◌≡◌, refl, ap, ◌∙◌, Option, none, some, List, [], ◌∷◌, if◌then◌else◌,
}
use simple_chat_protocol.Messages.{World}
use simple_chat_protocol.Server.State.{Server}
use simple_chat_protocol.Server.Client.{close}
use simple_chat_protocol.Server.Lifecycle.{new_server, open_listener, accept, accept_clients, serve}
use simple_chat_protocol.Server.Events.{Event, connect, start, step, run}

-- A new connection for each call of `accept` that does not fail.
abbrev pub connections : List (Option ℕ) → List Event
connections [] = []
connections (none ∷ results) = connections results
connections (some fd ∷ results) = connect fd ∷ connections results

accept_clients_lem :
    (w : World) (results : List (Option ℕ)) (s : Server)
    → s.running ≡ true
    → accept_clients results s ≡ run w (connections results) s
unfolding accept_clients run step accept
accept_clients_lem w [] s r = refl
accept_clients_lem w (none ∷ results) s r =
    ap (λ b. if b then accept_clients results s else s) r ∙ accept_clients_lem w results s r
accept_clients_lem w (some fd ∷ results) s r =
    ap (λ b. if b then accept_clients results (accept fd s) else s) r
    ∙ accept_clients_lem w results (accept fd s) r

-- A new server whose socket, `bind` and `listen` succeed takes each connection that `accept` gives,
-- in this order, and goes on after a failure: its state is that after the events of these
-- connections from the start. A new server whose `bind` or `listen` fails closes its socket and
-- does nothing else, whatever there is to accept.
serve_lem :
    (w : World) (timeout fd : ℕ) (results : List (Option ℕ)) (listening : Bool)
    → (serve (some fd) true true results (new_server timeout)
        ≡ run w (connections results) (start timeout fd))
      × (serve (some fd) false listening results (new_server timeout)
          ≡ record (new_server timeout) { closed = fd ∷ [] })
      × (serve (some fd) true false results (new_server timeout)
          ≡ record (new_server timeout) { closed = fd ∷ [] })
unfolding serve open_listener new_server accept_clients close
serve_lem w timeout fd results listening =
    (accept_clients_lem w results (start timeout fd) refl, refl, refl)
