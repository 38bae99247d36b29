-- ===== src/Client/Lifetime.antt =====
-- The life of a `NetworkThread` (src/client/network.cpp): the object that the window's thread
-- makes, stops and destroys, and its loop, step by step.
use simple_chat_protocol.Prelude.{
  ℕ, Bool, true, false, Option, none, some, List, [], ◌∷◌, ◌++◌, if◌then◌else◌,
}
use simple_chat_protocol.Client.Thread.{Signal, connection_lost, ServerFormats, emit_message}

-- Where `run` is: at the test of `running_`, in `recv_message`, behind its failure, or at its end.
pub data Phase : Type 0 where
  at_test : Phase
  in_recv : Phase
  at_failure : Phase
  finished : Phase

-- `is_shut` tells that the receiving side of the socket was shut down.
pub record NetworkThread : Type 0 where
  pub socket_fd : ℕ
  pub running : Bool
  pub phase : Phase
  pub is_shut : Bool

abbrev pub new_network_thread : ℕ → NetworkThread
new_network_thread socket_fd = record {
  socket_fd = socket_fd;
  running = true;
  phase = at_test;
  is_shut = false;
}

unfoldable pub stop_thread : NetworkThread → NetworkThread
stop_thread t = record t { running = false; is_shut = true }

-- `advance`: the thread reads `running_` where it does so.
-- `returns r`: `recv_message` returns, with a message or with false.
-- `stop`: another thread calls `stopThread`.
pub data Step : Type 0 where
  advance : Step
  returns : Option (ℕ × List ℕ) → Step
  stop : Step

abbrev pub read_running : Bool → Phase → Phase × List Signal
read_running running at_test = (if running then in_recv else finished, [])
read_running running in_recv = (in_recv, [])
read_running running at_failure = (finished, if running then connection_lost ∷ [] else [])
read_running running finished = (finished, [])

module _ (f : ServerFormats) where
  abbrev pub take_result : Option (ℕ × List ℕ) → Phase → Phase × List Signal
  take_result none in_recv = (at_failure, [])
  take_result (some (msg_type, payload)) in_recv = (at_test, emit_message f msg_type payload)
  take_result r phase = (phase, [])

  -- One step, with the signals that it emits.
  unfoldable pub step : Step → NetworkThread → NetworkThread × List Signal
  unfolding stop_thread emit_message
  step advance t =
      let next = read_running t.running t.phase in (record t { phase = next.0 }, next.1)
  step (returns r) t = let next = take_result r t.phase in (record t { phase = next.0 }, next.1)
  step stop t = (stop_thread t, [])

  unfoldable pub steps : List Step → NetworkThread → NetworkThread × List Signal
  unfolding step
  steps [] t = (t, [])
  steps (x ∷ xs) t = let next = step x t in let rest = steps xs next.0 in (rest.0, next.1 ++ rest.1)

  -- The destructor: `stopThread`, then `wait`, in which the thread comes to its end. `shutdown`
  -- makes a call of `recv` return, so `recv_message` returns, with the result `r`.
  unfoldable pub destroy : Option (ℕ × List ℕ) → NetworkThread → NetworkThread × List Signal
  unfolding steps
  destroy r t = steps (advance ∷ returns r ∷ advance ∷ []) (stop_thread t)
