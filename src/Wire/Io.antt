-- ===== src/Wire/Io.antt =====
-- `read_exact` and `write_exact` of include/chat/protocol.h.
use simple_chat_protocol.Prelude.{
  ℕ, zero, suc, ◌-◌, Bool, true, false, Option, none, some, List, [], ◌++◌, length, drop, ◌==◌,
  if◌then◌else◌,
}
use simple_chat_protocol.Prelude.Map.{map_option}
use simple_chat_protocol.Wire.Socket.{Socket}

module _ (k : Socket) where
  open k use {S, recv, send}

  -- `none` is the result `false`. Each round reads a byte at least, so `len` rounds are enough.
  unfoldable pub read_loop : ℕ → S → ℕ → Option (List ℕ × S)
  read_loop zero s remaining = if remaining == 0 then some ([], s) else none
  read_loop (suc fuel) s remaining =
      let chunk = (recv s remaining).0 in
      let rest = read_loop fuel (recv s remaining).1 (remaining - length chunk) in
      if remaining == 0
      then some ([], s)
      else if length chunk == 0
      then none
      else map_option (λ r. (chunk ++ r.0, r.1)) rest

  unfoldable pub read_exact : S → ℕ → Option (List ℕ × S)
  unfolding read_loop
  read_exact s len = read_loop len s len

  -- The list is what lies from `ptr` to the end of the buffer.
  unfoldable pub write_loop : ℕ → S → List ℕ → Bool × S
  write_loop zero s bytes = (length bytes == 0, s)
  write_loop (suc fuel) s bytes =
      let n = (send s bytes).0 in
      let rest = write_loop fuel (send s bytes).1 (drop n bytes) in
      if length bytes == 0 then (true, s) else if n == 0 then (false, (send s bytes).1) else rest

  unfoldable pub write_exact : S → List ℕ → Bool × S
  unfolding write_loop
  write_exact s bytes = write_loop (length bytes) s bytes
