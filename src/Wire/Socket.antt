-- ===== src/Wire/Socket.antt =====
-- What include/chat/protocol.h uses of a connected TCP socket: `recv` and `send`.
-- They are calls of the operating system, hence a parameter of the model.
use simple_chat_protocol.Prelude.{ℕ, ◌≤◌, ◌<◌, ◌≡◌, List, ◌++◌, length, take}

-- `recv s n` is the chunk that `recv(fd, ptr, n, 0)` stores; `[]` stands for a result `n <= 0`,
-- the end of the stream or an error. `(send s bytes).0` is the number of bytes that the call took;
-- 0 stands for a result `n <= 0`.
-- `incoming` is what the peer will have sent before the stream ends, `outgoing` what went out.
pub record Socket : Type 1 where
  pub S : Type 0
  pub recv : S → ℕ → List ℕ × S
  pub send : S → List ℕ → ℕ × S
  pub incoming : S → List ℕ
  pub outgoing : S → List ℕ
  pub recv_fits : (s : S) (n : ℕ) → length (recv s n).0 ≤ n
  pub recv_takes : (s : S) (n : ℕ) → incoming s ≡ (recv s n).0 ++ incoming (recv s n).1
  pub recv_waits : (s : S) (n : ℕ) → 0 < n → 0 < length (incoming s) → 0 < length (recv s n).0
  pub send_fits : (s : S) (bytes : List ℕ) → (send s bytes).0 ≤ length bytes
  pub send_adds :
      (s : S) (bytes : List ℕ)
      → outgoing (send s bytes).1 ≡ outgoing s ++ take (send s bytes).0 bytes
