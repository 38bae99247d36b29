-- ===== src/Wire/Progress.antt =====
-- How much of a byte stream `recv_message` of include/chat/protocol.h takes.
use simple_chat_protocol.Prelude.{
  ℕ, ◌+◌, ◌≤◌, ◌≡◌, ap, Option, none, some, List, arith, true, length, length-drop, inl, inr,
  Bool-cases, if_cases, option_cases, leb, ltb,
}
use simple_chat_protocol.Prelude.Map.{map_option-eq-some}
use simple_chat_protocol.Wire.Socket.{Socket}
use simple_chat_protocol.Wire.Io.{read_exact}
use simple_chat_protocol.Wire.Frame.{
  header_size, max_payload, payload_length, recv_payload, recv_message,
}
use simple_chat_protocol.Wire.Reading.{read_exact_enough, read_exact_short}

module _ (k : Socket) where
  open k use {S, incoming}

  read_exact_takes :
      (s t : S) (len : ℕ) (bytes : List ℕ)
      → read_exact k s len ≡ some (bytes, t)
      → length (incoming t) + len ≡ length (incoming s)
  read_exact_takes s t len bytes e = elim (Bool-cases (leb len (length (incoming s)))) [
    | inl enough ↦
        let (t', got, left) = read_exact_enough k s len (ground arith) in
        let same : t' ≡ t = cc in
        omega (
          arith,
          ap length left,
          length-drop len (incoming s),
          ap (λ (x : S). length (incoming x)) same,
          within enough,
        )
    | inr short ↦ absurd (cc (e, read_exact_short k s len (ground arith)))
  ]
    where
      within : leb len (length (incoming s)) ≡ true → len ≤ length (incoming s)
      within h = ground arith

  recv_payload_takes :
      (header : List ℕ) (s t : S) (r : ℕ × List ℕ)
      → recv_payload k header s ≡ some (r, t)
      → length (incoming t) ≤ length (incoming s)
  unfolding recv_payload
  recv_payload_takes header s t r =
      let P : Option ((ℕ × List ℕ) × S) → Type 0 =
        λ o. o ≡ some (r, t) → length (incoming t) ≤ length (incoming s) in
      if_cases P (ltb max_payload (payload_length header)) none _ (λ _ e. absurd cc)
        λ _.
          if_cases P (ltb 0 (payload_length header)) _ _
            (λ _ e.
              let (got, here, is) =
                map_option-eq-some _ (read_exact k s (payload_length header)) (r, t) e in
              let same : got.1 ≡ t = cc in
              omega (
                arith,
                read_exact_takes s got.1 (payload_length header) got.0 here,
                ap (λ (x : S). length (incoming x)) same,
              ))
            (λ _ e.
              let same : s ≡ t = cc in omega (arith, ap (λ (x : S). length (incoming x)) same))

  -- A message takes its header at least.
  pub recv_message_takes :
      (s t : S) (r : ℕ × List ℕ)
      → recv_message k s ≡ some (r, t)
      → length (incoming t) + header_size ≤ length (incoming s)
  unfolding recv_message
  recv_message_takes s t r =
      option_cases (λ o. o ≡ some (r, t) → length (incoming t) + header_size ≤ length (incoming s))
        (read_exact k s header_size) none _ (λ _ e. absurd cc)
        λ got here e. omega (
          arith,
          read_exact_takes s got.1 header_size got.0 here,
          recv_payload_takes got.0 got.1 t r e,
        )
