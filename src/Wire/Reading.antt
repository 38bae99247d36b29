-- ===== src/Wire/Reading.antt =====
-- What `read_exact` of include/chat/protocol.h takes in, whatever `recv` gives at a time.
use simple_chat_protocol.Prelude.{
  ℕ, zero, suc, ◌+◌, ◌-◌, ◌≤◌, ◌<◌, ◌≡◌, refl, sym, ap, ◌∙◌, Option, none, some, List, [], ◌∷◌,
  ◌++◌, arith, length, take, drop, length-append, take-append_length, drop-append_length,
}
use mathlib.Core.Path.{ap₂}
use simple_chat_protocol.Wire.Socket.{Socket}
use simple_chat_protocol.Wire.Io.{read_loop, read_exact}

pub take-append_le {ℓ} :
    {A : Type ℓ} (n : ℕ) (xs ys : List A)
    → length xs ≤ n
    → take n (xs ++ ys) ≡ xs ++ take (n - length xs) ys
take-append_le n [] ys h = ap (λ (m : ℕ). take m ys) (omega arith)
take-append_le zero (x ∷ xs) ys h = absurd (omega arith)
take-append_le (suc n) (x ∷ xs) ys h =
    ap (◌∷◌ x)
      (take-append_le n xs ys (omega arith) ∙ ap (λ (m : ℕ). xs ++ take m ys) (omega arith))

drop-append_le {ℓ} :
    {A : Type ℓ} (n : ℕ) (xs ys : List A)
    → length xs ≤ n
    → drop n (xs ++ ys) ≡ drop (n - length xs) ys
drop-append_le n [] ys h = ap (λ (m : ℕ). drop m ys) (omega arith)
drop-append_le zero (x ∷ xs) ys h = absurd (omega arith)
drop-append_le (suc n) (x ∷ xs) ys h =
    drop-append_le n xs ys (omega arith) ∙ ap (λ (m : ℕ). drop m ys) (omega arith)

module _ (k : Socket) where
  open k use {S, recv, incoming, recv_fits, recv_takes, recv_waits}

  -- Success: the next `remaining` bytes, and the stream behind them.
  abbrev pub Reads : S → ℕ → Option (List ℕ × S) → Type 0
  Reads s n r =
      (s' : S) × (r ≡ some (take n (incoming s), s')) × (incoming s' ≡ drop n (incoming s))

  -- What is left of the stream behind a chunk.
  chunk_length :
      (s : S) (n : ℕ) → length (incoming s) ≡ length (recv s n).0 + length (incoming (recv s n).1)
  chunk_length s n = ap length (recv_takes s n) ∙ length-append _ _

  chunk-take :
      (s : S) (n : ℕ)
      → take n (incoming s) ≡ (recv s n).0 ++ take (n - length (recv s n).0) (incoming (recv s n).1)
  chunk-take s n = ap (take n) (recv_takes s n) ∙ take-append_le n (recv s n).0 _ (recv_fits s n)

  chunk-drop :
      (s : S) (n : ℕ) → drop n (incoming s) ≡ drop (n - length (recv s n).0) (incoming (recv s n).1)
  chunk-drop s n = ap (drop n) (recv_takes s n) ∙ drop-append_le n (recv s n).0 _ (recv_fits s n)

  read_loop_enough :
      (fuel : ℕ) (s : S) (n : ℕ)
      → n ≤ fuel
      → n ≤ length (incoming s)
      → Reads s n (read_loop k fuel s n)
  unfolding read_loop
  read_loop_enough zero s zero f h = (s, refl, refl)
  read_loop_enough (suc fuel) s zero f h = (s, refl, refl)
  read_loop_enough zero s (suc n) f h = absurd (omega arith)
  read_loop_enough (suc fuel) s (suc n) f h =
      let alive : 0 < length (recv s (suc n)).0 =
        recv_waits s (suc n) (omega arith) (omega arith) in
      let ih =
        read_loop_enough fuel (recv s (suc n)).1 (suc n - length (recv s (suc n)).0) (omega arith)
          (omega (arith, chunk_length s (suc n))) in
      (ih.0, ground (arith, alive, ih.1, chunk-take s (suc n)), ih.2 ∙ sym (chunk-drop s (suc n)))

  read_loop_short :
      (fuel : ℕ) (s : S) (n : ℕ) → length (incoming s) < n → read_loop k fuel s n ≡ none
  unfolding read_loop
  read_loop_short zero s n h = ground arith
  read_loop_short (suc fuel) s n h =
      ground (arith, chunk_length s n, read_loop_short fuel (recv s n).1 (n - length (recv s n).0))

  -- When the stream still holds `len` bytes, `read_exact` returns exactly them, and leaves the
  -- rest.
  pub read_exact_enough :
      (s : S) (len : ℕ) → len ≤ length (incoming s) → Reads s len (read_exact k s len)
  unfolding read_exact
  read_exact_enough s len h = read_loop_enough len s len (omega arith) h

  -- When the stream ends before `len` bytes, `read_exact` returns false.
  pub read_exact_short : (s : S) (len : ℕ) → length (incoming s) < len → read_exact k s len ≡ none
  unfolding read_exact
  read_exact_short s len h = read_loop_short len s len h

  -- The same for a stream that is cut behind the bytes that are read.
  pub read_exact-append :
      (s : S) (len : ℕ) (bytes rest : List ℕ)
      → incoming s ≡ bytes ++ rest
      → length bytes ≡ len
      → (s' : S) × (read_exact k s len ≡ some (bytes, s')) × (incoming s' ≡ rest)
  read_exact-append s len bytes rest e n =
      let got = read_exact_enough s len (omega (arith, n, ap length e, length-append bytes rest)) in
      (got.0, cc (got.1, cut_front), got.2 ∙ cut_back)
    where
      cut_front : take len (incoming s) ≡ bytes
      cut_front = ap₂ take (sym n) e ∙ take-append_length bytes rest

      cut_back : drop len (incoming s) ≡ rest
      cut_back = ap₂ drop (sym n) e ∙ drop-append_length bytes rest
