-- ===== src/Wire/Writing.antt =====
-- What `write_exact` of include/chat/protocol.h puts out, whatever `send` takes at a time.
use simple_chat_protocol.Prelude.{
  ℕ, zero, suc, ◌+◌, ◌≤◌, ◌<◌, ◌≡◌, refl, sym, ap, ◌∙◌, Bool, true, false, List, [], ◌∷◌, ◌++◌,
  arith, length, take, drop, length-drop, length-append, Bool-cases, inl, inr, ◌==◌, ==_iff,
  if◌then◌else◌,
}
use mathlib.Core.List.{append-nil, append_assoc}
use simple_chat_protocol.Wire.Socket.{Socket}
use simple_chat_protocol.Wire.Io.{write_loop, write_exact}

take-nil {ℓ} : {A : Type ℓ} (n : ℕ) → take {A = A} n [] ≡ []
take-nil zero = refl
take-nil (suc n) = refl

take-add {ℓ} :
    {A : Type ℓ} (n m : ℕ) (xs : List A) → take n xs ++ take m (drop n xs) ≡ take (n + m) xs
take-add zero m xs = ap (λ (i : ℕ). take i xs) (omega arith)
take-add (suc n) m [] = take-nil m ∙ sym (take-nil (suc n + m))
take-add (suc n) m (x ∷ xs) =
    ap (◌∷◌ x) (take-add n m xs)
    ∙ ap (λ (i : ℕ). take i (x ∷ xs)) {x = suc (n + m)} {y = suc n + m} (omega arith)

take-append_behind {ℓ} :
    {A : Type ℓ} (xs ys : List A) (n : ℕ) → xs ++ take n ys ≡ take (length xs + n) (xs ++ ys)
take-append_behind [] ys n = ap (λ (i : ℕ). take i ys) (omega arith)
take-append_behind (x ∷ xs) ys n =
    ap (◌∷◌ x) (take-append_behind xs ys n)
    ∙ ap (λ (i : ℕ). take i (x ∷ xs ++ ys)) {x = suc (length xs + n)} {y = suc (length xs) + n}
        (omega arith)

take-append_front {ℓ} :
    {A : Type ℓ} (n : ℕ) (xs ys : List A) → n ≤ length xs → take n (xs ++ ys) ≡ take n xs
take-append_front zero xs ys h = refl
take-append_front (suc n) [] ys h = absurd (omega arith)
take-append_front (suc n) (x ∷ xs) ys h = ap (◌∷◌ x) (take-append_front n xs ys (omega arith))

pub take-length {ℓ} : {A : Type ℓ} (xs : List A) → take (length xs) xs ≡ xs
take-length [] = refl
take-length (x ∷ xs) = ap (◌∷◌ x) (take-length xs)

module _ (k : Socket) where
  open k use {S, send, outgoing, send_fits, send_adds}

  -- How many bytes of the buffer went out, for a result of `write_exact`.
  pub record Writes (s : S) (bytes : List ℕ) (r : Bool × S) : Type 0 where
    pub sent : ℕ
    pub went_out : outgoing r.1 ≡ outgoing s ++ take sent bytes
    pub whole : r.0 ≡ true → sent ≡ length bytes
    pub partly : r.0 ≡ false → sent < length bytes

  -- A round that takes bytes, and the rounds behind it.
  Writes-round :
      (s : S) (bytes : List ℕ) (r : Bool × S)
      → Writes (send s bytes).1 (drop (send s bytes).0 bytes) r
      → Writes s bytes r
  Writes-round s bytes r w = record {
    sent = (send s bytes).0 + w.sent;
    went_out =
        w.went_out
        ∙ ap (λ (b : List ℕ). b ++ take w.sent (drop (send s bytes).0 bytes)) (send_adds s bytes)
        ∙ append_assoc (outgoing s) _ _
        ∙ ap (◌++◌ (outgoing s)) (take-add (send s bytes).0 w.sent bytes);
    whole = λ e. omega (arith, w.whole e, length-drop (send s bytes).0 bytes, send_fits s bytes);
    partly = λ e. omega (arith, w.partly e, length-drop (send s bytes).0 bytes, send_fits s bytes);
  }

  write_loop_step :
      (fuel : ℕ) (s : S) (b : ℕ) (bs : List ℕ)
      → write_loop k (suc fuel) s (b ∷ bs) ≡ (
          if (send s (b ∷ bs)).0 == 0
          then (false, (send s (b ∷ bs)).1)
          else write_loop k fuel (send s (b ∷ bs)).1 (drop (send s (b ∷ bs)).0 (b ∷ bs)))
  unfolding write_loop
  write_loop_step fuel s b bs = ground arith

  -- A round whose `send` fails: nothing of the buffer that is left goes out.
  Writes-stopped :
      (s : S) (b : ℕ) (bs : List ℕ)
      → (send s (b ∷ bs)).0 ≡ 0
      → Writes s (b ∷ bs) (false, (send s (b ∷ bs)).1)
  Writes-stopped s b bs e = record {
    sent = 0;
    went_out = send_adds s (b ∷ bs) ∙ ap (λ (n : ℕ). outgoing s ++ take n (b ∷ bs)) e;
    whole = λ e. cc;
    partly = λ e. omega arith;
  }

  Writes-empty : (s : S) (r : Bool × S) → r ≡ (true, s) → Writes s [] r
  Writes-empty s r e =
      rw e (record { sent = 0; went_out = sym (append-nil _); whole = λ e. refl; partly = λ e. cc })

  write_loop-Writes :
      (fuel : ℕ) (s : S) (bytes : List ℕ)
      → length bytes ≤ fuel
      → Writes s bytes (write_loop k fuel s bytes)
  write_loop-Writes zero s [] h = Writes-empty s _ (unfold write_loop in refl)
  write_loop-Writes (suc fuel) s [] h = Writes-empty s _ (unfold write_loop in refl)
  write_loop-Writes zero s (b ∷ bs) h = absurd (omega arith)
  write_loop-Writes (suc fuel) s (b ∷ bs) h = elim (Bool-cases ((send s (b ∷ bs)).0 == 0)) [
    | inl stopped ↦ rw (write_loop_step, stopped) (Writes-stopped s b bs ((==_iff _ _).0 stopped))
    | inr more ↦
        rw (write_loop_step, more)
          (Writes-round s (b ∷ bs) _ (
            write_loop-Writes fuel (send s (b ∷ bs)).1 (drop (send s (b ∷ bs)).0 (b ∷ bs))
              (ground (arith, length-drop (send s (b ∷ bs)).0 (b ∷ bs)))))
  ]

  -- Whatever `send` takes at a time: the result true means that the whole buffer went out, the
  -- result false that a proper front part of it did.
  pub write_exact-Writes : (s : S) (bytes : List ℕ) → Writes s bytes (write_exact k s bytes)
  unfolding write_exact
  write_exact-Writes s bytes = write_loop-Writes (length bytes) s bytes (omega arith)

  write_loop_live :
      ((s : S) (bytes : List ℕ) → 0 < length bytes → 0 < (send s bytes).0)
      → (fuel : ℕ) (s : S) (bytes : List ℕ) → length bytes ≤ fuel
      → (write_loop k fuel s bytes).0 ≡ true
  write_loop_live live zero s [] h = unfold write_loop in refl
  write_loop_live live (suc fuel) s [] h = unfold write_loop in refl
  write_loop_live live zero s (b ∷ bs) h = absurd (omega arith)
  write_loop_live live (suc fuel) s (b ∷ bs) h =
      let taken : 0 < (send s (b ∷ bs)).0 = live s (b ∷ bs) (omega arith) in
      ground (
        arith,
        taken,
        write_loop_step fuel s b bs,
        length-drop (send s (b ∷ bs)).0 (b ∷ bs),
        write_loop_live live fuel (send s (b ∷ bs)).1 (drop (send s (b ∷ bs)).0 (b ∷ bs)),
      )

  -- When no `send` fails, `write_exact` returns true.
  write_exact_live :
      ((s : S) (bytes : List ℕ) → 0 < length bytes → 0 < (send s bytes).0)
      → (s : S) (bytes : List ℕ) → (write_exact k s bytes).0 ≡ true
  unfolding write_exact
  write_exact_live live s bytes = write_loop_live live (length bytes) s bytes (omega arith)

  -- A buffer behind another one, once that has gone out whole.
  pub Writes-append :
      (s : S) (xs ys : List ℕ) (q r : Bool × S)
      → Writes s xs q
      → q.0 ≡ true
      → Writes q.1 ys r
      → Writes s (xs ++ ys) r
  Writes-append s xs ys q r w done v = record {
    sent = length xs + v.sent;
    went_out =
        v.went_out
        ∙ ap (λ (b : List ℕ). b ++ take v.sent ys)
            (w.went_out
              ∙ ap (λ (n : ℕ). outgoing s ++ take n xs) (w.whole done)
              ∙ ap (◌++◌ (outgoing s)) (take-length xs))
        ∙ append_assoc (outgoing s) xs (take v.sent ys)
        ∙ ap (◌++◌ (outgoing s)) (take-append_behind xs ys v.sent);
    whole = λ e. omega (arith, v.whole e, length-append xs ys);
    partly = λ e. omega (arith, v.partly e, length-append xs ys);
  }

  -- A buffer of which a front part alone went out, with another one behind it that was not tried.
  pub Writes-front :
      (s : S) (xs ys : List ℕ) (q : Bool × S) → Writes s xs q → q.0 ≡ false → Writes s (xs ++ ys) q
  Writes-front s xs ys q w failed =
      let short : w.sent < length xs = w.partly failed in
      record {
        sent = w.sent;
        went_out =
            w.went_out
            ∙ ap (◌++◌ (outgoing s)) (sym (take-append_front w.sent xs ys (omega arith)));
        whole = λ e. cc;
        partly = λ e. omega (arith, short, length-append xs ys);
      }
