-- ===== src/Server/Threads/Putting.antt =====
-- `put`, by which the threads of src/server/server.cpp are told apart by their descriptors.
use simple_chat_protocol.Prelude.{ℕ, false, ◌≡◌, ◌≢◌, refl, if_cases, ◌==◌, ==_iff, arith}
use simple_chat_protocol.Server.Threads.Machine.{put}

module _ {A : Type 0} where
  pub put_here : (fd : ℕ) (x : A) (f : ℕ → A) → put fd x f fd ≡ x
  put_here fd x f = if_cases (λ y. y ≡ x) (fd == fd) x (f fd) (λ _. refl) (λ e. absurd (unequal e))
    where
      unequal : (fd == fd) ≡ false → ⊥
      unequal e = ground arith

  pub put_other : (fd j : ℕ) (x : A) (f : ℕ → A) → fd ≢ j → put fd x f j ≡ f j
  put_other fd j x f other =
      if_cases (λ y. y ≡ f j) (fd == j) x (f j) (λ e. absurd (other ((==_iff fd j).0 e)))
        (λ _. refl)
