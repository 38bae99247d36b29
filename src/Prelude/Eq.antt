-- ===== src/Prelude/Eq.antt =====
-- Equality tests as an interface, for the keys of maps.
use Prim.Native.Nat.{ℕ}
use Prim.Native.String.{String}
use mathlib.Core.Path.{◌≡◌}
use mathlib.Core.Logic.{◌↔◌}
use mathlib.Core.Bool.{Bool, true}
use text.Mathlib.Text.{◌==◌ as str_eq}
use text.Mathlib.TextEquality.{eq_iff}
use simple_chat_protocol.Prelude.Tests.{◌==◌ as nat_eq, ==_iff}

pub record Equality {ℓ} (A : Type ℓ) : Type ℓ where
  pub beq : A → A → Bool
  pub beq_iff : (a b : A) → (beq a b ≡ true) ↔ (a ≡ b)

instance abbrev pub nat_equality : Equality ℕ
nat_equality = record { beq = nat_eq; beq_iff = ==_iff }

instance abbrev pub string_equality : Equality String
string_equality = record { beq = str_eq; beq_iff = eq_iff }
