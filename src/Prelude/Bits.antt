-- ===== src/Prelude/Bits.antt =====
-- `|` of a shifted word and a word below the shift, and `& 0xFF`, as arithmetic.
use Prim.Native.Nat.{
  ℕ, zero, suc, ◌+◌, ◌*◌, ◌/◌, ◌%◌, ◌^◌, ◌≤◌, ◌<◌, bit_or, bit_and, min, max, digits, bitwise,
  bit_or-bitwise, bit_and-bitwise, ◌-◌,
}
use mathlib.Core.Path.{◌≡◌, refl, sym, ap, ◌∙◌}
use native.Mathlib.Nat.{pow-suc, one-le-pow}
use native.Mathlib.Omega.{arith}

-- An operation `f` on the digits of two words, where `z` gives the result for an empty first word.
module _ (z : ℕ → ℕ) (f : ℕ → ℕ → ℕ) where
  digits-zero : (count b : ℕ) → digits z f count 0 b ≡ z b
  digits-zero zero b = refl
  digits-zero (suc count) b = refl

  -- More digits to go than the first word has change nothing.
  digits_enough :
      (few many a b : ℕ) → a ≤ few → few ≤ many → digits z f few a b ≡ digits z f many a b
  digits_enough few many zero b h k = digits-zero few b ∙ sym (digits-zero many b)
  digits_enough (suc few) (suc many) (suc a) b h k =
      ap (λ (high : ℕ). high * 2 + f (suc a % 2) (b % 2))
        (digits_enough few many (suc a / 2) (b / 2) (omega arith) (omega arith))
  digits_enough zero many (suc a) b h k = absurd (omega arith)
  digits_enough (suc few) zero (suc a) b h k = absurd (omega arith)

  bitwise_halves :
      ((b : ℕ) → z b ≡ z (b / 2) * 2 + f 0 (b % 2))
      → (a b : ℕ) → bitwise z f a b ≡ bitwise z f (a / 2) (b / 2) * 2 + f (a % 2) (b % 2)
  bitwise_halves empty zero b = empty b
  bitwise_halves empty (suc a) b =
      ap (λ (high : ℕ). high * 2 + f (suc a % 2) (b % 2))
        (sym (digits_enough (suc a / 2) a (suc a / 2) (b / 2) (omega arith) (omega arith)))

bit_or_halves : (a b : ℕ) → bit_or a b ≡ bit_or (a / 2) (b / 2) * 2 + max (a % 2) (b % 2)
bit_or_halves a b =
    bit_or-bitwise a b
    ∙ bitwise_halves (λ y. y) max (λ y. omega arith) a b
    ∙ ap (λ (high : ℕ). high * 2 + max (a % 2) (b % 2)) (sym (bit_or-bitwise (a / 2) (b / 2)))

bit_and_halves : (a b : ℕ) → bit_and a b ≡ bit_and (a / 2) (b / 2) * 2 + min (a % 2) (b % 2)
bit_and_halves a b =
    bit_and-bitwise a b
    ∙ bitwise_halves (λ y. 0) min (λ y. omega arith) a b
    ∙ ap (λ (high : ℕ). high * 2 + min (a % 2) (b % 2)) (sym (bit_and-bitwise (a / 2) (b / 2)))

-- With an empty second word, for a first word below a bound.
both_empty : (bound a : ℕ) → a < bound → (bit_or a 0 ≡ a) × (bit_and a 0 ≡ 0)
both_empty zero a h = absurd (omega arith)
both_empty (suc bound) zero h = (refl, refl)
both_empty (suc bound) (suc a) h =
    let (left, right) = both_empty bound (suc a / 2) (omega arith) in
    (omega (arith, bit_or_halves (suc a) 0, left), omega (arith, bit_and_halves (suc a) 0, right))

pub bit_or_shifted : (k q r : ℕ) → r < 2 ^ k → bit_or (q * 2 ^ k) r ≡ q * 2 ^ k + r
bit_or_shifted zero q r h = ground (arith, (both_empty (suc q) q (omega arith)).0)
bit_or_shifted (suc k) q r h = ground (
  arith,
  bit_or_halves (q * 2 ^ suc k) r,
  ap (λ (t : ℕ). q * t) (pow-suc 2 k),
  pow-suc 2 k,
  bit_or_shifted k q (r / 2) (omega (arith, pow-suc 2 k)),
)

-- A mask of k ones takes the remainder by 2 ^ k.
bit_and_ones : (k a r : ℕ) → r < 2 ^ k → bit_and (a * 2 ^ k + r) (2 ^ k - 1) ≡ r
bit_and_ones zero a r h =
    omega (arith, (both_empty (suc (a * 2 ^ 0 + r)) (a * 2 ^ 0 + r) (omega arith)).1)
bit_and_ones (suc k) a r h = ground (
  arith,
  bit_and_halves (a * 2 ^ suc k + r) (2 ^ suc k - 1),
  ap (λ (t : ℕ). a * t) (pow-suc 2 k),
  pow-suc 2 k,
  one-le-pow k 2,
  bit_and_ones k a (r / 2) (omega (arith, pow-suc 2 k)),
)

pub bit_and_byte : (a : ℕ) → bit_and a 0xFF ≡ a % 256
bit_and_byte a = ground (arith, bit_and_ones 8 (a / 256) (a % 256))
