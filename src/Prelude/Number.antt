-- ===== src/Prelude/Number.antt =====
-- `int`, `std::atoi` and the conversion to `uint16_t`.
use Prim.Native.Nat.{ℕ, zero, suc, ◌+◌, ◌-◌, ◌*◌, ◌%◌, ◌^◌, ◌<◌}
use Prim.Native.Char.{code}
use Prim.Native.String.{String, [], ◌∷◌}
use mathlib.Core.Bool.{Bool, ◌&&◌, ◌||◌}
use simple_chat_protocol.Prelude.Tests.{ltb, leb, ◌==◌, if◌then◌else◌}

-- `negsuc n` is - n - 1.
pub data ℤ : Type 0 where
  pos : ℕ → ℤ
  negsuc : ℕ → ℤ

abbrev pub IsInt : ℤ → Type 0
IsInt (pos n) = n < 2 ^ 31
IsInt (negsuc n) = n < 2 ^ 31

abbrev pub fits_int : ℤ → Bool
fits_int (pos n) = ltb n (2 ^ 31)
fits_int (negsuc n) = ltb n (2 ^ 31)

abbrev pub negate : ℕ → ℤ
negate zero = pos 0
negate (suc n) = negsuc n

abbrev pub is_digit : ℕ → Bool
is_digit c = leb 48 c && ltb c 58

abbrev pub is_space : ℕ → Bool
is_space c = c == 32 || leb 9 c && ltb c 14

-- The digits in front of a text, behind those that make the number so far.
unfoldable pub read_digits : ℕ → String → ℕ
read_digits acc [] = acc
read_digits acc (c ∷ s) =
    let rest = read_digits (acc * 10 + (code c - 48)) s in if is_digit (code c) then rest else acc

abbrev pub read_sign : String → ℤ
read_sign [] = pos 0
read_sign (c ∷ s) =
    if code c == 45
    then negate (read_digits 0 s)
    else if code c == 43
    then pos (read_digits 0 s)
    else pos (read_digits 0 (c ∷ s))

unfoldable pub read_number : String → ℤ
unfolding read_digits
read_number [] = pos 0
read_number (c ∷ s) =
    let rest = read_number s in if is_space (code c) then rest else read_sign (c ∷ s)

-- std::atoi(s). C leaves open what it gives for a number that an `int` does not hold; `beyond` is
-- that.
abbrev pub atoi : (String → ℤ) → String → ℤ
atoi beyond s = if fits_int (read_number s) then read_number s else beyond s

-- static_cast<uint16_t>
abbrev pub to_uint16 : ℤ → ℕ
to_uint16 (pos n) = n % 2 ^ 16
to_uint16 (negsuc n) = 2 ^ 16 - 1 - n % 2 ^ 16
