-- ===== src/Prelude/Text.antt =====
-- Texts: `std::string` holds UTF-8, which is a native `String` here.
use Prim.Native.Nat.{ℕ, zero, suc, ◌/◌, ◌%◌}
use Prim.Native.String.{String, ◌++◌}
use mathlib.Core.Bool.{Bool}
use text.Mathlib.Text.{◌==◌ as str_eq}
use simple_chat_protocol.Prelude.Tests.{ltb, ◌==◌, if◌then◌else◌}

-- a + b on std::string
infixr 65 ◌<>◌
abbrev pub ◌<>◌ : String → String → String
s <> t = s ++ t

-- s.empty()
abbrev pub is_empty : String → Bool
is_empty s = str_eq s ""

unfoldable pub digit : ℕ → String
digit d =
    if d == 0
    then "0"
    else if d == 1
    then "1"
    else if d == 2
    then "2"
    else if d == 3
    then "3"
    else if d == 4
    then "4"
    else if d == 5
    then "5"
    else if d == 6
    then "6"
    else if d == 7
    then "7"
    else if d == 8
    then "8"
    else "9"

unfoldable pub digits_of : ℕ → ℕ → String
digits_of zero n = digit n
digits_of (suc fuel) n =
    let front = digits_of fuel (n / 10) in if ltb n 10 then digit n else front <> digit (n % 10)

-- std::to_string; a number below 10 ^ 20 has at most 20 digits.
unfoldable pub to_string : ℕ → String
unfolding digits_of digit
to_string n = digits_of 20 n
