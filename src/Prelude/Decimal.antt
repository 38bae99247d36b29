-- ===== src/Prelude/Decimal.antt =====
-- `std::atoi` reads what `std::to_string` writes.
use Prim.Native.Nat.{ℕ, zero, suc, ◌+◌, ◌-◌, ◌*◌, ◌/◌, ◌%◌, ◌^◌, ◌<◌}
use Prim.Native.Char.{Char, char, code, IsScalar}
use Prim.Native.String.{String, [], ◌∷◌, ◌++◌}
use mathlib.Core.Path.{◌≡◌, refl, sym, ap, ◌∙◌, subst}
use mathlib.Core.Bool.{true, false}
use text.Mathlib.TextLemmas.{append-nil, append_assoc, cons-append, nil-append}
use native.Mathlib.Omega.{arith}
use simple_chat_protocol.Prelude.Tests.{ltb, ◌==◌, if_cases}
use simple_chat_protocol.Prelude.Text.{digit, digits_of, to_string}
use simple_chat_protocol.Prelude.Number.{ℤ, pos, is_digit, is_space, read_digits, read_number, atoi}

-- One character that reads as the digit d.
record Digit (d : ℕ) (s : String) : Type 0 where
  sign : Char
  shape : s ≡ sign ∷ []
  digit_char : is_digit (code sign) ≡ true
  value : code sign - 48 ≡ d

numeral : (n d : ℕ) (p : IsScalar n) → is_digit n ≡ true → n - 48 ≡ d → Digit d (char n p ∷ [])
numeral n d p e v = record { sign = char n p; shape = refl; digit_char = e; value = v }

digit-Digit : (d : ℕ) → d < 10 → Digit d (digit d)
unfolding digit
digit-Digit zero h = numeral 48 0 tt refl refl
digit-Digit (suc zero) h = numeral 49 1 tt refl refl
digit-Digit (suc (suc zero)) h = numeral 50 2 tt refl refl
digit-Digit (suc (suc (suc zero))) h = numeral 51 3 tt refl refl
digit-Digit (suc (suc (suc (suc zero)))) h = numeral 52 4 tt refl refl
digit-Digit (suc (suc (suc (suc (suc zero))))) h = numeral 53 5 tt refl refl
digit-Digit (suc (suc (suc (suc (suc (suc zero)))))) h = numeral 54 6 tt refl refl
digit-Digit (suc (suc (suc (suc (suc (suc (suc zero))))))) h = numeral 55 7 tt refl refl
digit-Digit (suc (suc (suc (suc (suc (suc (suc (suc zero)))))))) h = numeral 56 8 tt refl refl
digit-Digit (suc (suc (suc (suc (suc (suc (suc (suc (suc zero))))))))) h = numeral 57 9 tt refl refl
digit-Digit (suc (suc (suc (suc (suc (suc (suc (suc (suc (suc d)))))))))) h =
    absurd (omega (arith, h))

Digit-append : (d : ℕ) (t s : String) (is : Digit d t) → t ++ s ≡ is.sign ∷ s
Digit-append d t s is =
    ap (λ u. u ++ s) is.shape ∙ cons-append is.sign [] s ∙ ap (◌∷◌ is.sign) (nil-append s)

read_digits-cons :
    (acc d : ℕ) (c : Char) (s : String)
    → is_digit (code c) ≡ true
    → code c - 48 ≡ d
    → read_digits acc (c ∷ s) ≡ read_digits (acc * 10 + d) s
unfolding read_digits
read_digits-cons acc d c s e v = rw (e, v) refl

read_digits-digit :
    (acc d : ℕ) (s : String)
    → d < 10
    → read_digits acc (digit d ++ s) ≡ read_digits (acc * 10 + d) s
read_digits-digit acc d s h =
    let is = digit-Digit d h in
    ap (read_digits acc) (Digit-append d (digit d) s is)
    ∙ read_digits-cons acc d is.sign s is.digit_char is.value

-- What is below it has at most n + 1 digits.
abbrev tens : ℕ → ℕ
tens zero = 10
tens (suc n) = 10 * tens n

read_digits-digits_of :
    (fuel n : ℕ) (s : String)
    → n < tens fuel
    → read_digits 0 (digits_of fuel n ++ s) ≡ read_digits n s
unfolding digits_of
read_digits-digits_of zero n s h =
    read_digits-digit 0 n s h ∙ ap (λ k. read_digits k s) (omega arith)
read_digits-digits_of (suc fuel) n s h =
    if_cases (λ t. read_digits 0 (t ++ s) ≡ read_digits n s) (ltb n 10) _ _
      (λ small.
        read_digits-digit 0 n s (ground (arith, small)) ∙ ap (λ k. read_digits k s) (omega arith))
      (λ _.
        ap (read_digits 0) (append_assoc (digits_of fuel (n / 10)) (digit (n % 10)) s)
        ∙ read_digits-digits_of fuel (n / 10) (digit (n % 10) ++ s) (omega (arith, h))
        ∙ read_digits-digit (n / 10) (n % 10) s (omega arith)
        ∙ ap (λ k. read_digits k s) (omega arith))

-- A text that begins with a digit.
record Starts (s : String) : Type 0 where
  sign : Char
  rest : String
  shape : s ≡ sign ∷ rest
  digit_char : is_digit (code sign) ≡ true

Digit-Starts : (d : ℕ) (t s : String) → Digit d t → Starts (t ++ s)
Digit-Starts d t s is = record {
  sign = is.sign;
  rest = s;
  shape = Digit-append d t s is;
  digit_char = is.digit_char;
}

digits_of-Starts : (fuel n : ℕ) (s : String) → n < tens fuel → Starts (digits_of fuel n ++ s)
unfolding digits_of
digits_of-Starts zero n s h = Digit-Starts n (digit n) s (digit-Digit n h)
digits_of-Starts (suc fuel) n s h =
    if_cases (λ t. Starts (t ++ s)) (ltb n 10) _ _
      (λ small. Digit-Starts n (digit n) s (digit-Digit n (ground (arith, small))))
      (λ _.
        subst Starts (sym (append_assoc (digits_of fuel (n / 10)) (digit (n % 10)) s))
          (digits_of-Starts fuel (n / 10) (digit (n % 10) ++ s) (omega (arith, h))))

read_number-cons :
    (c : Char) (s : String)
    → is_digit (code c) ≡ true
    → read_number (c ∷ s) ≡ pos (read_digits 0 (c ∷ s))
unfolding read_number
read_number-cons c s e =
    let front : is_space (code c) ≡ false = ground (arith, e) in
    let plain : (code c == 45) ≡ false = ground (arith, e) in
    let plain' : (code c == 43) ≡ false = ground (arith, e) in rw (front, plain, plain') refl

read_number-Starts : (s : String) → Starts s → read_number s ≡ pos (read_digits 0 s)
read_number-Starts s h =
    ap read_number h.shape
    ∙ read_number-cons h.sign h.rest h.digit_char
    ∙ ap (λ t. pos (read_digits 0 t)) (sym h.shape)

read_digits-nil : (n : ℕ) → read_digits n [] ≡ n
unfolding read_digits
read_digits-nil n = refl

-- A number that an `int` holds is read back as it was printed.
pub atoi-to_string : (beyond : String → ℤ) (n : ℕ) → n < 2 ^ 31 → atoi beyond (to_string n) ≡ pos n
unfolding to_string
atoi-to_string beyond n h =
    let low : n < tens 20 = omega (arith, h) in
    let printed : to_string n ++ [] ≡ to_string n = append-nil (to_string n) in
    let value : read_digits 0 (to_string n) ≡ n =
      ap (read_digits 0) (sym printed) ∙ read_digits-digits_of 20 n [] low ∙ read_digits-nil n in
    let number : read_number (to_string n) ≡ pos n =
      read_number-Starts (to_string n) (subst Starts printed (digits_of-Starts 20 n [] low))
      ∙ ap pos value in
    let fits : ltb n (2 ^ 31) ≡ true = ground (arith, h) in rw (number, fits, atoi) refl
