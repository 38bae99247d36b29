-- ===== src/Server/Options.antt =====
-- What src/server/main.cpp makes of its arguments.
use text.Mathlib.Text.{◌==◌ as str_eq}
use simple_chat_protocol.Prelude.{
  ℕ, zero, suc, ◌<◌, ◌^◌, String, true, false, ◌≡◌, sym, ap, none, some, List, [], ◌∷◌, arith,
  if_cases, All, to_string, ◌++◌, ◌∙◌,
}
use mathlib.Core.Path.{ap₂}
use simple_chat_protocol.Prelude.Decimal.{atoi-to_string}
use simple_chat_protocol.Prelude.Number.{
  ℤ, pos, negsuc, IsInt, fits_int, read_number, atoi, to_uint16,
}
use simple_chat_protocol.Server.State.{Server}
use simple_chat_protocol.Server.Lifecycle.{new_server}
use simple_chat_protocol.Server.Main.{idle_timeout_of, parse_options, main}

abbrev IsTimeout : ℕ → Type 0
IsTimeout t = (0 < t) × (t < 2 ^ 31)

to_uint16-lt : (z : ℤ) → to_uint16 z < 2 ^ 16
to_uint16-lt (pos n) = omega arith
to_uint16-lt (negsuc n) = omega arith

fits_int_lem : (z : ℤ) → fits_int z ≡ true → IsInt z
fits_int_lem (pos n) e = ground (arith, e)
fits_int_lem (negsuc n) e = ground (arith, e)

idle_timeout_of-IsTimeout : (z : ℤ) → IsInt z → IsTimeout (idle_timeout_of z)
idle_timeout_of-IsTimeout (pos zero) h = (omega arith, omega arith)
idle_timeout_of-IsTimeout (pos (suc n)) h = (omega arith, omega (arith, h))
idle_timeout_of-IsTimeout (negsuc n) h = (omega arith, omega arith)

module _ (beyond : String → ℤ) (int : (s : String) → IsInt (beyond s)) where
  atoi-IsInt : (s : String) → IsInt (atoi beyond s)
  atoi-IsInt s =
      if_cases IsInt (fits_int (read_number s)) _ _ (fits_int_lem (read_number s)) (λ _. int s)

  parse_options-IsTimeout :
      (options : List String) (t : ℕ) → IsTimeout t → IsTimeout (parse_options beyond t options)
  unfolding parse_options
  parse_options-IsTimeout [] t h = h
  parse_options-IsTimeout (arg ∷ []) t h = h
  parse_options-IsTimeout (arg ∷ value ∷ rest) t h =
      if_cases IsTimeout (str_eq arg "--idle-timeout") _ _
        (λ _.
          parse_options-IsTimeout rest _
            (idle_timeout_of-IsTimeout (atoi beyond value) (atoi-IsInt value)))
        (λ _. parse_options-IsTimeout (value ∷ rest) t h)

  -- Suppose that `atoi` gives an `int` also for a number out of range. Whatever the arguments, if
  -- the program starts a server, its port is below 2 ^ 16, its timeout is positive and below 2 ^
  -- 31, and it has no session and no listening socket.
  pub main-bounds :
      (argv : List String) (port : ℕ) (s : Server)
      → main beyond argv ≡ some (port, s)
      → (port < 2 ^ 16)
        × (0 < s.idle_timeout_sec)
        × (s.idle_timeout_sec < 2 ^ 31)
        × (s.sessions ≡ [])
        × (s.listen_fd ≡ none)
  unfolding main new_server
  main-bounds [] port s e = cc
  main-bounds (program ∷ []) port s e = cc
  main-bounds (program ∷ number ∷ options) port s e =
      let t = parse_options-IsTimeout options 180 (omega arith, omega arith) in
      let same : to_uint16 (atoi beyond number) ≡ port = cc in
      let made : new_server (parse_options beyond 180 options) ≡ s = cc in
      let small = to_uint16-lt (atoi beyond number) in
      (
        omega (arith, small, same),
        omega (arith, t.0, ap (λ (x : Server). x.idle_timeout_sec) made),
        omega (arith, t.1, ap (λ (x : Server). x.idle_timeout_sec) made),
        ap (λ (x : Server). x.sessions) (sym made),
        ap (λ (x : Server). x.listen_fd) (sym made),
      )

-- The given timeout, behind arguments that are none of the option.
parse_options-last :
    (beyond : String → ℤ) (others : List String) (timeout t : ℕ)
    → All (λ a. str_eq a "--idle-timeout" ≡ false) others
    → 0 < t
    → t < 2 ^ 31
    → parse_options beyond timeout (others ++ "--idle-timeout" ∷ to_string t ∷ []) ≡ t
unfolding parse_options
parse_options-last beyond [] timeout zero h low high = absurd (omega arith)
parse_options-last beyond [] timeout (suc t) h low high =
    ap idle_timeout_of (atoi-to_string beyond (suc t) high)
parse_options-last beyond (arg ∷ []) timeout t h low high =
    rw (h.0) (parse_options-last beyond [] timeout t tt low high)
parse_options-last beyond (arg ∷ value ∷ rest) timeout t h low high =
    rw (h.0) (parse_options-last beyond (value ∷ rest) timeout t h.1 low high)

-- Started with a port below 2 ^ 16 and, behind any arguments that are not the option itself, the
-- option with a timeout from 1 up to what an `int` holds, both printed in decimal, the server gets
-- exactly this port and this timeout.
main-to_string :
    (beyond : String → ℤ) (program : String) (others : List String) (port t : ℕ)
    → All (λ a. str_eq a "--idle-timeout" ≡ false) others
    → port < 2 ^ 16
    → 0 < t
    → t < 2 ^ 31
    → main beyond (program ∷ to_string port ∷ others ++ "--idle-timeout" ∷ to_string t ∷ [])
      ≡ some (port, new_server t)
unfolding main
main-to_string beyond program others port t h small low high =
    ap₂ (λ p i. some (p, new_server i))
      (ap to_uint16 (atoi-to_string beyond port (omega arith)) ∙ omega (arith, small))
      (parse_options-last beyond others 180 t h low high)
