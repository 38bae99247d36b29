-- ===== src/Server/Main.antt =====
-- src/server/main.cpp: the arguments of the program.
use text.Mathlib.Text.{◌==◌ as str_eq}
use simple_chat_protocol.Prelude.{
  ℕ, zero, suc, String, Option, none, some, List, [], ◌∷◌, if◌then◌else◌,
}
use simple_chat_protocol.Prelude.Number.{ℤ, pos, negsuc, read_number, atoi, to_uint16}
use simple_chat_protocol.Server.State.{Server}
use simple_chat_protocol.Server.Lifecycle.{new_server}

-- `idle_timeout <= 0` is refused.
abbrev pub idle_timeout_of : ℤ → ℕ
idle_timeout_of (pos zero) = 180
idle_timeout_of (pos (suc n)) = suc n
idle_timeout_of (negsuc n) = 180

module _ (beyond : String → ℤ) where
  -- The loop, with `idle_timeout` and the arguments from `argv[i]` on.
  unfoldable pub parse_options : ℕ → List String → ℕ
  unfolding read_number
  parse_options idle_timeout [] = idle_timeout
  parse_options idle_timeout (arg ∷ []) = idle_timeout
  parse_options idle_timeout (arg ∷ value ∷ rest) =
      let taken = parse_options (idle_timeout_of (atoi beyond value)) rest in
      let skipped = parse_options idle_timeout (value ∷ rest) in
      if str_eq arg "--idle-timeout" then taken else skipped

  -- The port and the new server, `none` for the exit with the usage.
  unfoldable pub main : List String → Option (ℕ × Server)
  unfolding parse_options new_server read_number
  main [] = none
  main (program ∷ []) = none
  main (program ∷ port ∷ options) =
      some (to_uint16 (atoi beyond port), new_server (parse_options 180 options))
