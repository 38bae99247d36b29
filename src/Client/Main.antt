-- ===== src/Client/Main.antt =====
-- src/client/main.cpp, and `get_local_ip` of include/chat/protocol.h: how the client connects and
-- registers before its window opens.
use simple_chat_protocol.Prelude.{
  ℕ, String, Bool, Option, none, some, List, [], ◌∷◌, ◌<>◌, ◌==◌, to_string, if◌then◌else◌,
}
use simple_chat_protocol.Prelude.Number.{ℤ, atoi, to_uint16}
use simple_chat_protocol.Protocol.MsgType
use simple_chat_protocol.Wire.Socket.{Socket}
use simple_chat_protocol.Wire.Frame.{Format, send_message, recv_message}
use simple_chat_protocol.Messages.{Register, ServerResponse}
use simple_chat_protocol.Client.Qt.{Qt}
use simple_chat_protocol.Client.Window.State.{Window, new_window}

-- Calls of the operating system. `socket` has the descriptor with the stream; the Boolean of
-- `connect` is false for a result below 0, and that of `inet_pton` for one that is not positive.
-- `getsockname` goes with `inet_ntop`, and is `none` where one of them fails. `strerror` is the
-- text of the error of `connect`.
pub record Os (k : Socket) : Type 0 where
  pub socket : Option (ℕ × k.S)
  pub inet_pton : String → Bool
  pub connect : String → ℕ → k.S → Bool × k.S
  pub getsockname : k.S → Option String
  pub strerror : String
  pub beyond : String → ℤ

-- The program ends with the usage; or it shows a dialog with this text, and when the user has
-- dismissed it closes these descriptors and ends; or its window opens.
pub data Outcome (q : Qt) (k : Socket) : Type 0 where
  usage : Outcome q k
  failed : String → List ℕ → Outcome q k
  opened : Window q → k.S → Outcome q k

module _ {k : Socket} (os : Os k) where
  unfoldable pub get_local_ip : k.S → String
  get_local_ip s = elim (os.getsockname s) [ none ↦ "0.0.0.0" | some ip ↦ ip ]

module _ (q : Qt) (k : Socket) (os : Os k) (register : Format Register)
    (response : Format ServerResponse) where
  open k use {S}

  -- The text of the dialog for a registration that the server refuses.
  abbrev pub refusal : ServerResponse → String
  refusal resp = "[Código " <> q.number resp.status_code <> "] " <> resp.message

  -- What follows a SERVER_RESPONSE.
  abbrev pub check_response : ℕ → Option ServerResponse → Outcome q k → Outcome q k
  check_response sockfd none window = window
  check_response sockfd (some resp) window =
      if resp.is_successful then window else failed (refusal resp) (sockfd ∷ [])

  unfoldable pub await_response : ℕ → String → String → S → Outcome q k
  unfolding recv_message new_window
  await_response sockfd username local_ip s = elim (recv_message k s) [
    | none ↦ failed "No se recibió respuesta del servidor." (sockfd ∷ [])
    | some ((resp_type, resp_payload), s') ↦
        if resp_type == MsgType.server_response
        then check_response sockfd (response.parse_from_string resp_payload)
            (opened (new_window q username sockfd local_ip) s')
        else failed "Respuesta inesperada del servidor." (sockfd ∷ [])
  ]

  unfoldable pub register_user : ℕ → String → String → S → Outcome q k
  unfolding send_message await_response
  register_user sockfd username local_ip s =
      let sent =
        send_message k register s MsgType.register
          (record { username = username; ip = local_ip }) in
      if sent.0
      then await_response sockfd username local_ip sent.1
      else failed "Error enviando registro al servidor." (sockfd ∷ [])

  unfoldable pub connect_user : ℕ → String → String → ℕ → S → Outcome q k
  unfolding get_local_ip register_user
  connect_user sockfd username server_ip server_port s =
      let connected = os.connect server_ip server_port s in
      if os.inet_pton server_ip
      then (if connected.0
          then register_user sockfd username (get_local_ip os connected.1) connected.1
          else failed
              ("No se pudo conectar a "
                <> server_ip
                <> ":"
                <> to_string server_port
                <> "\n"
                <> os.strerror)
              (sockfd ∷ []))
      else failed ("Dirección IP inválida: " <> server_ip) (sockfd ∷ [])

  -- The arguments, the program's name first.
  unfoldable pub main : List String → Outcome q k
  unfolding connect_user
  main (program ∷ username ∷ server_ip ∷ port ∷ rest) = elim os.socket [
    | none ↦ failed "No se pudo crear el socket." []
    | some (sockfd, s) ↦ connect_user sockfd username server_ip (to_uint16 (atoi os.beyond port)) s
  ]
  main few = usage
