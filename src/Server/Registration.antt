-- ===== src/Server/Registration.antt =====
-- When `handle_register` of src/server/server.cpp accepts a user, and how it refuses.
use simple_chat_protocol.Prelude.{
  ℕ, String, Bool, true, false, ◌≡◌, ◌≢◌, sym, subst, inl, inr, none, some, List, [], ◌∷◌, ◌++◌,
  arith, ◌<>◌, is_empty, Option-cases, nat_equality, string_equality,
}
use mathlib.Core.Path.{subst₂}
use simple_chat_protocol.Prelude.Eq.{Equality}
use simple_chat_protocol.Prelude.Map.{Map, find, insert, erase, Distinct, find-erase}
use simple_chat_protocol.Protocol.MsgType
use simple_chat_protocol.Protocol.StatusCode
use simple_chat_protocol.Messages.{World, Register}
use simple_chat_protocol.Server.State.{SessionInfo, Sent, Server}
use simple_chat_protocol.Server.Sending.{response}
use simple_chat_protocol.Server.Session.{get_peer_ip, new_session, remove_session}
use simple_chat_protocol.Server.Handlers.{register_user, handle_register}
use simple_chat_protocol.Server.Client.{cleanup}
use simple_chat_protocol.Server.Registry.{IsConsistent}

-- A ServerResponse to the connection `fd`.
abbrev pub answer : ℕ → ℕ → String → Bool → Sent
answer fd code text success = record {
  fd = fd;
  msg_type = MsgType.server_response;
  proto = response code text success;
}

module _ (s : Server) (h : IsConsistent s) where
  -- A name that no session has is in no index.
  pub free_name :
      (username : String)
      → ((j : ℕ) (i : SessionInfo) → find j s.sessions ≡ some i → i.username ≢ username)
      → find username s.username_to_fd ≡ none
  free_name username free = elim (Option-cases (find username s.username_to_fd)) [
    | inl e ↦ e
    | inr (j, e) ↦ let (i, here, is) = h.name_owner username j e in absurd (free j i here is)
  ]

  free_ip :
      (ip : String)
      → ((j : ℕ) (i : SessionInfo) → find j s.sessions ≡ some i → i.ip ≢ ip)
      → find ip s.ip_to_fd ≡ none
  free_ip ip free = elim (Option-cases (find ip s.ip_to_fd)) [
    | inl e ↦ e
    | inr (j, e) ↦ let (i, here, is) = h.ip_owner ip j e in absurd (free j i here is)
  ]

-- The message of a new user, with every guard of the handler open.
abbrev pub Welcomes : ℕ → ℕ → String → String → Server → Server → Type 0
Welcomes now fd username ip s s' = s' ≡ record s {
  sessions = insert fd (new_session username ip fd now) s.sessions;
  username_to_fd = insert username fd s.username_to_fd;
  ip_to_fd = insert ip fd s.ip_to_fd;
  sent =
      s.sent
      ++ answer fd StatusCode.ok_register ("Registration successful. Welcome, " <> username <> "!")
          true
        ∷ [];
}

register_user-Welcomes :
    (now fd : ℕ) (username ip : String) (s : Server)
    → is_empty username ≡ false
    → find fd s.sessions ≡ none
    → find username s.username_to_fd ≡ none
    → find ip s.ip_to_fd ≡ none
    → Welcomes now fd username ip s (register_user now fd username ip s)
unfolding register_user
register_user-Welcomes now fd username ip s named new_fd new_name new_ip =
    rw (named, new_fd, new_name, new_ip)

-- In a consistent registry, a Register message that parses, of a named user on a connection with
-- no session, whose name and address no session has, is
-- registered: the three maps get the new session, and the answer is 200.
pub handle_register-Welcomes :
    (w : World) (now fd : ℕ) (payload : List ℕ) (reg : Register) (s : Server)
    → IsConsistent s
    → w.register.parse_from_string payload ≡ some reg
    → is_empty reg.username ≡ false
    → find fd s.sessions ≡ none
    → ((j : ℕ) (i : SessionInfo) → find j s.sessions ≡ some i → i.username ≢ reg.username)
    → ((j : ℕ) (i : SessionInfo) → find j s.sessions ≡ some i → i.ip ≢ get_peer_ip w fd)
    → Welcomes now fd reg.username (get_peer_ip w fd) s (handle_register w now fd payload s)
unfolding handle_register
handle_register-Welcomes w now fd payload reg s h parse named new_fd names ips =
    rw (parse, handle_register)
      (register_user-Welcomes now fd reg.username (get_peer_ip w fd) s named new_fd
        (free_name s h reg.username names) (free_ip s h (get_peer_ip w fd) ips))

-- Why a user of this name and address is refused on the connection `fd`, and the code that says so.
pub data Refusal (s : Server) (fd : ℕ) (username ip : String) (code : ℕ) : Type 0 where
  unnamed : is_empty username ≡ true → code ≡ StatusCode.bad_request → Refusal s fd username ip code
  registered :
      is_empty username ≡ false
      → (i : SessionInfo) → find fd s.sessions ≡ some i
      → code ≡ StatusCode.bad_request
      → Refusal s fd username ip code
  name_taken :
      is_empty username ≡ false
      → find fd s.sessions ≡ none
      → (j : ℕ) (i : SessionInfo) → find j s.sessions ≡ some i
      → i.username ≡ username
      → code ≡ StatusCode.username_taken
      → Refusal s fd username ip code
  address_taken :
      is_empty username ≡ false
      → find fd s.sessions ≡ none
      → ((j : ℕ) (i : SessionInfo) → find j s.sessions ≡ some i → i.username ≢ username)
      → (j : ℕ) (i : SessionInfo) → find j s.sessions ≡ some i
      → i.ip ≡ ip
      → code ≡ StatusCode.ip_taken
      → Refusal s fd username ip code

-- One negative answer, and nothing else.
abbrev pub Refuses : ℕ → ℕ → Server → Server → Type 0
Refuses fd code s s' =
    (text : String) × (s' ≡ record s { sent = s.sent ++ answer fd code text false ∷ [] })

register_user-Refuses :
    (now fd code : ℕ) (username ip : String) (s : Server)
    → IsConsistent s
    → Refusal s fd username ip code
    → Refuses fd code s (register_user now fd username ip s)
unfolding register_user
register_user-Refuses now fd code username ip s h (unnamed e c) =
    ("Username cannot be empty", rw (e, c))
register_user-Refuses now fd code username ip s h (registered named i e c) =
    ("Already registered", rw (named, e, c, (h.indexed fd i e).socket))
register_user-Refuses now fd code username ip s h (name_taken named e j i here is c) =
    let taken : find username s.username_to_fd ≡ some j =
      subst (λ u. find u s.username_to_fd ≡ some j) is (h.indexed j i here).name in
    ("Username '" <> username <> "' is already taken", rw (named, e, taken, c))
register_user-Refuses now fd code username ip s h (address_taken named e free j i here is c) =
    let taken : find ip s.ip_to_fd ≡ some j =
      subst (λ a. find a s.ip_to_fd ≡ some j) is (h.indexed j i here).address in
    ("IP " <> ip <> " is already registered", rw (named, e, free_name s h username free, taken, c))

-- In a consistent registry, a user whose Register message parses without a name, on a connection
-- that has a session, or with the name or the address of a
-- session, gets one negative answer with the code for the first of these reasons that holds, and no
-- map changes.
pub handle_register-Refuses :
    (w : World) (now fd code : ℕ) (payload : List ℕ) (reg : Register) (s : Server)
    → IsConsistent s
    → w.register.parse_from_string payload ≡ some reg
    → Refusal s fd reg.username (get_peer_ip w fd) code
    → Refuses fd code s (handle_register w now fd payload s)
unfolding handle_register
handle_register-Refuses w now fd code payload reg s h parse why =
    rw (parse, handle_register)
      (register_user-Refuses now fd code reg.username (get_peer_ip w fd) s h why)

pub find-erase_self {ℓ} :
    {K V : Type ℓ} ⦃e : Equality K⦄ (k : K) (m : Map K V) → Distinct m → find k (erase k m) ≡ none
find-erase_self ⦃e⦄ k m d = ground (arith, find-erase k k m d, e.beq_iff k k)

module _ (s : Server) (fd : ℕ) (i : SessionInfo) (here : find fd s.sessions ≡ some i) where
  names-cleanup : (cleanup fd s).username_to_fd ≡ erase i.username s.username_to_fd
  unfolding cleanup
  names-cleanup = rw (here, remove_session)

  ips-cleanup : (cleanup fd s).ip_to_fd ≡ erase i.ip s.ip_to_fd
  unfolding cleanup
  ips-cleanup = rw (here, remove_session)

-- From a consistent registry, when the connection of a session has been cleaned up, its user can
-- register on any connection
-- without a session, from the same address: the name and the address are free again.
pub register-cleanup :
    (w : World) (now old fd : ℕ) (payload : List ℕ) (reg : Register) (i : SessionInfo) (s : Server)
    → IsConsistent s
    → find old s.sessions ≡ some i
    → w.register.parse_from_string payload ≡ some reg
    → reg.username ≡ i.username
    → get_peer_ip w fd ≡ i.ip
    → find fd (cleanup old s).sessions ≡ none
    → Welcomes now fd i.username i.ip
        (cleanup old s)
        (handle_register w now fd payload (cleanup old s))
unfolding handle_register
register-cleanup w now old fd payload reg i s h here parse name ip new_fd =
    rw (parse, handle_register)
      (subst₂
        (λ u a.
          Welcomes now fd i.username i.ip (cleanup old s)
            (register_user now fd u a (cleanup old s)))
        (sym name) (sym ip)
        (register_user-Welcomes now fd i.username i.ip (cleanup old s) (h.indexed old i here).named
          new_fd
          (rw (names-cleanup s old i here)
            (find-erase_self i.username s.username_to_fd h.distinct_names))
          (rw (ips-cleanup s old i here) (find-erase_self i.ip s.ip_to_fd h.distinct_ips))))
