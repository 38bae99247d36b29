-- ===== src/Server/Registry.antt =====
-- When the maps `sessions_`, `username_to_fd_` and `ip_to_fd_` of src/server/server.cpp agree.
pub mod Insertion
pub mod Removal
use simple_chat_protocol.Prelude.{
  ℕ, ◌≤◌, String, Bool, true, false, ◌≡◌, refl, sym, ap, ◌∙◌, subst, ◌≢◌, ◌⊎◌, inl, inr, Option,
  none, some, List, [], ◌∷◌, arith, ◌==◌, ==_iff, eq_iff, is_empty, if◌then◌else◌, nat_equality,
  string_equality, Bool-cases, Option-cases,
}
use simple_chat_protocol.Prelude.Map.{
  Map, find, insert, erase, modify, Distinct, map_option, map_option-eq-some, find-insert,
  find-modify, find-erase, insert-Distinct, modify-Distinct, erase-Distinct,
}
use simple_chat_protocol.Protocol.Status.{StatusEnum, active, invisible}
use simple_chat_protocol.Server.State.{SessionInfo, Server}

-- A status that the server can have given: the last manual one, or INVISIBLE by the watchdog.
pub record IsSettled (i : SessionInfo) : Type 0 where
  pub manual : i.manual_status ≤ invisible
  pub current : (i.status ≡ i.manual_status) ⊎ (i.status ≡ invisible)

-- A session stands under its own socket, and both indexes lead to it. It is alive while the server
-- runs (`live`).
pub record IsIndexed (live : Bool) (names ips : Map String ℕ) (fd : ℕ) (i : SessionInfo)
    : Type 0 where
  pub socket : i.socket_fd ≡ fd
  pub name : find i.username names ≡ some fd
  pub address : find i.ip ips ≡ some fd
  pub named : is_empty i.username ≡ false
  pub alive : live ≡ true → i.alive ≡ true
  pub settled : IsSettled i

pub record Registry (live : Bool) (m : Map ℕ SessionInfo) (names ips : Map String ℕ) : Type 0 where
  pub distinct_sessions : Distinct m
  pub distinct_names : Distinct names
  pub distinct_ips : Distinct ips
  pub indexed : (fd : ℕ) (i : SessionInfo) → find fd m ≡ some i → IsIndexed live names ips fd i
  pub name_owner :
      (u : String) (fd : ℕ)
      → find u names ≡ some fd
      → (i : SessionInfo) × (find fd m ≡ some i) × (i.username ≡ u)
  pub ip_owner :
      (a : String) (fd : ℕ)
      → find a ips ≡ some fd
      → (i : SessionInfo) × (find fd m ≡ some i) × (i.ip ≡ a)

abbrev pub IsConsistent : Server → Type 0
IsConsistent s = Registry s.running s.sessions s.username_to_fd s.ip_to_fd

-- A write to a session that leaves its identity alone.
pub record Keeps (f : SessionInfo → SessionInfo) : Type 0 where
  pub username : (i : SessionInfo) → (f i).username ≡ i.username
  pub ip : (i : SessionInfo) → (f i).ip ≡ i.ip
  pub socket_fd : (i : SessionInfo) → (f i).socket_fd ≡ i.socket_fd
  pub alive : (i : SessionInfo) → (f i).alive ≡ i.alive
  pub settled : (i : SessionInfo) → IsSettled i → IsSettled (f i)

module _ {live : Bool} {names ips : Map String ℕ} (f : SessionInfo → SessionInfo)
    (k : Keeps f) where
  IsIndexed-keeps :
      (fd : ℕ) (i : SessionInfo) → IsIndexed live names ips fd i → IsIndexed live names ips fd (f i)
  IsIndexed-keeps fd i x = record {
    socket = k.socket_fd i ∙ x.socket;
    name = rw (k.username i) x.name;
    address = rw (k.ip i) x.address;
    named = rw (k.username i) x.named;
    alive = λ e. k.alive i ∙ x.alive e;
    settled = k.settled i x.settled;
  }

-- Each session of `m'` is that of `m` after a write that keeps its identity.
module _ {live : Bool} {names ips : Map String ℕ} (m m' : Map ℕ SessionInfo)
    (g : ℕ → SessionInfo → SessionInfo) (k : (fd : ℕ) → Keeps (g fd))
    (same : (fd : ℕ) → find fd m' ≡ map_option (g fd) (find fd m)) where
  pub Registry-refresh : Distinct m' → Registry live m names ips → Registry live m' names ips
  Registry-refresh d r = record {
    distinct_sessions = d;
    distinct_names = r.distinct_names;
    distinct_ips = r.distinct_ips;
    indexed = λ fd i e.
        let (old, here, is) = map_option-eq-some (g fd) (find fd m) i (sym (same fd) ∙ e) in
        subst (IsIndexed live names ips fd) is
          (IsIndexed-keeps (g fd) (k fd) fd old (r.indexed fd old here));
    name_owner = λ u fd e.
        let (i, here, is) = r.name_owner u fd e in
        (g fd i, same fd ∙ ap (map_option (g fd)) here, (k fd).username i ∙ is);
    ip_owner = λ a fd e.
        let (i, here, is) = r.ip_owner a fd e in
        (g fd i, same fd ∙ ap (map_option (g fd)) here, (k fd).ip i ∙ is);
  }

Keeps-id : Keeps (λ i. i)
Keeps-id = record {
  username = λ i. refl;
  ip = λ i. refl;
  socket_fd = λ i. refl;
  alive = λ i. refl;
  settled = λ i h. h;
}

abbrev choose : Bool → (SessionInfo → SessionInfo) → SessionInfo → SessionInfo
choose true f i = f i
choose false f i = i

Keeps-choose : (b : Bool) (f : SessionInfo → SessionInfo) → Keeps f → Keeps (choose b f)
Keeps-choose true f k = k
Keeps-choose false f k = Keeps-id

abbrev only_at : ℕ → (SessionInfo → SessionInfo) → ℕ → SessionInfo → SessionInfo
only_at fd f j = choose (fd == j) f

find-modify-only_at :
    (fd : ℕ) (f : SessionInfo → SessionInfo) (m : Map ℕ SessionInfo) (j : ℕ)
    → find j (modify fd f m) ≡ map_option (only_at fd f j) (find j m)
find-modify-only_at fd f m j = ground (arith, find-modify fd j f m)

-- A write through the pointer to one session keeps the registry.
pub Registry-modify :
    {live : Bool} {names ips : Map String ℕ} (fd : ℕ) (f : SessionInfo → SessionInfo)
    (m : Map ℕ SessionInfo)
    → Keeps f
    → Registry live m names ips
    → Registry live (modify fd f m) names ips
Registry-modify fd f m k r =
    Registry-refresh m (modify fd f m) (only_at fd f) (λ j. Keeps-choose (fd == j) f k)
      (find-modify-only_at fd f m) (modify-Distinct fd f m r.distinct_sessions) r
