-- ===== src/Server/Registry/Removal.antt =====
-- The registry under `remove_session` of src/server/server.cpp.
use simple_chat_protocol.Prelude.{
  ℕ, String, Bool, ◌≡◌, ◌≢◌, some, arith, nat_equality, string_equality,
}
use simple_chat_protocol.Prelude.Eq.{Equality}
use simple_chat_protocol.Prelude.Map.{Map, find, erase, Distinct, find-erase, erase-Distinct}
use simple_chat_protocol.Server.State.{SessionInfo}
use simple_chat_protocol.Server.Registry.{Registry, IsIndexed}

find-erase_old {ℓ} :
    {K V : Type ℓ} ⦃e : Equality K⦄ (k j : K) (m : Map K V) (u : V)
    → Distinct m
    → find j (erase k m) ≡ some u
    → (find j m ≡ some u) × (k ≢ j)
find-erase_old ⦃e⦄ k j m u d h = (
  ground (arith, find-erase k j m d, e.beq_iff k j),
  ground (arith, find-erase k j m d, e.beq_iff k j),
)

find-erase_other {ℓ} :
    {K V : Type ℓ} ⦃e : Equality K⦄ (k j : K) (m : Map K V) (u : V)
    → Distinct m
    → find j m ≡ some u
    → k ≢ j
    → find j (erase k m) ≡ some u
find-erase_other ⦃e⦄ k j m u d h ne = ground (arith, find-erase k j m d, e.beq_iff k j)

module _ (live : Bool) (m : Map ℕ SessionInfo) (names ips : Map String ℕ) (fd : ℕ) (i : SessionInfo)
    (r : Registry live m names ips) (here : find fd m ≡ some i) where
  -- Another session has another name and another address.
  other_name : (j : ℕ) (o : SessionInfo) → find j m ≡ some o → fd ≢ j → i.username ≢ o.username
  other_name j o e ne same = ground (arith, (r.indexed fd i here).name, (r.indexed j o e).name)

  other_ip : (j : ℕ) (o : SessionInfo) → find j m ≡ some o → fd ≢ j → i.ip ≢ o.ip
  other_ip j o e ne same = ground (arith, (r.indexed fd i here).address, (r.indexed j o e).address)

  IsIndexed-left :
      (j : ℕ) (o : SessionInfo)
      → find j (erase fd m) ≡ some o
      → IsIndexed live (erase i.username names) (erase i.ip ips) j o
  IsIndexed-left j o e =
      let (old, ne) = find-erase_old fd j m o r.distinct_sessions e in
      let x = r.indexed j o old in
      record {
        socket = x.socket;
        name =
            find-erase_other i.username o.username names j r.distinct_names x.name
              (other_name j o old ne);
        address = find-erase_other i.ip o.ip ips j r.distinct_ips x.address (other_ip j o old ne);
        named = x.named;
        alive = x.alive;
        settled = x.settled;
      }

  -- To erase a session with its two index entries keeps the registry.
  pub Registry-erase : Registry live (erase fd m) (erase i.username names) (erase i.ip ips)
  Registry-erase = record {
    distinct_sessions = erase-Distinct fd m r.distinct_sessions;
    distinct_names = erase-Distinct i.username names r.distinct_names;
    distinct_ips = erase-Distinct i.ip ips r.distinct_ips;
    indexed = IsIndexed-left;
    name_owner = λ u j e.
        let (old, ne) = find-erase_old i.username u names j r.distinct_names e in
        let (o, found, is) = r.name_owner u j old in
        (
          o,
          find-erase_other fd j m o r.distinct_sessions found
              (λ same. ne (ground (arith, same, here, found, is))),
          is,
        );
    ip_owner = λ a j e.
        let (old, ne) = find-erase_old i.ip a ips j r.distinct_ips e in
        let (o, found, is) = r.ip_owner a j old in
        (
          o,
          find-erase_other fd j m o r.distinct_sessions found
              (λ same. ne (ground (arith, same, here, found, is))),
          is,
        );
  }
