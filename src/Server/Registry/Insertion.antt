-- ===== src/Server/Registry/Insertion.antt =====
-- The registry under the three writes of `handle_register` of src/server/server.cpp.
use simple_chat_protocol.Prelude.{
  ℕ, String, Bool, true, false, ◌≡◌, subst, inl, inr, none, some, arith, ◌⊎◌, is_empty,
  nat_equality, string_equality,
}
use mathlib.Core.Path.{subst₂}
use simple_chat_protocol.Prelude.Eq.{Equality}
use simple_chat_protocol.Prelude.Map.{Map, find, insert, find-insert, insert-Distinct}
use simple_chat_protocol.Server.State.{SessionInfo}
use simple_chat_protocol.Server.Registry.{Registry, IsIndexed, IsSettled}

-- An entry that is there after a write was written, or was there before.
find-insert_cases {ℓ} :
    {K V : Type ℓ} ⦃e : Equality K⦄ (k j : K) (v : V) (m : Map K V) (u : V)
    → find j (insert k v m) ≡ some u
    → ((k ≡ j) × (v ≡ u)) ⊎ (find j m ≡ some u)
find-insert_cases ⦃e⦄ k j v m u h = ground (arith, find-insert k j v m, e.beq_iff k j)

find-insert_self {ℓ} :
    {K V : Type ℓ} ⦃e : Equality K⦄ (k : K) (v : V) (m : Map K V) → find k (insert k v m) ≡ some v
find-insert_self ⦃e⦄ k v m = ground (arith, find-insert k k v m, e.beq_iff k k)

-- A write of a new key hides nothing.
find-insert_old {ℓ} :
    {K V : Type ℓ} ⦃e : Equality K⦄ (k j : K) (v : V) (m : Map K V) (u : V)
    → find k m ≡ none
    → find j m ≡ some u
    → find j (insert k v m) ≡ some u
find-insert_old ⦃e⦄ k j v m u new h = ground (arith, find-insert k j v m, e.beq_iff k j)

module _ (live : Bool) (m : Map ℕ SessionInfo) (names ips : Map String ℕ) (fd : ℕ) (i : SessionInfo)
    (r : Registry live m names ips) (new_fd : find fd m ≡ none)
    (new_name : find i.username names ≡ none) (new_ip : find i.ip ips ≡ none)
    (socket : i.socket_fd ≡ fd) (named : is_empty i.username ≡ false)
    (alive : live ≡ true → i.alive ≡ true) (settled : IsSettled i) where
  IsIndexed-new : IsIndexed live (insert i.username fd names) (insert i.ip fd ips) fd i
  IsIndexed-new = record {
    socket = socket;
    name = find-insert_self i.username fd names;
    address = find-insert_self i.ip fd ips;
    named = named;
    alive = alive;
    settled = settled;
  }

  IsIndexed-old :
      (j : ℕ) (o : SessionInfo)
      → IsIndexed live names ips j o
      → IsIndexed live (insert i.username fd names) (insert i.ip fd ips) j o
  IsIndexed-old j o x = record {
    socket = x.socket;
    name = find-insert_old i.username o.username fd names j new_name x.name;
    address = find-insert_old i.ip o.ip fd ips j new_ip x.address;
    named = x.named;
    alive = x.alive;
    settled = x.settled;
  }

  -- A session of a new socket, name and address keeps the registry.
  pub Registry-insert :
      Registry live (insert fd i m) (insert i.username fd names) (insert i.ip fd ips)
  Registry-insert = record {
    distinct_sessions = insert-Distinct fd i m r.distinct_sessions;
    distinct_names = insert-Distinct i.username fd names r.distinct_names;
    distinct_ips = insert-Distinct i.ip fd ips r.distinct_ips;
    indexed = λ j o e. elim (find-insert_cases fd j i m o e) [
      | inl (here, is) ↦
          subst₂ (IsIndexed live (insert i.username fd names) (insert i.ip fd ips)) here is
            IsIndexed-new
      | inr old ↦ IsIndexed-old j o (r.indexed j o old)
    ];
    name_owner = λ u j e. elim (find-insert_cases i.username u fd names j e) [
      | inl (here, is) ↦
          (i, subst (λ x. find x (insert fd i m) ≡ some i) is (find-insert_self fd i m), here)
      | inr old ↦
          let (o, found, is) = r.name_owner u j old in
          (o, find-insert_old fd j i m o new_fd found, is)
    ];
    ip_owner = λ a j e. elim (find-insert_cases i.ip a fd ips j e) [
      | inl (here, is) ↦
          (i, subst (λ x. find x (insert fd i m) ≡ some i) is (find-insert_self fd i m), here)
      | inr old ↦
          let (o, found, is) = r.ip_owner a j old in
          (o, find-insert_old fd j i m o new_fd found, is)
    ];
  }
